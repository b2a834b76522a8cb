-- ===== src/Lib.antt =====
-- jetty: a sidecar that gives open-source binaries a published protocol for corporate
-- infrastructure, and `jetty-orc`, the orchestrator that runs an instance of services.
--
-- Modelled here:
--   Prelude       Python's dicts, strings, sorting, shell-style splitting and template parsing,
--                 as the program uses them. A string is the list of its code points; the tests on digits are those
--                 of ASCII. A dict is its entries in insertion order.
--   Core          src/jetty:
--     Headers     headers.py: `get_all`, `sole`, `to_wire`, `from_wire`; Python's `lower` is a
--                 parameter
--   Orchestrator  src/jetty/orchestrator:
--     Config      config.py: the objects that it validates (Model), the tables of TOML and
--                 `merge_raw` (Toml), `load_raw` (Extends), `_Table` (Table), the `parse`
--                 methods (Parse), `parse_port_spec` (PortSpec), `start_order` (StartOrder),
--                 `_validate` (Validate). The parser of TOML, the resolution of paths and the
--                 files are parameters; a float is finite. The configuration that `parse` gives has
--                 the provisions that `_validate` sets.
--     Service     service.py: `Service.run`, which waits for the dependencies (`run`) and then
--                 loops (`run_loop`), `_block`, `restart`, the restart budget. A turn of the loop
--                 is a function of the state and of what the world does in that turn. The delay
--                 after a crash is a float times a power of two: `backoff_delay` gives none where
--                 Python raises the OverflowError, at the 1025th crash within the window, and
--                 `run` then dies with the state that it has.
--     GateWatch below Service: `_watch_continuous_gates`, whose wakes and polls are given
--     Console     console.py: `LineBuffer`; the decoding of bytes is a parameter
--     Gates       gates.py: `_run`, `_check` with its cache, `satisfied`
--     Ports       ports.py: `allocate_ports` over a host: its families, the ports that other
--                 programs hold and the kernel's choice for port 0 are parameters
--     Resolvers   resolvers.py: `parse_output`
--     Supervisor  supervisor.py: `_stop_all` (Stop)
--   Modules       src/jetty/modules:
--     Mail        mail/driver.py and mail/spool.py: the driver that delivers into a directory.
--                 The digest of a key is a parameter, and how a write of a file ends is given.
--     Paging      `_paginate` of the two mock drivers, and a client that follows its tokens
--     IssueTracker  issuetracker/driver.py and mock.py: the data, the edits of an issue (Fields),
--                 the state and the operations that change it (Mock), `list_issues` (Query).
--                 A time is a count of microseconds; readings of the clock are arguments.
--     Chat        chat/driver.py and mock.py: the data, the state and the spaces (Mock), the
--                 messages, reactions and uploads (Messages); times as for IssueTracker, so
--                 that a quote is stale beyond one microsecond exactly, where the source takes the
--                 difference of two floats
--
-- How the parts meet: `_validate` guarantees what `start_order` and `_stop_all` rely on; the
-- supervisor starts the services in the order of `start_order`, and stops them in the waves of
-- `_stop_all`; a service that fails tells the supervisor, which then stops all.
--
-- Loops and fuel: `start_order` has one round for each service, and `_stop_all` one wave for each
-- service, which is enough as each round or wave takes away at least one name. `Service.run`
-- takes one turn of the world at a time, and has no fuel. `_bind_auto` makes the 64 attempts
-- of the source. `load_raw` is given fuel beyond the number of files, each of which it reads once.
--
-- Durations are counts of one unit of time, as the program only compares, adds and scales them.
-- Not modelled: processes, sockets and files themselves, the web server and its handlers, and
-- text outside ASCII where Python classifies characters.
pub mod Prelude
pub mod Core
pub mod Orchestrator
pub mod Modules
