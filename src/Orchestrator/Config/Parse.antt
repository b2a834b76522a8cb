-- ===== src/Orchestrator/Config/Parse.antt =====
-- The `parse` methods of config.py.
pub mod Keys
pub mod InRange
pub mod Tests
use jetty.Prelude.{
  ℕ, zero, suc, ◌*◌, ◌+◌, Bool, true, false, not, Option, none, some, List, [], ◌∷◌, ◌++◌, ◌==◌,
  ◌&&◌, leb, if◌then◌else◌,
}
use jetty.Prelude.Dict.{Dict}
use jetty.Prelude.Text.{Str, str_eq, codes, starts_with}
use jetty.Orchestrator.Config.Model.{
  GateConfig, Refresh, spawn, instance_wide, ResolverConfig, ReadyConfig, RestartConfig, StopSignal,
  term, int, hup, StopConfig, ServiceConfig, PortWant, number, text,
}
use jetty.Orchestrator.Config.Validate.{OrchestratorConfig, validate, with_provides, name_matches}
use jetty.Orchestrator.Config.Toml.{
  ℤ, pos, negsuc, Toml, string, integer, boolean, table, Items, nil, cons, Fields, end, field,
}
use jetty.Orchestrator.Config.Table.{
  ParseError, two_probes, bad_url, bad_instance_name, invalid, Table, Taken, took, raised, Parser,
  pure, raise, then_take, ◌>>=◌, ◌>>◌, guard, at, take_str, take_required, over_zero, from_zero,
  take_number, take_signed, take_int, take_bool, take_str_list, take_argv, take_int_list,
  take_str_dict, take_choice, take_table, take_nested, done, in_table,
}

pub data Containment : Type 0 where
  automatic cgroup scope pgroup : Containment

pub record InstanceConfig : Type 0 where
  pub name : Str
  pub containment : Containment
  pub workdir : Option Str

-- The whole configuration, its `instance` beside the rest.
pub record FullConfig : Type 0 where
  pub instance_config : InstanceConfig
  pub config : OrchestratorConfig

-- `quarter` is how many units of time a quarter of a second has.
module _ (quarter : ℕ) where
  abbrev pub seconds : ℕ → ℕ
  seconds n = n * (4 * quarter)

  unfoldable pub gate_fields : Parser GateConfig
  gate_fields = do
    check ← take_argv (codes "check") 1
    recheck ← take_number quarter (codes "recheck_seconds") (seconds 15) over_zero
    timeout ← take_number quarter (codes "timeout_seconds") (seconds 20) over_zero
    continuous ← take_bool (codes "continuous") false
    close_after ← take_int (codes "close_after") 3 1
    done
    pure (record {
      check = check;
      recheck_seconds = recheck;
      timeout_seconds = timeout;
      continuous = continuous;
      close_after = close_after;
    })

  abbrev pub refreshes : Dict Str Refresh
  refreshes = (codes "spawn", spawn) ∷ (codes "instance", instance_wide) ∷ []

  unfoldable pub resolver_fields : Parser ResolverConfig
  resolver_fields = do
    cmd ← take_argv (codes "cmd") 1
    provides ← take_str_list (codes "provides") 0
    timeout ← take_number quarter (codes "timeout_seconds") (seconds 30) over_zero
    refresh ← take_choice (codes "refresh") refreshes (codes "spawn")
    cache ← take_signed quarter (codes "cache_seconds") (seconds 5) from_zero
    copy ← take_bool (codes "copy") false
    keep ← take_number quarter (codes "copy_keep_days") (seconds 7) over_zero
    requires ← take_str_list (codes "requires") 0
    done
    pure (record {
      cmd = cmd;
      provides = provides;
      timeout_seconds = timeout;
      refresh = refresh;
      cache_seconds = cache;
      copy_binaries = copy;
      copy_keep_days = keep;
      requires = requires;
    })

  -- `sum(x is not None ...)`
  abbrev pub one_if_some : Option Str → ℕ
  one_if_some none = 0
  one_if_some (some s) = 1

  abbrev pub probes : ReadyConfig → ℕ
  probes cfg =
      one_if_some cfg.http + one_if_some cfg.tcp + one_if_some cfg.uds + one_if_some cfg.path

  abbrev pub is_http_url : Option Str → Bool
  is_http_url none = true
  is_http_url (some url) = starts_with url (codes "http://")

  -- From `t.done()` on.
  unfoldable pub ready_checked : Str → ReadyConfig → Parser ReadyConfig
  ready_checked place cfg = do
    done
    guard (leb (probes cfg) 1) (two_probes place)
    guard (is_http_url cfg.http) (bad_url place)
    pure cfg

  unfoldable pub ready_fields : Str → Parser ReadyConfig
  unfolding ready_checked
  ready_fields place = do
    http ← take_str (codes "http")
    tcp ← take_str (codes "tcp")
    uds ← take_str (codes "uds")
    path ← take_str (codes "path")
    timeout ← take_number quarter (codes "timeout_seconds") (seconds 30) over_zero
    interval ← take_number quarter (codes "interval_seconds") quarter over_zero
    ready_checked place (record {
      http = http;
      tcp = tcp;
      uds = uds;
      path = path;
      timeout_seconds = timeout;
      interval_seconds = interval;
    })

  unfoldable pub restart_fields : Parser RestartConfig
  restart_fields = do
    max_restarts ← take_int (codes "max_restarts") 3 0
    window ← take_number quarter (codes "window_seconds") (seconds 60) over_zero
    initial ← take_number quarter (codes "backoff_initial_seconds") (quarter + quarter) over_zero
    longest ← take_number quarter (codes "backoff_max_seconds") (seconds 15) over_zero
    no_restart_exit ← take_int_list (codes "no_restart_exit") (cons (integer (pos 2)) nil)
    done
    pure (record {
      max_restarts = max_restarts;
      window_seconds = window;
      backoff_initial_seconds = initial;
      backoff_max_seconds = longest;
      no_restart_exit = no_restart_exit;
    })

  abbrev pub signals : Dict Str StopSignal
  signals = (codes "TERM", term) ∷ (codes "INT", int) ∷ (codes "HUP", hup) ∷ []

  unfoldable pub stop_fields : Parser StopConfig
  stop_fields = do
    signal ← take_choice (codes "signal") signals (codes "TERM")
    grace ← take_number quarter (codes "grace_seconds") (seconds 10) over_zero
    done
    pure (record { signal = signal; grace_seconds = grace })

  -- Each nested table is read in its own place.
  unfoldable pub service_fields : Str → Parser ServiceConfig
  service_fields place = do
    cmd ← take_argv (codes "cmd") 1
    cwd ← take_str (codes "cwd")
    env ← take_str_dict (codes "env")
    after ← take_str_list (codes "after") 0
    requires ← take_str_list (codes "requires") 0
    watch ← take_str_list (codes "watch") 0
    ready ← take_nested (ready_fields (at place (codes "ready"))) (codes "ready")
    restart ← take_nested restart_fields (codes "restart")
    stop ← take_nested stop_fields (codes "stop")
    done
    pure (record {
      cmd = cmd;
      cwd = cwd;
      env = env;
      after = after;
      requires = requires;
      ready = ready;
      restart = restart;
      stop = stop;
      watch = watch;
    })

  abbrev pub containments : Dict Str Containment
  containments =
      (codes "auto", automatic)
      ∷ (codes "cgroup", cgroup)
      ∷ (codes "scope", scope)
      ∷ (codes "pgroup", pgroup)
      ∷ []

  unfoldable pub instance_fields : Parser InstanceConfig
  instance_fields = do
    name ← take_required (codes "name")
    containment ← take_choice (codes "containment") containments (codes "auto")
    workdir ← take_str (codes "workdir")
    done
    guard (name_matches name) (bad_instance_name name)
    pure (record { name = name; containment = containment; workdir = workdir })

  -- The dictionary comprehensions: `p` reads each entry in the place of its name.
  unfoldable pub each_entry {ℓ} :
      {A : Type ℓ} → (Str → Parser A) → Str → Fields → Parser (Dict Str A)
  each_entry p kind end t = took [] t
  each_entry p kind (field n v d) t =
      let place = at kind n in
      elim (in_table (p place) v place) [
        | raised e ↦ raised e
        | took a t' ↦ (do rest ← each_entry p kind d; pure ((n, a) ∷ rest)) t
      ]

  -- Python's `True` is the integer 1; what is neither an integer nor a string is no port spec, as
  -- are the integers below 1, which `number 0` stands for.
  abbrev pub port_want : Toml → PortWant
  port_want (string s) = text s
  port_want (integer (pos n)) = number n
  port_want (boolean true) = number 1
  port_want _ = number 0

  unfoldable pub port_wants : Fields → Dict Str PortWant
  port_wants end = []
  port_wants (field n v d) = (n, port_want v) ∷ port_wants d

  abbrev pub validated : FullConfig → Parser FullConfig
  validated full t = elim (validate full.config) [
    | some e ↦ raised (invalid e)
    | none ↦ took (record full { config = with_provides full.config }) t
  ]

  -- `_Table(raw, "")`, `_validate` included.
  unfoldable pub config_fields : Parser FullConfig
  config_fields = do
    instance_config ← take_nested instance_fields (codes "instance")
    ports ← take_table (codes "ports")
    gate_tables ← take_table (codes "gates")
    gates ← each_entry (λ _. gate_fields) (codes "gates") gate_tables
    resolver_tables ← take_table (codes "resolvers")
    resolvers ← each_entry (λ _. resolver_fields) (codes "resolvers") resolver_tables
    service_tables ← take_table (codes "services")
    services ← each_entry service_fields (codes "services") service_tables
    done
    validated (record {
      instance_config = instance_config;
      config = record {
        ports = port_wants ports;
        gates = gates;
        resolvers = resolvers;
        services = services;
      };
    })

  unfoldable pub parse : Fields → Taken FullConfig
  parse raw = config_fields (record { raw = raw; place = [] })
