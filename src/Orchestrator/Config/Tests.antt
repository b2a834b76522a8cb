-- ===== src/Orchestrator/Config/Tests.antt =====
-- Runs of the configuration's operations, and the theorems at concrete inputs.
use mathlib.Core.List.{Perm}
use jetty.Prelude.{
  ℕ, none, some, true, false, List, [], ◌∷◌, ◌≡◌, ◌↔◌, ◌++◌, refl, Distinct, nat_eq, sorted,
}
use jetty.Prelude.Dict.{Dict, keys, get, put}
use jetty.Prelude.Text.{Str, codes, str_eq, partition, int_from, starts_with}
use jetty.Prelude.Text.Format.{fields_from, step, name_step}
use jetty.Orchestrator.Config.Toml.{pos}
use jetty.Orchestrator.Config.Model.{ServiceConfig, spawn, term, exited, number, text}
use jetty.Orchestrator.Config.StartOrder.{order, cycle, start_order}
use jetty.Orchestrator.Config.StartOrder.Permutation.{start_order-perm}
use jetty.Orchestrator.Config.StartOrder.DepsFirst.{after_of, DepsFirst, start_order-DepsFirst}
use jetty.Orchestrator.Config.StartOrder.Acyclic.{KnownDeps, Ranks, start_order-iff_acyclic}
use jetty.Orchestrator.Config.PortSpec.{
  range, fixed_port, bounded_range, parse_port_spec, parse_port_text,
}
use jetty.Orchestrator.Config.PortSpec.Range.{IsPortRange, parse_port_spec-IsPortRange}
use jetty.Orchestrator.Config.PortSpec.Forms.{Denotes, parse_port_text_iff}
use jetty.Orchestrator.Config.Validate.{
  OrchestratorConfig, validate, check_ports, check_resolvers, add_provided, provides_of,
  check_services, check_after, validate_services, validate_resolvers, name_matches,
  service_bin_refs, bin_refs,
}
use jetty.Orchestrator.Config.Validate.References.{
  IsValidated, validate-IsValidated, validate-KnownDeps,
}

abbrev pub plain_service : List Str → ServiceConfig
plain_service after = record {
  cmd = codes "run" ∷ [];
  cwd = none;
  env = [];
  after = after;
  requires = [];
  ready = record {
    http = none;
    tcp = none;
    uds = none;
    path = none;
    timeout_seconds = 30;
    interval_seconds = 1;
  };
  restart = record {
    max_restarts = 3;
    window_seconds = 60;
    backoff_initial_seconds = 1;
    backoff_max_seconds = 15;
    no_restart_exit = exited 2 ∷ [];
  };
  stop = record { signal = term; grace_seconds = 10 };
  watch = [];
}

abbrev pub shop_services : Dict Str ServiceConfig
shop_services =
    (codes "web", plain_service (codes "db" ∷ codes "api" ∷ []))
    ∷ (
      codes "api",
      record (plain_service (codes "db" ∷ [])) {
        cmd = codes "{bin.api}" ∷ codes "--port={ports.api}" ∷ [];
        requires = codes "vpn" ∷ [];
      },
    )
    ∷ (codes "db", plain_service [])
    ∷ []

abbrev pub shop : OrchestratorConfig
shop = record {
  ports = (codes "api", text (codes "8000-8020")) ∷ (codes "web", number 80) ∷ [];
  gates =
      (
        codes "vpn",
        record {
          check = codes "ping" ∷ [];
          recheck_seconds = 15;
          timeout_seconds = 20;
          continuous = true;
          close_after = 3;
        },
      )
      ∷ [];
  resolvers =
      (
        codes "api",
        record {
          cmd = codes "which" ∷ [];
          provides = [];
          timeout_seconds = 30;
          refresh = spawn;
          cache_seconds = pos 5;
          copy_binaries = false;
          copy_keep_days = 7;
          requires = [];
        },
      )
      ∷ [];
  services = shop_services;
}

abbrev shop_order : List Str
shop_order = codes "db" ∷ codes "api" ∷ codes "web" ∷ []

pub start_order-shop : start_order shop_services ≡ order shop_order
unfolding start_order str_eq sorted
start_order-shop = refl

pub Distinct-shop : Distinct (keys shop_services)
unfolding str_eq
Distinct-shop = (refl, (refl, (refl, tt)))

pub validate-shop : validate shop ≡ none
unfolding validate check_ports parse_port_spec bounded_range fixed_port partition int_from
    validate_resolvers check_resolvers add_provided provides_of bin_refs fields_from step name_step
    validate_services check_services check_after service_bin_refs starts_with name_matches get put
    start_order sorted str_eq nat_eq
validate-shop = refl

-- Two services that wait for one another.
start_order-cycle :
    start_order (
      (codes "b", plain_service (codes "a" ∷ []))
      ∷ (codes "a", plain_service (codes "b" ∷ []))
      ∷ [])
    ≡ cycle (codes "a" ∷ codes "b" ∷ [])
unfolding start_order str_eq sorted
start_order-cycle = refl

-- The pattern for names lets a line feed stand at the end.
name_matches-line_feed : name_matches (codes "web" ++ 10 ∷ []) ≡ true
unfolding name_matches
name_matches-line_feed = refl

start_order-perm_example : Perm shop_order (keys shop_services)
start_order-perm_example = start_order-perm shop_services Distinct-shop start_order-shop

start_order-DepsFirst_example : DepsFirst (after_of shop_services) [] shop_order
start_order-DepsFirst_example = start_order-DepsFirst shop_services Distinct-shop start_order-shop

shop-KnownDeps : KnownDeps shop_services
shop-KnownDeps = validate-KnownDeps shop (validate-IsValidated shop validate-shop)

start_order-iff_acyclic_example :
    ((result : List Str) × (start_order shop_services ≡ order result))
    ↔ ((rank : Str → ℕ) × Ranks shop_services rank)
start_order-iff_acyclic_example = start_order-iff_acyclic shop_services Distinct-shop shop-KnownDeps

validate-IsValidated_example : IsValidated shop
validate-IsValidated_example = validate-IsValidated shop validate-shop

parse-range : parse_port_spec (text (codes "8000-8020")) ≡ some (range 8000 8020)
unfolding parse_port_spec bounded_range partition int_from str_eq
parse-range = refl

parse_port_spec-IsPortRange_example : IsPortRange (range 8000 8020)
parse_port_spec-IsPortRange_example =
    parse_port_spec-IsPortRange (text (codes "8000-8020")) parse-range

parse_port_text_iff_example :
    (parse_port_text (codes "8000+") ≡ some (range 8000 65535))
    ↔ Denotes (codes "8000+") (range 8000 65535)
parse_port_text_iff_example = parse_port_text_iff (codes "8000+") (range 8000 65535)
