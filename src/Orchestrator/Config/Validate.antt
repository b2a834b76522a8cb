-- ===== src/Orchestrator/Config/Validate.antt =====
-- `_validate` of config.py, and the placeholders that it looks for.
pub mod References
use mathlib.Core.Option
use jetty.Prelude.{
  ℕ, zero, suc, Bool, true, false, not, Option, none, some, List, [], ◌∷◌, ◌++◌, ◌==◌, ◌&&◌, ◌||◌,
  leb, eqb, all, any, keep, contains, nonempty, drop, if◌then◌else◌, nat_eq, ◌⊎◌, inl, inr,
}
use jetty.Prelude.Dict.{Dict, keys, values, get, has, put}
use jetty.Prelude.Text.{Str, str_eq, codes, starts_with, is_digit}
use jetty.Prelude.Text.Format.{template_fields}
use jetty.Orchestrator.Config.Model.{
  GateConfig, ResolverConfig, ReadyConfig, ServiceConfig, PortWant, number, text,
}
use jetty.Orchestrator.Config.PortSpec.{PortSpec, auto, range, parse_port_spec}
use jetty.Orchestrator.Config.StartOrder.{Outcome, order, cycle, out_of_fuel, start_order}

pub record OrchestratorConfig : Type 0 where
  pub ports : Dict Str PortWant
  pub gates : Dict Str GateConfig
  pub resolvers : Dict Str ResolverConfig
  pub services : Dict Str ServiceConfig

-- The messages, one constructor for each `raise`.
pub data ConfigError : Type 0 where
  no_services bad_name bad_port duplicate_port bad_bin_name duplicate_bin : ConfigError
  resolver_uses_bin resolver_unknown_gate gate_uses_bin : ConfigError
  after_itself after_unknown unknown_gate unknown_bin after_cycle : ConfigError

abbrev pub lower_or_digit : ℕ → Bool
lower_or_digit c = (leb b'a' c && leb c b'z') || is_digit c

abbrev pub name_char : ℕ → Bool
name_char c = lower_or_digit c || eqb c b'_' || eqb c b'-'

-- `[a-z0-9_-]{0,left}$`: `$` matches before a line feed that ends the text, too.
unfoldable pub name_rest : ℕ → Str → Bool
name_rest left [] = true
name_rest zero (c ∷ s) = eqb c 10 && not (nonempty s)
name_rest (suc left) (c ∷ s) =
    let rest = name_rest left s in if name_char c then rest else eqb c 10 && not (nonempty s)

-- `_NAME_RE.match(name)`
unfoldable pub name_matches : Str → Bool
unfolding name_rest
name_matches [] = false
name_matches (c ∷ s) = lower_or_digit c && name_rest 63 s

-- `bin_refs`: the names behind "bin." among the fields; a malformed template has none.
unfoldable pub bin_names : List Str → List Str
bin_names [] = []
bin_names (f ∷ fs) =
    let rest = bin_names fs in if starts_with f (codes "bin.") then drop 4 f ∷ rest else rest

unfoldable pub bin_refs : List Str → List Str
unfolding bin_names
bin_refs [] = []
bin_refs (s ∷ ss) =
    let rest = bin_refs ss in
    elim (template_fields s) [ none ↦ rest | some fs ↦ bin_names fs ++ rest ]

abbrev pub or_empty : Option Str → Str
or_empty none = []
or_empty (some s) = s

unfoldable pub service_bin_refs : ServiceConfig → List Str
unfolding bin_refs
service_bin_refs svc = bin_refs (
    svc.cmd
    ++ (svc.watch
        ++ (values svc.env
            ++ (or_empty svc.cwd
                ∷ or_empty svc.ready.http
                ∷ or_empty svc.ready.tcp
                ∷ or_empty svc.ready.uds
                ∷ or_empty svc.ready.path
                ∷ []))))

-- The loop over `self.ports`; `fixed` maps the ports pinned so far to their names.
unfoldable pub check_ports : Dict ℕ Str → Dict Str PortWant → Option ConfigError
check_ports fixed [] = none
check_ports fixed ((name, want) ∷ ports) =
    let templated = elim want as (λ _. Bool) [ number n ↦ false | text s ↦ contains s b'{' ] in
    let skip = check_ports fixed ports in
    if templated then skip else elim (parse_port_spec want) [
      | none ↦ some bad_port
      | some auto ↦ check_ports fixed ports
      | some (range low high) ↦
          let unpinned = check_ports fixed ports in
          let pinned = check_ports (put fixed low name) ports in
          if eqb low high then (if has fixed low then some duplicate_port else pinned) else unpinned
    ]

-- `resolver.provides`, which is the resolver's own name by default.
unfoldable pub provides_of : Str → ResolverConfig → List Str
provides_of rname resolver = if nonempty resolver.provides then resolver.provides else rname ∷ []

-- The loop over the names that a resolver provides.
unfoldable pub add_provided : Str → List Str → Dict Str Str → ConfigError ⊎ Dict Str Str
add_provided rname [] provided = inr provided
add_provided rname (b ∷ bs) provided =
    let rest = add_provided rname bs (put provided b rname) in
    if not (name_matches b)
    then inl bad_bin_name
    else if has provided b
    then inl duplicate_bin
    else rest

-- The loop over `self.resolvers`.
unfoldable pub check_resolvers :
    Dict Str GateConfig → Dict Str ResolverConfig → Dict Str Str → ConfigError ⊎ Dict Str Str
unfolding add_provided provides_of
check_resolvers gates [] provided = inr provided
check_resolvers gates ((rname, resolver) ∷ resolvers) provided =
    elim (add_provided rname (provides_of rname resolver) provided) [
      | inl e ↦ inl e
      | inr more ↦
          let rest = check_resolvers gates resolvers more in
          if nonempty (bin_refs resolver.cmd)
          then inl resolver_uses_bin
          else if not (all (has gates) resolver.requires)
          then inl resolver_unknown_gate
          else rest
    ]

-- The loop over one service's `after`.
unfoldable pub check_after : Dict Str ServiceConfig → Str → List Str → Option ConfigError
check_after services sname [] = none
check_after services sname (dep ∷ deps) =
    let rest = check_after services sname deps in
    if dep == sname
    then some after_itself
    else if not (has services dep)
    then some after_unknown
    else rest

-- The loop over `self.services`.
unfoldable pub check_services :
    OrchestratorConfig → Dict Str Str → Dict Str ServiceConfig → Option ConfigError
unfolding check_after service_bin_refs
check_services cfg provided [] = none
check_services cfg provided ((sname, svc) ∷ services) =
    let rest = check_services cfg provided services in
    elim (check_after cfg.services sname svc.after) [
      | some e ↦ some e
      | none ↦
          if not (all (has cfg.gates) svc.requires)
          then some unknown_gate
          else if not (all (has provided) (service_bin_refs svc))
          then some unknown_bin
          else rest
    ]

-- From the loop over `self.services` on.
unfoldable pub validate_services : OrchestratorConfig → Dict Str Str → Option ConfigError
validate_services cfg provided = elim (check_services cfg provided cfg.services) [
  | some e ↦ some e
  | none ↦ elim (start_order cfg.services) [
    | order names ↦ none
    | cycle names ↦ some after_cycle
    | out_of_fuel ↦ some after_cycle
  ]
]

-- From the loop over `self.resolvers` on.
unfoldable pub validate_resolvers : OrchestratorConfig → Option ConfigError
validate_resolvers cfg = elim (check_resolvers cfg.gates cfg.resolvers []) [
  | inl e ↦ some e
  | inr provided ↦
      let rest = validate_services cfg provided in
      if any (λ (g : GateConfig). nonempty (bin_refs g.check)) (values cfg.gates)
      then some gate_uses_bin
      else rest
]

-- `_validate`: the first error, or none.
unfoldable pub validate : OrchestratorConfig → Option ConfigError
validate cfg =
    let rest = validate_resolvers cfg in
    if not (nonempty cfg.services)
    then some no_services
    else if not (
        all name_matches (keys cfg.ports)
        && all name_matches (keys cfg.gates)
        && all name_matches (keys cfg.resolvers)
        && all name_matches (keys cfg.services))
    then some bad_name
    else elim (check_ports [] cfg.ports) [ some e ↦ some e | none ↦ rest ]

-- The change that `_validate` makes: a resolver that provides nothing provides its own name.
unfoldable pub set_provides : Dict Str ResolverConfig → Dict Str ResolverConfig
unfolding provides_of
set_provides [] = []
set_provides ((rname, resolver) ∷ resolvers) =
    (rname, record resolver { provides = provides_of rname resolver }) ∷ set_provides resolvers

abbrev pub with_provides : OrchestratorConfig → OrchestratorConfig
with_provides cfg = record cfg { resolvers = set_provides cfg.resolvers }
