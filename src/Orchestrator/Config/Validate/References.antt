-- ===== src/Orchestrator/Config/Validate/References.antt =====
-- A configuration that `_validate` accepts has no dangling reference and a start order.
use jetty.Prelude.{
  true, false, none, some, List, [], ◌∷◌, ◌≡◌, ◌≢◌, ◌⊎◌, inl, inr, refl, sym, ◌∙◌, all, contains,
  arith, Bool-cases, Option-cases, all-true,
}
use jetty.Prelude.Dict.{Dict, keys, get, has, has-keys}
use jetty.Prelude.Text.{Str, str_eq}
use jetty.Orchestrator.Config.Model.{ServiceConfig}
use jetty.Orchestrator.Config.StartOrder.{order, start_order, Outcome-cases}
use jetty.Orchestrator.Config.StartOrder.Acyclic.{KnownDeps}
use jetty.Orchestrator.Config.Validate.{
  OrchestratorConfig, ConfigError, name_matches, service_bin_refs, check_resolvers, check_after,
  check_services, validate_services, validate_resolvers, validate,
}

check_after-none :
    (services : Dict Str ServiceConfig) (sname : Str) (deps : List Str) (d : Str)
    → check_after services sname deps ≡ none
    → contains deps d ≡ true
    → (has services d ≡ true) × (d ≢ sname)
unfolding check_after
check_after-none services sname [] d h m = cc
check_after-none services sname (dep ∷ deps) d h m =
    let later : check_after services sname deps ≡ none = ground arith in
    let known : has services dep ≡ true = ground arith in
    elim (str_eq.dec d dep) [
      | yes e ↦ (rw e known, λ p. ground arith)
      | no ne ↦ check_after-none services sname deps d later (ground arith)
    ]

-- What the loop over the services has checked of one of them.
pub record IsResolved (cfg : OrchestratorConfig) (provided : Dict Str Str) (sname : Str)
    (svc : ServiceConfig) : Type 0 where
  pub deps_known : (d : Str) → contains svc.after d ≡ true → has cfg.services d ≡ true
  pub not_itself : contains svc.after sname ≡ false
  pub gates_known : (g : Str) → contains svc.requires g ≡ true → has cfg.gates g ≡ true
  pub bins_provided : (b : Str) → contains (service_bin_refs svc) b ≡ true → has provided b ≡ true

check_services-none :
    (cfg : OrchestratorConfig) (provided : Dict Str Str) (m : Dict Str ServiceConfig) (sname : Str)
    (svc : ServiceConfig)
    → check_services cfg provided m ≡ none
    → get m sname ≡ some svc
    → IsResolved cfg provided sname svc
unfolding check_services get
check_services-none cfg provided [] sname svc h g = cc
check_services-none cfg provided ((k, first) ∷ m) sname svc h g =
    let deps : check_after cfg.services k first.after ≡ none = ground arith in
    let gates : all (has cfg.gates) first.requires ≡ true = ground arith in
    let bins : all (has provided) (service_bin_refs first) ≡ true = ground arith in
    let later : check_services cfg provided m ≡ none = ground arith in
    elim (str_eq.dec sname k) [
      | yes e ↦
          let same : first ≡ svc = ground arith in
          rw (e, ← same)
            (record {
              deps_known = λ d p. (check_after-none cfg.services k first.after d deps p).0;
              not_itself = elim (Bool-cases (contains first.after k)) [
                | inl p ↦ absurd ((check_after-none cfg.services k first.after k deps p).1 refl)
                | inr p ↦ p
              ];
              gates_known = λ x p. all-true (has cfg.gates) first.requires x gates p;
              bins_provided = λ b p. all-true (has provided) (service_bin_refs first) b bins p;
            })
      | no ne ↦ check_services-none cfg provided m sname svc later (ground arith)
    ]

-- What acceptance guarantees.
pub record IsValidated (cfg : OrchestratorConfig) : Type 0 where
  pub provided : Dict Str Str
  pub bins : check_resolvers cfg.gates cfg.resolvers [] ≡ inr provided
  pub resolved :
      (sname : Str) (svc : ServiceConfig)
      → get cfg.services sname ≡ some svc
      → IsResolved cfg provided sname svc
  pub names : List Str
  pub ordered : start_order cfg.services ≡ order names
  pub named : all name_matches (keys cfg.services) ≡ true

services-none :
    (cfg : OrchestratorConfig) (provided : Dict Str Str)
    → validate_services cfg provided ≡ none
    → (check_services cfg provided cfg.services ≡ none)
      × ((names : List Str) × (start_order cfg.services ≡ order names))
unfolding validate_services
services-none cfg provided h =
    let checked : check_services cfg provided cfg.services ≡ none = ground arith in
    elim (Outcome-cases (start_order cfg.services)) [
      | inl found ↦ (checked, found)
      | inr (inl (names, e)) ↦ absurd (ground arith)
      | inr (inr e) ↦ absurd (ground arith)
    ]

resolvers-none :
    (cfg : OrchestratorConfig)
    → validate_resolvers cfg ≡ none
    → (provided : Dict Str Str) × (check_resolvers cfg.gates cfg.resolvers [] ≡ inr provided)
      × (validate_services cfg provided ≡ none)
unfolding validate_resolvers
resolvers-none cfg h = split (check_resolvers cfg.gates cfg.resolvers []) refl
  where
    split :
        (r : ConfigError ⊎ Dict Str Str)
        → check_resolvers cfg.gates cfg.resolvers [] ≡ r
        → (provided : Dict Str Str) × (check_resolvers cfg.gates cfg.resolvers [] ≡ inr provided)
          × (validate_services cfg provided ≡ none)
    split (inl e) q = absurd (ground arith)
    split (inr provided) q = (provided, q, ground arith)

-- A configuration that `_validate` accepts is resolved: every name in `after`, `requires` and a
-- {bin.*} placeholder of a service exists, no service is after itself, `start_order` returns an
-- order, and the names of the services match the pattern.
pub validate-IsValidated : (cfg : OrchestratorConfig) → validate cfg ≡ none → IsValidated cfg
unfolding validate
validate-IsValidated cfg h =
    let rest : validate_resolvers cfg ≡ none = ground arith in
    let bins = resolvers-none cfg rest in
    let services = services-none cfg bins.0 bins.2 in
    record {
      provided = bins.0;
      bins = bins.1;
      resolved = λ sname svc g. check_services-none cfg bins.0 cfg.services sname svc services.0 g;
      names = services.1.0;
      ordered = services.1.1;
      named = ground arith;
    }

pub validate-KnownDeps : (cfg : OrchestratorConfig) → IsValidated cfg → KnownDeps cfg.services
validate-KnownDeps cfg v n d h = elim (Option-cases (get cfg.services n)) [
  | inl e ↦ absurd (ground arith)
  | inr (svc, e) ↦ sym (has-keys cfg.services d) ∙ (v.resolved n svc e).deps_known d (ground arith)
]
