-- ===== src/Orchestrator/Supervisor/Stop/Waves.antt =====
-- `_stop_all` ends for an acyclic configuration, and stops each service once, dependents first.
use mathlib.Core.List.{Perm, flatten}
use mathlib.Core.List.Perm
use jetty.Prelude.{
  ℕ, zero, suc, ◌≤◌, ◌<◌, ◌+◌, Bool, true, false, not, none, some, List, [], ◌∷◌, ◌++◌, ◌≡◌, ◌≢◌,
  refl, sym, ◌∙◌, inl, inr, ◌||◌, ◌&&◌, keep, all, contains, length, arith, List-cases, Distinct,
  contains-sorted, contains-append, contains-keep, length-keep, sorted-perm, keep-perm, keep-same,
  all-false, all-true, contains-perm,
}
use jetty.Prelude.Dict.{Dict, keys, get_or}
use jetty.Prelude.Text.{Str, str_eq, str_le}
use jetty.Orchestrator.Config.Model.{ServiceConfig}
use jetty.Orchestrator.Config.StartOrder.{order, start_order}
use jetty.Orchestrator.Config.StartOrder.Permutation.{start_order-perm}
use jetty.Orchestrator.Config.StartOrder.DepsFirst.{after_of}
use jetty.Orchestrator.Config.StartOrder.Acyclic.{
  KnownDeps, Ranks, index, start_order-Ranks, after_of-known,
}
use jetty.Orchestrator.Config.Validate.{OrchestratorConfig, validate}
use jetty.Orchestrator.Config.Validate.References.{validate-IsValidated, validate-KnownDeps}
use jetty.Orchestrator.Supervisor.Stop.{wave_of, stop_loop, stop_all}
use jetty.Orchestrator.Supervisor.Stop.Dependents.{collect_dependents_lem}

-- Each wave stops only services whose dependents are all in earlier waves, or in `stopped`.
abbrev pub DependentsFirst : Dict Str ServiceConfig → List Str → List (List Str) → Type 0
DependentsFirst services stopped [] = Unit
DependentsFirst services stopped (wave ∷ waves) =
    ((n s : Str)
      → contains wave n ≡ true
      → contains (after_of services s) n ≡ true
      → contains stopped s ≡ true)
    × DependentsFirst services (stopped ++ wave) waves

length-keep-lt :
    (p : Str → Bool) (xs : List Str) (a : Str)
    → contains xs a ≡ true
    → p a ≡ false
    → length (keep p xs) < length xs
length-keep-lt p [] a h q = cc
length-keep-lt p (x ∷ xs) a h q = ground (arith, length-keep p xs, length-keep-lt p xs a)

module _ (services : Dict Str ServiceConfig) (table : Dict Str (List Str))
    (listed : (n s : Str) → contains (get_or table n []) s ≡ contains (after_of services s) n)
    (rank : Str → ℕ) (top : ℕ) (ranks : Ranks services rank)
    (below : (n : Str) → rank n ≤ top) where
  abbrev may_stop : List Str → Str → Bool
  may_stop stopped n = all (contains stopped) (get_or table n [])

  abbrev left : List Str → List Str → List Str
  left remaining stopped = keep (λ n. not (contains (wave_of table remaining stopped) n)) remaining

  contains-wave_of :
      (remaining stopped : List Str) (n : Str)
      → contains (wave_of table remaining stopped) n ≡ (contains remaining n && may_stop stopped n)
  unfolding wave_of
  contains-wave_of remaining stopped n =
      contains-sorted str_le (keep (may_stop stopped) remaining) n
      ∙ contains-keep (may_stop stopped) remaining n

  wave-perm :
      (remaining stopped : List Str)
      → Perm (wave_of table remaining stopped ++ left remaining stopped) remaining
  unfolding wave_of
  wave-perm remaining stopped =
      rw
        (keep-same (λ n. not (contains (wave_of table remaining stopped) n))
          (λ n. not (may_stop stopped n)) remaining
          (λ n m. ground (arith, contains-wave_of remaining stopped n)))
        (Perm.trans
          (Perm.append_right (keep (λ n. not (may_stop stopped n)) remaining)
            (sorted-perm str_le (keep (may_stop stopped) remaining)))
          (keep-perm (may_stop stopped) remaining))

  -- Whatever has a dependency is still to be stopped, or is stopped.
  abbrev Accounted : List Str → List Str → Type 0
  Accounted remaining stopped =
      (n s : Str)
      → contains (after_of services s) n ≡ true
      → (contains remaining s || contains stopped s) ≡ true

  -- If no service may stop, each leads to one of higher rank.
  no_stuck :
      (gap : ℕ) (remaining stopped : List Str) (n : Str)
      → top < rank n + gap
      → Accounted remaining stopped
      → wave_of table remaining stopped ≡ []
      → contains remaining n ≢ true
  no_stuck zero remaining stopped n h acc e m = absurd (omega (arith, below n))
  no_stuck (suc gap) remaining stopped n h acc e m =
      let waits : may_stop stopped n ≡ false =
        ground (arith, contains-wave_of remaining stopped n, e) in
      let found = all-false (contains stopped) (get_or table n []) waits in
      let after : contains (after_of services found.0) n ≡ true =
        sym (listed n found.0) ∙ found.1 in
      let rises : rank n < rank found.0 = ranks found.0 n after in
      no_stuck gap remaining stopped found.0 (omega arith) acc e
        (ground (arith, acc n found.0 after, found.2))

  Accounted-next :
      (remaining stopped : List Str)
      → Accounted remaining stopped
      → Accounted (left remaining stopped) (stopped ++ wave_of table remaining stopped)
  Accounted-next remaining stopped acc n s p = ground (
    arith,
    acc n s p,
    contains-append stopped (wave_of table remaining stopped) s,
    contains-keep (λ x. not (contains (wave_of table remaining stopped) x)) remaining s,
  )

  record Stops (remaining stopped : List Str) (waves : List (List Str)) : Type 0 where
    pub all_once : Perm (flatten waves) remaining
    pub ordered : DependentsFirst services stopped waves

  stop_loop_lem :
      (fuel : ℕ) (remaining stopped : List Str)
      → length remaining ≤ fuel
      → Accounted remaining stopped
      → (waves : List (List Str)) × (stop_loop fuel table remaining stopped ≡ some waves)
        × Stops remaining stopped waves
  unfolding stop_loop flatten
  stop_loop_lem fuel [] stopped h acc = ([], refl, record { all_once = Perm.refl []; ordered = tt })
  stop_loop_lem zero (r ∷ remaining) stopped h acc = absurd (omega arith)
  stop_loop_lem (suc fuel) (r ∷ remaining) stopped h acc =
      let now : List Str = r ∷ remaining in
      elim (List-cases (wave_of table now stopped)) [
        | inl e ↦ absurd (no_stuck (suc top) now stopped r (omega arith) acc e (ground arith))
        | inr (w, ws, e) ↦
            let first : contains (wave_of table now stopped) w ≡ true = rw e (ground arith) in
            let shorter : length (left now stopped) < length now =
              length-keep-lt (λ n. not (contains (wave_of table now stopped) n)) now w
                (ground (arith, contains-wave_of now stopped w)) (ground arith) in
            let found =
              stop_loop_lem fuel (left now stopped) (stopped ++ wave_of table now stopped)
                (omega arith) (Accounted-next now stopped acc) in
            (
              wave_of table now stopped ∷ found.0,
              rw found.1,
              record {
                all_once =
                    Perm.trans (Perm.append_left (wave_of table now stopped) found.2.all_once)
                      (wave-perm now stopped);
                ordered = (
                  λ n s p q.
                      all-true (contains stopped) (get_or table n []) s
                        (ground (arith, contains-wave_of now stopped n)) (listed n s ∙ q),
                  found.2.ordered,
                );
              },
            )
      ]

index-le : (xs : List Str) (n : Str) → index xs n ≤ length xs
index-le [] n = omega arith
index-le (x ∷ xs) n = ground (arith, index-le xs n)

-- For services with distinct names whose dependencies are services, and with
-- the names that `start_order` returns, `_stop_all` ends. Its waves hold each service once, and
-- a service is in a wave only when all that are `after` it are in earlier waves.
pub stop_all_lem :
    (services : Dict Str ServiceConfig) {names : List Str}
    → Distinct (keys services)
    → KnownDeps services
    → start_order services ≡ order names
    → (waves : List (List Str)) × (stop_all names services ≡ some waves)
      × Perm (flatten waves) (keys services)
      × DependentsFirst services [] waves
unfolding stop_all
stop_all_lem services {names} u known h =
    let placed : Perm names (keys services) = start_order-perm services u h in
    let member : (n : Str) → contains names n ≡ contains (keys services) n = contains-perm placed in
    let table = collect_dependents_lem names services u (λ n d p. member d ∙ known n d p) in
    let run =
      stop_loop_lem services table.0 table.2 (index names) (length names)
        (start_order-Ranks services u h) (index-le names) (length names) names [] (omega arith)
        (λ n s p. ground (arith, member s, after_of-known services s n p)) in
    (run.0, rw (table.1, stop_all) run.1, Perm.trans run.2.all_once placed, run.2.ordered)

-- A configuration that `_validate` accepts, with distinct service names, can be stopped: there
-- is a start order, `_stop_all` over it ends, its waves hold each service once, and a service is
-- in a wave only when all that are `after` it are in earlier waves.
pub stop_all-validated :
    (cfg : OrchestratorConfig)
    → Distinct (keys cfg.services)
    → validate cfg ≡ none
    → (names : List Str) × (start_order cfg.services ≡ order names)
      × ((waves : List (List Str)) × (stop_all names cfg.services ≡ some waves)
          × Perm (flatten waves) (keys cfg.services)
          × DependentsFirst cfg.services [] waves)
stop_all-validated cfg u h =
    let v = validate-IsValidated cfg h in
    (v.names, v.ordered, stop_all_lem cfg.services u (validate-KnownDeps cfg v) v.ordered)
