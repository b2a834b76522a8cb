-- ===== src/Orchestrator/Supervisor/Stop.antt =====
-- `_stop_all` of supervisor.py: the services are stopped in waves, dependents first.
pub mod Dependents
pub mod Waves
use jetty.Prelude.{
  ℕ, zero, suc, Bool, not, Option, none, some, List, [], ◌∷◌, ◌++◌, keep, all, contains, length,
  sorted,
}
use mathlib.Core.Option
use jetty.Prelude.Dict.{Dict, keys, get, get_or, put}
use jetty.Prelude.Text.{Str, str_eq, str_le}
use jetty.Orchestrator.Config.Model.{ServiceConfig}

-- `{n: set() for n in self._services}`
unfoldable pub empty_sets : List Str → Dict Str (List Str)
empty_sets [] = []
empty_sets (n ∷ ns) = (n, []) ∷ empty_sets ns

-- `dependents[dep].add(sname)`; `none` is the `KeyError` of an unknown `dep`.
unfoldable pub add_dependent : Str → Str → Dict Str (List Str) → Option (Dict Str (List Str))
add_dependent sname dep dependents = elim (get dependents dep) [
  | none ↦ none
  | some names ↦ some (put dependents dep (sname ∷ names))
]

-- `for dep in svc_cfg.after`
unfoldable pub add_after : Str → List Str → Dict Str (List Str) → Option (Dict Str (List Str))
unfolding add_dependent
add_after sname [] dependents = some dependents
add_after sname (dep ∷ deps) dependents = elim (add_dependent sname dep dependents) [
  | none ↦ none
  | some more ↦ add_after sname deps more
]

-- `for sname, svc_cfg in self._config.services.items()`
unfoldable pub collect_dependents :
    Dict Str ServiceConfig → Dict Str (List Str) → Option (Dict Str (List Str))
unfolding add_after
collect_dependents [] dependents = some dependents
collect_dependents ((sname, svc) ∷ services) dependents =
    elim (add_after sname svc.after dependents) [
      | none ↦ none
      | some more ↦ collect_dependents services more
    ]

-- `sorted(n for n in remaining if dependents[n] <= stopped)`
unfoldable pub wave_of : Dict Str (List Str) → List Str → List Str → List Str
wave_of dependents remaining stopped =
    sorted str_le (keep (λ n. all (contains stopped) (get_or dependents n [])) remaining)

-- The `while remaining` loop: the waves in the order in which they are stopped. `none`: the
-- fuel is used up, as it is when a wave is empty and the loop turns for ever.
unfoldable pub stop_loop : ℕ → Dict Str (List Str) → List Str → List Str → Option (List (List Str))
unfolding wave_of
stop_loop fuel dependents [] stopped = some []
stop_loop zero dependents (r ∷ remaining) stopped = none
stop_loop (suc fuel) dependents (r ∷ remaining) stopped =
    let wave = wave_of dependents (r ∷ remaining) stopped in
    let rest =
      stop_loop fuel dependents (keep (λ n. not (contains wave n)) (r ∷ remaining))
        (stopped ++ wave) in
    Option.map (λ waves. wave ∷ waves) rest

-- `names` are those of `self._services`. One wave for each service is enough.
unfoldable pub stop_all : List Str → Dict Str ServiceConfig → Option (List (List Str))
unfolding stop_loop collect_dependents empty_sets
stop_all names services = elim (collect_dependents services (empty_sets names)) [
  | none ↦ none
  | some dependents ↦ stop_loop (length names) dependents names []
]
