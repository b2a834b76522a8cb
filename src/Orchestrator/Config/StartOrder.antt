-- ===== src/Orchestrator/Config/StartOrder.antt =====
-- `start_order` of config.py: Kahn's algorithm over the services' `after` lists.
pub mod Rounds
pub mod Permutation
pub mod DepsFirst
pub mod Acyclic
use jetty.Prelude.{
  ℕ, zero, suc, Bool, true, false, not, List, [], ◌∷◌, ◌++◌, ◌==◌, keep, contains, length, sorted,
  ◌≡◌, ◌⊎◌, refl, inl, inr, if◌then◌else◌,
}
use jetty.Prelude.Dict.{Dict, keys}
use jetty.Prelude.Text.{Str, str_eq, str_le}
use jetty.Orchestrator.Config.Model.{ServiceConfig}

-- What `start_order` returns or raises; `out_of_fuel` is the model's own.
pub data Outcome : Type 0 where
  order : List Str → Outcome
  cycle : List Str → Outcome
  out_of_fuel : Outcome

-- `{name: set(svc.after) for name, svc in services.items()}`. A set is a list whose order and
-- repetitions are not read.
unfoldable pub dependencies : Dict Str ServiceConfig → Dict Str (List Str)
dependencies [] = []
dependencies ((name, svc) ∷ services) = (name, svc.after) ∷ dependencies services

-- `[n for n, deps in remaining.items() if not deps]`
unfoldable pub ready_names : Dict Str (List Str) → List Str
ready_names [] = []
ready_names ((n, []) ∷ rest) = n ∷ ready_names rest
ready_names ((n, d ∷ ds) ∷ rest) = ready_names rest

-- `del remaining[name]` for each ready name.
unfoldable pub delete_names : List Str → Dict Str (List Str) → Dict Str (List Str)
delete_names ready [] = []
delete_names ready ((n, deps) ∷ rest) =
    let others = delete_names ready rest in if contains ready n then others else (n, deps) ∷ others

-- `deps.difference_update(ready)` for each set left.
unfoldable pub subtract : List Str → Dict Str (List Str) → Dict Str (List Str)
subtract ready [] = []
subtract ready ((n, deps) ∷ rest) =
    (n, keep (λ d. not (contains ready d)) deps) ∷ subtract ready rest

-- The `while remaining` loop.
unfoldable pub rounds : ℕ → Dict Str (List Str) → List Str → Outcome
unfolding ready_names delete_names subtract
rounds fuel [] placed = order placed
rounds zero (r ∷ remaining) placed = out_of_fuel
rounds (suc fuel) (r ∷ remaining) placed =
    let ready = sorted str_le (ready_names (r ∷ remaining)) in
    elim ready [
      | [] ↦ cycle (sorted str_le (keys (r ∷ remaining)))
      | n ∷ ns ↦
          rounds fuel (subtract (n ∷ ns) (delete_names (n ∷ ns) (r ∷ remaining)))
            (placed ++ (n ∷ ns))
    ]

-- Each round places a name or raises, so one round for each service is enough.
unfoldable pub start_order : Dict Str ServiceConfig → Outcome
unfolding rounds dependencies
start_order services = rounds (length services) (dependencies services) []

pub Outcome-cases :
    (o : Outcome)
    → ((names : List Str) × (o ≡ order names))
      ⊎ ((names : List Str) × (o ≡ cycle names))
      ⊎ (o ≡ out_of_fuel)
Outcome-cases (order names) = inl (names, refl)
Outcome-cases (cycle names) = inr (inl (names, refl))
Outcome-cases out_of_fuel = inr (inr refl)
