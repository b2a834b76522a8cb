-- ===== src/Orchestrator/Config/StartOrder/DepsFirst.antt =====
-- Every service that `start_order` places comes after all that it is `after`.
use mathlib.Core.List.{append_assoc, append-nil}
use jetty.Prelude.{
  ℕ, zero, suc, true, not, none, some, List, [], ◌∷◌, ◌++◌, ◌≡◌, sym, ◌∙◌, inl, inr, ◌||◌, contains,
  length, arith, List-cases, Bool-cases, Distinct, contains-sorted, contains-append, contains-keep,
}
use jetty.Prelude.Dict.{Dict, keys, get, Holds, Holds-self}
use jetty.Prelude.Text.{Str, str_eq, str_le}
use jetty.Orchestrator.Config.Model.{ServiceConfig}
use jetty.Orchestrator.Config.StartOrder.{
  order, dependencies, ready_names, delete_names, subtract, rounds, start_order,
}
use jetty.Orchestrator.Config.StartOrder.Rounds.{next, ready_of, rounds-stuck, rounds-step}

-- `services[name].after`
abbrev pub after_of : Dict Str ServiceConfig → Str → List Str
after_of services n = elim (get services n) [ none ↦ [] | some svc ↦ svc.after ]

-- Each name of the list has its dependencies among `seen` and the names before it.
abbrev pub DepsFirst : (Str → List Str) → List Str → List Str → Type 0
DepsFirst deps seen [] = Unit
DepsFirst deps seen (n ∷ ns) =
    ((d : Str) → contains (deps n) d ≡ true → contains seen d ≡ true)
    × DepsFirst deps (seen ++ n ∷ []) ns

module _ (deps : Str → List Str) where
  pub DepsFirst-append :
      (seen xs ys : List Str)
      → DepsFirst deps seen xs
      → DepsFirst deps (seen ++ xs) ys
      → DepsFirst deps seen (xs ++ ys)
  DepsFirst-append seen [] ys h k = rw append-nil at k
  DepsFirst-append seen (x ∷ xs) ys h k =
      (h.0, DepsFirst-append (seen ++ x ∷ []) xs ys h.1 (rw append_assoc k))

  -- Names whose dependencies are all placed.
  DepsFirst-of-placed :
      (placed seen xs : List Str)
      → ((d : Str) → contains placed d ≡ true → contains seen d ≡ true)
      → ((n d : Str) → contains xs n ≡ true → contains (deps n) d ≡ true → contains placed d ≡ true)
      → DepsFirst deps seen xs
  DepsFirst-of-placed placed seen [] sub h = tt
  DepsFirst-of-placed placed seen (x ∷ xs) sub h = (
    λ d p. sub d (h x d (ground arith) p),
    DepsFirst-of-placed placed (seen ++ x ∷ []) xs
        (λ d p. ground (arith, sub d p, contains-append seen (x ∷ []) d))
        (λ n d p q. h n d (ground arith) q),
  )

  -- What is left of each set, with the names placed, still covers the dependencies.
  abbrev Covers : List Str → Dict Str (List Str) → Type 0
  Covers placed [] = Unit
  Covers placed ((n, ds) ∷ m) =
      ((d : Str) → contains (deps n) d ≡ true → (contains ds d || contains placed d) ≡ true)
      × Covers placed m

  Covers-delete :
      (placed ready : List Str) (m : Dict Str (List Str))
      → Covers placed m
      → Covers placed (delete_names ready m)
  unfolding delete_names
  Covers-delete placed ready [] c = tt
  Covers-delete placed ready ((n, ds) ∷ m) c = elim (Bool-cases (contains ready n)) [
    | inl e ↦ rw e (Covers-delete placed ready m c.1)
    | inr e ↦ rw e (c.0, Covers-delete placed ready m c.1)
  ]

  Covers-subtract :
      (placed ready : List Str) (m : Dict Str (List Str))
      → Covers placed m
      → Covers (placed ++ ready) (subtract ready m)
  unfolding subtract
  Covers-subtract placed ready [] c = tt
  Covers-subtract placed ready ((n, ds) ∷ m) c = (
    λ d p. ground (
      arith,
      c.0 d p,
      contains-append placed ready d,
      contains-keep (λ x. not (contains ready x)) ds d,
    ),
    Covers-subtract placed ready m c.1,
  )

  Covers-ready :
      (placed : List Str) (m : Dict Str (List Str)) (n d : Str)
      → Covers placed m
      → contains (ready_names m) n ≡ true
      → contains (deps n) d ≡ true
      → contains placed d ≡ true
  unfolding ready_names
  Covers-ready placed [] n d c p q = cc
  Covers-ready placed ((k, []) ∷ m) n d c p q = elim (str_eq.dec n k) [
    | yes e ↦ c.0 d (rw (← e) q)
    | no ne ↦ Covers-ready placed m n d c.1 (ground arith) q
  ]
  Covers-ready placed ((k, x ∷ xs) ∷ m) n d c p q = Covers-ready placed m n d c.1 p q

  pub rounds-DepsFirst :
      (fuel : ℕ) (m : Dict Str (List Str)) (placed : List Str) {result : List Str}
      → DepsFirst deps [] placed
      → Covers placed m
      → rounds fuel m placed ≡ order result
      → DepsFirst deps [] result
  unfolding rounds
  rounds-DepsFirst fuel [] placed {result} f c h = let same : placed ≡ result = cc in rw (← same) f
  rounds-DepsFirst zero (r ∷ rest) placed f c h = cc
  rounds-DepsFirst (suc fuel) (r ∷ rest) placed {result} f c h =
      elim (List-cases (ready_of (r ∷ rest))) [
        | inl e ↦ cc (rounds-stuck fuel r rest placed e)
        | inr (n, ns, e) ↦
            rounds-DepsFirst fuel (next (n ∷ ns) (r ∷ rest)) (placed ++ (n ∷ ns))
              (DepsFirst-append [] placed (n ∷ ns) f (
                DepsFirst-of-placed placed placed (n ∷ ns) (λ d p. p)
                  (λ a d p q.
                    Covers-ready placed (r ∷ rest) a d c
                      (sym (contains-sorted str_le (ready_names (r ∷ rest)) a) ∙ (rw e p)) q)))
              (Covers-subtract placed (n ∷ ns) (delete_names (n ∷ ns) (r ∷ rest))
                (Covers-delete placed (n ∷ ns) (r ∷ rest) c))
              (sym (rounds-step fuel r rest placed n ns e) ∙ h)
      ]

Covers-dependencies :
    (services m : Dict Str ServiceConfig)
    → Holds services m
    → Covers (after_of services) [] (dependencies m)
unfolding dependencies
Covers-dependencies services [] h = tt
Covers-dependencies services ((n, svc) ∷ m) h =
    (λ d p. ground (arith, h.0), Covers-dependencies services m h.1)

-- In the order that `start_order` returns, every service stands behind each name of its `after`.
pub start_order-DepsFirst :
    (services : Dict Str ServiceConfig) {result : List Str}
    → Distinct (keys services)
    → start_order services ≡ order result
    → DepsFirst (after_of services) [] result
unfolding start_order
start_order-DepsFirst services d h =
    rounds-DepsFirst (after_of services) (length services) (dependencies services) [] tt
      (Covers-dependencies services services (Holds-self services d)) h
