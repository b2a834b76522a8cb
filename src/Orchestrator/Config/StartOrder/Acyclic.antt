-- ===== src/Orchestrator/Config/StartOrder/Acyclic.antt =====
-- `start_order` returns an order exactly when the dependencies have no cycle.
use jetty.Prelude.{
  ℕ, zero, suc, ◌≤◌, ◌<◌, true, false, not, List, [], ◌∷◌, ◌++◌, ◌==◌, ◌≡◌, ◌≢◌, ◌↔◌, ◌⊎◌, refl, ap,
  sym, ◌∙◌, inl, inr, ◌&&◌, contains, length, sorted, arith, List-cases, Bool-cases, Distinct,
  contains-append, contains-keep, length-sorted, if◌then◌else◌, contains-perm,
}
use jetty.Prelude.Dict.{Dict, keys, Holds, Holds-self, has-keys}
use jetty.Prelude.Text.{Str, str_eq, str_le}
use jetty.Orchestrator.Config.Model.{ServiceConfig}
use jetty.Orchestrator.Config.StartOrder.{
  order, dependencies, ready_names, delete_names, subtract, rounds, start_order,
}
use jetty.Orchestrator.Config.StartOrder.Rounds.{
  next, ready_of, rounds-step, keys-subtract, length-next,
}
use jetty.Orchestrator.Config.StartOrder.Permutation.{start_order-perm, keys-dependencies}
use jetty.Orchestrator.Config.StartOrder.DepsFirst.{after_of, DepsFirst, start_order-DepsFirst}

-- The position of a name in a list; its length, if it is not there.
abbrev pub index : List Str → Str → ℕ
index [] n = 0
index (x ∷ xs) n = let rest = index xs n in if n == x then 0 else suc rest

-- A numbering of the services under which each stands above all that it is `after`.
abbrev pub Ranks : Dict Str ServiceConfig → (Str → ℕ) → Type 0
Ranks services rank = (n d : Str) → contains (after_of services n) d ≡ true → rank d < rank n

-- Every name in an `after` list is a service.
abbrev pub KnownDeps : Dict Str ServiceConfig → Type 0
KnownDeps services =
    (n d : Str) → contains (after_of services n) d ≡ true → contains (keys services) d ≡ true

module _ (rank : Str → ℕ) where
  -- The names left in each set are keys in `all_keys`, and of lower rank.
  abbrev Lower : List Str → Dict Str (List Str) → Type 0
  Lower all_keys [] = Unit
  Lower all_keys ((n, ds) ∷ m) =
      ((d : Str) → contains ds d ≡ true → (contains all_keys d ≡ true) × (rank d < rank n))
      × Lower all_keys m

  contains-keys-delete :
      (ready : List Str) (m : Dict Str (List Str)) (d : Str)
      → contains (keys (delete_names ready m)) d ≡ (contains (keys m) d && not (contains ready d))
  unfolding delete_names
  contains-keys-delete ready [] d = refl
  contains-keys-delete ready ((k, ds) ∷ m) d = ground (arith, contains-keys-delete ready m d)

  Lower-delete :
      (ks ready : List Str) (m : Dict Str (List Str)) → Lower ks m → Lower ks (delete_names ready m)
  unfolding delete_names
  Lower-delete ks ready [] c = tt
  Lower-delete ks ready ((n, ds) ∷ m) c = elim (Bool-cases (contains ready n)) [
    | inl e ↦ rw e (Lower-delete ks ready m c.1)
    | inr e ↦ rw e (c.0, Lower-delete ks ready m c.1)
  ]

  Lower-subtract :
      (ks ks' ready : List Str) (m : Dict Str (List Str))
      → ((d : Str) → contains ks d ≡ true → contains ready d ≡ false → contains ks' d ≡ true)
      → Lower ks m
      → Lower ks' (subtract ready m)
  unfolding subtract
  Lower-subtract ks ks' ready [] f c = tt
  Lower-subtract ks ks' ready ((n, ds) ∷ m) f c = (
    λ d p.
        let kept : (contains ds d && not (contains ready d)) ≡ true =
          sym (contains-keep (λ x. not (contains ready x)) ds d) ∙ p in
        ground (arith, c.0 d, f d),
    Lower-subtract ks ks' ready m f c.1,
  )

  Lower-next :
      (ready : List Str) (m : Dict Str (List Str))
      → Lower (keys m) m
      → Lower (keys (next ready m)) (next ready m)
  Lower-next ready m c =
      Lower-subtract (keys m) (keys (next ready m)) ready (delete_names ready m)
        (λ d p q.
          ground
            (arith, keys-subtract ready (delete_names ready m), contains-keys-delete ready m d))
        (Lower-delete (keys m) ready m c)

  -- A key with a set that is not empty leads to a key of lower rank.
  Lower-key :
      (ks : List Str) (m : Dict Str (List Str)) (n : Str)
      → Lower ks m
      → ready_names m ≡ []
      → contains (keys m) n ≡ true
      → (d : Str) × (contains ks d ≡ true) × (rank d < rank n)
  unfolding ready_names
  Lower-key ks [] n c e p = cc
  Lower-key ks ((k, []) ∷ m) n c e p = cc
  Lower-key ks ((k, d ∷ ds) ∷ m) n c e p = elim (str_eq.dec n k) [
    | yes same ↦ let found = c.0 d (ground arith) in (d, found.0, rw same found.1)
    | no differ ↦ Lower-key ks m n c.1 e (ground arith)
  ]

  no_key :
      (bound : ℕ) (m : Dict Str (List Str)) (n : Str)
      → rank n < bound
      → Lower (keys m) m
      → ready_names m ≡ []
      → contains (keys m) n ≢ true
  no_key zero m n h c e p = absurd (omega arith)
  no_key (suc bound) m n h c e p =
      let found = Lower-key (keys m) m n c e p in no_key bound m found.0 (omega arith) c e found.1

  rounds-returns :
      (fuel : ℕ) (m : Dict Str (List Str)) (placed : List Str)
      → length m ≤ fuel
      → Lower (keys m) m
      → (result : List Str) × (rounds fuel m placed ≡ order result)
  unfolding rounds
  rounds-returns fuel [] placed h c = (placed, refl)
  rounds-returns zero (r ∷ rest) placed h c = absurd (omega arith)
  rounds-returns (suc fuel) (r ∷ rest) placed h c = elim (List-cases (ready_of (r ∷ rest))) [
    | inl e ↦ absurd (
        no_key (suc (rank r.0)) (r ∷ rest) r.0 (omega arith) c
          (sorted-empty (ready_names (r ∷ rest)) e) (ground arith))
    | inr (n, ns, e) ↦
        let found =
          rounds-returns fuel (next (n ∷ ns) (r ∷ rest)) (placed ++ (n ∷ ns))
            (omega (arith, length-next (r ∷ rest) n ns e)) (Lower-next (n ∷ ns) (r ∷ rest) c) in
        (found.0, rounds-step fuel r rest placed n ns e ∙ found.1)
  ]
    where
      sorted-empty : (xs : List Str) → sorted str_le xs ≡ [] → xs ≡ []
      sorted-empty [] e' = refl
      sorted-empty (x ∷ xs) e' =
          absurd (omega (arith, ap (length {A = Str}) e', length-sorted str_le (x ∷ xs)))

Lower-dependencies :
    (services m : Dict Str ServiceConfig) (rank : Str → ℕ)
    → KnownDeps services
    → Ranks services rank
    → Holds services m
    → Lower rank (keys services) (dependencies m)
unfolding dependencies
Lower-dependencies services [] rank known r h = tt
Lower-dependencies services ((n, svc) ∷ m) rank known r h = (
  λ d p. (known n d (ground (arith, h.0)), r n d (ground (arith, h.0))),
  Lower-dependencies services m rank known r h.1,
)

length-dependencies :
    (services : Dict Str ServiceConfig) → length (dependencies services) ≡ length services
unfolding dependencies
length-dependencies [] = refl
length-dependencies ((n, svc) ∷ m) = ap suc (length-dependencies m)

DepsFirst-index :
    (deps : Str → List Str) (seen xs : List Str) (n d : Str)
    → DepsFirst deps seen xs
    → contains xs n ≡ true
    → contains (deps n) d ≡ true
    → (contains seen d ≡ true) ⊎ (index xs d < index xs n)
DepsFirst-index deps seen [] n d f p q = cc
DepsFirst-index deps seen (x ∷ xs) n d f p q = elim (str_eq.dec n x) [
  | yes e ↦ inl (f.0 d (rw (← e) q))
  | no ne ↦
      ground
        (arith, DepsFirst-index deps (seen ++ x ∷ []) xs n d f.1, contains-append seen (x ∷ []) d)
]

-- A name that has dependencies is a service.
pub after_of-known :
    (services : Dict Str ServiceConfig) (n d : Str)
    → contains (after_of services n) d ≡ true
    → contains (keys services) n ≡ true
after_of-known services n d h = ground (arith, has-keys services n)

-- The order that is returned numbers the services.
pub start_order-Ranks :
    (services : Dict Str ServiceConfig) {result : List Str}
    → Distinct (keys services)
    → start_order services ≡ order result
    → Ranks services (index result)
start_order-Ranks services {result} u h n d p =
    elim (DepsFirst-index (after_of services) [] result n d (start_order-DepsFirst services u h)
      (contains-perm (start_order-perm services u h) n ∙ after_of-known services n d p) p) [
        | inl bad ↦ cc
        | inr lt ↦ lt
      ]

-- For services with distinct names whose dependencies are all services, `start_order` returns an
-- order exactly when some numbering puts each service above all that it is `after`.
pub start_order-iff_acyclic :
    (services : Dict Str ServiceConfig)
    → Distinct (keys services)
    → KnownDeps services
    → ((result : List Str) × (start_order services ≡ order result))
      ↔ ((rank : Str → ℕ) × Ranks services rank)
unfolding start_order
start_order-iff_acyclic services u known = (
  λ (result, h). (index result, start_order-Ranks services u h),
  λ (rank, r).
      rounds-returns rank (length services) (dependencies services) []
        (omega (arith, length-dependencies services))
        (rw keys-dependencies
          (Lower-dependencies services services rank known r (Holds-self services u))),
)
