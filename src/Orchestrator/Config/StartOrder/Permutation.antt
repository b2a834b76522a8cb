-- ===== src/Orchestrator/Config/StartOrder/Permutation.antt =====
-- `start_order` neither loses nor repeats a service.
use mathlib.Core.List.{Perm, append_assoc, append-nil, perm_middle}
use mathlib.Core.List.Perm
use jetty.Prelude.{
  ℕ, zero, suc, Bool, true, false, List, [], ◌∷◌, ◌++◌, ◌≡◌, refl, ap, sym, ◌∙◌, inl, inr, contains,
  length, arith, List-cases, Bool-cases, Distinct, contains-sorted, sorted-perm,
}
use jetty.Prelude.Dict.{Dict, keys}
use jetty.Prelude.Text.{Str, str_eq, str_le}
use jetty.Orchestrator.Config.Model.{ServiceConfig}
use jetty.Orchestrator.Config.StartOrder.{
  order, dependencies, ready_names, delete_names, rounds, start_order,
}
use jetty.Orchestrator.Config.StartOrder.Rounds.{
  next, ready_of, rounds-stuck, rounds-step, keys-subtract,
}

abbrev is_empty : List Str → Bool
is_empty [] = true
is_empty (x ∷ xs) = false

-- `ready` holds exactly the keys whose set is empty.
abbrev Agrees : List Str → Dict Str (List Str) → Type 0
Agrees ready [] = Unit
Agrees ready ((n, deps) ∷ m) = (contains ready n ≡ is_empty deps) × Agrees ready m

Agrees-cons :
    (k : Str) (ready : List Str) (m : Dict Str (List Str))
    → contains (keys m) k ≡ false
    → Agrees ready m
    → Agrees (k ∷ ready) m
Agrees-cons k ready [] h a = tt
Agrees-cons k ready ((n, ds) ∷ m) h a = (ground arith, Agrees-cons k ready m (ground arith) a.1)

contains-ready_names-absent :
    (m : Dict Str (List Str)) (n : Str)
    → contains (keys m) n ≡ false
    → contains (ready_names m) n ≡ false
unfolding ready_names
contains-ready_names-absent [] n h = refl
contains-ready_names-absent ((k, []) ∷ m) n h = ground (arith, contains-ready_names-absent m n)
contains-ready_names-absent ((k, d ∷ ds) ∷ m) n h = ground (arith, contains-ready_names-absent m n)

Agrees-ready_names : (m : Dict Str (List Str)) → Distinct (keys m) → Agrees (ready_names m) m
unfolding ready_names
Agrees-ready_names [] h = tt
Agrees-ready_names ((n, []) ∷ m) h =
    (ground arith, Agrees-cons n (ready_names m) m h.0 (Agrees-ready_names m h.1))
Agrees-ready_names ((n, d ∷ ds) ∷ m) h =
    (contains-ready_names-absent m n h.0, Agrees-ready_names m h.1)

Agrees-same :
    (xs ys : List Str)
    → ((a : Str) → contains ys a ≡ contains xs a)
    → (m : Dict Str (List Str)) → Agrees xs m
    → Agrees ys m
Agrees-same xs ys h [] a = tt
Agrees-same xs ys h ((n, ds) ∷ m) a = (h n ∙ a.0, Agrees-same xs ys h m a.1)

-- The keys are those that are ready and those that stay.
keys-split :
    (ready : List Str) (m : Dict Str (List Str))
    → Agrees ready m
    → Perm (ready_names m ++ keys (delete_names ready m)) (keys m)
unfolding ready_names delete_names
keys-split ready [] a = Perm.refl []
keys-split ready ((n, []) ∷ m) a = rw a.0 (Perm.cons n (keys-split ready m a.1))
keys-split ready ((n, d ∷ ds) ∷ m) a = rw a.0 (
    Perm.trans (perm_middle (ready_names m) (keys (delete_names ready m)))
      (Perm.cons n (keys-split ready m a.1)))

contains-delete-absent :
    (ready : List Str) (m : Dict Str (List Str)) (n : Str)
    → contains (keys m) n ≡ false
    → contains (keys (delete_names ready m)) n ≡ false
unfolding delete_names
contains-delete-absent ready [] n h = refl
contains-delete-absent ready ((k, ds) ∷ m) n h = ground (arith, contains-delete-absent ready m n)

Distinct-delete :
    (ready : List Str) (m : Dict Str (List Str))
    → Distinct (keys m)
    → Distinct (keys (delete_names ready m))
unfolding delete_names
Distinct-delete ready [] h = tt
Distinct-delete ready ((n, ds) ∷ m) h = elim (Bool-cases (contains ready n)) [
  | inl e ↦ rw e (Distinct-delete ready m h.1)
  | inr e ↦ rw e (contains-delete-absent ready m n h.0, Distinct-delete ready m h.1)
]

pub Distinct-next :
    (ready : List Str) (m : Dict Str (List Str))
    → Distinct (keys m)
    → Distinct (keys (next ready m))
Distinct-next ready m h = rw keys-subtract (Distinct-delete ready m h)

-- One round keeps the names placed and left, up to their order.
round-perm :
    (m : Dict Str (List Str)) (ready : List Str)
    → Distinct (keys m)
    → ready_of m ≡ ready
    → Perm (ready ++ keys (next ready m)) (keys m)
round-perm m ready d e = rw keys-subtract (
    Perm.trans (Perm.append_right (keys (delete_names ready m)) same)
      (keys-split ready m (Agrees-same (ready_names m) ready holds m (Agrees-ready_names m d))))
  where
    same : Perm ready (ready_names m)
    same = rw (← e) (sorted-perm str_le (ready_names m))

    holds : (a : Str) → contains ready a ≡ contains (ready_names m) a
    holds a = rw (← e) (contains-sorted str_le (ready_names m) a)

pub rounds-perm :
    (fuel : ℕ) (m : Dict Str (List Str)) (placed : List Str) {result : List Str}
    → Distinct (keys m)
    → rounds fuel m placed ≡ order result
    → Perm result (placed ++ keys m)
unfolding rounds
rounds-perm fuel [] placed {result} d h =
    let same : placed ≡ result = cc in rw (append-nil, same) (Perm.refl result)
rounds-perm zero (r ∷ rest) placed d h = cc
rounds-perm (suc fuel) (r ∷ rest) placed {result} d h = elim (List-cases (ready_of (r ∷ rest))) [
  | inl e ↦ cc (rounds-stuck fuel r rest placed e)
  | inr (n, ns, e) ↦
      let left : Dict Str (List Str) = next (n ∷ ns) (r ∷ rest) in
      let ih : Perm result ((placed ++ (n ∷ ns)) ++ keys left) =
        rounds-perm fuel left (placed ++ (n ∷ ns)) (Distinct-next (n ∷ ns) (r ∷ rest) d)
          (sym (rounds-step fuel r rest placed n ns e) ∙ h) in
      Perm.trans (rw append_assoc at ih)
        (Perm.append_left placed (round-perm (r ∷ rest) (n ∷ ns) d e))
]

pub keys-dependencies :
    (services : Dict Str ServiceConfig) → keys (dependencies services) ≡ keys services
unfolding dependencies
keys-dependencies [] = refl
keys-dependencies ((n, s) ∷ rest) = ap (◌∷◌ n) (keys-dependencies rest)

-- Whenever `start_order` returns, the names that it returns are those of the services, each as
-- often as in the dictionary, whose names are distinct.
pub start_order-perm :
    (services : Dict Str ServiceConfig) {result : List Str}
    → Distinct (keys services)
    → start_order services ≡ order result
    → Perm result (keys services)
unfolding start_order
start_order-perm services {result} d h =
    rw keys-dependencies at
      (rounds-perm (length services) (dependencies services) [] (rw keys-dependencies d) h)
