-- ===== src/Orchestrator/Config/StartOrder/Rounds.antt =====
-- What one round of `start_order` places and what it leaves, and that the rounds end.
use jetty.Prelude.{
  ℕ, zero, suc, ◌≤◌, ◌<◌, true, List, [], ◌∷◌, ◌++◌, ◌≡◌, ◌≢◌, refl, ap, sym, ◌∙◌, inl, inr,
  contains, length, sorted, arith, List-cases, contains-sorted,
}
use jetty.Prelude.Dict.{Dict, keys}
use jetty.Prelude.Text.{Str, str_eq, str_le}
use jetty.Orchestrator.Config.StartOrder.{
  cycle, out_of_fuel, ready_names, delete_names, subtract, rounds,
}

-- The `remaining` of the next round.
abbrev pub next : List Str → Dict Str (List Str) → Dict Str (List Str)
next ready remaining = subtract ready (delete_names ready remaining)

abbrev pub ready_of : Dict Str (List Str) → List Str
ready_of remaining = sorted str_le (ready_names remaining)

-- The three ways on from a round that has names left.
pub rounds-stuck :
    (fuel : ℕ) (r : Str × List Str) (rest : Dict Str (List Str)) (placed : List Str)
    → ready_of (r ∷ rest) ≡ []
    → rounds (suc fuel) (r ∷ rest) placed ≡ cycle (sorted str_le (keys (r ∷ rest)))
unfolding rounds
rounds-stuck fuel r rest placed e = rw (e, rounds)

pub rounds-step :
    (fuel : ℕ) (r : Str × List Str) (rest : Dict Str (List Str)) (placed : List Str) (n : Str)
    (ns : List Str)
    → ready_of (r ∷ rest) ≡ n ∷ ns
    → rounds (suc fuel) (r ∷ rest) placed
      ≡ rounds fuel (next (n ∷ ns) (r ∷ rest)) (placed ++ (n ∷ ns))
unfolding rounds
rounds-step fuel r rest placed n ns e = rw (e, rounds)

pub keys-subtract : (ready : List Str) (m : Dict Str (List Str)) → keys (subtract ready m) ≡ keys m
unfolding subtract
keys-subtract ready [] = refl
keys-subtract ready ((n, ds) ∷ m) = ap (◌∷◌ n) (keys-subtract ready m)

length-subtract :
    (ready : List Str) (m : Dict Str (List Str)) → length (subtract ready m) ≡ length m
unfolding subtract
length-subtract ready [] = refl
length-subtract ready ((n, ds) ∷ m) = ap suc (length-subtract ready m)

length-delete-le :
    (ready : List Str) (m : Dict Str (List Str)) → length (delete_names ready m) ≤ length m
unfolding delete_names
length-delete-le ready [] = omega arith
length-delete-le ready ((n, ds) ∷ m) = ground (arith, length-delete-le ready m)

length-delete-lt :
    (ready : List Str) (m : Dict Str (List Str)) (n : Str)
    → contains ready n ≡ true
    → contains (keys m) n ≡ true
    → length (delete_names ready m) < length m
unfolding delete_names
length-delete-lt ready [] n p q = cc
length-delete-lt ready ((k, ds) ∷ m) n p q =
    ground (arith, length-delete-le ready m, length-delete-lt ready m n p)

contains-ready :
    (m : Dict Str (List Str)) (n : Str)
    → contains (ready_names m) n ≡ true
    → contains (keys m) n ≡ true
unfolding ready_names
contains-ready [] n h = h
contains-ready ((k, []) ∷ m) n h = ground (arith, contains-ready m n)
contains-ready ((k, d ∷ ds) ∷ m) n h = ground (arith, contains-ready m n h)

pub length-next :
    (m : Dict Str (List Str)) (n : Str) (ns : List Str)
    → ready_of m ≡ n ∷ ns
    → length (next (n ∷ ns) m) < length m
length-next m n ns e = omega (
  arith,
  length-subtract (n ∷ ns) (delete_names (n ∷ ns) m),
  length-delete-lt (n ∷ ns) m n here
      (contains-ready m n (sym (contains-sorted str_le (ready_names m) n) ∙ (rw e here))),
)
  where
    here : contains (n ∷ ns) n ≡ true
    here = ground arith

-- One round for each name left is enough.
pub rounds-ne-out_of_fuel :
    (fuel : ℕ) (m : Dict Str (List Str)) (placed : List Str)
    → length m ≤ fuel
    → rounds fuel m placed ≢ out_of_fuel
unfolding rounds
rounds-ne-out_of_fuel fuel [] placed h = λ e. cc
rounds-ne-out_of_fuel zero (r ∷ rest) placed h = absurd (omega arith)
rounds-ne-out_of_fuel (suc fuel) (r ∷ rest) placed h = elim (List-cases (ready_of (r ∷ rest))) [
  | inl e ↦ rw (rounds-stuck fuel r rest placed e) (λ q. cc)
  | inr (n, ns, e) ↦ rw (rounds-step fuel r rest placed n ns e) (
      rounds-ne-out_of_fuel fuel (next (n ∷ ns) (r ∷ rest)) (placed ++ (n ∷ ns))
        (omega (arith, length-next (r ∷ rest) n ns e)))
]
