-- ===== src/Prelude/Sorting.antt =====
-- Sorting is stable: a sorted list is in the order of the keys, and keeps its order where keys
-- are equal.
use Prim.Native.Nat.{ℕ}
use mathlib.Core.Path.{◌≡◌, refl}
use mathlib.Core.Logic.{inl, inr}
use mathlib.Core.Bool.{Bool, true, false}
use mathlib.Core.List.{List, [], ◌∷◌}
use native.Mathlib.Omega.{arith}
use jetty.Prelude.Tests.{leb, Bool-cases}
use jetty.Prelude.Lists.{insert_sorted, sorted}
use jetty.Prelude.Text.{Str, str_le}

abbrev pub All {ℓ κ} : {A : Type ℓ} → (A → Type κ) → List A → Type κ
All P [] = Unit
All P (x ∷ xs) = P x × All P xs

-- Each element stands in the relation to those behind it.
abbrev pub Pairwise {ℓ κ} : {A : Type ℓ} → (A → A → Type κ) → List A → Type κ
Pairwise R [] = Unit
Pairwise R (x ∷ xs) = All (R x) xs × Pairwise R xs

-- In order, and related where the keys are equal.
abbrev pub Lex {ℓ κ} : {A : Type ℓ} → (A → A → Bool) → (A → A → Type κ) → A → A → Type κ
Lex le R x y = (le x y ≡ true) × (le y x ≡ true → R x y)

pub record IsOrder {ℓ} {A : Type ℓ} (le : A → A → Bool) : Type ℓ where
  pub total : (x y : A) → le x y ≡ false → le y x ≡ true
  pub trans : (x y z : A) → le x y ≡ true → le y z ≡ true → le x z ≡ true

module _ {ℓ κ} {A : Type ℓ} (le : A → A → Bool) where
  All-insert_sorted :
      (P : A → Type κ) (x : A) (ys : List A) → P x → All P ys → All P (insert_sorted le x ys)
  unfolding insert_sorted
  All-insert_sorted P x [] p a = (p, tt)
  All-insert_sorted P x (y ∷ ys) p a = elim (Bool-cases (le x y)) [
    | inl e ↦ rw e (p, a)
    | inr e ↦ rw e (a.0, All-insert_sorted P x ys p a.1)
  ]

  All-sorted : (P : A → Type κ) (xs : List A) → All P xs → All P (sorted le xs)
  unfolding sorted
  All-sorted P [] a = tt
  All-sorted P (x ∷ xs) a = All-insert_sorted P x (sorted le xs) a.0 (All-sorted P xs a.1)

  module _ (order : IsOrder le) (R : A → A → Type κ) where
    All-Lex :
        (x y : A) (zs : List A)
        → le x y ≡ true
        → All (R x) zs
        → All (Lex le R y) zs
        → All (Lex le R x) zs
    All-Lex x y [] e r l = tt
    All-Lex x y (z ∷ zs) e r l = ((order.trans x y z e l.0.0, λ _. r.0), All-Lex x y zs e r.1 l.1)

    insert_sorted-Pairwise :
        (x : A) (ys : List A)
        → All (R x) ys
        → Pairwise (Lex le R) ys
        → Pairwise (Lex le R) (insert_sorted le x ys)
    unfolding insert_sorted
    insert_sorted-Pairwise x [] r p = (tt, tt)
    insert_sorted-Pairwise x (y ∷ ys) r p = elim (Bool-cases (le x y)) [
      | inl e ↦ rw e (((e, λ _. r.0), All-Lex x y ys e r.1 p.0), p)
      | inr e ↦ rw e (
        All-insert_sorted (Lex le R y) x ys (order.total x y e, λ q. absurd (ground arith)) p.0,
        insert_sorted-Pairwise x ys r.1 p.1,
      )
    ]

    -- What is sorted was in some order before: it is in the order of the keys now, and in the
    -- order before where the keys are equal.
    pub sorted-Pairwise : (xs : List A) → Pairwise R xs → Pairwise (Lex le R) (sorted le xs)
    unfolding sorted
    sorted-Pairwise [] p = tt
    sorted-Pairwise (x ∷ xs) p =
        insert_sorted-Pairwise x (sorted le xs) (All-sorted (R x) xs p.0) (sorted-Pairwise xs p.1)

str_le_total : (s t : Str) → str_le s t ≡ false → str_le t s ≡ true
str_le_total [] t h = cc
str_le_total (a ∷ s) [] h = refl
str_le_total (a ∷ s) (b ∷ t) h = ground (arith, str_le_total s t)

str_le_trans : (s t u : Str) → str_le s t ≡ true → str_le t u ≡ true → str_le s u ≡ true
str_le_trans [] t u h k = refl
str_le_trans (a ∷ s) [] u h k = cc
str_le_trans (a ∷ s) (b ∷ t) [] h k = cc
str_le_trans (a ∷ s) (b ∷ t) (c ∷ u) h k = ground (arith, str_le_trans s t u)

pub str_le-IsOrder : IsOrder str_le
str_le-IsOrder = record { total = str_le_total; trans = str_le_trans }

leb_total : (m n : ℕ) → leb m n ≡ false → leb n m ≡ true
leb_total m n h = ground arith

leb_trans : (m n k : ℕ) → leb m n ≡ true → leb n k ≡ true → leb m k ≡ true
leb_trans m n k h l = ground arith

pub leb-IsOrder : IsOrder leb
leb-IsOrder = record { total = leb_total; trans = leb_trans }

-- Keys in an order, or in its reverse, put what they are keys of in order.
pub IsOrder-on {ℓ κ} :
    {A : Type ℓ} {K : Type κ} (key : A → K) (le : K → K → Bool)
    → IsOrder le
    → IsOrder (λ x y. le (key x) (key y))
IsOrder-on key le o = record {
  total = λ x y. o.total (key x) (key y);
  trans = λ x y z. o.trans (key x) (key y) (key z);
}

pub IsOrder-reverse {ℓ} : {A : Type ℓ} (le : A → A → Bool) → IsOrder le → IsOrder (λ x y. le y x)
IsOrder-reverse le o = record { total = λ x y. o.total y x; trans = λ x y z p q. o.trans z y x q p }
