-- ===== src/Prelude/Lists.antt =====
-- Lists: lengths over the native numbers, Python's `in`, comprehensions with a test, and sorting.
use Prim.Native.Nat.{ℕ, zero, suc, ◌+◌, ◌≤◌}
use mathlib.Core.Path.{◌≡◌, refl, ap, ◌∙◌}
use mathlib.Core.Bool.{Bool, true, false, not, ◌||◌, ◌&&◌}
use mathlib.Core.Logic.{inl, inr}
use mathlib.Core.Logic.{∥∥₁_elim}
use mathlib.Core.Bool.{Bool-set}
use mathlib.Core.List.{List, [], ◌∷◌, ◌++◌, Perm, Permᴰ, perm_middle}
use mathlib.Core.List.Perm
use native.Mathlib.Omega.{arith}
use jetty.Prelude.Tests.{Eq, ◌==◌, if◌then◌else◌, Bool-cases}

module _ {ℓ} {A : Type ℓ} where
  abbrev pub length : List A → ℕ
  length [] = 0
  length (x ∷ xs) = suc (length xs)

  abbrev pub take : ℕ → List A → List A
  take zero xs = []
  take (suc n) [] = []
  take (suc n) (x ∷ xs) = x ∷ take n xs

  abbrev pub drop : ℕ → List A → List A
  drop zero xs = xs
  drop (suc n) [] = []
  drop (suc n) (x ∷ xs) = drop n xs

  -- A list as a condition.
  abbrev pub nonempty : List A → Bool
  nonempty [] = false
  nonempty (x ∷ xs) = true

  -- `[x for x in xs if p(x)]`
  abbrev pub keep : (A → Bool) → List A → List A
  keep p [] = []
  keep p (x ∷ xs) = let rest = keep p xs in if p x then x ∷ rest else rest

  -- `all(p(x) for x in xs)`
  abbrev pub all : (A → Bool) → List A → Bool
  all p [] = true
  all p (x ∷ xs) = p x && all p xs

  -- `any(p(x) for x in xs)`
  abbrev pub any : (A → Bool) → List A → Bool
  any p [] = false
  any p (x ∷ xs) = p x || any p xs

  pub length-append : (xs ys : List A) → length (xs ++ ys) ≡ length xs + length ys
  length-append [] ys = omega arith
  length-append (x ∷ xs) ys = omega (arith, length-append xs ys)

  pub length-keep : (p : A → Bool) (xs : List A) → length (keep p xs) ≤ length xs
  length-keep p [] = omega arith
  length-keep p (x ∷ xs) = ground (arith, length-keep p xs)

module _ {ℓ} {A : Type ℓ} ⦃e : Eq A⦄ where
  -- `a in xs`
  abbrev pub contains : List A → A → Bool
  contains [] a = false
  contains (x ∷ xs) a = a == x || contains xs a

  pub contains-append :
      (xs ys : List A) (a : A) → contains (xs ++ ys) a ≡ (contains xs a || contains ys a)
  contains-append [] ys a = refl
  contains-append (x ∷ xs) ys a = ground (arith, contains-append xs ys a)

  pub contains-keep :
      (p : A → Bool) (xs : List A) (a : A) → contains (keep p xs) a ≡ (contains xs a && p a)
  contains-keep p [] a = refl
  contains-keep p (x ∷ xs) a = ground (arith, contains-keep p xs a)

-- `sorted`: insertion before the first element that is not smaller, so that it is stable.
module _ {ℓ} {A : Type ℓ} (le : A → A → Bool) where
  unfoldable pub insert_sorted : A → List A → List A
  insert_sorted x [] = x ∷ []
  insert_sorted x (y ∷ ys) =
      let rest = insert_sorted x ys in if le x y then x ∷ y ∷ ys else y ∷ rest

  unfoldable pub sorted : List A → List A
  unfolding insert_sorted
  sorted [] = []
  sorted (x ∷ xs) = insert_sorted x (sorted xs)

  insert_sorted-perm : (x : A) (ys : List A) → Perm (insert_sorted x ys) (x ∷ ys)
  unfolding insert_sorted
  insert_sorted-perm x [] = Perm.refl _
  insert_sorted-perm x (y ∷ ys) =
      let moved = Perm.trans (Perm.cons y (insert_sorted-perm x ys)) (Perm.swap x y ys) in
      elim (Bool-cases (le x y)) [ inl e ↦ rw e (Perm.refl _) | inr e ↦ rw e moved ]

  pub sorted-perm : (xs : List A) → Perm (sorted xs) xs
  unfolding sorted
  sorted-perm [] = Perm.refl _
  sorted-perm (x ∷ xs) =
      Perm.trans (insert_sorted-perm x (sorted xs)) (Perm.cons x (sorted-perm xs))

  length-insert_sorted : (x : A) (ys : List A) → length (insert_sorted x ys) ≡ suc (length ys)
  unfolding insert_sorted
  length-insert_sorted x [] = refl
  length-insert_sorted x (y ∷ ys) = ground (arith, length-insert_sorted x ys)

  pub length-sorted : (xs : List A) → length (sorted xs) ≡ length xs
  unfolding sorted
  length-sorted [] = refl
  length-sorted (x ∷ xs) = length-insert_sorted x (sorted xs) ∙ ap suc (length-sorted xs)

module _ {ℓ} {A : Type ℓ} ⦃e : Eq A⦄ (le : A → A → Bool) where
  contains-insert_sorted :
      (x : A) (ys : List A) (a : A) → contains (insert_sorted le x ys) a ≡ (a == x || contains ys a)
  unfolding insert_sorted
  contains-insert_sorted x [] a = refl
  contains-insert_sorted x (y ∷ ys) a = ground (arith, contains-insert_sorted x ys a)

  pub contains-sorted : (xs : List A) (a : A) → contains (sorted le xs) a ≡ contains xs a
  unfolding sorted
  contains-sorted [] a = refl
  contains-sorted (x ∷ xs) a =
      ground (arith, contains-insert_sorted x (sorted le xs) a, contains-sorted xs a)

module _ {ℓ} {A : Type ℓ} ⦃e : Eq A⦄ where
  -- No element twice.
  abbrev pub Distinct : List A → Type 0
  Distinct [] = Unit
  Distinct (x ∷ xs) = (contains xs x ≡ false) × Distinct xs

  contains-permᴰ : {xs ys : List A} → Permᴰ xs ys → (a : A) → contains xs a ≡ contains ys a
  contains-permᴰ Permᴰ.nil a = refl
  contains-permᴰ (Permᴰ.cons p q) a = ground (arith, p, contains-permᴰ q a)
  contains-permᴰ (Permᴰ.swap p q) a = ground (arith, p, q)
  contains-permᴰ (Permᴰ.trans q r) a = contains-permᴰ q a ∙ contains-permᴰ r a

  pub contains-perm : {xs ys : List A} → Perm xs ys → (a : A) → contains xs a ≡ contains ys a
  contains-perm p a = ∥∥₁_elim p (Bool-set _ _) (λ d. contains-permᴰ d a)

  Distinct-prop : (xs : List A) → IsProp (Distinct xs)
  Distinct-prop [] = hlevel
  Distinct-prop (x ∷ xs) = hlevel (Distinct-prop xs)

  Distinct-permᴰ : {xs ys : List A} → Permᴰ xs ys → Distinct xs → Distinct ys
  Distinct-permᴰ Permᴰ.nil h = h
  Distinct-permᴰ (Permᴰ.cons {b = b} p q) h =
      (ground (arith, p, contains-permᴰ q b), Distinct-permᴰ q h.1)
  Distinct-permᴰ (Permᴰ.swap p q) h = ground (arith, p, q)
  Distinct-permᴰ (Permᴰ.trans q r) h = Distinct-permᴰ r (Distinct-permᴰ q h)

  pub Distinct-perm : {xs ys : List A} → Perm xs ys → Distinct xs → Distinct ys
  Distinct-perm {ys} p h = ∥∥₁_elim p (Distinct-prop ys) (λ d. Distinct-permᴰ d h)

module _ {ℓ} {A : Type ℓ} where
  -- A list is what a test keeps and what its negation keeps, up to order.
  pub keep-perm : (p : A → Bool) (xs : List A) → Perm (keep p xs ++ keep (λ x. not (p x)) xs) xs
  keep-perm p [] = Perm.refl []
  keep-perm p (x ∷ xs) = elim (Bool-cases (p x)) [
    | inl e ↦ rw e (Perm.cons x (keep-perm p xs))
    | inr e ↦ rw e (
        Perm.trans (perm_middle (keep p xs) (keep (λ y. not (p y)) xs))
          (Perm.cons x (keep-perm p xs)))
  ]

module _ {ℓ} {A : Type ℓ} ⦃e : Eq A⦄ where
  pub keep-same :
      (p q : A → Bool) (xs : List A)
      → ((a : A) → contains xs a ≡ true → p a ≡ q a)
      → keep p xs ≡ keep q xs
  keep-same p q [] h = refl
  keep-same p q (x ∷ xs) h = ground (arith, h x, keep-same p q xs (λ a m. h a (ground arith)))

  pub all-false :
      (p : A → Bool) (xs : List A)
      → all p xs ≡ false
      → (a : A) × (contains xs a ≡ true) × (p a ≡ false)
  all-false p [] h = cc
  all-false p (x ∷ xs) h = elim (Bool-cases (p x)) [
    | inl t ↦ let found = all-false p xs (ground arith) in (found.0, ground arith, found.2)
    | inr f ↦ (x, ground arith, f)
  ]

  pub all-true :
      (p : A → Bool) (xs : List A) (a : A) → all p xs ≡ true → contains xs a ≡ true → p a ≡ true
  all-true p [] a h m = cc
  all-true p (x ∷ xs) a h m = ground (arith, all-true p xs a)
