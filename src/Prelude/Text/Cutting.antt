-- ===== src/Prelude/Text/Cutting.antt =====
-- `partition` splits at the first separator, and digits hold no separator.
use mathlib.Core.Path.{◌≡◌, refl}
use mathlib.Core.Bool.{Bool, true, false, not, ◌&&◌}
use mathlib.Core.List.{[], ◌∷◌, ◌++◌}
use Prim.Native.Nat.{ℕ}
use native.Mathlib.Omega.{arith}
use jetty.Prelude.Tests.{eqb}
use jetty.Prelude.Lists.{all}
use jetty.Prelude.Text.{Str, partition, is_digit, isdigit}

-- The separator does not occur.
abbrev pub lacks : ℕ → Str → Bool
lacks c s = all (λ a. not (eqb a c)) s

pub partition-append :
    (c : ℕ) (l h : Str)
    → lacks c l ≡ true
    → partition c (l ++ c ∷ h) ≡ record { before = l; found = true; after = h }
unfolding partition
partition-append c [] h p = ground arith
partition-append c (a ∷ l) h p = ground (arith, partition-append c l h)

pub partition-lacks : (c : ℕ) (s : Str) → lacks c s ≡ true → (partition c s).found ≡ false
unfolding partition
partition-lacks c [] p = refl
partition-lacks c (a ∷ s) p = ground (arith, partition-lacks c s)

pub partition-found :
    (c : ℕ) (s : Str)
    → (partition c s).found ≡ true
    → (s ≡ (partition c s).before ++ c ∷ (partition c s).after)
      × (lacks c (partition c s).before ≡ true)
unfolding partition
partition-found c [] p = cc
partition-found c (a ∷ s) p = ground (arith, partition-found c s)

-- A separator that is no digit does not occur in digits.
pub lacks-digits : (c : ℕ) (s : Str) → is_digit c ≡ false → isdigit s ≡ true → lacks c s ≡ true
lacks-digits c [] n p = refl
lacks-digits c (a ∷ s) n p = go (a ∷ s) p
  where
    go : (t : Str) → all is_digit t ≡ true → lacks c t ≡ true
    go [] q = refl
    go (b ∷ t) q = ground (arith, go t)

pub isdigit-append : (l r : Str) (c : ℕ) → is_digit c ≡ false → isdigit (l ++ c ∷ r) ≡ false
isdigit-append l r c n = go l
  where
    everywhere : (t : Str) → all is_digit (t ++ c ∷ r) ≡ false
    everywhere [] = ground arith
    everywhere (b ∷ t) = ground (arith, everywhere t)

    go : (t : Str) → isdigit (t ++ c ∷ r) ≡ false
    go [] = ground arith
    go (b ∷ t) = everywhere (b ∷ t)

pub lacks-append : (c : ℕ) (l r : Str) → lacks c (l ++ r) ≡ (lacks c l && lacks c r)
lacks-append c [] r = refl
lacks-append c (a ∷ l) r = ground (arith, lacks-append c l r)
