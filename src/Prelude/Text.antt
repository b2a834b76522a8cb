-- ===== src/Prelude/Text.antt =====
-- Python's `str` as the list of its code points, with the operations that the program uses.
pub mod Cutting
pub mod Format
pub mod Space
pub mod Decimal
pub mod Case
pub mod Shell
use Prim.Native.Nat.{ℕ, zero, suc, ◌+◌, ◌-◌, ◌*◌, ◌≤◌, ◌<◌}
use Prim.Native.Char.{code}
use Prim.Native.String.{String}
use mathlib.Core.Path.{◌≡◌, refl}
use mathlib.Core.Bool.{Bool, true, false, ◌||◌, ◌&&◌}
use mathlib.Core.List.{List, [], ◌∷◌, ◌++◌}
use native.Mathlib.Decide.{ℕ_discrete}
use native.Mathlib.Omega.{arith}
use jetty.Prelude.Tests.{Eq, ◌==◌, if◌then◌else◌, ltb, leb, eqb}
use jetty.Prelude.Lists.{length, contains, all}

abbrev pub Str : Type 0
Str = List ℕ

pub str_dec : Discrete Str
str_dec = hlevel ℕ_discrete

instance unfoldable pub str_eq : Eq Str
unfolding str_dec ℕ_discrete
str_eq = record { dec = str_dec }

-- The code points of a literal.
abbrev pub codes : String → Str
codes String.[] = []
codes (String.◌∷◌ c s) = code c ∷ codes s

-- `a <= b` on strings: the order of code points, from the left.
abbrev pub str_le : Str → Str → Bool
str_le [] t = true
str_le (a ∷ s) [] = false
str_le (a ∷ s) (b ∷ t) = let rest = str_le s t in if ltb a b then true else eqb a b && rest

-- `s.partition(c)` for a separator of one character.
pub record Cut : Type 0 where
  pub before : Str
  pub found : Bool
  pub after : Str

unfoldable pub partition : ℕ → Str → Cut
partition c [] = record { before = []; found = false; after = [] }
partition c (a ∷ s) =
    let rest = partition c s in
    if eqb a c
    then record { before = []; found = true; after = s }
    else record rest { before = a ∷ rest.before }

-- `s.startswith(p)`
unfoldable pub starts_with : Str → Str → Bool
starts_with s [] = true
starts_with [] (b ∷ p) = false
starts_with (a ∷ s) (b ∷ p) = eqb a b && starts_with s p

abbrev pub is_digit : ℕ → Bool
is_digit c = leb b'0' c && leb c b'9'

-- `s.isdigit()` on ASCII text: not empty, and digits only.
abbrev pub isdigit : Str → Bool
isdigit [] = false
isdigit (c ∷ s) = all is_digit (c ∷ s)

-- `int(s)` of digits, from the left.
unfoldable pub int_from : ℕ → Str → ℕ
int_from n [] = n
int_from n (c ∷ s) = int_from (10 * n + (c - b'0')) s

abbrev pub int : Str → ℕ
int s = int_from 0 s
