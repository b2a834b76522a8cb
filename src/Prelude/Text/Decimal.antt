-- ===== src/Prelude/Text/Decimal.antt =====
-- Python's `str` of a number that is not negative, and `int` of a text in ASCII.
use Prim.Native.Nat.{ℕ, zero, suc, ◌+◌, ◌-◌, ◌*◌, ◌/◌, ◌%◌, ◌<◌}
use mathlib.Core.Path.{◌≡◌, refl, ap, sym, ◌∙◌}
use mathlib.Core.Bool.{Bool, true, false, ◌&&◌}
use mathlib.Core.Logic.{inl, inr, ◌≢◌}
use mathlib.Core.Option
use mathlib.Core.Option.{Option, none, some}
use mathlib.Core.List.{[], ◌∷◌, ◌++◌, reverse, reverse-append, reverse-reverse}
use native.Mathlib.Omega.{arith}
use jetty.Prelude.Tests.{if◌then◌else◌, ltb, eqb, Bool-cases}
use jetty.Prelude.Lists.{all}
use jetty.Prelude.Text.{Str, is_digit, int_from}
use jetty.Prelude.Text.Space.{is_space, lstrip, strip}

-- The digits of a number, for at most so many.
unfoldable pub digits : ℕ → ℕ → Str
digits zero n = []
digits (suc fuel) n =
    let front = digits fuel (n / 10) in
    if ltb n 10 then (b'0' + n) ∷ [] else front ++ ((b'0' + n % 10) ∷ [])

-- `str(n)`
abbrev pub str_of : ℕ → Str
str_of n = digits (suc n) n

-- What `int(s)` makes of a text.
pub data Read : Type 0 where
  no_int : Read
  negative : Read
  natural : ℕ → Read

-- Digits, with single underscores between them. The flag tells whether a digit is before.
unfoldable pub plain_digits : Bool → Str → Option Str
plain_digits before [] = if before then some [] else none
plain_digits before (c ∷ s) =
    let next = plain_digits true s in
    let behind = plain_digits false s in
    if is_digit c
    then Option.map (λ t. c ∷ t) next
    else if eqb c b'_' && before
    then behind
    else none

abbrev read_digits : Str → Option ℕ
read_digits s = Option.map (int_from 0) (plain_digits false s)

abbrev negated : Option ℕ → Read
negated none = no_int
negated (some zero) = natural 0
negated (some (suc n)) = negative

abbrev unsigned : Option ℕ → Read
unsigned none = no_int
unsigned (some n) = natural n

unfoldable pub signed : Str → Read
signed [] = no_int
signed (c ∷ s) =
    if eqb c b'-'
    then negated (read_digits s)
    else if eqb c b'+'
    then unsigned (read_digits s)
    else unsigned (read_digits (c ∷ s))

-- `int(s)`
unfoldable pub py_int : Str → Read
py_int s = signed (strip s)

all_digit-append :
    (s t : Str) → all is_digit s ≡ true → all is_digit t ≡ true → all is_digit (s ++ t) ≡ true
all_digit-append [] t p q = q
all_digit-append (c ∷ s) t p q = ground (arith, all_digit-append s t)

all_digit-digits : (fuel n : ℕ) → all is_digit (digits fuel n) ≡ true
unfolding digits
all_digit-digits zero n = refl
all_digit-digits (suc fuel) n = elim (Bool-cases (ltb n 10)) [
  | inl e ↦ rw e (ground arith)
  | inr e ↦ rw e (
      all_digit-append (digits fuel (n / 10)) ((b'0' + n % 10) ∷ [])
        (all_digit-digits fuel (n / 10)) (ground arith))
]

int_from-append :
    (m : ℕ) (s : Str) (c : ℕ) → int_from m (s ++ (c ∷ [])) ≡ 10 * int_from m s + (c - b'0')
unfolding int_from
int_from-append m [] c = refl
int_from-append m (a ∷ s) c = int_from-append (10 * m + (a - b'0')) s c

int_from-digits : (fuel n : ℕ) → n < fuel → int_from 0 (digits fuel n) ≡ n
unfolding digits
int_from-digits zero n h = absurd (omega arith)
int_from-digits (suc fuel) n h = elim (Bool-cases (ltb n 10)) [
  | inl e ↦ rw e (unfold int_from in ground arith)
  | inr e ↦ rw e (
      int_from-append 0 (digits fuel (n / 10)) (b'0' + n % 10)
      ∙ ground (arith, int_from-digits fuel (n / 10)))
]

plain_digits-digits : (s : Str) → all is_digit s ≡ true → plain_digits true s ≡ some s
unfolding plain_digits
plain_digits-digits [] h = refl
plain_digits-digits (c ∷ s) h = ground (arith, plain_digits-digits s)

is_space-digit : (c : ℕ) → is_digit c ≡ true → is_space c ≡ false
is_space-digit c h = ground arith

lstrip-digits : (s : Str) → all is_digit s ≡ true → lstrip s ≡ s
unfolding lstrip
lstrip-digits [] h = refl
lstrip-digits (c ∷ s) h = rw (is_space-digit c (ground arith))

all_digit-reverse : (s : Str) → all is_digit s ≡ true → all is_digit (reverse s) ≡ true
all_digit-reverse [] h = refl
all_digit-reverse (c ∷ s) h =
    rw (reverse-append (c ∷ []) s)
      (all_digit-append (reverse s) (c ∷ []) (all_digit-reverse s (ground arith)) (ground arith))

strip-digits : (s : Str) → all is_digit s ≡ true → strip s ≡ s
unfolding strip
strip-digits s h =
    rw (lstrip-digits s h, lstrip-digits (reverse s) (all_digit-reverse s h)) (reverse-reverse s)

signed-digits :
    (c : ℕ) (s : Str) → all is_digit (c ∷ s) ≡ true → signed (c ∷ s) ≡ natural (int_from 0 (c ∷ s))
unfolding signed plain_digits
signed-digits c s h = ground (arith, plain_digits-digits s)

append-cons : (front : Str) (d : ℕ) → (c : ℕ) × (s : Str) × (front ++ (d ∷ []) ≡ c ∷ s)
append-cons [] d = (d, [], refl)
append-cons (c ∷ front) d = (c, front ++ (d ∷ []), refl)

digits-cons : (fuel n : ℕ) → (c : ℕ) × (s : Str) × (digits (suc fuel) n ≡ c ∷ s)
unfolding digits
digits-cons fuel n = elim (Bool-cases (ltb n 10)) [
  | inl e ↦ (b'0' + n, [], rw e refl)
  | inr e ↦ rw e (append-cons (digits fuel (n / 10)) (b'0' + n % 10))
]

-- `int(str(n))` is `n`.
pub py_int-str_of : (n : ℕ) → py_int (str_of n) ≡ natural n
unfolding py_int
py_int-str_of n =
    let (c, s, e) = digits-cons n n in
    let are_digits = all_digit-digits (suc n) n in
    rw (strip-digits (str_of n) are_digits) (
      ap signed e
      ∙ (signed-digits c s (ap (all is_digit) (sym e) ∙ are_digits)
          ∙ (ap (λ t. natural (int_from 0 t)) (sym e)
              ∙ ap natural (int_from-digits (suc n) n (omega arith)))))

pub str_of-ne-nil : (n : ℕ) → str_of n ≢ []
str_of-ne-nil n h = let (c, s, e) = digits-cons n n in cc
