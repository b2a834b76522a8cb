-- ===== src/Core/Headers/Sole.antt =====
-- A header that must be unique is never picked from several.
use mathlib.Core.Path.{subst}
use jetty.Prelude.{
  ℕ, suc, ◌≤◌, false, List, [], ◌∷◌, ◌++◌, ◌≡◌, Option, none, some, refl, ap, sym, ◌∙◌, ◌==◌, arith,
  contains, length, if◌then◌else◌, Bool-cases, inl, inr,
}
use jetty.Prelude.Dict.{keys}
use jetty.Prelude.Text.{Str, str_eq}
use jetty.Core.Headers.{Headers, Result, returned, raised, duplicate, values_of, get_all, sole}

-- How many of the pairs have the name.
abbrev pub occurrences : Str → List (Str × Str) → ℕ
occurrences name [] = 0
occurrences name ((n, v) ∷ pairs) =
    let rest = occurrences name pairs in if n == name then suc rest else rest

-- The one pair with the name, and what stands before and after it.
pub record Occurrence (name v : Str) (pairs : List (Str × Str)) : Type 0 where
  pub before : List (Str × Str)
  pub after : List (Str × Str)
  pub split : pairs ≡ before ++ ((name, v) ∷ after)
  pub not_before : contains (keys before) name ≡ false
  pub not_after : contains (keys after) name ≡ false

-- What `sole` says of pairs that were searched for a name.
pub data Verdict (name : Str) (pairs : List (Str × Str)) : Result (Option Str) → Type 0 where
  absent : contains (keys pairs) name ≡ false → Verdict name pairs (returned none)
  unique : (v : Str) → Occurrence name v pairs → Verdict name pairs (returned (some v))
  ambiguous :
      2 ≤ occurrences name pairs
      → Verdict name pairs (raised (duplicate name (occurrences name pairs)))

values_of-absent :
    (name : Str) (pairs : List (Str × Str))
    → values_of name pairs ≡ []
    → contains (keys pairs) name ≡ false
unfolding values_of
values_of-absent name [] h = refl
values_of-absent name ((n, v) ∷ pairs) h = elim (str_eq.dec n name) [
  | yes q ↦ absurd (ground arith)
  | no q ↦ ground (arith, values_of-absent name pairs)
]

values_of-Occurrence :
    (name v : Str) (pairs : List (Str × Str))
    → values_of name pairs ≡ v ∷ []
    → Occurrence name v pairs
unfolding values_of
values_of-Occurrence name v [] h = absurd (ground arith)
values_of-Occurrence name v ((n, w) ∷ pairs) h = elim (str_eq.dec n name) [
  | yes q ↦
      let same : w ≡ v = ground arith in
      record {
        before = [];
        after = pairs;
        split = ap (λ (p : Str × Str). p ∷ pairs) (ap (λ x. (x, w)) q ∙ ap (λ x. (name, x)) same);
        not_before = refl;
        not_after = values_of-absent name pairs (ground arith);
      }
  | no q ↦
      let rest = values_of-Occurrence name v pairs (ground arith) in
      record {
        before = (n, w) ∷ rest.before;
        after = rest.after;
        split = ap (λ p. (n, w) ∷ p) rest.split;
        not_before = ground (arith, rest.not_before);
        not_after = rest.not_after;
      }
]

length-values_of :
    (name : Str) (pairs : List (Str × Str)) → length (values_of name pairs) ≡ occurrences name pairs
unfolding values_of
length-values_of name [] = refl
length-values_of name ((n, v) ∷ pairs) = elim (Bool-cases (n == name)) [
  | inl e ↦ rw e (ap suc (length-values_of name pairs))
  | inr e ↦ rw e (length-values_of name pairs)
]

module _ (lower : Str → Str) where
  -- `sole` answers with a value only if exactly one header has the name in lowercase, it is that
  -- header's value, and with nothing only if no header has it; for two and more it raises
  -- `DuplicateHeaderError` with their number.
  pub sole-Verdict : (h : Headers) (name : Str) → Verdict (lower name) h.pairs (sole lower h name)
  unfolding sole get_all
  sole-Verdict h name = verdict (values_of (lower name) h.pairs) refl
    where
      verdict :
          (values : List Str)
          → values_of (lower name) h.pairs ≡ values
          → Verdict (lower name) h.pairs (elim values as (λ _. Result (Option Str)) [
            | [] ↦ returned none
            | v ∷ [] ↦ returned (some v)
            | v ∷ w ∷ rest ↦ raised (duplicate (lower name) (length (v ∷ w ∷ rest)))
          ])
      verdict [] e = absent (values_of-absent (lower name) h.pairs e)
      verdict (v ∷ []) e = unique v (values_of-Occurrence (lower name) v h.pairs e)
      verdict (v ∷ w ∷ rest) e =
          let count : occurrences (lower name) h.pairs ≡ length (v ∷ w ∷ rest) =
            sym (length-values_of (lower name) h.pairs) ∙ ap length e in
          subst (λ c. Verdict (lower name) h.pairs (raised (duplicate (lower name) c))) count
            (ambiguous (rw count (omega arith)))
