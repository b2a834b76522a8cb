-- ===== src/Orchestrator/Config/PortSpec/Forms.antt =====
-- The four forms of a port spec, and that `parse_port_spec` accepts these and nothing else.
use jetty.Prelude.{
  ℕ, ◌≤◌, true, false, none, some, [], ◌∷◌, ◌++◌, ◌≡◌, ◌||◌, ◌==◌, ◌↔◌, refl, ap, sym, ◌∙◌, not,
  arith, inl, inr, Bool-cases,
}
use jetty.Prelude.Text.{Str, str_eq, codes, partition, is_digit, isdigit, int, int_from}
use jetty.Prelude.Text.Cutting.{
  partition-append, partition-lacks, partition-found, lacks-digits, isdigit-append, lacks-append,
}
use jetty.Orchestrator.Config.PortSpec.{
  PortSpec, auto, range, fixed_port, bounded_range, parse_port_text,
}

-- "auto", "8000", "8000-8020" and "8000+", with the specs that they stand for.
pub data Denotes (want : Str) : PortSpec → Type 0 where
  automatic : want ≡ codes "auto" → Denotes want auto
  fixed :
      isdigit want ≡ true
      → 1 ≤ int want
      → int want ≤ 65535
      → Denotes want (range (int want) (int want))
  span :
      (l h : Str)
      → want ≡ l ++ b'-' ∷ h
      → isdigit l ≡ true
      → isdigit h ≡ true
      → 1 ≤ int l
      → int l ≤ int h
      → int h ≤ 65535
      → Denotes want (range (int l) (int h))
  upward :
      (l : Str)
      → want ≡ l ++ b'+' ∷ []
      → isdigit l ≡ true
      → 1 ≤ int l
      → int l ≤ 65535
      → Denotes want (range (int l) 65535)

bounded_range_lem :
    (l h : Str)
    → isdigit l ≡ true
    → 1 ≤ int l
    → int l ≤ int h
    → int h ≤ 65535
    → bounded_range l h true ≡ some (range (int l) (int h))
unfolding bounded_range
bounded_range_lem l h p a b c = ground arith

-- Digits, a separator and more: not "auto", and no digits.
headed :
    (l r : Str) (c : ℕ)
    → isdigit l ≡ true
    → is_digit c ≡ false
    → ((l ++ c ∷ r) == codes "auto") ≡ false
headed [] r c p n = cc
headed (a ∷ l) r c p n = ground arith

Denotes-parses :
    {want : Str} {spec : PortSpec} → Denotes want spec → parse_port_text want ≡ some spec
unfolding parse_port_text int_from str_eq
Denotes-parses (automatic e) = ground arith
Denotes-parses {want} (fixed d a b) = digits want d a b
  where
    digits :
        (w : Str)
        → isdigit w ≡ true
        → 1 ≤ int w
        → int w ≤ 65535
        → parse_port_text w ≡ some (range (int w) (int w))
    digits [] p u v = cc
    digits (x ∷ w) p u v = ground arith
Denotes-parses (span l h e p q a b c) = rw e (
    rw
      (
        headed l h b'-' p refl,
        isdigit-append l h b'-' refl,
        partition-append b'-' l h (lacks-digits b'-' l refl p),
        q,
      )
      (bounded_range_lem l h p a b c))
Denotes-parses (upward l e p a b) = rw e (
    rw
      (
        headed l [] b'+' p refl,
        isdigit-append l [] b'+' refl,
        partition-lacks b'-' (l ++ b'+' ∷ [])
            (ground (arith, lacks-append b'-' l (b'+' ∷ []), lacks-digits b'-' l refl p)),
        partition-append b'+' l [] (lacks-digits b'+' l refl p),
      )
      (bounded_range_lem l (codes "65535") p a b (omega arith)))

span-of :
    (want l h : Str) {spec : PortSpec}
    → want ≡ l ++ b'-' ∷ h
    → bounded_range l h (isdigit h) ≡ some spec
    → Denotes want spec
unfolding bounded_range
span-of want l h {spec = auto} e r = absurd (ground arith)
span-of want l h {spec = range low high} e r =
    let lo : int l ≡ low = ground arith in
    let hi : int h ≡ high = ground arith in
    rw (← lo, ← hi)
      (span l h e (ground arith) (ground arith) (ground arith) (ground arith) (ground arith))

upward-of :
    (want l : Str) {spec : PortSpec}
    → want ≡ l ++ b'+' ∷ []
    → bounded_range l (codes "65535") true ≡ some spec
    → Denotes want spec
unfolding bounded_range int_from
upward-of want l {spec = auto} e r = absurd (ground arith)
upward-of want l {spec = range low high} e r =
    let lo : int l ≡ low = ground arith in
    let hi : 65535 ≡ high = ground arith in
    rw (← lo, ← hi) (upward l e (ground arith) (ground arith) (ground arith))

fixed-of :
    (want : Str) {spec : PortSpec}
    → isdigit want ≡ true
    → fixed_port (int want) ≡ some spec
    → Denotes want spec
unfolding fixed_port
fixed-of want {spec = auto} d r = absurd (ground arith)
fixed-of want {spec = range low high} d r =
    let lo : int want ≡ low = ground arith in
    let hi : int want ≡ high = ground arith in
    rw (← lo, ← hi) (fixed d (ground arith) (ground arith))

-- Where a dash, or else a plus, cuts the text.
separated :
    (want : Str) {spec : PortSpec}
    → (want == codes "auto") ≡ false
    → isdigit want ≡ false
    → parse_port_text want ≡ some spec
    → Denotes want spec
unfolding parse_port_text
separated want {spec} na nd h = elim (Bool-cases (partition b'-' want).found) [
  | inl f ↦
      span-of want (partition b'-' want).before (partition b'-' want).after
        (partition-found b'-' want f).0 (sym (rw (na, nd, f)) ∙ h)
  | inr f ↦
      elim (Bool-cases
        (not (partition b'+' want).found || not ((partition b'+' want).after == []))) [
          | inl g ↦ absurd (none_some (sym (rw (na, nd, f, g)) ∙ h))
          | inr g ↦
              let whole : want
                  ≡ (partition b'+' want).before ++ b'+' ∷ (partition b'+' want).after =
                (partition-found b'+' want (ground arith)).0 in
              let last : (partition b'+' want).after ≡ [] = ground arith in
              upward-of want (partition b'+' want).before
                (whole ∙ ap (λ t. (partition b'+' want).before ++ b'+' ∷ t) last)
                (sym (rw (na, nd, f, g)) ∙ h)
        ]
]
  where
    none_some : none ≡ some spec → ⊥
    none_some e = cc

parses-Denotes :
    (want : Str) {spec : PortSpec} → parse_port_text want ≡ some spec → Denotes want spec
unfolding parse_port_text
parses-Denotes want {spec} h = elim (Bool-cases (want == codes "auto")) [
  | inl a ↦ let is_auto : auto ≡ spec = ground arith in rw (← is_auto) (automatic (ground arith))
  | inr na ↦ elim (Bool-cases (isdigit want)) [
    | inl d ↦ fixed-of want d (ground arith)
    | inr nd ↦ separated want na nd h
  ]
]

-- A text is accepted as a port spec exactly when it has one of the four forms "auto", "p",
-- "l-h" and "l+", with digits for ports, every port from 1 to 65535 and l at most h; and the
-- result is the range that the form denotes.
pub parse_port_text_iff :
    (want : Str) (spec : PortSpec) → (parse_port_text want ≡ some spec) ↔ Denotes want spec
parse_port_text_iff want spec = (parses-Denotes want, Denotes-parses)
