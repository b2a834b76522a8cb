-- ===== src/Orchestrator/Console/Chunks.antt =====
-- The lines of a stream do not depend on the chunks in which it comes.
use mathlib.Core.List.{map, append_assoc, append-nil, map-append}
use jetty.Prelude.{
  ℕ, true, false, Option, List, [], ◌∷◌, ◌++◌, ◌≡◌, refl, ap, sym, ◌∙◌, eqb, arith, Bool-cases, inl,
  inr,
}
use jetty.Prelude.Text.{Str}
use jetty.Orchestrator.Console.{
  Bytes, prepend, split, pop, LineBuffer, shown, feed, flush, lines_of,
}

-- The complete lines, and the rest.
abbrev cut : ℕ → Bytes → List Bytes × Bytes
cut c s = pop (split c s)

-- One more byte at the front, which ends no line.
abbrev grow : ℕ → List Bytes × Bytes → List Bytes × Bytes
grow a ([], last) = ([], a ∷ last)
grow a (line ∷ lines, last) = ((a ∷ line) ∷ lines, last)

pop-prepend :
    (a : ℕ) (line : Bytes) (lines : List Bytes)
    → pop (prepend a (line ∷ lines)) ≡ grow a (pop (line ∷ lines))
unfolding pop
pop-prepend a line [] = refl
pop-prepend a line (next ∷ lines) = refl

split-cons :
    (c : ℕ) (s : Bytes) → (line : Bytes) × (lines : List Bytes) × (split c s ≡ line ∷ lines)
unfolding split
split-cons c [] = ([], [], refl)
split-cons c (a ∷ s) = elim (Bool-cases (eqb a c)) [
  | inl e ↦ ([], split c s, ground arith)
  | inr e ↦ let (line, lines, q) = split-cons c s in (a ∷ line, lines, rw (e, q) refl)
]

cut-end : (c a : ℕ) (s : Bytes) → eqb a c ≡ true → cut c (a ∷ s) ≡ ([] ∷ (cut c s).0, (cut c s).1)
unfolding split pop
cut-end c a s e = let (line, lines, q) = split-cons c s in rw (e, q) refl

cut-grow : (c a : ℕ) (s : Bytes) → eqb a c ≡ false → cut c (a ∷ s) ≡ grow a (cut c s)
unfolding split
cut-grow c a s e = let (line, lines, q) = split-cons c s in rw (e, q) (pop-prepend a line lines)

cut-append :
    (c : ℕ) (x y : Bytes)
    → cut c (x ++ y) ≡ ((cut c x).0 ++ (cut c ((cut c x).1 ++ y)).0, (cut c ((cut c x).1 ++ y)).1)
unfolding split pop
cut-append c [] y = refl
cut-append c (a ∷ x) y = elim (Bool-cases (eqb a c)) [
  | inl e ↦ cut-end c a (x ++ y) e ∙ rw (cut-end c a x e, cut-append c x y) refl
  | inr e ↦ cut-grow c a (x ++ y) e ∙ rw (cut-grow c a x e, cut-append c x y) (grown e (cut c x))
]
  where
    grown :
        eqb a c ≡ false
        → (l : List Bytes × Bytes)
        → grow a (l.0 ++ (cut c (l.1 ++ y)).0, (cut c (l.1 ++ y)).1)
          ≡ ((grow a l).0 ++ (cut c ((grow a l).1 ++ y)).0, (cut c ((grow a l).1 ++ y)).1)
    grown e ([], last) = sym (cut-grow c a (last ++ y) e)
    grown e (line ∷ lines, last) = refl

-- All the bytes of a stream.
abbrev pub whole : List Bytes → Bytes
whole [] = []
whole (chunk ∷ chunks) = chunk ++ whole chunks

module _ (decode : Bytes → Str) where
  abbrev given : List Bytes × Bytes → List Str × LineBuffer
  given l = (map (shown decode) l.0, record { partial = l.1 })

  feed-append :
      (b : LineBuffer) (x y : Bytes)
      → feed decode b (x ++ y) ≡ (
        (feed decode b x).0 ++ (feed decode (feed decode b x).1 y).0,
        (feed decode (feed decode b x).1 y).1,
      )
  unfolding feed
  feed-append b x y =
      let first = cut 10 (b.partial ++ x) in
      let second = cut 10 (first.1 ++ y) in
      ap (λ s. given (cut 10 s)) (sym (append_assoc b.partial x y))
      ∙ (ap given (cut-append 10 (b.partial ++ x) y)
          ∙ ap (λ (l : List Str). (l, (given second).1))
              (map-append (shown decode) first.0 second.0))

  -- The lines that a stream gives, with what `flush` gives at its end, do not depend on how the
  -- stream is cut into chunks: they are those of one chunk with all of its bytes, whatever a
  -- line is decoded to.
  pub lines_of-whole :
      (b : LineBuffer) (chunk : Bytes) (chunks : List Bytes)
      → lines_of decode b (chunk ∷ chunks) ≡ lines_of decode b (whole (chunk ∷ chunks) ∷ [])
  unfolding lines_of
  lines_of-whole b chunk [] = ap (λ s. lines_of decode b (s ∷ [])) (sym (append-nil chunk))
  lines_of-whole b chunk (next ∷ chunks) =
      let fed = feed decode b chunk in
      let z = whole (next ∷ chunks) in
      let later = feed decode fed.1 z in
      ap (λ (r : List Str × Option Str). (fed.0 ++ r.0, r.1)) (lines_of-whole fed.1 next chunks)
      ∙ (ap (λ (l : List Str). (l, (flush decode later.1).0)) (sym (append_assoc fed.0 later.0 []))
          ∙ ap (λ (f : List Str × LineBuffer). (f.0 ++ [], (flush decode f.1).0))
              (sym (feed-append b chunk z)))
