-- ===== src/Core/Headers/Wire.antt =====
-- Headers that were parsed survive being sent on.
use mathlib.Core.Path.{subst}
use jetty.Prelude.{
  false, List, [], ◌∷◌, ◌≡◌, ◌≢◌, ◌⊎◌, inl, inr, refl, ap, sym, ◌∙◌, ◌==◌, arith, Bool-cases,
  Option-cases,
}
use jetty.Prelude.Text.{Str, str_eq}
use jetty.Core.Headers.{
  Json, Jsons, end, item, string, array, other, HeadersError, Result, returned, raised, Headers,
  pair_of, wire_of, to_wire, headers_of, entries, from_wire,
}

Result-cases :
    {A : Type 0}
    → (r : Result A) → ((a : A) × (r ≡ returned a)) ⊎ ((e : HeadersError) × (r ≡ raised e))
Result-cases (returned a) = inl (a, refl)
Result-cases (raised e) = inr (e, refl)

module _ (lower : Str → Str) where
  -- What the code relies on: lowercasing again changes nothing, and no text becomes empty.
  pub record IsLower : Type 0 where
    pub again : (s : Str) → lower (lower s) ≡ lower s
    pub kept : (s : Str) → s ≢ [] → lower s ≢ []

  -- Names are lowercase and not empty.
  abbrev pub AreNames : List (Str × Str) → Type 0
  AreNames [] = Unit
  AreNames ((n, v) ∷ pairs) = (lower n ≡ n) × (n ≢ []) × AreNames pairs

  entries-AreNames :
      (ok : IsLower) (raw : Jsons) {pairs : List (Str × Str)}
      → entries lower raw ≡ returned pairs
      → AreNames pairs
  unfolding entries
  entries-AreNames ok end {pairs} h =
      let same : pairs ≡ [] = ground arith in subst AreNames (sym same) tt
  entries-AreNames ok (item entry rest) {pairs} h = elim (Option-cases (pair_of entry)) [
    | inl e ↦ absurd (ground arith)
    | inr ((n, v), e) ↦ elim (Bool-cases (n == [])) [
      | inl q ↦ absurd (ground arith)
      | inr q ↦ elim (Result-cases (entries lower rest)) [
        | inr (error, r) ↦ absurd (ground arith)
        | inl (more, r) ↦
            let same : pairs ≡ (lower n, v) ∷ more = ground arith in
            let full : n ≢ [] = ground arith in
            subst AreNames (sym same)
              (ok.again n, ok.kept n full, entries-AreNames ok rest {pairs = more} r)
      ]
    ]
  ]

  entries-wire_of :
      (pairs : List (Str × Str)) → AreNames pairs → entries lower (wire_of pairs) ≡ returned pairs
  unfolding entries wire_of pair_of
  entries-wire_of [] w = refl
  entries-wire_of ((n, v) ∷ pairs) w =
      let rest = entries-wire_of pairs w.2 in
      let full : (n == []) ≡ false = ground (arith, w.1) in rw (full, rest, w.0) refl

  headers_of-AreNames :
      (pairs : List (Str × Str)) → AreNames pairs → (headers_of lower pairs).pairs ≡ pairs
  unfolding headers_of
  headers_of-AreNames [] w = refl
  headers_of-AreNames ((n, v) ∷ pairs) w = rw (w.0, headers_of-AreNames pairs w.2) refl

  abbrev of_pairs : List (Str × Str) → Headers
  of_pairs pairs = record { pairs = pairs }

  headers_of-pairs : (h : Headers) → AreNames h.pairs → headers_of lower h.pairs ≡ h
  unfolding headers_of
  headers_of-pairs h names = ap of_pairs (headers_of-AreNames h.pairs names)

  -- What `from_wire` returns has only lowercase names that are not empty, and `to_wire` sends it
  -- in a form from which `from_wire` returns the same headers, in order and with repetitions.
  pub from_wire-to_wire :
      (ok : IsLower) (raw : Json) {h : Headers}
      → from_wire lower raw ≡ returned h
      → AreNames h.pairs × (from_wire lower (to_wire h) ≡ returned h)
  unfolding from_wire to_wire
  from_wire-to_wire ok (string s) e = absurd (ground arith)
  from_wire-to_wire ok other e = absurd (ground arith)
  from_wire-to_wire ok (array raw) {h} e = elim (Result-cases (entries lower raw)) [
    | inr (error, r) ↦ absurd (ground arith)
    | inl (pairs, r) ↦
        let names = entries-AreNames ok raw r in
        let made : h ≡ headers_of lower pairs = ground arith in
        let same : h.pairs ≡ pairs =
          ap (λ (x : Headers). x.pairs) made ∙ headers_of-AreNames pairs names in
        let h_names : AreNames h.pairs = subst AreNames (sym same) names in
        let sent : entries lower (wire_of h.pairs) ≡ returned h.pairs =
          entries-wire_of h.pairs h_names in
        (h_names, rw (sent, from_wire) (ap returned (headers_of-pairs h h_names)))
  ]
