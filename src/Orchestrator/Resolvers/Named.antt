-- ===== src/Orchestrator/Resolvers/Named.antt =====
-- What `parse_output` returns: each provided name, with the path printed for it.
use mathlib.Core.Path.{subst}
use jetty.Prelude.{
  true, false, not, some, List, [], ◌∷◌, ◌≡◌, ◌⊎◌, inl, inr, refl, ap, sym, ◌∙◌, arith, contains,
  nonempty, Bool-cases, Option-cases, contains-keep,
}
use jetty.Prelude.Dict.{Dict, get, has, put, get-put}
use jetty.Prelude.Text.{Str, str_eq, partition}
use jetty.Orchestrator.Resolvers.{
  Parsed, returned, raised, ResolveError, key_of, value_of, malformed, read_lines, missing_of,
  check_missing, read_all, parse_lines, parse_output,
}
use jetty.Orchestrator.Resolvers.Lines.{output_lines}

-- A line for the name: name=path, both not empty.
abbrev pub Printed : Str → Str → List Str → Type 0
Printed k v [] = ⊥
Printed k v (line ∷ lines) =
    ((key_of line ≡ k) × (value_of line ≡ v) × (malformed line ≡ false)) ⊎ Printed k v lines

-- The paths returned: one for each name that the resolver provides and for no other, and each
-- printed for its name, or the only line for the only name.
pub record Answer (provides lines : List Str) (out : Dict Str Str) : Type 0 where
  pub complete :
      (name : Str) → contains provides name ≡ true → (path : Str) × (get out name ≡ some path)
  pub provided : (name path : Str) → get out name ≡ some path → contains provides name ≡ true
  pub printed :
      (name path : Str)
      → get out name ≡ some path
      → Printed name path lines ⊎ ((provides ≡ name ∷ []) × (lines ≡ path ∷ []))

read_lines-Printed :
    (provides : List Str) (start : Dict Str Str) (lines : List Str) {out : Dict Str Str}
    → read_lines provides start lines ≡ returned out
    → (k v : Str) → get out k ≡ some v
    → (get start k ≡ some v) ⊎ ((contains provides k ≡ true) × Printed k v lines)
unfolding read_lines
read_lines-Printed provides start [] {out} h k v g =
    let same : start ≡ out = ground arith in inl (ap (λ (d : Dict Str Str). get d k) same ∙ g)
read_lines-Printed provides start (line ∷ lines) {out} h k v g =
    let next = put start (key_of line) (value_of line) in
    elim (Bool-cases (malformed line)) [
      | inl m ↦ absurd (ground arith)
      | inr m ↦ elim (Bool-cases (contains provides (key_of line))) [
        | inr c ↦ absurd (ground arith)
        | inl c ↦
            let later : read_lines provides next lines ≡ returned out = ground arith in
            elim (read_lines-Printed provides next lines later k v g) [
              | inr (p, found) ↦ inr (p, inr found)
              | inl old ↦ elim (str_eq.dec k (key_of line)) [
                | yes q ↦ inr (
                  rw q c,
                  inl (sym q, ground (arith, get-put start (key_of line) k (value_of line)), m),
                )
                | no q ↦ inl (ground (arith, get-put start (key_of line) k (value_of line)))
              ]
            ]
      ]
    ]

missing_of_complete :
    (provides : List Str) (out : Dict Str Str) (name : Str)
    → nonempty (missing_of provides out) ≡ false
    → contains provides name ≡ true
    → (path : Str) × (get out name ≡ some path)
missing_of_complete provides out name empty c = elim (Option-cases (get out name)) [
  | inr found ↦ found
  | inl e ↦ absurd (ground (arith, contains-keep (λ p. not (has out p)) provides name))
]

Parsed-cases :
    (r : Parsed)
    → ((out : Dict Str Str) × (r ≡ returned out)) ⊎ ((e : ResolveError) × (r ≡ raised e))
Parsed-cases (returned out) = inl (out, refl)
Parsed-cases (raised e) = inr (e, refl)

read_all-Answer :
    (provides lines : List Str) {out : Dict Str Str}
    → read_all provides lines ≡ returned out
    → Answer provides lines out
unfolding read_all check_missing get
read_all-Answer provides lines {out} h = elim (Parsed-cases (read_lines provides [] lines)) [
  | inr (error, e) ↦ absurd (ground arith)
  | inl (read, e) ↦
      let all_there : nonempty (missing_of provides read) ≡ false = ground arith in
      let same : out ≡ read = ground arith in
      let source : (k v : Str)
          → get out k ≡ some v
          → (contains provides k ≡ true) × Printed k v lines =
        λ k v g.
          elim (read_lines-Printed provides [] lines e k v
            (sym (ap (λ (d : Dict Str Str). get d k) same) ∙ g)) [
              | inl old ↦ absurd (ground arith)
              | inr found ↦ found
            ] in
      record {
        complete = λ name c. rw same (missing_of_complete provides read name all_there c);
        provided = λ k v g. (source k v g).0;
        printed = λ k v g. inl (source k v g).1;
      }
]

path-Answer : (name line : Str) → Answer (name ∷ []) (line ∷ []) ((name, line) ∷ [])
unfolding get
path-Answer name line = record {
  complete = λ n c. (line, ground arith);
  provided = λ n path g. ground arith;
  printed = λ n path g. inr (ground arith, ground arith);
}

parse_lines-Answer :
    (provides lines : List Str) {out : Dict Str Str}
    → parse_lines provides lines ≡ returned out
    → Answer provides lines out
unfolding parse_lines
parse_lines-Answer [] lines h = read_all-Answer [] lines h
parse_lines-Answer (name ∷ []) [] h = read_all-Answer (name ∷ []) [] h
parse_lines-Answer (name ∷ []) (line ∷ []) {out} h = elim (Bool-cases (partition b'=' line).found) [
  | inl f ↦ read_all-Answer (name ∷ []) (line ∷ []) (ground arith)
  | inr f ↦
      let same : (name, line) ∷ [] ≡ out = ground arith in
      subst (Answer (name ∷ []) (line ∷ [])) same (path-Answer name line)
]
parse_lines-Answer (name ∷ []) (line ∷ next ∷ lines) h =
    read_all-Answer (name ∷ []) (line ∷ next ∷ lines) h
parse_lines-Answer (name ∷ other ∷ provides) lines h =
    read_all-Answer (name ∷ other ∷ provides) lines h

-- If `parse_output` returns, it has one path for each name that the resolver provides and for no
-- other, and each path comes from a line name=path for that name, or is the only line of the
-- output, for a resolver that provides one name.
pub parse_output-Answer :
    (provides : List Str) (stdout : Str) {out : Dict Str Str}
    → parse_output provides stdout ≡ returned out
    → Answer provides (output_lines stdout) out
unfolding parse_output
parse_output-Answer provides stdout h = parse_lines-Answer provides (output_lines stdout) h
