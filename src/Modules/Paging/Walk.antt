-- ===== src/Modules/Paging/Walk.antt =====
-- Following the tokens gives every row once, in order.
use jetty.Prelude.{
  ℕ, zero, suc, ◌+◌, ◌≤◌, ◌<◌, false, Option, none, some, List, [], ◌∷◌, ◌++◌, ◌≡◌, ◌≢◌, refl, ap,
  sym, ◌∙◌, inl, inr, ltb, length, take, drop, arith, if◌then◌else◌, if_true, if_false, Bool-cases,
}
use jetty.Prelude.Text.{Str}
use jetty.Prelude.Text.Decimal.{py_int, str_of, py_int-str_of, str_of-ne-nil}
use jetty.Modules.Paging.{offset_of, read_token, paginate}

-- A client that asks for one page after another, for at most so many; `none` if a request is
-- rejected or the tokens go on.
unfoldable pub walk {ℓ} : {A : Type ℓ} → ℕ → List A → ℕ → Str → Option (List (List A))
walk zero rows size token = none
walk (suc fuel) rows size token = elim (paginate rows (record { size = size; token = token })) [
  | none ↦ none
  | some (window, next) ↦ elim next [
    | [] ↦ some (window ∷ [])
    | c ∷ s ↦ elim (walk fuel rows size (c ∷ s)) [
      | none ↦ none
      | some pages ↦ some (window ∷ pages)
    ]
  ]
]

abbrev pub all_of {ℓ} : {A : Type ℓ} → List (List A) → List A
all_of [] = []
all_of (page ∷ pages) = page ++ all_of pages

-- Each page has at most so many rows.
abbrev pub AtMost {ℓ} : {A : Type ℓ} → ℕ → List (List A) → Type 0
AtMost n [] = Unit
AtMost n (page ∷ pages) = (length page ≤ n) × AtMost n pages

-- A walk that ends, with the pages it has seen.
pub record Walked {ℓ} {A : Type ℓ} (walked : Option (List (List A))) (rows : List A) (size : ℕ)
    : Type ℓ where
  pub pages : List (List A)
  pub ends : walked ≡ some pages
  pub complete : all_of pages ≡ rows
  pub bounded : AtMost size pages

abbrev pub effective : ℕ → ℕ
effective size = if ltb 0 size then size else 25

effective_pos : (size : ℕ) → 0 < effective size
effective_pos size = ground arith

read_token-str_of : (n : ℕ) → read_token (str_of n) ≡ some n
unfolding read_token
read_token-str_of n = read_int (str_of n) (str_of-ne-nil n) ∙ ap offset_of (py_int-str_of n)
  where
    read_int : (s : Str) → s ≢ [] → read_token s ≡ offset_of (py_int s)
    read_int [] h = absurd (h refl)
    read_int (c ∷ s) h = refl

module _ {ℓ} {A : Type ℓ} where
  take-drop : (n : ℕ) (xs : List A) → take n xs ++ drop n xs ≡ xs
  take-drop zero xs = refl
  take-drop (suc n) [] = refl
  take-drop (suc n) (x ∷ xs) = ap (◌∷◌ x) (take-drop n xs)

  drop-nil : (n : ℕ) → ◌≡◌ {A = List A} (drop n []) []
  drop-nil zero = refl
  drop-nil (suc n) = refl

  drop-drop : (m n : ℕ) (xs : List A) → drop n (drop m xs) ≡ drop (m + n) xs
  drop-drop zero n xs = ap (λ k. drop k xs) (omega arith)
  drop-drop (suc m) n [] = drop-nil n ∙ sym (drop-nil (suc m + n))
  drop-drop (suc m) n (x ∷ xs) =
      let sum : suc (m + n) ≡ suc m + n = omega arith in
      drop-drop m n xs ∙ ap (λ k. drop k (x ∷ xs)) sum

  length-take : (n : ℕ) (xs : List A) → length (take n xs) ≤ n
  length-take zero xs = omega arith
  length-take (suc n) [] = omega arith
  length-take (suc n) (x ∷ xs) = omega (arith, length-take n xs)

  drop-all : (n : ℕ) (xs : List A) → length xs ≤ n → drop n xs ≡ []
  drop-all zero [] h = refl
  drop-all zero (x ∷ xs) h = absurd (omega arith)
  drop-all (suc n) [] h = refl
  drop-all (suc n) (x ∷ xs) h = drop-all n xs (omega arith)

  paginate-at :
      (offset : ℕ) (rows : List A) (size : ℕ) (token : Str)
      → read_token token ≡ some offset
      → paginate rows (record { size = size; token = token })
        ≡ some (
          take (effective size) (drop offset rows),
          if ltb (offset + effective size) (length rows)
              then str_of (offset + effective size)
              else [],
        )
  unfolding paginate
  paginate-at offset rows size token r = rw (r, paginate) refl

  last-page :
      (fuel offset : ℕ) (rows : List A) (size : ℕ) (token : Str)
      → read_token token ≡ some offset
      → ltb (offset + effective size) (length rows) ≡ false
      → Walked (walk (suc fuel) rows size token) (drop offset rows) (effective size)
  unfolding walk
  last-page fuel offset rows size token r e =
      let sz = effective size in
      let window = take sz (drop offset rows) in
      let here : paginate rows (record { size = size; token = token }) ≡ some (window, []) =
        paginate-at offset rows size token r ∙ ap (λ t. some (window, t)) (if_false _ _ e) in
      record {
        pages = window ∷ [];
        ends = rw (here, walk) refl;
        complete =
            ap (λ rest. window ++ rest)
              (sym (drop-drop offset sz rows ∙ drop-all (offset + sz) rows (ground arith)))
            ∙ take-drop sz (drop offset rows);
        bounded = (length-take sz (drop offset rows), tt);
      }

  one-page :
      (fuel : ℕ) (rows : List A) (size : ℕ) (token : Str) (window : List A) (next : Str)
      (pages : List (List A))
      → paginate rows (record { size = size; token = token }) ≡ some (window, next)
      → next ≢ []
      → walk fuel rows size next ≡ some pages
      → walk (suc fuel) rows size token ≡ some (window ∷ pages)
  unfolding walk
  one-page fuel rows size token window [] pages p n w = absurd (n refl)
  one-page fuel rows size token window (c ∷ s) pages p n w = rw (p, w, walk) refl

  -- From an offset on, with the token that stands for it.
  walk-from :
      (k offset : ℕ) (rows : List A) (size : ℕ) (token : Str)
      → read_token token ≡ some offset
      → length rows ≤ offset + k
      → Walked (walk (suc k) rows size token) (drop offset rows) (effective size)
  walk-from zero offset rows size token r h =
      last-page zero offset rows size token r (ground (arith, effective_pos size))
  walk-from (suc k) offset rows size token r h =
      let sz = effective size in
      let window = take sz (drop offset rows) in
      elim (Bool-cases (ltb (offset + sz) (length rows))) [
        | inr e ↦ last-page (suc k) offset rows size token r e
        | inl e ↦
            let rest =
              walk-from k (offset + sz) rows size (str_of (offset + sz))
                (read_token-str_of (offset + sz)) (omega (arith, effective_pos size)) in
            record {
              pages = window ∷ rest.pages;
              ends =
                  one-page (suc k) rows size token window (str_of (offset + sz)) rest.pages
                    (paginate-at offset rows size token r
                      ∙ ap (λ t. some (window, t)) (if_true _ _ e))
                    (str_of-ne-nil (offset + sz)) rest.ends;
              complete =
                  ap (λ more. window ++ more) (rest.complete ∙ sym (drop-drop offset sz rows))
                  ∙ take-drop sz (drop offset rows);
              bounded = (length-take sz (drop offset rows), rest.bounded);
            }
      ]

  -- A client that starts without a token and follows the tokens that it gets sees every row
  -- once, in order, in pages of at most the size asked for (25 if that is 0), and comes to an end
  -- after at most one page more than there are rows.
  pub walk-paginate :
      (rows : List A) (size : ℕ)
      → Walked (walk (suc (length rows)) rows size []) rows (effective size)
  walk-paginate rows size =
      walk-from (length rows) 0 rows size [] (unfold read_token in refl) (omega arith)
