-- ===== src/Modules/Paging.antt =====
-- `_paginate`, which the mock drivers of chat and of the issue tracker have in the same words.
pub mod Walk
mod Tests
use jetty.Prelude.{
  ℕ, zero, suc, ◌+◌, Bool, true, false, Option, none, some, List, [], ◌∷◌, ltb, length, take, drop,
  if◌then◌else◌,
}
use jetty.Prelude.Text.{Str}
use jetty.Prelude.Text.Decimal.{Read, no_int, negative, natural, py_int, str_of}

-- A page's size below 1 is 0 here: both mean 25.
pub record Page : Type 0 where
  pub size : ℕ
  pub token : Str

abbrev pub size_of : Page → ℕ
size_of page = if ltb 0 page.size then page.size else 25

abbrev pub offset_of : Read → Option ℕ
offset_of no_int = none
offset_of negative = none
offset_of (natural n) = some n

-- An empty token is the start; any other must be a number.
unfoldable pub read_token : Str → Option ℕ
read_token [] = some 0
read_token (c ∷ s) = offset_of (py_int (c ∷ s))

-- The window and the next token; `none` is `DriverRejects`.
unfoldable pub paginate {ℓ} : {A : Type ℓ} → List A → Page → Option (List A × Str)
paginate rows page = elim (read_token page.token) [
  | none ↦ none
  | some offset ↦ some (
    take (size_of page) (drop offset rows),
    if ltb (offset + size_of page) (length rows) then str_of (offset + size_of page) else [],
  )
]
