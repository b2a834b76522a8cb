-- ===== src/Core/Headers.antt =====
-- headers.py: forwarded request headers. Lowercasing, over all of Unicode, is a parameter.
pub mod Wire
pub mod Sole
mod Tests
use mathlib.Core.List.{map}
use jetty.Prelude.{
  ℕ, suc, Bool, true, false, Option, none, some, List, [], ◌∷◌, ◌==◌, keep, length, if◌then◌else◌,
}
use jetty.Prelude.Text.{Str, str_eq}

-- A JSON value: `other` is what is neither a string nor an array.
mutual
  pub data Json : Type 0 where
    string : Str → Json
    array : Jsons → Json
    other : Json

  pub data Jsons : Type 0 where
    end : Jsons
    item : Json → Jsons → Jsons

pub data HeadersError : Type 0 where
  not_array not_pair empty_name : HeadersError
  duplicate : (name : Str) (count : ℕ) → HeadersError

pub data Result (A : Type 0) : Type 0 where
  returned : A → Result A
  raised : HeadersError → Result A

pub record Headers : Type 0 where
  pub pairs : List (Str × Str)

-- `[v for n, v in pairs if n == wanted]`
unfoldable pub values_of : Str → List (Str × Str) → List Str
values_of wanted [] = []
values_of wanted ((n, v) ∷ pairs) =
    let rest = values_of wanted pairs in if n == wanted then v ∷ rest else rest

-- The test on an entry: two strings.
unfoldable pub pair_of : Json → Option (Str × Str)
pair_of (array (item (string name) (item (string value) end))) = some (name, value)
pair_of _ = none

unfoldable pub wire_of : List (Str × Str) → Jsons
wire_of [] = end
wire_of ((n, v) ∷ pairs) = item (array (item (string n) (item (string v) end))) (wire_of pairs)

-- `to_wire`
unfoldable pub to_wire : Headers → Json
unfolding wire_of
to_wire h = array (wire_of h.pairs)

module _ (lower : Str → Str) where
  -- `__init__`
  unfoldable pub headers_of : List (Str × Str) → Headers
  headers_of pairs = record { pairs = map (λ p. (lower p.0, p.1)) pairs }

  unfoldable pub get_all : Headers → Str → List Str
  get_all h name = values_of (lower name) h.pairs

  -- `sole`: the one value, none, or `DuplicateHeaderError`.
  unfoldable pub sole : Headers → Str → Result (Option Str)
  sole h name = elim (get_all h name) as (λ _. Result (Option Str)) [
    | [] ↦ returned none
    | v ∷ [] ↦ returned (some v)
    | v ∷ w ∷ rest ↦ raised (duplicate (lower name) (length (v ∷ w ∷ rest)))
  ]

  -- The loop of `from_wire` over the entries.
  unfoldable pub entries : Jsons → Result (List (Str × Str))
  entries end = returned []
  entries (item entry rest) = elim (pair_of entry) [
    | none ↦ raised not_pair
    | some (name, value) ↦ if name == [] then raised empty_name else elim (entries rest) [
      | raised e ↦ raised e
      | returned pairs ↦ returned ((lower name, value) ∷ pairs)
    ]
  ]

  unfoldable pub from_wire : Json → Result Headers
  from_wire (array raw) = elim (entries raw) [
    | raised e ↦ raised e
    | returned pairs ↦ returned (headers_of pairs)
  ]
  from_wire _ = raised not_array
