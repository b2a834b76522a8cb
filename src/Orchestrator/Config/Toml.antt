-- ===== src/Orchestrator/Config/Toml.antt =====
-- What `tomllib` makes of a file, and `merge_raw`.
pub mod Merge
use jetty.Prelude.{ℕ, Bool, true, false, Option, none, some, List, [], ◌∷◌, ◌==◌, if◌then◌else◌}
use jetty.Prelude.Dict.{Dict}
use jetty.Prelude.Text.{Str, str_eq}

-- `negsuc n` is -(n + 1).
pub data ℤ : Type 0 where
  pos : ℕ → ℤ
  negsuc : ℕ → ℤ

-- A float is a count of the unit in which the program's durations are counted, and is finite. The
-- dates and times of TOML, which no key takes, are `other`.
mutual
  pub data Toml : Type 0 where
    string : Str → Toml
    integer : ℤ → Toml
    float : ℤ → Toml
    boolean : Bool → Toml
    array : Items → Toml
    table : Fields → Toml
    other : Toml

  pub data Items : Type 0 where
    nil : Items
    cons : Toml → Items → Items

  pub data Fields : Type 0 where
    end : Fields
    field : Str → Toml → Fields → Fields

unfoldable pub get_field : Fields → Str → Option Toml
get_field end k = none
get_field (field j v d) k = let rest = get_field d k in if k == j then some v else rest

unfoldable pub put_field : Fields → Str → Toml → Fields
put_field end k v = field k v end
put_field (field j w d) k v =
    let rest = put_field d k v in if k == j then field k v d else field j w rest

unfoldable pub remove_field : Fields → Str → Fields
remove_field end k = end
remove_field (field j w d) k =
    let rest = remove_field d k in if k == j then rest else field j w rest

-- One key of the override meets what the result holds at it so far.
abbrev pub is_table : Option Toml → Bool
is_table (some (table d)) = true
is_table _ = false

-- `merge_raw`: `out` is the result so far.
unfoldable pub merge_raw : Fields → Fields → Fields
merge_raw out end = out
merge_raw out (field k (boolean false) rest) =
    merge_raw
      (if is_table (get_field out k) then remove_field out k else put_field out k (boolean false))
      rest
merge_raw out (field k (table d) rest) =
    merge_raw
      (elim (get_field out k) as (λ _. Fields) [
        | some (table b) ↦ put_field out k (table (merge_raw b d))
        | _ ↦ put_field out k (table d)
      ])
      rest
merge_raw out (field k v rest) = merge_raw (put_field out k v) rest
