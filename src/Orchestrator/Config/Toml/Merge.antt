-- ===== src/Orchestrator/Config/Toml/Merge.antt =====
-- What a merged table holds at each key.
use mathlib.Core.Path.{subst}
use jetty.Prelude.{
  Bool, true, false, Option, none, some, ◌≡◌, refl, ap, sym, ◌∙◌, ◌==◌, arith, if◌then◌else◌,
  if_true, if_false,
}
use jetty.Prelude.Text.{Str, str_eq}
use jetty.Orchestrator.Config.Toml.{
  Toml, string, integer, float, boolean, array, table, other, Fields, end, field, get_field,
  put_field, remove_field, is_table, merge_raw,
}

abbrev pub has_field : Fields → Str → Bool
has_field end k = false
has_field (field j v d) k = let rest = has_field d k in if k == j then true else rest

-- No key twice.
abbrev pub IsDict : Fields → Type 0
IsDict end = Unit
IsDict (field k v d) = (has_field d k ≡ false) × IsDict d

-- What the parent has at a key, when the child has `false` there, or a table.
abbrev pub deleted : Option Toml → Option Toml
deleted (some (table b)) = none
deleted _ = some (boolean false)

abbrev pub joined : Fields → Option Toml → Option Toml
joined d (some (table b)) = some (table (merge_raw b d))
joined d _ = some (table d)

-- By what the child has at a key: its table is merged into the parent's, its `false` deletes the
-- parent's table, and else its value counts.
abbrev pub merged : Option Toml → Option Toml → Option Toml
merged none base = base
merged (some (boolean false)) base = deleted base
merged (some (table d)) base = joined d base
merged (some v) base = some v

pub get_field-put_field :
    (d : Fields) (k j : Str) (v : Toml)
    → get_field (put_field d k v) j ≡ (if j == k then some v else get_field d j)
unfolding get_field put_field
get_field-put_field end k j v = refl
get_field-put_field (field i w d) k j v = ground (arith, get_field-put_field d k j v)

pub get_field-remove_field :
    (d : Fields) (k j : Str)
    → get_field (remove_field d k) j ≡ (if j == k then none else get_field d j)
unfolding get_field remove_field
get_field-remove_field end k j = ground arith
get_field-remove_field (field i w d) k j = ground (arith, get_field-remove_field d k j)

get_field-has_field : (d : Fields) (k : Str) → has_field d k ≡ false → get_field d k ≡ none
unfolding get_field
get_field-has_field end k h = refl
get_field-has_field (field j v d) k h = ground (arith, get_field-has_field d k)

-- The result after one key of the child.
merge_one : Fields → Str → Toml → Fields
merge_one out k (boolean false) =
    if is_table (get_field out k) then remove_field out k else put_field out k (boolean false)
merge_one out k (table d) = elim (get_field out k) as (λ _. Fields) [
  | some (table b) ↦ put_field out k (table (merge_raw b d))
  | _ ↦ put_field out k (table d)
]
merge_one out k v = put_field out k v

merge_raw-field :
    (out : Fields) (k : Str) (v : Toml) (rest : Fields)
    → merge_raw out (field k v rest) ≡ merge_raw (merge_one out k v) rest
unfolding merge_raw merge_one
merge_raw-field out k (boolean false) rest = refl
merge_raw-field out k (boolean true) rest = refl
merge_raw-field out k (table d) rest = refl
merge_raw-field out k (string s) rest = refl
merge_raw-field out k (integer n) rest = refl
merge_raw-field out k (float x) rest = refl
merge_raw-field out k (array l) rest = refl
merge_raw-field out k other rest = refl

-- At its own key, and elsewhere.
get_field-merge_one :
    (out : Fields) (k j : Str) (v : Toml)
    → get_field (merge_one out k v) j
      ≡ (if j == k then merged (some v) (get_field out k) else get_field out j)
unfolding merge_one
get_field-merge_one out k j (boolean false) = by_base (get_field out k) refl
  where
    by_base :
        (o : Option Toml)
        → get_field out k ≡ o
        → get_field (if is_table o then remove_field out k else put_field out k (boolean false)) j
          ≡ (if j == k then merged (some (boolean false)) o else get_field out j)
    by_base (some (table b)) e = get_field-remove_field out k j
    by_base none e = get_field-put_field out k j (boolean false)
    by_base (some (string s)) e = get_field-put_field out k j (boolean false)
    by_base (some (integer n)) e = get_field-put_field out k j (boolean false)
    by_base (some (float x)) e = get_field-put_field out k j (boolean false)
    by_base (some (boolean b)) e = get_field-put_field out k j (boolean false)
    by_base (some (array l)) e = get_field-put_field out k j (boolean false)
    by_base (some other) e = get_field-put_field out k j (boolean false)
get_field-merge_one out k j (table d) = by_base (get_field out k)
  where
    by_base :
        (o : Option Toml)
        → get_field
            (elim o as (λ _. Fields) [
              | some (table b) ↦ put_field out k (table (merge_raw b d))
              | _ ↦ put_field out k (table d)
            ])
            j
          ≡ (if j == k then merged (some (table d)) o else get_field out j)
    by_base (some (table b)) = get_field-put_field out k j (table (merge_raw b d))
    by_base none = get_field-put_field out k j (table d)
    by_base (some (string s)) = get_field-put_field out k j (table d)
    by_base (some (integer n)) = get_field-put_field out k j (table d)
    by_base (some (float x)) = get_field-put_field out k j (table d)
    by_base (some (boolean b)) = get_field-put_field out k j (table d)
    by_base (some (array l)) = get_field-put_field out k j (table d)
    by_base (some other) = get_field-put_field out k j (table d)
get_field-merge_one out k j (boolean true) = get_field-put_field out k j (boolean true)
get_field-merge_one out k j (string s) = get_field-put_field out k j (string s)
get_field-merge_one out k j (integer n) = get_field-put_field out k j (integer n)
get_field-merge_one out k j (float x) = get_field-put_field out k j (float x)
get_field-merge_one out k j (array l) = get_field-put_field out k j (array l)
get_field-merge_one out k j other = get_field-put_field out k j other

-- After `merge_raw`, the table holds at each key what follows from what parent and child hold
-- there: the parent's value where the child has none, the merged table where both have tables,
-- nothing where the child has `false` for a table, and the child's value elsewhere.
pub get_field-merge_raw :
    (base override : Fields) (k : Str)
    → IsDict override
    → get_field (merge_raw base override) k ≡ merged (get_field override k) (get_field base k)
unfolding get_field
get_field-merge_raw base end k d = unfold merge_raw in refl
get_field-merge_raw base (field j v rest) k d =
    let ih = get_field-merge_raw (merge_one base j v) rest k d.1 in
    let one = get_field-merge_one base j k v in
    ap (λ x. get_field x k) (merge_raw-field base j v rest) ∙ (ih ∙ at_key one)
  where
    at_key :
        get_field (merge_one base j v) k
          ≡ (if k == j then merged (some v) (get_field base j) else get_field base k)
        → merged (get_field rest k) (get_field (merge_one base j v) k)
          ≡ merged (if k == j then some v else get_field rest k) (get_field base k)
    at_key one = elim (str_eq.dec k j) [
      | yes q ↦
          let at_j : get_field rest k ≡ none =
            subst (λ x. get_field rest x ≡ none) (sym q) (get_field-has_field rest j d.0) in
          let here : (k == j) ≡ true = ground arith in
          ap (λ o. merged o (get_field (merge_one base j v) k)) at_j
          ∙ (one
              ∙ (if_true _ _ here
                  ∙ (ap (λ x. merged (some v) (get_field base x)) (sym q)
                      ∙ sym (ap (λ o. merged o (get_field base k)) (if_true _ _ here)))))
      | no q ↦
          let away : (k == j) ≡ false = ground arith in
          ap (merged (get_field rest k)) (one ∙ if_false _ _ away)
          ∙ sym (ap (λ o. merged o (get_field base k)) (if_false _ _ away))
    ]
