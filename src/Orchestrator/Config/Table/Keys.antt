-- ===== src/Orchestrator/Config/Table/Keys.antt =====
-- Which keys the accessors of `_Table` take.
use jetty.Prelude.{
  ℕ, Bool, false, Option, none, some, List, [], ◌∷◌, ◌≡◌, refl, ap, sym, ◌∙◌, ◌==◌, arith, if_false,
  contains,
}
use jetty.Prelude.Dict.{Dict}
use jetty.Prelude.Text.{Str, str_eq}
use jetty.Prelude.Text.Shell.{shell_split}
use jetty.Orchestrator.Config.Toml.{
  Toml, string, integer, float, boolean, array, table, other, Items, get_field, put_field,
}
use jetty.Orchestrator.Config.Toml.Merge.{get_field-put_field, get_field-remove_field}
use jetty.Orchestrator.Config.Table.{
  Table, Taken, took, raised, Parser, then_take, ◌>>=◌, ◌>>◌, pop, at, bad_quotes, take_str,
  take_required, Bound, take_number, take_signed, take_int, take_bool, take_str_list, take_argv,
  take_int_list, take_str_dict, take_choice, take_table, take_nested, nested, done, items,
}

-- A bind that succeeds has two steps that succeed.
pub >>=-eq-took {ℓ κ} :
    {A : Type ℓ} {B : Type κ} (p : Taken A) (f : A → Parser B) {b : B} {t : Table}
    → then_take p f ≡ took b t
    → (a : A) × (s : Table) × (p ≡ took a s) × (f a s ≡ took b t)
>>=-eq-took (took a s) f h = (a, s, refl, h)
>>=-eq-took (raised e) f h = cc

-- Nothing is taken.
abbrev pub KeepsTable {ℓ} : {A : Type ℓ} → Parser A → Type ℓ
KeepsTable {A} p = (t t' : Table) (a : A) → p t ≡ took a t' → t' ≡ t

-- Nothing is taken but one key.
abbrev pub TakesKey {ℓ} : {A : Type ℓ} → Str → Parser A → Type ℓ
TakesKey {A} key p =
    (t t' : Table) (a : A)
    → p t ≡ took a t'
    → (j : Str) → (j == key) ≡ false
    → get_field t'.raw j ≡ get_field t.raw j

-- Only tables whose keys are among `ks` are accepted.
pub record IsClosed {ℓ} {A : Type ℓ} (ks : List Str) (p : Parser A) : Type ℓ where
  pub closed :
      (t t' : Table) (a : A)
      → p t ≡ took a t'
      → (j : Str) → contains ks j ≡ false
      → get_field t.raw j ≡ none

pub takes-take_bool : (key : Str) (d : Bool) → TakesKey key (take_bool key d)
unfolding take_bool pop
takes-take_bool key d t t' a h j n = ground (arith, get_field-remove_field t.raw key j)

pub takes-take_number :
    (quarter : ℕ) (key : Str) (d : ℕ) (b : Bound) → TakesKey key (take_number quarter key d b)
unfolding take_number take_signed pop
takes-take_number quarter key d b t t' a h j n = ground (arith, get_field-remove_field t.raw key j)

pub takes-take_signed :
    (quarter : ℕ) (key : Str) (d : ℕ) (b : Bound) → TakesKey key (take_signed quarter key d b)
unfolding take_signed pop
takes-take_signed quarter key d b t t' a h j n = ground (arith, get_field-remove_field t.raw key j)

pub takes-take_int : (key : Str) (d least : ℕ) → TakesKey key (take_int key d least)
unfolding take_int pop
takes-take_int key d least t t' a h j n = ground (arith, get_field-remove_field t.raw key j)

pub takes-take_str_list : (key : Str) (n : ℕ) → TakesKey key (take_str_list key n)
unfolding take_str_list pop
takes-take_str_list key m t t' a h j n = ground (arith, get_field-remove_field t.raw key j)

pub takes-take_str : (key : Str) → TakesKey key (take_str key)
unfolding take_str
takes-take_str key t t' a h j n = ground (arith, get_field-remove_field t.raw key j)

pub takes-take_required : (key : Str) → TakesKey key (take_required key)
unfolding take_required
takes-take_required key t t' a h j n = ground (arith, get_field-remove_field t.raw key j)

pub takes-take_argv : (key : Str) (n : ℕ) → TakesKey key (take_argv key n)
unfolding take_argv
takes-take_argv key m t t' a h j n = by_value (get_field t.raw key) h
  where
    whole : take_str_list key m t ≡ took a t' → get_field t'.raw j ≡ get_field t.raw j
    whole e = takes-take_str_list key m t t' a e j n

    by_words :
        (o : Option (List Str))
        → (elim o as (λ _. Taken (List Str)) [
          | none ↦ raised (bad_quotes (at t.place key))
          | some ss ↦
              take_str_list key m (record t { raw = put_field t.raw key (array (items ss)) })
        ])
          ≡ took a t'
        → get_field t'.raw j ≡ get_field t.raw j
    by_words none e = cc
    by_words (some ss) e =
        takes-take_str_list key m (record t { raw = put_field t.raw key (array (items ss)) }) t' a e
          j n
        ∙ (get_field-put_field t.raw key j (array (items ss)) ∙ if_false _ _ n)

    by_value :
        (o : Option Toml)
        → (elim o as (λ _. Taken (List Str)) [
          | some (string s) ↦ elim (shell_split s) as (λ _. Taken (List Str)) [
            | none ↦ raised (bad_quotes (at t.place key))
            | some ss ↦
                take_str_list key m (record t { raw = put_field t.raw key (array (items ss)) })
          ]
          | _ ↦ take_str_list key m t
        ])
          ≡ took a t'
        → get_field t'.raw j ≡ get_field t.raw j
    by_value (some (string s)) e = by_words (shell_split s) e
    by_value none e = whole e
    by_value (some (integer x)) e = whole e
    by_value (some (float x)) e = whole e
    by_value (some (boolean x)) e = whole e
    by_value (some (array x)) e = whole e
    by_value (some (table x)) e = whole e
    by_value (some other) e = whole e

pub takes-take_int_list : (key : Str) (d : Items) → TakesKey key (take_int_list key d)
unfolding take_int_list pop
takes-take_int_list key d t t' a h j n = ground (arith, get_field-remove_field t.raw key j)

pub takes-take_str_dict : (key : Str) → TakesKey key (take_str_dict key)
unfolding take_str_dict pop
takes-take_str_dict key t t' a h j n = ground (arith, get_field-remove_field t.raw key j)

pub takes-take_table : (key : Str) → TakesKey key (take_table key)
unfolding take_table pop
takes-take_table key t t' a h j n = ground (arith, get_field-remove_field t.raw key j)

pub takes-take_choice {ℓ} :
    {A : Type ℓ} (key : Str) (choices : Dict Str A) (d : Str)
    → TakesKey key (take_choice key choices d)
unfolding take_choice pop
takes-take_choice key choices d t t' a h j n = ground (arith, get_field-remove_field t.raw key j)

pub takes-take_nested {ℓ} :
    {A : Type ℓ} (p : Parser A) (key : Str) → TakesKey key (take_nested p key)
unfolding take_table nested pop
takes-take_nested p key t t' a h j n = ground (arith, get_field-remove_field t.raw key j)

-- `p` takes one key, and what follows takes the others.
pub IsClosed-bind {ℓ κ} :
    {A : Type ℓ} {B : Type κ} (key : Str) (ks : List Str) (p : Parser A) (f : A → Parser B)
    → TakesKey key p
    → ((a : A) → IsClosed ks (f a))
    → IsClosed (key ∷ ks) (p >>= f)
IsClosed-bind key ks p f kp kf = record {
  closed = λ t t' b h j n.
      let (a, s, e, e') = >>=-eq-took (p t) f h in
      sym (kp t s a e j (ground arith)) ∙ (kf a).closed s t' b e' j (ground arith);
}

pub IsClosed-done {ℓ} : {A : Type ℓ} (q : Parser A) → IsClosed [] (done >> q)
unfolding done get_field
IsClosed-done q = record { closed = λ t t' a h j n. ground arith }

-- A step that takes nothing.
pub IsClosed-keep {ℓ κ} :
    {A : Type ℓ} {B : Type κ} (ks : List Str) (p : Parser A) (f : A → Parser B)
    → KeepsTable p
    → ((a : A) → IsClosed ks (f a))
    → IsClosed ks (p >>= f)
IsClosed-keep ks p f kp kf = record {
  closed = λ t t' b h j n.
      let (a, s, e, e') = >>=-eq-took (p t) f h in
      ap (λ x. get_field x.raw j) (sym (kp t s a e)) ∙ (kf a).closed s t' b e' j n;
}
