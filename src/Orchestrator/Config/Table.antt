-- ===== src/Orchestrator/Config/Table.antt =====
-- `_Table` of config.py: the accessors that take keys out of a TOML table.
pub mod Accept
pub mod Keys
use jetty.Prelude.{
  ℕ, suc, ◌*◌, ◌-◌, Bool, true, false, Option, none, some, List, [], ◌∷◌, ◌++◌, ◌==◌, length,
  sorted, ltb, leb, nonempty, if◌then◌else◌,
}
use jetty.Prelude.Dict.{Dict, get}
use jetty.Prelude.Text.{Str, str_eq, str_le, codes}
use jetty.Prelude.Text.Shell.{shell_split}
use jetty.Orchestrator.Config.Model.{ExitCode, exited, signalled}
use jetty.Orchestrator.Config.Validate.{ConfigError}
use jetty.Orchestrator.Config.Toml.{
  ℤ, pos, negsuc, Toml, string, integer, float, boolean, array, table, other, Items, nil, cons,
  Fields, end, field, get_field, put_field, remove_field,
}

-- The messages of the parser, with the place that each names.
pub data ParseError : Type 0 where
  not_a_table missing wrong_type out_of_bounds too_short bad_quotes not_a_choice : Str → ParseError
  two_probes bad_url bad_instance_name : Str → ParseError
  unknown_keys : Str → List Str → ParseError
  invalid : ConfigError → ParseError

-- `_raw` and `_where`.
pub record Table : Type 0 where
  pub raw : Fields
  pub place : Str

pub data Taken {ℓ} (A : Type ℓ) : Type ℓ where
  took : A → Table → Taken A
  raised : ParseError → Taken A

-- What reads a table and consumes its keys.
abbrev pub Parser {ℓ} : Type ℓ → Type ℓ
Parser A = Table → Taken A

abbrev pub pure {ℓ} : {A : Type ℓ} → A → Parser A
pure a t = took a t

abbrev pub raise {ℓ} : {A : Type ℓ} → ParseError → Parser A
raise e t = raised e

abbrev pub then_take {ℓ κ} : {A : Type ℓ} {B : Type κ} → Taken A → (A → Parser B) → Taken B
then_take (took a t) f = f a t
then_take (raised e) f = raised e

infixl 5 ◌>>=◌ ◌>>◌
abbrev pub ◌>>=◌ {ℓ κ} : {A : Type ℓ} {B : Type κ} → Parser A → (A → Parser B) → Parser B
◌>>=◌ p f t = then_take (p t) f

abbrev pub ◌>>◌ {ℓ} : {B : Type ℓ} → Parser (Unit {0}) → Parser B → Parser B
p >> q = p >>= λ _. q

abbrev pub guard : Bool → ParseError → Parser (Unit {0})
guard true e = pure tt
guard false e = raise e

-- `at`
unfoldable pub at : Str → Str → Str
at place key = if nonempty place then place ++ (codes "." ++ key) else key

abbrev pub or_default : Option Toml → Toml → Toml
or_default none v = v
or_default (some v) d = v

abbrev pub has_key : Option Toml → Bool
has_key none = false
has_key (some v) = true

-- `self._raw.pop(key, default)`
unfoldable pub pop : Str → Toml → Parser Toml
pop key v t = took (or_default (get_field t.raw key) v) (record t { raw = remove_field t.raw key })

-- What the code reads in a value of the type that it wants, or nothing for another type.
abbrev pub str_of_toml : Toml → Option Str
str_of_toml (string s) = some s
str_of_toml _ = none

abbrev pub bool_of_toml : Toml → Option Bool
bool_of_toml (boolean b) = some b
bool_of_toml _ = none

abbrev pub int_of_toml : Toml → Option ℤ
int_of_toml (integer n) = some n
int_of_toml _ = none

abbrev pub fields_of_toml : Toml → Option Fields
fields_of_toml (table d) = some d
fields_of_toml _ = none

-- `float(value)`, in units of which a quarter has the given count.
abbrev pub number_of_toml : ℕ → Toml → Option ℤ
number_of_toml quarter (integer (pos n)) = some (pos (n * (4 * quarter)))
number_of_toml quarter (integer (negsuc n)) = some (negsuc (suc n * (4 * quarter) - 1))
number_of_toml quarter (float x) = some x
number_of_toml quarter _ = none

unfoldable pub strs_of_items : Items → Option (List Str)
strs_of_items nil = some []
strs_of_items (cons v l) = elim (strs_of_items l) [
  | none ↦ none
  | some ss ↦ elim (str_of_toml v) [ none ↦ none | some s ↦ some (s ∷ ss) ]
]

abbrev pub strs_of_toml : Toml → Option (List Str)
strs_of_toml (array l) = strs_of_items l
strs_of_toml _ = none

-- A process's return code as the integers of `no_restart_exit` denote it.
abbrev pub exit_code : ℤ → ExitCode
exit_code (pos n) = exited n
exit_code (negsuc n) = signalled (suc n)

unfoldable pub ints_of_items : Items → Option (List ExitCode)
ints_of_items nil = some []
ints_of_items (cons v l) = elim (ints_of_items l) [
  | none ↦ none
  | some ns ↦ elim (int_of_toml v) [ none ↦ none | some n ↦ some (exit_code n ∷ ns) ]
]

abbrev pub ints_of_toml : Toml → Option (List ExitCode)
ints_of_toml (array l) = ints_of_items l
ints_of_toml _ = none

unfoldable pub strs_of_fields : Fields → Option (Dict Str Str)
strs_of_fields end = some []
strs_of_fields (field k v d) = elim (strs_of_fields d) [
  | none ↦ none
  | some ss ↦ elim (str_of_toml v) [ none ↦ none | some s ↦ some ((k, s) ∷ ss) ]
]

abbrev pub dict_of_toml : Toml → Option (Dict Str Str)
dict_of_toml (table d) = strs_of_fields d
dict_of_toml _ = none

abbrev pub wanted {ℓ} : {A : Type ℓ} → Str → Option A → Parser A
wanted key none t = raised (wrong_type (at t.place key))
wanted key (some a) t = took a t

abbrev pub ensure : Bool → (Str → ParseError) → Str → Parser (Unit {0})
ensure b e key t = guard b (e (at t.place key)) t

unfoldable pub take_str : Str → Parser (Option Str)
unfolding pop at
take_str key t = elim (get_field t.raw key) [
  | none ↦ took none t
  | some v ↦
      (do s ← wanted key (str_of_toml v); pure (some s)) (record t { raw = remove_field t.raw key })
]

-- `take_str` with `required=True`.
unfoldable pub take_required : Str → Parser Str
unfolding pop at
take_required key t = elim (get_field t.raw key) [
  | none ↦ raised (missing (at t.place key))
  | some v ↦ wanted key (str_of_toml v) (record t { raw = remove_field t.raw key })
]

-- The bound of `take_number`: `gt=0`, or `ge=0`.
pub data Bound : Type 0 where
  over_zero from_zero : Bound

abbrev pub within : Bound → ℤ → Bool
within over_zero (pos n) = ltb 0 n
within from_zero (pos n) = true
within b (negsuc n) = false

abbrev pub magnitude : ℤ → ℕ
magnitude (pos n) = n
magnitude (negsuc n) = 0

-- The number itself.
unfoldable pub take_signed : ℕ → Str → ℕ → Bound → Parser ℤ
unfolding pop at
take_signed quarter key default bound = do
  v ← pop key (float (pos default))
  x ← wanted key (number_of_toml quarter v)
  ensure (within bound x) out_of_bounds key
  pure x

-- The number as a natural one, where the bound excludes the others.
unfoldable pub take_number : ℕ → Str → ℕ → Bound → Parser ℕ
unfolding take_signed
take_number quarter key default bound = do
  x ← take_signed quarter key default bound
  pure (magnitude x)

abbrev pub from_least : ℕ → ℤ → Bool
from_least least (pos n) = leb least n
from_least least (negsuc n) = false

-- `least` is the `ge` of every call.
unfoldable pub take_int : Str → ℕ → ℕ → Parser ℕ
unfolding pop at
take_int key default least = do
  v ← pop key (integer (pos default))
  n ← wanted key (int_of_toml v)
  ensure (from_least least n) out_of_bounds key
  pure (magnitude n)

unfoldable pub take_bool : Str → Bool → Parser Bool
unfolding pop at
take_bool key default = do v ← pop key (boolean default); wanted key (bool_of_toml v)

unfoldable pub take_str_list : Str → ℕ → Parser (List Str)
unfolding pop at strs_of_items
take_str_list key min_len = do
  v ← pop key (array nil)
  ss ← wanted key (strs_of_toml v)
  ensure (leb min_len (length ss)) too_short key
  pure ss

abbrev pub items : List Str → Items
items [] = nil
items (s ∷ ss) = cons (string s) (items ss)

-- Split, the string is put back as a list.
unfoldable pub take_argv : Str → ℕ → Parser (List Str)
unfolding take_str_list at
take_argv key min_len t = elim (get_field t.raw key) as (λ _. Taken (List Str)) [
  | some (string s) ↦ elim (shell_split s) [
    | none ↦ raised (bad_quotes (at t.place key))
    | some ss ↦
        take_str_list key min_len (record t { raw = put_field t.raw key (array (items ss)) })
  ]
  | _ ↦ take_str_list key min_len t
]

unfoldable pub take_int_list : Str → Items → Parser (List ExitCode)
unfolding pop at ints_of_items
take_int_list key default = do v ← pop key (array default); wanted key (ints_of_toml v)

unfoldable pub take_str_dict : Str → Parser (Dict Str Str)
unfolding pop at strs_of_fields
take_str_dict key = do v ← pop key (table end); wanted key (dict_of_toml v)

-- The value that the code stores for a string among the choices.
abbrev pub choose {ℓ} : {A : Type ℓ} → Dict Str A → Toml → Option A
choose choices (string s) = get choices s
choose choices _ = none

unfoldable pub take_choice {ℓ} : {A : Type ℓ} → Str → Dict Str A → Str → Parser A
unfolding pop at
take_choice key choices default t = elim (pop key (string default) t) [
  | raised e ↦ raised e
  | took v t' ↦ elim (choose choices v) [
    | none ↦ raised (not_a_choice (at t'.place key))
    | some a ↦ took a t'
  ]
]

unfoldable pub take_table : Str → Parser Fields
unfolding pop at
take_table key = do v ← pop key (table end); wanted key (fields_of_toml v)

abbrev pub names : Fields → List Str
names end = []
names (field k v d) = k ∷ names d

unfoldable pub done : Parser (Unit {0})
done t = elim t.raw [
  | end ↦ took tt t
  | field k v d ↦ raised (unknown_keys t.place (sorted str_le (k ∷ names d)))
]

-- `_Table(raw, where)`, read by `p`.
unfoldable pub in_table {ℓ} : {A : Type ℓ} → Parser A → Toml → Str → Taken A
in_table p (table d) place = p (record { raw = d; place = place })
in_table p v place = raised (not_a_table place)

-- A table within, which is read by `p` in its own place.
unfoldable pub nested {ℓ} : {A : Type ℓ} → Parser A → Str → Fields → Parser A
nested p key d t = elim (p (record { raw = d; place = at t.place key })) [
  | took a t' ↦ took a t
  | raised e ↦ raised e
]

abbrev pub take_nested {ℓ} : {A : Type ℓ} → Parser A → Str → Parser A
take_nested p key = do d ← take_table key; nested p key d
