-- ===== src/Orchestrator/Config/Extends.antt =====
-- `load_raw` and `_resolve_extends` of config.py: a file and the files that it extends.
pub mod Ends
use jetty.Prelude.{
  ℕ, zero, suc, Bool, true, false, not, Option, none, some, List, [], ◌∷◌, ◌++◌, ◌==◌, ◌&&◌,
  contains, eqb, nonempty, drop, length, if◌then◌else◌,
}
use jetty.Prelude.Text.{Str, str_eq, codes, starts_with}
use jetty.Orchestrator.Config.Toml.{
  Toml, string, integer, float, boolean, array, table, other, Fields, get_field, remove_field,
  merge_raw,
}

-- What reading and parsing a file gives; `unreadable` is any other exception of `read_text`: the
-- path is a directory, the permission is missing, or the bytes are not UTF-8.
pub data FileText : Type 0 where
  absent malformed unreadable : FileText
  document : Fields → FileText

-- The tables, or an exception: `read_error` is the one of `read_text`, which nothing catches here,
-- and the others are the `ConfigError`s.
pub data Loaded : Type 0 where
  loaded : Fields → Loaded
  extends_cycle not_found bad_toml not_a_path outside read_error out_of_fuel : Loaded

-- `os.path.isabs`
abbrev pub isabs : Str → Bool
isabs path = starts_with path (codes "/")

-- The text before the last slash, and "/" where that is empty: `Path.parent` of a resolved path.
unfoldable pub before_slash : Str → Option Str
before_slash [] = none
before_slash (c ∷ s) = elim (before_slash s) [
  | some d ↦ some (c ∷ d)
  | none ↦ if eqb c b'/' then some [] else none
]

abbrev pub or_root : Option Str → Str
or_root (some (c ∷ s)) = c ∷ s
or_root _ = codes "/"

unfoldable pub parent : Str → Str
unfolding before_slash
parent path = or_root (before_slash path)

unfoldable pub ends_with_slash : Str → Bool
ends_with_slash [] = false
ends_with_slash (c ∷ []) = eqb c b'/'
ends_with_slash (c ∷ d ∷ s) = ends_with_slash (d ∷ s)

-- `os.path.join` with a relative path.
abbrev pub join : Str → Str → Str
join base value =
    if nonempty base && not (ends_with_slash base)
    then base ++ (codes "/" ++ value)
    else base ++ value

-- The child's keys over those of the parent.
abbrev pub over_parent : Loaded → Fields → Loaded
over_parent (loaded base) raw = loaded (merge_raw base raw)
over_parent e raw = e

-- The parameters are the operating system's: `os.path.expanduser`, `os.path.realpath`, and the text of a
-- file, parsed by `tomllib`.
module _ (expanduser realpath : Str → Str) (read : Str → FileText) where
  -- The first test of `_resolve_extends`.
  abbrev pub expanded : Str → Str
  expanded value =
      if starts_with value (codes "~") && isabs (expanduser value) then expanduser value else value

  -- `none` is the error.
  unfoldable pub resolve_extends : Str → Str → Option Str
  unfolding ends_with_slash
  resolve_extends value config_dir =
      let path = expanded value in
      let base = realpath config_dir in
      let resolved = realpath (join base path) in
      if isabs path
      then some path
      else if not (resolved == base) && not (starts_with resolved (base ++ codes "/"))
      then none
      else some resolved

  -- From `raw.pop("extends", None)` on; `load_parent` is the recursive call.
  unfoldable pub extend : (Str → Loaded) → Str → Fields → Loaded
  unfolding resolve_extends parent
  extend load_parent real raw = elim (get_field raw (codes "extends")) as (λ _. Loaded) [
    | none ↦ loaded raw
    | some (string value) ↦ elim (resolve_extends value (parent real)) [
      | none ↦ outside
      | some up ↦ over_parent (load_parent up) (remove_field raw (codes "extends"))
    ]
    | _ ↦ not_a_path
  ]

  -- `seen` holds the resolved paths of the files below in the chain.
  unfoldable pub load_raw : ℕ → Str → List Str → Loaded
  unfolding extend
  load_raw zero path seen = out_of_fuel
  load_raw (suc fuel) path seen =
      let real = realpath path in
      let opened = elim (read path) as (λ _. Loaded) [
        | absent ↦ not_found
        | malformed ↦ bad_toml
        | unreadable ↦ read_error
        | document raw ↦ extend (λ up. load_raw fuel up (real ∷ seen)) real raw
      ] in
      if contains seen real then extends_cycle else opened
