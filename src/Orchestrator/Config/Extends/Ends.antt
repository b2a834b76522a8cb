-- ===== src/Orchestrator/Config/Extends/Ends.antt =====
-- `load_raw` ends on every file system with finitely many files.
use jetty.Prelude.{
  ℕ, zero, suc, ◌≤◌, ◌<◌, Bool, true, false, not, Option, none, some, List, [], ◌∷◌, ◌≡◌, ◌≢◌, ◌⊎◌,
  inl, inr, keep, contains, length, length-keep, arith, if◌then◌else◌, refl,
}
use jetty.Prelude.Text.{Str, str_eq, codes}
use jetty.Orchestrator.Config.Toml.{
  Toml, string, integer, float, boolean, array, table, other, Fields, get_field, remove_field,
}
use jetty.Orchestrator.Config.Extends.{
  FileText, absent, malformed, unreadable, document, Loaded, loaded, extends_cycle, not_found,
  bad_toml, not_a_path, outside, read_error, out_of_fuel, parent, resolve_extends, over_parent,
  extend, load_raw,
}

-- The files that are not in the chain so far.
abbrev left : List Str → List Str → List Str
left files seen = keep (λ f. not (contains seen f)) files

left-cons-≤ :
    (files seen : List Str) (f : Str) → length (left files (f ∷ seen)) ≤ length (left files seen)
left-cons-≤ [] seen f = omega arith
left-cons-≤ (g ∷ files) seen f = ground (arith, left-cons-≤ files seen f)

left-cons-< :
    (files seen : List Str) (f : Str)
    → contains files f ≡ true
    → contains seen f ≡ false
    → length (left files (f ∷ seen)) < length (left files seen)
left-cons-< [] seen f h n = ground arith
left-cons-< (g ∷ files) seen f h n =
    ground (arith, left-cons-≤ files seen f, left-cons-< files seen f)

over_parent-ends :
    (base : Loaded) (raw : Fields) → base ≢ out_of_fuel → over_parent base raw ≢ out_of_fuel
over_parent-ends (loaded base) raw n h = cc
over_parent-ends extends_cycle raw n h = cc
over_parent-ends not_found raw n h = cc
over_parent-ends bad_toml raw n h = cc
over_parent-ends not_a_path raw n h = cc
over_parent-ends outside raw n h = cc
over_parent-ends read_error raw n h = cc
over_parent-ends out_of_fuel raw n h = n refl

module _ (expanduser realpath : Str → Str) (read : Str → FileText) where
  extend-ends :
      (load_parent : Str → Loaded) (real : Str) (raw : Fields)
      → ((up : Str) → load_parent up ≢ out_of_fuel)
      → extend expanduser realpath read load_parent real raw ≢ out_of_fuel
  unfolding extend
  extend-ends load_parent real raw n = by_value (get_field raw (codes "extends"))
    where
      by_parent :
          (o : Option Str)
          → (elim o as (λ _. Loaded) [
            | none ↦ outside
            | some up ↦ over_parent (load_parent up) (remove_field raw (codes "extends"))
          ])
            ≢ out_of_fuel
      by_parent none h = cc
      by_parent (some up) h = over_parent-ends (load_parent up) _ (n up) h

      by_value :
          (o : Option Toml)
          → (elim o as (λ _. Loaded) [
            | none ↦ loaded raw
            | some (string value) ↦
                elim (resolve_extends expanduser realpath read value (parent real)) [
                  | none ↦ outside
                  | some up ↦ over_parent (load_parent up) (remove_field raw (codes "extends"))
                ]
            | _ ↦ not_a_path
          ])
            ≢ out_of_fuel
      by_value none h = cc
      by_value (some (string value)) h =
          by_parent (resolve_extends expanduser realpath read value (parent real)) h
      by_value (some (integer x)) h = cc
      by_value (some (float x)) h = cc
      by_value (some (boolean x)) h = cc
      by_value (some (array x)) h = cc
      by_value (some (table x)) h = cc
      by_value (some other) h = cc

  open-ends :
      (load_parent : Str → Loaded) (real : Str) (text : FileText) (looped : Bool)
      → ((raw : Fields)
          → text ≡ document raw
          → looped ≡ false
          → (up : Str) → load_parent up ≢ out_of_fuel)
      → (if looped then extends_cycle else elim text as (λ _. Loaded) [
        | absent ↦ not_found
        | malformed ↦ bad_toml
        | unreadable ↦ read_error
        | document raw ↦ extend expanduser realpath read load_parent real raw
      ])
        ≢ out_of_fuel
  open-ends load_parent real text true n h = cc
  open-ends load_parent real absent false n h = cc
  open-ends load_parent real malformed false n h = cc
  open-ends load_parent real unreadable false n h = cc
  open-ends load_parent real (document raw) false n h =
      extend-ends load_parent real raw (n raw refl refl) h

  load_raw-ends_from :
      (files : List Str)
      → ((p : Str)
          → (contains files (realpath p) ≡ true) ⊎ ((raw : Fields) → read p ≢ document raw))
      → (fuel : ℕ) (path : Str) (seen : List Str) → length (left files seen) < fuel
      → load_raw expanduser realpath read fuel path seen ≢ out_of_fuel
  unfolding load_raw
  load_raw-ends_from files exist zero path seen l = absurd (ground arith)
  load_raw-ends_from files exist (suc fuel) path seen l =
      open-ends _ (realpath path) (read path) (contains seen (realpath path)) λ raw there new up.
        load_raw-ends_from files exist fuel up (realpath path ∷ seen)
          (shorter (elim (exist path) [ inl m ↦ m | inr e ↦ absurd (e raw there) ]) new)
    where
      shorter :
          contains files (realpath path) ≡ true
          → contains seen (realpath path) ≡ false
          → length (left files (realpath path ∷ seen)) < fuel
      shorter m n = ground (arith, left-cons-< files seen (realpath path))

  -- With more fuel than there are files, `load_raw` ends: it gives the merged tables of a chain, or
  -- one of its errors. `files` holds the resolved path of every file that reads as a table; any path
  -- may be missing or not readable.
  pub load_raw-ends :
      (files : List Str)
      → ((p : Str)
          → (contains files (realpath p) ≡ true) ⊎ ((raw : Fields) → read p ≢ document raw))
      → (fuel : ℕ) (path : Str) → length files < fuel
      → load_raw expanduser realpath read fuel path [] ≢ out_of_fuel
  load_raw-ends files exist fuel path l =
      load_raw-ends_from files exist fuel path []
        (ground (arith, length-keep (λ f. not (contains [] f)) files))
