-- ===== src/Orchestrator/Config/Parse/Keys.antt =====
-- Unknown keys.
use jetty.Prelude.{arith, ℕ, List, [], ◌∷◌, ◌≡◌, refl, none, false, contains}
use jetty.Orchestrator.Config.Model.{ServiceConfig}
use jetty.Prelude.Dict.{Dict}
use jetty.Prelude.Text.{Str, str_eq, codes}
use jetty.Orchestrator.Config.Table.{
  Parser, Table, Taken, took, raised, then_take, pure, at, in_table,
}
use jetty.Orchestrator.Config.Toml.{Toml, table, get_field, Fields, end, field}
use jetty.Orchestrator.Config.Table.Keys.{
  IsClosed, KeepsTable, IsClosed-bind, IsClosed-keep, IsClosed-done, takes-take_argv,
  takes-take_number, takes-take_signed, takes-take_bool, takes-take_int, takes-take_str_list,
  takes-take_choice, takes-take_str, takes-take_int_list, takes-take_str_dict, takes-take_nested,
  takes-take_required, takes-take_table,
}
use jetty.Orchestrator.Config.Parse.{
  gate_fields, resolver_fields, ready_fields, ready_checked, restart_fields, stop_fields,
  service_fields, instance_fields, each_entry, config_fields, FullConfig, parse,
}

abbrev pub gate_keys : List Str
gate_keys =
    codes "check"
    ∷ codes "recheck_seconds"
    ∷ codes "timeout_seconds"
    ∷ codes "continuous"
    ∷ codes "close_after"
    ∷ []

pub gate_fields-IsClosed : (quarter : ℕ) → IsClosed gate_keys (gate_fields quarter)
unfolding gate_fields
gate_fields-IsClosed quarter = IsClosed-bind _ _ _ _ (takes-take_argv _ _) λ _.
    IsClosed-bind _ _ _ _ (takes-take_number _ _ _ _) λ _.
      IsClosed-bind _ _ _ _ (takes-take_number _ _ _ _) λ _.
        IsClosed-bind _ _ _ _ (takes-take_bool _ _)
          λ _. IsClosed-bind _ _ _ _ (takes-take_int _ _ _) λ _. IsClosed-done _

abbrev pub resolver_keys : List Str
resolver_keys =
    codes "cmd"
    ∷ codes "provides"
    ∷ codes "timeout_seconds"
    ∷ codes "refresh"
    ∷ codes "cache_seconds"
    ∷ codes "copy"
    ∷ codes "copy_keep_days"
    ∷ codes "requires"
    ∷ []

pub resolver_fields-IsClosed : (quarter : ℕ) → IsClosed resolver_keys (resolver_fields quarter)
unfolding resolver_fields
resolver_fields-IsClosed quarter = IsClosed-bind _ _ _ _ (takes-take_argv _ _) λ _.
    IsClosed-bind _ _ _ _ (takes-take_str_list _ _) λ _.
      IsClosed-bind _ _ _ _ (takes-take_number _ _ _ _) λ _.
        IsClosed-bind _ _ _ _ (takes-take_choice _ _ _) λ _.
          IsClosed-bind _ _ _ _ (takes-take_signed _ _ _ _) λ _.
            IsClosed-bind _ _ _ _ (takes-take_bool _ _) λ _.
              IsClosed-bind _ _ _ _ (takes-take_number _ _ _ _)
                λ _. IsClosed-bind _ _ _ _ (takes-take_str_list _ _) λ _. IsClosed-done _

abbrev pub ready_keys : List Str
ready_keys =
    codes "http"
    ∷ codes "tcp"
    ∷ codes "uds"
    ∷ codes "path"
    ∷ codes "timeout_seconds"
    ∷ codes "interval_seconds"
    ∷ []

pub ready_fields-IsClosed :
    (quarter : ℕ) (place : Str) → IsClosed ready_keys (ready_fields quarter place)
unfolding ready_fields ready_checked
ready_fields-IsClosed quarter place = IsClosed-bind _ _ _ _ (takes-take_str _) λ _.
    IsClosed-bind _ _ _ _ (takes-take_str _) λ _. IsClosed-bind _ _ _ _ (takes-take_str _) λ _.
      IsClosed-bind _ _ _ _ (takes-take_str _) λ _.
        IsClosed-bind _ _ _ _ (takes-take_number _ _ _ _)
          λ _. IsClosed-bind _ _ _ _ (takes-take_number _ _ _ _) λ _. IsClosed-done _

abbrev pub restart_keys : List Str
restart_keys =
    codes "max_restarts"
    ∷ codes "window_seconds"
    ∷ codes "backoff_initial_seconds"
    ∷ codes "backoff_max_seconds"
    ∷ codes "no_restart_exit"
    ∷ []

pub restart_fields-IsClosed : (quarter : ℕ) → IsClosed restart_keys (restart_fields quarter)
unfolding restart_fields
restart_fields-IsClosed quarter = IsClosed-bind _ _ _ _ (takes-take_int _ _ _) λ _.
    IsClosed-bind _ _ _ _ (takes-take_number _ _ _ _) λ _.
      IsClosed-bind _ _ _ _ (takes-take_number _ _ _ _) λ _.
        IsClosed-bind _ _ _ _ (takes-take_number _ _ _ _)
          λ _. IsClosed-bind _ _ _ _ (takes-take_int_list _ _) λ _. IsClosed-done _

abbrev pub stop_keys : List Str
stop_keys = codes "signal" ∷ codes "grace_seconds" ∷ []

pub stop_fields-IsClosed : (quarter : ℕ) → IsClosed stop_keys (stop_fields quarter)
unfolding stop_fields
stop_fields-IsClosed quarter =
    IsClosed-bind _ _ _ _ (takes-take_choice _ _ _)
      λ _. IsClosed-bind _ _ _ _ (takes-take_number _ _ _ _) λ _. IsClosed-done _

abbrev pub service_keys : List Str
service_keys =
    codes "cmd"
    ∷ codes "cwd"
    ∷ codes "env"
    ∷ codes "after"
    ∷ codes "requires"
    ∷ codes "watch"
    ∷ codes "ready"
    ∷ codes "restart"
    ∷ codes "stop"
    ∷ []

pub service_fields-IsClosed :
    (quarter : ℕ) (place : Str) → IsClosed service_keys (service_fields quarter place)
unfolding service_fields
service_fields-IsClosed quarter place = IsClosed-bind _ _ _ _ (takes-take_argv _ _) λ _.
    IsClosed-bind _ _ _ _ (takes-take_str _) λ _. IsClosed-bind _ _ _ _ (takes-take_str_dict _) λ _.
      IsClosed-bind _ _ _ _ (takes-take_str_list _ _) λ _.
        IsClosed-bind _ _ _ _ (takes-take_str_list _ _) λ _.
          IsClosed-bind _ _ _ _ (takes-take_str_list _ _) λ _.
            IsClosed-bind _ _ _ _ (takes-take_nested _ _) λ _.
              IsClosed-bind _ _ _ _ (takes-take_nested _ _)
                λ _. IsClosed-bind _ _ _ _ (takes-take_nested _ _) λ _. IsClosed-done _

abbrev pub instance_keys : List Str
instance_keys = codes "name" ∷ codes "containment" ∷ codes "workdir" ∷ []

pub instance_fields-IsClosed : (quarter : ℕ) → IsClosed instance_keys (instance_fields quarter)
unfolding instance_fields
instance_fields-IsClosed quarter = IsClosed-bind _ _ _ _ (takes-take_required _) λ _.
    IsClosed-bind _ _ _ _ (takes-take_choice _ _ _)
      λ _. IsClosed-bind _ _ _ _ (takes-take_str _) λ _. IsClosed-done _

entry-eq-took {ℓ} :
    {A : Type ℓ} (n : Str) (r : Taken A) (q : Taken (Dict Str A)) {xs : Dict Str A} {t : Table}
    → (elim r as (λ _. Taken (Dict Str A)) [
      | raised e ↦ raised e
      | took a s ↦ then_take q (λ rest. pure ((n, a) ∷ rest))
    ])
      ≡ took xs t
    → (a : A) × (s : Table) × (rest : Dict Str A) × (r ≡ took a s)
      × (q ≡ took rest t)
      × (xs ≡ (n, a) ∷ rest)
entry-eq-took n (raised e) q h = cc
entry-eq-took n (took a s) (raised e) h = cc
entry-eq-took n (took a s) (took rest u) h = (a, s, rest, refl, cc, cc)

-- The entries' tables are their own.
pub each_entry-eq-took {ℓ} :
    (quarter : ℕ) {A : Type ℓ} (p : Str → Parser A) (kind n : Str) (v : Toml) (d : Fields)
    (t : Table) {xs : Dict Str A} {t' : Table}
    → each_entry quarter p kind (field n v d) t ≡ took xs t'
    → (a : A) × (s : Table) × (rest : Dict Str A) × (in_table (p (at kind n)) v (at kind n)
        ≡ took a s)
      × (each_entry quarter p kind d t ≡ took rest t')
      × (xs ≡ (n, a) ∷ rest)
unfolding each_entry
each_entry-eq-took quarter p kind n v d t h = entry-eq-took n _ _ h

keeps-each_entry {ℓ} :
    (quarter : ℕ) {A : Type ℓ} (p : Str → Parser A) (kind : Str) (d : Fields)
    → KeepsTable (each_entry quarter p kind d)
keeps-each_entry quarter p kind end t t' a h = unfold each_entry in ground arith
keeps-each_entry quarter p kind (field n v d) t t' a h =
    let (x, s, rest, e, e', q) = each_entry-eq-took quarter p kind n v d t h in
    keeps-each_entry quarter p kind d t t' rest e'

abbrev pub config_keys : List Str
config_keys =
    codes "instance" ∷ codes "ports" ∷ codes "gates" ∷ codes "resolvers" ∷ codes "services" ∷ []

pub config_fields-IsClosed : (quarter : ℕ) → IsClosed config_keys (config_fields quarter)
unfolding config_fields
config_fields-IsClosed quarter = IsClosed-bind _ _ _ _ (takes-take_nested _ _) λ _.
    IsClosed-bind _ _ _ _ (takes-take_table _) λ _. IsClosed-bind _ _ _ _ (takes-take_table _) λ _.
      IsClosed-keep _ _ _ (keeps-each_entry quarter _ _ _) λ _.
        IsClosed-bind _ _ _ _ (takes-take_table _) λ _.
          IsClosed-keep _ _ _ (keeps-each_entry quarter _ _ _) λ _.
            IsClosed-bind _ _ _ _ (takes-take_table _)
              λ _. IsClosed-keep _ _ _ (keeps-each_entry quarter _ _ _) λ _. IsClosed-done _

-- What `parse` accepts has no key at its top but the five that the code knows.
pub parse-known_keys :
    (quarter : ℕ) (raw : Fields) {full : FullConfig} {t : Table}
    → parse quarter raw ≡ took full t
    → (j : Str) → contains config_keys j ≡ false
    → get_field raw j ≡ none
unfolding parse
parse-known_keys quarter raw {full = full} {t = t} h j n =
    (config_fields-IsClosed quarter).closed (record { raw = raw; place = [] }) t full h j n

-- What `ServiceConfig.parse` accepts has no key but the nine that the code knows.
pub parse_service-known_keys :
    (quarter : ℕ) (place : Str) (raw : Fields) {cfg : ServiceConfig} {t : Table}
    → in_table (service_fields quarter place) (table raw) place ≡ took cfg t
    → (j : Str) → contains service_keys j ≡ false
    → get_field raw j ≡ none
unfolding in_table
parse_service-known_keys quarter place raw {cfg = cfg} {t = t} h j n =
    (service_fields-IsClosed quarter place).closed (record { raw = raw; place = place }) t cfg h j n
