-- ===== src/Orchestrator/Config/Parse/InRange.antt =====
-- The bounds that the parsed objects keep.
use mathlib.Core.Path.{subst}
use jetty.Prelude.{
  refl, nonempty, ◌∷◌, if◌then◌else◌, sym, ℕ, ◌≤◌, ◌<◌, true, false, none, [], ◌≡◌, arith, length,
  leb,
}
use jetty.Prelude.Sorting.{All}
use jetty.Prelude.Dict.{Dict, values}
use jetty.Prelude.Text.{Str, codes}
use jetty.Orchestrator.Config.Model.{
  GateConfig, ResolverConfig, ReadyConfig, RestartConfig, StopConfig, ServiceConfig,
}
use jetty.Orchestrator.Config.Validate.{
  OrchestratorConfig, validate, name_matches, provides_of, set_provides, with_provides,
}
use jetty.Orchestrator.Config.Toml.{
  Toml, pos, cons, nil, string, integer, float, boolean, array, table, other, Fields, end, field,
}
use jetty.Orchestrator.Config.Table.{
  guard, take_table, take_str, take_str_dict, take_required, take_int, take_int_list, take_choice,
  done, take_str_list, take_bool, within, from_zero, Table, took, Parser, in_table,
}
use jetty.Orchestrator.Config.Table.Accept.{
  Gives, Gives-bind, Gives-skip, Gives-pure, Gives-guard, Gives-take_number, Gives-take_signed,
  Gives-take_int, Gives-take_argv, Gives-take_nested,
}
use jetty.Orchestrator.Config.Parse.Keys.{each_entry-eq-took}
use jetty.Orchestrator.Config.Parse.{
  gate_fields, refreshes, signals, containments, resolver_fields, ready_fields, ready_checked,
  probes, is_http_url, restart_fields, stop_fields, service_fields, InstanceConfig, instance_fields,
  each_entry, FullConfig, config_fields, parse, validated,
}

abbrev pub GateInRange : GateConfig → Type 0
GateInRange cfg =
    (1 ≤ length cfg.check)
    × (0 < cfg.recheck_seconds)
    × (0 < cfg.timeout_seconds)
    × (1 ≤ cfg.close_after)

abbrev pub ResolverInRange : ResolverConfig → Type 0
ResolverInRange cfg =
    (1 ≤ length cfg.cmd)
    × (0 < cfg.timeout_seconds)
    × (within from_zero cfg.cache_seconds ≡ true)
    × (0 < cfg.copy_keep_days)

-- A resolver of a configuration that `_validate` has gone over.
abbrev pub ResolverComplete : ResolverConfig → Type 0
ResolverComplete cfg = ResolverInRange cfg × (1 ≤ length cfg.provides)

abbrev pub ReadyInRange : ℕ → ReadyConfig → Type 0
ReadyInRange quarter cfg =
    (probes quarter cfg ≤ 1)
    × (is_http_url quarter cfg.http ≡ true)
    × (0 < cfg.timeout_seconds)
    × (0 < cfg.interval_seconds)

abbrev pub RestartInRange : RestartConfig → Type 0
RestartInRange cfg =
    (0 < cfg.window_seconds) × (0 < cfg.backoff_initial_seconds) × (0 < cfg.backoff_max_seconds)

abbrev pub ServiceInRange : ℕ → ServiceConfig → Type 0
ServiceInRange quarter cfg =
    (1 ≤ length cfg.cmd)
    × ReadyInRange quarter cfg.ready
    × RestartInRange cfg.restart
    × (0 < cfg.stop.grace_seconds)

gate_fields-InRange : (quarter : ℕ) → Gives GateInRange (gate_fields quarter)
unfolding gate_fields
gate_fields-InRange quarter = Gives-bind _ _ _ _ (Gives-take_argv _ _) λ check c.
    Gives-bind _ _ _ _ (Gives-take_number _ _ _) λ recheck r.
      Gives-bind _ _ _ _ (Gives-take_number _ _ _) λ timeout t.
        Gives-skip _ (take_bool (codes "continuous") false) _ λ continuous.
          Gives-bind _ _ _ _ (Gives-take_int _ _ _)
            λ close_after l. Gives-skip _ done _ λ _. Gives-pure _ _ (c, r, t, l)

resolver_fields-InRange : (quarter : ℕ) → Gives ResolverInRange (resolver_fields quarter)
unfolding resolver_fields
resolver_fields-InRange quarter = Gives-bind _ _ _ _ (Gives-take_argv _ _) λ cmd c.
    Gives-skip _ (take_str_list (codes "provides") 0) _ λ provides.
      Gives-bind _ _ _ _ (Gives-take_number _ _ _) λ timeout t.
        Gives-skip _ (take_choice (codes "refresh") (refreshes quarter) (codes "spawn")) _
          λ refresh. Gives-bind _ _ _ _ (Gives-take_signed _ _ _) λ cache n.
            Gives-skip _ (take_bool (codes "copy") false) _ λ copy.
              Gives-bind _ _ _ _ (Gives-take_number _ _ _) λ keep k.
                Gives-skip _ (take_str_list (codes "requires") 0) _
                  λ requires. Gives-skip _ done _ λ _. Gives-pure _ _ (c, t, n, k)

leb-eq-true : (a b : ℕ) → leb a b ≡ true → a ≤ b
leb-eq-true a b h = ground arith

ready_checked-InRange :
    (quarter : ℕ) (place : Str) (cfg : ReadyConfig)
    → 0 < cfg.timeout_seconds
    → 0 < cfg.interval_seconds
    → Gives (ReadyInRange quarter) (ready_checked quarter place cfg)
unfolding ready_checked
ready_checked-InRange quarter place cfg t i = Gives-skip _ done _ λ _.
    Gives-bind (λ _. leb (probes quarter cfg) 1 ≡ true) _ (guard (leb (probes quarter cfg) 1) _) _
      (Gives-guard _ _)
      λ _ one.
        Gives-bind (λ _. is_http_url quarter cfg.http ≡ true) _
          (guard (is_http_url quarter cfg.http) _) _ (Gives-guard _ _)
          λ _ url. Gives-pure _ cfg (leb-eq-true _ _ one, url, t, i)

ready_fields-InRange :
    (quarter : ℕ) (place : Str) → Gives (ReadyInRange quarter) (ready_fields quarter place)
unfolding ready_fields
ready_fields-InRange quarter place = Gives-skip _ (take_str (codes "http")) _ λ http.
    Gives-skip _ (take_str (codes "tcp")) _ λ tcp. Gives-skip _ (take_str (codes "uds")) _ λ uds.
      Gives-skip _ (take_str (codes "path")) _ λ path.
        Gives-bind _ _ _ _ (Gives-take_number _ _ _) λ timeout t.
          Gives-bind _ _ _ _ (Gives-take_number _ _ _)
            λ interval i. ready_checked-InRange quarter place _ t i

restart_fields-InRange : (quarter : ℕ) → Gives RestartInRange (restart_fields quarter)
unfolding restart_fields
restart_fields-InRange quarter =
    Gives-skip _ (take_int (codes "max_restarts") 3 0) _ λ max_restarts.
      Gives-bind _ _ _ _ (Gives-take_number _ _ _) λ window w.
        Gives-bind _ _ _ _ (Gives-take_number _ _ _) λ initial i.
          Gives-bind _ _ _ _ (Gives-take_number _ _ _) λ longest l.
            Gives-skip _ (take_int_list (codes "no_restart_exit") (cons (integer (pos 2)) nil)) _
              λ no_restart_exit. Gives-skip _ done _ λ _. Gives-pure _ _ (w, i, l)

stop_fields-InRange :
    (quarter : ℕ) → Gives (λ (cfg : StopConfig). 0 < cfg.grace_seconds) (stop_fields quarter)
unfolding stop_fields
stop_fields-InRange quarter =
    Gives-skip _ (take_choice (codes "signal") (signals quarter) (codes "TERM")) _ λ signal.
      Gives-bind _ _ _ _ (Gives-take_number _ _ _)
        λ grace g. Gives-skip _ done _ λ _. Gives-pure _ _ g

service_fields-InRange :
    (quarter : ℕ) (place : Str) → Gives (ServiceInRange quarter) (service_fields quarter place)
unfolding service_fields
service_fields-InRange quarter place = Gives-bind _ _ _ _ (Gives-take_argv _ _) λ cmd c.
    Gives-skip _ (take_str (codes "cwd")) _ λ cwd.
      Gives-skip _ (take_str_dict (codes "env")) _ λ env.
        Gives-skip _ (take_str_list (codes "after") 0) _ λ after.
          Gives-skip _ (take_str_list (codes "requires") 0) _ λ requires.
            Gives-skip _ (take_str_list (codes "watch") 0) _ λ watch.
              Gives-bind _ _ _ _ (Gives-take_nested _ _ _ (ready_fields-InRange quarter _))
                λ ready r.
                  Gives-bind _ _ _ _ (Gives-take_nested _ _ _ (restart_fields-InRange quarter))
                    λ restart b.
                      Gives-bind _ _ _ _ (Gives-take_nested _ _ _ (stop_fields-InRange quarter))
                        λ stop s. Gives-skip _ done _ λ _. Gives-pure _ _ (c, r, b, s)

instance_fields-InRange :
    (quarter : ℕ)
    → Gives (λ (cfg : InstanceConfig). name_matches cfg.name ≡ true) (instance_fields quarter)
unfolding instance_fields
instance_fields-InRange quarter = Gives-skip _ (take_required (codes "name")) _ λ name.
    Gives-skip _ (take_choice (codes "containment") (containments quarter) (codes "auto")) _
      λ containment. Gives-skip _ (take_str (codes "workdir")) _ λ workdir. Gives-skip _ done _ λ _.
        Gives-bind (λ _. name_matches name ≡ true) _ (guard (name_matches name) _) _
          (Gives-guard _ _)
          λ _ m.
            Gives-pure _ (record { name = name; containment = containment; workdir = workdir }) m

in_table-eq-took {ℓ} :
    {A : Type ℓ} (P : A → Type 0) (p : Parser A) (v : Toml) (place : Str) {t : Table} {a : A}
    → Gives P p
    → in_table p v place ≡ took a t
    → P a
unfolding in_table
in_table-eq-took P p (table d) place gp h = gp.gives _ _ _ h
in_table-eq-took P p (string s) place gp h = cc
in_table-eq-took P p (integer n) place gp h = cc
in_table-eq-took P p (float n) place gp h = cc
in_table-eq-took P p (boolean b) place gp h = cc
in_table-eq-took P p (array l) place gp h = cc
in_table-eq-took P p other place gp h = cc

Gives-each_entry {ℓ} :
    (quarter : ℕ) {A : Type ℓ} (P : A → Type 0) (p : Str → Parser A) (kind : Str) (d : Fields)
    → ((place : Str) → Gives P (p place))
    → Gives (λ (xs : Dict Str A). All P (values xs)) (each_entry quarter p kind d)
Gives-each_entry quarter {A = A} P p kind d gp = record { gives = λ t t' xs h. over d t t' xs h }
  where
    at_end :
        (t t' : Table) (xs : Dict Str A) → each_entry quarter p kind end t ≡ took xs t' → [] ≡ xs
    at_end t t' xs h = unfold each_entry in ground arith

    over :
        (d : Fields) (t t' : Table) (xs : Dict Str A)
        → each_entry quarter p kind d t ≡ took xs t'
        → All P (values xs)
    over end t t' xs h = subst (λ x. All P (values x)) (at_end t t' xs h) tt
    over (field n v d) t t' xs h =
        let (a, s, rest, e, e', q) = each_entry-eq-took quarter p kind n v d t h in
        subst (λ x. All P (values x)) (sym q)
          (in_table-eq-took P (p _) v _ (gp _) e, over d t t' rest e')

-- What `OrchestratorConfig.parse` promises.
abbrev pub FullInRange : ℕ → FullConfig → Type 0
FullInRange quarter full =
    (name_matches full.instance_config.name ≡ true)
    × All GateInRange (values full.config.gates)
    × All ResolverComplete (values full.config.resolvers)
    × All (ServiceInRange quarter) (values full.config.services)
    × (given : OrchestratorConfig) × (full.config ≡ with_provides given)
    × (validate given ≡ none)

nonempty-provides_of : (rname : Str) (cfg : ResolverConfig) → 1 ≤ length (provides_of rname cfg)
unfolding provides_of
nonempty-provides_of rname cfg =
    elim (cfg.provides) as (λ bs. 1 ≤ length (if nonempty bs then bs else rname ∷ [])) [
      | [] ↦ omega arith
      | b ∷ bs ↦ omega arith
    ]

set_provides-ResolverComplete :
    (rs : Dict Str ResolverConfig)
    → All ResolverInRange (values rs)
    → All ResolverComplete (values (set_provides rs))
unfolding set_provides
set_provides-ResolverComplete [] h = tt
set_provides-ResolverComplete ((rname, cfg) ∷ rs) h =
    ((h.0, nonempty-provides_of rname cfg), set_provides-ResolverComplete rs h.1)

Gives-validated :
    (quarter : ℕ) (full : FullConfig)
    → name_matches full.instance_config.name ≡ true
    → All GateInRange (values full.config.gates)
    → All ResolverInRange (values full.config.resolvers)
    → All (ServiceInRange quarter) (values full.config.services)
    → Gives (FullInRange quarter) (validated quarter full)
Gives-validated quarter full m g r s = record {
  gives = λ t t' a h.
      let e : record full { config = with_provides full.config } ≡ a = ground arith in
      let v : validate full.config ≡ none = ground arith in
      subst (FullInRange quarter) e
        (m, g, set_provides-ResolverComplete full.config.resolvers r, s, full.config, refl, v);
}

config_fields-InRange : (quarter : ℕ) → Gives (FullInRange quarter) (config_fields quarter)
unfolding config_fields
config_fields-InRange quarter =
    Gives-bind _ _ _ _ (Gives-take_nested _ _ _ (instance_fields-InRange quarter)) λ i m.
      Gives-skip _ (take_table (codes "ports")) _ λ ports.
        Gives-skip _ (take_table (codes "gates")) _ λ gate_tables.
          Gives-bind _ _ _ _
            (Gives-each_entry quarter GateInRange _ _ gate_tables
              (λ _. gate_fields-InRange quarter))
            λ gates g. Gives-skip _ (take_table (codes "resolvers")) _ λ resolver_tables.
              Gives-bind _ _ _ _
                (Gives-each_entry quarter ResolverInRange _ _ resolver_tables
                  (λ _. resolver_fields-InRange quarter))
                λ resolvers r. Gives-skip _ (take_table (codes "services")) _ λ service_tables.
                  Gives-bind _ _ _ _
                    (Gives-each_entry quarter (ServiceInRange quarter) _ _ service_tables
                      (service_fields-InRange quarter))
                    λ services s. Gives-skip _ done _ λ _. Gives-validated quarter _ m g r s

-- A configuration that `parse` accepts has a legal instance name. The commands of its gates,
-- resolvers and services are not empty, and their timeouts, intervals, windows, delays and grace
-- periods are positive, the days for which a copy is kept too; a cache period is not negative, and a
-- gate's `close_after` is at least 1. Each service has at most one readiness probe, whose URL, if
-- it has one, begins with http://. Each resolver provides a name. And it is what `_validate` makes
-- of a configuration that it accepts.
pub parse-FullInRange :
    (quarter : ℕ) (raw : Fields) {full : FullConfig} {t : Table}
    → parse quarter raw ≡ took full t
    → FullInRange quarter full
unfolding parse
parse-FullInRange quarter raw {full = full} {t = t} h =
    (config_fields-InRange quarter).gives (record { raw = raw; place = [] }) t full h
