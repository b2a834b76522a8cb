-- ===== src/Orchestrator/Supervisor/Stop/Dependents.antt =====
-- The table `dependents` lists, for each service, those that are `after` it.
use jetty.Prelude.{
  Bool, true, false, some, List, [], ◌∷◌, ◌==◌, ◌≡◌, refl, sym, ◌∙◌, ◌||◌, ◌&&◌, contains, arith,
  Distinct,
}
use jetty.Prelude.Dict.{Dict, keys, get, get_or, has, put, get-put}
use jetty.Prelude.Text.{Str, str_eq}
use jetty.Orchestrator.Config.Model.{ServiceConfig}
use jetty.Orchestrator.Config.StartOrder.DepsFirst.{after_of}
use jetty.Orchestrator.Supervisor.Stop.{empty_sets, add_dependent, add_after, collect_dependents}

abbrev lists : Dict Str (List Str) → Str → Str → Bool
lists t n s = contains (get_or t n []) s

-- What `t'` records more than `t`: that `s` depends on `n` where `more n s`.
record Extends (t t' : Dict Str (List Str)) (more : Str → Str → Bool) : Type 0 where
  known : (n : Str) → has t' n ≡ has t n
  listed : (n s : Str) → lists t' n s ≡ (lists t n s || more n s)

Extends-add :
    (sname dep : Str) (t : Dict Str (List Str))
    → has t dep ≡ true
    → (t' : Dict Str (List Str)) × (add_dependent sname dep t ≡ some t')
      × Extends t t' (λ n s. n == dep && s == sname)
unfolding add_dependent
Extends-add sname dep t h = (
  put t dep (sname ∷ get_or t dep []),
  ground arith,
  record {
    known = λ n. ground (arith, get-put t dep n (sname ∷ get_or t dep []));
    listed = λ n s. ground (arith, get-put t dep n (sname ∷ get_or t dep []));
  },
)

Extends-after :
    (sname : Str) (deps : List Str) (t : Dict Str (List Str))
    → ((d : Str) → contains deps d ≡ true → has t d ≡ true)
    → (t' : Dict Str (List Str)) × (add_after sname deps t ≡ some t')
      × Extends t t' (λ n s. contains deps n && s == sname)
unfolding add_after
Extends-after sname [] t h = (t, refl, record { known = λ n. refl; listed = λ n s. ground arith })
Extends-after sname (dep ∷ deps) t h =
    let one = Extends-add sname dep t (h dep (ground arith)) in
    let more = Extends-after sname deps one.0 (λ d p. one.2.known d ∙ h d (ground arith)) in
    (
      more.0,
      rw (one.1, add_after) more.1,
      record {
        known = λ n. more.2.known n ∙ one.2.known n;
        listed = λ n s. ground (arith, more.2.listed n s, one.2.listed n s);
      },
    )

-- `s` is an entry of `m` that is after `n`.
abbrev depends_in : Dict Str ServiceConfig → Str → Str → Bool
depends_in [] n s = false
depends_in ((k, svc) ∷ m) n s = (contains svc.after n && s == k) || depends_in m n s

Extends-collect :
    (m : Dict Str ServiceConfig) (t : Dict Str (List Str))
    → ((n s : Str) → depends_in m n s ≡ true → has t n ≡ true)
    → (t' : Dict Str (List Str)) × (collect_dependents m t ≡ some t') × Extends t t' (depends_in m)
unfolding collect_dependents
Extends-collect [] t h = (t, refl, record { known = λ n. refl; listed = λ n s. ground arith })
Extends-collect ((k, svc) ∷ m) t h =
    let one = Extends-after k svc.after t (λ d p. h d k (ground arith)) in
    let more = Extends-collect m one.0 (λ n s p. one.2.known n ∙ h n s (ground arith)) in
    (
      more.0,
      rw (one.1, collect_dependents) more.1,
      record {
        known = λ n. more.2.known n ∙ one.2.known n;
        listed = λ n s. ground (arith, more.2.listed n s, one.2.listed n s);
      },
    )

depends_in-absent :
    (m : Dict Str ServiceConfig) (n s : Str)
    → contains (keys m) s ≡ false
    → depends_in m n s ≡ false
depends_in-absent [] n s h = refl
depends_in-absent ((k, svc) ∷ m) n s h = ground (arith, depends_in-absent m n s)

depends_in-eq :
    (m : Dict Str ServiceConfig) (n s : Str)
    → Distinct (keys m)
    → depends_in m n s ≡ contains (after_of m s) n
unfolding get
depends_in-eq [] n s u = refl
depends_in-eq ((k, svc) ∷ m) n s u =
    ground (arith, depends_in-eq m n s u.1, depends_in-absent m n s)

get-empty_sets : (names : List Str) (n : Str) → get_or (empty_sets names) n [] ≡ []
unfolding empty_sets get
get-empty_sets [] n = refl
get-empty_sets (k ∷ names) n = ground (arith, get-empty_sets names n)

has-empty_sets : (names : List Str) (n : Str) → has (empty_sets names) n ≡ contains names n
unfolding empty_sets get
has-empty_sets [] n = refl
has-empty_sets (k ∷ names) n = ground (arith, has-empty_sets names n)

-- The table is built without a `KeyError`, and lists the services that are after each name.
pub collect_dependents_lem :
    (names : List Str) (services : Dict Str ServiceConfig)
    → Distinct (keys services)
    → ((n d : Str) → contains (after_of services n) d ≡ true → contains names d ≡ true)
    → (t : Dict Str (List Str)) × (collect_dependents services (empty_sets names) ≡ some t)
      × ((n s : Str) → contains (get_or t n []) s ≡ contains (after_of services s) n)
collect_dependents_lem names services u known =
    let found =
      Extends-collect services (empty_sets names)
        (λ n s p. has-empty_sets names n ∙ known s n (sym (depends_in-eq services n s u) ∙ p)) in
    (
      found.0,
      found.1,
      λ n s.
          ground (arith, found.2.listed n s, get-empty_sets names n, depends_in-eq services n s u),
    )
