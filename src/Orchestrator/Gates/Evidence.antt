-- ===== src/Orchestrator/Gates/Evidence.antt =====
-- An open gate rests on a run of its check that passed, and is recent.
use jetty.Prelude.{
  ℕ, ◌-◌, ◌<◌, Bool, true, false, not, Option, none, some, List, [], ◌∷◌, ◌==◌, ◌≡◌, ◌⊎◌, inl, inr,
  refl, ap, sym, ◌∙◌, ◌&&◌, ltb, arith, if◌then◌else◌, Bool-cases, Option-cases,
}
use jetty.Prelude.Dict.{Dict, get, put, get-put}
use jetty.Prelude.Text.{Str, str_eq}
use jetty.Orchestrator.Config.Model.{GateConfig, exited, exit_code_eq}
use jetty.Orchestrator.Gates.{
  GateSet, RunEnd, done, cannot_start, timed_out, run_check, Ask, Answer, usable, check,
}

-- A run of a gate's check that passed, among the questions asked.
abbrev pub Passed : List Ask → Str → ℕ → Type 0
Passed [] gate stamp = ⊥
Passed (a ∷ asks) gate stamp =
    ((a.gate ≡ gate) × (a.ran_at ≡ stamp) × (a.ends ≡ done (exited 0))) ⊎ Passed asks gate stamp

-- Each positive entry of the cache rests on a run that passed.
abbrev pub IsBacked : List Ask → GateSet → Type 0
IsBacked history s =
    (gate : Str) (stamp : ℕ) → get s.cache gate ≡ some (stamp, true) → Passed history gate stamp

-- An answer that a gate is open: the run made for this very question passed; or none was made, the
-- question is without refresh, and a run that passed, and that the cache holds, is not older than
-- the gate's interval.
pub record Evidence (history : List Ask) (s : GateSet) (a : Ask) (r : Answer) : Type 0 where
  pub stamp : ℕ
  pub passed : Passed history a.gate stamp
  pub recent :
      ((r.ran ≡ true) × (a.ends ≡ done (exited 0)) × (stamp ≡ a.ran_at))
      ⊎ ((r.ran ≡ false)
          × (get s.cache a.gate ≡ some (stamp, true))
          × (cfg : GateConfig) × (get s.gates a.gate ≡ some cfg)
          × (a.asked_at - stamp < cfg.recheck_seconds)
          × (a.refresh ≡ false))

run_check-true : (e : RunEnd) → run_check e ≡ true → e ≡ done (exited 0)
unfolding run_check
run_check-true cannot_start h = cc
run_check-true timed_out h = cc
run_check-true (done code) h = ground arith

-- `_check` keeps the cache so that its positive entries rest on runs of their gates' checks that
-- passed, at the time that the entry says.
pub check-IsBacked :
    (s : GateSet) (a : Ask) (history : List Ask) {r : Answer}
    → IsBacked history s
    → check s a ≡ some r
    → IsBacked (a ∷ history) r.set
unfolding check
check-IsBacked s a history {r} b h gate stamp p = elim (Option-cases (get s.gates a.gate)) [
  | inl e ↦ absurd (ground arith)
  | inr (cfg, e) ↦ elim (Option-cases (usable cfg a (get s.cache a.gate))) [
    | inr (ok, u) ↦
        let same : r.set ≡ s = ground arith in
        inr (b gate stamp (sym (ap (λ (x : GateSet). get x.cache gate) same) ∙ p))
    | inl u ↦
        let now : r.set.cache ≡ put s.cache a.gate (a.ran_at, run_check a.ends) = ground arith in
        let found : (if gate == a.gate then some (a.ran_at, run_check a.ends) else get s.cache gate)
            ≡ some (stamp, true) =
          sym (
            ap (λ (c : Dict Str (ℕ × Bool)). get c gate) now
            ∙ get-put s.cache a.gate gate (a.ran_at, run_check a.ends))
          ∙ p in
        elim (str_eq.dec gate a.gate) [
          | yes q ↦ inl (sym q, ground arith, run_check-true a.ends (ground arith))
          | no q ↦ inr (b gate stamp (ground arith))
        ]
  ]
]

-- `_check` fails closed: if the positive entries of the cache rest on runs that passed, then so
-- does every answer that the gate is open. Either the check was run for the question, and this
-- run passed; or it was not, the question is without refresh, and the run that passed is the one
-- that the cache holds, less than `recheck_seconds` old.
pub check-Evidence :
    (s : GateSet) (a : Ask) (history : List Ask) {r : Answer}
    → IsBacked history s
    → check s a ≡ some r
    → r.ok ≡ true
    → Evidence (a ∷ history) s a r
unfolding check usable
check-Evidence s a history {r} b h ok = elim (Option-cases (get s.gates a.gate)) [
  | inl e ↦ absurd (ground arith)
  | inr (cfg, e) ↦ from_cache cfg e (get s.cache a.gate) refl
]
  where
    from_cache :
        (cfg : GateConfig)
        → get s.gates a.gate ≡ some cfg
        → (c : Option (ℕ × Bool)) → get s.cache a.gate ≡ c
        → Evidence (a ∷ history) s a r
    from_cache cfg e none q = record {
      stamp = a.ran_at;
      passed = inl (refl, refl, run_check-true a.ends (ground arith));
      recent = inl (ground arith, run_check-true a.ends (ground arith), refl);
    }
    from_cache cfg e (some (stamp, was_ok)) q =
        elim (Bool-cases (not a.refresh && ltb (a.asked_at - stamp) cfg.recheck_seconds)) [
          | inl f ↦
              let held : was_ok ≡ true = ground arith in
              record {
                stamp = stamp;
                passed = inr (b a.gate stamp (q ∙ ap (λ o. some (stamp, o)) held));
                recent = inr (
                  ground arith,
                  q ∙ ap (λ o. some (stamp, o)) held,
                  cfg,
                  e,
                  ground arith,
                  ground arith,
                );
              }
          | inr f ↦ record {
            stamp = a.ran_at;
            passed = inl (refl, refl, run_check-true a.ends (ground arith));
            recent = inl (ground arith, run_check-true a.ends (ground arith), refl);
          }
        ]

-- After a run of a gate's check, a question for the same gate without refresh, asked less than
-- `recheck_seconds` later, has the same answer, runs nothing and changes nothing.
pub check-cached :
    (s : GateSet) (a later : Ask) {r : Answer} {cfg : GateConfig}
    → check s a ≡ some r
    → r.ran ≡ true
    → get s.gates a.gate ≡ some cfg
    → later.gate ≡ a.gate
    → later.refresh ≡ false
    → later.asked_at - a.ran_at < cfg.recheck_seconds
    → check r.set later ≡ some (record { set = r.set; ok = r.ok; ran = false })
unfolding check
check-cached s a later {r} {cfg} h ran g same_gate no_refresh soon =
    elim (Option-cases (usable cfg a (get s.cache a.gate))) [
      | inr (ok, u) ↦ absurd (ground arith)
      | inl u ↦
          let now : r.set.cache ≡ put s.cache a.gate (a.ran_at, run_check a.ends) = ground arith in
          let ok : r.ok ≡ run_check a.ends = ground arith in
          let kept : get r.set.gates later.gate ≡ some cfg = ground arith in
          let entry : get r.set.cache later.gate ≡ some (a.ran_at, r.ok) =
            ap (λ (c : Dict Str (ℕ × Bool)). get c later.gate) now
            ∙ (get-put s.cache a.gate later.gate (a.ran_at, run_check a.ends) ∙ ground arith) in
          let held : usable cfg later (get r.set.cache later.gate) ≡ some r.ok =
            ap (usable cfg later) entry ∙ usable_now cfg later a.ran_at r.ok no_refresh soon in
          rw (kept, held, check)
    ]
  where
    usable_now :
        (c : GateConfig) (q : Ask) (stamp : ℕ) (ok : Bool)
        → q.refresh ≡ false
        → q.asked_at - stamp < c.recheck_seconds
        → usable c q (some (stamp, ok)) ≡ some ok
    usable_now c q stamp ok e l = unfold usable in ground arith
