-- ===== src/Orchestrator/Service/Window.antt =====
-- The restart budget in one window: every exit that is counted is on the list, so that the limit
-- bounds them all.
use jetty.Prelude.{
  ℕ, ◌+◌, ◌≤◌, ◌<◌, Bool, false, none, some, List, [], ◌∷◌, ◌≡◌, inl, inr, refl, ap, sym, ◌∙◌, ◌&&◌,
  ◌||◌, ltb, contains, nonempty, length, arith, Bool-cases, Option-cases, if_rule, length-append,
}
use jetty.Prelude.Text.{Str, str_eq}
use jetty.Orchestrator.Config.Model.{ServiceConfig, ExitCode, exit_code_eq}
use jetty.Orchestrator.Service.{
  Service, Turn, Flow, run_once, run_attempt, backoff_delay, recent, count_crash, classify,
  after_exit, turn, resume, run_loop, attempt_code, Attempt, no_spawn, exits,
}
use jetty.Orchestrator.Service.Budget.{InBudget, run_loop-InBudget, Flow-cases}
use jetty.Orchestrator.Service.Crashes.{Within, Within-snoc, recent-all}

-- Every turn finds the gates open before its run, and exits at a time in `[low, high)`.
abbrev pub RunsWithin : List Str → ℕ → ℕ → List Turn → Type 0
RunsWithin requires low high [] = Unit
RunsWithin requires low high (t ∷ turns) =
    ((nonempty requires && nonempty t.failing_before) ≡ false)
    × (low ≤ t.now)
    × (t.now < high)
    × RunsWithin requires low high turns

-- From `s` to `r`, as many exits are put on the list as are counted, and all lie in the window.
record Recorded (low high : ℕ) (s r : Service) : Type 0 where
  grown : r.restarts + length s.fail_times ≡ s.restarts + length r.fail_times
  inside : Within low high r.fail_times

module _ (cfg : ServiceConfig) (requires : List Str) (base : ℕ) where
  abbrev end : ℕ
  end = base + cfg.restart.window_seconds

  count_crash-Recorded :
      (code : ExitCode) (t : Turn) (s : Service)
      → base ≤ t.now
      → t.now < end
      → Within base end s.fail_times
      → Recorded base end s (count_crash cfg.restart code t s).0
  unfolding count_crash
  count_crash-Recorded code t s l h w =
      let all_of = recent-all cfg.restart base t.now s.fail_times w h in
      let times : List ℕ = recent cfg.restart t.now s.fail_times in
      let grows : s.restarts + 1 + length s.fail_times ≡ s.restarts + length times =
        rw all_of (omega (arith, length-append s.fail_times (t.now ∷ []))) in
      let holds : Within base end times =
        rw all_of (Within-snoc base end s.fail_times t.now w l h) in
      elim (Bool-cases (ltb cfg.restart.max_restarts (length times))) [
        | inl e ↦ rw e (record { grown = grows; inside = holds })
        | inr e ↦ elim (Option-cases (backoff_delay cfg.restart (length times))) [
          | inl d ↦ rw (e, d) (record { grown = grows; inside = holds })
          | inr (delay, d) ↦ rw (e, d) (record { grown = grows; inside = holds })
        ]
      ]

  classify-Recorded :
      (t : Turn) (s : Service)
      → base ≤ t.now
      → t.now < end
      → Within base end s.fail_times
      → Recorded base end s (classify cfg requires t s).0
  unfolding classify
  classify-Recorded t s l h w =
      let checked : Service = record s {
        last_exit = some (attempt_code t.attempt);
        stop_event = s.stop_event || t.stop_after;
      } in
      let counted = count_crash-Recorded (attempt_code t.attempt) t checked l h w in
      if_rule (λ (r : Service × Flow). Recorded base end s r.0)
        (contains cfg.restart.no_restart_exit (attempt_code t.attempt))
        (λ _. record { grown = refl; inside = w })
        λ _.
          if_rule (λ (r : Service × Flow). Recorded base end s r.0)
            (nonempty requires && nonempty t.failing_after)
            (λ _. record { grown = refl; inside = w })
            λ _. record { grown = counted.grown; inside = counted.inside }

  after_exit-Recorded :
      (t : Turn) (s : Service)
      → base ≤ t.now
      → t.now < end
      → Within base end s.fail_times
      → Recorded base end s (after_exit cfg requires t s).0
  unfolding after_exit
  after_exit-Recorded t s l h w =
      if_rule (λ (r : Service × Flow). Recorded base end s r.0) s.stop_event
        (λ _. record { grown = refl; inside = w })
        λ _.
          if_rule (λ (r : Service × Flow). Recorded base end s r.0) s.gate_stop
            (λ _. record { grown = refl; inside = w })
            λ _.
              if_rule (λ (r : Service × Flow). Recorded base end s r.0) s.bounce_requested
                (λ _. record { grown = refl; inside = w }) λ _. classify-Recorded t s l h w

  lists-run_attempt :
      (stop_seen : Bool) (a : Attempt) (s : Service)
      → ((run_attempt stop_seen a s).fail_times ≡ s.fail_times)
        × ((run_attempt stop_seen a s).restarts ≡ s.restarts)
  unfolding run_attempt
  lists-run_attempt stop_seen no_spawn s = (refl, refl)
  lists-run_attempt stop_seen (exits r g b code) s = (refl, refl)

  turn-Recorded :
      (t : Turn) (s : Service)
      → (nonempty requires && nonempty t.failing_before) ≡ false
      → base ≤ t.now
      → t.now < end
      → Within base end s.fail_times
      → Recorded base end s (turn cfg requires t s).0
  unfolding turn run_once
  turn-Recorded t s o l h w =
      let ran : Service = run_attempt t.stop_seen t.attempt s in
      let same = lists-run_attempt t.stop_seen t.attempt s in
      let r = after_exit-Recorded t ran l h (rw same.0 w) in
      let after : Service = (after_exit cfg requires t ran).0 in
      rw o (record {
        grown =
            ap (λ (xs : List ℕ). after.restarts + length xs) (sym same.0)
            ∙ (r.grown ∙ ap (λ n. n + length after.fail_times) same.1);
        inside = r.inside;
      })

  run_loop-Recorded :
      (turns : List Turn) (s : Service)
      → Within base end s.fail_times
      → RunsWithin requires base end turns
      → Recorded base end s (run_loop cfg requires turns s).0
  unfolding run_loop resume
  run_loop-Recorded [] s w c =
      if_rule (λ (r : Service × Flow). Recorded base end s r.0) s.stop_event
        (λ _. record { grown = refl; inside = w }) (λ _. record { grown = refl; inside = w })
  run_loop-Recorded (t ∷ turns) s w c =
      let step = turn-Recorded t s c.0 c.1 c.2 w in
      let rest = run_loop-Recorded turns (turn cfg requires t s).0 step.inside c.3 in
      if_rule (λ (r : Service × Flow). Recorded base end s r.0) s.stop_event
        (λ _. record { grown = refl; inside = w })
        λ _. elim (Flow-cases cfg requires (turn cfg requires t s)) [
          | inl e ↦
              rw e (record { grown = omega (arith, step.grown, rest.grown); inside = rest.inside })
          | inr (inl e) ↦ rw e step
          | inr (inr (inl e)) ↦ rw e step
          | inr (inr (inr e)) ↦ rw e step
        ]

  -- Over any turns whose exits lie in one window and which do not meet a closed gate before
  -- their run, from a service in its budget that has not failed and whose counted crashes lie in
  -- the same window: `restarts` grows by exactly the
  -- number of crashes put on the list, with those before it by at most `max_restarts` and one,
  -- and the service is in its budget: at most `max_restarts` crashes are on the list as long as
  -- it has not failed, it is `failed` when a failure is told, and no delay passes
  -- `backoff_max_seconds`.
  pub run_loop-keeps_budget :
      (turns : List Turn) (s : Service)
      → InBudget cfg.restart s
      → s.failure ≡ none
      → Within base end s.fail_times
      → RunsWithin requires base end turns
      → ((run_loop cfg requires turns s).0.restarts + length s.fail_times
          ≡ s.restarts + length (run_loop cfg requires turns s).0.fail_times)
        × ((run_loop cfg requires turns s).0.restarts + length s.fail_times
            ≤ s.restarts + (cfg.restart.max_restarts + 1))
        × InBudget cfg.restart (run_loop cfg requires turns s).0
  run_loop-keeps_budget turns s b n w c =
      let budget = run_loop-InBudget cfg requires turns s b n in
      let recorded = run_loop-Recorded turns s w c in
      (recorded.grown, omega (arith, recorded.grown, budget.one_more), budget)
