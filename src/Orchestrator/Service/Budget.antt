-- ===== src/Orchestrator/Service/Budget.antt =====
-- The list of the crashes of the last window, and the delays.
use jetty.Prelude.{
  ℕ, ◌+◌, ◌-◌, ◌≤◌, Bool, none, some, List, [], ◌∷◌, ◌++◌, ◌≡◌, ◌≢◌, ◌⊎◌, inl, inr, refl, ◌∙◌, ◌&&◌,
  ◌||◌, Option-cases, ltb, keep, contains, nonempty, length, arith, Bool-cases, if_rule,
  length-append, length-keep,
}
use jetty.Prelude.Text.{Str, str_eq}
use jetty.Orchestrator.Config.Model.{ServiceConfig, RestartConfig, ExitCode, exit_code_eq}
use jetty.Orchestrator.Service.{
  Service, Turn, Flow, again, finished, waiting, raised, Wake, stop_wake, poll, block_loop, block,
  run_once, run_attempt, backoff_delay, recent, count_crash, classify, after_exit, turn, resume,
  run_loop, fresh, attempt_code, failed, stopped, Attempt, no_spawn, exits,
}

-- Every delay slept is at most the configured maximum.
abbrev pub AllLe : ℕ → List ℕ → Type 0
AllLe bound [] = Unit
AllLe bound (x ∷ xs) = (x ≤ bound) × AllLe bound xs

AllLe-snoc :
    (bound : ℕ) (xs : List ℕ) (x : ℕ) → AllLe bound xs → x ≤ bound → AllLe bound (xs ++ x ∷ [])
AllLe-snoc bound [] x h p = (p, tt)
AllLe-snoc bound (y ∷ ys) x h p = (h.0, AllLe-snoc bound ys x h.1 p)

-- A service that has not failed has budget left; one that has told a failure is `failed`; and
-- no delay passes the maximum.
pub record InBudget (cfg : RestartConfig) (s : Service) : Type 0 where
  pub within : s.failure ≡ none → length s.fail_times ≤ cfg.max_restarts
  pub one_more : length s.fail_times ≤ cfg.max_restarts + 1
  pub reported : s.failure ≢ none → s.state ≡ failed
  pub delayed : AllLe cfg.backoff_max_seconds s.delays

backoff_delay-le :
    (cfg : RestartConfig) (n delay : ℕ)
    → backoff_delay cfg n ≡ some delay
    → delay ≤ cfg.backoff_max_seconds
unfolding backoff_delay
backoff_delay-le cfg n delay h = ground arith

length-recent :
    (cfg : RestartConfig) (now : ℕ) (times : List ℕ)
    → length (recent cfg now times) ≤ length times + 1
unfolding recent
length-recent cfg now times = omega (
  arith,
  length-append (keep (λ t. ltb (now - t) cfg.window_seconds) times) (now ∷ []),
  length-keep (λ t. ltb (now - t) cfg.window_seconds) times,
)

-- The invariant holds after a step, and unless the step finishes nothing has failed.
record Kept (cfg : RestartConfig) (r : Service × Flow) : Type 0 where
  budget : InBudget cfg r.0
  alive : (r.1 ≡ finished) ⊎ (r.0.failure ≡ none)

block_loop-Kept :
    (cfg : RestartConfig) (wakes : List Wake) (s : Service)
    → InBudget cfg s
    → s.failure ≡ none
    → Kept cfg (block_loop wakes s)
unfolding block_loop
block_loop-Kept cfg [] s b n = record { budget = b; alive = inr n }
block_loop-Kept cfg (stop_wake ∷ wakes) s b n = record { budget = ground arith; alive = inr n }
block_loop-Kept cfg (poll [] ∷ wakes) s b n = record { budget = ground arith; alive = inr n }
block_loop-Kept cfg (poll (g ∷ gs) ∷ wakes) s b n =
    block_loop-Kept cfg wakes (record s { blocked_on = g ∷ gs })
      (record {
        within = b.within;
        one_more = b.one_more;
        reported = λ r. absurd (r n);
        delayed = b.delayed;
      })
      n

block-Kept :
    (cfg : RestartConfig) (failing : List Str) (wakes : List Wake) (s : Service)
    → InBudget cfg s
    → s.failure ≡ none
    → Kept cfg (block failing wakes s)
unfolding block
block-Kept cfg failing wakes s b n =
    block_loop-Kept cfg wakes _
      (record {
        within = λ _. omega arith;
        one_more = omega arith;
        reported = λ r. absurd (r n);
        delayed = b.delayed;
      })
      n

count_crash-Kept :
    (cfg : RestartConfig) (code : ExitCode) (t : Turn) (s : Service)
    → InBudget cfg s
    → s.failure ≡ none
    → Kept cfg (count_crash cfg code t s)
unfolding count_crash
count_crash-Kept cfg code t s b n =
    let times : List ℕ = recent cfg t.now s.fail_times in
    elim (Bool-cases (ltb cfg.max_restarts (length times))) [
      | inl over ↦ rw over (record {
        budget = record {
          within = λ e. cc;
          one_more = omega (arith, length-recent cfg t.now s.fail_times, b.within n);
          reported = λ _. refl;
          delayed = b.delayed;
        };
        alive = inl refl;
      })
      | inr left ↦ elim (Option-cases (backoff_delay cfg (length times))) [
        | inl e ↦
            rw (left, e)
              (record {
                budget = record {
                  within = λ _. ground arith;
                  one_more = ground arith;
                  reported = λ r. absurd (r n);
                  delayed = b.delayed;
                };
                alive = inr n;
              })
        | inr (delay, e) ↦
            rw (left, e)
              (record {
                budget = record {
                  within = λ _. ground arith;
                  one_more = ground arith;
                  reported = λ r. absurd (r n);
                  delayed =
                      AllLe-snoc cfg.backoff_max_seconds s.delays delay b.delayed
                        (backoff_delay-le cfg (length times) delay e);
                };
                alive = inr n;
              })
      ]
    ]

module _ (cfg : ServiceConfig) (requires : List Str) where
  classify-Kept :
      (t : Turn) (s : Service)
      → InBudget cfg.restart s
      → s.failure ≡ none
      → Kept cfg.restart (classify cfg requires t s)
  unfolding classify
  classify-Kept t s b n =
      let marked : Service = record s { last_exit = some (attempt_code t.attempt) } in
      let checked : Service = record marked { stop_event = s.stop_event || t.stop_after } in
      let same : InBudget cfg.restart checked = record {
        within = b.within;
        one_more = b.one_more;
        reported = b.reported;
        delayed = b.delayed;
      } in
      elim (Bool-cases (contains cfg.restart.no_restart_exit (attempt_code t.attempt))) [
        | inl e ↦ rw e (record {
          budget = record {
            within = λ q. cc;
            one_more = b.one_more;
            reported = λ _. refl;
            delayed = b.delayed;
          };
          alive = inl refl;
        })
        | inr e ↦ elim (Bool-cases (nonempty requires && nonempty t.failing_after)) [
          | inl g ↦ rw (e, g) (record { budget = same; alive = inr n })
          | inr g ↦
              rw (e, g) (count_crash-Kept cfg.restart (attempt_code t.attempt) t checked same n)
        ]
      ]

  after_exit-Kept :
      (t : Turn) (s : Service)
      → InBudget cfg.restart s
      → s.failure ≡ none
      → Kept cfg.restart (after_exit cfg requires t s)
  unfolding after_exit
  after_exit-Kept t s b n =
      if_rule (Kept cfg.restart) s.stop_event (λ _. record { budget = b; alive = inr n })
        λ _.
          if_rule (Kept cfg.restart) s.gate_stop (λ _. unmarked _ refl refl refl)
            λ _.
              if_rule (Kept cfg.restart) s.bounce_requested (λ _. unmarked _ refl refl refl)
                λ _. classify-Kept t s b n
    where
      unmarked :
          (u : Service)
          → u.fail_times ≡ s.fail_times
          → u.failure ≡ s.failure
          → u.delays ≡ s.delays
          → Kept cfg.restart (u, again)
      unmarked u p q r = record {
        budget = record {
          within = λ _. rw p (b.within n);
          one_more = rw p b.one_more;
          reported = λ bad. absurd (bad (q ∙ n));
          delayed = rw r b.delayed;
        };
        alive = inr (q ∙ n);
      }

  run_attempt-InBudget :
      (stop_seen : Bool) (a : Attempt) (s : Service)
      → InBudget cfg.restart s
      → s.failure ≡ none
      → InBudget cfg.restart (run_attempt stop_seen a s)
        × ((run_attempt stop_seen a s).failure ≡ none)
  unfolding run_attempt
  run_attempt-InBudget stop_seen no_spawn s b n = (
    record {
      within = b.within;
      one_more = b.one_more;
      reported = λ r. absurd (r n);
      delayed = b.delayed;
    },
    n,
  )
  run_attempt-InBudget stop_seen (exits r g c code) s b n = (
    record {
      within = b.within;
      one_more = b.one_more;
      reported = λ bad. absurd (bad n);
      delayed = b.delayed;
    },
    n,
  )

  turn-Kept :
      (t : Turn) (s : Service)
      → InBudget cfg.restart s
      → s.failure ≡ none
      → Kept cfg.restart (turn cfg requires t s)
  unfolding turn run_once
  turn-Kept t s b n =
      let ran = run_attempt-InBudget t.stop_seen t.attempt s b n in
      if_rule (Kept cfg.restart) (nonempty requires && nonempty t.failing_before)
        (λ _. block-Kept cfg.restart t.failing_before t.wakes s b n)
        (λ _. after_exit-Kept t (run_attempt t.stop_seen t.attempt s) ran.0 ran.1)

  pub Flow-cases :
      (r : Service × Flow) → (r.1 ≡ again) ⊎ (r.1 ≡ finished) ⊎ (r.1 ≡ waiting) ⊎ (r.1 ≡ raised)
  Flow-cases (s, again) = inl refl
  Flow-cases (s, finished) = inr (inl refl)
  Flow-cases (s, waiting) = inr (inr (inl refl))
  Flow-cases (s, raised) = inr (inr (inr refl))

  stopped-InBudget :
      (s : Service)
      → InBudget cfg.restart s
      → s.failure ≡ none
      → InBudget cfg.restart (record s { state = stopped })
  stopped-InBudget s b n = record {
    within = b.within;
    one_more = b.one_more;
    reported = λ r. absurd (r n);
    delayed = b.delayed;
  }

  -- Over any turns of the world, from a service that has not failed and is in its budget: at
  -- most `max_restarts` crashes are on the list as long as it has not failed, at most one more
  -- when it has, it is then `failed`, and no delay passes `backoff_max_seconds`.
  pub run_loop-InBudget :
      (turns : List Turn) (s : Service)
      → InBudget cfg.restart s
      → s.failure ≡ none
      → InBudget cfg.restart (run_loop cfg requires turns s).0
  unfolding run_loop resume
  run_loop-InBudget [] s b n =
      if_rule (λ (r : Service × Flow). InBudget cfg.restart r.0) s.stop_event
        (λ _. stopped-InBudget s b n) (λ _. b)
  run_loop-InBudget (t ∷ turns) s b n =
      if_rule (λ (r : Service × Flow). InBudget cfg.restart r.0) s.stop_event
        (λ _. stopped-InBudget s b n)
        λ _.
          let step = turn-Kept t s b n in
          elim (Flow-cases (turn cfg requires t s)) [
            | inl e ↦ rw e (
                run_loop-InBudget turns (turn cfg requires t s).0 step.budget
                  (elim step.alive [ inl f ↦ cc | inr m ↦ m ]))
            | inr (inl e) ↦ rw e step.budget
            | inr (inr (inl e)) ↦ rw e step.budget
            | inr (inr (inr e)) ↦ rw e step.budget
          ]

pub fresh-InBudget : (cfg : RestartConfig) → InBudget cfg fresh
fresh-InBudget cfg = record {
  within = λ _. omega arith;
  one_more = omega arith;
  reported = λ bad. absurd (bad refl);
  delayed = tt;
}
