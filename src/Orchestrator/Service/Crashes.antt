-- ===== src/Orchestrator/Service/Crashes.antt =====
-- One crash: what a turn of the loop makes of an exit that nobody asked for.
use mathlib.Core.Path.{subst}
use jetty.Prelude.{
  ◌⊎◌, arith, ℕ, ◌+◌, ◌-◌, ◌≤◌, ◌<◌, Bool, true, false, not, none, some, List, [], ◌∷◌, ◌++◌, ◌≡◌,
  ◌≢◌, refl, ap, ◌∙◌, ◌&&◌, ◌||◌, ◌*◌, ◌^◌, min, ltb, keep, contains, nonempty, length, if_false,
}
use jetty.Prelude.Text.{Str, str_eq}
use jetty.Orchestrator.Config.Model.{ServiceConfig, RestartConfig, ExitCode, exit_code_eq}
use jetty.Orchestrator.Service.{
  Service, Turn, Flow, again, finished, waiting, raised, run_once, run_attempt, recent,
  backoff_delay, count_crash, classify, after_exit, turn, resume, run_loop, attempt_code, failed,
  Attempt, no_spawn, exits,
}

-- No other party asked for this incarnation's end.
abbrev pub unprompted : Attempt → Bool
unprompted no_spawn = true
unprompted (exits became_ready gate_closed bounced code) = not gate_closed && not bounced

-- A turn whose exit spends restart budget: the gates are open before and after, nobody asked
-- for the exit, and its code is worth retrying. No stop comes after it.
pub record IsCrash (cfg : ServiceConfig) (requires : List Str) (t : Turn) : Type 0 where
  pub open_before : (nonempty requires && nonempty t.failing_before) ≡ false
  pub running_on : t.stop_seen ≡ false
  pub own_exit : unprompted t.attempt ≡ true
  pub retryable : contains cfg.restart.no_restart_exit (attempt_code t.attempt) ≡ false
  pub open_after : (nonempty requires && nonempty t.failing_after) ≡ false
  pub slept : t.stop_after ≡ false

-- No request is pending, and the service has not failed.
pub record IsIdle (s : Service) : Type 0 where
  pub no_stop : s.stop_event ≡ false
  pub no_gate_stop : s.gate_stop ≡ false
  pub no_bounce : s.bounce_requested ≡ false
  pub no_failure : s.failure ≡ none

-- The service as `count_crash` meets it after an unprompted exit.
abbrev exited_with : Turn → Service → Service
exited_with t s =
    let ran = run_once t s in
    record ran {
      last_exit = some (attempt_code t.attempt);
      stop_event = ran.stop_event || t.stop_after;
    }

module _ (cfg : ServiceConfig) (requires : List Str) where
  run_attempt-same :
      (stop_seen : Bool) (a : Attempt) (s : Service)
      → IsIdle s
      → stop_seen ≡ false
      → unprompted a ≡ true
      → IsIdle (run_attempt stop_seen a s)
        × ((run_attempt stop_seen a s).fail_times ≡ s.fail_times)
        × ((run_attempt stop_seen a s).restarts ≡ s.restarts)
  unfolding run_attempt
  run_attempt-same stop_seen no_spawn s h p q = (ground arith, refl, refl)
  run_attempt-same stop_seen (exits r g b c) s h p q = (ground arith, refl, refl)

  classify-crash :
      (t : Turn) (s : Service)
      → IsCrash cfg requires t
      → classify cfg requires t s
        ≡ count_crash cfg.restart (attempt_code t.attempt) t (record s {
          last_exit = some (attempt_code t.attempt);
          stop_event = s.stop_event || t.stop_after;
        })
  unfolding classify
  classify-crash t s c = rw (c.retryable, c.open_after)

  after_exit-idle :
      (t : Turn) (s : Service) → IsIdle s → after_exit cfg requires t s ≡ classify cfg requires t s
  unfolding after_exit
  after_exit-idle t s h = simp (h.no_stop, h.no_gate_stop, h.no_bounce)

  turn-crash :
      (t : Turn) (s : Service)
      → IsIdle s
      → IsCrash cfg requires t
      → turn cfg requires t s ≡ count_crash cfg.restart (attempt_code t.attempt) t (exited_with t s)
  unfolding turn run_once
  turn-crash t s h c = rw c.open_before (
      after_exit-idle t (run_attempt t.stop_seen t.attempt s)
        (run_attempt-same t.stop_seen t.attempt s h c.running_on c.own_exit).0
      ∙ classify-crash t (run_attempt t.stop_seen t.attempt s) c)

  -- The state after a crash that leaves budget, in the fields that later turns read.
  pub record Restarted (times : List ℕ) (n : ℕ) (r : Service × Flow) : Type 0 where
    pub goes_on : r.1 ≡ again
    pub idle : IsIdle r.0
    pub times_kept : r.0.fail_times ≡ times
    pub counted : r.0.restarts ≡ n

  pub record Failed (n : ℕ) (r : Service × Flow) : Type 0 where
    pub over : r.1 ≡ finished
    pub marked : r.0.state ≡ failed
    pub told : r.0.failure ≢ none
    pub counted : r.0.restarts ≡ n

  -- The delay can be computed for up to 1024 crashes.
  backoff_delay-some :
      (c : RestartConfig) (n : ℕ) → n ≤ 1024 → (delay : ℕ) × (backoff_delay c n ≡ some delay)
  unfolding backoff_delay
  backoff_delay-some c n l =
      (min (c.backoff_initial_seconds * 2 ^ (n - 1)) c.backoff_max_seconds, ground arith)

  count-Restarted :
      (code : ExitCode) (t : Turn) (u : Service) (times : List ℕ)
      → IsIdle u
      → recent cfg.restart t.now u.fail_times ≡ times
      → length times ≤ cfg.restart.max_restarts
      → length times ≤ 1024
      → Restarted times (u.restarts + 1) (count_crash cfg.restart code t u)
  unfolding count_crash
  count-Restarted code t u times h e l small =
      let under : ltb cfg.restart.max_restarts (length (recent cfg.restart t.now u.fail_times))
          ≡ false =
        rw e (ground arith) in
      let (delay, slept) = backoff_delay-some cfg.restart (length times) small in
      rw (under, e, slept)
        (record {
          goes_on = refl;
          idle = record {
            no_stop = h.no_stop;
            no_gate_stop = h.no_gate_stop;
            no_bounce = h.no_bounce;
            no_failure = h.no_failure;
          };
          times_kept = e;
          counted = refl;
        })

  count-Failed :
      (code : ExitCode) (t : Turn) (u : Service)
      → cfg.restart.max_restarts < length (recent cfg.restart t.now u.fail_times)
      → Failed (u.restarts + 1) (count_crash cfg.restart code t u)
  unfolding count_crash
  count-Failed code t u l =
      let over : ltb cfg.restart.max_restarts (length (recent cfg.restart t.now u.fail_times))
          ≡ true =
        ground arith in
      rw over (record { over = refl; marked = refl; told = λ e. cc; counted = refl })

  -- `run` ends with the `OverflowError`, and no failure is told.
  pub record Overflowed (n : ℕ) (r : Service × Flow) : Type 0 where
    pub over : r.1 ≡ raised
    pub untold : r.0.failure ≡ none
    pub counted : r.0.restarts ≡ n

  backoff_delay-none : (c : RestartConfig) (n : ℕ) → 1024 < n → backoff_delay c n ≡ none
  unfolding backoff_delay
  backoff_delay-none c n l = ground arith

  count-Overflowed :
      (code : ExitCode) (t : Turn) (u : Service)
      → u.failure ≡ none
      → 1024 < length (recent cfg.restart t.now u.fail_times)
      → length (recent cfg.restart t.now u.fail_times) ≤ cfg.restart.max_restarts
      → Overflowed (u.restarts + 1) (count_crash cfg.restart code t u)
  unfolding count_crash
  count-Overflowed code t u n many l =
      let times : List ℕ = recent cfg.restart t.now u.fail_times in
      let under : ltb cfg.restart.max_restarts (length times) ≡ false = ground arith in
      rw (under, backoff_delay-none cfg.restart (length times) many)
        (record { over = refl; untold = n; counted = refl })

  pub crash-Overflowed :
      (t : Turn) (s : Service)
      → IsIdle s
      → IsCrash cfg requires t
      → 1024 < length (recent cfg.restart t.now s.fail_times)
      → length (recent cfg.restart t.now s.fail_times) ≤ cfg.restart.max_restarts
      → Overflowed (s.restarts + 1) (turn cfg requires t s)
  unfolding run_once
  crash-Overflowed t s h c many l =
      let same = run_attempt-same t.stop_seen t.attempt s h c.running_on c.own_exit in
      subst (λ n. Overflowed (n + 1) (turn cfg requires t s)) same.2
        (rw (turn-crash t s h c) (
          count-Overflowed (attempt_code t.attempt) t (exited_with t s) same.0.no_failure
            (rw same.1 many) (rw same.1 l)))

  pub crash-Restarted :
      (t : Turn) (s : Service) (times : List ℕ)
      → IsIdle s
      → IsCrash cfg requires t
      → recent cfg.restart t.now s.fail_times ≡ times
      → length times ≤ cfg.restart.max_restarts
      → length times ≤ 1024
      → Restarted times (s.restarts + 1) (turn cfg requires t s)
  unfolding run_once
  crash-Restarted t s times h c e l small =
      let same = run_attempt-same t.stop_seen t.attempt s h c.running_on c.own_exit in
      subst (λ n. Restarted times (n + 1) (turn cfg requires t s)) same.2
        (rw (turn-crash t s h c) (
          count-Restarted (attempt_code t.attempt) t (exited_with t s) times
            (record {
              no_stop = ground (arith, same.0.no_stop, c.slept);
              no_gate_stop = same.0.no_gate_stop;
              no_bounce = same.0.no_bounce;
              no_failure = same.0.no_failure;
            })
            (rw same.1 e) l small))

  pub crash-Failed :
      (t : Turn) (s : Service)
      → IsIdle s
      → IsCrash cfg requires t
      → cfg.restart.max_restarts < length (recent cfg.restart t.now s.fail_times)
      → Failed (s.restarts + 1) (turn cfg requires t s)
  unfolding run_once
  crash-Failed t s h c l =
      let same = run_attempt-same t.stop_seen t.attempt s h c.running_on c.own_exit in
      subst (λ n. Failed (n + 1) (turn cfg requires t s)) same.2
        (rw (turn-crash t s h c)
          (count-Failed (attempt_code t.attempt) t (exited_with t s) (rw same.1 l)))

  pub loop-on :
      (t : Turn) (turns : List Turn) (s : Service)
      → IsIdle s
      → (turn cfg requires t s).1 ≡ again
      → run_loop cfg requires (t ∷ turns) s ≡ run_loop cfg requires turns (turn cfg requires t s).0
  unfolding run_loop resume
  loop-on t turns s h e =
      if_false _ _ h.no_stop
      ∙ ap
          (λ f.
            resume f (turn cfg requires t s).0
              (run_loop cfg requires turns (turn cfg requires t s).0))
          e

  pub loop-over :
      (flow : Flow) (t : Turn) (turns : List Turn) (s : Service)
      → IsIdle s
      → (flow ≡ finished) ⊎ (flow ≡ raised)
      → (turn cfg requires t s).1 ≡ flow
      → run_loop cfg requires (t ∷ turns) s ≡ ((turn cfg requires t s).0, flow)
  unfolding run_loop resume
  loop-over finished t turns s h o e =
      if_false _ _ h.no_stop
      ∙ ap
          (λ f.
            resume f (turn cfg requires t s).0
              (run_loop cfg requires turns (turn cfg requires t s).0))
          e
  loop-over raised t turns s h o e =
      if_false _ _ h.no_stop
      ∙ ap
          (λ f.
            resume f (turn cfg requires t s).0
              (run_loop cfg requires turns (turn cfg requires t s).0))
          e
  loop-over again t turns s h o e = ground arith
  loop-over waiting t turns s h o e = ground arith

-- Every number of the list lies in `[low, high)`.
abbrev pub Within : ℕ → ℕ → List ℕ → Type 0
Within low high [] = Unit
Within low high (x ∷ xs) = (low ≤ x) × (x < high) × Within low high xs

pub recent-all :
    (cfg : RestartConfig) (base now : ℕ) (times : List ℕ)
    → Within base (base + cfg.window_seconds) times
    → now < base + cfg.window_seconds
    → recent cfg now times ≡ times ++ now ∷ []
unfolding recent
recent-all cfg base now times w l = ap (λ (xs : List ℕ). xs ++ now ∷ []) (all_kept times w)
  where
    all_kept :
        (xs : List ℕ)
        → Within base (base + cfg.window_seconds) xs
        → keep (λ t. ltb (now - t) cfg.window_seconds) xs ≡ xs
    all_kept [] v = refl
    all_kept (x ∷ xs) v = ground (arith, all_kept xs)

pub Within-snoc :
    (low high : ℕ) (xs : List ℕ) (x : ℕ)
    → Within low high xs
    → low ≤ x
    → x < high
    → Within low high (xs ++ x ∷ [])
Within-snoc low high [] x w p q = (p, q, tt)
Within-snoc low high (y ∷ ys) x w p q = (w.0, w.1, Within-snoc low high ys x w.2 p q)

-- Every turn is a crash, at a time in `[low, high)`.
abbrev pub CrashesWithin : ServiceConfig → List Str → ℕ → ℕ → List Turn → Type 0
CrashesWithin cfg requires low high [] = Unit
CrashesWithin cfg requires low high (t ∷ turns) =
    IsCrash cfg requires t
    × (low ≤ t.now)
    × (t.now < high)
    × CrashesWithin cfg requires low high turns
