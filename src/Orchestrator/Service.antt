-- ===== src/Orchestrator/Service.antt =====
-- service.py: one supervised service. `run` is followed turn by turn; what the world does in a
-- turn (gate checks, the exit, the clock, requests to stop) is a value of `Turn`.
pub mod Budget
pub mod Crashes
pub mod Limit
pub mod Window
pub mod Requests
pub mod StaleBounce
pub mod GateWatch
mod Tests
use jetty.Prelude.{
  ℕ, suc, ◌+◌, ◌-◌, ◌*◌, ◌^◌, min, Bool, true, false, not, Option, none, some, List, [], ◌∷◌, ◌++◌,
  ◌==◌, ◌&&◌, ◌||◌, ltb, keep, contains, nonempty, length, if◌then◌else◌,
}
use jetty.Prelude.Text.{Str, str_eq}
use jetty.Orchestrator.Config.Model.{ServiceConfig, RestartConfig, ExitCode, exited, exit_code_eq}

pub data State : Type 0 where
  pending starting running blocked backoff stopping stopped failed : State

-- The reasons for which a service fails its instance.
pub data Headline : Type 0 where
  not_worth_retrying : ExitCode → Headline
  too_many_exits : (count span : ℕ) → ExitCode → Headline

-- The fields of `Service` that `run` reads or writes.
pub record Service : Type 0 where
  pub state : State
  pub last_exit : Option ExitCode
  pub restarts : ℕ
  pub blocked_on : List Str
  pub stop_event : Bool
  pub bounce_requested : Bool
  pub gate_stop : Bool
  pub fail_times : List ℕ
  -- What `_fail` has told the supervisor, and the delays slept in `backoff`.
  pub failure : Option Headline
  pub delays : List ℕ

abbrev pub fresh : Service
fresh = record {
  state = pending;
  last_exit = none;
  restarts = 0;
  blocked_on = [];
  stop_event = false;
  bounce_requested = false;
  gate_stop = false;
  fail_times = [];
  failure = none;
  delays = [];
}

-- A spawn that failed; or a process that was or was not ready before it exited, with the
-- requests of the gate watcher and of the supervisor or path watcher that came while it ran.
pub data Attempt : Type 0 where
  no_spawn : Attempt
  exits : (became_ready gate_closed bounced : Bool) → ExitCode → Attempt

-- One wake of the loop of `_block`: a stop, or the gates that fail now.
pub data Wake : Type 0 where
  stop_wake : Wake
  poll : List Str → Wake

-- What the world does in one turn of the loop of `run`.
pub record Turn : Type 0 where
  pub failing_before : List Str
  pub wakes : List Wake
  pub attempt : Attempt
  -- A stop was requested before `_run_once` returned.
  pub stop_seen : Bool
  pub failing_after : List Str
  pub now : ℕ
  -- A stop was requested after that: in the gate check that follows an exit, or in the delay.
  pub stop_after : Bool

-- How a turn ends: the loop goes on, `run` returns, it still waits in `_block`, or it ends with an
-- exception.
pub data Flow : Type 0 where
  again finished waiting raised : Flow

-- The loop of `_block`.
unfoldable pub block_loop : List Wake → Service → Service × Flow
block_loop [] s = (s, waiting)
block_loop (stop_wake ∷ wakes) s = (record s { stop_event = true }, again)
block_loop (poll [] ∷ wakes) s = (record s { blocked_on = [] }, again)
block_loop (poll (g ∷ gs) ∷ wakes) s = block_loop wakes (record s { blocked_on = g ∷ gs })

-- `_block`: entering it forgives the crashes of the past.
unfoldable pub block : List Str → List Wake → Service → Service × Flow
unfolding block_loop
block failing wakes s =
    block_loop wakes (record s { blocked_on = failing; fail_times = []; state = blocked })

abbrev pub attempt_code : Attempt → ExitCode
attempt_code no_spawn = exited 127
attempt_code (exits became_ready gate_closed bounced code) = code

-- `_run_once`, with the flags that others set while it waits for the exit. A stop shows in the
-- state only if there is a process to stop.
unfoldable pub run_attempt : Bool → Attempt → Service → Service
run_attempt stop_seen no_spawn s = record s {
  state = starting;
  stop_event = s.stop_event || stop_seen;
}
run_attempt stop_seen (exits became_ready gate_closed bounced code) s = record s {
  state = if stop_seen then stopping else if became_ready then running else starting;
  stop_event = s.stop_event || stop_seen;
  gate_stop = s.gate_stop || gate_closed;
  bounce_requested = s.bounce_requested || bounced;
}

unfoldable pub run_once : Turn → Service → Service
unfolding run_attempt
run_once t s = run_attempt t.stop_seen t.attempt s

-- `min(backoff_initial * 2 ** (len(fail_times) - 1), backoff_max)`. The power is converted to a
-- float, which 2 ** 1024 is too large for: `none` is the `OverflowError`.
unfoldable pub backoff_delay : RestartConfig → ℕ → Option ℕ
backoff_delay cfg failures =
    if ltb 1024 failures
    then none
    else some (min (cfg.backoff_initial_seconds * 2 ^ (failures - 1)) cfg.backoff_max_seconds)

-- `[t for t in fail_times if now - t < window] + [now]`
unfoldable pub recent : RestartConfig → ℕ → List ℕ → List ℕ
recent cfg now times = keep (λ t. ltb (now - t) cfg.window_seconds) times ++ now ∷ []

abbrev pub span_of : ℕ → List ℕ → ℕ
span_of now [] = 0
span_of now (t ∷ times) = now - t

-- A crash that counts: restart after a delay, or fail.
unfoldable pub count_crash : RestartConfig → ExitCode → Turn → Service → Service × Flow
count_crash cfg code t s =
    let times = recent cfg t.now s.fail_times in
    let counted = record s { fail_times = times; restarts = s.restarts + 1 } in
    if ltb cfg.max_restarts (length times)
    then (
      record counted {
        state = failed;
        failure = some (too_many_exits (length times) (span_of t.now times) code);
      },
      finished,
    )
    else elim (backoff_delay cfg (length times)) as (λ _. Service × Flow) [
      | none ↦ (counted, raised)
      | some delay ↦ (record counted { state = backoff; delays = s.delays ++ delay ∷ [] }, again)
    ]

-- From `self.last_exit = code` to the end of the loop's body.
unfoldable pub classify : ServiceConfig → List Str → Turn → Service → Service × Flow
classify cfg requires t s =
    let code = attempt_code t.attempt in
    let exited_now = record s { last_exit = some code } in
    let checked = record exited_now { stop_event = s.stop_event || t.stop_after } in
    if contains cfg.restart.no_restart_exit code
    then (record exited_now { state = failed; failure = some (not_worth_retrying code) }, finished)
    else if nonempty requires && nonempty t.failing_after
    then (checked, again)
    else count_crash cfg.restart code t checked

-- After `_run_once`: a stop, a closed gate and a bounce come before the exit's classification.
unfoldable pub after_exit : ServiceConfig → List Str → Turn → Service → Service × Flow
after_exit cfg requires t s =
    if s.stop_event
    then (s, again)
    else if s.gate_stop
    then (record s { gate_stop = false }, again)
    else if s.bounce_requested
    then (record s { bounce_requested = false }, again)
    else classify cfg requires t s

-- The body of `while not self.stopping`.
unfoldable pub turn : ServiceConfig → List Str → Turn → Service → Service × Flow
turn cfg requires t s =
    if nonempty requires && nonempty t.failing_before
    then block t.failing_before t.wakes s
    else after_exit cfg requires t (run_once t s)

-- How the loop goes on after a turn; `rest` is what the further turns make of it.
unfoldable pub resume : Flow → Service → Service × Flow → Service × Flow
resume again s rest = rest
resume finished s rest = (s, finished)
resume waiting s rest = (s, waiting)
resume raised s rest = (s, raised)

-- The loop, over the turns that the world takes; `run` sets `stopped` when it leaves the loop.
unfoldable pub run_loop : ServiceConfig → List Str → List Turn → Service → Service × Flow
run_loop cfg requires [] s =
    if s.stop_event then (record s { state = stopped }, finished) else (s, waiting)
run_loop cfg requires (t ∷ turns) s =
    let step = turn cfg requires t s in
    let rest = run_loop cfg requires turns step.0 in
    if s.stop_event then (record s { state = stopped }, finished) else resume step.1 step.0 rest

-- What a wait for a dependency meets: the dependency is ready, or a stop.
pub data Wait : Type 0 where
  ready_wait stop_wait : Wait

-- `run`: the waits for the dependencies, and the loop.
unfoldable pub run : ServiceConfig → List Str → List Wait → List Turn → Service → Service × Flow
unfolding run_loop
run cfg requires [] turns s = run_loop cfg requires turns s
run cfg requires (stop_wait ∷ waits) turns s =
    (record s { stop_event = true; state = stopped }, finished)
run cfg requires (ready_wait ∷ waits) turns s =
    let rest = run cfg requires waits turns s in
    if s.stop_event then (record s { state = stopped }, finished) else rest

-- `restart`, up to the signal that it sends; the test says whether it goes on to that.
unfoldable pub restart : (process_runs : Bool) → Service → Service × Bool
restart process_runs s =
    if s.stop_event || s.bounce_requested
    then (s, false)
    else if not process_runs
    then (s, false)
    else (record s { bounce_requested = true }, true)
