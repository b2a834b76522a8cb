-- ===== src/Orchestrator/Service/Tests.antt =====
-- Runs of a service, and the theorems at concrete inputs.
use jetty.Prelude.{
  zero, suc, length, ◌≤◌, contains, ℕ, ◌+◌, ◌-◌, true, false, List, [], ◌∷◌, ◌≡◌, refl, arith,
  if◌then◌else◌,
}
use jetty.Orchestrator.Config.Model.{ServiceConfig, exited, exit_code_eq}
use jetty.Orchestrator.Config.Tests.{plain_service}
use jetty.Orchestrator.Service.{
  Turn, fresh, exits, turn, run_loop, resume, run_once, after_exit, classify, count_crash, recent,
  backoff_delay, restart, ready_wait, stop_wait, run, stopped, finished,
}
use jetty.Orchestrator.Service.Budget.{InBudget, fresh-InBudget}
use jetty.Orchestrator.Service.Window.{RunsWithin, run_loop-keeps_budget}
use jetty.Orchestrator.Service.Crashes.{IsCrash, IsIdle, Failed, Overflowed, CrashesWithin}
use jetty.Orchestrator.Service.Limit.{
  crash_loop-fails, crash_loop-overflows, Lives, rare_crashes-live,
}
use jetty.Orchestrator.Service.Requests.{spends, spent, spend, turn-spent}
use jetty.Prelude.Dict.{get, put}
use jetty.Prelude.Text.{str_eq, codes}
use jetty.Orchestrator.Service.GateWatch.{
  Poll, new_watch, count_result, count_results, closed_gates, watch_gates,
}
use jetty.Orchestrator.Service.GateWatch.Streaks.{Closure, watch_gates-Closure}
use jetty.Orchestrator.Service.StaleBounce.{stale_bounce}

abbrev service : ServiceConfig
service = plain_service []

abbrev crash_at : ℕ → Turn
crash_at now = record {
  failing_before = [];
  wakes = [];
  attempt = exits true false false (exited 1);
  stop_seen = false;
  failing_after = [];
  now = now;
  stop_after = false;
}

-- A closed gate and a bounce in one incarnation.
abbrev pulled : Turn
pulled = record (crash_at 5) { attempt = exits true true true (exited 0) }

abbrev crash_loop : List Turn
crash_loop = crash_at 10 ∷ crash_at 11 ∷ crash_at 13 ∷ crash_at 17 ∷ []

crash_at-IsCrash : (now : ℕ) → IsCrash service [] (crash_at now)
unfolding exit_code_eq
crash_at-IsCrash now = record {
  open_before = refl;
  running_on = refl;
  own_exit = refl;
  retryable = refl;
  open_after = refl;
  slept = refl;
}

fresh-IsIdle : IsIdle fresh
fresh-IsIdle = record { no_stop = refl; no_gate_stop = refl; no_bounce = refl; no_failure = refl }

run_loop-delays : (run_loop service [] crash_loop fresh).0.delays ≡ 1 ∷ 2 ∷ 4 ∷ []
unfolding run_loop resume turn run_once after_exit classify count_crash recent backoff_delay
    exit_code_eq
run_loop-delays = refl

-- A stop while `run` waits for its second dependency: no turn is taken.
stopped_early :
    run service [] (ready_wait ∷ stop_wait ∷ []) crash_loop fresh
    ≡ (record fresh { stop_event = true; state = stopped }, finished)
unfolding run
stopped_early = refl

-- With its dependency ready, the service loops.
waited : run service [] (ready_wait ∷ []) crash_loop fresh ≡ run_loop service [] crash_loop fresh
unfolding run
waited = refl

abbrev all_within : RunsWithin [] 10 (10 + service.restart.window_seconds) crash_loop
all_within = (
  refl,
  omega arith,
  omega arith,
  (
    refl,
    omega arith,
    omega arith,
    (refl, omega arith, omega arith, (refl, omega arith, omega arith, tt)),
  ),
)

run_loop-keeps_budget_example :
    ((run_loop service [] crash_loop fresh).0.restarts + 0
      ≡ 0 + length (run_loop service [] crash_loop fresh).0.fail_times)
    × ((run_loop service [] crash_loop fresh).0.restarts + 0 ≤ 0 + (3 + 1))
    × InBudget service.restart (run_loop service [] crash_loop fresh).0
run_loop-keeps_budget_example =
    run_loop-keeps_budget service [] 10 crash_loop fresh (fresh-InBudget service.restart) refl tt
      all_within

crash_loop-fails_example :
    Failed service [] (0 + (3 + 1 - 0)) (run_loop service [] crash_loop fresh)
crash_loop-fails_example =
    crash_loop-fails service [] 10 crash_loop fresh (omega arith) fresh-IsIdle tt (omega arith)
      (
        crash_at-IsCrash 10,
        omega arith,
        omega arith,
        (
          crash_at-IsCrash 11,
          omega arith,
          omega arith,
          (
            crash_at-IsCrash 13,
            omega arith,
            omega arith,
            (crash_at-IsCrash 17, omega arith, omega arith, tt),
          ),
        ),
      )
      (omega arith)

rare_crashes-live_example :
    Lives (0 + 2) (run_loop service [] (crash_at 100 ∷ crash_at 160 ∷ []) fresh)
rare_crashes-live_example =
    rare_crashes-live service [] (omega arith) (crash_at 100 ∷ crash_at 160 ∷ []) 40 fresh
      fresh-IsIdle tt (crash_at-IsCrash 100, omega arith, (crash_at-IsCrash 160, omega arith, tt))

turn-spent_example :
    spent (turn service [] (crash_at 10) fresh).0
    ≡ (if spends service [] (crash_at 10) then spend service.restart 10 (0, []) else (0, []))
turn-spent_example = turn-spent service [] (crash_at 10) fresh fresh-IsIdle

-- A service that may crash 2000 times, after 1024 crashes.
abbrev patient : ServiceConfig
patient = record service { restart = record service.restart { max_restarts = 2000 } }

patient-IsCrash : (now : ℕ) → IsCrash patient [] (crash_at now)
unfolding exit_code_eq
patient-IsCrash now = record {
  open_before = refl;
  running_on = refl;
  own_exit = refl;
  retryable = refl;
  open_after = refl;
  slept = refl;
}

crashes : ℕ → List Turn
crashes zero = []
crashes (suc n) = crash_at 10 ∷ crashes n

length-crashes : (n : ℕ) → length (crashes n) ≡ n
unfolding crashes
length-crashes zero = refl
length-crashes (suc n) = omega (arith, length-crashes n)

crashes-within : (n : ℕ) → CrashesWithin patient [] 10 (10 + 60) (crashes n)
unfolding crashes
crashes-within zero = tt
crashes-within (suc n) = (patient-IsCrash 10, omega arith, omega arith, crashes-within n)

crash_loop-overflows_example :
    Overflowed patient [] (0 + (1025 - 0)) (run_loop patient [] (crashes 1025) fresh)
crash_loop-overflows_example =
    crash_loop-overflows patient [] 10 (crashes 1025) fresh (omega arith) fresh-IsIdle tt
      (omega arith) (crashes-within 1025) (omega (arith, length-crashes 1025))

stale_bounce_example :
    ((restart true (turn service [] pulled fresh).0).1 ≡ false)
    × ((turn service [] (crash_at 9) (turn service [] pulled fresh).0).0.restarts ≡ 0)
    × ((turn service [] (crash_at 9) (turn service [] pulled fresh).0).0.delays ≡ [])
stale_bounce_example =
    stale_bounce service [] pulled (crash_at 9) fresh true (exited 0) fresh-IsIdle refl refl refl
      (crash_at-IsCrash 9)

abbrev vpn_down : ℕ → Poll
vpn_down stamp = record {
  over_before = false;
  results = record { gate = codes "vpn"; ok = false; stamp = stamp } ∷ [];
  over_after = false;
}

-- The second poll meets the cached result of the first.
vpn_closes :
    contains
      (watch_gates (λ _. 2) new_watch (vpn_down 5 ∷ vpn_down 5 ∷ vpn_down 9 ∷ []))
      (codes "vpn")
    ≡ true
unfolding watch_gates closed_gates count_results count_result str_eq get put
vpn_closes = refl

watch_gates-Closure_example :
    Closure (λ _. 2) new_watch (vpn_down 5 ∷ vpn_down 5 ∷ vpn_down 9 ∷ []) (codes "vpn")
watch_gates-Closure_example =
    watch_gates-Closure (λ _. 2) new_watch (vpn_down 5 ∷ vpn_down 5 ∷ vpn_down 9 ∷ []) (codes "vpn")
      vpn_closes
