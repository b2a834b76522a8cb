-- ===== src/Orchestrator/Gates.antt =====
-- gates.py: conditions that are checked by running a command, with a cache for each gate.
pub mod Evidence
mod Tests
use jetty.Prelude.{
  ℕ, ◌-◌, Bool, true, false, not, Option, none, some, List, [], ◌∷◌, ◌==◌, ◌&&◌, ltb, keep,
  nonempty, if◌then◌else◌,
}
use jetty.Prelude.Dict.{Dict, get, put}
use jetty.Prelude.Text.{Str, str_eq}
use jetty.Orchestrator.Config.Model.{GateConfig, ExitCode, exited, exit_code_eq}

-- How one run of a check ended.
pub data RunEnd : Type 0 where
  cannot_start timed_out : RunEnd
  done : ExitCode → RunEnd

-- `_run`: only an exit with code 0 within the time satisfies a gate.
unfoldable pub run_check : RunEnd → Bool
run_check cannot_start = false
run_check timed_out = false
run_check (done code) = code == exited 0

-- The cache holds when a gate's check last ran, and whether it passed.
pub record GateSet : Type 0 where
  pub gates : Dict Str GateConfig
  pub cache : Dict Str (ℕ × Bool)

-- What the world does when a gate is asked: the clock, the run if there is one, the clock then.
pub record Ask : Type 0 where
  pub gate : Str
  pub refresh : Bool
  pub asked_at : ℕ
  pub ends : RunEnd
  pub ran_at : ℕ

-- The answer, and whether the check was run for it.
pub record Answer : Type 0 where
  pub set : GateSet
  pub ok : Bool
  pub ran : Bool

-- A cached result that still serves.
unfoldable pub usable : GateConfig → Ask → Option (ℕ × Bool) → Option Bool
usable cfg a none = none
usable cfg a (some (stamp, ok)) =
    if not a.refresh && ltb (a.asked_at - stamp) cfg.recheck_seconds then some ok else none

-- `_check`; `none` is the `KeyError` of a gate that does not exist.
unfoldable pub check : GateSet → Ask → Option Answer
check s a = elim (get s.gates a.gate) [
  | none ↦ none
  | some cfg ↦ elim (usable cfg a (get s.cache a.gate)) [
    | some ok ↦ some (record { set = s; ok = ok; ran = false })
    | none ↦ some (record {
      set = record s { cache = put s.cache a.gate (a.ran_at, run_check a.ends) };
      ok = run_check a.ends;
      ran = true;
    })
  ]
]

-- The answers to a list of questions, in order, and the state after them.
unfoldable pub check_each : GateSet → List Ask → Option (GateSet × List (Str × Bool))
check_each s [] = some (s, [])
check_each s (a ∷ asks) = elim (check s a) [
  | none ↦ none
  | some r ↦ elim (check_each r.set asks) [
    | none ↦ none
    | some (s', rest) ↦ some (s', (a.gate, r.ok) ∷ rest)
  ]
]

abbrev pub failing_of : List (Str × Bool) → List Str
failing_of [] = []
failing_of ((n, ok) ∷ rest) = let more = failing_of rest in if ok then more else n ∷ more

-- `satisfied`: whether all of the gates pass, and the failing ones.
unfoldable pub satisfied : GateSet → List Ask → Option (GateSet × Bool × List Str)
satisfied s asks = elim (check_each s asks) [
  | none ↦ none
  | some (s', answers) ↦ some (s', not (nonempty (failing_of answers)), failing_of answers)
]
