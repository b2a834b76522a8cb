-- ===== src/Orchestrator/Service/GateWatch.antt =====
-- `_watch_continuous_gates` of service.py: streaks of failed checks, each run counted once.
pub mod Streaks
use jetty.Prelude.{
  ℕ, zero, suc, ◌+◌, Bool, true, false, not, Option, none, some, List, [], ◌∷◌, ◌++◌, ◌==◌, ◌&&◌,
  leb, eqb, nonempty, if◌then◌else◌,
}
use jetty.Prelude.Dict.{Dict, get, get_or, put}
use jetty.Prelude.Text.{Str, str_eq}

-- One entry of a poll: the gate, whether it passed, and the stamp of the run that says so.
pub record Result : Type 0 where
  pub gate : Str
  pub ok : Bool
  pub stamp : ℕ

pub record Watch : Type 0 where
  pub streaks : Dict Str ℕ
  pub counted : Dict Str ℕ

abbrev pub new_watch : Watch
new_watch = record { streaks = []; counted = [] }

-- `counted.get(name) == stamp`
abbrev pub already : Option ℕ → ℕ → Bool
already none stamp = false
already (some last) stamp = eqb last stamp

-- The body of the loop over the results.
unfoldable pub count_result : Watch → Result → Watch
count_result w r = if already (get w.counted r.gate) r.stamp then w else record {
  counted = put w.counted r.gate r.stamp;
  streaks = put w.streaks r.gate (if r.ok then 0 else get_or w.streaks r.gate 0 + 1);
}

unfoldable pub count_results : Watch → List Result → Watch
count_results w [] = w
count_results w (r ∷ rs) = count_results (count_result w r) rs

-- `[n for n, (ok, _) in results.items() if not ok and streaks.get(n, 0) >= close_after(n)]`
unfoldable pub closed_gates : (Str → ℕ) → Watch → List Result → List Str
closed_gates close_after w [] = []
closed_gates close_after w (r ∷ rs) =
    let rest = closed_gates close_after w rs in
    if not r.ok && leb (close_after r.gate) (get_or w.streaks r.gate 0) then r.gate ∷ rest else rest

-- One wake of the watcher: whether the incarnation is over or to be stopped, at the wake and
-- after the poll, and what the poll answers.
pub record Poll : Type 0 where
  pub over_before : Bool
  pub results : List Result
  pub over_after : Bool

-- The wakes of one incarnation: the gates that close it, or none if the watcher leaves it alone.
unfoldable pub watch_gates : (Str → ℕ) → Watch → List Poll → List Str
watch_gates close_after w [] = []
watch_gates close_after w (poll ∷ polls) =
    let w' = count_results w poll.results in
    let closed = closed_gates close_after w' poll.results in
    let rest = watch_gates close_after w' polls in
    if poll.over_before
    then []
    else if nonempty closed
    then (if poll.over_after then [] else closed)
    else rest
