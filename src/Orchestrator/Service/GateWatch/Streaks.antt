-- ===== src/Orchestrator/Service/GateWatch/Streaks.antt =====
-- A streak is the number of failed runs, in a row and counted once each, up to now.
use mathlib.Core.List.{append-nil}
use jetty.Prelude.{
  ℕ, ◌+◌, ◌≤◌, Bool, true, false, not, Option, some, List, [], ◌∷◌, ◌++◌, ◌==◌, ◌≡◌, refl, ap, sym,
  ◌∙◌, ◌&&◌, leb, arith, contains, nonempty, if◌then◌else◌, Bool-cases, inl, inr,
}
use jetty.Prelude.Dict.{get, get_or, get-put}
use jetty.Prelude.Text.{Str, str_eq}
use jetty.Orchestrator.Service.GateWatch.{
  Result, Poll, Watch, already, count_result, count_results, closed_gates, watch_gates,
}

-- The runs of one gate among the results: an entry with the stamp of the last run is no new run.
abbrev pub runs_of : Str → Option ℕ → List Result → List Bool
runs_of gate last [] = []
runs_of gate last (r ∷ rs) =
    let mine = runs_of gate (some r.stamp) rs in
    let others = runs_of gate last rs in
    if r.gate == gate && not (already last r.stamp) then r.ok ∷ mine else others

-- How many of the runs fail, counted from the last one back to the first that passes.
abbrev pub trailing_from : ℕ → List Bool → ℕ
trailing_from n [] = n
trailing_from n (true ∷ oks) = trailing_from 0 oks
trailing_from n (false ∷ oks) = trailing_from (n + 1) oks

streak-step :
    (w : Watch) (r : Result) (gate : Str)
    → (r.gate == gate && not (already (get w.counted gate) r.stamp)) ≡ true
    → (get_or (count_result w r).streaks gate 0 ≡ (if r.ok then 0 else get_or w.streaks gate 0 + 1))
      × (get (count_result w r).counted gate ≡ some r.stamp)
unfolding count_result
streak-step w r gate h = ground (
  arith,
  get-put w.streaks r.gate gate (if r.ok then 0 else get_or w.streaks r.gate 0 + 1),
  get-put w.counted r.gate gate r.stamp,
)

streak-skip :
    (w : Watch) (r : Result) (gate : Str)
    → (r.gate == gate && not (already (get w.counted gate) r.stamp)) ≡ false
    → (get_or (count_result w r).streaks gate 0 ≡ get_or w.streaks gate 0)
      × (get (count_result w r).counted gate ≡ get w.counted gate)
unfolding count_result
streak-skip w r gate h = ground (
  arith,
  get-put w.streaks r.gate gate (if r.ok then 0 else get_or w.streaks r.gate 0 + 1),
  get-put w.counted r.gate gate r.stamp,
)

trailing-cons :
    (n : ℕ) (ok : Bool) (oks : List Bool)
    → trailing_from n (ok ∷ oks) ≡ trailing_from (if ok then 0 else n + 1) oks
trailing-cons n true oks = refl
trailing-cons n false oks = refl

streak-from :
    (w : Watch) (rs : List Result) (gate : Str)
    → get_or (count_results w rs).streaks gate 0
      ≡ trailing_from (get_or w.streaks gate 0) (runs_of gate (get w.counted gate) rs)
unfolding count_results
streak-from w [] gate = refl
streak-from w (r ∷ rs) gate =
    let ih = streak-from (count_result w r) rs gate in
    elim (Bool-cases (r.gate == gate && not (already (get w.counted gate) r.stamp))) [
      | inl e ↦
          let now = streak-step w r gate e in
          ih
          ∙ (rw (now.0, now.1, e)
              (sym (trailing-cons (get_or w.streaks gate 0) r.ok (runs_of gate (some r.stamp) rs))))
      | inr e ↦ let now = streak-skip w r gate e in ih ∙ (rw (now.0, now.1, e) refl)
    ]

closed-streak :
    (close_after : Str → ℕ) (w : Watch) (rs : List Result) (gate : Str)
    → contains (closed_gates close_after w rs) gate ≡ true
    → close_after gate ≤ get_or w.streaks gate 0
unfolding closed_gates
closed-streak close_after w [] gate h = cc
closed-streak close_after w (r ∷ rs) gate h =
    let here : leb (close_after r.gate) (get_or w.streaks r.gate 0) ≡ true
        → close_after r.gate ≤ get_or w.streaks r.gate 0 =
      λ e. ground arith in
    elim (Bool-cases (not r.ok && leb (close_after r.gate) (get_or w.streaks r.gate 0))) [
      | inr e ↦ closed-streak close_after w rs gate (ground arith)
      | inl e ↦ elim (str_eq.dec gate r.gate) [
        | yes q ↦ rw q (here (ground arith))
        | no q ↦ closed-streak close_after w rs gate (ground arith)
      ]
    ]

-- All results of some polls, in order.
abbrev pub all_results : List Poll → List Result
all_results [] = []
all_results (poll ∷ polls) = poll.results ++ all_results polls

-- What a closure rests on: the polls up to it, in which the last runs of the gate all failed,
-- counted once each, and are at least `close_after` of them.
pub record Closure (close_after : Str → ℕ) (w : Watch) (polls : List Poll) (gate : Str)
    : Type 0 where
  pub seen : List Poll
  pub later : List Poll
  pub split : polls ≡ seen ++ later
  pub failed :
      close_after gate
      ≤ trailing_from
          (get_or w.streaks gate 0)
          (runs_of gate (get w.counted gate) (all_results seen))

count_results-append :
    (w : Watch) (xs ys : List Result)
    → count_results w (xs ++ ys) ≡ count_results (count_results w xs) ys
unfolding count_results
count_results-append w [] ys = refl
count_results-append w (x ∷ xs) ys = count_results-append (count_result w x) xs ys

streak-after :
    (w : Watch) (rs rest : List Result) (gate : Str)
    → trailing_from
        (get_or (count_results w rs).streaks gate 0)
        (runs_of gate (get (count_results w rs).counted gate) rest)
      ≡ trailing_from (get_or w.streaks gate 0) (runs_of gate (get w.counted gate) (rs ++ rest))
streak-after w rs rest gate =
    sym (streak-from (count_results w rs) rest gate)
    ∙ (ap (λ (x : Watch). get_or x.streaks gate 0) (sym (count_results-append w rs rest))
        ∙ streak-from w (rs ++ rest) gate)

from_closed :
    (before after nonempty_closed : Bool) (closed rest : List Str) (gate : Str)
    → nonempty_closed ≡ true
    → contains
        (if before then [] else if nonempty_closed then (if after then [] else closed) else rest)
        gate
      ≡ true
    → contains closed gate ≡ true
from_closed before after b closed rest gate e h = ground arith

from_rest :
    (before b : Bool) (then_closed rest : List Str) (gate : Str)
    → b ≡ false
    → contains (if before then [] else if b then then_closed else rest) gate ≡ true
    → contains rest gate ≡ true
from_rest before b closed rest gate e h = ground arith

-- A gate closes a running service only after its last `close_after` check runs have all failed,
-- where a result served from the cache counts as no new run.
pub watch_gates-Closure :
    (close_after : Str → ℕ) (w : Watch) (polls : List Poll) (gate : Str)
    → contains (watch_gates close_after w polls) gate ≡ true
    → Closure close_after w polls gate
unfolding watch_gates
watch_gates-Closure close_after w [] gate h = cc
watch_gates-Closure close_after w (poll ∷ polls) gate h =
    elim (Bool-cases
      (nonempty (closed_gates close_after (count_results w poll.results) poll.results))) [
        | inl e ↦ record {
          seen = poll ∷ [];
          later = polls;
          split = refl;
          failed =
              rw (append-nil, ← streak-from w poll.results gate)
                (closed-streak close_after (count_results w poll.results) poll.results gate
                  (from_closed poll.over_before poll.over_after _ _ _ gate e h));
        }
        | inr e ↦
            let found =
              watch_gates-Closure close_after (count_results w poll.results) polls gate
                (from_rest poll.over_before _ _ _ gate e h) in
            record {
              seen = poll ∷ found.seen;
              later = found.later;
              split = ap (◌∷◌ poll) found.split;
              failed =
                  rw (← streak-after w poll.results (all_results found.seen) gate) found.failed;
            }
      ]
