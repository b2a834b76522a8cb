-- ===== src/Orchestrator/Service/Limit.antt =====
-- A crash loop ends the instance exactly at the limit, and rare crashes never do.
use mathlib.Core.Path.{subst}
use jetty.Prelude.{
  ℕ, ◌+◌, ◌-◌, ◌≤◌, ◌<◌, none, List, [], ◌∷◌, ◌++◌, ◌≡◌, inl, inr, refl, ap, ◌∙◌, ltb, keep, length,
  arith, if_rule, Bool-cases, length-append,
}
use jetty.Prelude.Text.{Str}
use jetty.Orchestrator.Config.Model.{ServiceConfig, RestartConfig, exit_code_eq}
use jetty.Orchestrator.Service.{
  Service, Turn, Flow, waiting, finished, raised, recent, turn, run_loop,
}
use jetty.Orchestrator.Service.Crashes.{
  IsCrash, IsIdle, Failed, Overflowed, crash-Overflowed, crash-Restarted, crash-Failed, loop-on,
  loop-over, Within, CrashesWithin, recent-all, Within-snoc,
}

module _ (cfg : ServiceConfig) (requires : List Str) (base : ℕ) where
  -- With `max_restarts` at most 1024, from an idle service whose counted crashes all lie in one
  -- window and are at most `max_restarts`: a run of crashes in the same window that brings their
  -- number above `max_restarts` ends with the service `failed` and the failure told, and `restarts`
  -- has grown by exactly the number of crashes that the limit still allowed, and one.
  pub crash_loop-fails :
      (turns : List Turn) (s : Service)
      → cfg.restart.max_restarts ≤ 1024
      → IsIdle s
      → Within base (base + cfg.restart.window_seconds) s.fail_times
      → length s.fail_times ≤ cfg.restart.max_restarts
      → CrashesWithin cfg requires base (base + cfg.restart.window_seconds) turns
      → cfg.restart.max_restarts < length s.fail_times + length turns
      → Failed cfg requires
          (s.restarts + (cfg.restart.max_restarts + 1 - length s.fail_times))
          (run_loop cfg requires turns s)
  crash_loop-fails [] s small h w l c n = absurd (omega arith)
  crash_loop-fails (t ∷ turns) s small h w l c n =
      let all_of = recent-all cfg.restart base t.now s.fail_times w c.2 in
      let grown : length (recent cfg.restart t.now s.fail_times) ≡ length s.fail_times + 1 =
        rw all_of (length-append s.fail_times (t.now ∷ [])) in
      elim (Bool-cases (ltb (length s.fail_times) cfg.restart.max_restarts)) [
        | inl left ↦
            let next =
              crash-Restarted cfg requires t s (recent cfg.restart t.now s.fail_times) h c.0 refl
                (ground arith) (ground arith) in
            let size : length (turn cfg requires t s).0.fail_times ≡ length s.fail_times + 1 =
              ap (length {A = ℕ}) next.times_kept ∙ grown in
            let ends =
              crash_loop-fails turns (turn cfg requires t s).0 small next.idle
                (rw (next.times_kept, all_of)
                  (Within-snoc base (base + cfg.restart.window_seconds) s.fail_times t.now w c.1
                    c.2))
                (ground arith) c.3 (ground arith) in
            rw (loop-on cfg requires t turns s h next.goes_on) (
              subst
                (λ n. Failed cfg requires n (run_loop cfg requires turns (turn cfg requires t s).0))
                (ground (arith, next.counted)) ends)
        | inr full ↦
            let fails = crash-Failed cfg requires t s h c.0 (ground arith) in
            rw (loop-over cfg requires finished t turns s h (inl refl) fails.over) (record {
              over = refl;
              marked = fails.marked;
              told = fails.told;
              counted = fails.counted ∙ ground arith;
            })
      ]

module _ (cfg : ServiceConfig) (requires : List Str) (base : ℕ) where
  -- With `max_restarts` above 1024, from an idle service whose counted crashes all lie in one window
  -- and are at most 1024: a run of crashes in the same window that brings their number above 1024
  -- ends the loop with the `OverflowError` of the delay. No failure is told, and `restarts` has
  -- grown up to the 1025th crash in the window, short of the limit.
  pub crash_loop-overflows :
      (turns : List Turn) (s : Service)
      → 1024 < cfg.restart.max_restarts
      → IsIdle s
      → Within base (base + cfg.restart.window_seconds) s.fail_times
      → length s.fail_times ≤ 1024
      → CrashesWithin cfg requires base (base + cfg.restart.window_seconds) turns
      → 1024 < length s.fail_times + length turns
      → Overflowed cfg requires
          (s.restarts + (1025 - length s.fail_times))
          (run_loop cfg requires turns s)
  crash_loop-overflows [] s large h w l c n = absurd (omega arith)
  crash_loop-overflows (t ∷ turns) s large h w l c n =
      let all_of = recent-all cfg.restart base t.now s.fail_times w c.2 in
      let grown : length (recent cfg.restart t.now s.fail_times) ≡ length s.fail_times + 1 =
        rw all_of (length-append s.fail_times (t.now ∷ [])) in
      elim (Bool-cases (ltb (length s.fail_times) 1024)) [
        | inl left ↦
            let next =
              crash-Restarted cfg requires t s (recent cfg.restart t.now s.fail_times) h c.0 refl
                (ground arith) (ground arith) in
            let size : length (turn cfg requires t s).0.fail_times ≡ length s.fail_times + 1 =
              ap (length {A = ℕ}) next.times_kept ∙ grown in
            let ends =
              crash_loop-overflows turns (turn cfg requires t s).0 large next.idle
                (rw (next.times_kept, all_of)
                  (Within-snoc base (base + cfg.restart.window_seconds) s.fail_times t.now w c.1
                    c.2))
                (ground arith) c.3 (ground arith) in
            rw (loop-on cfg requires t turns s h next.goes_on) (
              subst
                (λ n.
                  Overflowed cfg requires n (run_loop cfg requires turns (turn cfg requires t s).0))
                (ground (arith, next.counted)) ends)
        | inr full ↦
            let ends = crash-Overflowed cfg requires t s h c.0 (ground arith) (ground arith) in
            rw (loop-over cfg requires raised t turns s h (inr refl) ends.over)
              (record { over = refl; untold = ends.untold; counted = ends.counted ∙ ground arith })
      ]

-- Every turn is a crash, at least `window` after the one before and after `last`.
abbrev pub CrashesApart : ServiceConfig → List Str → ℕ → List Turn → Type 0
CrashesApart cfg requires last [] = Unit
CrashesApart cfg requires last (t ∷ turns) =
    IsCrash cfg requires t
    × (last + cfg.restart.window_seconds ≤ t.now)
    × CrashesApart cfg requires t.now turns

-- No number of the list is above `last`.
abbrev pub UpTo : ℕ → List ℕ → Type 0
UpTo last [] = Unit
UpTo last (x ∷ xs) = (x ≤ last) × UpTo last xs

recent-old :
    (cfg : RestartConfig) (last now : ℕ) (times : List ℕ)
    → UpTo last times
    → last + cfg.window_seconds ≤ now
    → recent cfg now times ≡ now ∷ []
unfolding recent
recent-old cfg last now times w l = ap (λ (xs : List ℕ). xs ++ now ∷ []) (none_kept times w)
  where
    none_kept : (xs : List ℕ) → UpTo last xs → keep (λ t. ltb (now - t) cfg.window_seconds) xs ≡ []
    none_kept [] v = refl
    none_kept (x ∷ xs) v = ground (arith, none_kept xs)

-- A service that never fails, however many crashes it counts.
pub record Lives (n : ℕ) (r : Service × Flow) : Type 0 where
  pub goes_on : r.1 ≡ waiting
  pub unfailed : r.0.failure ≡ none
  pub counted : r.0.restarts ≡ n

module _ (cfg : ServiceConfig) (requires : List Str) (allowed : 1 ≤ cfg.restart.max_restarts) where
  -- With `max_restarts` at least 1, crashes that are each at least `window_seconds` after the
  -- one before never fail the service: after any number of them it has restarted every time.
  pub rare_crashes-live :
      (turns : List Turn) (last : ℕ) (s : Service)
      → IsIdle s
      → UpTo last s.fail_times
      → CrashesApart cfg requires last turns
      → Lives (s.restarts + length turns) (run_loop cfg requires turns s)
  unfolding run_loop
  rare_crashes-live [] last s h u c =
      if_rule (Lives (s.restarts + 0)) s.stop_event (λ e. absurd (ground arith))
        (λ _. record { goes_on = refl; unfailed = h.no_failure; counted = omega arith })
  rare_crashes-live (t ∷ turns) last s h u c =
      let next =
        crash-Restarted cfg requires t s (t.now ∷ []) h c.0
          (recent-old cfg.restart last t.now s.fail_times u c.1) (omega arith) (omega arith) in
      let ends =
        rare_crashes-live turns t.now (turn cfg requires t s).0 next.idle
          (rw next.times_kept (omega arith)) c.2 in
      rw (loop-on cfg requires t turns s h next.goes_on) (
        subst (λ n. Lives n (run_loop cfg requires turns (turn cfg requires t s).0))
          (omega (arith, next.counted)) ends)
