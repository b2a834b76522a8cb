-- ===== src/Orchestrator/Service/Requests.antt =====
-- What spends restart budget, and requests that meet one another.
use jetty.Prelude.{
  ℕ, ◌+◌, Bool, false, not, some, List, [], ◌∷◌, ◌≡◌, refl, ap, ◌∙◌, ◌&&◌, ◌||◌, contains, nonempty,
  length, keep, ltb, ◌++◌, ◌-◌, inl, inr, Bool-cases, Option-cases, arith, if◌then◌else◌,
}
use jetty.Prelude.Text.{Str}
use jetty.Orchestrator.Config.Model.{ServiceConfig, RestartConfig, ExitCode, exit_code_eq}
use jetty.Orchestrator.Service.{
  Service, Turn, Wake, stop_wake, poll, block_loop, block, run_once, run_attempt, recent,
  backoff_delay, count_crash, classify, after_exit, turn, attempt_code, Attempt, no_spawn, exits,
  blocked,
}
use jetty.Orchestrator.Service.Crashes.{IsIdle, unprompted}

-- The exits that spend budget: the gates are open, nobody asked for the exit, the code is worth
-- retrying and the gates are still open.
abbrev pub spends : ServiceConfig → List Str → Turn → Bool
spends cfg requires t =
    not (nonempty requires && nonempty t.failing_before)
    && not t.stop_seen
    && unprompted t.attempt
    && not (contains cfg.restart.no_restart_exit (attempt_code t.attempt))
    && not (nonempty requires && nonempty t.failing_after)

-- The counter and the list of the crashes that count.
abbrev pub Spent : Type 0
Spent = ℕ × List ℕ

abbrev pub spent : Service → Spent
spent s = (s.restarts, s.fail_times)

-- One more crash: those of the last window stay on the list.
abbrev pub spend : RestartConfig → ℕ → Spent → Spent
spend cfg now (n, times) = (n + 1, keep (λ t. ltb (now - t) cfg.window_seconds) times ++ now ∷ [])

spent-block_loop : (wakes : List Wake) (s : Service) → spent (block_loop wakes s).0 ≡ spent s
unfolding block_loop
spent-block_loop [] s = refl
spent-block_loop (stop_wake ∷ wakes) s = refl
spent-block_loop (poll [] ∷ wakes) s = refl
spent-block_loop (poll (g ∷ gs) ∷ wakes) s =
    spent-block_loop wakes (record s { blocked_on = g ∷ gs })

spent-count :
    (cfg : RestartConfig) (code : ExitCode) (t : Turn) (s : Service)
    → spent (count_crash cfg code t s).0 ≡ spend cfg t.now (spent s)
unfolding count_crash recent
spent-count cfg code t s =
    let times : List ℕ = recent cfg t.now s.fail_times in
    elim (Bool-cases (ltb cfg.max_restarts (length times))) [
      | inl e ↦ rw e refl
      | inr e ↦ elim (Option-cases (backoff_delay cfg (length times))) [
        | inl d ↦ rw (e, d) refl
        | inr (delay, d) ↦ rw (e, d) refl
      ]
    ]

-- The flags after an attempt of an idle service.
flags-attempt :
    (stop_seen : Bool) (a : Attempt) (s : Service)
    → IsIdle s
    → ((run_attempt stop_seen a s).stop_event ≡ stop_seen)
      × (((run_attempt stop_seen a s).gate_stop || (run_attempt stop_seen a s).bounce_requested)
          ≡ not (unprompted a))
unfolding run_attempt
flags-attempt stop_seen no_spawn s h = (ground arith, ground arith)
flags-attempt stop_seen (exits r g b c) s h = (ground arith, ground arith)

spent-attempt :
    (stop_seen : Bool) (a : Attempt) (s : Service) → spent (run_attempt stop_seen a s) ≡ spent s
unfolding run_attempt
spent-attempt stop_seen no_spawn s = refl
spent-attempt stop_seen (exits r g b c) s = refl

either : (p q r p' q' : Bool) → p ≡ p' → (q || r) ≡ q' → (p || q || r) ≡ (p' || q')
either p q r p' q' e f = ground (arith, e, f)

choose :
    (b b' : Bool) (x y x' y' : Spent)
    → b ≡ b'
    → x ≡ x'
    → y ≡ y'
    → (if b then x else y) ≡ (if b' then x' else y')
choose b b' x y x' y' e f g = cc

open_spends :
    (c p u n g : Bool) (x y : Spent)
    → c ≡ false
    → (if p || not u then y else if not n && not g then x else y)
      ≡ (if not c && not p && u && not n && not g then x else y)
open_spends c p u n g x y e = ground arith

module _ (cfg : ServiceConfig) (requires : List Str) where
  spent-after_exit :
      (t : Turn) (s : Service)
      → spent (after_exit cfg requires t s).0 ≡ (
          if s.stop_event || s.gate_stop || s.bounce_requested
          then spent s
          else spent (classify cfg requires t s).0)
  unfolding after_exit
  spent-after_exit t s = ground arith

  -- What an exit that nobody asked for makes of the budget.
  abbrev classified : Turn → Spent → Spent
  classified t b =
      if not (contains cfg.restart.no_restart_exit (attempt_code t.attempt))
        && not (nonempty requires && nonempty t.failing_after)
      then spend cfg.restart t.now b
      else b

  spent-classify :
      (t : Turn) (s : Service) → spent (classify cfg requires t s).0 ≡ classified t (spent s)
  unfolding classify
  spent-classify t s = ground (
    arith,
    spent-count cfg.restart (attempt_code t.attempt) t (record s {
      last_exit = some (attempt_code t.attempt);
      stop_event = s.stop_event || t.stop_after;
    }),
  )

  spent-ran :
      (t : Turn) (s : Service)
      → IsIdle s
      → spent (after_exit cfg requires t (run_attempt t.stop_seen t.attempt s)).0
        ≡ (if t.stop_seen || not (unprompted t.attempt) then spent s else classified t (spent s))
  spent-ran t s h =
      let flags = flags-attempt t.stop_seen t.attempt s h in
      let ran : Service = run_attempt t.stop_seen t.attempt s in
      let same = spent-attempt t.stop_seen t.attempt s in
      spent-after_exit t ran
      ∙ choose (ran.stop_event || ran.gate_stop || ran.bounce_requested)
          (t.stop_seen || not (unprompted t.attempt)) _ _ _ _
          (either ran.stop_event ran.gate_stop ran.bounce_requested t.stop_seen
            (not (unprompted t.attempt)) flags.0 flags.1)
          same (spent-classify t ran ∙ ap (classified t) same)

  -- What a turn of an idle service makes of its restart budget: when the gates are closed before
  -- the run, the crashes of the past are forgiven; when the exit spends budget, it is counted and
  -- put on the list of the crashes of the last window; and else, for a stop, a closed continuous
  -- gate, a bounce, a code that ends it all or gates that are closed after the exit, the counter
  -- and the list stay as they are.
  pub turn-spent :
      (t : Turn) (s : Service)
      → IsIdle s
      → spent (turn cfg requires t s).0 ≡ (
          if nonempty requires && nonempty t.failing_before
          then (s.restarts, [])
          else if spends cfg requires t
          then spend cfg.restart t.now (spent s)
          else spent s)
  unfolding turn run_once block
  turn-spent t s h = elim (Bool-cases (nonempty requires && nonempty t.failing_before)) [
    | inl e ↦ rw e (
        spent-block_loop t.wakes
          (record s { blocked_on = t.failing_before; fail_times = []; state = blocked }))
    | inr e ↦ rw e (
        spent-ran t s h
        ∙ open_spends false t.stop_seen (unprompted t.attempt)
            (contains cfg.restart.no_restart_exit (attempt_code t.attempt))
            (nonempty requires && nonempty t.failing_after) (spend cfg.restart t.now (spent s))
            (spent s) refl)
  ]
