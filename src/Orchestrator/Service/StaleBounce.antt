-- ===== src/Orchestrator/Service/StaleBounce.antt =====
-- A bounce that is requested while a continuous gate closes outlives its incarnation.
use jetty.Prelude.{
  Bool, true, false, List, ◌≡◌, refl, ap, ◌∙◌, ◌&&◌, ◌||◌, nonempty, arith, if_true, if_false,
}
use jetty.Prelude.Text.{Str}
use jetty.Orchestrator.Config.Model.{ServiceConfig, ExitCode}
use jetty.Orchestrator.Service.{
  Service, Turn, again, run_once, run_attempt, after_exit, turn, Attempt, no_spawn, exits, restart,
}
use jetty.Orchestrator.Service.Crashes.{IsCrash, IsIdle, unprompted}

abbrev gate_closed_in : Attempt → Bool
gate_closed_in no_spawn = false
gate_closed_in (exits r g b c) = g

abbrev bounced_in : Attempt → Bool
bounced_in no_spawn = false
bounced_in (exits r g b c) = b

-- What an attempt makes of the fields.
record Ran (stop_seen : Bool) (a : Attempt) (s r : Service) : Type 0 where
  stops : r.stop_event ≡ (s.stop_event || stop_seen)
  gates : r.gate_stop ≡ (s.gate_stop || gate_closed_in a)
  bounces : r.bounce_requested ≡ (s.bounce_requested || bounced_in a)
  restarts : r.restarts ≡ s.restarts
  delays : r.delays ≡ s.delays

run_attempt-Ran :
    (stop_seen : Bool) (a : Attempt) (s : Service) → Ran stop_seen a s (run_attempt stop_seen a s)
unfolding run_attempt
run_attempt-Ran stop_seen no_spawn s = ground arith
run_attempt-Ran stop_seen (exits r g b c) s = ground arith

module _ (cfg : ServiceConfig) (requires : List Str) where
  -- A turn in which the gate watcher closed the incarnation.
  turn-gate :
      (t : Turn) (s : Service)
      → (nonempty requires && nonempty t.failing_before) ≡ false
      → (run_attempt t.stop_seen t.attempt s).stop_event ≡ false
      → (run_attempt t.stop_seen t.attempt s).gate_stop ≡ true
      → turn cfg requires t s
        ≡ (record (run_attempt t.stop_seen t.attempt s) { gate_stop = false }, again)
  unfolding turn run_once after_exit
  turn-gate t s a b c = if_false _ _ a ∙ (if_false _ _ b ∙ if_true _ _ c)

  -- A turn whose exit is taken for a bounce.
  turn-bounce :
      (t : Turn) (s : Service)
      → (nonempty requires && nonempty t.failing_before) ≡ false
      → (run_attempt t.stop_seen t.attempt s).stop_event ≡ false
      → (run_attempt t.stop_seen t.attempt s).gate_stop ≡ false
      → (run_attempt t.stop_seen t.attempt s).bounce_requested ≡ true
      → turn cfg requires t s
        ≡ (record (run_attempt t.stop_seen t.attempt s) { bounce_requested = false }, again)
  unfolding turn run_once after_exit
  turn-bounce t s a b c d = if_false _ _ a ∙ (if_false _ _ b ∙ (if_false _ _ c ∙ if_true _ _ d))

  -- The state that such a turn leaves.
  record Pending (s s' : Service) : Type 0 where
    no_stop : s'.stop_event ≡ false
    no_gate_stop : s'.gate_stop ≡ false
    bounce : s'.bounce_requested ≡ true
    restarts : s'.restarts ≡ s.restarts
    delays : s'.delays ≡ s.delays

  turn-Pending :
      (t : Turn) (s : Service) (became_ready : Bool) (code : ExitCode)
      → IsIdle s
      → (nonempty requires && nonempty t.failing_before) ≡ false
      → t.stop_seen ≡ false
      → t.attempt ≡ exits became_ready true true code
      → Pending s (turn cfg requires t s).0
  turn-Pending t s became_ready code h open_before no_stop both =
      let ran = run_attempt-Ran t.stop_seen t.attempt s in
      let gate : gate_closed_in t.attempt ≡ true = ap gate_closed_in both in
      let bounce : bounced_in t.attempt ≡ true = ap bounced_in both in
      let stays : (run_attempt t.stop_seen t.attempt s).stop_event ≡ false =
        ground (arith, ran.stops, h.no_stop) in
      rw (turn-gate t s open_before stays (ground (arith, ran.gates))) (record {
        no_stop = stays;
        no_gate_stop = refl;
        bounce = ground (arith, ran.bounces);
        restarts = ran.restarts;
        delays = ran.delays;
      })

  own_exit-flags : (a : Attempt) → unprompted a ≡ true → gate_closed_in a ≡ false
  own_exit-flags no_spawn e = refl
  own_exit-flags (exits r g b c) e = ground arith

  crash-Pending :
      (t : Turn) (s s' : Service)
      → Pending s s'
      → IsCrash cfg requires t
      → ((turn cfg requires t s').0.restarts ≡ s.restarts)
        × ((turn cfg requires t s').0.delays ≡ s.delays)
        × ((turn cfg requires t s').1 ≡ again)
  crash-Pending t s s' p c =
      let ran = run_attempt-Ran t.stop_seen t.attempt s' in
      let own = own_exit-flags t.attempt c.own_exit in
      rw
        (turn-bounce t s' c.open_before (ground (arith, ran.stops, p.no_stop, c.running_on))
          (ground (arith, ran.gates, p.no_gate_stop, own)) (ground (arith, ran.bounces, p.bounce)))
        (ran.restarts ∙ p.restarts, ran.delays ∙ p.delays, refl)

  restart-Pending : (s s' : Service) → Pending s s' → (restart true s').1 ≡ false
  unfolding restart
  restart-Pending s s' p =
      let held : (s'.stop_event || s'.bounce_requested) ≡ true = ground (arith, p.bounce) in
      ap (λ (r : Service × Bool). r.1) (if_true _ _ held)

  -- When a continuous gate closes and a bounce is requested of the same incarnation of an idle
  -- service, the bounce stays pending after the turn: a later request to bounce a running process
  -- is ignored, and the next crash, that nobody asked for, spends no budget and has no delay.
  pub stale_bounce :
      (t next : Turn) (s : Service) (became_ready : Bool) (code : ExitCode)
      → IsIdle s
      → (nonempty requires && nonempty t.failing_before) ≡ false
      → t.stop_seen ≡ false
      → t.attempt ≡ exits became_ready true true code
      → IsCrash cfg requires next
      → ((restart true (turn cfg requires t s).0).1 ≡ false)
        × ((turn cfg requires next (turn cfg requires t s).0).0.restarts ≡ s.restarts)
        × ((turn cfg requires next (turn cfg requires t s).0).0.delays ≡ s.delays)
  stale_bounce t next s became_ready code h open_before no_stop both crash =
      let pending = turn-Pending t s became_ready code h open_before no_stop both in
      let after = crash-Pending next s (turn cfg requires t s).0 pending crash in
      (restart-Pending s (turn cfg requires t s).0 pending, after.0, after.1)
