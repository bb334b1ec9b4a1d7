-- ===== src/System/Sessions.antt =====
-- ipsc2hbp.py: the HBP client follows the sessions of the IPSC side, from `hbp_client.start` to a
-- signal.
use ipsc2hbp.Base.{List, [], ◌∷◌}
use ipsc2hbp.Hbp.Client
use ipsc2hbp.Hbp.Client.{Client, LoopState, is_ended, init_client}
use ipsc2hbp.System.{World, System, is_registered, hbp_datagrams}
use ipsc2hbp.System.Wiring.{stack_datagram, stack_watchdog, stack_maintenance}
use ipsc2hbp.System.Loop.{
  on_event, run, Event, ipsc_datagram, ipsc_watchdog, ipsc_maintenance, hbp_datagram, hbp_error,
  hbp_keepalive, drain_due, loop_started, endpoint_up, endpoint_failed, connection_lost, slept,
  signal, client_started, cancel_delivered, loop_left,
}
use ipsc2hbp.System.InStep.{
  stack_datagram-Reports, stack_watchdog-Reports, stack_maintenance-Reports, InStep,
  set_stack-InStep, on_connection-InStep, on_drain-InStep, turn-InStep, loop-Tracks, at_loop-InStep,
}

-- What is called between `hbp_client.start` and the first signal: neither of them, nor what
-- follows a signal.
abbrev pub IsBeforeStop : Event → Type 0
IsBeforeStop client_started = ⊥
IsBeforeStop cancel_delivered = ⊥
IsBeforeStop (signal at) = ⊥
IsBeforeStop (loop_left at) = ⊥
IsBeforeStop _ = Unit {0}

abbrev pub AreBeforeStop : List Event → Type 0
AreBeforeStop [] = Unit {0}
AreBeforeStop (e ∷ es) = IsBeforeStop e × AreBeforeStop es

module _ (w : World) where
  on_event-InStep :
      (e : Event) (s : System) → IsBeforeStop e → InStep w s → InStep w (on_event w e s).0
  unfolding on_event
  on_event-InStep (ipsc_datagram at d host port) s before h =
      (set_stack-InStep w at (stack_datagram w at.now d host port s.stack) s h
        (stack_datagram-Reports w at.now d host port s.stack h.reported))
  on_event-InStep (ipsc_watchdog at) s before h =
      (set_stack-InStep w at (stack_watchdog w at.now s.stack) s h
        (stack_watchdog-Reports w at.now s.stack h.reported))
  on_event-InStep (ipsc_maintenance at) s before h =
      (set_stack-InStep w at (stack_maintenance w at.now s.stack) s h
        (stack_maintenance-Reports w at.now s.stack h.reported))
  on_event-InStep (hbp_datagram at d) s before h = (on_connection-InStep w at _ s h)
  on_event-InStep (hbp_error at) s before h = (on_connection-InStep w at _ s h)
  on_event-InStep (hbp_keepalive at) s before h = (on_connection-InStep w at _ s h)
  on_event-InStep (drain_due ts now after) s before h = (on_drain-InStep w ts now after s h)
  on_event-InStep loop_started s before h =
      let t = (loop-Tracks w (is_registered s.stack) s.client h.tracks).0 in
      (at_loop-InStep w LoopState.starting (record s { client = Client.loop_head s.client }, []) s h
        (turn-InStep w s (Client.loop_head s.client) h t))
  on_event-InStep endpoint_up s before h =
      let t = (loop-Tracks w (is_registered s.stack) s.client h.tracks).3 in
      (at_loop-InStep w LoopState.opening
        (
          record s { client = (Client.opened w.cfg s.client).0 },
          hbp_datagrams (Client.opened w.cfg s.client).1,
        )
        s h (turn-InStep w s ((Client.opened w.cfg s.client).0) h t))
  on_event-InStep endpoint_failed s before h =
      let t = (loop-Tracks w (is_registered s.stack) s.client h.tracks).1 in
      (at_loop-InStep w LoopState.opening (record s { client = Client.loop_tail s.client }, []) s h
        (turn-InStep w s (Client.loop_tail s.client) h t))
  on_event-InStep connection_lost s before h =
      let t = (loop-Tracks w (is_registered s.stack) s.client h.tracks).2 in
      turn-InStep w s (Client.connection_lost s.client) h t
  on_event-InStep slept s before h =
      let t = (loop-Tracks w (is_registered s.stack) s.client h.tracks).0 in
      (at_loop-InStep w LoopState.sleeping (record s { client = Client.loop_head s.client }, []) s h
        (turn-InStep w s (Client.loop_head s.client) h t))
  on_event-InStep client_started s before h = absurd before
  on_event-InStep cancel_delivered s before h = absurd before
  on_event-InStep (signal at) s before h = absurd before
  on_event-InStep (loop_left at) s before h = absurd before

  pub run-InStep :
      (es : List Event) (s : System) → AreBeforeStop es → InStep w s → InStep w (run w es s).0
  unfolding run
  run-InStep [] s before h = h
  run-InStep (e ∷ es) s (one, rest) h =
      run-InStep es (on_event w e s).0 rest (on_event-InStep e s one h)
