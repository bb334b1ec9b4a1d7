-- ===== src/System/Opening.antt =====
-- ipsc2hbp.py: the time between the open endpoint and `hbp_client.start`.
use ipsc2hbp.Base.{
  ℕ, ◌≡◌, refl, sym, ◌∙◌, Bool, true, false, some, List, [], ◌∷◌, ◌++◌, arith, subst, if◌then◌else◌,
  Option-cases, inl, inr,
}
use ipsc2hbp.Config.{IpscMode}
use ipsc2hbp.Ipsc.Wire.{parse_group_voice_meta}
use ipsc2hbp.Ipsc.Auth
use ipsc2hbp.Ipsc.Master
use ipsc2hbp.Ipsc.Peer
use ipsc2hbp.Ipsc.PeerState.{init_peer}
use ipsc2hbp.Hbp.Protocol
use ipsc2hbp.Hbp.Protocol.{Protocol}
use ipsc2hbp.Hbp.Client
use ipsc2hbp.Hbp.Client.{Client, LoopState, init_client}
use ipsc2hbp.Translate.State.{
  Action, send_dmrd, send_to_peer, activate, deactivate, Timeslot, Translator,
}
use ipsc2hbp.Translate.Callbacks
use ipsc2hbp.System.{World, Moment, Stack, as_master, System, Output, is_registered, same_loop}
use ipsc2hbp.System.Wiring.{
  act, perform, callback, effect_raises, from_stack, from_stack_all, set_stack, on_connection,
  stack_datagram, stack_watchdog, stack_maintenance, peer_event,
}
use ipsc2hbp.System.Loop.{
  on_drain, is_due, on_event, run, open_stack, boot, Event, ipsc_datagram, ipsc_watchdog,
  ipsc_maintenance, hbp_datagram, hbp_error, hbp_keepalive, drain_due, loop_started, endpoint_up,
  endpoint_failed, connection_lost, slept, signal, client_started, cancel_delivered, loop_left,
}
use ipsc2hbp.System.Calls.{Tracks, ipsc_voice-SameParts, from_connection_all-SameParts}
use ipsc2hbp.System.InStep.{
  StackIsReported, Reports, stack_datagram-Reports, stack_watchdog-Reports,
  stack_maintenance-Reports, InStep,
}
use ipsc2hbp.System.Sessions.{IsBeforeStop, AreBeforeStop}

module _ (w : World) where
  act-stack : (a : Action) (s : System) → (act w a s).0.stack ≡ s.stack
  unfolding act
  act-stack (send_dmrd b) s = refl
  act-stack (send_to_peer b) s = refl
  act-stack activate s = refl
  act-stack deactivate s = refl

  perform-stack : (acts : List Action) (s : System) → (perform w acts s).0.stack ≡ s.stack
  unfolding perform
  perform-stack [] s = refl
  perform-stack (a ∷ acts) s = perform-stack acts (act w a s).0 ∙ act-stack a s

  callback-stack : (r : Translator × List Action) (s : System) → (callback w r s).0.stack ≡ s.stack
  callback-stack (t, acts) s = perform-stack acts (record s { translator = t })

  -- Whatever a stack does, the rest of the program leaves the stack alone.
  from_stack-stack :
      (at : Moment) (e : Auth.Effect) (s : System) → (from_stack w at e s).0.stack ≡ s.stack
  unfolding from_stack
  from_stack-stack at (Auth.sendto b host port) s = refl
  from_stack-stack at (Auth.peer_registered id host port) s =
      callback-stack (Callbacks.peer_registered w.cfg s.translator) s
  from_stack-stack at Auth.peer_lost s = callback-stack (Callbacks.peer_lost w.cfg s.translator) s
  from_stack-stack at (Auth.ipsc_voice_received d) s =
      (ipsc_voice-SameParts w at d (parse_group_voice_meta d) s).stack
  from_stack-stack at Auth.check_call_timeouts s =
      callback-stack (Callbacks.check_call_timeouts w.cfg at.now 10000000 s.translator, []) s

  from_stack_all-stack :
      (at : Moment) (es : List Auth.Effect) (s : System)
      → (from_stack_all w at es s).0.stack ≡ s.stack
  unfolding from_stack_all
  from_stack_all-stack at [] s = refl
  from_stack_all-stack at (e ∷ es) s =
      let one = from_stack-stack at e s in
      let rest = from_stack_all-stack at es (from_stack w at e s).0 in
      elim (effect_raises w e s)
        as (λ b.
          (if b then from_stack w at e s else (
            (from_stack_all w at es (from_stack w at e s).0).0,
            (from_stack w at e s).1 ++ (from_stack_all w at es (from_stack w at e s).0).1,
          )).0.stack
          ≡ s.stack) [ true ↦ one | false ↦ rest ∙ one ]

  abbrev IsReported : System → Type 0
  IsReported s = StackIsReported s.stack

  stack_event :
      (at : Moment) (up : Bool) (r : Stack × List Auth.Effect) (s : System)
      → Reports up r
      → IsReported (set_stack w at r s).0
  stack_event at up (k, es) s (f, rep) =
      subst StackIsReported (sym (from_stack_all-stack at es (record s { stack = k }))) rep

  connection_event :
      (at : Moment) (f : Protocol → Protocol × List Protocol.Effect) (s : System)
      → IsReported s
      → IsReported (on_connection w at f s).0
  connection_event at f s h = elim (Option-cases s.client.protocol) [
    | inl e ↦ rw (e, on_connection) h
    | inr (p, e) ↦
        rw (e, on_connection)
          (subst StackIsReported
            (sym
              (from_connection_all-SameParts w at (f p).1
                (record s { client = record s.client { protocol = some (f p).0 } })).stack)
            h)
  ]

  if-IsReported :
      (b : Bool) (r : System × List Output) (s : System)
      → IsReported r.0
      → IsReported s
      → IsReported (if b then r else (s, [])).0
  if-IsReported true r s h k = h
  if-IsReported false r s h k = k

  drain_event :
      (ts : Timeslot) (now after : ℕ) (s : System)
      → IsReported s
      → IsReported (on_drain w ts now after s).0
  unfolding on_drain
  drain_event ts now after s h =
      let r = Callbacks.drain_timer w.cfg now after ts s.translator in
      if-IsReported (is_due w now after (Callbacks.line ts s.translator).slot.pacer.tx_handle)
        (callback w r s) s (subst StackIsReported (sym (callback-stack r s)) h) h

  event-IsReported :
      (e : Event) (s : System) → IsBeforeStop e → IsReported s → IsReported (on_event w e s).0
  unfolding on_event
  event-IsReported (ipsc_datagram at d host port) s before h =
      stack_event at _ (stack_datagram w at.now d host port s.stack) s
        (stack_datagram-Reports w at.now d host port s.stack h)
  event-IsReported (ipsc_watchdog at) s before h =
      stack_event at _ (stack_watchdog w at.now s.stack) s
        (stack_watchdog-Reports w at.now s.stack h)
  event-IsReported (ipsc_maintenance at) s before h =
      stack_event at _ (stack_maintenance w at.now s.stack) s
        (stack_maintenance-Reports w at.now s.stack h)
  event-IsReported (hbp_datagram at d) s before h = connection_event at _ s h
  event-IsReported (hbp_error at) s before h = connection_event at _ s h
  event-IsReported (hbp_keepalive at) s before h = connection_event at _ s h
  event-IsReported (drain_due ts now after) s before h = drain_event ts now after s h
  event-IsReported loop_started s before h =
      if-IsReported (same_loop LoopState.starting s.client.loop) _ s h h
  event-IsReported endpoint_up s before h =
      if-IsReported (same_loop LoopState.opening s.client.loop) _ s h h
  event-IsReported endpoint_failed s before h =
      if-IsReported (same_loop LoopState.opening s.client.loop) _ s h h
  event-IsReported connection_lost s before h = h
  event-IsReported slept s before h =
      if-IsReported (same_loop LoopState.sleeping s.client.loop) _ s h h
  event-IsReported client_started s before h = absurd before
  event-IsReported cancel_delivered s before h = absurd before
  event-IsReported (signal at) s before h = absurd before
  event-IsReported (loop_left at) s before h = absurd before

  run-IsReported :
      (es : List Event) (s : System) → AreBeforeStop es → IsReported s → IsReported (run w es s).0
  unfolding run
  run-IsReported [] s before h = h
  run-IsReported (e ∷ es) s (one, rest) h =
      run-IsReported es (on_event w e s).0 rest (event-IsReported e s one h)

  boot-IsReported : IsReported (boot w).0
  unfolding boot open_stack Peer.connection_made
  boot-IsReported =
      elim w.cfg.ipsc_mode
        as (λ m.
          StackIsReported
            (let k : Stack × List Auth.Effect = elim m [
              | IpscMode.master ↦ (as_master (Master.connection_made Master.init_master), [])
              | IpscMode.peer ↦ peer_event w (Peer.connection_made w.cfg w.hmac (init_peer w.cfg))
            ] in
              k).0) [ IpscMode.master ↦ tt | IpscMode.peer ↦ refl ]

  start-Tracks : Tracks w.cfg false (Client.start w.cfg init_client)
  unfolding Client.start Client.activate
  start-Tracks = ground arith

  -- After some events with the open endpoint the client is started; no peer is registered then,
  -- and none has activated it.
  pub started-InStep :
      (before : List Event) (s : System)
      → AreBeforeStop before
      → s ≡ (run w before (boot w).0).0
      → is_registered s.stack ≡ false
      → s.client ≡ init_client
      → InStep w (on_event w client_started s).0
  unfolding on_event
  started-InStep before s ok e down c = record {
    reported = subst IsReported (sym e) (run-IsReported before (boot w).0 ok boot-IsReported);
    tracks =
        subst (λ u. Tracks w.cfg u (Client.start w.cfg s.client)) (sym down)
          (subst (λ x. Tracks w.cfg false (Client.start w.cfg x)) (sym c) start-Tracks);
  }
