-- ===== src/System/Valid.antt =====
-- ipsc2hbp.py: the translator's invariant in the running program.
use ipsc2hbp.Base.{
  ◌++◌, ℕ, ◌<◌, ◌≤◌, ◌≡◌, refl, sym, ◌∙◌, Bool, true, false, Option, none, some, List, [], ◌∷◌,
  arith, if◌then◌else◌, subst, Option-cases, inl, inr,
}
use ipsc2hbp.Dmr.{Bytes}
use ipsc2hbp.Ipsc.Wire.{parse_group_voice_meta}
use ipsc2hbp.Ipsc.Auth
use ipsc2hbp.Hbp.Protocol
use ipsc2hbp.Hbp.Protocol.{Protocol}
use ipsc2hbp.Hbp.Client
use ipsc2hbp.Hbp.Client.{LoopState}
use ipsc2hbp.Translate.State.{
  Action, send_dmrd, send_to_peer, activate, deactivate, Timeslot, Translator,
}
use ipsc2hbp.Translate.Callbacks
use ipsc2hbp.Translate.Valid.Inc.{EnvIsValid}
use ipsc2hbp.Translate.Valid.Reach
use ipsc2hbp.Translate.Valid.Reach.{IsValid, Step-IsValid, Reach-IsValid}
use ipsc2hbp.System.{World, Moment, env, System, Output, is_registered, same_loop}
use ipsc2hbp.System.Wiring.{
  act, perform, callback, ipsc_voice, effect_raises, from_stack, from_stack_all, from_connection,
  from_connection_all, on_connection, stack_datagram, stack_watchdog, stack_maintenance, stack_stop,
}
use ipsc2hbp.System.Loop.{
  on_drain, is_due, stop_both, on_event, run, boot, Event, ipsc_datagram, ipsc_watchdog,
  ipsc_maintenance, hbp_datagram, hbp_error, hbp_keepalive, drain_due, loop_started, endpoint_up,
  endpoint_failed, connection_lost, slept, client_started, cancel_delivered, loop_left, signal,
}

-- The random numbers of a callback are in the ranges that it asks for.
pub record MomentIsValid (at : Moment) : Type 0 where
  pub seq_range : at.rand_seq < 32768
  pub ts_range : at.rand_ts < 4294967296

abbrev pub EventIsValid : Event → Type 0
EventIsValid (ipsc_datagram at d host port) = MomentIsValid at
EventIsValid (ipsc_watchdog at) = MomentIsValid at
EventIsValid (ipsc_maintenance at) = MomentIsValid at
EventIsValid (hbp_datagram at d) = MomentIsValid at
EventIsValid (hbp_error at) = MomentIsValid at
EventIsValid (hbp_keepalive at) = MomentIsValid at
EventIsValid (signal at) = MomentIsValid at
EventIsValid (loop_left at) = MomentIsValid at
EventIsValid _ = Unit {0}

abbrev pub EventsAreValid : List Event → Type 0
EventsAreValid [] = Unit {0}
EventsAreValid (e ∷ es) = EventIsValid e × EventsAreValid es

module _ (w : World) where
  abbrev pub Sound : System → Type 0
  Sound s = IsValid w.cfg s.translator

  act-translator : (a : Action) (s : System) → (act w a s).0.translator ≡ s.translator
  unfolding act
  act-translator (send_dmrd b) s = refl
  act-translator (send_to_peer b) s = refl
  act-translator activate s = refl
  act-translator deactivate s = refl

  perform-translator :
      (acts : List Action) (s : System) → (perform w acts s).0.translator ≡ s.translator
  unfolding perform
  perform-translator [] s = refl
  perform-translator (a ∷ acts) s = perform-translator acts (act w a s).0 ∙ act-translator a s

  -- A callback whose state is valid leaves it so, whatever it asks for.
  callback-Sound :
      (r : Translator × List Action) (s : System) → IsValid w.cfg r.0 → Sound (callback w r s).0
  callback-Sound (t, acts) s h =
      subst (IsValid w.cfg) (sym (perform-translator acts (record s { translator = t }))) h

  ipsc_voice-Sound :
      (at : Moment) (d : Bytes) (m : Option (Timeslot × ℕ)) (s : System)
      → Sound s
      → Sound (ipsc_voice w at d m s).0
  ipsc_voice-Sound at d none s h = h
  ipsc_voice-Sound at d (some (ts, b)) s h =
      let up = Client.client_is_connected s.client in
      let r = Callbacks.ipsc_received (env w at) up d ts b s.translator in
      callback-Sound (r.0, r.1) s
        (Step-IsValid w.cfg (Reach.from_ipsc (env w at) up d ts b s.translator refl) h)

  from_stack-Sound :
      (at : Moment) (e : Auth.Effect) (s : System) → Sound s → Sound (from_stack w at e s).0
  unfolding from_stack
  from_stack-Sound at (Auth.sendto b host port) s h = h
  from_stack-Sound at (Auth.peer_registered id host port) s h =
      callback-Sound (Callbacks.peer_registered w.cfg s.translator) s
        (Step-IsValid w.cfg (Reach.registered s.translator) h)
  from_stack-Sound at Auth.peer_lost s h =
      callback-Sound (Callbacks.peer_lost w.cfg s.translator) s
        (Step-IsValid w.cfg (Reach.lost s.translator) h)
  from_stack-Sound at (Auth.ipsc_voice_received d) s h =
      ipsc_voice-Sound at d (parse_group_voice_meta d) s h
  from_stack-Sound at Auth.check_call_timeouts s h =
      callback-Sound (Callbacks.check_call_timeouts w.cfg at.now 10000000 s.translator, []) s
        (Step-IsValid w.cfg (Reach.watchdog at.now 10000000 s.translator) h)

  from_stack_all-Sound :
      (at : Moment) (es : List Auth.Effect) (s : System)
      → Sound s
      → Sound (from_stack_all w at es s).0
  unfolding from_stack_all
  from_stack_all-Sound at [] s h = h
  from_stack_all-Sound at (e ∷ es) s h =
      let one = from_stack-Sound at e s h in
      elim (effect_raises w e s)
        as (λ b.
          Sound
            (if b then from_stack w at e s else (
              (from_stack_all w at es (from_stack w at e s).0).0,
              (from_stack w at e s).1 ++ (from_stack_all w at es (from_stack w at e s).0).1,
            )).0) [ true ↦ one | false ↦ from_stack_all-Sound at es (from_stack w at e s).0 one ]

  from_connection-Sound :
      (at : Moment) (e : Protocol.Effect) (s : System)
      → MomentIsValid at
      → Sound s
      → Sound (from_connection w at e s).0
  unfolding from_connection
  from_connection-Sound at (Protocol.sendto b) s ok h = h
  from_connection-Sound at Protocol.close_transport s ok h = h
  from_connection-Sound at Protocol.hbp_connected s ok h = h
  from_connection-Sound at Protocol.hbp_disconnected s ok h =
      callback-Sound (Callbacks.hbp_disconnected s.translator, []) s
        (Step-IsValid w.cfg (Reach.disconnected s.translator) h)
  from_connection-Sound at (Protocol.voice_received d) s ok h =
      let up = is_registered s.stack in
      let v : EnvIsValid (env w at) = record { seq_range = ok.seq_range; ts_range = ok.ts_range } in
      callback-Sound (Callbacks.hbp_voice_received (env w at) up d s.translator) s
        (Step-IsValid w.cfg (Reach.from_hbp (env w at) up d s.translator refl v) h)

  from_connection_all-Sound :
      (at : Moment) (es : List Protocol.Effect) (s : System)
      → MomentIsValid at
      → Sound s
      → Sound (from_connection_all w at es s).0
  unfolding from_connection_all
  from_connection_all-Sound at [] s ok h = h
  from_connection_all-Sound at (e ∷ es) s ok h =
      from_connection_all-Sound at es (from_connection w at e s).0 ok
        (from_connection-Sound at e s ok h)

  on_connection-Sound :
      (at : Moment) (f : Protocol → Protocol × List Protocol.Effect) (s : System)
      → MomentIsValid at
      → Sound s
      → Sound (on_connection w at f s).0
  on_connection-Sound at f s ok h = elim (Option-cases s.client.protocol) [
    | inl e ↦ rw (e, on_connection) h
    | inr (p, e) ↦
        rw (e, on_connection)
          (from_connection_all-Sound at (f p).1
            (record s { client = record s.client { protocol = some (f p).0 } }) ok h)
  ]

  if_Sound :
      (b : Bool) (r q : System × List Output)
      → (b ≡ true → Sound r.0)
      → Sound q.0
      → Sound (if b then r else q).0
  if_Sound true r q f h = f refl
  if_Sound false r q f h = h

  due_now :
      (now after : ℕ) (o : Option ℕ)
      → is_due w now after o ≡ true
      → (due : ℕ) × (o ≡ some due) × (due ≤ now) × (now ≤ after)
  due_now now after none h = cc
  due_now now after (some due) h = (due, refl, ground arith, ground arith)

  on_drain-Sound :
      (ts : Timeslot) (now after : ℕ) (s : System) → Sound s → Sound (on_drain w ts now after s).0
  unfolding on_drain
  on_drain-Sound ts now after s h =
      let r = Callbacks.drain_timer w.cfg now after ts s.translator in
      let handle = (Callbacks.line ts s.translator).slot.pacer.tx_handle in
      if_Sound (is_due w now after handle) (callback w r s) (s, [])
        (λ yes'.
          let (due, e, a, b) = due_now now after handle yes' in
          callback-Sound r s
            (Step-IsValid w.cfg (Reach.drain now after due ts s.translator e a b) h))
        h

  stop_both-Sound : (at : Moment) (s : System) → Sound s → Sound (stop_both w at s).0
  unfolding stop_both
  stop_both-Sound at s h =
      let r = stack_stop w s.stack in from_stack_all-Sound at r.1 (record s { stack = r.0 }) h

  on_event-Sound : (e : Event) (s : System) → EventIsValid e → Sound s → Sound (on_event w e s).0
  unfolding on_event
  on_event-Sound client_started s ok h = h
  on_event-Sound (ipsc_datagram at d host port) s ok h =
      let r = stack_datagram w at.now d host port s.stack in
      from_stack_all-Sound at r.1 (record s { stack = r.0 }) h
  on_event-Sound (ipsc_watchdog at) s ok h =
      let r = stack_watchdog w at.now s.stack in
      from_stack_all-Sound at r.1 (record s { stack = r.0 }) h
  on_event-Sound (ipsc_maintenance at) s ok h =
      let r = stack_maintenance w at.now s.stack in
      from_stack_all-Sound at r.1 (record s { stack = r.0 }) h
  on_event-Sound (hbp_datagram at d) s ok h = on_connection-Sound at _ s ok h
  on_event-Sound (hbp_error at) s ok h = on_connection-Sound at _ s ok h
  on_event-Sound (hbp_keepalive at) s ok h = on_connection-Sound at _ s ok h
  on_event-Sound (drain_due ts now after) s ok h = on_drain-Sound ts now after s h
  on_event-Sound loop_started s ok h =
      if_Sound (same_loop LoopState.starting s.client.loop) _ (s, []) (λ _. h) h
  on_event-Sound endpoint_up s ok h =
      if_Sound (same_loop LoopState.opening s.client.loop) _ (s, []) (λ _. h) h
  on_event-Sound endpoint_failed s ok h =
      if_Sound (same_loop LoopState.opening s.client.loop) _ (s, []) (λ _. h) h
  on_event-Sound connection_lost s ok h = h
  on_event-Sound cancel_delivered s ok h =
      if_Sound (same_loop LoopState.cancelled s.client.loop) _ (s, []) (λ _. h) h
  on_event-Sound slept s ok h =
      if_Sound (same_loop LoopState.sleeping s.client.loop) _ (s, []) (λ _. h) h
  on_event-Sound (signal at) s ok h = stop_both-Sound at s h
  on_event-Sound (loop_left at) s ok h = stop_both-Sound at s h

  pub run-Sound :
      (es : List Event) (s : System) → EventsAreValid es → Sound s → Sound (run w es s).0
  unfolding run
  run-Sound [] s ok h = h
  run-Sound (e ∷ es) s (ok, oks) h = run-Sound es (on_event w e s).0 oks (on_event-Sound e s ok h)

  pub boot-Sound : Sound (boot w).0
  unfolding boot
  boot-Sound = Reach-IsValid w.cfg Reach.start
