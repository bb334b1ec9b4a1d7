-- ===== src/System/Silence.antt =====
-- ipsc2hbp.py: a side that is not up is sent nothing because of the other.
use ipsc2hbp.Base.{
  ◌++◌, ℕ, ◌≡◌, refl, ap, ◌∙◌, true, false, Option, none, some, List, [], ◌∷◌, arith, if◌then◌else◌,
  Option-cases, inl, inr,
}
use ipsc2hbp.Dmr.{Bytes}
use ipsc2hbp.Ipsc.Wire.{parse_group_voice_meta}
use ipsc2hbp.Ipsc.Auth
use ipsc2hbp.Ipsc.Master
use ipsc2hbp.Ipsc.Peer
use ipsc2hbp.Hbp.Protocol
use ipsc2hbp.Hbp.Protocol.{Protocol}
use ipsc2hbp.Hbp.Client
use ipsc2hbp.Hbp.Client.{Client, LoopState}
use ipsc2hbp.Translate.State.{
  Action, send_dmrd, send_to_peer, activate, deactivate, Timeslot, Translator,
}
use ipsc2hbp.Translate.Callbacks
use ipsc2hbp.System.{
  World, Moment, env, Stack, as_master, as_peer, System, Output, is_registered, ipsc_datagrams,
}
use ipsc2hbp.System.Wiring.{
  stack_send, act, perform, callback, ipsc_voice, effect_raises, from_stack, from_stack_all,
  from_connection, from_connection_all, on_connection, stack_datagram,
}
use ipsc2hbp.System.Loop.{on_drain, is_due, on_event, ipsc_datagram, hbp_datagram, drain_due}
use ipsc2hbp.System.Sent.{
  hbp_sent, ipsc_sent, hbp_sent-append, ipsc_sent-append, hbp_sent-ipsc_datagrams,
  ipsc_sent-hbp_datagrams,
}

abbrev pub HbpDown : Client → Type 0
HbpDown c = Client.client_is_connected c ≡ false

-- Nothing is sent to HBP, and HBP stays down.
abbrev Mute : System × List Output → Type 0
Mute r = (hbp_sent r.1 ≡ []) × HbpDown r.0.client

module _ (w : World) where
  act-Mute : (a : Action) (s : System) → HbpDown s.client → Mute (act w a s)
  unfolding act Client.client_send_dmrd Client.activate Client.deactivate Protocol.send_dmrd
      Protocol.disconnect
  act-Mute (send_dmrd b) s h = ground arith
  act-Mute (send_to_peer b) s h = (hbp_sent-ipsc_datagrams (stack_send w b s.stack), h)
  act-Mute activate s h = ground arith
  act-Mute deactivate s h = ground arith

  perform-Mute : (acts : List Action) (s : System) → HbpDown s.client → Mute (perform w acts s)
  unfolding perform
  perform-Mute [] s h = (refl, h)
  perform-Mute (a ∷ acts) s h =
      let (x, h') = act-Mute a s h in
      let (y, h'') = perform-Mute acts (act w a s).0 h' in
      (hbp_sent-append (act w a s).1 (perform w acts (act w a s).0).1 x ∙ y, h'')

  callback-Mute :
      (r : Translator × List Action) (s : System) → HbpDown s.client → Mute (callback w r s)
  callback-Mute (t, acts) s h = perform-Mute acts (record s { translator = t }) h

  ipsc_voice-Mute :
      (at : Moment) (d : Bytes) (m : Option (Timeslot × ℕ)) (s : System)
      → HbpDown s.client
      → Mute (ipsc_voice w at d m s)
  ipsc_voice-Mute at d none s h = (refl, h)
  ipsc_voice-Mute at d (some (ts, b)) s h =
      let r =
        Callbacks.ipsc_received (env w at) (Client.client_is_connected s.client) d ts b
          s.translator in
      callback-Mute (r.0, r.1) s h

  from_stack-Mute :
      (at : Moment) (e : Auth.Effect) (s : System) → HbpDown s.client → Mute (from_stack w at e s)
  unfolding from_stack
  from_stack-Mute at (Auth.sendto b host port) s h = (refl, h)
  from_stack-Mute at (Auth.peer_registered id host port) s h =
      callback-Mute (Callbacks.peer_registered w.cfg s.translator) s h
  from_stack-Mute at Auth.peer_lost s h = callback-Mute (Callbacks.peer_lost w.cfg s.translator) s h
  from_stack-Mute at (Auth.ipsc_voice_received d) s h =
      ipsc_voice-Mute at d (parse_group_voice_meta d) s h
  from_stack-Mute at Auth.check_call_timeouts s h =
      callback-Mute (Callbacks.check_call_timeouts w.cfg at.now 10000000 s.translator, []) s h

  from_stack_all-Mute :
      (at : Moment) (es : List Auth.Effect) (s : System)
      → HbpDown s.client
      → Mute (from_stack_all w at es s)
  unfolding from_stack_all
  from_stack_all-Mute at [] s h = (refl, h)
  from_stack_all-Mute at (e ∷ es) s h =
      let (x, h') = from_stack-Mute at e s h in
      let one = from_stack w at e s in
      let (y, h'') = from_stack_all-Mute at es one.0 h' in
      elim (effect_raises w e s)
        as (λ b. Mute (
          if b
          then one
          else ((from_stack_all w at es one.0).0, one.1 ++ (from_stack_all w at es one.0).1))) [
            | true ↦ (x, h')
            | false ↦ (hbp_sent-append one.1 (from_stack_all w at es one.0).1 x ∙ y, h'')
          ]

  -- While the connection to HBP is not up, an IPSC datagram, whatever it holds and wherever it
  -- comes from, makes the program send nothing to the HBP master, and does not bring the
  -- connection up.
  pub offline_silent :
      (at : Moment) (d host : Bytes) (port : ℕ) (s : System)
      → HbpDown s.client
      → (hbp_sent (on_event w (ipsc_datagram at d host port) s).1 ≡ [])
        × HbpDown (on_event w (ipsc_datagram at d host port) s).0.client
  unfolding on_event
  offline_silent at d host port s h =
      let r = stack_datagram w at.now d host port s.stack in
      from_stack_all-Mute at r.1 (record s { stack = r.0 }) h

-- Nothing is sent to the IPSC side, which stays without a session.
abbrev Deaf : System × List Output → Type 0
Deaf r = (ipsc_sent r.1 ≡ []) × (is_registered r.0.stack ≡ false)

module _ (w : World) where
  stack_send-unregistered :
      (b : Bytes) (k : Stack) → is_registered k ≡ false → stack_send w b k ≡ []
  unfolding Master.send_to_peer Peer.send_to_peer
  stack_send-unregistered b (as_master m) h = ground arith
  stack_send-unregistered b (as_peer p) h = ground arith

  act-Deaf : (a : Action) (s : System) → is_registered s.stack ≡ false → Deaf (act w a s)
  unfolding act
  act-Deaf (send_dmrd b) s h = (ipsc_sent-hbp_datagrams (Client.client_send_dmrd b s.client), h)
  act-Deaf (send_to_peer b) s h =
      (ap (λ es. ipsc_sent (ipsc_datagrams es)) (stack_send-unregistered b s.stack h), h)
  act-Deaf activate s h = (refl, h)
  act-Deaf deactivate s h = (ipsc_sent-hbp_datagrams (Client.deactivate w.cfg s.client).1, h)

  perform-Deaf :
      (acts : List Action) (s : System) → is_registered s.stack ≡ false → Deaf (perform w acts s)
  unfolding perform
  perform-Deaf [] s h = (refl, h)
  perform-Deaf (a ∷ acts) s h =
      let (x, h') = act-Deaf a s h in
      let (y, h'') = perform-Deaf acts (act w a s).0 h' in
      (ipsc_sent-append (act w a s).1 (perform w acts (act w a s).0).1 x ∙ y, h'')

  callback-Deaf :
      (r : Translator × List Action) (s : System)
      → is_registered s.stack ≡ false
      → Deaf (callback w r s)
  callback-Deaf (t, acts) s h = perform-Deaf acts (record s { translator = t }) h

  from_connection-Deaf :
      (at : Moment) (e : Protocol.Effect) (s : System)
      → is_registered s.stack ≡ false
      → Deaf (from_connection w at e s)
  unfolding from_connection
  from_connection-Deaf at (Protocol.sendto b) s h = (refl, h)
  from_connection-Deaf at Protocol.close_transport s h = (refl, h)
  from_connection-Deaf at Protocol.hbp_connected s h = (refl, h)
  from_connection-Deaf at Protocol.hbp_disconnected s h =
      callback-Deaf (Callbacks.hbp_disconnected s.translator, []) s h
  from_connection-Deaf at (Protocol.voice_received d) s h =
      callback-Deaf (Callbacks.hbp_voice_received (env w at) (is_registered s.stack) d s.translator)
        s h

  from_connection_all-Deaf :
      (at : Moment) (es : List Protocol.Effect) (s : System)
      → is_registered s.stack ≡ false
      → Deaf (from_connection_all w at es s)
  unfolding from_connection_all
  from_connection_all-Deaf at [] s h = (refl, h)
  from_connection_all-Deaf at (e ∷ es) s h =
      let (x, h') = from_connection-Deaf at e s h in
      let one = from_connection w at e s in
      let (y, h'') = from_connection_all-Deaf at es one.0 h' in
      (ipsc_sent-append one.1 (from_connection_all w at es one.0).1 x ∙ y, h'')

  on_connection-Deaf :
      (at : Moment) (f : Protocol → Protocol × List Protocol.Effect) (s : System)
      → is_registered s.stack ≡ false
      → Deaf (on_connection w at f s)
  on_connection-Deaf at f s h = elim (Option-cases s.client.protocol) [
    | inl e ↦ rw (e, on_connection) (refl, h)
    | inr (p, e) ↦
        rw (e, on_connection)
          (from_connection_all-Deaf at (f p).1
            (record s { client = record s.client { protocol = some (f p).0 } }) h)
  ]

  on_drain-Deaf :
      (ts : Timeslot) (now after : ℕ) (s : System)
      → is_registered s.stack ≡ false
      → Deaf (on_drain w ts now after s)
  unfolding on_drain
  on_drain-Deaf ts now after s h =
      elim (is_due w now after (Callbacks.line ts s.translator).slot.pacer.tx_handle)
        as (λ b. Deaf (
          if b
          then callback w (Callbacks.drain_timer w.cfg now after ts s.translator) s
          else (s, []))) [
            | true ↦ callback-Deaf (Callbacks.drain_timer w.cfg now after ts s.translator) s h
            | false ↦ (refl, h)
          ]

  -- While no IPSC session is registered, neither a datagram from the HBP master nor the timer
  -- of the paced queue makes the program send anything to IPSC.
  pub unregistered_silent :
      (at : Moment) (d : Bytes) (ts : Timeslot) (now after : ℕ) (s : System)
      → is_registered s.stack ≡ false
      → (ipsc_sent (on_event w (hbp_datagram at d) s).1 ≡ [])
        × (ipsc_sent (on_event w (drain_due ts now after) s).1 ≡ [])
  unfolding on_event
  unregistered_silent at d ts now after s h = (
    (on_connection-Deaf at (λ p. Protocol.datagram_received w.cfg w.sha256 at.now d p) s h).0,
    (on_drain-Deaf ts now after s h).0,
  )
