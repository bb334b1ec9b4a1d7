-- ===== src/System/Wiring.antt =====
-- ipsc2hbp.py and the calls between the parts that it joins (`set_protocols`): a request of the
-- translator, and an effect of the IPSC stack or of the connection to the HBP master.
use ipsc2hbp.Base.{ℕ, Bool, false, ◌&&◌, if◌then◌else◌, Option, none, some, List, [], ◌∷◌, ◌++◌}
use ipsc2hbp.Dmr.{Bytes}
use ipsc2hbp.Ipsc.Wire.{parse_group_voice_meta}
use ipsc2hbp.Ipsc.Auth
use ipsc2hbp.Ipsc.Master
use ipsc2hbp.Ipsc.Master.{Master}
use ipsc2hbp.Ipsc.PeerState.{Peer}
use ipsc2hbp.Ipsc.Peer
use ipsc2hbp.Hbp.Protocol
use ipsc2hbp.Hbp.Protocol.{Protocol}
use ipsc2hbp.Hbp.Client
use ipsc2hbp.Hbp.Client.{Client, LoopState, init_client}
use ipsc2hbp.Translate.State.{
  Action, send_dmrd, send_to_peer, activate, deactivate, Timeslot, Translator,
}
use ipsc2hbp.Translate.Callbacks
use ipsc2hbp.Translate.Callbacks.{is_tracking}
use ipsc2hbp.System.{
  World, Moment, env, Stack, as_master, as_peer, System, Output, to_ipsc, to_hbp, hbp_closed,
  is_registered, ipsc_datagrams, hbp_datagrams,
}

module _ (w : World) where
  -- `self._ipsc.send_to_peer(packet)`
  abbrev pub stack_send : Bytes → Stack → List Auth.Effect
  stack_send b (as_master m) = Master.send_to_peer w.cfg w.hmac b m
  stack_send b (as_peer p) = Peer.send_to_peer w.cfg w.hmac b p

  -- One request of the translator to the stacks.
  unfoldable pub act : Action → System → System × List Output
  act (send_dmrd b) s = (s, hbp_datagrams (Client.client_send_dmrd b s.client))
  act (send_to_peer b) s = (s, ipsc_datagrams (stack_send b s.stack))
  act activate s = (record s { client = Client.activate s.client }, [])
  act deactivate s =
      let (c, effects) = Client.deactivate w.cfg s.client in
      (record s { client = c }, hbp_datagrams effects)

  unfoldable pub perform : List Action → System → System × List Output
  perform [] s = (s, [])
  perform (a ∷ rest) s =
      let (s', out) = act a s in let (s'', out') = perform rest s' in (s'', out ++ out')

  -- A callback of the translator: its new state, and its requests.
  abbrev pub callback : Translator × List Action → System → System × List Output
  callback (t, acts) s = perform acts (record s { translator = t })

  abbrev pub ipsc_voice : Moment → Bytes → Option (Timeslot × ℕ) → System → System × List Output
  ipsc_voice at d none s = (s, [])
  ipsc_voice at d (some (ts, burst_type)) s =
      let (t, acts, outcome) =
        Callbacks.ipsc_received (env w at) (Client.client_is_connected s.client) d ts burst_type
          s.translator in
      callback (t, acts) s

  -- One effect of the IPSC stack; the default timeout of a call is ten seconds.
  unfoldable pub from_stack : Moment → Auth.Effect → System → System × List Output
  from_stack at (Auth.sendto b host port) s = (s, to_ipsc b host port ∷ [])
  from_stack at (Auth.peer_registered id host port) s =
      callback (Callbacks.peer_registered w.cfg s.translator) s
  from_stack at Auth.peer_lost s = callback (Callbacks.peer_lost w.cfg s.translator) s
  from_stack at (Auth.ipsc_voice_received d) s = ipsc_voice at d (parse_group_voice_meta d) s
  from_stack at Auth.check_call_timeouts s =
      callback (Callbacks.check_call_timeouts w.cfg at.now 10000000 s.translator, []) s

  -- Whether an effect raises: the registration makes the translator call `activate`.
  abbrev pub effect_raises : Auth.Effect → System → Bool
  effect_raises (Auth.peer_registered id host port) s =
      is_tracking w.cfg && Client.activate_raises s.client
  effect_raises _ s = false

  -- The effects in turn; an exception ends the handler, so that nothing behind it is done.
  unfoldable pub from_stack_all : Moment → List Auth.Effect → System → System × List Output
  from_stack_all at [] s = (s, [])
  from_stack_all at (e ∷ es) s =
      let (s', out) = from_stack at e s in
      let (s'', out') = from_stack_all at es s' in
      if effect_raises e s then (s', out) else (s'', out ++ out')

  -- One effect of the connection to the HBP master; `hbp_connected` only logs.
  unfoldable pub from_connection : Moment → Protocol.Effect → System → System × List Output
  from_connection at (Protocol.sendto b) s = (s, to_hbp b ∷ [])
  from_connection at Protocol.close_transport s = (s, hbp_closed ∷ [])
  from_connection at Protocol.hbp_connected s = (s, [])
  from_connection at Protocol.hbp_disconnected s =
      callback (Callbacks.hbp_disconnected s.translator, []) s
  from_connection at (Protocol.voice_received d) s =
      callback (Callbacks.hbp_voice_received (env w at) (is_registered s.stack) d s.translator) s

  unfoldable pub from_connection_all : Moment → List Protocol.Effect → System → System × List Output
  from_connection_all at [] s = (s, [])
  from_connection_all at (e ∷ es) s =
      let (s', out) = from_connection at e s in
      let (s'', out') = from_connection_all at es s' in (s'', out ++ out')

  -- An event of the stack.
  abbrev pub set_stack : Moment → Stack × List Auth.Effect → System → System × List Output
  set_stack at (k, effects) s = from_stack_all at effects (record s { stack = k })

  abbrev pub master_event : Master × List Auth.Effect → Stack × List Auth.Effect
  master_event (m, effects) = (as_master m, effects)

  abbrev pub peer_event : Peer × List Auth.Effect → Stack × List Auth.Effect
  peer_event (p, effects) = (as_peer p, effects)

  unfoldable pub stack_datagram : ℕ → Bytes → Bytes → ℕ → Stack → Stack × List Auth.Effect
  stack_datagram now d host port (as_master m) =
      master_event (Master.datagram_received w.cfg w.hmac w.inet_aton now d host port m)
  stack_datagram now d host port (as_peer p) =
      peer_event (Peer.datagram_received w.cfg w.hmac now d host port p)

  unfoldable pub stack_watchdog : ℕ → Stack → Stack × List Auth.Effect
  stack_watchdog now (as_master m) = master_event (Master.watchdog w.cfg w.hmac now m)
  stack_watchdog now (as_peer p) = peer_event (Peer.watchdog w.cfg w.hmac now p)

  unfoldable pub stack_maintenance : ℕ → Stack → Stack × List Auth.Effect
  stack_maintenance now (as_master m) = (as_master m, [])
  stack_maintenance now (as_peer p) = peer_event (Peer.maintenance w.cfg w.hmac now p)

  -- `if hasattr(ipsc_proto, "stop"): ipsc_proto.stop()`
  unfoldable pub stack_stop : Stack → Stack × List Auth.Effect
  stack_stop (as_master m) = (as_master (Master.stop m), [])
  stack_stop (as_peer p) = peer_event (Peer.stop w.cfg w.hmac p)

  -- An event of the connection, if there is one.
  abbrev pub set_connection :
      Moment → Protocol × List Protocol.Effect → System → System × List Output
  set_connection at (p, effects) s =
      from_connection_all at effects (record s { client = record s.client { protocol = some p } })

  abbrev pub on_connection :
      Moment → (Protocol → Protocol × List Protocol.Effect) → System → System × List Output
  on_connection at f s = elim s.client.protocol [
    | none ↦ (s, [])
    | some p ↦ set_connection at (f p) s
  ]
