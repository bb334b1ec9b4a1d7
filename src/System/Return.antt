-- ===== src/System/Return.antt =====
-- ipsc2hbp.py: voice from the HBP master on its way to the registered peer.
use ipsc2hbp.Base.{
  ℕ, ◌≡◌, refl, ap, ◌∙◌, true, false, some, List, [], ◌∷◌, ◌++◌, arith, map, append-nil, nonempty,
  nat_eqb,
}
use ipsc2hbp.Dmr.{Bytes}
use ipsc2hbp.Ipsc.Auth
use ipsc2hbp.Ipsc.Auth.{auth_suffix}
use ipsc2hbp.Ipsc.Master
use ipsc2hbp.Ipsc.Master.{Master}
use ipsc2hbp.Hbp.Protocol
use ipsc2hbp.Hbp.Protocol.{Protocol, is_connected, command}
use ipsc2hbp.Hbp.Client
use ipsc2hbp.Translate.State.{
  Action, send_dmrd, send_to_peer, activate, deactivate, Timeslot, switches,
}
use ipsc2hbp.Translate.Callbacks
use ipsc2hbp.Translate.Valid.Switches.{hbp_voice_received-switches, drain_timer-switches}
use ipsc2hbp.System.{
  World, Moment, env, as_master, System, ipsc_datagrams, hbp_datagrams, is_registered,
}
use ipsc2hbp.System.Wiring.{
  act, perform, stack_send, from_connection, from_connection_all, on_connection,
}
use ipsc2hbp.System.Loop.{on_drain, is_due, on_event, hbp_datagram, drain_due}
use ipsc2hbp.System.Sent.{ipsc_sent, ipsc_sent-append, ipsc_sent-hbp_datagrams}

-- The packets to the peer among the requests of the translator.
abbrev pub peer_packets : List Action → List Bytes
peer_packets [] = []
peer_packets (send_to_peer b ∷ acts) = b ∷ peer_packets acts
peer_packets (_ ∷ acts) = peer_packets acts

-- A master with an open endpoint and a registered peer at an address.
pub record Serves (m : Master) (ip : Bytes) (port : ℕ) : Type 0 where
  pub registered : m.registered ≡ true
  pub open_endpoint : m.has_transport ≡ true
  pub at_ip : m.peer_ip ≡ some ip
  pub at_port : m.peer_port ≡ some port
  pub ip_set : nonempty ip ≡ true
  pub port_set : nat_eqb port 0 ≡ false

module _ (w : World) where
  -- A packet as it leaves, with its authentication.
  abbrev pub signed : Bytes → Bytes
  signed b = b ++ auth_suffix w.cfg w.hmac b

  served :
      (b : Bytes) (m : Master) (ip : Bytes) (port : ℕ)
      → Serves m ip port
      → stack_send w b (as_master m) ≡ Auth.sendto (signed b) ip port ∷ []
  unfolding Master.send_to_peer Auth.send
  served b m ip port h = ground arith

  perform-peer_packets :
      (acts : List Action) (m : Master) (ip : Bytes) (port : ℕ) (s : System)
      → s.stack ≡ as_master m
      → Serves m ip port
      → switches acts ≡ []
      → ipsc_sent (perform w acts s).1 ≡ map signed (peer_packets acts)
  unfolding perform act
  perform-peer_packets [] m ip port s k h q = refl
  perform-peer_packets (send_dmrd b ∷ acts) m ip port s k h q =
      ipsc_sent-append (hbp_datagrams (Client.client_send_dmrd b s.client)) (perform w acts s).1
        (ipsc_sent-hbp_datagrams (Client.client_send_dmrd b s.client))
      ∙ perform-peer_packets acts m ip port s k h q
  perform-peer_packets (send_to_peer b ∷ acts) m ip port s k h q =
      let out = (perform w acts s).1 in
      ap (λ x. ipsc_sent (ipsc_datagrams x ++ out)) (ap (stack_send w b) k ∙ served b m ip port h)
      ∙ ap (◌∷◌ (signed b)) (perform-peer_packets acts m ip port s k h q)
  perform-peer_packets (activate ∷ acts) m ip port s k h q = cc
  perform-peer_packets (deactivate ∷ acts) m ip port s k h q = cc

  voice_taken :
      (now : ℕ) (p : Protocol) (d : Bytes)
      → is_connected p ≡ true
      → command d ≡ Protocol.dmrd
      → Protocol.datagram_received w.cfg w.sha256 now d p ≡ (p, Protocol.voice_received d ∷ [])
  unfolding Protocol.handle
  voice_taken now p d up c = rw c (ground arith)

  -- While a peer is registered at the IPSC master and the connection to HBP is up, a DMRD
  -- datagram from the HBP master makes the program send to IPSC exactly the packets of the
  -- translator for it, in order, each with its authentication.
  pub dmrd_forwarded :
      (at : Moment) (m : Master) (ip : Bytes) (port : ℕ) (p : Protocol) (d : Bytes) (s : System)
      → s.stack ≡ as_master m
      → Serves m ip port
      → s.client.protocol ≡ some p
      → is_connected p ≡ true
      → command d ≡ Protocol.dmrd
      → ipsc_sent (on_event w (hbp_datagram at d) s).1
        ≡ map signed (peer_packets (Callbacks.hbp_voice_received (env w at) true d s.translator).1)
  unfolding on_event from_connection_all from_connection
  dmrd_forwarded at m ip port p d s k h e up c =
      let r = Callbacks.hbp_voice_received (env w at) true d s.translator in
      let t : System = record s {
        client = record s.client { protocol = some p };
        translator = r.0;
      } in
      let online : is_registered s.stack ≡ true = rw k h.registered in
      let sent =
        perform-peer_packets r.1 m ip port t k h
          (hbp_voice_received-switches (env w at) true d s.translator) in
      rw (e, on_connection, voice_taken at.now p d up c, online, append-nil (perform w r.1 t).1)
        sent

  pub drain_forwarded :
      (now after : ℕ) (ts : Timeslot) (m : Master) (ip : Bytes) (port : ℕ) (s : System)
      → s.stack ≡ as_master m
      → Serves m ip port
      → is_due w now after (Callbacks.line ts s.translator).slot.pacer.tx_handle ≡ true
      → ipsc_sent (on_event w (drain_due ts now after) s).1
        ≡ map signed (peer_packets (Callbacks.drain_timer w.cfg now after ts s.translator).1)
  unfolding on_event on_drain
  drain_forwarded now after ts m ip port s k h e =
      let r = Callbacks.drain_timer w.cfg now after ts s.translator in
      rw e (
        perform-peer_packets r.1 m ip port (record s { translator = r.0 }) k h
          (drain_timer-switches w.cfg now after ts s.translator))
