-- ===== src/System/Forward.antt =====
-- ipsc2hbp.py: voice goes through the whole program, from one socket to the other.
use ipsc2hbp.Base.{ℕ, ◌≡◌, refl, ap, ◌∙◌, true, some, List, [], ◌∷◌, arith, ◌&&◌, append-nil}
use ipsc2hbp.Dmr.{Bytes}
use ipsc2hbp.Ipsc.Wire.{parse_group_voice_meta}
use ipsc2hbp.Ipsc.Auth
use ipsc2hbp.Ipsc.Auth.{authenticated}
use ipsc2hbp.Ipsc.Master
use ipsc2hbp.Ipsc.Master.{Master, is_it, is_port, Opcode, opcode_of}
use ipsc2hbp.Hbp.Protocol
use ipsc2hbp.Hbp.Protocol.{Protocol, is_connected}
use ipsc2hbp.Hbp.Client
use ipsc2hbp.Hbp.Client.{Client, LoopState}
use ipsc2hbp.Translate.State.{
  Action, send_dmrd, send_to_peer, activate, deactivate, Timeslot, switches,
}
use ipsc2hbp.Translate.Callbacks
use ipsc2hbp.Translate.Valid.Switches.{ipsc_received-switches}
use ipsc2hbp.System.{World, Moment, env, as_master, System, Output, hbp_datagrams, ipsc_datagrams}
use ipsc2hbp.System.Wiring.{
  act, perform, callback, stack_send, from_stack, from_stack_all, stack_datagram,
}
use ipsc2hbp.System.Loop.{on_event, ipsc_datagram}
use ipsc2hbp.System.Sent.{hbp_sent, hbp_sent-append, hbp_sent-ipsc_datagrams}

-- The DMRD packets among the requests of the translator.
abbrev pub dmrds : List Action → List Bytes
dmrds [] = []
dmrds (send_dmrd b ∷ acts) = b ∷ dmrds acts
dmrds (_ ∷ acts) = dmrds acts

-- A connection that is up.
abbrev pub Up : Client → Protocol → Type 0
Up c p = (c.protocol ≡ some p) × (is_connected p ≡ true) × (p.has_transport ≡ true)

module _ (w : World) where
  sends :
      (b : Bytes) (c : Client) (p : Protocol)
      → Up c p
      → hbp_datagrams (Client.client_send_dmrd b c) ≡ Output.to_hbp b ∷ []
  unfolding Client.client_send_dmrd Protocol.send_dmrd
  sends b c p h = ground arith

  perform-dmrds :
      (acts : List Action) (s : System) (p : Protocol)
      → Up s.client p
      → switches acts ≡ []
      → hbp_sent (perform w acts s).1 ≡ dmrds acts
  unfolding perform act
  perform-dmrds [] s p h q = refl
  perform-dmrds (send_dmrd b ∷ acts) s p h q =
      rw (sends b s.client p h) (ap (◌∷◌ b) (perform-dmrds acts s p h q))
  perform-dmrds (send_to_peer b ∷ acts) s p h q =
      hbp_sent-append (ipsc_datagrams (stack_send w b s.stack)) (perform w acts s).1
        (hbp_sent-ipsc_datagrams (stack_send w b s.stack))
      ∙ perform-dmrds acts s p h q
  perform-dmrds (activate ∷ acts) s p h q = cc
  perform-dmrds (deactivate ∷ acts) s p h q = cc

  -- A datagram that the master takes for voice of its peer, by its payload.
  pub record VoiceOf (m : Master) (d host : Bytes) (port op : ℕ) (rest : Bytes) : Type 0 where
    pub accepted : authenticated w.cfg w.hmac d ≡ some (op ∷ rest)
    pub is_voice : opcode_of op ≡ Opcode.voice
    pub from_peer : (m.registered && (is_it host m.peer_ip && is_port port m.peer_port)) ≡ true

  taken :
      (now : ℕ) (m : Master) (payload host : Bytes) (port : ℕ) (ts : Timeslot) (b : ℕ)
      → (m.registered && (is_it host m.peer_ip && is_port port m.peer_port)) ≡ true
      → parse_group_voice_meta payload ≡ some (ts, b)
      → Master.on_group_voice w.cfg w.hmac now payload host port m
        ≡ (record m { last_ka = now }, Auth.ipsc_voice_received payload ∷ [])
  unfolding Master.on_group_voice
  taken now m payload host port ts b f e = ground arith

  master_voice :
      (now : ℕ) (m : Master) (d host : Bytes) (port op : ℕ) (rest : Bytes) (ts : Timeslot) (b : ℕ)
      → VoiceOf m d host port op rest
      → parse_group_voice_meta (op ∷ rest) ≡ some (ts, b)
      → stack_datagram w now d host port (as_master m)
        ≡ (as_master (record m { last_ka = now }), Auth.ipsc_voice_received (op ∷ rest) ∷ [])
  unfolding stack_datagram Master.datagram_received Master.dispatch Master.handle
  master_voice now m d host port op rest ts b v e =
      rw (v.accepted, v.is_voice, taken now m (op ∷ rest) host port ts b v.from_peer e) refl

  forward :
      (at : Moment) (payload : Bytes) (ts : Timeslot) (b : ℕ) (p : Protocol) (s : System)
      → Up s.client p
      → parse_group_voice_meta payload ≡ some (ts, b)
      → hbp_sent (from_stack_all w at (Auth.ipsc_voice_received payload ∷ []) s).1
        ≡ dmrds (Callbacks.ipsc_received (env w at) true payload ts b s.translator).1
  unfolding from_stack_all from_stack
  forward at payload ts b p s up e =
      let online : Client.client_is_connected s.client ≡ true = ground arith in
      let r = Callbacks.ipsc_received (env w at) true payload ts b s.translator in
      let q = ipsc_received-switches (env w at) true payload ts b s.translator in
      rw (e, online, append-nil (callback w (r.0, r.1) s).1)
        (perform-dmrds r.1 (record s { translator = r.0 }) p up q)

  -- While the connection to HBP is up and the IPSC stack is a master, an authenticated voice
  -- datagram from the registered peer, long enough to name its timeslot, makes the program send
  -- to the HBP master exactly the DMRD packets of the translator for it, in order.
  pub voice_forwarded :
      (at : Moment) (m : Master) (p : Protocol) (d host : Bytes) (port op : ℕ) (rest : Bytes)
      (ts : Timeslot) (b : ℕ) (s : System)
      → s.stack ≡ as_master m
      → Up s.client p
      → VoiceOf m d host port op rest
      → parse_group_voice_meta (op ∷ rest) ≡ some (ts, b)
      → hbp_sent (on_event w (ipsc_datagram at d host port) s).1
        ≡ dmrds (Callbacks.ipsc_received (env w at) true (op ∷ rest) ts b s.translator).1
  unfolding on_event
  voice_forwarded at m p d host port op rest ts b s k up v e =
      rw (k, master_voice at.now m d host port op rest ts b v e)
        (forward at (op ∷ rest) ts b p
          (record s { stack = as_master (record m { last_ka = at.now }) }) up e)
