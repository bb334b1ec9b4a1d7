-- ===== src/Ipsc/Master/Access.antt =====
-- ipsc/protocol.py, `IPSCProtocol`: what a sender at another address can do.
use ipsc2hbp.Base.{
  ℕ, ◌≡◌, refl, ◌⊎◌, inl, Bool, true, false, Option, none, some, List, [], ◌∷◌, arith, bytes_eq,
  nat_eq, list_eqb_iff,
}
use ipsc2hbp.Dmr.{Bytes}
use ipsc2hbp.Config.{Config}
use ipsc2hbp.Ipsc.Auth.{
  Effect, sendto, peer_registered, peer_lost, ipsc_voice_received, check_call_timeouts, send,
}
use ipsc2hbp.Ipsc.Master.{
  Master, Opcode, reg_req, alive_req, list_req, dereg_req, voice, other, set_bytes, is_it, is_port,
  clear_peer, on_alive_req, on_de_reg_req, on_group_voice, send_peer_list, on_peer_list_req,
  rejects, on_reg_req, handle, datagram_received,
}
use ipsc2hbp.Ipsc.Master.Sessions.{on_datagram}

-- Whether the translator is given voice.
unfoldable pub gives_voice : List Effect → Bool
gives_voice [] = false
gives_voice (ipsc_voice_received b ∷ es) = true
gives_voice (sendto b host port ∷ es) = gives_voice es
gives_voice (peer_registered b host port ∷ es) = gives_voice es
gives_voice (peer_lost ∷ es) = gives_voice es
gives_voice (check_call_timeouts ∷ es) = gives_voice es

module _ (cfg : Config) (hmac : Bytes → Bytes) (inet_aton : Bytes → Option Bytes) where
  -- The registration is the same, or it is gone.
  abbrev pub SameOrLost : Master → Master → Type 0
  SameOrLost m m' =
      ((m'.registered ≡ m.registered)
        × (m'.peer_id ≡ m.peer_id)
        × (m'.peer_ip ≡ m.peer_ip)
        × (m'.peer_port ≡ m.peer_port))
      ⊎ (m'.registered ≡ false)

  handle_stranger :
      (now : ℕ) (data' host : Bytes) (port : ℕ) (op : Opcode) (m : Master)
      → m.registered ≡ true
      → set_bytes m.peer_ip ≡ true
      → is_it host m.peer_ip ≡ false
      → SameOrLost m (handle cfg hmac inet_aton now data' host port op m).0
  unfolding handle on_alive_req on_peer_list_req on_de_reg_req on_group_voice on_reg_req rejects
      clear_peer
  handle_stranger now data' host port reg_req m r s h = ground arith
  handle_stranger now data' host port alive_req m r s h = ground arith
  handle_stranger now data' host port list_req m r s h = ground arith
  handle_stranger now data' host port dereg_req m r s h = ground arith
  handle_stranger now data' host port voice m r s h = ground arith
  handle_stranger now data' host port other m r s h = ground arith

  -- While a peer is registered from a host that is not empty, a datagram from another host,
  -- whatever it holds, leaves the registered id and address as they are, or ends the
  -- registration; it never puts another peer in its place.
  pub stranger_cannot_replace :
      (now : ℕ) (data' host : Bytes) (port : ℕ) (m : Master)
      → m.registered ≡ true
      → set_bytes m.peer_ip ≡ true
      → is_it host m.peer_ip ≡ false
      → SameOrLost m (datagram_received cfg hmac inet_aton now data' host port m).0
  stranger_cannot_replace now data' host port m r s h =
      on_datagram cfg hmac inet_aton (λ x. SameOrLost m x.0) now data' host port m
        (inl (refl, refl, refl, refl)) (λ d op. handle_stranger now d host port op m r s h)

  abbrev pub FromPeer : Bytes → ℕ → Master → Type 0
  FromPeer host port m = (m.registered ≡ true) × (m.peer_ip ≡ some host) × (m.peer_port ≡ some port)

  is_it-some : (b : Bytes) (o : Option Bytes) → is_it b o ≡ true → o ≡ some b
  is_it-some b none h = cc
  is_it-some b (some c) h = rw ((list_eqb_iff b c).0 h) refl

  is_port-some : (n : ℕ) (o : Option ℕ) → is_port n o ≡ true → o ≡ some n
  is_port-some n none h = cc
  is_port-some n (some c) h = ground arith

  handle_voice :
      (now : ℕ) (data' host : Bytes) (port : ℕ) (op : Opcode) (m : Master)
      → gives_voice (handle cfg hmac inet_aton now data' host port op m).1 ≡ true
      → FromPeer host port m
  unfolding handle on_alive_req on_peer_list_req on_de_reg_req on_group_voice on_reg_req clear_peer
      send_peer_list send gives_voice
  handle_voice now data' host port reg_req m h = ground arith
  handle_voice now data' host port alive_req m h = ground arith
  handle_voice now data' host port list_req m h = ground arith
  handle_voice now data' host port dereg_req m h = ground arith
  handle_voice now data' host port voice m h =
      let ip = is_it-some host m.peer_ip in
      let p = is_port-some port m.peer_port in ground (arith, ip, p)
  handle_voice now data' host port other m h = cc

  -- If a datagram makes the IPSC master give voice to the translator, it came from the
  -- registered peer, at the host and the port that the peer registered from.
  pub voice-FromPeer :
      (now : ℕ) (data' host : Bytes) (port : ℕ) (m : Master)
      → gives_voice (datagram_received cfg hmac inet_aton now data' host port m).1 ≡ true
      → FromPeer host port m
  unfolding gives_voice
  voice-FromPeer now data' host port m =
      on_datagram cfg hmac inet_aton (λ x. gives_voice x.1 ≡ true → FromPeer host port m) now data'
        host port m (λ h. cc) (λ d op. handle_voice now d host port op m)
