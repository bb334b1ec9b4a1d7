-- ===== src/Ipsc/Link.antt =====
-- ipsc/protocol.py: a master and a peer of this program, talking to each other.
use ipsc2hbp.Base.{
  ℕ, ◌<◌, ◌≡◌, ◌≢◌, refl, sym, ap, ◌⊎◌, true, false, Option, some, List, ◌∷◌, ◌++◌, arith, nat_eqb,
  bytes_eq, nat_eq, ==_refl, length,
}
use ipsc2hbp.Dmr.{Bytes, be32, from_be-be32}
use ipsc2hbp.Config.{Config}
use ipsc2hbp.Ipsc.Wire.{safe_peer_id, ts_flags}
use ipsc2hbp.Ipsc.Auth.{Effect, sendto, authenticated, auth_suffix, authenticated-send, send}
use ipsc2hbp.Ipsc.Master.{
  Master, reg_reply as master_reply, rejects, on_reg_req, handle as master_handle,
  dispatch as master_dispatch, datagram_received as master_received, opcode_of as master_opcode_of,
}
use ipsc2hbp.Ipsc.PeerState.{
  Peer, reg_reply, upstream, opcode_of, sender, is_master_source, touch_master,
}
use ipsc2hbp.Ipsc.Peer.{
  reg_req_packet, on_master_reg_reply, from_master, handle, dispatch, datagram_received,
}

module _ (mcfg pcfg : Config) (hmac : Bytes → Bytes) (digest : (b : Bytes) → length (hmac b) ≡ 20)
    (same_auth : mcfg.auth_enabled ≡ pcfg.auth_enabled) where
  -- Both ends authenticate in the same way.
  abbrev pub signed : Config → Bytes → Bytes
  signed cfg b = b ++ auth_suffix cfg hmac b

  same_suffix : (b : Bytes) → auth_suffix mcfg hmac b ≡ auth_suffix pcfg hmac b
  unfolding auth_suffix
  same_suffix b = ground (arith, same_auth)

  abbrev reply : Bytes
  reply = master_reply mcfg hmac

  reply_id : mcfg.ipsc_master_id < 4294967296 → safe_peer_id reply ≡ mcfg.ipsc_master_id
  unfolding safe_peer_id ts_flags
  reply_id h = from_be-be32 mcfg.ipsc_master_id h

  reply_sender :
      (now port : ℕ) (p : Peer)
      → (p.master_id ≡ 0) ⊎ (p.master_id ≡ mcfg.ipsc_master_id)
      → sender pcfg now mcfg.ipsc_master_id pcfg.ipsc_upstream_master_ip port reg_reply p ≡ upstream
  unfolding sender is_master_source
  reply_sender now port p h = ground (arith, ==_refl pcfg.ipsc_upstream_master_ip, h)

  reply_accepted : authenticated pcfg hmac (signed mcfg reply) ≡ some reply
  unfolding ts_flags
  reply_accepted =
      (authenticated-send pcfg hmac (signed mcfg reply) reply (omega arith) (digest reply)).1
        (ap (λ s. reply ++ s) (same_suffix reply))

  reply_dispatched :
      (now port : ℕ) (p : Peer)
      → mcfg.ipsc_master_id < 4294967296
      → mcfg.ipsc_master_id ≢ pcfg.ipsc_peer_id
      → (p.master_id ≡ 0) ⊎ (p.master_id ≡ mcfg.ipsc_master_id)
      → dispatch pcfg hmac now pcfg.ipsc_upstream_master_ip port (some reply) p
        ≡ on_master_reg_reply pcfg hmac now reply pcfg.ipsc_upstream_master_ip port
            (touch_master now mcfg.ipsc_master_id pcfg.ipsc_upstream_master_ip port p)
  unfolding dispatch handle opcode_of from_master
  reply_dispatched now port p small other h =
      let differs : nat_eqb mcfg.ipsc_master_id pcfg.ipsc_peer_id ≡ false = ground (arith, other) in
      rw (reply_id small, differs, reply_sender now port p h) refl

  -- The answer at the peer.
  peer_registers :
      (now port : ℕ) (p : Peer)
      → mcfg.ipsc_master_id < 4294967296
      → mcfg.ipsc_master_id ≢ pcfg.ipsc_peer_id
      → (p.master_id ≡ 0) ⊎ (p.master_id ≡ mcfg.ipsc_master_id)
      → let q =
          (datagram_received pcfg hmac now
            (signed mcfg reply)
            pcfg.ipsc_upstream_master_ip
            port
            p).0 in
        (q.registered ≡ true) × (q.master_id ≡ mcfg.ipsc_master_id) × (q.last_master_rx ≡ now)
  unfolding datagram_received on_master_reg_reply touch_master ts_flags
  peer_registers now port p small other h =
      rw (reply_accepted, reply_dispatched now port p small other h)
        (ground (arith, h, from_be-be32 mcfg.ipsc_master_id small))

  abbrev pub request : Bytes
  request = reg_req_packet pcfg hmac

  request_accepted : authenticated mcfg hmac (signed pcfg request) ≡ some request
  unfolding ts_flags
  request_accepted =
      (authenticated-send mcfg hmac (signed pcfg request) request (omega arith) (digest request)).1
        (ap (λ s. request ++ s) (sym (same_suffix request)))

  module _ (inet_aton : Bytes → Option Bytes) where
    -- The request at the master.
    master_registers :
        (now port : ℕ) (host : Bytes) (m : Master)
        → m.has_transport ≡ true
        → rejects mcfg hmac inet_aton request host m ≡ false
        → let (n, effects) =
            master_received mcfg hmac inet_aton now (signed pcfg request) host port m in
          (n.registered ≡ true)
          × (n.peer_id ≡ some (be32 pcfg.ipsc_peer_id))
          × ((rest : List Effect) × (effects ≡ sendto (signed mcfg reply) host port ∷ rest))
    unfolding master_received master_dispatch master_handle master_opcode_of on_reg_req send
        ts_flags
    master_registers now port host m up ok =
        rw request_accepted (rw (ok, up) (refl, refl, (_, refl)))

    -- If a peer and a master of this program authenticate alike, with digests of 20 bytes, and
    -- the master does not reject the request: the peer's registration request makes the master
    -- register the peer's id and answer first of all with its registration reply, and that
    -- answer, coming to the peer from the configured host, makes the peer registered with the
    -- master's id, whether it was configured or is learnt (ids below 2 to the 32, and different
    -- ones for master and peer).
    pub registration :
        (now later port peer_port : ℕ) (host : Bytes) (m : Master) (p : Peer)
        → m.has_transport ≡ true
        → rejects mcfg hmac inet_aton request host m ≡ false
        → mcfg.ipsc_master_id < 4294967296
        → mcfg.ipsc_master_id ≢ pcfg.ipsc_peer_id
        → (p.master_id ≡ 0) ⊎ (p.master_id ≡ mcfg.ipsc_master_id)
        → let (n, effects) =
            master_received mcfg hmac inet_aton now (signed pcfg request) host peer_port m in
          (n.registered ≡ true)
          × (n.peer_id ≡ some (be32 pcfg.ipsc_peer_id))
          × ((answer : Bytes) × (rest : List Effect) × (effects
                ≡ sendto answer host peer_port ∷ rest)
              × (let q =
                    (datagram_received pcfg hmac later answer pcfg.ipsc_upstream_master_ip port
                      p).0 in
                  (q.registered ≡ true)
                  × (q.master_id ≡ mcfg.ipsc_master_id)
                  × (q.last_master_rx ≡ later)))
    registration now later port peer_port host m p up ok small other h =
        let (registered, id, (rest, e)) = master_registers now peer_port host m up ok in
        (registered, id, (signed mcfg reply, rest, e, peer_registers later port p small other h))
