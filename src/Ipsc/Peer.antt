-- ===== src/Ipsc/Peer.antt =====
-- ipsc/protocol.py: `IPSCPeerProtocol`, which registers with a master and with its other peers. A
-- method returns the new state and what it did, in order.
pub mod Upstream
pub mod Keepalive
use ipsc2hbp.Base.{
  ℕ, ◌+◌, ◌-◌, ◌*◌, max, Bool, true, false, ◌&&◌, ◌||◌, Option, none, some, List, [], ◌∷◌, ◌++◌,
  not, ltb, nat_eqb, is_some, nonempty, if◌then◌else◌, ◌==◌, bytes_eq, nat_eq, length, slice,
  lookup, insert,
}
use ipsc2hbp.Dmr.{Bytes, be32}
use ipsc2hbp.Config.{Config}
use ipsc2hbp.Ipsc.Const.{
  group_voice, master_reg_req, master_reg_reply, peer_list_req, peer_list_reply, peer_reg_req,
  peer_reg_reply, master_alive_req, master_alive_reply, peer_alive_req, peer_alive_reply,
  de_reg_req, de_reg_reply, ipsc_ver,
}
use ipsc2hbp.Ipsc.Wire.{id_i, ts_flags, parse_group_voice_meta, safe_peer_id}
use ipsc2hbp.Ipsc.Auth.{
  Effect, peer_registered, peer_lost, ipsc_voice_received, check_call_timeouts, authenticated, send,
}
use ipsc2hbp.Ipsc.PeerTable.{PeerEntry, Peers, new_entry, apply_list, map_peers}
use ipsc2hbp.Ipsc.PeerState.{
  reg_reply, alive_reply, list_reply, preg_req, preg_reply, palive_req, palive_reply, voice,
  dereg_req, dereg_reply, other, Opcode, Peer, Sender, accept_peer, init_peer, is_master_opcode,
  is_master_reply, is_master_source, is_peer_opcode, known, opcode_of, put_peer, sender,
  set_connected, stranger, touch_master, touch_peer, upstream,
}

-- The effects of a loop over the peers.
send_each : (PeerEntry → List Effect) → Peers → List Effect
send_each f [] = []
send_each f ((k, e) ∷ d) = f e ++ send_each f d

module _ (cfg : Config) (hmac : Bytes → Bytes) where
  -- `_send` and `_send_to_master`
  abbrev pub send_to : Peer → Bytes → Bytes → ℕ → List Effect
  send_to p payload host port = send cfg hmac p.has_transport payload host port

  abbrev pub send_to_master : Peer → Bytes → List Effect
  send_to_master p payload = send_to p payload p.master_ip p.master_port

  abbrev pub send_to_configured : Peer → Bytes → List Effect
  send_to_configured p payload = send_to p payload p.master_ip cfg.ipsc_upstream_master_port

  abbrev pub local_id : Bytes
  local_id = be32 cfg.ipsc_peer_id

  abbrev pub peer_flags : Bytes
  peer_flags = ts_flags false cfg.auth_enabled

  abbrev pub reg_req_packet : Bytes
  reg_req_packet = master_reg_req ∷ (local_id ++ (peer_flags ++ ipsc_ver))

  abbrev pub alive_req_packet : Bytes
  alive_req_packet = master_alive_req ∷ (local_id ++ (peer_flags ++ ipsc_ver))

  abbrev pub list_req_packet : Bytes
  list_req_packet = peer_list_req ∷ local_id

  -- `connection_made`
  unfoldable pub connection_made : Peer → Peer × List Effect
  connection_made p =
      let p' : Peer = record p { has_transport = true; running = true } in
      (p', send_to_configured p' reg_req_packet)

  connected_only : (PeerEntry → List Effect) → PeerEntry → List Effect
  connected_only f e = if e.connected then f e else []

  -- `send_to_peer`
  unfoldable pub send_to_peer : Bytes → Peer → List Effect
  unfolding send_each connected_only
  send_to_peer packet p =
      if p.registered
      then send_to_master p packet
        ++ send_each (connected_only (λ e. send_to p packet e.ip e.port)) p.peers
      else []

  -- `stop`
  unfoldable pub stop : Peer → Peer × List Effect
  unfolding send_each connected_only
  stop p = (
    record p { running = false },
    if p.registered
        then send_to_master p (de_reg_req ∷ local_id)
          ++ send_each (connected_only (λ e. send_to p (de_reg_req ∷ local_id) e.ip e.port)) p.peers
        else [],
  )

  -- `_clear_master_registration`
  unfoldable pub clear_master_registration : Peer → Peer × List Effect
  unfolding map_peers
  clear_master_registration p =
      if p.registered
      then (
        record p {
          registered = false;
          master_outstanding = 0;
          peer_list_seen = false;
          master_reg_reported = false;
          peers = map_peers (set_connected false) p.peers;
        },
        peer_lost ∷ [],
      )
      else (p, [])

  -- `_on_master_reg_reply`
  unfoldable pub on_master_reg_reply : ℕ → Bytes → Bytes → ℕ → Peer → Peer × List Effect
  unfolding touch_master
  on_master_reg_reply now data' host port p =
      let q = touch_master now (id_i (slice 1 5 data')) host port p in
      let reports = not p.registered && not p.master_reg_reported in
      let r : Peer = record q {
        master_mode = slice 5 6 data';
        master_num_peers = id_i (slice 10 12 data');
        registered = true;
        master_reg_reported = p.master_reg_reported || reports;
      } in
      if ltb (length data') 16 then (p, []) else (
        r,
        (if reports then peer_registered local_id host port ∷ [] else [])
            ++ send_to_master r list_req_packet,
      )

  -- `_on_master_alive_reply`
  unfoldable pub on_master_alive_reply : ℕ → Bytes → Bytes → ℕ → Peer → Peer × List Effect
  unfolding touch_master
  on_master_alive_reply now data' host port p =
      let q = touch_master now (safe_peer_id data') host port p in
      (q, if p.registered then [] else send_to_master q reg_req_packet)

  -- `_on_peer_list_reply`
  unfoldable pub on_peer_list_reply : ℕ → Bytes → Bytes → ℕ → Peer → Peer × List Effect
  unfolding touch_master
  on_peer_list_reply now data' host port p =
      let q = touch_master now (safe_peer_id data') host port p in
      let n = id_i (slice 5 7 data') in
      let payload = slice 7 (7 + n) data' in
      if ltb (length data') 7 then (p, []) else if ltb (length payload) n then (q, []) else (
        record q {
          peers = apply_list cfg.ipsc_peer_list_prune cfg.ipsc_peer_id q.master_id payload q.peers;
          peer_list_seen = true;
        },
        [],
      )

  -- `_on_group_voice`
  abbrev pub on_group_voice : Bytes → Peer → Peer × List Effect
  on_group_voice data' p =
      (p, if is_some (parse_group_voice_meta data') then ipsc_voice_received data' ∷ [] else [])

  -- The opcodes of `datagram_received`, from the master: nothing but these is the master's.
  unfoldable pub from_master : ℕ → Bytes → Bytes → ℕ → Opcode → Peer → Peer × List Effect
  unfolding on_master_reg_reply on_master_alive_reply on_peer_list_reply clear_master_registration
  from_master now data' host port reg_reply p = on_master_reg_reply now data' host port p
  from_master now data' host port alive_reply p = on_master_alive_reply now data' host port p
  from_master now data' host port list_reply p = on_peer_list_reply now data' host port p
  from_master now data' host port voice p = if p.registered then on_group_voice data' p else (p, [])
  from_master now data' host port dereg_req p = clear_master_registration p
  from_master now data' host port dereg_reply p = clear_master_registration p
  from_master now data' host port _ p = (p, [])

  -- The same, from a peer with its touched entry.
  unfoldable pub from_peer : Bytes → ℕ → PeerEntry → Opcode → Peer → Peer × List Effect
  from_peer data' src_id e preg_req p = (
    put_peer src_id (set_connected true e) p,
    send_to p (peer_reg_reply ∷ (local_id ++ ipsc_ver)) e.ip e.port,
  )
  from_peer data' src_id e preg_reply p = (put_peer src_id (set_connected true e) p, [])
  from_peer data' src_id e palive_req p = (
    put_peer src_id (set_connected true e) p,
    send_to p (peer_alive_reply ∷ (local_id ++ peer_flags)) e.ip e.port,
  )
  from_peer data' src_id e palive_reply p = (put_peer src_id (set_connected true e) p, [])
  from_peer data' src_id e voice p = if p.registered then on_group_voice data' p else (p, [])
  from_peer data' src_id e dereg_req p =
      (put_peer src_id (set_connected false e) p, send_to p (de_reg_reply ∷ local_id) e.ip e.port)
  from_peer data' src_id e dereg_reply p = (put_peer src_id (set_connected false e) p, [])
  from_peer data' src_id e _ p = (p, [])

  unfoldable pub handle : ℕ → Bytes → ℕ → Bytes → ℕ → Opcode → Sender → Peer → Peer × List Effect
  unfolding from_master from_peer
  handle now data' src_id host port op upstream p =
      from_master now data' host port op (touch_master now src_id host port p)
  handle now data' src_id host port op (known e) p =
      let e' = touch_peer now host port e in from_peer data' src_id e' op (put_peer src_id e' p)
  handle now data' src_id host port op stranger p = (p, [])

  unfoldable pub dispatch : ℕ → Bytes → ℕ → Option Bytes → Peer → Peer × List Effect
  unfolding handle sender
  dispatch now host port none p = (p, [])
  dispatch now host port (some []) p = (p, [])
  dispatch now host port (some (op ∷ rest)) p =
      let data' : Bytes = op ∷ rest in
      let src_id = safe_peer_id data' in
      if nat_eqb src_id cfg.ipsc_peer_id
      then (p, [])
      else handle now data' src_id host port (opcode_of op)
          (sender cfg now src_id host port (opcode_of op) p) p

  -- `datagram_received`
  unfoldable pub datagram_received : ℕ → Bytes → Bytes → ℕ → Peer → Peer × List Effect
  unfolding dispatch
  datagram_received now data' host port p = dispatch now host port (authenticated cfg hmac data') p

  -- What a round of `_maintenance_loop` does with a peer.
  unfoldable pub maintain_entry : ℕ → PeerEntry → PeerEntry
  maintain_entry now e = if nat_eqb e.peer_id cfg.ipsc_peer_id then e else record e {
    last_tx = now;
    outstanding = 1 + e.outstanding;
    connected = e.connected && not (ltb (max 1 cfg.ipsc_max_missed) (1 + e.outstanding));
  }

  maintain_send : Peer → PeerEntry → List Effect
  maintain_send p e =
      if nat_eqb e.peer_id cfg.ipsc_peer_id
      then []
      else send_to p
          (if e.connected
            then peer_alive_req ∷ (local_id ++ peer_flags)
            else peer_reg_req ∷ (local_id ++ ipsc_ver))
          e.ip e.port

  -- One round of `_maintenance_loop`, after its sleep.
  unfoldable pub maintenance : ℕ → Peer → Peer × List Effect
  unfolding send_each maintain_send maintain_entry map_peers
  maintenance now p =
      if p.registered
      then (
        record p {
          master_outstanding = 1 + p.master_outstanding;
          peers = map_peers (maintain_entry now) p.peers;
        },
        send_to_master p alive_req_packet
            ++ ((if p.peer_list_seen then [] else send_to_master p list_req_packet)
                ++ send_each (maintain_send p) p.peers),
      )
      else (
        record p { master_outstanding = 1 + p.master_outstanding },
        send_to_configured p reg_req_packet,
      )

  -- `peer_timeout`, in microseconds
  abbrev pub peer_timeout : ℕ
  peer_timeout = max 1 cfg.ipsc_peer_alive_interval * max 1 cfg.ipsc_max_missed * 1000000

  -- One round of `_watchdog_loop`, after its sleep.
  unfoldable pub watchdog : ℕ → Peer → Peer × List Effect
  unfolding clear_master_registration
  watchdog now p =
      let (p', lost) = clear_master_registration p in
      if p.registered
        && (not (nat_eqb p.last_master_rx 0) && ltb peer_timeout (now - p.last_master_rx))
      then (p', check_call_timeouts ∷ lost)
      else (p, check_call_timeouts ∷ [])

-- `is_peer_registered`
abbrev pub is_peer_registered : Peer → Bool
is_peer_registered p = p.registered
