-- ===== src/Ipsc/Peer/Upstream.antt =====
-- ipsc/protocol.py, `IPSCPeerProtocol`: the registration with the master over time.
use ipsc2hbp.Base.{
  ℕ, ◌≡◌, ◌≢◌, refl, ◌∙◌, Bool, true, false, Option, none, some, List, [], ◌∷◌, ◌++◌, arith,
  nat_eqb, if◌then◌else◌, ◌==◌, bytes_eq, nat_eq, insert,
}
use ipsc2hbp.Dmr.{Bytes}
use ipsc2hbp.Config.{Config}
use ipsc2hbp.Ipsc.Const.{de_reg_req}
use ipsc2hbp.Ipsc.Wire.{safe_peer_id}
use ipsc2hbp.Ipsc.Auth.{Effect, authenticated, send}
use ipsc2hbp.Ipsc.Follow.{follow, follow-append}
use ipsc2hbp.Ipsc.PeerTable.{PeerEntry, Peers}
use ipsc2hbp.Ipsc.PeerState.{
  reg_reply, alive_reply, list_reply, preg_req, preg_reply, palive_req, palive_reply, voice,
  dereg_req, dereg_reply, other, Peer, init_peer, Opcode, opcode_of, touch_master, is_master_source,
  accept_peer, sender, Sender, upstream, known, stranger,
}
use ipsc2hbp.Ipsc.Peer.{
  connection_made, send_each, connected_only, stop, clear_master_registration, on_master_reg_reply,
  on_master_alive_reply, on_peer_list_reply, from_master, from_peer, handle, dispatch,
  datagram_received, maintain_send, maintenance, watchdog, local_id,
}

-- What happens to the peer.
pub data Event : Type 0 where
  datagram : ℕ → Bytes → Bytes → ℕ → Event
  maintenance_due watchdog_due : ℕ → Event
  stopped : Event

-- The registration that was reported to the translator is the one that there is.
abbrev pub IsReported : Peer → Type 0
IsReported p = p.master_reg_reported ≡ p.registered

-- What a handler has to keep for the translator: the calls take turns, and what is reported stays
-- what there is.
abbrev Turns : Peer → Peer × List Effect → Type 0
Turns p r = (follow p.registered r.1 ≡ some r.0.registered) × IsReported r.0

module _ (cfg : Config) (hmac : Bytes → Bytes) where
  unfoldable pub react : Event → Peer → Peer × List Effect
  react (datagram now data' host port) p = datagram_received cfg hmac now data' host port p
  react (maintenance_due now) p = maintenance cfg hmac now p
  react (watchdog_due now) p = watchdog cfg hmac now p
  react stopped p = stop cfg hmac p

  pub run : List Event → Peer → Peer × List Effect
  unfolding react
  run [] p = (p, [])
  run (e ∷ es) p =
      let (p', effects) = react e p in let (p'', rest) = run es p' in (p'', effects ++ rest)

  from_master-Turns :
      (now : ℕ) (data' host : Bytes) (port : ℕ) (op : Opcode) (p : Peer)
      → IsReported p
      → Turns p (from_master cfg hmac now data' host port op p)
  unfolding from_master on_master_reg_reply on_master_alive_reply on_peer_list_reply
      clear_master_registration touch_master follow send
  from_master-Turns now data' host port reg_reply p h = ground arith
  from_master-Turns now data' host port alive_reply p h = ground arith
  from_master-Turns now data' host port list_reply p h = ground arith
  from_master-Turns now data' host port preg_req p h = (refl, h)
  from_master-Turns now data' host port preg_reply p h = (refl, h)
  from_master-Turns now data' host port palive_req p h = (refl, h)
  from_master-Turns now data' host port palive_reply p h = (refl, h)
  from_master-Turns now data' host port voice p h = ground arith
  from_master-Turns now data' host port dereg_req p h = ground arith
  from_master-Turns now data' host port dereg_reply p h = ground arith
  from_master-Turns now data' host port other p h = (refl, h)

  from_peer-Turns :
      (data' : Bytes) (src_id : ℕ) (e : PeerEntry) (op : Opcode) (p : Peer)
      → IsReported p
      → Turns p (from_peer cfg hmac data' src_id e op p)
  unfolding from_peer follow send
  from_peer-Turns data' src_id e reg_reply p h = (refl, h)
  from_peer-Turns data' src_id e alive_reply p h = (refl, h)
  from_peer-Turns data' src_id e list_reply p h = (refl, h)
  from_peer-Turns data' src_id e preg_req p h = ground arith
  from_peer-Turns data' src_id e preg_reply p h = (refl, h)
  from_peer-Turns data' src_id e palive_req p h = ground arith
  from_peer-Turns data' src_id e palive_reply p h = (refl, h)
  from_peer-Turns data' src_id e voice p h = ground arith
  from_peer-Turns data' src_id e dereg_req p h = ground arith
  from_peer-Turns data' src_id e dereg_reply p h = (refl, h)
  from_peer-Turns data' src_id e other p h = (refl, h)

  handle-Turns :
      (now : ℕ) (data' : Bytes) (src_id : ℕ) (host : Bytes) (port : ℕ) (op : Opcode) (s : Sender)
      (p : Peer)
      → IsReported p
      → Turns p (handle cfg hmac now data' src_id host port op s p)
  unfolding handle touch_master follow
  handle-Turns now data' src_id host port op upstream p h =
      from_master-Turns now data' host port op (touch_master now src_id host port p) h
  handle-Turns now data' src_id host port op (known e) p h =
      from_peer-Turns data' src_id (record e { ip = host; port = port; last_rx = now }) op
        (record p {
          peers = insert src_id (record e { ip = host; port = port; last_rx = now }) p.peers;
        })
        h
  handle-Turns now data' src_id host port op stranger p h = (refl, h)

  dispatch-Turns :
      (now : ℕ) (host : Bytes) (port : ℕ) (o : Option Bytes) (p : Peer)
      → IsReported p
      → Turns p (dispatch cfg hmac now host port o p)
  unfolding dispatch follow
  dispatch-Turns now host port none p h = (refl, h)
  dispatch-Turns now host port (some []) p h = (refl, h)
  dispatch-Turns now host port (some (op ∷ rest)) p h =
      elim (nat_eqb (safe_peer_id (op ∷ rest)) cfg.ipsc_peer_id)
        as (λ b. Turns p (
          if b
          then (p, [])
          else handle cfg hmac now (op ∷ rest) (safe_peer_id (op ∷ rest)) host port (opcode_of op)
              (sender cfg now (safe_peer_id (op ∷ rest)) host port (opcode_of op) p) p)) [
                | true ↦ (refl, h)
                | false ↦
                    handle-Turns now (op ∷ rest) (safe_peer_id (op ∷ rest)) host port (opcode_of op)
                      (sender cfg now (safe_peer_id (op ∷ rest)) host port (opcode_of op) p) p h
              ]

  -- Loops over the peers send datagrams only.
  send_each-follow :
      (f : PeerEntry → List Effect) (up : Bool)
      → ((e : PeerEntry) → follow up (f e) ≡ some up)
      → (d : Peers) → follow up (send_each f d) ≡ some up
  unfolding send_each follow
  send_each-follow f up h [] = refl
  send_each-follow f up h ((k, e) ∷ d) =
      follow-append up up (f e) (send_each f d) (h e) ∙ send_each-follow f up h d

  send-follow :
      (up b : Bool) (payload host : Bytes) (port : ℕ)
      → follow up (send cfg hmac b payload host port) ≡ some up
  unfolding follow send
  send-follow up b payload host port = ground arith

  maintain_send-follow :
      (p : Peer) (up : Bool) (e : PeerEntry) → follow up (maintain_send cfg hmac p e) ≡ some up
  unfolding follow maintain_send send
  maintain_send-follow p up e = ground arith

  connected_only-follow :
      (p : Peer) (b : Bytes) (up : Bool) (e : PeerEntry)
      → follow up (connected_only cfg hmac (λ e. send cfg hmac p.has_transport b e.ip e.port) e)
        ≡ some up
  unfolding follow connected_only send
  connected_only-follow p b up e = ground arith

  pub react-Turns : (e : Event) (p : Peer) → IsReported p → Turns p (react e p)
  unfolding react datagram_received maintenance watchdog stop clear_master_registration follow send
  react-Turns (datagram now data' host port) p h =
      dispatch-Turns now host port (authenticated cfg hmac data') p h
  react-Turns (maintenance_due now) p h =
      let each =
        send_each-follow (maintain_send cfg hmac p) p.registered
          (maintain_send-follow p p.registered) p.peers in
      ground (arith, each)
  react-Turns (watchdog_due now) p h = ground arith
  react-Turns stopped p h =
      let b : Bytes = de_reg_req ∷ local_id cfg hmac in
      let each =
        send_each-follow
          (connected_only cfg hmac (λ e. send cfg hmac p.has_transport b e.ip e.port)) p.registered
          (connected_only-follow p b p.registered) p.peers in
      ground (arith, each)

  run-Turns : (es : List Event) (p : Peer) → IsReported p → Turns p (run es p)
  unfolding run follow
  run-Turns [] p h = (refl, h)
  run-Turns (e ∷ es) p h =
      let (one, h') = react-Turns e p h in
      let (rest, last) = run-Turns es (react e p).0 h' in
      (
        follow-append p.registered (react e p).0.registered (react e p).1 (run es (react e p).0).1
              one
            ∙ rest,
        last,
      )

  -- From its opened endpoint on, whatever datagrams come to the IPSC peer, whenever its loops
  -- run and if it is stopped, the translator is told of the registration and of its loss in
  -- turn, is given voice only in between, and the last such call agrees with whether this
  -- process is registered.
  pub run_peer-follow :
      (es : List Event)
      → follow false (run es (connection_made cfg hmac (init_peer cfg)).0).1
        ≡ some (run es (connection_made cfg hmac (init_peer cfg)).0).0.registered
  unfolding connection_made
  run_peer-follow es = (run-Turns es (connection_made cfg hmac (init_peer cfg)).0 refl).0

  -- What only the master changes.
  abbrev pub SameMaster : Peer → Peer → Type 0
  SameMaster p q =
      (q.registered ≡ p.registered)
      × (q.master_id ≡ p.master_id)
      × (q.master_ip ≡ p.master_ip)
      × (q.master_port ≡ p.master_port)
      × (q.last_master_rx ≡ p.last_master_rx)
      × (q.peer_list_seen ≡ p.peer_list_seen)

  from_peer-SameMaster :
      (data' : Bytes) (src_id : ℕ) (e : PeerEntry) (op : Opcode) (p : Peer)
      → SameMaster p (from_peer cfg hmac data' src_id e op p).0
  unfolding from_peer
  from_peer-SameMaster data' src_id e op p = ground arith

  sender_not_upstream :
      (now src_id : ℕ) (host : Bytes) (port : ℕ) (op : Opcode) (p : Peer)
      → (host == cfg.ipsc_upstream_master_ip) ≡ false
      → sender cfg now src_id host port op p ≢ upstream
  unfolding sender is_master_source accept_peer
  sender_not_upstream now src_id host port op p h = ground arith

  handle-SameMaster :
      (now : ℕ) (data' : Bytes) (src_id : ℕ) (host : Bytes) (port : ℕ) (op : Opcode) (s : Sender)
      (p : Peer)
      → s ≢ upstream
      → SameMaster p (handle cfg hmac now data' src_id host port op s p).0
  unfolding handle
  handle-SameMaster now data' src_id host port op upstream p h = absurd (h refl)
  handle-SameMaster now data' src_id host port op (known e) p h =
      from_peer-SameMaster data' src_id (record e { ip = host; port = port; last_rx = now }) op
        (record p {
          peers = insert src_id (record e { ip = host; port = port; last_rx = now }) p.peers;
        })
  handle-SameMaster now data' src_id host port op stranger p h =
      (refl, refl, refl, refl, refl, refl)

  dispatch-SameMaster :
      (now : ℕ) (host : Bytes) (port : ℕ) (o : Option Bytes) (p : Peer)
      → (host == cfg.ipsc_upstream_master_ip) ≡ false
      → SameMaster p (dispatch cfg hmac now host port o p).0
  unfolding dispatch
  dispatch-SameMaster now host port none p h = (refl, refl, refl, refl, refl, refl)
  dispatch-SameMaster now host port (some []) p h = (refl, refl, refl, refl, refl, refl)
  dispatch-SameMaster now host port (some (op ∷ rest)) p h =
      let src_id = safe_peer_id (op ∷ rest) in
      let s = sender cfg now src_id host port (opcode_of op) p in
      let same =
        handle-SameMaster now (op ∷ rest) src_id host port (opcode_of op) s p
          (sender_not_upstream now src_id host port (opcode_of op) p h) in
      ground (arith, same)

  -- A datagram from any host but the configured master's, whatever it holds and whatever id it
  -- claims, changes nothing of the registration with the master: neither the state, the learnt
  -- id, the address nor the time of the last sign of life.
  pub only_master_host :
      (now : ℕ) (data' host : Bytes) (port : ℕ) (p : Peer)
      → (host == cfg.ipsc_upstream_master_ip) ≡ false
      → SameMaster p (datagram_received cfg hmac now data' host port p).0
  unfolding datagram_received
  only_master_host now data' host port p h =
      dispatch-SameMaster now host port (authenticated cfg hmac data') p h
