-- ===== src/Ipsc/Peer/Keepalive.antt =====
-- ipsc/protocol.py, `IPSCPeerProtocol._maintenance_loop`: peers that do not answer.
use ipsc2hbp.Base.{
  ℕ, suc, ◌+◌, ◌<◌, max, ◌≡◌, ◌≢◌, true, false, some, List, [], ◌∷◌, arith, nat_eq, length, lookup,
}
use ipsc2hbp.Dmr.{Bytes}
use ipsc2hbp.Config.{Config}
use ipsc2hbp.Ipsc.PeerTable.{PeerEntry, Peers, map_peers}
use ipsc2hbp.Ipsc.PeerState.{Peer}
use ipsc2hbp.Ipsc.Peer.{maintain_entry, maintenance}

map_peers-lookup :
    (f : PeerEntry → PeerEntry) (k : ℕ) (d : Peers) (e : PeerEntry)
    → lookup k d ≡ some e
    → lookup k (map_peers f d) ≡ some (f e)
unfolding lookup map_peers
map_peers-lookup f k [] e h = cc
map_peers-lookup f k ((j, x) ∷ d) e h = ground (arith, map_peers-lookup f k d e)

module _ (cfg : Config) (hmac : Bytes → Bytes) where
  -- Rounds of the maintenance loop at some times, with no packet from the peers in between.
  pub rounds : List ℕ → Peer → Peer
  rounds [] p = p
  rounds (now ∷ ts) p = rounds ts (maintenance cfg hmac now p).0

  maintenance-entry :
      (now k : ℕ) (p : Peer) (e : PeerEntry)
      → p.registered ≡ true
      → lookup k p.peers ≡ some e
      → ((maintenance cfg hmac now p).0.registered ≡ true)
        × (lookup k (maintenance cfg hmac now p).0.peers ≡ some (maintain_entry cfg hmac now e))
  unfolding maintenance
  maintenance-entry now k p e r h =
      ground (arith, map_peers-lookup (maintain_entry cfg hmac now) k p.peers e)

  -- An entry after rounds without an answer.
  record IsSilent (n : ℕ) (e e' : PeerEntry) : Type 0 where
    pub same_id : e'.peer_id ≡ e.peer_id
    pub counted : e'.outstanding ≡ n + e.outstanding
    pub unchanged : n ≡ 0 → e'.connected ≡ e.connected
    pub expired : n ≢ 0 → max 1 cfg.ipsc_max_missed < n + e.outstanding → e'.connected ≡ false

  maintained :
      (now n : ℕ) (e e' : PeerEntry)
      → e.peer_id ≢ cfg.ipsc_peer_id
      → IsSilent n (maintain_entry cfg hmac now e) e'
      → IsSilent (suc n) e e'
  unfolding maintain_entry
  maintained now n e e' o h = ground arith

  maintain_entry-peer_id :
      (now : ℕ) (e : PeerEntry)
      → e.peer_id ≢ cfg.ipsc_peer_id
      → (maintain_entry cfg hmac now e).peer_id ≢ cfg.ipsc_peer_id
  unfolding maintain_entry
  maintain_entry-peer_id now e o = ground arith

  rounds-entry :
      (ts : List ℕ) (k : ℕ) (p : Peer) (e : PeerEntry)
      → p.registered ≡ true
      → lookup k p.peers ≡ some e
      → e.peer_id ≢ cfg.ipsc_peer_id
      → ((e' : PeerEntry) × (lookup k (rounds ts p).peers ≡ some e') × IsSilent (length ts) e e')
  unfolding rounds
  rounds-entry [] k p e r h o = (e, h, ground arith)
  rounds-entry (now ∷ ts) k p e r h o =
      let (r', h') = maintenance-entry now k p e r h in
      let same : (maintain_entry cfg hmac now e).peer_id ≢ cfg.ipsc_peer_id =
        maintain_entry-peer_id now e o in
      let (e', found, silent) =
        rounds-entry ts k (maintenance cfg hmac now p).0 (maintain_entry cfg hmac now e) r' h'
          same in
      (e', found, maintained now (length ts) e e' o silent)

  -- While this process is registered, a listed peer that is silent through more rounds of the
  -- keepalive loop than the configuration allows is still in the table, with each round
  -- counted, but is not taken for connected.
  pub silent_peer_expires :
      (ts : List ℕ) (k : ℕ) (p : Peer) (e : PeerEntry)
      → p.registered ≡ true
      → lookup k p.peers ≡ some e
      → e.peer_id ≢ cfg.ipsc_peer_id
      → max 1 cfg.ipsc_max_missed < length ts
      → (e' : PeerEntry) × (lookup k (rounds ts p).peers ≡ some e')
        × (e'.connected ≡ false)
        × (e'.outstanding ≡ length ts + e.outstanding)
  silent_peer_expires ts k p e r h o m =
      let (e', found, silent) = rounds-entry ts k p e r h o in
      (e', found, silent.expired (omega arith) (omega arith), silent.counted)
