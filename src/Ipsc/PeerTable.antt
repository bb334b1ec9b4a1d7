-- ===== src/Ipsc/PeerTable.antt =====
-- ipsc/protocol.py: `_PeerEntry`, the table `_peers` of an IPSC peer, and the peer list that the
-- master sends (`_on_peer_list_reply`).
pub mod Listing
use ipsc2hbp.Base.{
  ℕ, zero, suc, ◌+◌, ◌-◌, ◌*◌, ◌/◌, ◌%◌, max, Bool, true, false, ◌&&◌, ◌||◌, Option, none, some,
  List, [], ◌∷◌, ◌++◌, not, ltb, leb, nat_eqb, is_some, if◌then◌else◌, ◌==◌, nat_eq, bytes_eq,
  length, take, drop, slice, Dict, lookup, insert,
}
use ipsc2hbp.Dmr.{Bytes, from_be}
use ipsc2hbp.Ipsc.Wire.{our_mode, id_i, peer_entry_len}

-- `_PeerEntry`; times are microseconds.
pub record PeerEntry : Type 0 where
  pub peer_id : ℕ
  pub ip : Bytes
  pub port : ℕ
  pub mode : Bytes
  pub connected : Bool
  pub from_peer_list : Bool
  pub last_rx : ℕ
  pub last_tx : ℕ
  pub outstanding : ℕ

abbrev pub Peers : Type 0
Peers = Dict ℕ PeerEntry

-- The entry with the defaults of its fields.
abbrev pub new_entry : ℕ → Bytes → ℕ → PeerEntry
new_entry peer_id ip port = record {
  peer_id = peer_id;
  ip = ip;
  port = port;
  mode = our_mode ∷ [];
  connected = false;
  from_peer_list = true;
  last_rx = 0;
  last_tx = 0;
  outstanding = 0;
}

-- The decimal digits of a byte.
abbrev pub digits : ℕ → Bytes
digits n =
    if ltb n 10
    then (0x30 + n) ∷ []
    else if ltb n 100
    then (0x30 + n / 10) ∷ (0x30 + n % 10) ∷ []
    else (0x30 + n / 100) ∷ (0x30 + n / 10 % 10) ∷ (0x30 + n % 10) ∷ []

-- `str(ipaddress.IPv4Address(b))`: the bytes in decimal, with dots between them.
unfoldable pub ipv4_text : Bytes → Bytes
ipv4_text [] = []
ipv4_text (b ∷ []) = digits b
ipv4_text (b ∷ c ∷ bs) = digits b ++ 0x2e ∷ ipv4_text (c ∷ bs)

-- An entry of the list: an id, an address, a port and a mode.
pub record Listed : Type 0 where
  pub peer_id : ℕ
  pub ip : Bytes
  pub port : ℕ
  pub mode : Bytes

abbrev pub read_entry : Bytes → Listed
read_entry entry = record {
  peer_id = id_i (slice 0 4 entry);
  ip = ipv4_text (slice 4 8 entry);
  port = id_i (slice 8 10 entry);
  mode = slice 10 11 entry;
}

-- The entries at the offsets of the loop, as many as the payload has in full.
unfoldable pub read_entries : ℕ → Bytes → List Listed
read_entries zero payload = []
read_entries (suc n) payload =
    read_entry (take peer_entry_len payload) ∷ read_entries n (drop peer_entry_len payload)

unfoldable pub entries : Bytes → List Listed
unfolding read_entries
entries payload = read_entries (length payload / peer_entry_len) payload

-- `peer_id in {0, self._local_id_i, self._master_id_i}`
unfoldable pub is_skipped : ℕ → ℕ → ℕ → Bool
is_skipped local_id master_id peer_id =
    nat_eqb peer_id 0 || (nat_eqb peer_id local_id || nat_eqb peer_id master_id)

-- What the loop does with an entry that it does not skip.
unfoldable pub listed_entry : Listed → Option PeerEntry → PeerEntry
listed_entry l none = record (new_entry l.peer_id l.ip l.port) { mode = l.mode }
listed_entry l (some e) = record e {
  ip = l.ip;
  port = l.port;
  mode = l.mode;
  from_peer_list = true;
}

module _ (local_id master_id : ℕ) where
  -- The body of the loop, on the table and the set `seen`, and the loop.
  unfoldable pub merge_entry : Listed → Peers × List ℕ → Peers × List ℕ
  unfolding is_skipped listed_entry
  merge_entry l (peers, seen) =
      if is_skipped local_id master_id l.peer_id
      then (peers, seen)
      else (insert l.peer_id (listed_entry l (lookup l.peer_id peers)) peers, l.peer_id ∷ seen)

  unfoldable pub merge : List Listed → Peers × List ℕ → Peers × List ℕ
  unfolding merge_entry
  merge [] s = s
  merge (l ∷ ls) s = merge ls (merge_entry l s)

-- `x in seen`
unfoldable pub is_seen : ℕ → List ℕ → Bool
is_seen x [] = false
is_seen x (y ∷ ys) = nat_eqb y x || is_seen x ys

-- The pruning of the peers that the master no longer lists.
unfoldable pub prune_peers : List ℕ → Peers → Peers
unfolding is_seen
prune_peers seen [] = []
prune_peers seen ((k, e) ∷ d) =
    let rest = prune_peers seen d in
    if e.from_peer_list && not (is_seen k seen) then rest else (k, e) ∷ rest

-- What the whole reply does to the table.
unfoldable pub apply_list : Bool → ℕ → ℕ → Bytes → Peers → Peers
unfolding merge prune_peers entries
apply_list prunes local_id master_id payload peers =
    let (merged, seen) = merge local_id master_id (entries payload) (peers, []) in
    if prunes then prune_peers seen merged else merged

-- An update of every entry, in the order of the table.
unfoldable pub map_peers : (PeerEntry → PeerEntry) → Peers → Peers
map_peers f [] = []
map_peers f ((k, e) ∷ d) = (k, f e) ∷ map_peers f d
