-- ===== src/Ipsc/PeerState.antt =====
-- ipsc/protocol.py, `IPSCPeerProtocol`: its state, its opcodes, and who sent a packet
-- (`_is_master_source`, `_accept_or_get_peer`, `_touch_master`, `_touch_peer`).
use ipsc2hbp.Base.{
  ℕ, Bool, true, false, ◌&&◌, ◌||◌, Option, none, some, [], ◌∷◌, not, nat_eqb, if◌then◌else◌, ◌==◌,
  bytes_eq, nat_eq, lookup, insert,
}
use ipsc2hbp.Dmr.{Bytes}
use ipsc2hbp.Config.{Config}
use ipsc2hbp.Ipsc.Const.{
  group_voice, master_reg_reply, peer_list_reply, peer_reg_req, peer_reg_reply, master_alive_reply,
  peer_alive_req, peer_alive_reply, de_reg_req, de_reg_reply,
}
use ipsc2hbp.Ipsc.PeerTable.{PeerEntry, Peers, new_entry}

-- `master_id` is 0 until it is configured or learnt. `running` tells whether the maintenance and
-- watchdog tasks run.
pub record Peer : Type 0 where
  pub has_transport : Bool
  pub running : Bool
  pub master_ip : Bytes
  pub master_port : ℕ
  pub master_id : ℕ
  pub registered : Bool
  pub master_num_peers : ℕ
  pub master_mode : Bytes
  pub last_master_rx : ℕ
  pub master_outstanding : ℕ
  pub master_reg_reported : Bool
  pub peer_list_seen : Bool
  pub peers : Peers

-- `__init__`
abbrev pub init_peer : Config → Peer
init_peer cfg = record {
  has_transport = false;
  running = false;
  master_ip = cfg.ipsc_upstream_master_ip;
  master_port = cfg.ipsc_upstream_master_port;
  master_id = cfg.ipsc_upstream_master_id;
  registered = false;
  master_num_peers = 0;
  master_mode = 0x00 ∷ [];
  last_master_rx = 0;
  master_outstanding = 0;
  master_reg_reported = false;
  peer_list_seen = false;
  peers = [];
}

pub data Opcode : Type 0 where
  reg_reply alive_reply list_reply preg_req preg_reply palive_req palive_reply voice dereg_req
        dereg_reply other :
      Opcode

unfoldable pub opcode_of : ℕ → Opcode
opcode_of n =
    if nat_eqb n master_reg_reply
    then reg_reply
    else if nat_eqb n master_alive_reply
    then alive_reply
    else if nat_eqb n peer_list_reply
    then list_reply
    else if nat_eqb n peer_reg_req
    then preg_req
    else if nat_eqb n peer_reg_reply
    then preg_reply
    else if nat_eqb n peer_alive_req
    then palive_req
    else if nat_eqb n peer_alive_reply
    then palive_reply
    else if nat_eqb n group_voice
    then voice
    else if nat_eqb n de_reg_req
    then dereg_req
    else if nat_eqb n de_reg_reply
    then dereg_reply
    else other

-- `opcode in {MASTER_REG_REPLY, MASTER_ALIVE_REPLY, PEER_LIST_REPLY}`
abbrev pub is_master_reply : Opcode → Bool
is_master_reply reg_reply = true
is_master_reply alive_reply = true
is_master_reply list_reply = true
is_master_reply _ = false

-- The opcodes that `_is_master_source` takes.
abbrev pub is_master_opcode : Opcode → Bool
is_master_opcode voice = true
is_master_opcode dereg_req = true
is_master_opcode dereg_reply = true
is_master_opcode op = is_master_reply op

-- The opcodes by which `_accept_or_get_peer` takes in a peer that is not listed.
abbrev pub is_peer_opcode : Opcode → Bool
is_peer_opcode preg_req = true
is_peer_opcode preg_reply = true
is_peer_opcode palive_req = true
is_peer_opcode palive_reply = true
is_peer_opcode voice = true
is_peer_opcode dereg_req = true
is_peer_opcode dereg_reply = true
is_peer_opcode _ = false

-- `_touch_master`
unfoldable pub touch_master : ℕ → ℕ → Bytes → ℕ → Peer → Peer
touch_master now src_id host port p = record p {
  master_id = if not (nat_eqb src_id 0) && nat_eqb p.master_id 0 then src_id else p.master_id;
  master_ip = host;
  master_port = port;
  last_master_rx = now;
  master_outstanding = 0;
}

-- `_touch_peer`
abbrev pub touch_peer : ℕ → Bytes → ℕ → PeerEntry → PeerEntry
touch_peer now host port e = record e { ip = host; port = port; last_rx = now }

-- `peer.connected = …; peer.outstanding = 0`
abbrev pub set_connected : Bool → PeerEntry → PeerEntry
set_connected b e = record e { connected = b; outstanding = 0 }

-- A packet's sender: the master, a peer with its entry, or nobody known.
pub data Sender : Type 0 where
  upstream : Sender
  known : PeerEntry → Sender
  stranger : Sender

module _ (cfg : Config) where
  -- `_is_master_source`
  unfoldable pub is_master_source : ℕ → Bytes → Opcode → Peer → Bool
  is_master_source src_id host op p =
      (host == cfg.ipsc_upstream_master_ip)
      && ((nat_eqb p.master_id 0 || (nat_eqb src_id 0 || nat_eqb src_id p.master_id))
          && is_master_opcode op)

  -- `_accept_or_get_peer` on a table that has the entry or not
  unfoldable pub accept_peer : ℕ → ℕ → Bytes → ℕ → Opcode → Option PeerEntry → Sender
  accept_peer now src_id host port op (some e) = known e
  accept_peer now src_id host port op none =
      if cfg.ipsc_peer_list_allow_unknown && is_peer_opcode op
      then known (record (new_entry src_id host port) { from_peer_list = false; last_rx = now })
      else stranger

  -- Who sent the packet, by `_is_master_source` and `_accept_or_get_peer`.
  unfoldable pub sender : ℕ → ℕ → Bytes → ℕ → Opcode → Peer → Sender
  unfolding is_master_source accept_peer
  sender now src_id host port op p =
      if is_master_source src_id host op p
      then upstream
      else if nat_eqb src_id 0
      then stranger
      else accept_peer now src_id host port op (lookup src_id p.peers)

-- `peer` is the object in the table: a change to it is a change there.
abbrev pub put_peer : ℕ → PeerEntry → Peer → Peer
put_peer src_id e p = record p { peers = insert src_id e p.peers }
