-- ===== src/Ipsc/Master.antt =====
-- ipsc/protocol.py: `IPSCProtocol`, the master that a repeater registers with. A method returns
-- the new state and what it did, in order. `inet_aton` is a parameter (`none` is its `OSError`).
pub mod Sessions
pub mod Access
use ipsc2hbp.Base.{
  ℕ, ◌-◌, ◌*◌, Bool, true, false, ◌&&◌, ◌||◌, Option, none, some, List, [], ◌∷◌, ◌++◌, not, ltb,
  nat_eqb, is_some, nonempty, if◌then◌else◌, ◌==◌, bytes_eq, nat_eq, length, slice,
}
use ipsc2hbp.Dmr.{Bytes, be16, be32}
use ipsc2hbp.Config.{Config}
use ipsc2hbp.Ipsc.Const.{
  group_voice, master_reg_req, master_reg_reply, peer_list_req, peer_list_reply, peer_reg_req,
  peer_reg_reply, master_alive_req, master_alive_reply, peer_alive_req, peer_alive_reply,
  de_reg_req, de_reg_reply, ipsc_ver,
}
use ipsc2hbp.Ipsc.Wire.{our_mode, id_i, ts_flags, parse_group_voice_meta}
use ipsc2hbp.Ipsc.Auth.{
  Effect, sendto, peer_registered, peer_lost, ipsc_voice_received, check_call_timeouts,
  authenticated, send,
}

-- `has_transport` tells whether `_transport` is set, `watching` whether the watchdog task runs.
pub record Master : Type 0 where
  pub has_transport : Bool
  pub registered : Bool
  pub peer_id : Option Bytes
  pub peer_ip : Option Bytes
  pub peer_port : Option ℕ
  pub last_ka : ℕ
  pub watching : Bool

-- `__init__`
abbrev pub init_master : Master
init_master = record {
  has_transport = false;
  registered = false;
  peer_id = none;
  peer_ip = none;
  peer_port = none;
  last_ka = 0;
  watching = false;
}

-- The opcodes that the master takes.
pub data Opcode : Type 0 where
  reg_req alive_req list_req dereg_req voice other : Opcode

unfoldable pub opcode_of : ℕ → Opcode
opcode_of n =
    if nat_eqb n master_reg_req
    then reg_req
    else if nat_eqb n master_alive_req
    then alive_req
    else if nat_eqb n peer_list_req
    then list_req
    else if nat_eqb n de_reg_req
    then dereg_req
    else if nat_eqb n group_voice
    then voice
    else other

-- The truth value of `_peer_id` and `_peer_ip`, and of `_peer_port`
abbrev pub set_bytes : Option Bytes → Bool
set_bytes none = false
set_bytes (some b) = nonempty b

abbrev pub set_port : Option ℕ → Bool
set_port none = false
set_port (some n) = not (nat_eqb n 0)

-- `x == self._field`, where the field may be `None`
abbrev pub is_it : Bytes → Option Bytes → Bool
is_it b none = false
is_it b (some c) = b == c

abbrev pub is_port : ℕ → Option ℕ → Bool
is_port n none = false
is_port n (some m) = n == m

-- `data[1:5] if len(data) >= 5 else b"\x00\x00\x00\x00"`
abbrev pub claimed_id : Bytes → Bytes
claimed_id data' = if ltb (length data') 5 then 0x00 ∷ 0x00 ∷ 0x00 ∷ 0x00 ∷ [] else slice 1 5 data'

abbrev pub bytes_or : Option Bytes → Bytes → Bytes
bytes_or none d = d
bytes_or (some b) d = b

abbrev pub port_or : Option ℕ → ℕ → ℕ
port_or none d = d
port_or (some n) d = n

module _ (cfg : Config) (hmac : Bytes → Bytes) where
  -- `_send`
  abbrev pub reply : Master → Bytes → Bytes → ℕ → List Effect
  reply m payload host port = send cfg hmac m.has_transport payload host port

  -- `_master_reg_reply`, `_master_alive_reply`, `_de_reg_reply`
  abbrev pub master_flags : Bytes
  master_flags = ts_flags true cfg.auth_enabled

  abbrev pub reg_reply : Bytes
  reg_reply = master_reg_reply ∷ (be32 cfg.ipsc_master_id ++ (master_flags ++ (be16 1 ++ ipsc_ver)))

  abbrev pub alive_reply : Bytes
  alive_reply = master_alive_reply ∷ (be32 cfg.ipsc_master_id ++ (master_flags ++ ipsc_ver))

  abbrev pub dereg_reply : Bytes
  dereg_reply = de_reg_reply ∷ be32 cfg.ipsc_master_id

  -- `_clear_peer`
  unfoldable pub clear_peer : Master → Master × List Effect
  clear_peer m = (
    record m { registered = false; peer_id = none; peer_ip = none; peer_port = none; last_ka = 0 },
    peer_lost ∷ [],
  )

  -- `send_to_peer`
  unfoldable pub send_to_peer : Bytes → Master → List Effect
  send_to_peer packet m =
      if not m.registered || (not (set_bytes m.peer_ip) || not (set_port m.peer_port))
      then []
      else reply m packet (bytes_or m.peer_ip []) (port_or m.peer_port 0)

  -- `_on_alive_req`
  unfoldable pub on_alive_req : ℕ → Bytes → Bytes → ℕ → Master → Master × List Effect
  on_alive_req now data' host port m =
      if not m.registered || not (is_it (claimed_id data') m.peer_id)
      then (m, [])
      else (record m { last_ka = now }, reply m alive_reply host port)

  -- `_on_de_reg_req`
  unfoldable pub on_de_reg_req : Bytes → Bytes → ℕ → Master → Master × List Effect
  unfolding clear_peer
  on_de_reg_req data' host port m =
      let (m', lost) = clear_peer m in
      if m.registered && is_it (claimed_id data') m.peer_id
      then (m', reply m dereg_reply host port ++ lost)
      else (m, [])

  -- `_on_group_voice`
  unfoldable pub on_group_voice : ℕ → Bytes → Bytes → ℕ → Master → Master × List Effect
  on_group_voice now data' host port m =
      if not m.registered || (not (is_it host m.peer_ip) || not (is_port port m.peer_port))
      then (m, [])
      else if is_some (parse_group_voice_meta data')
      then (record m { last_ka = now }, ipsc_voice_received data' ∷ [])
      else (m, [])

  -- One round of `_watchdog_loop`, after its sleep.
  unfoldable pub watchdog : ℕ → Master → Master × List Effect
  unfolding clear_peer
  watchdog now m =
      let (m', lost) = clear_peer m in
      if m.registered && ltb (cfg.keepalive_watchdog * 1000000) (now - m.last_ka)
      then (m', check_call_timeouts ∷ lost)
      else (m, check_call_timeouts ∷ [])

  module _ (inet_aton : Bytes → Option Bytes) where
    -- `_send_peer_list`
    unfoldable pub send_peer_list : Bytes → ℕ → Master → List Effect
    send_peer_list host port m =
        let entry : Bytes =
          bytes_or m.peer_id []
          ++ (bytes_or (inet_aton (bytes_or m.peer_ip [])) (0x00 ∷ 0x00 ∷ 0x00 ∷ 0x00 ∷ [])
              ++ (be16 (port_or m.peer_port 0) ++ our_mode ∷ [])) in
        if not (set_bytes m.peer_id) || (not (set_bytes m.peer_ip) || not (set_port m.peer_port))
        then []
        else reply m (peer_list_reply ∷ (be32 cfg.ipsc_master_id ++ (be16 (length entry) ++ entry)))
            host port

    -- `_on_peer_list_req`
    unfoldable pub on_peer_list_req : Bytes → Bytes → ℕ → Master → Master × List Effect
    on_peer_list_req data' host port m =
        if not m.registered || not (is_it (claimed_id data') m.peer_id)
        then (m, [])
        else (m, send_peer_list host port m)

    -- The checks of `_on_reg_req`
    unfoldable pub rejects : Bytes → Bytes → Master → Bool
    rejects data' host m =
        ltb (length data') 10
        || ((nonempty cfg.allowed_peer_ip && not (host == cfg.allowed_peer_ip))
            || ((not (nat_eqb cfg.ipsc_peer_id 0)
                  && not (id_i (slice 1 5 data') == cfg.ipsc_peer_id))
                || (m.registered && (set_bytes m.peer_ip && not (is_it host m.peer_ip)))))

    -- `_on_reg_req`
    unfoldable pub on_reg_req : ℕ → Bytes → Bytes → ℕ → Master → Master × List Effect
    unfolding rejects
    on_reg_req now data' host port m =
        let m' : Master = record m {
          registered = true;
          peer_id = some (slice 1 5 data');
          peer_ip = some host;
          peer_port = some port;
          last_ka = now;
        } in
        if rejects data' host m then (m, []) else (
          m',
          reply m' reg_reply host port
              ++ (send_peer_list host port m'
                  ++ (if m.registered
                      then []
                      else peer_registered (slice 1 5 data') host port ∷ [])),
        )

    -- The dispatch of `datagram_received` on the opcode.
    unfoldable pub handle : ℕ → Bytes → Bytes → ℕ → Opcode → Master → Master × List Effect
    unfolding on_reg_req on_alive_req on_peer_list_req on_de_reg_req on_group_voice
    handle now data' host port reg_req m = on_reg_req now data' host port m
    handle now data' host port alive_req m = on_alive_req now data' host port m
    handle now data' host port list_req m = on_peer_list_req data' host port m
    handle now data' host port dereg_req m = on_de_reg_req data' host port m
    handle now data' host port voice m = on_group_voice now data' host port m
    handle now data' host port other m = (m, [])

    unfoldable pub dispatch : ℕ → Bytes → ℕ → Option Bytes → Master → Master × List Effect
    unfolding handle
    dispatch now host port none m = (m, [])
    dispatch now host port (some []) m = (m, [])
    dispatch now host port (some (op ∷ rest)) m = handle now (op ∷ rest) host port (opcode_of op) m

    -- `datagram_received`
    unfoldable pub datagram_received : ℕ → Bytes → Bytes → ℕ → Master → Master × List Effect
    unfolding dispatch
    datagram_received now data' host port m =
        dispatch now host port (authenticated cfg hmac data') m

-- `connection_made`
abbrev pub connection_made : Master → Master
connection_made m = record m { has_transport = true; watching = true }

-- `connection_lost` and `stop`
abbrev pub stop : Master → Master
stop m = record m { watching = false }

-- `is_peer_registered`
abbrev pub is_peer_registered : Master → Bool
is_peer_registered m = m.registered

-- A row of `get_peer_list`
pub record PeerRow : Type 0 where
  pub peer_id : ℕ
  pub ip : Bytes
  pub port : ℕ

row : Option Bytes → Option Bytes → Option ℕ → List PeerRow
row (some b) (some ip) (some port) = record { peer_id = id_i b; ip = ip; port = port } ∷ []
row _ _ _ = []

-- `get_peer_list`
unfoldable pub get_peer_list : Master → List PeerRow
unfolding row
get_peer_list m =
    if not m.registered
      || (not (set_bytes m.peer_id) || (not (set_bytes m.peer_ip) || not (set_port m.peer_port)))
    then []
    else row m.peer_id m.peer_ip m.peer_port
