-- ===== src/Config/Settings.antt =====
-- config.py, `load`: what it reads of each section, in the order of the source.
pub mod Hbp
use ipsc2hbp.Base.{
  Bool, true, false, ◌&&◌, not, Option, none, some, List, [], ◌∷◌, if◌then◌else◌, is_some, nonempty,
  ltb, nat_eqb, length, bytes_eq, ◌==◌,
}
use ipsc2hbp.Base.Int.{ℤ, pos, negsuc}
use ipsc2hbp.Dmr.{Bytes}
use ipsc2hbp.Config.{IpscMode, HbpMode, PacketFlow}
use ipsc2hbp.Config.Text.{Text, codes, strip, encode, zfill, from_hex}
use ipsc2hbp.Config.Toml.{
  Table, master_id_zero, peer_id_zero, upstream_port_zero, bad_peer_ip, bad_master_ip,
  auth_key_long, auth_key_not_hex,
}
use ipsc2hbp.Config.Check.{
  Check, ◌>>=◌, ◌>>◌, pure, report_if, get_str, get_int, get_bool, first_str, first_int,
}

abbrev pub valid_log_levels : List Text
valid_log_levels =
    codes "DEBUG" ∷ codes "INFO" ∷ codes "WARNING" ∷ codes "ERROR" ∷ codes "CRITICAL" ∷ []

abbrev pub valid_ipsc_modes : List Text
valid_ipsc_modes = codes "MASTER" ∷ codes "PEER" ∷ []

abbrev pub valid_hbp_modes : List Text
valid_hbp_modes = codes "TRACKING" ∷ codes "PERSISTENT" ∷ []

abbrev pub valid_packet_flows : List Text
valid_packet_flows = codes "PACKET_TRANSLATOR" ∷ codes "LEGACY_AMBE" ∷ []

-- The words, which are one of the choices, as the rest of the program compares them.
abbrev pub ipsc_mode_of : Text → IpscMode
ipsc_mode_of t = if t == codes "PEER" then IpscMode.peer else IpscMode.master

abbrev pub hbp_mode_of : Text → HbpMode
hbp_mode_of t = if t == codes "PERSISTENT" then HbpMode.persistent else HbpMode.tracking

abbrev pub packet_flow_of : Text → PacketFlow
packet_flow_of t =
    if t == codes "LEGACY_AMBE" then PacketFlow.legacy_ambe else PacketFlow.packet_translator

abbrev pub is_master : IpscMode → Bool
is_master IpscMode.master = true
is_master IpscMode.peer = false

abbrev pub is_zero : ℤ → Bool
is_zero (pos n) = nat_eqb n 0
is_zero (negsuc n) = false

abbrev pub max_id : ℤ
max_id = pos 0xFFFFFFFF

-- [global]
unfoldable pub read_log_level : Table → Check Text
read_log_level sec =
    get_str sec "global" "log_level" false (codes "INFO") (some valid_log_levels) false

-- [compat]
unfoldable pub read_packet_flow : Table → Check PacketFlow
read_packet_flow sec = do
  word ←
      get_str sec "compat" "packet_flow" false (codes "PACKET_TRANSLATOR") (some valid_packet_flows)
        false
  pure (packet_flow_of word)

-- [ipsc]: the endpoint and who may connect
pub record Endpoint : Type 0 where
  pub mode : IpscMode
  pub bind_ip : Text
  pub bind_port : ℤ
  pub master_id : ℤ
  pub peer_id : ℤ
  pub peer_ip : Text
  pub auth_on : Bool
  pub key : Bytes
  pub watchdog : ℤ

abbrev pub zero_key : Bytes
zero_key = 0 ∷ 0 ∷ 0 ∷ 0 ∷ 0 ∷ 0 ∷ 0 ∷ 0 ∷ 0 ∷ 0 ∷ 0 ∷ 0 ∷ 0 ∷ 0 ∷ 0 ∷ 0 ∷ 0 ∷ 0 ∷ 0 ∷ 0 ∷ []

-- The key of the authentication, of its text.
unfoldable pub auth_key_of : Text → Check Bytes
auth_key_of raw_key =
    if ltb 40 (length raw_key)
    then (zero_key, auth_key_long ∷ [])
    else elim (from_hex none (zfill 40 raw_key)) [
      | none ↦ (zero_key, auth_key_not_hex ∷ [])
      | some bs ↦ (bs, [])
    ]

unfoldable pub read_auth_key : Table → Bool → Check Bytes
read_auth_key sec true = do
  raw_key ← get_str sec "ipsc" "auth_key" true [] none false
  auth_key_of (strip raw_key)
read_auth_key sec false = do _ ← get_str sec "ipsc" "auth_key" false [] none false; pure zero_key

-- [ipsc_upstream], or the older names in [ipsc]
pub record Upstream : Type 0 where
  pub ip : Text
  pub port : ℤ
  pub id : ℤ

module _ (inet_aton : Bytes → Option Bytes) where
  unfoldable pub is_ip : Text → Bool
  is_ip t = is_some (inet_aton (encode t))

  unfoldable pub read_endpoint : Table → Check Endpoint
  read_endpoint sec = do
    mode_word ← get_str sec "ipsc" "mode" false (codes "MASTER") (some valid_ipsc_modes) false
    let mode = ipsc_mode_of mode_word
    bind_ip ← get_str sec "ipsc" "bind_ip" true [] none false
    bind_port ← get_int sec "ipsc" "bind_port" true (pos 0) (some (pos 1)) (some (pos 65535))
    master_id ←
        get_int sec "ipsc" "ipsc_master_id" (is_master mode) (pos 0) (some (pos 0)) (some max_id)
    peer_id ←
        get_int sec "ipsc" "ipsc_peer_id" (not (is_master mode)) (pos 0) (some (pos 0))
          (some max_id)
    report_if (is_master mode && is_zero master_id) master_id_zero
    report_if (not (is_master mode) && is_zero peer_id) peer_id_zero
    peer_ip ← get_str sec "ipsc" "allowed_peer_ip" false [] none false
    report_if (is_master mode && nonempty peer_ip && not (is_ip peer_ip)) (bad_peer_ip peer_ip)
    auth_on ← get_bool sec "ipsc" "auth_enabled" false false
    key ← read_auth_key sec auth_on
    watchdog ← get_int sec "ipsc" "keepalive_watchdog" false (pos 60) (some (pos 5)) none
    pure (record {
      mode = mode;
      bind_ip = bind_ip;
      bind_port = bind_port;
      master_id = master_id;
      peer_id = peer_id;
      peer_ip = peer_ip;
      auth_on = auth_on;
      key = key;
      watchdog = watchdog;
    })

  unfoldable pub read_upstream : Table → Table → IpscMode → Check Upstream
  read_upstream up sec mode = do
    ip ←
        first_str (up, "ipsc_upstream", "master_ip") (some (sec, "ipsc", "upstream_master_ip"))
          (not (is_master mode)) []
    port ←
        first_int (up, "ipsc_upstream", "master_port") (some (sec, "ipsc", "upstream_master_port"))
          (not (is_master mode)) (pos 0) (some (pos 0)) (some (pos 65535))
    id ←
        first_int (up, "ipsc_upstream", "master_id") (some (sec, "ipsc", "upstream_master_id"))
          false (pos 0) (some (pos 0)) (some max_id)
    report_if (not (is_master mode) && not (is_ip ip)) (bad_master_ip ip)
    report_if (not (is_master mode) && is_zero port) upstream_port_zero
    pure (record { ip = ip; port = port; id = id })

-- [ipsc]: the peer's loops and its list, reflected calls, the busy guard and the call lock
pub record Behaviour : Type 0 where
  pub alive_interval : ℤ
  pub max_missed : ℤ
  pub allow_unknown : Bool
  pub prune : Bool
  pub reflect : Bool
  pub reflect_window : ℤ
  pub busy_guard : Bool
  pub busy_holdoff : ℤ
  pub call_lock : Bool
  pub hang : ℤ
  pub same_tg : Bool

unfoldable pub read_behaviour : Table → IpscMode → Check Behaviour
read_behaviour sec mode = do
  alive_interval ←
      first_int (sec, "ipsc", "keepalive_interval") (some (sec, "ipsc", "peer_alive_interval"))
        false (pos 5) (some (pos 1)) (some (pos 300))
  max_missed ← get_int sec "ipsc" "max_missed" false (pos 3) (some (pos 1)) (some (pos 1000))
  allow_unknown ← get_bool sec "ipsc" "peer_list_allow_unknown" false (not (is_master mode))
  prune ← get_bool sec "ipsc" "peer_list_prune" false true
  reflect ← get_bool sec "ipsc" "reflect_suppression" false false
  reflect_window ← get_int sec "ipsc" "reflect_window" false (pos 8) (some (pos 0)) (some (pos 60))
  busy_guard ← get_bool sec "ipsc" "busy_slot_guard" false true
  busy_holdoff ←
      get_int sec "ipsc" "busy_holdoff_ms" false (pos 100) (some (pos 0)) (some (pos 5000))
  call_lock ← get_bool sec "ipsc" "call_lock" false true
  hang ← get_int sec "ipsc" "call_lock_hang_ms" false (pos 250) (some (pos 0)) (some (pos 5000))
  same_tg ← get_bool sec "ipsc" "call_lock_same_tg_only" false true
  pure (record {
    alive_interval = alive_interval;
    max_missed = max_missed;
    allow_unknown = allow_unknown;
    prune = prune;
    reflect = reflect;
    reflect_window = reflect_window;
    busy_guard = busy_guard;
    busy_holdoff = busy_holdoff;
    call_lock = call_lock;
    hang = hang;
    same_tg = same_tg;
  })
