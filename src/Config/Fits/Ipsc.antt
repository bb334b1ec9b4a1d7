-- ===== src/Config/Fits/Ipsc.antt =====
-- config.py, `load`: the settings of [ipsc] and [ipsc_upstream].
use ipsc2hbp.Base.{
  ◌≤◌, Bool, true, false, not, ◌&&◌, Option, none, some, [], ◌≡◌, refl, arith, sym, subst, list_eqb,
  list_eqb_iff, nonempty, length,
}
use ipsc2hbp.Base.Int.{pos, ◌≤ℤ◌}
use ipsc2hbp.Dmr.{Bytes}
use ipsc2hbp.Config.{IpscMode}
use ipsc2hbp.Config.Text.{Text, codes, strip, zfill, from_hex}
use ipsc2hbp.Config.Toml.{Table}
use ipsc2hbp.Config.Check.{get_str, member}
use ipsc2hbp.Config.Settings.{
  valid_ipsc_modes, ipsc_mode_of, is_master, is_zero, Endpoint, zero_key, auth_key_of,
  read_auth_key, is_ip, read_endpoint, Upstream, read_upstream, Behaviour, read_behaviour,
}
use ipsc2hbp.Config.Ranges.{append-nil_inv, report_if-nil, get_str-member, get_int-at_least}
use ipsc2hbp.Config.Fits.{
  IntSetting, BoolSetting, StrSetting, WordSetting, IntIn, get_int_of_in, get_int_of_setting_low,
  get_bool_of_setting, get_str_of_setting, get_str_of_word, get_int-IntIn, get_int-IntSetting,
  get_bool-BoolSetting, get_str-StrSetting, get_str-WordSetting,
}
use ipsc2hbp.Config.Fits.First.{
  FirstIn, FirstStr, first_int_of_in, first_int-FirstIn, first_str_of_setting, first_str-FirstStr,
}

-- The words of the modes.
abbrev pub ipsc_mode_word : IpscMode → Text
ipsc_mode_word IpscMode.master = codes "MASTER"
ipsc_mode_word IpscMode.peer = codes "PEER"

ipsc_mode_word-of :
    (w : Text) → member w valid_ipsc_modes ≡ true → ipsc_mode_word (ipsc_mode_of w) ≡ w
ipsc_mode_word-of w h =
    ground (arith, list_eqb_iff w (codes "MASTER"), list_eqb_iff w (codes "PEER"))

ipsc_mode_of-word : (m : IpscMode) → ipsc_mode_of (ipsc_mode_word m) ≡ m
unfolding list_eqb
ipsc_mode_of-word IpscMode.master = refl
ipsc_mode_of-word IpscMode.peer = refl

-- A text of at most 40 digits to the base 16, filled up with zeros in front, is the key.
pub record HexKey (s : Text) (key : Bytes) : Type 0 where
  pub short : length s ≤ 40
  pub digits : from_hex none (zfill 40 s) ≡ some key

-- Without authentication the text is read all the same, and the key is zero.
abbrev pub KeySetting : Table → Bool → Bytes → Type 0
KeySetting sec true key =
    (raw : Text) × StrSetting sec "auth_key" true [] raw × HexKey (strip raw) key
KeySetting sec false key = (raw : Text) × StrSetting sec "auth_key" false [] raw × (key ≡ zero_key)

auth_key_of-HexKey : (s : Text) → (auth_key_of s).1 ≡ [] → HexKey s (auth_key_of s).0
unfolding auth_key_of
auth_key_of-HexKey s h = ground arith

auth_key_of_hex : (s : Text) (key : Bytes) → HexKey s key → auth_key_of s ≡ (key, [])
unfolding auth_key_of
auth_key_of_hex s key v = ground arith

read_auth_key-KeySetting :
    (sec : Table) (on : Bool)
    → (read_auth_key sec on).1 ≡ []
    → KeySetting sec on (read_auth_key sec on).0
unfolding read_auth_key
read_auth_key-KeySetting sec true h =
    let raw = get_str sec "ipsc" "auth_key" true [] none false in
    let (a, b) = append-nil_inv raw.1 _ h in
    (raw.0, get_str-StrSetting sec "ipsc" "auth_key" true [] a, auth_key_of-HexKey (strip raw.0) b)
read_auth_key-KeySetting sec false h =
    let raw = get_str sec "ipsc" "auth_key" false [] none false in
    (raw.0, get_str-StrSetting sec "ipsc" "auth_key" false [] (append-nil_inv raw.1 _ h).0, refl)

read_auth_key_of_setting :
    (sec : Table) (on : Bool) (key : Bytes)
    → KeySetting sec on key
    → read_auth_key sec on ≡ (key, [])
unfolding read_auth_key
read_auth_key_of_setting sec true key (raw, s, k) =
    rw (get_str_of_setting sec "ipsc" "auth_key" true [] raw s, auth_key_of_hex (strip raw) key k)
read_auth_key_of_setting sec false key (raw, s, z) =
    rw (get_str_of_setting sec "ipsc" "auth_key" false [] raw s, z)

get_mode :
    (sec : Table)
    → (get_str sec "ipsc" "mode" false (codes "MASTER") (some valid_ipsc_modes) false).1 ≡ []
    → WordSetting sec "mode" valid_ipsc_modes (codes "MASTER") (
        ipsc_mode_word (
          ipsc_mode_of
            (get_str sec "ipsc" "mode" false (codes "MASTER") (some valid_ipsc_modes) false).0))
unfolding list_eqb
get_mode sec h =
    let m = get_str-member sec "ipsc" "mode" false (codes "MASTER") valid_ipsc_modes refl in
    subst (λ t. WordSetting sec "mode" valid_ipsc_modes (codes "MASTER") t)
      (sym (ipsc_mode_word-of _ m))
      (get_str-WordSetting sec "ipsc" "mode" valid_ipsc_modes (codes "MASTER") h)

module _ (inet_aton : Bytes → Option Bytes) where
  pub record EndpointFits (sec : Table) (e : Endpoint) : Type 0 where
    pub mode : WordSetting sec "mode" valid_ipsc_modes (codes "MASTER") (ipsc_mode_word e.mode)
    pub bind_ip : StrSetting sec "bind_ip" true [] e.bind_ip
    pub bind_port : IntIn sec "bind_port" true 0 1 65535 e.bind_port
    pub master_id : IntIn sec "ipsc_master_id" (is_master e.mode) 0 0 0xFFFFFFFF e.master_id
    pub peer_id : IntIn sec "ipsc_peer_id" (not (is_master e.mode)) 0 0 0xFFFFFFFF e.peer_id
    pub master_id_set : (is_master e.mode && is_zero e.master_id) ≡ false
    pub peer_id_set : (not (is_master e.mode) && is_zero e.peer_id) ≡ false
    pub peer_ip : StrSetting sec "allowed_peer_ip" false [] e.peer_ip
    pub peer_ip_parses :
        (is_master e.mode && nonempty e.peer_ip && not (is_ip inet_aton e.peer_ip)) ≡ false
    pub auth_on : BoolSetting sec "auth_enabled" false e.auth_on
    pub key : KeySetting sec e.auth_on e.key
    pub watchdog : IntSetting sec "keepalive_watchdog" false (pos 60) e.watchdog
    pub watchdog_low : pos 5 ≤ℤ e.watchdog

  pub read_endpoint-EndpointFits :
      (sec : Table)
      → (read_endpoint inet_aton sec).1 ≡ []
      → EndpointFits sec (read_endpoint inet_aton sec).0
  unfolding read_endpoint
  read_endpoint-EndpointFits sec h = grind (
    arith, append-nil_inv, report_if-nil, get_mode, get_str-StrSetting, get_int-IntIn,
    get_int-IntSetting, get_int-at_least, get_bool-BoolSetting, read_auth_key-KeySetting,
  )

  pub read_endpoint_of_fits :
      (sec : Table) (e : Endpoint) → EndpointFits sec e → read_endpoint inet_aton sec ≡ (e, [])
  unfolding read_endpoint
  read_endpoint_of_fits sec e v = rw (
    get_str_of_word sec "ipsc" "mode" valid_ipsc_modes (codes "MASTER") (ipsc_mode_word e.mode)
        v.mode,
    ipsc_mode_of-word e.mode,
    get_str_of_setting sec "ipsc" "bind_ip" true [] e.bind_ip v.bind_ip,
    get_int_of_in sec "ipsc" "bind_port" true 0 1 65535 e.bind_port v.bind_port,
    get_int_of_in sec "ipsc" "ipsc_master_id" (is_master e.mode) 0 0 0xFFFFFFFF e.master_id
        v.master_id,
    get_int_of_in sec "ipsc" "ipsc_peer_id" (not (is_master e.mode)) 0 0 0xFFFFFFFF e.peer_id
        v.peer_id,
    v.master_id_set,
    v.peer_id_set,
    get_str_of_setting sec "ipsc" "allowed_peer_ip" false [] e.peer_ip v.peer_ip,
    v.peer_ip_parses,
    get_bool_of_setting sec "ipsc" "auth_enabled" false e.auth_on v.auth_on,
    read_auth_key_of_setting sec e.auth_on e.key v.key,
    get_int_of_setting_low sec "ipsc" "keepalive_watchdog" false (pos 60) 5 e.watchdog v.watchdog
        v.watchdog_low,
  )

  pub record UpstreamFits (up sec : Table) (mode : IpscMode) (u : Upstream) : Type 0 where
    pub ip :
        FirstStr
          (up, "ipsc_upstream", "master_ip")
          (sec, "ipsc", "upstream_master_ip")
          (not (is_master mode))
          []
          u.ip
    pub port :
        FirstIn
          (up, "ipsc_upstream", "master_port")
          (sec, "ipsc", "upstream_master_port")
          (not (is_master mode))
          0
          0
          65535
          u.port
    pub id :
        FirstIn
          (up, "ipsc_upstream", "master_id")
          (sec, "ipsc", "upstream_master_id")
          false
          0
          0
          0xFFFFFFFF
          u.id
    pub ip_parses : (not (is_master mode) && not (is_ip inet_aton u.ip)) ≡ false
    pub port_set : (not (is_master mode) && is_zero u.port) ≡ false

  pub read_upstream-UpstreamFits :
      (up sec : Table) (mode : IpscMode)
      → (read_upstream inet_aton up sec mode).1 ≡ []
      → UpstreamFits up sec mode (read_upstream inet_aton up sec mode).0
  unfolding read_upstream
  read_upstream-UpstreamFits up sec mode h =
      grind (arith, append-nil_inv, report_if-nil, first_str-FirstStr, first_int-FirstIn)

  pub read_upstream_of_fits :
      (up sec : Table) (mode : IpscMode) (u : Upstream)
      → UpstreamFits up sec mode u
      → read_upstream inet_aton up sec mode ≡ (u, [])
  unfolding read_upstream
  read_upstream_of_fits up sec mode u v = rw (
    first_str_of_setting (up, "ipsc_upstream", "master_ip") (sec, "ipsc", "upstream_master_ip")
        (not (is_master mode)) [] u.ip v.ip,
    first_int_of_in (up, "ipsc_upstream", "master_port") (sec, "ipsc", "upstream_master_port")
        (not (is_master mode)) 0 0 65535 u.port v.port,
    first_int_of_in (up, "ipsc_upstream", "master_id") (sec, "ipsc", "upstream_master_id") false 0 0
        0xFFFFFFFF u.id v.id,
    v.ip_parses,
    v.port_set,
  )

pub record BehaviourFits (sec : Table) (mode : IpscMode) (b : Behaviour) : Type 0 where
  pub alive_interval :
      FirstIn
        (sec, "ipsc", "keepalive_interval")
        (sec, "ipsc", "peer_alive_interval")
        false
        5
        1
        300
        b.alive_interval
  pub max_missed : IntIn sec "max_missed" false 3 1 1000 b.max_missed
  pub allow_unknown :
      BoolSetting sec "peer_list_allow_unknown" (not (is_master mode)) b.allow_unknown
  pub prune : BoolSetting sec "peer_list_prune" true b.prune
  pub reflect : BoolSetting sec "reflect_suppression" false b.reflect
  pub reflect_window : IntIn sec "reflect_window" false 8 0 60 b.reflect_window
  pub busy_guard : BoolSetting sec "busy_slot_guard" true b.busy_guard
  pub busy_holdoff : IntIn sec "busy_holdoff_ms" false 100 0 5000 b.busy_holdoff
  pub call_lock : BoolSetting sec "call_lock" true b.call_lock
  pub hang : IntIn sec "call_lock_hang_ms" false 250 0 5000 b.hang
  pub same_tg : BoolSetting sec "call_lock_same_tg_only" true b.same_tg

pub read_behaviour-BehaviourFits :
    (sec : Table) (mode : IpscMode)
    → (read_behaviour sec mode).1 ≡ []
    → BehaviourFits sec mode (read_behaviour sec mode).0
unfolding read_behaviour
read_behaviour-BehaviourFits sec mode h =
    grind (arith, append-nil_inv, first_int-FirstIn, get_int-IntIn, get_bool-BoolSetting)

pub read_behaviour_of_fits :
    (sec : Table) (mode : IpscMode) (b : Behaviour)
    → BehaviourFits sec mode b
    → read_behaviour sec mode ≡ (b, [])
unfolding read_behaviour
read_behaviour_of_fits sec mode b v = rw (
  first_int_of_in (sec, "ipsc", "keepalive_interval") (sec, "ipsc", "peer_alive_interval") false 5 1
      300 b.alive_interval v.alive_interval,
  get_int_of_in sec "ipsc" "max_missed" false 3 1 1000 b.max_missed v.max_missed,
  get_bool_of_setting sec "ipsc" "peer_list_allow_unknown" (not (is_master mode)) b.allow_unknown
      v.allow_unknown,
  get_bool_of_setting sec "ipsc" "peer_list_prune" true b.prune v.prune,
  get_bool_of_setting sec "ipsc" "reflect_suppression" false b.reflect v.reflect,
  get_int_of_in sec "ipsc" "reflect_window" false 8 0 60 b.reflect_window v.reflect_window,
  get_bool_of_setting sec "ipsc" "busy_slot_guard" true b.busy_guard v.busy_guard,
  get_int_of_in sec "ipsc" "busy_holdoff_ms" false 100 0 5000 b.busy_holdoff v.busy_holdoff,
  get_bool_of_setting sec "ipsc" "call_lock" true b.call_lock v.call_lock,
  get_int_of_in sec "ipsc" "call_lock_hang_ms" false 250 0 5000 b.hang v.hang,
  get_bool_of_setting sec "ipsc" "call_lock_same_tg_only" true b.same_tg v.same_tg,
)
