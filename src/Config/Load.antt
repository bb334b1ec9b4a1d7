-- ===== src/Config/Load.antt =====
-- config.py: `load`, from the file to the settings or the errors.
pub mod Valid
pub mod Exact
use Prim.Native.String.{String}
use ipsc2hbp.Base.{
  ℕ, Bool, true, false, not, Option, none, some, List, [], ◌∷◌, ◌++◌, if◌then◌else◌, nat_eqb,
}
use ipsc2hbp.Base.Int.{ℤ, pos, pos_part}
use ipsc2hbp.Dmr.{Bytes}
use ipsc2hbp.Config.{Config, IpscMode, HbpMode, PacketFlow}
use ipsc2hbp.Config.Text.{Text, codes, encode}
use ipsc2hbp.Config.Toml.{Table, Problem, no_repeater_id}
use ipsc2hbp.Config.Check.{
  Check, ◌>>=◌, ◌>>◌, pure, report_if, get_str, required_section, optional_section,
}
use ipsc2hbp.Config.Settings.{
  read_log_level, read_packet_flow, is_master, is_zero, Endpoint, read_endpoint, Upstream,
  read_upstream, Behaviour, read_behaviour,
}
use ipsc2hbp.Config.Settings.Hbp.{HbpSettings, read_hbp, Radio, read_radio}

-- What is found at the path: no file, a file that is no TOML, or the table that tomllib reads.
pub data File : Type 0 where
  missing malformed : File
  parsed : Table → File

-- FileNotFoundError, and the two kinds of ValueError.
pub data Loaded : Type 0 where
  ok : Config → Loaded
  not_found parse_error : Loaded
  invalid : List Problem → Loaded

abbrev pub resolved_id : Endpoint → HbpSettings → ℤ
resolved_id e h = if is_zero h.repeater_id then e.peer_id else h.repeater_id

-- The integers are not negative here, where there is no error.
unfoldable pub config_of :
    Text → Endpoint → Upstream → Behaviour → PacketFlow → HbpSettings → Radio → Config
config_of log_level e u b flow h r = record {
  log_level = encode log_level;
  ipsc_mode = e.mode;
  ipsc_bind_ip = encode e.bind_ip;
  ipsc_bind_port = pos_part e.bind_port;
  ipsc_master_id = pos_part e.master_id;
  ipsc_peer_id = pos_part e.peer_id;
  ipsc_source_id = pos_part (if is_master e.mode then e.master_id else e.peer_id);
  allowed_peer_ip = encode e.peer_ip;
  auth_enabled = e.auth_on;
  auth_key = e.key;
  keepalive_watchdog = pos_part e.watchdog;
  ipsc_upstream_master_ip = encode u.ip;
  ipsc_upstream_master_port = pos_part u.port;
  ipsc_upstream_master_id = pos_part u.id;
  ipsc_peer_alive_interval = pos_part b.alive_interval;
  ipsc_max_missed = pos_part b.max_missed;
  ipsc_peer_list_allow_unknown = b.allow_unknown;
  ipsc_peer_list_prune = b.prune;
  ipsc_reflect_suppression = b.reflect;
  ipsc_reflect_window = pos_part b.reflect_window;
  ipsc_busy_slot_guard = b.busy_guard;
  ipsc_busy_holdoff_ms = pos_part b.busy_holdoff;
  ipsc_call_lock = b.call_lock;
  ipsc_call_lock_hang_ms = pos_part b.hang;
  ipsc_call_lock_same_tg_only = b.same_tg;
  compat_packet_flow = flow;
  hbp_master_ip = encode h.master_ip;
  hbp_master_port = pos_part h.master_port;
  hbp_repeater_id = pos_part (resolved_id e h);
  hbp_passphrase = encode h.passphrase;
  hbp_mode = h.mode;
  hbp_to_ipsc_pacing = h.pacing;
  hbp_to_ipsc_frame_interval_ms = pos_part h.frame_interval;
  hbp_to_ipsc_queue_limit = pos_part h.queue_limit;
  hbp_start_on_voice = h.start_on_voice;
  hbp_to_ipsc_header_repeats = pos_part h.header_repeats;
  options = encode r.options;
  callsign = encode r.callsign;
  rx_freq = encode r.rx_freq;
  tx_freq = encode r.tx_freq;
  tx_power = encode r.tx_power;
  colorcode = encode r.colorcode;
  latitude = encode r.latitude;
  longitude = encode r.longitude;
  height = encode r.height;
  location = encode r.location;
  description = encode r.description;
  url = encode r.url;
  software_id = encode r.software_id;
  package_id = encode r.package_id;
}

module _ (inet_aton : Bytes → Option Bytes) where
  unfoldable pub check : Table → Check Config
  check raw = do
    global_s ← required_section raw "global"
    ipsc_s ← required_section raw "ipsc"
    ipsc_upstream_s ← optional_section raw "ipsc_upstream"
    compat_s ← optional_section raw "compat"
    hbp_s ← required_section raw "hbp"
    log_level ← read_log_level global_s
    e ← read_endpoint inet_aton ipsc_s
    u ← read_upstream inet_aton ipsc_upstream_s ipsc_s e.mode
    b ← read_behaviour ipsc_s e.mode
    flow ← read_packet_flow compat_s
    h ← read_hbp hbp_s
    r ← read_radio hbp_s
    report_if (is_zero (resolved_id e h)) no_repeater_id
    pure (config_of log_level e u b flow h r)

  abbrev pub outcome : Check Config → Loaded
  outcome (cfg, []) = ok cfg
  outcome (cfg, p ∷ ps) = invalid (p ∷ ps)

  unfoldable pub load : File → Loaded
  load missing = not_found
  load malformed = parse_error
  load (parsed raw) = outcome (check raw)
