-- ===== src/Config/Load/Valid.antt =====
-- config.py, `load`: the ranges of the settings that it returns.
use ipsc2hbp.Base.{
  ℕ, ◌≤◌, Bool, true, false, not, ◌&&◌, Option, [], ◌∷◌, ◌≡◌, refl, arith, nonempty, is_some,
  nat_eqb, subst,
}
use ipsc2hbp.Dmr.{Bytes}
use ipsc2hbp.Config.{Config, PacketFlow}
use ipsc2hbp.Config.Text.{Text, encode, utf8_of}
use ipsc2hbp.Config.Toml.{Table, no_repeater_id}
use ipsc2hbp.Config.Check.{Check, report_if, required_section, optional_section}
use ipsc2hbp.Config.Settings.{
  is_master, is_zero, is_ip, Endpoint, Upstream, Behaviour, read_endpoint, read_upstream,
  read_behaviour, read_log_level, read_packet_flow,
}
use ipsc2hbp.Config.Settings.Hbp.{Radio, HbpSettings, read_hbp, read_radio}
use ipsc2hbp.Config.Ranges.{parts, report_if-nil}
use ipsc2hbp.Config.Valid.{
  BehaviourIsValid, read_behaviour-IsValid, HbpIsValid, read_hbp-IsValid, EndpointIsValid,
  read_endpoint-IsValid, UpstreamIsValid, read_upstream-IsValid,
}
use ipsc2hbp.Config.Load.{File, parsed, ok, resolved_id, config_of, check, load, outcome}

encode-head : (c : ℕ) (s : Text) → nonempty (encode (c ∷ s)) ≡ true
unfolding encode utf8_of
encode-head c s = ground arith

nonempty-encode : (t : Text) → nonempty (encode t) ≡ nonempty t
unfolding encode
nonempty-encode [] = refl
nonempty-encode (c ∷ s) = encode-head c s

-- A list of errors that is empty belongs to settings that are returned.
pub outcome-ok :
    (inet_aton : Bytes → Option Bytes) (r : Check Config) (cfg : Config)
    → outcome inet_aton r ≡ ok cfg
    → (r.1 ≡ []) × (r.0 ≡ cfg)
outcome-ok inet_aton (c, []) cfg h = ground arith
outcome-ok inet_aton (c, p ∷ ps) cfg h = cc

module _ (inet_aton : Bytes → Option Bytes) where
  -- An address as `inet_aton` takes it.
  abbrev pub parses : Bytes → Bool
  parses ip = is_some (inet_aton ip)

  pub record ConfigIsValid (cfg : Config) : Type 0 where
    pub bind_port : (1 ≤ cfg.ipsc_bind_port) × (cfg.ipsc_bind_port ≤ 65535)
    pub master_id : cfg.ipsc_master_id ≤ 0xFFFFFFFF
    pub peer_id : cfg.ipsc_peer_id ≤ 0xFFFFFFFF
    pub source_id : (1 ≤ cfg.ipsc_source_id) × (cfg.ipsc_source_id ≤ 0xFFFFFFFF)
    pub allowed_ip :
        (is_master cfg.ipsc_mode
          && nonempty cfg.allowed_peer_ip
          && not (parses cfg.allowed_peer_ip))
        ≡ false
    pub watchdog : 5 ≤ cfg.keepalive_watchdog
    pub upstream_ip :
        (not (is_master cfg.ipsc_mode) && not (parses cfg.ipsc_upstream_master_ip)) ≡ false
    pub upstream_port :
        (not (is_master cfg.ipsc_mode) && nat_eqb cfg.ipsc_upstream_master_port 0) ≡ false
    pub upstream_port_high : cfg.ipsc_upstream_master_port ≤ 65535
    pub upstream_id : cfg.ipsc_upstream_master_id ≤ 0xFFFFFFFF
    pub alive_interval : (1 ≤ cfg.ipsc_peer_alive_interval) × (cfg.ipsc_peer_alive_interval ≤ 300)
    pub max_missed : (1 ≤ cfg.ipsc_max_missed) × (cfg.ipsc_max_missed ≤ 1000)
    pub reflect_window : cfg.ipsc_reflect_window ≤ 60
    pub busy_holdoff : cfg.ipsc_busy_holdoff_ms ≤ 5000
    pub hang : cfg.ipsc_call_lock_hang_ms ≤ 5000
    pub master_port : (1 ≤ cfg.hbp_master_port) × (cfg.hbp_master_port ≤ 65535)
    pub repeater_id : (1 ≤ cfg.hbp_repeater_id) × (cfg.hbp_repeater_id ≤ 0xFFFFFFFF)
    pub frame_interval :
        (10 ≤ cfg.hbp_to_ipsc_frame_interval_ms) × (cfg.hbp_to_ipsc_frame_interval_ms ≤ 250)
    pub queue_limit : (10 ≤ cfg.hbp_to_ipsc_queue_limit) × (cfg.hbp_to_ipsc_queue_limit ≤ 5000)
    pub header_repeats : (1 ≤ cfg.hbp_to_ipsc_header_repeats) × (cfg.hbp_to_ipsc_header_repeats ≤ 5)

  config_of-IsValid :
      (level : Text) (e : Endpoint) (u : Upstream) (b : Behaviour) (flow : PacketFlow)
      (h : HbpSettings) (r : Radio)
      → EndpointIsValid inet_aton e
      → UpstreamIsValid inet_aton e.mode u
      → BehaviourIsValid b
      → HbpIsValid h
      → is_zero (resolved_id e h) ≡ false
      → ConfigIsValid (config_of level e u b flow h r)
  unfolding config_of is_ip
  config_of-IsValid level e u b flow h r ve vu vb vh z = ground (arith, nonempty-encode e.peer_ip)

  check-IsValid :
      (raw : Table) → (check inet_aton raw).1 ≡ [] → ConfigIsValid (check inet_aton raw).0
  unfolding check
  check-IsValid raw h =
      let global_s = required_section raw "global" in
      let ipsc_s = required_section raw "ipsc" in
      let up_s = optional_section raw "ipsc_upstream" in
      let compat_s = optional_section raw "compat" in
      let hbp_s = required_section raw "hbp" in
      let h1 = (parts global_s h).1 in
      let h2 = (parts ipsc_s h1).1 in
      let h3 = (parts up_s h2).1 in
      let h4 = (parts compat_s h3).1 in
      let h5 = (parts hbp_s h4).1 in
      let h6 = (parts (read_log_level global_s.0) h5).1 in
      let e = read_endpoint inet_aton ipsc_s.0 in
      let (ve, h7) = parts e h6 in
      let (vu, h8) = parts (read_upstream inet_aton up_s.0 ipsc_s.0 e.0.mode) h7 in
      let (vb, h9) = parts (read_behaviour ipsc_s.0 e.0.mode) h8 in
      let h10 = (parts (read_packet_flow compat_s.0) h9).1 in
      let (vs, h11) = parts (read_hbp hbp_s.0) h10 in
      let h12 = (parts (read_radio hbp_s.0) h11).1 in
      let unset = is_zero (resolved_id e.0 (read_hbp hbp_s.0).0) in
      let (z, _) = parts (report_if unset no_repeater_id) h12 in
      config_of-IsValid _ _ _ _ _ _ _ (read_endpoint-IsValid inet_aton _ ve)
        (read_upstream-IsValid inet_aton _ _ _ vu) (read_behaviour-IsValid _ _ vb)
        (read_hbp-IsValid _ vs) (report_if-nil unset no_repeater_id z)

  -- The settings of a file that loads are in their ranges: ports, ids, intervals, limits and
  -- counts are in the bounds that the loader names, the ids and the upstream port that the mode
  -- needs are not 0, and the addresses that it needs parse.
  pub load-IsValid : (f : File) {cfg : Config} → load inet_aton f ≡ ok cfg → ConfigIsValid cfg
  unfolding load
  load-IsValid (parsed raw) {cfg} h =
      let (clean, same) = outcome-ok inet_aton (check inet_aton raw) cfg h in
      subst ConfigIsValid same (check-IsValid raw clean)
  load-IsValid _ h = cc
