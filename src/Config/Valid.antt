-- ===== src/Config/Valid.antt =====
-- config.py, `load`: what holds of the parts of the settings if there is no error.
use ipsc2hbp.Base.{false, not, ◌&&◌, Option, [], ◌≡◌, arith, nonempty}
use ipsc2hbp.Base.Int.{pos, ◌≤ℤ◌}
use ipsc2hbp.Dmr.{Bytes}
use ipsc2hbp.Config.{IpscMode}
use ipsc2hbp.Config.Toml.{Table}
use ipsc2hbp.Config.Settings.{
  is_master, is_zero, is_ip, Endpoint, read_endpoint, Upstream, read_upstream, Behaviour,
  read_behaviour,
}
use ipsc2hbp.Config.Settings.Hbp.{HbpSettings, read_hbp}
use ipsc2hbp.Config.Ranges.{
  append-nil_inv, report_if-nil, Between, get_int-Between, first_int-Between, get_int-at_least,
}

pub record BehaviourIsValid (b : Behaviour) : Type 0 where
  pub alive : Between 1 300 b.alive_interval
  pub missed : Between 1 1000 b.max_missed
  pub window : Between 0 60 b.reflect_window
  pub holdoff : Between 0 5000 b.busy_holdoff
  pub hang : Between 0 5000 b.hang

pub read_behaviour-IsValid :
    (sec : Table) (mode : IpscMode)
    → (read_behaviour sec mode).1 ≡ []
    → BehaviourIsValid (read_behaviour sec mode).0
unfolding read_behaviour
read_behaviour-IsValid sec mode h =
    grind (arith, append-nil_inv, get_int-Between, first_int-Between)

pub record HbpIsValid (s : HbpSettings) : Type 0 where
  pub port : Between 1 65535 s.master_port
  pub repeater : Between 0 0xFFFFFFFF s.repeater_id
  pub interval : Between 10 250 s.frame_interval
  pub limit : Between 10 5000 s.queue_limit
  pub repeats : Between 1 5 s.header_repeats

pub read_hbp-IsValid : (sec : Table) → (read_hbp sec).1 ≡ [] → HbpIsValid (read_hbp sec).0
unfolding read_hbp
read_hbp-IsValid sec h = grind (arith, append-nil_inv, get_int-Between)

module _ (inet_aton : Bytes → Option Bytes) where
  pub record EndpointIsValid (e : Endpoint) : Type 0 where
    pub port : Between 1 65535 e.bind_port
    pub master : Between 0 0xFFFFFFFF e.master_id
    pub peer : Between 0 0xFFFFFFFF e.peer_id
    pub master_set : (is_master e.mode && is_zero e.master_id) ≡ false
    pub peer_set : (not (is_master e.mode) && is_zero e.peer_id) ≡ false
    pub peer_ip_parses :
        (is_master e.mode && nonempty e.peer_ip && not (is_ip inet_aton e.peer_ip)) ≡ false
    pub watchdog_low : pos 5 ≤ℤ e.watchdog

  pub read_endpoint-IsValid :
      (sec : Table)
      → (read_endpoint inet_aton sec).1 ≡ []
      → EndpointIsValid (read_endpoint inet_aton sec).0
  unfolding read_endpoint
  read_endpoint-IsValid sec h =
      grind (arith, append-nil_inv, report_if-nil, get_int-Between, get_int-at_least)

  pub record UpstreamIsValid (mode : IpscMode) (u : Upstream) : Type 0 where
    pub port : Between 0 65535 u.port
    pub id : Between 0 0xFFFFFFFF u.id
    pub ip_parses : (not (is_master mode) && not (is_ip inet_aton u.ip)) ≡ false
    pub port_set : (not (is_master mode) && is_zero u.port) ≡ false

  pub read_upstream-IsValid :
      (up sec : Table) (mode : IpscMode)
      → (read_upstream inet_aton up sec mode).1 ≡ []
      → UpstreamIsValid mode (read_upstream inet_aton up sec mode).0
  unfolding read_upstream
  read_upstream-IsValid up sec mode h =
      grind (arith, append-nil_inv, report_if-nil, first_int-Between)
