-- ===== src/Config.antt =====
-- config.py: the settings that `load` returns. Texts are kept as their UTF-8 bytes, and the
-- numbers are not negative, as the loader's bounds ask.
pub mod Text
pub mod Toml
pub mod Check
pub mod Settings
pub mod Load
pub mod Ranges
pub mod Valid
pub mod Key
pub mod Fits
use ipsc2hbp.Base.{ℕ, Bool}
use ipsc2hbp.Dmr.{Bytes}

pub data IpscMode : Type 0 where
  master peer : IpscMode

pub data HbpMode : Type 0 where
  tracking persistent : HbpMode

pub data PacketFlow : Type 0 where
  packet_translator legacy_ambe : PacketFlow

pub record Config : Type 0 where
  pub log_level : Bytes
  -- [ipsc], both modes
  pub ipsc_mode : IpscMode
  pub ipsc_bind_ip : Bytes
  pub ipsc_bind_port : ℕ
  pub ipsc_master_id : ℕ
  pub ipsc_peer_id : ℕ
  pub ipsc_source_id : ℕ
  pub allowed_peer_ip : Bytes
  pub auth_enabled : Bool
  pub auth_key : Bytes
  pub keepalive_watchdog : ℕ
  -- peer mode
  pub ipsc_upstream_master_ip : Bytes
  pub ipsc_upstream_master_port : ℕ
  pub ipsc_upstream_master_id : ℕ
  pub ipsc_peer_alive_interval : ℕ
  pub ipsc_max_missed : ℕ
  pub ipsc_peer_list_allow_unknown : Bool
  pub ipsc_peer_list_prune : Bool
  pub ipsc_reflect_suppression : Bool
  pub ipsc_reflect_window : ℕ
  pub ipsc_busy_slot_guard : Bool
  pub ipsc_busy_holdoff_ms : ℕ
  pub ipsc_call_lock : Bool
  pub ipsc_call_lock_hang_ms : ℕ
  pub ipsc_call_lock_same_tg_only : Bool
  -- [compat]
  pub compat_packet_flow : PacketFlow
  -- [hbp]
  pub hbp_master_ip : Bytes
  pub hbp_master_port : ℕ
  pub hbp_repeater_id : ℕ
  pub hbp_passphrase : Bytes
  pub hbp_mode : HbpMode
  pub hbp_to_ipsc_pacing : Bool
  pub hbp_to_ipsc_frame_interval_ms : ℕ
  pub hbp_to_ipsc_queue_limit : ℕ
  pub hbp_start_on_voice : Bool
  pub hbp_to_ipsc_header_repeats : ℕ
  -- the RPTC and RPTO fields
  pub options : Bytes
  pub callsign : Bytes
  pub rx_freq : Bytes
  pub tx_freq : Bytes
  pub tx_power : Bytes
  pub colorcode : Bytes
  pub latitude : Bytes
  pub longitude : Bytes
  pub height : Bytes
  pub location : Bytes
  pub description : Bytes
  pub url : Bytes
  pub software_id : Bytes
  pub package_id : Bytes
