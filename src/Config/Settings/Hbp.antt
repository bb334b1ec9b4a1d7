-- ===== src/Config/Settings/Hbp.antt =====
-- config.py, `load`: what it reads of [hbp].
use ipsc2hbp.Base.{Bool, true, false, none, some, [], bytes_eq}
use ipsc2hbp.Base.Int.{ℤ, pos}
use ipsc2hbp.Config.{HbpMode}
use ipsc2hbp.Config.Text.{Text, codes}
use ipsc2hbp.Config.Toml.{Table}
use ipsc2hbp.Config.Check.{Check, ◌>>=◌, pure, get_str, get_int, get_bool}
use ipsc2hbp.Config.Settings.{valid_hbp_modes, hbp_mode_of, max_id}

-- [hbp]: the master, and the pacing of what goes to IPSC
pub record HbpSettings : Type 0 where
  pub master_ip : Text
  pub master_port : ℤ
  pub mode : HbpMode
  pub repeater_id : ℤ
  pub pacing : Bool
  pub frame_interval : ℤ
  pub queue_limit : ℤ
  pub start_on_voice : Bool
  pub header_repeats : ℤ
  pub passphrase : Text

unfoldable pub read_hbp : Table → Check HbpSettings
read_hbp sec = do
  master_ip ← get_str sec "hbp" "master_ip" true [] none false
  master_port ← get_int sec "hbp" "master_port" true (pos 0) (some (pos 1)) (some (pos 65535))
  mode_word ← get_str sec "hbp" "hbp_mode" false (codes "TRACKING") (some valid_hbp_modes) false
  repeater_id ← get_int sec "hbp" "hbp_repeater_id" false (pos 0) (some (pos 0)) (some max_id)
  pacing ← get_bool sec "hbp" "hbp_to_ipsc_pacing" false true
  frame_interval ←
      get_int sec "hbp" "hbp_to_ipsc_frame_interval_ms" false (pos 60) (some (pos 10))
        (some (pos 250))
  queue_limit ←
      get_int sec "hbp" "hbp_to_ipsc_queue_limit" false (pos 512) (some (pos 10)) (some (pos 5000))
  start_on_voice ← get_bool sec "hbp" "hbp_start_on_voice" false true
  header_repeats ←
      get_int sec "hbp" "hbp_to_ipsc_header_repeats" false (pos 3) (some (pos 1)) (some (pos 5))
  raw_passphrase ← get_str sec "hbp" "passphrase" true [] none false
  pure (record {
    master_ip = master_ip;
    master_port = master_port;
    mode = hbp_mode_of mode_word;
    repeater_id = repeater_id;
    pacing = pacing;
    frame_interval = frame_interval;
    queue_limit = queue_limit;
    start_on_voice = start_on_voice;
    header_repeats = header_repeats;
    passphrase = raw_passphrase;
  })

-- [hbp]: the texts of the RPTC and RPTO packets
pub record Radio : Type 0 where
  pub options : Text
  pub callsign : Text
  pub rx_freq : Text
  pub tx_freq : Text
  pub tx_power : Text
  pub colorcode : Text
  pub latitude : Text
  pub longitude : Text
  pub height : Text
  pub location : Text
  pub description : Text
  pub url : Text
  pub software_id : Text
  pub package_id : Text

unfoldable pub read_radio : Table → Check Radio
read_radio sec = do
  options ← get_str sec "hbp" "options" false [] none false
  callsign ← get_str sec "hbp" "callsign" false (codes "NOCALL") none false
  rx_freq ← get_str sec "hbp" "rx_freq" false (codes "000000000") none false
  tx_freq ← get_str sec "hbp" "tx_freq" false (codes "000000000") none false
  tx_power ← get_str sec "hbp" "tx_power" false (codes "00") none false
  colorcode ← get_str sec "hbp" "colorcode" false (codes "01") none false
  latitude ← get_str sec "hbp" "latitude" false (codes "00.0000 ") none false
  longitude ← get_str sec "hbp" "longitude" false (codes "000.0000 ") none false
  height ← get_str sec "hbp" "height" false (codes "000") none false
  location ← get_str sec "hbp" "location" false [] none false
  description ← get_str sec "hbp" "description" false [] none false
  url ← get_str sec "hbp" "url" false [] none false
  software_id ← get_str sec "hbp" "software_id" false (codes "ipsc2hbp") none false
  package_id ← get_str sec "hbp" "package_id" false (codes "1.0.0") none false
  pure (record {
    options = options;
    callsign = callsign;
    rx_freq = rx_freq;
    tx_freq = tx_freq;
    tx_power = tx_power;
    colorcode = colorcode;
    latitude = latitude;
    longitude = longitude;
    height = height;
    location = location;
    description = description;
    url = url;
    software_id = software_id;
    package_id = package_id;
  })
