-- ===== src/Config/Fits/Hbp.antt =====
-- config.py, `load`: the settings of [hbp].
use ipsc2hbp.Base.{true, false, some, [], ◌≡◌, refl, arith, sym, subst, list_eqb, list_eqb_iff}
use ipsc2hbp.Config.{HbpMode}
use ipsc2hbp.Config.Text.{Text, codes}
use ipsc2hbp.Config.Toml.{Table}
use ipsc2hbp.Config.Check.{get_str, member}
use ipsc2hbp.Config.Settings.{valid_hbp_modes, hbp_mode_of}
use ipsc2hbp.Config.Settings.Hbp.{HbpSettings, read_hbp, Radio, read_radio}
use ipsc2hbp.Config.Ranges.{append-nil_inv, get_str-member}
use ipsc2hbp.Config.Fits.{
  BoolSetting, StrSetting, WordSetting, IntIn, get_int_of_in, get_bool_of_setting,
  get_str_of_setting, get_str_of_word, get_int-IntIn, get_bool-BoolSetting, get_str-StrSetting,
  get_str-WordSetting,
}

-- The words of the modes.
abbrev pub hbp_mode_word : HbpMode → Text
hbp_mode_word HbpMode.tracking = codes "TRACKING"
hbp_mode_word HbpMode.persistent = codes "PERSISTENT"

hbp_mode_word-of : (w : Text) → member w valid_hbp_modes ≡ true → hbp_mode_word (hbp_mode_of w) ≡ w
hbp_mode_word-of w h =
    ground (arith, list_eqb_iff w (codes "TRACKING"), list_eqb_iff w (codes "PERSISTENT"))

pub record HbpFits (sec : Table) (h : HbpSettings) : Type 0 where
  pub ip : StrSetting sec "master_ip" true [] h.master_ip
  pub port : IntIn sec "master_port" true 0 1 65535 h.master_port
  pub mode : WordSetting sec "hbp_mode" valid_hbp_modes (codes "TRACKING") (hbp_mode_word h.mode)
  pub repeater : IntIn sec "hbp_repeater_id" false 0 0 0xFFFFFFFF h.repeater_id
  pub pacing : BoolSetting sec "hbp_to_ipsc_pacing" true h.pacing
  pub interval : IntIn sec "hbp_to_ipsc_frame_interval_ms" false 60 10 250 h.frame_interval
  pub limit : IntIn sec "hbp_to_ipsc_queue_limit" false 512 10 5000 h.queue_limit
  pub on_voice : BoolSetting sec "hbp_start_on_voice" true h.start_on_voice
  pub repeats : IntIn sec "hbp_to_ipsc_header_repeats" false 3 1 5 h.header_repeats
  pub passphrase : StrSetting sec "passphrase" true [] h.passphrase

-- The mode that is read has the word that was found.
get_mode :
    (sec : Table)
    → (get_str sec "hbp" "hbp_mode" false (codes "TRACKING") (some valid_hbp_modes) false).1 ≡ []
    → WordSetting sec "hbp_mode" valid_hbp_modes (codes "TRACKING") (
        hbp_mode_word (
          hbp_mode_of
            (get_str sec "hbp" "hbp_mode" false (codes "TRACKING") (some valid_hbp_modes) false).0))
unfolding list_eqb
get_mode sec h =
    let m = get_str-member sec "hbp" "hbp_mode" false (codes "TRACKING") valid_hbp_modes refl in
    subst (λ t. WordSetting sec "hbp_mode" valid_hbp_modes (codes "TRACKING") t)
      (sym (hbp_mode_word-of _ m))
      (get_str-WordSetting sec "hbp" "hbp_mode" valid_hbp_modes (codes "TRACKING") h)

pub read_hbp-HbpFits : (sec : Table) → (read_hbp sec).1 ≡ [] → HbpFits sec (read_hbp sec).0
unfolding read_hbp
read_hbp-HbpFits sec h =
    grind (arith, append-nil_inv, get_str-StrSetting, get_int-IntIn, get_bool-BoolSetting, get_mode)

hbp_mode_of-word : (m : HbpMode) → hbp_mode_of (hbp_mode_word m) ≡ m
unfolding list_eqb
hbp_mode_of-word HbpMode.tracking = refl
hbp_mode_of-word HbpMode.persistent = refl

pub read_hbp_of_fits : (sec : Table) (h : HbpSettings) → HbpFits sec h → read_hbp sec ≡ (h, [])
unfolding read_hbp
read_hbp_of_fits sec h v = rw (
  get_str_of_setting sec "hbp" "master_ip" true [] h.master_ip v.ip,
  get_int_of_in sec "hbp" "master_port" true 0 1 65535 h.master_port v.port,
  get_str_of_word sec "hbp" "hbp_mode" valid_hbp_modes (codes "TRACKING") (hbp_mode_word h.mode)
      v.mode,
  get_int_of_in sec "hbp" "hbp_repeater_id" false 0 0 0xFFFFFFFF h.repeater_id v.repeater,
  get_bool_of_setting sec "hbp" "hbp_to_ipsc_pacing" true h.pacing v.pacing,
  get_int_of_in sec "hbp" "hbp_to_ipsc_frame_interval_ms" false 60 10 250 h.frame_interval
      v.interval,
  get_int_of_in sec "hbp" "hbp_to_ipsc_queue_limit" false 512 10 5000 h.queue_limit v.limit,
  get_bool_of_setting sec "hbp" "hbp_start_on_voice" true h.start_on_voice v.on_voice,
  get_int_of_in sec "hbp" "hbp_to_ipsc_header_repeats" false 3 1 5 h.header_repeats v.repeats,
  get_str_of_setting sec "hbp" "passphrase" true [] h.passphrase v.passphrase,
  hbp_mode_of-word h.mode,
)

-- The texts of the RPTC and RPTO packets.
pub record RadioFits (sec : Table) (r : Radio) : Type 0 where
  pub options : StrSetting sec "options" false [] r.options
  pub callsign : StrSetting sec "callsign" false (codes "NOCALL") r.callsign
  pub rx_freq : StrSetting sec "rx_freq" false (codes "000000000") r.rx_freq
  pub tx_freq : StrSetting sec "tx_freq" false (codes "000000000") r.tx_freq
  pub tx_power : StrSetting sec "tx_power" false (codes "00") r.tx_power
  pub colorcode : StrSetting sec "colorcode" false (codes "01") r.colorcode
  pub latitude : StrSetting sec "latitude" false (codes "00.0000 ") r.latitude
  pub longitude : StrSetting sec "longitude" false (codes "000.0000 ") r.longitude
  pub height : StrSetting sec "height" false (codes "000") r.height
  pub location : StrSetting sec "location" false [] r.location
  pub description : StrSetting sec "description" false [] r.description
  pub url : StrSetting sec "url" false [] r.url
  pub software_id : StrSetting sec "software_id" false (codes "ipsc2hbp") r.software_id
  pub package_id : StrSetting sec "package_id" false (codes "1.0.0") r.package_id

pub read_radio-RadioFits :
    (sec : Table) → (read_radio sec).1 ≡ [] → RadioFits sec (read_radio sec).0
unfolding read_radio
read_radio-RadioFits sec h = grind (arith, append-nil_inv, get_str-StrSetting)

pub read_radio_of_fits : (sec : Table) (r : Radio) → RadioFits sec r → read_radio sec ≡ (r, [])
unfolding read_radio
read_radio_of_fits sec r v = rw (
  get_str_of_setting sec "hbp" "options" false [] r.options v.options,
  get_str_of_setting sec "hbp" "callsign" false (codes "NOCALL") r.callsign v.callsign,
  get_str_of_setting sec "hbp" "rx_freq" false (codes "000000000") r.rx_freq v.rx_freq,
  get_str_of_setting sec "hbp" "tx_freq" false (codes "000000000") r.tx_freq v.tx_freq,
  get_str_of_setting sec "hbp" "tx_power" false (codes "00") r.tx_power v.tx_power,
  get_str_of_setting sec "hbp" "colorcode" false (codes "01") r.colorcode v.colorcode,
  get_str_of_setting sec "hbp" "latitude" false (codes "00.0000 ") r.latitude v.latitude,
  get_str_of_setting sec "hbp" "longitude" false (codes "000.0000 ") r.longitude v.longitude,
  get_str_of_setting sec "hbp" "height" false (codes "000") r.height v.height,
  get_str_of_setting sec "hbp" "location" false [] r.location v.location,
  get_str_of_setting sec "hbp" "description" false [] r.description v.description,
  get_str_of_setting sec "hbp" "url" false [] r.url v.url,
  get_str_of_setting sec "hbp" "software_id" false (codes "ipsc2hbp") r.software_id v.software_id,
  get_str_of_setting sec "hbp" "package_id" false (codes "1.0.0") r.package_id v.package_id,
)
