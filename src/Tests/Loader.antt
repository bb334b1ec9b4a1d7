-- ===== src/Tests/Loader.antt =====
-- The configuration loader, on a small file.
use ipsc2hbp.Base.{
  ◌↔◌, ◌≡◌, refl, true, false, Option, some, [], ◌∷◌, arith, length, lookup, list_eqb,
}
use ipsc2hbp.Base.Int.{pos}
use ipsc2hbp.Dmr.{Bytes}
use ipsc2hbp.Config.{Config}
use ipsc2hbp.Config.Text.{
  codes, strip, lstrip, is_space, upper, upper_of, encode, utf8_of, zfill, from_hex, hex_digit,
  is_ascii_space,
}
use ipsc2hbp.Config.Toml.{
  Value, text, int, boolean, table, Entries, end, entry, Table, section_required, not_integer,
  too_large, master_id_zero,
}
use ipsc2hbp.Config.Check.{
  section_of, required_section, optional_section, str_of, get_str, int_of, int_value, get_int,
  bool_of, get_bool, first_str, first_int,
}
use ipsc2hbp.Config.Settings.{
  read_log_level, read_packet_flow, auth_key_of, read_auth_key, is_ip, read_endpoint, read_upstream,
  read_behaviour,
}
use ipsc2hbp.Config.Settings.Hbp.{read_hbp, read_radio}
use ipsc2hbp.Config.Key.{hex_number, byte_number, auth_key_of-number}
use ipsc2hbp.Config.Load.{parsed, ok, invalid, config_of, check, load}
use ipsc2hbp.Config.Load.Exact.{Parts, config, Gives, load_iff}
use ipsc2hbp.Tests.{test_config}

-- Every text is an address.
abbrev pub any_address : Bytes → Option Bytes
any_address b = some (0 ∷ 0 ∷ 0 ∷ 0 ∷ [])

abbrev pub key_config : Config
key_config = record test_config {
  auth_key = 0 ∷ 0 ∷ 0 ∷ 0 ∷ 0 ∷ 0 ∷ 0 ∷ 0 ∷ 0 ∷ 0 ∷ 0 ∷ 0 ∷ 0 ∷ 0 ∷ 0 ∷ 0 ∷ 0 ∷ 0 ∷ 0 ∷ 0x1f ∷ [];
  ipsc_peer_id = 0;
  ipsc_source_id = 1;
  ipsc_upstream_master_ip = [];
  ipsc_upstream_master_port = 0;
  ipsc_peer_list_allow_unknown = false;
  ipsc_reflect_suppression = false;
  ipsc_busy_holdoff_ms = 100;
  ipsc_call_lock_hang_ms = 250;
  hbp_to_ipsc_queue_limit = 512;
  callsign = codes "NOCALL";
  rx_freq = codes "000000000";
  tx_freq = codes "000000000";
  tx_power = codes "00";
  colorcode = codes "01";
  latitude = codes "00.0000 ";
  longitude = codes "000.0000 ";
  height = codes "000";
  software_id = codes "ipsc2hbp";
  package_id = codes "1.0.0";
}

abbrev global_section : Value
global_section = table (entry "log_level" (text (codes " info ")) end)

abbrev ipsc_section : Entries
ipsc_section = entry "bind_ip" (text (codes "0")) (
    entry "bind_port" (int (pos 50000)) (
      entry "ipsc_master_id" (int (pos 1))
        (entry "auth_enabled" (boolean true) (entry "auth_key" (text (codes "1F")) end))))

abbrev hbp_section : Value
hbp_section = table (
    entry "master_ip" (text (codes "1")) (
      entry "master_port" (int (pos 62031))
        (entry "passphrase" (text (codes "p")) (entry "hbp_repeater_id" (int (pos 7)) end))))

abbrev pub sample : Table
sample = ("global", global_section) ∷ ("ipsc", table ipsc_section) ∷ ("hbp", hbp_section) ∷ []

pub sample_loads : load any_address (parsed sample) ≡ ok key_config
unfolding load check section_of required_section optional_section str_of get_str int_of int_value
    get_int bool_of get_bool first_str first_int read_log_level read_packet_flow auth_key_of
    read_auth_key is_ip read_endpoint read_upstream read_behaviour read_hbp read_radio config_of
    strip lstrip is_space upper upper_of encode utf8_of zfill from_hex hex_digit is_ascii_space
    list_eqb lookup
sample_loads = refl

load_iff_example :
    (load any_address (parsed sample) ≡ ok key_config)
    ↔ ((s : Parts) × Gives any_address sample s × (config s ≡ key_config))
load_iff_example = load_iff any_address sample key_config

auth_key_of-number_example :
    ((auth_key_of (codes "1F")).1 ≡ [])
    × (length (auth_key_of (codes "1F")).0 ≡ 20)
    × (byte_number 0 (auth_key_of (codes "1F")).0 ≡ 31)
unfolding hex_number hex_digit
auth_key_of-number_example = auth_key_of-number (codes "1F") 31 refl (omega arith)

-- A key with a space between its bytes is one byte short.
spaced_key :
    (length (auth_key_of (codes "12 34 56")).0 ≡ 19) × ((auth_key_of (codes "12 34 56")).1 ≡ [])
unfolding auth_key_of zfill from_hex hex_digit is_ascii_space
spaced_key = (refl, refl)

-- Every wrong setting has its line, and all of them are reported.
abbrev wrong : Table
wrong =
    (
      "ipsc",
      table (
          entry "bind_ip" (text (codes "0"))
            (entry "bind_port" (int (pos 70000)) (entry "ipsc_master_id" (boolean true) end))),
    )
    ∷ ("hbp", hbp_section)
    ∷ []

wrong_fails :
    load any_address (parsed wrong)
    ≡ invalid (
        section_required "global"
        ∷ too_large "ipsc" "bind_port" (pos 70000)
        ∷ not_integer "ipsc" "ipsc_master_id" "bool"
        ∷ master_id_zero
        ∷ [])
unfolding load check section_of required_section optional_section str_of get_str int_of int_value
    get_int bool_of get_bool first_str first_int read_log_level read_packet_flow auth_key_of
    read_auth_key is_ip read_endpoint read_upstream read_behaviour read_hbp read_radio config_of
    strip lstrip is_space upper upper_of encode utf8_of zfill from_hex hex_digit is_ascii_space
    list_eqb lookup
wrong_fails = refl
