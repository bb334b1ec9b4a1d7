-- ===== src/Tests.antt =====
-- Concrete data, on which the theorems of the library are applied: a configuration, and a codec in
-- the place of dmr_utils3 that pads instead of correcting errors.
mod Locks
mod Frames
mod Callbacks
mod HbpSide
mod IpscSide
mod Loader
mod Systems
mod Decoders
use ipsc2hbp.Base.{
  ℕ, zero, suc, ◌+◌, ◌*◌, ◌≤◌, ◌<◌, ◌≡◌, refl, ap, ◌∙◌, Bool, true, false, List, [], ◌∷◌, ◌++◌,
  arith, length, take, replicate, length-append, length-replicate, take-append, length-take, Dict,
  lookup, nat_eq, some,
}
use ipsc2hbp.Dmr.{
  Bytes, Bits, IsBytes, from_bytes, to_bytes, length-from_bytes, length-to_bytes,
  to_bytes-from_bytes, from_bytes-to_bytes,
}
use ipsc2hbp.Dmr.Codec.{Codec, IsCodec}
use ipsc2hbp.Config.{Config, IpscMode, HbpMode, PacketFlow}

abbrev pub test_config : Config
test_config = record {
  log_level = 0x49 ∷ 0x4e ∷ 0x46 ∷ 0x4f ∷ [];
  ipsc_mode = IpscMode.master;
  ipsc_bind_ip = 0x30 ∷ [];
  ipsc_bind_port = 50000;
  ipsc_master_id = 1;
  ipsc_peer_id = 7;
  ipsc_source_id = 7;
  allowed_peer_ip = [];
  auth_enabled = true;
  auth_key = 1 ∷ 2 ∷ [];
  keepalive_watchdog = 60;
  ipsc_upstream_master_ip = 0x31 ∷ [];
  ipsc_upstream_master_port = 50000;
  ipsc_upstream_master_id = 0;
  ipsc_peer_alive_interval = 5;
  ipsc_max_missed = 3;
  ipsc_peer_list_allow_unknown = true;
  ipsc_peer_list_prune = true;
  ipsc_reflect_suppression = true;
  ipsc_reflect_window = 8;
  ipsc_busy_slot_guard = true;
  ipsc_busy_holdoff_ms = 500;
  ipsc_call_lock = true;
  ipsc_call_lock_hang_ms = 3000;
  ipsc_call_lock_same_tg_only = true;
  compat_packet_flow = PacketFlow.packet_translator;
  hbp_master_ip = 0x31 ∷ [];
  hbp_master_port = 62031;
  hbp_repeater_id = 7;
  hbp_passphrase = 0x70 ∷ [];
  hbp_mode = HbpMode.tracking;
  hbp_to_ipsc_pacing = true;
  hbp_to_ipsc_frame_interval_ms = 60;
  hbp_to_ipsc_queue_limit = 100;
  hbp_start_on_voice = true;
  hbp_to_ipsc_header_repeats = 3;
  options = [];
  callsign = 0x4e ∷ 0x30 ∷ [];
  rx_freq = [];
  tx_freq = [];
  tx_power = [];
  colorcode = [];
  latitude = [];
  longitude = [];
  height = [];
  location = [];
  description = [];
  url = [];
  software_id = [];
  package_id = [];
}

abbrev pub padding_codec : Codec
padding_codec = record {
  encode_emblc = λ lc.
      (1, replicate 32 true)
      ∷ (2, replicate 32 false)
      ∷ (3, replicate 32 true)
      ∷ (4, replicate 32 false)
      ∷ [];
  encode_header_lc = λ lc. from_bytes lc ++ replicate 124 false;
  encode_terminator_lc = λ lc. from_bytes lc ++ replicate 124 true;
  decode_full_lc = λ bits. take 72 bits;
  lc_header_encode = λ lc. 1 ∷ 2 ∷ 3 ∷ [];
  lc_terminator_encode = λ lc. 4 ∷ 5 ∷ 6 ∷ [];
  convert_49_to_72 = λ a. to_bytes (a ++ replicate 23 false);
  convert_72_to_49 = λ b. take 49 b;
  emb = λ name. replicate 16 true;
  slot_type_head = replicate 20 true;
  slot_type_term = replicate 20 false;
  bs_voice_sync = replicate 48 true;
  bs_data_sync = replicate 48 false;
  lc_opt = 0x00 ∷ 0x00 ∷ 0x20 ∷ [];
}

bits_of_lc : (lc : Bytes) → length lc ≡ 9 → length (from_bytes lc) ≡ 72
bits_of_lc lc h = omega (arith, length-from_bytes lc)

codeword : (lc : Bytes) (b : Bool) → length lc ≡ 9 → length (from_bytes lc ++ replicate 124 b) ≡ 196
codeword lc b h = omega (
  arith,
  length-append (from_bytes lc) (replicate 124 b),
  bits_of_lc lc h,
  length-replicate 124 b,
)

padded : (a : Bits) → length a ≡ 49 → length (a ++ replicate 23 false) ≡ 72
padded a h = omega (arith, length-append a (replicate 23 false), length-replicate 23 false)

fragment :
    (lc : Bytes) (n : ℕ)
    → 1 ≤ n
    → n ≤ 4
    → (f : Bits) × (lookup n (padding_codec.encode_emblc lc) ≡ some f) × (length f ≡ 32)
unfolding lookup
fragment lc zero h k = absurd (omega arith)
fragment lc (suc zero) h k = (replicate 32 true, refl, refl)
fragment lc (suc (suc zero)) h k = (replicate 32 false, refl, refl)
fragment lc (suc (suc (suc zero))) h k = (replicate 32 true, refl, refl)
fragment lc (suc (suc (suc (suc zero)))) h k = (replicate 32 false, refl, refl)
fragment lc (suc (suc (suc (suc (suc n))))) h k = absurd (omega arith)

pub padding_codec-IsCodec : IsCodec padding_codec
padding_codec-IsCodec = record {
  length-lc_opt = refl;
  length-header = λ lc h. codeword lc false h;
  length-terminator = λ lc h. codeword lc true h;
  length-header_fec = λ lc h. refl;
  length-terminator_fec = λ lc h. refl;
  decode-header = λ lc h b.
      ap to_bytes (take-append 72 (from_bytes lc) (replicate 124 false) (bits_of_lc lc h))
      ∙ to_bytes-from_bytes lc b;
  length-ambe_72 = λ a h. length-to_bytes 9 (a ++ replicate 23 false) (padded a h);
  length-ambe_49 = λ a h. length-take 49 a ∙ omega arith;
  ambe_round = λ a h.
      ap (take 49) (from_bytes-to_bytes 9 (a ++ replicate 23 false) (padded a h))
      ∙ take-append 49 a (replicate 23 false) h;
  emblc_fragment = fragment;
  length-emb = λ b. refl;
  length-slot_type_head = refl;
  length-slot_type_term = refl;
  length-voice_sync = refl;
  length-data_sync = refl;
}
