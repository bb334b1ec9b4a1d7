-- ===== src/Tests/Frames.antt =====
-- Packets and bursts, on concrete bytes.
use ipsc2hbp.Base.{
  ℕ, ◌≡◌, refl, bit_or, true, false, some, [], ◌∷◌, arith, length, get_elem?, slice, replicate,
  nat_eqb,
}
use ipsc2hbp.Dmr.{Bytes, from_bytes}
use ipsc2hbp.Hbp.Const.{
  dmrd_len, hbpf_frametype_datasync, hbpf_slt_vhead, hbpf_slt_vterm, hbpf_frametype_voicesync,
}
use ipsc2hbp.Ipsc.Const.{group_voice, slot1_voice}
use ipsc2hbp.Ipsc.Wire.{slot_of, parse_group_voice_meta}
use ipsc2hbp.Translate.State.{ts2, init, idle_in}
use ipsc2hbp.Translate.Frame.{
  lc_payload, decode_hbp_voice_lc, voice_payload, extract_ambe_from_dmrd,
}
use ipsc2hbp.Translate.Frame.FullLc.{decode_hbp_voice_lc-lc_payload}
use ipsc2hbp.Translate.Frame.Ambe.{clean_bits, extract_ambe_from_dmrd-voice_payload}
use ipsc2hbp.Translate.Packet.{build_gv, rtp_header, build_dmrd}
use ipsc2hbp.Translate.Packet.Fields.{parse_dmrd-build_dmrd, parse_group_voice_meta-build_gv}
use ipsc2hbp.Translate.Inbound.{Dmrd, parse_dmrd, timeslot, is_head, is_term, dtype, frame_type}
use ipsc2hbp.Translate.Outbound.{slot_flags, voice_flags}
use ipsc2hbp.Translate.Outbound.Flags.{head_flags, term_flags, voice_flags_lem}
use ipsc2hbp.Tests.{test_config, padding_codec, padding_codec-IsCodec}

abbrev lc : Bytes
lc = 0 ∷ 0 ∷ 32 ∷ 0 ∷ 0 ∷ 9 ∷ 0 ∷ 0 ∷ 5 ∷ []

abbrev group : Bytes
group = 0 ∷ 0 ∷ 9 ∷ []

abbrev radio : Bytes
radio = 0 ∷ 0 ∷ 5 ∷ []

abbrev stream : Bytes
stream = 1 ∷ 2 ∷ 3 ∷ 4 ∷ []

abbrev flagged : ℕ → Dmrd
flagged n = record {
  src_sub = radio;
  dst_group = group;
  flags = n;
  stream = stream;
  payload_33 = replicate 33 0x55;
}

decode_hbp_voice_lc-lc_payload_example :
    decode_hbp_voice_lc padding_codec
      (lc_payload padding_codec (padding_codec.encode_header_lc lc) padding_codec.slot_type_head)
    ≡ lc
decode_hbp_voice_lc-lc_payload_example =
    decode_hbp_voice_lc-lc_payload padding_codec lc padding_codec-IsCodec refl (
      omega arith,
      (
        omega arith,
        (
          omega arith,
          (
            omega arith,
            (omega arith, (omega arith, (omega arith, (omega arith, (omega arith, tt))))),
          ),
        ),
      ),
    )

extract_ambe_from_dmrd-voice_payload_example :
    let ambe =
      extract_ambe_from_dmrd padding_codec
        (voice_payload padding_codec (replicate 19 0x5a) (replicate 48 true)) in
    (from_bytes ambe ≡ clean_bits (from_bytes (replicate 19 0x5a))) × (length ambe ≡ 19)
extract_ambe_from_dmrd-voice_payload_example =
    extract_ambe_from_dmrd-voice_payload padding_codec (replicate 19 0x5a) (replicate 48 true)
      padding_codec-IsCodec refl refl

parse_dmrd-build_dmrd_example :
    let packet = build_dmrd test_config 17 radio group 0xa1 stream (replicate 33 0x55) in
    (length packet ≡ dmrd_len) × (parse_dmrd packet ≡ flagged 0xa1)
parse_dmrd-build_dmrd_example =
    parse_dmrd-build_dmrd test_config 17 radio group 0xa1 stream (replicate 33 0x55) refl refl refl
      refl

parse_group_voice_meta-build_gv_example :
    let packet =
      build_gv test_config init.shared radio group 0x20
        (rtp_header 0x5d idle_in)
        (slot1_voice ∷ 7 ∷ [])
        3 in
    (length packet ≡ 32)
    × (get_elem? packet 0 ≡ some group_voice)
    × (get_elem? packet 5 ≡ some 3)
    × (slice 6 9 packet ≡ radio)
    × (slice 9 12 packet ≡ group)
    × (parse_group_voice_meta packet ≡ some (slot_of 0x20, slot1_voice))
parse_group_voice_meta-build_gv_example =
    parse_group_voice_meta-build_gv test_config init.shared radio group 0x20 0x5d idle_in
      slot1_voice (7 ∷ []) 3 refl refl refl refl

head_flags_example :
    let d = flagged (bit_or (slot_flags ts2) (bit_or hbpf_frametype_datasync hbpf_slt_vhead)) in
    (timeslot d ≡ ts2) × (is_head d ≡ true) × (is_term d ≡ false)
head_flags_example =
    head_flags (flagged (bit_or (slot_flags ts2) (bit_or hbpf_frametype_datasync hbpf_slt_vhead)))
      ts2 refl

term_flags_example :
    let d = flagged (bit_or (slot_flags ts2) (bit_or hbpf_frametype_datasync hbpf_slt_vterm)) in
    (timeslot d ≡ ts2) × (is_head d ≡ false) × (is_term d ≡ true)
term_flags_example =
    term_flags (flagged (bit_or (slot_flags ts2) (bit_or hbpf_frametype_datasync hbpf_slt_vterm)))
      ts2 refl

voice_flags_lem_example :
    let d = flagged (bit_or (slot_flags ts2) (voice_flags 3)) in
    (timeslot d ≡ ts2)
    × (is_head d ≡ false)
    × (is_term d ≡ false)
    × (dtype d ≡ 3)
    × (nat_eqb (frame_type d) hbpf_frametype_voicesync ≡ nat_eqb 3 0)
voice_flags_lem_example =
    voice_flags_lem (flagged (bit_or (slot_flags ts2) (voice_flags 3))) ts2 3 (omega arith) refl
