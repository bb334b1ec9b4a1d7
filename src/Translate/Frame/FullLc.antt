-- ===== src/Translate/Frame/FullLc.antt =====
-- Header and terminator bursts of translate/translator.py, read back.
use ipsc2hbp.Base.{
  ◌-◌, ◌≡◌, ap, ◌∙◌, ◌++◌, arith, length, take, drop, slice, length-take, length-drop, slice_first,
  take-append-drop, nat_eq,
}
use ipsc2hbp.Dmr.{Bytes, Bits, IsBytes, from_bytes, to_bytes, from_bytes-to_bytes, length-to_bytes}
use ipsc2hbp.Dmr.Codec.{Codec, IsCodec}
use ipsc2hbp.Translate.Frame.{last, lc_payload, decode_hbp_voice_lc}
use ipsc2hbp.Translate.Frame.Parts.{length_five, fifth_part}

-- The bits of a header or terminator burst, as `lc_payload` joins them.
abbrev lc_frame : Codec → Bits → Bits → Bits
lc_frame c full slot_type =
    take 98 full ++ (take 10 slot_type ++ (c.bs_data_sync ++ (last 10 slot_type ++ drop 98 full)))

module _ (c : Codec) (ok : IsCodec c) (full slot_type : Bits) (hf : length full ≡ 196)
    (hs : length slot_type ≡ 20) where
  first_half : length (take 98 full) ≡ 98
  first_half = length-take 98 full ∙ omega arith

  second_half : length (drop 98 full) ≡ 98
  second_half = length-drop 98 full ∙ omega arith

  type_first : length (take 10 slot_type) ≡ 10
  type_first = length-take 10 slot_type ∙ omega arith

  type_last : length (last 10 slot_type) ≡ 10
  type_last = length-drop (length slot_type - 10) slot_type ∙ omega arith

  length-lc_frame : length (lc_frame c full slot_type) ≡ 264
  length-lc_frame =
      length_five 98 10 48 10 98 _ _ _ _ _ first_half type_first ok.length-data_sync type_last
        second_half

  lc_frame-halves :
      slice 0 98 (lc_frame c full slot_type) ++ slice 166 264 (lc_frame c full slot_type) ≡ full
  lc_frame-halves =
      ap (λ x. x ++ slice 166 264 (lc_frame c full slot_type))
        (slice_first 98 (take 98 full) _ first_half)
      ∙ ap (λ x. take 98 full ++ x)
          (fifth_part 98 10 48 10 98 _ _ _ _ _ first_half type_first ok.length-data_sync type_last
            second_half)
      ∙ take-append-drop 98 full

  lc_frame-bits : from_bytes (lc_payload c full slot_type) ≡ lc_frame c full slot_type
  unfolding lc_payload
  lc_frame-bits = from_bytes-to_bytes 33 (lc_frame c full slot_type) length-lc_frame

  -- A header or terminator burst fills the 33 bytes of a DMRD payload.
  pub length-lc_payload : length (lc_payload c full slot_type) ≡ 33
  unfolding lc_payload
  length-lc_payload = length-to_bytes 33 (lc_frame c full slot_type) length-lc_frame

  lc_payload-codeword :
      let bits = from_bytes (lc_payload c full slot_type) in
      slice 0 98 bits ++ slice 166 264 bits ≡ full
  lc_payload-codeword = ap (λ x. slice 0 98 x ++ slice 166 264 x) lc_frame-bits ∙ lc_frame-halves

-- For a codec that keeps its laws and an LC of nine bytes, the header burst that one direction
-- builds for the LC is decoded to that LC by the other.
pub decode_hbp_voice_lc-lc_payload :
    (c : Codec) (lc : Bytes)
    → IsCodec c
    → length lc ≡ 9
    → IsBytes lc
    → decode_hbp_voice_lc c (lc_payload c (c.encode_header_lc lc) c.slot_type_head) ≡ lc
unfolding decode_hbp_voice_lc
decode_hbp_voice_lc-lc_payload c lc ok h b =
    ap (λ x. to_bytes (c.decode_full_lc x))
      (lc_payload-codeword c ok (c.encode_header_lc lc) c.slot_type_head (ok.length-header lc h)
        ok.length-slot_type_head)
    ∙ ok.decode-header lc h b
