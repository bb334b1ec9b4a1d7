-- ===== src/Translate/Frame.antt =====
-- translate/translator.py: the layout of DMR bursts (264 bits, 33 bytes) and of the 19-byte AMBE
-- field of an IPSC voice packet. The round trips are in the modules below.
pub mod Parts
pub mod FullLc
pub mod Ambe
pub mod Embed
use ipsc2hbp.Base.{
  ℕ, zero, suc, ◌-◌, Bool, false, ◌&&◌, Option, none, some, List, [], ◌∷◌, ◌++◌, nat_eqb, leb,
  if◌then◌else◌, nonempty, Dict, lookup, nat_eq, length, take, drop, slice, get_or, replicate,
}
use ipsc2hbp.Dmr.{Bytes, Bits, from_bytes, to_bytes}
use ipsc2hbp.Dmr.Codec.{Codec, BurstName, burst_b, burst_c, burst_d, burst_e, burst_f}

-- `_NULL_EMB_LC`
abbrev pub null_emb_lc : Bits
null_emb_lc = replicate 32 false

-- `_EMB_BURST_NAMES`
abbrev pub emb_burst_names : List BurstName
emb_burst_names = burst_b ∷ burst_c ∷ burst_d ∷ burst_e ∷ burst_f ∷ []

-- `xs[-n:]`
abbrev pub last : ℕ → Bits → Bits
last n xs = drop (length xs - n) xs

-- The three AMBE frames of a voice burst; the second straddles the EMBED field.
pub extract_ambe_72 : Bits → Bits × Bits × Bits
extract_ambe_72 burst =
    (slice 0 72 burst, slice 72 108 burst ++ slice 156 192 burst, slice 192 264 burst)

-- The 152 bits of the IPSC field: each frame is followed by its bad-data bit, 0 on transmit.
pub pack_ambe_19 : Bits → Bits → Bits → Bytes
pack_ambe_19 a b d = to_bytes (a ++ false ∷ (b ++ false ∷ (d ++ false ∷ false ∷ false ∷ [])))

module _ (c : Codec) where
  -- `_ambe49_to_72`
  unfoldable pub ambe49_to_72 : Bits → Bits
  ambe49_to_72 ba49 = from_bytes (c.convert_49_to_72 ba49)

  -- `_extract_ambe_from_dmrd`
  unfoldable pub extract_ambe_from_dmrd : Bytes → Bytes
  unfolding extract_ambe_72 pack_ambe_19
  extract_ambe_from_dmrd payload_33 =
      let (a1, a2, a3) = extract_ambe_72 (from_bytes payload_33) in
      pack_ambe_19 (c.convert_72_to_49 a1) (c.convert_72_to_49 a2) (c.convert_72_to_49 a3)

  -- A fragment of the embedded LC, null where the call has none.
  unfoldable pub emb_fragment : ℕ → Option (Dict ℕ Bits) → Bits
  emb_fragment pos none = null_emb_lc
  emb_fragment pos (some d) = elim (lookup pos d) [ none ↦ null_emb_lc | some f ↦ f ]

  -- `EMB[_EMB_BURST_NAMES[pos - 1]]`, for a position from 1 to 5
  unfoldable pub emb_word : ℕ → Bits
  emb_word pos = c.emb (get_or emb_burst_names (pos - 1) burst_f)

  -- `_build_embed`
  unfoldable pub build_embed : ℕ → Option (Dict ℕ Bits) → Bits
  unfolding emb_word emb_fragment
  build_embed pos emb_lc =
      if nat_eqb pos 0
      then c.bs_voice_sync
      else take 8 (emb_word pos)
        ++ ((if leb pos 4 then emb_fragment pos emb_lc else null_emb_lc) ++ last 8 (emb_word pos))

  -- The payload of a voice burst, from bytes 33 to 51 of an IPSC voice packet.
  unfoldable pub voice_payload : Bytes → Bits → Bytes
  unfolding ambe49_to_72
  voice_payload ambe_19 embed =
      let raw = from_bytes ambe_19 in
      let a1 = ambe49_to_72 (slice 0 49 raw) in
      let a2 = ambe49_to_72 (slice 50 99 raw) in
      let a3 = ambe49_to_72 (slice 100 149 raw) in
      to_bytes (a1 ++ (take 36 a2 ++ (embed ++ (drop 36 a2 ++ a3))))

  -- The payload of a header or a terminator: slot type and sync stand amid the BPTC codeword.
  unfoldable pub lc_payload : Bits → Bits → Bytes
  lc_payload full_lc slot_type = to_bytes (
      take 98 full_lc
      ++ (take 10 slot_type ++ (c.bs_data_sync ++ (last 10 slot_type ++ drop 98 full_lc))))

  -- `_decode_hbp_voice_lc`
  unfoldable pub decode_hbp_voice_lc : Bytes → Bytes
  decode_hbp_voice_lc payload_33 =
      let frame_bits = from_bytes payload_33 in
      to_bytes (c.decode_full_lc (slice 0 98 frame_bits ++ slice 166 264 frame_bits))
