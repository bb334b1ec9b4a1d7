-- ===== src/Dmr/Codec.antt =====
-- dmr_utils3, which translate/translator.py imports and this repository does not hold: the
-- operations are a parameter, and `IsCodec` states what its documentation promises of them.
use ipsc2hbp.Base.{ℕ, ◌≤◌, ◌≡◌, length, Dict, some, lookup, nat_eq}
use ipsc2hbp.Dmr.BitString.{Bytes, Bits, IsBytes, from_bytes, to_bytes}

-- The keys of `dmr_utils3.const.EMB` that the translator uses.
pub data BurstName : Type 0 where
  burst_b burst_c burst_d burst_e burst_f : BurstName

pub record Codec : Type 0 where
  -- dmr_utils3.bptc
  pub encode_emblc : Bytes → Dict ℕ Bits
  pub encode_header_lc : Bytes → Bits
  pub encode_terminator_lc : Bytes → Bits
  pub decode_full_lc : Bits → Bits
  -- dmr_utils3.bptc.rs129
  pub lc_header_encode : Bytes → Bytes
  pub lc_terminator_encode : Bytes → Bytes
  -- dmr_utils3.ambe_utils
  pub convert_49_to_72 : Bits → Bytes
  pub convert_72_to_49 : Bits → Bits
  -- dmr_utils3.const
  pub emb : BurstName → Bits
  pub slot_type_head : Bits
  pub slot_type_term : Bits
  pub bs_voice_sync : Bits
  pub bs_data_sync : Bits
  pub lc_opt : Bytes

pub record IsCodec (c : Codec) : Type 0 where
  -- A full LC is 9 bytes, its BPTC(196,96) codeword 196 bits, its RS(12,9) parity 3 bytes.
  pub length-lc_opt : length c.lc_opt ≡ 3
  pub length-header : (lc : Bytes) → length lc ≡ 9 → length (c.encode_header_lc lc) ≡ 196
  pub length-terminator : (lc : Bytes) → length lc ≡ 9 → length (c.encode_terminator_lc lc) ≡ 196
  pub length-header_fec : (lc : Bytes) → length lc ≡ 9 → length (c.lc_header_encode lc) ≡ 3
  pub length-terminator_fec : (lc : Bytes) → length lc ≡ 9 → length (c.lc_terminator_encode lc) ≡ 3
  -- Decoding an undamaged codeword gives the LC.
  pub decode-header :
      (lc : Bytes)
      → length lc ≡ 9
      → IsBytes lc
      → to_bytes (c.decode_full_lc (c.encode_header_lc lc)) ≡ lc
  -- An AMBE frame is 49 bits, 72 with its error correction (9 bytes).
  pub length-ambe_72 : (a : Bits) → length a ≡ 49 → length (c.convert_49_to_72 a) ≡ 9
  pub length-ambe_49 : (a : Bits) → length a ≡ 72 → length (c.convert_72_to_49 a) ≡ 49
  pub ambe_round :
      (a : Bits) → length a ≡ 49 → c.convert_72_to_49 (from_bytes (c.convert_49_to_72 a)) ≡ a
  -- The embedded LC of a call is cut into four fragments of 32 bits, numbered 1 to 4.
  pub emblc_fragment :
      (lc : Bytes) (n : ℕ)
      → 1 ≤ n
      → n ≤ 4
      → (f : Bits) × (lookup n (c.encode_emblc lc) ≡ some f) × (length f ≡ 32)
  pub length-emb : (b : BurstName) → length (c.emb b) ≡ 16
  pub length-slot_type_head : length c.slot_type_head ≡ 20
  pub length-slot_type_term : length c.slot_type_term ≡ 20
  pub length-voice_sync : length c.bs_voice_sync ≡ 48
  pub length-data_sync : length c.bs_data_sync ≡ 48
