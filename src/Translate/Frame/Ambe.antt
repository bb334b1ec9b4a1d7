-- ===== src/Translate/Frame/Ambe.antt =====
-- Voice bursts of translate/translator.py, read back.
use ipsc2hbp.Base.{
  ℕ, ◌*◌, false, [], ◌∷◌, length-append, ◌+◌, ◌-◌, ◌≤◌, ◌≡◌, refl, ap, ◌∙◌, ◌++◌, arith, length,
  take, drop, slice, length-take, length-drop, slice_first, take-append-drop, nat_eq,
}
use ipsc2hbp.Dmr.{
  Bytes, Bits, to_bytes, from_bytes, from_bytes-to_bytes, length-from_bytes, length-to_bytes,
}
use ipsc2hbp.Dmr.Codec.{Codec, IsCodec}
use ipsc2hbp.Translate.Frame.{
  ambe49_to_72, extract_ambe_72, pack_ambe_19, extract_ambe_from_dmrd, voice_payload,
}
use ipsc2hbp.Translate.Frame.Parts.{length_five, second_part, fourth_part, fifth_part}

-- The bits of a voice burst, as `voice_payload` joins them.
abbrev voice_frame : Bits → Bits → Bits → Bits → Bits
voice_frame a1 a2 a3 embed = a1 ++ (take 36 a2 ++ (embed ++ (drop 36 a2 ++ a3)))

-- The bits of an AMBE field with the bad-data bit behind each frame, and the padding, cleared.
abbrev pub clean_bits : Bits → Bits
clean_bits raw =
    slice 0 49 raw
    ++ false ∷ (slice 50 99 raw ++ false ∷ (slice 100 149 raw ++ false ∷ false ∷ false ∷ []))

module _ (ambe_19 : Bytes) (h : length ambe_19 ≡ 19) where
  raw_length : length (from_bytes ambe_19) ≡ 152
  raw_length = omega (arith, length-from_bytes ambe_19)

  piece : (a b : ℕ) → a + 49 ≡ b → b ≤ 152 → length (slice a b (from_bytes ambe_19)) ≡ 49
  piece a b e le = omega (
    arith,
    length-take (b - a) (drop a (from_bytes ambe_19)),
    length-drop a (from_bytes ambe_19),
    raw_length,
  )

module _ (c : Codec) (ok : IsCodec c) where
  coded : (a : Bits) → length a ≡ 49 → length (ambe49_to_72 c a) ≡ 72
  unfolding ambe49_to_72
  coded a n = omega (arith, length-from_bytes (c.convert_49_to_72 a), ok.length-ambe_72 a n)

  coded_round : (a : Bits) → length a ≡ 49 → c.convert_72_to_49 (ambe49_to_72 c a) ≡ a
  unfolding ambe49_to_72
  coded_round a n = ok.ambe_round a n

-- Three coded frames around an EMBED field.
module _ (a1 a2 a3 embed : Bits) (h1 : length a1 ≡ 72) (h2 : length a2 ≡ 72) (h3 : length a3 ≡ 72)
    (he : length embed ≡ 48) where
  half_first : length (take 36 a2) ≡ 36
  half_first = length-take 36 a2 ∙ omega arith

  half_last : length (drop 36 a2) ≡ 36
  half_last = length-drop 36 a2 ∙ omega arith

  length-voice_frame : length (voice_frame a1 a2 a3 embed) ≡ 264
  length-voice_frame = length_five 72 36 48 36 72 _ _ _ _ _ h1 half_first he half_last h3

  middle :
      slice 72 108 (voice_frame a1 a2 a3 embed) ++ slice 156 192 (voice_frame a1 a2 a3 embed) ≡ a2
  middle =
      ap (λ x. x ++ slice 156 192 (voice_frame a1 a2 a3 embed))
        (second_part 72 36 48 36 72 _ _ _ _ _ h1 half_first he half_last h3)
      ∙ ap (λ x. take 36 a2 ++ x)
          (fourth_part 72 36 48 36 72 _ _ _ _ _ h1 half_first he half_last h3)
      ∙ take-append-drop 36 a2

  extract-voice_frame : extract_ambe_72 (voice_frame a1 a2 a3 embed) ≡ (a1, a2, a3)
  unfolding extract_ambe_72
  extract-voice_frame = λ i. (
    slice_first 72 a1 (take 36 a2 ++ (embed ++ (drop 36 a2 ++ a3))) h1 i,
    middle i,
    fifth_part 72 36 48 36 72 a1 (take 36 a2) embed (drop 36 a2) a3 h1 half_first he half_last h3 i,
  )

module _ (c : Codec) (ambe_19 : Bytes) (embed : Bits) (ok : IsCodec c) (h : length ambe_19 ≡ 19)
    (he : length embed ≡ 48) where
  abbrev coded_frame : ℕ → ℕ → Bits
  coded_frame a b = ambe49_to_72 c (slice a b (from_bytes ambe_19))

  one : length (slice 0 49 (from_bytes ambe_19)) ≡ 49
  one = piece ambe_19 h 0 49 refl (omega arith)

  two : length (slice 50 99 (from_bytes ambe_19)) ≡ 49
  two = piece ambe_19 h 50 99 refl (omega arith)

  three : length (slice 100 149 (from_bytes ambe_19)) ≡ 49
  three = piece ambe_19 h 100 149 refl (omega arith)

  frame_length :
      length (voice_frame (coded_frame 0 49) (coded_frame 50 99) (coded_frame 100 149) embed) ≡ 264
  frame_length =
      length-voice_frame _ _ _ embed (coded c ok _ one) (coded c ok _ two) (coded c ok _ three) he

  -- A voice burst fills the 33 bytes of a DMRD payload.
  pub length-voice_payload : length (voice_payload c ambe_19 embed) ≡ 33
  unfolding voice_payload
  length-voice_payload = length-to_bytes 33 _ frame_length

  packed-clean_bits :
      extract_ambe_from_dmrd c (voice_payload c ambe_19 embed)
      ≡ to_bytes (clean_bits (from_bytes ambe_19))
  unfolding voice_payload extract_ambe_from_dmrd pack_ambe_19
  packed-clean_bits =
      let packed = λ (t : Bits × Bits × Bits).
        pack_ambe_19 (c.convert_72_to_49 t.0) (c.convert_72_to_49 t.1) (c.convert_72_to_49 t.2) in
      ap (λ x. packed (extract_ambe_72 x)) (from_bytes-to_bytes 33 _ frame_length)
      ∙ ap packed (
          extract-voice_frame _ _ _ embed (coded c ok _ one) (coded c ok _ two) (coded c ok _ three)
            he)
      ∙ λ i.
          pack_ambe_19 (coded_round c ok _ one i) (coded_round c ok _ two i)
            (coded_round c ok _ three i)

  clean_length : length (clean_bits (from_bytes ambe_19)) ≡ 19 * 8
  clean_length =
      let raw = from_bytes ambe_19 in
      let tail = slice 100 149 raw ++ false ∷ false ∷ false ∷ [] in
      let back = slice 50 99 raw ++ false ∷ tail in
      omega (
        arith,
        length-append (slice 0 49 raw) (false ∷ back),
        length-append (slice 50 99 raw) (false ∷ tail),
        length-append (slice 100 149 raw) (false ∷ false ∷ false ∷ []),
        one,
        two,
        three,
      )

  -- For a codec that keeps its laws, an AMBE field of 19 bytes and an EMBED field of 48 bits,
  -- the AMBE field coded into a DMR voice burst and taken out again has 19 bytes, and its bits
  -- are those that went in, with the bit behind each of the three frames of 49 and the two last
  -- bits cleared.
  pub extract_ambe_from_dmrd-voice_payload :
      (from_bytes (extract_ambe_from_dmrd c (voice_payload c ambe_19 embed))
        ≡ clean_bits (from_bytes ambe_19))
      × (length (extract_ambe_from_dmrd c (voice_payload c ambe_19 embed)) ≡ 19)
  extract_ambe_from_dmrd-voice_payload = (
    ap from_bytes packed-clean_bits ∙ from_bytes-to_bytes 19 _ clean_length,
    ap length packed-clean_bits ∙ length-to_bytes 19 _ clean_length,
  )
