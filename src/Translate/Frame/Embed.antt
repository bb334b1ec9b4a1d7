-- ===== src/Translate/Frame/Embed.antt =====
-- The EMBED field of translate/translator.py (`_build_embed`).
use ipsc2hbp.Base.{
  ℕ, ◌-◌, ◌≤◌, ◌≡◌, ◌∙◌, false, arith, length, take, slice, length-take, length-drop, nat_eq, some,
  leb, nat_eqb, if◌then◌else◌, length-replicate, Bool-cases, inl, inr, leb→le,
}
use ipsc2hbp.Dmr.{Bytes, Bits}
use ipsc2hbp.Dmr.Codec.{Codec, IsCodec}
use ipsc2hbp.Translate.Frame.{null_emb_lc, last, emb_fragment, emb_word, build_embed}
use ipsc2hbp.Translate.Frame.Parts.{length_three, middle_part}

module _ (c : Codec) (ok : IsCodec c) where
  word : (pos : ℕ) → length (emb_word c pos) ≡ 16
  unfolding emb_word
  word pos = ok.length-emb _

  first_byte : (pos : ℕ) → length (take 8 (emb_word c pos)) ≡ 8
  first_byte pos = length-take 8 (emb_word c pos) ∙ omega (arith, word pos)

  last_byte : (pos : ℕ) → length (last 8 (emb_word c pos)) ≡ 8
  last_byte pos =
      length-drop (length (emb_word c pos) - 8) (emb_word c pos) ∙ omega (arith, word pos)

-- What stands in the middle of the EMBED field of a call with LC `lc`.
abbrev pub fragment_at : Codec → Bytes → ℕ → Bits
fragment_at c lc pos =
    if leb pos 4 then emb_fragment c pos (some (c.encode_emblc lc)) else null_emb_lc

fragment_at-length :
    (c : Codec) → IsCodec c → (lc : Bytes) (pos : ℕ) → 1 ≤ pos → length (fragment_at c lc pos) ≡ 32
unfolding emb_fragment
fragment_at-length c ok lc pos le = elim (Bool-cases (leb pos 4)) [
  | inl small ↦
      let (f, found, n) = ok.emblc_fragment lc pos le (leb→le pos 4 small) in
      rw (small, found, emb_fragment) n
  | inr big ↦ rw big (length-replicate 32 false)
]

-- For a codec that keeps its laws, past position 0 the EMBED field has 48 bits, and its middle
-- 32 are the fragment of the call's LC with the position's number, or zeros past position 4.
pub build_embed-fragment :
    (c : Codec) (lc : Bytes) (pos : ℕ)
    → IsCodec c
    → 1 ≤ pos
    → let embed = build_embed c pos (some (c.encode_emblc lc)) in
      (length embed ≡ 48) × (slice 8 40 embed ≡ fragment_at c lc pos)
unfolding build_embed
build_embed-fragment c lc pos ok le =
    let later : nat_eqb pos 0 ≡ false = ground arith in
    let n = fragment_at-length c ok lc pos le in
    rw later (
      length_three 8 32 8 _ _ _ (first_byte c ok pos) n (last_byte c ok pos),
      middle_part 8 32 8 _ _ _ (first_byte c ok pos) n (last_byte c ok pos),
    )

pub length-build_embed :
    (c : Codec) (lc : Bytes) (pos : ℕ)
    → IsCodec c
    → length (build_embed c pos (some (c.encode_emblc lc))) ≡ 48
unfolding build_embed
length-build_embed c lc pos ok = elim (Bool-cases (nat_eqb pos 0)) [
  | inl sync ↦ rw sync ok.length-voice_sync
  | inr burst ↦ (build_embed-fragment c lc pos ok (ground arith)).0
]
