-- ===== src/Translate/Packet/Fields.antt =====
-- The packets of translate/translator.py, read at the offsets that their receivers use
-- (hbp/const.py, ipsc/const.py).
use ipsc2hbp.Base.{
  ℕ, ◌+◌, ◌≡◌, refl, some, [], ◌∷◌, ◌++◌, arith, length, slice, get_elem?, take_all, nat_eqb,
  Bool-cases, inl, inr, take-append, length-append,
}
use ipsc2hbp.Dmr.{Bytes}
use ipsc2hbp.Dmr.Codec.{Codec, IsCodec}
use ipsc2hbp.Config.{Config}
use ipsc2hbp.Ipsc.Const.{group_voice, voice_head}
use ipsc2hbp.Ipsc.Wire.{parse_group_voice_meta, slot_of}
use ipsc2hbp.Hbp.Const.{dmrd_len}
use ipsc2hbp.Translate.State.{Shared, InCall}
use ipsc2hbp.Translate.Packet.{build_dmrd, build_gv, rtp_header, build_ipsc_voice_payload}
use ipsc2hbp.Translate.Inbound.{parse_dmrd}

-- Byte strings of three and four bytes, taken apart.
pub three_bytes : (b : Bytes) → length b ≡ 3 → (x : ℕ) × (y : ℕ) × (z : ℕ) × (b ≡ x ∷ y ∷ z ∷ [])
three_bytes (x ∷ y ∷ z ∷ []) h = (x, y, z, refl)
three_bytes b h = absurd (omega arith)

pub four_bytes :
    (b : Bytes) → length b ≡ 4 → (w : ℕ) × (x : ℕ) × (y : ℕ) × (z : ℕ) × (b ≡ w ∷ x ∷ y ∷ z ∷ [])
four_bytes (w ∷ x ∷ y ∷ z ∷ []) h = (w, x, y, z, refl)
four_bytes b h = absurd (omega arith)

pub one_byte : (b : Bytes) → length b ≡ 1 → (x : ℕ) × (b ≡ x ∷ [])
one_byte (x ∷ []) h = (x, refl)
one_byte b h = absurd (omega arith)

-- A DMRD packet built from fields of their proper lengths has 55 bytes, and the receiver finds
-- in it the source, the destination, the flags, the stream and the payload that went in.
pub parse_dmrd-build_dmrd :
    (cfg : Config) (seq : ℕ) (src dst : Bytes) (flags : ℕ) (sid payload : Bytes)
    → length src ≡ 3
    → length dst ≡ 3
    → length sid ≡ 4
    → length payload ≡ 33
    → let packet = build_dmrd cfg seq src dst flags sid payload in
      (length packet ≡ dmrd_len)
      × (parse_dmrd packet ≡ record {
        src_sub = src;
        dst_group = dst;
        flags = flags;
        stream = sid;
        payload_33 = payload;
      })
unfolding build_dmrd parse_dmrd
parse_dmrd-build_dmrd cfg seq src dst flags sid payload hs hd hi hp =
    let (s1, s2, s3, es) = three_bytes src hs in
    let (d1, d2, d3, ed) = three_bytes dst hd in
    let (i1, i2, i3, i4, ei) = four_bytes sid hi in
    rw (es, ed, ei)
      (
        omega (arith, length-append payload (0x00 ∷ 0x00 ∷ [])),
        λ i. record {
          src_sub = s1 ∷ s2 ∷ s3 ∷ [];
          dst_group = d1 ∷ d2 ∷ d3 ∷ [];
          flags = flags;
          stream = i1 ∷ i2 ∷ i3 ∷ i4 ∷ [];
          payload_33 = take-append 33 payload (0x00 ∷ 0x00 ∷ []) hp i;
        },
      )

-- A GROUP_VOICE packet built from fields of their proper lengths is 31 bytes longer than what
-- follows its burst type, and holds the opcode, the stream byte, the source, the destination,
-- the timeslot and the burst type at the offsets where the IPSC side reads them.
pub parse_group_voice_meta-build_gv :
    (cfg : Config) (sh : Shared) (src dst : Bytes) (info rtp_pt : ℕ) (i : InCall) (burst : ℕ)
    (rest : Bytes) (stream_id : ℕ)
    → length src ≡ 3
    → length dst ≡ 3
    → length sh.peer_call_type ≡ 1
    → length sh.peer_call_ctrl ≡ 4
    → let packet = build_gv cfg sh src dst info (rtp_header rtp_pt i) (burst ∷ rest) stream_id in
      (length packet ≡ 31 + length rest)
      × (get_elem? packet 0 ≡ some group_voice)
      × (get_elem? packet 5 ≡ some stream_id)
      × (slice 6 9 packet ≡ src)
      × (slice 9 12 packet ≡ dst)
      × (parse_group_voice_meta packet ≡ some (slot_of info, burst))
unfolding build_gv rtp_header parse_group_voice_meta
parse_group_voice_meta-build_gv cfg sh src dst info rtp_pt i burst rest stream_id hs hd ht hc =
    let (s1, s2, s3, es) = three_bytes src hs in
    let (d1, d2, d3, ed) = three_bytes dst hd in
    let (t1, et) = one_byte sh.peer_call_type ht in
    let (c1, c2, c3, c4, ec) = four_bytes sh.peer_call_ctrl hc in
    rw (es, ed, et, ec) (omega arith, refl, refl, refl, refl, refl)

link_control_length :
    (lc fec : Bytes) (tag : ℕ)
    → length lc ≡ 9
    → length fec ≡ 3
    → length (lc ++ (fec ++ 0x00 ∷ tag ∷ 0x00 ∷ 0x00 ∷ [])) ≡ 16
link_control_length lc fec tag h k = omega (
  arith,
  length-append lc (fec ++ 0x00 ∷ tag ∷ 0x00 ∷ 0x00 ∷ []),
  length-append fec (0x00 ∷ tag ∷ 0x00 ∷ 0x00 ∷ []),
)

-- For a codec that keeps its laws and an LC of nine bytes, the link-control payload of a header
-- or terminator has 23 bytes.
pub length-build_ipsc_voice_payload :
    (c : Codec) (lc : Bytes) (burst_type : ℕ)
    → IsCodec c
    → length lc ≡ 9
    → length (build_ipsc_voice_payload c lc burst_type) ≡ 23
unfolding build_ipsc_voice_payload
length-build_ipsc_voice_payload c lc burst_type ok h =
    let head = link_control_length lc (c.lc_header_encode lc) 0x11 h (ok.length-header_fec lc h) in
    let term =
      link_control_length lc (c.lc_terminator_encode lc) 0x12 h (ok.length-terminator_fec lc h) in
    elim (Bool-cases (nat_eqb burst_type voice_head)) [
      | inl e ↦ rw (take_all 9 lc (omega arith), e) (omega (arith, head))
      | inr e ↦ rw (take_all 9 lc (omega arith), e) (omega (arith, term))
    ]
