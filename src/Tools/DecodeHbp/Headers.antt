-- ===== src/Tools/DecodeHbp/Headers.antt =====
-- tools/decode_hbp.py on the headers that the translator sends to HBP.
use ipsc2hbp.Base.{
  ℕ, zero, suc, ◌+◌, ◌≤◌, ◌<◌, ◌≡◌, refl, ap, ◌∙◌, arith, true, false, Option, none, some, List, [],
  ◌∷◌, ◌++◌, leb, length, slice, take, get_or, lookup, list_eqb_iff, bit_or, length-append,
  take-append,
}
use ipsc2hbp.Dmr.{Bytes, IsBytes, from_be, from_be-be32}
use ipsc2hbp.Dmr.Codec.{Codec, IsCodec}
use ipsc2hbp.Config.{Config}
use ipsc2hbp.Config.Text.{Text, codes}
use ipsc2hbp.Hbp.Const.{hbpf_dmrd, hbpf_frametype_datasync, hbpf_slt_vhead}
use ipsc2hbp.Translate.State.{Timeslot, ts1, ts2}
use ipsc2hbp.Translate.Frame.{lc_payload}
use ipsc2hbp.Translate.Frame.FullLc.{length-lc_payload, decode_hbp_voice_lc-lc_payload}
use ipsc2hbp.Translate.Outbound.{slot_flags}
use ipsc2hbp.Translate.Packet.{build_dmrd}
use ipsc2hbp.Translate.Packet.Fields.{three_bytes, four_bytes}
use ipsc2hbp.Tools.{hex, StreamKey, stream_eq}
use ipsc2hbp.Tools.DecodeIpsc.{Lc, read_lc, name_of, flco_names}
use ipsc2hbp.Tools.DecodeHbp.{
  Stats, Line, frame_line, dmrd_line, lc_line, lc_read, decode_lc, decode_dmrd, decode_packet,
  frame_type_name, digit_of, seq_note,
}

long_dmrd :
    (codec : Option Codec) (d : Bytes) (frame : ℕ) (direction : Text) (st : Stats)
    → 16 ≤ length d
    → take 4 d ≡ hbpf_dmrd
    → decode_packet codec d frame direction st ≡ decode_dmrd codec d frame direction st
unfolding decode_packet
long_dmrd codec d frame direction st h e =
    let same = (list_eqb_iff (take 4 d) hbpf_dmrd).1 e in ground arith

-- The LC of a header, as the decoder finds it.
pub decode_lc-lc_payload :
    (c : Codec) (lc : Bytes)
    → IsCodec c
    → length lc ≡ 9
    → IsBytes lc
    → decode_lc (some c) (lc_payload c (c.encode_header_lc lc) c.slot_type_head)
      ≡ lc_read (read_lc lc)
unfolding decode_lc
decode_lc-lc_payload c lc ok h b =
    let long =
      length-lc_payload c ok (c.encode_header_lc lc) c.slot_type_head (ok.length-header lc h)
        ok.length-slot_type_head in
    rw (decode_hbp_voice_lc-lc_payload c lc ok h b, long, h) refl

abbrev pub head_flags : Timeslot → ℕ
head_flags ts = bit_or (slot_flags ts) (bit_or hbpf_frametype_datasync hbpf_slt_vhead)

-- A header as it is read.
pub record ReadsHead (cfg : Config) (d : Bytes) (ts : Timeslot) (seq : ℕ)
    (src dst sid payload : Bytes) : Type 0 where
  pub named : take 4 d ≡ hbpf_dmrd
  pub full : leb 53 (length d) ≡ true
  pub seq_at : get_or d 4 0 ≡ seq
  pub flags_at : get_or d 15 0 ≡ head_flags ts
  pub src_at : slice 5 8 d ≡ src
  pub dst_at : slice 8 11 d ≡ dst
  pub repeater_at : from_be 0 (slice 11 15 d) ≡ cfg.hbp_repeater_id
  pub sid_at : slice 16 20 d ≡ sid
  pub payload_at : slice 20 53 d ≡ payload
  pub ber_at : get_or d 53 0 ≡ 0
  pub rssi_at : get_or d 54 0 ≡ 0

abbrev pub head_lines : Config → ℕ → Text → Timeslot → ℕ → Bytes → Bytes → Bytes → Lc → List Line
head_lines cfg frame direction ts seq src dst sid lc =
    frame_line frame direction (codes "TS" ++ (digit_of ts ++ codes " G VOICE_LC_HEAD")) false
    ∷ dmrd_line seq none (from_be 0 src) (from_be 0 dst) cfg.hbp_repeater_id (hex sid) 0 0
    ∷ lc_line (name_of flco_names lc.flco) lc
    ∷ []

no_note : (prev : Option ℕ) (seq : ℕ) (ts : Timeslot) → seq_note prev seq (head_flags ts) ≡ none
no_note none seq ts = refl
no_note (some n) seq ts1 = refl
no_note (some n) seq ts2 = refl

module _ (codec : Option Codec) (cfg : Config) (d : Bytes) where
  shown :
      (ts : Timeslot) (seq : ℕ) (src dst sid payload : Bytes) (lc : Lc) (frame : ℕ)
      (direction : Text) (st : Stats)
      → ReadsHead cfg d ts seq src dst sid payload
      → decode_lc codec payload ≡ lc_read lc
      → lookup (record { direction = direction; stream_id = []; ts = ts }) st.streams ≡ none
      → (decode_dmrd codec d frame direction st).1
        ≡ head_lines cfg frame direction ts seq src dst sid lc
  unfolding decode_dmrd frame_type_name
  shown ts1 seq src dst sid payload lc frame direction st q el fresh =
      let key : StreamKey = record { direction = direction; stream_id = hex sid; ts = ts1 } in
      rw
        (
          q.full,
          q.seq_at,
          q.flags_at,
          q.src_at,
          q.dst_at,
          q.repeater_at,
          q.sid_at,
          q.payload_at,
          q.ber_at,
          q.rssi_at,
          el,
          fresh,
          no_note (lookup key st.seqs) seq ts1,
        )
        refl
  shown ts2 seq src dst sid payload lc frame direction st q el fresh =
      let key : StreamKey = record { direction = direction; stream_id = hex sid; ts = ts2 } in
      rw
        (
          q.full,
          q.seq_at,
          q.flags_at,
          q.src_at,
          q.dst_at,
          q.repeater_at,
          q.sid_at,
          q.payload_at,
          q.ber_at,
          q.rssi_at,
          el,
          fresh,
          no_note (lookup key st.seqs) seq ts2,
        )
        refl

get_or_past :
    (xs ys : Bytes) (n i : ℕ) → length xs ≡ n → get_or (xs ++ ys) (n + i) 0 ≡ get_or ys i 0
get_or_past [] ys zero i h = ap (λ k. get_or ys k 0) (omega arith)
get_or_past [] ys (suc n) i h = absurd (omega arith)
get_or_past (x ∷ xs) ys zero i h = absurd (omega arith)
get_or_past (x ∷ xs) ys (suc n) i h =
    let e : suc n + i ≡ suc (n + i) = omega arith in
    ap (λ k. get_or (x ∷ (xs ++ ys)) k 0) e ∙ get_or_past xs ys n i (omega arith)

built-ReadsHead :
    (cfg : Config) (ts : Timeslot) (seq : ℕ) (src dst sid payload : Bytes)
    → length src ≡ 3
    → length dst ≡ 3
    → length sid ≡ 4
    → length payload ≡ 33
    → cfg.hbp_repeater_id < 4294967296
    → ReadsHead cfg
        (build_dmrd cfg seq src dst (head_flags ts) sid payload)
        ts
        seq
        src
        dst
        sid
        payload
unfolding build_dmrd
built-ReadsHead cfg ts seq src dst sid payload hs hd hi hp hr =
    let (s1, s2, s3, es) = three_bytes src hs in
    let (d1, d2, d3, ed) = three_bytes dst hd in
    let (i1, i2, i3, i4, ei) = four_bytes sid hi in
    let size = length-append payload (0x00 ∷ 0x00 ∷ []) in
    rw (es, ed, ei)
      (record {
        named = refl;
        full = ground arith;
        seq_at = refl;
        flags_at = refl;
        src_at = refl;
        dst_at = refl;
        repeater_at = from_be-be32 cfg.hbp_repeater_id hr;
        sid_at = refl;
        payload_at = take-append 33 payload (0x00 ∷ 0x00 ∷ []) hp;
        ber_at = get_or_past payload (0x00 ∷ 0x00 ∷ []) 33 0 hp;
        rssi_at = get_or_past payload (0x00 ∷ 0x00 ∷ []) 33 1 hp;
      })

-- For a codec that keeps its laws, fields of their proper lengths and a repeater id below 2 to
-- the 32: the decoder of HBP logs shows the header packet of the translator, in a direction and
-- timeslot where it has seen no stream, as a header on its timeslot, with the sequence, the
-- source, the destination, the repeater id, the stream and the LC that went in.
pub decode_packet-build_dmrd :
    (c : Codec) (cfg : Config) (ts : Timeslot) (seq : ℕ) (src dst sid : Bytes) (frame : ℕ)
    (direction : Text) (st : Stats)
    → IsCodec c
    → IsBytes (c.lc_opt ++ (dst ++ src))
    → length src ≡ 3
    → length dst ≡ 3
    → length sid ≡ 4
    → cfg.hbp_repeater_id < 4294967296
    → lookup (record { direction = direction; stream_id = []; ts = ts }) st.streams ≡ none
    → let lc = c.lc_opt ++ (dst ++ src) in
      let payload = lc_payload c (c.encode_header_lc lc) c.slot_type_head in
      (decode_packet
        (some c)
        (build_dmrd cfg seq src dst (head_flags ts) sid payload)
        frame
        direction
        st).1
      ≡ head_lines cfg frame direction ts seq src dst sid (read_lc lc)
decode_packet-build_dmrd c cfg ts seq src dst sid frame direction st ok b hs hd hi hr fresh =
    let lc = c.lc_opt ++ (dst ++ src) in
    let size : length lc ≡ 9 =
      omega (arith, length-append c.lc_opt (dst ++ src), length-append dst src, ok.length-lc_opt) in
    let payload = lc_payload c (c.encode_header_lc lc) c.slot_type_head in
    let long =
      length-lc_payload c ok (c.encode_header_lc lc) c.slot_type_head (ok.length-header lc size)
        ok.length-slot_type_head in
    let d = build_dmrd cfg seq src dst (head_flags ts) sid payload in
    let q = built-ReadsHead cfg ts seq src dst sid payload hs hd hi long hr in
    ap (λ r. r.1) (long_dmrd (some c) d frame direction st (ground (arith, q.full)) q.named)
    ∙ shown (some c) cfg d ts seq src dst sid payload (read_lc lc) frame direction st q
        (decode_lc-lc_payload c lc ok size b) fresh
