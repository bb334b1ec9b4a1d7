-- ===== src/Translate/Inbound/CallBytes.antt =====
-- The bytes of the packets of a call from HBP (translate/translator.py, `hbp_voice_received`,
-- `_make_hbp_ipsc_packet`), by their number in the call.
use ipsc2hbp.Base.{
  ℕ, zero, suc, ◌+◌, ◌*◌, ◌%◌, ◌≤◌, ◌≡◌, refl, sym, Bool, true, false, Option, none, some, List, [],
  ◌∷◌, ◌++◌, Dict, lookup, length, arith, max, leb, bit_and, nat_eqb, get_or, take, replicate,
  if◌then◌else◌, nat_eq, subst,
}
use ipsc2hbp.Dmr.{Bytes, Bits, be16, be32, to_bytes}
use ipsc2hbp.Dmr.Codec.{BurstName, burst_b, burst_c, burst_d}
use ipsc2hbp.Translate.State.{InCall, Shared, Env, Action, send_to_peer, or_else}
use ipsc2hbp.Translate.Frame.{extract_ambe_from_dmrd, emb_fragment, emb_word}
use ipsc2hbp.Translate.Packet.{build_gv, rtp_header, advance_rtp, build_ipsc_voice_payload}
use ipsc2hbp.Translate.Inbound.{Dmrd, voice_gv_payload}
use ipsc2hbp.Translate.Inbound.Start.{header_run, advance_all}
use ipsc2hbp.Translate.Inbound.VoiceRun.{voice_packets}

-- An RTP header with this payload type, sequence number and timestamp.
abbrev pub rtp_bytes : ℕ → ℕ → ℕ → Bytes
rtp_bytes rtp_pt seq ts =
    0x80 ∷ rtp_pt ∷ (be16 (seq % 65536) ++ (be32 (ts % 4294967296) ++ 0 ∷ 0 ∷ 0 ∷ 0 ∷ []))

pub some_lc : (lc d : Bytes) → 1 ≤ length lc → or_else (some lc) d ≡ lc
some_lc [] d h = absurd (omega arith)
some_lc (x ∷ xs) d h = refl

module _ (v : Env) (info burst : ℕ) (lc : Bytes) (emb_lc : Option (Dict ℕ Bits)) where
  -- The payload of a header.
  abbrev pub head_bytes : Bytes
  head_bytes =
      0x01
      ∷ 0x80
      ∷ 0x00
      ∷ 0x0a
      ∷ 0x80
      ∷ 0x0a
      ∷ 0x00
      ∷ 0x60
      ∷ (take 9 lc ++ (v.codec.lc_header_encode (take 9 lc) ++ 0x00 ∷ 0x11 ∷ 0x00 ∷ 0x00 ∷ []))

  -- A fragment of the embedded LC: 32 bits, null where the call has none.
  abbrev pub fragment : ℕ → Bits
  fragment n = elim emb_lc [
    | none ↦ replicate 32 false
    | some d ↦ elim (lookup n d) [ none ↦ replicate 32 false | some f ↦ f ]
  ]

  -- The first half of an EMB word, with the last bit cleared.
  abbrev pub emb_byte : BurstName → ℕ
  emb_byte b = bit_and (get_or (to_bytes (take 8 (v.codec.emb b))) 0 0) 0xfe

  -- A burst with a fragment of the embedded LC and its EMB byte.
  abbrev pub inner : Bytes → ℕ → BurstName → Bytes
  inner ambe n b = burst ∷ 0x19 ∷ 0x06 ∷ (ambe ++ (to_bytes (fragment n) ++ emb_byte b ∷ []))

  -- The payload of a voice burst: with voice sync, then by its place in the superframe.
  abbrev pub place_bytes : Dmrd → Bool → ℕ → Bytes
  place_bytes d true n = burst ∷ 0x14 ∷ 0x40 ∷ extract_ambe_from_dmrd v.codec d.payload_33
  place_bytes d false zero = inner (extract_ambe_from_dmrd v.codec d.payload_33) 1 burst_b
  place_bytes d false (suc zero) = inner (extract_ambe_from_dmrd v.codec d.payload_33) 1 burst_b
  place_bytes d false (suc (suc zero)) =
      inner (extract_ambe_from_dmrd v.codec d.payload_33) 2 burst_c
  place_bytes d false (suc (suc (suc zero))) =
      inner (extract_ambe_from_dmrd v.codec d.payload_33) 3 burst_d
  place_bytes d false (suc (suc (suc (suc zero)))) =
      burst
      ∷ 0x22
      ∷ 0x16
      ∷ (extract_ambe_from_dmrd v.codec d.payload_33
          ++ (to_bytes (fragment 4) ++ (take 3 lc ++ (d.dst_group ++ (d.src_sub ++ 0x14 ∷ [])))))
  place_bytes d false (suc (suc (suc (suc (suc n))))) =
      burst
      ∷ 0x19
      ∷ 0x06
      ∷ (extract_ambe_from_dmrd v.codec d.payload_33 ++ 0x00 ∷ 0x00 ∷ 0x00 ∷ 0x00 ∷ 0x10 ∷ [])

  abbrev pub burst_bytes : Dmrd → Bytes
  burst_bytes d = place_bytes d (nat_eqb (bit_and d.flags 0x30) 0x10) (bit_and d.flags 0x0f)

  -- The packets with these counters at the first of them, from the packet numbered k on.
  module _ (sh : Shared) (stream seq ts : ℕ) where
    -- The packet numbered k.
    abbrev pub numbered : Dmrd → ℕ → ℕ → Bytes → Action
    numbered d rtp_pt k p = send_to_peer (
        build_gv v.cfg sh d.src_sub d.dst_group info (rtp_bytes rtp_pt (seq + k) (ts + 480 * k)) p
          stream)

    abbrev pub head_pt : ℕ → ℕ
    head_pt k = if nat_eqb k 0 then 0xdd else 0x5d

    abbrev pub sent_heads : Dmrd → ℕ → ℕ → List Action
    sent_heads d zero k = []
    sent_heads d (suc n) k = numbered d (head_pt k) k head_bytes ∷ sent_heads d n (k + 1)

    abbrev pub sent_voices : List Dmrd → ℕ → List Action
    sent_voices [] k = []
    sent_voices (d ∷ ds) k = numbered d 0x5d k (burst_bytes d) ∷ sent_voices ds (k + 1)

    -- The call behind k packets.
    pub record Counts (k : ℕ) (i : InCall) : Type 0 where
      pub seq_at : i.rtp_seq % 65536 ≡ (seq + k) % 65536
      pub ts_at : i.rtp_ts % 4294967296 ≡ (ts + 480 * k) % 4294967296
      pub stream_at : i.stream_id ≡ stream
      pub lc_at : i.lc ≡ some lc
      pub emb_at : i.emb_lc ≡ emb_lc

    advance-Counts : (k : ℕ) (i : InCall) → Counts k i → Counts (k + 1) (advance_rtp i)
    unfolding advance_rtp
    advance-Counts k i h = record {
      seq_at = omega (arith, h.seq_at);
      ts_at = omega (arith, h.ts_at);
      stream_at = h.stream_at;
      lc_at = h.lc_at;
      emb_at = h.emb_at;
    }

    header-Counts :
        (rtp_pt k : ℕ) (i : InCall)
        → Counts k i
        → rtp_header rtp_pt i ≡ rtp_bytes rtp_pt (seq + k) (ts + 480 * k)
    unfolding rtp_header
    header-Counts rtp_pt k i h = rw (h.seq_at, h.ts_at) refl

    -- The payload as the code puts it together, for a place in the superframe.
    abbrev by_place : Dmrd → Bool → ℕ → Bytes
    by_place d sync n =
        let ambe_19 = extract_ambe_from_dmrd v.codec d.payload_33 in
        let emb_hdr = bit_and (get_or (to_bytes (take 8 (emb_word v.codec (max n 1)))) 0 0) 0xfe in
        if sync
        then burst ∷ 0x14 ∷ 0x40 ∷ ambe_19
        else if nat_eqb n 4
        then burst
          ∷ 0x22
          ∷ 0x16
          ∷ (ambe_19
              ++ (to_bytes (emb_fragment v.codec 4 emb_lc)
                  ++ (take 3 (or_else (some lc) (0x00 ∷ 0x00 ∷ 0x00 ∷ []))
                      ++ (d.dst_group ++ (d.src_sub ++ 0x14 ∷ [])))))
        else if leb 5 n
        then burst ∷ 0x19 ∷ 0x06 ∷ (ambe_19 ++ 0x00 ∷ 0x00 ∷ 0x00 ∷ 0x00 ∷ 0x10 ∷ [])
        else burst
          ∷ 0x19
          ∷ 0x06
          ∷ (ambe_19 ++ (to_bytes (emb_fragment v.codec (max n 1) emb_lc) ++ emb_hdr ∷ []))

    fragment_lem :
        (n : ℕ) (e : Option (Dict ℕ Bits)) → e ≡ emb_lc → emb_fragment v.codec n e ≡ fragment n
    unfolding emb_fragment
    fragment_lem n none h = rw (sym h) refl
    fragment_lem n (some d) h = rw (sym h) refl

    by_place_lem :
        (d : Dmrd) (sync : Bool) (n : ℕ) → 1 ≤ length lc → by_place d sync n ≡ place_bytes d sync n
    unfolding emb_word
    by_place_lem d true n h = refl
    by_place_lem d false zero h = rw (fragment_lem 1 emb_lc refl) refl
    by_place_lem d false (suc zero) h = rw (fragment_lem 1 emb_lc refl) refl
    by_place_lem d false (suc (suc zero)) h = rw (fragment_lem 2 emb_lc refl) refl
    by_place_lem d false (suc (suc (suc zero))) h = rw (fragment_lem 3 emb_lc refl) refl
    by_place_lem d false (suc (suc (suc (suc zero)))) h =
        rw (fragment_lem 4 emb_lc refl, some_lc lc (0x00 ∷ 0x00 ∷ 0x00 ∷ []) h) refl
    by_place_lem d false (suc (suc (suc (suc (suc n))))) h = ground arith

    payload-Counts :
        (d : Dmrd) (k : ℕ) (i : InCall)
        → Counts k i
        → 1 ≤ length lc
        → voice_gv_payload v d burst i ≡ burst_bytes d
    unfolding voice_gv_payload
    payload-Counts d k i h full =
        rw (h.lc_at, h.emb_at)
          (by_place_lem d (nat_eqb (bit_and d.flags 0x30) 0x10) (bit_and d.flags 0x0f) full)

    pub heads-Counts :
        (d : Dmrd) (n k : ℕ) (i : InCall)
        → Counts k i
        → header_run v d info sh lc n k i ≡ sent_heads d n k
    unfolding header_run build_ipsc_voice_payload
    heads-Counts d zero k i h = refl
    heads-Counts d (suc n) k i h =
        rw
          (
            heads-Counts d n (k + 1) (advance_rtp i) (advance-Counts k i h),
            header-Counts (if nat_eqb k 0 then 0xdd else 0x5d) k i h,
            h.stream_at,
          )
          refl

    pub voices-Counts :
        (ds : List Dmrd) (k : ℕ) (i : InCall)
        → Counts k i
        → 1 ≤ length lc
        → voice_packets v info burst sh ds i ≡ sent_voices ds k
    unfolding voice_packets
    voices-Counts [] k i h full = refl
    voices-Counts (d ∷ ds) k i h full =
        rw
          (
            voices-Counts ds (k + 1) (advance_rtp i) (advance-Counts k i h) full,
            payload-Counts d k i h full,
            header-Counts 0x5d k i h,
            h.stream_at,
          )
          refl

    advanced-Counts :
        (d : Dmrd) (n k : ℕ) (i : InCall) → Counts k i → Counts (k + n) (advance_all v d info n i)
    unfolding advance_all
    advanced-Counts d zero k i h = subst (λ m. Counts m i) (omega arith) h
    advanced-Counts d (suc n) k i h =
        subst (λ m. Counts m (advance_all v d info n (advance_rtp i))) (omega arith)
          (advanced-Counts d n (k + 1) (advance_rtp i) (advance-Counts k i h))

    pub started-Counts :
        (d : Dmrd) (n : ℕ) (i : InCall)
        → Counts 0 i
        → Counts n (record (advance_all v d info n i) { started = true })
    started-Counts d n i first =
        let h =
          subst (λ m. Counts m (advance_all v d info n i)) (omega arith)
            (advanced-Counts d n 0 i first) in
        record {
          seq_at = h.seq_at;
          ts_at = h.ts_at;
          stream_at = h.stream_at;
          lc_at = h.lc_at;
          emb_at = h.emb_at;
        }
