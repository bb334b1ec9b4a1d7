-- ===== src/Tests/Decoders.antt =====
-- The decoders of wire logs, on packets of the translator.
use ipsc2hbp.Base.{
  ◌≡◌, refl, inl, inr, none, some, List, [], ◌∷◌, ◌++◌, arith, replicate, map, lookup, bit_or,
  list_eqb,
}
use ipsc2hbp.Dmr.{Bytes, IsBytes}
use ipsc2hbp.Config.Text.{Text, codes, from_hex, hex_digit, is_ascii_space, upper, upper_of}
use ipsc2hbp.Ipsc.Const.{voice_head, voice_term, slot2_voice}
use ipsc2hbp.Translate.State.{ts1, ts2, Env, init}
use ipsc2hbp.Translate.Callbacks.{line}
use ipsc2hbp.Translate.Frame.{lc_payload}
use ipsc2hbp.Translate.Outbound.{slot_flags, voice_flags}
use ipsc2hbp.Translate.Packet.{build_dmrd}
use ipsc2hbp.Tools.{stream_eq, read_log, read_line, decode_entry}
use ipsc2hbp.Tools.DecodeIpsc as DecodeIpsc
use ipsc2hbp.Tools.DecodeIpsc.Continuity.{Part, make_all, decode_all, gaps, slots, decode_made}
use ipsc2hbp.Tools.DecodeHbp as DecodeHbp
use ipsc2hbp.Tools.DecodeHbp.Headers.{head_flags, head_lines, decode_packet-build_dmrd}
use ipsc2hbp.Tests.{test_config, padding_codec, padding_codec-IsCodec}

abbrev env : Env
env = record {
  codec = padding_codec;
  cfg = test_config;
  now = 1000;
  urandom = 1 ∷ 2 ∷ 3 ∷ 4 ∷ [];
  rand_seq = 5;
  rand_ts = 6;
}

abbrev src : Bytes
src = 0 ∷ 0 ∷ 1 ∷ []

abbrev dst : Bytes
dst = 0 ∷ 0 ∷ 2 ∷ []

abbrev recv : Text
recv = codes "RECV"

-- A call on the second timeslot: a header, two voice packets and a terminator.
abbrev call : List Part
call =
    record { rtp_pt = 0xdd; burst = voice_head; rest = replicate 23 0 }
    ∷ record { rtp_pt = 0x5d; burst = slot2_voice; rest = replicate 21 1 }
    ∷ record { rtp_pt = 0x5d; burst = slot2_voice; rest = replicate 21 0 }
    ∷ record { rtp_pt = 0x5e; burst = voice_term; rest = replicate 23 0 }
    ∷ []

decode_made_example :
    (gaps (decode_all (make_all env ts2 src dst call (line ts2 init)) 1 recv DecodeIpsc.no_stats)
      ≡ [])
    × (slots (decode_all (make_all env ts2 src dst call (line ts2 init)) 1 recv DecodeIpsc.no_stats)
        ≡ map (λ p. ts2) call)
unfolding lookup
decode_made_example =
    decode_made env ts2 src dst call (line ts2 init) 1 recv DecodeIpsc.no_stats
      (record {
        src_length = refl;
        dst_length = refl;
        type_length = refl;
        ctrl_length = refl;
        seq_bound = omega arith;
      })
      (inl refl, (inr (inr refl), (inr (inr refl), (inr (inl refl), tt)))) (inl refl)

lc-IsBytes : IsBytes (padding_codec.lc_opt ++ (dst ++ src))
lc-IsBytes = (
  omega arith,
  (
    omega arith,
    (
      omega arith,
      (omega arith, (omega arith, (omega arith, (omega arith, (omega arith, (omega arith, tt)))))),
    ),
  ),
)

decode_packet-build_dmrd_example :
    (DecodeHbp.decode_packet
      (some padding_codec)
      (build_dmrd test_config 9 src dst (head_flags ts1) (1 ∷ 2 ∷ 3 ∷ 4 ∷ []) (
        lc_payload padding_codec
          (padding_codec.encode_header_lc (padding_codec.lc_opt ++ (dst ++ src)))
          padding_codec.slot_type_head))
      1
      recv
      DecodeHbp.no_stats).1
    ≡ head_lines test_config 1 recv ts1 9 src dst
        (1 ∷ 2 ∷ 3 ∷ 4 ∷ [])
        (DecodeIpsc.read_lc (padding_codec.lc_opt ++ (dst ++ src)))
unfolding lookup
decode_packet-build_dmrd_example =
    decode_packet-build_dmrd padding_codec test_config ts1 9 src dst (1 ∷ 2 ∷ 3 ∷ 4 ∷ []) 1 recv
      DecodeHbp.no_stats padding_codec-IsCodec lc-IsBytes refl refl refl (omega arith) refl

-- The second burst of a superframe, Burst B, is shown as the third.
burst_b_shown :
    DecodeHbp.frame_type_name (bit_or (slot_flags ts1) (voice_flags 1))
    ≡ codes "TS1 G VOICE Burst C"
unfolding DecodeHbp.frame_type_name DecodeHbp.burst_name voice_flags lookup
burst_b_shown = refl

-- The configuration packet is shown as the logout.
rptc_shown : DecodeHbp.label_of (codes "RPTC" ++ (0 ∷ 0 ∷ 0 ∷ 7 ∷ [])) ≡ codes "RPTCL"
unfolding DecodeHbp.label_of lookup list_eqb
rptc_shown = refl

-- A line without an entry, an entry of the other direction, and one that is shown.
log_read :
    (DecodeIpsc.decode_log (some recv) (
      none
      ∷ some (record { direction = codes "send"; length = 1; hex_data = codes "96" })
      ∷ some (record { direction = codes "recv"; length = 2; hex_data = codes "96" })
      ∷ [])).lines
    ≡ DecodeIpsc.length_differs 2 2 1
      ∷ DecodeIpsc.other_opcode 1 recv (codes "MASTER_ALIVE_REQ") 1
      ∷ []
unfolding DecodeIpsc.decode_log read_log read_line decode_entry DecodeIpsc.decode_packet
    DecodeIpsc.name_of from_hex hex_digit is_ascii_space upper upper_of lookup list_eqb
log_read = refl
