-- ===== src/Translate/Packet.antt =====
-- translate/translator.py: the packets that the translator assembles (`_build_ipsc_voice_payload`,
-- `_build_gv`, `_make_hbp_ipsc_packet` and the DMRD packet of `ipsc_voice_received`).
pub mod Fields
use ipsc2hbp.Base.{ℕ, ◌+◌, ◌%◌, ◌^◌, List, [], ◌∷◌, ◌++◌, take, nat_eqb, if◌then◌else◌}
use ipsc2hbp.Dmr.{Bytes, be16, be32}
use ipsc2hbp.Dmr.Codec.{Codec}
use ipsc2hbp.Config.{Config}
use ipsc2hbp.Ipsc.Const.{group_voice, voice_head}
use ipsc2hbp.Hbp.Const.{hbpf_dmrd}
use ipsc2hbp.Translate.State.{Env, Shared, InCall, Slot, Line}

-- `_build_ipsc_voice_payload`
unfoldable pub build_ipsc_voice_payload : Codec → Bytes → ℕ → Bytes
build_ipsc_voice_payload c lc burst_type =
    let is_head = nat_eqb burst_type voice_head in
    let fec =
      if is_head then c.lc_header_encode (take 9 lc) else c.lc_terminator_encode (take 9 lc) in
    let type_tag : ℕ = if is_head then 0x11 else 0x12 in
    (0x80 ∷ be16 10)
    ++ (0x80 ∷ 0x0a ∷ be16 0x60)
    ++ (take 9 lc ++ (fec ++ 0x00 ∷ type_tag ∷ 0x00 ∷ 0x00 ∷ []))

-- `_build_gv`
unfoldable pub build_gv : Config → Shared → Bytes → Bytes → ℕ → Bytes → Bytes → ℕ → Bytes
build_gv cfg sh src_sub dst_group call_info rtp_hdr gv_payload stream_id =
    group_voice
    ∷ (be32 cfg.ipsc_source_id
        ++ stream_id
          ∷ (src_sub
              ++ (dst_group
                  ++ (sh.peer_call_type
                      ++ (sh.peer_call_ctrl ++ call_info ∷ (rtp_hdr ++ gv_payload))))))

-- The RTP header of `_make_hbp_ipsc_packet`.
unfoldable pub rtp_header : ℕ → InCall → Bytes
rtp_header rtp_pt i =
    0x80
    ∷ rtp_pt
    ∷ (be16 (i.rtp_seq % 2 ^ 16) ++ (be32 (i.rtp_ts % 2 ^ 32) ++ 0x00 ∷ 0x00 ∷ 0x00 ∷ 0x00 ∷ []))

-- The counters after a packet.
unfoldable pub advance_rtp : InCall → InCall
advance_rtp i = record i { rtp_seq = (i.rtp_seq + 1) % 2 ^ 16; rtp_ts = (i.rtp_ts + 480) % 2 ^ 32 }

-- `_make_hbp_ipsc_packet`
unfoldable pub make_hbp_ipsc_packet : Env → Bytes → Bytes → ℕ → ℕ → Bytes → Line → Line × Bytes
unfolding rtp_header advance_rtp
make_hbp_ipsc_packet v src_sub dst_group call_info rtp_pt gv_payload l =
    let i = l.slot.inc in
    (
      record l { slot = record l.slot { inc = advance_rtp i } },
      build_gv v.cfg l.shared src_sub dst_group call_info (rtp_header rtp_pt i) gv_payload
          i.stream_id,
    )

-- A DMRD packet; the BER and RSSI bytes are zero.
unfoldable pub build_dmrd : Config → ℕ → Bytes → Bytes → ℕ → Bytes → Bytes → Bytes
build_dmrd cfg seq src_sub dst_group flags stream_id payload_33 =
    hbpf_dmrd
    ++ seq
      ∷ (src_sub
          ++ (dst_group
              ++ (be32 cfg.hbp_repeater_id
                  ++ flags ∷ (stream_id ++ (payload_33 ++ 0x00 ∷ 0x00 ∷ [])))))
