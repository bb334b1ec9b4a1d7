-- ===== src/Translate/Valid/Frame.antt =====
-- What a packet from HBP leaves alone (translate/translator.py, `hbp_voice_received`): the
-- outbound call of the slot and the DMRD sequence byte.
use ipsc2hbp.Base.{
  ℕ, suc, zero, ◌+◌, ◌≡◌, ap, ◌∙◌, nat_eqb, ◌&&◌, arith, is_some, ◌∷◌, bit_or, if◌then◌else◌,
}
use ipsc2hbp.Dmr.{Bytes}
use ipsc2hbp.Ipsc.Const.{voice_head, voice_term, end_msk}
use ipsc2hbp.Translate.State.{Shared, Line, Env, Timeslot, or_else, map_slot, switches}
use ipsc2hbp.Translate.Lock.{call_lock_blocks, hbp_stream}
use ipsc2hbp.Translate.Packet.{make_hbp_ipsc_packet, build_ipsc_voice_payload}
use ipsc2hbp.Translate.Frame.{decode_hbp_voice_lc}
use ipsc2hbp.Translate.Inbound.{
  Dmrd, reset_hbp_to_ipsc_state, send_gv, emit_heads, emit_hbp_ipsc_start, begin_call, hbp_head,
  hbp_term, hbp_voice_burst, hbp_voice, hbp_packet, header_count, dmrd_lc, call_info, slot_burst,
  is_term,
}
use ipsc2hbp.Translate.Valid.Inc.{send_hbp_to_ipsc-SameCalls}

pub record SameOut (l m : Line) : Type 0 where
  pub out : m.slot.out ≡ l.slot.out
  pub out_seq : m.shared.out_seq ≡ l.shared.out_seq
  pub switched : switches m.sent ≡ switches l.sent

module _ (v : Env) (d : Dmrd) where
  send_gv-SameOut :
      (info rtp_pt burst_type : ℕ) (p : Bytes) (l : Line)
      → SameOut l (send_gv v d info rtp_pt burst_type p l)
  unfolding send_gv make_hbp_ipsc_packet
  send_gv-SameOut info rtp_pt burst_type p l =
      let (l', packet) = make_hbp_ipsc_packet v d.src_sub d.dst_group info rtp_pt p l in
      let same =
        send_hbp_to_ipsc-SameCalls v.cfg v.now
          (record {
            packet = packet;
            src_sub = d.src_sub;
            dst_group = d.dst_group;
            burst_type = burst_type;
          })
          l' in
      record { out = same.out; out_seq = ap Shared.out_seq same.shared; switched = same.switched }

  emit_heads-SameOut :
      (info : ℕ) (lc : Bytes) (n idx : ℕ) (l : Line) → SameOut l (emit_heads v d info lc n idx l)
  unfolding emit_heads
  emit_heads-SameOut info lc zero idx l = ground arith
  emit_heads-SameOut info lc (suc n) idx l =
      let rtp_pt : ℕ = if nat_eqb idx 0 then 0xdd else 0x5d in
      let p = voice_head ∷ build_ipsc_voice_payload v.codec lc voice_head in
      let one = send_gv-SameOut info rtp_pt voice_head p l in
      let rest = emit_heads-SameOut info lc n (idx + 1) (send_gv v d info rtp_pt voice_head p l) in
      record {
        out = rest.out ∙ one.out;
        out_seq = rest.out_seq ∙ one.out_seq;
        switched = rest.switched ∙ one.switched;
      }

  emit_start-SameOut : (info : ℕ) (l : Line) → SameOut l (emit_hbp_ipsc_start v d info l)
  unfolding emit_hbp_ipsc_start
  emit_start-SameOut info l =
      let lc = or_else l.slot.inc.lc (dmrd_lc v d) in
      ground (arith, emit_heads-SameOut info lc (header_count v.cfg) 0 l)

  hbp_head-SameOut : (info : ℕ) (l : Line) → SameOut l (hbp_head v d info l)
  unfolding hbp_head
  hbp_head-SameOut info l =
      let lc = decode_hbp_voice_lc v.codec d.payload_33 in
      let i = l.slot.inc in
      let i' =
        if is_some i.hbp_stream && (is_some i.lc && i.started)
        then reset_hbp_to_ipsc_state i
        else i in
      let begun = begin_call v d lc (record l { slot = record l.slot { inc = i' } }) in
      ground (arith, emit_start-SameOut info begun)

  hbp_term-SameOut : (info : ℕ) (l : Line) → SameOut l (hbp_term v d info l)
  unfolding hbp_term
  hbp_term-SameOut info l =
      let p =
        voice_term
        ∷ build_ipsc_voice_payload v.codec (or_else l.slot.inc.lc (dmrd_lc v d)) voice_term in
      ground (arith, send_gv-SameOut (bit_or info end_msk) 0x5e voice_term p l)

  hbp_voice_burst-SameOut :
      (info burst : ℕ) (l : Line) → SameOut l (hbp_voice_burst v d info burst l)
  unfolding hbp_voice_burst
  hbp_voice_burst-SameOut info burst l =
      let start = emit_start-SameOut info l in
      let sent = send_gv-SameOut info 0x5d burst _ (emit_hbp_ipsc_start v d info l) in
      record {
        out = sent.out ∙ start.out;
        out_seq = sent.out_seq ∙ start.out_seq;
        switched = sent.switched ∙ start.switched;
      }

  hbp_voice-SameOut : (info burst : ℕ) (l : Line) → SameOut l (hbp_voice v d info burst l)
  unfolding hbp_voice begin_call
  hbp_voice-SameOut info burst l =
      let begun = begin_call v d (dmrd_lc v d) l in
      ground (arith, hbp_voice_burst-SameOut info burst l, hbp_voice_burst-SameOut info burst begun)

  -- A packet from HBP leaves the outbound call of its timeslot and the DMRD sequence byte as
  -- they are.
  pub hbp_packet-SameOut : (ts : Timeslot) (l : Line) → SameOut l (hbp_packet v d ts l)
  unfolding hbp_packet
  hbp_packet-SameOut ts l0 =
      let l = map_slot (λ s. record s { inc = record s.inc { last_pkt = v.now } }) l0 in
      let k =
        (call_lock_blocks v.cfg v.now (hbp_stream d.stream) d.src_sub d.dst_group (is_term d)
          l.slot).0 in
      let l' = map_slot (λ s. record s { lock = k }) l in
      ground (
        arith,
        hbp_head-SameOut (call_info ts) l',
        hbp_term-SameOut (call_info ts) l',
        hbp_voice-SameOut (call_info ts) (slot_burst ts) l',
      )
