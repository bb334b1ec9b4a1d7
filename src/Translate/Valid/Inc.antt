-- ===== src/Translate/Valid/Inc.antt =====
-- The inbound call of a timeslot (translate/translator.py, `_in_*`): its fields are set and
-- cleared together, and its counters stay within their width on the wire.
use ipsc2hbp.Base.{
  false, not, ℕ, suc, zero, ◌+◌, ◌<◌, ◌≡◌, refl, List, [], ◌∷◌, true, none, arith, is_some, ap, ◌∙◌,
  bit_or, ◌&&◌, Bool-cases, inl, inr, if◌then◌else◌,
}
use ipsc2hbp.Dmr.{Bytes}
use ipsc2hbp.Config.{Config}
use ipsc2hbp.Ipsc.Const.{voice_head, voice_term, end_msk}
use ipsc2hbp.Translate.State.{
  InCall, Line, Env, Queued, idle_in, Timeslot, or_else, map_slot, switches, switches_peer,
}
use ipsc2hbp.Translate.Lock.{hbp_stream, call_lock_blocks, hbp_ipsc_queue_drained}
use ipsc2hbp.Translate.Frame.{decode_hbp_voice_lc}
use ipsc2hbp.Translate.Packet.{make_hbp_ipsc_packet, build_ipsc_voice_payload}
use ipsc2hbp.Translate.Pacer.{
  schedule_hbp_to_ipsc_drain, send_hbp_to_ipsc_now, send_hbp_to_ipsc, after_drain, drain_queue,
  drain_hbp_to_ipsc_queue,
}
use ipsc2hbp.Translate.Inbound.{
  Dmrd, reset_hbp_to_ipsc_state, send_gv, emit_heads, emit_hbp_ipsc_start, begin_call, hbp_head,
  hbp_term, hbp_voice_burst, hbp_voice, hbp_packet, header_count, dmrd_lc, call_info, slot_burst,
  is_term, duplicate_head,
}
use ipsc2hbp.Translate.Valid.Pacing.{PacerIsValid, send_hbp_to_ipsc-IsValid}

pub record InIsValid (i : InCall) : Type 0 where
  pub with_emb_lc : is_some i.emb_lc ≡ is_some i.lc
  pub with_stream : is_some i.hbp_stream ≡ is_some i.lc
  pub with_src : is_some i.src_sub ≡ is_some i.lc
  pub with_dst : is_some i.dst_group ≡ is_some i.lc
  pub has_lc : (i.started && not (is_some i.lc)) ≡ false
  pub stream_id_byte : i.stream_id < 256
  pub rtp_seq_word : i.rtp_seq < 65536
  pub rtp_ts_word : i.rtp_ts < 4294967296

-- The random numbers that a callback draws are in the ranges that it asks for.
pub record EnvIsValid (v : Env) : Type 0 where
  pub seq_range : v.rand_seq < 32768
  pub ts_range : v.rand_ts < 4294967296

-- What holds of a callback's line while it handles a packet from HBP.
pub record LineIsValid (cfg : Config) (l : Line) : Type 0 where
  pub inc : InIsValid l.slot.inc
  pub pacer : PacerIsValid cfg l.slot.pacer
  pub counter : l.shared.in_stream_ctr < 256

pub idle_in-IsValid : InIsValid idle_in
idle_in-IsValid = ground arith

pub reset-IsValid : (i : InCall) → InIsValid i → InIsValid (reset_hbp_to_ipsc_state i)
unfolding reset_hbp_to_ipsc_state
reset-IsValid i h = ground arith

duplicate_head-lc :
    (now : ℕ) (d : Dmrd) (i : InCall) → duplicate_head now d i ≡ true → is_some i.lc ≡ true
unfolding duplicate_head
duplicate_head-lc now d i h = ground arith

-- Sending leaves the calls and the counters alone.
pub record SameCalls (l m : Line) : Type 0 where
  pub inc : m.slot.inc ≡ l.slot.inc
  pub out : m.slot.out ≡ l.slot.out
  pub shared : m.shared ≡ l.shared
  pub switched : switches m.sent ≡ switches l.sent

pub send_hbp_to_ipsc-SameCalls :
    (cfg : Config) (now : ℕ) (q : Queued) (l : Line) → SameCalls l (send_hbp_to_ipsc cfg now q l)
unfolding send_hbp_to_ipsc send_hbp_to_ipsc_now schedule_hbp_to_ipsc_drain hbp_ipsc_queue_drained
send_hbp_to_ipsc-SameCalls cfg now q l = ground (arith, switches_peer l.sent q.packet)

drain_queue-SameCalls :
    (cfg : Config) (now after : ℕ) (qs : List Queued) (l : Line)
    → SameCalls l (drain_queue cfg now after qs l)
unfolding drain_queue after_drain send_hbp_to_ipsc_now schedule_hbp_to_ipsc_drain
    hbp_ipsc_queue_drained
drain_queue-SameCalls cfg now after [] l = ground arith
drain_queue-SameCalls cfg now after (q ∷ qs) l = ground (arith, switches_peer l.sent q.packet)

pub drain_hbp_to_ipsc_queue-SameCalls :
    (cfg : Config) (now after : ℕ) (l : Line)
    → SameCalls l (drain_hbp_to_ipsc_queue cfg now after l)
unfolding drain_hbp_to_ipsc_queue
drain_hbp_to_ipsc_queue-SameCalls cfg now after l =
    let r =
      drain_queue-SameCalls cfg now after l.slot.pacer.tx_queue
        (record l { slot = record l.slot { pacer = record l.slot.pacer { tx_handle = none } } }) in
    record { inc = r.inc; out = r.out; shared = r.shared; switched = r.switched }

module _ (v : Env) (ok : EnvIsValid v) (d : Dmrd) where
  send_gv-IsValid :
      (info rtp_pt burst_type : ℕ) (p : Bytes) (l : Line)
      → LineIsValid v.cfg l
      → LineIsValid v.cfg (send_gv v d info rtp_pt burst_type p l)
  unfolding send_gv make_hbp_ipsc_packet
  send_gv-IsValid info rtp_pt burst_type p l h =
      let (l', packet) = make_hbp_ipsc_packet v d.src_sub d.dst_group info rtp_pt p l in
      let q : Queued = record {
        packet = packet;
        src_sub = d.src_sub;
        dst_group = d.dst_group;
        burst_type = burst_type;
      } in
      let same = send_hbp_to_ipsc-SameCalls v.cfg v.now q l' in
      record {
        inc = rw same.inc (ground arith);
        pacer = send_hbp_to_ipsc-IsValid v.cfg v.now q l' h.pacer;
        counter = rw same.shared h.counter;
      }

  send_gv-lc :
      (info rtp_pt burst_type : ℕ) (p : Bytes) (l : Line)
      → (send_gv v d info rtp_pt burst_type p l).slot.inc.lc ≡ l.slot.inc.lc
  unfolding send_gv make_hbp_ipsc_packet
  send_gv-lc info rtp_pt burst_type p l =
      let (l', packet) = make_hbp_ipsc_packet v d.src_sub d.dst_group info rtp_pt p l in
      ap InCall.lc (send_hbp_to_ipsc-SameCalls v.cfg v.now _ l').inc

  emit_heads-IsValid :
      (info : ℕ) (lc : Bytes) (n idx : ℕ) (l : Line)
      → LineIsValid v.cfg l
      → LineIsValid v.cfg (emit_heads v d info lc n idx l)
  unfolding emit_heads
  emit_heads-IsValid info lc zero idx l h = h
  emit_heads-IsValid info lc (suc n) idx l h =
      emit_heads-IsValid info lc n (idx + 1) _ (send_gv-IsValid info _ voice_head _ l h)

  emit_heads-lc :
      (info : ℕ) (lc : Bytes) (n idx : ℕ) (l : Line)
      → (emit_heads v d info lc n idx l).slot.inc.lc ≡ l.slot.inc.lc
  unfolding emit_heads
  emit_heads-lc info lc zero idx l = refl
  emit_heads-lc info lc (suc n) idx l =
      emit_heads-lc info lc n (idx + 1) _ ∙ send_gv-lc info _ voice_head _ l

  emit_start-IsValid :
      (info : ℕ) (l : Line)
      → LineIsValid v.cfg l
      → is_some l.slot.inc.lc ≡ true
      → LineIsValid v.cfg (emit_hbp_ipsc_start v d info l)
  unfolding emit_hbp_ipsc_start
  emit_start-IsValid info l h has =
      let lc = or_else l.slot.inc.lc (dmrd_lc v d) in
      ground (
        arith,
        emit_heads-IsValid info lc (header_count v.cfg) 0 l h,
        emit_heads-lc info lc (header_count v.cfg) 0 l,
      )

  begin_call-IsValid :
      (lc : Bytes) (l : Line) → LineIsValid v.cfg l → LineIsValid v.cfg (begin_call v d lc l)
  unfolding begin_call
  begin_call-IsValid lc l h = ground arith

  begin_call-lc : (lc : Bytes) (l : Line) → is_some (begin_call v d lc l).slot.inc.lc ≡ true
  unfolding begin_call
  begin_call-lc lc l = refl

  hbp_head-IsValid :
      (info : ℕ) (l : Line) → LineIsValid v.cfg l → LineIsValid v.cfg (hbp_head v d info l)
  unfolding hbp_head
  hbp_head-IsValid info l h =
      let lc = decode_hbp_voice_lc v.codec d.payload_33 in
      let i = l.slot.inc in
      let i' =
        if is_some i.hbp_stream && (is_some i.lc && i.started)
        then reset_hbp_to_ipsc_state i
        else i in
      let l' = record l { slot = record l.slot { inc = i' } } in
      let r = reset-IsValid i h.inc in
      let h' : LineIsValid v.cfg l' = record {
        inc = ground (arith, r);
        pacer = h.pacer;
        counter = h.counter;
      } in
      let b = begin_call-IsValid lc l' h' in
      let e = emit_start-IsValid info (begin_call v d lc l') b (begin_call-lc lc l') in
      elim (Bool-cases (duplicate_head v.now d i)) [
        | inl dup ↦ rw dup (ground (arith, duplicate_head-lc v.now d i dup))
        | inr new ↦ rw new (ground (arith, b, e))
      ]

  hbp_term-IsValid :
      (info : ℕ) (l : Line) → LineIsValid v.cfg l → LineIsValid v.cfg (hbp_term v d info l)
  unfolding hbp_term
  hbp_term-IsValid info l h =
      let p =
        voice_term
        ∷ build_ipsc_voice_payload v.codec (or_else l.slot.inc.lc (dmrd_lc v d)) voice_term in
      ground (arith, send_gv-IsValid (bit_or info end_msk) 0x5e voice_term p l h)

  hbp_voice_burst-IsValid :
      (info burst : ℕ) (l : Line)
      → LineIsValid v.cfg l
      → is_some l.slot.inc.lc ≡ true
      → LineIsValid v.cfg (hbp_voice_burst v d info burst l)
  unfolding hbp_voice_burst
  hbp_voice_burst-IsValid info burst l h has =
      send_gv-IsValid info 0x5d burst _ _ (emit_start-IsValid info l h has)

  hbp_voice-IsValid :
      (info burst : ℕ) (l : Line)
      → LineIsValid v.cfg l
      → LineIsValid v.cfg (hbp_voice v d info burst l)
  unfolding hbp_voice
  hbp_voice-IsValid info burst l h =
      let begun = begin_call v d (dmrd_lc v d) l in
      let b = begin_call-IsValid (dmrd_lc v d) l h in
      ground (
        arith,
        hbp_voice_burst-IsValid info burst l h,
        hbp_voice_burst-IsValid info burst begun b (begin_call-lc (dmrd_lc v d) l),
      )

  pub hbp_packet-IsValid :
      (ts : Timeslot) (l : Line) → LineIsValid v.cfg l → LineIsValid v.cfg (hbp_packet v d ts l)
  unfolding hbp_packet
  hbp_packet-IsValid ts l0 h0 =
      let l = map_slot (λ s. record s { inc = record s.inc { last_pkt = v.now } }) l0 in
      let k =
        (call_lock_blocks v.cfg v.now (hbp_stream d.stream) d.src_sub d.dst_group (is_term d)
          l.slot).0 in
      let l' = map_slot (λ s. record s { lock = k }) l in
      let h : LineIsValid v.cfg l' = record {
        inc = ground arith;
        pacer = h0.pacer;
        counter = h0.counter;
      } in
      ground (
        arith,
        h,
        hbp_head-IsValid (call_info ts) l' h,
        hbp_term-IsValid (call_info ts) l' h,
        hbp_voice-IsValid (call_info ts) (slot_burst ts) l' h,
      )
