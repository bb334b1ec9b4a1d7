-- ===== src/Translate/Inbound/Start.antt =====
-- How a call from HBP starts on the IPSC side (translate/translator.py, `hbp_voice_received`,
-- `_emit_hbp_ipsc_start`).
use ipsc2hbp.Base.{
  ℕ, zero, suc, ◌+◌, ◌≡◌, refl, sym, ap, ◌∙◌, true, false, ◌||◌, List, [], ◌∷◌, ◌++◌, arith,
  nat_eqb, if◌then◌else◌, append_assoc, append-nil,
}
use ipsc2hbp.Dmr.{Bytes}
use ipsc2hbp.Ipsc.Const.{voice_head}
use ipsc2hbp.Translate.State.{
  Timeslot, InCall, Shared, Line, Env, Action, send_to_peer, or_else, map_slot,
}
use ipsc2hbp.Translate.Packet.{
  build_ipsc_voice_payload, build_gv, rtp_header, advance_rtp, make_hbp_ipsc_packet,
}
use ipsc2hbp.Translate.Pacer.{send_hbp_to_ipsc, send_hbp_to_ipsc_now, is_ipsc_slot_busy}
use ipsc2hbp.Translate.Inbound.{
  Dmrd, is_head, is_term, reset_hbp_to_ipsc_state, send_gv, emit_heads, emit_hbp_ipsc_start,
  begin_call, hbp_head, hbp_term, end_hbp_call, hbp_packet, header_count, set_started, dmrd_lc,
  hbp_voice_burst, voice_gv_payload,
}

-- Nothing has been sent or queued, and the call has not started.
abbrev pub Quiet : Line → Line → Type 0
Quiet l m =
    (m.sent ≡ l.sent)
    × (m.slot.pacer.tx_queue ≡ l.slot.pacer.tx_queue)
    × (m.slot.inc.started ≡ false)

module _ (v : Env) (ts : Timeslot) where
  control-Quiet :
      (d : Dmrd) (l : Line)
      → v.cfg.hbp_start_on_voice ≡ true
      → l.slot.inc.started ≡ false
      → (is_head d || is_term d) ≡ true
      → Quiet l (hbp_packet v d ts l)
  unfolding hbp_packet hbp_head hbp_term begin_call end_hbp_call reset_hbp_to_ipsc_state
  control-Quiet d l on idle control = ground arith

  -- Packets of the timeslot, one after the other.
  unfoldable pub packets : List Dmrd → Line → Line
  packets [] l = l
  packets (d ∷ ds) l = packets ds (hbp_packet v d ts l)

  -- Every packet is a header or a terminator.
  abbrev pub AllControl : List Dmrd → Type 0
  AllControl [] = Unit
  AllControl (d ∷ ds) = ((is_head d || is_term d) ≡ true) × AllControl ds

  -- With the start on voice configured, any headers and terminators from HBP on a timeslot
  -- whose call has not started send nothing to IPSC, queue nothing, and do not start the call.
  pub headers-Quiet :
      (ds : List Dmrd) (l : Line)
      → v.cfg.hbp_start_on_voice ≡ true
      → l.slot.inc.started ≡ false
      → AllControl ds
      → Quiet l (packets ds l)
  unfolding packets
  headers-Quiet [] l on idle all = (refl, refl, idle)
  headers-Quiet (d ∷ ds) l on idle (control, all) =
      let (s, q, n) = control-Quiet d l on idle control in
      let (s', q', n') = headers-Quiet ds (hbp_packet v d ts l) on n all in (s' ∙ s, q' ∙ q, n')

module _ (v : Env) (d : Dmrd) (info : ℕ) where
  -- The packet of the call `i` with this RTP payload type and this payload.
  abbrev pub gv_packet : Shared → InCall → ℕ → Bytes → Action
  gv_packet sh i rtp_pt p =
      send_to_peer
        (build_gv v.cfg sh d.src_sub d.dst_group info (rtp_header rtp_pt i) p i.stream_id)

  -- The headers that have to come out, with the RTP counters going on.
  unfoldable pub header_run : Shared → Bytes → ℕ → ℕ → InCall → List Action
  header_run sh lc zero idx i = []
  header_run sh lc (suc n) idx i =
      gv_packet sh i (if nat_eqb idx 0 then 0xdd else 0x5d)
        (voice_head ∷ build_ipsc_voice_payload v.codec lc voice_head)
      ∷ header_run sh lc n (idx + 1) (advance_rtp i)

  -- The call after some packets.
  unfoldable pub advance_all : ℕ → InCall → InCall
  advance_all zero i = i
  advance_all (suc n) i = advance_all n (advance_rtp i)

  module _ (unpaced : v.cfg.hbp_to_ipsc_pacing ≡ false)
      (unguarded : v.cfg.ipsc_busy_slot_guard ≡ false) where
    pub send_gv_lem :
        (rtp_pt burst_type : ℕ) (p : Bytes) (l : Line)
        → let l' = send_gv v d info rtp_pt burst_type p l in
          (l'.sent ≡ l.sent ++ gv_packet l.shared l.slot.inc rtp_pt p ∷ [])
          × (l'.slot.inc ≡ advance_rtp l.slot.inc)
          × (l'.shared ≡ l.shared)
    unfolding send_gv make_hbp_ipsc_packet send_hbp_to_ipsc send_hbp_to_ipsc_now is_ipsc_slot_busy
    send_gv_lem rtp_pt burst_type p l = ground arith

    emit_heads_lem :
        (lc : Bytes) (n idx : ℕ) (l : Line)
        → let l' = emit_heads v d info lc n idx l in
          (l'.sent ≡ l.sent ++ header_run l.shared lc n idx l.slot.inc)
          × (l'.slot.inc ≡ advance_all n l.slot.inc)
          × (l'.shared ≡ l.shared)
    unfolding emit_heads header_run advance_all
    emit_heads_lem lc zero idx l = (sym (append-nil l.sent), refl, refl)
    emit_heads_lem lc (suc n) idx l =
        let rtp_pt : ℕ = if nat_eqb idx 0 then 0xdd else 0x5d in
        let p : Bytes = voice_head ∷ build_ipsc_voice_payload v.codec lc voice_head in
        let l1 = send_gv v d info rtp_pt voice_head p l in
        let (s, i, sh) = send_gv_lem rtp_pt voice_head p l in
        let (s', i', sh') = emit_heads_lem lc n (idx + 1) l1 in
        (
          s'
              ∙ rw (s, i, sh)
                  (append_assoc l.sent (gv_packet l.shared l.slot.inc rtp_pt p ∷ [])
                    (header_run l.shared lc n (idx + 1) (advance_rtp l.slot.inc))),
          i' ∙ ap (advance_all n) i,
          sh' ∙ sh,
        )

    emit_start_lem :
        (l : Line)
        → l.slot.inc.started ≡ false
        → emit_hbp_ipsc_start v d info l
          ≡ map_slot set_started
              (emit_heads v d info (or_else l.slot.inc.lc (dmrd_lc v d)) (header_count v.cfg) 0 l)
    unfolding emit_hbp_ipsc_start
    emit_start_lem l idle = ground arith

    -- With pacing and the busy guard off, the first voice burst of a call from HBP that has not
    -- started sends the configured number of IPSC headers, then the voice packet: the RTP
    -- counters go on from packet to packet, only the first header has the payload type 0xdd,
    -- and all have the call's stream byte; the call has started then.
    pub voice_start :
        (burst : ℕ) (l : Line)
        → l.slot.inc.started ≡ false
        → let n = header_count v.cfg in
          let i : InCall = record (advance_all n l.slot.inc) { started = true } in
          let lc = or_else l.slot.inc.lc (dmrd_lc v d) in
          let l' = hbp_voice_burst v d info burst l in
          (l'.sent
            ≡ l.sent
              ++ (header_run l.shared lc n 0 l.slot.inc
                  ++ gv_packet l.shared i 0x5d (voice_gv_payload v d burst i) ∷ []))
          × (l'.slot.inc ≡ advance_rtp i)
    unfolding hbp_voice_burst
    voice_start burst l idle =
        let n = header_count v.cfg in
        let lc = or_else l.slot.inc.lc (dmrd_lc v d) in
        let l1 = emit_heads v d info lc n 0 l in
        let (s, i, sh) = emit_heads_lem lc n 0 l in
        let l2 = record l1 {
          slot = record l1.slot { inc = record l1.slot.inc { started = true } };
        } in
        let (s2, i2, sh2) = send_gv_lem 0x5d burst (voice_gv_payload v d burst l2.slot.inc) l2 in
        let i' : InCall = record (advance_all n l.slot.inc) { started = true } in
        let last = gv_packet l.shared i' 0x5d (voice_gv_payload v d burst i') ∷ [] in
        rw (emit_start_lem l idle) (
          s2 ∙ rw (s, i, sh) (append_assoc l.sent (header_run l.shared lc n 0 l.slot.inc) last),
          i2 ∙ rw i refl,
        )

    -- The shared counters stay as they are.
    pub voice_start-shared :
        (burst : ℕ) (l : Line)
        → l.slot.inc.started ≡ false
        → (hbp_voice_burst v d info burst l).shared ≡ l.shared
    unfolding hbp_voice_burst
    voice_start-shared burst l idle =
        let n = header_count v.cfg in
        let lc = or_else l.slot.inc.lc (dmrd_lc v d) in
        let l1 = emit_heads v d info lc n 0 l in
        let l2 = map_slot set_started l1 in
        rw (emit_start_lem l idle) (
          (send_gv_lem 0x5d burst (voice_gv_payload v d burst l2.slot.inc) l2).2
          ∙ (emit_heads_lem lc n 0 l).2)
