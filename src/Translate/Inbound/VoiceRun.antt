-- ===== src/Translate/Inbound/VoiceRun.antt =====
-- The voice packets of a call from HBP, on the IPSC side (translate/translator.py,
-- `hbp_voice_received`).
use ipsc2hbp.Base.{
  ℕ, zero, suc, ◌≡◌, refl, sym, ap, ◌∙◌, true, false, some, List, [], ◌∷◌, ◌++◌, append_assoc,
  append-nil,
}
use ipsc2hbp.Dmr.{Bytes}
use ipsc2hbp.Translate.State.{InCall, Shared, Line, Env, Action, or_else}
use ipsc2hbp.Translate.Packet.{advance_rtp}
use ipsc2hbp.Translate.Inbound.{
  Dmrd, hbp_voice, hbp_voice_burst, voice_gv_payload, emit_hbp_ipsc_start, send_gv, header_count,
  dmrd_lc,
}
use ipsc2hbp.Translate.Inbound.Start.{
  gv_packet, header_run, advance_all, send_gv_lem, voice_start, voice_start-shared,
}

module _ (v : Env) (info burst : ℕ) where
  -- Voice packets, one after the other.
  unfoldable pub voices : List Dmrd → Line → Line
  voices [] l = l
  voices (d ∷ ds) l = voices ds (hbp_voice v d info burst l)

  -- The packets that have to come out, with the RTP counters going on.
  unfoldable pub voice_packets : Shared → List Dmrd → InCall → List Action
  voice_packets sh [] i = []
  voice_packets sh (d ∷ ds) i =
      gv_packet v d info sh i 0x5d (voice_gv_payload v d burst i)
      ∷ voice_packets sh ds (advance_rtp i)

  -- A call that has started.
  pub record IsStarted (lc : Bytes) (i : InCall) : Type 0 where
    pub has_lc : i.lc ≡ some lc
    pub has_started : i.started ≡ true

  advance-IsStarted : (lc : Bytes) (i : InCall) → IsStarted lc i → IsStarted lc (advance_rtp i)
  unfolding advance_rtp
  advance-IsStarted lc i h = record { has_lc = h.has_lc; has_started = h.has_started }

  module _ (unpaced : v.cfg.hbp_to_ipsc_pacing ≡ false)
      (unguarded : v.cfg.ipsc_busy_slot_guard ≡ false) where
    started_burst :
        (d : Dmrd) (lc : Bytes) (l : Line)
        → IsStarted lc l.slot.inc
        → hbp_voice v d info burst l
          ≡ send_gv v d info 0x5d burst (voice_gv_payload v d burst l.slot.inc) l
    unfolding hbp_voice hbp_voice_burst emit_hbp_ipsc_start
    started_burst d lc l h = rw (h.has_lc, h.has_started) refl

    voices_lem :
        (ds : List Dmrd) (lc : Bytes) (l : Line)
        → IsStarted lc l.slot.inc
        → (voices ds l).sent ≡ l.sent ++ voice_packets l.shared ds l.slot.inc
    unfolding voices voice_packets
    voices_lem [] lc l h = sym (append-nil l.sent)
    voices_lem (d ∷ ds) lc l h =
        let p = voice_gv_payload v d burst l.slot.inc in
        let (s, i, sh) = send_gv_lem v d info unpaced unguarded 0x5d burst p l in
        let l' = send_gv v d info 0x5d burst p l in
        let h' : IsStarted lc l'.slot.inc = rw i (advance-IsStarted lc l.slot.inc h) in
        let one = gv_packet v d info l.shared l.slot.inc 0x5d p ∷ [] in
        ap (λ x. (voices ds x).sent) (started_burst d lc l h)
        ∙ (voices_lem ds lc l' h'
            ∙ rw (s, i, sh)
                (append_assoc l.sent one (voice_packets l.shared ds (advance_rtp l.slot.inc))))

    advance_all-lc : (d : Dmrd) (n : ℕ) (i : InCall) → (advance_all v d info n i).lc ≡ i.lc
    unfolding advance_all advance_rtp
    advance_all-lc d zero i = refl
    advance_all-lc d (suc n) i = advance_all-lc d n (advance_rtp i)

    first_burst :
        (d : Dmrd) (lc : Bytes) (l : Line)
        → l.slot.inc.lc ≡ some lc
        → hbp_voice v d info burst l ≡ hbp_voice_burst v d info burst l
    unfolding hbp_voice
    first_burst d lc l h = rw h refl

    -- With pacing and the busy guard off, the voice packets from HBP of a call that has its LC
    -- and has not started, past the guards, send the configured number of IPSC headers, and
    -- then one voice packet each, in order: the RTP counters go on from packet to packet, only
    -- the first header has the payload type 0xdd, all have the call's stream byte, and each
    -- voice packet has the payload of its burst.
    pub call_run :
        (d : Dmrd) (ds : List Dmrd) (lc : Bytes) (l : Line)
        → l.slot.inc.lc ≡ some lc
        → l.slot.inc.started ≡ false
        → let n = header_count v.cfg in
          let i : InCall = record (advance_all v d info n l.slot.inc) { started = true } in
          (voices (d ∷ ds) l).sent
          ≡ l.sent
            ++ (header_run v d info l.shared (or_else l.slot.inc.lc (dmrd_lc v d)) n 0 l.slot.inc
                ++ voice_packets l.shared (d ∷ ds) i)
    unfolding voices voice_packets
    call_run d ds lc l h idle =
        let n = header_count v.cfg in
        let i : InCall = record (advance_all v d info n l.slot.inc) { started = true } in
        let l1 = hbp_voice_burst v d info burst l in
        let (s, j) = voice_start v d info unpaced unguarded burst l idle in
        let sh = voice_start-shared v d info unpaced unguarded burst l idle in
        let up : IsStarted lc i = record {
          has_lc = advance_all-lc d n l.slot.inc ∙ h;
          has_started = refl;
        } in
        let up1 : IsStarted lc l1.slot.inc = rw j (advance-IsStarted lc i up) in
        let first = gv_packet v d info l.shared i 0x5d (voice_gv_payload v d burst i) in
        let rest = voice_packets l.shared ds (advance_rtp i) in
        let heads =
          header_run v d info l.shared (or_else l.slot.inc.lc (dmrd_lc v d)) n 0 l.slot.inc in
        ap (λ x. (voices ds x).sent) (first_burst d lc l h)
        ∙ (voices_lem ds lc l1 up1
            ∙ rw (s, sh, j)
                (append_assoc l.sent (heads ++ first ∷ []) rest
                  ∙ ap (λ x. l.sent ++ x) (append_assoc heads (first ∷ []) rest)))
