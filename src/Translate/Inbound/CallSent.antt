-- ===== src/Translate/Inbound/CallSent.antt =====
-- What a call from HBP sends to IPSC, byte by byte (translate/translator.py,
-- `hbp_voice_received`, `_emit_hbp_ipsc_start`).
use ipsc2hbp.Base.{
  ℕ, ◌≤◌, ◌≡◌, refl, ap, ◌∙◌, true, false, some, List, ◌∷◌, ◌++◌, length, arith, nat_eq,
}
use ipsc2hbp.Dmr.{Bytes}
use ipsc2hbp.Translate.State.{InCall, Shared, Line, Env, Action, or_else}
use ipsc2hbp.Translate.Inbound.{Dmrd, header_count, dmrd_lc}
use ipsc2hbp.Translate.Inbound.Start.{header_run, advance_all}
use ipsc2hbp.Translate.Inbound.VoiceRun.{voices, voice_packets, call_run}
use ipsc2hbp.Translate.Inbound.CallBytes.{
  some_lc, sent_heads, sent_voices, Counts, started-Counts, heads-Counts, voices-Counts,
}

module _ (v : Env) (info burst : ℕ) (unpaced : v.cfg.hbp_to_ipsc_pacing ≡ false)
    (unguarded : v.cfg.ipsc_busy_slot_guard ≡ false) where
  count_in_range :
      (n : ℕ) → 1 ≤ n → n ≤ 5 → v.cfg.hbp_to_ipsc_header_repeats ≡ n → header_count v.cfg ≡ n
  count_in_range n low high e = ground (arith, e)

  -- The start packets and the voice packets of a call, whose counters stand at `seq` and `ts`.
  abbrev pub call_packets : Shared → InCall → Bytes → ℕ → Dmrd → List Dmrd → List Action
  call_packets sh i lc n d ds =
      sent_heads v info burst lc i.emb_lc sh i.stream_id i.rtp_seq i.rtp_ts d n 0
      ++ sent_voices v info burst lc i.emb_lc sh i.stream_id i.rtp_seq i.rtp_ts (d ∷ ds) n

  -- With pacing and the busy guard off and a configured number of headers from 1 to 5, the
  -- voice packets from HBP of a call that has its LC, which is not empty, and has not started,
  -- past the guards, send that number of IPSC headers, and then one voice packet each, in
  -- order. Packet k of them, from 0 on, has the RTP sequence number of the call plus k modulo 2
  -- to the 16th, the timestamp plus 480 k modulo 2 to the 32nd, and the call's stream byte; the
  -- first has the payload type 0xdd and the others 0x5d; a header has the LC with its parity;
  -- and a voice packet has the AMBE frames of its burst with what belongs to its place in the
  -- superframe: the sync mark, the fragment 1, 2 or 3 of the embedded LC with its EMB byte, the
  -- fragment 4 with the LC options, the talkgroup and the source, or the null fragment.
  pub call_sent :
      (d : Dmrd) (ds : List Dmrd) (lc : Bytes) (n : ℕ) (l : Line)
      → v.cfg.hbp_to_ipsc_header_repeats ≡ n
      → 1 ≤ n
      → n ≤ 5
      → l.slot.inc.lc ≡ some lc
      → 1 ≤ length lc
      → l.slot.inc.started ≡ false
      → (voices v info burst (d ∷ ds) l).sent ≡ l.sent ++ call_packets l.shared l.slot.inc lc n d ds
  call_sent d ds lc n l count low high h full idle =
      let i = l.slot.inc in
      let first : Counts v info burst lc i.emb_lc l.shared i.stream_id i.rtp_seq i.rtp_ts 0 i =
        record {
          seq_at = omega arith;
          ts_at = omega arith;
          stream_at = refl;
          lc_at = h;
          emb_at = refl;
        } in
      let later =
        started-Counts v info burst lc i.emb_lc l.shared i.stream_id i.rtp_seq i.rtp_ts d n i
          first in
      let heads =
        heads-Counts v info burst lc i.emb_lc l.shared i.stream_id i.rtp_seq i.rtp_ts d n 0 i
          first in
      let bursts =
        voices-Counts v info burst lc i.emb_lc l.shared i.stream_id i.rtp_seq i.rtp_ts (d ∷ ds) n _
          later full in
      let same_lc : or_else i.lc (dmrd_lc v d) ≡ lc =
        ap (λ o. or_else o (dmrd_lc v d)) h ∙ some_lc lc (dmrd_lc v d) full in
      call_run v info burst unpaced unguarded d ds lc l h idle
      ∙ (λ j.
          l.sent
          ++ (header_run v d info l.shared (same_lc j) (count_in_range n low high count j) 0 i
              ++ voice_packets v info burst l.shared (d ∷ ds)
                  (record (advance_all v d info (count_in_range n low high count j) i) {
                    started = true;
                  })))
      ∙ (λ j. l.sent ++ (heads j ++ bursts j))
