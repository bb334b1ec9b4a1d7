-- ===== src/Translate/Outbound/VoiceRun.antt =====
-- A call from IPSC in its run (translate/translator.py, `ipsc_voice_received`): the DMRD packets of
-- its voice bursts.
use ipsc2hbp.Base.{
  ℕ, ◌+◌, ◌%◌, ◌≡◌, sym, ap, ◌∙◌, bit_or, Bool, true, false, ◌&&◌, Option, some, List, [], ◌∷◌,
  ◌++◌, arith, not, ltb, nat_eqb, length, slice, append_assoc, append-nil, Dict,
}
use ipsc2hbp.Dmr.{Bytes, Bits}
use ipsc2hbp.Ipsc.Const.{voice_head, voice_term}
use ipsc2hbp.Translate.State.{Timeslot, OutCall, Line, Env, Action, send_dmrd}
use ipsc2hbp.Translate.Frame.{build_embed, voice_payload}
use ipsc2hbp.Translate.Packet.{build_dmrd}
use ipsc2hbp.Translate.Outbound.{
  voice_frame, ipsc_voice, ipsc_burst, send_frames, finish_burst, accept_ipsc, learn_metadata,
  slot_flags, voice_flags,
}

-- A voice burst is neither a header nor a terminator.
abbrev pub is_voice : ℕ → Bool
is_voice burst_type = not (nat_eqb burst_type voice_head) && not (nat_eqb burst_type voice_term)

module _ (v : Env) (ts : Timeslot) (burst_type : ℕ) (src dst sid : Bytes) where
  -- Voice packets of the call, one after the other.
  unfoldable pub accept_all : List Bytes → Line → Line
  accept_all [] l = l
  accept_all (d ∷ ds) l = accept_all ds (accept_ipsc v d ts burst_type src dst l).0

  -- The packets that have to come out, from this sequence byte and this position on.
  unfoldable pub voice_run : Option (Dict ℕ Bits) → ℕ → ℕ → List Bytes → List Action
  voice_run emb_lc seq pos [] = []
  voice_run emb_lc seq pos (d ∷ ds) =
      send_dmrd (
        build_dmrd v.cfg seq src dst (bit_or (slot_flags ts) (voice_flags (pos % 6))) sid
          (voice_payload v.codec (slice 33 52 d) (build_embed v.codec (pos % 6) emb_lc)))
      ∷ voice_run emb_lc ((seq + 1) % 256) (pos + 1) ds

  -- Every packet holds the AMBE field.
  abbrev pub AllWhole : List Bytes → Type 0
  AllWhole [] = Unit
  AllWhole (d ∷ ds) = (ltb (length d) 52 ≡ false) × AllWhole ds

  one_burst :
      (d : Bytes) (l : Line)
      → is_voice burst_type ≡ true
      → l.slot.out.stream_id ≡ some sid
      → ltb (length d) 52 ≡ false
      → let l' = (accept_ipsc v d ts burst_type src dst l).0 in
        (l'.sent
          ≡ l.sent ++ voice_run l.slot.out.emb_lc l.shared.out_seq l.slot.out.frame_pos (d ∷ []))
        × (l'.slot.out ≡ record l.slot.out { frame_pos = l.slot.out.frame_pos + 1 })
        × (l'.shared.out_seq ≡ (l.shared.out_seq + 1) % 256)
  unfolding accept_ipsc voice_run ipsc_burst ipsc_voice voice_frame finish_burst send_frames
      learn_metadata
  one_burst d l voice opened whole = ground arith

  -- Voice packets from IPSC that hold their AMBE field and come, past the guards, to an open
  -- call give one DMRD packet each, in order: the sequence bytes go on by one modulo 256, the
  -- positions go round the superframe of six, and each packet has the call's stream id, the
  -- AMBE frames and the EMBED field of its position.
  pub accept_all-voice_run :
      (ds : List Bytes) (l : Line)
      → is_voice burst_type ≡ true
      → l.slot.out.stream_id ≡ some sid
      → AllWhole ds
      → (accept_all ds l).sent
        ≡ l.sent ++ voice_run l.slot.out.emb_lc l.shared.out_seq l.slot.out.frame_pos ds
  unfolding accept_all voice_run
  accept_all-voice_run [] l voice opened whole = sym (append-nil l.sent)
  accept_all-voice_run (d ∷ ds) l voice opened (w, whole) =
      let l' = (accept_ipsc v d ts burst_type src dst l).0 in
      let (sent, out, seq) = one_burst d l voice opened w in
      let rest = accept_all-voice_run ds l' voice (ap OutCall.stream_id out ∙ opened) whole in
      rest
      ∙ rw (sent, out, seq)
          (append_assoc l.sent
            (voice_run l.slot.out.emb_lc l.shared.out_seq l.slot.out.frame_pos (d ∷ []))
            (voice_run l.slot.out.emb_lc ((l.shared.out_seq + 1) % 256) (l.slot.out.frame_pos + 1)
              ds))
