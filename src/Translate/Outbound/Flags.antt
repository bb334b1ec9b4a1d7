-- ===== src/Translate/Outbound/Flags.antt =====
-- The flags byte of a DMRD packet: what `ipsc_voice_received` writes, `hbp_voice_received` reads
-- (translate/translator.py).
use ipsc2hbp.Base.{ℕ, zero, suc, ◌<◌, ◌≡◌, refl, bit_or, true, false, arith, nat_eqb, nat_eq}
use ipsc2hbp.Hbp.Const.{
  hbpf_frametype_datasync, hbpf_frametype_voicesync, hbpf_slt_vhead, hbpf_slt_vterm,
}
use ipsc2hbp.Translate.State.{Timeslot, ts1, ts2}
use ipsc2hbp.Translate.Outbound.{slot_flags, voice_flags}
use ipsc2hbp.Translate.Inbound.{Dmrd, timeslot, is_head, is_term, frame_type, dtype}

-- A header's flags name its timeslot and mark a header.
pub head_flags :
    (d : Dmrd) (ts : Timeslot)
    → d.flags ≡ bit_or (slot_flags ts) (bit_or hbpf_frametype_datasync hbpf_slt_vhead)
    → (timeslot d ≡ ts) × (is_head d ≡ true) × (is_term d ≡ false)
head_flags d ts1 e = rw e (refl, refl, refl)
head_flags d ts2 e = rw e (refl, refl, refl)

pub term_flags :
    (d : Dmrd) (ts : Timeslot)
    → d.flags ≡ bit_or (slot_flags ts) (bit_or hbpf_frametype_datasync hbpf_slt_vterm)
    → (timeslot d ≡ ts) × (is_head d ≡ false) × (is_term d ≡ true)
term_flags d ts1 e = rw e (refl, refl, refl)
term_flags d ts2 e = rw e (refl, refl, refl)

-- A voice burst's flags name its timeslot and its position in the superframe: VOICESYNC at
-- position 0, and VOICE with the position itself as its data type behind it.
abbrev IsVoiceAt : Timeslot → ℕ → Dmrd → Type 0
IsVoiceAt ts pos d =
    (timeslot d ≡ ts)
    × (is_head d ≡ false)
    × (is_term d ≡ false)
    × (dtype d ≡ pos)
    × (nat_eqb (frame_type d) hbpf_frametype_voicesync ≡ nat_eqb pos 0)

-- The flags that a voice burst at a position below 6 of a timeslot gets are read back as that
-- timeslot, as neither a header nor a terminator, with the position as the data type, and as
-- VOICESYNC exactly at position 0.
pub voice_flags_lem :
    (d : Dmrd) (ts : Timeslot) (pos : ℕ)
    → pos < 6
    → d.flags ≡ bit_or (slot_flags ts) (voice_flags pos)
    → IsVoiceAt ts pos d
unfolding voice_flags
voice_flags_lem d ts1 zero h e = rw e (refl, refl, refl, refl, refl)
voice_flags_lem d ts1 (suc zero) h e = rw e (refl, refl, refl, refl, refl)
voice_flags_lem d ts1 (suc (suc zero)) h e = rw e (refl, refl, refl, refl, refl)
voice_flags_lem d ts1 (suc (suc (suc zero))) h e = rw e (refl, refl, refl, refl, refl)
voice_flags_lem d ts1 (suc (suc (suc (suc zero)))) h e = rw e (refl, refl, refl, refl, refl)
voice_flags_lem d ts1 (suc (suc (suc (suc (suc zero))))) h e = rw e (refl, refl, refl, refl, refl)
voice_flags_lem d ts1 (suc (suc (suc (suc (suc (suc n)))))) h e = absurd (omega arith)
voice_flags_lem d ts2 zero h e = rw e (refl, refl, refl, refl, refl)
voice_flags_lem d ts2 (suc zero) h e = rw e (refl, refl, refl, refl, refl)
voice_flags_lem d ts2 (suc (suc zero)) h e = rw e (refl, refl, refl, refl, refl)
voice_flags_lem d ts2 (suc (suc (suc zero))) h e = rw e (refl, refl, refl, refl, refl)
voice_flags_lem d ts2 (suc (suc (suc (suc zero)))) h e = rw e (refl, refl, refl, refl, refl)
voice_flags_lem d ts2 (suc (suc (suc (suc (suc zero))))) h e = rw e (refl, refl, refl, refl, refl)
voice_flags_lem d ts2 (suc (suc (suc (suc (suc (suc n)))))) h e = absurd (omega arith)
