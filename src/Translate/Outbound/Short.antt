-- ===== src/Translate/Outbound/Short.antt =====
-- translate/translator.py: when `ipsc_voice_received` raises an IndexError.
use ipsc2hbp.Base.{
  ℕ, zero, suc, ◌+◌, ◌≤◌, ◌↔◌, ◌≡◌, refl, Bool, true, false, ◌||◌, none, [], ◌∷◌, arith, nat_eqb,
  if◌then◌else◌, length, get_elem?, slice,
}
use ipsc2hbp.Dmr.{Bytes}
use ipsc2hbp.Ipsc.Const.{voice_head, voice_term, gv_ipsc_seq_off, gv_src_sub_off, gv_dst_group_off}
use ipsc2hbp.Translate.State.{Timeslot, OutCall, Slot, Line, Env, legacy_flow, set_slot}
use ipsc2hbp.Translate.Outbound.{
  Verdict, dropped, index_error, frame, start_frame, ipsc_head, ipsc_term, voice_frame, late_entry,
  ipsc_voice, ipsc_burst, Outcome, returned, raised_index_error, finish_burst, accept_ipsc,
  ipsc_guards, ipsc_voice_received,
}

-- A burst that raises: voice of fewer than 33 bytes where no call is up, in the packet flow that
-- looks for a late entry.
pub record TooShort (v : Env) (d : Bytes) (burst_type : ℕ) (o : OutCall) : Type 0 where
  pub voice : (nat_eqb burst_type voice_head || nat_eqb burst_type voice_term) ≡ false
  pub no_call : o.stream_id ≡ none
  pub translating : legacy_flow v.cfg ≡ false
  pub short : length d ≤ 32

-- `src_sub` and `dst_group`
abbrev pub source_of : Bytes → Bytes
source_of d = slice gv_src_sub_off (gv_src_sub_off + 3) d

abbrev pub group_of : Bytes → Bytes
group_of d = slice gv_dst_group_off (gv_dst_group_off + 3) d

past_end : (d : Bytes) (i : ℕ) → length d ≤ i → get_elem? d i ≡ none
past_end [] i h = refl
past_end (b ∷ d) zero h = absurd (omega arith)
past_end (b ∷ d) (suc i) h = past_end d i (omega arith)

within : (d : Bytes) (i : ℕ) → get_elem? d i ≡ none → length d ≤ i
within [] i h = omega arith
within (b ∷ d) zero h = cc
within (b ∷ d) (suc i) h = let r = within d i h in omega arith

module _ (v : Env) (d : Bytes) (ts : Timeslot) (burst_type : ℕ) (src dst : Bytes) where
  burst_raises :
      (o : OutCall)
      → (ipsc_burst v d burst_type src dst o).1 ≡ index_error
      → TooShort v d burst_type o
  unfolding ipsc_burst ipsc_head ipsc_term ipsc_voice start_frame voice_frame late_entry
  burst_raises o h = ground (arith, within d 32)

  burst_of_raises :
      (o : OutCall)
      → TooShort v d burst_type o
      → (ipsc_burst v d burst_type src dst o).1 ≡ index_error
  unfolding ipsc_burst ipsc_head ipsc_term ipsc_voice start_frame voice_frame late_entry
  burst_of_raises o h = let e = past_end d 32 h.short in ground arith

  finish_raises :
      (r : Verdict) (l : Line)
      → (finish_burst v ts burst_type src dst r l).1 ≡ raised_index_error
      → r ≡ index_error
  unfolding finish_burst
  finish_raises dropped l h = cc
  finish_raises index_error l h = refl
  finish_raises (frame sid flags payload) l h = cc

  -- What the guards leave, and whether the packet is dropped.
  abbrev pub guarded : Line → Slot × Bool
  guarded l = ipsc_guards v (get_elem? d gv_ipsc_seq_off) burst_type src dst l.slot

  accept_raises_iff :
      (l : Line)
      → ((accept_ipsc v d ts burst_type src dst l).1 ≡ raised_index_error)
        ↔ TooShort v d burst_type l.slot.out
  unfolding accept_ipsc
  accept_raises_iff l = (
    λ h.
        burst_raises l.slot.out
          (finish_raises (ipsc_burst v d burst_type src dst l.slot.out).1 _ h),
    λ r. rw (burst_of_raises l.slot.out r, finish_burst) refl,
  )

-- Only what passes the tests can raise.
past_tests :
    (up drop : Bool) (x y : Line) (r : Line × Outcome)
    → ((if up then if drop then (x, returned) else r else (y, returned)).1 ≡ raised_index_error)
      ↔ ((up ≡ true) × (drop ≡ false) × (r.1 ≡ raised_index_error))
past_tests true true x y r = (λ h. cc, λ h. let bad = h.1 in cc)
past_tests true false x y r = (λ h. (refl, refl, h), λ h. h.2)
past_tests false drop x y r = (λ h. cc, λ h. let bad = h.0 in cc)

-- The translator raises an IndexError on a packet from IPSC exactly if HBP is connected, the
-- guards let the packet pass, it is a voice burst of at most 32 bytes, no call is up on the
-- timeslot behind the guards, and the packet flow is not the legacy one.
pub raises_iff :
    (v : Env) (connected : Bool) (d : Bytes) (ts : Timeslot) (burst_type : ℕ) (l : Line)
    → ((ipsc_voice_received v connected d ts burst_type l).1 ≡ raised_index_error) ↔ (
        (connected ≡ true)
        × ((guarded v d ts burst_type (source_of d) (group_of d) l).1 ≡ false)
        × TooShort v d burst_type (guarded v d ts burst_type (source_of d) (group_of d) l).0.out)
unfolding ipsc_voice_received
raises_iff v connected d ts burst_type l =
    let g = guarded v d ts burst_type (source_of d) (group_of d) l in
    let m = set_slot g.0 l in
    let (to, of) = accept_raises_iff v d ts burst_type (source_of d) (group_of d) m in
    let (p, q) =
      past_tests connected g.1 m l (accept_ipsc v d ts burst_type (source_of d) (group_of d) m) in
    (λ h. let r = p h in (r.0, r.1, to r.2), λ h. q (h.0, h.1, of h.2))
