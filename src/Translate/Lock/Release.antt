-- ===== src/Translate/Lock/Release.antt =====
-- The hang time behind a call (translate/translator.py, `_release_call_lock`,
-- `_hbp_ipsc_queue_drained`): how long the lock outlasts its call.
use ipsc2hbp.Base.{
  ℕ, ◌+◌, ◌≡◌, refl, ◌∙◌, sym, inl, inr, Bool-cases, Bool, true, false, ◌||◌, none, some, [], ◌∷◌,
  arith, leb, nonempty,
}
use ipsc2hbp.Dmr.{Bytes}
use ipsc2hbp.Config.{Config}
use ipsc2hbp.Translate.State.{from_ipsc, from_hbp, Slot, Line, Queued}
use ipsc2hbp.Translate.Lock.{
  hang, call_lock_is_active, release_call_lock, hbp_ipsc_queue_drained, owned_by, hbp_stream,
  call_lock_blocks, prune_call_lock_blocks,
}
use ipsc2hbp.Translate.Lock.Arbitration.{
  Unblocked, call_lock_blocks_opposite, call_lock_blocks_free,
}
use ipsc2hbp.Translate.Outbound.{end_call}
use ipsc2hbp.Translate.Inbound.{end_hbp_call, reset_hbp_to_ipsc_state}
use ipsc2hbp.Translate.Pacer.{
  drain_hbp_to_ipsc_queue, drain_queue, after_drain, send_hbp_to_ipsc_now,
}

module _ (cfg : Config) (ended now : ℕ) (s : Slot) where
  -- The terminator of an IPSC call at `ended` keeps the slot for IPSC through the hang time, and
  -- no longer.
  pub end_call-is_active :
      cfg.ipsc_call_lock ≡ true
      → s.lock.owner ≡ some from_ipsc
      → call_lock_is_active now (end_call cfg ended s) ≡ leb now (ended + hang cfg)
  unfolding end_call release_call_lock call_lock_is_active owned_by
  end_call-is_active on own = ground arith

  -- An ended HBP call keeps the slot while its packets are still queued, and through the hang time.
  pub end_hbp_call-is_active :
      cfg.ipsc_call_lock ≡ true
      → s.lock.owner ≡ some from_hbp
      → call_lock_is_active now (end_hbp_call cfg ended s)
        ≡ (nonempty s.pacer.tx_queue || leb now (ended + hang cfg))
  unfolding end_hbp_call release_call_lock call_lock_is_active owned_by reset_hbp_to_ipsc_state
  end_hbp_call-is_active on own = ground arith

  -- With the call lock on and IPSC owning the slot on a talkgroup, once its call has ended, a
  -- packet of an unrejected HBP stream on that talkgroup is dropped exactly while the hang time
  -- behind the end runs.
  pub end_call-handover :
      (stream src tg : Bytes) (is_end : Bool)
      → cfg.ipsc_call_lock ≡ true
      → s.lock.owner ≡ some from_ipsc
      → s.lock.tg ≡ some tg
      → Unblocked now (hbp_stream stream) s.lock
      → (call_lock_blocks cfg now (hbp_stream stream) src tg is_end (end_call cfg ended s)).1
        ≡ leb now (ended + hang cfg)
  unfolding end_call release_call_lock owned_by prune_call_lock_blocks
  end_call-handover stream src tg is_end on own same un =
      let s' = end_call cfg ended s in
      let key = hbp_stream stream in
      let act = end_call-is_active on own in
      let un' : Unblocked now key s'.lock = ground arith in
      elim (Bool-cases (leb now (ended + hang cfg))) [
        | inl held ↦
            (call_lock_blocks_opposite cfg now key src tg is_end s' from_ipsc on (ground arith) refl
              (act ∙ held) (inl (ground arith)) un' refl).0
            ∙ sym held
        | inr over ↦
            (call_lock_blocks_free cfg now key src tg is_end s' on (act ∙ over) un').0 ∙ sym over
      ]

-- When the last queued packet of an ended HBP call that owns the slot has left, the slot is
-- held for the hang time from then on, and no longer.
pub drain_last-is_active :
    (cfg : Config) (started after now : ℕ) (q : Queued) (l : Line)
    → l.slot.lock.owner ≡ some from_hbp
    → l.slot.inc.lc ≡ none
    → l.slot.inc.started ≡ false
    → l.slot.pacer.tx_queue ≡ q ∷ []
    → call_lock_is_active now (drain_hbp_to_ipsc_queue cfg started after l).slot
      ≡ leb now (after + hang cfg)
unfolding drain_hbp_to_ipsc_queue after_drain send_hbp_to_ipsc_now hbp_ipsc_queue_drained
    call_lock_is_active owned_by
drain_last-is_active cfg started after now q l own none_lc idle one =
    rw (one, drain_queue) (ground arith)
