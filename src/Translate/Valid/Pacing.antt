-- ===== src/Translate/Valid/Pacing.antt =====
-- The pacing queue (translate/translator.py, `_ipsc_tx_*`): its length, and its timer.
use ipsc2hbp.Base.{
  ℕ, ◌+◌, ◌≤◌, ◌≡◌, refl, true, Option, none, some, List, [], ◌∷◌, ◌++◌, arith, is_some, nonempty,
  length, length-append,
}
use ipsc2hbp.Config.{Config}
use ipsc2hbp.Translate.State.{Queued, Pacer, Slot, Line, idle_pacer}
use ipsc2hbp.Translate.Lock.{hbp_ipsc_queue_drained}
use ipsc2hbp.Translate.Pacer.{
  queue_limit, due_at, schedule_hbp_to_ipsc_drain, send_hbp_to_ipsc_now, send_hbp_to_ipsc,
  after_drain, drain_hbp_to_ipsc_queue, drain_queue,
}

-- When the pending timer is due.
abbrev pub due_or : ℕ → Option ℕ → ℕ
due_or d none = d
due_or d (some due) = due

-- A timer is pending exactly while the queue holds something, the queue is bounded, and the timer
-- is due no more than a millisecond before the cooldown is over.
pub record PacerIsValid (cfg : Config) (p : Pacer) : Type 0 where
  pub timer : is_some p.tx_handle ≡ nonempty p.tx_queue
  pub bounded : length p.tx_queue ≤ queue_limit cfg
  pub paced : p.tx_next_at ≤ due_or p.tx_next_at p.tx_handle + 1000

module _ (cfg : Config) where
  pub idle_pacer-IsValid : PacerIsValid cfg idle_pacer
  idle_pacer-IsValid = ground arith

  drained-pacer : (now : ℕ) (s : Slot) → (hbp_ipsc_queue_drained cfg now s).pacer ≡ s.pacer
  unfolding hbp_ipsc_queue_drained
  drained-pacer now s = ground arith

  sent_now-pacer :
      (now : ℕ) (q : Queued) (l : Line)
      → (send_hbp_to_ipsc_now cfg now q l).slot.pacer ≡ l.slot.pacer
  unfolding send_hbp_to_ipsc_now
  sent_now-pacer now q l = ground arith

  nonempty-append : (xs : List Queued) (q : Queued) → nonempty (xs ++ q ∷ []) ≡ true
  nonempty-append [] q = refl
  nonempty-append (x ∷ xs) q = refl

  pub send_hbp_to_ipsc-IsValid :
      (now : ℕ) (q : Queued) (l : Line)
      → PacerIsValid cfg l.slot.pacer
      → PacerIsValid cfg (send_hbp_to_ipsc cfg now q l).slot.pacer
  unfolding send_hbp_to_ipsc schedule_hbp_to_ipsc_drain due_at
  send_hbp_to_ipsc-IsValid now q l h = ground (
    arith,
    sent_now-pacer now q l,
    nonempty-append l.slot.pacer.tx_queue q,
    length-append l.slot.pacer.tx_queue (q ∷ []),
  )

  after_drain-IsValid :
      (after : ℕ) (s : Slot)
      → s.pacer.tx_handle ≡ none
      → length s.pacer.tx_queue ≤ queue_limit cfg
      → PacerIsValid cfg (after_drain cfg after s).pacer
  unfolding after_drain schedule_hbp_to_ipsc_drain due_at
  after_drain-IsValid after s e b = ground (arith, drained-pacer after s)

  drain_queue-IsValid :
      (now after : ℕ) (qs : List Queued) (l : Line)
      → l.slot.pacer.tx_queue ≡ qs
      → l.slot.pacer.tx_handle ≡ none
      → length qs ≤ queue_limit cfg
      → PacerIsValid cfg (drain_queue cfg now after qs l).slot.pacer
  unfolding drain_queue
  drain_queue-IsValid now after [] l e n b = ground (arith, drained-pacer now l.slot)
  drain_queue-IsValid now after (q ∷ qs) l e n b =
      let popped = record l {
        slot = record l.slot { pacer = record l.slot.pacer { tx_queue = qs } };
      } in
      let p : (send_hbp_to_ipsc_now cfg now q popped).slot.pacer ≡ popped.slot.pacer =
        sent_now-pacer now q popped in
      after_drain-IsValid after _ (rw p n) (rw p (omega arith))

  pub drain_hbp_to_ipsc_queue-IsValid :
      (now after : ℕ) (l : Line)
      → PacerIsValid cfg l.slot.pacer
      → PacerIsValid cfg (drain_hbp_to_ipsc_queue cfg now after l).slot.pacer
  unfolding drain_hbp_to_ipsc_queue
  drain_hbp_to_ipsc_queue-IsValid now after l h =
      drain_queue-IsValid now after l.slot.pacer.tx_queue _ refl refl h.bounded
