-- ===== src/Translate/Pacer/Fifo.antt =====
-- The pacing queue (translate/translator.py) as the queue that it is meant to be: what is offered
-- leaves once, in order, and at the configured distance.
use ipsc2hbp.Base.{
  ℕ, ◌+◌, ◌≤◌, ◌≡◌, refl, sym, ap, true, false, none, some, List, [], ◌∷◌, ◌++◌, arith, leb,
  if◌then◌else◌, length, append-nil, append_assoc,
}
use ipsc2hbp.Config.{Config}
use ipsc2hbp.Translate.State.{Queued, Line, Action, send_to_peer}
use ipsc2hbp.Translate.Lock.{hbp_ipsc_queue_drained}
use ipsc2hbp.Translate.Pacer.{
  is_ipsc_slot_busy, send_hbp_to_ipsc_now, schedule_hbp_to_ipsc_drain, queue_limit,
  send_hbp_to_ipsc, interval, after_drain, due_at, drain_queue, drain_hbp_to_ipsc_queue,
}

-- A packet is offered to the queue, or its timer fires.
pub data PacerEvent : Type 0 where
  offered : ℕ → Queued → PacerEvent
  due : ℕ → ℕ → PacerEvent

abbrev pub to_send : List Queued → List Action
to_send [] = []
to_send (q ∷ qs) = send_to_peer q.packet ∷ to_send qs

to_send-append : (xs ys : List Queued) → to_send (xs ++ ys) ≡ to_send xs ++ to_send ys
to_send-append [] ys = refl
to_send-append (x ∷ xs) ys = ap (◌∷◌ (send_to_peer x.packet)) (to_send-append xs ys)

-- What has been sent, and then what is queued.
abbrev pub pending : Line → List Action
pending l = l.sent ++ to_send l.slot.pacer.tx_queue

module _ (cfg : Config) where
  unfoldable pub pace : PacerEvent → Line → Line
  pace (offered now q) l = send_hbp_to_ipsc cfg now q l
  pace (due now after) l = drain_hbp_to_ipsc_queue cfg now after l

  pub pace_all : List PacerEvent → Line → Line
  pace_all [] l = l
  pace_all (e ∷ es) l = pace_all es (pace e l)

  -- The packets that are offered while the queue has room.
  pub taken : List PacerEvent → Line → List Queued
  taken [] l = []
  taken (offered now q ∷ es) l =
      let rest = taken es (pace (offered now q) l) in
      if leb (queue_limit cfg) (length l.slot.pacer.tx_queue) then rest else q ∷ rest
  taken (due now after ∷ es) l = taken es (pace (due now after) l)

  module _ (paced : cfg.hbp_to_ipsc_pacing ≡ true)
      (unguarded : cfg.ipsc_busy_slot_guard ≡ false) where
    offered-pending :
        (now : ℕ) (q : Queued) (l : Line)
        → pending (send_hbp_to_ipsc cfg now q l)
          ≡ pending l
            ++ (if leb (queue_limit cfg) (length l.slot.pacer.tx_queue)
                then []
                else send_to_peer q.packet ∷ [])
    unfolding send_hbp_to_ipsc schedule_hbp_to_ipsc_drain hbp_ipsc_queue_drained
    offered-pending now q l = ground (
      arith,
      append-nil (pending l),
      append_assoc l.sent (to_send l.slot.pacer.tx_queue) (send_to_peer q.packet ∷ []),
      to_send-append l.slot.pacer.tx_queue (q ∷ []),
    )

    drain_queue-pending :
        (now after : ℕ) (qs : List Queued) (l : Line)
        → l.slot.pacer.tx_queue ≡ qs
        → pending (drain_queue cfg now after qs l) ≡ pending l
    unfolding drain_queue after_drain send_hbp_to_ipsc_now is_ipsc_slot_busy
        schedule_hbp_to_ipsc_drain hbp_ipsc_queue_drained
    drain_queue-pending now after [] l e = ground arith
    drain_queue-pending now after (q ∷ qs) l e =
        ground (arith, append_assoc l.sent (send_to_peer q.packet ∷ []) (to_send qs))

    -- With pacing on and the busy guard off, whatever packets are offered and whenever the
    -- timer fires, the packets sent followed by those still queued are the ones there were
    -- before followed by those offered while the queue had room, each once and in order.
    pub pace_all-fifo :
        (es : List PacerEvent) (l : Line)
        → pending (pace_all es l) ≡ pending l ++ to_send (taken es l)
    unfolding pace_all taken pace drain_hbp_to_ipsc_queue
    pace_all-fifo [] l = sym (append-nil (pending l))
    pace_all-fifo (offered now q ∷ es) l =
        let l' = send_hbp_to_ipsc cfg now q l in
        ground (
          arith,
          pace_all-fifo es l',
          offered-pending now q l,
          append_assoc (pending l) (send_to_peer q.packet ∷ []) (to_send (taken es l')),
          append-nil (pending l),
        )
    pace_all-fifo (due now after ∷ es) l =
        let l0 = record l {
          slot = record l.slot { pacer = record l.slot.pacer { tx_handle = none } };
        } in
        let same = drain_queue-pending now after l.slot.pacer.tx_queue l0 refl in
        ground (arith, pace_all-fifo es (drain_hbp_to_ipsc_queue cfg now after l), same)

  -- Packets offered one after the other.
  unfoldable pub offer_all : List (ℕ × Queued) → Line → Line
  offer_all [] l = l
  offer_all ((now, q) ∷ qs) l = offer_all qs (send_hbp_to_ipsc cfg now q l)

  -- The timer that is pending was set behind the cooldown, or within a millisecond of it.
  abbrev IsSpaced : ℕ → Line → Type 0
  IsSpaced free l =
      (l.slot.pacer.tx_next_at ≡ free)
      × ((d : ℕ) → l.slot.pacer.tx_handle ≡ some d → free ≤ d + 1000)

  send-IsSpaced :
      (free now : ℕ) (q : Queued) (l : Line)
      → cfg.hbp_to_ipsc_pacing ≡ true
      → IsSpaced free l
      → IsSpaced free (send_hbp_to_ipsc cfg now q l)
  unfolding send_hbp_to_ipsc schedule_hbp_to_ipsc_drain due_at hbp_ipsc_queue_drained
  send-IsSpaced free now q l on h = (ground arith, λ d e. ground (arith, h.1 d))

  offer_all-IsSpaced :
      (free : ℕ) (qs : List (ℕ × Queued)) (l : Line)
      → cfg.hbp_to_ipsc_pacing ≡ true
      → IsSpaced free l
      → IsSpaced free (offer_all qs l)
  unfolding offer_all
  offer_all-IsSpaced free [] l on h = h
  offer_all-IsSpaced free ((now, q) ∷ qs) l on h =
      offer_all-IsSpaced free qs (send_hbp_to_ipsc cfg now q l) on (send-IsSpaced free now q l on h)

  drain-IsSpaced :
      (now after : ℕ) (q : Queued) (qs : List Queued) (l : Line)
      → l.slot.pacer.tx_handle ≡ none
      → IsSpaced (after + interval cfg) (drain_queue cfg now after (q ∷ qs) l)
  unfolding drain_queue after_drain send_hbp_to_ipsc_now schedule_hbp_to_ipsc_drain due_at
      hbp_ipsc_queue_drained
  drain-IsSpaced now after q qs l e = (ground arith, λ d h. ground arith)

  -- With pacing on, when a packet has left the queue at a time, a timer that is pending after
  -- any further offers is due at that time plus the frame interval at the earliest, less the
  -- tolerance of a millisecond.
  pub drain-spacing :
      (now after d : ℕ) (q : Queued) (rest : List Queued) (offers : List (ℕ × Queued)) (l : Line)
      → cfg.hbp_to_ipsc_pacing ≡ true
      → l.slot.pacer.tx_queue ≡ q ∷ rest
      → (offer_all offers (drain_hbp_to_ipsc_queue cfg now after l)).slot.pacer.tx_handle ≡ some d
      → after + interval cfg ≤ d + 1000
  unfolding drain_hbp_to_ipsc_queue
  drain-spacing now after d q rest offers l on e h =
      let l0 = record l {
        slot = record l.slot { pacer = record l.slot.pacer { tx_handle = none } };
      } in
      let spaced : IsSpaced (after + interval cfg)
          (drain_queue cfg now after l.slot.pacer.tx_queue l0) =
        rw e (drain-IsSpaced now after q rest l0 refl) in
      (offer_all-IsSpaced (after + interval cfg) offers _ on spaced).1 d h
