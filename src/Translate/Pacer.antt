-- ===== src/Translate/Pacer.antt =====
-- translate/translator.py: the paced queue from HBP to IPSC (`_send_hbp_to_ipsc`,
-- `_schedule_hbp_to_ipsc_drain`, `_drain_hbp_to_ipsc_queue`, `_send_hbp_to_ipsc_now`,
-- `_is_ipsc_slot_busy`, `_clear_ipsc_tx_queues`). The proofs are in the modules below.
pub mod Fifo
use ipsc2hbp.Base.{
  ℕ, ◌+◌, ◌-◌, ◌*◌, max, Bool, true, false, ◌&&◌, Option, none, some, List, [], ◌∷◌, ◌++◌, not, ltb,
  leb, nat_eqb, is_some, nonempty, if◌then◌else◌, length,
}
use ipsc2hbp.Dmr.{Bytes}
use ipsc2hbp.Config.{Config}
use ipsc2hbp.Translate.State.{
  Queued, Pacer, Slot, Line, Env, send_to_peer, emit, map_slot, idle_pacer,
}
use ipsc2hbp.Translate.Lock.{hbp_ipsc_queue_drained}
use ipsc2hbp.Translate.Reflect.{remember_hbp_to_ipsc}

-- `_is_ipsc_slot_busy`
unfoldable pub is_ipsc_slot_busy : Config → ℕ → Slot → Bool
is_ipsc_slot_busy cfg now s =
    let holdoff = cfg.ipsc_busy_holdoff_ms * 1000 in
    cfg.ipsc_busy_slot_guard && (not (nat_eqb holdoff 0) && ltb (now - s.busy_last) holdoff)

-- `_send_hbp_to_ipsc_now`
unfoldable pub send_hbp_to_ipsc_now : Config → ℕ → Queued → Line → Line
send_hbp_to_ipsc_now cfg now q l =
    if is_ipsc_slot_busy cfg now l.slot
    then l
    else map_slot
        (λ s. record s { reflect = remember_hbp_to_ipsc cfg now q.src_sub q.dst_group s.reflect })
        (emit (send_to_peer q.packet) l)

-- When a timer that is set now is due: at once, or when the cooldown is over.
unfoldable pub due_at : ℕ → ℕ → ℕ
due_at now next_at = let delay = next_at - now in if leb delay 1000 then now else now + delay

-- `_schedule_hbp_to_ipsc_drain`
unfoldable pub schedule_hbp_to_ipsc_drain : Config → ℕ → Slot → Slot
schedule_hbp_to_ipsc_drain cfg now s =
    if is_some s.pacer.tx_handle
    then s
    else if nonempty s.pacer.tx_queue
    then record s { pacer = record s.pacer { tx_handle = some (due_at now s.pacer.tx_next_at) } }
    else hbp_ipsc_queue_drained cfg now s

abbrev pub queue_limit : Config → ℕ
queue_limit cfg = max 10 cfg.hbp_to_ipsc_queue_limit

abbrev pub enqueue : Queued → Slot → Slot
enqueue q s = record s { pacer = record s.pacer { tx_queue = s.pacer.tx_queue ++ q ∷ [] } }

-- `_send_hbp_to_ipsc`
unfoldable pub send_hbp_to_ipsc : Config → ℕ → Queued → Line → Line
send_hbp_to_ipsc cfg now q l =
    if cfg.hbp_to_ipsc_pacing
    then if leb (queue_limit cfg) (length l.slot.pacer.tx_queue)
      then l
      else map_slot (λ s. schedule_hbp_to_ipsc_drain cfg now (enqueue q s)) l
    else send_hbp_to_ipsc_now cfg now q l

-- `max(0.010, interval_ms / 1000.0)` seconds.
abbrev pub interval : Config → ℕ
interval cfg = max 10000 (cfg.hbp_to_ipsc_frame_interval_ms * 1000)

-- `if q: … else: …` at the end of `_drain_hbp_to_ipsc_queue`
unfoldable pub after_drain : Config → ℕ → Slot → Slot
after_drain cfg after s =
    if nonempty s.pacer.tx_queue
    then schedule_hbp_to_ipsc_drain cfg after s
    else hbp_ipsc_queue_drained cfg after s

unfoldable pub drain_queue : Config → ℕ → ℕ → List Queued → Line → Line
drain_queue cfg now after [] l = map_slot (hbp_ipsc_queue_drained cfg now) l
drain_queue cfg now after (q ∷ qs) l =
    let popped = map_slot (λ s. record s { pacer = record s.pacer { tx_queue = qs } }) l in
    let sent = send_hbp_to_ipsc_now cfg now q popped in
    map_slot
      (λ s.
        after_drain cfg after
          (record s { pacer = record s.pacer { tx_next_at = after + interval cfg } }))
      sent

-- `_drain_hbp_to_ipsc_queue`, started at `now`; the packet has left at `after`.
unfoldable pub drain_hbp_to_ipsc_queue : Config → ℕ → ℕ → Line → Line
unfolding drain_queue after_drain
drain_hbp_to_ipsc_queue cfg now after l =
    drain_queue cfg now after l.slot.pacer.tx_queue
      (map_slot (λ s. record s { pacer = record s.pacer { tx_handle = none } }) l)

-- `_clear_ipsc_tx_queues`, at one timeslot: a pending timer is cancelled.
abbrev pub clear_ipsc_tx_queue : Slot → Slot
clear_ipsc_tx_queue s = record s { pacer = idle_pacer }
