-- ===== src/Translate/Callbacks/Timeouts.antt =====
-- Calls that fall silent (translate/translator.py, `check_call_timeouts`).
use ipsc2hbp.Base.{◌||◌, false, none, if◌then◌else◌, ℕ, ◌-◌, ◌≡◌, arith, is_some, Bool, ◌&&◌, ltb}
use ipsc2hbp.Config.{Config}
use ipsc2hbp.Translate.State.{Slot, OutCall, InCall, CallLock, from_ipsc, from_hbp, Translator}
use ipsc2hbp.Translate.Lock.{release_call_lock}
use ipsc2hbp.Translate.Outbound.{close_call}
use ipsc2hbp.Translate.Inbound.{reset_hbp_to_ipsc_state, end_hbp_call}
use ipsc2hbp.Translate.Callbacks.{check_out_timeout, check_in_timeout, check_call_timeouts}

-- A call of the slot has been silent for longer than the timeout.
abbrev pub is_stale : ℕ → ℕ → Slot → Bool
is_stale now timeout s =
    (is_some s.out.stream_id && ltb timeout (now - s.out.last_pkt))
    || (is_some s.inc.lc && ltb timeout (now - s.inc.last_pkt))

module _ (cfg : Config) (now timeout : ℕ) where
  abbrev check : Slot → Slot
  check s = check_in_timeout cfg now timeout (check_out_timeout cfg now timeout s)

  check-is_stale : (s : Slot) → is_stale now timeout (check s) ≡ false
  unfolding check_in_timeout check_out_timeout close_call end_hbp_call reset_hbp_to_ipsc_state
  check-is_stale s = ground arith

  fresh_stays : (s : Slot) → is_stale now timeout s ≡ false → check s ≡ s
  unfolding check_in_timeout check_out_timeout
  fresh_stays s h = ground arith

  -- A call that is silent for longer than the timeout.
  abbrev pub out_is_stale : OutCall → Bool
  out_is_stale o = is_some o.stream_id && ltb timeout (now - o.last_pkt)

  abbrev pub in_is_stale : InCall → Bool
  in_is_stale i = is_some i.lc && ltb timeout (now - i.last_pkt)

  -- What a round leaves of a call: one that is not silent stays as it is.
  abbrev pub out_left : OutCall → OutCall
  out_left o = if out_is_stale o then record o { stream_id = none; lc = none; emb_lc = none } else o

  abbrev pub in_left : InCall → InCall
  in_left i =
      if in_is_stale i
      then record i {
        lc = none;
        emb_lc = none;
        hbp_stream = none;
        src_sub = none;
        dst_group = none;
        last_head = 0;
        started = false;
      }
      else i

  -- The lock is released for a call that ends, and only for it.
  abbrev pub lock_left : Slot → CallLock
  lock_left s =
      let l = if out_is_stale s.out then release_call_lock cfg now from_ipsc s.lock else s.lock in
      if in_is_stale s.inc then release_call_lock cfg now from_hbp l else l

  -- What a round makes of a slot: its calls and their lock; the rest stays.
  abbrev pub Rounded : Slot → Slot → Type 0
  Rounded s s' =
      (s'.out ≡ out_left s.out)
      × (s'.inc ≡ in_left s.inc)
      × (s'.lock ≡ lock_left s)
      × (is_stale now timeout s' ≡ false)
      × (s'.pacer ≡ s.pacer)
      × (s'.reflect ≡ s.reflect)

  check-out : (s : Slot) → (check s).out ≡ out_left s.out
  unfolding check_in_timeout check_out_timeout close_call end_hbp_call reset_hbp_to_ipsc_state
  check-out s = ground arith

  check-inc : (s : Slot) → (check s).inc ≡ in_left s.inc
  unfolding check_in_timeout check_out_timeout close_call end_hbp_call reset_hbp_to_ipsc_state
  check-inc s = ground arith

  check-Rounded : (s : Slot) → Rounded s (check s)
  unfolding check_in_timeout check_out_timeout close_call end_hbp_call reset_hbp_to_ipsc_state
  check-Rounded s =
      (check-out s, check-inc s, ground arith, check-is_stale s, ground arith, ground arith)

  -- A round of the call watchdog ends exactly the calls that have been silent for longer than
  -- the timeout, on either timeslot and in either direction: the state of such a call is reset
  -- and its lock released, every other call stays as it is with its lock, and the queue and the
  -- reflected calls stay. Afterwards no call is left that has been silent for longer, and a
  -- second round at the same time changes nothing more.
  pub check_call_timeouts_lem :
      (t : Translator)
      → let t' = check_call_timeouts cfg now timeout t in
        Rounded t.slot1 t'.slot1
        × Rounded t.slot2 t'.slot2
        × (check_call_timeouts cfg now timeout t' ≡ t')
  unfolding check_call_timeouts
  check_call_timeouts_lem t = (
    check-Rounded t.slot1,
    check-Rounded t.slot2,
    λ i. record t {
      slot1 = fresh_stays (check t.slot1) (check-is_stale t.slot1) i;
      slot2 = fresh_stays (check t.slot2) (check-is_stale t.slot2) i;
    },
  )
