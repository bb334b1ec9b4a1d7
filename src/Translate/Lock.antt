-- ===== src/Translate/Lock.antt =====
-- translate/translator.py: the call-direction lock of a timeslot (`_call_lock_blocks`,
-- `_acquire_call_lock`, `_release_call_lock`, `_call_lock_is_active`, `_clear_call_lock`,
-- `_prune_call_lock_blocks`, `_hbp_ipsc_queue_drained`). The proofs are in the modules below.
pub mod Arbitration
pub mod Rejection
pub mod Release
use ipsc2hbp.Base.{
  ℕ, ◌+◌, ◌*◌, max, Bool, true, false, ◌&&◌, ◌||◌, Option, none, some, not, leb, is_some, nonempty,
  if◌then◌else◌, ◌==◌, bytes_eq, nat_eq, Key, Dict, contains, insert, remove, prune,
}
use ipsc2hbp.Dmr.{Bytes}
use ipsc2hbp.Config.{Config}
use ipsc2hbp.Translate.State.{Direction, from_ipsc, from_hbp, CallLock, Slot}

-- The stream that a packet belongs to, with its direction: byte 5 of an IPSC packet, where the
-- packet is that long, or the four stream bytes of a DMRD packet.
pub data StreamKey : Type 0 where
  ipsc_stream : Option ℕ → StreamKey
  hbp_stream : Bytes → StreamKey

abbrev pub direction : StreamKey → Direction
direction (ipsc_stream _) = from_ipsc
direction (hbp_stream _) = from_hbp

abbrev pub same_direction : Direction → Direction → Bool
same_direction from_ipsc from_ipsc = true
same_direction from_hbp from_hbp = true
same_direction _ _ = false

-- `max(0, hang_ms) / 1000.0` seconds.
abbrev pub hang : Config → ℕ
hang cfg = cfg.ipsc_call_lock_hang_ms * 1000

-- `max(0.5, hang_ms / 1000.0 + 1.0)` seconds.
abbrev pub block_for : Config → ℕ
block_for cfg = max 500000 (cfg.ipsc_call_lock_hang_ms * 1000 + 1000000)

unfoldable pub clear_call_lock : CallLock → CallLock
clear_call_lock k = record k { owner = none; src = none; tg = none; until = 0 }

unfoldable pub prune_call_lock_blocks : ℕ → CallLock → CallLock
prune_call_lock_blocks now k = record k {
  blocked_ipsc = prune now k.blocked_ipsc;
  blocked_hbp = prune now k.blocked_hbp;
}

abbrev pub out_active : Slot → Bool
out_active s = is_some s.out.stream_id

abbrev pub in_active : Slot → Bool
in_active s = is_some s.inc.lc || (s.inc.started || nonempty s.pacer.tx_queue)

-- Whether the owner still has a call, or hangs on after one.
unfoldable pub call_lock_is_active : ℕ → Slot → Bool
call_lock_is_active now s = elim s.lock.owner [
  | none ↦ false
  | some from_ipsc ↦ out_active s || leb now s.lock.until
  | some from_hbp ↦ in_active s || leb now s.lock.until
]

unfoldable pub acquire_call_lock : Config → Direction → Bytes → Bytes → CallLock → CallLock
acquire_call_lock cfg d src dst k =
    if cfg.ipsc_call_lock
    then record k { owner = some d; src = some src; tg = some dst; until = 0 }
    else k

owned_by : Direction → Option Direction → Bool
owned_by d none = false
owned_by d (some o) = same_direction o d

unfoldable pub release_call_lock : Config → ℕ → Direction → CallLock → CallLock
unfolding owned_by
release_call_lock cfg now d k =
    if cfg.ipsc_call_lock && owned_by d k.owner then record k { until = now + hang cfg } else k

unfoldable pub hbp_ipsc_queue_drained : Config → ℕ → Slot → Slot
unfolding owned_by
hbp_ipsc_queue_drained cfg now s =
    if owned_by from_hbp s.lock.owner && not (is_some s.inc.lc)
    then record s { lock = record s.lock { until = now + hang cfg } }
    else s

-- A stream that was rejected stays rejected through its terminator: `none` if it was not.
module _ {K : Type 0} ⦃e : Key K⦄ where
  unfoldable pub still_blocked : ℕ → Bool → K → Dict K ℕ → Option (Dict K ℕ)
  still_blocked expires is_end key blocked =
      if contains key blocked
      then some (if is_end then remove key blocked else insert key expires blocked)
      else none

unfoldable pub blocked_stream : ℕ → Bool → StreamKey → CallLock → Option CallLock
unfolding still_blocked
blocked_stream expires is_end (ipsc_stream none) k = none
blocked_stream expires is_end (ipsc_stream (some key)) k =
    elim (still_blocked expires is_end key k.blocked_ipsc) [
      | none ↦ none
      | some d ↦ some (record k { blocked_ipsc = d })
    ]
blocked_stream expires is_end (hbp_stream key) k =
    elim (still_blocked expires is_end key k.blocked_hbp) [
      | none ↦ none
      | some d ↦ some (record k { blocked_hbp = d })
    ]

unfoldable pub remember_blocked : ℕ → StreamKey → CallLock → CallLock
remember_blocked expires (ipsc_stream none) k = k
remember_blocked expires (ipsc_stream (some key)) k = record k {
  blocked_ipsc = insert key expires k.blocked_ipsc;
}
remember_blocked expires (hbp_stream key) k = record k {
  blocked_hbp = insert key expires k.blocked_hbp;
}

-- `owner_tg == dst_group`
abbrev pub same_tg : Option Bytes → Bytes → Bool
same_tg none dst = false
same_tg (some tg) dst = tg == dst

-- The last part of `_call_lock_blocks`, for the owner that is left.
unfoldable pub arbitrate :
    Config → ℕ → StreamKey → Bytes → Bytes → Option Direction → CallLock → CallLock × Bool
arbitrate cfg now key src dst none k = (acquire_call_lock cfg (direction key) src dst k, false)
arbitrate cfg now key src dst (some owner) k =
    if same_direction owner (direction key)
      || (cfg.ipsc_call_lock_same_tg_only && not (same_tg k.tg dst))
    then (k, false)
    else (remember_blocked (now + block_for cfg) key k, true)

-- An owner with no call left loses the lock.
unfoldable pub drop_stale : ℕ → Slot → CallLock → CallLock
drop_stale now s k =
    if is_some k.owner && not (call_lock_is_active now (record s { lock = k }))
    then clear_call_lock k
    else k

-- `_call_lock_blocks`: the new lock, and whether the packet is dropped. (`is_start` goes into the
-- log only.)
unfoldable pub call_lock_blocks :
    Config → ℕ → StreamKey → Bytes → Bytes → Bool → Slot → CallLock × Bool
unfolding arbitrate drop_stale
call_lock_blocks cfg now key src dst is_end s =
    let k = prune_call_lock_blocks now s.lock in
    let k' = drop_stale now s k in
    if cfg.ipsc_call_lock
    then elim (blocked_stream (now + block_for cfg) is_end key k) [
      | some blocked ↦ (blocked, true)
      | none ↦ arbitrate cfg now key src dst k'.owner k'
    ]
    else (s.lock, false)
