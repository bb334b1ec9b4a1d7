-- ===== src/Translate/Lock/Arbitration.antt =====
-- Who may use a timeslot (translate/translator.py, `_call_lock_blocks`): the owner of the call
-- lock, and the other direction on other talkgroups at most.
use ipsc2hbp.Base.{
  ℕ, ◌+◌, ◌≡◌, ◌≢◌, refl, ◌∙◌, ◌⊎◌, inl, inr, Bool, true, false, Option, none, some, arith, is_some,
  lookup, lookup-insert_self, nat_eq, bytes_eq, ==_refl, Bool-cases,
}
use ipsc2hbp.Dmr.{Bytes}
use ipsc2hbp.Config.{Config}
use ipsc2hbp.Translate.State.{Direction, from_ipsc, from_hbp, CallLock, Slot}
use ipsc2hbp.Translate.Lock.{
  StreamKey, ipsc_stream, hbp_stream, direction, same_direction, same_tg, block_for,
  prune_call_lock_blocks, call_lock_is_active, acquire_call_lock, clear_call_lock, blocked_stream,
  remember_blocked, call_lock_blocks, arbitrate, drop_stale, still_blocked,
}

-- Until when the packets of a stream are rejected.
abbrev pub blocked_until : StreamKey → CallLock → Option ℕ
blocked_until (ipsc_stream none) k = none
blocked_until (ipsc_stream (some b)) k = lookup b k.blocked_ipsc
blocked_until (hbp_stream b) k = lookup b k.blocked_hbp

-- The stream is not rejected at `now`, whatever has expired.
abbrev pub Unblocked : ℕ → StreamKey → CallLock → Type 0
Unblocked now key k = blocked_until key (prune_call_lock_blocks now k) ≡ none

-- Whether a packet has a stream to remember: an IPSC packet may be too short to have one.
abbrev pub has_key : StreamKey → Bool
has_key (ipsc_stream o) = is_some o
has_key (hbp_stream _) = true

blocked_stream-none :
    (expires : ℕ) (is_end : Bool) (key : StreamKey) (k : CallLock)
    → blocked_until key k ≡ none
    → blocked_stream expires is_end key k ≡ none
unfolding blocked_stream still_blocked
blocked_stream-none expires is_end (ipsc_stream none) k h = refl
blocked_stream-none expires is_end (ipsc_stream (some b)) k h = ground arith
blocked_stream-none expires is_end (hbp_stream b) k h = ground arith

remember-blocked_until :
    (expires : ℕ) (key : StreamKey) (k : CallLock)
    → has_key key ≡ true
    → blocked_until key (remember_blocked expires key k) ≡ some expires
unfolding remember_blocked
remember-blocked_until expires (ipsc_stream none) k h = cc
remember-blocked_until expires (ipsc_stream (some b)) k h =
    lookup-insert_self b expires k.blocked_ipsc
remember-blocked_until expires (hbp_stream b) k h = lookup-insert_self b expires k.blocked_hbp

remember_blocked-owner :
    (expires : ℕ) (key : StreamKey) (k : CallLock)
    → ((remember_blocked expires key k).owner ≡ k.owner)
      × ((remember_blocked expires key k).tg ≡ k.tg)
unfolding remember_blocked
remember_blocked-owner expires (ipsc_stream none) k = (refl, refl)
remember_blocked-owner expires (ipsc_stream (some b)) k = (refl, refl)
remember_blocked-owner expires (hbp_stream b) k = (refl, refl)

-- The lock that an unblocked packet meets.
abbrev met_lock : ℕ → Slot → CallLock
met_lock now s = drop_stale now s (prune_call_lock_blocks now s.lock)

drop_stale-active :
    (now : ℕ) (s : Slot)
    → call_lock_is_active now s ≡ true
    → met_lock now s ≡ prune_call_lock_blocks now s.lock
unfolding drop_stale call_lock_is_active prune_call_lock_blocks
drop_stale-active now s h = ground arith

drop_stale-idle :
    (now : ℕ) (s : Slot) → call_lock_is_active now s ≡ false → (met_lock now s).owner ≡ none
unfolding drop_stale call_lock_is_active prune_call_lock_blocks clear_call_lock
drop_stale-idle now s h = ground arith

same_tg_refl : (dst : Bytes) (tg : Option Bytes) → same_tg tg dst ≡ false → tg ≢ some dst
same_tg_refl dst tg h = λ e. ground (arith, ==_refl dst)

-- What an admitted packet leaves as the owner and its talkgroup.
abbrev Admitted : Config → StreamKey → Bytes → CallLock → Type 0
Admitted cfg key dst k =
    (k.owner ≡ some (direction key))
    ⊎ ((cfg.ipsc_call_lock_same_tg_only ≡ true) × (k.tg ≢ some dst))

same_direction-eq : (d e : Direction) → same_direction d e ≡ true → d ≡ e
same_direction-eq from_ipsc from_ipsc h = refl
same_direction-eq from_hbp from_hbp h = refl
same_direction-eq from_ipsc from_hbp h = cc
same_direction-eq from_hbp from_ipsc h = cc

arbitrate_other :
    (cfg : Config) (now : ℕ) (key : StreamKey) (src dst : Bytes) (owner : Direction) (k : CallLock)
    → same_direction owner (direction key) ≡ false
    → (arbitrate cfg now key src dst (some owner) k).1 ≡ false
    → ((arbitrate cfg now key src dst (some owner) k).0 ≡ k)
      × (cfg.ipsc_call_lock_same_tg_only ≡ true)
      × (same_tg k.tg dst ≡ false)
unfolding arbitrate
arbitrate_other cfg now key src dst owner k other h = (ground arith, ground arith, ground arith)

arbitrate-admits :
    (cfg : Config) (now : ℕ) (key : StreamKey) (src dst : Bytes) (o : Option Direction)
    (k : CallLock)
    → k.owner ≡ o
    → cfg.ipsc_call_lock ≡ true
    → (arbitrate cfg now key src dst o k).1 ≡ false
    → Admitted cfg key dst (arbitrate cfg now key src dst o k).0
unfolding arbitrate acquire_call_lock
arbitrate-admits cfg now key src dst none k e on h = inl (ground arith)
arbitrate-admits cfg now key src dst (some owner) k e on h =
    elim (Bool-cases (same_direction owner (direction key))) [
      | inl same ↦ inl (ground (arith, same_direction-eq owner (direction key) same))
      | inr other ↦
          let (kept, only, tg) = arbitrate_other cfg now key src dst owner k other h in
          inr (only, rw kept (same_tg_refl dst k.tg tg))
    ]

module _ (cfg : Config) (now : ℕ) (key : StreamKey) (src dst : Bytes) (is_end : Bool)
    (s : Slot) where
  unblocked_lem :
      cfg.ipsc_call_lock ≡ true
      → Unblocked now key s.lock
      → call_lock_blocks cfg now key src dst is_end s
        ≡ arbitrate cfg now key src dst (met_lock now s).owner (met_lock now s)
  unfolding call_lock_blocks
  unblocked_lem on un = ground (
    arith,
    blocked_stream-none (now + block_for cfg) is_end key (prune_call_lock_blocks now s.lock),
  )

  opposite_blocked :
      (owner : Direction)
      → cfg.ipsc_call_lock ≡ true
      → s.lock.owner ≡ some owner
      → same_direction owner (direction key) ≡ false
      → call_lock_is_active now s ≡ true
      → (s.lock.tg ≡ some dst) ⊎ (cfg.ipsc_call_lock_same_tg_only ≡ false)
      → Unblocked now key s.lock
      → call_lock_blocks cfg now key src dst is_end s
        ≡ (remember_blocked (now + block_for cfg) key (prune_call_lock_blocks now s.lock), true)
  unfolding arbitrate prune_call_lock_blocks
  opposite_blocked owner on own opp act tg un =
      ground (arith, unblocked_lem on un, drop_stale-active now s act, ==_refl dst)

  -- With the call lock on, while an owner has the slot, a packet of the other direction whose
  -- stream is not rejected yet, on the owner's talkgroup (on any talkgroup, if the lock is not
  -- limited to it), is dropped; the owner and its talkgroup stay, and the stream is rejected
  -- for the block time.
  pub call_lock_blocks_opposite :
      (owner : Direction)
      → cfg.ipsc_call_lock ≡ true
      → s.lock.owner ≡ some owner
      → same_direction owner (direction key) ≡ false
      → call_lock_is_active now s ≡ true
      → (s.lock.tg ≡ some dst) ⊎ (cfg.ipsc_call_lock_same_tg_only ≡ false)
      → Unblocked now key s.lock
      → has_key key ≡ true
      → let (k, drop) = call_lock_blocks cfg now key src dst is_end s in
        (drop ≡ true)
        × (k.owner ≡ some owner)
        × (k.tg ≡ s.lock.tg)
        × (blocked_until key k ≡ some (now + block_for cfg))
  unfolding prune_call_lock_blocks
  call_lock_blocks_opposite owner on own opp act tg un has =
      let k = prune_call_lock_blocks now s.lock in
      let kept = remember_blocked-owner (now + block_for cfg) key k in
      rw (opposite_blocked owner on own opp act tg un)
        (refl, kept.0 ∙ own, kept.1, remember-blocked_until (now + block_for cfg) key k has)

  -- With the call lock on, a packet of an unrejected stream in the direction of the active
  -- owner passes, and the lock loses its expired rejections and nothing else.
  pub call_lock_blocks_owner :
      (owner : Direction)
      → cfg.ipsc_call_lock ≡ true
      → s.lock.owner ≡ some owner
      → same_direction owner (direction key) ≡ true
      → call_lock_is_active now s ≡ true
      → Unblocked now key s.lock
      → call_lock_blocks cfg now key src dst is_end s ≡ (prune_call_lock_blocks now s.lock, false)
  unfolding arbitrate prune_call_lock_blocks
  call_lock_blocks_owner owner on own same act un =
      ground (arith, unblocked_lem on un, drop_stale-active now s act)

  -- With the call lock on, once the owner has neither a call nor its hang time left, a packet
  -- of an unrejected stream passes and takes the slot for its direction and talkgroup.
  pub call_lock_blocks_free :
      cfg.ipsc_call_lock ≡ true
      → call_lock_is_active now s ≡ false
      → Unblocked now key s.lock
      → let (k, drop) = call_lock_blocks cfg now key src dst is_end s in
        (drop ≡ false) × (k.owner ≡ some (direction key)) × (k.tg ≡ some dst)
  unfolding arbitrate acquire_call_lock
  call_lock_blocks_free on idle un = ground (arith, unblocked_lem on un, drop_stale-idle now s idle)

  -- With the call lock on, a packet that passes belongs to the direction that owns the slot
  -- afterwards, or the lock is limited to its talkgroup and that is another one than the
  -- packet's.
  pub call_lock_blocks_admits :
      cfg.ipsc_call_lock ≡ true
      → (call_lock_blocks cfg now key src dst is_end s).1 ≡ false
      → let k = (call_lock_blocks cfg now key src dst is_end s).0 in
        (k.owner ≡ some (direction key))
        ⊎ ((cfg.ipsc_call_lock_same_tg_only ≡ true) × (k.tg ≢ some dst))
  unfolding call_lock_blocks
  call_lock_blocks_admits on pass =
      let k = met_lock now s in
      ground (arith, arbitrate-admits cfg now key src dst k.owner k refl on)
