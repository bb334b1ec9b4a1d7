-- ===== src/Translate/Lock/Rejection.antt =====
-- A rejected stream (translate/translator.py, `_call_lock_blocked_ipsc`, `_call_lock_blocked_hbp`)
-- stays rejected through its terminator, whoever holds the lock meanwhile.
use ipsc2hbp.Base.{
  ℕ, ◌+◌, ◌<◌, ◌≡◌, refl, ◌∙◌, ap, subst, inl, inr, Bool, true, false, Option, none, some, List, [],
  ◌∷◌, arith, if◌then◌else◌, ◌==◌, lookup, insert, remove, lookup-insert, lookup-remove,
  lookup-prune, lookup-insert_self, nat_eq, bytes_eq, ==_refl, Bool-cases, Option-cases,
  nat_eqb_iff, list_eqb_iff,
}
use ipsc2hbp.Dmr.{Bytes}
use ipsc2hbp.Config.{Config}
use ipsc2hbp.Translate.State.{Direction, CallLock, Slot}
use ipsc2hbp.Translate.Lock.{
  StreamKey, ipsc_stream, hbp_stream, block_for, prune_call_lock_blocks, acquire_call_lock,
  clear_call_lock, blocked_stream, remember_blocked, call_lock_blocks, arbitrate, drop_stale,
  still_blocked,
}
use ipsc2hbp.Translate.Lock.Arbitration.{blocked_until}

abbrev pub same_key : StreamKey → StreamKey → Bool
same_key (ipsc_stream (some a)) (ipsc_stream (some b)) = a == b
same_key (hbp_stream a) (hbp_stream b) = a == b
same_key _ _ = false

pruned :
    (now : ℕ) (key : StreamKey) (k : CallLock) (exp : ℕ)
    → blocked_until key k ≡ some exp
    → now < exp
    → blocked_until key (prune_call_lock_blocks now k) ≡ some exp
unfolding prune_call_lock_blocks
pruned now (ipsc_stream none) k exp h lt = cc
pruned now (ipsc_stream (some b)) k exp h lt = lookup-prune now b k.blocked_ipsc exp h lt
pruned now (hbp_stream b) k exp h lt = lookup-prune now b k.blocked_hbp exp h lt

blocked_stream_self :
    (expires : ℕ) (is_end : Bool) (key : StreamKey) (k : CallLock) (exp : ℕ)
    → blocked_until key k ≡ some exp
    → (k' : CallLock) × (blocked_stream expires is_end key k ≡ some k')
      × (blocked_until key k' ≡ (if is_end then none else some expires))
unfolding blocked_stream still_blocked
blocked_stream_self expires is_end (ipsc_stream none) k exp h = cc
blocked_stream_self expires is_end (ipsc_stream (some b)) k exp h = (
  record k {
    blocked_ipsc = if is_end then remove b k.blocked_ipsc else insert b expires k.blocked_ipsc;
  },
  ground arith,
  ground (
    arith,
    lookup-insert_self b expires k.blocked_ipsc,
    lookup-remove b b k.blocked_ipsc,
    ==_refl b,
  ),
)
blocked_stream_self expires is_end (hbp_stream b) k exp h = (
  record k {
    blocked_hbp = if is_end then remove b k.blocked_hbp else insert b expires k.blocked_hbp;
  },
  ground arith,
  ground (
    arith,
    lookup-insert_self b expires k.blocked_hbp,
    lookup-remove b b k.blocked_hbp,
    ==_refl b,
  ),
)

-- A packet of another stream leaves the entry of this one.
blocked_stream_other :
    (expires : ℕ) (is_end : Bool) (key other : StreamKey) (k k' : CallLock)
    → same_key other key ≡ false
    → blocked_stream expires is_end other k ≡ some k'
    → blocked_until key k' ≡ blocked_until key k
unfolding blocked_stream still_blocked
blocked_stream_other expires is_end key (ipsc_stream none) k k' d h = cc
blocked_stream_other expires is_end (ipsc_stream none) (ipsc_stream (some a)) k k' d h = refl
blocked_stream_other expires is_end (ipsc_stream (some b)) (ipsc_stream (some a)) k k' d h =
    ground (arith, lookup-insert a b expires k.blocked_ipsc, lookup-remove a b k.blocked_ipsc)
blocked_stream_other expires is_end (hbp_stream b) (ipsc_stream (some a)) k k' d h = ground arith
blocked_stream_other expires is_end (hbp_stream b) (hbp_stream a) k k' d h =
    ground (arith, lookup-insert a b expires k.blocked_hbp, lookup-remove a b k.blocked_hbp)
blocked_stream_other expires is_end (ipsc_stream none) (hbp_stream a) k k' d h = refl
blocked_stream_other expires is_end (ipsc_stream (some b)) (hbp_stream a) k k' d h = ground arith

remember_other :
    (expires : ℕ) (key other : StreamKey) (k : CallLock)
    → same_key other key ≡ false
    → blocked_until key (remember_blocked expires other k) ≡ blocked_until key k
unfolding remember_blocked
remember_other expires key (ipsc_stream none) k d = refl
remember_other expires (ipsc_stream none) (ipsc_stream (some a)) k d = refl
remember_other expires (ipsc_stream (some b)) (ipsc_stream (some a)) k d =
    ground (arith, lookup-insert a b expires k.blocked_ipsc)
remember_other expires (hbp_stream b) (ipsc_stream (some a)) k d = refl
remember_other expires (hbp_stream b) (hbp_stream a) k d =
    ground (arith, lookup-insert a b expires k.blocked_hbp)
remember_other expires (ipsc_stream none) (hbp_stream a) k d = refl
remember_other expires (ipsc_stream (some b)) (hbp_stream a) k d = refl

same_tables :
    (key : StreamKey) (k k' : CallLock)
    → k.blocked_ipsc ≡ k'.blocked_ipsc
    → k.blocked_hbp ≡ k'.blocked_hbp
    → blocked_until key k ≡ blocked_until key k'
same_tables (ipsc_stream none) k k' p q = refl
same_tables (ipsc_stream (some b)) k k' p q = ap (lookup b) p
same_tables (hbp_stream b) k k' p q = ap (lookup b) q

arbitrate_other :
    (cfg : Config) (now : ℕ) (key other : StreamKey) (src dst : Bytes) (o : Option Direction)
    (k : CallLock)
    → same_key other key ≡ false
    → blocked_until key (arbitrate cfg now other src dst o k).0 ≡ blocked_until key k
unfolding arbitrate acquire_call_lock
arbitrate_other cfg now key other src dst none k d =
    same_tables key _ k (ground arith) (ground arith)
arbitrate_other cfg now key other src dst (some owner) k d =
    ground (arith, remember_other (now + block_for cfg) key other k d)

drop_stale-tables :
    (now : ℕ) (s : Slot) (key : StreamKey) (k : CallLock)
    → blocked_until key (drop_stale now s k) ≡ blocked_until key k
unfolding drop_stale clear_call_lock
drop_stale-tables now s key k = same_tables key _ k (ground arith) (ground arith)

module _ (cfg : Config) (now : ℕ) (key : StreamKey) (src dst : Bytes) (is_end : Bool)
    (s : Slot) where
  -- With the call lock on, a packet of a stream whose rejection has not expired is dropped,
  -- whoever owns the slot; the rejection is prolonged by the block time, or ends if the packet
  -- is the terminator.
  pub call_lock_blocks_rejected :
      (exp : ℕ)
      → cfg.ipsc_call_lock ≡ true
      → blocked_until key s.lock ≡ some exp
      → now < exp
      → let (k, drop) = call_lock_blocks cfg now key src dst is_end s in
        (drop ≡ true)
        × (blocked_until key k ≡ (if is_end then none else some (now + block_for cfg)))
  unfolding call_lock_blocks
  call_lock_blocks_rejected exp on h lt =
      let k = prune_call_lock_blocks now s.lock in
      let (k', found, after) =
        blocked_stream_self (now + block_for cfg) is_end key k exp
          (pruned now key s.lock exp h lt) in
      (ground (arith, found), ground (arith, found, after))

  -- A packet of another stream leaves a rejection that has not expired.
  call_lock_blocks_other :
      (rejected : StreamKey) (exp : ℕ)
      → same_key key rejected ≡ false
      → blocked_until rejected s.lock ≡ some exp
      → now < exp
      → blocked_until rejected (call_lock_blocks cfg now key src dst is_end s).0 ≡ some exp
  unfolding call_lock_blocks
  call_lock_blocks_other rejected exp d h lt =
      let k = prune_call_lock_blocks now s.lock in
      let k' = drop_stale now s k in
      let p = pruned now rejected s.lock exp h lt in
      let r = arbitrate_other cfg now rejected key src dst k'.owner k' d in
      let t = drop_stale-tables now s rejected k in
      elim (Option-cases (blocked_stream (now + block_for cfg) is_end key k)) [
        | inl e ↦ ground (arith, r ∙ t ∙ p)
        | inr (k2, e) ↦
            ground (arith, blocked_stream_other (now + block_for cfg) is_end rejected key k k2 d e)
      ]

-- A packet at the lock of a slot, whose other parts are as they are then.
pub record Attempt : Type 0 where
  pub now : ℕ
  pub key : StreamKey
  pub src : Bytes
  pub dst : Bytes
  pub is_end : Bool
  pub slot : Slot

abbrev pub attempt : Config → Attempt → CallLock → CallLock × Bool
attempt cfg a k = call_lock_blocks cfg a.now a.key a.src a.dst a.is_end (record a.slot { lock = k })

abbrev pub When : Bool → Type 0 → Type 0 → Type 0
When true P Q = P
When false P Q = Q

module _ (P Q : Type 0) where
  when_true : (b : Bool) → b ≡ true → P → When b P Q
  when_true true e p = p
  when_true false e p = cc

  when_false : (b : Bool) → b ≡ false → Q → When b P Q
  when_false true e q = cc
  when_false false e q = q

  of_when_true : (b : Bool) → b ≡ true → When b P Q → P
  of_when_true true e w = w
  of_when_true false e w = cc

  of_when_false : (b : Bool) → b ≡ false → When b P Q → Q
  of_when_false true e w = cc
  of_when_false false e w = w

-- Each packet comes before the rejection of `key` expires, which the stream's own packets prolong.
abbrev pub InTime : Config → StreamKey → ℕ → List Attempt → Type 0
InTime cfg key exp [] = Unit
InTime cfg key exp (a ∷ more) =
    let own = InTime cfg key (a.now + block_for cfg) more in
    let other = InTime cfg key exp more in
    (a.now < exp) × When (same_key a.key key) (When a.is_end Unit own) other

-- All packets of the stream are dropped, up to and with its terminator.
abbrev pub AllDropped : Config → StreamKey → CallLock → List Attempt → Type 0
AllDropped cfg key k [] = Unit
AllDropped cfg key k (a ∷ more) =
    let (k', drop) = attempt cfg a k in
    let rest = AllDropped cfg key k' more in
    When (same_key a.key key) ((drop ≡ true) × When a.is_end Unit rest) rest

same_key-eq : (a b : StreamKey) → same_key a b ≡ true → a ≡ b
same_key-eq (ipsc_stream (some a)) (ipsc_stream (some b)) h = ground (arith, nat_eqb_iff a b)
same_key-eq (hbp_stream a) (hbp_stream b) h = ground (arith, list_eqb_iff a b)
same_key-eq (ipsc_stream none) b h = cc
same_key-eq (ipsc_stream (some a)) (ipsc_stream none) h = cc
same_key-eq (ipsc_stream (some a)) (hbp_stream b) h = cc
same_key-eq (hbp_stream a) (ipsc_stream b) h = cc

-- With the call lock on, once a stream is rejected, and as long as each packet at the slot
-- comes before the rejection expires (which the packets of the stream prolong), no packet of
-- the stream passes up to and with its terminator, however the packets of both directions
-- interleave and whatever the slot holds otherwise.
pub rejected_stream_dropped :
    (cfg : Config) (key : StreamKey) (exp : ℕ) (k : CallLock) (packets : List Attempt)
    → cfg.ipsc_call_lock ≡ true
    → blocked_until key k ≡ some exp
    → InTime cfg key exp packets
    → AllDropped cfg key k packets
rejected_stream_dropped cfg key exp k [] on h t = tt
rejected_stream_dropped cfg key exp k (a ∷ more) on h t = elim (Bool-cases (same_key a.key key)) [
  | inl own ↦
      let e = same_key-eq a.key key own in
      let (dropped, after) =
        call_lock_blocks_rejected cfg a.now a.key a.src a.dst a.is_end (record a.slot { lock = k })
          exp on (rw e h) t.0 in
      let k' = (attempt cfg a k).0 in
      when_true _ _ _ own (
        dropped,
        elim (Bool-cases a.is_end) [
          | inl end ↦ when_true _ _ _ end tt
          | inr going ↦ when_false _ _ _ going (
              rejected_stream_dropped cfg key (a.now + block_for cfg) k' more on
                (subst (λ x. blocked_until x k' ≡ some (a.now + block_for cfg)) e
                  (ground (arith, after)))
                (of_when_false _ _ _ going (of_when_true _ _ _ own t.1)))
        ],
      )
  | inr other ↦
      let kept =
        call_lock_blocks_other cfg a.now a.key a.src a.dst a.is_end (record a.slot { lock = k }) key
          exp other h t.0 in
      when_false _ _ _ other (
        rejected_stream_dropped cfg key exp (attempt cfg a k).0 more on kept
          (of_when_false _ _ _ other t.1))
]
