-- ===== src/Tests/Locks.antt =====
-- The call lock on concrete slots.
use ipsc2hbp.Base.{
  ◌+◌, ◌≡◌, ◌≢◌, refl, ◌⊎◌, inl, true, false, ◌||◌, some, List, [], ◌∷◌, nonempty, leb, arith,
  lookup, prune, list_eqb,
}
use ipsc2hbp.Dmr.{Bytes}
use ipsc2hbp.Translate.State.{
  from_ipsc, from_hbp, Slot, Line, init, init_slot, idle_lock, idle_pacer,
}
use ipsc2hbp.Translate.Lock.{
  ipsc_stream, hbp_stream, block_for, hang, call_lock_is_active, call_lock_blocks,
  prune_call_lock_blocks, blocked_stream, still_blocked, drop_stale, arbitrate, acquire_call_lock,
}
use ipsc2hbp.Translate.Lock.Arbitration.{
  blocked_until, call_lock_blocks_opposite, call_lock_blocks_admits,
}
use ipsc2hbp.Translate.Lock.Rejection.{rejected_stream_dropped, Attempt, AllDropped}
use ipsc2hbp.Translate.Lock.Release.{end_call-is_active, end_hbp_call-is_active, end_call-handover}
use ipsc2hbp.Translate.Outbound.{end_call}
use ipsc2hbp.Translate.Inbound.{end_hbp_call}
use ipsc2hbp.Tests.{test_config}

abbrev tg9 : Bytes
tg9 = 0 ∷ 0 ∷ 9 ∷ []

abbrev radio : Bytes
radio = 0 ∷ 0 ∷ 5 ∷ []

abbrev sid : Bytes
sid = 1 ∷ 2 ∷ 3 ∷ 4 ∷ []

-- IPSC owns the slot until five seconds.
abbrev ipsc_slot : Slot
ipsc_slot = record init_slot {
  lock = record idle_lock {
    owner = some from_ipsc;
    src = some radio;
    tg = some tg9;
    until = 5000000;
  };
}

abbrev hbp_slot : Slot
hbp_slot = record init_slot {
  lock = record idle_lock {
    owner = some from_hbp;
    src = some radio;
    tg = some tg9;
    until = 5000000;
  };
}

call_lock_blocks_opposite_example :
    let (k, drop) =
      call_lock_blocks test_config 4000000 (hbp_stream sid) radio tg9 false ipsc_slot in
    (drop ≡ true)
    × (k.owner ≡ some from_ipsc)
    × (k.tg ≡ some tg9)
    × (blocked_until (hbp_stream sid) k ≡ some (4000000 + block_for test_config))
unfolding call_lock_is_active prune_call_lock_blocks lookup prune
call_lock_blocks_opposite_example =
    call_lock_blocks_opposite test_config 4000000 (hbp_stream sid) radio tg9 false ipsc_slot
      from_ipsc refl refl refl refl (inl refl) refl refl

-- A packet on another talkgroup passes while IPSC owns the slot.
abbrev tg8 : Bytes
tg8 = 0 ∷ 0 ∷ 8 ∷ []

call_lock_blocks_admits_example :
    let k = (call_lock_blocks test_config 4000000 (hbp_stream sid) radio tg8 false ipsc_slot).0 in
    (k.owner ≡ some from_hbp) ⊎ ((true ≡ true) × (k.tg ≢ some tg8))
unfolding call_lock_blocks call_lock_is_active prune_call_lock_blocks lookup prune blocked_stream
    still_blocked drop_stale arbitrate list_eqb acquire_call_lock
call_lock_blocks_admits_example =
    call_lock_blocks_admits test_config 4000000 (hbp_stream sid) radio tg8 false ipsc_slot refl refl

abbrev rejecting : Slot
rejecting = record ipsc_slot { lock = record ipsc_slot.lock { blocked_hbp = (sid, 7000000) ∷ [] } }

abbrev packets : List Attempt
packets =
    record {
      now = 6000000;
      key = hbp_stream sid;
      src = radio;
      dst = tg9;
      is_end = false;
      slot = ipsc_slot;
    }
    ∷ record {
      now = 6100000;
      key = ipsc_stream (some 3);
      src = radio;
      dst = tg9;
      is_end = false;
      slot = ipsc_slot;
    }
    ∷ record {
      now = 9000000;
      key = hbp_stream sid;
      src = radio;
      dst = tg9;
      is_end = true;
      slot = ipsc_slot;
    }
    ∷ []

rejected_stream_dropped_example : AllDropped test_config (hbp_stream sid) rejecting.lock packets
unfolding lookup list_eqb
rejected_stream_dropped_example =
    rejected_stream_dropped test_config (hbp_stream sid) 7000000 rejecting.lock packets refl refl
      (omega arith, (omega arith, (omega arith, tt)))

end_call-is_active_example :
    call_lock_is_active 6000000 (end_call test_config 4000000 ipsc_slot)
    ≡ leb 6000000 (4000000 + hang test_config)
end_call-is_active_example = end_call-is_active test_config 4000000 6000000 ipsc_slot refl refl

end_hbp_call-is_active_example :
    call_lock_is_active 8000000 (end_hbp_call test_config 4000000 hbp_slot)
    ≡ (nonempty hbp_slot.pacer.tx_queue || leb 8000000 (4000000 + hang test_config))
end_hbp_call-is_active_example =
    end_hbp_call-is_active test_config 4000000 8000000 hbp_slot refl refl

end_call-handover_example :
    (call_lock_blocks test_config 8000000
      (hbp_stream sid)
      radio
      tg9
      false
      (end_call test_config 4000000 ipsc_slot)).1
    ≡ leb 8000000 (4000000 + hang test_config)
unfolding prune_call_lock_blocks lookup prune
end_call-handover_example =
    end_call-handover test_config 4000000 8000000 ipsc_slot sid radio tg9 false refl refl refl refl

abbrev last_queued : Line
last_queued = record {
  shared = init.shared;
  slot = record hbp_slot {
    pacer = record idle_pacer {
      tx_queue =
          record { packet = 0x80 ∷ []; src_sub = radio; dst_group = tg9; burst_type = 2 } ∷ [];
      tx_handle = some 6000000;
    };
  };
  sent = [];
}
