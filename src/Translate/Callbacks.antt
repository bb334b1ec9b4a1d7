-- ===== src/Translate/Callbacks.antt =====
-- translate/translator.py: the callbacks of `CallTranslator` on its whole state (`peer_registered`,
-- `peer_lost`, `hbp_disconnected`, `ipsc_voice_received`, `hbp_voice_received`,
-- `check_call_timeouts` and the drain timer of a timeslot).
pub mod Timeouts
use ipsc2hbp.Base.{
  ℕ, ◌-◌, ◌&&◌, Bool, true, false, none, some, List, [], ◌∷◌, ◌++◌, ltb, is_some, if◌then◌else◌,
  length,
}
use ipsc2hbp.Dmr.{Bytes}
use ipsc2hbp.Config.{Config, HbpMode}
use ipsc2hbp.Hbp.Const.{dmrd_len}
use ipsc2hbp.Translate.State.{
  Timeslot, ts1, ts2, from_ipsc, OutCall, InCall, CallLock, Slot, Shared, Action, activate,
  deactivate, Line, Env, Translator, default_call_type, default_call_ctrl,
}
use ipsc2hbp.Translate.Lock.{clear_call_lock, release_call_lock}
use ipsc2hbp.Translate.Pacer.{clear_ipsc_tx_queue, drain_hbp_to_ipsc_queue}
use ipsc2hbp.Translate.Outbound.{Outcome, returned, close_call, ipsc_voice_received}
use ipsc2hbp.Translate.Inbound.{parse_dmrd, timeslot, end_hbp_call, hbp_packet}

abbrev pub line : Timeslot → Translator → Line
line ts1 t = record { shared = t.shared; slot = t.slot1; sent = [] }
line ts2 t = record { shared = t.shared; slot = t.slot2; sent = [] }

abbrev pub put : Timeslot → Line → Translator → Translator
put ts1 l t = record t { shared = l.shared; slot1 = l.slot }
put ts2 l t = record t { shared = l.shared; slot2 = l.slot }

-- A callback on one timeslot: the new state, and what it asked for.
abbrev pub on_slot : (Line → Line) → Timeslot → Translator → Translator × List Action
on_slot f ts t = let l = f (line ts t) in (put ts l t, l.sent)

abbrev pub both_slots : (Slot → Slot) → Translator → Translator
both_slots f t = record t { slot1 = f t.slot1; slot2 = f t.slot2 }

abbrev pub is_tracking : Config → Bool
is_tracking cfg = elim cfg.hbp_mode [ HbpMode.tracking ↦ true | HbpMode.persistent ↦ false ]

-- `peer_registered`
unfoldable pub peer_registered : Config → Translator → Translator × List Action
peer_registered cfg t = (t, if is_tracking cfg then activate ∷ [] else [])

-- What both `peer_lost` and `hbp_disconnected` reset at a timeslot.
unfoldable pub drop_calls : Slot → Slot
drop_calls s = record (clear_ipsc_tx_queue s) {
  out = record s.out {
    stream_id = none;
    lc = none;
    emb_lc = none;
    ipsc_stream_byte = none;
    last_pkt = 0;
  };
  inc = record s.inc {
    lc = none;
    emb_lc = none;
    stream_id = 0;
    hbp_stream = none;
    src_sub = none;
    dst_group = none;
    last_head = 0;
    last_pkt = 0;
    started = false;
  };
  reflect = record { recent = []; ignore = [] };
}

-- `_clear_call_locks`, at one timeslot.
unfoldable pub clear_call_locks : CallLock → CallLock
unfolding clear_call_lock
clear_call_locks k = record (clear_call_lock k) { blocked_ipsc = []; blocked_hbp = [] }

-- `peer_lost`
unfoldable pub peer_lost : Config → Translator → Translator × List Action
unfolding drop_calls clear_call_locks
peer_lost cfg t =
    let t' = both_slots (λ s. record (drop_calls s) { lock = clear_call_locks s.lock }) t in
    (
      record t' {
        shared = record t.shared {
          peer_call_type = default_call_type;
          peer_call_ctrl = default_call_ctrl;
        };
      },
      if is_tracking cfg then deactivate ∷ [] else [],
    )

-- `hbp_disconnected`
unfoldable pub hbp_disconnected : Translator → Translator
unfolding drop_calls
hbp_disconnected t = both_slots drop_calls t

-- `ipsc_voice_received`
unfoldable pub ipsc_received :
    Env → Bool → Bytes → Timeslot → ℕ → Translator → Translator × List Action × Outcome
unfolding ipsc_voice_received
ipsc_received v connected data' ts burst_type t =
    let (l, outcome) = ipsc_voice_received v connected data' ts burst_type (line ts t) in
    (put ts l t, l.sent, outcome)

-- `hbp_voice_received`; `registered` is `self._ipsc.is_peer_registered()`.
unfoldable pub hbp_voice_received : Env → Bool → Bytes → Translator → Translator × List Action
unfolding hbp_packet parse_dmrd
hbp_voice_received v registered dmrd t =
    let d = parse_dmrd dmrd in
    if registered
    then if ltb (length dmrd) dmrd_len
      then (t, [])
      else on_slot (hbp_packet v d (timeslot d)) (timeslot d) t
    else (t, [])

-- The timer of `_drain_hbp_to_ipsc_queue` fires.
unfoldable pub drain_timer : Config → ℕ → ℕ → Timeslot → Translator → Translator × List Action
drain_timer cfg now after ts t = on_slot (drain_hbp_to_ipsc_queue cfg now after) ts t

-- `check_call_timeouts`, at one timeslot.
unfoldable pub check_out_timeout : Config → ℕ → ℕ → Slot → Slot
check_out_timeout cfg now timeout s =
    if is_some s.out.stream_id && ltb timeout (now - s.out.last_pkt)
    then record s { out = close_call s.out; lock = release_call_lock cfg now from_ipsc s.lock }
    else s

unfoldable pub check_in_timeout : Config → ℕ → ℕ → Slot → Slot
check_in_timeout cfg now timeout s =
    if is_some s.inc.lc && ltb timeout (now - s.inc.last_pkt) then end_hbp_call cfg now s else s

-- `check_call_timeouts`; the default of `timeout` is ten seconds.
unfoldable pub check_call_timeouts : Config → ℕ → ℕ → Translator → Translator
unfolding check_out_timeout check_in_timeout
check_call_timeouts cfg now timeout t =
    both_slots (λ s. check_in_timeout cfg now timeout (check_out_timeout cfg now timeout s)) t
