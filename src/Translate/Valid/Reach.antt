-- ===== src/Translate/Valid/Reach.antt =====
-- Every state that the translator (translate/translator.py) can reach: a step is one callback.
use ipsc2hbp.Base.{
  ℕ, ◌<◌, ◌≤◌, ◌≡◌, refl, Bool, true, false, some, arith, ltb, if◌then◌else◌, length, sym, subst,
  [],
}
use ipsc2hbp.Dmr.{Bytes}
use ipsc2hbp.Config.{Config}
use ipsc2hbp.Hbp.Const.{dmrd_len}
use ipsc2hbp.Translate.State.{
  Slot, Shared, Line, Env, Timeslot, ts1, ts2, Translator, init, init_slot,
}
use ipsc2hbp.Translate.Inbound.{parse_dmrd, timeslot, hbp_packet, end_hbp_call}
use ipsc2hbp.Translate.Callbacks.{
  line, put, on_slot, peer_registered, peer_lost, hbp_disconnected, drop_calls, ipsc_received,
  hbp_voice_received, drain_timer, check_out_timeout, check_in_timeout, check_call_timeouts,
}
use ipsc2hbp.Translate.Valid.Out.{
  OutIsValid, idle_out-IsValid, close_call-IsValid, ipsc_voice_received-IsValid,
  ipsc_voice_received-Untouched, ipsc_voice_received-SeqIsValid,
}
use ipsc2hbp.Translate.Valid.Inc.{
  InIsValid, EnvIsValid, idle_in-IsValid, reset-IsValid, hbp_packet-IsValid,
  drain_hbp_to_ipsc_queue-SameCalls,
}
use ipsc2hbp.Translate.Valid.Frame.{hbp_packet-SameOut}
use ipsc2hbp.Translate.Valid.Pacing.{
  PacerIsValid, idle_pacer-IsValid, drain_hbp_to_ipsc_queue-IsValid,
}

pub record SlotIsValid (cfg : Config) (s : Slot) : Type 0 where
  pub out : OutIsValid s.out
  pub inc : InIsValid s.inc
  pub pacer : PacerIsValid cfg s.pacer

pub record SharedIsValid (sh : Shared) : Type 0 where
  pub out_seq_byte : sh.out_seq < 256
  pub in_stream_ctr_byte : sh.in_stream_ctr < 256

pub record IsValid (cfg : Config) (t : Translator) : Type 0 where
  pub slot1 : SlotIsValid cfg t.slot1
  pub slot2 : SlotIsValid cfg t.slot2
  pub shared : SharedIsValid t.shared

-- One callback. A drain runs when its timer is due.
pub data Step (cfg : Config) : Translator → Translator → Type 0 where
  registered : (t : Translator) → Step cfg t (peer_registered cfg t).0
  lost : (t : Translator) → Step cfg t (peer_lost cfg t).0
  disconnected : (t : Translator) → Step cfg t (hbp_disconnected t)
  from_ipsc :
      (v : Env) (connected : Bool) (d : Bytes) (ts : Timeslot) (burst_type : ℕ) (t : Translator)
      → v.cfg ≡ cfg
      → Step cfg t (ipsc_received v connected d ts burst_type t).0
  from_hbp :
      (v : Env) (is_up : Bool) (d : Bytes) (t : Translator)
      → v.cfg ≡ cfg
      → EnvIsValid v
      → Step cfg t (hbp_voice_received v is_up d t).0
  drain :
      (now after due : ℕ) (ts : Timeslot) (t : Translator)
      → (line ts t).slot.pacer.tx_handle ≡ some due
      → due ≤ now
      → now ≤ after
      → Step cfg t (drain_timer cfg now after ts t).0
  watchdog : (now timeout : ℕ) (t : Translator) → Step cfg t (check_call_timeouts cfg now timeout t)

pub data Reach (cfg : Config) : Translator → Type 0 where
  start : Reach cfg init
  next : {t u : Translator} → Reach cfg t → Step cfg t u → Reach cfg u

module _ (cfg : Config) where
  line-IsValid : (ts : Timeslot) (t : Translator) → IsValid cfg t → SlotIsValid cfg (line ts t).slot
  line-IsValid ts1 t h = h.slot1
  line-IsValid ts2 t h = h.slot2

  put-IsValid :
      (ts : Timeslot) (l : Line) (t : Translator)
      → IsValid cfg t
      → SlotIsValid cfg l.slot
      → SharedIsValid l.shared
      → IsValid cfg (put ts l t)
  put-IsValid ts1 l t h s sh = record { slot1 = s; slot2 = h.slot2; shared = sh }
  put-IsValid ts2 l t h s sh = record { slot1 = h.slot1; slot2 = s; shared = sh }

  line-shared : (ts : Timeslot) (t : Translator) → (line ts t).shared ≡ t.shared
  line-shared ts1 t = refl
  line-shared ts2 t = refl

  drop_calls-IsValid : (s : Slot) → SlotIsValid cfg s → SlotIsValid cfg (drop_calls s)
  unfolding drop_calls
  drop_calls-IsValid s h = ground arith

  timeouts-IsValid :
      (now timeout : ℕ) (s : Slot)
      → SlotIsValid cfg s
      → SlotIsValid cfg (check_in_timeout cfg now timeout (check_out_timeout cfg now timeout s))
  unfolding check_in_timeout check_out_timeout end_hbp_call
  timeouts-IsValid now timeout s h =
      ground (arith, reset-IsValid s.inc h.inc, close_call-IsValid s.out)

  init-IsValid : IsValid cfg init
  init-IsValid =
      let s : SlotIsValid cfg init_slot = record {
        out = idle_out-IsValid;
        inc = idle_in-IsValid;
        pacer = idle_pacer-IsValid cfg;
      } in
      record { slot1 = s; slot2 = s; shared = ground arith }

  ipsc_received-IsValid :
      (v : Env) (connected : Bool) (d : Bytes) (ts : Timeslot) (burst_type : ℕ) (t : Translator)
      → IsValid cfg t
      → IsValid cfg (ipsc_received v connected d ts burst_type t).0
  unfolding ipsc_received
  ipsc_received-IsValid v connected d ts burst_type t h =
      let l = line ts t in
      let s = line-IsValid ts t h in
      let sh : SharedIsValid l.shared = rw (line-shared ts t) h.shared in
      let same = ipsc_voice_received-Untouched v connected d ts burst_type l in
      let q = ipsc_voice_received-SeqIsValid v connected d ts burst_type l sh.out_seq_byte in
      put-IsValid ts _ t h
        (record {
          out = ipsc_voice_received-IsValid v connected d ts burst_type l s.out;
          inc = rw same.0 s.inc;
          pacer = rw same.1 s.pacer;
        })
        (record {
          out_seq_byte = q.out_seq;
          in_stream_ctr_byte = rw q.same_ctr sh.in_stream_ctr_byte;
        })

  hbp_packet-slot :
      (v : Env) (ts : Timeslot) (d : Bytes) (t : Translator)
      → v.cfg ≡ cfg
      → EnvIsValid v
      → IsValid cfg t
      → IsValid cfg (put ts (hbp_packet v (parse_dmrd d) ts (line ts t)) t)
  hbp_packet-slot v ts d t e ok h =
      let l = line ts t in
      let s = line-IsValid ts t h in
      let sh : SharedIsValid l.shared = rw (line-shared ts t) h.shared in
      let n = hbp_packet-IsValid v ok (parse_dmrd d) ts l (record {
        inc = s.inc;
        pacer = subst (λ c. PacerIsValid c l.slot.pacer) (sym e) s.pacer;
        counter = sh.in_stream_ctr_byte;
      }) in
      let same = hbp_packet-SameOut v (parse_dmrd d) ts l in
      put-IsValid ts _ t h
        (record {
          out = rw same.out s.out;
          inc = n.inc;
          pacer =
              subst (λ c. PacerIsValid c (hbp_packet v (parse_dmrd d) ts l).slot.pacer) e n.pacer;
        })
        (record { out_seq_byte = rw same.out_seq sh.out_seq_byte; in_stream_ctr_byte = n.counter })

  hbp_voice_received-IsValid :
      (v : Env) (is_up : Bool) (d : Bytes) (t : Translator)
      → v.cfg ≡ cfg
      → EnvIsValid v
      → IsValid cfg t
      → IsValid cfg (hbp_voice_received v is_up d t).0
  unfolding hbp_voice_received
  hbp_voice_received-IsValid v is_up d t e ok h =
      let packet = parse_dmrd d in
      let handled = hbp_packet-slot v (timeslot packet) d t e ok h in
      elim is_up as (λ b. IsValid cfg (hbp_voice_received v b d t).0) [
        | false ↦ h
        | true ↦
            elim (ltb (length d) dmrd_len)
              as (λ b.
                IsValid cfg
                  (if b
                    then (t, [])
                    else on_slot (hbp_packet v packet (timeslot packet)) (timeslot packet) t).0) [
                      | true ↦ h
                      | false ↦ handled
                    ]
      ]

  drain_timer-IsValid :
      (now after : ℕ) (ts : Timeslot) (t : Translator)
      → IsValid cfg t
      → IsValid cfg (drain_timer cfg now after ts t).0
  unfolding drain_timer
  drain_timer-IsValid now after ts t h =
      let l = line ts t in
      let s = line-IsValid ts t h in
      let same = drain_hbp_to_ipsc_queue-SameCalls cfg now after l in
      put-IsValid ts _ t h
        (record {
          out = rw same.out s.out;
          inc = rw same.inc s.inc;
          pacer = drain_hbp_to_ipsc_queue-IsValid cfg now after l s.pacer;
        })
        (rw same.shared (rw (line-shared ts t) h.shared))

  pub Step-IsValid : {t u : Translator} → Step cfg t u → IsValid cfg t → IsValid cfg u
  unfolding peer_registered peer_lost hbp_disconnected check_call_timeouts
  Step-IsValid (registered t) h = h
  Step-IsValid (lost t) h =
      let a = drop_calls-IsValid t.slot1 h.slot1 in
      let b = drop_calls-IsValid t.slot2 h.slot2 in
      record {
        slot1 = record { out = a.out; inc = a.inc; pacer = a.pacer };
        slot2 = record { out = b.out; inc = b.inc; pacer = b.pacer };
        shared = ground arith;
      }
  Step-IsValid (disconnected t) h = record {
    slot1 = drop_calls-IsValid t.slot1 h.slot1;
    slot2 = drop_calls-IsValid t.slot2 h.slot2;
    shared = h.shared;
  }
  Step-IsValid (from_ipsc v connected d ts burst_type t e) h =
      ipsc_received-IsValid v connected d ts burst_type t h
  Step-IsValid (from_hbp v is_up d t e ok) h = hbp_voice_received-IsValid v is_up d t e ok h
  Step-IsValid (drain now after due ts t e le le') h = drain_timer-IsValid now after ts t h
  Step-IsValid (watchdog now timeout t) h = record {
    slot1 = timeouts-IsValid now timeout t.slot1 h.slot1;
    slot2 = timeouts-IsValid now timeout t.slot2 h.slot2;
    shared = h.shared;
  }

  -- In every state that the translator reaches from its start by its callbacks (registration
  -- and loss of the peer, loss of the HBP side, packets from either side with any contents and
  -- random numbers in their ranges, timers that are due, the watchdog): on both timeslots the
  -- fields of a call are set and cleared together, the stream, sequence and RTP counters fit
  -- their width, the pacing queue is bounded, and its timer is pending exactly while it holds
  -- packets and is due no more than a millisecond before the cooldown ends.
  pub Reach-IsValid : {t : Translator} → Reach cfg t → IsValid cfg t
  Reach-IsValid start = init-IsValid
  Reach-IsValid (next r st) = Step-IsValid st (Reach-IsValid r)
