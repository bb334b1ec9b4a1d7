-- ===== src/Translate/Valid/Out.antt =====
-- The outbound call of a timeslot (translate/translator.py, `_out_*`): its fields are set and
-- cleared together.
use ipsc2hbp.Base.{
  ℕ, suc, zero, ◌<◌, ◌≡◌, refl, Bool, Option, arith, is_some, bit_or, slice, get_elem?, ◌∙◌,
}
use ipsc2hbp.Dmr.{Bytes}
use ipsc2hbp.Config.{Config}
use ipsc2hbp.Translate.State.{Timeslot, OutCall, Slot, Shared, Line, Env, idle_out}
use ipsc2hbp.Translate.Outbound.{
  Verdict, frame, close_call, ipsc_burst, legacy_ipsc_stream_drop, send_frames, finish_burst,
  accept_ipsc, learn_metadata, ipsc_guards, repeat_count, slot_flags, ipsc_voice_received,
}

-- A stream id, an LC and an embedded LC are there together.
pub record OutIsValid (o : OutCall) : Type 0 where
  pub with_lc : is_some o.lc ≡ is_some o.stream_id
  pub with_emb_lc : is_some o.emb_lc ≡ is_some o.stream_id

pub idle_out-IsValid : OutIsValid idle_out
idle_out-IsValid = ground arith

pub close_call-IsValid : (o : OutCall) → OutIsValid (close_call o)
unfolding close_call
close_call-IsValid o = ground arith

pub ipsc_burst-IsValid :
    (v : Env) (d : Bytes) (burst_type : ℕ) (src dst : Bytes) (o : OutCall)
    → OutIsValid o
    → OutIsValid (ipsc_burst v d burst_type src dst o).0
unfolding ipsc_burst
ipsc_burst-IsValid v d burst_type src dst o h = ground arith

pub legacy_ipsc_stream_drop-IsValid :
    (cfg : Config) (now : ℕ) (stream : Option ℕ) (burst_type : ℕ) (s : Slot)
    → OutIsValid s.out
    → OutIsValid (legacy_ipsc_stream_drop cfg now stream burst_type s).0.out
unfolding legacy_ipsc_stream_drop
legacy_ipsc_stream_drop-IsValid cfg now stream burst_type s h = ground arith

send_frames-out :
    (cfg : Config) (n : ℕ) (src dst : Bytes) (flags : ℕ) (sid payload : Bytes) (l : Line)
    → (send_frames cfg n src dst flags sid payload l).slot ≡ l.slot
unfolding send_frames
send_frames-out cfg zero src dst flags sid payload l = refl
send_frames-out cfg (suc n) src dst flags sid payload l =
    send_frames-out cfg n src dst flags sid payload _

pub finish_burst-IsValid :
    (v : Env) (ts : Timeslot) (burst_type : ℕ) (src dst : Bytes) (w : Verdict) (l : Line)
    → OutIsValid l.slot.out
    → OutIsValid (finish_burst v ts burst_type src dst w l).0.slot.out
unfolding finish_burst
finish_burst-IsValid v ts burst_type src dst (frame sid flags payload) l h = ground (
  arith,
  send_frames-out v.cfg (repeat_count v.cfg burst_type) src dst (bit_or (slot_flags ts) flags) sid
      payload l,
)
finish_burst-IsValid v ts burst_type src dst _ l h = h

-- What a packet from IPSC never touches: the other direction's call and the pacing queue.
abbrev pub Untouched : Slot → Slot → Type 0
Untouched s t = (t.inc ≡ s.inc) × (t.pacer ≡ s.pacer)

ipsc_guards-IsValid :
    (v : Env) (stream : Option ℕ) (burst_type : ℕ) (src dst : Bytes) (s : Slot)
    → OutIsValid s.out
    → OutIsValid (ipsc_guards v stream burst_type src dst s).0.out
unfolding ipsc_guards
ipsc_guards-IsValid v stream burst_type src dst s h = ground (
  arith,
  legacy_ipsc_stream_drop-IsValid v.cfg v.now stream burst_type
      (record s { out = record s.out { last_pkt = v.now } }),
)

legacy_ipsc_stream_drop-Untouched :
    (cfg : Config) (now : ℕ) (stream : Option ℕ) (burst_type : ℕ) (s : Slot)
    → Untouched s (legacy_ipsc_stream_drop cfg now stream burst_type s).0
unfolding legacy_ipsc_stream_drop
legacy_ipsc_stream_drop-Untouched cfg now stream burst_type s = ground arith

ipsc_guards-Untouched :
    (v : Env) (stream : Option ℕ) (burst_type : ℕ) (src dst : Bytes) (s : Slot)
    → Untouched s (ipsc_guards v stream burst_type src dst s).0
unfolding ipsc_guards
ipsc_guards-Untouched v stream burst_type src dst s = ground (
  arith,
  legacy_ipsc_stream_drop-Untouched v.cfg v.now stream burst_type
      (record s { out = record s.out { last_pkt = v.now } }),
)

finish_burst-Untouched :
    (v : Env) (ts : Timeslot) (burst_type : ℕ) (src dst : Bytes) (w : Verdict) (l : Line)
    → Untouched l.slot (finish_burst v ts burst_type src dst w l).0.slot
unfolding finish_burst
finish_burst-Untouched v ts burst_type src dst (frame sid flags payload) l = ground (
  arith,
  send_frames-out v.cfg (repeat_count v.cfg burst_type) src dst (bit_or (slot_flags ts) flags) sid
      payload l,
)
finish_burst-Untouched v ts burst_type src dst _ l = (refl, refl)

accept_ipsc-IsValid :
    (v : Env) (d : Bytes) (ts : Timeslot) (burst_type : ℕ) (src dst : Bytes) (l : Line)
    → OutIsValid l.slot.out
    → OutIsValid (accept_ipsc v d ts burst_type src dst l).0.slot.out
unfolding accept_ipsc
accept_ipsc-IsValid v d ts burst_type src dst l h =
    finish_burst-IsValid v ts burst_type src dst _ _
      (ipsc_burst-IsValid v d burst_type src dst l.slot.out h)

accept_ipsc-Untouched :
    (v : Env) (d : Bytes) (ts : Timeslot) (burst_type : ℕ) (src dst : Bytes) (l : Line)
    → Untouched l.slot (accept_ipsc v d ts burst_type src dst l).0.slot
unfolding accept_ipsc
accept_ipsc-Untouched v d ts burst_type src dst l =
    finish_burst-Untouched v ts burst_type src dst _ _

pub ipsc_voice_received-IsValid :
    (v : Env) (connected : Bool) (d : Bytes) (ts : Timeslot) (burst_type : ℕ) (l : Line)
    → OutIsValid l.slot.out
    → OutIsValid (ipsc_voice_received v connected d ts burst_type l).0.slot.out
unfolding ipsc_voice_received
ipsc_voice_received-IsValid v connected d ts burst_type l h =
    let src = slice 6 9 d in
    let dst = slice 9 12 d in
    let stream = get_elem? d 5 in
    let g = ipsc_guards-IsValid v stream burst_type src dst l.slot h in
    let s = (ipsc_guards v stream burst_type src dst l.slot).0 in
    let a = accept_ipsc-IsValid v d ts burst_type src dst (record l { slot = s }) g in
    ground (arith, g, a)

-- A packet from IPSC leaves the inbound call of its timeslot and the pacing queue as they are.
pub ipsc_voice_received-Untouched :
    (v : Env) (connected : Bool) (d : Bytes) (ts : Timeslot) (burst_type : ℕ) (l : Line)
    → Untouched l.slot (ipsc_voice_received v connected d ts burst_type l).0.slot
unfolding ipsc_voice_received
ipsc_voice_received-Untouched v connected d ts burst_type l =
    let src = slice 6 9 d in
    let dst = slice 9 12 d in
    let stream = get_elem? d 5 in
    let g = ipsc_guards-Untouched v stream burst_type src dst l.slot in
    let s = (ipsc_guards v stream burst_type src dst l.slot).0 in
    let a = accept_ipsc-Untouched v d ts burst_type src dst (record l { slot = s }) in
    ground (arith, g, a)

-- The DMRD sequence stays a byte, and the stream counter of the other direction is left alone.
pub record SeqIsValid (sh sh' : Shared) : Type 0 where
  pub out_seq : sh'.out_seq < 256
  pub same_ctr : sh'.in_stream_ctr ≡ sh.in_stream_ctr

send_frames-SeqIsValid :
    (cfg : Config) (n : ℕ) (src dst : Bytes) (flags : ℕ) (sid payload : Bytes) (l : Line)
    → l.shared.out_seq < 256
    → SeqIsValid l.shared (send_frames cfg n src dst flags sid payload l).shared
unfolding send_frames
send_frames-SeqIsValid cfg zero src dst flags sid payload l h = record {
  out_seq = h;
  same_ctr = refl;
}
send_frames-SeqIsValid cfg (suc n) src dst flags sid payload l h =
    let r = send_frames-SeqIsValid cfg n src dst flags sid payload _ (omega arith) in
    record { out_seq = r.out_seq; same_ctr = r.same_ctr }

finish_burst-SeqIsValid :
    (v : Env) (ts : Timeslot) (burst_type : ℕ) (src dst : Bytes) (w : Verdict) (l : Line)
    → l.shared.out_seq < 256
    → SeqIsValid l.shared (finish_burst v ts burst_type src dst w l).0.shared
unfolding finish_burst
finish_burst-SeqIsValid v ts burst_type src dst (frame sid flags payload) l h = ground (
  arith,
  send_frames-SeqIsValid v.cfg (repeat_count v.cfg burst_type) src dst
      (bit_or (slot_flags ts) flags) sid payload l h,
)
finish_burst-SeqIsValid v ts burst_type src dst _ l h = record { out_seq = h; same_ctr = refl }

learn_metadata-seq :
    (d : Bytes) (sh : Shared) → sh.out_seq < 256 → SeqIsValid sh (learn_metadata d sh)
unfolding learn_metadata
learn_metadata-seq d sh h = ground arith

accept_ipsc-SeqIsValid :
    (v : Env) (d : Bytes) (ts : Timeslot) (burst_type : ℕ) (src dst : Bytes) (l : Line)
    → l.shared.out_seq < 256
    → SeqIsValid l.shared (accept_ipsc v d ts burst_type src dst l).0.shared
unfolding accept_ipsc
accept_ipsc-SeqIsValid v d ts burst_type src dst l h =
    let m = learn_metadata-seq d l.shared h in
    let r = finish_burst-SeqIsValid v ts burst_type src dst _ _ m.out_seq in
    record { out_seq = r.out_seq; same_ctr = r.same_ctr ∙ m.same_ctr }

pub ipsc_voice_received-SeqIsValid :
    (v : Env) (connected : Bool) (d : Bytes) (ts : Timeslot) (burst_type : ℕ) (l : Line)
    → l.shared.out_seq < 256
    → SeqIsValid l.shared (ipsc_voice_received v connected d ts burst_type l).0.shared
unfolding ipsc_voice_received
ipsc_voice_received-SeqIsValid v connected d ts burst_type l h =
    let src = slice 6 9 d in
    let dst = slice 9 12 d in
    let s = (ipsc_guards v (get_elem? d 5) burst_type src dst l.slot).0 in
    ground (arith, accept_ipsc-SeqIsValid v d ts burst_type src dst (record l { slot = s }) h)
