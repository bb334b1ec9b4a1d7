-- ===== src/Translate/Outbound.antt =====
-- translate/translator.py: from IPSC to HBP (`ipsc_voice_received`, `_legacy_ipsc_stream_drop`).
pub mod Flags
pub mod VoiceRun
pub mod Short
use ipsc2hbp.Base.{
  ℕ, zero, suc, ◌+◌, ◌%◌, bit_or, Bool, true, false, ◌&&◌, ◌||◌, Option, none, some, List, [], ◌∷◌,
  ◌++◌, not, ltb, leb, nat_eqb, is_some, if◌then◌else◌, length, get_elem?, slice,
}
use ipsc2hbp.Dmr.{Bytes}
use ipsc2hbp.Config.{Config}
use ipsc2hbp.Ipsc.Const.{voice_head, voice_term, gv_src_sub_off, gv_dst_group_off, gv_ipsc_seq_off}
use ipsc2hbp.Hbp.Const.{
  hbpf_tgid_ts2, hbpf_frametype_voice, hbpf_frametype_voicesync, hbpf_frametype_datasync,
  hbpf_slt_vhead, hbpf_slt_vterm,
}
use ipsc2hbp.Translate.State.{
  Timeslot, ts1, ts2, from_ipsc, OutCall, Slot, Shared, Line, Env, send_dmrd, emit, legacy_flow,
  or_else, map_slot, set_slot,
}
use ipsc2hbp.Translate.Lock.{ipsc_stream, call_lock_blocks, release_call_lock}
use ipsc2hbp.Translate.Reflect.{should_suppress_ipsc_reflection}
use ipsc2hbp.Translate.Frame.{build_embed, voice_payload, lc_payload}
use ipsc2hbp.Translate.Packet.{build_dmrd}

-- What one burst asks for: nothing, an `IndexError`, or a DMRD packet with this stream, these
-- flags and this payload.
pub data Verdict : Type 0 where
  dropped : Verdict
  index_error : Verdict
  frame : Bytes → ℕ → Bytes → Verdict

-- `LC_OPT + dst_group + src_sub`
abbrev pub make_lc : Env → Bytes → Bytes → Bytes
make_lc v src dst = v.codec.lc_opt ++ (dst ++ src)

-- A call's stream id, LC and embedded LC, as a header or a late entry sets them.
unfoldable pub open_call : Env → Bytes → Bytes → Bytes → ℕ → OutCall → OutCall
open_call v sid src dst pos o = record o {
  stream_id = some sid;
  frame_pos = pos;
  lc = some (make_lc v src dst);
  emb_lc = some (v.codec.encode_emblc (make_lc v src dst));
}

unfoldable pub close_call : OutCall → OutCall
close_call o = record o { stream_id = none; lc = none; emb_lc = none }

start_frame : Env → Bytes → Bytes → Bytes → OutCall → OutCall × Verdict
unfolding open_call
start_frame v sid src dst o = (
  open_call v sid src dst 0 o,
  frame sid (bit_or hbpf_frametype_datasync hbpf_slt_vhead)
      (lc_payload v.codec (v.codec.encode_header_lc (make_lc v src dst)) v.codec.slot_type_head),
)

-- The branch `burst_type == VOICE_HEAD`, by the stream of the call.
ipsc_head : Env → Bytes → Bytes → Option Bytes → OutCall → OutCall × Verdict
unfolding start_frame
ipsc_head v src dst none o = start_frame v v.urandom src dst o
ipsc_head v src dst (some sid) o =
    if legacy_flow v.cfg then (o, dropped) else start_frame v sid src dst o

-- The branch `burst_type == VOICE_TERM`.
ipsc_term : Env → Bytes → Bytes → Option Bytes → OutCall → OutCall × Verdict
ipsc_term v src dst none o = (o, dropped)
ipsc_term v src dst (some sid) o = (
  o,
  frame sid (bit_or hbpf_frametype_datasync hbpf_slt_vterm) (
      lc_payload v.codec (v.codec.encode_terminator_lc (or_else o.lc (make_lc v src dst)))
        v.codec.slot_type_term),
)

-- The frame type and the voice sequence in the flags.
unfoldable pub voice_flags : ℕ → ℕ
voice_flags pos =
    if nat_eqb pos 0 then hbpf_frametype_voicesync else bit_or hbpf_frametype_voice pos

-- A voice burst of the call with stream `sid`.
voice_frame : Env → Bytes → Bytes → OutCall → OutCall × Verdict
unfolding voice_flags
voice_frame v data' sid o =
    let pos = o.frame_pos % 6 in
    if ltb (length data') 52 then (o, dropped) else (
      record o { frame_pos = o.frame_pos + 1 },
      frame sid (voice_flags pos)
          (voice_payload v.codec (slice 33 52 data') (build_embed v.codec pos o.emb_lc)),
    )

-- Late entry: byte 32 of burst E is 0x16.
late_entry : Env → Bytes → Bytes → Bytes → Option ℕ → OutCall → OutCall × Verdict
unfolding voice_frame open_call
late_entry v data' src dst none o = (o, index_error)
late_entry v data' src dst (some b) o =
    if nat_eqb b 0x16
    then voice_frame v data' v.urandom (open_call v v.urandom src dst 4 o)
    else (o, dropped)

-- The branch of SLOT1_VOICE and SLOT2_VOICE.
ipsc_voice : Env → Bytes → Bytes → Bytes → Option Bytes → OutCall → OutCall × Verdict
unfolding voice_frame late_entry
ipsc_voice v data' src dst none o =
    if legacy_flow v.cfg then (o, dropped) else late_entry v data' src dst (get_elem? data' 32) o
ipsc_voice v data' src dst (some sid) o = voice_frame v data' sid o

-- The three branches on the burst type.
unfoldable pub ipsc_burst : Env → Bytes → ℕ → Bytes → Bytes → OutCall → OutCall × Verdict
unfolding ipsc_head ipsc_term ipsc_voice
ipsc_burst v data' burst_type src dst o =
    if nat_eqb burst_type voice_head
    then ipsc_head v src dst o.stream_id o
    else if nat_eqb burst_type voice_term
    then ipsc_term v src dst o.stream_id o
    else ipsc_voice v data' src dst o.stream_id o

-- `_legacy_ipsc_stream_drop`: the slot, and whether the packet is dropped.
unfoldable pub legacy_ipsc_stream_drop : Config → ℕ → Option ℕ → ℕ → Slot → Slot × Bool
unfolding close_call
legacy_ipsc_stream_drop cfg now none burst_type s = (s, false)
legacy_ipsc_stream_drop cfg now (some stream) burst_type s =
    let current = s.out.ipsc_stream_byte in
    let active = is_some s.out.stream_id in
    let changed : Bool = elim current [ none ↦ false | some b ↦ not (nat_eqb b stream) ] in
    let s' =
      if active && changed
      then record s { out = close_call s.out; lock = release_call_lock cfg now from_ipsc s.lock }
      else s in
    if legacy_flow cfg
    then if nat_eqb burst_type voice_head
      then (record s' { out = record s'.out { ipsc_stream_byte = some stream } }, false)
      else (s, not (is_some current) && not active)
    else (s, false)

-- `for _ in range(repeat_count)`: the DMRD packet, with the next sequence byte each time.
unfoldable pub send_frames : Config → ℕ → Bytes → Bytes → ℕ → Bytes → Bytes → Line → Line
send_frames cfg zero src dst flags sid payload l = l
send_frames cfg (suc n) src dst flags sid payload l =
    let packet = build_dmrd cfg l.shared.out_seq src dst flags sid payload in
    let l' = record l { shared = record l.shared { out_seq = (l.shared.out_seq + 1) % 256 } } in
    send_frames cfg n src dst flags sid payload (emit (send_dmrd packet) l')

abbrev pub slot_flags : Timeslot → ℕ
slot_flags ts1 = 0x00
slot_flags ts2 = hbpf_tgid_ts2

-- The end of a call, after its terminator has been sent.
unfoldable pub end_call : Config → ℕ → Slot → Slot
unfolding close_call
end_call cfg now s = record s {
  out = record (close_call s.out) { ipsc_stream_byte = none };
  lock = release_call_lock cfg now from_ipsc s.lock;
}

abbrev pub repeat_count : Config → ℕ → ℕ
repeat_count cfg burst_type = if legacy_flow cfg && nat_eqb burst_type voice_head then 2 else 1

pub data Outcome : Type 0 where
  returned : Outcome
  raised_index_error : Outcome

-- From the verdict on: send, and close the call behind a terminator.
unfoldable pub finish_burst : Env → Timeslot → ℕ → Bytes → Bytes → Verdict → Line → Line × Outcome
unfolding send_frames end_call
finish_burst v ts burst_type src dst dropped l = (l, returned)
finish_burst v ts burst_type src dst index_error l = (l, raised_index_error)
finish_burst v ts burst_type src dst (frame sid flags payload) l =
    let l' =
      send_frames v.cfg (repeat_count v.cfg burst_type) src dst (bit_or (slot_flags ts) flags) sid
        payload l in
    (if nat_eqb burst_type voice_term then map_slot (end_call v.cfg v.now) l' else l', returned)

-- `data[12:13]` and `data[13:17]` are learned from a packet that has them.
unfoldable pub learn_metadata : Bytes → Shared → Shared
learn_metadata data' sh =
    if leb 17 (length data')
    then record sh { peer_call_type = slice 12 13 data'; peer_call_ctrl = slice 13 17 data' }
    else sh

-- A packet that passed the guards.
unfoldable pub accept_ipsc : Env → Bytes → Timeslot → ℕ → Bytes → Bytes → Line → Line × Outcome
unfolding ipsc_burst finish_burst learn_metadata
accept_ipsc v data' ts burst_type src dst l =
    let (o, verdict) = ipsc_burst v data' burst_type src dst l.slot.out in
    finish_burst v ts burst_type src dst verdict (record l {
      shared = learn_metadata data' l.shared;
      slot = record l.slot { busy_last = v.now; out = o };
    })

-- The guards of `ipsc_voice_received`: the slot after them, and whether the packet is dropped.
unfoldable pub ipsc_guards : Env → Option ℕ → ℕ → Bytes → Bytes → Slot → Slot × Bool
ipsc_guards v stream burst_type src dst s0 =
    let s = record s0 { out = record s0.out { last_pkt = v.now } } in
    let (s1, stale) = legacy_ipsc_stream_drop v.cfg v.now stream burst_type s in
    let (k, blocked) =
      call_lock_blocks v.cfg v.now (ipsc_stream stream) src dst (nat_eqb burst_type voice_term)
        s1 in
    let s2 = record s1 { lock = k } in
    let (r, reflected) =
      should_suppress_ipsc_reflection v.cfg v.now s2.inc.started stream burst_type src dst
        s2.reflect in
    if stale
    then (s1, true)
    else if blocked
    then (s2, true)
    else (record s2 { reflect = r }, reflected)

-- `ipsc_voice_received`; `connected` is `self._hbp.is_connected()`.
unfoldable pub ipsc_voice_received : Env → Bool → Bytes → Timeslot → ℕ → Line → Line × Outcome
unfolding ipsc_guards accept_ipsc
ipsc_voice_received v connected data' ts burst_type l =
    let src = slice gv_src_sub_off (gv_src_sub_off + 3) data' in
    let dst = slice gv_dst_group_off (gv_dst_group_off + 3) data' in
    let (s, drop) = ipsc_guards v (get_elem? data' gv_ipsc_seq_off) burst_type src dst l.slot in
    if connected
    then if drop
      then (set_slot s l, returned)
      else accept_ipsc v data' ts burst_type src dst (set_slot s l)
    else (l, returned)
