-- ===== src/Translate/Inbound.antt =====
-- translate/translator.py: from HBP to IPSC (`hbp_voice_received`, `_legacy_hbp_stream_drop`,
-- `_emit_hbp_ipsc_start`, `_reset_hbp_to_ipsc_state`).
pub mod Start
pub mod VoiceRun
pub mod CallBytes
pub mod CallSent
use ipsc2hbp.Base.{
  ℕ, zero, suc, ◌+◌, ◌-◌, ◌%◌, min, max, bit_and, bit_or, Bool, true, false, ◌&&◌, ◌||◌, Option,
  none, some, [], ◌∷◌, ◌++◌, not, leb, nat_eqb, is_some, if◌then◌else◌, ◌==◌, bytes_eq, get_or,
  slice, take,
}
use ipsc2hbp.Dmr.{Bytes, to_bytes}
use ipsc2hbp.Config.{Config}
use ipsc2hbp.Ipsc.Const.{voice_head, voice_term, slot1_voice, slot2_voice, ts_call_msk, end_msk}
use ipsc2hbp.Hbp.Const.{
  hbpf_tgid_ts2, hbpf_frametype_voicesync, hbpf_frametype_datasync, hbpf_frametype_mask,
  hbpf_dtype_mask, hbpf_slt_vhead, hbpf_slt_vterm, dmrd_src_off, dmrd_dst_off, dmrd_flags_off,
  dmrd_payload_off,
}
use ipsc2hbp.Translate.State.{
  Timeslot, ts1, ts2, from_hbp, InCall, Slot, Line, Env, legacy_flow, or_else, map_slot,
}
use ipsc2hbp.Translate.Lock.{hbp_stream, in_active, call_lock_blocks, release_call_lock}
use ipsc2hbp.Translate.Pacer.{send_hbp_to_ipsc}
use ipsc2hbp.Translate.Frame.{emb_fragment, emb_word, extract_ambe_from_dmrd, decode_hbp_voice_lc}
use ipsc2hbp.Translate.Packet.{build_ipsc_voice_payload, make_hbp_ipsc_packet}

-- The fields of a DMRD packet that `hbp_voice_received` reads.
pub record Dmrd : Type 0 where
  pub src_sub : Bytes
  pub dst_group : Bytes
  pub flags : ℕ
  pub stream : Bytes
  pub payload_33 : Bytes

-- The packet has `DMRD_LEN` bytes at least, so the flags byte is there.
unfoldable pub parse_dmrd : Bytes → Dmrd
parse_dmrd dmrd = record {
  src_sub = slice dmrd_src_off (dmrd_src_off + 3) dmrd;
  dst_group = slice dmrd_dst_off (dmrd_dst_off + 3) dmrd;
  flags = get_or dmrd dmrd_flags_off 0;
  stream = slice 16 20 dmrd;
  payload_33 = slice dmrd_payload_off (dmrd_payload_off + 33) dmrd;
}

abbrev pub frame_type : Dmrd → ℕ
frame_type d = bit_and d.flags hbpf_frametype_mask

abbrev pub dtype : Dmrd → ℕ
dtype d = bit_and d.flags hbpf_dtype_mask

-- The timeslot of a DMRD packet.
abbrev pub timeslot : Dmrd → Timeslot
timeslot d = if nat_eqb (bit_and d.flags hbpf_tgid_ts2) 0 then ts1 else ts2

abbrev pub is_head : Dmrd → Bool
is_head d = nat_eqb (frame_type d) hbpf_frametype_datasync && nat_eqb (dtype d) hbpf_slt_vhead

abbrev pub is_term : Dmrd → Bool
is_term d = nat_eqb (frame_type d) hbpf_frametype_datasync && nat_eqb (dtype d) hbpf_slt_vterm

abbrev pub call_info : Timeslot → ℕ
call_info ts1 = 0x00
call_info ts2 = ts_call_msk

abbrev pub slot_burst : Timeslot → ℕ
slot_burst ts1 = slot1_voice
slot_burst ts2 = slot2_voice

-- `LC_OPT + dst_group + src_sub`
abbrev pub dmrd_lc : Env → Dmrd → Bytes
dmrd_lc v d = v.codec.lc_opt ++ (d.dst_group ++ d.src_sub)

-- `a == b`, where `a` may be `None`.
abbrev pub is_value : Option Bytes → Bytes → Bool
is_value none b = false
is_value (some a) b = a == b

-- `_reset_hbp_to_ipsc_state`
unfoldable pub reset_hbp_to_ipsc_state : InCall → InCall
reset_hbp_to_ipsc_state i = record i {
  lc = none;
  emb_lc = none;
  hbp_stream = none;
  src_sub = none;
  dst_group = none;
  last_head = 0;
  started = false;
}

-- `_legacy_hbp_stream_drop`
unfoldable pub legacy_hbp_stream_drop : Config → Dmrd → Slot → Bool
legacy_hbp_stream_drop cfg d s =
    let foreign : Bool = elim s.inc.hbp_stream [
      | none ↦ false
      | some current ↦ not (current == d.stream)
    ] in
    legacy_flow cfg && (foreign && (in_active s && (not (is_head d) && is_term d)))

-- A packet with this burst type and payload, sent or queued.
unfoldable pub send_gv : Env → Dmrd → ℕ → ℕ → ℕ → Bytes → Line → Line
send_gv v d info rtp_pt burst_type gv_payload l =
    let (l', packet) = make_hbp_ipsc_packet v d.src_sub d.dst_group info rtp_pt gv_payload l in
    send_hbp_to_ipsc v.cfg v.now
      (record {
        packet = packet;
        src_sub = d.src_sub;
        dst_group = d.dst_group;
        burst_type = burst_type;
      })
      l'

-- The loop of `_emit_hbp_ipsc_start`.
unfoldable pub emit_heads : Env → Dmrd → ℕ → Bytes → ℕ → ℕ → Line → Line
emit_heads v d info lc zero idx l = l
emit_heads v d info lc (suc n) idx l =
    let rtp_pt : ℕ = if nat_eqb idx 0 then 0xdd else 0x5d in
    emit_heads v d info lc n (idx + 1) (
      send_gv v d info rtp_pt voice_head
        (voice_head ∷ build_ipsc_voice_payload v.codec lc voice_head) l)

abbrev pub header_count : Config → ℕ
header_count cfg = max 1 (min 5 cfg.hbp_to_ipsc_header_repeats)

abbrev pub set_started : Slot → Slot
set_started s = record s { inc = record s.inc { started = true } }

-- `_emit_hbp_ipsc_start`
unfoldable pub emit_hbp_ipsc_start : Env → Dmrd → ℕ → Line → Line
unfolding emit_heads
emit_hbp_ipsc_start v d info l =
    if l.slot.inc.started
    then l
    else map_slot set_started
        (emit_heads v d info (or_else l.slot.inc.lc (dmrd_lc v d)) (header_count v.cfg) 0 l)

-- A new call: its metadata, the next stream byte, and random RTP counters.
unfoldable pub begin_call : Env → Dmrd → Bytes → Line → Line
begin_call v d lc l =
    let ctr = (l.shared.in_stream_ctr + 1) % 256 in
    record l {
      shared = record l.shared { in_stream_ctr = ctr };
      slot = record l.slot {
        inc = record l.slot.inc {
          lc = some lc;
          emb_lc = some (v.codec.encode_emblc lc);
          hbp_stream = some d.stream;
          src_sub = some d.src_sub;
          dst_group = some d.dst_group;
          last_head = v.now;
          started = false;
          stream_id = ctr;
          rtp_seq = v.rand_seq;
          rtp_ts = v.rand_ts;
        };
      };
    }

-- `duplicate_head`
unfoldable pub duplicate_head : ℕ → Dmrd → InCall → Bool
duplicate_head now d i =
    is_some i.lc
    && (is_value i.hbp_stream d.stream
        || (is_value i.src_sub d.src_sub
            && (is_value i.dst_group d.dst_group && leb (now - i.last_head) 1500000)))

-- The branch `if is_head`. A header that interrupts a started call resets its state first.
unfoldable pub hbp_head : Env → Dmrd → ℕ → Line → Line
unfolding duplicate_head begin_call reset_hbp_to_ipsc_state emit_hbp_ipsc_start
hbp_head v d info l =
    let lc = decode_hbp_voice_lc v.codec d.payload_33 in
    let i = l.slot.inc in
    let i' =
      if is_some i.hbp_stream && (is_some i.lc && i.started)
      then reset_hbp_to_ipsc_state i
      else i in
    let begun = begin_call v d lc (map_slot (λ s. record s { inc = i' }) l) in
    if duplicate_head v.now d i
    then map_slot
        (λ s. record s {
          inc = record s.inc {
            lc = some lc;
            emb_lc = some (v.codec.encode_emblc lc);
            last_head = v.now;
          };
        })
        l
    else if v.cfg.hbp_start_on_voice
    then begun
    else emit_hbp_ipsc_start v d info begun

-- The end of a call: the lock is released and the call's state reset.
unfoldable pub end_hbp_call : Config → ℕ → Slot → Slot
unfolding reset_hbp_to_ipsc_state
end_hbp_call cfg now s = record s {
  lock = release_call_lock cfg now from_hbp s.lock;
  inc = reset_hbp_to_ipsc_state s.inc;
}

-- The branch `if is_term`.
unfoldable pub hbp_term : Env → Dmrd → ℕ → Line → Line
unfolding end_hbp_call
hbp_term v d info l =
    let lc = or_else l.slot.inc.lc (dmrd_lc v d) in
    let gv_payload = voice_term ∷ build_ipsc_voice_payload v.codec lc voice_term in
    let sent =
      if l.slot.inc.started
      then send_gv v d (bit_or info end_msk) 0x5e voice_term gv_payload l
      else l in
    map_slot (end_hbp_call v.cfg v.now) sent

-- The payload of a voice burst, by its place in the superframe.
unfoldable pub voice_gv_payload : Env → Dmrd → ℕ → InCall → Bytes
voice_gv_payload v d burst i =
    let ambe_19 = extract_ambe_from_dmrd v.codec d.payload_33 in
    let pos = max (dtype d) 1 in
    let emb_hdr = bit_and (get_or (to_bytes (take 8 (emb_word v.codec pos))) 0 0) 0xfe in
    if nat_eqb (frame_type d) hbpf_frametype_voicesync
    then burst ∷ 0x14 ∷ 0x40 ∷ ambe_19
    else if nat_eqb (dtype d) 4
    then burst
      ∷ 0x22
      ∷ 0x16
      ∷ (ambe_19
          ++ (to_bytes (emb_fragment v.codec 4 i.emb_lc)
              ++ (take 3 (or_else i.lc (0x00 ∷ 0x00 ∷ 0x00 ∷ []))
                  ++ (d.dst_group ++ (d.src_sub ++ 0x14 ∷ [])))))
    else if leb 5 (dtype d)
    then burst ∷ 0x19 ∷ 0x06 ∷ (ambe_19 ++ 0x00 ∷ 0x00 ∷ 0x00 ∷ 0x00 ∷ 0x10 ∷ [])
    else burst
      ∷ 0x19
      ∷ 0x06
      ∷ (ambe_19 ++ (to_bytes (emb_fragment v.codec pos i.emb_lc) ++ emb_hdr ∷ []))

-- A voice burst of a call that is there: the start packets first, if they have not been sent.
unfoldable pub hbp_voice_burst : Env → Dmrd → ℕ → ℕ → Line → Line
unfolding emit_hbp_ipsc_start
hbp_voice_burst v d info burst l =
    let l' = emit_hbp_ipsc_start v d info l in
    send_gv v d info 0x5d burst (voice_gv_payload v d burst l'.slot.inc) l'

-- What follows the branches for headers and terminators; without a call, a late entry.
unfoldable pub hbp_voice : Env → Dmrd → ℕ → ℕ → Line → Line
unfolding hbp_voice_burst begin_call
hbp_voice v d info burst l =
    if is_some l.slot.inc.lc
    then hbp_voice_burst v d info burst l
    else if legacy_flow v.cfg
    then l
    else hbp_voice_burst v d info burst (begin_call v d (dmrd_lc v d) l)

-- `hbp_voice_received` on the timeslot of the packet.
unfoldable pub hbp_packet : Env → Dmrd → Timeslot → Line → Line
hbp_packet v d ts l0 =
    let l = map_slot (λ s. record s { inc = record s.inc { last_pkt = v.now } }) l0 in
    let (k, blocked) =
      call_lock_blocks v.cfg v.now (hbp_stream d.stream) d.src_sub d.dst_group (is_term d) l.slot in
    let l' = map_slot (λ s. record s { lock = k }) l in
    if blocked || legacy_hbp_stream_drop v.cfg d l'.slot
    then l'
    else if is_head d
    then hbp_head v d (call_info ts) l'
    else if is_term d
    then hbp_term v d (call_info ts) l'
    else hbp_voice v d (call_info ts) (slot_burst ts) l'
