-- ===== src/Translate/Valid/Switches.antt =====
-- translate/translator.py: packets and timers turn the HBP client neither on nor off; only
-- `peer_registered` and `peer_lost` do.
use ipsc2hbp.Base.{
  ℕ, suc, zero, ◌≡◌, refl, ◌∙◌, Bool, true, false, [], arith, bit_or, get_elem?, slice,
}
use ipsc2hbp.Dmr.{Bytes}
use ipsc2hbp.Config.{Config}
use ipsc2hbp.Translate.State.{Line, Env, Timeslot, ts1, ts2, Translator, switches, switches_dmrd}
use ipsc2hbp.Translate.Packet.{build_dmrd}
use ipsc2hbp.Translate.Outbound.{
  Verdict, frame, send_frames, slot_flags, repeat_count, finish_burst, accept_ipsc, learn_metadata,
  ipsc_burst, ipsc_guards, ipsc_voice_received,
}
use ipsc2hbp.Translate.Inbound.{parse_dmrd, timeslot}
use ipsc2hbp.Translate.Callbacks.{line, ipsc_received, hbp_voice_received, drain_timer}
use ipsc2hbp.Translate.Valid.Inc.{drain_hbp_to_ipsc_queue-SameCalls}
use ipsc2hbp.Translate.Valid.Frame.{hbp_packet-SameOut}

send_frames-switches :
    (cfg : Config) (n : ℕ) (src dst : Bytes) (flags : ℕ) (sid payload : Bytes) (l : Line)
    → switches (send_frames cfg n src dst flags sid payload l).sent ≡ switches l.sent
unfolding send_frames
send_frames-switches cfg zero src dst flags sid payload l = refl
send_frames-switches cfg (suc n) src dst flags sid payload l =
    send_frames-switches cfg n src dst flags sid payload _
    ∙ switches_dmrd l.sent (build_dmrd cfg l.shared.out_seq src dst flags sid payload)

finish_burst-switches :
    (v : Env) (ts : Timeslot) (burst_type : ℕ) (src dst : Bytes) (w : Verdict) (l : Line)
    → switches (finish_burst v ts burst_type src dst w l).0.sent ≡ switches l.sent
unfolding finish_burst
finish_burst-switches v ts burst_type src dst (frame sid flags payload) l = ground (
  arith,
  send_frames-switches v.cfg (repeat_count v.cfg burst_type) src dst (bit_or (slot_flags ts) flags)
      sid payload l,
)
finish_burst-switches v ts burst_type src dst _ l = refl

accept_ipsc-switches :
    (v : Env) (d : Bytes) (ts : Timeslot) (burst_type : ℕ) (src dst : Bytes) (l : Line)
    → switches (accept_ipsc v d ts burst_type src dst l).0.sent ≡ switches l.sent
unfolding accept_ipsc
accept_ipsc-switches v d ts burst_type src dst l =
    finish_burst-switches v ts burst_type src dst (ipsc_burst v d burst_type src dst l.slot.out).1
      (record l {
        shared = learn_metadata d l.shared;
        slot = record l.slot {
          busy_last = v.now;
          out = (ipsc_burst v d burst_type src dst l.slot.out).0;
        };
      })

ipsc_voice_received-switches :
    (v : Env) (connected : Bool) (d : Bytes) (ts : Timeslot) (burst_type : ℕ) (l : Line)
    → switches (ipsc_voice_received v connected d ts burst_type l).0.sent ≡ switches l.sent
unfolding ipsc_voice_received
ipsc_voice_received-switches v connected d ts burst_type l =
    let src = slice 6 9 d in
    let dst = slice 9 12 d in
    let s = (ipsc_guards v (get_elem? d 5) burst_type src dst l.slot).0 in
    ground (arith, accept_ipsc-switches v d ts burst_type src dst (record l { slot = s }))

line-switches : (ts : Timeslot) (t : Translator) → switches (line ts t).sent ≡ []
line-switches ts1 t = refl
line-switches ts2 t = refl

pub ipsc_received-switches :
    (v : Env) (connected : Bool) (d : Bytes) (ts : Timeslot) (burst_type : ℕ) (t : Translator)
    → switches (ipsc_received v connected d ts burst_type t).1 ≡ []
unfolding ipsc_received
ipsc_received-switches v connected d ts burst_type t =
    ipsc_voice_received-switches v connected d ts burst_type (line ts t) ∙ line-switches ts t

pub hbp_voice_received-switches :
    (v : Env) (is_up : Bool) (d : Bytes) (t : Translator)
    → switches (hbp_voice_received v is_up d t).1 ≡ []
unfolding hbp_voice_received
hbp_voice_received-switches v false d t = refl
hbp_voice_received-switches v true d t =
    let p = parse_dmrd d in
    let sent =
      (hbp_packet-SameOut v p (timeslot p) (line (timeslot p) t)).switched
      ∙ line-switches (timeslot p) t in
    ground (arith, sent)

pub drain_timer-switches :
    (cfg : Config) (now after : ℕ) (ts : Timeslot) (t : Translator)
    → switches (drain_timer cfg now after ts t).1 ≡ []
unfolding drain_timer
drain_timer-switches cfg now after ts t =
    (drain_hbp_to_ipsc_queue-SameCalls cfg now after (line ts t)).switched ∙ line-switches ts t
