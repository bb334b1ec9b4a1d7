-- ===== src/Tests/Callbacks.antt =====
-- The translator's callbacks, on concrete calls.
use ipsc2hbp.Translate.Inbound.VoiceRun.{voices}
use ipsc2hbp.Translate.Inbound.CallSent.{call_packets, call_sent}
use ipsc2hbp.Translate.Inbound.{Dmrd}
use ipsc2hbp.Translate.Outbound.Short.{TooShort, guarded, source_of, group_of, raises_iff}
use ipsc2hbp.Translate.Outbound.{raised_index_error}
use ipsc2hbp.Base.{
  ℕ, ◌+◌, ◌≤◌, ◌≡◌, refl, true, false, ◌↔◌, take, some, List, [], ◌∷◌, ◌++◌, arith, replicate,
}
use ipsc2hbp.Dmr.{Bytes}
use ipsc2hbp.Config.{Config, IpscMode}
use ipsc2hbp.Ipsc.Const.{voice_head, voice_term, slot1_voice}
use ipsc2hbp.Translate.State.{
  idle_in, ts1, ts2, Queued, Line, Env, Translator, init, init_slot, idle_out, idle_pacer,
}
use ipsc2hbp.Translate.Packet.{build_dmrd}
use ipsc2hbp.Translate.Lock.{hbp_ipsc_queue_drained}
use ipsc2hbp.Translate.Pacer.{
  interval, drain_hbp_to_ipsc_queue, drain_queue, after_drain, send_hbp_to_ipsc_now,
  is_ipsc_slot_busy, schedule_hbp_to_ipsc_drain, due_at, send_hbp_to_ipsc,
}
use ipsc2hbp.Translate.Pacer.Fifo.{
  PacerEvent, offered, due, to_send, pending, pace_all, taken, pace_all-fifo, offer_all,
  drain-spacing,
}
use ipsc2hbp.Translate.Reflect.{remember_hbp_to_ipsc, should_suppress_ipsc_reflection}
use ipsc2hbp.Translate.Reflect.Suppressed.{Heard, hear, reflected_call_suppressed}
use ipsc2hbp.Translate.Outbound.{ipsc_voice_received, open_call}
use ipsc2hbp.Translate.Outbound.VoiceRun.{accept_all, voice_run, accept_all-voice_run}
use ipsc2hbp.Translate.Inbound.Start.{Quiet, packets, headers-Quiet}
use ipsc2hbp.Translate.Inbound.{parse_dmrd}
use ipsc2hbp.Translate.Callbacks.{ipsc_received, hbp_voice_received, check_call_timeouts}
use ipsc2hbp.Translate.Callbacks.Timeouts.{Rounded, check_call_timeouts_lem}
use ipsc2hbp.Translate.Valid.Reach.{IsValid, Reach, Step, Reach-IsValid}
use ipsc2hbp.Tests.{test_config, padding_codec}

abbrev env : Env
env = record {
  codec = padding_codec;
  cfg = test_config;
  now = 20000000;
  urandom = 1 ∷ 2 ∷ 3 ∷ 4 ∷ [];
  rand_seq = 100;
  rand_ts = 5000;
}

abbrev radio : Bytes
radio = 0 ∷ 0 ∷ 5 ∷ []

abbrev group : Bytes
group = 0 ∷ 0 ∷ 9 ∷ []

-- A header from IPSC, a voice packet, and a voice packet from HBP.
abbrev ipsc_packet : Bytes
ipsc_packet = 0x80 ∷ 0 ∷ 0 ∷ 0 ∷ 7 ∷ 3 ∷ (radio ++ (group ++ replicate 42 0x11))

abbrev dmrd_packet : Bytes
dmrd_packet = build_dmrd test_config 17 radio group 0x10 (1 ∷ 2 ∷ 3 ∷ 4 ∷ []) (replicate 33 0x55)

abbrev after_ipsc : Translator
after_ipsc = (ipsc_received env true ipsc_packet ts2 voice_head init).0

Reach-IsValid_example : IsValid test_config (hbp_voice_received env true dmrd_packet after_ipsc).0
Reach-IsValid_example = Reach-IsValid test_config (
    Reach.next
      (Reach.next Reach.start (Step.from_ipsc env true ipsc_packet ts2 voice_head init refl))
      (Step.from_hbp env true dmrd_packet after_ipsc refl
        (record { seq_range = omega arith; ts_range = omega arith })))

abbrev start_line : Line
start_line = record { shared = init.shared; slot = init_slot; sent = [] }

abbrev queued : ℕ → Queued
queued n = record { packet = n ∷ []; src_sub = radio; dst_group = group; burst_type = slot1_voice }

abbrev unguarded_config : Config
unguarded_config = record test_config { ipsc_busy_slot_guard = false }

abbrev events : List PacerEvent
events = offered 1000 (queued 1) ∷ offered 2000 (queued 2) ∷ due 1000 1500 ∷ due 61500 61600 ∷ []

pace_all-fifo_example :
    pending (pace_all unguarded_config events start_line)
    ≡ pending start_line ++ to_send (taken unguarded_config events start_line)
pace_all-fifo_example = pace_all-fifo unguarded_config refl refl events start_line

abbrev two_queued : Line
two_queued = record start_line {
  slot = record init_slot {
    pacer = record idle_pacer { tx_queue = queued 1 ∷ queued 2 ∷ []; tx_handle = some 1000 };
  };
}

drain-spacing_example : 1500 + interval test_config ≤ 61500 + 1000
unfolding offer_all drain_hbp_to_ipsc_queue drain_queue after_drain send_hbp_to_ipsc_now
    is_ipsc_slot_busy schedule_hbp_to_ipsc_drain due_at send_hbp_to_ipsc hbp_ipsc_queue_drained
drain-spacing_example =
    drain-spacing test_config 1000 1500 61500 (queued 1) (queued 2 ∷ []) ((2000, queued 3) ∷ [])
      two_queued refl refl refl

abbrev peer_config : Config
peer_config = record test_config { ipsc_mode = IpscMode.peer }

-- Two voice packets of the reflected stream with a packet of another in between, and the end.
abbrev reflected_voice : ℕ → ℕ → Heard
reflected_voice time stream = record {
  time = time;
  stream = stream;
  started = false;
  burst_type = slot1_voice;
  src_sub = radio;
  dst_group = group;
}

abbrev reflection : List Heard
reflection = reflected_voice 2060000 3 ∷ reflected_voice 2070000 9 ∷ reflected_voice 3900000 3 ∷ []

abbrev reflected_end : Heard
reflected_end = record (reflected_voice 5000000 3) { burst_type = voice_term }

reflected_call_suppressed_example :
    let first =
      should_suppress_ipsc_reflection peer_config 2000000 true
        (some 3)
        voice_head
        radio
        group
        (remember_hbp_to_ipsc peer_config 1000000 radio group init_slot.reflect) in
    let later = hear peer_config radio group 3 refl refl reflection first.0 in
    (first.1 ≡ true)
    × (later.1 ≡ true)
    × ((should_suppress_ipsc_reflection peer_config 5000000 false
          (some 3)
          voice_term
          radio
          group
          later.0).1
        ≡ true)
reflected_call_suppressed_example =
    reflected_call_suppressed peer_config radio group 3 refl refl 1000000 2000000 reflection
      reflected_end init_slot.reflect (omega arith) (omega arith)
      (omega arith, refl, (omega arith, refl, (omega arith, refl, tt))) refl (omega arith)

-- A call from IPSC that was last heard of at five seconds.
abbrev silent : Translator
silent = record init {
  slot1 = record init_slot {
    out = record idle_out { stream_id = some (1 ∷ []); last_pkt = 5000000 };
  };
}

check_call_timeouts_lem_example :
    let t' = check_call_timeouts test_config 20000000 10000000 silent in
    Rounded test_config 20000000 10000000 silent.slot1 t'.slot1
    × Rounded test_config 20000000 10000000 silent.slot2 t'.slot2
    × (check_call_timeouts test_config 20000000 10000000 t' ≡ t')
check_call_timeouts_lem_example = check_call_timeouts_lem test_config 20000000 10000000 silent

abbrev running : Line
running = record start_line {
  slot = record init_slot { out = open_call env env.urandom radio group 5 idle_out };
}

accept_all-voice_run_example :
    (accept_all env ts1 slot1_voice radio group env.urandom
      (ipsc_packet ∷ ipsc_packet ∷ [])
      running).sent
    ≡ running.sent
      ++ voice_run env ts1 slot1_voice radio group env.urandom running.slot.out.emb_lc
          running.shared.out_seq running.slot.out.frame_pos
          (ipsc_packet ∷ ipsc_packet ∷ [])
unfolding open_call
accept_all-voice_run_example =
    accept_all-voice_run env ts1 slot1_voice radio group env.urandom
      (ipsc_packet ∷ ipsc_packet ∷ []) running refl refl (refl, (refl, tt))

abbrev unpaced_env : Env
unpaced_env = record env { cfg = record unguarded_config { hbp_to_ipsc_pacing = false } }

-- A call whose header has come, and three of its voice packets.
abbrev begun : Line
begun = record start_line {
  slot = record init_slot { inc = record idle_in { lc = some (0 ∷ 0 ∷ 32 ∷ (group ++ radio)) } };
}

abbrev voice_burst : Dmrd
voice_burst = parse_dmrd dmrd_packet

call_sent_example :
    (voices unpaced_env 0 slot1_voice (voice_burst ∷ voice_burst ∷ voice_burst ∷ []) begun).sent
    ≡ begun.sent
      ++ call_packets unpaced_env 0 slot1_voice refl refl begun.shared begun.slot.inc
          (0 ∷ 0 ∷ 32 ∷ (group ++ radio))
          3
          voice_burst
          (voice_burst ∷ voice_burst ∷ [])
call_sent_example =
    call_sent unpaced_env 0 slot1_voice refl refl voice_burst (voice_burst ∷ voice_burst ∷ [])
      (0 ∷ 0 ∷ 32 ∷ (group ++ radio)) 3 begun refl (omega arith) (omega arith) refl (omega arith)
      refl

-- A header and a terminator with nothing in between.
abbrev head_packet : Bytes
head_packet = build_dmrd test_config 17 radio group 0x21 (1 ∷ 2 ∷ 3 ∷ 4 ∷ []) (replicate 33 0x55)

abbrev term_packet : Bytes
term_packet = build_dmrd test_config 18 radio group 0x22 (1 ∷ 2 ∷ 3 ∷ 4 ∷ []) (replicate 33 0x55)

headers-Quiet_example :
    Quiet start_line
      (packets env ts1 (parse_dmrd head_packet ∷ parse_dmrd term_packet ∷ []) start_line)
unfolding parse_dmrd build_dmrd
headers-Quiet_example =
    headers-Quiet env ts1 (parse_dmrd head_packet ∷ parse_dmrd term_packet ∷ []) start_line refl
      refl (refl, (refl, tt))

-- A voice packet of 31 bytes.
abbrev short_packet : Bytes
short_packet = take 31 ipsc_packet

raises_iff_example :
    ((ipsc_voice_received env true short_packet ts1 slot1_voice start_line).1 ≡ raised_index_error)
    ↔ ((true ≡ true)
        × ((guarded env short_packet ts1 slot1_voice
              (source_of short_packet)
              (group_of short_packet)
              start_line).1
            ≡ false)
        × TooShort env short_packet slot1_voice
            (guarded env short_packet ts1 slot1_voice
              (source_of short_packet)
              (group_of short_packet)
              start_line).0.out)
raises_iff_example = raises_iff env true short_packet ts1 slot1_voice start_line
