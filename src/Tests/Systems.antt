-- ===== src/Tests/Systems.antt =====
-- The whole program, on concrete events.
use ipsc2hbp.Dmr.{from_be}
use ipsc2hbp.Ipsc.Auth.{send}
use ipsc2hbp.Ipsc.Master
use ipsc2hbp.Hbp.Client
use ipsc2hbp.System.Wiring
use ipsc2hbp.System.Loop
use ipsc2hbp.Base.{
  ◌≡◌, refl, true, false, Option, none, some, List, [], ◌∷◌, ◌++◌, arith, replicate, list_eqb, map,
}
use ipsc2hbp.Dmr.{Bytes}
use ipsc2hbp.Config.{Config}
use ipsc2hbp.Config.Load.{File, parsed, load, ok}
use ipsc2hbp.Config.Load.Valid.{ConfigIsValid}
use ipsc2hbp.Ipsc.Const.{group_voice}
use ipsc2hbp.Ipsc.Auth.{authenticated}
use ipsc2hbp.Ipsc.Wire.{parse_group_voice_meta}
use ipsc2hbp.Ipsc.Master.{Master, init_master, opcode_of}
use ipsc2hbp.Hbp.Const.{hbpf_rptl}
use ipsc2hbp.Hbp.Protocol
use ipsc2hbp.Hbp.Protocol.{Protocol, fresh}
use ipsc2hbp.Hbp.Client.{LoopState, init_client}
use ipsc2hbp.Translate.State.{Timeslot, Translator, Queued, init, idle_pacer}
use ipsc2hbp.Translate.Callbacks
use ipsc2hbp.System.{World, Moment, env, System, as_master}
use ipsc2hbp.System.Loop.{
  Event, ipsc_datagram, hbp_datagram, drain_due, endpoint_up, loop_started, signal, on_event, run,
  boot, main, up, world_of, client_started, loop_left, cancel_delivered,
}
use ipsc2hbp.System.Valid.{EventsAreValid, MomentIsValid}
use ipsc2hbp.System.Sent.{hbp_sent, ipsc_sent}
use ipsc2hbp.System.Silence.{HbpDown, offline_silent, unregistered_silent}
use ipsc2hbp.System.Forward.{dmrds, voice_forwarded}
use ipsc2hbp.System.Return.{peer_packets, signed, dmrd_forwarded}
use ipsc2hbp.System.Program.{Running, run_through, IsIdle, program_runs}
use ipsc2hbp.Tests.Loader.{sample, key_config, sample_loads, any_address}
use ipsc2hbp.Tests.{test_config, padding_codec}

abbrev digest : Bytes → Bytes
digest b = replicate 20 0x5c

abbrev no_address : Bytes → Option Bytes
no_address b = none

-- No authentication, so that the packets are short.
abbrev open_config : Config
open_config = record test_config { auth_enabled = false }

abbrev test_world : World
test_world = record {
  cfg = open_config;
  codec = padding_codec;
  hmac = digest;
  sha256 = digest;
  inet_aton = no_address;
}

abbrev at : Moment
at = record { now = 1000; urandom = 1 ∷ 2 ∷ 3 ∷ 4 ∷ []; rand_seq = 5; rand_ts = 6 }

abbrev host : Bytes
host = 0x31 ∷ []

abbrev reg_packet : Bytes
reg_packet = 0x90 ∷ 0 ∷ 0 ∷ 0 ∷ 7 ∷ 0x6a ∷ 0 ∷ 0 ∷ 0 ∷ 0x14 ∷ []

abbrev voice_packet : Bytes
voice_packet = group_voice ∷ replicate 40 0x11

abbrev dmrd_packet : Bytes
dmrd_packet = 0x44 ∷ 0x4d ∷ 0x52 ∷ 0x44 ∷ replicate 51 0x11

-- A peer registers, the client opens its endpoint, and the peer speaks.
abbrev events : List Event
events =
    ipsc_datagram at reg_packet host 50000
    ∷ loop_started
    ∷ endpoint_up
    ∷ ipsc_datagram at voice_packet host 50000
    ∷ []

abbrev held : Master
held = record init_master {
  has_transport = true;
  registered = true;
  peer_id = some (0 ∷ 0 ∷ 0 ∷ 7 ∷ []);
  peer_ip = some host;
  peer_port = some 50000;
}

abbrev online : Protocol
online = record fresh { state = Protocol.connected; pinging = true; has_transport = true }

-- Both sides are up.
abbrev joined : System
joined = record {
  stack = as_master held;
  translator = init;
  client = record {
    protocol = some online;
    active = true;
    loop = LoopState.waiting;
    has_loop = true;
  };
}

-- The HBP side is down, and nobody is registered.
abbrev alone : System
alone = record joined { stack = as_master init_master; client = init_client }

valid_moment : MomentIsValid at
valid_moment = record { seq_range = omega arith; ts_range = omega arith }

valid_events : EventsAreValid events
valid_events = (valid_moment, (tt, (tt, (valid_moment, tt))))

offline_silent_example :
    (hbp_sent
        (on_event test_world
          (ipsc_datagram at voice_packet host 50000)
          (record joined { client = init_client })).1
      ≡ [])
    × HbpDown
        (on_event test_world
          (ipsc_datagram at voice_packet host 50000)
          (record joined { client = init_client })).0.client
offline_silent_example =
    offline_silent test_world at voice_packet host 50000 (record joined { client = init_client })
      refl

unregistered_silent_example :
    (ipsc_sent (on_event test_world (hbp_datagram at dmrd_packet) alone).1 ≡ [])
    × (ipsc_sent (on_event test_world (drain_due Timeslot.ts1 1000 1000) alone).1 ≡ [])
unregistered_silent_example =
    unregistered_silent test_world at dmrd_packet Timeslot.ts1 1000 1000 alone refl

voice_forwarded_example :
    hbp_sent (on_event test_world (ipsc_datagram at voice_packet host 50000) joined).1
    ≡ dmrds (Callbacks.ipsc_received (env test_world at) true voice_packet Timeslot.ts1 0x11 init).1
unfolding authenticated opcode_of parse_group_voice_meta list_eqb
voice_forwarded_example =
    voice_forwarded test_world at held online voice_packet host 50000 group_voice
      (replicate 40 0x11) Timeslot.ts1 0x11 joined refl (refl, refl, refl)
      (record { accepted = refl; is_voice = refl; from_peer = refl }) refl

dmrd_forwarded_example :
    ipsc_sent (on_event test_world (hbp_datagram at dmrd_packet) joined).1
    ≡ map
        (signed test_world)
        (peer_packets (Callbacks.hbp_voice_received (env test_world at) true dmrd_packet init).1)
unfolding Protocol.command list_eqb
dmrd_forwarded_example =
    dmrd_forwarded test_world at held host 50000 online dmrd_packet joined refl
      (record {
        registered = refl;
        open_endpoint = refl;
        at_ip = refl;
        at_port = refl;
        ip_set = refl;
        port_set = refl;
      })
      refl refl refl

abbrev queued : Queued
queued = record {
  packet = voice_packet;
  src_sub = 0 ∷ 0 ∷ 1 ∷ [];
  dst_group = 0 ∷ 0 ∷ 2 ∷ [];
  burst_type = 0x0a;
}

-- A packet waits on the first timeslot, and its timer is due.
abbrev waiting_packet : Translator
waiting_packet = record init {
  slot1 = record init.slot1 {
    pacer = record idle_pacer { tx_queue = queued ∷ []; tx_handle = some 1000 };
  };
}

abbrev waiting : System
waiting = record joined { translator = waiting_packet }

-- HMAC-SHA1 under a key
abbrev keyed : Bytes → Bytes → Bytes
keyed key b = digest b

abbrev loaded_world : World
loaded_world = world_of padding_codec keyed digest any_address key_config

comes_up :
    (f : File) (cfg : Config)
    → load any_address f ≡ ok cfg
    → main padding_codec keyed digest any_address true f
      ≡ up (boot (world_of padding_codec keyed digest any_address cfg))
unfolding main
comes_up f cfg h = rw (h, main) refl

-- A datagram of nobody in particular, before the client is started.
abbrev stray : List Event
stray = ipsc_datagram at voice_packet host 50000 ∷ []

stray_changes_nothing : IsIdle (run loaded_world stray (boot loaded_world).0).0
unfolding run boot on_event Wiring.stack_datagram Wiring.from_stack_all Wiring.from_stack
    Wiring.perform Wiring.act Loop.open_stack Client.start Client.activate Client.deactivate
    Client.loop_head Client.opened Protocol.connection_made Master.datagram_received Master.dispatch
    Master.handle opcode_of authenticated list_eqb from_be send Master.send_peer_list
    Callbacks.peer_registered Callbacks.peer_lost
stray_changes_nothing = (refl, refl)

program_runs_example :
    ConfigIsValid any_address key_config
    × Running loaded_world (run_through loaded_world stray events (boot loaded_world).0)
program_runs_example =
    program_runs padding_codec keyed digest any_address true (parsed sample) key_config
      (boot loaded_world) stray events (comes_up (parsed sample) key_config sample_loads)
      sample_loads (valid_moment, tt) (tt, tt) stray_changes_nothing valid_events
      (tt, (tt, (tt, (tt, tt))))

-- A peer that registers and is gone again before the endpoint is up.
abbrev short_session : List Event
short_session =
    client_started
    ∷ ipsc_datagram at reg_packet host 50000
    ∷ loop_started
    ∷ ipsc_datagram at (0x9a ∷ 0 ∷ 0 ∷ 0 ∷ 7 ∷ []) host 50000
    ∷ endpoint_up
    ∷ []

late_login :
    (hbp_sent (run test_world short_session (boot test_world).0).1
      ≡ (hbpf_rptl ++ Protocol.radio_id_b open_config) ∷ [])
    × ((run test_world short_session (boot test_world).0).0.client.active ≡ false)
unfolding run boot on_event Wiring.stack_datagram Wiring.from_stack_all Wiring.from_stack
    Wiring.perform Wiring.act Loop.open_stack Client.start Client.activate Client.deactivate
    Client.loop_head Client.opened Protocol.connection_made Master.datagram_received Master.dispatch
    Master.handle opcode_of authenticated list_eqb from_be send Master.send_peer_list
    Callbacks.peer_registered Callbacks.peer_lost
late_login = (refl, refl)

-- A peer that registers before `hbp_client.start` leaves an active client without a connect loop,
-- and the start, in tracking mode, does not make one.
abbrev early_session : List Event
early_session =
    ipsc_datagram at reg_packet host 50000 ∷ client_started ∷ loop_started ∷ endpoint_up ∷ []

early_registration :
    ((run test_world early_session (boot test_world).0).0.client.active ≡ true)
    × ((run test_world early_session (boot test_world).0).0.client.loop ≡ LoopState.ended)
unfolding run boot on_event Wiring.stack_datagram Wiring.from_stack_all Wiring.from_stack
    Wiring.perform Wiring.act Loop.open_stack Client.start Client.activate Client.deactivate
    Client.loop_head Client.opened Protocol.connection_made Master.datagram_received Master.dispatch
    Master.handle opcode_of authenticated list_eqb from_be send Master.send_peer_list
    Callbacks.peer_registered Callbacks.peer_lost
early_registration = (refl, refl)

-- A peer that registers again while the `finally` block ends the cancelled tasks leaves an active
-- client, whose connect loop ends all the same.
abbrev late_registration : List Event
late_registration =
    signal at ∷ loop_left at ∷ ipsc_datagram at reg_packet host 50000 ∷ cancel_delivered ∷ []

abbrev open_master : Master
open_master = record init_master { has_transport = true }

left_active :
    ((run test_world late_registration
        (record joined { stack = as_master open_master })).0.client.active
      ≡ true)
    × ((run test_world late_registration
          (record joined { stack = as_master open_master })).0.client.loop
        ≡ LoopState.ended)
unfolding run boot on_event Wiring.stack_datagram Wiring.from_stack_all Wiring.from_stack
    Wiring.perform Wiring.act Loop.open_stack Client.start Client.activate Client.deactivate
    Client.loop_head Client.opened Protocol.connection_made Master.datagram_received Master.dispatch
    Master.handle opcode_of authenticated list_eqb from_be send Master.send_peer_list
    Callbacks.peer_registered Callbacks.peer_lost Loop.stop_both Wiring.stack_stop Client.stop
    Client.cancel_delivered Protocol.disconnect
left_active = (refl, refl)
