-- ===== src/System/Loop.antt =====
-- ipsc2hbp.py: what `main` and the event loop call, and `main` up to the open endpoint. A run is
-- any sequence of calls: the loop handles datagrams also between the opening of the endpoint and
-- `hbp_client.start`, and again in `finally`, between a signal and the end of the cancelled tasks.
use ipsc2hbp.Base.{
  ℕ, leb, Bool, false, ◌&&◌, Option, none, some, List, [], ◌∷◌, ◌++◌, if◌then◌else◌,
}
use ipsc2hbp.Dmr.{Bytes}
use ipsc2hbp.Dmr.Codec.{Codec}
use ipsc2hbp.Config.{Config, IpscMode}
use ipsc2hbp.Config.Load.{File, ok, load}
use ipsc2hbp.Ipsc.Auth
use ipsc2hbp.Ipsc.Master
use ipsc2hbp.Ipsc.Master.{Master}
use ipsc2hbp.Ipsc.PeerState.{init_peer}
use ipsc2hbp.Ipsc.Peer
use ipsc2hbp.Hbp.Protocol
use ipsc2hbp.Hbp.Protocol.{Protocol}
use ipsc2hbp.Hbp.Client
use ipsc2hbp.Hbp.Client.{Client, LoopState, init_client}
use ipsc2hbp.Translate.State.{Timeslot, init}
use ipsc2hbp.Translate.Callbacks
use ipsc2hbp.System.{
  World, Moment, Stack, as_master, System, Output, ipsc_datagrams, hbp_datagrams, same_loop,
}
use ipsc2hbp.System.Wiring.{
  callback, set_stack, stack_datagram, stack_watchdog, stack_maintenance, stack_stop, peer_event,
  on_connection,
}

-- What `main` and the event loop call: `hbp_client.start`; datagrams, errors, the ends of the
-- sleeps, and what the connect loop waits for; a signal, and what follows the loop in `finally`.
pub data Event : Type 0 where
  client_started : Event
  ipsc_datagram : Moment → Bytes → Bytes → ℕ → Event
  ipsc_watchdog ipsc_maintenance : Moment → Event
  hbp_datagram : Moment → Bytes → Event
  hbp_error hbp_keepalive : Moment → Event
  drain_due : Timeslot → ℕ → ℕ → Event
  loop_started endpoint_up endpoint_failed connection_lost slept cancel_delivered : Event
  signal loop_left : Moment → Event

module _ (w : World) where
  -- Only what the loop waits for can end.
  abbrev pub at_loop : LoopState → System × List Output → System → System × List Output
  at_loop l r s = if same_loop l s.client.loop then r else (s, [])

  abbrev pub set_client : Client → System → System × List Output
  set_client c s = (record s { client = c }, [])

  -- A timer runs when it is pending and due.
  abbrev pub is_due : ℕ → ℕ → Option ℕ → Bool
  is_due now after none = false
  is_due now after (some due) = leb due now && leb now after

  unfoldable pub on_drain : Timeslot → ℕ → ℕ → System → System × List Output
  on_drain ts now after s =
      if is_due now after (Callbacks.line ts s.translator).slot.pacer.tx_handle
      then callback w (Callbacks.drain_timer w.cfg now after ts s.translator) s
      else (s, [])

  -- What the signal handler `_shutdown` and the `finally` block do to the parts.
  unfoldable pub stop_both : Moment → System → System × List Output
  stop_both at s =
      let (s', out) = set_stack w at (stack_stop w s.stack) s in
      let (c, effects) = Client.stop w.cfg s'.client in
      (record s' { client = c }, out ++ hbp_datagrams effects)

  unfoldable pub on_event : Event → System → System × List Output
  on_event client_started s = set_client (Client.start w.cfg s.client) s
  on_event (ipsc_datagram at d host port) s =
      set_stack w at (stack_datagram w at.now d host port s.stack) s
  on_event (ipsc_watchdog at) s = set_stack w at (stack_watchdog w at.now s.stack) s
  on_event (ipsc_maintenance at) s = set_stack w at (stack_maintenance w at.now s.stack) s
  on_event (hbp_datagram at d) s =
      on_connection w at (λ p. Protocol.datagram_received w.cfg w.sha256 at.now d p) s
  on_event (hbp_error at) s = on_connection w at (λ p. Protocol.error_received w.cfg p) s
  on_event (hbp_keepalive at) s = on_connection w at (λ p. Protocol.keepalive w.cfg at.now p) s
  on_event (drain_due ts now after) s = on_drain ts now after s
  on_event loop_started s = at_loop LoopState.starting (set_client (Client.loop_head s.client) s) s
  on_event endpoint_up s =
      let (c, effects) = Client.opened w.cfg s.client in
      at_loop LoopState.opening (record s { client = c }, hbp_datagrams effects) s
  on_event endpoint_failed s =
      at_loop LoopState.opening (set_client (Client.loop_tail s.client) s) s
  on_event connection_lost s = set_client (Client.connection_lost s.client) s
  on_event slept s = at_loop LoopState.sleeping (set_client (Client.loop_head s.client) s) s
  on_event cancel_delivered s =
      at_loop LoopState.cancelled (set_client (Client.cancel_delivered s.client) s) s
  on_event (signal at) s = stop_both at s
  on_event (loop_left at) s = stop_both at s

  unfoldable pub run : List Event → System → System × List Output
  run [] s = (s, [])
  run (e ∷ es) s = let (s', out) = on_event e s in let (s'', out') = run es s' in (s'', out ++ out')

  -- The stack of the configured mode, with its endpoint.
  unfoldable pub open_stack : Stack × List Auth.Effect
  open_stack = elim w.cfg.ipsc_mode [
    | IpscMode.master ↦ (as_master (Master.connection_made Master.init_master), [])
    | IpscMode.peer ↦ peer_event w (Peer.connection_made w.cfg w.hmac (init_peer w.cfg))
  ]

  -- The parts, and the open IPSC endpoint.
  unfoldable pub boot : System × List Output
  boot = (
    record { stack = open_stack.0; translator = init; client = init_client },
    ipsc_datagrams open_stack.1,
  )

-- How `main` ends before the endpoint is open, or that it is open.
pub data Started : Type 0 where
  configuration_error bind_error : Started
  up : System × List Output → Started

-- The surroundings of a process with a configuration: HMAC-SHA1 is under its key.
abbrev pub world_of :
    Codec → (Bytes → Bytes → Bytes) → (Bytes → Bytes) → (Bytes → Option Bytes) → Config → World
world_of codec hmac sha256 inet_aton cfg = record {
  cfg = cfg;
  codec = codec;
  hmac = hmac cfg.auth_key;
  sha256 = sha256;
  inet_aton = inet_aton;
}

-- `main`: the configuration is read, then the endpoint is bound.
unfoldable pub main :
    Codec
    → (Bytes → Bytes → Bytes)
    → (Bytes → Bytes)
    → (Bytes → Option Bytes)
    → Bool
    → File
    → Started
main codec hmac sha256 inet_aton binds f = elim (load inet_aton f) [
  | ok cfg ↦ if binds then up (boot (world_of codec hmac sha256 inet_aton cfg)) else bind_error
  | _ ↦ configuration_error
]
