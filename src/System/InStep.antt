-- ===== src/System/InStep.antt =====
-- ipsc2hbp.py: each event keeps the HBP client in step with the session of the IPSC side.
use ipsc2hbp.Base.{
  ℕ, ◌≡◌, refl, sym, Bool, true, false, some, List, [], arith, if◌then◌else◌, subst, Option-cases,
  inl, inr,
}
use ipsc2hbp.Dmr.{Bytes}
use ipsc2hbp.Ipsc.Auth
use ipsc2hbp.Ipsc.Follow.{follow}
use ipsc2hbp.Ipsc.Master
use ipsc2hbp.Ipsc.Peer
use ipsc2hbp.Ipsc.Peer.Upstream.{IsReported}
use ipsc2hbp.Hbp.Protocol
use ipsc2hbp.Hbp.Protocol.{Protocol}
use ipsc2hbp.Hbp.Client
use ipsc2hbp.Hbp.Client.{Client, LoopState, is_ended, init_client}
use ipsc2hbp.Translate.State.{Timeslot}
use ipsc2hbp.Translate.Callbacks
use ipsc2hbp.Translate.Callbacks.{is_tracking}
use ipsc2hbp.Translate.Valid.Switches.{drain_timer-switches}
use ipsc2hbp.System.{
  World, Moment, Stack, as_master, as_peer, System, Output, is_registered, same_loop,
}
use ipsc2hbp.System.Wiring.{
  callback, set_stack, set_connection, on_connection, stack_datagram, stack_watchdog,
  stack_maintenance,
}
use ipsc2hbp.System.Loop.{on_drain, is_due, at_loop}
use ipsc2hbp.System.Calls.{
  Tracks, SameParts, callback-SameParts, from_connection_all-SameParts, from_stack_all-Switched,
}

-- What the peer has reported is what there is; the master has nothing to report by.
abbrev pub StackIsReported : Stack → Type 0
StackIsReported (as_master m) = Unit {0}
StackIsReported (as_peer p) = IsReported p

-- An event of the stack tells the translator of a session's begin and end in turn.
abbrev pub Reports : Bool → Stack × List Auth.Effect → Type 0
Reports up (k, es) = (follow up es ≡ some (is_registered k)) × StackIsReported k

module _ (w : World) where
  pub stack_datagram-Reports :
      (now : ℕ) (d host : Bytes) (port : ℕ) (k : Stack)
      → StackIsReported k
      → Reports (is_registered k) (stack_datagram w now d host port k)
  unfolding stack_datagram Master.Sessions.react Peer.Upstream.react
  stack_datagram-Reports now d host port (as_master m) h = (
    Master.Sessions.react-follow w.cfg w.hmac w.inet_aton (Master.Sessions.datagram now d host port)
        m,
    tt,
  )
  stack_datagram-Reports now d host port (as_peer p) h =
      Peer.Upstream.react-Turns w.cfg w.hmac (Peer.Upstream.datagram now d host port) p h

  pub stack_watchdog-Reports :
      (now : ℕ) (k : Stack) → StackIsReported k → Reports (is_registered k) (stack_watchdog w now k)
  unfolding stack_watchdog Master.Sessions.react Peer.Upstream.react
  stack_watchdog-Reports now (as_master m) h = (
    Master.Sessions.react-follow w.cfg w.hmac w.inet_aton (Master.Sessions.watchdog_due now) m,
    tt,
  )
  stack_watchdog-Reports now (as_peer p) h =
      Peer.Upstream.react-Turns w.cfg w.hmac (Peer.Upstream.watchdog_due now) p h

  pub stack_maintenance-Reports :
      (now : ℕ) (k : Stack)
      → StackIsReported k
      → Reports (is_registered k) (stack_maintenance w now k)
  unfolding stack_maintenance Peer.Upstream.react follow
  stack_maintenance-Reports now (as_master m) h = (refl, tt)
  stack_maintenance-Reports now (as_peer p) h =
      Peer.Upstream.react-Turns w.cfg w.hmac (Peer.Upstream.maintenance_due now) p h

  -- The invariant of the system from `hbp_client.start` to a signal.
  pub record InStep (s : System) : Type 0 where
    pub reported : StackIsReported s.stack
    pub tracks : Tracks w.cfg (is_registered s.stack) s.client

  pub set_stack-InStep :
      (at : Moment) (r : Stack × List Auth.Effect) (s : System)
      → InStep s
      → Reports (is_registered s.stack) r
      → InStep (set_stack w at r s).0
  set_stack-InStep at (k, es) s h (f, rep) =
      let z =
        from_stack_all-Switched w at (is_registered s.stack) (is_registered k) es
          (record s { stack = k }) f h.tracks in
      record {
        reported = subst StackIsReported (sym z.stack) rep;
        tracks =
            subst (λ x. Tracks w.cfg (is_registered x) (set_stack w at (k, es) s).0.client)
              (sym z.stack) z.tracks;
      }

  same-InStep : {s t : System} → SameParts s t → InStep s → InStep t
  same-InStep {s} {t} p h = record {
    reported = subst StackIsReported (sym p.stack) h.reported;
    tracks =
        subst (λ k. Tracks w.cfg (is_registered k) t.client) (sym p.stack)
          (subst (Tracks w.cfg (is_registered s.stack)) (sym p.client) h.tracks);
  }

  set_connection-InStep :
      (at : Moment) (r : Protocol × List Protocol.Effect) (s : System)
      → InStep s
      → InStep (set_connection w at r s).0
  set_connection-InStep at (p, es) s h =
      let s' : System = record s { client = record s.client { protocol = some p } } in
      let t = h.tracks in
      same-InStep (from_connection_all-SameParts w at es s') (record {
        reported = h.reported;
        tracks = record { follows = t.follows; loops = t.loops; has_loop = t.has_loop };
      })

  pub on_connection-InStep :
      (at : Moment) (f : Protocol → Protocol × List Protocol.Effect) (s : System)
      → InStep s
      → InStep (on_connection w at f s).0
  on_connection-InStep at f s h = elim (Option-cases s.client.protocol) [
    | inl e ↦ rw (e, on_connection) h
    | inr (p, e) ↦ rw (e, on_connection) (set_connection-InStep at (f p) s h)
  ]

  pub on_drain-InStep :
      (ts : Timeslot) (now after : ℕ) (s : System) → InStep s → InStep (on_drain w ts now after s).0
  unfolding on_drain
  on_drain-InStep ts now after s h =
      let r = Callbacks.drain_timer w.cfg now after ts s.translator in
      let t =
        same-InStep
          (callback-SameParts w r s (drain_timer-switches w.cfg now after ts s.translator)) h in
      elim (is_due w now after (Callbacks.line ts s.translator).slot.pacer.tx_handle)
        as (λ b. InStep (if b then callback w r s else (s, [])).0) [ true ↦ t | false ↦ h ]

  -- A turn of the connect loop.
  pub turn-InStep :
      (s : System) (c : Client)
      → InStep s
      → Tracks w.cfg (is_registered s.stack) c
      → InStep (record s { client = c })
  turn-InStep s c h t = record { reported = h.reported; tracks = t }

  pub loop-Tracks :
      (up : Bool) (c : Client)
      → Tracks w.cfg up c
      → Tracks w.cfg up (Client.loop_head c)
        × Tracks w.cfg up (Client.loop_tail c)
        × Tracks w.cfg up (Client.connection_lost c)
        × Tracks w.cfg up (Client.opened w.cfg c).0
  unfolding Client.loop_head Client.loop_tail Client.connection_lost Client.opened
  loop-Tracks up c h = (ground arith, ground arith, ground arith, ground arith)

  pub at_loop-InStep :
      (l : LoopState) (r : System × List Output) (s : System)
      → InStep s
      → InStep r.0
      → InStep (at_loop w l r s).0
  at_loop-InStep l r s h k =
      elim (same_loop l s.client.loop) as (λ b. InStep (if b then r else (s, [])).0) [
        | true ↦ k
        | false ↦ h
      ]
