-- ===== src/Hbp/Client.antt =====
-- hbp/protocol.py: `HBPClient`, which keeps a connection up while it is active.
pub mod Reconnect
use ipsc2hbp.Base.{
  ◌≡◌, Bool, true, false, ◌&&◌, not, Option, none, some, List, [], ◌∷◌, ◌++◌, if◌then◌else◌,
}
use ipsc2hbp.Dmr.{Bytes}
use ipsc2hbp.Config.{Config, HbpMode}
use ipsc2hbp.Hbp.Protocol.{
  Protocol, Effect, fresh, connection_made, disconnect, is_connected, send_dmrd,
}

-- Where `_connect_loop` waits: there is no task or it has ended, it is about to run, it opens the
-- endpoint, it waits for the connection's end, it sleeps before the next attempt, or it was
-- cancelled and has not run since, so that its task is not done yet.
pub data LoopState : Type 0 where
  ended starting opening waiting sleeping cancelled : LoopState

pub record Client : Type 0 where
  pub protocol : Option Protocol
  pub active : Bool
  pub loop : LoopState
  -- `_loop` is set, from `start` on.
  pub has_loop : Bool

abbrev pub init_client : Client
init_client = record { protocol = none; active = false; loop = ended; has_loop = false }

abbrev pub is_ended : LoopState → Bool
is_ended ended = true
is_ended _ = false

-- `activate`; without an event loop no task is made, and the call raises behind `_active = True`.
unfoldable pub activate : Client → Client
activate c = if c.active then c else record c {
  active = true;
  loop = if is_ended c.loop && c.has_loop then starting else c.loop;
}

-- Whether `activate` raises: `self._loop` is `None` at `self._loop.create_task`.
abbrev pub activate_raises : Client → Bool
activate_raises c = not c.active && (is_ended c.loop && not c.has_loop)

drop_protocol : Config → Option Protocol → Option Protocol × List Effect
drop_protocol cfg none = (none, [])
drop_protocol cfg (some p) = let (p', effects) = disconnect cfg true p in (some p', effects)

-- `deactivate`
unfoldable pub deactivate : Config → Client → Client × List Effect
unfolding drop_protocol
deactivate cfg c =
    let (p, effects) = drop_protocol cfg c.protocol in
    if c.active then (record c { active = false; protocol = p }, effects) else (c, [])

-- `stop`; a task that is not done is cancelled, and ends when the event loop runs it next.
unfoldable pub stop : Config → Client → Client × List Effect
unfolding drop_protocol
stop cfg c =
    let (p, effects) = drop_protocol cfg c.protocol in
    (
      record c {
        active = false;
        protocol = p;
        loop = if is_ended c.loop then ended else cancelled;
      },
      effects,
    )

-- `start`
unfoldable pub start : Config → Client → Client
unfolding activate
start cfg c =
    let c' : Client = record c { has_loop = true } in
    elim cfg.hbp_mode [ HbpMode.persistent ↦ activate c' | HbpMode.tracking ↦ c' ]

-- `send_dmrd`
unfoldable pub client_send_dmrd : Bytes → Client → List Effect
client_send_dmrd b c = elim c.protocol [ none ↦ [] | some p ↦ send_dmrd b p ]

-- `is_connected`
abbrev pub client_is_connected : Client → Bool
client_is_connected c = elim c.protocol [ none ↦ false | some p ↦ is_connected p ]

-- `while self._active`, at the head of the loop
unfoldable pub loop_head : Client → Client
loop_head c = record c { loop = if c.active then opening else ended }

-- `if self._active: … sleep`, at its end
unfoldable pub loop_tail : Client → Client
unfolding loop_head
loop_tail c = if c.active then record c { loop = sleeping } else loop_head c

-- `create_datagram_endpoint` succeeds; it has called `connection_made`.
unfoldable pub opened : Config → Client → Client × List Effect
opened cfg c =
    let (p, effects) = connection_made cfg fresh in
    (record c { protocol = some p; loop = waiting }, effects)

-- `connection_lost`: `_on_protocol_done`, and `wait_done` returns where the loop waits for it.
unfoldable pub connection_lost : Client → Client
unfolding loop_tail
connection_lost c =
    let c' : Client = record c { protocol = none } in
    elim c.loop [ waiting ↦ loop_tail c' | _ ↦ c' ]

-- `except asyncio.CancelledError: return`, or a task that is cancelled before it runs.
unfoldable pub cancel_delivered : Client → Client
cancel_delivered c = record c { loop = ended }

-- One step of the client before `stop`: a call, or the loop going on behind what it waits for.
pub data ClientStep (cfg : Config) : Client → Client → Type 0 where
  activated : (c : Client) → ClientStep cfg c (activate c)
  deactivated : (c : Client) → ClientStep cfg c (deactivate cfg c).0
  started : (c : Client) → c.loop ≡ starting → ClientStep cfg c (loop_head c)
  endpoint_up : (c : Client) → c.loop ≡ opening → ClientStep cfg c (opened cfg c).0
  endpoint_failed : (c : Client) → c.loop ≡ opening → ClientStep cfg c (loop_tail c)
  lost : (c : Client) → ClientStep cfg c (connection_lost c)
  slept : (c : Client) → c.loop ≡ sleeping → ClientStep cfg c (loop_head c)
  -- the connection's own callbacks change its state
  protocol_event :
      (c : Client) (p q : Protocol)
      → c.protocol ≡ some p
      → ClientStep cfg c (record c { protocol = some q })
