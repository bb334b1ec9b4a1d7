-- ===== src/Hbp/Client/Reconnect.antt =====
-- hbp/protocol.py: an active client always has its connect loop.
use ipsc2hbp.Base.{◌≡◌, true, false, ◌&&◌, arith}
use ipsc2hbp.Config.{Config}
use ipsc2hbp.Hbp.Client
use ipsc2hbp.Hbp.Client.{
  Client, init_client, is_ended, activate, activate_raises, deactivate, loop_head, loop_tail,
  opened, connection_lost, ClientStep, activated, deactivated, started, endpoint_up,
  endpoint_failed, lost, slept, protocol_event,
}

-- From `start` on, before `stop`.
pub data ClientReach (cfg : Config) : Client → Type 0 where
  start : ClientReach cfg (Client.start cfg init_client)
  next : {c d : Client} → ClientReach cfg c → ClientStep cfg c d → ClientReach cfg d

-- The client has the event loop; and while it is active, its connect loop has not ended.
record IsLooping (c : Client) : Type 0 where
  has_loop : c.has_loop ≡ true
  loops : (c.active && is_ended c.loop) ≡ false

start-IsLooping : (cfg : Config) → IsLooping (Client.start cfg init_client)
unfolding Client.start activate
start-IsLooping cfg = ground arith

ClientStep-IsLooping :
    (cfg : Config) {c d : Client} → ClientStep cfg c d → IsLooping c → IsLooping d
unfolding activate deactivate loop_head loop_tail opened connection_lost
ClientStep-IsLooping cfg (activated c) h = ground arith
ClientStep-IsLooping cfg (deactivated c) h = ground arith
ClientStep-IsLooping cfg (started c e) h = ground arith
ClientStep-IsLooping cfg (endpoint_up c e) h = ground arith
ClientStep-IsLooping cfg (endpoint_failed c e) h = ground arith
ClientStep-IsLooping cfg (lost c) h = ground arith
ClientStep-IsLooping cfg (slept c e) h = ground arith
ClientStep-IsLooping cfg (protocol_event c p q e) h = record {
  has_loop = h.has_loop;
  loops = h.loops;
}

reached : (cfg : Config) (c : Client) → ClientReach cfg c → IsLooping c
reached cfg c start = start-IsLooping cfg
reached cfg d (next r st) = ClientStep-IsLooping cfg st (reached cfg _ r)

-- In every state that the HBP client reaches from `start` on and before `stop`, by calls of
-- `activate` and `deactivate`, by the steps of its connect loop and by events of its
-- connection, an active client has a connect loop that has not ended, and `activate` does not
-- raise.
pub active_client_loops :
    (cfg : Config) (c : Client)
    → ClientReach cfg c
    → ((c.active && is_ended c.loop) ≡ false) × (activate_raises c ≡ false)
active_client_loops cfg c r = let h = reached cfg c r in (h.loops, ground (arith, h.has_loop))
