-- ===== src/System.antt =====
-- ipsc2hbp.py: `main` puts the IPSC stack, the HBP client and the translator together. This is the
-- state of all of them; Wiring carries out the calls that one part makes of another, in their
-- order, and Loop is the event loop around them.
pub mod Wiring
pub mod Loop
pub mod Calls
pub mod InStep
pub mod Sessions
pub mod Opening
pub mod Valid
pub mod Sent
pub mod Silence
pub mod Forward
pub mod Return
pub mod Ends
pub mod Program
use ipsc2hbp.Base.{
  ℕ, leb, Bool, true, false, ◌&&◌, Option, none, some, List, [], ◌∷◌, ◌++◌, if◌then◌else◌,
}
use ipsc2hbp.Dmr.{Bytes}
use ipsc2hbp.Dmr.Codec.{Codec}
use ipsc2hbp.Config.{Config, IpscMode}
use ipsc2hbp.Config.Load.{File, Loaded, ok, load}
use ipsc2hbp.Ipsc.Wire.{parse_group_voice_meta}
use ipsc2hbp.Ipsc.Auth
use ipsc2hbp.Ipsc.Master
use ipsc2hbp.Ipsc.Master.{Master}
use ipsc2hbp.Ipsc.PeerState.{Peer, init_peer}
use ipsc2hbp.Ipsc.Peer
use ipsc2hbp.Hbp.Protocol
use ipsc2hbp.Hbp.Protocol.{Protocol}
use ipsc2hbp.Hbp.Client
use ipsc2hbp.Hbp.Client.{Client, LoopState, init_client}
use ipsc2hbp.Translate.State.{
  Action, send_dmrd, send_to_peer, activate, deactivate, Env, Timeslot, Translator, init,
}
use ipsc2hbp.Translate.Callbacks

-- What the program takes from its surroundings.
pub record World : Type 0 where
  pub cfg : Config
  pub codec : Codec
  pub hmac : Bytes → Bytes
  pub sha256 : Bytes → Bytes
  pub inet_aton : Bytes → Option Bytes

-- The time of a callback, and the random numbers that it may draw.
pub record Moment : Type 0 where
  pub now : ℕ
  pub urandom : Bytes
  pub rand_seq : ℕ
  pub rand_ts : ℕ

abbrev pub env : World → Moment → Env
env w at = record {
  codec = w.codec;
  cfg = w.cfg;
  now = at.now;
  urandom = at.urandom;
  rand_seq = at.rand_seq;
  rand_ts = at.rand_ts;
}

-- `ipsc_proto`
pub data Stack : Type 0 where
  as_master : Master → Stack
  as_peer : Peer → Stack

abbrev pub same_loop : LoopState → LoopState → Bool
same_loop LoopState.ended LoopState.ended = true
same_loop LoopState.starting LoopState.starting = true
same_loop LoopState.opening LoopState.opening = true
same_loop LoopState.waiting LoopState.waiting = true
same_loop LoopState.sleeping LoopState.sleeping = true
same_loop LoopState.cancelled LoopState.cancelled = true
same_loop _ _ = false

-- Everything that the callbacks of the event loop change.
pub record System : Type 0 where
  pub stack : Stack
  pub translator : Translator
  pub client : Client

-- What leaves the process.
pub data Output : Type 0 where
  to_ipsc : Bytes → Bytes → ℕ → Output
  to_hbp : Bytes → Output
  hbp_closed : Output

-- `is_peer_registered` of either stack
abbrev pub is_registered : Stack → Bool
is_registered (as_master m) = m.registered
is_registered (as_peer p) = p.registered

-- The datagrams among the effects of a stack, and of a connection.
abbrev pub ipsc_datagrams : List Auth.Effect → List Output
ipsc_datagrams [] = []
ipsc_datagrams (Auth.sendto b host port ∷ es) = to_ipsc b host port ∷ ipsc_datagrams es
ipsc_datagrams (_ ∷ es) = ipsc_datagrams es

abbrev pub hbp_datagrams : List Protocol.Effect → List Output
hbp_datagrams [] = []
hbp_datagrams (Protocol.sendto b ∷ es) = to_hbp b ∷ hbp_datagrams es
hbp_datagrams (Protocol.close_transport ∷ es) = hbp_closed ∷ hbp_datagrams es
hbp_datagrams (_ ∷ es) = hbp_datagrams es
