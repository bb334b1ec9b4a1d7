-- ===== src/Hbp/Protocol/States.antt =====
-- hbp/protocol.py: the states of a connection.
use ipsc2hbp.Base.{ℕ, ◌≤◌, ◌≡◌, true, List, [], arith, not}
use ipsc2hbp.Dmr.{Bytes}
use ipsc2hbp.Config.{Config}
use ipsc2hbp.Hbp.Protocol.{
  ConnState, login, auth_sent, config_sent, options_sent, connected, disconnected, Protocol, Effect,
  fresh, is_connected, is_disconnected_state, connection_made, disconnect, Command, command, handle,
  datagram_received, error_received, keepalive,
}

-- What happens to a connection after `connection_made`.
pub data Event : Type 0 where
  datagram : ℕ → Bytes → Event
  socket_error : Event
  keepalive_due : ℕ → Event
  closed_by_client : Event

module _ (cfg : Config) (sha256 : Bytes → Bytes) where
  unfoldable pub react : Event → Protocol → Protocol × List Effect
  react (datagram now data') p = datagram_received cfg sha256 now data' p
  react socket_error p = error_received cfg p
  react (keepalive_due now) p = keepalive cfg now p
  react closed_by_client p = disconnect cfg true p

  -- `_transport` is there until the connection is given up, and the keepalive task runs exactly
  -- while the connection is up.
  pub record IsValid (p : Protocol) : Type 0 where
    pub transport : p.has_transport ≡ not (is_disconnected_state p.state)
    pub pings : p.pinging ≡ is_connected p

  pub connection_made-IsValid : IsValid (connection_made cfg fresh).0
  unfolding connection_made
  connection_made-IsValid = ground arith

  handle-IsValid :
      (now : ℕ) (data' : Bytes) (m : Command) (p : Protocol)
      → IsValid p
      → IsValid (handle cfg sha256 now data' m p).0
  unfolding handle
  handle-IsValid now data' m p h = ground arith

  -- Every event (a datagram, a socket error, a keepalive round, a close by the client) keeps
  -- this: the transport is there until the connection is given up, and the keepalive task is
  -- there exactly while the connection is up.
  pub react-IsValid : (e : Event) (p : Protocol) → IsValid p → IsValid (react e p).0
  unfolding react error_received keepalive disconnect
  react-IsValid (datagram now data') p h = handle-IsValid now data' (command data') p h
  react-IsValid socket_error p h = ground arith
  react-IsValid (keepalive_due now) p h = ground arith
  react-IsValid closed_by_client p h = ground arith

-- How far the login has come.
abbrev pub rank : ConnState → ℕ
rank login = 0
rank auth_sent = 1
rank config_sent = 2
rank options_sent = 3
rank connected = 4
rank disconnected = 5

module _ (cfg : Config) (sha256 : Bytes → Bytes) where
  handle-rank :
      (now : ℕ) (data' : Bytes) (m : Command) (p : Protocol)
      → (rank p.state ≤ rank (handle cfg sha256 now data' m p).0.state)
  unfolding handle
  handle-rank now data' m p = ground arith

  -- No event takes a connection back to an earlier state in the order login, authenticating,
  -- configuring, options, connected, disconnected.
  pub react-rank : (e : Event) (p : Protocol) → rank p.state ≤ rank (react cfg sha256 e p).0.state
  unfolding react error_received keepalive disconnect
  react-rank (datagram now data') p = handle-rank now data' (command data') p
  react-rank socket_error p = ground arith
  react-rank (keepalive_due now) p = ground arith
  react-rank closed_by_client p = ground arith

  handle_dead :
      (now : ℕ) (data' : Bytes) (m : Command) (p : Protocol)
      → IsValid cfg sha256 p
      → p.state ≡ disconnected
      → ((handle cfg sha256 now data' m p).0.state ≡ disconnected)
        × ((handle cfg sha256 now data' m p).1 ≡ [])
  unfolding handle
  handle_dead now data' m p h d = ground arith

  -- A valid connection that was given up stays so, whatever happens, and neither sends anything
  -- nor calls the translator.
  pub react_dead :
      (e : Event) (p : Protocol)
      → IsValid cfg sha256 p
      → p.state ≡ disconnected
      → ((react cfg sha256 e p).0.state ≡ disconnected) × ((react cfg sha256 e p).1 ≡ [])
  unfolding react error_received keepalive disconnect
  react_dead (datagram now data') p h d = handle_dead now data' (command data') p h d
  react_dead socket_error p h d = ground arith
  react_dead (keepalive_due now) p h d = ground arith
  react_dead closed_by_client p h d = ground arith
