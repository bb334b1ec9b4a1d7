-- ===== src/Ipsc/Master/Sessions.antt =====
-- ipsc/protocol.py, `IPSCProtocol`: the registration of the repeater over time.
use ipsc2hbp.Base.{
  Bool, ℕ, ◌≡◌, refl, ◌∙◌, false, Option, none, some, List, [], ◌∷◌, ◌++◌, arith, nat_eqb, is_some,
  nonempty, bytes_eq, nat_eq, not, ◌&&◌, ◌==◌,
}
use ipsc2hbp.Dmr.{Bytes}
use ipsc2hbp.Config.{Config}
use ipsc2hbp.Ipsc.Wire.{id_i}
use ipsc2hbp.Ipsc.Auth.{Effect, authenticated, send}
use ipsc2hbp.Ipsc.Follow.{follow, follow-append}
use ipsc2hbp.Ipsc.Master.{
  Master, init_master, Opcode, reg_req, alive_req, list_req, dereg_req, voice, other, opcode_of,
  clear_peer, on_alive_req, on_de_reg_req, on_group_voice, watchdog, send_peer_list,
  on_peer_list_req, rejects, on_reg_req, handle, dispatch, datagram_received, connection_made,
}

-- What happens to the master: a datagram from an address, or a round of its watchdog.
pub data Event : Type 0 where
  datagram : ℕ → Bytes → Bytes → ℕ → Event
  watchdog_due : ℕ → Event

module _ (cfg : Config) (hmac : Bytes → Bytes) (inet_aton : Bytes → Option Bytes) where
  unfoldable pub react : Event → Master → Master × List Effect
  react (datagram now data' host port) m =
      datagram_received cfg hmac inet_aton now data' host port m
  react (watchdog_due now) m = watchdog cfg hmac now m

  pub run : List Event → Master → Master × List Effect
  unfolding react
  run [] m = (m, [])
  run (e ∷ es) m =
      let (m', effects) = react e m in let (m'', rest) = run es m' in (m'', effects ++ rest)

  on_reg_req-follow :
      (now : ℕ) (data' host : Bytes) (port : ℕ) (m : Master)
      → follow m.registered (on_reg_req cfg hmac inet_aton now data' host port m).1
        ≡ some (on_reg_req cfg hmac inet_aton now data' host port m).0.registered
  unfolding follow on_reg_req send_peer_list send
  on_reg_req-follow now data' host port m = ground arith

  handle-follow :
      (now : ℕ) (data' host : Bytes) (port : ℕ) (op : Opcode) (m : Master)
      → follow m.registered (handle cfg hmac inet_aton now data' host port op m).1
        ≡ some (handle cfg hmac inet_aton now data' host port op m).0.registered
  unfolding handle follow on_alive_req on_peer_list_req on_de_reg_req on_group_voice clear_peer send
      send_peer_list
  handle-follow now data' host port reg_req m = on_reg_req-follow now data' host port m
  handle-follow now data' host port alive_req m = ground arith
  handle-follow now data' host port list_req m = ground arith
  handle-follow now data' host port dereg_req m = ground arith
  handle-follow now data' host port voice m = ground arith
  handle-follow now data' host port other m = refl

  on_payload :
      (P : Master × List Effect → Type 0) (now : ℕ) (host : Bytes) (port : ℕ) (m : Master)
      → P (m, [])
      → ((d : Bytes) (op : Opcode) → P (handle cfg hmac inet_aton now d host port op m))
      → (o : Option Bytes) → P (dispatch cfg hmac inet_aton now host port o m)
  unfolding dispatch
  on_payload P now host port m dropped handled none = dropped
  on_payload P now host port m dropped handled (some []) = dropped
  on_payload P now host port m dropped handled (some (op ∷ rest)) =
      handled (op ∷ rest) (opcode_of op)

  -- What holds of every handler, and of a packet that is dropped, holds of `datagram_received`.
  pub on_datagram :
      (P : Master × List Effect → Type 0) (now : ℕ) (data' host : Bytes) (port : ℕ) (m : Master)
      → P (m, [])
      → ((d : Bytes) (op : Opcode) → P (handle cfg hmac inet_aton now d host port op m))
      → P (datagram_received cfg hmac inet_aton now data' host port m)
  unfolding datagram_received
  on_datagram P now data' host port m dropped handled =
      on_payload P now host port m dropped handled (authenticated cfg hmac data')

  pub react-follow :
      (e : Event) (m : Master) → follow m.registered (react e m).1 ≡ some (react e m).0.registered
  unfolding react watchdog clear_peer follow
  react-follow (watchdog_due now) m = ground arith
  react-follow (datagram now data' host port) m =
      on_datagram (λ r. follow m.registered r.1 ≡ some r.0.registered) now data' host port m refl
        (λ d op. handle-follow now d host port op m)

  -- Whatever datagrams come to the IPSC master from whatever addresses, and whenever its
  -- watchdog runs, the translator is told of a peer and of its loss in turn, is given voice
  -- only in between, and the last such call agrees with whether a peer is registered.
  pub run-follow :
      (es : List Event) (m : Master)
      → follow m.registered (run es m).1 ≡ some (run es m).0.registered
  unfolding run follow
  run-follow [] m = refl
  run-follow (e ∷ es) m =
      follow-append m.registered (react e m).0.registered (react e m).1 (run es (react e m).0).1
        (react-follow e m)
      ∙ run-follow es (react e m).0

  -- A stored host or id that the configuration does not ask for.
  abbrev pub foreign_ip : Option Bytes → Bool
  foreign_ip none = false
  foreign_ip (some ip) = nonempty cfg.allowed_peer_ip && not (ip == cfg.allowed_peer_ip)

  abbrev pub foreign_id : Option Bytes → Bool
  foreign_id none = false
  foreign_id (some b) = not (nat_eqb cfg.ipsc_peer_id 0) && not (id_i b == cfg.ipsc_peer_id)

  -- A registered peer has an id and an address, and passed the configured checks.
  pub record IsValid (m : Master) : Type 0 where
    pub has_id : is_some m.peer_id ≡ m.registered
    pub has_ip : is_some m.peer_ip ≡ m.registered
    pub has_port : is_some m.peer_port ≡ m.registered
    pub ip_allowed : foreign_ip m.peer_ip ≡ false
    pub id_expected : foreign_id m.peer_id ≡ false

  on_reg_req-IsValid :
      (now : ℕ) (data' host : Bytes) (port : ℕ) (m : Master)
      → IsValid m
      → IsValid (on_reg_req cfg hmac inet_aton now data' host port m).0
  unfolding on_reg_req rejects
  on_reg_req-IsValid now data' host port m h = ground arith

  handle-IsValid :
      (now : ℕ) (data' host : Bytes) (port : ℕ) (op : Opcode) (m : Master)
      → IsValid m
      → IsValid (handle cfg hmac inet_aton now data' host port op m).0
  unfolding handle on_alive_req on_peer_list_req on_de_reg_req on_group_voice clear_peer
  handle-IsValid now data' host port reg_req m h = on_reg_req-IsValid now data' host port m h
  handle-IsValid now data' host port alive_req m h = ground arith
  handle-IsValid now data' host port list_req m h = ground arith
  handle-IsValid now data' host port dereg_req m h = ground arith
  handle-IsValid now data' host port voice m h = ground arith
  handle-IsValid now data' host port other m h = h

  react-IsValid : (e : Event) (m : Master) → IsValid m → IsValid (react e m).0
  unfolding react watchdog clear_peer
  react-IsValid (watchdog_due now) m h = ground arith
  react-IsValid (datagram now data' host port) m h =
      on_datagram (λ r. IsValid r.0) now data' host port m h
        (λ d op. handle-IsValid now d host port op m h)

  run-IsValid : (es : List Event) (m : Master) → IsValid m → IsValid (run es m).0
  unfolding run
  run-IsValid [] m h = h
  run-IsValid (e ∷ es) m h = run-IsValid es (react e m).0 (react-IsValid e m h)

  -- After any datagrams and watchdog rounds at a new IPSC master, an id, a host and a port are
  -- stored exactly while a peer is registered, and they are the configured ones where the
  -- configuration asks for a host or an id.
  pub run_init-IsValid : (es : List Event) → IsValid (run es (connection_made init_master)).0
  run_init-IsValid es = run-IsValid es (connection_made init_master) (ground arith)
