-- ===== src/Tests/IpscSide.antt =====
-- The two IPSC stacks, on concrete datagrams.
use ipsc2hbp.Base.{
  length, inl, ◌≡◌, ◌↔◌, refl, true, false, bytes_eq, nat_eq, Option, none, some, List, [], ◌∷◌,
  ◌++◌, arith, replicate, list_eqb,
}
use ipsc2hbp.Dmr.{Bytes, be32, be16, from_be}
use ipsc2hbp.Config.{Config}
use ipsc2hbp.Ipsc.Const.{group_voice}
use ipsc2hbp.Ipsc.Auth.{Effect, sendto, authenticated, auth_suffix, authenticated-send}
use ipsc2hbp.Ipsc.Link.{signed, request, registration}
use ipsc2hbp.Ipsc.Follow.{follow}
use ipsc2hbp.Ipsc.Wire.{parse_group_voice_meta, ts_flags}
use ipsc2hbp.Ipsc.Peer.{datagram_received as peer_received}
use ipsc2hbp.Ipsc.Master.{
  rejects, Master, init_master, connection_made, datagram_received, handle, opcode_of,
  on_group_voice, dispatch,
}
use ipsc2hbp.Ipsc.Master.Sessions.{Event, datagram, watchdog_due, run, run-follow}
use ipsc2hbp.Ipsc.Master.Access.{
  SameOrLost, stranger_cannot_replace, gives_voice, FromPeer, voice-FromPeer,
}
use ipsc2hbp.Ipsc.PeerTable.{PeerEntry, Peers, new_entry}
use ipsc2hbp.Ipsc.PeerState.{Peer, init_peer}
use ipsc2hbp.Ipsc.Peer.Upstream
use ipsc2hbp.Tests.{test_config}

abbrev digest : Bytes → Bytes
digest b = replicate 20 0x5c

twenty : (b : Bytes) → length (digest b) ≡ 20
twenty b = refl

abbrev no_address : Bytes → Option Bytes
no_address b = none

authenticated-send_example :
    (authenticated test_config digest (1 ∷ 2 ∷ replicate 10 0x5c) ≡ some (1 ∷ 2 ∷ []))
    ↔ (1 ∷ 2 ∷ replicate 10 0x5c ≡ 1 ∷ 2 ∷ [] ++ auth_suffix test_config digest (1 ∷ 2 ∷ []))
authenticated-send_example =
    authenticated-send test_config digest (1 ∷ 2 ∷ replicate 10 0x5c) (1 ∷ 2 ∷ []) (omega arith)
      refl

-- A registration request, authenticated.
abbrev reg_packet : Bytes
reg_packet = 0x90 ∷ 0 ∷ 0 ∷ 0 ∷ 7 ∷ 0x6a ∷ 0 ∷ 0 ∷ 0 ∷ 0x14 ∷ (replicate 10 0x5c)

abbrev host : Bytes
host = 0x31 ∷ []

abbrev other_host : Bytes
other_host = 0x32 ∷ []

abbrev master_events : List Event
master_events = datagram 1000 reg_packet host 50000 ∷ watchdog_due 90000000 ∷ []

run-follow_example :
    follow false (run test_config digest no_address master_events (connection_made init_master)).1
    ≡ some
        (run test_config digest no_address master_events (connection_made init_master)).0.registered
run-follow_example =
    run-follow test_config digest no_address master_events (connection_made init_master)

abbrev held : Master
held = record init_master {
  has_transport = true;
  registered = true;
  peer_id = some (0 ∷ 0 ∷ 0 ∷ 7 ∷ []);
  peer_ip = some host;
  peer_port = some 50000;
}

stranger_cannot_replace_example :
    SameOrLost test_config digest no_address held
      (datagram_received test_config digest no_address 2000 reg_packet other_host 50000 held).0
unfolding list_eqb
stranger_cannot_replace_example =
    stranger_cannot_replace test_config digest no_address 2000 reg_packet other_host 50000 held refl
      refl refl

-- No authentication, so that the packets are short.
abbrev open_config : Config
open_config = record test_config { auth_enabled = false }

abbrev voice_packet : Bytes
voice_packet = group_voice ∷ replicate 40 0x11

voice-FromPeer_example : FromPeer open_config digest no_address host 50000 held
unfolding datagram_received authenticated dispatch handle opcode_of on_group_voice
    parse_group_voice_meta gives_voice list_eqb
voice-FromPeer_example =
    voice-FromPeer open_config digest no_address 2000 voice_packet host 50000 held refl

-- The master's answer to the registration, and its peer list.
abbrev reg_reply_packet : Bytes
reg_reply_packet = 0x91 ∷ 0 ∷ 0 ∷ 0 ∷ 1 ∷ 0x6a ∷ 0 ∷ 0 ∷ 0 ∷ 0x05 ∷ 0 ∷ 1 ∷ 4 ∷ 2 ∷ 4 ∷ 1 ∷ []

abbrev peer_events : List ipsc2hbp.Ipsc.Peer.Upstream.Event
peer_events =
    ipsc2hbp.Ipsc.Peer.Upstream.Event.datagram 1000 reg_reply_packet host 50000
    ∷ ipsc2hbp.Ipsc.Peer.Upstream.Event.maintenance_due 6000000
    ∷ ipsc2hbp.Ipsc.Peer.Upstream.Event.watchdog_due 90000000
    ∷ []

run_peer-follow_example :
    follow false
      (ipsc2hbp.Ipsc.Peer.Upstream.run open_config digest peer_events
        (ipsc2hbp.Ipsc.Peer.connection_made open_config digest (init_peer open_config)).0).1
    ≡ some
        (ipsc2hbp.Ipsc.Peer.Upstream.run open_config digest peer_events
          (ipsc2hbp.Ipsc.Peer.connection_made open_config digest
            (init_peer open_config)).0).0.registered
run_peer-follow_example = ipsc2hbp.Ipsc.Peer.Upstream.run_peer-follow open_config digest peer_events

only_master_host_example :
    ipsc2hbp.Ipsc.Peer.Upstream.SameMaster open_config digest
      (init_peer open_config)
      (ipsc2hbp.Ipsc.Peer.datagram_received open_config digest 1000 reg_reply_packet other_host
        50000
        (init_peer open_config)).0
unfolding list_eqb
only_master_host_example =
    ipsc2hbp.Ipsc.Peer.Upstream.only_master_host open_config digest 1000 reg_reply_packet other_host
      50000 (init_peer open_config) refl

-- A peer that was connected, in the table of a registered process.
abbrev connected_entry : PeerEntry
connected_entry = record (new_entry 9 other_host 50002) { connected = true }

abbrev registered_peer : Peer
registered_peer = record (init_peer open_config) {
  registered = true;
  peers = (9, connected_entry) ∷ [];
}

abbrev list_payload : Bytes
list_payload = be32 8 ++ (10 ∷ 0 ∷ 0 ∷ 1 ∷ (be16 50001 ++ 0x6a ∷ []))

abbrev table : Peers
table = (9, connected_entry) ∷ []

-- A master of id 1 and a peer of id 7.
registration_example :
    let (n, effects) =
      datagram_received open_config digest no_address 1000
        (signed open_config open_config digest twenty refl open_config
          (request open_config open_config digest twenty refl))
        host
        50000
        (connection_made init_master) in
    (n.registered ≡ true)
    × (n.peer_id ≡ some (be32 7))
    × ((answer : Bytes) × (rest : List Effect) × (effects ≡ sendto answer host 50000 ∷ rest)
        × (let q =
              (peer_received open_config digest 2000 answer host 50000 (init_peer open_config)).0 in
            (q.registered ≡ true) × (q.master_id ≡ 1) × (q.last_master_rx ≡ 2000)))
unfolding rejects list_eqb from_be ts_flags
registration_example =
    registration open_config open_config digest twenty refl no_address 1000 2000 50000 50000 host
      (connection_made init_master) (init_peer open_config) refl refl (omega arith)
      (λ e. absurd (omega arith)) (inl refl)
