-- ===== src/Tests/HbpSide.antt =====
-- The connection to the HBP master, on concrete datagrams.
use ipsc2hbp.Base.{◌≡◌, ◌&&◌, refl, true, false, [], ◌∷◌, arith, list_eqb}
use ipsc2hbp.Dmr.{Bytes}
use ipsc2hbp.Config.{Config}
use ipsc2hbp.Hbp.Protocol.{
  connected, disconnected, Protocol, fresh, build_rptc, connection_made, command, sendto,
  hbp_connected,
}
use ipsc2hbp.Hbp.Protocol.States.{datagram, react, IsValid, connection_made-IsValid, react-IsValid}
use ipsc2hbp.Hbp.Protocol.Handshake.{receive, rptk_packet, handshake}
use ipsc2hbp.Hbp.Client.{Client, init_client, activate, activate_raises, is_ended, activated}
use ipsc2hbp.Hbp.Client
use ipsc2hbp.Hbp.Client.Reconnect.{ClientReach, active_client_loops}
use ipsc2hbp.Tests.{test_config}

abbrev digest : Bytes → Bytes
digest b = 0xab ∷ b

-- RPTACK with a salt
abbrev ack : Bytes
ack = 0x52 ∷ 0x50 ∷ 0x54 ∷ 0x41 ∷ 0x43 ∷ 0x4b ∷ 1 ∷ 2 ∷ 3 ∷ 4 ∷ []

abbrev with_options : Config
with_options = record test_config { options = 0x54 ∷ [] }

react-IsValid_example :
    IsValid test_config digest
      (react test_config digest (datagram 5 ack) (connection_made test_config fresh).0).0
react-IsValid_example =
    react-IsValid test_config digest (datagram 5 ack) (connection_made test_config fresh).0
      (connection_made-IsValid test_config digest)

abbrev closed : Protocol
closed = record fresh { state = disconnected }

handshake_example :
    receive test_config digest
      ((1, ack) ∷ (2, ack) ∷ (3, ack) ∷ [])
      (connection_made test_config fresh).0
    ≡ (
      record fresh { state = connected; last_pong = 3; pinging = true; has_transport = true },
      sendto (rptk_packet test_config digest ack)
          ∷ sendto (build_rptc test_config)
          ∷ hbp_connected
          ∷ [],
    )
unfolding command list_eqb
handshake_example = handshake test_config digest 1 2 3 ack ack ack refl refl refl (omega arith) refl

-- A tracking client after `start`, and after a peer registered.
abbrev waked : Client
waked = activate (Client.start test_config init_client)

active_client_loops_example :
    ((waked.active && is_ended waked.loop) ≡ false) × (activate_raises waked ≡ false)
active_client_loops_example =
    active_client_loops test_config waked
      (ClientReach.next ClientReach.start (activated (Client.start test_config init_client)))
