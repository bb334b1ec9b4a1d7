-- ===== src/Hbp/Protocol/Handshake.antt =====
-- hbp/protocol.py: the login, from RPTL to CONNECTED.
use ipsc2hbp.Base.{ℕ, ◌≤◌, ◌≡◌, true, false, List, [], ◌∷◌, ◌++◌, arith, nonempty, length, slice}
use ipsc2hbp.Dmr.{Bytes}
use ipsc2hbp.Config.{Config}
use ipsc2hbp.Hbp.Const.{hbpf_rptk, hbpf_rpto}
use ipsc2hbp.Hbp.Protocol.{
  connected, Protocol, Effect, sendto, hbp_connected, fresh, radio_id_b, build_rptc, enc,
  connection_made, rptack, command, handle, datagram_received,
}

-- A datagram, and the time at which it comes.
abbrev pub Arrival : Type 0
Arrival = ℕ × Bytes

module _ (cfg : Config) (sha256 : Bytes → Bytes) where
  unfoldable pub receive : List Arrival → Protocol → Protocol × List Effect
  receive [] p = (p, [])
  receive ((now, data') ∷ ds) p =
      let (p', effects) = datagram_received cfg sha256 now data' p in
      let (q, rest) = receive ds p' in (q, effects ++ rest)

  -- The answer to the challenge: the digest of the salt and the passphrase.
  abbrev pub rptk_packet : Bytes → Bytes
  rptk_packet challenge =
      hbpf_rptk ++ (radio_id_b cfg ++ sha256 (slice 6 10 challenge ++ cfg.hbp_passphrase))

  abbrev pub rpto_packet : Bytes
  rpto_packet = hbpf_rpto ++ (radio_id_b cfg ++ enc 300 cfg.options)

  module _ (t1 t2 t3 : ℕ) (d1 d2 d3 : Bytes) (ack1 : command d1 ≡ rptack)
      (ack2 : command d2 ≡ rptack) (ack3 : command d3 ≡ rptack) (salted : 10 ≤ length d1) where
    -- With no options configured, three acknowledgements, the first with its salt, bring a new
    -- connection up: it answers the challenge with the digest of salt and passphrase, sends its
    -- configuration, and reports the connection once.
    pub handshake :
        nonempty cfg.options ≡ false
        → receive ((t1, d1) ∷ (t2, d2) ∷ (t3, d3) ∷ []) (connection_made cfg fresh).0 ≡ (
          record fresh { state = connected; last_pong = t3; pinging = true; has_transport = true },
          sendto (rptk_packet d1) ∷ sendto (build_rptc cfg) ∷ hbp_connected ∷ [],
        )
    unfolding receive connection_made handle
    handshake bare = rw (ack1, ack2, ack3) (ground arith)

    -- With options configured, four acknowledgements, the first with its salt, bring a new
    -- connection up: after the answer to the challenge and the configuration it sends the
    -- options, and it reports the connection once.
    pub handshake_options :
        (t4 : ℕ) (d4 : Bytes)
        → command d4 ≡ rptack
        → nonempty cfg.options ≡ true
        → receive ((t1, d1) ∷ (t2, d2) ∷ (t3, d3) ∷ (t4, d4) ∷ []) (connection_made cfg fresh).0 ≡ (
          record fresh { state = connected; last_pong = t4; pinging = true; has_transport = true },
          sendto (rptk_packet d1)
              ∷ sendto (build_rptc cfg)
              ∷ sendto rpto_packet
              ∷ hbp_connected
              ∷ [],
        )
    unfolding receive connection_made handle
    handshake_options t4 d4 ack4 has = rw (ack1, ack2, ack3, ack4) (ground arith)
