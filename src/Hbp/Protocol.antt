-- ===== src/Hbp/Protocol.antt =====
-- hbp/protocol.py: `_HBPProtocol`, one connection to an HBP master. SHA-256 is a parameter. A
-- method returns the new state and what it did, in order.
pub mod Rptc
pub mod States
pub mod Handshake
use ipsc2hbp.Base.{
  ℕ, ◌+◌, ◌-◌, Bool, true, false, ◌&&◌, Option, none, some, List, [], ◌∷◌, ◌++◌, not, ltb, leb,
  nonempty, if◌then◌else◌, ◌==◌, bytes_eq, length, take, drop, slice, replicate,
}
use ipsc2hbp.Dmr.{Bytes, be32}
use ipsc2hbp.Config.{Config}
use ipsc2hbp.Hbp.Const.{
  hbpf_dmrd, hbpf_rptl, hbpf_rptk, hbpf_rptc, hbpf_rpto, hbpf_rptping, hbpf_rptcl, hbpf_rptack,
  hbpf_mstnak, hbpf_mstpong, hbpf_mstcl, rptack_nonce_off, rptc_slots_value,
}

pub data ConnState : Type 0 where
  login auth_sent config_sent options_sent connected disconnected : ConnState

-- `has_transport` tells whether `_transport` is set, `pinging` whether `_ping_task` is.
pub record Protocol : Type 0 where
  pub state : ConnState
  pub last_pong : ℕ
  pub pinging : Bool
  pub has_transport : Bool

-- What a method does: datagrams, the end of the transport, and calls of the translator.
pub data Effect : Type 0 where
  sendto : Bytes → Effect
  close_transport : Effect
  hbp_connected : Effect
  hbp_disconnected : Effect
  voice_received : Bytes → Effect

-- `__init__`
abbrev pub fresh : Protocol
fresh = record { state = login; last_pong = 0; pinging = false; has_transport = false }

-- `_MAX_KA_AGE`, in microseconds
abbrev pub max_ka_age : ℕ
max_ka_age = 15000000

-- `s.ljust(n, b'\x00')[:n]`
unfoldable pub enc : ℕ → Bytes → Bytes
enc n s = take n (s ++ replicate (n - length s) 0x00)

abbrev pub radio_id_b : Config → Bytes
radio_id_b cfg = be32 cfg.hbp_repeater_id

-- `_build_rptc`
unfoldable pub build_rptc : Config → Bytes
build_rptc cfg =
    hbpf_rptc
    ++ (radio_id_b cfg
        ++ (enc 8 cfg.callsign
            ++ (enc 9 cfg.rx_freq
                ++ (enc 9 cfg.tx_freq
                    ++ (enc 2 cfg.tx_power
                        ++ (enc 2 cfg.colorcode
                            ++ (enc 8 cfg.latitude
                                ++ (enc 9 cfg.longitude
                                    ++ (enc 3 cfg.height
                                        ++ (enc 20 cfg.location
                                            ++ (enc 19 cfg.description
                                                ++ (rptc_slots_value
                                                    ++ (enc 124 cfg.url
                                                        ++ (enc 40 cfg.software_id
                                                            ++ enc 40 cfg.package_id))))))))))))))

-- `_send_raw`
abbrev pub send_raw : Bytes → Protocol → List Effect
send_raw b p = if p.has_transport then sendto b ∷ [] else []

abbrev pub is_connected_state : ConnState → Bool
is_connected_state connected = true
is_connected_state _ = false

abbrev pub is_disconnected_state : ConnState → Bool
is_disconnected_state disconnected = true
is_disconnected_state _ = false

-- `is_connected`
abbrev pub is_connected : Protocol → Bool
is_connected p = is_connected_state p.state

-- `send_dmrd`
unfoldable pub send_dmrd : Bytes → Protocol → List Effect
send_dmrd b p = if is_connected p && p.has_transport then sendto b ∷ [] else []

-- `connection_made`
unfoldable pub connection_made : Config → Protocol → Protocol × List Effect
connection_made cfg p =
    (record p { has_transport = true }, sendto (hbpf_rptl ++ radio_id_b cfg) ∷ [])

-- `_disconnect`
unfoldable pub disconnect : Config → Bool → Protocol → Protocol × List Effect
disconnect cfg send_rptcl p = (
  record p { state = disconnected; pinging = false; has_transport = false },
  (if send_rptcl && is_connected p then send_raw (hbpf_rptcl ++ radio_id_b cfg) p else [])
      ++ (if p.has_transport then close_transport ∷ [] else []),
)

-- `_become_connected`
unfoldable pub become_connected : ℕ → Protocol → Protocol × List Effect
become_connected now p =
    (record p { state = connected; last_pong = now; pinging = true }, hbp_connected ∷ [])

-- `_on_rptack`, by the state.
unfoldable pub on_rptack_in :
    Config → (Bytes → Bytes) → ℕ → Bytes → ConnState → Protocol → Protocol × List Effect
unfolding become_connected
on_rptack_in cfg sha256 now data' login p =
    if ltb (length data') (rptack_nonce_off + 4) then (p, []) else (
      record p { state = auth_sent },
      send_raw
          (hbpf_rptk
            ++ (radio_id_b cfg
                ++ sha256
                    (slice rptack_nonce_off (rptack_nonce_off + 4) data' ++ cfg.hbp_passphrase)))
          p,
    )
on_rptack_in cfg sha256 now data' auth_sent p =
    (record p { state = config_sent }, send_raw (build_rptc cfg) p)
on_rptack_in cfg sha256 now data' config_sent p =
    if nonempty cfg.options
    then (
      record p { state = options_sent },
      send_raw (hbpf_rpto ++ (radio_id_b cfg ++ enc 300 cfg.options)) p,
    )
    else become_connected now p
on_rptack_in cfg sha256 now data' options_sent p = become_connected now p
on_rptack_in cfg sha256 now data' connected p = (p, [])
on_rptack_in cfg sha256 now data' disconnected p = (p, [])

abbrev pub on_rptack : Config → (Bytes → Bytes) → ℕ → Bytes → Protocol → Protocol × List Effect
on_rptack cfg sha256 now data' p = on_rptack_in cfg sha256 now data' p.state p

-- What a datagram is taken for, by its first bytes.
pub data Command : Type 0 where
  too_short rptack mstnak mstpong mstcl dmrd unknown : Command

-- `len(data) >= n and data[:n] == prefix`, for a prefix of n bytes
starts_with : Bytes → Bytes → Bool
starts_with prefix data' =
    leb (length prefix) (length data') && take (length prefix) data' == prefix

unfoldable pub command : Bytes → Command
unfolding starts_with
command data' =
    if ltb (length data') 4
    then too_short
    else if starts_with hbpf_rptack data'
    then rptack
    else if starts_with hbpf_mstnak data'
    then mstnak
    else if starts_with hbpf_mstpong data'
    then mstpong
    else if starts_with hbpf_mstcl data'
    then mstcl
    else if take 4 data' == hbpf_dmrd
    then dmrd
    else unknown

-- The branches of `datagram_received`.
unfoldable pub handle :
    Config → (Bytes → Bytes) → ℕ → Bytes → Command → Protocol → Protocol × List Effect
unfolding on_rptack_in disconnect
handle cfg sha256 now data' too_short p = (p, [])
handle cfg sha256 now data' rptack p = on_rptack cfg sha256 now data' p
handle cfg sha256 now data' mstnak p = disconnect cfg false p
handle cfg sha256 now data' mstpong p = (record p { last_pong = now }, [])
handle cfg sha256 now data' mstcl p = disconnect cfg false p
handle cfg sha256 now data' dmrd p = (p, if is_connected p then voice_received data' ∷ [] else [])
handle cfg sha256 now data' unknown p = (p, [])

-- `datagram_received`
abbrev pub datagram_received :
    Config → (Bytes → Bytes) → ℕ → Bytes → Protocol → Protocol × List Effect
datagram_received cfg sha256 now data' p = handle cfg sha256 now data' (command data') p

-- `error_received`
unfoldable pub error_received : Config → Protocol → Protocol × List Effect
unfolding disconnect
error_received cfg p =
    let (p', effects) = disconnect cfg false p in
    if is_disconnected_state p.state
    then (p, [])
    else (p', (if is_connected p then hbp_disconnected ∷ [] else []) ++ effects)

-- One round of `_keepalive_loop`, after its sleep of `_KA_INTERVAL`.
unfoldable pub keepalive : Config → ℕ → Protocol → Protocol × List Effect
unfolding disconnect
keepalive cfg now p =
    let (p', effects) = disconnect cfg false p in
    let ping = send_raw (hbpf_rptping ++ radio_id_b cfg) p in
    if is_connected p
    then if ltb max_ka_age (now - p.last_pong)
      then (p', ping ++ hbp_disconnected ∷ effects)
      else (p, ping)
    else (p, [])
