-- ===== src/Translate/Reflect.antt =====
-- translate/translator.py: suppression of our own calls that an upstream master reflects
-- (`_remember_hbp_to_ipsc`, `_should_suppress_ipsc_reflection`).
pub mod Suppressed
use ipsc2hbp.Base.{
  ℕ, ◌+◌, ◌*◌, max, Bool, true, false, ◌&&◌, Option, none, some, List, [], ◌∷◌, not, ltb, leb,
  nat_eqb, if◌then◌else◌, ◌==◌, nat_eq, bytes_eq, contains, insert, remove, prune,
}
use ipsc2hbp.Dmr.{Bytes}
use ipsc2hbp.Config.{Config, IpscMode}
use ipsc2hbp.Ipsc.Const.{voice_head, voice_term}
use ipsc2hbp.Translate.State.{Seen, Reflect}

-- `[e for e in entries if e[2] > now]`
unfoldable pub live_seen : ℕ → List Seen → List Seen
live_seen now [] = []
live_seen now (e ∷ es) = let rest = live_seen now es in if ltb now e.expires then e ∷ rest else rest

abbrev pub is_call : Bytes → Bytes → Seen → Bool
is_call src dst e = e.src == src && e.dst == dst

-- The first entry of the call gets the new expiry; a call with none is appended.
unfoldable pub refresh : Bytes → Bytes → ℕ → List Seen → List Seen
refresh src dst expires [] = record { src = src; dst = dst; expires = expires } ∷ []
refresh src dst expires (e ∷ es) =
    if is_call src dst e
    then record { src = src; dst = dst; expires = expires } ∷ es
    else e ∷ refresh src dst expires es

-- `_remember_hbp_to_ipsc`
unfoldable pub remember_hbp_to_ipsc : Config → ℕ → Bytes → Bytes → Reflect → Reflect
unfolding refresh live_seen
remember_hbp_to_ipsc cfg now src dst r =
    let window = cfg.ipsc_reflect_window * 1000000 in
    if cfg.ipsc_reflect_suppression && not (nat_eqb window 0)
    then record r { recent = refresh src dst (now + window) (live_seen now r.recent) }
    else r

-- The loop over the recent calls.
unfoldable pub was_seen : Bytes → Bytes → List Seen → Bool
was_seen src dst [] = false
was_seen src dst (e ∷ es) = if is_call src dst e then true else was_seen src dst es

abbrev pub is_peer_mode : Config → Bool
is_peer_mode cfg = elim cfg.ipsc_mode [ IpscMode.peer ↦ true | IpscMode.master ↦ false ]

-- What follows the guards, for a packet with stream byte `stream`.
check_reflection : ℕ → ℕ → Bool → ℕ → ℕ → Bytes → Bytes → Reflect → Reflect × Bool
check_reflection now expires started stream burst_type src dst r =
    if contains stream r.ignore
    then (
      record r {
        ignore =
            if nat_eqb burst_type voice_term
            then remove stream r.ignore
            else insert stream expires r.ignore;
      },
      true,
    )
    else if nat_eqb burst_type voice_head && (started && was_seen src dst r.recent)
    then (record r { ignore = insert stream expires r.ignore }, true)
    else (r, false)

-- `_should_suppress_ipsc_reflection`; `stream` is byte 5 of the packet, where it has one, and
-- `started` whether the call from HBP has been started on the slot.
unfoldable pub should_suppress_ipsc_reflection :
    Config → ℕ → Bool → Option ℕ → ℕ → Bytes → Bytes → Reflect → Reflect × Bool
unfolding check_reflection was_seen live_seen
should_suppress_ipsc_reflection cfg now started none burst_type src dst r = (r, false)
should_suppress_ipsc_reflection cfg now started (some stream) burst_type src dst r =
    let window = max 1 cfg.ipsc_reflect_window * 1000000 in
    let r' = record r { recent = live_seen now r.recent; ignore = prune now r.ignore } in
    if cfg.ipsc_reflect_suppression && is_peer_mode cfg
    then check_reflection now (now + window) started stream burst_type src dst r'
    else (r, false)
