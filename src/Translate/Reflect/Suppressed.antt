-- ===== src/Translate/Reflect/Suppressed.antt =====
-- A call of ours that comes back (translate/translator.py, `_should_suppress_ipsc_reflection`).
use ipsc2hbp.Base.{
  refl, sym, subst, Bool-cases, inl, inr, ℕ, ◌+◌, ◌*◌, ◌<◌, ◌≤◌, max, ◌≡◌, ◌&&◌, ◌||◌, Bool, true,
  false, not, nat_eqb, if◌then◌else◌, some, List, [], ◌∷◌, arith, nat_eq, bytes_eq, ==_refl, prune,
  lookup, lookup-insert_self, lookup-insert, lookup-remove, lookup-prune,
}
use ipsc2hbp.Dmr.{Bytes}
use ipsc2hbp.Config.{Config}
use ipsc2hbp.Ipsc.Const.{voice_head, voice_term}
use ipsc2hbp.Translate.State.{Seen, Reflect}
use ipsc2hbp.Translate.Reflect.{
  live_seen, refresh, remember_hbp_to_ipsc, was_seen, is_peer_mode, check_reflection,
  should_suppress_ipsc_reflection,
}

refresh-was_seen :
    (now expires : ℕ) (src dst : Bytes) (es : List Seen)
    → now < expires
    → was_seen src dst (live_seen now (refresh src dst expires es)) ≡ true
unfolding was_seen live_seen refresh
refresh-was_seen now expires src dst [] h = ground (arith, ==_refl src, ==_refl dst)
refresh-was_seen now expires src dst (e ∷ es) h =
    ground (arith, refresh-was_seen now expires src dst es h, ==_refl src, ==_refl dst)

-- A voice packet from IPSC: when it comes, its stream byte, whether the call from HBP has been
-- started on its slot, its burst type, source and talkgroup.
pub record Heard : Type 0 where
  pub time : ℕ
  pub stream : ℕ
  pub started : Bool
  pub burst_type : ℕ
  pub src_sub : Bytes
  pub dst_group : Bytes

module _ (cfg : Config) (src dst : Bytes) (stream : ℕ) (on : cfg.ipsc_reflect_suppression ≡ true)
    (peer : is_peer_mode cfg ≡ true) where
  -- The packet with this burst type at this time, and whether it is dropped.
  abbrev check : ℕ → Bool → ℕ → Reflect → Reflect × Bool
  check now started burst_type r =
      should_suppress_ipsc_reflection cfg now started (some stream) burst_type src dst r

  -- A header that starts to be ignored stays so.
  head_ignored :
      (now : ℕ) (r : Reflect)
      → was_seen src dst (live_seen now r.recent) ≡ true
      → ((check now true voice_head r).1 ≡ true)
        × (lookup stream (check now true voice_head r).0.ignore
            ≡ some (now + max 1 cfg.ipsc_reflect_window * 1000000))
  unfolding should_suppress_ipsc_reflection check_reflection
  head_ignored now r h = ground (
    arith,
    lookup-insert_self stream (now + max 1 cfg.ipsc_reflect_window * 1000000) (prune now r.ignore),
  )

  abbrev window : ℕ
  window = max 1 cfg.ipsc_reflect_window * 1000000

  abbrev heard : Heard → Reflect → Reflect × Bool
  heard p r =
      should_suppress_ipsc_reflection cfg p.time p.started (some p.stream) p.burst_type p.src_sub
        p.dst_group r

  abbrev is_ours : Heard → Bool
  is_ours p = nat_eqb p.stream stream

  -- Up to when the stream is ignored behind some packets: each of its own prolongs it.
  abbrev pub ignored_until : ℕ → List Heard → ℕ
  ignored_until exp [] = exp
  ignored_until exp (p ∷ ps) = ignored_until (if is_ours p then p.time + window else exp) ps

  -- Each packet comes before that, and none is a terminator of the stream.
  abbrev pub InTime : ℕ → List Heard → Type 0
  InTime exp [] = Unit {0}
  InTime exp (p ∷ ps) =
      (p.time < exp)
      × ((is_ours p && nat_eqb p.burst_type voice_term) ≡ false)
      × InTime (if is_ours p then p.time + window else exp) ps

  -- Packets one after the other, and whether all of the stream were dropped.
  abbrev pub hear : List Heard → Reflect → Reflect × Bool
  hear [] r = (r, true)
  hear (p ∷ ps) r =
      let (r', dropped) = heard p r in
      let (r'', rest) = hear ps r' in (r'', (not (is_ours p) || dropped) && rest)

  same_stream : (p : Heard) → is_ours p ≡ true → stream ≡ p.stream
  same_stream p ours = ground arith

  ours_live :
      (p : Heard) (exp : ℕ) (r : Reflect)
      → lookup stream r.ignore ≡ some exp
      → p.time < exp
      → is_ours p ≡ true
      → lookup p.stream (prune p.time r.ignore) ≡ some exp
  ours_live p exp r h lt ours =
      lookup-prune p.time p.stream r.ignore exp
        (subst (λ x. lookup x r.ignore ≡ some exp) (same_stream p ours) h) lt

  ours_dropped :
      (p : Heard) (exp : ℕ) (r : Reflect)
      → lookup stream r.ignore ≡ some exp
      → p.time < exp
      → is_ours p ≡ true
      → (heard p r).1 ≡ true
  unfolding should_suppress_ipsc_reflection check_reflection
  ours_dropped p exp r h lt ours = ground (arith, ours_live p exp r h lt ours)

  ours_prolongs :
      (p : Heard) (exp : ℕ) (r : Reflect)
      → lookup stream r.ignore ≡ some exp
      → p.time < exp
      → is_ours p ≡ true
      → nat_eqb p.burst_type voice_term ≡ false
      → lookup stream (heard p r).0.ignore ≡ some (p.time + window)
  unfolding should_suppress_ipsc_reflection check_reflection
  ours_prolongs p exp r h lt ours more =
      subst (λ x. lookup x (heard p r).0.ignore ≡ some (p.time + window)) (sym (same_stream p ours))
        (ground (
          arith,
          ours_live p exp r h lt ours,
          lookup-insert_self p.stream (p.time + window) (prune p.time r.ignore),
        ))

  other_keeps :
      (p : Heard) (exp : ℕ) (r : Reflect)
      → lookup stream r.ignore ≡ some exp
      → p.time < exp
      → is_ours p ≡ false
      → lookup stream (heard p r).0.ignore ≡ some exp
  unfolding should_suppress_ipsc_reflection check_reflection
  other_keeps p exp r h lt other =
      let q = lookup-prune p.time stream r.ignore exp h lt in
      ground (
        arith,
        lookup-insert p.stream stream (p.time + window) (prune p.time r.ignore),
        lookup-remove p.stream stream (prune p.time r.ignore),
      )

  -- A packet that does not end the stream leaves it ignored.
  one_heard :
      (p : Heard) (exp : ℕ) (r : Reflect)
      → lookup stream r.ignore ≡ some exp
      → p.time < exp
      → (is_ours p && nat_eqb p.burst_type voice_term) ≡ false
      → ((not (is_ours p) || (heard p r).1) ≡ true)
        × (lookup stream (heard p r).0.ignore ≡ some (if is_ours p then p.time + window else exp))
  one_heard p exp r h lt more = elim (Bool-cases (is_ours p)) [
    | inl ours ↦
        rw ours (ours_dropped p exp r h lt ours, ours_prolongs p exp r h lt ours (ground arith))
    | inr other ↦ rw other (refl, other_keeps p exp r h lt other)
  ]

  run_heard :
      (ps : List Heard) (exp : ℕ) (r : Reflect)
      → lookup stream r.ignore ≡ some exp
      → InTime exp ps
      → ((hear ps r).1 ≡ true) × (lookup stream (hear ps r).0.ignore ≡ some (ignored_until exp ps))
  run_heard [] exp r h ok = (refl, h)
  run_heard (p ∷ ps) exp r h (lt, more, rest) =
      let (dropped, kept) = one_heard p exp r h lt more in
      let (all, last) =
        run_heard ps (if is_ours p then p.time + window else exp) (heard p r).0 kept rest in
      (ground (arith, dropped, all), last)

  -- In peer mode with the suppression on, when a call that was sent to IPSC comes back within
  -- the window while the call is up, its header is dropped; so are all further packets of the
  -- reflected stream, up to and with its terminator, whatever they carry, whether or not the
  -- call is still up, and whatever packets of other streams come in between, as long as each
  -- packet comes within the window (a second at least) behind the last one of the stream.
  pub reflected_call_suppressed :
      (sent head : ℕ) (ps : List Heard) (end_packet : Heard) (r : Reflect)
      → sent ≤ head
      → head < sent + cfg.ipsc_reflect_window * 1000000
      → InTime (head + window) ps
      → end_packet.stream ≡ stream
      → end_packet.time < ignored_until (head + window) ps
      → let first = check head true voice_head (remember_hbp_to_ipsc cfg sent src dst r) in
        (first.1 ≡ true)
        × ((hear ps first.0).1 ≡ true)
        × ((heard end_packet (hear ps first.0).0).1 ≡ true)
  unfolding remember_hbp_to_ipsc
  reflected_call_suppressed sent head ps end_packet r le h ok same k =
      let expires = sent + cfg.ipsc_reflect_window * 1000000 in
      let r' = remember_hbp_to_ipsc cfg sent src dst r in
      let found : was_seen src dst (live_seen head r'.recent) ≡ true =
        ground (arith, refresh-was_seen head expires src dst (live_seen sent r.recent) h) in
      let (dropped, kept) = head_ignored head r' found in
      let (all, live) = run_heard ps (head + window) (check head true voice_head r').0 kept ok in
      (
        dropped,
        all,
        ours_dropped end_packet (ignored_until (head + window) ps) _ live k (ground (arith, same)),
      )
