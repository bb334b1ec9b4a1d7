-- ===== src/Ipsc/Auth.antt =====
-- ipsc/protocol.py: the packets' authentication, which both modes have (`_check_auth`,
-- `_auth_suffix`, `_send`). HMAC-SHA1 under the configured key is a parameter: it takes a payload
-- and gives its digest of 20 bytes.
use ipsc2hbp.Base.{
  ℕ, ◌-◌, ◌<◌, ◌≡◌, ◌↔◌, refl, sym, ap, ◌∙◌, Bool, true, false, Option, none, some, List, [], ◌∷◌,
  ◌++◌, arith, leb, if◌then◌else◌, ◌==◌, bytes_eq, ==_refl, append-nil, inl, inr, Bool-cases,
  list_eqb_iff, length, take, drop, length-append, take-append, drop-append, take-append-drop,
  length-take,
}
use ipsc2hbp.Dmr.{Bytes}
use ipsc2hbp.Config.{Config}
use ipsc2hbp.Ipsc.Const.{auth_digest_len}

-- What a stack does: datagrams to an address, and calls of the translator.
pub data Effect : Type 0 where
  sendto : Bytes → Bytes → ℕ → Effect
  peer_registered : Bytes → Bytes → ℕ → Effect
  peer_lost : Effect
  ipsc_voice_received : Bytes → Effect
  check_call_timeouts : Effect

-- `data[:-AUTH_DIGEST_LEN]` and `data[-AUTH_DIGEST_LEN:]` of a longer packet
abbrev pub payload_of : Bytes → Bytes
payload_of data' = take (length data' - auth_digest_len) data'

abbrev pub supplied_of : Bytes → Bytes
supplied_of data' = drop (length data' - auth_digest_len) data'

past_guard : (b c : Bool) → (if b then false else c) ≡ true → c ≡ true
past_guard b c h = ground arith

accepted : (b : Bool) (x p : Bytes) → (if b then some x else none) ≡ some p → (b ≡ true) × (x ≡ p)
accepted b x p h = ground arith

-- Taking off the ten bytes that were put behind a payload.
suffixed : (p s : Bytes) → length s ≡ 10 → (payload_of (p ++ s) ≡ p) × (supplied_of (p ++ s) ≡ s)
suffixed p s h =
    let k : length (p ++ s) - 10 ≡ length p = omega (arith, length-append p s) in
    (
      ap (λ n. take n (p ++ s)) k ∙ take-append (length p) p s refl,
      ap (λ n. drop n (p ++ s)) k ∙ drop-append (length p) p s refl,
    )

module _ (cfg : Config) (hmac : Bytes → Bytes) where
  -- `_check_auth`
  unfoldable pub check_auth : Bytes → Bool
  check_auth data' =
      if leb (length data') auth_digest_len
      then false
      else supplied_of data' == take auth_digest_len (hmac (payload_of data'))

  -- `_auth_suffix`
  unfoldable pub auth_suffix : Bytes → Bytes
  auth_suffix payload = if cfg.auth_enabled then take auth_digest_len (hmac payload) else []

  -- The head of `datagram_received`: `none` is a packet that is dropped for its authentication.
  unfoldable pub authenticated : Bytes → Option Bytes
  unfolding check_auth
  authenticated data' =
      if cfg.auth_enabled
      then if check_auth data' then some (payload_of data') else none
      else some data'

  -- `_send`, by whether `_transport` is set
  unfoldable pub send : Bool → Bytes → Bytes → ℕ → List Effect
  unfolding auth_suffix
  send has_transport payload host port =
      if has_transport then sendto (payload ++ auth_suffix payload) host port ∷ [] else []

  check_auth_sound :
      (data' : Bytes)
      → check_auth data' ≡ true
      → data' ≡ payload_of data' ++ take auth_digest_len (hmac (payload_of data'))
  unfolding check_auth
  check_auth_sound data' h =
      let same : supplied_of data' ≡ take auth_digest_len (hmac (payload_of data')) =
        (list_eqb_iff (supplied_of data') (take auth_digest_len (hmac (payload_of data')))).0
          (past_guard _ _ h) in
      sym (take-append-drop (length data' - 10) data') ∙ ap (λ s. payload_of data' ++ s) same

  check_auth_complete :
      (p : Bytes)
      → 0 < length p
      → length (hmac p) ≡ 20
      → check_auth (p ++ take auth_digest_len (hmac p)) ≡ true
  unfolding check_auth
  check_auth_complete p full digest =
      let ten : length (take auth_digest_len (hmac p)) ≡ 10 =
        omega (arith, length-take 10 (hmac p)) in
      let (cut, rest) = suffixed p (take auth_digest_len (hmac p)) ten in
      let long : leb (length (p ++ take 10 (hmac p))) 10 ≡ false =
        ground (arith, length-append p (take 10 (hmac p))) in
      rw (long, rest, cut) (==_refl (take 10 (hmac p)))

  -- For a payload that is not empty and a digest of 20 bytes, a datagram is accepted as that
  -- payload exactly if it is the payload followed by the authentication that sending puts
  -- there, with the authentication on or off.
  pub authenticated-send :
      (data' p : Bytes)
      → 0 < length p
      → length (hmac p) ≡ 20
      → (authenticated data' ≡ some p) ↔ (data' ≡ p ++ auth_suffix p)
  unfolding authenticated auth_suffix
  authenticated-send data' p full digest =
      let ten : length (take auth_digest_len (hmac p)) ≡ 10 =
        omega (arith, length-take 10 (hmac p)) in
      let (cut, rest) = suffixed p (take auth_digest_len (hmac p)) ten in
      let nil : p ++ [] ≡ p = append-nil p in
      let valid = check_auth_complete p full digest in
      elim (Bool-cases cfg.auth_enabled) [
        | inl on ↦ rw on (
          (λ h.
              let (ok, e) = accepted (check_auth data') (payload_of data') p h in
              rw (sym e) (check_auth_sound data' ok)),
          (λ e. rw (e, valid, cut) refl),
        )
        | inr off ↦ rw (off, nil) ((λ h. ground arith), (λ e. ap some e))
      ]
