-- ===== src/Ipsc/Wire.antt =====
-- ipsc/protocol.py: the functions on raw packets that both modes share.
use ipsc2hbp.Base.{
  ℕ, bit_and, bit_or, Bool, Option, none, some, [], ◌∷◌, ltb, nat_eqb, if◌then◌else◌, length,
  get_elem?, slice,
}
use ipsc2hbp.Dmr.{Bytes, from_be}
use ipsc2hbp.Ipsc.Const.{
  gv_call_info_off, gv_burst_type_off, ts_call_msk, voice_call_msk, mstr_peer_msk, pkt_auth_msk,
}
use ipsc2hbp.Translate.State.{Timeslot, ts1, ts2}

-- `_OUR_MODE`
abbrev pub our_mode : ℕ
our_mode = 0x6a

-- `_PEER_ENTRY_LEN`
abbrev pub peer_entry_len : ℕ
peer_entry_len = 11

-- `_id_i`
abbrev pub id_i : Bytes → ℕ
id_i b = from_be 0 b

-- `_ts_flags`
unfoldable pub ts_flags : Bool → Bool → Bytes
ts_flags master_peer auth_enabled =
    let a : ℕ = if master_peer then bit_or voice_call_msk mstr_peer_msk else voice_call_msk in
    let b : ℕ = if auth_enabled then bit_or a pkt_auth_msk else a in
    our_mode ∷ 0x00 ∷ 0x00 ∷ 0x00 ∷ b ∷ []

-- `2 if call_info & TS_CALL_MSK else 1`
abbrev pub slot_of : ℕ → Timeslot
slot_of call_info = if nat_eqb (bit_and call_info ts_call_msk) 0 then ts1 else ts2

meta_of : Option ℕ → Option ℕ → Option (Timeslot × ℕ)
meta_of none b = none
meta_of (some i) none = none
meta_of (some i) (some b) = some (slot_of i, b)

-- `_parse_group_voice_meta`: `none` is the `IndexError` of a packet that is too short.
unfoldable pub parse_group_voice_meta : Bytes → Option (Timeslot × ℕ)
unfolding meta_of
parse_group_voice_meta data' =
    meta_of (get_elem? data' gv_call_info_off) (get_elem? data' gv_burst_type_off)

-- `_safe_peer_id`
unfoldable pub safe_peer_id : Bytes → ℕ
safe_peer_id data' = if ltb (length data') 5 then 0 else id_i (slice 1 5 data')
