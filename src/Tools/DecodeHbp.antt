-- ===== src/Tools/DecodeHbp.antt =====
-- tools/decode_hbp.py: the decoder of logged HBP packets.
pub mod Headers
use Prim.Native.String.{String}
use ipsc2hbp.Base.{
  ℕ, ◌+◌, ◌-◌, ◌/◌, ◌%◌, bit_and, Bool, true, false, not, ◌&&◌, ◌||◌, Option, none, some, List, [],
  ◌∷◌, ◌++◌, ltb, leb, nat_eqb, if◌then◌else◌, length, slice, take, get_or, bytes_eq, nat_eq, ◌==◌,
  Dict, lookup, insert, list_eqb, map,
}
use ipsc2hbp.Dmr.{Bytes, from_be}
use ipsc2hbp.Dmr.Codec.{Codec}
use ipsc2hbp.Config.Text.{Text, codes, from_hex, upper}
use ipsc2hbp.Hbp.Const.{
  hbpf_dmrd, hbpf_tgid_ts2, hbpf_frametype_mask, hbpf_frametype_datasync, hbpf_frametype_voicesync,
  hbpf_frametype_voice, hbpf_dtype_mask, hbpf_slt_vhead, hbpf_slt_vterm, dmrd_src_off, dmrd_dst_off,
  dmrd_flags_off, dmrd_payload_off,
}
use ipsc2hbp.Translate.Frame.{decode_hbp_voice_lc}
use ipsc2hbp.Translate.State.{Timeslot, ts1, ts2}
use ipsc2hbp.Tools.{hex2, hex, StreamKey, stream_eq, Entry, Progress, read_log}
use ipsc2hbp.Tools.DecodeIpsc.{Lc, read_lc, name_of, flco_names, all_zero, count_burst}

-- `_MAGIC`: the key RPTC stands twice in the source, and the second value is kept, in the place of
-- the first.
abbrev pub magic : Dict Bytes Text
magic =
    (codes "RPTL", codes "RPTL (login)")
    ∷ (codes "RPTK", codes "RPTK (auth)")
    ∷ (codes "RPTC", codes "RPTCL")
    ∷ (codes "RPTO", codes "RPTO (options)")
    ∷ (codes "RPTP", codes "RPTPING")
    ∷ (codes "RPTA", codes "RPTACK")
    ∷ (codes "MSTN", codes "MSTNAK")
    ∷ (codes "MSTP", codes "MSTPONG")
    ∷ (codes "MSTC", codes "MSTCL")
    ∷ []

-- `decode('ascii', errors='replace')`
abbrev pub ascii : ℕ → ℕ
ascii b = if ltb b 128 then b else 0xfffd

unfoldable pub label_of : Bytes → Text
label_of d = elim (lookup (take 4 d) magic) [ none ↦ map ascii (take 4 d) | some name ↦ name ]

-- `_decode_lc`: dmr_utils3 may be missing, the payload may be short, or the codec may give less
-- than the three bytes that are read one by one.
pub data LcRead : Type 0 where
  unavailable failed : LcRead
  lc_read : Lc → LcRead

unfoldable pub decode_lc : Option Codec → Bytes → LcRead
decode_lc none payload = unavailable
decode_lc (some c) payload =
    let lc = decode_hbp_voice_lc c payload in
    if ltb (length payload) 33
    then unavailable
    else if ltb (length lc) 3
    then failed
    else lc_read (read_lc lc)

abbrev pub ts_of : ℕ → Timeslot
ts_of flags = if nat_eqb (bit_and flags hbpf_tgid_ts2) 0 then ts1 else ts2

abbrev pub frame_type_of : ℕ → ℕ
frame_type_of flags = bit_and flags hbpf_frametype_mask

abbrev pub dtype_of : ℕ → ℕ
dtype_of flags = bit_and flags hbpf_dtype_mask

abbrev pub digit_of : Timeslot → Text
digit_of ts1 = codes "1"
digit_of ts2 = codes "2"

abbrev pub decimal : ℕ → Text
decimal n = if ltb n 10 then (0x30 + n) ∷ [] else (0x30 + n / 10) ∷ (0x30 + n % 10) ∷ []

abbrev pub burst_names : Dict ℕ Text
burst_names =
    (0, codes "Burst B")
    ∷ (1, codes "Burst C")
    ∷ (2, codes "Burst D")
    ∷ (3, codes "Burst E")
    ∷ (4, codes "Burst F")
    ∷ (5, codes "Burst F+1")
    ∷ []

unfoldable pub burst_name : ℕ → Text
burst_name dtype = elim (lookup dtype burst_names) [
  | none ↦ codes "dtype=" ++ decimal dtype
  | some name ↦ name
]

-- `_frame_type_name`, less the note on data type 5, which `has_note` tells.
unfoldable pub frame_type_name : ℕ → Text
unfolding burst_name
frame_type_name flags =
    let call_type = if nat_eqb (bit_and flags 0x40) 0 then codes " G " else codes " P " in
    let prefix = codes "TS" ++ (digit_of (ts_of flags) ++ call_type) in
    let ft = frame_type_of flags in
    let dtype = dtype_of flags in
    if nat_eqb ft hbpf_frametype_datasync
    then if nat_eqb dtype hbpf_slt_vhead
      then prefix ++ codes "VOICE_LC_HEAD"
      else if nat_eqb dtype hbpf_slt_vterm
      then prefix ++ codes "VOICE_LC_TERM"
      else prefix ++ (codes "DATASYNC dtype=0x" ++ hex2 dtype)
    else if nat_eqb ft hbpf_frametype_voicesync
    then prefix ++ codes "VOICESYNC (Burst A)"
    else if nat_eqb ft hbpf_frametype_voice
    then prefix ++ (codes "VOICE " ++ burst_name dtype)
    else prefix ++ (codes "flags=0x" ++ hex2 flags)

abbrev pub has_note : ℕ → Bool
has_note flags = nat_eqb (frame_type_of flags) hbpf_frametype_voice && nat_eqb (dtype_of flags) 5

abbrev pub is_sync : ℕ → ℕ → Bool
is_sync kind flags =
    nat_eqb (frame_type_of flags) hbpf_frametype_datasync && nat_eqb (dtype_of flags) kind

-- A line of the output.
pub data Line : Type 0 where
  too_short : ℕ → Text → ℕ → Line
  other_packet : ℕ → Text → Text → ℕ → Text → Bool → Line
  dmrd_too_short : ℕ → Text → ℕ → Line
  new_stream : Text → Text → Timeslot → Line
  frame_line : ℕ → Text → Text → Bool → Line
  dmrd_line : ℕ → Option ℕ → ℕ → ℕ → ℕ → Text → ℕ → ℕ → Line
  lc_no_codec lc_short lc_error : Line
  lc_line : Text → Lc → Line
  payload_line : Bytes → Bool → Line
  payload_missing : Line
  hex_error : ℕ → Text → Line
  length_differs : ℕ → ℕ → ℕ → Line

-- `stats`; a key of `streams` has no stream in it.
pub record Stats : Type 0 where
  pub seqs : Dict StreamKey ℕ
  pub streams : Dict StreamKey Text
  pub burst_counts : Dict Text ℕ
  pub other : List Text

abbrev pub no_stats : Stats
no_stats = record { seqs = []; streams = []; burst_counts = []; other = [] }

-- `(seq - prev_seq - 1) & 0xFF`
abbrev pub gap_of : ℕ → ℕ → ℕ
gap_of prev seq = (seq + 255 - prev) % 256

abbrev pub seq_note : Option ℕ → ℕ → ℕ → Option ℕ
seq_note none seq flags = none
seq_note (some prev) seq flags =
    if not (nat_eqb (frame_type_of flags) hbpf_frametype_datasync)
      && not (nat_eqb (gap_of prev seq) 0)
    then some (gap_of prev seq)
    else none

abbrev pub stream_lines : Option Text → Text → ℕ → List Line
stream_lines none stream flags = []
stream_lines (some prev) stream flags =
    if not (prev == stream) && is_sync hbpf_slt_vhead flags
    then new_stream prev stream (ts_of flags) ∷ []
    else []

abbrev pub lc_lines : Option Codec → LcRead → List Line
lc_lines none unavailable = lc_no_codec ∷ []
lc_lines (some c) unavailable = lc_short ∷ []
lc_lines c failed = lc_error ∷ []
lc_lines c (lc_read lc) = lc_line (name_of flco_names lc.flco) lc ∷ []

abbrev pub payload_lines : Bytes → List Line
payload_lines [] = payload_missing ∷ []
payload_lines (b ∷ bs) = payload_line (b ∷ bs) (all_zero (b ∷ bs)) ∷ []

module _ (codec : Option Codec) where
  abbrev pub detail_lines : ℕ → Bytes → List Line
  detail_lines flags payload =
      if is_sync hbpf_slt_vhead flags || is_sync hbpf_slt_vterm flags
      then lc_lines codec (decode_lc codec payload)
      else if nat_eqb (frame_type_of flags) hbpf_frametype_voice
          || nat_eqb (frame_type_of flags) hbpf_frametype_voicesync
      then payload_lines payload
      else []

  -- The part of `decode_packet` for a DMRD packet that has its flags.
  unfoldable pub decode_dmrd : Bytes → ℕ → Text → Stats → Stats × List Line
  decode_dmrd d frame direction st =
      let seq = get_or d 4 0 in
      let flags = get_or d dmrd_flags_off 0 in
      let stream = hex (slice 16 20 d) in
      let payload =
        if leb (dmrd_payload_off + 33) (length d)
        then slice dmrd_payload_off (dmrd_payload_off + 33) d
        else [] in
      let ts = ts_of flags in
      let name = frame_type_name flags in
      let key : StreamKey = record { direction = direction; stream_id = stream; ts = ts } in
      let slot_key : StreamKey = record { direction = direction; stream_id = []; ts = ts } in
      let line =
        dmrd_line seq (seq_note (lookup key st.seqs) seq flags)
          (from_be 0 (slice dmrd_src_off (dmrd_src_off + 3) d))
          (from_be 0 (slice dmrd_dst_off (dmrd_dst_off + 3) d)) (from_be 0 (slice 11 15 d)) stream
          (get_or d 53 0) (get_or d 54 0) in
      (
        record st {
          seqs = insert key seq st.seqs;
          streams =
              if is_sync hbpf_slt_vhead flags
              then insert slot_key stream st.streams
              else st.streams;
          burst_counts = count_burst name st.burst_counts;
        },
        stream_lines (lookup slot_key st.streams) stream flags
            ++ (frame_line frame direction name (has_note flags)
                ∷ line
                ∷ detail_lines flags payload),
      )

  -- `decode_packet`
  unfoldable pub decode_packet : Bytes → ℕ → Text → Stats → Stats × List Line
  unfolding decode_dmrd
  decode_packet d frame direction st =
      if ltb (length d) 4
      then (st, too_short frame direction (length d) ∷ [])
      else if not (list_eqb (take 4 d) hbpf_dmrd)
      then (
        record st { other = st.other ++ (label_of d ∷ []) },
        other_packet frame direction (label_of d) (length d) (hex (take 16 d)) (ltb 16 (length d))
            ∷ [],
      )
      else if ltb (length d) (dmrd_flags_off + 1)
      then (st, dmrd_too_short frame direction (length d) ∷ [])
      else decode_dmrd d frame direction st

  -- `main`, from the entries of a log.
  unfoldable pub decode_log : Option Text → List (Option Entry) → Progress Stats Line
  decode_log wanted es =
      read_log decode_packet hex_error length_differs wanted es
        (record { frames = 0; shown = 0; stats = no_stats; lines = [] })
