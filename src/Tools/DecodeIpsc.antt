-- ===== src/Tools/DecodeIpsc.antt =====
-- tools/decode_ipsc.py: the decoder of logged IPSC packets.
pub mod Continuity
use Prim.Native.String.{String}
use ipsc2hbp.Base.{
  ℕ, ◌+◌, ◌-◌, ◌/◌, ◌%◌, bit_and, Bool, true, false, not, ◌&&◌, ◌||◌, Option, none, some, List, [],
  ◌∷◌, ◌++◌, ltb, leb, nat_eqb, if◌then◌else◌, length, slice, take, get_or, Key, bytes_eq, nat_eq,
  ◌==◌, Dict, lookup, insert,
}
use ipsc2hbp.Base.Int.{ℤ, pos, negsuc}
use ipsc2hbp.Dmr.{Bytes, from_be}
use ipsc2hbp.Config.Text.{Text, codes, from_hex, upper}
use ipsc2hbp.Ipsc.Const.{
  group_voice, voice_head, voice_term, slot1_voice, slot2_voice, end_msk, gv_ipsc_seq_off,
  gv_src_sub_off, gv_dst_group_off, gv_call_info_off, gv_burst_type_off,
}
use ipsc2hbp.Ipsc.Wire.{slot_of}
use ipsc2hbp.Translate.State.{Timeslot, ts1, ts2}
use ipsc2hbp.Tools.{hex2, hex, StreamKey, stream_eq, Entry, Progress, read_log}

-- `d.get(n, f"0x{n:02x}")`
unfoldable pub name_of : Dict ℕ Text → ℕ → Text
name_of d n = elim (lookup n d) [ none ↦ codes "0x" ++ hex2 n | some name ↦ name ]

abbrev pub opcodes : Dict ℕ Text
opcodes =
    (0x70, codes "XCMP_XNL")
    ∷ (0x80, codes "GROUP_VOICE")
    ∷ (0x81, codes "PVT_VOICE")
    ∷ (0x83, codes "GROUP_DATA")
    ∷ (0x84, codes "PVT_DATA")
    ∷ (0x85, codes "RPT_WAKE_UP")
    ∷ (0x86, codes "UNKNOWN_COLLISION")
    ∷ (0x90, codes "MASTER_REG_REQ")
    ∷ (0x91, codes "MASTER_REG_REPLY")
    ∷ (0x92, codes "PEER_LIST_REQ")
    ∷ (0x93, codes "PEER_LIST_REPLY")
    ∷ (0x96, codes "MASTER_ALIVE_REQ")
    ∷ (0x97, codes "MASTER_ALIVE_REPLY")
    ∷ (0x9a, codes "DE_REG_REQ")
    ∷ (0x9b, codes "DE_REG_REPLY")
    ∷ (0xf0, codes "0xF0(observed/benign)")
    ∷ []

abbrev pub burst_names : Dict ℕ Text
burst_names =
    (voice_head, codes "VOICE_HEAD")
    ∷ (voice_term, codes "VOICE_TERM")
    ∷ (slot1_voice, codes "SLOT1_VOICE")
    ∷ (slot2_voice, codes "SLOT2_VOICE")
    ∷ []

abbrev pub flco_names : Dict ℕ Text
flco_names = (0x00, codes "Group") ∷ (0x03, codes "Unit-to-Unit") ∷ []

abbrev pub rtp_names : Dict ℕ Text
rtp_names =
    (0x5d, codes "voice")
    ∷ (0x5e, codes "term")
    ∷ (0xdd, codes "voice(M)")
    ∷ (0xde, codes "term(M)")
    ∷ []

abbrev pub is_lc_burst : ℕ → Bool
is_lc_burst burst_type = nat_eqb burst_type voice_head || nat_eqb burst_type voice_term

abbrev pub is_voice_burst : ℕ → Bool
is_voice_burst burst_type = nat_eqb burst_type slot1_voice || nat_eqb burst_type slot2_voice

-- `_ts_from_burst`
unfoldable pub ts_from_burst : Bytes → Timeslot
ts_from_burst d =
    let burst_type = get_or d gv_burst_type_off 0 in
    let call_info = get_or d gv_call_info_off 0 in
    if is_lc_burst burst_type
    then slot_of call_info
    else if nat_eqb (bit_and burst_type 0x80) 0
    then ts1
    else ts2

pub record Lc : Type 0 where
  pub flco : ℕ
  pub fid : ℕ
  pub svc_opt : ℕ
  pub dst : ℕ
  pub src : ℕ
  pub raw : Text

abbrev pub read_lc : Bytes → Lc
read_lc lc = record {
  flco = get_or lc 0 0;
  fid = get_or lc 1 0;
  svc_opt = get_or lc 2 0;
  dst = from_be 0 (slice 3 6 lc);
  src = from_be 0 (slice 6 9 lc);
  raw = hex lc;
}

-- `_decode_lc`
unfoldable pub decode_lc : Bytes → Option Lc
decode_lc d = if ltb (length d) 47 then none else some (read_lc (slice 38 47 d))

pub record Rtp : Type 0 where
  pub ver : ℕ
  pub pt : ℕ
  pub seq : ℕ
  pub ts : ℕ
  pub ssrc : Text

abbrev pub read_rtp : Bytes → Rtp
read_rtp hdr = record {
  ver = bit_and (get_or hdr 0 0 / 64) 0x03;
  pt = get_or hdr 1 0;
  seq = from_be 0 (slice 2 4 hdr);
  ts = from_be 0 (slice 4 8 hdr);
  ssrc = hex (slice 8 12 hdr);
}

-- `_decode_rtp`
unfoldable pub decode_rtp : Bytes → Option Rtp
decode_rtp d = if ltb (length d) 30 then none else some (read_rtp (slice 18 30 d))

-- A line of the output; the frame's number and direction come first.
pub data Line : Type 0 where
  empty_packet : ℕ → Line
  other_opcode : ℕ → Text → Text → ℕ → Line
  voice_too_short : ℕ → Text → ℕ → Line
  rtp_gap : ℕ → ℕ → Timeslot → Line
  voice : ℕ → Text → Text → Timeslot → ℕ → ℕ → ℕ → ℕ → ℕ → Bool → Line
  rtp_line : ℕ → ℕ → ℤ → Text → Text → Line
  lc_line : Text → Lc → Line
  lc_too_short : Line
  ambe : Bytes → Bool → Line
  ambe_too_short : ℕ → Line
  extension : Bytes → Line
  hex_error : ℕ → Text → Line
  length_differs : ℕ → ℕ → ℕ → Line

-- `stats`
pub record Stats : Type 0 where
  pub rtp_seq : Dict StreamKey ℕ
  pub rtp_ts : Dict StreamKey ℕ
  pub burst_counts : Dict Text ℕ
  pub other : List Text

abbrev pub no_stats : Stats
no_stats = record { rtp_seq = []; rtp_ts = []; burst_counts = []; other = [] }

-- `(seq - prev_seq - 1) & 0xFFFF`
abbrev pub gap_of : ℕ → ℕ → ℕ
gap_of prev seq = (seq + 65535 - prev) % 65536

abbrev pub gap_lines : Option ℕ → ℕ → ℕ → ℕ → Timeslot → List Line
gap_lines none seq burst_type stream ts = []
gap_lines (some prev) seq burst_type stream ts =
    if is_voice_burst burst_type && not (nat_eqb (gap_of prev seq) 0)
    then rtp_gap (gap_of prev seq) stream ts ∷ []
    else []

-- `rtp["ts"] - prev_ts`
abbrev pub ts_delta : Option ℕ → ℕ → ℤ
ts_delta none ts = pos 0
ts_delta (some prev) ts = if leb prev ts then pos (ts - prev) else negsuc (prev - ts - 1)

abbrev pub count_burst : Text → Dict Text ℕ → Dict Text ℕ
count_burst name counts =
    let before : ℕ = elim (lookup name counts) [ none ↦ 0 | some n ↦ n ] in
    insert name (before + 1) counts

-- The continuity of the RTP counters of a stream: the stats, the warning, and the step of the
-- timestamp.
unfoldable pub track_rtp : StreamKey → ℕ → ℕ → Timeslot → Option Rtp → Stats → Stats × List Line × ℤ
track_rtp key burst_type stream ts none st = (st, [], pos 0)
track_rtp key burst_type stream ts (some r) st = (
  record st { rtp_seq = insert key r.seq st.rtp_seq; rtp_ts = insert key r.ts st.rtp_ts },
  gap_lines (lookup key st.rtp_seq) r.seq burst_type stream ts,
  ts_delta (lookup key st.rtp_ts) r.ts,
)

abbrev pub rtp_lines : Option Rtp → ℤ → List Line
rtp_lines none delta = []
rtp_lines (some r) delta = rtp_line r.seq r.ts delta r.ssrc (name_of rtp_names r.pt) ∷ []

abbrev pub lc_lines : Option Lc → List Line
lc_lines none = lc_too_short ∷ []
lc_lines (some lc) = lc_line (name_of flco_names lc.flco) lc ∷ []

abbrev pub all_zero : Bytes → Bool
all_zero [] = true
all_zero (b ∷ bs) = nat_eqb b 0 && all_zero bs

abbrev pub ambe_lines : Bytes → List Line
ambe_lines d =
    (if leb 52 (length d)
      then ambe (slice 33 52 d) (all_zero (slice 33 52 d)) ∷ []
      else ambe_too_short (length d) ∷ [])
    ++ (if ltb 52 (length d) then extension (slice 52 (length d) d) ∷ [] else [])

abbrev pub detail_lines : ℕ → Bytes → List Line
detail_lines burst_type d =
    if is_lc_burst burst_type
    then lc_lines (decode_lc d)
    else if is_voice_burst burst_type
    then ambe_lines d
    else []

-- The stream's number stands in the key as its two digits. This is the part of `decode_packet` for a GROUP_VOICE packet that has its burst type.
unfoldable pub decode_voice : Bytes → ℕ → Text → Stats → Stats × List Line
unfolding track_rtp
decode_voice d frame direction st =
    let stream = get_or d gv_ipsc_seq_off 0 in
    let burst_type = get_or d gv_burst_type_off 0 in
    let ts = ts_from_burst d in
    let rtp = decode_rtp d in
    let key : StreamKey = record { direction = direction; stream_id = hex2 stream; ts = ts } in
    let (st', warning, delta) = track_rtp key burst_type stream ts rtp st in
    let name = name_of burst_names burst_type in
    let line =
      voice frame direction name ts (length d) (from_be 0 (slice 1 5 d)) stream
        (from_be 0 (slice gv_src_sub_off (gv_src_sub_off + 3) d))
        (from_be 0 (slice gv_dst_group_off (gv_dst_group_off + 3) d))
        (not (nat_eqb (bit_and (get_or d gv_call_info_off 0) end_msk) 0)) in
    (
      record st' { burst_counts = count_burst name st'.burst_counts },
      warning ++ (line ∷ (rtp_lines rtp delta ++ detail_lines burst_type d)),
    )

-- `decode_packet`
unfoldable pub decode_packet : Bytes → ℕ → Text → Stats → Stats × List Line
unfolding decode_voice
decode_packet [] frame direction st = (st, empty_packet frame ∷ [])
decode_packet (op ∷ rest) frame direction st =
    if nat_eqb op group_voice
    then if ltb (length (op ∷ rest)) (gv_burst_type_off + 1)
      then (st, voice_too_short frame direction (length (op ∷ rest)) ∷ [])
      else decode_voice (op ∷ rest) frame direction st
    else (
      record st { other = st.other ++ (name_of opcodes op ∷ []) },
      other_opcode frame direction (name_of opcodes op) (length (op ∷ rest)) ∷ [],
    )

-- `main`, from the entries of a log.
unfoldable pub decode_log : Option Text → List (Option Entry) → Progress Stats Line
decode_log wanted es =
    read_log decode_packet hex_error length_differs wanted es
      (record { frames = 0; shown = 0; stats = no_stats; lines = [] })
