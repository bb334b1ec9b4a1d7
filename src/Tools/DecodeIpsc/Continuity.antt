-- ===== src/Tools/DecodeIpsc/Continuity.antt =====
-- tools/decode_ipsc.py on the packets that the translator makes for IPSC: it shows them on their
-- timeslot, and reports no gap in their RTP sequence.
use ipsc2hbp.Base.{
  ℕ, bit_and, ◌+◌, ◌%◌, ◌≤◌, ◌<◌, ◌⊎◌, inl, inr, ◌≡◌, refl, sym, subst, ap, ◌∙◌, arith, Option,
  none, some, List, [], ◌∷◌, ◌++◌, if◌then◌else◌, length, slice, get_or, lookup, lookup-insert_self,
  map, nat_eqb,
}
use ipsc2hbp.Dmr.{Bytes, from_be, be16}
use ipsc2hbp.Config.{Config}
use ipsc2hbp.Config.Text.{Text}
use ipsc2hbp.Ipsc.Const.{group_voice, voice_head, voice_term}
use ipsc2hbp.Ipsc.Wire.{slot_of}
use ipsc2hbp.Translate.State.{Timeslot, ts1, ts2, InCall, Slot, Shared, Env}
use ipsc2hbp.Translate.State as State
use ipsc2hbp.Translate.Packet.{build_gv, rtp_header, advance_rtp, make_hbp_ipsc_packet}
use ipsc2hbp.Translate.Packet.Fields.{three_bytes, four_bytes, one_byte}
use ipsc2hbp.Translate.Inbound.{call_info, slot_burst}
use ipsc2hbp.Tools.{hex2, StreamKey, stream_eq}
use ipsc2hbp.Tools.DecodeIpsc.{
  Lc, Line, rtp_gap, voice, Stats, Rtp, decode_rtp, read_rtp, ts_from_burst, gap_of, gap_lines,
  track_rtp, decode_voice, decode_packet, detail_lines, lc_lines, ambe_lines, decode_lc,
  is_lc_burst,
}

-- The gaps that are reported, and the timeslots that are shown.
abbrev pub gaps : List Line → List Line
gaps [] = []
gaps (rtp_gap gap stream ts ∷ ls) = rtp_gap gap stream ts ∷ gaps ls
gaps (_ ∷ ls) = gaps ls

abbrev pub slots : List Line → List Timeslot
slots [] = []
slots (voice frame dir name ts len peer stream src dst end ∷ ls) = ts ∷ slots ls
slots (_ ∷ ls) = slots ls

-- A burst of a call on a timeslot.
abbrev pub BurstOf : Timeslot → ℕ → Type 0
BurstOf ts b = (b ≡ voice_head) ⊎ (b ≡ voice_term) ⊎ (b ≡ slot_burst ts)

-- What makes a packet, besides the call: the RTP payload type, the burst type, and the rest.
pub record Part : Type 0 where
  pub rtp_pt : ℕ
  pub burst : ℕ
  pub rest : Bytes

module _ (v : Env) (ts : Timeslot) (src dst : Bytes) where
  abbrev pub make : Part → State.Line → State.Line × Bytes
  make p l = make_hbp_ipsc_packet v src dst (call_info ts) p.rtp_pt (p.burst ∷ p.rest) l

  unfoldable pub make_all : List Part → State.Line → List Bytes
  make_all [] l = []
  make_all (p ∷ ps) l = let (l', packet) = make p l in packet ∷ make_all ps l'

-- `decode_packet` on packets of one direction, one after the other.
unfoldable pub decode_all : List Bytes → ℕ → Text → Stats → List Line
decode_all [] frame direction st = []
decode_all (d ∷ ds) frame direction st =
    let (st', out) = decode_packet d frame direction st in
    out ++ decode_all ds (frame + 1) direction st'

-- A packet as the decoder meets it.
pub record Reads (d : Bytes) (ts : Timeslot) (stream seq : ℕ) : Type 0 where
  pub rtp : Rtp
  pub rtp_read : decode_rtp d ≡ some rtp
  pub sequence : rtp.seq ≡ seq
  pub on_slot : ts_from_burst d ≡ ts
  pub of_stream : get_or d 5 0 ≡ stream
  pub is_voice :
      (st : Stats) (frame : ℕ) (direction : Text)
      → decode_packet d frame direction st ≡ decode_voice d frame direction st

made_on_slot :
    (ts : Timeslot) (b : ℕ)
    → BurstOf ts b
    → (if is_lc_burst b
        then slot_of (call_info ts)
        else if nat_eqb (bit_and b 0x80) 0
        then ts1
        else ts2)
      ≡ ts
made_on_slot ts1 b (inl e) = rw e refl
made_on_slot ts1 b (inr (inl e)) = rw e refl
made_on_slot ts1 b (inr (inr e)) = rw e refl
made_on_slot ts2 b (inl e) = rw e refl
made_on_slot ts2 b (inr (inl e)) = rw e refl
made_on_slot ts2 b (inr (inr e)) = rw e refl

-- What the fields of a call are in the translator.
pub record Fits (src dst : Bytes) (sh : Shared) (i : InCall) : Type 0 where
  pub src_length : length src ≡ 3
  pub dst_length : length dst ≡ 3
  pub type_length : length sh.peer_call_type ≡ 1
  pub ctrl_length : length sh.peer_call_ctrl ≡ 4
  pub seq_bound : i.rtp_seq < 65536

be16_read : (n : ℕ) → n < 65536 → from_be 0 (be16 (n % 65536)) ≡ n
unfolding from_be
be16_read n h = omega arith

long_rtp : (d : Bytes) → 31 ≤ length d → decode_rtp d ≡ some (read_rtp (slice 18 30 d))
unfolding decode_rtp
long_rtp d h = ground arith

long_voice :
    (d : Bytes) (frame : ℕ) (direction : Text) (st : Stats)
    → 30 ≤ length d
    → decode_packet (group_voice ∷ d) frame direction st
      ≡ decode_voice (group_voice ∷ d) frame direction st
unfolding decode_packet
long_voice d frame direction st h = ground arith

packet_Reads :
    (cfg : Config) (sh : Shared) (src dst : Bytes) (ts : Timeslot) (p : Part) (i : InCall)
    → Fits src dst sh i
    → BurstOf ts p.burst
    → Reads
        (build_gv cfg sh src dst
          (call_info ts)
          (rtp_header p.rtp_pt i)
          (p.burst ∷ p.rest)
          i.stream_id)
        ts
        i.stream_id
        i.rtp_seq
unfolding build_gv rtp_header ts_from_burst
packet_Reads cfg sh src dst ts p i f h =
    let (s1, s2, s3, es) = three_bytes src f.src_length in
    let (d1, d2, d3, ed) = three_bytes dst f.dst_length in
    let (t1, et) = one_byte sh.peer_call_type f.type_length in
    let (c1, c2, c3, c4, ec) = four_bytes sh.peer_call_ctrl f.ctrl_length in
    rw (es, ed, et, ec)
      (record {
        rtp = read_rtp (rtp_header p.rtp_pt i);
        rtp_read = long_rtp _ (omega arith);
        sequence = be16_read i.rtp_seq f.seq_bound;
        on_slot = made_on_slot ts p.burst h;
        of_stream = refl;
        is_voice = λ st frame direction. long_voice _ frame direction st (omega arith);
      })

-- A stream that the decoder has not met, or whose next packet it expects.
abbrev pub Expects : StreamKey → ℕ → Stats → Type 0
Expects key seq st =
    (lookup key st.rtp_seq ≡ none)
    ⊎ ((prev : ℕ) × (lookup key st.rtp_seq ≡ some prev) × (gap_of prev seq ≡ 0))

gaps-append : (a b : List Line) → gaps a ≡ [] → gaps (a ++ b) ≡ gaps b
gaps-append [] b h = refl
gaps-append (rtp_gap gap stream ts ∷ a) b h = cc
gaps-append (x ∷ a) b h = gaps-append a b h

slots-append : (a b : List Line) → slots (a ++ b) ≡ slots a ++ slots b
slots-append [] b = refl
slots-append (voice frame dir name ts len peer stream src dst end ∷ a) b =
    ap (◌∷◌ ts) (slots-append a b)
slots-append (x ∷ a) b = slots-append a b

-- The lines behind the first one of a packet.
abbrev IsDetail : List Line → Type 0
IsDetail ls = (gaps ls ≡ []) × (slots ls ≡ [])

lc-IsDetail : (lc : Option Lc) → IsDetail (lc_lines lc)
lc-IsDetail none = (refl, refl)
lc-IsDetail (some lc) = (refl, refl)

ambe-IsDetail : (d : Bytes) → IsDetail (ambe_lines d)
ambe-IsDetail d = ground arith

burst_lines-IsDetail : (b : ℕ) (d : Bytes) → IsDetail (detail_lines b d)
burst_lines-IsDetail b d =
    let l = lc-IsDetail (decode_lc d) in let a = ambe-IsDetail d in ground arith

no_warning :
    (key : StreamKey) (seq b stream : ℕ) (ts : Timeslot) (st : Stats)
    → Expects key seq st
    → gap_lines (lookup key st.rtp_seq) seq b stream ts ≡ []
no_warning key seq b stream ts st (inl e) = rw e refl
no_warning key seq b stream ts st (inr (prev, e, z)) = rw (e, z) (ground arith)

abbrev key_of : Text → ℕ → Timeslot → StreamKey
key_of direction stream ts = record { direction = direction; stream_id = hex2 stream; ts = ts }

-- A packet that is expected: no gap, its timeslot once, and its number is remembered.
pub record Decoded (direction : Text) (ts : Timeslot) (stream seq : ℕ) (r : Stats × List Line)
    : Type 0 where
  pub no_gap : gaps r.1 ≡ []
  pub one_line : slots r.1 ≡ ts ∷ []
  pub remembered : lookup (key_of direction stream ts) r.0.rtp_seq ≡ some seq

tracked :
    (d : Bytes) (ts : Timeslot) (stream seq frame : ℕ) (direction : Text) (st : Stats)
    → Reads d ts stream seq
    → Expects (key_of direction stream ts) seq st
    → Decoded direction ts stream seq (decode_voice d frame direction st)
unfolding decode_voice track_rtp
tracked d ts stream seq frame direction st q h =
    let key = key_of direction stream ts in
    let b = get_or d 30 0 in
    let (dg, ds) = burst_lines-IsDetail b d in
    rw (q.on_slot, q.of_stream, q.rtp_read, q.sequence, no_warning key seq b stream ts st h)
      (record {
        no_gap = dg;
        one_line = ap (◌∷◌ ts) ds;
        remembered = lookup-insert_self key seq st.rtp_seq;
      })

abbrev pub BurstsOf : Timeslot → List Part → Type 0
BurstsOf ts [] = Unit {0}
BurstsOf ts (p ∷ ps) = BurstOf ts p.burst × BurstsOf ts ps

next_gap : (n : ℕ) → n < 65536 → gap_of n ((n + 1) % 65536) ≡ 0
next_gap n h = omega arith

module _ (v : Env) (ts : Timeslot) (src dst : Bytes) where
  made-Decoded :
      (p : Part) (l : State.Line) (frame : ℕ) (direction : Text) (st : Stats)
      → Fits src dst l.shared l.slot.inc
      → BurstOf ts p.burst
      → Expects (key_of direction l.slot.inc.stream_id ts) l.slot.inc.rtp_seq st
      → Decoded direction ts l.slot.inc.stream_id l.slot.inc.rtp_seq
          (decode_packet (make v ts src dst p l).1 frame direction st)
  unfolding make_hbp_ipsc_packet
  made-Decoded p l frame direction st f b h =
      let q = packet_Reads v.cfg l.shared src dst ts p l.slot.inc f b in
      rw (q.is_voice st frame direction)
        (tracked _ ts l.slot.inc.stream_id l.slot.inc.rtp_seq frame direction st q h)

  made-Fits :
      (p : Part) (l : State.Line)
      → Fits src dst l.shared l.slot.inc
      → Fits src dst (make v ts src dst p l).0.shared (make v ts src dst p l).0.slot.inc
  unfolding make_hbp_ipsc_packet advance_rtp
  made-Fits p l f = record {
    src_length = f.src_length;
    dst_length = f.dst_length;
    type_length = f.type_length;
    ctrl_length = f.ctrl_length;
    seq_bound = omega arith;
  }

  made-Expects :
      (p : Part) (l : State.Line) (key : StreamKey) (st : Stats)
      → l.slot.inc.rtp_seq < 65536
      → lookup key st.rtp_seq ≡ some l.slot.inc.rtp_seq
      → Expects key (make v ts src dst p l).0.slot.inc.rtp_seq st
  unfolding make_hbp_ipsc_packet advance_rtp
  made-Expects p l key st lt e = inr (l.slot.inc.rtp_seq, e, next_gap l.slot.inc.rtp_seq lt)

  same_stream_id :
      (p : Part) (l : State.Line)
      → (make v ts src dst p l).0.slot.inc.stream_id ≡ l.slot.inc.stream_id
  unfolding make_hbp_ipsc_packet advance_rtp
  same_stream_id p l = refl

  -- For the GROUP_VOICE packets that the translator makes for a call, one after the other, with
  -- fields of their proper lengths: the decoder of IPSC logs, which has not met the stream or
  -- expects its next packet, shows each packet once, on the timeslot of the call, and reports
  -- no gap in the RTP sequence, which goes round at 65536.
  pub decode_made :
      (ps : List Part) (l : State.Line) (frame : ℕ) (direction : Text) (st : Stats)
      → Fits src dst l.shared l.slot.inc
      → BurstsOf ts ps
      → Expects (key_of direction l.slot.inc.stream_id ts) l.slot.inc.rtp_seq st
      → (gaps (decode_all (make_all v ts src dst ps l) frame direction st) ≡ [])
        × (slots (decode_all (make_all v ts src dst ps l) frame direction st) ≡ map (λ p. ts) ps)
  unfolding make_all decode_all
  decode_made [] l frame direction st f b h = (refl, refl)
  decode_made (p ∷ ps) l frame direction st f (b, bs) h =
      let m = make v ts src dst p l in
      let r = decode_packet m.1 frame direction st in
      let d = made-Decoded p l frame direction st f b h in
      let (g, s) = decode_made ps m.0 (frame + 1) direction r.0 (made-Fits p l f) bs (
        subst (λ k. Expects (key_of direction k ts) m.0.slot.inc.rtp_seq r.0)
          (sym (same_stream_id p l))
          (made-Expects p l (key_of direction l.slot.inc.stream_id ts) r.0 f.seq_bound
            d.remembered)) in
      let rest = decode_all (make_all v ts src dst ps m.0) (frame + 1) direction r.0 in
      (
        gaps-append r.1 rest d.no_gap ∙ g,
        slots-append r.1 rest ∙ (ap (λ x. x ++ slots rest) d.one_line ∙ ap (◌∷◌ ts) s),
      )
