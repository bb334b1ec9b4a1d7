-- ===== src/Tools.antt =====
-- tools/decode_ipsc.py and tools/decode_hbp.py: what the two decoders of wire logs share. Each line
-- of their output is a value with what is printed in it; the layout of the text is left out.
pub mod DecodeIpsc
pub mod DecodeHbp
use Prim.Native.String.{String}
use ipsc2hbp.Base.{
  ℕ, take, not, ◌+◌, ◌-◌, ◌/◌, ◌%◌, ◌↔◌, ◌≡◌, refl, arith, Bool, true, false, ◌&&◌, Option, none,
  some, List, [], ◌∷◌, ◌++◌, ltb, nat_eqb, if◌then◌else◌, length, Key, bytes_eq, list_eqb_iff,
  list_eqb, ◌==◌, Dict, lookup,
}
use ipsc2hbp.Dmr.{Bytes}
use ipsc2hbp.Config.Text.{Text, codes, from_hex, upper}
use ipsc2hbp.Translate.State.{Timeslot, ts1, ts2}

-- A digit to the base 16, and a byte as `:02x` writes it.
abbrev pub hex_char : ℕ → ℕ
hex_char d = if ltb d 10 then 0x30 + d else 0x57 + d

abbrev pub hex2 : ℕ → Text
hex2 b = hex_char (b / 16) ∷ hex_char (b % 16) ∷ []

-- `b.hex()`
unfoldable pub hex : Bytes → Text
hex [] = []
hex (b ∷ bs) = hex2 b ++ hex bs

-- `(direction, stream_id, ts)`
pub record StreamKey : Type 0 where
  pub direction : Text
  pub stream_id : Text
  pub ts : Timeslot

abbrev pub same_slot : Timeslot → Timeslot → Bool
same_slot ts1 ts1 = true
same_slot ts2 ts2 = true
same_slot _ _ = false

same_slot_iff : (a b : Timeslot) → (same_slot a b ≡ true) ↔ (a ≡ b)
same_slot_iff ts1 ts1 = (λ h. refl, λ h. refl)
same_slot_iff ts1 ts2 = (λ h. cc, λ h. cc)
same_slot_iff ts2 ts1 = (λ h. cc, λ h. cc)
same_slot_iff ts2 ts2 = (λ h. refl, λ h. refl)

abbrev pub same_stream : StreamKey → StreamKey → Bool
same_stream a b = a.direction == b.direction && (a.stream_id == b.stream_id && same_slot a.ts b.ts)

pub same_stream_iff : (a b : StreamKey) → (same_stream a b ≡ true) ↔ (a ≡ b)
same_stream_iff a b = (
  λ h. ground (
    arith,
    list_eqb_iff a.direction b.direction,
    list_eqb_iff a.stream_id b.stream_id,
    same_slot_iff a.ts b.ts,
  ),
  λ h. ground (
    arith,
    list_eqb_iff a.direction b.direction,
    list_eqb_iff a.stream_id b.stream_id,
    same_slot_iff a.ts b.ts,
  ),
)

instance abbrev pub stream_eq : Key StreamKey
stream_eq = record { same = same_stream; same_iff = same_stream_iff }

-- What `_LINE_RE` finds in a line of the log: the direction, the length, and the digits.
pub record Entry : Type 0 where
  pub direction : Text
  pub length : ℕ
  pub hex_data : Text

-- `--direction`: both, or one.
abbrev pub is_shown : Option Text → Text → Bool
is_shown none d = true
is_shown (some wanted) d = d == wanted

-- How far `main` has read: the entries found, those shown, and what was printed.
pub record Progress (S L : Type 0) : Type 0 where
  pub frames : ℕ
  pub shown : ℕ
  pub stats : S
  pub lines : List L

-- The loop of `main` around `decode_packet`, with the two lines that it prints itself: digits that
-- are no bytes, and a length that differs.
module _ {S L : Type 0} (decode_packet : Bytes → ℕ → Text → S → S × List L)
    (hex_error : ℕ → Text → L) (length_differs : ℕ → ℕ → ℕ → L) where
  -- The packet of an entry, whose digits were read.
  unfoldable pub decode_entry : Text → ℕ → Option Bytes → Text → Progress S L → Progress S L
  decode_entry direction declared none digits p = record p {
    lines = p.lines ++ (hex_error p.frames (take 40 digits) ∷ []);
  }
  decode_entry direction declared (some d) digits p =
      let differs = not (nat_eqb (length d) declared) in
      let warning = if differs then length_differs p.frames declared (length d) ∷ [] else [] in
      let (st, out) = decode_packet d (p.shown + 1) direction p.stats in
      record p { shown = p.shown + 1; stats = st; lines = p.lines ++ (warning ++ out) }

  -- A turn of the loop; `none` is a line where `_LINE_RE` finds nothing.
  unfoldable pub read_line : Option Text → Option Entry → Progress S L → Progress S L
  read_line wanted none p = p
  read_line wanted (some e) p =
      let q = record p { frames = p.frames + 1 } in
      let direction = upper e.direction in
      if is_shown wanted direction
      then decode_entry direction e.length (from_hex none e.hex_data) e.hex_data q
      else q

  unfoldable pub read_log : Option Text → List (Option Entry) → Progress S L → Progress S L
  read_log wanted [] p = p
  read_log wanted (e ∷ es) p = read_log wanted es (read_line wanted e p)
