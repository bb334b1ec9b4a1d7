-- ===== src/Config/Text.antt =====
-- What config.py uses of Python's texts: `strip`, `upper`, `zfill`, `encode` and `bytes.fromhex`.
-- A text is the list of its code points.
use Prim.Native.Char.{code}
use Prim.Native.String.{String}
use text.Mathlib.Text.{◌==◌ as str_eq}
use text.Mathlib.TextEquality.{eq_iff}
use mathlib.Core.List.{reverse}
use mathlib.Core.Option
use ipsc2hbp.Base.{
  ℕ, ◌+◌, ◌-◌, ◌*◌, ◌/◌, ◌%◌, Bool, true, false, ◌&&◌, ◌||◌, Option, none, some, List, [], ◌∷◌,
  ◌++◌, if◌then◌else◌, ltb, leb, nat_eqb, length, replicate, Key,
}
use ipsc2hbp.Dmr.{Bytes}

abbrev pub Text : Type 0
Text = List ℕ

-- A literal.
abbrev pub codes : String → Text
codes String.[] = []
codes (String.◌∷◌ c s) = code c ∷ codes s

-- Names of settings are compared as a whole.
instance abbrev pub string_eq : Key String
string_eq = record { same = str_eq; same_iff = eq_iff }

-- `c.isspace()`
unfoldable pub is_space : ℕ → Bool
is_space c =
    (leb 0x09 c && leb c 0x0d)
    || (leb 0x1c c && leb c 0x20)
    || nat_eqb c 0x85
    || nat_eqb c 0xa0
    || nat_eqb c 0x1680
    || (leb 0x2000 c && leb c 0x200a)
    || (leb 0x2028 c && leb c 0x2029)
    || nat_eqb c 0x202f
    || nat_eqb c 0x205f
    || nat_eqb c 0x3000

unfoldable pub lstrip : Text → Text
lstrip [] = []
lstrip (c ∷ s) = let rest = lstrip s in if is_space c then rest else c ∷ s

unfoldable pub strip : Text → Text
strip s = reverse (lstrip (reverse (lstrip s)))

-- The capitals of a character, where they are ASCII: other characters are kept, since the loader
-- only compares the result with words in ASCII.
unfoldable pub upper_of : ℕ → Text
upper_of c =
    if leb b'a' c && leb c b'z'
    then (c - 32) ∷ []
    else if nat_eqb c 0x131
    then codes "I"
    else if nat_eqb c 0x17f
    then codes "S"
    else if nat_eqb c 0xdf
    then codes "SS"
    else if nat_eqb c 0xfb00
    then codes "FF"
    else if nat_eqb c 0xfb01
    then codes "FI"
    else if nat_eqb c 0xfb02
    then codes "FL"
    else if nat_eqb c 0xfb03
    then codes "FFI"
    else if nat_eqb c 0xfb04
    then codes "FFL"
    else if nat_eqb c 0xfb05 || nat_eqb c 0xfb06
    then codes "ST"
    else c ∷ []

unfoldable pub upper : Text → Text
upper [] = []
upper (c ∷ s) = upper_of c ++ upper s

-- UTF-8.
unfoldable pub utf8_of : ℕ → Bytes
utf8_of c =
    if ltb c 0x80
    then c ∷ []
    else if ltb c 0x800
    then (0xc0 + c / 0x40) ∷ (0x80 + c % 0x40) ∷ []
    else if ltb c 0x10000
    then (0xe0 + c / 0x1000) ∷ (0x80 + c / 0x40 % 0x40) ∷ (0x80 + c % 0x40) ∷ []
    else (0xf0 + c / 0x40000)
      ∷ (0x80 + c / 0x1000 % 0x40)
      ∷ (0x80 + c / 0x40 % 0x40)
      ∷ (0x80 + c % 0x40)
      ∷ []

-- `s.encode()`
unfoldable pub encode : Text → Bytes
encode [] = []
encode (c ∷ s) = utf8_of c ++ encode s

-- `s.zfill(n)`: zeros go in front, behind a sign.
unfoldable pub zfill : ℕ → Text → Text
zfill n [] = replicate n b'0'
zfill n (c ∷ s) =
    let fill = replicate (n - length (c ∷ s)) b'0' in
    if nat_eqb c b'+' || nat_eqb c b'-' then c ∷ fill ++ s else fill ++ c ∷ s

unfoldable pub hex_digit : ℕ → Option ℕ
hex_digit c =
    if leb b'0' c && leb c b'9'
    then some (c - b'0')
    else if leb b'a' c && leb c b'f'
    then some (c - b'a' + 10)
    else if leb b'A' c && leb c b'F'
    then some (c - b'A' + 10)
    else none

unfoldable pub is_ascii_space : ℕ → Bool
is_ascii_space c = (leb 0x09 c && leb c 0x0d) || nat_eqb c 0x20

-- `bytes.fromhex(s)`, with the first digit of a byte if that was read: white space may stand
-- between bytes, not inside.
unfoldable pub from_hex : Option ℕ → Text → Option Bytes
from_hex none [] = some []
from_hex (some hi) [] = none
from_hex none (c ∷ s) = elim (is_ascii_space c) [
  | true ↦ from_hex none s
  | false ↦ elim (hex_digit c) [ none ↦ none | some hi ↦ from_hex (some hi) s ]
]
from_hex (some hi) (c ∷ s) = elim (hex_digit c) [
  | none ↦ none
  | some lo ↦ Option.map (λ bs. (16 * hi + lo) ∷ bs) (from_hex none s)
]
