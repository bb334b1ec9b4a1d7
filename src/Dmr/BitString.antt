-- ===== src/Dmr/BitString.antt =====
-- Byte strings, bit strings and their conversions (`bytes`, big-endian `bitarray`, `int.to_bytes`).
use ipsc2hbp.Base.{
  ℕ, zero, suc, ◌+◌, ◌*◌, ◌/◌, ◌%◌, ◌≤◌, ◌<◌, ◌≡◌, refl, Bool, true, false, List, [], ◌∷◌, ◌++◌,
  arith, nat_eqb, length, get_or,
}

abbrev pub Bytes : Type 0
Bytes = List ℕ

abbrev pub Bits : Type 0
Bits = List Bool

-- Every value of a `bytes` object is below 256.
abbrev pub IsBytes : Bytes → Type 0
IsBytes [] = Unit
IsBytes (x ∷ xs) = (x < 256) × IsBytes xs

-- `n.to_bytes(2, 'big')`, `struct.pack('>H', n)`
abbrev pub be16 : ℕ → Bytes
be16 n = (n / 256 % 256) ∷ (n % 256) ∷ []

-- `n.to_bytes(4, 'big')`, `struct.pack('>I', n)`
abbrev pub be32 : ℕ → Bytes
be32 n = (n / 16777216 % 256) ∷ (n / 65536 % 256) ∷ (n / 256 % 256) ∷ (n % 256) ∷ []

-- `int.from_bytes(b, 'big')`
unfoldable pub from_be : ℕ → Bytes → ℕ
from_be acc [] = acc
from_be acc (x ∷ xs) = from_be (acc * 256 + x) xs

abbrev bit : ℕ → Bool
bit n = nat_eqb (n % 2) 1

abbrev digit : Bool → ℕ
digit true = 1
digit false = 0

abbrev byte_bits : ℕ → Bits
byte_bits n =
    bit (n / 128)
    ∷ bit (n / 64)
    ∷ bit (n / 32)
    ∷ bit (n / 16)
    ∷ bit (n / 8)
    ∷ bit (n / 4)
    ∷ bit (n / 2)
    ∷ bit n
    ∷ []

abbrev pack : Bool → Bool → Bool → Bool → Bool → Bool → Bool → Bool → ℕ
pack a b c d e f g h =
    digit a * 128
    + digit b * 64
    + digit c * 32
    + digit d * 16
    + digit e * 8
    + digit f * 4
    + digit g * 2
    + digit h

-- `bitarray(endian='big').frombytes(b)`
unfoldable pub from_bytes : Bytes → Bits
from_bytes [] = []
from_bytes (x ∷ xs) = byte_bits x ++ from_bytes xs

-- `ba.tobytes()`: a last group of fewer than eight bits is filled up with zeros.
unfoldable pub to_bytes : Bits → Bytes
to_bytes [] = []
to_bytes (a ∷ b ∷ c ∷ d ∷ e ∷ f ∷ g ∷ h ∷ rest) = pack a b c d e f g h ∷ to_bytes rest
to_bytes (a ∷ rest) =
    let at = λ (i : ℕ). get_or rest i false in
    pack a (at 0) (at 1) (at 2) (at 3) (at 4) (at 5) (at 6) ∷ []

digit-bit : (n : ℕ) → digit (bit n) ≡ n % 2
digit-bit n = ground arith

bit-digit : (n : ℕ) (b : Bool) → n % 2 ≡ digit b → bit n ≡ b
bit-digit n true h = ground arith
bit-digit n false h = ground arith

digit-le : (b : Bool) → digit b ≤ 1
digit-le true = omega arith
digit-le false = omega arith

pack-byte_bits :
    (n : ℕ)
    → n < 256
    → pack
        (bit (n / 128))
        (bit (n / 64))
        (bit (n / 32))
        (bit (n / 16))
        (bit (n / 8))
        (bit (n / 4))
        (bit (n / 2))
        (bit n)
      ≡ n
pack-byte_bits n h = omega (
  arith,
  digit-bit (n / 128),
  digit-bit (n / 64),
  digit-bit (n / 32),
  digit-bit (n / 16),
  digit-bit (n / 8),
  digit-bit (n / 4),
  digit-bit (n / 2),
  digit-bit n,
)

pub to_bytes-from_bytes : (bs : Bytes) → IsBytes bs → to_bytes (from_bytes bs) ≡ bs
unfolding to_bytes from_bytes
to_bytes-from_bytes [] h = refl
to_bytes-from_bytes (x ∷ xs) h = rw (pack-byte_bits x h.0, to_bytes-from_bytes xs h.1)

-- A bit of a packed byte, read back.
module _ (a b c d e f g h : Bool) where
  bit_0 : bit (pack a b c d e f g h / 128) ≡ a
  bit_0 = bit-digit (pack a b c d e f g h / 128) a (
      omega (
        arith,
        digit-le a,
        digit-le b,
        digit-le c,
        digit-le d,
        digit-le e,
        digit-le f,
        digit-le g,
        digit-le h,
      ))

  bit_1 : bit (pack a b c d e f g h / 64) ≡ b
  bit_1 = bit-digit (pack a b c d e f g h / 64) b (
      omega (
        arith,
        digit-le a,
        digit-le b,
        digit-le c,
        digit-le d,
        digit-le e,
        digit-le f,
        digit-le g,
        digit-le h,
      ))

  bit_2 : bit (pack a b c d e f g h / 32) ≡ c
  bit_2 = bit-digit (pack a b c d e f g h / 32) c (
      omega (
        arith,
        digit-le a,
        digit-le b,
        digit-le c,
        digit-le d,
        digit-le e,
        digit-le f,
        digit-le g,
        digit-le h,
      ))

  bit_3 : bit (pack a b c d e f g h / 16) ≡ d
  bit_3 = bit-digit (pack a b c d e f g h / 16) d (
      omega (
        arith,
        digit-le a,
        digit-le b,
        digit-le c,
        digit-le d,
        digit-le e,
        digit-le f,
        digit-le g,
        digit-le h,
      ))

  bit_4 : bit (pack a b c d e f g h / 8) ≡ e
  bit_4 = bit-digit (pack a b c d e f g h / 8) e (
      omega (
        arith,
        digit-le a,
        digit-le b,
        digit-le c,
        digit-le d,
        digit-le e,
        digit-le f,
        digit-le g,
        digit-le h,
      ))

  bit_5 : bit (pack a b c d e f g h / 4) ≡ f
  bit_5 = bit-digit (pack a b c d e f g h / 4) f (
      omega (
        arith,
        digit-le a,
        digit-le b,
        digit-le c,
        digit-le d,
        digit-le e,
        digit-le f,
        digit-le g,
        digit-le h,
      ))

  bit_6 : bit (pack a b c d e f g h / 2) ≡ g
  bit_6 = bit-digit (pack a b c d e f g h / 2) g (
      omega (
        arith,
        digit-le a,
        digit-le b,
        digit-le c,
        digit-le d,
        digit-le e,
        digit-le f,
        digit-le g,
        digit-le h,
      ))

  bit_7 : bit (pack a b c d e f g h) ≡ h
  bit_7 = bit-digit (pack a b c d e f g h) h (
      omega (
        arith,
        digit-le a,
        digit-le b,
        digit-le c,
        digit-le d,
        digit-le e,
        digit-le f,
        digit-le g,
        digit-le h,
      ))

  byte_bits-pack : byte_bits (pack a b c d e f g h) ≡ a ∷ b ∷ c ∷ d ∷ e ∷ f ∷ g ∷ h ∷ []
  byte_bits-pack =
      λ i. bit_0 i ∷ bit_1 i ∷ bit_2 i ∷ bit_3 i ∷ bit_4 i ∷ bit_5 i ∷ bit_6 i ∷ bit_7 i ∷ []

pub from_bytes-to_bytes : (n : ℕ) (bs : Bits) → length bs ≡ n * 8 → from_bytes (to_bytes bs) ≡ bs
unfolding to_bytes from_bytes
from_bytes-to_bytes n [] k = refl
from_bytes-to_bytes (suc n) (a ∷ b ∷ c ∷ d ∷ e ∷ f ∷ g ∷ h ∷ rest) k =
    λ i. byte_bits-pack a b c d e f g h i ++ from_bytes-to_bytes n rest (omega arith) i
from_bytes-to_bytes n (a ∷ rest) k = absurd (omega arith)

pub length-from_bytes : (bs : Bytes) → length (from_bytes bs) ≡ 8 * length bs
unfolding from_bytes
length-from_bytes [] = omega arith
length-from_bytes (x ∷ xs) = omega (arith, length-from_bytes xs)

pub length-to_bytes : (n : ℕ) (bs : Bits) → length bs ≡ n * 8 → length (to_bytes bs) ≡ n
unfolding to_bytes
length-to_bytes zero [] k = refl
length-to_bytes (suc n) [] k = absurd (omega arith)
length-to_bytes (suc n) (a ∷ b ∷ c ∷ d ∷ e ∷ f ∷ g ∷ h ∷ rest) k =
    omega (arith, length-to_bytes n rest (omega arith))
length-to_bytes n (a ∷ rest) k = absurd (omega arith)

pack-lt : (a b c d e f g h : Bool) → pack a b c d e f g h < 256
pack-lt a b c d e f g h = omega (
  arith,
  digit-le a,
  digit-le b,
  digit-le c,
  digit-le d,
  digit-le e,
  digit-le f,
  digit-le g,
  digit-le h,
)

pub to_bytes-IsBytes : (bs : Bits) → IsBytes (to_bytes bs)
unfolding to_bytes
to_bytes-IsBytes [] = tt
to_bytes-IsBytes (a ∷ b ∷ c ∷ d ∷ e ∷ f ∷ g ∷ h ∷ rest) =
    (pack-lt a b c d e f g h, to_bytes-IsBytes rest)
to_bytes-IsBytes (a ∷ rest) =
    let at = λ (i : ℕ). get_or rest i false in
    (pack-lt a (at 0) (at 1) (at 2) (at 3) (at 4) (at 5) (at 6), tt)

-- `int.from_bytes` reads back what `to_bytes(4, 'big')` wrote.
pub from_be-be32 : (n : ℕ) → n < 4294967296 → from_be 0 (be32 n) ≡ n
unfolding from_be
from_be-be32 n h = omega arith
