-- ===== src/Config/Key.antt =====
-- config.py, `load`: the text of the authentication key.
use mathlib.Core.Option
use ipsc2hbp.Base.{
  ℕ, suc, zero, ◌+◌, ◌-◌, ◌*◌, ◌≤◌, false, Option, none, some, [], ◌∷◌, ◌++◌, ◌≡◌, refl, arith, ltb,
  length, replicate, length-append, length-replicate, ap, ◌∙◌, sym, Option-cases, inl, inr,
  append-nil, nat_eqb, ◌||◌,
}
use ipsc2hbp.Dmr.{Bytes}
use ipsc2hbp.Config.Text.{Text, hex_digit, is_ascii_space, from_hex, zfill}
use ipsc2hbp.Config.Settings.{auth_key_of}

-- The number that a text of digits to the base 16 writes, read on from `a`.
unfoldable pub hex_number : ℕ → Text → Option ℕ
hex_number a [] = some a
hex_number a (c ∷ s) = elim (hex_digit c) [ none ↦ none | some d ↦ hex_number (16 * a + d) s ]

-- The number of bytes, the high one first, read on from `a`.
unfoldable pub byte_number : ℕ → Bytes → ℕ
byte_number a [] = a
byte_number a (b ∷ bs) = byte_number (256 * a + b) bs

digit_not_space : (c d : ℕ) → hex_digit c ≡ some d → is_ascii_space c ≡ false
unfolding hex_digit is_ascii_space
digit_not_space c d h = ground arith

first_digit :
    (a c n : ℕ) (s : Text)
    → hex_number a (c ∷ s) ≡ some n
    → (d : ℕ) × (hex_digit c ≡ some d) × (hex_number (16 * a + d) s ≡ some n)
unfolding hex_number
first_digit a c n s h = elim (Option-cases (hex_digit c)) [
  | inl e ↦ absurd (bad a c n s e h)
  | inr (d, e) ↦ (d, e, rw (e, hex_number) at h)
]
  where
    bad : (a c n : ℕ) (s : Text) → hex_digit c ≡ none → hex_number a (c ∷ s) ≡ some n → ⊥
    bad a c n s e h = ground arith

pub from_hex-pair :
    (c d x y : ℕ) (s : Text)
    → hex_digit c ≡ some x
    → hex_digit d ≡ some y
    → from_hex none (c ∷ d ∷ s) ≡ Option.map (λ bs. (16 * x + y) ∷ bs) (from_hex none s)
unfolding from_hex
from_hex-pair c d x y s p q = ground (arith, digit_not_space c x p)

-- Pairs of digits give the bytes of the number.
from_hex-number :
    (k a n : ℕ) (s : Text)
    → length s ≡ 2 * k
    → hex_number a s ≡ some n
    → (bs : Bytes) × (from_hex none s ≡ some bs) × (length bs ≡ k) × (byte_number a bs ≡ n)
unfolding hex_number byte_number
from_hex-number zero a n [] l h = ([], unfold from_hex in refl, refl, ground arith)
from_hex-number zero a n (c ∷ s) l h = absurd (omega arith)
from_hex-number (suc k) a n [] l h = absurd (omega arith)
from_hex-number (suc k) a n (c ∷ []) l h = absurd (omega arith)
from_hex-number (suc k) a n (c ∷ d ∷ s) l h =
    let (x, p, h1) = first_digit a c n (d ∷ s) h in
    let (y, q, h2) = first_digit (16 * a + x) d n s h1 in
    let (bs, e, m, v) = from_hex-number k (16 * (16 * a + x) + y) n s (omega arith) h2 in
    (
      (16 * x + y) ∷ bs,
      from_hex-pair c d x y s p q ∙ ap (Option.map (λ r. (16 * x + y) ∷ r)) e,
      omega (arith, m),
      ap (λ z. byte_number z bs) {x = 256 * a + (16 * x + y)} {y = 16 * (16 * a + x) + y}
            (omega arith)
          ∙ v,
    )

hex_number-zeros : (k : ℕ) (s : Text) → hex_number 0 (replicate k b'0' ++ s) ≡ hex_number 0 s
unfolding hex_number hex_digit
hex_number-zeros zero s = refl
hex_number-zeros (suc k) s = hex_number-zeros k s

not_sign : (c d : ℕ) → hex_digit c ≡ some d → (nat_eqb c b'+' || nat_eqb c b'-') ≡ false
unfolding hex_digit
not_sign c d h = ground arith

zfill-hex :
    (k n : ℕ) (s : Text) → hex_number 0 s ≡ some n → zfill k s ≡ replicate (k - length s) b'0' ++ s
unfolding zfill
zfill-hex k n [] h =
    ap (λ i. replicate i b'0') {x = k} {y = k - 0} (omega arith) ∙ sym (append-nil _)
zfill-hex k n (c ∷ s) h = let (d, p, _) = first_digit 0 c n s h in rw (not_sign c d p)

-- An authentication key written as at most 40 hexadecimal digits is accepted, and gives the 20
-- bytes of the number that the digits write.
pub auth_key_of-number :
    (s : Text) (n : ℕ)
    → hex_number 0 s ≡ some n
    → length s ≤ 40
    → ((auth_key_of s).1 ≡ [])
      × (length (auth_key_of s).0 ≡ 20)
      × (byte_number 0 (auth_key_of s).0 ≡ n)
unfolding auth_key_of
auth_key_of-number s n h l =
    let fits : ltb 40 (length s) ≡ false = ground arith in
    let filled = replicate (40 - length s) b'0' ++ s in
    let len : length filled ≡ 2 * 20 = omega (
      arith,
      length-append (replicate (40 - length s) b'0') s,
      length-replicate {A = ℕ} (40 - length s) b'0',
    ) in
    let (bs, e, m, v) =
      from_hex-number 20 0 n filled len (hex_number-zeros (40 - length s) s ∙ h) in
    rw (fits, zfill-hex 40 n s h, e) (refl, m, v)
