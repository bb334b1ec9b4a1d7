-- ===== src/Base/Tests.antt =====
-- Boolean tests on native numbers, options and lists, and the conditional.
use Prim.Native.Nat.{ℕ, ◌≤◌, compare, Ordering}
use mathlib.Core.Path.{◌≡◌, refl}
use mathlib.Core.Logic.{◌↔◌, ◌⊎◌, inl, inr}
use mathlib.Core.Bool.{Bool, true, false, ◌&&◌}
use mathlib.Core.Option.{Option, none, some}
use mathlib.Core.List.{List, [], ◌∷◌}
use native.Mathlib.Omega.{arith}

abbrev pub ltb : ℕ → ℕ → Bool
ltb a b = elim (compare a b) [ Ordering.lt ↦ true | _ ↦ false ]

abbrev pub leb : ℕ → ℕ → Bool
leb a b = elim (compare a b) [ Ordering.gt ↦ false | _ ↦ true ]

abbrev pub nat_eqb : ℕ → ℕ → Bool
nat_eqb a b = elim (compare a b) [ Ordering.eq ↦ true | _ ↦ false ]

infix 1 if◌then◌else◌
abbrev pub if◌then◌else◌ {ℓ} : {A : Type ℓ} → Bool → A → A → A
if true then x else y = x
if false then x else y = y

abbrev pub not : Bool → Bool
not true = false
not false = true

-- `x is not None`
abbrev pub is_some {ℓ} : {A : Type ℓ} → Option A → Bool
is_some none = false
is_some (some _) = true

-- The truth value of a Python sequence.
abbrev pub nonempty {ℓ} : {A : Type ℓ} → List A → Bool
nonempty [] = false
nonempty (_ ∷ _) = true

pub nat_eqb_iff : (a b : ℕ) → (nat_eqb a b ≡ true) ↔ (a ≡ b)
nat_eqb_iff a b = ground arith

pub Bool-cases : (b : Bool) → (b ≡ true) ⊎ (b ≡ false)
Bool-cases true = inl refl
Bool-cases false = inr refl

pub Option-cases {ℓ} : {A : Type ℓ} (o : Option A) → (o ≡ none) ⊎ ((a : A) × (o ≡ some a))
Option-cases none = inl refl
Option-cases (some a) = inr (a, refl)

-- Byte strings are compared byte by byte.
unfoldable pub list_eqb : List ℕ → List ℕ → Bool
list_eqb [] [] = true
list_eqb [] (y ∷ ys) = false
list_eqb (x ∷ xs) [] = false
list_eqb (x ∷ xs) (y ∷ ys) = nat_eqb x y && list_eqb xs ys

list_eqb_sound : (xs ys : List ℕ) → list_eqb xs ys ≡ true → xs ≡ ys
unfolding list_eqb
list_eqb_sound [] [] h = refl
list_eqb_sound [] (y ∷ ys) h = cc
list_eqb_sound (x ∷ xs) [] h = cc
list_eqb_sound (x ∷ xs) (y ∷ ys) h = ground (arith, list_eqb_sound xs ys)

list_eqb_refl : (xs : List ℕ) → list_eqb xs xs ≡ true
unfolding list_eqb
list_eqb_refl [] = refl
list_eqb_refl (x ∷ xs) = ground (arith, list_eqb_refl xs)

pub list_eqb_iff : (xs ys : List ℕ) → (list_eqb xs ys ≡ true) ↔ (xs ≡ ys)
list_eqb_iff xs ys = (list_eqb_sound xs ys, λ e. rw e (list_eqb_refl ys))

-- Keys of dictionaries, and the fields of packets: byte values and byte strings alike.
pub record Key (K : Type 0) : Type 0 where
  pub same : K → K → Bool
  pub same_iff : (j k : K) → (same j k ≡ true) ↔ (j ≡ k)

instance abbrev pub bytes_eq : Key (List ℕ)
bytes_eq = record { same = list_eqb; same_iff = list_eqb_iff }

instance abbrev pub nat_eq : Key ℕ
nat_eq = record { same = nat_eqb; same_iff = nat_eqb_iff }

infix 50 ◌==◌
abbrev pub ◌==◌ : {K : Type 0} ⦃key : Key K⦄ → K → K → Bool
◌==◌ ⦃key⦄ j k = key.same j k

pub ==_refl : {K : Type 0} ⦃key : Key K⦄ (k : K) → (k == k) ≡ true
==_refl ⦃key⦄ k = (key.same_iff k k).1 refl

pub leb→le : (a b : ℕ) → leb a b ≡ true → a ≤ b
leb→le a b h = ground arith
