-- ===== src/Base/Lists.antt =====
-- Lists measured and cut by native numbers, under the library's names.
use Prim.Native.Nat.{ℕ, zero, suc, ◌+◌, ◌-◌, ◌≤◌, min}
use mathlib.Core.Path.{◌≡◌, refl, ap, ◌∙◌}
use mathlib.Core.List.{List, [], ◌∷◌, ◌++◌}
use mathlib.Core.Option.{Option, none, some}
use native.Mathlib.Omega.{arith}

module _ {ℓ} {A : Type ℓ} where
  abbrev pub length : List A → ℕ
  length [] = 0
  length (x ∷ xs) = suc (length xs)

  abbrev pub get_elem? : List A → ℕ → Option A
  get_elem? [] i = none
  get_elem? (x ∷ xs) zero = some x
  get_elem? (x ∷ xs) (suc i) = get_elem? xs i

  abbrev pub get_or : List A → ℕ → A → A
  get_or [] i d = d
  get_or (x ∷ xs) zero d = x
  get_or (x ∷ xs) (suc i) d = get_or xs i d

  abbrev pub take : ℕ → List A → List A
  take zero xs = []
  take (suc n) [] = []
  take (suc n) (x ∷ xs) = x ∷ take n xs

  abbrev pub drop : ℕ → List A → List A
  drop zero xs = xs
  drop (suc n) [] = []
  drop (suc n) (x ∷ xs) = drop n xs

  abbrev pub replicate : ℕ → A → List A
  replicate zero a = []
  replicate (suc n) a = a ∷ replicate n a

  -- `xs[a:b]`
  abbrev pub slice : ℕ → ℕ → List A → List A
  slice a b xs = take (b - a) (drop a xs)

  pub length-append : (xs ys : List A) → length (xs ++ ys) ≡ length xs + length ys
  length-append [] ys = omega arith
  length-append (x ∷ xs) ys = omega (arith, length-append xs ys)

  pub take-append-drop : (n : ℕ) (xs : List A) → take n xs ++ drop n xs ≡ xs
  take-append-drop zero xs = refl
  take-append-drop (suc n) [] = refl
  take-append-drop (suc n) (x ∷ xs) = ap (◌∷◌ x) (take-append-drop n xs)

  pub length-take : (n : ℕ) (xs : List A) → length (take n xs) ≡ min n (length xs)
  length-take zero xs = omega arith
  length-take (suc n) [] = omega arith
  length-take (suc n) (x ∷ xs) = omega (arith, length-take n xs)

  pub length-drop : (n : ℕ) (xs : List A) → length (drop n xs) ≡ length xs - n
  length-drop zero xs = omega arith
  length-drop (suc n) [] = omega arith
  length-drop (suc n) (x ∷ xs) = omega (arith, length-drop n xs)

  pub length-replicate : (n : ℕ) (a : A) → length (replicate n a) ≡ n
  length-replicate zero a = refl
  length-replicate (suc n) a = ap suc (length-replicate n a)

  -- Cutting at the seam of two joined parts.
  pub take-append : (n : ℕ) (xs ys : List A) → length xs ≡ n → take n (xs ++ ys) ≡ xs
  take-append zero [] ys h = refl
  take-append zero (x ∷ xs) ys h = absurd (omega arith)
  take-append (suc n) [] ys h = absurd (omega arith)
  take-append (suc n) (x ∷ xs) ys h = ap (◌∷◌ x) (take-append n xs ys (omega arith))

  pub drop-append : (n : ℕ) (xs ys : List A) → length xs ≡ n → drop n (xs ++ ys) ≡ ys
  drop-append zero [] ys h = refl
  drop-append zero (x ∷ xs) ys h = absurd (omega arith)
  drop-append (suc n) [] ys h = absurd (omega arith)
  drop-append (suc n) (x ∷ xs) ys h = drop-append n xs ys (omega arith)

  pub take_all : (n : ℕ) (xs : List A) → length xs ≤ n → take n xs ≡ xs
  take_all zero [] h = refl
  take_all zero (x ∷ xs) h = absurd (omega arith)
  take_all (suc n) [] h = refl
  take_all (suc n) (x ∷ xs) h = ap (◌∷◌ x) (take_all n xs (omega arith))

  -- Cutting behind the first of two joined parts.
  pub drop_past :
      (n r m : ℕ) (xs ys : List A) → length xs ≡ n → m ≡ n + r → drop m (xs ++ ys) ≡ drop r ys
  drop_past zero r m [] ys h e = ap (λ k. drop k ys) {x = m} {y = r} (omega arith)
  drop_past zero r m (x ∷ xs) ys h e = absurd (omega arith)
  drop_past (suc n) r m [] ys h e = absurd (omega arith)
  drop_past (suc n) r zero (x ∷ xs) ys h e = absurd (omega arith)
  drop_past (suc n) r (suc m) (x ∷ xs) ys h e = drop_past n r m xs ys (omega arith) (omega arith)

  -- A piece that lies in the second of two joined parts.
  pub slice_past :
      (n a b a' b' : ℕ) (xs ys : List A)
      → length xs ≡ n
      → a ≡ n + a'
      → b ≡ n + b'
      → slice a b (xs ++ ys) ≡ slice a' b' ys
  slice_past n a b a' b' xs ys h p q =
      ap (take (b - a)) (drop_past n a' a xs ys h p)
      ∙ ap (λ k. take k (drop a' ys)) {x = b - a} {y = b' - a'} (omega arith)

  -- A piece that is the first of two joined parts.
  pub slice_first : (n : ℕ) (xs ys : List A) → length xs ≡ n → slice 0 n (xs ++ ys) ≡ xs
  slice_first n xs ys h =
      ap (λ k. take k (xs ++ ys)) {x = n - 0} {y = n} (omega arith) ∙ take-append n xs ys h

  pub slice_all : (n : ℕ) (xs : List A) → length xs ≡ n → slice 0 n xs ≡ xs
  slice_all n xs h =
      ap (λ k. take k xs) {x = n - 0} {y = n} (omega arith) ∙ take_all n xs (omega arith)
