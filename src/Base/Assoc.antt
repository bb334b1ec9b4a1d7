-- ===== src/Base/Assoc.antt =====
-- Python dictionaries as association lists in insertion order, over keys with equality.
use Prim.Native.Nat.{ℕ, ◌<◌}
use mathlib.Core.Path.{◌≡◌, refl}
use mathlib.Core.Bool.{Bool}
use mathlib.Core.Option.{Option, none, some}
use mathlib.Core.List.{List, [], ◌∷◌}
use native.Mathlib.Omega.{arith}
use ipsc2hbp.Base.Tests.{Key, ◌==◌, if◌then◌else◌, ltb, ==_refl, is_some}

abbrev pub Dict : Type 0 → Type 0 → Type 0
Dict K V = List (K × V)

module _ {K V : Type 0} ⦃e : Key K⦄ where
  -- `d.get(k)`
  unfoldable pub lookup : K → Dict K V → Option V
  lookup k [] = none
  lookup k ((j, v) ∷ d) = if j == k then some v else lookup k d

  -- `k in d`
  abbrev pub contains : K → Dict K V → Bool
  contains k d = is_some (lookup k d)

  -- `d[k] = v`: a present key keeps its place.
  unfoldable pub insert : K → V → Dict K V → Dict K V
  insert k v [] = (k, v) ∷ []
  insert k v ((j, w) ∷ d) = if j == k then (j, v) ∷ d else (j, w) ∷ insert k v d

  -- `d.pop(k, None)`: every entry of the key goes (a dictionary has one at most).
  pub remove : K → Dict K V → Dict K V
  remove k [] = []
  remove k ((j, w) ∷ d) = let rest = remove k d in if j == k then rest else (j, w) ∷ rest

  pub lookup-insert :
      (k j : K) (v : V) (d : Dict K V)
      → lookup j (insert k v d) ≡ (if k == j then some v else lookup j d)
  unfolding lookup insert
  lookup-insert k j v [] = refl
  lookup-insert k j v ((i, w) ∷ d) =
      ground (arith, e.same_iff k j, e.same_iff i k, e.same_iff i j, lookup-insert k j v d)

  pub lookup-insert_self : (k : K) (v : V) (d : Dict K V) → lookup k (insert k v d) ≡ some v
  lookup-insert_self k v d = ground (arith, lookup-insert k k v d, ==_refl k)

  pub lookup-remove :
      (k j : K) (d : Dict K V) → lookup j (remove k d) ≡ (if k == j then none else lookup j d)
  unfolding lookup remove
  lookup-remove k j [] = ground arith
  lookup-remove k j ((i, w) ∷ d) =
      ground (arith, e.same_iff k j, e.same_iff i k, e.same_iff i j, lookup-remove k j d)

-- Dictionaries from streams to expiry times.
module _ {K : Type 0} where
  -- `{k: exp for k, exp in d.items() if exp > now}`
  unfoldable pub prune : ℕ → Dict K ℕ → Dict K ℕ
  prune now [] = []
  prune now ((k, exp) ∷ d) = let rest = prune now d in if ltb now exp then (k, exp) ∷ rest else rest

module _ {K : Type 0} ⦃e : Key K⦄ where
  -- An entry that has not expired outlives the pruning.
  pub lookup-prune :
      (now : ℕ) (k : K) (d : Dict K ℕ) (exp : ℕ)
      → lookup k d ≡ some exp
      → now < exp
      → lookup k (prune now d) ≡ some exp
  unfolding lookup prune
  lookup-prune now k [] exp h lt = h
  lookup-prune now k ((j, x) ∷ d) exp h lt = ground (arith, lookup-prune now k d exp)
