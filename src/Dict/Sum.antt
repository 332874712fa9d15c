-- ===== src/Dict/Sum.antt =====
-- Sums over the values of a Go map, under each map operation.
use synthos_collective.Prelude.{ℕ, ◌+◌, ◌≤◌, ◌≡◌, Option, none, some, [], ◌∷◌, arith}
use synthos_collective.Prelude.Eq.{Eq}
use synthos_collective.Dict.{Dict, lookup, insert, delete}

-- The measure of what a lookup found; a missing entry measures 0.
abbrev pub measure {κ} : {V : Type κ} → (V → ℕ) → Option V → ℕ
measure f none = 0
measure f (some v) = f v

abbrev pub sum_values {ℓ κ} : {K : Type ℓ} {V : Type κ} → (V → ℕ) → Dict K V → ℕ
sum_values f [] = 0
sum_values f ((_, v) ∷ m) = f v + sum_values f m

module _ {ℓ κ} {K : Type ℓ} {V : Type κ} ⦃e : Eq K⦄ (f : V → ℕ) where
  pub sum_values-insert :
      (k : K) (v : V) (m : Dict K V)
      → sum_values f (insert k v m) + measure f (lookup k m) ≡ sum_values f m + f v
  unfolding lookup insert
  sum_values-insert k v [] = omega arith
  sum_values-insert k v ((j, w) ∷ m) = ground (arith, sum_values-insert k v m)

  pub sum_values-delete :
      (k : K) (m : Dict K V) → sum_values f (delete k m) + measure f (lookup k m) ≡ sum_values f m
  unfolding lookup delete
  sum_values-delete k [] = omega arith
  sum_values-delete k ((j, w) ∷ m) = ground (arith, sum_values-delete k m)

  pub measure-le-sum_values : (k : K) (m : Dict K V) → measure f (lookup k m) ≤ sum_values f m
  unfolding lookup
  measure-le-sum_values k [] = omega arith
  measure-le-sum_values k ((j, w) ∷ m) = ground (arith, measure-le-sum_values k m)
