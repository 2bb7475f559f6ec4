-- ===== src/Prelude/Map/Sum.antt =====
-- Sums over the values of a map.
use Prim.Native.Nat.{ℕ, ◌+◌, ◌≤◌}
use mathlib.Core.Path.{◌≡◌}
use mathlib.Core.Option.{Option, none, some}
use mathlib.Core.List.{[], ◌∷◌}
use native.Mathlib.Omega.{arith}
use rosette.Prelude.Map.{Map, lookup, insert}

module _ {ℓ} {V : Type ℓ} (f : V → ℕ) where
  abbrev pub sum_values : Map V → ℕ
  sum_values [] = 0
  sum_values ((k, v) ∷ m) = f v + sum_values m

  abbrev pub value_at : Option V → ℕ
  value_at none = 0
  value_at (some v) = f v

  pub sum_values-insert :
      (k : ℕ) (v : V) (m : Map V)
      → sum_values (insert k v m) + value_at (lookup k m) ≡ sum_values m + f v
  unfolding lookup insert
  sum_values-insert k v [] = omega arith
  sum_values-insert k v ((j, w) ∷ m) = ground (arith, sum_values-insert k v m)

  pub value_at-le-sum_values : (k : ℕ) (m : Map V) → value_at (lookup k m) ≤ sum_values m
  unfolding lookup
  value_at-le-sum_values k [] = omega arith
  value_at-le-sum_values k ((j, w) ∷ m) = ground (arith, value_at-le-sum_values k m)
