-- ===== src/Prelude/Map.antt =====
-- `HashMap` with keys that are numbers: an association list that holds each key once. The programs
-- never depend on the order of a map's entries.
pub mod Sum
pub mod Size
use Prim.Native.Nat.{ℕ, suc, ◌+◌, ◌≤◌}
use mathlib.Core.Path.{◌≡◌, refl}
use mathlib.Core.Bool.{Bool, true, false}
use mathlib.Core.Option.{Option, none, some}
use mathlib.Core.List.{List, [], ◌∷◌}
use native.Mathlib.Omega.{arith}
use rosette.Prelude.Tests.{◌==◌, if◌then◌else◌, ==_iff}
use rosette.Prelude.Lists.{length, contains, sum_by}

abbrev pub Map {ℓ} : Type ℓ → Type ℓ
Map V = List (ℕ × V)

module _ {ℓ} {V : Type ℓ} where
  -- `get`
  unfoldable pub lookup : ℕ → Map V → Option V
  lookup key [] = none
  lookup key ((own, value) ∷ rest) = if own == key then some value else lookup key rest

  -- `insert`, and what a write through `get_mut` leaves behind
  unfoldable pub insert : ℕ → V → Map V → Map V
  insert key value [] = (key, value) ∷ []
  insert key value ((own, old) ∷ rest) =
      if own == key then (key, value) ∷ rest else (own, old) ∷ insert key value rest

  -- `remove`
  unfoldable pub erase : ℕ → Map V → Map V
  erase k [] = []
  erase k ((j, w) ∷ m) = if j == k then erase k m else (j, w) ∷ erase k m

  -- `retain` by a test of the value
  unfoldable pub retain_values : (V → Bool) → Map V → Map V
  retain_values p [] = []
  retain_values p ((j, w) ∷ m) = if p w then (j, w) ∷ retain_values p m else retain_values p m

  -- `contains_key`
  unfoldable pub has_key : ℕ → Map V → Bool
  has_key k [] = false
  has_key k ((j, v) ∷ m) = if j == k then true else has_key k m

  pub lookup-erase :
      (k j : ℕ) (m : Map V) → lookup j (erase k m) ≡ (if k == j then none else lookup j m)
  unfolding lookup erase
  lookup-erase k j [] = ground arith
  lookup-erase k j ((i, w) ∷ m) = ground (arith, lookup-erase k j m)

  pub has_key-lookup :
      (k : ℕ) (m : Map V) → has_key k m ≡ (elim (lookup k m) [ none ↦ false | some _ ↦ true ])
  unfolding has_key lookup
  has_key-lookup k [] = refl
  has_key-lookup k ((j, v) ∷ m) = ground (arith, has_key-lookup k m)

  -- A key has the value that was inserted last.
  pub lookup-insert :
      (written read : ℕ) (value : V) (entries : Map V)
      → lookup read (insert written value entries)
        ≡ (if written == read then some value else lookup read entries)
  unfolding insert lookup
  lookup-insert written read value [] = refl
  lookup-insert written read value (entry ∷ entries) =
      ground (arith, lookup-insert written read value entries)

pub ruleset map_laws = (lookup-insert, lookup-erase, has_key-lookup)

-- Each key stands once.
abbrev pub HasDistinctKeys {ℓ} : {V : Type ℓ} → Map V → Type 0
HasDistinctKeys [] = Unit
HasDistinctKeys ((k, v) ∷ m) = (has_key k m ≡ false) × HasDistinctKeys m
