-- ===== src/Prelude/Map/Size.antt =====
-- The number of entries of a map whose keys are distinct and drawn from a list.
use Prim.Native.Nat.{ℕ, ◌+◌, ◌≤◌}
use mathlib.Core.Path.{◌≡◌, refl}
use mathlib.Core.Bool.{Bool, true, false}
use mathlib.Core.Option.{some}
use mathlib.Core.List.{List, [], ◌∷◌}
use native.Mathlib.Omega.{arith}
use rosette.Prelude.Tests.{◌==◌, if◌then◌else◌}
use rosette.Prelude.Lists.{length, contains}
use rosette.Prelude.Map.{
  Map, lookup, insert, erase, has_key, retain_values, lookup-insert, lookup-erase, has_key-lookup,
  HasDistinctKeys,
}

module _ {ℓ} {V : Type ℓ} where
  pub has_key-insert :
      (k j : ℕ) (v : V) (m : Map V)
      → has_key j (insert k v m) ≡ (if k == j then true else has_key j m)
  has_key-insert k j v m =
      ground (arith, has_key-lookup j (insert k v m), has_key-lookup j m, lookup-insert k j v m)

  pub has_key-erase :
      (k j : ℕ) (m : Map V) → has_key j (erase k m) ≡ (if k == j then false else has_key j m)
  has_key-erase k j m =
      ground (arith, has_key-lookup j (erase k m), has_key-lookup j m, lookup-erase k j m)

  pub insert-HasDistinctKeys :
      (k : ℕ) (v : V) (m : Map V) → HasDistinctKeys m → HasDistinctKeys (insert k v m)
  unfolding insert has_key
  insert-HasDistinctKeys k v [] h = ground arith
  insert-HasDistinctKeys k v ((j, w) ∷ m) h =
      ground (arith, insert-HasDistinctKeys k v m h.1, has_key-insert k j v m)

  pub erase-HasDistinctKeys : (k : ℕ) (m : Map V) → HasDistinctKeys m → HasDistinctKeys (erase k m)
  unfolding erase
  erase-HasDistinctKeys k [] h = tt
  erase-HasDistinctKeys k ((j, w) ∷ m) h =
      ground (arith, erase-HasDistinctKeys k m h.1, has_key-erase k j m)

  -- Every key of the map is in the list.
  abbrev pub KeysIn : Map V → List ℕ → Type 0
  KeysIn m ks = (k : ℕ) → has_key k m ≡ true → contains k ks ≡ true

  erase_fresh : (k : ℕ) (m : Map V) → has_key k m ≡ false → erase k m ≡ m
  unfolding erase has_key
  erase_fresh k [] h = refl
  erase_fresh k ((j, w) ∷ m) h = ground (arith, erase_fresh k m)

  length-erase : (k : ℕ) (m : Map V) → HasDistinctKeys m → length m ≤ length (erase k m) + 1
  unfolding erase
  length-erase k [] h = omega arith
  length-erase k ((j, w) ∷ m) h = ground (arith, length-erase k m h.1, erase_fresh j m h.0)

  -- A map with distinct keys from a list has at most as many entries as the list.
  pub length-le-length_keys :
      (m : Map V) (ks : List ℕ) → HasDistinctKeys m → KeysIn m ks → length m ≤ length ks
  length-le-length_keys [] ks d h = omega arith
  length-le-length_keys ((j, v) ∷ m) [] d h = absurd (unfold has_key in ground (arith, h j))
  length-le-length_keys ((j, v) ∷ m) (k ∷ ks) d h = omega (
    arith,
    length-erase k ((j, v) ∷ m) d,
    length-le-length_keys (erase k ((j, v) ∷ m)) ks (erase-HasDistinctKeys k ((j, v) ∷ m) d)
        (λ i e. ground (arith, has_key-erase k i ((j, v) ∷ m), h i)),
  )

  -- `retain` keeps an entry that passes the test.
  pub lookup-retain_values :
      (p : V → Bool) (k : ℕ) (v : V) (m : Map V)
      → lookup k m ≡ some v
      → p v ≡ true
      → lookup k (retain_values p m) ≡ some v
  unfolding lookup retain_values
  lookup-retain_values p k v [] e t = cc
  lookup-retain_values p k v ((j, w) ∷ m) e t = ground (arith, lookup-retain_values p k v m)
