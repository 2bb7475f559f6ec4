-- ===== src/Directory/Store/Invariant/Cases.antt =====
-- Rows of `users` after an insert and after an update (directory/src/store.rs).
use rosette.Prelude.{ℕ, ◌==◌, some, ◌≡◌, arith, inl, inr, ◌⊎◌, Option-cases, Bool-cases, ==_iff}
use rosette.Prelude.Map.{Map, lookup, insert, lookup-insert}
use rosette.Directory.Store.{User}
use rosette.Directory.Store.Users.{update_user}
use rosette.Directory.Store.Rows.{lookup-update_user}

-- A row after an insert is the one that was inserted, or an old one.
pub insert-cases :
    (i j : ℕ) (row v : User) (users : Map User)
    → lookup j (insert i row users) ≡ some v
    → ((i ≡ j) × (row ≡ v)) ⊎ (lookup j users ≡ some v)
insert-cases i j row v users e = elim (Bool-cases (i == j)) [
  | inl hit ↦ inl ((==_iff i j).0 hit, ground (arith, lookup-insert i j row users))
  | inr miss ↦ inr (ground (arith, lookup-insert i j row users))
]

-- A row after an update is the changed one, or an old one.
pub update-cases :
    (i j : ℕ) (set : User → User) (v : User) (users : Map User)
    → lookup j (update_user i set users) ≡ some v
    → ((u : User) × (i ≡ j) × (lookup j users ≡ some u) × (set u ≡ v)) ⊎ (lookup j users ≡ some v)
update-cases i j set v users e = elim (Option-cases (lookup j users)) [
  | inl gone ↦ absurd (ground (arith, lookup-update_user i j set users))
  | inr (u, found) ↦ elim (Bool-cases (i == j)) [
    | inl hit ↦ inl (u, (==_iff i j).0 hit, found, ground (arith, lookup-update_user i j set users))
    | inr miss ↦ inr (ground (arith, lookup-update_user i j set users))
  ]
]
