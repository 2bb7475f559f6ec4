-- ===== src/Directory/Store/Rows.antt =====
-- Rows of `users` under the statements of directory/src/store.rs.
use rosette.Prelude.{
  ℕ, List, [], ◌∷◌, Bool, true, false, ◌==◌, ◌&&◌, ◌||◌, if◌then◌else◌, Option, none, some, ◌≡◌,
  refl, arith, inl, inr, Option-cases, Bool-cases,
}
use rosette.Prelude.Map.{Map, lookup, HasDistinctKeys, lookup-insert, has_key-lookup}
use rosette.Prelude.Map.Size.{insert-HasDistinctKeys}
use rosette.Directory.Store.{User}
use rosette.Directory.Store.Users.{update_user, find_where, newest_where, entries_where, PhoneEntry}

abbrev pub set_row : (User → User) → Option User → Option User
set_row set none = none
set_row set (some u) = some (set u)

pub lookup-update_user :
    (i j : ℕ) (set : User → User) (users : Map User)
    → lookup j (update_user i set users)
      ≡ (if i == j then set_row set (lookup j users) else lookup j users)
unfolding update_user
lookup-update_user i j set users = elim (Option-cases (lookup i users)) [
  | inl e ↦ ground (arith, e)
  | inr (u, e) ↦ ground (arith, e, lookup-insert i j (set u) users)
]

pub update_user-HasDistinctKeys :
    (i : ℕ) (set : User → User) (users : Map User)
    → HasDistinctKeys users
    → HasDistinctKeys (update_user i set users)
unfolding update_user
update_user-HasDistinctKeys i set users d = elim (Option-cases (lookup i users)) [
  | inl e ↦ rw (e, update_user) d
  | inr (u, e) ↦ rw (e, update_user) (insert-HasDistinctKeys i (set u) users d)
]

lookup-cons :
    (i : ℕ) (j : ℕ) (u : User) (users : Map User)
    → lookup i ((j, u) ∷ users) ≡ (if j == i then some u else lookup i users)
unfolding lookup
lookup-cons i j u users = refl

-- A row below the first has another key.
lookup-below :
    (i j : ℕ) (u v : User) (users : Map User)
    → HasDistinctKeys ((j, u) ∷ users)
    → lookup i users ≡ some v
    → lookup i ((j, u) ∷ users) ≡ some v
lookup-below i j u v users d e =
    ground (arith, lookup-cons i j u users, has_key-lookup j users, d.0)

-- What `find_where` finds is a row that passes, and it finds one if there is one.
pub find_where-some :
    (p : User → Bool) (users : Map User) (i : ℕ)
    → HasDistinctKeys users
    → find_where p users ≡ some i
    → (u : User) × (lookup i users ≡ some u) × (p u ≡ true)
unfolding find_where
find_where-some p [] i d e = cc
find_where-some p ((j, u) ∷ users) i d e = elim (Bool-cases (p u)) [
  | inl hit ↦ (u, ground (arith, lookup-cons i j u users), hit)
  | inr miss ↦
      let (v, found, passes) = find_where-some p users i d.1 (ground arith) in
      (v, lookup-below i j u v users d found, passes)
]

pub find_where-none :
    (p : User → Bool) (users : Map User) (i : ℕ) (u : User)
    → find_where p users ≡ none
    → lookup i users ≡ some u
    → p u ≡ false
unfolding find_where
find_where-none p [] i u e f = unfold lookup in cc
find_where-none p ((j, v) ∷ users) i u e f =
    ground (arith, lookup-cons i j v users, find_where-none p users i u)

pub newest_where-some :
    (p : User → Bool) (users : Map User) (i : ℕ)
    → HasDistinctKeys users
    → newest_where p users ≡ some i
    → (u : User) × (lookup i users ≡ some u) × (p u ≡ true)
unfolding newest_where
newest_where-some p [] i d e = cc
newest_where-some p ((j, u) ∷ users) i d e = elim (Option-cases (newest_where p users)) [
  | inl nothing ↦ (u, ground (arith, lookup-cons i j u users), ground arith)
  | inr (k, run) ↦
      let (v, found, passes) = newest_where-some p users k d.1 run in
      let below = lookup-below k j u v users d found in
      elim (Bool-cases (k == i)) [
        | inl same ↦ (v, ground (arith, below), passes)
        | inr other ↦ (u, ground (arith, lookup-cons i j u users), ground arith)
      ]
]

-- What a query over a column that does not list users returns is of rows that pass.
abbrev pub lists : ℕ → List PhoneEntry → Bool
lists i [] = false
lists i (e ∷ es) = e.user_id == i || lists i es

pub entries_where-lists :
    (p : User → Bool) (users : Map User) (i : ℕ)
    → HasDistinctKeys users
    → lists i (entries_where p users) ≡ true
    → (u : User) × (lookup i users ≡ some u) × (p u ≡ true)
unfolding entries_where
entries_where-lists p [] i d e = cc
entries_where-lists p ((j, u) ∷ users) i d e = elim (Bool-cases (p u && j == i)) [
  | inl hit ↦ (u, ground (arith, lookup-cons i j u users), ground arith)
  | inr miss ↦
      let (v, found, passes) = entries_where-lists p users i d.1 (ground arith) in
      (v, lookup-below i j u v users d found, passes)
]
