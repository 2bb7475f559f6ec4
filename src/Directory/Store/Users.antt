-- ===== src/Directory/Store/Users.antt =====
-- Users by their phone's hash, and their flags: the first part of directory/src/store.rs, with
-- `hash_prefix` of directory/src/search.rs.
use rosette.Prelude.{
  ℕ, ◌+◌, ◌*◌, List, [], ◌∷◌, Bool, true, false, ◌&&◌, ◌||◌, Option, none, some, ltb, if◌then◌else◌,
  take,
}
use rosette.Prelude.Map.{Map, lookup, insert}
use rosette.Prelude.Text.{Text, text_eq}
use rosette.Directory.Store.{Store, User, Cooldown, is_live}

abbrev pub prefix_len_hex : ℕ
prefix_len_hex = 5

-- `&full_hash[..min(5, len)]`
unfoldable pub hash_prefix : Text → Text
hash_prefix full_hash = take prefix_len_hex full_hash

abbrev pub phone_cooldown_hours : ℕ
phone_cooldown_hours = 24

-- UPDATE users SET … WHERE user_id = $1
unfoldable pub update_user : ℕ → (User → User) → Map User → Map User
update_user user_id set users = elim (lookup user_id users) [
  | none ↦ users
  | some u ↦ insert user_id (set u) users
]

-- The first row that passes a test, by its id.
unfoldable pub find_where : (User → Bool) → Map User → Option ℕ
find_where p [] = none
find_where p ((user_id, u) ∷ users) = if p u then some user_id else find_where p users

abbrev newer : ℕ → Option ℕ → Option ℕ
newer user_id none = some user_id
newer user_id (some other) = if ltb user_id other then some other else some user_id

-- ORDER BY user_id DESC LIMIT 1
unfoldable pub newest_where : (User → Bool) → Map User → Option ℕ
newest_where p [] = none
newest_where p ((user_id, u) ∷ users) =
    let others = newest_where p users in if p u then newer user_id others else others

-- A live row for a number.
abbrev pub is_live_for : Text → User → Bool
is_live_for phone_hash u = text_eq u.phone_hash phone_hash && is_live u

abbrev pub pending_user : ℕ → Text → User
pending_user now phone_hash = record {
  phone_hash = phone_hash;
  phone_hash_prefix = take prefix_len_hex phone_hash;
  verified = false;
  nickname = none;
  discriminator = none;
  searchable = false;
  phone_search_hash = [];
  phone_search_hash_prefix = [];
  created_at = now;
  deleted_at = none;
}

-- The sequence moves on with each insert that is tried. On a conflict the row keeps its values.
unfoldable pub find_or_create_pending_user : ℕ → Text → Store → Store × ℕ
unfolding find_where
find_or_create_pending_user now phone_hash s =
    let s' = record s { next_user_id = s.next_user_id + 1 } in
    elim (find_where (is_live_for phone_hash) s.users) [
      | some user_id ↦ (s', user_id)
      | none ↦ (
        record s' { users = insert s.next_user_id (pending_user now phone_hash) s.users },
        s.next_user_id,
      )
    ]

unfoldable pub mark_verified : ℕ → Store → Store
unfolding update_user
mark_verified user_id s = record s {
  users = update_user user_id (λ u. record u { verified = true }) s.users;
}

unfoldable pub find_user_by_phone_hash : Text → Store → Option ℕ
unfolding newest_where
find_user_by_phone_hash phone_hash s = newest_where (is_live_for phone_hash) s.users

-- One column of a row that is live.
abbrev pub live_flag : (User → Bool) → Option User → Option Bool
live_flag flag none = none
live_flag flag (some u) = if is_live u then some (flag u) else none

unfoldable pub is_verified : ℕ → Store → Option Bool
is_verified user_id s = live_flag (λ u. u.verified) (lookup user_id s.users)

unfoldable pub is_searchable : ℕ → Store → Option Bool
is_searchable user_id s = live_flag (λ u. u.searchable) (lookup user_id s.users)

-- `deleted_at > now - 24 h` for a row of the number
unfoldable pub cools : ℕ → Text → List Cooldown → Bool
cools now phone_hash [] = false
cools now phone_hash (c ∷ rows) =
    (text_eq c.phone_hash phone_hash && ltb now (c.deleted_at + phone_cooldown_hours * 3600))
    || cools now phone_hash rows

unfoldable pub is_phone_in_cooldown : ℕ → Text → Store → Bool
unfolding cools
is_phone_in_cooldown now phone_hash s = cools now phone_hash s.phone_cooldown

abbrev search_columns : Bool → Option Text → Text
search_columns true (some hash) = hash
search_columns _ _ = []

unfoldable pub set_searchable : ℕ → Bool → Option Text → Store → Store
unfolding update_user hash_prefix
set_searchable user_id searchable phone_search_hash s =
    let hash = search_columns searchable phone_search_hash in
    record s {
      users =
          update_user user_id
            (λ u. record u {
              searchable = searchable;
              phone_search_hash = hash;
              phone_search_hash_prefix = hash_prefix hash;
            })
            s.users;
    }

-- `PhoneEntry`: phone_hash, user_id
pub record PhoneEntry : Type 0 where
  pub phone_hash : Text
  pub user_id : ℕ

abbrev pub in_bucket : Text → User → Bool
in_bucket prefix u = text_eq u.phone_search_hash_prefix prefix && u.searchable && is_live u

unfoldable pub entries_where : (User → Bool) → Map User → List PhoneEntry
entries_where p [] = []
entries_where p ((user_id, u) ∷ users) =
    if p u
    then record { phone_hash = u.phone_search_hash; user_id = user_id } ∷ entries_where p users
    else entries_where p users

unfoldable pub bucket : Text → Store → List PhoneEntry
unfolding entries_where
bucket prefix s = entries_where (in_bucket prefix) s.users
