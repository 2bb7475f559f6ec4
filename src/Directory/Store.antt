-- ===== src/Directory/Store.antt =====
-- The tables and the state of directory/src/store.rs (`DirectoryStore`) and directory/migrations. A
-- table whose primary key is a number is a map; texts are lists of code points; times are seconds
-- since 1970. Each call is one statement or one transaction, and they run one after another. A query
-- reaches the database: the only errors are violated constraints.
pub mod Users
pub mod Handles
pub mod Sessions
pub mod Pairing
pub mod Erasure
pub mod Calls
pub mod Rows
pub mod Invariant
pub mod Gone
pub mod Holders
pub mod Cooling
use rosette.Prelude.{ℕ, List, [], ◌∷◌, Bool, true, false, Option, none, some}
use rosette.Prelude.Map.{Map}
use rosette.Prelude.Text.{Text, TextMap}
use rosette.Directory.Backup.{Backup}

-- A row of `users`, whose key is `user_id`.
pub record User : Type 0 where
  pub phone_hash : Text
  pub phone_hash_prefix : Text
  pub verified : Bool
  pub nickname : Option Text
  pub discriminator : Option ℕ
  pub searchable : Bool
  pub phone_search_hash : Text
  pub phone_search_hash_prefix : Text
  pub created_at : ℕ
  pub deleted_at : Option ℕ

-- A row of `phone_cooldown`, of `sessions` by its token, of `pairing_bootstrap` by its user.
pub record Cooldown : Type 0 where
  pub phone_hash : Text
  pub deleted_at : ℕ

pub record Session : Type 0 where
  pub user_id : ℕ
  pub created_at : ℕ

pub record Bootstrap : Type 0 where
  pub contact_link_b64 : Text
  pub uploaded_at : ℕ

-- An entry of `restore_tokens` by its token.
pub record RestoreToken : Type 0 where
  pub user_id : ℕ
  pub expires_at : ℕ

-- `next_user_id` is the sequence of `users.user_id`.
pub record Store : Type 0 where
  pub users : Map User
  pub next_user_id : ℕ
  pub nickname_widths : TextMap ℕ
  pub phone_cooldown : List Cooldown
  pub pairing_bootstrap : Map Bootstrap
  pub sessions : TextMap Session
  pub backups : Map Backup
  pub restore_tokens : TextMap RestoreToken

-- A migrated database with no rows.
abbrev pub empty_store : Store
empty_store = record {
  users = [];
  next_user_id = 1;
  nickname_widths = [];
  phone_cooldown = [];
  pairing_bootstrap = [];
  sessions = [];
  backups = [];
  restore_tokens = [];
}

-- `deleted_at IS NULL`
abbrev pub is_live : User → Bool
is_live u = elim u.deleted_at [ none ↦ true | some _ ↦ false ]
