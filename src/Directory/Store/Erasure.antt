-- ===== src/Directory/Store/Erasure.antt =====
-- `erase_user` of directory/src/store.rs.
use rosette.Prelude.{ℕ, List, [], ◌∷◌, ◌++◌, false, not, Option, none, some, ◌==◌}
use rosette.Prelude.Map.{lookup, erase}
use rosette.Prelude.Text.{keep_where}
use rosette.Directory.Store.{Store, User, Cooldown}
use rosette.Directory.Store.Users.{update_user}

abbrev pub erased : ℕ → User → User
erased now u = record u {
  phone_hash = [];
  phone_hash_prefix = [];
  searchable = false;
  phone_search_hash = [];
  phone_search_hash_prefix = [];
  verified = false;
  deleted_at = some now;
}

abbrev cooldown_rows : ℕ → Option User → List Cooldown
cooldown_rows now none = []
cooldown_rows now (some u) = record { phone_hash = u.phone_hash; deleted_at = now } ∷ []

unfoldable pub erase_user : ℕ → ℕ → Store → Store
unfolding update_user
erase_user now user_id s = record s {
  phone_cooldown = s.phone_cooldown ++ cooldown_rows now (lookup user_id s.users);
  users = update_user user_id (erased now) s.users;
  pairing_bootstrap = erase user_id s.pairing_bootstrap;
  backups = erase user_id s.backups;
  sessions = keep_where (λ session. not (session.user_id == user_id)) s.sessions;
}
