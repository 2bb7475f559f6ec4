-- ===== src/Directory/Store/Calls.antt =====
-- The calls of directory/src/store.rs that write, and sequences of them. A call that violates a
-- constraint leaves the tables as they were.
use rosette.Prelude.{ℕ, List, [], ◌∷◌, Bool, Option, none, some}
use rosette.Prelude.Text.{Text}
use rosette.Directory.Backup.{BackupUpload, Attempt, verify_backup_auth}
use rosette.Directory.Store.{Store}
use rosette.Directory.Store.Users.{find_or_create_pending_user, mark_verified, set_searchable}
use rosette.Directory.Store.Handles.{claim_username}
use rosette.Directory.Store.Sessions.{
  create_session, create_restore_token, restore_token_user, consume_restore_token,
}
use rosette.Directory.Store.Pairing.{set_pairing_bootstrap, consume_pairing_bootstrap, store_backup}
use rosette.Directory.Store.Erasure.{erase_user}

pub data StoreCall : Type 0 where
  -- now, phone_hash
  find_or_create : ℕ → Text → StoreCall
  -- user_id
  verified : ℕ → StoreCall
  -- user_id, searchable, phone_search_hash
  searchable : ℕ → Bool → Option Text → StoreCall
  -- user_id, nickname
  claim : ℕ → Text → StoreCall
  -- now, token, user_id
  new_session : ℕ → Text → ℕ → StoreCall
  -- now, token, user_id, ttl_secs
  new_restore_token : ℕ → Text → ℕ → ℕ → StoreCall
  -- now, token
  read_restore_token : ℕ → Text → StoreCall
  drop_restore_token : Text → StoreCall
  -- now, user_id, contact_link_b64
  set_bootstrap : ℕ → ℕ → Text → StoreCall
  take_bootstrap : ℕ → StoreCall
  -- now, user_id, bundle
  put_bundle : ℕ → ℕ → BackupUpload → StoreCall
  -- user_id
  prove : ℕ → Attempt → StoreCall
  -- now, user_id
  erase : ℕ → ℕ → StoreCall

abbrev pub or_same : Store → Option Store → Store
or_same s none = s
or_same s (some t) = t

unfoldable pub run : StoreCall → Store → Store
run (find_or_create now phone_hash) s = (find_or_create_pending_user now phone_hash s).0
run (verified user_id) s = mark_verified user_id s
run (searchable user_id on hash) s = set_searchable user_id on hash s
run (claim user_id nickname) s = (claim_username user_id nickname s).0
run (new_session now token user_id) s = or_same s (create_session now token user_id s)
run (new_restore_token now token user_id ttl) s = create_restore_token now token user_id ttl s
run (read_restore_token now token) s = (restore_token_user now token s).0
run (drop_restore_token token) s = consume_restore_token token s
run (set_bootstrap now user_id link) s = or_same s (set_pairing_bootstrap now user_id link s)
run (take_bootstrap user_id) s = (consume_pairing_bootstrap user_id s).0
run (put_bundle now user_id b) s = or_same s (store_backup now user_id b s)
run (prove user_id a) s = record s { backups = (verify_backup_auth user_id a s.backups).0 }
run (erase now user_id) s = erase_user now user_id s

-- The calls in their order.
unfoldable pub run_all : List StoreCall → Store → Store
run_all [] s = s
run_all (call ∷ calls) s = run_all calls (run call s)
