-- ===== src/Directory/Store/Pairing.antt =====
-- Pairing bootstraps, and the salts of recovery bundles, of directory/src/store.rs.
use rosette.Prelude.{ℕ, List, Bool, ◌&&◌, false, Option, none, some, if◌then◌else◌}
use rosette.Prelude.Map.{lookup, insert, erase, has_key}
use rosette.Prelude.Text.{Text}
use rosette.Directory.Backup.{BackupUpload, upsert_backup}
use rosette.Directory.Store.{Store, User, is_live}

-- `none`: the foreign key names no user.
unfoldable pub set_pairing_bootstrap : ℕ → ℕ → Text → Store → Option Store
set_pairing_bootstrap now user_id contact_link_b64 s =
    if has_key user_id s.users
    then some (record s {
      pairing_bootstrap =
          insert user_id (record { contact_link_b64 = contact_link_b64; uploaded_at = now })
            s.pairing_bootstrap;
    })
    else none

-- `users.searchable = true AND users.deleted_at IS NULL`
abbrev pub can_be_paired : Option User → Bool
can_be_paired none = false
can_be_paired (some u) = u.searchable && is_live u

-- DELETE … RETURNING
unfoldable pub consume_pairing_bootstrap : ℕ → Store → Store × Option Text
consume_pairing_bootstrap user_id s = elim (lookup user_id s.pairing_bootstrap) [
  | none ↦ (s, none)
  | some row ↦
      if can_be_paired (lookup user_id s.users)
      then (
        record s { pairing_bootstrap = erase user_id s.pairing_bootstrap },
        some row.contact_link_b64,
      )
      else (s, none)
]

-- `upsert_backup` with its foreign key.
unfoldable pub store_backup : ℕ → ℕ → BackupUpload → Store → Option Store
store_backup now user_id b s =
    if has_key user_id s.users
    then some (record s { backups = upsert_backup now user_id b s.backups })
    else none

unfoldable pub backup_salts : ℕ → Store → Option (List ℕ × List ℕ)
backup_salts user_id s = elim (lookup user_id s.backups) [
  | none ↦ none
  | some row ↦ some (row.bundle.salt_a, row.bundle.salt_pa)
]
