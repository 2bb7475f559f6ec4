-- ===== src/Directory/Backup.antt =====
-- The recovery bundles of directory/src/store.rs: `upsert_backup` and `verify_backup_auth`. A row of
-- `backups` is a record; times are seconds since 1970, never negative. `pin_attempts` is an `i32`,
-- whose overflow is not modelled.
pub mod Lockout
pub mod Equal
use Prim.Native.Nat.{bit_xor, bit_or}
use rosette.Prelude.{
  ℕ, ◌+◌, ◌-◌, ◌*◌, ◌/◌, ◌%◌, List, [], ◌∷◌, Bool, true, false, ◌&&◌, Option, none, some, ltb, leb,
  ◌==◌, if◌then◌else◌, length,
}
use rosette.Prelude.Map.{Map, lookup, insert}

-- `BackupUpload`; `BackupRow` has the same fields.
pub record BackupUpload : Type 0 where
  pub blob : List ℕ
  pub w_pin : List ℕ
  pub salt_p : List ℕ
  pub w_phrase : List ℕ
  pub salt_f : List ℕ
  pub auth_pin_hash : List ℕ
  pub salt_a : List ℕ
  pub auth_phrase_hash : List ℕ
  pub salt_pa : List ℕ

pub record Backup : Type 0 where
  pub bundle : BackupUpload
  pub pin_attempts : ℕ
  pub locked_until : Option ℕ
  pub updated_at : ℕ

-- `RestoreVerdict`
pub data RestoreVerdict : Type 0 where
  match : BackupUpload → RestoreVerdict
  wrong_pin : ℕ → RestoreVerdict
  wrong_phrase : RestoreVerdict
  locked : ℕ → RestoreVerdict

unfoldable pub lockout_hours : ℕ → ℕ
lockout_hours i = if leb i 1 then 1 else if i == 2 then 4 else 24

-- `a.iter().zip(b).fold(acc, |acc, (x, y)| acc | (x ^ y))`
unfoldable pub fold_differences : ℕ → List ℕ → List ℕ → ℕ
fold_differences acc [] ys = acc
fold_differences acc (x ∷ xs) [] = acc
fold_differences acc (x ∷ xs) (y ∷ ys) = fold_differences (bit_or acc (bit_xor x y)) xs ys

unfoldable pub ct_eq : List ℕ → List ℕ → Bool
unfolding fold_differences
ct_eq a b = length a == length b && fold_differences 0 a b == 0

-- A fresh upload resets the lockout.
unfoldable pub upsert_backup : ℕ → ℕ → BackupUpload → Map Backup → Map Backup
upsert_backup now user_id b =
    insert user_id (record { bundle = b; pin_attempts = 0; locked_until = none; updated_at = now })

-- What the client proves: the time, the proof, and which of the two it is.
pub record Attempt : Type 0 where
  pub now : ℕ
  pub auth : List ℕ
  pub is_pin : Bool

unfoldable pub is_locked : ℕ → Option ℕ → Bool
is_locked now none = false
is_locked now (some until) = ltb now until

abbrev pub until_of : Option ℕ → ℕ
until_of none = 0
until_of (some until) = until

abbrev pub expected : Attempt → Backup → List ℕ
expected a row = if a.is_pin then row.bundle.auth_pin_hash else row.bundle.auth_phrase_hash

-- A wrong PIN is counted, and every tenth starts a lockout.
unfoldable pub count_wrong_pin : ℕ → Backup → Backup × RestoreVerdict
unfolding lockout_hours
count_wrong_pin now row =
    let attempts = row.pin_attempts + 1 in
    if attempts % 10 == 0
    then (let until = now + lockout_hours (attempts / 10) * 3600 in
        (record row { pin_attempts = attempts; locked_until = some until }, locked until))
    else (record row { pin_attempts = attempts }, wrong_pin (10 - attempts % 10))

-- The row of the caller, after its lock has been taken.
unfoldable pub verify_row : Attempt → Backup → Backup × RestoreVerdict
unfolding count_wrong_pin is_locked
verify_row a row =
    if a.is_pin && is_locked a.now row.locked_until
    then (row, locked (until_of row.locked_until))
    else if ct_eq a.auth (expected a row)
    then (record row { pin_attempts = 0; locked_until = none }, match row.bundle)
    else if a.is_pin
    then count_wrong_pin a.now row
    else (row, wrong_phrase)

-- `none` where the user has no backup.
unfoldable pub verify_backup_auth : ℕ → Attempt → Map Backup → Map Backup × Option RestoreVerdict
unfolding verify_row
verify_backup_auth user_id a backups = elim (lookup user_id backups) [
  | none ↦ (backups, none)
  | some row ↦ let (row', verdict) = verify_row a row in (insert user_id row' backups, some verdict)
]
