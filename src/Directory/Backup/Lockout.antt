-- ===== src/Directory/Backup/Lockout.antt =====
-- Sequences of wrong proofs against a recovery bundle of directory/src/store.rs.
use rosette.Prelude.{
  ℕ, ◌+◌, ◌%◌, ◌≤◌, List, [], ◌∷◌, Bool, true, false, not, ◌&&◌, none, some, ◌≡◌, ◌≢◌,
  if◌then◌else◌,
}
use rosette.Prelude.Map.{Map, lookup, insert}
use rosette.Directory.Backup.{
  Attempt, Backup, RestoreVerdict, match, wrong_pin, wrong_phrase, locked, is_locked, expected,
  ct_eq, verify_row, verify_backup_auth,
}

abbrev is_match : RestoreVerdict → Bool
is_match (match bundle) = true
is_match (wrong_pin left) = false
is_match wrong_phrase = false
is_match (locked until) = false

-- The row if the proof were the hash of its PIN.
abbrev as_if_right : Attempt → Backup → Backup
as_if_right a row = record row { bundle = record row.bundle { auth_pin_hash = a.auth } }

-- An attempt guesses the PIN if it would be answered with the bundle were its proof the right one.
unfoldable pub guesses_pin : Attempt → Backup → Bool
guesses_pin a row = a.is_pin && is_match (verify_row a (as_if_right a row)).1

abbrev is_free : Attempt → Backup → Bool
is_free a row = a.is_pin && not (is_locked a.now row.locked_until)

-- How many of the attempts on a user's backup, oldest first, are guesses of the PIN.
unfoldable pub pin_guesses : ℕ → List Attempt → Map Backup → ℕ
pin_guesses user [] backups = 0
pin_guesses user (a ∷ attempts) backups = elim (lookup user backups) [
  | none ↦ 0
  | some row ↦
      (if guesses_pin a row then 1 else 0)
      + pin_guesses user attempts (verify_backup_auth user a backups).0
]

-- The proof is wrong for a row.
abbrev pub IsWrong : Backup → Attempt → Type 0
IsWrong row a = ct_eq a.auth (expected a row) ≡ false

-- A wrong attempt leaves the row, or counts a guess, or counts the tenth and locks for an hour or
-- more.
data WrongStep (user : ℕ) (a : Attempt) (backups : Map Backup) (row : Backup) : Type 0 where
  ignored :
      guesses_pin a row ≡ false
      → (verify_backup_auth user a backups).0 ≡ insert user row backups
      → WrongStep user a backups row
  counted :
      guesses_pin a row ≡ true
      → (row.pin_attempts + 1) % 10 ≢ 0
      → (verify_backup_auth user a backups).0
        ≡ insert user (record row { pin_attempts = row.pin_attempts + 1 }) backups
      → WrongStep user a backups row
  locks :
      (until : ℕ)
      → guesses_pin a row ≡ true
      → (row.pin_attempts + 1) % 10 ≡ 0
      → a.now + 3600 ≤ until
      → (verify_backup_auth user a backups).0
        ≡ insert user
            (record row { pin_attempts = row.pin_attempts + 1; locked_until = some until })
            backups
      → WrongStep user a backups row
