-- ===== src/Tests/DirectoryRuns.antt =====
-- The directory's theorems at concrete inputs.
use rosette.Prelude.{ℕ, ◌+◌, ◌≤◌, ◌<◌, List, [], ◌∷◌, none, ◌≡◌, refl, inl, inr, true, ◌⊎◌}
use rosette.Directory.Backup.{Attempt, Backup, BackupUpload}
use rosette.Directory.Username.{discriminator_space_exhausted, slot_count, choose_slot}
use rosette.Directory.Username.Slots.{IsFirstFree, AllTaken, choose_slot_narrowest}

abbrev bundle : BackupUpload
bundle = record {
  blob = [];
  w_pin = [];
  salt_p = [];
  w_phrase = [];
  salt_f = [];
  auth_pin_hash = 1 ∷ 2 ∷ [];
  salt_a = [];
  auth_phrase_hash = 3 ∷ 4 ∷ [];
  salt_pa = [];
}

abbrev row : Backup
row = record { bundle = bundle; pin_attempts = 8; locked_until = none; updated_at = 0 }

abbrev guess : ℕ → Attempt
guess t = record { now = t; auth = 1 ∷ 3 ∷ []; is_pin = true }

abbrev guesses : List Attempt
guesses = guess 10 ∷ guess 20 ∷ guess 30 ∷ []

choose_slot_narrowest_example :
    ((choose_slot 7 (1 ∷ 2 ∷ []) 2 ≡ inl discriminator_space_exhausted)
      × ((w : ℕ) → 2 ≤ w → w ≤ 9 → AllTaken (1 ∷ 2 ∷ []) 1 (1 + slot_count w)))
    ⊎ ((slot : ℕ) × (chosen : ℕ) × (choose_slot 7 (1 ∷ 2 ∷ []) 2 ≡ inr (slot, chosen))
        × (2 ≤ chosen)
        × (chosen ≤ 9)
        × IsFirstFree (1 ∷ 2 ∷ []) 1 (1 + slot_count chosen) slot
        × ((w : ℕ) → 2 ≤ w → w < chosen → AllTaken (1 ∷ 2 ∷ []) 1 (1 + slot_count w)))
choose_slot_narrowest_example = choose_slot_narrowest 7 (1 ∷ 2 ∷ []) 2 9 refl

abbrev odd_name : List ℕ
odd_name = b'a' ∷ b'#' ∷ []
