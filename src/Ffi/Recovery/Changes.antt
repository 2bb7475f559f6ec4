-- ===== src/Ffi/Recovery/Changes.antt =====
-- Sequences of changes of the recovery material of ffi/src/lib.rs, and what a restore leaves behind.
use rosette.Prelude.{
  ℕ, List, [], ◌∷◌, Bool, true, false, some, ◌≡◌, refl, ◌⊎◌, inl, inr, length, All,
}
use rosette.Prelude.Text.{Text}
use rosette.Core.Outcome.{ok, failed, panicked, ◌>>=◌}
use rosette.Core.Backup.{BackupBundle, Draws, validate_pin, nonce_len}
use rosette.Core.Backup.Opens.{AreDrawn}
use rosette.Core.Storage.{new_store}
use rosette.Ffi.{ChatEngine, storage_failed}
use rosette.Ffi.Recovery.{
  Platform, BackupPayload, Attempted, utf8, backup_bundle_current, backup_rewrap_pin,
  backup_verify_secret,
}
use rosette.Ffi.Restore.{
  File, absent, unusable, database, Opening, opens, open_fails, DiskAnswers, recover_payload,
  restored_disk, fill, seed, new_from_backup,
}
use rosette.Ffi.Recovery.Restored.{Unlocks}
use rosette.Ffi.Recovery.Enrolled.{
  IsEnrolled, refresh-IsEnrolled, rewrap-IsEnrolled, verify-IsEnrolled,
}

-- `backup_rewrap_pin` with its draws, or `backup_bundle_current` with its nonce.
pub data Change : Type 0 where
  new_pin : Draws → Text → Change
  refresh : List ℕ → Change

abbrev pub apply : Platform → Change → ChatEngine → Attempted ChatEngine
apply p (new_pin d pin) e = backup_rewrap_pin p d pin e >>= λ done. ok done.1
apply p (refresh nonce) e = backup_bundle_current p nonce e >>= λ done. ok done.1

abbrev pub apply_all : Platform → List Change → ChatEngine → Attempted ChatEngine
apply_all p [] e = ok e
apply_all p (change ∷ changes) e = apply p change e >>= apply_all p changes

abbrev pub pin_after : Text → List Change → Text
pin_after pin [] = pin
pin_after pin (new_pin d next ∷ changes) = pin_after next changes
pin_after pin (refresh nonce ∷ changes) = pin_after pin changes

abbrev pub IsFresh : Change → Type 0
IsFresh (new_pin d pin) = AreDrawn d × (validate_pin (utf8 pin) ≡ true)
IsFresh (refresh nonce) = length nonce ≡ nonce_len

module _ (p : Platform)
    (bundle_codec : (b : BackupBundle) → p.bundle.decode (p.bundle.encode b) ≡ inr b)
    (phrase : Text) (bk : List ℕ) where
  apply_all-IsEnrolled :
      (changes : List Change) (pin : Text) (e : ChatEngine)
      → IsEnrolled p phrase bk pin e
      → All IsFresh changes
      → (e' : ChatEngine) × (apply_all p changes e ≡ ok e')
        × IsEnrolled p phrase bk (pin_after pin changes) e'
  apply_all-IsEnrolled [] pin e h fresh = (e, refl, h)
  apply_all-IsEnrolled (new_pin d next ∷ changes) pin e h fresh =
      let (b, e1, done, kept) =
        rewrap-IsEnrolled p bundle_codec phrase bk d next pin e h fresh.0.0 fresh.0.1 in
      let (e2, all_done, enrolled) = apply_all-IsEnrolled changes next e1 kept fresh.1 in
      (e2, rw done all_done, enrolled)
  apply_all-IsEnrolled (refresh nonce ∷ changes) pin e h fresh =
      let (b, e1, done, kept) = refresh-IsEnrolled p bundle_codec phrase bk nonce pin e h fresh.0 in
      let (e2, all_done, enrolled) = apply_all-IsEnrolled changes pin e1 kept fresh.1 in
      (e2, rw done all_done, enrolled)

  -- An enrolled engine stays enrolled, with the same key and phrase, over any changes to valid PINs and
  -- any refreshed bundles; all of them succeed, and afterwards the last PIN, and every text that is
  -- normalized to the phrase, passes the local check.
  pub changes_keep_recovery :
      (changes : List Change) (pin : Text) (e : ChatEngine)
      → IsEnrolled p phrase bk pin e
      → All IsFresh changes
      → (is_pin : Bool) (secret : Text) → Unlocks p (pin_after pin changes) phrase is_pin secret
      → (e' : ChatEngine) × (apply_all p changes e ≡ ok e')
        × IsEnrolled p phrase bk (pin_after pin changes) e'
        × (backup_verify_secret p secret e' ≡ ok true)
  changes_keep_recovery changes pin e h fresh is_pin secret unlocks =
      let (e', done, enrolled) = apply_all-IsEnrolled changes pin e h fresh in
      (
        e',
        done,
        enrolled,
        verify-IsEnrolled p bundle_codec phrase bk (pin_after pin changes) e' enrolled is_pin secret
            unlocks,
      )

-- What a restore that recovered a key and a payload does on a path where no file was.
unfoldable pub IsLeft :
    Platform
    → DiskAnswers
    → BackupBundle
    → List ℕ
    → BackupPayload
    → Attempted ChatEngine × File
    → Type 0
IsLeft p io b bk payload (result, after) =
    ((e : ChatEngine) × (io.opening ≡ opens)
      × (io.commits ≡ true)
      × (result ≡ ok e)
      × (e.disk ≡ some (restored_disk p b bk payload))
      × (after ≡ database (restored_disk p b bk payload)))
    ⊎ ((result ≡ failed storage_failed)
        × (((io.opening ≡ open_fails after))
            ⊎ ((io.opening ≡ opens)
                × (io.commits ≡ false)
                × (io.removes ≡ false)
                × (after ≡ database new_store))))

module _ (p : Platform) (name : Text) (b : BackupBundle) where
  fill-IsLeft :
      (opening : Opening) (commits removes : Bool) (bk : List ℕ) (payload : BackupPayload)
      → let io : DiskAnswers = record { opening = opening; commits = commits; removes = removes } in
        ((fill p opening commits removes name b bk payload).1 ≡ absent)
        ⊎ IsLeft p io b bk payload (fill p opening commits removes name b bk payload)
  unfolding fill IsLeft
  fill-IsLeft (open_fails left) commits removes bk payload = inr (inr (refl, inl refl))
  fill-IsLeft opens true removes bk payload = inr (inl (_, refl, refl, refl, refl, refl))
  fill-IsLeft opens false true bk payload = inl refl
  fill-IsLeft opens false false bk payload = inr (inr (refl, inr (refl, refl, refl, refl)))

  seed-IsLeft :
      (io : DiskAnswers) (file : File) (opened : Attempted (List ℕ × BackupPayload))
      → ((seed p io name b file opened).1 ≡ file)
        ⊎ ((bk : List ℕ) × (payload : BackupPayload) × (opened ≡ ok (bk, payload))
            × (file ≡ absent)
            × IsLeft p io b bk payload (seed p io name b file opened))
  unfolding seed
  seed-IsLeft io file (failed error) = inl refl
  seed-IsLeft io file panicked = inl refl
  seed-IsLeft io unusable (ok opened) = inl refl
  seed-IsLeft io (database disk) (ok opened) = inl refl
  seed-IsLeft io absent (ok (bk, payload)) =
      elim (fill-IsLeft io.opening io.commits io.removes bk payload) [
        | inl same ↦ inl same
        | inr leaves ↦ inr (bk, payload, refl, refl, leaves)
      ]

-- A restore leaves the path as it was, a file that is there included, unless the secret opened the
-- bundle and no file was there. Then either the restore succeeds, and the engine and the path both have
-- the database of the restored account, or it fails, and the path has what a failed opening left there,
-- or, when both the write and the removal failed, the empty database that was opened.
pub restore_leaves_file :
    (p : Platform) (io : DiskAnswers) (name : Text) (b : BackupBundle) (secret : Text) (file : File)
    → ((new_from_backup p io name b secret file).1 ≡ file)
      ⊎ ((bk : List ℕ) × (payload : BackupPayload) × (recover_payload p secret b ≡ ok (bk, payload))
          × (file ≡ absent)
          × IsLeft p io b bk payload (new_from_backup p io name b secret file))
unfolding new_from_backup
restore_leaves_file p io name b secret file =
    seed-IsLeft p name b io file (recover_payload p secret b)
