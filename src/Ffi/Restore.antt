-- ===== src/Ffi/Restore.antt =====
-- The restore of an account on a new device, `new_from_backup` of ffi/src/lib.rs. Opening the
-- database, its `commit` and the removal of its file can fail; no other error of the disk is
-- modelled.
use rosette.Prelude.{ℕ, List, [], ◌∷◌, Bool, true, false, Option, none, some}
use rosette.Prelude.Text.{Text, put}
use rosette.Core.Outcome.{ok, failed, panicked, map_err, or_failed, ◌>>=◌}
use rosette.Core.Backup.{BackupBundle, open_blob}
use rosette.Core.Storage as Disk
use rosette.Core.Storage.{get, commit, new_store}
use rosette.Ffi.{ChatEngine, UiStore, Conversation, default, storage_failed, wrong_recovery_secret}
use rosette.Ffi.Recovery.{
  Platform, BackupPayload, Attempted, unwrap_with, bk_key, bundle_key, ui_key, session_key,
  conversation_id,
}

-- What opens of a bundle on a new device: the key and the payload.
unfoldable pub recover_payload : Platform → Text → BackupBundle → Attempted (List ℕ × BackupPayload)
recover_payload p secret bundle = do
  bk ← map_err (λ _. wrong_recovery_secret) (unwrap_with p secret bundle)
  bytes ← map_err (λ _. wrong_recovery_secret) (open_blob p.ciphers bk bundle.blob)
  payload ← or_failed storage_failed (p.payload.decode bytes)
  ok (bk, payload)

abbrev or_name : Text → Option Text → Text
or_name display_name none = display_name
or_name display_name (some username) = username

-- The first contact as a conversation that is not paired yet.
unfoldable pub restored_store : List Text → UiStore
restored_store [] = default
restored_store (first ∷ contacts) =
    let stub : Conversation = record {
      id = conversation_id;
      display_name = first;
      last_message = none;
      unread = 0;
      verified = false;
    } in
    record { conversations = stub ∷ []; messages = put conversation_id [] default.messages }

abbrev session_entry : Option (List ℕ) → List (Text × List ℕ)
session_entry none = []
session_entry (some identity) = (session_key, identity) ∷ []

unfoldable pub restored_disk : Platform → BackupBundle → List ℕ → BackupPayload → Disk.Store
unfolding restored_store
restored_disk p bundle bk payload =
    let ui = restored_store payload.contacts in
    let entries =
      (bk_key, bk)
      ∷ (bundle_key, p.bundle.encode bundle)
      ∷ (ui_key, p.ui.encode (ui, 1))
      ∷ session_entry payload.identity in
    commit entries [] new_store

-- What is at the path of the database; `unusable` is a file that holds no database of the key.
pub data File : Type 0 where
  absent : File
  unusable : File
  database : Disk.Store → File

-- `DiskStore::open` on a new path, with what it leaves there when it fails.
pub data Opening : Type 0 where
  opens : Opening
  open_fails : File → Opening

-- How the disk answers one restore: the opening, the write, and the removal of the file.
pub record DiskAnswers : Type 0 where
  pub opening : Opening
  pub commits : Bool
  pub removes : Bool

abbrev pub working : DiskAnswers
working = record { opening = opens; commits = true; removes = true }

unfoldable pub fill :
    Platform
    → Opening
    → Bool
    → Bool
    → Text
    → BackupBundle
    → List ℕ
    → BackupPayload
    → Attempted ChatEngine × File
fill p (open_fails left) commits removes display_name bundle bk payload =
    (failed storage_failed, left)
fill p opens true removes display_name bundle bk payload =
    let disk = restored_disk p bundle bk payload in
    (
      ok (record {
        display_name = or_name display_name payload.username;
        store = restored_store payload.contacts;
        seq = 1;
        disk = some disk;
      }),
      database disk,
    )
fill p opens false true display_name bundle bk payload = (failed storage_failed, absent)
fill p opens false false display_name bundle bk payload =
    (failed storage_failed, database new_store)

unfoldable pub seed :
    Platform
    → DiskAnswers
    → Text
    → BackupBundle
    → File
    → Attempted (List ℕ × BackupPayload)
    → Attempted ChatEngine × File
unfolding fill
seed p io display_name bundle file (failed error) = (failed error, file)
seed p io display_name bundle file panicked = (panicked, file)
seed p io display_name bundle unusable (ok opened) = (failed storage_failed, unusable)
seed p io display_name bundle (database disk) (ok opened) = (failed storage_failed, database disk)
seed p io display_name bundle absent (ok (bk, payload)) =
    fill p io.opening io.commits io.removes display_name bundle bk payload

unfoldable pub new_from_backup :
    Platform → DiskAnswers → Text → BackupBundle → Text → File → Attempted ChatEngine × File
unfolding seed
new_from_backup p io display_name bundle secret file =
    seed p io display_name bundle file (recover_payload p secret bundle)
