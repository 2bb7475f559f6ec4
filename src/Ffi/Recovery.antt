-- ===== src/Ffi/Recovery.antt =====
-- Account recovery of ffi/src/lib.rs. The ciphers, bincode, the table of lower-case letters and the
-- word list are parameters; the errors of an open database are not modelled.
pub mod Restored
pub mod Enrolled
pub mod Changes
use rosette.Prelude.{
  ℕ, suc, ◌+◌, ◌*◌, ◌/◌, ◌%◌, List, [], ◌∷◌, ◌++◌, map, Bool, true, false, Option, none, some, ◌==◌,
  ltb, length, not, if◌then◌else◌,
}
use rosette.Prelude.Text.{Text, TextMap, put}
use rosette.Proto.Codec.{Codec}
use rosette.Core.Outcome.{Outcome, ok, failed, panicked, map_err, or_failed, ◌>>=◌}
use rosette.Core.Phrase.{normalize_phrase, generate_phrase}
use rosette.Core.Backup.{
  Ciphers, BackupBundle, BackupError, Draws, validate_pin, auth_hash, seal_blob, open_blob,
  unwrap_bk, wrap_bk, build_bundle, bk_len,
}
use rosette.Core.Storage as Disk
use rosette.Core.Storage.{get, commit, new_store}
use rosette.Core.Session.{SessionSnapshot, strip_snapshot_to_identity}
use rosette.Ffi.{
  ChatEngine, UiStore, Conversation, ChatMessage, EngineError, default, not_supported,
  storage_failed, invalid_pin, wrong_recovery_secret,
}

-- `BackupPayload` of core/src/backup.rs
pub record BackupPayload : Type 0 where
  pub identity : Option (List ℕ)
  pub username : Option Text
  pub contacts : List Text

pub record Platform : Type 0 where
  pub ciphers : Ciphers
  pub lowercase : Text → Text
  pub wordlist : List Text
  pub bundle : Codec BackupBundle
  pub payload : Codec BackupPayload
  pub snapshot : Codec SessionSnapshot
  pub ui : Codec (UiStore × ℕ)

abbrev pub Attempted : Type 0 → Type 0
Attempted = Outcome EngineError

-- `as_bytes` of a character: UTF-8
unfoldable pub utf8_char : ℕ → List ℕ
utf8_char c =
    if ltb c 128
    then c ∷ []
    else if ltb c 2048
    then (192 + c / 64) ∷ (128 + c % 64) ∷ []
    else if ltb c 65536
    then (224 + c / 4096) ∷ (128 + c / 64 % 64) ∷ (128 + c % 64) ∷ []
    else (240 + c / 262144) ∷ (128 + c / 4096 % 64) ∷ (128 + c / 64 % 64) ∷ (128 + c % 64) ∷ []

unfoldable pub utf8 : Text → List ℕ
unfolding utf8_char
utf8 [] = []
utf8 (c ∷ cs) = utf8_char c ++ utf8 cs

abbrev pub bk_key : Text
bk_key = b'b' ∷ b'a' ∷ b'c' ∷ b'k' ∷ b'u' ∷ b'p' ∷ b'.' ∷ b'b' ∷ b'k' ∷ []

abbrev pub bundle_key : Text
bundle_key =
    b'b' ∷ b'a' ∷ b'c' ∷ b'k' ∷ b'u' ∷ b'p' ∷ b'.' ∷ b'b' ∷ b'u' ∷ b'n' ∷ b'd' ∷ b'l' ∷ b'e' ∷ []

abbrev pub ui_key : Text
ui_key = b'u' ∷ b'i' ∷ b'.' ∷ b's' ∷ b't' ∷ b'a' ∷ b't' ∷ b'e' ∷ []

abbrev pub session_key : Text
session_key = b's' ∷ b'e' ∷ b's' ∷ b's' ∷ b'i' ∷ b'o' ∷ b'n' ∷ []

abbrev pub conversation_id : Text
conversation_id = b'c' ∷ b'o' ∷ b'n' ∷ b'v' ∷ b'-' ∷ b'1' ∷ []

-- A PIN stands for itself, and anything else for a phrase.
unfoldable pub backup_auth_proof : Platform → Text → List ℕ → Attempted (List ℕ)
backup_auth_proof p secret salt =
    let as_typed =
      if validate_pin (utf8 secret) then secret else normalize_phrase p.lowercase secret in
    auth_hash p.ciphers (utf8 as_typed) salt

abbrev pub or_storage_failed : {A : Type 0} → Option A → Attempted A
or_storage_failed none = failed storage_failed
or_storage_failed (some a) = ok a

abbrev pub stripped : Platform → Option (List ℕ) → Attempted (Option (List ℕ))
stripped p none = ok none
stripped p (some bytes) = do
  identity ← or_storage_failed (strip_snapshot_to_identity p.snapshot bytes)
  ok (some identity)

unfoldable pub backup_payload : Platform → ChatEngine → Disk.Store → Attempted (List ℕ)
backup_payload p e disk = do
  identity ← stripped p (get session_key disk)
  ok (
      p.payload.encode (record {
        identity = identity;
        username = some e.display_name;
        contacts = map (λ c. c.display_name) e.store.conversations;
      }))

-- The disk of a persistent engine.
abbrev pub persistent : ChatEngine → Attempted Disk.Store
persistent e = elim e.disk [ none ↦ failed not_supported | some disk ↦ ok disk ]

abbrev pub with_disk : ChatEngine → Disk.Store → ChatEngine
with_disk e disk = record e { disk = some disk }

pub record BackupEnrollment : Type 0 where
  pub phrase : Text
  pub bundle : BackupBundle

-- The draws of the words, of the key, and of the bundle. The engine is as it was where this fails.
unfoldable pub backup_enroll :
    Platform
    → (ℕ → ℕ)
    → List ℕ
    → Draws
    → Text
    → ChatEngine
    → Attempted (BackupEnrollment × ChatEngine)
backup_enroll p words bk d pin e = if not (validate_pin (utf8 pin)) then failed invalid_pin else (do
  disk ← persistent e
  phrase ← generate_phrase p.wordlist words
  payload ← backup_payload p e disk
  bundle ← map_err (λ _. invalid_pin) (build_bundle p.ciphers d (utf8 pin) (utf8 phrase) bk payload)
  let entries = (bk_key, bk) ∷ (bundle_key, p.bundle.encode bundle) ∷ []
  ok (record { phrase = phrase; bundle = bundle }, with_disk e (commit entries [] disk)))

-- The backup key and the bundle on the disk; `none` where one of them is missing.
unfoldable pub enrolled : Platform → Disk.Store → Attempted (Option (List ℕ × BackupBundle))
enrolled p disk = elim (get bk_key disk) [
  | none ↦ ok none
  | some bk ↦ elim (get bundle_key disk) [
    | none ↦ ok none
    | some bytes ↦
        if not (length bk == bk_len)
        then failed storage_failed
        else (do bundle ← or_failed storage_failed (p.bundle.decode bytes); ok (some (bk, bundle)))
  ]
]

abbrev pub save_bundle : Platform → ChatEngine → Disk.Store → BackupBundle → ChatEngine
save_bundle p e disk bundle =
    with_disk e (commit ((bundle_key, p.bundle.encode bundle) ∷ []) [] disk)

abbrev pub refreshed :
    Platform
    → List ℕ
    → ChatEngine
    → Disk.Store
    → Option (List ℕ × BackupBundle)
    → Attempted (Option BackupBundle × ChatEngine)
refreshed p nonce e disk none = ok (none, e)
refreshed p nonce e disk (some (bk, bundle)) = do
  payload ← backup_payload p e disk
  let fresh = record bundle { blob = seal_blob p.ciphers nonce bk payload }
  ok (some fresh, save_bundle p e disk fresh)

unfoldable pub backup_bundle_current :
    Platform → List ℕ → ChatEngine → Attempted (Option BackupBundle × ChatEngine)
unfolding enrolled
backup_bundle_current p nonce e = elim e.disk [
  | none ↦ ok (none, e)
  | some disk ↦ enrolled p disk >>= refreshed p nonce e disk
]

-- The wrap that a secret is tried at: that of the PIN for what looks like one.
unfoldable pub unwrap_with : Platform → Text → BackupBundle → Outcome BackupError (List ℕ)
unwrap_with p secret bundle =
    if validate_pin (utf8 secret)
    then unwrap_bk p.ciphers (utf8 secret) bundle.salt_p bundle.w_pin
    else unwrap_bk p.ciphers (utf8 (normalize_phrase p.lowercase secret)) bundle.salt_f
        bundle.w_phrase

abbrev is_ok : {E A : Type 0} → Outcome E A → Attempted Bool
is_ok (ok a) = ok true
is_ok (failed e) = ok false
is_ok panicked = panicked

unfoldable pub backup_verify_secret : Platform → Text → ChatEngine → Attempted Bool
backup_verify_secret p secret e = elim e.disk [
  | none ↦ ok false
  | some disk ↦ elim (get bundle_key disk) [
    | none ↦ ok false
    | some bytes ↦ or_failed storage_failed (p.bundle.decode bytes) >>= λ bundle.
        is_ok (unwrap_with p secret bundle)
  ]
]

abbrev or_not_enrolled : {A : Type 0} → Option A → Attempted A
or_not_enrolled none = failed not_supported
or_not_enrolled (some a) = ok a

-- The draws that are used are those of the PIN's two salts and of the nonce of its wrap.
unfoldable pub backup_rewrap_pin :
    Platform → Draws → Text → ChatEngine → Attempted (BackupBundle × ChatEngine)
unfolding enrolled
backup_rewrap_pin p d new_pin e =
    if not (validate_pin (utf8 new_pin)) then failed invalid_pin else (do
      disk ← persistent e
      found ← enrolled p disk
      (bk, bundle) ← or_not_enrolled found
      w_pin ← wrap_bk p.ciphers d.pin_nonce (utf8 new_pin) d.salt_p bk
      auth_pin ← auth_hash p.ciphers (utf8 new_pin) d.salt_a
      let rewrapped = record bundle {
        w_pin = w_pin;
        salt_p = d.salt_p;
        auth_pin = auth_pin;
        salt_a = d.salt_a;
      }
      ok (rewrapped, save_bundle p e disk rewrapped))
