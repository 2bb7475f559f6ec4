-- ===== src/Ffi/Recovery/Restored.antt =====
-- From an enrolment of ffi/src/lib.rs over the directory's backups (directory/src/store.rs) to a new
-- device.
use rosette.Prelude.{
  ℕ, ◌*◌, List, [], ◌∷◌, map, Bool, true, false, Option, none, some, ◌≡◌, refl, ap, inr,
  if◌then◌else◌, length,
}
use rosette.Prelude.Text.{Text}
use rosette.Prelude.Map.{Map}
use rosette.Core.Outcome.{ok, expect, ◌>>=◌}
use rosette.Core.Phrase.{normalize_phrase, generate_phrase}
use rosette.Core.Backup.{
  Ciphers, BackupError, BackupBundle, Draws, validate_pin, derive, auth_hash, build_bundle, bk_len,
}
use rosette.Core.Backup.Opens.{Opens, AreDrawn, build_bundle-Opens}
use rosette.Core.Storage as Disk
use rosette.Core.Storage.{get, commit}
use rosette.Directory.Backup.{BackupUpload, Backup, match, upsert_backup, verify_backup_auth}
use rosette.Directory.Backup.Equal.{proof_of, verify_backup_auth-uploaded}
use rosette.Ffi.{ChatEngine, EngineError}
use rosette.Ffi.Recovery.{
  Platform, BackupPayload, utf8, stripped, backup_payload, backup_enroll, with_disk,
  backup_auth_proof, unwrap_with, bk_key, bundle_key, session_key,
}
use rosette.Ffi.Restore.{
  absent, database, working, recover_payload, new_from_backup, restored_store, restored_disk,
}

-- The bundle in the fields of the upload.
abbrev pub upload : BackupBundle → BackupUpload
upload b = record {
  blob = b.blob;
  w_pin = b.w_pin;
  salt_p = b.salt_p;
  w_phrase = b.w_phrase;
  salt_f = b.salt_f;
  auth_pin_hash = b.auth_pin;
  salt_a = b.salt_a;
  auth_phrase_hash = b.auth_phrase;
  salt_pa = b.salt_pa;
}

-- A text that stands for the PIN, or for the phrase as the user types it.
abbrev pub Unlocks : Platform → Text → Text → Bool → Text → Type 0
Unlocks p pin phrase true secret = secret ≡ pin
Unlocks p pin phrase false secret =
    (validate_pin (utf8 secret) ≡ false) × (normalize_phrase p.lowercase secret ≡ phrase)

abbrev pub proof_salt : Bool → BackupBundle → List ℕ
proof_salt is_pin b = if is_pin then b.salt_a else b.salt_pa

abbrev proof_hash : Bool → BackupBundle → List ℕ
proof_hash is_pin b = if is_pin then b.auth_pin else b.auth_phrase

pub relabel :
    (key : Option (List ℕ)) (f : List ℕ → List ℕ) (hash : List ℕ)
    → (expect {E = BackupError} key >>= λ k. ok (f k)) ≡ ok hash
    → (expect {E = EngineError} key >>= λ k. ok (f k)) ≡ ok hash
relabel none f hash h = cc
relabel (some key) f hash h = let same : f key ≡ hash = cc in ap ok same

proof_hash-upload :
    (is_pin : Bool) (b : BackupBundle) → proof_hash is_pin b ≡ proof_of is_pin (upload b)
proof_hash-upload true b = refl
proof_hash-upload false b = refl

pub auth_hash-any :
    (c : Ciphers) (secret salt hash : List ℕ)
    → auth_hash {E = BackupError} c secret salt ≡ ok hash
    → auth_hash {E = EngineError} c secret salt ≡ ok hash
unfolding auth_hash derive
auth_hash-any c secret salt hash h =
    relabel (c.argon2id (64 * 1024) 3 4 bk_len secret salt) c.sha256 hash h

module _ (p : Platform) (pin phrase : Text) (bk bytes : List ℕ) (b : BackupBundle)
    (valid : validate_pin (utf8 pin) ≡ true)
    (opens : Opens p.ciphers (utf8 pin) (utf8 phrase) bk bytes b) where
  pub unwrap_with-Unlocks :
      (is_pin : Bool) (secret : Text)
      → Unlocks p pin phrase is_pin secret
      → unwrap_with p secret b ≡ ok bk
  unfolding unwrap_with
  unwrap_with-Unlocks true secret h = rw (h, valid) opens.by_pin
  unwrap_with-Unlocks false secret h = rw (h.0, h.1) opens.by_phrase

  backup_auth_proof-Unlocks :
      (is_pin : Bool) (secret : Text)
      → Unlocks p pin phrase is_pin secret
      → backup_auth_proof p secret (proof_salt is_pin b) ≡ ok (proof_hash is_pin b)
  unfolding backup_auth_proof
  backup_auth_proof-Unlocks true secret h =
      rw (h, valid) (auth_hash-any p.ciphers (utf8 pin) b.salt_a b.auth_pin opens.pin_proof)
  backup_auth_proof-Unlocks false secret h =
      rw (h.0, h.1)
        (auth_hash-any p.ciphers (utf8 phrase) b.salt_pa b.auth_phrase opens.phrase_proof)

  recover_payload-Unlocks :
      (is_pin : Bool) (secret : Text) (payload : BackupPayload)
      → Unlocks p pin phrase is_pin secret
      → p.payload.decode bytes ≡ inr payload
      → recover_payload p secret b ≡ ok (bk, payload)
  unfolding recover_payload
  recover_payload-Unlocks is_pin secret payload h decoded =
      rw (unwrap_with-Unlocks is_pin secret h, opens.holds, decoded) refl

-- What an engine backs up, and its state after an enrolment.
abbrev pub payload_of : ChatEngine → Option (List ℕ) → BackupPayload
payload_of e identity = record {
  identity = identity;
  username = some e.display_name;
  contacts = map (λ c. c.display_name) e.store.conversations;
}

abbrev pub enrolled_engine : Platform → ChatEngine → Disk.Store → List ℕ → BackupBundle → ChatEngine
enrolled_engine p e disk bk b =
    with_disk e (commit ((bk_key, bk) ∷ (bundle_key, p.bundle.encode b) ∷ []) [] disk)

abbrev pub restored_engine :
    Platform → ChatEngine → Option (List ℕ) → List ℕ → BackupBundle → ChatEngine
restored_engine p e identity bk b = record {
  display_name = e.display_name;
  store = restored_store (payload_of e identity).contacts;
  seq = 1;
  disk = some (restored_disk p b bk (payload_of e identity));
}

backup_enroll-ok :
    (p : Platform) (words : ℕ → ℕ) (bk : List ℕ) (d : Draws) (pin phrase : Text) (e : ChatEngine)
    (disk : Disk.Store) (identity : Option (List ℕ)) (b : BackupBundle)
    → validate_pin (utf8 pin) ≡ true
    → e.disk ≡ some disk
    → generate_phrase {E = EngineError} p.wordlist words ≡ ok phrase
    → stripped p (get session_key disk) ≡ ok identity
    → build_bundle p.ciphers d
        (utf8 pin)
        (utf8 phrase)
        bk
        (p.payload.encode (payload_of e identity))
      ≡ ok b
    → backup_enroll p words bk d pin e
      ≡ ok (record { phrase = phrase; bundle = b }, enrolled_engine p e disk bk b)
unfolding backup_enroll backup_payload
backup_enroll-ok p words bk d pin phrase e disk identity b valid has drawn strips built =
    rw (valid, has, drawn, strips, built) refl

restore-ok :
    (p : Platform) (name secret : Text) (e : ChatEngine) (identity : Option (List ℕ)) (bk : List ℕ)
    (b : BackupBundle)
    → recover_payload p secret b ≡ ok (bk, payload_of e identity)
    → new_from_backup p working name b secret absent ≡ (
      ok (restored_engine p e identity bk b),
      database (restored_disk p b bk (payload_of e identity)),
    )
unfolding new_from_backup
restore-ok p name secret e identity bk b h = rw h refl

-- An engine with a disk, a readable session snapshot (or none) and a valid PIN is enrolled. When its
-- bundle has been uploaded, whoever has the PIN, or a text that is normalized to the phrase, has the
-- proof that the directory answers with the bundle; and that text restores, where no file is at the
-- path and the disk answers without an error, an engine with the name of the first, its first contact,
-- the backup key and the identity of its session. The ciphers open what they sealed, and bincode decodes what it encoded.
pub enrollment_recovers :
    (p : Platform) (words : ℕ → ℕ) (bk : List ℕ) (d : Draws) (pin phrase : Text) (e : ChatEngine)
    (disk : Disk.Store) (identity : Option (List ℕ))
    (payload_codec : (payload : BackupPayload)
      → p.payload.decode (p.payload.encode payload) ≡ inr payload)
    → AreDrawn d
    → length bk ≡ bk_len
    → validate_pin (utf8 pin) ≡ true
    → e.disk ≡ some disk
    → generate_phrase {E = EngineError} p.wordlist words ≡ ok phrase
    → stripped p (get session_key disk) ≡ ok identity
    → (is_pin : Bool) (secret : Text) → Unlocks p pin phrase is_pin secret
    → (uploaded_at restored_at user_id : ℕ) (backups : Map Backup) (name : Text)
    → (b : BackupBundle) × (proof : List ℕ) × (backup_enroll p words bk d pin e
        ≡ ok (record { phrase = phrase; bundle = b }, enrolled_engine p e disk bk b))
      × (backup_auth_proof p secret (proof_salt is_pin b) ≡ ok proof)
      × ((verify_backup_auth user_id
            (record { now = restored_at; auth = proof; is_pin = is_pin })
            (upsert_backup uploaded_at user_id (upload b) backups)).1
          ≡ some (match (upload b)))
      × (new_from_backup p working name b secret absent ≡ (
        ok (restored_engine p e identity bk b),
        database (restored_disk p b bk (payload_of e identity)),
      ))
enrollment_recovers p words bk d pin phrase e disk identity payload_codec drawn fits valid has made
      strips is_pin secret unlocks uploaded_at restored_at user_id backups name =
    let payload = payload_of e identity in
    let (b, built, opens) =
      build_bundle-Opens p.ciphers d (utf8 pin) (utf8 phrase) bk (p.payload.encode payload) drawn
        valid fits in
    let proof = proof_hash is_pin b in
    (
      b,
      proof,
      backup_enroll-ok p words bk d pin phrase e disk identity b valid has made strips built,
      backup_auth_proof-Unlocks p pin phrase bk (p.payload.encode payload) b valid opens is_pin
          secret unlocks,
      verify_backup_auth-uploaded uploaded_at user_id
          (record { now = restored_at; auth = proof; is_pin = is_pin }) (upload b) backups
          (proof_hash-upload is_pin b),
      restore-ok p name secret e identity bk b (
          recover_payload-Unlocks p pin phrase bk (p.payload.encode payload) b valid opens is_pin
            secret payload unlocks (payload_codec payload)),
    )
