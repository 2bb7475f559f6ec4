-- ===== src/Tests/PhoneRuns.antt =====
-- Account recovery of a small phone, at concrete inputs.
use rosette.Prelude.{
  ℕ, ◌+◌, ◌%◌, List, [], ◌∷◌, ◌++◌, map, none, some, true, false, ◌≡◌, refl, ◌⊎◌, inl, replicate,
  leb, ◌&&◌, if◌then◌else◌,
}
use rosette.Prelude.Text.{is_whitespace, Text, get}
use rosette.Directory.Backup.{match, upsert_backup, verify_backup_auth}
use rosette.Core.Outcome.{ok}
use rosette.Core.Phrase.{join, normalize_phrase, generate_phrase, draw_words, word_at}
use rosette.Core.Phrase.Typed.{spell, IsSolid, AreTyped, normalize_phrase-typed}
use rosette.Core.Backup.{
  Ciphers, Draws, BackupBundle, validate_pin, all_ascii_digits, aead_open, derive, unwrap_bk,
  auth_hash,
}
use rosette.Core.Backup.Opens.{AreDrawn, Opens}
use rosette.Core.Storage as Disk
use rosette.Core.Storage.{new_store}
use rosette.Ffi.{ChatEngine, EngineError, default}
use rosette.Ffi.Recovery.{
  Platform, BackupPayload, utf8, utf8_char, stripped, backup_enroll, backup_auth_proof,
  backup_verify_secret, session_key,
}
use rosette.Ffi.Restore.{
  absent, database, DiskAnswers, open_fails, unusable, working, new_from_backup, restored_disk,
  recover_payload,
}
use rosette.Ffi.Recovery.Restored.{
  Unlocks, upload, proof_salt, enrollment_recovers, enrolled_engine, restored_engine, payload_of,
}
use rosette.Ffi.Recovery.Enrolled.{IsEnrolled, enrolled_engine-IsEnrolled}
use rosette.Ffi.Recovery.Changes.{
  new_pin, refresh, apply_all, changes_keep_recovery, restore_leaves_file, IsLeft,
}
use rosette.Tests.Packed.{packed_bundle, packed_bundle_codec, packed_payload, packed_payload_codec}

abbrev lower : ℕ → ℕ
lower c = if leb 65 c && leb c 90 then c + 32 else c

-- A key is the secret with the salt, and nothing is hidden.
abbrev open_ciphers : Ciphers
open_ciphers = record {
  argon2id = λ m t p len secret salt. some (secret ++ salt);
  encrypt = λ key nonce plain. plain;
  decrypt = λ key nonce sealed. some sealed;
  sha256 = λ bytes. bytes;
  derives = λ m t p len secret salt h. (_, refl);
  decrypt-encrypt = λ key nonce plain. refl;
}

abbrev ab : Text
ab = b'a' ∷ b'b' ∷ []

abbrev cd : Text
cd = b'c' ∷ b'd' ∷ []

abbrev phone : Platform
phone = record {
  ciphers = open_ciphers;
  lowercase = map lower;
  wordlist = ab ∷ cd ∷ [];
  bundle = packed_bundle;
  payload = packed_payload;
  snapshot = record { encode = λ s. s.signer; decode = λ bytes. inl "none" };
  ui = record { encode = λ s. []; decode = λ bytes. inl "none" };
}

abbrev draws : Draws
draws = record {
  salt_p = replicate 16 1;
  salt_f = replicate 16 2;
  salt_a = replicate 16 3;
  salt_pa = replicate 16 4;
  blob_nonce = replicate 24 5;
  pin_nonce = replicate 24 6;
  phrase_nonce = replicate 24 7;
}

draws-AreDrawn : AreDrawn draws
draws-AreDrawn = record {
  salt_p = refl;
  salt_f = refl;
  salt_a = refl;
  salt_pa = refl;
  blob_nonce = refl;
  pin_nonce = refl;
  phrase_nonce = refl;
}

abbrev engine : ChatEngine
engine = record { display_name = cd; store = default; seq = 1; disk = some new_store }

abbrev bk : List ℕ
bk = replicate 32 9

abbrev pin : Text
pin = b'1' ∷ b'2' ∷ b'3' ∷ b'4' ∷ []

abbrev other_pin : Text
other_pin = b'9' ∷ b'8' ∷ b'7' ∷ b'6' ∷ b'5' ∷ []

abbrev words : List Text
words = ab ∷ cd ∷ ab ∷ cd ∷ ab ∷ []

abbrev draw : ℕ → ℕ
draw n = n % 2

valid_pin : validate_pin (utf8 pin) ≡ true
unfolding validate_pin all_ascii_digits utf8 utf8_char
valid_pin = refl

valid_other : validate_pin (utf8 other_pin) ≡ true
unfolding validate_pin all_ascii_digits utf8 utf8_char
valid_other = refl

drawn_phrase : generate_phrase {E = EngineError} phone.wordlist draw ≡ ok (join words)
unfolding generate_phrase draw_words word_at
drawn_phrase = refl

-- ` AB cd` and so on: capitals, two blanks, and one at the end.
abbrev typed : List (Text × Text)
typed =
    (32 ∷ [], b'A' ∷ b'B' ∷ [])
    ∷ (32 ∷ [], cd)
    ∷ (32 ∷ 9 ∷ [], ab)
    ∷ (10 ∷ [], b'c' ∷ b'D' ∷ [])
    ∷ (32 ∷ [], ab)
    ∷ []

solid : (a b : ℕ) → is_whitespace a ≡ false → is_whitespace b ≡ false → IsSolid (a ∷ b ∷ [])
solid a b h k = ((λ e. cc), (h, (k, tt)))

typed-AreTyped : AreTyped typed
unfolding is_whitespace
typed-AreTyped = (
  (refl, tt),
  solid b'A' b'B' refl refl,
  (
    ((λ e. cc), (refl, tt), solid b'c' b'd' refl refl),
    (
      ((λ e. cc), (refl, (refl, tt)), solid b'a' b'b' refl refl),
      (
        ((λ e. cc), (refl, tt), solid b'c' b'D' refl refl),
        (((λ e. cc), (refl, tt), solid b'a' b'b' refl refl), tt),
      ),
    ),
  ),
)

normalize_phrase-typed_example : normalize_phrase (map lower) (spell typed (32 ∷ [])) ≡ join words
unfolding is_whitespace
normalize_phrase-typed_example =
    normalize_phrase-typed (map lower) typed (32 ∷ []) words typed-AreTyped (refl, tt) refl

-- The phrase as it is typed is no PIN, and is normalized to the phrase.
typed_phrase : Unlocks phone pin (join words) false (spell typed (32 ∷ []))
unfolding validate_pin all_ascii_digits utf8 utf8_char spell
typed_phrase = (refl, normalize_phrase-typed_example)

abbrev bundle_of : BackupBundle
bundle_of = record {
  blob = replicate 24 5 ++ packed_payload.encode (payload_of engine none);
  w_pin = replicate 24 6 ++ bk;
  salt_p = replicate 16 1;
  w_phrase = replicate 24 7 ++ bk;
  salt_f = replicate 16 2;
  auth_pin = utf8 pin ++ replicate 16 3;
  salt_a = replicate 16 3;
  auth_phrase = utf8 (join words) ++ replicate 16 4;
  salt_pa = replicate 16 4;
}

readable : stripped phone (Disk.get session_key new_store) ≡ ok none
unfolding Disk.get get
readable = refl

-- The typed phrase recovers.
enrollment_recovers_example :
    (b : BackupBundle) × (proof : List ℕ) × (backup_enroll phone draw bk draws pin engine
      ≡ ok
          (record { phrase = join words; bundle = b }, enrolled_engine phone engine new_store bk b))
    × (backup_auth_proof phone (spell typed (32 ∷ [])) (proof_salt false b) ≡ ok proof)
    × ((verify_backup_auth 3
          (record { now = 100; auth = proof; is_pin = false })
          (upsert_backup 50 3 (upload b) [])).1
        ≡ some (match (upload b)))
    × (new_from_backup phone working ab b (spell typed (32 ∷ [])) absent ≡ (
      ok (restored_engine phone engine none bk b),
      database (restored_disk phone b bk (payload_of engine none)),
    ))
enrollment_recovers_example =
    enrollment_recovers phone draw bk draws pin (join words) engine new_store none
      packed_payload_codec draws-AreDrawn refl valid_pin refl drawn_phrase readable false
      (spell typed (32 ∷ [])) typed_phrase 50 100 3 [] ab

bundle_of-Opens :
    Opens open_ciphers
      (utf8 pin)
      (utf8 (join words))
      bk
      (packed_payload.encode (payload_of engine none))
      bundle_of
unfolding unwrap_bk derive aead_open auth_hash utf8 utf8_char join
bundle_of-Opens = record {
  by_pin = refl;
  by_phrase = refl;
  holds = refl;
  pin_proof = refl;
  phrase_proof = refl;
}

changes_keep_recovery_example :
    (e : ChatEngine) × (apply_all phone
        (new_pin draws other_pin ∷ refresh (replicate 24 8) ∷ [])
        (enrolled_engine phone engine new_store bk bundle_of)
      ≡ ok e)
    × IsEnrolled phone (join words) bk other_pin e
    × (backup_verify_secret phone other_pin e ≡ ok true)
changes_keep_recovery_example =
    changes_keep_recovery phone packed_bundle_codec (join words) bk
      (new_pin draws other_pin ∷ refresh (replicate 24 8) ∷ []) pin
      (enrolled_engine phone engine new_store bk bundle_of)
      (enrolled_engine-IsEnrolled phone (join words) bk pin engine new_store none bundle_of
        (packed_payload.encode (payload_of engine none)) refl valid_pin readable bundle_of-Opens)
      ((draws-AreDrawn, valid_other), (refl, tt)) true other_pin refl

-- The opening fails and leaves a file that cannot be used.
abbrev full_disk : DiskAnswers
full_disk = record { opening = open_fails unusable; commits = true; removes = true }

restore_leaves_file_example :
    ((new_from_backup phone full_disk ab bundle_of pin absent).1 ≡ absent)
    ⊎ ((key : List ℕ) × (payload : BackupPayload) × (recover_payload phone pin bundle_of
          ≡ ok (key, payload))
        × (absent ≡ absent)
        × IsLeft phone full_disk bundle_of key payload
            (new_from_backup phone full_disk ab bundle_of pin absent))
restore_leaves_file_example = restore_leaves_file phone full_disk ab bundle_of pin absent
