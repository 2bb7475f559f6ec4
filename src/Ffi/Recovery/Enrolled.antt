-- ===== src/Ffi/Recovery/Enrolled.antt =====
-- Changes of the PIN and refreshed bundles of an enrolled engine of ffi/src/lib.rs.
use rosette.Prelude.{
  ℕ, List, [], ◌∷◌, Bool, true, Option, some, ◌≡◌, refl, ap, ◌∙◌, inr, length, if◌then◌else◌,
}
use rosette.Prelude.Text.{Text, text_eq, put, get-put}
use rosette.Core.Outcome.{ok}
use rosette.Core.Backup.{BackupBundle, Draws, validate_pin, seal_blob, bk_len, nonce_len}
use rosette.Core.Backup.Opens.{Opens, AreDrawn, wrapped, hashed, aead_open-aead_seal}
use rosette.Core.Storage as Disk
use rosette.Core.Storage.{get, commit, write_all}
use rosette.Ffi.{ChatEngine, EngineError}
use rosette.Ffi.Recovery.{
  Platform, utf8, stripped, backup_payload, bk_key, bundle_key, session_key, enrolled, save_bundle,
  backup_bundle_current, backup_rewrap_pin, backup_verify_secret,
}
use rosette.Ffi.Recovery.Restored.{Unlocks, unwrap_with-Unlocks, payload_of, enrolled_engine}

-- The disk holds the key and a bundle that the PIN and the phrase open, and no unreadable snapshot.
pub record IsEnrolled (p : Platform) (phrase : Text) (bk : List ℕ) (pin : Text) (e : ChatEngine)
    : Type 0 where
  pub disk : Disk.Store
  pub has : e.disk ≡ some disk
  pub fits : length bk ≡ bk_len
  pub key : get bk_key disk ≡ some bk
  pub bundle : BackupBundle
  pub saved : get bundle_key disk ≡ some (p.bundle.encode bundle)
  pub payload : List ℕ
  pub opens : Opens p.ciphers (utf8 pin) (utf8 phrase) bk payload bundle
  pub valid : validate_pin (utf8 pin) ≡ true
  pub identity : Option (List ℕ)
  pub readable : stripped p (get session_key disk) ≡ ok identity

get-save :
    (k : Text) (value : List ℕ) (disk : Disk.Store)
    → get k (commit ((bundle_key, value) ∷ []) [] disk)
      ≡ (if text_eq bundle_key k then some value else get k disk)
unfolding get commit write_all
get-save k value disk = get-put bundle_key k value disk.kv

-- What an enrolment leaves.
pub enrolled_engine-IsEnrolled :
    (p : Platform) (phrase : Text) (bk : List ℕ) (pin : Text) (e : ChatEngine) (disk : Disk.Store)
    (identity : Option (List ℕ)) (b : BackupBundle) (payload : List ℕ)
    → length bk ≡ bk_len
    → validate_pin (utf8 pin) ≡ true
    → stripped p (get session_key disk) ≡ ok identity
    → Opens p.ciphers (utf8 pin) (utf8 phrase) bk payload b
    → IsEnrolled p phrase bk pin (enrolled_engine p e disk bk b)
unfolding get commit write_all text_eq
enrolled_engine-IsEnrolled p phrase bk pin e disk identity b payload fits valid readable opens =
    let bytes = p.bundle.encode b in
    let first = put bk_key bk disk.kv in
    record {
      disk = commit ((bk_key, bk) ∷ (bundle_key, bytes) ∷ []) [] disk;
      has = refl;
      fits = fits;
      key = get-put bundle_key bk_key bytes first ∙ get-put bk_key bk_key bk disk.kv;
      bundle = b;
      saved = get-put bundle_key bundle_key bytes first;
      payload = payload;
      opens = opens;
      valid = valid;
      identity = identity;
      readable =
          ap (stripped p)
            (get-put bundle_key session_key bytes first ∙ get-put bk_key session_key bk disk.kv)
          ∙ readable;
    }

module _ (p : Platform)
    (bundle_codec : (b : BackupBundle) → p.bundle.decode (p.bundle.encode b) ≡ inr b) where
  module _ (phrase : Text) (bk : List ℕ) where
    enrolled-ok :
        (pin : Text) (e : ChatEngine) (h : IsEnrolled p phrase bk pin e)
        → enrolled p h.disk ≡ ok (some (bk, h.bundle))
    unfolding enrolled
    enrolled-ok pin e h = rw (h.key, h.saved, h.fits, bundle_codec h.bundle, enrolled) refl

    -- A bundle that opens takes the place of the one that is saved.
    saved-IsEnrolled :
        (pin new_pin : Text) (e : ChatEngine) (h : IsEnrolled p phrase bk pin e) (b : BackupBundle)
        (payload : List ℕ)
        → Opens p.ciphers (utf8 new_pin) (utf8 phrase) bk payload b
        → validate_pin (utf8 new_pin) ≡ true
        → IsEnrolled p phrase bk new_pin (save_bundle p e h.disk b)
    unfolding text_eq
    saved-IsEnrolled pin new_pin e h b payload opens valid = record {
      disk = commit ((bundle_key, p.bundle.encode b) ∷ []) [] h.disk;
      has = refl;
      fits = h.fits;
      key = get-save bk_key (p.bundle.encode b) h.disk ∙ h.key;
      bundle = b;
      saved = get-save bundle_key (p.bundle.encode b) h.disk;
      payload = payload;
      opens = opens;
      valid = valid;
      identity = h.identity;
      readable = ap (stripped p) (get-save session_key (p.bundle.encode b) h.disk) ∙ h.readable;
    }

    pub refresh-IsEnrolled :
        (nonce : List ℕ) (pin : Text) (e : ChatEngine) (h : IsEnrolled p phrase bk pin e)
        → length nonce ≡ nonce_len
        → (b : BackupBundle) × (e' : ChatEngine) × (backup_bundle_current p nonce e
            ≡ ok (some b, e'))
          × IsEnrolled p phrase bk pin e'
    unfolding backup_bundle_current backup_payload
    refresh-IsEnrolled nonce pin e h fresh =
        let payload = p.payload.encode (payload_of e h.identity) in
        let b : BackupBundle = record h.bundle { blob = seal_blob p.ciphers nonce bk payload } in
        let opens : Opens p.ciphers (utf8 pin) (utf8 phrase) bk payload b = record {
          by_pin = h.opens.by_pin;
          by_phrase = h.opens.by_phrase;
          holds = aead_open-aead_seal p.ciphers nonce bk payload fresh;
          pin_proof = h.opens.pin_proof;
          phrase_proof = h.opens.phrase_proof;
        } in
        (
          b,
          save_bundle p e h.disk b,
          rw (h.has, enrolled-ok pin e h, h.readable) refl,
          saved-IsEnrolled pin pin e h b payload opens h.valid,
        )

    pub rewrap-IsEnrolled :
        (d : Draws) (new_pin pin : Text) (e : ChatEngine) (h : IsEnrolled p phrase bk pin e)
        → AreDrawn d
        → validate_pin (utf8 new_pin) ≡ true
        → (b : BackupBundle) × (e' : ChatEngine) × (backup_rewrap_pin p d new_pin e ≡ ok (b, e'))
          × IsEnrolled p phrase bk new_pin e'
    unfolding backup_rewrap_pin
    rewrap-IsEnrolled d new_pin pin e h drawn valid =
        let secret = utf8 new_pin in
        let (w_pin, made, by_pin) =
          wrapped {E = EngineError} p.ciphers d.pin_nonce secret d.salt_p bk drawn.pin_nonce
            drawn.salt_p h.fits in
        let (auth_pin, pin_proof, given) =
          hashed {E = EngineError} p.ciphers secret d.salt_a drawn.salt_a in
        let b : BackupBundle = record h.bundle {
          w_pin = w_pin;
          salt_p = d.salt_p;
          auth_pin = auth_pin;
          salt_a = d.salt_a;
        } in
        let opens : Opens p.ciphers secret (utf8 phrase) bk h.payload b = record {
          by_pin = by_pin;
          by_phrase = h.opens.by_phrase;
          holds = h.opens.holds;
          pin_proof = pin_proof;
          phrase_proof = h.opens.phrase_proof;
        } in
        (
          b,
          save_bundle p e h.disk b,
          rw (valid, h.has, enrolled-ok pin e h, made, given) refl,
          saved-IsEnrolled pin new_pin e h b h.payload opens valid,
        )

    pub verify-IsEnrolled :
        (pin : Text) (e : ChatEngine) (h : IsEnrolled p phrase bk pin e) (is_pin : Bool)
        (secret : Text)
        → Unlocks p pin phrase is_pin secret
        → backup_verify_secret p secret e ≡ ok true
    unfolding backup_verify_secret
    verify-IsEnrolled pin e h is_pin secret unlocks =
        rw
          (
            h.has,
            h.saved,
            bundle_codec h.bundle,
            unwrap_with-Unlocks p pin phrase bk h.payload h.bundle h.valid h.opens is_pin secret
                unlocks,
            backup_verify_secret,
          )
          refl
