-- ===== src/Core/Backup/Opens.antt =====
-- What opens a bundle of core/src/backup.rs.
use rosette.Prelude.{
  ℕ, zero, suc, ◌*◌, ◌≤◌, List, [], ◌∷◌, ◌++◌, true, false, length, length-append, take, ltb, ◌≡◌,
  refl, ap, arith,
}
use rosette.Core.Outcome.{ok, ◌>>=◌}
use rosette.Core.Backup.{
  Ciphers, BackupError, BackupBundle, Draws, validate_pin, derive, drop, aead_seal, aead_open,
  auth_hash, open_blob, unwrap_bk, wrap_bk, build_bundle, nonce_len, salt_len, bk_len,
}

module _ {ℓ} {A : Type ℓ} where
  pub take-append : (n : ℕ) (xs ys : List A) → length xs ≡ n → take n (xs ++ ys) ≡ xs
  take-append zero [] ys h = refl
  take-append zero (x ∷ xs) ys h = absurd (omega arith)
  take-append (suc n) [] ys h = absurd (omega arith)
  take-append (suc n) (x ∷ xs) ys h = ap (x ∷◌) (take-append n xs ys (omega arith))

  pub drop-append : (n : ℕ) (xs ys : List A) → length xs ≡ n → drop n (xs ++ ys) ≡ ys
  drop-append zero [] ys h = refl
  drop-append zero (x ∷ xs) ys h = absurd (omega arith)
  drop-append (suc n) [] ys h = absurd (omega arith)
  drop-append (suc n) (x ∷ xs) ys h = drop-append n xs ys (omega arith)

module _ (c : Ciphers) where
  pub aead_open-aead_seal :
      (nonce key plain : List ℕ)
      → length nonce ≡ nonce_len
      → aead_open c key (aead_seal c nonce key plain) ≡ ok plain
  unfolding aead_open aead_seal
  aead_open-aead_seal nonce key plain h =
      let ct = c.encrypt key nonce plain in
      let long : ltb (length (nonce ++ ct)) nonce_len ≡ false =
        ground (arith, length-append nonce ct) in
      rw (
        long,
        take-append nonce_len nonce ct h,
        drop-append nonce_len nonce ct h,
        c.decrypt-encrypt key nonce plain,
      )

  -- A backup key that was wrapped under a secret is what the secret unwraps, with the same salt.
  pub unwrap_bk-wrap_bk :
      (nonce secret salt bk : List ℕ)
      → length nonce ≡ nonce_len
      → 8 ≤ length salt
      → length bk ≡ bk_len
      → (wrap_bk c nonce secret salt bk >>= unwrap_bk c secret salt) ≡ ok bk
  unfolding wrap_bk unwrap_bk derive
  unwrap_bk-wrap_bk nonce secret salt bk h k l =
      let (key, e) = c.derives (64 * 1024) 3 4 bk_len secret salt k in
      rw (e, e, aead_open-aead_seal nonce key bk h, l) refl

  -- What a bundle gives to those who know its secrets.
  pub record Opens (pin phrase bk payload : List ℕ) (b : BackupBundle) : Type 0 where
    pub by_pin : unwrap_bk c pin b.salt_p b.w_pin ≡ ok bk
    pub by_phrase : unwrap_bk c phrase b.salt_f b.w_phrase ≡ ok bk
    pub holds : open_blob c bk b.blob ≡ ok payload
    pub pin_proof : auth_hash {E = BackupError} c pin b.salt_a ≡ ok b.auth_pin
    pub phrase_proof : auth_hash {E = BackupError} c phrase b.salt_pa ≡ ok b.auth_phrase

-- The draws have the lengths of the arrays that are filled.
pub record AreDrawn (d : Draws) : Type 0 where
  pub salt_p : length d.salt_p ≡ salt_len
  pub salt_f : length d.salt_f ≡ salt_len
  pub salt_a : length d.salt_a ≡ salt_len
  pub salt_pa : length d.salt_pa ≡ salt_len
  pub blob_nonce : length d.blob_nonce ≡ nonce_len
  pub pin_nonce : length d.pin_nonce ≡ nonce_len
  pub phrase_nonce : length d.phrase_nonce ≡ nonce_len

pub wrapped :
    {E : Type 0} (c : Ciphers) (nonce secret salt bk : List ℕ)
    → length nonce ≡ nonce_len
    → length salt ≡ salt_len
    → length bk ≡ bk_len
    → (w : List ℕ) × (wrap_bk {E = E} c nonce secret salt bk ≡ ok w)
      × (unwrap_bk c secret salt w ≡ ok bk)
unfolding wrap_bk unwrap_bk derive
wrapped c nonce secret salt bk h k l =
    let (key, e) = c.derives (64 * 1024) 3 4 bk_len secret salt (omega arith) in
    (aead_seal c nonce key bk, rw e refl, rw (e, aead_open-aead_seal c nonce key bk h, l) refl)

pub hashed :
    {E : Type 0} (c : Ciphers) (secret salt : List ℕ)
    → length salt ≡ salt_len
    → (hash : List ℕ) × (auth_hash {E = BackupError} c secret salt ≡ ok hash)
      × (auth_hash {E = E} c secret salt ≡ ok hash)
unfolding auth_hash derive
hashed c secret salt h =
    let (key, e) = c.derives (64 * 1024) 3 4 bk_len secret salt (omega arith) in
    (c.sha256 key, rw e refl, rw e refl)

-- With a valid PIN and a backup key of 32 bytes a bundle is built. The PIN and the phrase each unwrap
-- the key from it, the key opens the payload, and the two hashes are those that the PIN and the phrase
-- prove with the salts of the bundle.
pub build_bundle-Opens :
    (c : Ciphers) (d : Draws) (pin phrase bk payload : List ℕ)
    → AreDrawn d
    → validate_pin pin ≡ true
    → length bk ≡ bk_len
    → (b : BackupBundle) × (build_bundle c d pin phrase bk payload ≡ ok b)
      × Opens c pin phrase bk payload b
unfolding build_bundle
build_bundle-Opens c d pin phrase bk payload drawn valid fits =
    let (w_pin, made_pin, by_pin) =
      wrapped {E = BackupError} c d.pin_nonce pin d.salt_p bk drawn.pin_nonce drawn.salt_p fits in
    let (w_phrase, made_phrase, by_phrase) =
      wrapped {E = BackupError} c d.phrase_nonce phrase d.salt_f bk drawn.phrase_nonce drawn.salt_f
        fits in
    let (pin_hash, pin_proof, _) = hashed {E = BackupError} c pin d.salt_a drawn.salt_a in
    let (phrase_hash, phrase_proof, _) =
      hashed {E = BackupError} c phrase d.salt_pa drawn.salt_pa in
    (
      _,
      rw (valid, made_pin, made_phrase, pin_proof, phrase_proof) refl,
      record {
        by_pin = by_pin;
        by_phrase = by_phrase;
        holds = aead_open-aead_seal c d.blob_nonce bk payload drawn.blob_nonce;
        pin_proof = pin_proof;
        phrase_proof = phrase_proof;
      },
    )
