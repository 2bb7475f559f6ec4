-- ===== src/Core/Backup.antt =====
-- The recovery bundle of core/src/backup.rs. A secret and a key are their bytes; Argon2id,
-- XChaCha20-Poly1305 and SHA-256 are parameters, and what the generator draws is an input.
pub mod Opens
use rosette.Prelude.{
  ℕ, zero, suc, ◌≤◌, ◌*◌, ◌==◌, List, [], ◌∷◌, ◌++◌, Bool, true, false, ◌&&◌, if◌then◌else◌, Option,
  none, some, length, leb, ltb, take, ◌≡◌, not,
}
use rosette.Core.Outcome.{Outcome, ok, failed, panicked, expect, ◌>>=◌}

-- Argon2id takes the memory, the passes, the lanes and the length of the output, then the secret and
-- the salt; `none` is its error, which a salt of less than 8 bytes is. A cipher takes a key and a
-- nonce; it opens what it sealed under the same two.
pub record Ciphers : Type 0 where
  pub argon2id : ℕ → ℕ → ℕ → ℕ → List ℕ → List ℕ → Option (List ℕ)
  pub encrypt : List ℕ → List ℕ → List ℕ → List ℕ
  pub decrypt : List ℕ → List ℕ → List ℕ → Option (List ℕ)
  pub sha256 : List ℕ → List ℕ
  pub derives :
      (m t p len : ℕ) (secret salt : List ℕ)
      → 8 ≤ length salt
      → (out : List ℕ) × (argon2id m t p len secret salt ≡ some out)
  pub decrypt-encrypt :
      (key nonce plain : List ℕ) → decrypt key nonce (encrypt key nonce plain) ≡ some plain

abbrev pub bk_len : ℕ
bk_len = 32

abbrev pub salt_len : ℕ
salt_len = 16

abbrev pub nonce_len : ℕ
nonce_len = 24

pub data BackupError : Type 0 where
  invalid_pin wrong_secret encode : BackupError

pub record BackupBundle : Type 0 where
  pub blob : List ℕ
  pub w_pin : List ℕ
  pub salt_p : List ℕ
  pub w_phrase : List ℕ
  pub salt_f : List ℕ
  pub auth_pin : List ℕ
  pub salt_a : List ℕ
  pub auth_phrase : List ℕ
  pub salt_pa : List ℕ

abbrev pub Tried : Type 0 → Type 0
Tried = Outcome BackupError

unfoldable pub all_ascii_digits : List ℕ → Bool
all_ascii_digits [] = true
all_ascii_digits (b ∷ bytes) = leb 48 b && leb b 57 && all_ascii_digits bytes

unfoldable pub validate_pin : List ℕ → Bool
unfolding all_ascii_digits
validate_pin pin = leb 4 (length pin) && leb (length pin) 6 && all_ascii_digits pin

unfoldable pub derive : {E : Type 0} → Ciphers → List ℕ → List ℕ → Outcome E (List ℕ)
derive c secret salt = expect (c.argon2id (64 * 1024) 3 4 bk_len secret salt)

unfoldable pub aead_seal : Ciphers → List ℕ → List ℕ → List ℕ → List ℕ
aead_seal c nonce key plain = nonce ++ c.encrypt key nonce plain

-- `split_at`
abbrev pub drop {ℓ} : {A : Type ℓ} → ℕ → List A → List A
drop zero xs = xs
drop (suc n) [] = []
drop (suc n) (x ∷ xs) = drop n xs

abbrev pub or_wrong_secret : {A : Type 0} → Option A → Tried A
or_wrong_secret none = failed wrong_secret
or_wrong_secret (some a) = ok a

unfoldable pub aead_open : Ciphers → List ℕ → List ℕ → Tried (List ℕ)
aead_open c key bytes =
    if ltb (length bytes) nonce_len
    then failed wrong_secret
    else or_wrong_secret (c.decrypt key (take nonce_len bytes) (drop nonce_len bytes))

unfoldable pub auth_hash : {E : Type 0} → Ciphers → List ℕ → List ℕ → Outcome E (List ℕ)
auth_hash c secret salt = do key ← derive c secret salt; ok (c.sha256 key)

abbrev pub seal_blob : Ciphers → List ℕ → List ℕ → List ℕ → List ℕ
seal_blob c nonce bk payload = aead_seal c nonce bk payload

abbrev pub open_blob : Ciphers → List ℕ → List ℕ → Tried (List ℕ)
open_blob c bk blob = aead_open c bk blob

unfoldable pub unwrap_bk : Ciphers → List ℕ → List ℕ → List ℕ → Tried (List ℕ)
unwrap_bk c secret salt wrapped = do
  key ← derive c secret salt
  bk ← aead_open c key wrapped
  if length bk == bk_len then ok bk else failed wrong_secret

unfoldable pub wrap_bk :
    {E : Type 0} → Ciphers → List ℕ → List ℕ → List ℕ → List ℕ → Outcome E (List ℕ)
wrap_bk c nonce secret salt bk = do key ← derive c secret salt; ok (aead_seal c nonce key bk)

-- The four salts, and the nonces of the three ciphertexts.
pub record Draws : Type 0 where
  pub salt_p : List ℕ
  pub salt_f : List ℕ
  pub salt_a : List ℕ
  pub salt_pa : List ℕ
  pub blob_nonce : List ℕ
  pub pin_nonce : List ℕ
  pub phrase_nonce : List ℕ

unfoldable pub build_bundle :
    Ciphers → Draws → List ℕ → List ℕ → List ℕ → List ℕ → Tried BackupBundle
build_bundle c d pin phrase bk payload = if not (validate_pin pin) then failed invalid_pin else (do
  w_pin ← wrap_bk c d.pin_nonce pin d.salt_p bk
  w_phrase ← wrap_bk c d.phrase_nonce phrase d.salt_f bk
  auth_pin ← auth_hash c pin d.salt_a
  auth_phrase ← auth_hash c phrase d.salt_pa
  ok (record {
    blob = seal_blob c d.blob_nonce bk payload;
    w_pin = w_pin;
    salt_p = d.salt_p;
    w_phrase = w_phrase;
    salt_f = d.salt_f;
    auth_pin = auth_pin;
    salt_a = d.salt_a;
    auth_phrase = auth_phrase;
    salt_pa = d.salt_pa;
  }))
