-- ===== src/Directory/Api/Recovery.antt =====
-- Recovery bundles: `put_backup`, `restore_begin` and `restore_complete` of directory/src/api.rs.
use rosette.Directory.Api.Guards.{authenticate}
use rosette.Prelude.{
  ℕ, ◌-◌, List, [], ◌∷◌, Bool, true, false, not, ◌&&◌, ◌||◌, ◌==◌, Option, none, some, length,
  if◌then◌else◌,
}
use rosette.Prelude.Text.{Text, text_eq}
use rosette.Directory.Backup.{
  BackupUpload, RestoreVerdict, verify_backup_auth, match, wrong_pin, wrong_phrase, locked,
}
use rosette.Directory.Store.{Store}
use rosette.Directory.Store.Users.{find_user_by_phone_hash}
use rosette.Directory.Store.Sessions.{
  create_session, create_restore_token, restore_token_user, consume_restore_token,
}
use rosette.Directory.Store.Pairing.{store_backup, backup_salts}
use rosette.Directory.Api as Api
use rosette.Directory.Api.{
  Primitives, Moment, AppState, ApiError, Headers, Call, ◌>>=◌, ◌>>◌, pure, raise, ensure, ok_or,
  map_err, gets, stored, stored_or_internal, bad_request, not_base64, bad_salts, bad_auth_hashes,
  empty_ciphertext, bad_method, auth_not_base64, bad_auth, unauthorized, feature_disabled,
  not_found, internal, wrong_secret,
}
use rosette.Directory.Api.Accounts.{check_code}

-- The fields in base64, of `BackupPutRequest` and of `RestoreCompleteResponse`.
pub record BackupTexts : Type 0 where
  pub blob : Text
  pub w_pin : Text
  pub salt_p : Text
  pub w_phrase : Text
  pub salt_f : Text
  pub auth_pin : Text
  pub salt_a : Text
  pub auth_phrase : Text
  pub salt_pa : Text

abbrev b64 : Primitives → Text → Call (List ℕ)
b64 p s = ok_or (p.decode64 s) (bad_request not_base64)

unfoldable pub decode_bundle : Primitives → BackupTexts → Call BackupUpload
decode_bundle p req = do
  blob ← b64 p req.blob
  w_pin ← b64 p req.w_pin
  salt_p ← b64 p req.salt_p
  w_phrase ← b64 p req.w_phrase
  salt_f ← b64 p req.salt_f
  auth_pin_hash ← b64 p req.auth_pin
  salt_a ← b64 p req.salt_a
  auth_phrase_hash ← b64 p req.auth_phrase
  salt_pa ← b64 p req.salt_pa
  pure (record {
    blob = blob;
    w_pin = w_pin;
    salt_p = salt_p;
    w_phrase = w_phrase;
    salt_f = salt_f;
    auth_pin_hash = auth_pin_hash;
    salt_a = salt_a;
    auth_phrase_hash = auth_phrase_hash;
    salt_pa = salt_pa;
  })

abbrev is_empty : List ℕ → Bool
is_empty [] = true
is_empty (b ∷ bs) = false

abbrev pub has_salts : BackupUpload → Bool
has_salts u =
    length u.salt_p == 16
    && length u.salt_f == 16
    && length u.salt_a == 16
    && length u.salt_pa == 16

abbrev pub has_hashes : BackupUpload → Bool
has_hashes u = length u.auth_pin_hash == 32 && length u.auth_phrase_hash == 32

abbrev pub has_ciphertexts : BackupUpload → Bool
has_ciphertexts u = not (is_empty u.blob || is_empty u.w_pin || is_empty u.w_phrase)

unfoldable pub put_backup : Primitives → Moment → Headers → BackupTexts → Call (Unit {0})
unfolding authenticate decode_bundle store_backup
put_backup p m headers req = do
  user_id ← authenticate m headers
  upload ← decode_bundle p req
  ensure (has_salts upload) (bad_request bad_salts)
  ensure (has_hashes upload) (bad_request bad_auth_hashes)
  ensure (has_ciphertexts upload) (bad_request empty_ciphertext)
  stored_or_internal (store_backup m.now_unix user_id upload)

abbrev pub restore_token_ttl_secs : ℕ
restore_token_ttl_secs = 600

pub record RestoreBeginResponse : Type 0 where
  pub restore_token : Text
  pub session_token : Text
  pub salt_a : Text
  pub salt_pa : Text

-- What follows an approved code: the tokens, and the salts of the bundle.
unfoldable pub open_restore : Primitives → Moment → Text → Call RestoreBeginResponse
unfolding find_user_by_phone_hash backup_salts create_session create_restore_token
open_restore p m hashed = do
  found ← gets (λ app. find_user_by_phone_hash hashed app.store)
  user_id ← ok_or found not_found
  row ← gets (λ app. backup_salts user_id app.store)
  salts ← ok_or row not_found
  stored_or_internal (create_session m.now_unix m.session_token user_id)
  stored
      (λ s. (create_restore_token m.now_unix m.restore_token user_id restore_token_ttl_secs s, tt))
  pure (record {
    restore_token = m.restore_token;
    session_token = m.session_token;
    salt_a = p.encode64 salts.0;
    salt_pa = p.encode64 salts.1;
  })

unfoldable pub restore_begin : Primitives → Moment → Text → Text → Call RestoreBeginResponse
unfolding check_code open_restore
restore_begin p m phone code = do
  config ← gets (λ app. app.config)
  ensure config.accounts_enabled feature_disabled
  hashed ← check_code p m phone code
  open_restore p m hashed

abbrev pin : Text
pin = b'p' ∷ b'i' ∷ b'n' ∷ []

abbrev phrase : Text
phrase = b'p' ∷ b'h' ∷ b'r' ∷ b'a' ∷ b's' ∷ b'e' ∷ []

-- "pin" or "phrase"
unfoldable pub is_pin_method : Text → Option Bool
is_pin_method method =
    if text_eq method pin then some true else if text_eq method phrase then some false else none

unfoldable pub encode_bundle : Primitives → BackupUpload → BackupTexts
encode_bundle p row = record {
  blob = p.encode64 row.blob;
  w_pin = p.encode64 row.w_pin;
  salt_p = p.encode64 row.salt_p;
  w_phrase = p.encode64 row.w_phrase;
  salt_f = p.encode64 row.salt_f;
  auth_pin = p.encode64 row.auth_pin_hash;
  salt_a = p.encode64 row.salt_a;
  auth_phrase = p.encode64 row.auth_phrase_hash;
  salt_pa = p.encode64 row.salt_pa;
}

-- `(until - now).max(1)`
abbrev at_least_one : ℕ → ℕ
at_least_one n = if n == 0 then 1 else n

-- What each verdict is answered with.
unfoldable pub answer : Primitives → Moment → Text → RestoreVerdict → Call BackupTexts
unfolding consume_restore_token encode_bundle
answer p m token (match row) = do
  stored (λ s. (consume_restore_token token s, tt))
  pure (encode_bundle p row)
answer p m token (wrong_pin remaining) = raise (wrong_secret (some remaining))
answer p m token wrong_phrase = raise (wrong_secret none)
answer p m token (locked until) = raise (Api.locked (at_least_one (until - m.now_unix)))

-- `store.verify_backup_auth`
unfoldable pub prove : Moment → ℕ → List ℕ → Bool → Store → Store × Option RestoreVerdict
unfolding verify_backup_auth
prove m user_id auth is_pin s =
    let (backups, verdict) =
      verify_backup_auth user_id (record { now = m.now_unix; auth = auth; is_pin = is_pin })
        s.backups in
    (record s { backups = backups }, verdict)

-- What follows a live restore token.
unfoldable pub open_bundle : Primitives → Moment → Text → Text → Text → ℕ → Call BackupTexts
unfolding is_pin_method prove answer
open_bundle p m restore_token method auth user_id = do
  is_pin ← ok_or (is_pin_method method) (bad_request bad_method)
  proof ← ok_or (p.decode64 auth) (bad_request auth_not_base64)
  ensure (length proof == 32) (bad_request bad_auth)
  checked ← stored (prove m user_id proof is_pin)
  verdict ← ok_or checked not_found
  answer p m restore_token verdict

unfoldable pub restore_complete : Primitives → Moment → Text → Text → Text → Call BackupTexts
unfolding restore_token_user open_bundle
restore_complete p m restore_token method auth = do
  config ← gets (λ app. app.config)
  ensure config.accounts_enabled feature_disabled
  found ← stored (restore_token_user m.now_unix restore_token)
  user_id ← ok_or found unauthorized
  open_bundle p m restore_token method auth user_id
