-- ===== src/Directory/Api/Accounts.antt =====
-- Accounts: `signup`, `verify_handler` and `delete_account` of directory/src/api.rs.
use rosette.Directory.Api.Guards.{throttle_ip, authenticate}
use rosette.Prelude.{ℕ, List, ◌∷◌, not, ◌⊎◌, inl, inr}
use rosette.Prelude.Text.{Text}
use rosette.Directory.RateLimit.{check_and_bump_phone, verify_attempts_per_minute}
use rosette.Directory.Verify as Verify
use rosette.Directory.Verify.{
  VerifyError, VendorError, OtpVendor, normalize_e164, phone_hash, verify_phone,
  invalid_phone_format, hash, vendor, unavailable, other,
}
use rosette.Directory.Store.Users.{is_phone_in_cooldown, find_or_create_pending_user, mark_verified}
use rosette.Directory.Store.Sessions.{create_session}
use rosette.Directory.Store.Erasure.{erase_user}
use rosette.Directory.Api.{
  Primitives, Moment, ApiError, Headers, Call, ◌>>=◌, ◌>>◌, pure, ensure, map_err, gets, stored,
  stored_or_internal, throttle, bad_request, invalid_phone, in_cooldown, code_rejected,
  feature_disabled, vendor_unavailable, internal,
}

-- The maps of errors.
abbrev pub to_invalid_phone : VerifyError → ApiError
to_invalid_phone e = bad_request invalid_phone

abbrev pub to_internal : VerifyError → ApiError
to_internal e = internal

abbrev pub of_vendor : VendorError → ApiError
of_vendor unavailable = vendor_unavailable
of_vendor other = internal

abbrev pub of_verify : VerifyError → ApiError
of_verify Verify.code_rejected = bad_request code_rejected
of_verify invalid_phone_format = bad_request invalid_phone
of_verify Verify.vendor_unavailable = vendor_unavailable
of_verify hash = internal
of_verify vendor = internal

-- The number reaches the vendor if it is valid.
abbrev asked : VerifyError ⊎ Text → List Text → List Text
asked (inl e) checks = checks
asked (inr e164) checks = e164 ∷ checks

-- `verify::verify_phone(…).map_err(…)?`
unfoldable pub check_code : Primitives → Moment → Text → Text → Call Text
unfolding verify_phone normalize_e164
check_code p m phone code = λ app.
    map_err (verify_phone p.argon2id m.vendor phone code app.pepper) of_verify
      (record app { checks = asked (normalize_e164 phone) app.checks })

module _ (p : Primitives) (m : Moment) (headers : Headers) where
  unfoldable pub signup : ℕ → Text → Call (Unit {0})
  unfolding throttle_ip normalize_e164 phone_hash is_phone_in_cooldown find_or_create_pending_user
  signup peer phone = do
    config ← gets (λ app. app.config)
    ensure config.accounts_enabled feature_disabled
    throttle_ip p m headers peer
    e164 ← map_err (normalize_e164 phone) to_invalid_phone
    pepper ← gets (λ app. app.pepper)
    hashed ← map_err (phone_hash p.argon2id e164 pepper) to_internal
    cooling ← gets (λ app. is_phone_in_cooldown m.now_unix hashed app.store)
    ensure (not cooling) (bad_request in_cooldown)
    map_err (m.vendor.send_code e164) of_vendor
    user_id ← stored (find_or_create_pending_user m.now_unix hashed)
    pure tt

  -- What follows an approved code: the account and its session.
  unfoldable pub open_session : Text → Call (ℕ × Text)
  unfolding is_phone_in_cooldown find_or_create_pending_user mark_verified create_session
  open_session hashed = do
    cooling ← gets (λ app. is_phone_in_cooldown m.now_unix hashed app.store)
    ensure (not cooling) (bad_request in_cooldown)
    user_id ← stored (find_or_create_pending_user m.now_unix hashed)
    stored (λ s. (mark_verified user_id s, tt))
    stored_or_internal (create_session m.now_unix m.session_token user_id)
    pure (user_id, m.session_token)

  unfoldable pub verify_handler : ℕ → Text → Text → Call (ℕ × Text)
  unfolding throttle_ip normalize_e164 check_and_bump_phone check_code open_session
  verify_handler peer phone code = do
    config ← gets (λ app. app.config)
    ensure config.accounts_enabled feature_disabled
    throttle_ip p m headers peer
    e164 ← map_err (normalize_e164 phone) to_invalid_phone
    throttle (check_and_bump_phone m.instant (p.phone_rate_key e164) verify_attempts_per_minute)
    hashed ← check_code p m phone code
    open_session hashed

  unfoldable pub delete_account : Call (Unit {0})
  unfolding authenticate erase_user
  delete_account = do
    user_id ← authenticate m headers
    stored (λ s. (erase_user m.now_unix user_id s, tt))
