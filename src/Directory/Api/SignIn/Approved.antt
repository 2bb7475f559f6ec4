-- ===== src/Directory/Api/SignIn/Approved.antt =====
-- What a successful `verify_handler` of directory/src/api.rs has checked and done.
use rosette.Directory.Api.Guards.{throttle_ip}
use rosette.Prelude.{ℕ, List, Bool, true, false, ◌≡◌, refl, arith, inl, inr, ◌⊎◌, ap, ◌∙◌, subst}
use rosette.Prelude.Text.{Text}
use rosette.Directory.RateLimit.{check_and_bump_phone, verify_attempts_per_minute}
use rosette.Directory.Verify as Verify
use rosette.Directory.Verify.{
  VerifyError, VendorError, OtpVendor, Argon2, normalize_e164, phone_hash, verify_phone,
}
use rosette.Directory.Store.Users.{is_phone_in_cooldown}
use rosette.Directory.Store.Invariant.{IsWellFormed}
use rosette.Directory.Api.{
  AppState, Primitives, Moment, Headers, gets, ensure, map_err, throttle, feature_disabled,
}
use rosette.Directory.Api.Accounts as Accounts
use rosette.Directory.Api.Accounts.{check_code, open_session, to_invalid_phone, of_verify}
use rosette.Directory.Api.Outcome.{bind-ok, gets-ok, ensure-ok, map_err-ok, throttle-ok}
use rosette.Directory.Api.SignIn.{IsSignedIn, open_session-ok}

-- `verify_phone` returns a hash only for a code that the vendor has approved.
verify_phone-ok :
    (argon2id : Argon2) (otp : OtpVendor) (number code : Text) (pepper : List ℕ) (hashed : Text)
    → verify_phone argon2id otp number code pepper ≡ inr hashed
    → (e164 : Text) × (normalize_e164 number ≡ inr e164)
      × (otp.verify e164 code ≡ inr true)
      × (phone_hash argon2id e164 pepper ≡ inr hashed)
unfolding verify_phone
verify_phone-ok argon2id otp number code pepper hashed h = by_number (normalize_e164 number) refl
  where
    approved :
        (e164 : Text) (r : VendorError ⊎ Bool)
        → Verify.after_check r (phone_hash argon2id e164 pepper) ≡ inr hashed
        → (r ≡ inr true) × (phone_hash argon2id e164 pepper ≡ inr hashed)
    approved e164 (inr true) g = (refl, g)
    approved e164 (inr false) g = cc
    approved e164 (inl Verify.unavailable) g = cc
    approved e164 (inl Verify.other) g = cc

    by_number :
        (r : VerifyError ⊎ Text)
        → normalize_e164 number ≡ r
        → (e164 : Text) × (normalize_e164 number ≡ inr e164)
          × (otp.verify e164 code ≡ inr true)
          × (phone_hash argon2id e164 pepper ≡ inr hashed)
    by_number (inl e) n = absurd (ground (arith, n))
    by_number (inr e164) n =
        let (yes_it_is, hash_is) =
          approved e164 (otp.verify e164 code) (rw (n, verify_phone) at h) in
        (e164, n, yes_it_is, hash_is)

check_code-ok :
    (p : Primitives) (m : Moment) (number code : Text) (app app' : AppState) (hashed : Text)
    → check_code p m number code app ≡ (app', inr hashed)
    → (verify_phone p.argon2id m.vendor number code app.pepper ≡ inr hashed)
      × (app.store ≡ app'.store)
unfolding check_code
check_code-ok p m number code app app' hashed h =
    let (is, same) =
      map_err-ok (verify_phone p.argon2id m.vendor number code app.pepper) of_verify _ app' hashed
        h in
    (is, ap (λ (x : AppState). x.store) same)

-- `/verify` opens a session only for a number whose code the vendor has approved and that is not in its
-- cooldown; and then the token that it returns is that of a live, verified account of this very number.
pub verify_handler_signs_in :
    (p : Primitives) (m : Moment) (headers : Headers) (peer : ℕ) (number code : Text)
    (app app' : AppState) (r : ℕ × Text)
    → IsWellFormed app.store
    → Accounts.verify_handler p m headers peer number code app ≡ (app', inr r)
    → (e164 : Text) × (hashed : Text) × (normalize_e164 number ≡ inr e164)
      × (m.vendor.verify e164 code ≡ inr true)
      × (phone_hash p.argon2id e164 app.pepper ≡ inr hashed)
      × (is_phone_in_cooldown m.now_unix hashed app.store ≡ false)
      × IsSignedIn m.now_unix hashed r.1 r.0 app'.store
unfolding Accounts.verify_handler throttle_ip
verify_handler_signs_in p m headers peer number code app app' r w h =
    let (config, app1, a, h1) = bind-ok (gets (λ x. x.config)) _ app app' r h in
    let (is1, same1) = gets-ok (λ x. x.config) app app1 config a in
    let (x2, app2, b, h2) =
      bind-ok (ensure config.accounts_enabled feature_disabled) _ app1 app' r h1 in
    let (is2, same2) = ensure-ok config.accounts_enabled feature_disabled app1 app2 x2 b in
    let (x3, app3, c, h3) = bind-ok (throttle_ip p m headers peer) _ app2 app' r h2 in
    let same3 = throttle-ok _ app2 app3 x3 c in
    let (e164, app4, d, h4) =
      bind-ok (map_err (normalize_e164 number) to_invalid_phone) _ app3 app' r h3 in
    let (is4, same4) = map_err-ok (normalize_e164 number) to_invalid_phone app3 app4 e164 d in
    let guard = check_and_bump_phone m.instant (p.phone_rate_key e164) verify_attempts_per_minute in
    let (x5, app5, e, h5) = bind-ok (throttle guard) _ app4 app' r h4 in
    let same5 = throttle-ok guard app4 app5 x5 e in
    let (hashed, app6, f, h6) = bind-ok (check_code p m number code) _ app5 app' r h5 in
    let (is6, same6) = check_code-ok p m number code app5 app6 hashed f in
    let (n, valid, approved, hash_is) =
      verify_phone-ok p.argon2id m.vendor number code app5.pepper hashed is6 in
    let store_of = λ (x : AppState). x.store in
    let pepper_of = λ (x : AppState). x.pepper in
    let stores =
      ap store_of (same1 ∙ same2)
      ∙ ap store_of same3
      ∙ ap store_of same4
      ∙ ap store_of same5
      ∙ same6 in
    let peppers =
      ap pepper_of (same1 ∙ same2) ∙ ap pepper_of same3 ∙ ap pepper_of same4 ∙ ap pepper_of same5 in
    let (cool, signed) =
      open_session-ok p m headers hashed app6 app' r (subst IsWellFormed stores w) h6 in
    (
      n,
      hashed,
      valid,
      approved,
      ap (phone_hash p.argon2id n) peppers ∙ hash_is,
      ap (is_phone_in_cooldown m.now_unix hashed) stores ∙ cool,
      signed,
    )
