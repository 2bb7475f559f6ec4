-- ===== src/Directory/Api.antt =====
-- The state, the errors and the guards of directory/src/api.rs. A handler is a computation over the
-- state that ends with an error or a value; the children have the handlers. The libraries are
-- parameters (`Primitives`), and so is what a request meets (`Moment`): the clocks, which are read
-- once, the vendor as it answers then, and the values that are drawn.
pub mod Guards
pub mod Accounts
pub mod Discovery
pub mod Recovery
pub mod Requests
pub mod Within
pub mod Reach
pub mod Guesses
pub mod Unlimited
pub mod Outcome
pub mod Deleted
pub mod SignIn
pub mod ClientIp
pub mod Restored
use rosette.Prelude.{
  ℕ, ◌+◌, ◌/◌, ◌==◌, List, [], ◌∷◌, Bool, true, false, ◌&&◌, ◌||◌, if◌then◌else◌, Option, none,
  some, ltb, leb, ◌⊎◌, inl, inr, not,
}
use rosette.Prelude.Text.{Text}
use rosette.Proto.Attestation.{Ed25519}
use rosette.Directory.Config.{DirectoryConfig}
use rosette.Directory.RateLimit.{
  RateLimiter, check_and_bump, check_and_bump_ip, check_and_bump_phone,
  unauth_requests_per_minute_per_ip, verified_search_per_minute, unverified_search_per_minute,
}
use rosette.Directory.Verify.{Argon2, OtpVendor}
use rosette.Directory.Store.{Store}
use rosette.Directory.Store.Sessions.{session_user_id}
use rosette.Directory.Store.Users.{is_verified}

-- `str::parse::<IpAddr>`, the hash of an address and of a number (`phone_rate_key`), Argon2id,
-- base64 and Ed25519.
pub record Primitives : Type 0 where
  pub parse_ip : Text → Option ℕ
  pub hash_ip : ℕ → ℕ
  pub phone_rate_key : Text → ℕ
  pub argon2id : Argon2
  pub decode64 : Text → Option (List ℕ)
  pub encode64 : List ℕ → Text
  pub ed25519 : Ed25519

pub record Moment : Type 0 where
  pub now_unix : ℕ
  pub instant : ℕ
  pub vendor : OtpVendor
  pub session_token : Text
  pub restore_token : Text
  pub nonces : ℕ → ℕ

-- `checks` is what the vendor has seen of this service: the numbers that it was asked to check a code
-- for, the last one first.
pub record AppState : Type 0 where
  pub store : Store
  pub rate_limiter : RateLimiter
  pub pepper : List ℕ
  pub config : DirectoryConfig
  pub attestation_key : Option ℕ
  pub checks : List Text

-- The messages of `BadRequest`.
pub data Reason : Type 0 where
  invalid_phone in_cooldown code_rejected bad_nickname : Reason
  search_hash_missing search_hash_not_hex empty_contact_link bad_prefix : Reason
  not_base64 bad_salts bad_auth_hashes empty_ciphertext : Reason
  bad_method auth_not_base64 bad_auth : Reason

pub data ApiError : Type 0 where
  bad_request : Reason → ApiError
  unauthorized feature_disabled vendor_unavailable rate_limited not_found internal : ApiError
  wrong_secret : Option ℕ → ApiError
  locked : ℕ → ApiError

-- The status of `into_response`.
unfoldable pub status : ApiError → ℕ
status (bad_request reason) = 400
status unauthorized = 401
status feature_disabled = 503
status vendor_unavailable = 503
status rate_limited = 429
status not_found = 404
status internal = 500
status (wrong_secret remaining) = 401
status (locked seconds) = 429

-- The wait that a message names: hours or minutes.
pub data Wait : Type 0 where
  hours minutes : ℕ → Wait

unfoldable pub human : ℕ → Wait
human seconds =
    if leb 3600 seconds
    then hours ((seconds + 3599) / 3600)
    else minutes (if (seconds + 59) / 60 == 0 then 1 else (seconds + 59) / 60)

abbrev pub Call : Type 0 → Type 0
Call A = AppState → AppState × (ApiError ⊎ A)

abbrev bound : {A B : Type 0} → AppState × (ApiError ⊎ A) → (A → Call B) → AppState × (ApiError ⊎ B)
bound (app, inl e) f = (app, inl e)
bound (app, inr a) f = f a app

infixl 5 ◌>>=◌ ◌>>◌
unfoldable pub ◌>>=◌ : {A B : Type 0} → Call A → (A → Call B) → Call B
m >>= f = λ app. bound (m app) f

abbrev pub ◌>>◌ : {B : Type 0} → Call (Unit {0}) → Call B → Call B
m >> k = m >>= λ _. k

unfoldable pub pure : {A : Type 0} → A → Call A
pure a = λ app. (app, inr a)

unfoldable pub raise : {A : Type 0} → ApiError → Call A
raise e = λ app. (app, inl e)

-- `if !test { return Err(e); }`
unfoldable pub ensure : Bool → ApiError → Call (Unit {0})
unfolding pure raise
ensure true e = pure tt
ensure false e = raise e

-- `.ok_or(e)?`
unfoldable pub ok_or : {A : Type 0} → Option A → ApiError → Call A
unfolding pure raise
ok_or none e = raise e
ok_or (some a) e = pure a

-- `.map_err(f)?`
unfoldable pub map_err : {E A : Type 0} → E ⊎ A → (E → ApiError) → Call A
unfolding pure raise
map_err (inl e) f = raise (f e)
map_err (inr a) f = pure a

unfoldable pub gets : {A : Type 0} → (AppState → A) → Call A
gets f = λ app. (app, inr (f app))

-- A call of the store that returns a value.
unfoldable pub stored : {A : Type 0} → (Store → Store × A) → Call A
stored f = λ app. let (s, a) = f app.store in (record app { store = s }, inr a)

-- A call of the store that can violate a constraint.
abbrev kept : Option Store → AppState → AppState × (ApiError ⊎ Unit {0})
kept none app = (app, inl internal)
kept (some s) app = (record app { store = s }, inr tt)

unfoldable pub stored_or_internal : (Store → Option Store) → Call (Unit {0})
stored_or_internal f = λ app. kept (f app.store) app

-- `if !rate_limiter.… { return Err(RateLimited); }`
abbrev limited : RateLimiter × Bool → AppState → AppState × (ApiError ⊎ Unit {0})
limited (windows, passed) app =
    (record app { rate_limiter = windows }, if passed then inr tt else inl rate_limited)

unfoldable pub throttle : (RateLimiter → RateLimiter × Bool) → Call (Unit {0})
throttle bump = λ app. limited (bump app.rate_limiter) app

-- `none` where a header is missing, or not made of visible ASCII.
pub record Headers : Type 0 where
  pub authorization : Option Text
  pub forwarded_for : Option Text
