-- ===== src/Directory/Api/Guesses.antt =====
-- How often the vendor is asked to check a code for one number (directory/src/api.rs with
-- directory/src/ratelimit.rs).
pub mod Budget
use rosette.Prelude.{
  ℕ, ◌+◌, ◌-◌, ◌≤◌, ◌<◌, ◌==◌, ◌&&◌, List, [], ◌∷◌, true, false, Option, none, some, ◌≡◌, refl, inl,
  inr, ◌⊎◌, ap, ◌∙◌, Option-cases, Bool-cases, if◌then◌else◌, ltb, arith, All, ==_iff,
}
use rosette.Prelude.Text.{Text, text_eq, text_eq_iff}
use rosette.Directory.RateLimit.{
  RateLimiter, Window, Bucket, caller, phone, ip, minute, bump, bump_window, or_fresh, lookup,
  lookup-insert, check_and_bump, check_and_bump_ip, check_and_bump_phone,
  verify_attempts_per_minute,
}
use rosette.Directory.Verify.{VerifyError, verify_phone, normalize_e164}
use rosette.Directory.Api.{
  AppState, Primitives, Moment, Headers, Call, ◌>>=◌, ◌>>◌, throttle, stored, stored_or_internal,
  map_err, pure, raise,
}
use rosette.Directory.Api.Accounts as Accounts
use rosette.Directory.Api.Accounts.{check_code, of_verify, open_session, to_invalid_phone}
use rosette.Directory.Api.Requests.{serve, serve_all, Request}
use rosette.Directory.Api.Requests as Requests
use rosette.Directory.Api.Within.{
  Change, Within, gets-Within, ensure-Within, bind-Within, follows-Within, inr-Within, inl-Within,
}
use rosette.Directory.Api.Within.Steps.{Steps, throttle_ip-Within}
use rosette.Directory.Api.Within.Handlers

-- A valid number reaches the vendor once.
pub check_code-state :
    (p : Primitives) (m : Moment) (number code e164 : Text) (app : AppState)
    → normalize_e164 number ≡ inr e164
    → (check_code p m number code app).0 ≡ record app { checks = e164 ∷ app.checks }
unfolding check_code map_err pure raise
check_code-state p m number code e164 app n =
    elim (verdict (verify_phone p.argon2id m.vendor number code app.pepper)) [
      | inl (x, v) ↦ rw (n, v) refl
      | inr (x, v) ↦ rw (n, v) refl
    ]
  where
    verdict :
        (r : VerifyError ⊎ Text) → ((x : VerifyError) × (r ≡ inl x)) ⊎ ((x : Text) × (r ≡ inr x))
    verdict (inl x) = inl (x, refl)
    verdict (inr x) = inr (x, refl)

-- Neither the vendor's checks nor the windows of numbers change.
abbrev pub unguarded : Change
unguarded = record {
  relates = λ app app'.
      (app'.checks ≡ app.checks)
      × ((k : ℕ) → lookup phone k app'.rate_limiter ≡ lookup phone k app.rate_limiter);
  same = λ app. (refl, λ k. refl);
  chain = λ a b c f g. (g.0 ∙ f.0, λ k. g.1 k ∙ f.1 k);
}

other_bucket :
    (b : Bucket) (now key limit k : ℕ) (m : RateLimiter)
    → (b ≡ caller) ⊎ (b ≡ ip)
    → lookup phone k (bump now b key limit m).0 ≡ lookup phone k m
unfolding bump
other_bucket caller now key limit k m h =
    lookup-insert caller phone key k (bump_window now limit (or_fresh now (lookup caller key m))).0
      m
other_bucket ip now key limit k m h =
    lookup-insert ip phone key k (bump_window now limit (or_fresh now (lookup ip key m))).0 m
other_bucket phone now key limit k m (inl h) = cc
other_bucket phone now key limit k m (inr h) = cc

pub unguarded_steps : Steps unguarded
unfolding stored stored_or_internal throttle check_and_bump check_and_bump_ip
unguarded_steps = record {
  stores = λ f call e. record { change = λ app. (refl, λ k. refl) };
  stores_or_internal = λ f call e. record {
    change = λ app. elim (Option-cases (f app.store)) [
      | inl broken ↦ rw broken (refl, λ k. refl)
      | inr (s, done) ↦ rw done (refl, λ k. refl)
    ];
  };
  throttles_ip = λ now key limit. record {
    change = λ app. (refl, λ k. other_bucket ip now key limit k app.rate_limiter (inr refl));
  };
  throttles_caller = λ now key limit. record {
    change = λ app. (refl, λ k. other_bucket caller now key limit k app.rate_limiter (inl refl));
  };
}

-- How often the vendor was asked about a number.
unfoldable pub asked_about : Text → List Text → ℕ
asked_about e [] = 0
asked_about e (n ∷ checks) = (if text_eq n e then 1 else 0) + asked_about e checks

-- The guesses that a window leaves until a minute after `first`: its own, and those of the one that
-- can follow it if it began before.
unfoldable pub left : ℕ → Option Window → ℕ
left first none = 10
left first (some w) = if ltb w.started first then 5 + (5 - w.count) else 5 - w.count

pub bump-left :
    (first now k j : ℕ) (m : RateLimiter)
    → first ≤ now
    → now < first + minute
    → (if (bump now phone k 5 m).1 && k == j then 1 else 0)
        + left first (lookup phone j (bump now phone k 5 m).0)
      ≤ left first (lookup phone j m)
unfolding bump left bump_window
bump-left first now k j m lo hi = elim (Option-cases (lookup phone k m)) [
  | inl e ↦
      ground (arith, e, lookup-insert phone phone k j (bump_window now 5 (or_fresh now none)).0 m)
  | inr (w, e) ↦ ground (arith, e, lookup-insert phone phone k j (bump_window now 5 w).0 m)
]
