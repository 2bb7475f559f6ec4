-- ===== src/Directory/Api/Guesses/Budget.antt =====
-- The guesses that requests (directory/src/api.rs) spend and those that the windows of
-- directory/src/ratelimit.rs leave.
use rosette.Prelude.{
  ℕ, ◌+◌, ◌≤◌, ◌<◌, ◌==◌, List, [], ◌∷◌, true, false, Option, none, some, ◌≡◌, refl, inl, inr, ◌⊎◌,
  ap, Bool-cases, if◌then◌else◌, arith, All, ==_iff,
}
use rosette.Prelude.Text.{Text, text_eq, text_eq_iff}
use rosette.Directory.RateLimit.{
  Window, phone, minute, bump, lookup, check_and_bump_phone, verify_attempts_per_minute,
}
use rosette.Directory.Verify.{VerifyError, normalize_e164}
use rosette.Directory.Api.{
  AppState, Primitives, Moment, Headers, Call, ◌>>=◌, ◌>>◌, throttle, map_err,
}
use rosette.Directory.Api.Accounts as Accounts
use rosette.Directory.Api.Accounts.{check_code, of_verify, open_session, to_invalid_phone}
use rosette.Directory.Api.Requests.{serve, serve_all, Request}
use rosette.Directory.Api.Requests as Requests
use rosette.Directory.Api.Within.{
  Change, Within, gets-Within, ensure-Within, bind-Within, follows-Within, inr-Within, inl-Within,
}
use rosette.Directory.Api.Within.Steps.{Steps, throttle_ip-Within}
use rosette.Directory.Api.Within.Handlers
use rosette.Directory.Api.Guesses.{
  unguarded, unguarded_steps, bump-left, asked_about, left, check_code-state,
}

module _ (p : Primitives) (e : Text) (first : ℕ) where
  abbrev window : AppState → Option Window
  window app = lookup phone (p.phone_rate_key e) app.rate_limiter

  abbrev budget : AppState → ℕ
  budget app = asked_about e app.checks + left first (window app)

  -- The checks that were made and the guesses that are left do not grow together.
  abbrev spends : Change
  spends = record {
    relates = λ app app'. budget app' ≤ budget app;
    same = λ app. omega arith;
    chain = λ a b c f g. omega arith;
  }

  unguarded-spends : (app app' : AppState) → unguarded.relates app app' → budget app' ≤ budget app
  unguarded-spends app app' (same, windows) = rw (same, windows (p.phone_rate_key e)) (omega arith)

  weaker : {A : Type 0} {c : Call A} → Within unguarded c → Within spends c
  weaker {c = c} w = record { change = λ app. unguarded-spends app (c app).0 (w.change app) }

  spends_steps : Steps spends
  spends_steps = record {
    stores = λ f call h. weaker (unguarded_steps.stores f call h);
    stores_or_internal = λ f call h. weaker (unguarded_steps.stores_or_internal f call h);
    throttles_ip = λ now key limit. weaker (unguarded_steps.throttles_ip now key limit);
    throttles_caller = λ now key limit. weaker (unguarded_steps.throttles_caller now key limit);
  }

  module _ (m : Moment) (lo : first ≤ m.instant) (hi : m.instant < first + minute) where
    checked-spends :
        (headers : Headers) (number code e164 : Text) (app : AppState)
        → normalize_e164 number ≡ inr e164
        → budget ((check_code p m number code >>= open_session p m headers) app).0
          ≤ (if text_eq e164 e then 1 else 0) + budget app
    unfolding asked_about
    checked-spends headers number code e164 app n =
        let rest =
          unguarded-spends (check_code p m number code app).0
            ((check_code p m number code >>= open_session p m headers) app).0
            (follows-Within {R = unguarded} (check_code p m number code) (open_session p m headers)
              app (Handlers.open_session-Within unguarded_steps p m headers)) in
        omega (arith, rest, ap budget (check_code-state p m number code e164 app n))

    own_key :
        (e164 : Text) → text_eq e164 e ≡ true → (p.phone_rate_key e164 == p.phone_rate_key e) ≡ true
    own_key e164 h =
        (==_iff (p.phone_rate_key e164) (p.phone_rate_key e)).1
          (ap p.phone_rate_key ((text_eq_iff e164 e).0 h))

    guarded :
        (headers : Headers) (number code e164 : Text)
        → normalize_e164 number ≡ inr e164
        → Within spends (
            throttle
              (check_and_bump_phone m.instant (p.phone_rate_key e164) verify_attempts_per_minute)
            >> (check_code p m number code >>= open_session p m headers))
    unfolding throttle ◌>>=◌ check_and_bump_phone
    guarded headers number code e164 n = record {
      change = λ app.
          let key = p.phone_rate_key e164 in
          let bumped = bump m.instant phone key 5 app.rate_limiter in
          let app1 = record app { rate_limiter = bumped.0 } in
          let less = bump-left first m.instant key (p.phone_rate_key e) app.rate_limiter lo hi in
          elim (Bool-cases bumped.1) [
            | inl passed ↦
                rw passed (
                  ground
                    (arith, less, own_key e164, checked-spends headers number code e164 app1 n))
            | inr refused ↦ rw refused (ground (arith, less))
          ];
    }

    numbered :
        (headers : Headers) (number code : Text)
        → Within spends (
            map_err (normalize_e164 number) to_invalid_phone >>= λ e164.
            throttle
              (check_and_bump_phone m.instant (p.phone_rate_key e164) verify_attempts_per_minute)
            >> (check_code p m number code >>= open_session p m headers))
    numbered headers number code = by_number (normalize_e164 number) refl
      where
        by_number :
            (r : VerifyError ⊎ Text)
            → normalize_e164 number ≡ r
            → Within spends (
                map_err r to_invalid_phone >>= λ e164.
                throttle (
                  check_and_bump_phone m.instant (p.phone_rate_key e164) verify_attempts_per_minute)
                >> (check_code p m number code >>= open_session p m headers))
        by_number (inl x) n = inl-Within x to_invalid_phone _
        by_number (inr e164) n =
            inr-Within e164 to_invalid_phone _ (guarded headers number code e164 n)

    verify-spends :
        (headers : Headers) (peer : ℕ) (number code : Text)
        → Within spends (Accounts.verify_handler p m headers peer number code)
    unfolding Accounts.verify_handler
    verify-spends headers peer number code = bind-Within (gets-Within _) (λ config.
        bind-Within (ensure-Within _ _) (λ on.
          bind-Within (throttle_ip-Within spends_steps p m headers peer)
            (λ passed. numbered headers number code)))

    -- The requests by which the vendor is asked under the limit of a number, or not at all.
    serve-spends :
        (request : Request) (app : AppState)
        → Requests.begins_restore request ≡ false
        → budget (serve p m request app) ≤ budget app
    unfolding serve Requests.begins_restore
    serve-spends Requests.health app h = omega arith
    serve-spends (Requests.signup headers peer number) app h =
        (Handlers.signup-Within spends_steps p m headers peer number).change app
    serve-spends (Requests.verify headers peer number code) app h =
        (verify-spends headers peer number code).change app
    serve-spends (Requests.username headers name) app h =
        (Handlers.claim_username-Within spends_steps m headers name).change app
    serve-spends (Requests.username_lookup headers name d) app h =
        (Handlers.username_lookup-Within spends_steps m headers name d).change app
    serve-spends (Requests.get_searchable headers) app h =
        (Handlers.get_searchable-Within spends_steps m headers).change app
    serve-spends (Requests.set_searchable headers on hash) app h =
        (Handlers.set_searchable-Within spends_steps m headers on hash).change app
    serve-spends (Requests.attestation_tokens headers) app h =
        (Handlers.issue-Within spends_steps m headers p).change app
    serve-spends (Requests.delete_account headers) app h =
        (Handlers.delete-Within spends_steps p m headers).change app
    serve-spends (Requests.search headers prefix) app h =
        (Handlers.search-Within spends_steps m headers prefix).change app
    serve-spends (Requests.set_pairing_bootstrap headers link) app h =
        (Handlers.set_pairing-Within spends_steps m headers link).change app
    serve-spends (Requests.request_pairing_bootstrap headers u) app h =
        (Handlers.request_pairing-Within spends_steps m headers u).change app
    serve-spends (Requests.put_backup headers req) app h =
        (Handlers.put_backup-Within spends_steps p m headers req).change app
    serve-spends (Requests.restore_begin number code) app h = cc
    serve-spends (Requests.restore_complete token method auth) app h =
        (Handlers.restore_complete-Within spends_steps p m token method auth).change app

-- A request that comes within a minute of `first`, and does not begin a restore.
abbrev pub IsGuarded : ℕ → Moment × Request → Type 0
IsGuarded first r =
    (first ≤ r.0.instant) × (r.0.instant < first + minute) × (Requests.begins_restore r.1 ≡ false)

requests_spend :
    (p : Primitives) (e : Text) (first : ℕ) (requests : List (Moment × Request)) (app : AppState)
    → All (IsGuarded first) requests
    → budget p e first (serve_all p requests app) ≤ budget p e first app
unfolding serve_all
requests_spend p e first [] app h = omega arith
requests_spend p e first ((m, request) ∷ requests) app ((lo, hi, plain_one), rest) =
    let step = serve-spends p e first m lo hi request app plain_one in
    let ih = requests_spend p e first requests (serve p m request app) rest in omega arith

left_bounded : (first : ℕ) (w : Option Window) → left first w ≤ 10
unfolding left
left_bounded first none = omega arith
left_bounded first (some w) = ground arith

-- Of the requests of any one minute, from any state, at most ten make the vendor check a code for one
-- number, if none of them begins a restore: five in the window that is open when the minute begins, and
-- five in the one that can follow it.
pub checks_in_a_minute :
    (p : Primitives) (e : Text) (first : ℕ) (requests : List (Moment × Request)) (app : AppState)
    → All (IsGuarded first) requests
    → asked_about e (serve_all p requests app).checks ≤ asked_about e app.checks + 10
checks_in_a_minute p e first requests app h =
    omega
      (arith, requests_spend p e first requests app h, left_bounded first (window p e first app))
