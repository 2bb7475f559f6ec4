-- ===== src/Directory/Api/Unlimited.antt =====
-- `restore_begin` of directory/src/api.rs and the limits of directory/src/ratelimit.rs.
use rosette.Prelude.{◌∷◌, Bool, true, false, Option, ◌≡◌, refl, inl, inr, ap, ◌∙◌, Option-cases}
use rosette.Prelude.Text.{Text}
use rosette.Directory.Verify.{normalize_e164}
use rosette.Directory.Api.{
  AppState, Primitives, Moment, Call, ◌>>=◌, ◌>>◌, stored, stored_or_internal, pure, raise,
}
use rosette.Directory.Api.Accounts.{check_code}
use rosette.Directory.Api.Requests.{serve, serve_all, Request}
use rosette.Directory.Api.Requests as Requests
use rosette.Directory.Api.Within.{Change, Within, plain, stored-Within, follows-Within}
use rosette.Directory.Api.{gets, ensure, ApiError, feature_disabled}
use rosette.Directory.Store.{Store}
use rosette.Directory.Api.Recovery as Recovery
use rosette.Directory.Api.Recovery.{RestoreBeginResponse}
use rosette.Directory.Api.Guesses.{check_code-state}

-- Neither the vendor's checks nor any window changes.
abbrev untouched : Change
untouched = record {
  relates = λ app app'. (app'.checks ≡ app.checks) × (app'.rate_limiter ≡ app.rate_limiter);
  same = λ app. (refl, refl);
  chain = λ a b c f g. (g.0 ∙ f.0, g.1 ∙ f.1);
}

stored-untouched : {A : Type 0} (f : Store → Store × A) → Within untouched (stored f)
stored-untouched f = stored-Within f (λ app. (refl, refl))

or_internal-untouched : (f : Store → Option Store) → Within untouched (stored_or_internal f)
unfolding stored_or_internal
or_internal-untouched f = record {
  change = λ app. elim (Option-cases (f app.store)) [
    | inl broken ↦ rw broken (refl, refl)
    | inr (s, done) ↦ rw done (refl, refl)
  ];
}

open_restore-untouched :
    (p : Primitives) (m : Moment) (hashed : Text)
    → Within untouched (Recovery.open_restore p m hashed)
unfolding Recovery.open_restore
open_restore-untouched p m hashed = search (plain, stored-untouched, or_internal-untouched) depth 30

-- A guard that lets the request through is no step.
ensure_on :
    {B : Type 0} (test : Bool) (e : ApiError) (k : Call B) (app : AppState)
    → test ≡ true
    → (ensure test e >> k) app ≡ k app
unfolding ensure pure raise ◌>>=◌
ensure_on true e k app h = refl
ensure_on false e k app h = cc

restore_begin_on :
    (p : Primitives) (m : Moment) (number code : Text) (app : AppState)
    → app.config.accounts_enabled ≡ true
    → Recovery.restore_begin p m number code app
      ≡ (check_code p m number code >>= Recovery.open_restore p m) app
unfolding Recovery.restore_begin gets ◌>>=◌
restore_begin_on p m number code app on =
    ensure_on app.config.accounts_enabled feature_disabled
      (check_code p m number code >>= Recovery.open_restore p m) app on

-- `/v1/backup/restore/begin` asks the vendor about a valid number whatever the windows are, and leaves
-- them as they are: with accounts on, as many such requests as come in for a number are as many checks.
pub restore_begin-unlimited :
    (p : Primitives) (m : Moment) (number code e164 : Text) (app : AppState)
    → app.config.accounts_enabled ≡ true
    → normalize_e164 number ≡ inr e164
    → ((serve p m (Requests.restore_begin number code) app).checks ≡ e164 ∷ app.checks)
      × ((serve p m (Requests.restore_begin number code) app).rate_limiter ≡ app.rate_limiter)
unfolding serve
restore_begin-unlimited p m number code e164 app on n =
    let after =
      follows-Within {R = untouched} (check_code p m number code) (Recovery.open_restore p m) app
        (open_restore-untouched p m) in
    let state = check_code-state p m number code e164 app n in
    rw (restore_begin_on p m number code app on, serve)
      (
        after.0 ∙ ap (λ (a : AppState). a.checks) state,
        after.1 ∙ ap (λ (a : AppState). a.rate_limiter) state,
      )
