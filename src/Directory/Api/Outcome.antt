-- ===== src/Directory/Api/Outcome.antt =====
-- What has happened when a handler of directory/src/api.rs, or a step of it, ends with a value.
use rosette.Prelude.{
  Bool, true, false, Option, none, some, ◌≡◌, refl, arith, ◌⊎◌, inl, inr, ap, Option-cases,
}
use rosette.Directory.RateLimit.{RateLimiter}
use rosette.Directory.Store.{Store}
use rosette.Directory.Api.{
  AppState, ApiError, Call, ◌>>=◌, pure, raise, ensure, ok_or, map_err, gets, stored,
  stored_or_internal, throttle,
}
use rosette.Directory.Api.Within.{outcome}

-- A computation that ends with a value has been through both of its parts.
pub bind-ok :
    {A B : Type 0} (m : Call A) (f : A → Call B) (app app' : AppState) (b : B)
    → (m >>= f) app ≡ (app', inr b)
    → (a : A) × (between : AppState) × (m app ≡ (between, inr a)) × (f a between ≡ (app', inr b))
unfolding ◌>>=◌
bind-ok m f app app' b h = elim (outcome (m app).1) [
  | inl (e, stops) ↦ absurd (ground (arith, stops, h))
  | inr (a, goes) ↦ (a, (m app).0, ap (λ r. ((m app).0, r)) goes, rw goes at h)
]

pub ensure-ok :
    (test : Bool) (e : ApiError) (app app' : AppState) (u : Unit {0})
    → ensure test e app ≡ (app', inr u)
    → (test ≡ true) × (app ≡ app')
unfolding ensure pure raise
ensure-ok true e app app' u h = (refl, ap (λ r. r.0) h)
ensure-ok false e app app' u h = cc

pub map_err-ok :
    {E A : Type 0} (r : E ⊎ A) (g : E → ApiError) (app app' : AppState) (a : A)
    → map_err r g app ≡ (app', inr a)
    → (r ≡ inr a) × (app ≡ app')
unfolding map_err pure raise
map_err-ok (inl e) g app app' a h = cc
map_err-ok (inr x) g app app' a h = (cc, cc)

pub ok_or-ok :
    {A : Type 0} (o : Option A) (e : ApiError) (app app' : AppState) (a : A)
    → ok_or o e app ≡ (app', inr a)
    → (o ≡ some a) × (app ≡ app')
unfolding ok_or pure raise
ok_or-ok none e app app' a h = cc
ok_or-ok (some x) e app app' a h = (cc, cc)

pub gets-ok :
    {A : Type 0} (f : AppState → A) (app app' : AppState) (a : A)
    → gets f app ≡ (app', inr a)
    → (f app ≡ a) × (app ≡ app')
unfolding gets
gets-ok f app app' a h = (cc, cc)

pub stored-ok :
    {A : Type 0} (f : Store → Store × A) (app app' : AppState) (a : A)
    → stored f app ≡ (app', inr a)
    → ((f app.store).1 ≡ a) × (record app { store = (f app.store).0 } ≡ app')
unfolding stored
stored-ok f app app' a h = (cc, cc)

pub throttle-ok :
    (f : RateLimiter → RateLimiter × Bool) (app app' : AppState) (u : Unit {0})
    → throttle f app ≡ (app', inr u)
    → record app { rate_limiter = (f app.rate_limiter).0 } ≡ app'
unfolding throttle
throttle-ok f app app' u h = ap (λ r. r.0) h

pub stored_or_internal-ok :
    (f : Store → Option Store) (app app' : AppState) (u : Unit {0})
    → stored_or_internal f app ≡ (app', inr u)
    → (s : Store) × (f app.store ≡ some s) × (record app { store = s } ≡ app')
unfolding stored_or_internal
stored_or_internal-ok f app app' u h = elim (Option-cases (f app.store)) [
  | inl broken ↦ absurd (ground (arith, broken))
  | inr (s, done) ↦ (s, done, ap (λ r. r.0) (rw done at h))
]

pub pure-ok :
    {A : Type 0} (a : A) (app app' : AppState) (b : A)
    → pure a app ≡ (app', inr b)
    → (a ≡ b) × (app ≡ app')
unfolding pure
pure-ok a app app' b h = (cc, cc)
