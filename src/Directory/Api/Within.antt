-- ===== src/Directory/Api/Within.antt =====
-- What a handler of directory/src/api.rs does to the state, from what its steps do.
pub mod Steps
pub mod Handlers
use rosette.Prelude.{ap, Bool, true, false, Option, none, some, ◌≡◌, refl, ◌⊎◌, inl, inr}
use rosette.Directory.Store.{Store}
use rosette.Directory.Api.{
  AppState, ApiError, Call, ◌>>=◌, pure, raise, ensure, ok_or, map_err, gets, stored,
}

-- A relation between the states before and after, that goes through sequences of steps.
pub record Change : Type 1 where
  pub relates : AppState → AppState → Type 0
  pub same : (app : AppState) → relates app app
  pub chain : (a b c : AppState) → relates a b → relates b c → relates a c

-- Whatever the state, the computation changes it so.
pub record Within (R : Change) {A : Type 0} (m : Call A) : Type 0 where
  pub change : (app : AppState) → R.relates app (m app).0

pub outcome :
    {A : Type 0} (r : ApiError ⊎ A) → ((e : ApiError) × (r ≡ inl e)) ⊎ ((a : A) × (r ≡ inr a))
outcome (inl e) = inl (e, refl)
outcome (inr a) = inr (a, refl)

module _ {R : Change} where
  pub bind-Within :
      {A B : Type 0} {m : Call A} {f : A → Call B}
      → Within R m
      → ((a : A) → Within R (f a))
      → Within R (m >>= f)
  unfolding ◌>>=◌
  bind-Within {m = m} {f = f} first next = record {
    change = λ app. elim (outcome (m app).1) [
      | inl (e, stops) ↦ rw stops (first.change app)
      | inr (a, goes) ↦
          rw goes
            (R.chain app (m app).0 (f a (m app).0).0 (first.change app) ((next a).change (m app).0))
    ];
  }

  pub gets-Within : {A : Type 0} (f : AppState → A) → Within R (gets f)
  unfolding gets
  gets-Within f = record { change = R.same }

  pub pure-Within : {A : Type 0} (a : A) → Within R (pure a)
  unfolding pure
  pure-Within a = record { change = R.same }

  pub raise-Within : {A : Type 0} (e : ApiError) → Within R (raise {A = A} e)
  unfolding raise
  raise-Within e = record { change = R.same }

  pub ensure-Within : (test : Bool) (e : ApiError) → Within R (ensure test e)
  unfolding ensure pure raise
  ensure-Within true e = record { change = R.same }
  ensure-Within false e = record { change = R.same }

  pub ok_or-Within : {A : Type 0} (o : Option A) (e : ApiError) → Within R (ok_or o e)
  unfolding ok_or pure raise
  ok_or-Within none e = record { change = R.same }
  ok_or-Within (some a) e = record { change = R.same }

  pub map_err-Within : {E A : Type 0} (r : E ⊎ A) (f : E → ApiError) → Within R (map_err r f)
  unfolding map_err pure raise
  map_err-Within (inl e) f = record { change = R.same }
  map_err-Within (inr a) f = record { change = R.same }

  -- A call of the store that returns a value.
  pub stored-Within :
      {A : Type 0} (f : Store → Store × A)
      → ((app : AppState) → R.relates app (record app { store = (f app.store).0 }))
      → Within R (stored f)
  unfolding stored
  stored-Within f changes = record { change = changes }

pub ruleset plain = (
  bind-Within, gets-Within, pure-Within, raise-Within, ensure-Within, ok_or-Within, map_err-Within,
)

-- From the state that a step leaves to the state after what follows it.
pub follows-Within :
    {R : Change} {A B : Type 0} (m : Call A) (f : A → Call B) (app : AppState)
    → ((a : A) → Within R (f a))
    → R.relates (m app).0 ((m >>= f) app).0
unfolding ◌>>=◌
follows-Within {R = R} m f app next = elim (outcome (m app).1) [
  | inl (e, stops) ↦ rw stops (R.same (m app).0)
  | inr (a, goes) ↦ rw goes ((next a).change (m app).0)
]

-- What follows a value that is there, or does not follow one that is not.
pub inr-Within :
    {R : Change} {E A B : Type 0} (a : A) (g : E → ApiError) (f : A → Call B)
    → Within R (f a)
    → Within R (map_err (inr a) g >>= f)
unfolding ◌>>=◌ map_err pure
inr-Within a g f next = record { change = next.change }

pub inl-Within :
    {R : Change} {E A B : Type 0} (e : E) (g : E → ApiError) (f : A → Call B)
    → Within R (map_err (inl e) g >>= f)
unfolding ◌>>=◌ map_err raise
inl-Within {R = R} e g f = record { change = R.same }
