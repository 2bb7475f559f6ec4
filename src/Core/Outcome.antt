-- ===== src/Core/Outcome.antt =====
-- What a call of core/src and ffi/src ends with: `Ok`, `Err`, or a panic.
use rosette.Prelude.{Option, none, some, ◌⊎◌, inl, inr}

pub data Outcome (E : Type 0) (A : Type 0) : Type 0 where
  ok : A → Outcome E A
  failed : E → Outcome E A
  panicked : Outcome E A

infixl 5 ◌>>=◌
abbrev pub ◌>>=◌ : {E A B : Type 0} → Outcome E A → (A → Outcome E B) → Outcome E B
ok a >>= f = f a
failed e >>= f = failed e
panicked >>= f = panicked

abbrev pub map_err : {E F A : Type 0} → (E → F) → Outcome E A → Outcome F A
map_err f (ok a) = ok a
map_err f (failed e) = failed (f e)
map_err f panicked = panicked

-- `expect`
abbrev pub expect : {E A : Type 0} → Option A → Outcome E A
expect none = panicked
expect (some a) = ok a

-- A result whose error's text is dropped for `e`.
abbrev pub or_failed : {E A X : Type 0} → E → X ⊎ A → Outcome E A
or_failed e (inl text) = failed e
or_failed e (inr a) = ok a
