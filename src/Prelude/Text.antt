-- ===== src/Prelude/Text.antt =====
-- Texts as lists of code points, their equality, and maps whose keys are texts.
use mathlib.Core.Path.{◌≡◌, refl}
use mathlib.Core.Logic.{◌↔◌}
use mathlib.Core.Bool.{Bool, true, false, ◌&&◌, ◌||◌}
use mathlib.Core.Option.{Option, none, some}
use mathlib.Core.List.{List, [], ◌∷◌}
use Prim.Native.Nat.{ℕ}
use native.Mathlib.Omega.{arith}
use rosette.Prelude.Tests.{◌==◌, leb, if◌then◌else◌}

abbrev pub Text : Type 0
Text = List ℕ

unfoldable pub text_eq : Text → Text → Bool
text_eq [] [] = true
text_eq [] (d ∷ ds) = false
text_eq (c ∷ cs) [] = false
text_eq (c ∷ cs) (d ∷ ds) = c == d && text_eq cs ds

pub text_eq_iff : (s t : Text) → (text_eq s t ≡ true) ↔ (s ≡ t)
unfolding text_eq
text_eq_iff [] [] = (λ h. refl, λ h. refl)
text_eq_iff [] (d ∷ ds) = (λ h. cc, λ h. cc)
text_eq_iff (c ∷ cs) [] = (λ h. cc, λ h. cc)
text_eq_iff (c ∷ cs) (d ∷ ds) =
    let (to, from) = text_eq_iff cs ds in
    (λ h. ground (arith, to (ground arith)), λ h. ground (arith, from (ground arith)))

pub text_eq_refl : (s : Text) → text_eq s s ≡ true
text_eq_refl s = (text_eq_iff s s).1 refl

-- `char::is_whitespace`
unfoldable pub is_whitespace : ℕ → Bool
is_whitespace c =
    (leb 9 c && leb c 13)
    || c == 0x20
    || c == 0x85
    || c == 0xA0
    || c == 0x1680
    || (leb 0x2000 c && leb c 0x200A)
    || c == 0x2028
    || c == 0x2029
    || c == 0x202F
    || c == 0x205F
    || c == 0x3000

-- The rows of a table, or the entries of a `HashMap`, whose key is a text.
abbrev pub TextMap {ℓ} : Type ℓ → Type ℓ
TextMap V = List (Text × V)

module _ {ℓ} {V : Type ℓ} where
  unfoldable pub get : Text → TextMap V → Option V
  get name [] = none
  get name ((own, value) ∷ rows) = if text_eq own name then some value else get name rows

  unfoldable pub put : Text → V → TextMap V → TextMap V
  put name value [] = (name, value) ∷ []
  put name value ((own, old) ∷ rows) =
      if text_eq own name then (name, value) ∷ rows else (own, old) ∷ put name value rows

  unfoldable pub remove : Text → TextMap V → TextMap V
  remove name [] = []
  remove name ((own, old) ∷ rows) =
      if text_eq own name then remove name rows else (own, old) ∷ remove name rows

  -- The rows whose value passes a test.
  unfoldable pub keep_where : (V → Bool) → TextMap V → TextMap V
  keep_where p [] = []
  keep_where p ((own, value) ∷ rows) =
      if p value then (own, value) ∷ keep_where p rows else keep_where p rows

  pub get-put :
      (written read : Text) (value : V) (rows : TextMap V)
      → get read (put written value rows)
        ≡ (if text_eq written read then some value else get read rows)
  unfolding get put
  get-put written read value [] = refl
  get-put written read value ((own, old) ∷ rows) = ground (
    arith,
    text_eq_iff own written,
    text_eq_iff own read,
    text_eq_iff written read,
    get-put written read value rows,
  )

  pub get-remove :
      (gone read : Text) (rows : TextMap V)
      → get read (remove gone rows) ≡ (if text_eq gone read then none else get read rows)
  unfolding get remove
  get-remove gone read [] = ground arith
  get-remove gone read ((own, old) ∷ rows) = ground (
    arith,
    text_eq_iff own gone,
    text_eq_iff own read,
    text_eq_iff gone read,
    get-remove gone read rows,
  )
