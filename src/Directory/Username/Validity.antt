-- ===== src/Directory/Username/Validity.antt =====
-- The nicknames that `validate_nickname` accepts.
use rosette.Prelude.{ℕ, ◌≤◌, List, [], ◌∷◌, none, ◌≡◌, ◌↔◌, refl, arith, All, length, true, inr}
use rosette.Directory.Username.{
  validate_nickname, find_disallowed, is_allowed_char, len_utf8, byte_len, min_nickname_len,
  max_nickname_len,
}

abbrev pub AllAllowed : List ℕ → Type 0
AllAllowed = All (λ c. is_allowed_char c ≡ true)

find_disallowed-eq-none : (cs : List ℕ) → (find_disallowed cs ≡ none) ↔ AllAllowed cs
unfolding find_disallowed
find_disallowed-eq-none [] = (λ e. tt, λ a. refl)
find_disallowed-eq-none (c ∷ cs) =
    let (to, from) = find_disallowed-eq-none cs in
    (λ e. (ground arith, to (ground arith)), λ a. ground (arith, a.0, from a.1))

allowed_is_ascii : (c : ℕ) → is_allowed_char c ≡ true → len_utf8 c ≡ 1
unfolding is_allowed_char len_utf8
allowed_is_ascii c h = ground arith

byte_len_allowed : (cs : List ℕ) → AllAllowed cs → byte_len cs ≡ length cs
byte_len_allowed [] a = refl
byte_len_allowed (c ∷ cs) a = omega (arith, allowed_is_ascii c a.0, byte_len_allowed cs a.1)

-- A nickname is accepted exactly when all its characters are allowed and there are 2 to 32 of
-- them.
pub validate_nickname_iff :
    (nickname : List ℕ)
    → (validate_nickname nickname ≡ inr tt) ↔ (
        AllAllowed nickname
        × (min_nickname_len ≤ length nickname)
        × (length nickname ≤ max_nickname_len))
unfolding validate_nickname
validate_nickname_iff nickname = (
  λ h.
      let all : AllAllowed nickname = (find_disallowed-eq-none nickname).0 (ground arith) in
      (
        all,
        ground (arith, byte_len_allowed nickname all),
        ground (arith, byte_len_allowed nickname all),
      ),
  λ h. ground (arith, byte_len_allowed nickname h.0, (find_disallowed-eq-none nickname).1 h.0),
)
