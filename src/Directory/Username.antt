-- ===== src/Directory/Username.antt =====
-- directory/src/username.rs, and the choice of a discriminator by `claim_username` of
-- directory/src/store.rs. A nickname is its list of code points.
pub mod Validity
pub mod Slots
use rosette.Prelude.{
  ℕ, zero, suc, ◌+◌, ◌-◌, ◌*◌, ◌/◌, ◌%◌, ◌^◌, min, List, [], ◌∷◌, ◌++◌, Bool, true, false, not,
  ◌&&◌, ◌||◌, Option, none, some, ltb, leb, ◌==◌, if◌then◌else◌, ◌⊎◌, inl, inr, length, replicate,
  contains, sum_by,
}

abbrev pub min_nickname_len : ℕ
min_nickname_len = 2

abbrev pub max_nickname_len : ℕ
max_nickname_len = 32

abbrev pub min_discriminator_width : ℕ
min_discriminator_width = 2

pub data UsernameError : Type 0 where
  bad_length : UsernameError
  bad_char : ℕ → UsernameError
  discriminator_space_exhausted : UsernameError

-- `char::is_ascii_alphanumeric`
is_ascii_alphanumeric : ℕ → Bool
is_ascii_alphanumeric c =
    (leb b'0' c && leb c b'9') || (leb b'A' c && leb c b'Z') || (leb b'a' c && leb c b'z')

unfoldable pub is_allowed_char : ℕ → Bool
unfolding is_ascii_alphanumeric
is_allowed_char c = is_ascii_alphanumeric c || c == b'_' || c == b'-' || c == b'.'

-- `char::len_utf8`; `str::len` is the sum of these.
unfoldable pub len_utf8 : ℕ → ℕ
len_utf8 c = if ltb c 0x80 then 1 else if ltb c 0x800 then 2 else if ltb c 0x10000 then 3 else 4

abbrev pub byte_len : List ℕ → ℕ
byte_len = sum_by len_utf8

-- `nickname.chars().find(|c| !is_allowed_char(*c))`
unfoldable pub find_disallowed : List ℕ → Option ℕ
find_disallowed [] = none
find_disallowed (c ∷ cs) = if not (is_allowed_char c) then some c else find_disallowed cs

unfoldable pub validate_nickname : List ℕ → UsernameError ⊎ Unit {0}
validate_nickname nickname =
    if ltb (byte_len nickname) min_nickname_len || ltb max_nickname_len (byte_len nickname)
    then inl bad_length
    else elim (find_disallowed nickname) [ some bad ↦ inl (bad_char bad) | none ↦ inr tt ]

-- The decimal digits of a `u32`, at most ten, in ASCII.
unfoldable pub digits : ℕ → ℕ → List ℕ
digits zero n = []
digits (suc k) n =
    let rest = digits k (n / 10) in
    if ltb n 10 then (b'0' + n) ∷ [] else rest ++ (b'0' + n % 10) ∷ []

unfoldable pub render_discriminator : ℕ → ℕ → List ℕ
unfolding digits
render_discriminator value width =
    let ds = digits 10 value in replicate (width - length ds) b'0' ++ ds

unfoldable pub format_handle : List ℕ → ℕ → ℕ → List ℕ
unfolding render_discriminator
format_handle nickname discriminator width =
    nickname ++ (b'#' ∷ render_discriminator discriminator width)

-- `10u32.saturating_pow(width) - 1`
unfoldable pub slot_count : ℕ → ℕ
slot_count width = min (10 ^ width) (2 ^ 32 - 1) - 1

-- `(start..start + n).find(|v| !taken.contains(v))`
unfoldable pub find_free : List ℕ → ℕ → ℕ → Option ℕ
find_free taken zero start = none
find_free taken (suc n) start =
    let rest = find_free taken n (start + 1) in if contains start taken then rest else some start

unfoldable pub first_free_slot : List ℕ → ℕ → UsernameError ⊎ ℕ
first_free_slot taken width = elim (find_free taken (slot_count width) 1) [
  | none ↦ inl discriminator_space_exhausted
  | some v ↦ inr v
]

-- The loop of `claim_username` from a width, with the rounds that are left before width 9 as the
-- first argument; the result is the slot and the width at which it was found.
unfoldable pub choose_slot : ℕ → List ℕ → ℕ → UsernameError ⊎ (ℕ × ℕ)
choose_slot zero taken width = elim (first_free_slot taken width) [
  | inr slot ↦ inr (slot, width)
  | inl e ↦ inl e
]
choose_slot (suc rounds) taken width =
    let wider = choose_slot rounds taken (width + 1) in
    elim (first_free_slot taken width) [
      | inr slot ↦ inr (slot, width)
      | inl discriminator_space_exhausted ↦ wider
      | inl e ↦ inl e
    ]
