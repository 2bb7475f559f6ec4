-- ===== src/Directory/Store/Handles.antt =====
-- Handles: `claim_username`, `find_user_by_handle` and `handle_for` of directory/src/store.rs.
use rosette.Prelude.{
  ℕ, ◌-◌, List, [], ◌∷◌, Bool, false, ◌&&◌, Option, none, some, ◌==◌, if◌then◌else◌, ◌⊎◌, inl, inr,
}
use rosette.Prelude.Map.{Map, lookup}
use rosette.Prelude.Text.{Text, text_eq, get, put}
use rosette.Directory.Username.{
  UsernameError, min_discriminator_width, validate_nickname, choose_slot, format_handle,
}
use rosette.Directory.Store.{Store, User, is_live}
use rosette.Directory.Store.Users.{update_user, find_where}

abbrev pub width_of : Option ℕ → ℕ
width_of none = min_discriminator_width
width_of (some width) = width

unfoldable pub current_width : Text → Store → ℕ
current_width nickname s = width_of (get nickname s.nickname_widths)

abbrev pub has_nickname : Text → User → Bool
has_nickname nickname u = elim u.nickname [ none ↦ false | some n ↦ text_eq n nickname ]

abbrev add_discriminator : Option ℕ → List ℕ → List ℕ
add_discriminator none ds = ds
add_discriminator (some d) ds = d ∷ ds

-- SELECT discriminator FROM users WHERE nickname = $1 AND discriminator IS NOT NULL
unfoldable pub taken_discriminators : Text → Map User → List ℕ
taken_discriminators nickname [] = []
taken_discriminators nickname ((user_id, u) ∷ users) =
    let others = taken_discriminators nickname users in
    if has_nickname nickname u then add_discriminator u.discriminator others else others

abbrev pub named : Text → ℕ → User → User
named nickname slot u = record u { nickname = some nickname; discriminator = some slot }

-- The rounds of the loop are what is left before width 9; a width that is more has one round.
unfoldable pub claim_username : ℕ → Text → Store → Store × (UsernameError ⊎ (ℕ × ℕ))
unfolding current_width taken_discriminators update_user
claim_username user_id nickname s = elim (validate_nickname nickname) [
  | inl e ↦ (s, inl e)
  | inr _ ↦
      let width = current_width nickname s in
      elim (choose_slot (9 - width) (taken_discriminators nickname s.users) width) [
        | inl e ↦ (s, inl e)
        | inr (slot, wide) ↦ (
          record s {
            nickname_widths = put nickname wide s.nickname_widths;
            users = update_user user_id (named nickname slot) s.users;
          },
          inr (slot, wide),
        )
      ]
]

abbrev pub has_handle : Text → ℕ → User → Bool
has_handle nickname discriminator u =
    has_nickname nickname u
    && (elim u.discriminator [ none ↦ false | some d ↦ d == discriminator ])
    && is_live u

unfoldable pub find_user_by_handle : Text → ℕ → Store → Option ℕ
unfolding find_where
find_user_by_handle nickname discriminator s =
    find_where (has_handle nickname discriminator) s.users

-- The two columns are set together; a row with only a nickname is not written.
abbrev pub shown_handle : Option Text → Option ℕ → Store → Option Text
shown_handle none d s = none
shown_handle (some nickname) none s = none
shown_handle (some nickname) (some d) s =
    some (format_handle nickname d (width_of (get nickname s.nickname_widths)))

abbrev pub handle_of : Option User → Store → Option Text
handle_of none s = none
handle_of (some u) s = shown_handle u.nickname u.discriminator s

unfoldable pub handle_for : ℕ → Store → Option Text
handle_for user_id s = handle_of (lookup user_id s.users) s
