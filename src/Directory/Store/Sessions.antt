-- ===== src/Directory/Store/Sessions.antt =====
-- Bearer tokens and restore tokens of directory/src/store.rs. A token is the text that is drawn.
use rosette.Prelude.{ℕ, ◌+◌, ◌*◌, Bool, Option, none, some, ltb, if◌then◌else◌}
use rosette.Prelude.Map.{Map, lookup}
use rosette.Prelude.Text.{Text, get, put, remove}
use rosette.Directory.Store.{Store, Session, is_live, User}

abbrev pub session_ttl_days : ℕ
session_ttl_days = 90

-- `none`: the token that was drawn is a key of the table already.
unfoldable pub create_session : ℕ → Text → ℕ → Store → Option Store
create_session now token user_id s = elim (get token s.sessions) [
  | some _ ↦ none
  | none ↦ some (record s {
    sessions = put token (record { user_id = user_id; created_at = now }) s.sessions;
  })
]

-- `created_at > now - 90 days`
abbrev pub is_current : ℕ → Session → Bool
is_current now session = ltb now (session.created_at + session_ttl_days * 24 * 3600)

-- The join with `users`.
abbrev pub live_owner : ℕ → Option User → Option ℕ
live_owner user_id none = none
live_owner user_id (some u) = if is_live u then some user_id else none

abbrev pub resolve : ℕ → Option Session → Map User → Option ℕ
resolve now none users = none
resolve now (some session) users =
    if is_current now session
    then live_owner session.user_id (lookup session.user_id users)
    else none

unfoldable pub session_user_id : ℕ → Text → Store → Option ℕ
session_user_id now token s = resolve now (get token s.sessions) s.users

unfoldable pub create_restore_token : ℕ → Text → ℕ → ℕ → Store → Store
create_restore_token now token user_id ttl_secs s = record s {
  restore_tokens =
      put token (record { user_id = user_id; expires_at = now + ttl_secs }) s.restore_tokens;
}

-- An expired token is removed when it is looked up.
unfoldable pub restore_token_user : ℕ → Text → Store → Store × Option ℕ
restore_token_user now token s = elim (get token s.restore_tokens) [
  | none ↦ (s, none)
  | some entry ↦
      if ltb now entry.expires_at
      then (s, some entry.user_id)
      else (record s { restore_tokens = remove token s.restore_tokens }, none)
]

unfoldable pub consume_restore_token : Text → Store → Store
consume_restore_token token s = record s { restore_tokens = remove token s.restore_tokens }
