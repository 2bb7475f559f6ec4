-- ===== src/Directory/Api/Discovery.antt =====
-- Handles, search and pairing: the handlers of directory/src/api.rs that find users, and those that
-- let a user be found.
use rosette.Directory.Api.Guards.{throttle_search, authenticate, trim}
use rosette.Prelude.{
  ℕ, List, [], ◌∷◌, Bool, true, false, not, ◌&&◌, ◌||◌, ◌==◌, Option, none, some, leb,
}
use rosette.Prelude.Text.{Text}
use rosette.Proto.Attestation.{AttestationToken}
use rosette.Directory.Username.{UsernameError, format_handle, byte_len}
use rosette.Directory.Attestation.{mint_batch}
use rosette.Directory.Search.{search_by_prefix, store_index}
use rosette.Directory.Store.{Store}
use rosette.Directory.Store.Users.{PhoneEntry, prefix_len_hex, is_searchable}
use rosette.Directory.Store.Users as Users
use rosette.Directory.Store.Handles as Handles
use rosette.Directory.Store.Handles.{find_user_by_handle, handle_for}
use rosette.Directory.Store.Pairing as Pairing
use rosette.Directory.Store.Pairing.{consume_pairing_bootstrap}
use rosette.Directory.Api.{
  Primitives, Moment, ApiError, Headers, Call, ◌>>=◌, ◌>>◌, pure, ensure, ok_or, map_err, gets,
  stored, stored_or_internal, bad_request, bad_nickname, search_hash_missing, search_hash_not_hex,
  empty_contact_link, bad_prefix, unauthorized, feature_disabled, not_found,
}

-- `u8::is_ascii_hexdigit`
abbrev is_ascii_hexdigit : ℕ → Bool
is_ascii_hexdigit c =
    (leb b'0' c && leb c b'9') || (leb b'a' c && leb c b'f') || (leb b'A' c && leb c b'F')

unfoldable pub all_hex : Text → Bool
all_hex [] = true
all_hex (c ∷ cs) = is_ascii_hexdigit c && all_hex cs

unfoldable pub is_hex : Text → ℕ → Bool
unfolding all_hex
is_hex s len = byte_len s == len && all_hex s

-- The hash that is stored: one of 64 hex digits if the user is searchable.
unfoldable pub search_hash : Bool → Option Text → Call (Option Text)
unfolding is_hex
search_hash false hash = pure none
search_hash true hash = do
  given ← ok_or hash (bad_request search_hash_missing)
  ensure (is_hex given 64) (bad_request search_hash_not_hex)
  pure (some given)

pub record SearchResultEntry : Type 0 where
  pub user_id : ℕ
  pub handle : Text
  pub search_hash : Text

abbrev shown : PhoneEntry → Option Text → List SearchResultEntry → List SearchResultEntry
shown entry none results = results
shown entry (some handle) results =
    record { user_id = entry.user_id; handle = handle; search_hash = entry.phone_hash } ∷ results

-- The entries of a bucket whose user has a handle.
unfoldable pub results_of : Store → List PhoneEntry → List SearchResultEntry
unfolding handle_for
results_of s [] = []
results_of s (entry ∷ bucket) = shown entry (handle_for entry.user_id s) (results_of s bucket)

abbrev to_bad_nickname : UsernameError → ApiError
to_bad_nickname e = bad_request bad_nickname

-- A text that is nothing but white space.
abbrev is_empty : Text → Bool
is_empty [] = true
is_empty (c ∷ cs) = false

module _ (m : Moment) (headers : Headers) where
  unfoldable pub claim_username : Text → Call Text
  unfolding authenticate Handles.claim_username format_handle
  claim_username nickname = do
    user_id ← authenticate m headers
    claimed ← stored (Handles.claim_username user_id nickname)
    slot ← map_err claimed to_bad_nickname
    pure (format_handle nickname slot.0 slot.1)

  unfoldable pub get_searchable : Call Bool
  unfolding authenticate is_searchable
  get_searchable = do
    user_id ← authenticate m headers
    searchable ← gets (λ app. is_searchable user_id app.store)
    ok_or searchable unauthorized

  unfoldable pub set_searchable : Bool → Option Text → Call (Unit {0})
  unfolding authenticate search_hash Users.set_searchable
  set_searchable searchable phone_search_hash = do
    user_id ← authenticate m headers
    hash ← search_hash searchable phone_search_hash
    stored (λ s. (Users.set_searchable user_id searchable hash s, tt))

  unfoldable pub username_lookup : Text → ℕ → Call ℕ
  unfolding authenticate find_user_by_handle
  username_lookup nickname discriminator = do
    caller_id ← authenticate m headers
    user_id ← gets (λ app. find_user_by_handle nickname discriminator app.store)
    ok_or user_id not_found

  unfoldable pub issue_attestation_tokens : Primitives → Call (List AttestationToken)
  unfolding authenticate mint_batch
  issue_attestation_tokens p = do
    user_id ← authenticate m headers
    configured ← gets (λ app. app.attestation_key)
    key ← ok_or configured feature_disabled
    pure (mint_batch p.ed25519 m.now_unix m.nonces key)

  unfoldable pub set_pairing_bootstrap : Text → Call (Unit {0})
  unfolding authenticate trim Pairing.set_pairing_bootstrap
  set_pairing_bootstrap contact_link_b64 = do
    user_id ← authenticate m headers
    ensure (not (is_empty (trim contact_link_b64))) (bad_request empty_contact_link)
    stored_or_internal (Pairing.set_pairing_bootstrap m.now_unix user_id contact_link_b64)

  unfoldable pub request_pairing_bootstrap : ℕ → Call Text
  unfolding authenticate throttle_search consume_pairing_bootstrap
  request_pairing_bootstrap user_id = do
    config ← gets (λ app. app.config)
    ensure config.search_enabled feature_disabled
    caller_id ← authenticate m headers
    throttle_search m caller_id
    contact_link_b64 ← stored (consume_pairing_bootstrap user_id)
    ok_or contact_link_b64 not_found

  unfoldable pub search : Text → Call (List SearchResultEntry)
  unfolding authenticate throttle_search search_by_prefix store_index results_of
  search prefix = do
    config ← gets (λ app. app.config)
    ensure config.search_enabled feature_disabled
    caller_id ← authenticate m headers
    throttle_search m caller_id
    ensure (byte_len prefix == prefix_len_hex) (bad_request bad_prefix)
    gets (λ app. results_of app.store (search_by_prefix (store_index app.store) prefix))
