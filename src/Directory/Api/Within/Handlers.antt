-- ===== src/Directory/Api/Within/Handlers.antt =====
-- What each handler of directory/src/api.rs does to the state, from what its steps do.
use rosette.Prelude.{ℕ, List, Bool, Option, refl}
use rosette.Prelude.Text.{Text}
use rosette.Directory.Backup.{BackupUpload, RestoreVerdict, match, wrong_pin, wrong_phrase, locked}
use rosette.Directory.Store.Calls.{StoreCall, run, run_all, or_same}
use rosette.Directory.Store.Calls as Calls
use rosette.Directory.Store.Users as Users
use rosette.Directory.Store.Handles as Handles
use rosette.Directory.Store.Sessions as Sessions
use rosette.Directory.Store.Pairing as Pairing
use rosette.Directory.Store.Erasure as Erasure
use rosette.Directory.Api.{Primitives, Moment, Headers, stored, stored_or_internal}
use rosette.Directory.Api.Accounts as Accounts
use rosette.Directory.Api.Accounts.{check_code, of_verify}
use rosette.Directory.Api.Discovery as Discovery
use rosette.Directory.Api.Discovery.{search_hash}
use rosette.Directory.Api.Recovery as Recovery
use rosette.Directory.Api.Recovery.{
  BackupTexts, decode_bundle, prove, answer, restore_token_ttl_secs,
}
use rosette.Directory.Api.Within.{Within, plain}
use rosette.Directory.RateLimit.{check_and_bump_phone}
use rosette.Directory.Api.{throttle}
use rosette.Directory.Api.Within.{Change}
use rosette.Directory.Api.Within.Steps.{Steps, guards}

take-Within :
    {R : Change} (steps : Steps R) (u : ℕ) → Within R (stored (Pairing.consume_pairing_bootstrap u))
unfolding run
take-Within steps u =
    steps.stores (Pairing.consume_pairing_bootstrap u) (Calls.take_bootstrap u) (λ s. refl)

module _ {R : Change} (steps : Steps R) (m : Moment) (headers : Headers) where
  pub claim_username-Within : (name : Text) → Within R (Discovery.claim_username m headers name)
  unfolding Discovery.claim_username run
  claim_username-Within name =
      search
        (
          guards,
          λ (u : ℕ). steps.stores (Handles.claim_username u name) (Calls.claim u name) (λ s. refl),
        )
        depth 30

  pub get_searchable-Within : Within R (Discovery.get_searchable m headers)
  unfolding Discovery.get_searchable
  get_searchable-Within = search guards depth 30

  pub set_searchable-Within :
      (on : Bool) (hash : Option Text) → Within R (Discovery.set_searchable m headers on hash)
  unfolding Discovery.set_searchable run
  set_searchable-Within on hash =
      search
        (
          guards,
          λ (u : ℕ) (h : Option Text).
              steps.stores (λ s. (Users.set_searchable u on h s, tt)) (Calls.searchable u on h)
                (λ s. refl),
        )
        depth 30

  pub username_lookup-Within :
      (name : Text) (d : ℕ) → Within R (Discovery.username_lookup m headers name d)
  unfolding Discovery.username_lookup
  username_lookup-Within name d = search guards depth 30

  pub issue-Within : (p : Primitives) → Within R (Discovery.issue_attestation_tokens m headers p)
  unfolding Discovery.issue_attestation_tokens
  issue-Within p = search guards depth 30

  pub set_pairing-Within : (link : Text) → Within R (Discovery.set_pairing_bootstrap m headers link)
  unfolding Discovery.set_pairing_bootstrap run
  set_pairing-Within link =
      search
        (
          guards,
          λ (u : ℕ).
              steps.stores_or_internal (Pairing.set_pairing_bootstrap m.now_unix u link)
                (Calls.set_bootstrap m.now_unix u link) (λ s. refl),
        )
        depth 30

  pub request_pairing-Within : (u : ℕ) → Within R (Discovery.request_pairing_bootstrap m headers u)
  unfolding Discovery.request_pairing_bootstrap
  request_pairing-Within u = search (guards, take-Within) depth 30

  pub search-Within : (prefix : Text) → Within R (Discovery.search m headers prefix)
  unfolding Discovery.search
  search-Within prefix = search guards depth 30

module _ {R : Change} (steps : Steps R) (p : Primitives) (m : Moment) where
  pub find_or_create-Within :
      (hash : Text) → Within R (stored (Users.find_or_create_pending_user m.now_unix hash))
  unfolding run
  find_or_create-Within hash =
      steps.stores (Users.find_or_create_pending_user m.now_unix hash)
        (Calls.find_or_create m.now_unix hash) (λ s. refl)

  pub create_session-Within :
      (u : ℕ) → Within R (stored_or_internal (Sessions.create_session m.now_unix m.session_token u))
  unfolding run
  create_session-Within u =
      steps.stores_or_internal (Sessions.create_session m.now_unix m.session_token u)
        (Calls.new_session m.now_unix m.session_token u) (λ s. refl)

  pub signup-Within :
      (headers : Headers) (peer : ℕ) (phone : Text)
      → Within R (Accounts.signup p m headers peer phone)
  unfolding Accounts.signup
  signup-Within headers peer phone = search (guards, find_or_create-Within) depth 30

  pub open_session-Within :
      (headers : Headers) (hash : Text) → Within R (Accounts.open_session p m headers hash)
  unfolding Accounts.open_session run
  open_session-Within headers hash =
      search
        (
          guards,
          find_or_create-Within,
          create_session-Within,
          λ (u : ℕ).
              steps.stores (λ s. (Users.mark_verified u s, tt)) (Calls.verified u) (λ s. refl),
        )
        depth 30

  pub verify-Within :
      ((now key limit : ℕ) → Within R (throttle (check_and_bump_phone now key limit)))
      → ((phone code : Text) → Within R (check_code p m phone code))
      → (headers : Headers) (peer : ℕ) (phone code : Text)
      → Within R (Accounts.verify_handler p m headers peer phone code)
  unfolding Accounts.verify_handler
  verify-Within phones coded headers peer phone code =
      search (guards, phones, coded, open_session-Within) depth 30

  pub delete-Within : (headers : Headers) → Within R (Accounts.delete_account p m headers)
  unfolding Accounts.delete_account run
  delete-Within headers =
      search
        (
          guards,
          λ (u : ℕ).
              steps.stores (λ s. (Erasure.erase_user m.now_unix u s, tt)) (Calls.erase m.now_unix u)
                (λ s. refl),
        )
        depth 30

  pub decode_bundle-Within : (req : BackupTexts) → Within R (decode_bundle p req)
  unfolding decode_bundle
  decode_bundle-Within req = search plain depth 30

  pub put_backup-Within :
      (headers : Headers) (req : BackupTexts) → Within R (Recovery.put_backup p m headers req)
  unfolding Recovery.put_backup run
  put_backup-Within headers req =
      search
        (
          guards,
          decode_bundle-Within,
          λ (u : ℕ) (b : BackupUpload).
              steps.stores_or_internal (Pairing.store_backup m.now_unix u b)
                (Calls.put_bundle m.now_unix u b) (λ s. refl),
        )
        depth 30

  pub restore_begin-Within :
      ((phone code : Text) → Within R (check_code p m phone code))
      → (phone code : Text) → Within R (Recovery.restore_begin p m phone code)
  unfolding Recovery.restore_begin Recovery.open_restore run
  restore_begin-Within coded phone code =
      search
        (
          guards,
          coded,
          create_session-Within,
          λ (u : ℕ).
              steps.stores
                (λ s. (
                  Sessions.create_restore_token m.now_unix m.restore_token u restore_token_ttl_secs
                      s,
                  tt,
                ))
                (Calls.new_restore_token m.now_unix m.restore_token u restore_token_ttl_secs)
                (λ s. refl),
        )
        depth 30

  pub answer-Within : (token : Text) (v : RestoreVerdict) → Within R (answer p m token v)
  unfolding answer run
  answer-Within token (match row) =
      search
        (
          plain,
          steps.stores (λ s. (Sessions.consume_restore_token token s, tt))
              (Calls.drop_restore_token token) (λ s. refl),
        )
        depth 30
  answer-Within token (wrong_pin n) = search plain depth 30
  answer-Within token wrong_phrase = search plain depth 30
  answer-Within token (locked until) = search plain depth 30

  pub read_token-Within :
      (token : Text) → Within R (stored (Sessions.restore_token_user m.now_unix token))
  unfolding run
  read_token-Within token =
      steps.stores (Sessions.restore_token_user m.now_unix token)
        (Calls.read_restore_token m.now_unix token) (λ s. refl)

  pub prove-Within :
      (u : ℕ) (proof : List ℕ) (is_pin : Bool) → Within R (stored (prove m u proof is_pin))
  unfolding prove run
  prove-Within u proof is_pin =
      steps.stores (prove m u proof is_pin)
        (Calls.prove u (record { now = m.now_unix; auth = proof; is_pin = is_pin })) (λ s. refl)

  pub restore_complete-Within :
      (token method auth : Text) → Within R (Recovery.restore_complete p m token method auth)
  unfolding Recovery.restore_complete Recovery.open_bundle
  restore_complete-Within token method auth =
      search (plain, answer-Within, read_token-Within, prove-Within) depth 30
