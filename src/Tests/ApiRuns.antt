-- ===== src/Tests/ApiRuns.antt =====
-- The directory's tables and HTTP service at concrete inputs.
use rosette.Directory.Api.Guards.{throttle_ip, authenticate, bearer, client_ip, or_peer, trim}
use rosette.Prelude.{[], ◌∷◌, none, some, arith, true}
use rosette.Prelude.Text.{Text}
use rosette.Prelude.Map.{lookup}
use rosette.Directory.Verify.{dev_otp_vendor, dev_otp_code}
use rosette.Directory.Store.{empty_store}
use rosette.Directory.Store.Calls as Calls
use rosette.Directory.Store.Calls.{StoreCall, run_all}
use rosette.Directory.Store.Invariant.{IsWellFormed}
use rosette.Directory.Store.Invariant.Writes.{run_all-IsWellFormed}
use rosette.Directory.Api.{AppState}
use rosette.Directory.Api.Requests as Requests
use rosette.Directory.Api.Requests.{Request, serve_all}
use rosette.Directory.Api.Reach.Sequences.{serve_all-IsWellFormed}
use rosette.Prelude.{◌++◌, ◌≡◌, ◌≤◌, ◌+◌, ltb, map, ==_iff, refl, inr, false}
use rosette.Prelude.Int.{pos}
use rosette.Prelude.Text.{remove}
use rosette.Prelude.Map.{has_key}
use rosette.Proto.Error.{ok}
use rosette.Proto.Attestation.{VerifiesSigned, sign}
use rosette.Relay.Gate.{consume_attestation}
use rosette.Tests.Fixture.{toy, toy_ed, at}
use rosette.Directory.RateLimit.{check_and_bump_ip, check_and_bump_phone, bump, bump_window}
use rosette.Directory.RateLimit as Limit
use rosette.Directory.Backup.{
  Backup, verify_backup_auth, verify_row, is_locked, ct_eq, fold_differences,
}
use rosette.Directory.Verify.{verify_phone, phone_hash, lower_hex}
use rosette.Directory.Store.{RestoreToken}
use rosette.Directory.Store.Users.{is_phone_in_cooldown, cools, mark_verified, update_user}
use rosette.Directory.Store.Sessions.{restore_token_user, consume_restore_token}
use rosette.Directory.Attestation.{mint_batch, draws, token_ttl_secs}
use rosette.Directory.Attestation.Accepted.{minted_tokens_accepted}
use rosette.Directory.Api.{ensure, stored, stored_or_internal, map_err, throttle}
use rosette.Directory.Api.Accounts as Accounts
use rosette.Directory.Api.Accounts.{check_code, open_session}
use rosette.Directory.Api.Recovery.{
  restore_complete, open_bundle, encode_bundle, is_pin_method, prove, answer,
}
use rosette.Directory.Api.SignIn.{IsSignedIn}
use rosette.Directory.Api.SignIn.Approved.{verify_handler_signs_in}
use rosette.Directory.Api.Restored.{IsProven, restore_complete_proven}
use rosette.Prelude.Text.{get, put, text_eq}
use rosette.Prelude.Map.{insert}
use rosette.Directory.Username.{len_utf8}
use rosette.Directory.Verify.{normalize_e164, all_digits}
use rosette.Directory.Store.Users.{find_or_create_pending_user, find_where}
use rosette.Directory.Store.Sessions.{create_session, session_user_id}
use rosette.Directory.Store.Calls.{run}
use rosette.Directory.Store.Gone.{IsUnreachable}
use rosette.Directory.Api.{◌>>=◌, ok_or, pure, raise, gets}
use rosette.Directory.Api.Requests.{serve}
use rosette.Directory.Api.Deleted.{delete_account_for_good}
use rosette.Directory.Api.Guesses.{asked_about}
use rosette.Directory.Api.Guesses.Budget.{checks_in_a_minute}
use rosette.Directory.Api.Unlimited.{restore_begin-unlimited}
use rosette.Directory.Api.ClientIp.{client_ip_unforgeable}
use rosette.Tests.Accounts.{
  hash, primitives, moment, app, number, anonymous, requests, token, bearer_token, signed_in, tries,
  guarded_relay, secret, bundle, backed_up, with_pin,
}

empty_store-IsWellFormed : IsWellFormed empty_store
unfolding lookup
empty_store-IsWellFormed = record {
  distinct = tt;
  issued = λ i u e. absurd (ground (arith, e));
  one_live = λ i j u v e f a b c. absurd (ground (arith, e));
  scrubbed = λ i u e l. absurd (ground (arith, e));
  one_holder = λ i j u v n d e f a b c g. absurd (ground (arith, e));
}

serve_all-IsWellFormed_example : IsWellFormed (serve_all primitives requests app).store
serve_all-IsWellFormed_example =
    serve_all-IsWellFormed primitives requests app empty_store-IsWellFormed

pub signed_in-IsWellFormed : IsWellFormed signed_in
signed_in-IsWellFormed =
    run_all-IsWellFormed (Calls.find_or_create 0 hash ∷ (Calls.new_session 0 token 1 ∷ []))
      empty_store empty_store-IsWellFormed

authenticated :
    authenticate (moment 4 []) bearer_token (record app { store = signed_in })
    ≡ (record app { store = signed_in }, inr 1)
unfolding run_all run authenticate ◌>>=◌ ok_or pure raise gets session_user_id bearer
    find_or_create_pending_user find_where create_session get put insert lookup text_eq
authenticated = refl

delete_account_for_good_example :
    IsUnreachable 1
      (serve_all primitives requests (
        serve primitives
          (moment 4 [])
          (Requests.delete_account bearer_token)
          (record app { store = signed_in }))).store
delete_account_for_good_example =
    delete_account_for_good primitives (moment 4 []) bearer_token (record app { store = signed_in })
      (record app { store = signed_in }) 1 requests signed_in-IsWellFormed authenticated

checks_in_a_minute_example :
    asked_about number (serve_all primitives tries app).checks ≤ asked_about number app.checks + 10
unfolding Requests.begins_restore
checks_in_a_minute_example =
    checks_in_a_minute primitives number 0 tries app
      ((omega arith, omega arith, refl), ((omega arith, omega arith, refl), tt))

valid : normalize_e164 number ≡ inr number
unfolding normalize_e164 all_digits len_utf8
valid = refl

restore_begin-unlimited_example :
    ((serve primitives (moment 5 token) (Requests.restore_begin number []) app).checks
      ≡ number ∷ app.checks)
    × ((serve primitives (moment 5 token) (Requests.restore_begin number []) app).rate_limiter
        ≡ app.rate_limiter)
restore_begin-unlimited_example =
    restore_begin-unlimited primitives (moment 5 token) number [] number app refl valid

client_ip_unforgeable_example :
    client_ip primitives
      (record { authorization = none; forwarded_for = some ((b'6' ∷ []) ++ (b',' ∷ (b'7' ∷ []))) })
      9
    ≡ or_peer (primitives.parse_ip (trim (b'7' ∷ []))) 9
client_ip_unforgeable_example =
    client_ip_unforgeable primitives none (b'6' ∷ []) (b'7' ∷ []) 9 (refl, tt)

abbrev verified : AppState
verified =
    (Accounts.verify_handler primitives (moment 2 token) anonymous 3 number dev_otp_code app).0

signs_in :
    Accounts.verify_handler primitives (moment 2 token) anonymous 3 number dev_otp_code app
    ≡ (verified, inr (1, token))
unfolding Accounts.verify_handler ◌>>=◌ ok_or pure raise gets ensure stored stored_or_internal
    map_err throttle throttle_ip client_ip check_and_bump_ip check_and_bump_phone bump bump_window
    Limit.lookup Limit.insert normalize_e164 all_digits len_utf8 check_code verify_phone
    dev_otp_vendor text_eq phone_hash lower_hex open_session is_phone_in_cooldown cools
    find_or_create_pending_user find_where mark_verified update_user create_session get put insert
    lookup
signs_in = refl

verify_handler_signs_in_example :
    (e164 : Text) × (hashed : Text) × (normalize_e164 number ≡ inr e164)
    × (dev_otp_vendor.verify e164 dev_otp_code ≡ inr true)
    × (phone_hash primitives.argon2id e164 app.pepper ≡ inr hashed)
    × (is_phone_in_cooldown 2 hashed app.store ≡ false)
    × IsSignedIn 2 hashed token 1 verified.store
verify_handler_signs_in_example =
    verify_handler_signs_in primitives (moment 2 token) anonymous 3 number dev_otp_code app verified
      (1, token) empty_store-IsWellFormed signs_in

toy_ed-verifies : VerifiesSigned toy_ed
toy_ed-verifies = record {
  parsed = λ sk msg. sk;
  from_slice-sign = λ sk msg. refl;
  verify-sign = λ sk msg. (==_iff sk sk).1 refl;
}

minted_tokens_accepted_example :
    (consume_attestation toy
      (at 9)
      (some (sign toy_ed 3 0 (pos (5 + token_ttl_secs))))
      guarded_relay).1
    ≡ ok tt
unfolding mint_batch draws has_key
minted_tokens_accepted_example =
    minted_tokens_accepted toy (at 9) guarded_relay 5 3 (λ n. n) []
      (map (λ nonce. sign toy_ed 3 nonce (pos (5 + token_ttl_secs))) (draws 19 (λ n. n + 1)))
      (sign toy_ed 3 0 (pos (5 + token_ttl_secs))) toy_ed-verifies refl refl refl refl

abbrev handed_out : AppState
handed_out = (restore_complete primitives (moment 9 []) token with_pin secret backed_up).0

hands_out :
    restore_complete primitives (moment 9 []) token with_pin secret backed_up
    ≡ (handed_out, inr (encode_bundle primitives bundle))
unfolding restore_complete open_bundle ◌>>=◌ ok_or pure raise gets ensure stored restore_token_user
    get remove text_eq is_pin_method prove verify_backup_auth verify_row is_locked ct_eq
    fold_differences answer consume_restore_token lookup insert
hands_out = refl

restore_complete_proven_example :
    (entry : RestoreToken) × (row : Backup) × (get token backed_up.store.restore_tokens
      ≡ some entry)
    × (ltb 9 entry.expires_at ≡ true)
    × IsProven primitives (moment 9 []) entry.user_id with_pin secret row backed_up.store
    × (encode_bundle primitives bundle ≡ encode_bundle primitives row.bundle)
    × (get token handed_out.store.restore_tokens ≡ none)
restore_complete_proven_example =
    restore_complete_proven primitives (moment 9 []) token with_pin secret backed_up handed_out
      (encode_bundle primitives bundle) hands_out
