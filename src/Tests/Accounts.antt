-- ===== src/Tests/Accounts.antt =====
-- A small directory for the tests: its tables, requests, and functions in place of other crates.
use rosette.Prelude.{ℕ, List, [], ◌∷◌, none, some, true}
use rosette.Prelude.Text.{Text}
use rosette.Directory.Verify.{dev_otp_vendor, dev_otp_code}
use rosette.Directory.Store.{empty_store}
use rosette.Directory.Store.Calls as Calls
use rosette.Directory.Store.Calls.{StoreCall, run_all}
use rosette.Directory.Api.{Primitives, Moment, AppState, Headers}
use rosette.Directory.Api.Requests as Requests
use rosette.Directory.Api.Requests.{Request, serve_all}
use rosette.Prelude.{replicate}
use rosette.Relay.State.{Inner, new}
use rosette.Directory.Backup.{BackupUpload}
use rosette.Directory.Store.{Store}
use rosette.Directory.Store.Calls.{run}
use rosette.Directory.Api.Requests.{serve}

abbrev pub hash : Text
hash = b'a' ∷ b'b' ∷ []

abbrev pub nickname : Text
nickname = b'a' ∷ b'n' ∷ b'n' ∷ []

abbrev pub calls : List StoreCall
calls =
    Calls.find_or_create 0 hash
    ∷ (Calls.claim 1 nickname ∷ (Calls.erase 5 1 ∷ (Calls.find_or_create 9 hash ∷ [])))

abbrev pub primitives : Primitives
primitives = record {
  parse_ip = λ s. none;
  hash_ip = λ ip. ip;
  phone_rate_key = λ s. 7;
  argon2id = λ pepper phone. some (171 ∷ 205 ∷ []);
  decode64 = λ s. some s;
  encode64 = λ s. s;
  ed25519 = record {
    verifying_key = λ k. k;
    sign = λ k msg. [];
    from_slice = λ sig. some 0;
    verify = λ k msg sig. true;
  };
}

abbrev pub moment : ℕ → Text → Moment
moment now token = record {
  now_unix = now;
  instant = now;
  vendor = dev_otp_vendor;
  session_token = token;
  restore_token = token;
  nonces = λ n. n;
}

abbrev pub app : AppState
app = record {
  store = empty_store;
  rate_limiter = [];
  pepper = [];
  config = record { accounts_enabled = true; search_enabled = true };
  attestation_key = none;
  checks = [];
}

abbrev pub number : Text
number = b'+' ∷ (b'1' ∷ (b'5' ∷ (b'5' ∷ (b'5' ∷ (b'1' ∷ (b'2' ∷ (b'3' ∷ (b'4' ∷ []))))))))

abbrev pub anonymous : Headers
anonymous = record { authorization = none; forwarded_for = none }

abbrev pub requests : List (Moment × Request)
requests =
    (moment 1 [], Requests.signup anonymous 3 number)
    ∷ ((moment 2 (b't' ∷ []), Requests.verify anonymous 3 number dev_otp_code)
        ∷ ((moment 3 [], Requests.restore_begin number dev_otp_code) ∷ []))

abbrev pub token : Text
token = b't' ∷ b'o' ∷ []

abbrev pub bearer_token : Headers
bearer_token = record {
  authorization = some (b'B' ∷ b'e' ∷ b'a' ∷ b'r' ∷ b'e' ∷ b'r' ∷ b' ' ∷ token);
  forwarded_for = none;
}

abbrev pub signed_in : Store
signed_in = run_all (Calls.find_or_create 0 hash ∷ (Calls.new_session 0 token 1 ∷ [])) empty_store

abbrev pub tries : List (Moment × Request)
tries =
    (moment 5 token, Requests.verify anonymous 3 number [])
    ∷ ((moment 6 token, Requests.verify anonymous 3 number []) ∷ [])

abbrev pub guarded_relay : Inner
guarded_relay = record new { attestation_key = some 3 }

abbrev pub secret : List ℕ
secret = replicate 32 7

abbrev pub bundle : BackupUpload
bundle = record {
  blob = 1 ∷ [];
  w_pin = [];
  salt_p = [];
  w_phrase = [];
  salt_f = [];
  auth_pin_hash = secret;
  salt_a = [];
  auth_phrase_hash = [];
  salt_pa = [];
}

abbrev pub backed_up : AppState
backed_up = record app {
  store = record empty_store {
    backups =
        (4, record { bundle = bundle; pin_attempts = 2; locked_until = none; updated_at = 0 }) ∷ [];
    restore_tokens = (token, record { user_id = 4; expires_at = 600 }) ∷ [];
  };
}

abbrev pub with_pin : Text
with_pin = b'p' ∷ b'i' ∷ b'n' ∷ []
