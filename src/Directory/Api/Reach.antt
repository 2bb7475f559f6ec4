-- ===== src/Directory/Api/Reach.antt =====
-- What the handlers of directory/src/api.rs do to the tables, as calls of directory/src/store.rs: the
-- relation, and the steps that the handlers share.
pub mod Sequences
use rosette.Directory.Api.Guards.{throttle_ip, throttle_search, authenticate}
use rosette.Prelude.{
  ℕ, List, [], ◌∷◌, ◌++◌, Bool, true, false, Option, none, some, ◌≡◌, refl, inl, inr, sym, ap, ◌∙◌,
  Option-cases,
}
use rosette.Prelude.Text.{Text}
use rosette.Directory.RateLimit.{RateLimiter}
use rosette.Directory.Verify.{verify_phone}
use rosette.Directory.Backup.{BackupUpload, RestoreVerdict, match, wrong_pin, wrong_phrase, locked}
use rosette.Directory.Store.{Store}
use rosette.Directory.Store.Calls.{StoreCall, run, run_all, or_same}
use rosette.Directory.Store.Calls as Calls
use rosette.Directory.Store.Users as Users
use rosette.Directory.Store.Handles as Handles
use rosette.Directory.Store.Sessions as Sessions
use rosette.Directory.Store.Pairing as Pairing
use rosette.Directory.Store.Erasure as Erasure
use rosette.Directory.Api.{
  AppState, Primitives, Moment, Headers, Call, stored, stored_or_internal, throttle,
}
use rosette.Directory.Api.Accounts as Accounts
use rosette.Directory.Api.Accounts.{check_code, of_verify}
use rosette.Directory.Api.Discovery as Discovery
use rosette.Directory.Api.Discovery.{search_hash}
use rosette.Directory.Api.Recovery as Recovery
use rosette.Directory.Api.Recovery.{
  BackupTexts, decode_bundle, prove, answer, restore_token_ttl_secs,
}
use rosette.Directory.Api.Within.{Change, Within, plain, stored-Within, map_err-Within}
use rosette.Directory.Verify.{verify_phone}
use rosette.Directory.Api.{Primitives}
use rosette.Directory.Api.Accounts.{check_code, of_verify}
use rosette.Directory.Api.Within.{map_err-Within}
use rosette.Directory.Api.Within.Steps.{Steps}

pub run_all-append :
    (xs ys : List StoreCall) (s : Store) → run_all (xs ++ ys) s ≡ run_all ys (run_all xs s)
unfolding run_all
run_all-append [] ys s = refl
run_all-append (x ∷ xs) ys s = run_all-append xs ys (run x s)

-- Calls of the store, in some order, that explain a change of the tables.
abbrev pub Reaches : AppState → AppState → Type 0
Reaches app app' = (calls : List StoreCall) × (app'.store ≡ run_all calls app.store)

pub run_all-nil : (s : Store) → s ≡ run_all [] s
unfolding run_all
run_all-nil s = refl

pub reach_chain : (a b c : AppState) → Reaches a b → Reaches b c → Reaches a c
reach_chain a b c (xs, e) (ys, f) =
    (xs ++ ys, f ∙ ap (run_all ys) e ∙ sym (run_all-append xs ys a.store))

abbrev pub by_calls : Change
by_calls = record {
  relates = Reaches;
  same = λ app. ([], run_all-nil app.store);
  chain = reach_chain;
}

reach_by :
    (call : StoreCall) (app app' : AppState) → app'.store ≡ run call app.store → Reaches app app'
unfolding run_all
reach_by call app app' e = (call ∷ [], e)

pub reach_stored :
    {A : Type 0} (f : Store → Store × A) (call : StoreCall)
    → ((s : Store) → (f s).0 ≡ run call s)
    → Within by_calls (stored f)
reach_stored f call e =
    stored-Within f
      (λ app. reach_by call app (record app { store = (f app.store).0 }) (e app.store))

pub reach_or_internal :
    (f : Store → Option Store) (call : StoreCall)
    → ((s : Store) → or_same s (f s) ≡ run call s)
    → Within by_calls (stored_or_internal f)
unfolding stored_or_internal
reach_or_internal f call e = record {
  change = λ app. elim (Option-cases (f app.store)) [
    | inl broken ↦ rw broken ([], run_all-nil app.store)
    | inr (s, done) ↦ rw done (
        reach_by call app (record app { store = s })
          (sym (ap (or_same app.store) done) ∙ e app.store))
  ];
}

pub throttle-Reaches : (f : RateLimiter → RateLimiter × Bool) → Within by_calls (throttle f)
unfolding throttle
throttle-Reaches f = record { change = λ app. ([], run_all-nil app.store) }

pub check_code-Reaches :
    (p : Primitives) (m : Moment) (phone code : Text) → Within by_calls (check_code p m phone code)
unfolding check_code
check_code-Reaches p m phone code = record {
  change = λ app.
      (map_err-Within {R = by_calls} (verify_phone p.argon2id m.vendor phone code app.pepper)
          of_verify).change
        _;
}

abbrev pub by_calls_steps : Steps by_calls
by_calls_steps = record {
  stores = reach_stored;
  stores_or_internal = reach_or_internal;
  throttles_ip = λ now key limit. throttle-Reaches _;
  throttles_caller = λ now key limit. throttle-Reaches _;
}
