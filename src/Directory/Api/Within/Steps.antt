-- ===== src/Directory/Api/Within/Steps.antt =====
-- The steps that the handlers of directory/src/api.rs share, for any relation between the states.
use rosette.Directory.Api.Guards.{throttle_ip, throttle_search, authenticate, client_ip}
use rosette.Prelude.{ℕ, Bool, true, false, Option, ◌≡◌}
use rosette.Prelude.Text.{Text}
use rosette.Directory.Store.{Store}
use rosette.Directory.Store.Calls.{StoreCall, run, or_same}
use rosette.Directory.Api.{Primitives, Moment, Headers, stored, stored_or_internal, throttle}
use rosette.Directory.Api.Discovery.{search_hash}
use rosette.Directory.Api.Within.{Change, Within, plain, stored-Within, map_err-Within}
use rosette.Directory.RateLimit.{check_and_bump, check_and_bump_ip}
use rosette.Directory.Api.{Primitives}
use rosette.Directory.Api.Discovery.{search_hash}

-- The steps of which every handler is made, but for the guard by number and the check of a code.
pub record Steps (R : Change) : Type 1 where
  pub stores :
      {A : Type 0} (f : Store → Store × A) (call : StoreCall)
      → ((s : Store) → (f s).0 ≡ run call s)
      → Within R (stored f)
  pub stores_or_internal :
      (f : Store → Option Store) (call : StoreCall)
      → ((s : Store) → or_same s (f s) ≡ run call s)
      → Within R (stored_or_internal f)
  pub throttles_ip : (now key limit : ℕ) → Within R (throttle (check_and_bump_ip now key limit))
  pub throttles_caller : (now key limit : ℕ) → Within R (throttle (check_and_bump now key limit))

module _ {R : Change} where
  pub authenticate-Within : (m : Moment) (headers : Headers) → Within R (authenticate m headers)
  unfolding authenticate
  authenticate-Within m headers = search plain depth 30

  pub search_hash-Within : (on : Bool) (hash : Option Text) → Within R (search_hash on hash)
  unfolding search_hash
  search_hash-Within true hash = search plain depth 30
  search_hash-Within false hash = search plain depth 30

  pub throttle_search-Within : Steps R → (m : Moment) (u : ℕ) → Within R (throttle_search m u)
  unfolding throttle_search
  throttle_search-Within steps m u = search (plain, steps.throttles_caller) depth 30

  pub throttle_ip-Within :
      Steps R
      → (p : Primitives) (m : Moment) (headers : Headers) (peer : ℕ)
      → Within R (throttle_ip p m headers peer)
  unfolding throttle_ip
  throttle_ip-Within steps p m headers peer =
      steps.throttles_ip m.instant (p.hash_ip (client_ip p headers peer)) _

pub ruleset guards =
    (plain, authenticate-Within, search_hash-Within, throttle_search-Within, throttle_ip-Within)
