-- ===== src/Directory/RateLimit.antt =====
-- directory/src/ratelimit.rs. An `Instant` is a number of nanoseconds; `phone_rate_key` and the hash
-- of an address are keys that the caller gives.
pub mod Windows
use rosette.Prelude.{
  ℕ, ◌+◌, ◌-◌, ◌%◌, ◌^◌, List, [], ◌∷◌, Bool, true, false, ◌&&◌, Option, none, some, ◌≡◌, refl, leb,
  ◌==◌, if◌then◌else◌, arith,
}

pub data Bucket : Type 0 where
  caller phone ip : Bucket

abbrev pub verified_search_per_minute : ℕ
verified_search_per_minute = 30

abbrev pub unverified_search_per_minute : ℕ
unverified_search_per_minute = 5

abbrev pub verify_attempts_per_minute : ℕ
verify_attempts_per_minute = 5

abbrev pub unauth_requests_per_minute_per_ip : ℕ
unauth_requests_per_minute_per_ip = 30

abbrev pub same_bucket : Bucket → Bucket → Bool
same_bucket caller caller = true
same_bucket phone phone = true
same_bucket ip ip = true
same_bucket _ _ = false

pub record Window : Type 0 where
  pub count : ℕ
  pub started : ℕ

-- `HashMap<(Bucket, u64), Window>`
abbrev pub RateLimiter : Type 0
RateLimiter = List ((Bucket × ℕ) × Window)

unfoldable pub lookup : Bucket → ℕ → RateLimiter → Option Window
lookup b k [] = none
lookup b k (((c, j), w) ∷ m) = if same_bucket c b && j == k then some w else lookup b k m

unfoldable pub insert : Bucket → ℕ → Window → RateLimiter → RateLimiter
insert b k v [] = ((b, k), v) ∷ []
insert b k v (((c, j), w) ∷ m) =
    if same_bucket c b && j == k then ((b, k), v) ∷ m else ((c, j), w) ∷ insert b k v m

-- `Duration::from_secs(60)` in nanoseconds
abbrev pub minute : ℕ
minute = 60_000_000_000

-- `entry(key).or_insert_with(…)`
abbrev pub or_fresh : ℕ → Option Window → Window
or_fresh now none = record { count = 0; started = now }
or_fresh now (some w) = w

unfoldable pub bump_window : ℕ → ℕ → Window → Window × Bool
bump_window now limit w =
    let r = if leb minute (now - w.started) then record { count = 0; started = now } else w in
    if leb limit r.count then (r, false) else (record r { count = (r.count + 1) % 2 ^ 32 }, true)

unfoldable pub bump : ℕ → Bucket → ℕ → ℕ → RateLimiter → RateLimiter × Bool
unfolding bump_window
bump now bucket key limit_per_minute windows =
    let (w, passed) = bump_window now limit_per_minute (or_fresh now (lookup bucket key windows)) in
    (insert bucket key w windows, passed)

unfoldable pub check_and_bump : ℕ → ℕ → ℕ → RateLimiter → RateLimiter × Bool
check_and_bump now caller_id limit_per_minute = bump now caller caller_id limit_per_minute

unfoldable pub check_and_bump_phone : ℕ → ℕ → ℕ → RateLimiter → RateLimiter × Bool
check_and_bump_phone now phone_key limit_per_minute = bump now phone phone_key limit_per_minute

unfoldable pub check_and_bump_ip : ℕ → ℕ → ℕ → RateLimiter → RateLimiter × Bool
check_and_bump_ip now ip_key limit_per_minute = bump now ip ip_key limit_per_minute

pub lookup-insert :
    (b c : Bucket) (k j : ℕ) (v : Window) (m : RateLimiter)
    → lookup c j (insert b k v m) ≡ (if same_bucket b c && k == j then some v else lookup c j m)
unfolding lookup insert
lookup-insert b c k j v [] = refl
lookup-insert b c k j v (((d, i), w) ∷ m) = ground (arith, lookup-insert b c k j v m)
