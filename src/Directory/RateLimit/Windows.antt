-- ===== src/Directory/RateLimit/Windows.antt =====
-- Calls of the limiter of directory/src/ratelimit.rs, at one key and at several.
use rosette.Prelude.{
  ℕ, ◌+◌, ◌-◌, ◌^◌, ◌≤◌, ◌<◌, min, List, [], ◌∷◌, ◌≡◌, refl, arith, All, Bool, true, false, length,
  ◌==◌, ◌&&◌, none, some,
}
use rosette.Directory.RateLimit.{
  RateLimiter, Window, Bucket, minute, bump_window, bump, lookup, lookup-insert, or_fresh,
  same_bucket, caller, phone, ip,
}

-- A call at a key leaves every other key as it was, whichever of the bucket and the number differs:
-- a later call there has the answer that it would have had.
pub bump_independent :
    (now later : ℕ) (b c : Bucket) (k j limit limit' : ℕ) (m : RateLimiter)
    → (same_bucket b c && k == j) ≡ false
    → (lookup c j (bump now b k limit m).0 ≡ lookup c j m)
      × ((bump later c j limit' (bump now b k limit m).0).1 ≡ (bump later c j limit' m).1)
unfolding bump
bump_independent now later b c k j limit limit' m h =
    ground (arith, lookup-insert b c k j (bump_window now limit (or_fresh now (lookup b k m))).0 m)

abbrev as_number : Bool → ℕ
as_number true = 1
as_number false = 0

-- How many of the calls at the given times, oldest first, one key lets through.
unfoldable pub allowed : ℕ → Bucket → ℕ → List ℕ → RateLimiter → ℕ
allowed limit b k [] m = 0
allowed limit b k (now ∷ times) m =
    as_number (bump now b k limit m).1 + allowed limit b k times (bump now b k limit m).0

same_bucket_refl : (b : Bucket) → same_bucket b b ≡ true
same_bucket_refl caller = refl
same_bucket_refl phone = refl
same_bucket_refl ip = refl

allowed_in_window :
    (limit : ℕ) (b : Bucket) (k : ℕ) (times : List ℕ) (m : RateLimiter) (w : Window)
    → limit < 2 ^ 32
    → lookup b k m ≡ some w
    → w.count ≤ limit
    → All (λ now. now < w.started + minute) times
    → allowed limit b k times m ≡ min (length times) (limit - w.count)
unfolding allowed bump
allowed_in_window limit b k [] m w f e c h = omega arith
allowed_in_window limit b k (now ∷ times) m w f e c h = ground (
  arith,
  same_bucket_refl b,
  lookup-insert b b k k (bump_window now limit w).0 m,
  allowed_in_window limit b k times (bump now b k limit m).0 w f,
  allowed_in_window limit b k times (bump now b k limit m).0 (record w { count = w.count + 1 }) f,
)

-- For a key with no window yet and a limit below 2^32, of any calls that come before a minute after
-- the first has passed exactly the limit pass, or all of them if they are fewer.
pub allowed_exactly :
    (limit : ℕ) (b : Bucket) (k first : ℕ) (times : List ℕ) (m : RateLimiter)
    → limit < 2 ^ 32
    → lookup b k m ≡ none
    → All (λ now. now < first + minute) times
    → allowed limit b k (first ∷ times) m ≡ min (length (first ∷ times)) limit
unfolding allowed bump
allowed_exactly limit b k first times m f e h = ground (
  arith,
  same_bucket_refl b,
  lookup-insert b b k k (bump_window first limit (record { count = 0; started = first })).0 m,
  allowed_in_window limit b k times (bump first b k limit m).0
      (record { count = 0; started = first }) f,
  allowed_in_window limit b k times (bump first b k limit m).0
      (record { count = 1; started = first }) f,
)
