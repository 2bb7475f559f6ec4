-- ===== src/Directory/Api/Guards.antt =====
-- The guards that handlers of directory/src/api.rs begin with: who calls, from where, and how often.
use rosette.Prelude.{ℕ, ◌==◌, [], ◌∷◌, Bool, true, false, ◌&&◌, if◌then◌else◌, Option, none, some}
use rosette.Prelude.Text.{is_whitespace, Text}
use rosette.Directory.RateLimit.{
  check_and_bump, check_and_bump_ip, unauth_requests_per_minute_per_ip, verified_search_per_minute,
  unverified_search_per_minute,
}
use rosette.Directory.Store.Sessions.{session_user_id}
use rosette.Directory.Store.Users.{is_verified}
use rosette.Directory.Api.{
  Primitives, Moment, Headers, Call, ◌>>=◌, gets, ok_or, throttle, unauthorized,
}

-- `&v[v.rfind(',') + 1..]`: what `rsplit(',').next()` is.
unfoldable pub last_entry : Text → Text → Text
last_entry entry [] = entry
last_entry entry (c ∷ cs) = if c == b',' then last_entry cs cs else last_entry entry cs

unfoldable pub trim_start : Text → Text
unfolding is_whitespace
trim_start [] = []
trim_start (c ∷ cs) = if is_whitespace c then trim_start cs else c ∷ cs

abbrev is_blank : Text → Bool
is_blank [] = true
is_blank (c ∷ cs) = false

unfoldable pub trim_end : Text → Text
unfolding is_whitespace
trim_end [] = []
trim_end (c ∷ cs) =
    let rest = trim_end cs in if is_whitespace c && is_blank rest then [] else c ∷ rest

unfoldable pub trim : Text → Text
unfolding trim_start trim_end
trim s = trim_end (trim_start s)

abbrev pub or_peer : Option ℕ → ℕ → ℕ
or_peer none peer = peer
or_peer (some ip) peer = ip

unfoldable pub client_ip : Primitives → Headers → ℕ → ℕ
unfolding last_entry trim
client_ip p headers peer = elim headers.forwarded_for [
  | none ↦ peer
  | some v ↦ or_peer (p.parse_ip (trim (last_entry v v))) peer
]

-- `strip_prefix("Bearer ")`
unfoldable pub bearer : Text → Option Text
bearer (c0 ∷ (c1 ∷ (c2 ∷ (c3 ∷ (c4 ∷ (c5 ∷ (c6 ∷ token))))))) =
    if c0 == b'B'
      && c1 == b'e'
      && c2 == b'a'
      && c3 == b'r'
      && c4 == b'e'
      && c5 == b'r'
      && c6 == b' '
    then some token
    else none
bearer _ = none

unfoldable pub authenticate : Moment → Headers → Call ℕ
unfolding bearer session_user_id
authenticate m headers = do
  value ← ok_or headers.authorization unauthorized
  token ← ok_or (bearer value) unauthorized
  user_id ← gets (λ app. session_user_id m.now_unix token app.store)
  ok_or user_id unauthorized

-- The guard of `/signup` and `/verify` by the caller's address.
unfoldable pub throttle_ip : Primitives → Moment → Headers → ℕ → Call (Unit {0})
unfolding client_ip check_and_bump_ip
throttle_ip p m headers peer = throttle (
    check_and_bump_ip m.instant (p.hash_ip (client_ip p headers peer))
      unauth_requests_per_minute_per_ip)

abbrev pub search_limit : Option Bool → ℕ
search_limit (some true) = verified_search_per_minute
search_limit _ = unverified_search_per_minute

-- The guard of `/search` and `/pairing-bootstrap/request`, whose limit is the caller's tier's.
unfoldable pub throttle_search : Moment → ℕ → Call (Unit {0})
unfolding is_verified check_and_bump
throttle_search m caller_id = do
  caller_verified ← gets (λ app. is_verified caller_id app.store)
  throttle (check_and_bump m.instant caller_id (search_limit caller_verified))
