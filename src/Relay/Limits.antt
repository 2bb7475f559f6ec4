-- ===== src/Relay/Limits.antt =====
-- The rate limit of a queue and the storage bound.
use rosette.Prelude.{ℕ, ◌+◌, ◌-◌, ◌*◌, ◌%◌, ◌^◌, min, Bool, ltb, leb, if◌then◌else◌}
use rosette.Proto.Limits.{rate_limit_per_queue_per_minute, max_storage_bytes}
use rosette.Proto.Error.{Result, ok, err, rate_limited}
use rosette.Prelude.Map.{insert}
use rosette.Relay.State.{QueueEntry, Inner, Env}

-- `Duration::from_secs(60)` in nanoseconds
abbrev pub minute : ℕ
minute = 60_000_000_000

-- `elapsed` is 0 where the window began after the present.
unfoldable pub roll_window : ℕ → QueueEntry → QueueEntry
roll_window now e =
    if leb minute (now - e.window_started)
    then record e { window_started = now; sent_this_minute = 0 }
    else e

-- The entry as it is left, and whether the send passes.
unfoldable pub check_and_bump_rate_limit : ℕ → QueueEntry → QueueEntry × Result (Unit {0})
unfolding roll_window
check_and_bump_rate_limit now entry =
    let e = roll_window now entry in
    if leb rate_limit_per_queue_per_minute e.sent_this_minute
    then (e, err rate_limited)
    else (record e { sent_this_minute = (e.sent_this_minute + 1) % 2 ^ 32 }, ok tt)

-- The relay after a send to a queue has been counted against its rate limit.
abbrev pub counted : Env → ℕ → QueueEntry → Inner → Inner
counted env q entry s = record s {
  queues = insert q (check_and_bump_rate_limit env.instant entry).0 s.queues;
}

-- `saturating_add` of `u64`
unfoldable pub saturating_add : ℕ → ℕ → ℕ
saturating_add a b = min (a + b) (2 ^ 64 - 1)

unfoldable pub would_exceed_storage_bound : Inner → ℕ → ℕ → Bool
unfolding saturating_add
would_exceed_storage_bound s envelope_len targets =
    let incoming = (envelope_len * targets) % 2 ^ 64 in
    ltb max_storage_bytes (saturating_add s.storage_bytes_used incoming)
