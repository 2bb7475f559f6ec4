-- ===== src/Relay/Rate/Windows.antt =====
-- How many sends the window of a queue lets through.
use mathlib.Core.List.{append-nil}
use rosette.Prelude.{
  ℕ, zero, suc, ◌+◌, ◌-◌, ◌*◌, ◌≤◌, ◌<◌, List, [], ◌∷◌, ◌++◌, ◌≡◌, refl, arith, All, replicate,
  Bool-cases, inl, inr, leb, ◌∙◌, ap, sym,
}
use rosette.Proto.Limits.{rate_limit_per_queue_per_minute}
use rosette.Proto.Error.{Result, ok, err}
use rosette.Relay.State.{QueueEntry}
use rosette.Relay.Limits.{minute, check_and_bump_rate_limit}

abbrev passes : Result (Unit {0}) → ℕ
passes (ok _) = 1
passes (err _) = 0

-- The number of sends at the given times, oldest first, that the limit of an entry lets through.
unfoldable pub accepted_sends : List ℕ → QueueEntry → ℕ
accepted_sends [] e = 0
accepted_sends (now ∷ times) e =
    passes (check_and_bump_rate_limit now e).1
    + accepted_sends times (check_and_bump_rate_limit now e).0

-- While the window lasts, the sends use up what is left of it.
in_one_window :
    (times : List ℕ) (e : QueueEntry)
    → All (λ now. now < e.window_started + minute) times
    → e.sent_this_minute ≤ rate_limit_per_queue_per_minute
    → accepted_sends times e + e.sent_this_minute ≤ rate_limit_per_queue_per_minute
unfolding accepted_sends check_and_bump_rate_limit
in_one_window [] e h c = omega arith
in_one_window (now ∷ times) e h c = ground (
  arith,
  in_one_window times e h.1,
  in_one_window times (record e { sent_this_minute = e.sent_this_minute + 1 }) h.1,
)

All-mono_bound :
    (a b : ℕ) (times : List ℕ) → a ≤ b → All (λ now. now < a) times → All (λ now. now < b) times
All-mono_bound a b [] h all = tt
All-mono_bound a b (t ∷ times) h all = (omega arith, All-mono_bound a b times h all.1)

-- Whatever the window of a queue that is within its limit, of the sends whose times lie in any one
-- minute, in any order, at most twice `RATE_LIMIT_PER_QUEUE_PER_MINUTE` pass, less those that the
-- window has counted already.
pub sends_in_a_minute :
    (start : ℕ) (times : List ℕ) (e : QueueEntry)
    → All (λ now. start ≤ now) times
    → All (λ now. now < start + minute) times
    → e.sent_this_minute ≤ rate_limit_per_queue_per_minute
    → accepted_sends times e + e.sent_this_minute ≤ 2 * rate_limit_per_queue_per_minute
unfolding accepted_sends check_and_bump_rate_limit
sends_in_a_minute start [] e l h c = omega arith
sends_in_a_minute start (now ∷ times) e l h c =
    elim (Bool-cases (leb minute (now - e.window_started))) [
      | inl over ↦ ground (
        arith,
        in_one_window times (record e { window_started = now; sent_this_minute = 1 })
            (All-mono_bound (start + minute) (now + minute) times (omega arith) h.1),
      )
      | inr within ↦ ground (
        arith,
        sends_in_a_minute start times e l.1 h.1,
        sends_in_a_minute start times (record e { sent_this_minute = e.sent_this_minute + 1 }) l.1
            h.1,
      )
    ]

filled :
    (n t : ℕ) (rest : List ℕ) (e : QueueEntry)
    → t < e.window_started + minute
    → e.sent_this_minute + n ≤ rate_limit_per_queue_per_minute
    → accepted_sends (replicate n t ++ rest) e
      ≡ n + accepted_sends rest (record e { sent_this_minute = e.sent_this_minute + n })
unfolding accepted_sends check_and_bump_rate_limit
filled zero t rest e h c =
    let same : e.sent_this_minute + 0 ≡ e.sent_this_minute = omega arith in
    ground (arith, ap (λ k. accepted_sends rest (record e { sent_this_minute = k })) same)
filled (suc n) t rest e h c =
    let next : QueueEntry = record e { sent_this_minute = e.sent_this_minute + 1 } in
    let ih = filled n t rest next h (omega arith) in
    let same : next.sent_this_minute + n ≡ e.sent_this_minute + suc n = omega arith in
    ground (arith, ih, ap (λ k. accepted_sends rest (record e { sent_this_minute = k })) same)

rolled :
    (t : ℕ) (rest : List ℕ) (e : QueueEntry)
    → e.window_started + minute ≤ t
    → accepted_sends (t ∷ rest) e
      ≡ suc (accepted_sends rest (record e { window_started = t; sent_this_minute = 1 }))
unfolding accepted_sends check_and_bump_rate_limit
rolled t rest e h = ground arith

-- For a queue that has counted nothing, sixty sends in the last nanosecond of its window and sixty
-- more in the next nanosecond all pass.
pub burst_of_two_windows :
    (e : QueueEntry)
    → e.sent_this_minute ≡ 0
    → accepted_sends
        (replicate 60 (e.window_started + minute - 1) ++ replicate 60 (e.window_started + minute))
        e
      ≡ 120
burst_of_two_windows e z =
    let t : ℕ = e.window_started + minute in
    let full : QueueEntry = record e { sent_this_minute = e.sent_this_minute + 60 } in
    let fresh : QueueEntry = record e { window_started = t; sent_this_minute = 1 } in
    let first = filled 60 (t - 1) (replicate 60 t) e (omega arith) (omega arith) in
    let turn = rolled t (replicate 59 t) full (omega arith) in
    let second = filled 59 t [] fresh (omega arith) (omega arith) in
    let rest = append-nil (replicate 59 t) in
    let none_left : accepted_sends [] (record fresh { sent_this_minute = 60 }) ≡ 0 =
      unfold accepted_sends in refl in
    first
    ∙ ap (λ (k : ℕ). 60 + k)
        (turn
          ∙ ap suc (
              ap (λ l. accepted_sends l fresh) (sym rest)
              ∙ second
              ∙ ap (λ (k : ℕ). 59 + k) none_left))
