-- ===== src/Tests/RelayRuns.antt =====
-- The relay's theorems at concrete histories.
use rosette.Prelude.{
  ℕ, ◌+◌, ◌-◌, ◌≤◌, List, [], ◌∷◌, ◌++◌, none, some, ◌≡◌, refl, inl, arith, true, length, replicate,
}
use rosette.Prelude.Map.{lookup, insert, erase, retain_values, has_key}
use rosette.Proto.Limits.{max_outstanding_pow_challenges}
use rosette.Proto.Error.{err, epoch_conflict, invalid_attestation, invalid_proof_of_work}
use rosette.Proto.Pow.{verify, leading_zero_bits}
use rosette.Proto.Auth.{compute_tag, verify_tag}
use rosette.Proto.Attestation.{signature_valid}
use rosette.Proto.Wire.{
  ClientMessage, ServerMessage, send_to_mailbox, send_to_group_inbox, request_pow_challenge,
  create_mailbox, commit, application, error, pow_challenge, queue_created,
}
use rosette.Relay.State.{Inner, new, group_inbox, mailbox, QueueEntry}
use rosette.Relay.Limits.{minute, check_and_bump_rate_limit, would_exceed_storage_bound}
use rosette.Relay.Gate.{
  consume_attestation, consume_pow, issue_pow_challenge, evict, evict_oldest, spend, check_token,
}
use rosette.Relay.Queues.Create as Create
use rosette.Relay.Queues.Create.{fresh_queue_id, admit, add_mailbox, add_group_inbox}
use rosette.Relay.Queues.Push.{store, notify, push_and_notify}
use rosette.Relay.Queues.Mailbox as Mailbox
use rosette.Relay.Queues.Mailbox.{check_mailbox, store_in_mailbox, send_limited}
use rosette.Relay.Queues.Group as Group
use rosette.Relay.Queues.Group.{
  stored_targets, advance, advance_epoch, fan_out, check_group, deliver_to_group, send_checked,
}
use rosette.Relay.Queues.Ack as Acks
use rosette.Relay.Queues.Ack.{freed_bytes, unacked}
use rosette.Relay.Handle.{handle}
use rosette.Relay.Handle.History.{History, Event, start, call}
use rosette.Relay.Epochs.Inbox.{Inbox, inbox_at}
use rosette.Relay.Epochs.Order.{accepted_commits, one_commit_per_epoch}
use rosette.Relay.Storage.Bound.{IsBounded, EventsFit, History-IsBounded}
use rosette.Relay.Admission.Challenges.{IsTracked, challenges_bounded, admit_spends_challenge}
use rosette.Relay.Admission.Tokens.{token_single_use}
use rosette.Relay.Delivery.Holds.{Holds}
use rosette.Relay.Delivery.Kept.{NoAck, kept_until_acked}
use rosette.Relay.Delivery.Fanned.{mailbox_at, times, fan_out_stores, send_to_mailbox_stores}
use rosette.Relay.Rate.Windows.{accepted_sends, sends_in_a_minute, burst_of_two_windows}
use rosette.Tests.Fixture.{toy, at, letter, group_relay, gated_relay, token, solution, after}

-- Everything that a call runs.
relay_code : Unit {0}
unfolding lookup insert erase retain_values has_key verify leading_zero_bits verify_tag compute_tag
    signature_valid check_and_bump_rate_limit would_exceed_storage_bound consume_attestation
    consume_pow issue_pow_challenge evict evict_oldest spend check_token fresh_queue_id admit
    add_mailbox add_group_inbox Create.create_mailbox Create.create_group_inbox store notify
    push_and_notify check_mailbox store_in_mailbox send_limited Mailbox.send_to_mailbox
    stored_targets advance advance_epoch fan_out check_group deliver_to_group send_checked
    Group.send_to_group_inbox freed_bytes unacked Acks.ack handle after
relay_code = tt

abbrev commit_of : ℕ → ℕ → ClientMessage
commit_of epoch mid = send_to_group_inbox 7 (commit epoch) 42 (letter mid)

abbrev winner : Event
winner = record { env = at 1; message = commit_of 3 20; push_tx = none; reply = ServerMessage.ok }

abbrev loser : Event
loser = record {
  env = at 2;
  message = commit_of 3 21;
  push_tx = none;
  reply = error epoch_conflict;
}

abbrev after_winner : Inner
after_winner = after (at 1) (commit_of 3 20) group_relay

abbrev after_loser : Inner
after_loser = after (at 2) (commit_of 3 21) after_winner

two_commits : History toy group_relay (loser ∷ winner ∷ []) after_loser
unfolding relay_code
two_commits = call after_loser loser (call after_winner winner start refl) refl

founding : Inbox
founding = record { send_key = 1; epoch = 3; roster = 8 ∷ 8 ∷ [] }

one_commit_per_epoch_example :
    (accepted_commits 7 (loser ∷ winner ∷ []) ≡ 3 ∷ [])
    × (inbox_at 7 after_loser.queues ≡ some (record founding { epoch = 4 }))
unfolding founding lookup
one_commit_per_epoch_example = one_commit_per_epoch toy 7 founding refl (omega arith) two_commits

noack : NoAck 8 20 (letter 20) (loser ∷ [])
noack = (tt, tt)

after_winner-Holds : Holds 8 20 (letter 20) after_winner
unfolding relay_code
after_winner-Holds = inl refl

one_more : History toy after_winner (loser ∷ []) after_loser
unfolding relay_code
one_more = call after_loser loser start refl

kept_until_acked_example : Holds 8 20 (letter 20) after_loser
kept_until_acked_example = kept_until_acked 8 20 (letter 20) toy after_winner-Holds noack one_more

-- A relay from its start: a challenge, a mailbox that solves it, and a message to that.
abbrev asked : Event
asked = record {
  env = at 1;
  message = request_pow_challenge;
  push_tx = none;
  reply = pow_challenge (record { challenge = 5; difficulty = 16 });
}

abbrev made : Event
made = record {
  env = at 2;
  message = create_mailbox solution none;
  push_tx = none;
  reply = queue_created 7 11;
}

abbrev wrote : Event
wrote = record {
  env = at 3;
  message = send_to_mailbox 7 42 (letter 20);
  push_tx = none;
  reply = ServerMessage.ok;
}

abbrev after_asked : Inner
after_asked = after (at 1) request_pow_challenge new

abbrev after_made : Inner
after_made = after (at 2) (create_mailbox solution none) after_asked

abbrev after_wrote : Inner
after_wrote = after (at 3) (send_to_mailbox 7 42 (letter 20)) after_made

first_day : History toy new (wrote ∷ made ∷ asked ∷ []) after_wrote
unfolding relay_code
first_day =
    call after_wrote wrote (call after_made made (call after_asked asked start refl) refl) refl

new-IsBounded : IsBounded new
unfolding lookup
new-IsBounded = record { exact = refl; bounded = omega arith; rosters = λ q. tt }

first_day_fits : EventsFit (wrote ∷ made ∷ asked ∷ [])
first_day_fits = (tt, (tt, (tt, tt)))

History-IsBounded_example : IsBounded after_wrote
History-IsBounded_example = History-IsBounded toy new-IsBounded first_day_fits first_day

new-IsTracked : IsTracked new
unfolding has_key
new-IsTracked = record { distinct = tt; listed = λ k h. h; bounded = omega arith }

challenges_bounded_example :
    IsTracked after_wrote
    × (length after_wrote.outstanding_challenges ≤ max_outstanding_pow_challenges)
challenges_bounded_example = challenges_bounded toy new-IsTracked first_day

admit_spends_challenge_example :
    (difficulty : ℕ) × (lookup 5 after_asked.outstanding_challenges ≡ some difficulty)
    × (verify toy.sha256 (record { challenge = 5; difficulty = difficulty }) solution ≡ true)
    × (lookup 5 (admit toy (at 2) solution none after_asked).0.outstanding_challenges ≡ none)
    × ((consume_pow toy
          (record { challenge = 5; nonce = 9 })
          (admit toy (at 2) solution none after_asked).0).1
        ≡ err invalid_proof_of_work)
admit_spends_challenge_example =
    admit_spends_challenge toy (at 2) solution none after_asked 9 (unfold relay_code in refl)

-- A token is shown twice to a relay that gates creation.
abbrev request : ℕ → Event
request t = record {
  env = at t;
  message = create_mailbox solution (some token);
  push_tx = none;
  reply = queue_created 7 11;
}

abbrev after_first : Inner
after_first = after (at 2) (create_mailbox solution (some token)) gated_relay

token_single_use_example :
    (u : Inner) × (handle toy (at 9) (create_mailbox solution (some token)) none after_first
      ≡ some (u, error invalid_attestation))
token_single_use_example =
    token_single_use toy token (request 2) (request 9) gated_relay after_first after_first 7 11 3 3
      refl refl (unfold relay_code in refl) tt start refl (unfold relay_code in refl) refl

send_to_mailbox_stores_example :
    mailbox_at 7 (Mailbox.send_to_mailbox toy (at 3) 7 42 (letter 20) after_made).0
    ≡ some ((20, letter 20) ∷ [])
send_to_mailbox_stores_example =
    send_to_mailbox_stores toy (at 3) 7 42 (letter 20) after_made 7 [] (unfold relay_code in refl)
      (unfold relay_code in refl)

fan_out_stores_example :
    (roster : List ℕ) × (entry : QueueEntry) × (epoch : ℕ) × (lookup 7 group_relay.queues
      ≡ some entry)
    × (entry.kind ≡ group_inbox epoch roster)
    × (mailbox_at 8
          (Group.send_to_group_inbox toy (at 1) 7 application 42 (letter 20) group_relay).0
        ≡ some (replicate (times 8 roster) (20, letter 20)))
fan_out_stores_example =
    fan_out_stores toy (at 1) 7 42 (letter 20) group_relay application 8 []
      (unfold relay_code in refl) (unfold relay_code in refl)

abbrev idle : QueueEntry
idle = record { send_key = 1; kind = mailbox []; sent_this_minute = 0; window_started = 0 }

sends_in_a_minute_example : accepted_sends (5 ∷ 7 ∷ []) idle + 0 ≤ 120
sends_in_a_minute_example =
    sends_in_a_minute 5 (5 ∷ 7 ∷ []) idle (omega arith, (omega arith, tt))
      (omega arith, (omega arith, tt)) (omega arith)

burst_of_two_windows_example :
    accepted_sends (replicate 60 (minute - 1) ++ replicate 60 minute) idle ≡ 120
burst_of_two_windows_example = burst_of_two_windows idle refl
