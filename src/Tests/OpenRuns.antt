-- ===== src/Tests/OpenRuns.antt =====
-- A relay with a database, that is killed and opened again.
use rosette.Prelude.{ℕ, ◌-◌, ◌^◌, [], ◌∷◌, none, some, ◌≡◌, refl, arith}
use rosette.Prelude.Map.{lookup, insert, erase, retain_values, has_key}
use rosette.Proto.Pow.{verify, leading_zero_bits}
use rosette.Proto.Auth.{verify_tag, compute_tag}
use rosette.Proto.Wire.{
  ServerMessage, send_to_mailbox, request_pow_challenge, create_mailbox, pow_challenge,
  queue_created, commit,
}
use rosette.Relay.State.{Inner, Db, integer, real, new}
use rosette.Relay.Limits.{check_and_bump_rate_limit, would_exceed_storage_bound}
use rosette.Relay.Gate.{consume_attestation, consume_pow, issue_pow_challenge, evict, evict_oldest}
use rosette.Relay.Queues.Create as Create
use rosette.Relay.Queues.Create.{fresh_queue_id, admit, add_mailbox}
use rosette.Relay.Queues.Push.{store, notify, push_and_notify}
use rosette.Relay.Queues.Mailbox as Mailbox
use rosette.Relay.Queues.Mailbox.{check_mailbox, store_in_mailbox, send_limited}
use rosette.Relay.Handle.{handle}
use rosette.Relay.Handle.History.{History, Event, start, call}
use rosette.Relay.Open.{open_state}
use rosette.Relay.Open.Restored.{refreshed_at, reopen_restores}
use rosette.Relay.Open.Overflowed.{overflowed_epoch_stops_open}
use rosette.Relay.Queues.Group.{persist_group}
use rosette.Relay.Persist.{roster_rows, pending_rows}
use rosette.Relay.Persist.Below.{IsPersisted}
use rosette.Tests.Fixture.{toy, toy_codec, toy_codec_law, at, letter, solution, after}

abbrev empty_tables : Db
empty_tables = record { queues = []; roster = []; pending = [] }

abbrev first_state : Inner
first_state = record new { db = some empty_tables }

first_state-IsPersisted : IsPersisted toy_codec 1 first_state
unfolding lookup roster_rows pending_rows
first_state-IsPersisted = record {
  tables = empty_tables;
  has = refl;
  mirrors = λ q. record { row = refl; roster = refl; pending = refl; own = tt };
  below = tt;
}

abbrev asked : Event
asked = record {
  env = at 1;
  message = request_pow_challenge;
  push_tx = none;
  reply = pow_challenge (record { challenge = 5; difficulty = 16 });
}

abbrev made : Event
made = record {
  env = at 2;
  message = create_mailbox solution none;
  push_tx = none;
  reply = queue_created 7 11;
}

abbrev wrote : Event
wrote = record {
  env = at 3;
  message = send_to_mailbox 7 42 (letter 20);
  push_tx = none;
  reply = ServerMessage.ok;
}

abbrev after_asked : Inner
after_asked = after (at 1) request_pow_challenge first_state

abbrev after_made : Inner
after_made = after (at 2) (create_mailbox solution none) after_asked

abbrev after_wrote : Inner
after_wrote = after (at 3) (send_to_mailbox 7 42 (letter 20)) after_made

first_day : History toy first_state (wrote ∷ made ∷ asked ∷ []) after_wrote
unfolding lookup insert erase retain_values has_key verify leading_zero_bits verify_tag compute_tag
    check_and_bump_rate_limit would_exceed_storage_bound consume_attestation consume_pow
    issue_pow_challenge evict evict_oldest fresh_queue_id admit add_mailbox Create.create_mailbox
    store notify push_and_notify check_mailbox store_in_mailbox send_limited Mailbox.send_to_mailbox
    handle after
first_day =
    call after_wrote wrote (call after_made made (call after_asked asked start refl) refl) refl

reopen_restores_example :
    (db : Db) × (s : Inner) × (after_wrote.db ≡ some db)
    × (open_state toy_codec 90 db ≡ some s)
    × IsPersisted toy_codec 4 s
    × ((q : ℕ) → lookup q s.queues ≡ refreshed_at 90 (lookup q after_wrote.queues))
reopen_restores_example =
    reopen_restores toy toy_codec_law 90 1 first_state-IsPersisted
      (omega arith, (omega arith, (omega arith, tt))) (omega arith) first_day

-- An inbox with the largest epoch.
abbrev full_tables : Db
full_tables = record {
  queues = (9, record { send_key = 1; epoch = integer (2 ^ 63 - 1) }) ∷ [];
  roster = [];
  pending = [];
}

overflowed_epoch_stops_open_example :
    let db = persist_group toy_codec 9 (commit 5) (7 ∷ []) (letter 20) full_tables in
    (lookup 9 db.queues ≡ some (record { send_key = 1; epoch = real }))
    × (open_state toy_codec 90 db ≡ none)
overflowed_epoch_stops_open_example =
    overflowed_epoch_stops_open toy_codec 90 9 5 1 (7 ∷ []) (letter 20) full_tables
      (unfold lookup in refl)
