-- ===== src/Tests/EngineRuns.antt =====
-- A small engine that receives messages, at concrete inputs.
use rosette.Prelude.{
  ℕ, ◌+◌, ◌≤◌, suc, List, [], ◌∷◌, Option, none, some, true, false, ◌≡◌, refl, inl, inr, contains,
}
use rosette.Prelude.Text.{Text, text_eq, put}
use rosette.Prelude.Text as Rows
use rosette.Proto.Envelope.{Envelope}
use rosette.Core.Storage as Disk
use rosette.Core.Storage.{new_store, commit, write_all, mark_all, get}
use rosette.Engine.Receive.{
  Mls, ChatEngine, PersistedEngine, Incoming, AckResult, accepted, closed, application, persist,
  try_ack, surface, pump_push, pump_all, resume, engine_key, session_key, is_fine,
}
use rosette.Engine.Receive.Once.{count, bit, given, applied_at_most_once, failed_push_dropped}
use rosette.Engine.Receive.Durable.{IsSynced, acked_never_reapplied}
use rosette.Proto.Codec.{Codec}
use rosette.Tests.Fixture.{letter}

abbrev queues : PersistedEngine
queues = record {
  display_name = [];
  relay_addr = [];
  relay_fingerprint = 1;
  mailbox_qid = 8;
  mailbox_key = 2;
  inbox = none;
}

abbrev one_record : Codec PersistedEngine
one_record = record { encode = λ p. []; decode = λ bytes. inr queues }

abbrev read : List ℕ → Option Incoming
read [] = none
read (b ∷ bytes) = some (application bytes)

abbrev head : List ℕ → Option ℕ
head [] = none
head (b ∷ bytes) = some b

-- The session counts the messages that it is given, and fails on an empty one.
abbrev counter : Mls ℕ
counter = record {
  process_incoming = λ bytes n. (suc n, read bytes);
  epoch = λ n. some 3;
  snapshot = λ n. some (n ∷ []);
  restore = head;
}

abbrev fresh : ChatEngine ℕ
fresh = record {
  persisted = queues;
  session = 0;
  seen = [];
  pending_events = [];
  store = some new_store;
  applied = [];
  acked = [];
}

-- The push of message 21 fails.
abbrev pushes : List (AckResult × Envelope)
pushes =
    (accepted, record (letter 21) { padded_ciphertext = [] })
    ∷ (accepted, letter 20)
    ∷ (closed, letter 20)
    ∷ []

abbrev saved : ℕ → List (Text × List ℕ)
saved n = (engine_key, []) ∷ (session_key, n ∷ []) ∷ []

abbrev final_disk : Disk.Store
final_disk = commit (saved 2) (20 ∷ []) new_store

abbrev resumed : ChatEngine ℕ
resumed = record fresh { session = 2; seen = 20 ∷ []; store = some final_disk }

fresh-IsSynced : IsSynced one_record counter 20 fresh
fresh-IsSynced = record { disk = new_store; has = refl; kept = λ h. h; known = λ h. h }

final_store : (pump_all one_record counter pushes fresh).store ≡ some final_disk
unfolding pump_all pump_push surface persist try_ack
final_store = refl

resume_final : resume one_record counter final_disk ≡ some resumed
unfolding resume get Rows.get commit write_all mark_all put text_eq
resume_final = refl

acked_20 : contains 20 (pump_all one_record counter pushes fresh).acked ≡ true
unfolding pump_all pump_push surface persist try_ack
acked_20 = refl

acked_never_reapplied_example :
    count 20 (pump_all one_record counter ((accepted, letter 20) ∷ []) resumed).applied ≡ 0
unfolding pump_push surface persist try_ack
acked_never_reapplied_example =
    acked_never_reapplied one_record counter 20 pushes fresh fresh-IsSynced
      (inl refl, (inr refl, (inr refl, tt))) final_disk final_store resumed resume_final
      ((accepted, letter 20) ∷ []) acked_20

applied_at_most_once_example :
    count 20 (pump_all one_record counter pushes fresh).applied + bit (contains 20 []) ≤ 1
applied_at_most_once_example = applied_at_most_once one_record counter pushes fresh 20 refl

abbrev empty_letter : Envelope
empty_letter = record (letter 20) { padded_ciphertext = [] }

failed_push_dropped_example :
    (pump_push one_record counter accepted empty_letter fresh
      ≡ (given one_record counter empty_letter fresh, false))
    × (pump_push one_record counter accepted empty_letter
          (given one_record counter empty_letter fresh)
        ≡ (
          record (given one_record counter empty_letter fresh) { acked = 20 ∷ [] },
          is_fine one_record counter accepted,
        ))
failed_push_dropped_example =
    failed_push_dropped one_record counter accepted accepted empty_letter fresh refl refl
