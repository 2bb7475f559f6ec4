-- ===== src/Relay/State.antt =====
-- The data of relay/src/state.rs, and the tables of its SQLite schema.
use rosette.Prelude.{ℕ, List, [], Option, none, Bool, ◌≡◌, refl, ◌⊎◌, inl, inr}
use rosette.Prelude.Int.{ℤ}
use rosette.Prelude.Map.{Map}
use rosette.Proto.Codec.{Codec}
use rosette.Proto.Envelope.{Envelope}
use rosette.Proto.Attestation.{Ed25519}

-- An entry of a mailbox: the message id and the envelope.
abbrev pub Pending : Type 0
Pending = ℕ × Envelope

pub data QueueKind : Type 0 where
  mailbox : List Pending → QueueKind
  -- epoch, fan_out_to
  group_inbox : ℕ → List ℕ → QueueKind

-- `window_started` is an `Instant`, in nanoseconds of the monotonic clock.
pub record QueueEntry : Type 0 where
  pub send_key : ℕ
  pub kind : QueueKind
  pub sent_this_minute : ℕ
  pub window_started : ℕ

-- The column `epoch`: NULL, an INTEGER of 64 bits with its sign, which is never negative here, or the
-- REAL that SQLite makes of a sum past the INTEGERs, whose value is not kept.
pub data EpochColumn : Type 0 where
  null : EpochColumn
  integer : ℕ → EpochColumn
  real : EpochColumn

-- A row of `queues`: `epoch` is NULL for a mailbox.
pub record QueueRow : Type 0 where
  pub send_key : ℕ
  pub epoch : EpochColumn

-- A row of `pending`, with the envelope as encoded bytes; a row of `roster`, whose `ord` is its
-- position among the rows of its inbox.
pub record PendingRow : Type 0 where
  pub queue_id : ℕ
  pub message_id : ℕ
  pub envelope : List ℕ

pub record RosterRow : Type 0 where
  pub inbox_id : ℕ
  pub member_queue : ℕ

-- `queues` by its primary key; `roster` in the order of `ord`; `pending` in the order of `seq`.
pub record Db : Type 0 where
  pub queues : Map QueueRow
  pub roster : List RosterRow
  pub pending : List PendingRow

-- What a channel to a connection carries: queue_id, message_id, envelope.
abbrev pub Push : Type 0
Push = ℕ × ℕ × Envelope

-- `pushed` is what the channels hold: each push with the channel that it went to, oldest first.
pub record Inner : Type 0 where
  pub queues : Map QueueEntry
  pub subscribers : Map (List ℕ)
  pub outstanding_challenges : Map ℕ
  pub challenge_order : List ℕ
  pub storage_bytes_used : ℕ
  pub db : Option Db
  pub attestation_key : Option ℕ
  pub spent_tokens : Map ℤ
  pub pushed : List (ℕ × Push)

-- `Inner::default()`, the state of `RelayState::new`
abbrev pub new : Inner
new = record {
  queues = [];
  subscribers = [];
  outstanding_challenges = [];
  challenge_order = [];
  storage_bytes_used = 0;
  db = none;
  attestation_key = none;
  spent_tokens = [];
  pushed = [];
}

-- The functions of other crates that the relay calls.
pub record Primitives : Type 0 where
  pub sha256 : List ℕ → List ℕ
  pub hmac : List ℕ → List ℕ → ℕ
  pub ed : Ed25519
  pub codec : Codec Envelope

-- What one call reads from outside: the monotonic clock, the wall clock in seconds (`now_unix`),
-- which channels are closed, and what `thread_rng` draws.
pub record Env : Type 0 where
  pub instant : ℕ
  pub unix : ℤ
  pub closed : ℕ → Bool
  pub challenge_draw : ℕ
  pub id_draws : List ℕ
  pub send_key_draw : ℕ

pub QueueKind-cases :
    (k : QueueKind)
    → ((pending : List Pending) × (k ≡ mailbox pending))
      ⊎ ((epoch : ℕ) × (roster : List ℕ) × (k ≡ group_inbox epoch roster))
QueueKind-cases (mailbox pending) = inl (pending, refl)
QueueKind-cases (group_inbox epoch roster) = inr (epoch, roster, refl)
