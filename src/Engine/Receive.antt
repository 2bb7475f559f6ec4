-- ===== src/Engine/Receive.antt =====
-- The receiving side of engine/src/chat_engine.rs: a push in `pump_one`, with `persist` and `try_ack`.
-- The MLS session is a parameter, and so is what the relay answers to an acknowledgement; the reasons of
-- errors are dropped. The connection is not modelled.
pub mod Once
pub mod Durable
use Prim.Native.String.{String}
use rosette.Prelude.{
  ℕ, List, [], ◌∷◌, ◌++◌, Bool, true, false, Option, none, some, contains, if◌then◌else◌, ◌⊎◌, inl,
  inr,
}
use rosette.Prelude.Text.{Text}
use rosette.Proto.Codec.{Codec}
use rosette.Proto.Envelope.{Envelope}
use rosette.Core.Storage as Disk
use rosette.Core.Storage.{commit, get, seen_ids}

-- `Incoming` of core/src/session.rs
pub data Incoming : Type 0 where
  application : List ℕ → Incoming
  commit_applied : Incoming

-- The session: `process_incoming`, which may leave a changed session where it fails, `epoch`, `snapshot`
-- and `restore`. `none` is a `SessionError`.
pub record Mls (S : Type 0) : Type 0 where
  pub process_incoming : List ℕ → S → S × Option Incoming
  pub epoch : S → Option ℕ
  pub snapshot : S → Option (List ℕ)
  pub restore : List ℕ → Option S

pub data Event : Type 0 where
  message : List ℕ → Event
  epoch_advanced : ℕ → Event
  connection_changed : Bool → Event

pub record PersistedEngine : Type 0 where
  pub display_name : Text
  pub relay_addr : Text
  pub relay_fingerprint : ℕ
  pub mailbox_qid : ℕ
  pub mailbox_key : ℕ
  pub inbox : Option (ℕ × ℕ)

-- `persisted` has the fields that are saved. `applied` and `acked`, which the code does not have, list
-- the ids of the messages that the session was given and of the acknowledgements that were sent.
pub record ChatEngine (S : Type 0) : Type 0 where
  pub persisted : PersistedEngine
  pub session : S
  pub seen : List ℕ
  pub pending_events : List Event
  pub store : Option Disk.Store
  pub applied : List ℕ
  pub acked : List ℕ

-- How an acknowledgement ends: with the relay's answer, a closed connection, or another error.
pub data AckResult : Type 0 where
  accepted closed refused : AckResult

abbrev pub engine_key : Text
engine_key = b'e' ∷ b'n' ∷ b'g' ∷ b'i' ∷ b'n' ∷ b'e' ∷ []

abbrev pub session_key : Text
session_key = b's' ∷ b'e' ∷ b's' ∷ b's' ∷ b'i' ∷ b'o' ∷ b'n' ∷ []

-- The Boolean tells whether the call returned `Ok`.
module _ {S : Type 0} (codec : Codec PersistedEngine) (mls : Mls S) where
  unfoldable pub persist : List ℕ → ChatEngine S → ChatEngine S × Bool
  persist new_seen e = elim e.store [
    | none ↦ (e, true)
    | some store ↦ elim (mls.snapshot e.session) [
      | none ↦ (e, false)
      | some session ↦
          let entries = (engine_key, codec.encode e.persisted) ∷ (session_key, session) ∷ [] in
          (record e { store = some (commit entries new_seen store) }, true)
    ]
  ]

  abbrev pub is_fine : AckResult → Bool
  is_fine accepted = true
  is_fine closed = true
  is_fine refused = false

  unfoldable pub try_ack : AckResult → ℕ → ChatEngine S → ChatEngine S × Bool
  try_ack answer id e = (record e { acked = e.acked ++ id ∷ [] }, is_fine answer)

  abbrev pub event_of : Incoming → S → Option Event
  event_of (application bytes) session = some (message bytes)
  event_of commit_applied session = elim (mls.epoch session) [
    | none ↦ none
    | some epoch ↦ some (epoch_advanced epoch)
  ]

  abbrev ack_if : AckResult → ℕ → ChatEngine S × Bool → ChatEngine S × Bool
  ack_if answer id (e, true) = try_ack answer id e
  ack_if answer id (e, false) = (e, false)

  -- What follows the session's answer.
  unfoldable pub surface : AckResult → ℕ → Option Incoming → ChatEngine S → ChatEngine S × Bool
  unfolding persist try_ack
  surface answer id none e = (e, false)
  surface answer id (some incoming) e = elim (event_of incoming e.session) [
    | none ↦ (e, false)
    | some event ↦
        ack_if answer id
          (persist (id ∷ []) (record e { pending_events = e.pending_events ++ event ∷ [] }))
  ]

  unfoldable pub pump_push : AckResult → Envelope → ChatEngine S → ChatEngine S × Bool
  unfolding surface
  pump_push answer envelope e =
      let id = envelope.message_id in
      let (session, incoming) = mls.process_incoming envelope.padded_ciphertext e.session in
      if contains id e.seen
      then try_ack answer id e
      else surface answer id incoming
          (record e { seen = e.seen ++ id ∷ []; session = session; applied = e.applied ++ id ∷ [] })

  -- Pushes one after the other; the caller goes on after an error.
  unfoldable pub pump_all : List (AckResult × Envelope) → ChatEngine S → ChatEngine S
  pump_all [] e = e
  pump_all ((answer, envelope) ∷ pushes) e = pump_all pushes (pump_push answer envelope e).0

  abbrev pub restored : PersistedEngine → Disk.Store → Option S → Option (ChatEngine S)
  restored persisted store none = none
  restored persisted store (some session) = some (record {
    persisted = persisted;
    session = session;
    seen = seen_ids store;
    pending_events = [];
    store = some store;
    applied = [];
    acked = [];
  })

  abbrev pub with_record :
      Disk.Store → Option (List ℕ) → String ⊎ PersistedEngine → Option (ChatEngine S)
  with_record store session (inl error) = none
  with_record store none (inr persisted) = none
  with_record store (some bytes) (inr persisted) = restored persisted store (mls.restore bytes)

  -- The state that `resume` rebuilds before it connects.
  unfoldable pub resume : Disk.Store → Option (ChatEngine S)
  resume store = elim (get engine_key store) [
    | none ↦ none
    | some bytes ↦ with_record store (get session_key store) (codec.decode bytes)
  ]
