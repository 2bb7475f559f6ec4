-- ===== src/Ffi.antt =====
-- The bindings of ffi/src/lib.rs, as far as they keep state of their own: the state of the user
-- interface and account recovery. Threads, the listener and the calls of the engine are not modelled.
pub mod Recovery
pub mod Restore
use rosette.Prelude.{ℕ, List, [], Bool, Option}
use rosette.Prelude.Text.{Text, TextMap}
use rosette.Core.Storage as Disk

pub data DeliveryState : Type 0 where
  pending sent failed received : DeliveryState

pub record ChatMessage : Type 0 where
  pub id : Text
  pub body : Text
  pub mine : Bool
  pub timestamp_ms : ℕ
  pub delivery : DeliveryState

pub record Conversation : Type 0 where
  pub id : Text
  pub display_name : Text
  pub last_message : Option Text
  pub unread : ℕ
  pub verified : Bool

-- `Store`, the state of the user interface
pub record UiStore : Type 0 where
  pub conversations : List Conversation
  pub messages : TextMap (List ChatMessage)

-- `Store::default`
abbrev pub default : UiStore
default = record { conversations = []; messages = [] }

-- `ChatEngine` with what it shares: the state, the next message id, and the encrypted store, which an
-- engine in memory has not.
pub record ChatEngine : Type 0 where
  pub display_name : Text
  pub store : UiStore
  pub seq : ℕ
  pub disk : Option Disk.Store

-- The reasons are texts and dropped.
pub data EngineError : Type 0 where
  invalid_contact_link unknown_conversation send_failed relay_unreachable : EngineError
  not_supported storage_failed invalid_pin wrong_recovery_secret : EngineError
