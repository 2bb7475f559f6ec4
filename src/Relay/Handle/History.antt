-- ===== src/Relay/Handle/History.antt =====
-- The histories of a relay: any sequence of calls that return, and of settings of the attestation
-- key. Events are listed newest first.
use rosette.Prelude.{ℕ, List, [], ◌∷◌, Option, some, ◌≡◌}
use rosette.Proto.Wire.{ClientMessage, ServerMessage}
use rosette.Relay.State.{Inner, Primitives, Env}
use rosette.Relay.Gate.{set_attestation_key}
use rosette.Relay.Handle.{handle}

pub record Event : Type 0 where
  pub env : Env
  pub message : ClientMessage
  pub push_tx : Option ℕ
  pub reply : ServerMessage

pub data History (p : Primitives) (s : Inner) : List Event → Inner → Type 0 where
  start : History p s [] s
  call :
      {events : List Event} {t : Inner} (u : Inner) (e : Event)
      → History p s events t
      → handle p e.env e.message e.push_tx t ≡ some (u, e.reply)
      → History p s (e ∷ events) u
  configure :
      {events : List Event} {t : Inner} (key : Option ℕ)
      → History p s events t
      → History p s events (set_attestation_key key t)
