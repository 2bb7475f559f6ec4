-- ===== src/Relay/Net.antt =====
-- The loop of `handle_connection` in relay/src/net.rs: the requests of one connection and the
-- replies to them. Between two requests other connections may call the relay, so each call comes
-- with the clock and the state that it finds, and with whether the writer still takes frames.
pub mod Replies
use rosette.Prelude.{ℕ, Bool, true, false, List, [], ◌∷◌, Option, none, some, ◌⊎◌, inl, inr}
use rosette.Proto.Codec.{Codec}
use rosette.Proto.Framing.{ReadFrameError, closed, read_frame}
use rosette.Proto.Wire.{ServerMessage, ClientFrame, ServerFrame, reply}
use rosette.Relay.State.{Inner, Primitives, Env}
use rosette.Relay.Handle.{handle}

abbrev pub Turn : Type 0
Turn = Env × Inner × Bool

-- What a call leaves: the state, and the frame that goes to the writer, `none` when it has stopped.
abbrev pub Answer : Type 0
Answer = Inner × Option ServerFrame

-- `Closed` ends the loop, any other error of a read is returned.
abbrev pub ended : ReadFrameError → Option ReadFrameError
ended closed = none
ended e = some e

abbrev pub and_then :
    Answer
    → Option (List Answer × Option ReadFrameError)
    → Option (List Answer × Option ReadFrameError)
and_then a none = none
and_then a (some (answers, end)) = some (a ∷ answers, end)

-- A reply that the writer does not take ends the loop.
unfoldable pub send_reply :
    Bool
    → Inner
    → ServerFrame
    → Option (List Answer × Option ReadFrameError)
    → Option (List Answer × Option ReadFrameError)
send_reply true s frame rest = and_then (s, some frame) rest
send_reply false s frame rest = some ((s, none) ∷ [], none)

module _ (p : Primitives) (codec : Codec ClientFrame) (push_tx : ℕ) where
  -- `none`: a call has not returned, or the stream has more requests than there are turns.
  unfoldable pub handle_connection :
      List Turn → List ℕ → Option (List Answer × Option ReadFrameError)
  unfolding send_reply
  handle_connection [] stream = elim (read_frame codec stream) [
    | inl e ↦ some ([], ended e)
    | inr _ ↦ none
  ]
  handle_connection ((env, s, takes) ∷ turns) stream = elim (read_frame codec stream) [
    | inl e ↦ some ([], ended e)
    | inr (frame, rest) ↦ elim (handle p env frame.message (some push_tx) s) [
      | none ↦ none
      | some (s', message) ↦
          send_reply takes s' (reply frame.request_id message) (handle_connection turns rest)
    ]
  ]
