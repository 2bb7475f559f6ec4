-- ===== src/Relay/Net/Replies.antt =====
-- Requests and replies on a connection of relay/src/net.rs.
use rosette.Prelude.{
  ℕ, ◌≤◌, true, false, if◌then◌else◌, List, [], ◌∷◌, ◌++◌, Option, none, some, ◌≡◌, refl, inl, inr,
  arith, length, All, ◌∙◌, ap, Option-cases,
}
use rosette.Proto.Codec.{Codec}
use rosette.Proto.Framing.{ReadFrameError, read_exact, write_frame, read_frame, frame_ceiling}
use rosette.Proto.Framing.RoundTrip.{read_frame-write_frame}
use rosette.Proto.Wire.{ClientFrame, reply}
use rosette.Relay.State.{Primitives}
use rosette.Relay.Handle.{handle}
use rosette.Relay.Net.{Turn, Answer, and_then, send_reply, handle_connection}

module _ (p : Primitives) (codec : Codec ClientFrame) (push_tx : ℕ) where
  -- The bytes of the requests of a client.
  unfoldable pub requests : List ClientFrame → List ℕ
  requests [] = []
  requests (f ∷ frames) = write_frame codec f ++ requests frames

  -- One answer to each frame, in order, with its request id, up to the first that the writer does
  -- not take.
  unfoldable pub answers :
      List Turn → List ClientFrame → Option (List Answer × Option ReadFrameError)
  answers turns [] = some ([], none)
  answers [] (f ∷ frames) = none
  answers ((env, s, takes) ∷ turns) (f ∷ frames) = elim (handle p env f.message (some push_tx) s) [
    | none ↦ none
    | some (s', message) ↦
        if takes
        then and_then (s', some (reply f.request_id message)) (answers turns frames)
        else some ((s', none) ∷ [], none)
  ]

  -- bincode reads the frame back, and its encoding is within the ceiling.
  abbrev pub Travels : ClientFrame → Type 0
  Travels f = (codec.decode (codec.encode f) ≡ inr f) × (length (codec.encode f) ≤ frame_ceiling)

  read_frame-requests :
      (f : ClientFrame) (frames : List ClientFrame)
      → Travels f
      → read_frame codec (requests (f ∷ frames)) ≡ inr (f, requests frames)
  unfolding requests
  read_frame-requests f frames t =
      read_frame-write_frame codec f (requests frames) t.0 (omega (arith, t.1))
      ∙ ground (arith, t.1)

  -- A connection on which a client writes requests whose frames are within the ceiling and that
  -- bincode reads back, and then closes, handles the requests in order, while the calls return and
  -- there are turns for them, and gives each one answer: the state that `handle` leaves, and its reply
  -- under the id of the request. The first request whose reply the writer does not take is still
  -- handled, and is the last. The connection ends without an error, and with no other answers.
  pub handle_connection-requests :
      (turns : List Turn) (frames : List ClientFrame)
      → All Travels frames
      → handle_connection p codec push_tx turns (requests frames) ≡ answers turns frames
  unfolding handle_connection answers send_reply
  handle_connection-requests [] [] t =
      unfold requests in unfold read_frame in unfold read_exact in refl
  handle_connection-requests (turn ∷ turns) [] t =
      unfold requests in unfold read_frame in unfold read_exact in refl
  handle_connection-requests [] (f ∷ frames) t =
      rw (read_frame-requests f frames t.0, handle_connection) refl
  handle_connection-requests ((env, s, true) ∷ turns) (f ∷ frames) t =
      rw (read_frame-requests f frames t.0, handle_connection)
        (elim (Option-cases (handle p env f.message (some push_tx) s)) [
          | inl e ↦ rw (e, answers) refl
          | inr ((s', message), e) ↦
              rw (e, answers)
                (ap (and_then (s', some (reply f.request_id message)))
                  (handle_connection-requests turns frames t.1))
        ])
  handle_connection-requests ((env, s, false) ∷ turns) (f ∷ frames) t =
      rw (read_frame-requests f frames t.0, handle_connection)
        (elim (Option-cases (handle p env f.message (some push_tx) s)) [
          | inl e ↦ rw (e, answers) refl
          | inr ((s', message), e) ↦ rw (e, answers) refl
        ])
