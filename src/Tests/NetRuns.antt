-- ===== src/Tests/NetRuns.antt =====
-- Connections at concrete inputs.
use rosette.Prelude.{true, false, List, [], ◌∷◌, ◌≡◌, refl, inr, arith}
use rosette.Proto.Codec.{Codec}
use rosette.Proto.Wire.{ClientFrame, request_pow_challenge}
use rosette.Prelude.Map.{lookup}
use rosette.Relay.State.{new, Inner}
use rosette.Relay.Queues.Subscribe
use rosette.Relay.Queues.Subscribe.{senders}
use rosette.Relay.Delivery.Fanned.{times}
use rosette.Relay.Delivery.Subscribed.{subscribe_registers_once}
use rosette.Relay.Net.{Turn, handle_connection}
use rosette.Relay.Net.Replies.{requests, answers, handle_connection-requests}
use rosette.Tests.Fixture.{toy, at}

-- A codec that can carry one request.
abbrev one_request : ClientFrame
one_request = record { request_id = 6; message = request_pow_challenge }

abbrev single : Codec ClientFrame
single = record { encode = λ f. 1 ∷ 2 ∷ []; decode = λ bytes. inr one_request }

-- The writer stops before the second of three replies.
abbrev three_turns : List Turn
three_turns = (at 1, new, true) ∷ (at 2, new, false) ∷ (at 3, new, true) ∷ []

abbrev three_requests : List ClientFrame
three_requests = one_request ∷ one_request ∷ one_request ∷ []

handle_connection-requests_example :
    handle_connection toy single 4 three_turns (requests toy single 4 three_requests)
    ≡ answers toy single 4 three_turns three_requests
handle_connection-requests_example =
    handle_connection-requests toy single 4 three_turns three_requests
      ((refl, omega arith), ((refl, omega arith), ((refl, omega arith), tt)))

-- A connection that has subscribed already, and names a queue twice.
abbrev subscribed_once : Inner
subscribed_once = record new { subscribers = (7, 3 ∷ 4 ∷ []) ∷ (9, 4 ∷ []) ∷ [] }

subscribe_registers_once_example :
    times 4
      (senders (lookup 7 (Subscribe.subscribe (at 1) (7 ∷ 7 ∷ []) 4 subscribed_once).subscribers))
    ≡ 1
subscribe_registers_once_example = subscribe_registers_once (at 1) 4 (7 ∷ 7 ∷ []) subscribed_once 7
