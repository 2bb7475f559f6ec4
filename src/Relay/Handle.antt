-- ===== src/Relay/Handle.antt =====
-- `handle` of relay/src/state.rs, and the histories of a relay: each call holds the one mutex, so
-- that concurrent connections are a sequence of calls.
pub mod Change
pub mod History
pub mod Gate
use rosette.Prelude.{ℕ, List, [], ◌∷◌, Option, none, some, ◌≡◌}
use rosette.Proto.Error.{Result, ok, err}
use rosette.Proto.Wire.{
  ClientMessage, ServerMessage, send_to_mailbox, send_to_group_inbox, subscribe, ack,
  request_pow_challenge, create_mailbox, create_group_inbox, pow_challenge, error, queue_created,
}
use rosette.Relay.State.{Inner, Primitives, Env}
use rosette.Relay.Gate.{issue_pow_challenge, set_attestation_key}
use rosette.Relay.Queues

-- The reply to a send, and the reply to a creation.
abbrev pub sent : Inner × Result (Unit {0}) → Inner × ServerMessage
sent (s, ok _) = (s, ServerMessage.ok)
sent (s, err e) = (s, error e)

abbrev pub created : Option (Inner × Result (ℕ × ℕ)) → Option (Inner × ServerMessage)
created none = none
created (some (s, ok (queue_id, send_key))) = some (s, queue_created queue_id send_key)
created (some (s, err e)) = some (s, error e)

abbrev pub subscribed : Env → List ℕ → Option ℕ → Inner → Inner
subscribed env queue_ids none s = s
subscribed env queue_ids (some tx) s = Queues.Subscribe.subscribe env queue_ids tx s

-- `none`: the drawing of a queue id has not ended.
unfoldable pub handle :
    Primitives → Env → ClientMessage → Option ℕ → Inner → Option (Inner × ServerMessage)
handle p env request_pow_challenge push_tx s =
    let (s', c) = issue_pow_challenge env s in some (s', pow_challenge c)
handle p env (create_mailbox solution attestation) push_tx s =
    created (Queues.Create.create_mailbox p env solution attestation s)
handle p env (create_group_inbox solution initial_epoch fan_out_to attestation) push_tx s =
    created (Queues.Create.create_group_inbox p env solution initial_epoch fan_out_to attestation s)
handle p env (send_to_mailbox queue_id auth_tag envelope) push_tx s =
    some (sent (Queues.Mailbox.send_to_mailbox p env queue_id auth_tag envelope s))
handle p env (send_to_group_inbox queue_id kind auth_tag envelope) push_tx s =
    some (sent (Queues.Group.send_to_group_inbox p env queue_id kind auth_tag envelope s))
handle p env (subscribe queue_ids) push_tx s =
    some (subscribed env queue_ids push_tx s, ServerMessage.ok)
handle p env (ack queue_id message_id) push_tx s =
    some (Queues.Ack.ack queue_id message_id s, ServerMessage.ok)
