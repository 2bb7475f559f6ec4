-- ===== src/Relay/Queues/Create.antt =====
-- `fresh_queue_id`, `create_mailbox` and `create_group_inbox` of relay/src/state.rs.
pub mod Created
use rosette.Prelude.{ℕ, List, [], ◌∷◌, Bool, Option, none, some, if◌then◌else◌}
use rosette.Prelude.Map.{Map, insert, has_key}
use rosette.Proto.Error.{Result, ok, err}
use rosette.Proto.Pow.{PowSolution}
use rosette.Proto.Attestation.{AttestationToken}
use rosette.Relay.State.{Inner, QueueEntry, QueueKind, mailbox, group_inbox, Primitives, Env}
use rosette.Relay.Gate.{consume_attestation, consume_pow}
use rosette.Relay.Queues.Tables.{with_db, insert_queue, insert_roster}

-- The loop draws until an id is not taken; `none` means that it has used up the draws.
unfoldable pub fresh_queue_id : Map QueueEntry → List ℕ → Option ℕ
fresh_queue_id queues [] = none
fresh_queue_id queues (id ∷ draws) =
    if has_key id queues then fresh_queue_id queues draws else some id

-- The two checks with which both operations begin.
unfoldable pub admit :
    Primitives → Env → PowSolution → Option AttestationToken → Inner → Inner × Result (Unit {0})
admit p env solution attestation s =
    let (s1, attested) = consume_attestation p env attestation s in
    elim attested [ err e ↦ (s1, err e) | ok _ ↦ consume_pow p solution s1 ]

unfoldable pub new_entry : Env → QueueKind → QueueEntry
new_entry env kind = record {
  send_key = env.send_key_draw;
  kind = kind;
  sent_this_minute = 0;
  window_started = env.instant;
}

unfoldable pub add_mailbox : Env → ℕ → Inner → Inner
unfolding new_entry
add_mailbox env queue_id s =
    let s' = with_db (insert_queue queue_id env.send_key_draw none) s in
    record s' { queues = insert queue_id (new_entry env (mailbox [])) s'.queues }

unfoldable pub add_group_inbox : Env → ℕ → ℕ → List ℕ → Inner → Inner
unfolding new_entry
add_group_inbox env queue_id initial_epoch fan_out_to s =
    let s' =
      with_db
        (λ db.
          insert_roster queue_id fan_out_to
            (insert_queue queue_id env.send_key_draw (some initial_epoch) db))
        s in
    record s' {
      queues = insert queue_id (new_entry env (group_inbox initial_epoch fan_out_to)) s'.queues;
    }

-- What follows the checks: an id is drawn, and the queue of that id is added.
abbrev pub with_fresh_id :
    Env → (ℕ → Inner → Inner) → Inner × Result (Unit {0}) → Option (Inner × Result (ℕ × ℕ))
with_fresh_id env add (s, err e) = some (s, err e)
with_fresh_id env add (s, ok _) = elim (fresh_queue_id s.queues env.id_draws) [
  | none ↦ none
  | some id ↦ some (add id s, ok (id, env.send_key_draw))
]

module _ (p : Primitives) (env : Env) where
  unfoldable pub create_mailbox :
      PowSolution → Option AttestationToken → Inner → Option (Inner × Result (ℕ × ℕ))
  create_mailbox solution attestation s =
      with_fresh_id env (add_mailbox env) (admit p env solution attestation s)

  unfoldable pub create_group_inbox :
      PowSolution → ℕ → List ℕ → Option AttestationToken → Inner → Option (Inner × Result (ℕ × ℕ))
  create_group_inbox solution initial_epoch fan_out_to attestation s =
      with_fresh_id env (λ id. add_group_inbox env id initial_epoch fan_out_to)
        (admit p env solution attestation s)
