-- ===== src/Tests/Fixture.antt =====
-- A small relay for the tests, with simple functions in place of the cryptography.
use Prim.Native.String.{String}
use rosette.Prelude.{
  ℕ, zero, suc, ◌≡◌, refl, ap, List, [], ◌∷◌, Option, none, some, false, ◌==◌, ◌⊎◌, inl, inr,
}
use rosette.Prelude.Int.{pos}
use rosette.Proto.Codec.{Codec}
use rosette.Proto.Envelope.{Envelope, DeliveryMode, relay_fanout, pairwise, signaling}
use rosette.Proto.Attestation.{AttestationToken, Ed25519}
use rosette.Proto.Pow.{PowSolution}
use rosette.Proto.Wire.{ClientMessage}
use rosette.Relay.State.{Inner, mailbox, group_inbox, Primitives, Env, new}
use rosette.Relay.Handle.{handle}

abbrev head? : List ℕ → Option ℕ
head? [] = none
head? (x ∷ xs) = some x

-- A signature is the key; every digest begins with sixteen zero bits; every tag is 42.
abbrev pub toy_ed : Ed25519
toy_ed = record {
  verifying_key = λ sk. sk;
  sign = λ sk msg. sk ∷ [];
  from_slice = head?;
  verify = λ key msg sig. key == sig;
}

abbrev mode_tag : DeliveryMode → ℕ
mode_tag relay_fanout = 0
mode_tag pairwise = 1
mode_tag signaling = 2

abbrev mode_of : ℕ → DeliveryMode
mode_of zero = relay_fanout
mode_of (suc zero) = pairwise
mode_of (suc (suc tag)) = signaling

abbrev read_envelope : List ℕ → String ⊎ Envelope
read_envelope [] = inl "empty"
read_envelope (tag ∷ []) = inl "short"
read_envelope (tag ∷ (mid ∷ bytes)) =
    inr (record { message_id = mid; delivery_mode = mode_of tag; padded_ciphertext = bytes })

abbrev pub toy_codec : Codec Envelope
toy_codec = record {
  encode = λ e. mode_tag e.delivery_mode ∷ e.message_id ∷ e.padded_ciphertext;
  decode = read_envelope;
}

pub toy_codec_law : (v : Envelope) → toy_codec.decode (toy_codec.encode v) ≡ inr v
toy_codec_law v =
    ap
      (λ mode. inr (record {
        message_id = v.message_id;
        delivery_mode = mode;
        padded_ciphertext = v.padded_ciphertext;
      }))
      (same v.delivery_mode)
  where
    same : (mode : DeliveryMode) → mode_of (mode_tag mode) ≡ mode
    same relay_fanout = refl
    same pairwise = refl
    same signaling = refl

abbrev pub toy : Primitives
toy = record {
  sha256 = λ bytes. 0 ∷ 0 ∷ 255 ∷ [];
  hmac = λ key msg. 42;
  ed = toy_ed;
  codec = toy_codec;
}

abbrev pub at : ℕ → Env
at t = record {
  instant = t;
  unix = pos t;
  closed = λ c. false;
  challenge_draw = 5;
  id_draws = 7 ∷ 9 ∷ [];
  send_key_draw = 11;
}

abbrev pub letter : ℕ → Envelope
letter mid = record {
  message_id = mid;
  delivery_mode = relay_fanout;
  padded_ciphertext = 1 ∷ 2 ∷ 3 ∷ [];
}

-- A group inbox 7 at epoch 3 whose roster is the mailbox 8, twice.
abbrev pub group_relay : Inner
group_relay = record new {
  queues =
      (
        7,
        record {
          send_key = 1;
          kind = group_inbox 3 (8 ∷ 8 ∷ []);
          sent_this_minute = 0;
          window_started = 0;
        },
      )
      ∷ (8, record { send_key = 1; kind = mailbox []; sent_this_minute = 0; window_started = 0 })
      ∷ [];
}

-- A relay with an attestation key and an outstanding challenge.
abbrev pub gated_relay : Inner
gated_relay = record new {
  attestation_key = some 3;
  outstanding_challenges = (5, 16) ∷ [];
  challenge_order = 5 ∷ [];
}

abbrev pub token : AttestationToken
token = record { nonce = 1; expires_at = pos 1000; signature = 3 ∷ [] }

abbrev pub solution : PowSolution
solution = record { challenge = 5; nonce = 0 }

-- The state after a call.
unfoldable pub after : Env → ClientMessage → Inner → Inner
after env msg s = elim (handle toy env msg none s) [ none ↦ s | some (t, reply) ↦ t ]
