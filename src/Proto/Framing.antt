-- ===== src/Proto/Framing.antt =====
-- proto/src/framing.rs: length-prefixed frames. A stream is the list of the bytes that arrive before
-- its end, so the only failure of a read is the end of the stream.
pub mod RoundTrip
use Prim.Native.String.{String}
use rosette.Prelude.{
  ℕ, zero, suc, ◌*◌, ◌%◌, ◌^◌, List, [], ◌∷◌, ◌++◌, Option, none, some, ltb, if◌then◌else◌, ◌⊎◌,
  inl, inr, length,
}
use rosette.Prelude.Bytes.{le_bytes, le_value}
use rosette.Proto.Codec.{Codec}
use rosette.Proto.Limits.{max_message_size}

pub data ReadFrameError : Type 0 where
  closed : ReadFrameError
  too_large : ℕ → ReadFrameError
  -- `UnexpectedEof` within the body
  io : ReadFrameError
  malformed : String → ReadFrameError

-- `read_exact`: the bytes, and what is left of the stream.
unfoldable pub read_exact : ℕ → List ℕ → Option (List ℕ × List ℕ)
read_exact zero stream = some ([], stream)
read_exact (suc n) [] = none
read_exact (suc n) (b ∷ stream) = elim (read_exact n stream) [
  | none ↦ none
  | some (bytes, rest) ↦ some (b ∷ bytes, rest)
]

abbrev pub frame_ceiling : ℕ
frame_ceiling = max_message_size * 2

module _ {ℓ} {T : Type ℓ} (codec : Codec T) where
  unfoldable pub write_frame : T → List ℕ
  write_frame msg = le_bytes 4 (length (codec.encode msg) % 2 ^ 32) ++ codec.encode msg

  -- From the body on, whose length is known.
  unfoldable pub read_body : ℕ → List ℕ → ReadFrameError ⊎ (T × List ℕ)
  unfolding read_exact
  read_body len stream = elim (read_exact len stream) [
    | none ↦ inl io
    | some (buf, rest) ↦ elim (codec.decode buf) [
      | inl e ↦ inl (malformed e)
      | inr msg ↦ inr (msg, rest)
    ]
  ]

  unfoldable pub read_frame : List ℕ → ReadFrameError ⊎ (T × List ℕ)
  unfolding read_body
  read_frame stream = elim (read_exact 4 stream) [
    | none ↦ inl closed
    | some (prefix, rest) ↦
        if ltb frame_ceiling (le_value prefix)
        then inl (too_large (le_value prefix))
        else read_body (le_value prefix) rest
  ]
