-- ===== src/Proto/Framing/RoundTrip.antt =====
-- Frames of proto/src/framing.rs, written and read.
use Prim.Native.String.{String}
use mathlib.Core.List.{append_assoc}
use rosette.Prelude.{
  ℕ, zero, suc, ◌%◌, ◌^◌, ◌≤◌, ◌<◌, List, [], ◌∷◌, ◌++◌, some, ◌≡◌, refl, arith, length, ◌⊎◌, inl,
  inr, ◌∙◌, ap, sym, ltb, Option-cases, Bool-cases, if◌then◌else◌,
}
use rosette.Prelude.Bytes.{le_bytes, le_value, le_value-le_bytes, length-le_bytes}
use rosette.Proto.Codec.{Codec}
use rosette.Proto.Framing.{
  ReadFrameError, too_large, malformed, read_exact, frame_ceiling, write_frame, read_body,
  read_frame,
}

read_exact-append :
    (xs ys : List ℕ) (n : ℕ) → length xs ≡ n → read_exact n (xs ++ ys) ≡ some (xs, ys)
unfolding read_exact
read_exact-append [] ys n e = rw (sym e) refl
read_exact-append (x ∷ xs) ys zero e = absurd (omega arith)
read_exact-append (x ∷ xs) ys (suc n) e =
    rw (read_exact-append xs ys n (omega arith), read_exact) refl

read_exact-split :
    (n : ℕ) (stream xs rest : List ℕ)
    → read_exact n stream ≡ some (xs, rest)
    → (stream ≡ xs ++ rest) × (length xs ≡ n)
unfolding read_exact
read_exact-split zero stream xs rest e = (ground (arith, e), ground (arith, e))
read_exact-split (suc n) [] xs rest e = cc
read_exact-split (suc n) (b ∷ stream) xs rest e = elim (Option-cases (read_exact n stream)) [
  | inl none_left ↦ absurd (ground (arith, none_left))
  | inr ((ys, more), run) ↦
      let (split, len) = read_exact-split n stream ys more run in
      (ground (arith, run, split), ground (arith, run, len))
]

module _ {ℓ} {T : Type ℓ} (codec : Codec T) where
  read_body-body :
      (body rest : List ℕ) (msg : T)
      → codec.decode body ≡ inr msg
      → read_body codec (length body) (body ++ rest) ≡ inr (msg, rest)
  unfolding read_body
  read_body-body body rest msg e =
      rw (read_exact-append body rest (length body) refl, read_body, e) refl

  read_body-split :
      (len : ℕ) (stream rest : List ℕ) (msg : T)
      → read_body codec len stream ≡ inr (msg, rest)
      → (body : List ℕ) × (stream ≡ body ++ rest)
        × (length body ≡ len)
        × (codec.decode body ≡ inr msg)
  unfolding read_body
  read_body-split len stream rest msg e = elim (Option-cases (read_exact len stream)) [
    | inl cut ↦ absurd (ground (arith, cut))
    | inr ((body, more), run) ↦
        let (split, size) = read_exact-split len stream body more run in
        let (ended, read) = decoded (codec.decode body) more rest msg (rw (run, read_body) at e) in
        (body, rw (sym ended) split, size, read)
  ]
    where
      decoded :
          (d : String ⊎ T) (more rest : List ℕ) (msg : T)
          → (elim d as (λ _. ReadFrameError ⊎ (T × List ℕ)) [
            | inl e ↦ inl (malformed e)
            | inr m ↦ inr (m, more)
          ])
            ≡ inr (msg, rest)
          → (more ≡ rest) × (d ≡ inr msg)
      decoded (inl s) more rest msg h = absurd (ground arith)
      decoded (inr m) more rest msg h = (ground (arith, h), ground (arith, h))

  -- A frame that is written onto a stream reads back as its message, with the stream after it left to
  -- read, if its body is no longer than the ceiling and bincode reads the message back from its own
  -- encoding; a longer body, of less than 2^32 bytes, is refused as too large.
  pub read_frame-write_frame :
      (msg : T) (rest : List ℕ)
      → codec.decode (codec.encode msg) ≡ inr msg
      → length (codec.encode msg) < 2 ^ 32
      → read_frame codec (write_frame codec msg ++ rest) ≡ (
          if ltb frame_ceiling (length (codec.encode msg))
          then inl (too_large (length (codec.encode msg)))
          else inr (msg, rest))
  unfolding read_frame write_frame
  read_frame-write_frame msg rest lossless small =
      let body = codec.encode msg in
      let head = le_bytes 4 (length body % 2 ^ 32) in
      let prefix : read_exact 4 ((head ++ body) ++ rest) ≡ some (head, body ++ rest) =
        ap (read_exact 4) (append_assoc head body rest)
        ∙ read_exact-append head (body ++ rest) 4 (length-le_bytes 4 (length body % 2 ^ 32)) in
      let size : le_value head ≡ length body =
        le_value-le_bytes 4 (length body % 2 ^ 32) (omega arith) ∙ omega (arith, small) in
      rw (prefix, read_frame, size)
        (ap (λ r. if ltb frame_ceiling (length body) then inl (too_large (length body)) else r)
          (read_body-body body rest msg lossless))

  -- Whatever the stream, a frame that is read is a prefix of four bytes and a body that the prefix
  -- measures, no longer than the ceiling, and that bincode reads as the message; the rest is left.
  pub read_frame_bounded :
      (stream rest : List ℕ) (msg : T)
      → read_frame codec stream ≡ inr (msg, rest)
      → (head : List ℕ) × (body : List ℕ) × (stream ≡ head ++ (body ++ rest))
        × (length head ≡ 4)
        × (length body ≡ le_value head)
        × (length body ≤ frame_ceiling)
        × (codec.decode body ≡ inr msg)
  unfolding read_frame
  read_frame_bounded stream rest msg e = elim (Option-cases (read_exact 4 stream)) [
    | inl cut ↦ absurd (ground (arith, cut))
    | inr ((head, more), run) ↦ elim (Bool-cases (ltb frame_ceiling (le_value head))) [
      | inl over ↦ absurd (ground (arith, run, over))
      | inr fits ↦
          let (split, four) = read_exact-split 4 stream head more run in
          let (body, tail, size, read) =
            read_body-split (le_value head) more rest msg (rw (run, read_frame, fits) at e) in
          (
            head,
            body,
            split ∙ ap (λ (l : List ℕ). head ++ l) tail,
            four,
            size,
            ground (arith, size),
            read,
          )
    ]
  ]
