-- ===== src/Tests/Packed.antt =====
-- Lists of byte strings as one string, for the codecs of the tests.
use Prim.Native.String.{String}
use rosette.Prelude.{
  ℕ, zero, suc, List, [], ◌∷◌, ◌++◌, Option, none, some, ◌≡◌, refl, ap, ◌∙◌, ◌⊎◌, inl, inr, length,
  take,
}
use rosette.Proto.Codec.{Codec}
use rosette.Core.Backup.{BackupBundle, drop}
use rosette.Core.Backup.Opens.{take-append, drop-append}
use rosette.Ffi.Recovery.{BackupPayload}

abbrev pack : List (List ℕ) → List ℕ
pack [] = []
pack (xs ∷ xss) = length xs ∷ (xs ++ pack xss)

abbrev unpack : ℕ → List ℕ → List (List ℕ)
unpack zero bytes = []
unpack (suc n) [] = []
unpack (suc n) (size ∷ bytes) = take size bytes ∷ unpack n (drop size bytes)

unpack-pack : (xss : List (List ℕ)) → unpack (length xss) (pack xss) ≡ xss
unpack-pack [] = refl
unpack-pack (xs ∷ xss) =
    ap (λ ys. ys ∷ unpack (length xss) (drop (length xs) (xs ++ pack xss)))
      (take-append (length xs) xs (pack xss) refl)
    ∙ ap (λ bytes. xs ∷ unpack (length xss) bytes) (drop-append (length xs) xs (pack xss) refl)
    ∙ ap (xs ∷◌) (unpack-pack xss)

abbrev to_bundle : List (List ℕ) → String ⊎ BackupBundle
to_bundle (a ∷ (b ∷ (c ∷ (d ∷ (e ∷ (f ∷ (g ∷ (h ∷ (i ∷ []))))))))) = inr (record {
  blob = a;
  w_pin = b;
  salt_p = c;
  w_phrase = d;
  salt_f = e;
  auth_pin = f;
  salt_a = g;
  auth_phrase = h;
  salt_pa = i;
})
to_bundle _ = inl "bundle"

abbrev parts : BackupBundle → List (List ℕ)
parts b =
    b.blob ∷ b.w_pin ∷ b.salt_p ∷ b.w_phrase ∷ b.salt_f ∷ b.auth_pin ∷ b.salt_a ∷ b.auth_phrase
    ∷ b.salt_pa ∷ []

abbrev pub packed_bundle : Codec BackupBundle
packed_bundle = record {
  encode = λ b. pack (parts b);
  decode = λ bytes. to_bundle (unpack 9 bytes);
}

pub packed_bundle_codec : (b : BackupBundle) → packed_bundle.decode (packed_bundle.encode b) ≡ inr b
packed_bundle_codec b = ap to_bundle (unpack-pack (parts b))

abbrev from_option : Option (List ℕ) → List ℕ
from_option none = []
from_option (some xs) = 1 ∷ xs

abbrev to_option : List ℕ → Option (List ℕ)
to_option [] = none
to_option (flag ∷ xs) = some xs

option_round : (o : Option (List ℕ)) → to_option (from_option o) ≡ o
option_round none = refl
option_round (some xs) = refl

abbrev to_payload : List (List ℕ) → String ⊎ BackupPayload
to_payload (identity ∷ (username ∷ contacts)) =
    inr
      (record { identity = to_option identity; username = to_option username; contacts = contacts })
to_payload _ = inl "payload"

abbrev decode_payload : List ℕ → String ⊎ BackupPayload
decode_payload [] = inl "payload"
decode_payload (count ∷ bytes) = to_payload (unpack count bytes)

abbrev sections : BackupPayload → List (List ℕ)
sections p = from_option p.identity ∷ from_option p.username ∷ p.contacts

abbrev pub packed_payload : Codec BackupPayload
packed_payload = record {
  encode = λ p. length (sections p) ∷ pack (sections p);
  decode = decode_payload;
}

pub packed_payload_codec :
    (p : BackupPayload) → packed_payload.decode (packed_payload.encode p) ≡ inr p
packed_payload_codec p =
    ap to_payload (unpack-pack (sections p))
    ∙ ap
        (λ i. inr (record {
          identity = i;
          username = to_option (from_option p.username);
          contacts = p.contacts;
        }))
        (option_round p.identity)
    ∙ ap (λ u. inr (record { identity = p.identity; username = u; contacts = p.contacts }))
        (option_round p.username)
