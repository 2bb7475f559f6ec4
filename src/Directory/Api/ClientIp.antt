-- ===== src/Directory/Api/ClientIp.antt =====
-- `client_ip` of directory/src/api.rs.
use rosette.Directory.Api.Guards.{client_ip, last_entry, trim, or_peer}
use rosette.Prelude.{
  ℕ, [], ◌∷◌, ◌++◌, false, ◌==◌, Option, some, ◌≡◌, refl, arith, All, Bool-cases, inl, inr,
}
use rosette.Prelude.Text.{Text}
use rosette.Directory.Api.{Primitives}

-- The list without its last entry does not count.
last_entry-append :
    (entry front last : Text) → last_entry entry (front ++ (b',' ∷ last)) ≡ last_entry last last
unfolding last_entry
last_entry-append entry [] last = refl
last_entry-append entry (c ∷ front) last = elim (Bool-cases (c == b',')) [
  | inl hit ↦ rw hit (last_entry-append (front ++ (b',' ∷ last)) front last)
  | inr miss ↦ rw miss (last_entry-append entry front last)
]

last_entry-alone :
    (entry last : Text) → All (λ c. (c == b',') ≡ false) last → last_entry entry last ≡ entry
unfolding last_entry
last_entry-alone entry [] h = refl
last_entry-alone entry (c ∷ last) (this, rest) = ground (arith, last_entry-alone entry last rest)

-- What stands left of the last comma of `X-Forwarded-For`, which a client can write, has no part in the
-- address that a limit is keyed on: it is the entry after the last comma, or the peer if that is no
-- address.
pub client_ip_unforgeable :
    (p : Primitives) (authorization : Option Text) (front last : Text) (peer : ℕ)
    → All (λ c. (c == b',') ≡ false) last
    → client_ip p
        (record { authorization = authorization; forwarded_for = some (front ++ (b',' ∷ last)) })
        peer
      ≡ or_peer (p.parse_ip (trim last)) peer
unfolding client_ip
client_ip_unforgeable p authorization front last peer h =
    rw (last_entry-append (front ++ (b',' ∷ last)) front last, last_entry-alone last last h) refl
