-- ===== src/Directory/Store/Invariant.antt =====
-- What every sequence of calls keeps of the tables of directory/src/store.rs.
pub mod Cases
pub mod Claim
pub mod Writes
use rosette.Prelude.{
  ℕ, ◌+◌, ◌-◌, ◌<◌, List, [], ◌∷◌, Bool, true, false, ◌==◌, ◌&&◌, ◌||◌, if◌then◌else◌, Option, none,
  some, ◌≡◌, refl, arith, inl, inr, ◌⊎◌, Option-cases, Bool-cases, ◌≢◌, ap, sym, ◌∙◌, contains,
  ==_iff, subst,
}
use rosette.Prelude.Map.{Map, lookup, insert, HasDistinctKeys, lookup-insert}
use rosette.Prelude.Map.Size.{insert-HasDistinctKeys}
use rosette.Prelude.Text.{Text, text_eq, text_eq_iff, text_eq_refl}
use rosette.Directory.Username.{UsernameError, validate_nickname, choose_slot}
use rosette.Directory.Username.Slots.{choose_slot_narrowest}
use rosette.Directory.Store.{Store, User, is_live, empty_store}
use rosette.Directory.Store.Users.{
  update_user, find_where, is_live_for, pending_user, find_or_create_pending_user, mark_verified,
  set_searchable,
}
use rosette.Directory.Store.Handles.{taken_discriminators, current_width, claim_username, named}
use rosette.Directory.Store.Sessions.{
  create_session, create_restore_token, restore_token_user, consume_restore_token,
}
use rosette.Directory.Store.Pairing.{set_pairing_bootstrap, consume_pairing_bootstrap, store_backup}
use rosette.Directory.Store.Erasure.{erase_user, erased}
use rosette.Directory.Store.Calls
use rosette.Directory.Store.Calls.{StoreCall, run, run_all}
use rosette.Directory.Store.Rows.{
  set_row, lookup-update_user, update_user-HasDistinctKeys, find_where-none,
}

-- `UNIQUE (phone_hash) WHERE deleted_at IS NULL`
abbrev pub OneLive : Map User → Type 0
OneLive users =
    (i j : ℕ) (u v : User)
    → lookup i users ≡ some u
    → lookup j users ≡ some v
    → is_live u ≡ true
    → is_live v ≡ true
    → u.phone_hash ≡ v.phone_hash
    → i ≡ j

-- A deleted row has no trace of the number.
abbrev pub Scrubbed : Map User → Type 0
Scrubbed users =
    (i : ℕ) (u : User) → lookup i users ≡ some u → is_live u ≡ false → u.phone_hash ≡ []

-- `UNIQUE (nickname, discriminator)`
abbrev pub OneHolder : Map User → Type 0
OneHolder users =
    (i j : ℕ) (u v : User) (nickname : Text) (slot : ℕ)
    → lookup i users ≡ some u
    → lookup j users ≡ some v
    → u.nickname ≡ some nickname
    → v.nickname ≡ some nickname
    → u.discriminator ≡ some slot
    → v.discriminator ≡ some slot
    → i ≡ j

-- `user_id`s come from the sequence.
abbrev pub Issued : Map User → ℕ → Type 0
Issued users next = (i : ℕ) (u : User) → lookup i users ≡ some u → i < next

pub record IsWellFormed (s : Store) : Type 0 where
  pub distinct : HasDistinctKeys s.users
  pub issued : Issued s.users s.next_user_id
  pub one_live : OneLive s.users
  pub scrubbed : Scrubbed s.users
  pub one_holder : OneHolder s.users

-- The rows of `users'` come from rows of `users` that agree with them.
abbrev pub From : (User → User → Type 0) → Map User → Map User → Type 0
From R users users' =
    (j : ℕ) (v : User) → lookup j users' ≡ some v → (u : User) × (lookup j users ≡ some u) × R u v

abbrev pub SamePhone : User → User → Type 0
SamePhone u v = (v.phone_hash ≡ u.phone_hash) × (v.deleted_at ≡ u.deleted_at)

abbrev pub SameHandle : User → User → Type 0
SameHandle u v = (v.nickname ≡ u.nickname) × (v.discriminator ≡ u.discriminator)

pub From-update_user :
    (R : User → User → Type 0) (i : ℕ) (set : User → User) (users : Map User)
    → ((u : User) → R u u)
    → ((u : User) → R u (set u))
    → From R users (update_user i set users)
From-update_user R i set users same changed j v e = elim (Option-cases (lookup j users)) [
  | inl gone ↦ absurd (ground (arith, lookup-update_user i j set users))
  | inr (u, found) ↦ elim (Bool-cases (i == j)) [
    | inl hit ↦
        let is : set u ≡ v = ground (arith, lookup-update_user i j set users) in
        (u, found, subst (R u) is (changed u))
    | inr miss ↦
        let is : u ≡ v = ground (arith, lookup-update_user i j set users) in
        (u, found, subst (R u) is (same u))
  ]
]

pub From-OneLive :
    (users users' : Map User) → From SamePhone users users' → OneLive users → OneLive users'
From-OneLive users users' from h i j u v e f l k p =
    let (a, ea, (pa, da)) = from i u e in
    let (b, eb, (pb, db)) = from j v f in
    h i j a b ea eb (ground (arith, da)) (ground (arith, db)) (sym pa ∙ p ∙ pb)

pub From-Scrubbed :
    (users users' : Map User) → From SamePhone users users' → Scrubbed users → Scrubbed users'
From-Scrubbed users users' from h i u e l =
    let (a, ea, (pa, da)) = from i u e in pa ∙ h i a ea (ground (arith, da))

pub From-OneHolder :
    (users users' : Map User) → From SameHandle users users' → OneHolder users → OneHolder users'
From-OneHolder users users' from h i j u v n d e f nu nv du dv =
    let (a, ea, (na, da)) = from i u e in
    let (b, eb, (nb, db)) = from j v f in
    h i j a b n d ea eb (sym na ∙ nu) (sym nb ∙ nv) (sym da ∙ du) (sym db ∙ dv)

pub From-Issued :
    (R : User → User → Type 0) (users users' : Map User) (next : ℕ)
    → From R users users'
    → Issued users next
    → Issued users' next
From-Issued R users users' next from h i u e = let (a, ea, r) = from i u e in h i a ea

-- A statement that sets neither phone nor handle.
pub update-IsWellFormed :
    (i : ℕ) (set : User → User) (s : Store)
    → ((u : User) → SamePhone u (set u))
    → ((u : User) → SameHandle u (set u))
    → IsWellFormed s
    → IsWellFormed (record s { users = update_user i set s.users })
update-IsWellFormed i set s phone handle w =
    let phones = From-update_user SamePhone i set s.users (λ u. (refl, refl)) phone in
    let handles = From-update_user SameHandle i set s.users (λ u. (refl, refl)) handle in
    record {
      distinct = update_user-HasDistinctKeys i set s.users w.distinct;
      issued = From-Issued SamePhone s.users _ s.next_user_id phones w.issued;
      one_live = From-OneLive s.users _ phones w.one_live;
      scrubbed = From-Scrubbed s.users _ phones w.scrubbed;
      one_holder = From-OneHolder s.users _ handles w.one_holder;
    }

-- Only the users and the sequence matter.
pub same_users-IsWellFormed :
    (s s' : Store)
    → s'.users ≡ s.users
    → s'.next_user_id ≡ s.next_user_id
    → IsWellFormed s
    → IsWellFormed s'
same_users-IsWellFormed s s' e n w = record {
  distinct = rw e w.distinct;
  issued = rw (e, n) w.issued;
  one_live = rw e w.one_live;
  scrubbed = rw e w.scrubbed;
  one_holder = rw e w.one_holder;
}
