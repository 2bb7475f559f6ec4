-- ===== src/Directory/Store/Invariant/Claim.antt =====
-- `claim_username` of directory/src/store.rs: what it writes, and that no handle gets a second holder.
use rosette.Prelude.{
  ℕ, ◌+◌, ◌-◌, List, [], ◌∷◌, true, false, ◌==◌, some, ◌≡◌, refl, arith, inl, inr, ◌⊎◌, Bool-cases,
  ap, sym, ◌∙◌, contains,
}
use rosette.Prelude.Map.{Map, lookup}
use rosette.Prelude.Text.{Text, put, text_eq_refl}
use rosette.Directory.Username.{UsernameError, validate_nickname, discriminator_space_exhausted}
use rosette.Directory.Username.Slots.{choose_slot_narrowest}
use rosette.Directory.Store.{Store, User}
use rosette.Directory.Store.Users.{update_user}
use rosette.Directory.Store.Handles.{
  taken_discriminators, current_width, claim_username, named, has_nickname,
}
use rosette.Directory.Store.Rows.{update_user-HasDistinctKeys}
use rosette.Directory.Store.Invariant.{
  OneHolder, IsWellFormed, SamePhone, From-update_user, From-OneLive, From-Scrubbed, From-Issued,
}
use rosette.Directory.Store.Invariant.Cases.{update-cases}

-- The discriminator of a row that has the nickname is among those that are taken.
taken_of :
    (name : Text) (slot i : ℕ) (u : User) (users : Map User)
    → lookup i users ≡ some u
    → u.nickname ≡ some name
    → u.discriminator ≡ some slot
    → contains slot (taken_discriminators name users) ≡ true
unfolding taken_discriminators lookup
taken_of name slot i u [] e n d = cc
taken_of name slot i u ((j, v) ∷ users) e n d = elim (Bool-cases (j == i)) [
  | inr miss ↦ let ih = taken_of name slot i u users (ground arith) n d in ground (arith, ih)
  | inl hit ↦
      let is : v ≡ u = ground arith in
      let named_so : has_nickname name v ≡ true = ground (arith, text_eq_refl name) in
      let disc : v.discriminator ≡ some slot = ap (λ (x : User). x.discriminator) is ∙ d in
      rw (named_so, disc) (ground arith)
]

-- What `claim_username` writes: nothing, or a slot that no row of the nickname has.
pub data Claimed (i : ℕ) (name : Text) (s : Store) : Type 0 where
  refused : (e : UsernameError) → claim_username i name s ≡ (s, inl e) → Claimed i name s
  granted :
      (slot wide : ℕ) (widths : List (Text × ℕ))
      → contains slot (taken_discriminators name s.users) ≡ false
      → claim_username i name s ≡ (
        record s { nickname_widths = widths; users = update_user i (named name slot) s.users },
        inr (slot, wide),
      )
      → Claimed i name s

pub claimed : (i : ℕ) (name : Text) (s : Store) → Claimed i name s
unfolding claim_username
claimed i name s = by_name (validate_nickname name) refl
  where
    by_name : (r : UsernameError ⊎ Unit {0}) → validate_nickname name ≡ r → Claimed i name s
    by_name (inl e) v = refused e (rw (v, claim_username) refl)
    by_name (inr x) v =
        let width = current_width name s in
        let taken = taken_discriminators name s.users in
        elim (choose_slot_narrowest (9 - width) taken width (width + (9 - width)) refl) [
          | inl (full, all) ↦
              refused discriminator_space_exhausted (rw (v, claim_username, full) refl)
          | inr (slot, wide, chosen, lo, hi, first, all) ↦
              granted slot wide (put name wide s.nickname_widths) first.is_free
                (rw (v, claim_username, chosen) refl)
        ]

claim-OneHolder :
    (i : ℕ) (name : Text) (slot : ℕ) (users : Map User)
    → contains slot (taken_discriminators name users) ≡ false
    → OneHolder users
    → OneHolder (update_user i (named name slot) users)
claim-OneHolder i name slot users free h j k u v n d f g nu nv du dv =
    elim (update-cases i j (named name slot) u users f) [
      | inl (a, here, old, is) ↦ elim (update-cases i k (named name slot) v users g) [
        | inl (b, there, old', is') ↦ sym here ∙ there
        | inr old' ↦
            let same_name : name ≡ n = ground (arith, is) in
            let same_slot : slot ≡ d = ground (arith, is) in
            let taken =
              taken_of name slot k v users old' (nv ∙ ap some (sym same_name))
                (dv ∙ ap some (sym same_slot)) in
            absurd (ground (arith, taken))
      ]
      | inr old ↦ elim (update-cases i k (named name slot) v users g) [
        | inl (b, there, old', is') ↦
            let same_name : name ≡ n = ground (arith, is') in
            let same_slot : slot ≡ d = ground (arith, is') in
            let taken =
              taken_of name slot j u users old (nu ∙ ap some (sym same_name))
                (du ∙ ap some (sym same_slot)) in
            absurd (ground (arith, taken))
        | inr old' ↦ h j k u v n d old old' nu nv du dv
      ]
    ]

pub claim_username-IsWellFormed :
    (i : ℕ) (name : Text) (s : Store) → IsWellFormed s → IsWellFormed (claim_username i name s).0
claim_username-IsWellFormed i name s w = elim (claimed i name s) [
  | refused e same ↦ rw same w
  | granted slot wide widths free same ↦
      let phones =
        From-update_user SamePhone i (named name slot) s.users (λ u. (refl, refl))
          (λ u. (refl, refl)) in
      rw same (record {
        distinct = update_user-HasDistinctKeys i (named name slot) s.users w.distinct;
        issued = From-Issued SamePhone s.users _ s.next_user_id phones w.issued;
        one_live = From-OneLive s.users _ phones w.one_live;
        scrubbed = From-Scrubbed s.users _ phones w.scrubbed;
        one_holder = claim-OneHolder i name slot s.users free w.one_holder;
      })
]
