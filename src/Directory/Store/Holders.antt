-- ===== src/Directory/Store/Holders.antt =====
-- A handle that `claim_username` of directory/src/store.rs has given, at `find_user_by_handle`.
use rosette.Prelude.{
  ℕ, true, false, ◌==◌, Option, none, some, ◌≡◌, refl, arith, inl, inr, Option-cases, sym, ap, ◌∙◌,
  ==_iff, subst,
}
use rosette.Prelude.Map.{lookup}
use rosette.Prelude.Text.{Text, text_eq, text_eq_iff, text_eq_refl}
use rosette.Directory.Store.{Store, User, is_live}
use rosette.Directory.Store.Users.{update_user, find_where}
use rosette.Directory.Store.Handles.{claim_username, find_user_by_handle, named, has_handle}
use rosette.Directory.Store.Rows.{lookup-update_user, find_where-some, find_where-none}
use rosette.Directory.Store.Invariant.{IsWellFormed}
use rosette.Directory.Store.Invariant.Claim.{claimed, refused, granted, claim_username-IsWellFormed}

named_so :
    (name : Text) (o : Option Text)
    → (elim o [ none ↦ false | some n ↦ text_eq n name ]) ≡ true
    → o ≡ some name
named_so name none h = cc
named_so name (some n) h = ap some ((text_eq_iff n name).0 h)

numbered_so :
    (d : ℕ) (o : Option ℕ) → (elim o [ none ↦ false | some n ↦ n == d ]) ≡ true → o ≡ some d
numbered_so d none h = cc
numbered_so d (some n) h = ap some ((==_iff n d).0 h)

-- Where one live row has a handle that no other row has, the look-up returns it.
sole_holder :
    (name : Text) (slot i : ℕ) (u : User) (s : Store)
    → IsWellFormed s
    → lookup i s.users ≡ some u
    → u.nickname ≡ some name
    → u.discriminator ≡ some slot
    → is_live u ≡ true
    → find_user_by_handle name slot s ≡ some i
unfolding find_user_by_handle
sole_holder name slot i u s w found n d live =
    elim (Option-cases (find_where (has_handle name slot) s.users)) [
      | inl nobody ↦
          let fails = find_where-none (has_handle name slot) s.users i u nobody found in
          absurd (ground (arith, n, d, fails, text_eq_refl name, (==_iff slot slot).1 refl))
      | inr (j, one) ↦
          let (v, there, passes) =
            find_where-some (has_handle name slot) s.users j w.distinct one in
          let has_name = named_so name v.nickname (ground arith) in
          let has_slot = numbered_so slot v.discriminator (ground arith) in
          one ∙ ap some (w.one_holder j i v u name slot there found has_name n has_slot d)
    ]

-- A handle that a live user is given is found, and finds that user.
pub claim_username-find_user_by_handle :
    (i : ℕ) (name : Text) (u : User) (slot wide : ℕ) (s s' : Store)
    → IsWellFormed s
    → lookup i s.users ≡ some u
    → is_live u ≡ true
    → claim_username i name s ≡ (s', inr (slot, wide))
    → find_user_by_handle name slot s' ≡ some i
claim_username-find_user_by_handle i name u slot wide s s' w found live h =
    elim (claimed i name s) [
      | refused e same ↦ absurd (ground (arith, same, h))
      | granted slot' wide' widths free same ↦
          let given = record s {
            nickname_widths = widths;
            users = update_user i (named name slot') s.users;
          } in
          let both = sym same ∙ h in
          let stores : given ≡ s' = ap (λ r. r.0) both in
          let slots : slot' ≡ slot = ground (arith, both) in
          let row : lookup i s'.users ≡ some (named name slot' u) =
            sym (ap (λ (x : Store). lookup i x.users) stores)
            ∙ ground (arith, found, lookup-update_user i i (named name slot') s.users) in
          sole_holder name slot i (named name slot' u) s'
            (subst IsWellFormed (ap (λ r. r.0) h) (claim_username-IsWellFormed i name s w)) row refl
            (ap some slots) live
    ]
