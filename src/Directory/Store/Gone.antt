-- ===== src/Directory/Store/Gone.antt =====
-- What is left of a user after `erase_user` of directory/src/store.rs.
use rosette.Prelude.{
  ℕ, List, [], ◌∷◌, true, false, ◌==◌, Option, none, some, ◌≡◌, refl, arith, inl, inr, Option-cases,
  Bool-cases, ◌≢◌, ap, sym, ◌∙◌,
}
use rosette.Prelude.Map.{Map, lookup, lookup-insert}
use rosette.Prelude.Text.{Text, get}
use rosette.Directory.Store.{Store, User, Session, is_live}
use rosette.Directory.Store.Users.{
  update_user, find_where, is_live_for, pending_user, find_or_create_pending_user, mark_verified,
  set_searchable, find_user_by_phone_hash, is_verified, is_searchable, bucket, in_bucket,
}
use rosette.Directory.Store.Handles.{claim_username, named, find_user_by_handle, has_handle}
use rosette.Directory.Store.Sessions.{
  create_session, restore_token_user, create_restore_token, consume_restore_token, session_user_id,
  resolve,
}
use rosette.Directory.Store.Pairing.{set_pairing_bootstrap, consume_pairing_bootstrap, store_backup}
use rosette.Directory.Store.Erasure.{erase_user, erased}
use rosette.Directory.Store.Calls
use rosette.Directory.Store.Calls.{StoreCall, run, run_all}
use rosette.Directory.Store.Rows.{
  lookup-update_user, find_where-some, newest_where-some, lists, entries_where-lists,
}
use rosette.Directory.Store.Invariant.{IsWellFormed}
use rosette.Directory.Store.Invariant.Claim.{claimed, refused, granted}
use rosette.Directory.Store.Invariant.Writes.{run-IsWellFormed}

-- The row is there, and deleted.
abbrev pub IsGone : ℕ → Store → Type 0
IsGone i s = (u : User) × (lookup i s.users ≡ some u) × (is_live u ≡ false)

update-IsGone :
    (i j : ℕ) (set : User → User) (s t : Store)
    → t.users ≡ update_user j set s.users
    → ((u : User) → is_live u ≡ false → is_live (set u) ≡ false)
    → IsGone i s
    → IsGone i t
update-IsGone i j set s t e keeps (u, found, dead) = elim (Bool-cases (j == i)) [
  | inl hit ↦ (set u, ground (arith, e, lookup-update_user j i set s.users), keeps u dead)
  | inr miss ↦ (u, ground (arith, e, lookup-update_user j i set s.users), dead)
]

same-IsGone : (i : ℕ) (s t : Store) → t.users ≡ s.users → IsGone i s → IsGone i t
same-IsGone i s t e (u, found, dead) = (u, ap (lookup i) e ∙ found, dead)

find_or_create-IsGone :
    (i now : ℕ) (phone : Text) (s : Store)
    → IsWellFormed s
    → IsGone i s
    → IsGone i (find_or_create_pending_user now phone s).0
unfolding find_or_create_pending_user
find_or_create-IsGone i now phone s w (u, found, dead) =
    elim (Option-cases (find_where (is_live_for phone) s.users)) [
      | inr (j, e) ↦ rw (e, find_or_create_pending_user) (u, found, dead)
      | inl e ↦
          rw (e, find_or_create_pending_user)
            (
              u,
              ground (
                arith,
                w.issued i u found,
                found,
                lookup-insert s.next_user_id i (pending_user now phone) s.users,
              ),
              dead,
            )
    ]

claim-IsGone :
    (i j : ℕ) (name : Text) (s : Store) → IsGone i s → IsGone i (claim_username j name s).0
claim-IsGone i j name s g = elim (claimed j name s) [
  | refused e same ↦ rw same g
  | granted slot wide widths free same ↦ rw same (
      update-IsGone i j (named name slot) s
        (record s { nickname_widths = widths; users = update_user j (named name slot) s.users })
        refl (λ u d. d) g)
]

run-IsGone :
    (i : ℕ) (call : StoreCall) (s : Store) → IsWellFormed s → IsGone i s → IsGone i (run call s)
unfolding run create_session create_restore_token restore_token_user consume_restore_token
    set_pairing_bootstrap consume_pairing_bootstrap store_backup mark_verified set_searchable
    erase_user
run-IsGone i (Calls.find_or_create now phone) s w g = find_or_create-IsGone i now phone s w g
run-IsGone i (Calls.verified j) s w g =
    update-IsGone i j (λ u. record u { verified = true }) s (mark_verified j s) refl (λ u d. d) g
run-IsGone i (Calls.searchable j on hash) s w g =
    update-IsGone i j _ s (set_searchable j on hash s) refl (λ u d. d) g
run-IsGone i (Calls.claim j name) s w g = claim-IsGone i j name s g
run-IsGone i (Calls.erase now j) s w g =
    update-IsGone i j (erased now) s (erase_user now j s) refl (λ u d. refl) g
run-IsGone i (Calls.new_session now token j) s w g =
    same-IsGone i s (run (Calls.new_session now token j) s) (ground arith) g
run-IsGone i (Calls.new_restore_token now token j ttl) s w g = g
run-IsGone i (Calls.read_restore_token now token) s w g =
    same-IsGone i s (run (Calls.read_restore_token now token) s) (ground arith) g
run-IsGone i (Calls.drop_restore_token token) s w g = g
run-IsGone i (Calls.set_bootstrap now j link) s w g =
    same-IsGone i s (run (Calls.set_bootstrap now j link) s) (ground arith) g
run-IsGone i (Calls.take_bootstrap j) s w g =
    same-IsGone i s (run (Calls.take_bootstrap j) s) (ground arith) g
run-IsGone i (Calls.put_bundle now j b) s w g =
    same-IsGone i s (run (Calls.put_bundle now j b) s) (ground arith) g
run-IsGone i (Calls.prove j a) s w g = g

pub run_all-IsGone :
    (i : ℕ) (calls : List StoreCall) (s : Store)
    → IsWellFormed s
    → IsGone i s
    → IsWellFormed (run_all calls s) × IsGone i (run_all calls s)
unfolding run_all
run_all-IsGone i [] s w g = (w, g)
run_all-IsGone i (call ∷ calls) s w g =
    run_all-IsGone i calls (run call s) (run-IsWellFormed call s w) (run-IsGone i call s w g)

-- No query returns the user.
pub record IsUnreachable (i : ℕ) (s : Store) : Type 0 where
  pub no_session : (now : ℕ) (token : Text) → session_user_id now token s ≢ some i
  pub no_phone : (phone : Text) → find_user_by_phone_hash phone s ≢ some i
  pub no_handle : (name : Text) (d : ℕ) → find_user_by_handle name d s ≢ some i
  pub no_flags : (is_verified i s ≡ none) × (is_searchable i s ≡ none)
  pub no_search : (prefix : Text) → lists i (bucket prefix s) ≡ false
  pub no_pairing : (consume_pairing_bootstrap i s).1 ≡ none

-- A token is resolved to a user who is live.
pub resolve_live :
    (now i : ℕ) (o : Option Session) (users : Map User)
    → resolve now o users ≡ some i
    → (u : User) × (lookup i users ≡ some u) × (is_live u ≡ true)
resolve_live now i none users e = cc
resolve_live now i (some session) users e = elim (Option-cases (lookup session.user_id users)) [
  | inl f ↦ absurd (ground (arith, f))
  | inr (u, f) ↦
      let own : session.user_id ≡ i = ground (arith, f) in
      (u, ap (λ j. lookup j users) (sym own) ∙ f, ground (arith, f))
]

pub IsGone-IsUnreachable : (i : ℕ) (s : Store) → IsWellFormed s → IsGone i s → IsUnreachable i s
unfolding session_user_id find_user_by_phone_hash find_user_by_handle is_verified is_searchable
    bucket consume_pairing_bootstrap
IsGone-IsUnreachable i s w (u, found, dead) = record {
  no_session = λ now token e.
      let (v, there, live) = resolve_live now i (get token s.sessions) s.users e in
      ground (arith, live);
  no_phone = λ phone e.
      let (v, there, live) = newest_where-some (is_live_for phone) s.users i w.distinct e in
      ground (arith, live);
  no_handle = λ name d e.
      let (v, there, live) = find_where-some (has_handle name d) s.users i w.distinct e in
      ground (arith, live);
  no_flags = (ground (arith, dead), ground (arith, dead));
  no_search = λ prefix. elim (Bool-cases (lists i (bucket prefix s))) [
    | inr miss ↦ miss
    | inl hit ↦
        let (v, there, live) = entries_where-lists (in_bucket prefix) s.users i w.distinct hit in
        absurd (ground (arith, live))
  ];
  no_pairing = ground (arith, dead);
}

-- After an account is erased no calls bring it back: no token, no number, no handle and no search
-- finds the user again, and its pairing bootstrap is not served, whatever is called in whatever order.
pub erased_for_good :
    (now i : ℕ) (u : User) (calls : List StoreCall) (s : Store)
    → IsWellFormed s
    → lookup i s.users ≡ some u
    → IsUnreachable i (run_all calls (erase_user now i s))
unfolding erase_user run
erased_for_good now i u calls s w found =
    let after : IsGone i (erase_user now i s) =
      (erased now u, ground (arith, found, lookup-update_user i i (erased now) s.users), refl) in
    let (w', gone) =
      run_all-IsGone i calls (erase_user now i s) (run-IsWellFormed (Calls.erase now i) s w)
        after in
    IsGone-IsUnreachable i (run_all calls (erase_user now i s)) w' gone
