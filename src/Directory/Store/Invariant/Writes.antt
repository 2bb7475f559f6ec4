-- ===== src/Directory/Store/Invariant/Writes.antt =====
-- The writes of directory/src/store.rs, one by one and in sequences, and what they keep.
use rosette.Prelude.{
  ℕ, List, [], ◌∷◌, Bool, true, Option, none, some, ◌≡◌, refl, arith, inl, inr, Option-cases, ◌≢◌,
  ap, sym, ◌∙◌,
}
use rosette.Prelude.Map.{Map, lookup}
use rosette.Prelude.Map.Size.{insert-HasDistinctKeys}
use rosette.Prelude.Text.{Text, text_eq_iff}
use rosette.Directory.Store.{Store, User, is_live}
use rosette.Directory.Store.Users.{
  find_where, is_live_for, pending_user, find_or_create_pending_user, mark_verified, set_searchable,
}
use rosette.Directory.Store.Sessions.{
  create_session, create_restore_token, restore_token_user, consume_restore_token,
}
use rosette.Directory.Store.Pairing.{set_pairing_bootstrap, consume_pairing_bootstrap, store_backup}
use rosette.Directory.Store.Erasure.{erase_user, erased}
use rosette.Directory.Store.Calls
use rosette.Directory.Store.Calls.{StoreCall, run, run_all}
use rosette.Directory.Store.Rows.{update_user-HasDistinctKeys, find_where-none}
use rosette.Directory.Store.Invariant.{
  IsWellFormed, SameHandle, From-update_user, From-OneHolder, From-Issued, update-IsWellFormed,
  same_users-IsWellFormed,
}
use rosette.Directory.Store.Invariant.Cases.{insert-cases, update-cases}
use rosette.Directory.Store.Invariant.Claim.{claim_username-IsWellFormed}

mark_verified-IsWellFormed : (i : ℕ) (s : Store) → IsWellFormed s → IsWellFormed (mark_verified i s)
unfolding mark_verified
mark_verified-IsWellFormed i s w =
    update-IsWellFormed i (λ u. record u { verified = true }) s (λ u. (refl, refl))
      (λ u. (refl, refl)) w

set_searchable-IsWellFormed :
    (i : ℕ) (on : Bool) (hash : Option Text) (s : Store)
    → IsWellFormed s
    → IsWellFormed (set_searchable i on hash s)
unfolding set_searchable
set_searchable-IsWellFormed i on hash s w =
    update-IsWellFormed i _ s (λ u. (refl, refl)) (λ u. (refl, refl)) w

-- A number that no live row has.
no_live_row :
    (phone : Text) (users : Map User)
    → find_where (is_live_for phone) users ≡ none
    → (i : ℕ) (u : User) → lookup i users ≡ some u
    → is_live u ≡ true
    → u.phone_hash ≢ phone
no_live_row phone users e i u f l p =
    let fails = find_where-none (is_live_for phone) users i u e f in
    ground (arith, (text_eq_iff u.phone_hash phone).1 p)

find_or_create-IsWellFormed :
    (now : ℕ) (phone : Text) (s : Store)
    → IsWellFormed s
    → IsWellFormed (find_or_create_pending_user now phone s).0
unfolding find_or_create_pending_user
find_or_create-IsWellFormed now phone s w =
    elim (Option-cases (find_where (is_live_for phone) s.users)) [
      | inr (i, e) ↦
          rw (e, find_or_create_pending_user)
            (record {
              distinct = w.distinct;
              issued = λ j u f. omega (arith, w.issued j u f);
              one_live = w.one_live;
              scrubbed = w.scrubbed;
              one_holder = w.one_holder;
            })
      | inl e ↦
          let row = pending_user now phone in
          let n = s.next_user_id in
          let alone = no_live_row phone s.users e in
          rw (e, find_or_create_pending_user)
            (record {
              distinct = insert-HasDistinctKeys n row s.users w.distinct;
              issued = λ j u f. elim (insert-cases n j row u s.users f) [
                | inl (here, is) ↦ omega arith
                | inr old ↦ omega (arith, w.issued j u old)
              ];
              one_live = λ i j u v f g l k p. elim (insert-cases n i row u s.users f) [
                | inl (here, is) ↦ elim (insert-cases n j row v s.users g) [
                  | inl (there, is') ↦ sym here ∙ there
                  | inr old ↦
                      absurd (alone j v old k (sym p ∙ ap (λ (x : User). x.phone_hash) (sym is)))
                ]
                | inr old ↦ elim (insert-cases n j row v s.users g) [
                  | inl (there, is') ↦
                      absurd (alone i u old l (p ∙ ap (λ (x : User). x.phone_hash) (sym is')))
                  | inr old' ↦ w.one_live i j u v old old' l k p
                ]
              ];
              scrubbed = λ i u f l. elim (insert-cases n i row u s.users f) [
                | inl (here, is) ↦ absurd (ground (arith, is))
                | inr old ↦ w.scrubbed i u old l
              ];
              one_holder = λ i j u v name slot f g a b c d.
                  elim (insert-cases n i row u s.users f) [
                    | inl (here, is) ↦ absurd (ground (arith, is))
                    | inr old ↦ elim (insert-cases n j row v s.users g) [
                      | inl (there, is') ↦ absurd (ground (arith, is'))
                      | inr old' ↦ w.one_holder i j u v name slot old old' a b c d
                    ]
                  ];
            })
    ]

erase_user-IsWellFormed :
    (now i : ℕ) (s : Store) → IsWellFormed s → IsWellFormed (erase_user now i s)
unfolding erase_user
erase_user-IsWellFormed now i s w =
    let handles =
      From-update_user SameHandle i (erased now) s.users (λ u. (refl, refl)) (λ u. (refl, refl)) in
    record {
      distinct = update_user-HasDistinctKeys i (erased now) s.users w.distinct;
      issued = From-Issued SameHandle s.users _ s.next_user_id handles w.issued;
      one_live = λ j k u v f g l m p. elim (update-cases i j (erased now) u s.users f) [
        | inl (a, here, old, is) ↦ absurd (ground (arith, is))
        | inr old ↦ elim (update-cases i k (erased now) v s.users g) [
          | inl (a, here, old', is) ↦ absurd (ground (arith, is))
          | inr old' ↦ w.one_live j k u v old old' l m p
        ]
      ];
      scrubbed = λ j u f l. elim (update-cases i j (erased now) u s.users f) [
        | inl (a, here, old, is) ↦ ground (arith, is)
        | inr old ↦ w.scrubbed j u old l
      ];
      one_holder = From-OneHolder s.users _ handles w.one_holder;
    }

-- A call that leaves the users alone.
unchanged_users :
    (call : StoreCall) (s : Store)
    → (run call s).users ≡ s.users
    → (run call s).next_user_id ≡ s.next_user_id
    → IsWellFormed s
    → IsWellFormed (run call s)
unchanged_users call s e n w = same_users-IsWellFormed s (run call s) e n w

pub run-IsWellFormed : (call : StoreCall) (s : Store) → IsWellFormed s → IsWellFormed (run call s)
unfolding run create_session create_restore_token restore_token_user consume_restore_token
    set_pairing_bootstrap consume_pairing_bootstrap store_backup
run-IsWellFormed (Calls.find_or_create now phone) s w = find_or_create-IsWellFormed now phone s w
run-IsWellFormed (Calls.verified i) s w = mark_verified-IsWellFormed i s w
run-IsWellFormed (Calls.searchable i on hash) s w = set_searchable-IsWellFormed i on hash s w
run-IsWellFormed (Calls.claim i name) s w = claim_username-IsWellFormed i name s w
run-IsWellFormed (Calls.erase now i) s w = erase_user-IsWellFormed now i s w
run-IsWellFormed (Calls.new_session now token i) s w =
    unchanged_users (Calls.new_session now token i) s (ground arith) (ground arith) w
run-IsWellFormed (Calls.new_restore_token now token i ttl) s w =
    unchanged_users (Calls.new_restore_token now token i ttl) s refl refl w
run-IsWellFormed (Calls.read_restore_token now token) s w =
    unchanged_users (Calls.read_restore_token now token) s (ground arith) (ground arith) w
run-IsWellFormed (Calls.drop_restore_token token) s w =
    unchanged_users (Calls.drop_restore_token token) s refl refl w
run-IsWellFormed (Calls.set_bootstrap now i link) s w =
    unchanged_users (Calls.set_bootstrap now i link) s (ground arith) (ground arith) w
run-IsWellFormed (Calls.take_bootstrap i) s w =
    unchanged_users (Calls.take_bootstrap i) s (ground arith) (ground arith) w
run-IsWellFormed (Calls.put_bundle now i b) s w =
    unchanged_users (Calls.put_bundle now i b) s (ground arith) (ground arith) w
run-IsWellFormed (Calls.prove i a) s w = unchanged_users (Calls.prove i a) s refl refl w

-- Whatever the calls and their order, the tables stay well formed: user ids are issued once, at most
-- one live user has a number, a deleted user's row has no trace of its number, and no two users, live
-- or deleted, ever hold one handle.
pub run_all-IsWellFormed :
    (calls : List StoreCall) (s : Store) → IsWellFormed s → IsWellFormed (run_all calls s)
unfolding run_all
run_all-IsWellFormed [] s w = w
run_all-IsWellFormed (call ∷ calls) s w =
    run_all-IsWellFormed calls (run call s) (run-IsWellFormed call s w)
