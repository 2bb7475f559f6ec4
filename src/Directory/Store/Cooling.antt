-- ===== src/Directory/Store/Cooling.antt =====
-- The cooldown of a number after `erase_user` of directory/src/store.rs.
use rosette.Prelude.{
  ℕ, ◌+◌, ◌*◌, ◌<◌, List, [], ◌∷◌, ◌++◌, true, ◌||◌, some, ◌≡◌, refl, arith, inl, inr, Option-cases,
  ap, ◌∙◌,
}
use rosette.Prelude.Map.{lookup}
use rosette.Prelude.Text.{Text, text_eq_refl}
use rosette.Directory.Store.{Store, User, Cooldown}
use rosette.Directory.Store.Users.{
  find_where, is_live_for, find_or_create_pending_user, mark_verified, set_searchable, cools,
  is_phone_in_cooldown, phone_cooldown_hours,
}
use rosette.Directory.Store.Sessions.{
  create_session, create_restore_token, restore_token_user, consume_restore_token,
}
use rosette.Directory.Store.Pairing.{set_pairing_bootstrap, consume_pairing_bootstrap, store_backup}
use rosette.Directory.Store.Erasure.{erase_user}
use rosette.Directory.Store.Handles.{claim_username}
use rosette.Directory.Store.Calls
use rosette.Directory.Store.Calls.{StoreCall, run, run_all}
use rosette.Directory.Store.Invariant.Claim.{claimed, refused, granted}

cools-append :
    (now : ℕ) (phone : Text) (xs ys : List Cooldown)
    → cools now phone (xs ++ ys) ≡ (cools now phone xs || cools now phone ys)
unfolding cools
cools-append now phone [] ys = refl
cools-append now phone (c ∷ xs) ys = ground (arith, cools-append now phone xs ys)

find_or_create-phone_cooldown :
    (now : ℕ) (hash : Text) (s : Store)
    → (find_or_create_pending_user now hash s).0.phone_cooldown ≡ s.phone_cooldown
unfolding find_or_create_pending_user
find_or_create-phone_cooldown now hash s =
    elim (Option-cases (find_where (is_live_for hash) s.users)) [
      | inl e ↦ rw (e, find_or_create_pending_user) refl
      | inr (i, e) ↦ rw (e, find_or_create_pending_user) refl
    ]

claim_username-phone_cooldown :
    (i : ℕ) (name : Text) (s : Store)
    → (claim_username i name s).0.phone_cooldown ≡ s.phone_cooldown
claim_username-phone_cooldown i name s = elim (claimed i name s) [
  | refused e same ↦ rw same refl
  | granted slot wide widths free same ↦ rw same refl
]

-- No call takes a row of the cooldown away.
run-cools :
    (now : ℕ) (phone : Text) (call : StoreCall) (s : Store)
    → cools now phone s.phone_cooldown ≡ true
    → cools now phone (run call s).phone_cooldown ≡ true
unfolding run create_session create_restore_token restore_token_user consume_restore_token
    set_pairing_bootstrap consume_pairing_bootstrap store_backup mark_verified set_searchable
    erase_user
run-cools now phone (Calls.find_or_create at hash) s h =
    ap (cools now phone) (find_or_create-phone_cooldown at hash s) ∙ h
run-cools now phone (Calls.claim j name) s h =
    ap (cools now phone) (claim_username-phone_cooldown j name s) ∙ h
run-cools now phone (Calls.erase at j) s h =
    rw (cools-append now phone s.phone_cooldown _) (ground (arith, h))
run-cools now phone _ s h = ground (arith, h)

run_all-cools :
    (now : ℕ) (phone : Text) (calls : List StoreCall) (s : Store)
    → cools now phone s.phone_cooldown ≡ true
    → cools now phone (run_all calls s).phone_cooldown ≡ true
unfolding run_all
run_all-cools now phone [] s h = h
run_all-cools now phone (call ∷ calls) s h =
    run_all-cools now phone calls (run call s) (run-cools now phone call s h)

-- For 24 hours after an account is erased its number is in cooldown, whatever is called meanwhile.
pub erased_number_cools :
    (erased_at now i : ℕ) (u : User) (calls : List StoreCall) (s : Store)
    → lookup i s.users ≡ some u
    → now < erased_at + phone_cooldown_hours * 3600
    → is_phone_in_cooldown now u.phone_hash (run_all calls (erase_user erased_at i s)) ≡ true
unfolding is_phone_in_cooldown erase_user cools
erased_number_cools erased_at now i u calls s found soon =
    run_all-cools now u.phone_hash calls (erase_user erased_at i s) (
      rw (cools-append now u.phone_hash s.phone_cooldown _)
        (ground (arith, found, text_eq_refl u.phone_hash)))
