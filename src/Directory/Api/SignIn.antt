-- ===== src/Directory/Api/SignIn.antt =====
-- What a successful end of `verify_handler` (directory/src/api.rs) leaves: the account and its session.
pub mod Approved
use rosette.Directory.Api.Guards.{throttle_ip}
use rosette.Prelude.{
  ℕ, List, Bool, true, false, not, some, ◌≡◌, refl, arith, inl, inr, ◌⊎◌, sym, ap, ◌∙◌,
  Option-cases, subst,
}
use rosette.Prelude.Text.{Text, get, put, get-put, text_eq_iff, text_eq_refl}
use rosette.Prelude.Map.{lookup, lookup-insert}
use rosette.Directory.RateLimit.{check_and_bump_phone, verify_attempts_per_minute}
use rosette.Directory.Verify as Verify
use rosette.Directory.Verify.{
  VerifyError, VendorError, OtpVendor, Argon2, normalize_e164, phone_hash, verify_phone,
}
use rosette.Directory.Store.{Store, User, Session, is_live}
use rosette.Directory.Store.Users.{
  find_or_create_pending_user, mark_verified, find_where, is_live_for, pending_user,
  is_phone_in_cooldown, is_verified,
}
use rosette.Directory.Store.Sessions.{session_user_id, create_session}
use rosette.Directory.Store.Rows.{lookup-update_user, find_where-some}
use rosette.Directory.Store.Invariant.{IsWellFormed}
use rosette.Directory.Api.{
  AppState, Primitives, Moment, Headers, stored, stored_or_internal, gets, ensure, map_err,
  throttle, bad_request, in_cooldown, feature_disabled,
}
use rosette.Directory.Api.Accounts as Accounts
use rosette.Directory.Api.Accounts.{check_code, open_session, to_invalid_phone, of_verify}
use rosette.Directory.Api.Outcome.{
  bind-ok, gets-ok, ensure-ok, stored-ok, stored_or_internal-ok, map_err-ok, throttle-ok, pure-ok,
}

-- The row that is found or made is live, and has the number.
find_or_create-live :
    (now : ℕ) (phone : Text) (s : Store)
    → IsWellFormed s
    → (u : User) × (lookup
          (find_or_create_pending_user now phone s).1
          (find_or_create_pending_user now phone s).0.users
        ≡ some u)
      × (u.phone_hash ≡ phone)
      × (is_live u ≡ true)
unfolding find_or_create_pending_user
find_or_create-live now phone s w = elim (Option-cases (find_where (is_live_for phone) s.users)) [
  | inr (i, e) ↦
      let (u, found, passes) = find_where-some (is_live_for phone) s.users i w.distinct e in
      rw (e, find_or_create_pending_user)
        (u, found, (text_eq_iff u.phone_hash phone).0 (ground arith), ground arith)
  | inl e ↦
      rw (e, find_or_create_pending_user)
        (
          pending_user now phone,
          ground
              (arith, lookup-insert s.next_user_id s.next_user_id (pending_user now phone) s.users),
          refl,
          refl,
        )
]

-- A new session of a live user resolves to it.
session-resolves :
    (now : ℕ) (token : Text) (i : ℕ) (u : User) (s t : Store)
    → create_session now token i s ≡ some t
    → lookup i s.users ≡ some u
    → is_live u ≡ true
    → (session_user_id now token t ≡ some i) × (t.users ≡ s.users)
unfolding create_session session_user_id
session-resolves now token i u s t e found live = elim (Option-cases (get token s.sessions)) [
  | inr (old, taken) ↦ absurd (ground (arith, taken))
  | inl fresh ↦
      let row : Session = record { user_id = i; created_at = now } in
      let made : record s { sessions = put token row s.sessions } ≡ t = ground (arith, fresh) in
      subst (λ (x : Store). (session_user_id now token x ≡ some i) × (x.users ≡ s.users)) made
        (ground (arith, get-put token token row s.sessions, text_eq_refl token, found, live), refl)
]

mark_verified-row :
    (i : ℕ) (u : User) (s : Store)
    → lookup i s.users ≡ some u
    → lookup i (mark_verified i s).users ≡ some (record u { verified = true })
unfolding mark_verified
mark_verified-row i u s found =
    ground (arith, found, lookup-update_user i i (λ u. record u { verified = true }) s.users)

is_verified-row :
    (i : ℕ) (u : User) (s : Store)
    → lookup i s.users ≡ some (record u { verified = true })
    → is_live u ≡ true
    → is_verified i s ≡ some true
unfolding is_verified
is_verified-row i u s found live = ground (arith, found)

-- The account that a session was opened for: its row has the number, it is verified, and the token is
-- its own.
pub record IsSignedIn (now : ℕ) (phone token : Text) (i : ℕ) (s : Store) : Type 0 where
  pub row : User
  pub found : lookup i s.users ≡ some row
  pub has_phone : row.phone_hash ≡ phone
  pub verified : is_verified i s ≡ some true
  pub session : session_user_id now token s ≡ some i

signed_in :
    (now : ℕ) (phone token : Text) (i : ℕ) (s s1 s2 s3 : Store)
    → IsWellFormed s
    → (find_or_create_pending_user now phone s).1 ≡ i
    → (find_or_create_pending_user now phone s).0 ≡ s1
    → mark_verified i s1 ≡ s2
    → create_session now token i s2 ≡ some s3
    → IsSignedIn now phone token i s3
signed_in now phone token i s s1 s2 s3 w is_i is1 is2 made =
    let (u, found, phoned, live) = find_or_create-live now phone s w in
    let found1 : lookup i s1.users ≡ some u =
      sym (ap (λ j. lookup j s1.users) is_i)
      ∙ sym (ap (λ (x : Store). lookup (find_or_create_pending_user now phone s).1 x.users) is1)
      ∙ found in
    let found2 : lookup i s2.users ≡ some (record u { verified = true }) =
      sym (ap (λ (x : Store). lookup i x.users) is2) ∙ mark_verified-row i u s1 found1 in
    let (resolves, users) =
      session-resolves now token i (record u { verified = true }) s2 s3 made found2 live in
    let found3 = ap (lookup i) users ∙ found2 in
    record {
      row = record u { verified = true };
      found = found3;
      has_phone = phoned;
      verified = is_verified-row i u s3 found3 live;
      session = resolves;
    }

not-true : (b : Bool) → not b ≡ true → b ≡ false
not-true true h = cc
not-true false h = refl

pub open_session-ok :
    (p : Primitives) (m : Moment) (headers : Headers) (hashed : Text) (app app' : AppState)
    (r : ℕ × Text)
    → IsWellFormed app.store
    → open_session p m headers hashed app ≡ (app', inr r)
    → (is_phone_in_cooldown m.now_unix hashed app.store ≡ false)
      × IsSignedIn m.now_unix hashed r.1 r.0 app'.store
unfolding open_session
open_session-ok p m headers hashed app app' r w h =
    let now = m.now_unix in
    let (cooling, app1, a, h1) =
      bind-ok (gets (λ s. is_phone_in_cooldown now hashed s.store)) _ app app' r h in
    let (is1, same1) = gets-ok (λ s. is_phone_in_cooldown now hashed s.store) app app1 cooling a in
    let (x2, app2, b, h2) =
      bind-ok (ensure (not cooling) (bad_request in_cooldown)) _ app1 app' r h1 in
    let (is2, same2) = ensure-ok (not cooling) (bad_request in_cooldown) app1 app2 x2 b in
    let (i, app3, c, h3) =
      bind-ok (stored (find_or_create_pending_user now hashed)) _ app2 app' r h2 in
    let (is3, same3) = stored-ok (find_or_create_pending_user now hashed) app2 app3 i c in
    let (x4, app4, d, h4) = bind-ok (stored (λ s. (mark_verified i s, tt))) _ app3 app' r h3 in
    let (is4, same4) = stored-ok (λ s. (mark_verified i s, tt)) app3 app4 x4 d in
    let (x5, app5, e, h5) =
      bind-ok (stored_or_internal (create_session now m.session_token i)) _ app4 app' r h4 in
    let (s5, is5, same5) =
      stored_or_internal-ok (create_session now m.session_token i) app4 app5 x5 e in
    let (ends, same6) = pure-ok (i, m.session_token) app5 app' r h5 in
    let st = λ (x : AppState). x.store in
    let start = ap st (same1 ∙ same2) in
    let final = ap st (same5 ∙ same6) in
    (
      is1 ∙ not-true cooling is2,
      subst (λ (q : ℕ × Text). IsSignedIn now hashed q.1 q.0 app'.store) ends
          (signed_in now hashed m.session_token i app.store app3.store app4.store app'.store w
            (ap (λ (x : Store). (find_or_create_pending_user now hashed x).1) start ∙ is3)
            (ap (λ (x : Store). (find_or_create_pending_user now hashed x).0) start ∙ ap st same3)
            (ap st same4) (is5 ∙ ap some final)),
    )
