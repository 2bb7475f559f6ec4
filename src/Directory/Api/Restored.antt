-- ===== src/Directory/Api/Restored.antt =====
-- What a successful `restore_complete` of directory/src/api.rs has checked.
use rosette.Prelude.{
  ℕ, List, [], ◌∷◌, if◌then◌else◌, Bool, true, false, ◌&&◌, ◌==◌, none, some, ◌≡◌, refl, arith, inl,
  inr, sym, ap, ◌∙◌, Option-cases, Bool-cases, ltb, length, subst,
}
use rosette.Prelude.Text.{Text, get, remove, get-remove, text_eq, text_eq_iff, text_eq_refl}
use rosette.Prelude.Map.{lookup}
use rosette.Directory.Backup.{
  Backup, BackupUpload, Attempt, RestoreVerdict, ct_eq, expected, is_locked, verify_row,
  count_wrong_pin, verify_backup_auth, match, wrong_pin, wrong_phrase, locked,
}
use rosette.Directory.Backup.Equal.{ct_eq→eq}
use rosette.Directory.Store.{Store, RestoreToken}
use rosette.Directory.Store.Sessions.{restore_token_user, consume_restore_token}
use rosette.Directory.Api.{
  AppState, Primitives, Moment, ◌>>=◌, gets, ensure, ok_or, stored, pure, raise, feature_disabled,
  unauthorized, not_found, bad_request, bad_method, auth_not_base64, bad_auth,
}
use rosette.Directory.Api.Recovery.{
  BackupTexts, encode_bundle, answer, prove, open_bundle, restore_complete, is_pin_method,
}
use rosette.Directory.Api.Outcome.{bind-ok, gets-ok, ensure-ok, stored-ok, ok_or-ok}

-- The verdict is a match only if the proof is that of the row, and its PIN is not locked.
verify_row-match :
    (a : Attempt) (row : Backup) (b : BackupUpload)
    → (verify_row a row).1 ≡ match b
    → (row.bundle ≡ b)
      × (ct_eq a.auth (expected a row) ≡ true)
      × ((a.is_pin && is_locked a.now row.locked_until) ≡ false)
unfolding verify_row count_wrong_pin
verify_row-match a row b h = (ground arith, ground arith, ground arith)

answer-ok :
    (p : Primitives) (m : Moment) (token : Text) (v : RestoreVerdict) (app app' : AppState)
    (r : BackupTexts)
    → answer p m token v app ≡ (app', inr r)
    → (b : BackupUpload) × (v ≡ match b)
      × (encode_bundle p b ≡ r)
      × (record app { store = consume_restore_token token app.store } ≡ app')
unfolding answer stored pure raise ◌>>=◌
answer-ok p m token (match b) app app' r h = (b, refl, cc, cc)
answer-ok p m token (wrong_pin n) app app' r h = cc
answer-ok p m token wrong_phrase app app' r h = cc
answer-ok p m token (locked until) app app' r h = cc

prove-match :
    (m : Moment) (i : ℕ) (proof : List ℕ) (is_pin : Bool) (s : Store) (b : BackupUpload)
    → (prove m i proof is_pin s).1 ≡ some (match b)
    → (row : Backup) × (lookup i s.backups ≡ some row)
      × ((verify_row (record { now = m.now_unix; auth = proof; is_pin = is_pin }) row).1 ≡ match b)
unfolding prove verify_backup_auth
prove-match m i proof is_pin s b h = elim (Option-cases (lookup i s.backups)) [
  | inl e ↦ absurd (ground (arith, e))
  | inr (row, e) ↦ (row, e, ground (arith, e))
]

restore_token-live :
    (now : ℕ) (token : Text) (i : ℕ) (s : Store)
    → (restore_token_user now token s).1 ≡ some i
    → (entry : RestoreToken) × (get token s.restore_tokens ≡ some entry)
      × (entry.user_id ≡ i)
      × (ltb now entry.expires_at ≡ true)
      × ((restore_token_user now token s).0 ≡ s)
unfolding restore_token_user
restore_token-live now token i s h = elim (Option-cases (get token s.restore_tokens)) [
  | inl e ↦ absurd (ground (arith, e))
  | inr (entry, e) ↦ elim (Bool-cases (ltb now entry.expires_at)) [
    | inl live ↦ (entry, e, ground (arith, e), live, rw (e, live, restore_token_user) refl)
    | inr dead ↦ absurd (ground (arith, e, dead))
  ]
]

-- The two methods that a client names.
abbrev pub pin_method : Text
pin_method = b'p' ∷ b'i' ∷ b'n' ∷ []

abbrev pub phrase_method : Text
phrase_method = b'p' ∷ b'h' ∷ b'r' ∷ b'a' ∷ b's' ∷ b'e' ∷ []

is_pin_method-named :
    (method : Text) (is_pin : Bool)
    → is_pin_method method ≡ some is_pin
    → method ≡ (if is_pin then pin_method else phrase_method)
unfolding is_pin_method
is_pin_method-named method is_pin h = elim (Bool-cases (text_eq method pin_method)) [
  | inl e ↦
      let is_true : true ≡ is_pin = ground (arith, e) in
      rw⁻¹ is_true ((text_eq_iff method pin_method).0 e)
  | inr n ↦ elim (Bool-cases (text_eq method phrase_method)) [
    | inl e ↦
        let is_false : false ≡ is_pin = ground (arith, n, e) in
        rw⁻¹ is_false ((text_eq_iff method phrase_method).0 e)
    | inr none_named ↦ absurd (ground (arith, n, none_named))
  ]
]

-- A proof that opens the bundle of a user, by one of the two methods.
pub record IsProven (p : Primitives) (m : Moment) (i : ℕ) (method auth : Text) (row : Backup)
    (s : Store) : Type 0 where
  pub is_pin : Bool
  pub proof : List ℕ
  pub named : method ≡ (if is_pin then pin_method else phrase_method)
  pub decoded : p.decode64 auth ≡ some proof
  pub owned : lookup i s.backups ≡ some row
  pub equal : proof ≡ (if is_pin then row.bundle.auth_pin_hash else row.bundle.auth_phrase_hash)
  pub unlocked : (is_pin && is_locked m.now_unix row.locked_until) ≡ false

proven :
    (p : Primitives) (m : Moment) (token method auth : Text) (i : ℕ) (is_pin : Bool)
    (proof : List ℕ) (v : RestoreVerdict) (bundle : BackupUpload) (r : BackupTexts)
    (s s1 s2 s3 : Store)
    → is_pin_method method ≡ some is_pin
    → p.decode64 auth ≡ some proof
    → s ≡ s1
    → (prove m i proof is_pin s1).1 ≡ some v
    → (prove m i proof is_pin s1).0 ≡ s2
    → v ≡ match bundle
    → encode_bundle p bundle ≡ r
    → consume_restore_token token s2 ≡ s3
    → (row : Backup) × IsProven p m i method auth row s
      × (encode_bundle p row.bundle ≡ r)
      × (remove token s.restore_tokens ≡ s3.restore_tokens)
unfolding prove consume_restore_token
proven p m token method auth i is_pin proof v bundle r s s1 s2 s3 by d e checked after verdict is_r
      ends =
    let (row, owned, good) = prove-match m i proof is_pin s1 bundle (checked ∙ ap some verdict) in
    let (is_b, equal, unlocked) =
      verify_row-match (record { now = m.now_unix; auth = proof; is_pin = is_pin }) row bundle
        good in
    (
      row,
      record {
        is_pin = is_pin;
        proof = proof;
        named = is_pin_method-named method is_pin by;
        decoded = d;
        owned = ap (λ (x : Store). lookup i x.backups) e ∙ owned;
        equal =
            ct_eq→eq proof
              (expected (record { now = m.now_unix; auth = proof; is_pin = is_pin }) row) equal;
        unlocked = unlocked;
      },
      ap (encode_bundle p) is_b ∙ is_r,
      ap (λ (x : Store). remove token x.restore_tokens) e
          ∙ ap (λ (x : Store). remove token x.restore_tokens) after
          ∙ ap (λ (x : Store). x.restore_tokens) ends,
    )

handed_out :
    (p : Primitives) (m : Moment) (token method auth : Text) (i : ℕ) (row : Backup)
    (r : BackupTexts) (s s1 s2 s3 : Store)
    → s ≡ s1
    → (restore_token_user m.now_unix token s1).1 ≡ some i
    → (restore_token_user m.now_unix token s1).0 ≡ s2
    → IsProven p m i method auth row s2
    → encode_bundle p row.bundle ≡ r
    → remove token s2.restore_tokens ≡ s3.restore_tokens
    → (entry : RestoreToken) × (own : Backup) × (get token s.restore_tokens ≡ some entry)
      × (ltb m.now_unix entry.expires_at ≡ true)
      × IsProven p m entry.user_id method auth own s
      × (r ≡ encode_bundle p own.bundle)
      × (get token s3.restore_tokens ≡ none)
handed_out p m token method auth i row r s s1 s2 s3 e found after sound is_r tokens =
    let (entry, there, own, live, kept) = restore_token-live m.now_unix token i s1 found in
    let back : s2 ≡ s = sym after ∙ kept ∙ sym e in
    (
      entry,
      row,
      ap (λ (x : Store). get token x.restore_tokens) e ∙ there,
      live,
      subst (λ x. IsProven p m entry.user_id method auth row x) back
          (subst (λ j. IsProven p m j method auth row s2) (sym own) sound),
      sym is_r,
      sym (ap (get token) tokens)
          ∙ ground (arith, get-remove token token s2.restore_tokens, text_eq_refl token),
    )

open_bundle-ok :
    (p : Primitives) (m : Moment) (token method auth : Text) (i : ℕ) (app app' : AppState)
    (r : BackupTexts)
    → open_bundle p m token method auth i app ≡ (app', inr r)
    → (row : Backup) × IsProven p m i method auth row app.store
      × (encode_bundle p row.bundle ≡ r)
      × (remove token app.store.restore_tokens ≡ app'.store.restore_tokens)
unfolding open_bundle
open_bundle-ok p m token method auth i app app' r h =
    let (is_pin, app5, e, h5) =
      bind-ok (ok_or (is_pin_method method) (bad_request bad_method)) _ app app' r h in
    let (is5, same5) = ok_or-ok (is_pin_method method) (bad_request bad_method) app app5 is_pin e in
    let (proof, app6, f, h6) =
      bind-ok (ok_or (p.decode64 auth) (bad_request auth_not_base64)) _ app5 app' r h5 in
    let (is6, same6) = ok_or-ok (p.decode64 auth) (bad_request auth_not_base64) app5 app6 proof f in
    let (x7, app7, g, h7) =
      bind-ok (ensure (length proof == 32) (bad_request bad_auth)) _ app6 app' r h6 in
    let (is7, same7) = ensure-ok (length proof == 32) (bad_request bad_auth) app6 app7 x7 g in
    let (checked, app8, k, h8) = bind-ok (stored (prove m i proof is_pin)) _ app7 app' r h7 in
    let (is8, same8) = stored-ok (prove m i proof is_pin) app7 app8 checked k in
    let (v, app9, l, h9) = bind-ok (ok_or checked not_found) _ app8 app' r h8 in
    let (is9, same9) = ok_or-ok checked not_found app8 app9 v l in
    let (bundle, verdict, is_r, same_end) = answer-ok p m token v app9 app' r h9 in
    proven p m token method auth i is_pin proof v bundle r app.store app7.store app9.store
      app'.store is5 is6 (ap (λ (x : AppState). x.store) (same5 ∙ same6 ∙ same7)) (is8 ∙ is9)
      (ap (λ (x : AppState). x.store) (same8 ∙ same9)) verdict is_r
      (ap (λ (x : AppState). x.store) same_end)

-- `/v1/backup/restore/complete` hands out a bundle only for a restore token that has not expired, and
-- only for a proof that is, byte for byte, the stored hash of the method named ("pin" or "phrase"),
-- of a PIN that is not locked out; the bundle is that of the token's user, and the token is then gone.
pub restore_complete_proven :
    (p : Primitives) (m : Moment) (token method auth : Text) (app app' : AppState) (r : BackupTexts)
    → restore_complete p m token method auth app ≡ (app', inr r)
    → (entry : RestoreToken) × (row : Backup) × (get token app.store.restore_tokens ≡ some entry)
      × (ltb m.now_unix entry.expires_at ≡ true)
      × IsProven p m entry.user_id method auth row app.store
      × (r ≡ encode_bundle p row.bundle)
      × (get token app'.store.restore_tokens ≡ none)
unfolding restore_complete
restore_complete_proven p m token method auth app app' r h =
    let now = m.now_unix in
    let (config, app1, a, h1) = bind-ok (gets (λ x. x.config)) _ app app' r h in
    let (is1, same1) = gets-ok (λ x. x.config) app app1 config a in
    let (x2, app2, b, h2) =
      bind-ok (ensure config.accounts_enabled feature_disabled) _ app1 app' r h1 in
    let (is2, same2) = ensure-ok config.accounts_enabled feature_disabled app1 app2 x2 b in
    let (found, app3, c, h3) = bind-ok (stored (restore_token_user now token)) _ app2 app' r h2 in
    let (is3, same3) = stored-ok (restore_token_user now token) app2 app3 found c in
    let (i, app4, d, h4) = bind-ok (ok_or found unauthorized) _ app3 app' r h3 in
    let (is4, same4) = ok_or-ok found unauthorized app3 app4 i d in
    let (row, sound, is_r, tokens) = open_bundle-ok p m token method auth i app4 app' r h4 in
    handed_out p m token method auth i row r app.store app2.store app4.store app'.store
      (ap (λ (x : AppState). x.store) (same1 ∙ same2)) (is3 ∙ is4)
      (ap (λ (x : AppState). x.store) (same3 ∙ same4)) sound is_r tokens
