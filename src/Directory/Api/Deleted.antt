-- ===== src/Directory/Api/Deleted.antt =====
-- Accounts after `delete_account` of directory/src/api.rs.
use rosette.Directory.Api.Guards.{authenticate, bearer}
use rosette.Prelude.{ℕ, List, some, ◌≡◌, refl, inr, sym, ap, ◌∙◌, subst}
use rosette.Prelude.Text.{Text, get}
use rosette.Directory.Store.Sessions.{session_user_id}
use rosette.Directory.Store.Erasure.{erase_user}
use rosette.Directory.Store.Invariant.{IsWellFormed}
use rosette.Directory.Store.Calls.{run_all}
use rosette.Directory.Store.Gone.{IsUnreachable, resolve_live, erased_for_good}
use rosette.Directory.Api.{
  AppState, Primitives, Moment, Headers, ◌>>=◌, stored, gets, ok_or, unauthorized,
}
use rosette.Directory.Api.Accounts as Accounts
use rosette.Directory.Api.Requests.{serve, serve_all, Request}
use rosette.Directory.Api.Requests as Requests
use rosette.Directory.Api.Outcome.{bind-ok, ok_or-ok, gets-ok}
use rosette.Directory.Api.Reach.Sequences.{serve_all-Reaches}

-- Who is authenticated has sent a token that resolves to it.
pub authenticate-ok :
    (m : Moment) (headers : Headers) (app app' : AppState) (i : ℕ)
    → authenticate m headers app ≡ (app', inr i)
    → (token : Text) × (session_user_id m.now_unix token app.store ≡ some i) × (app ≡ app')
unfolding authenticate
authenticate-ok m headers app app' i h =
    let (value, app1, a, rest1) =
      bind-ok (ok_or headers.authorization unauthorized) _ app app' i h in
    let (token, app2, b, rest2) = bind-ok (ok_or (bearer value) unauthorized) _ app1 app' i rest1 in
    let (found, app3, c, rest3) =
      bind-ok (gets (λ s. session_user_id m.now_unix token s.store)) _ app2 app' i rest2 in
    let (is1, same1) = ok_or-ok headers.authorization unauthorized app app1 value a in
    let (is2, same2) = ok_or-ok (bearer value) unauthorized app1 app2 token b in
    let (is3, same3) = ok_or-ok found unauthorized app3 app' i rest3 in
    let (is4, same4) = gets-ok (λ s. session_user_id m.now_unix token s.store) app2 app3 found c in
    (
      token,
      ap (λ (s : AppState). session_user_id m.now_unix token s.store) (same1 ∙ same2) ∙ is4 ∙ is3,
      same1 ∙ same2 ∙ same4 ∙ same3,
    )

delete_account-state :
    (p : Primitives) (m : Moment) (headers : Headers) (app app' : AppState) (i : ℕ)
    → authenticate m headers app ≡ (app', inr i)
    → (Accounts.delete_account p m headers app).0
      ≡ record app' { store = erase_user m.now_unix i app'.store }
unfolding Accounts.delete_account ◌>>=◌ stored
delete_account-state p m headers app app' i h = rw h refl

-- `DELETE /account` is for good: whoever it authenticates is never again the caller of a request, nor
-- found by number, handle or search, nor paired with, whatever requests come after.
pub delete_account_for_good :
    (p : Primitives) (m : Moment) (headers : Headers) (app app' : AppState) (i : ℕ)
    (requests : List (Moment × Request))
    → IsWellFormed app.store
    → authenticate m headers app ≡ (app', inr i)
    → IsUnreachable i (serve_all p requests (serve p m (Requests.delete_account headers) app)).store
unfolding serve session_user_id
delete_account_for_good p m headers app app' i requests w h =
    let (token, resolves, same) = authenticate-ok m headers app app' i h in
    let (u, found, live) =
      resolve_live m.now_unix i (get token app.store.sessions) app.store.users resolves in
    let deleted = (Accounts.delete_account p m headers app).0 in
    let is : deleted.store ≡ erase_user m.now_unix i app.store =
      ap (λ (s : AppState). s.store) (delete_account-state p m headers app app' i h)
      ∙ ap (λ (s : AppState). erase_user m.now_unix i s.store) (sym same) in
    let (calls, ends) = serve_all-Reaches p requests deleted in
    subst (IsUnreachable i) (sym (ends ∙ ap (run_all calls) is))
      (erased_for_good m.now_unix i u calls app.store w found)
