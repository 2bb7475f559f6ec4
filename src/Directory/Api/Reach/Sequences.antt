-- ===== src/Directory/Api/Reach/Sequences.antt =====
-- Sequences of requests (directory/src/api.rs) as calls of directory/src/store.rs.
use rosette.Prelude.{List, [], ◌∷◌}
use rosette.Directory.Api.{AppState, Primitives, Moment}
use rosette.Directory.Api.Requests.{serve, serve_all, Request}
use rosette.Directory.Api.Requests as Requests
use rosette.Directory.Api.Within.Handlers
use rosette.Directory.Api.Reach.{by_calls_steps, throttle-Reaches, check_code-Reaches}
use rosette.Directory.Store.Invariant.{IsWellFormed}
use rosette.Directory.Store.Invariant.Writes.{run_all-IsWellFormed}
use rosette.Directory.Api.Reach.{Reaches, run_all-nil, reach_chain}

module _ (p : Primitives) where
  pub serve-Reaches :
      (m : Moment) (request : Request) (app : AppState) → Reaches app (serve p m request app)
  unfolding serve
  serve-Reaches m Requests.health app = ([], run_all-nil app.store)
  serve-Reaches m (Requests.signup headers peer phone) app =
      (Handlers.signup-Within by_calls_steps p m headers peer phone).change app
  serve-Reaches m (Requests.verify headers peer phone code) app =
      (Handlers.verify-Within by_calls_steps p m (λ now key limit. throttle-Reaches _)
          (check_code-Reaches p m) headers peer phone code).change
        app
  serve-Reaches m (Requests.username headers name) app =
      (Handlers.claim_username-Within by_calls_steps m headers name).change app
  serve-Reaches m (Requests.username_lookup headers name d) app =
      (Handlers.username_lookup-Within by_calls_steps m headers name d).change app
  serve-Reaches m (Requests.get_searchable headers) app =
      (Handlers.get_searchable-Within by_calls_steps m headers).change app
  serve-Reaches m (Requests.set_searchable headers on hash) app =
      (Handlers.set_searchable-Within by_calls_steps m headers on hash).change app
  serve-Reaches m (Requests.attestation_tokens headers) app =
      (Handlers.issue-Within by_calls_steps m headers p).change app
  serve-Reaches m (Requests.delete_account headers) app =
      (Handlers.delete-Within by_calls_steps p m headers).change app
  serve-Reaches m (Requests.search headers prefix) app =
      (Handlers.search-Within by_calls_steps m headers prefix).change app
  serve-Reaches m (Requests.set_pairing_bootstrap headers link) app =
      (Handlers.set_pairing-Within by_calls_steps m headers link).change app
  serve-Reaches m (Requests.request_pairing_bootstrap headers u) app =
      (Handlers.request_pairing-Within by_calls_steps m headers u).change app
  serve-Reaches m (Requests.put_backup headers req) app =
      (Handlers.put_backup-Within by_calls_steps p m headers req).change app
  serve-Reaches m (Requests.restore_begin phone code) app =
      (Handlers.restore_begin-Within by_calls_steps p m (check_code-Reaches p m) phone code).change
        app
  serve-Reaches m (Requests.restore_complete token method auth) app =
      (Handlers.restore_complete-Within by_calls_steps p m token method auth).change app

  -- Whatever requests come in, with whatever clocks, draws and answers of the vendor, the tables end as
  -- some sequence of store calls leaves them: a handler has no other effect on them, on no branch.
  pub serve_all-Reaches :
      (requests : List (Moment × Request)) (app : AppState) → Reaches app (serve_all p requests app)
  unfolding serve_all
  serve_all-Reaches [] app = ([], run_all-nil app.store)
  serve_all-Reaches ((m, request) ∷ requests) app =
      reach_chain app (serve p m request app) (serve_all p requests (serve p m request app))
        (serve-Reaches m request app) (serve_all-Reaches requests (serve p m request app))

  -- From well-formed tables, any sequence of requests leaves well-formed tables.
  pub serve_all-IsWellFormed :
      (requests : List (Moment × Request)) (app : AppState)
      → IsWellFormed app.store
      → IsWellFormed (serve_all p requests app).store
  serve_all-IsWellFormed requests app w =
      let (calls, ends) = serve_all-Reaches requests app in
      rw ends (run_all-IsWellFormed calls app.store w)
