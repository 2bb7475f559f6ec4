-- ===== src/Directory/Api/Requests.antt =====
-- The routes of directory/src/api.rs (`router`), and sequences of requests. A request keeps what the
-- handler reads of it; a handler runs to its end before the next one starts.
use rosette.Prelude.{ℕ, List, [], ◌∷◌, Bool, true, false, Option}
use rosette.Prelude.Text.{Text}
use rosette.Directory.Api.{Primitives, Moment, AppState, Headers}
use rosette.Directory.Api.Accounts as Accounts
use rosette.Directory.Api.Discovery as Discovery
use rosette.Directory.Api.Recovery as Recovery
use rosette.Directory.Api.Recovery.{BackupTexts}

pub data Request : Type 0 where
  health : Request
  -- peer, phone
  signup : Headers → ℕ → Text → Request
  -- peer, phone, code
  verify : Headers → ℕ → Text → Text → Request
  username : Headers → Text → Request
  -- nickname, discriminator
  username_lookup : Headers → Text → ℕ → Request
  get_searchable : Headers → Request
  set_searchable : Headers → Bool → Option Text → Request
  attestation_tokens : Headers → Request
  delete_account : Headers → Request
  search : Headers → Text → Request
  set_pairing_bootstrap : Headers → Text → Request
  request_pairing_bootstrap : Headers → ℕ → Request
  put_backup : Headers → BackupTexts → Request
  -- phone, code
  restore_begin : Text → Text → Request
  -- restore_token, method, auth
  restore_complete : Text → Text → Text → Request

module _ (p : Primitives) where
  -- The state after a request.
  unfoldable pub serve : Moment → Request → AppState → AppState
  serve m health app = app
  serve m (signup headers peer phone) app = (Accounts.signup p m headers peer phone app).0
  serve m (verify headers peer phone code) app =
      (Accounts.verify_handler p m headers peer phone code app).0
  serve m (username headers nickname) app = (Discovery.claim_username m headers nickname app).0
  serve m (username_lookup headers nickname d) app =
      (Discovery.username_lookup m headers nickname d app).0
  serve m (get_searchable headers) app = (Discovery.get_searchable m headers app).0
  serve m (set_searchable headers on hash) app = (Discovery.set_searchable m headers on hash app).0
  serve m (attestation_tokens headers) app = (Discovery.issue_attestation_tokens m headers p app).0
  serve m (delete_account headers) app = (Accounts.delete_account p m headers app).0
  serve m (search headers prefix) app = (Discovery.search m headers prefix app).0
  serve m (set_pairing_bootstrap headers link) app =
      (Discovery.set_pairing_bootstrap m headers link app).0
  serve m (request_pairing_bootstrap headers user_id) app =
      (Discovery.request_pairing_bootstrap m headers user_id app).0
  serve m (put_backup headers req) app = (Recovery.put_backup p m headers req app).0
  serve m (restore_begin phone code) app = (Recovery.restore_begin p m phone code app).0
  serve m (restore_complete token method auth) app =
      (Recovery.restore_complete p m token method auth app).0

  unfoldable pub serve_all : List (Moment × Request) → AppState → AppState
  serve_all [] app = app
  serve_all ((m, request) ∷ requests) app = serve_all requests (serve m request app)

unfoldable pub begins_restore : Request → Bool
begins_restore (restore_begin phone code) = true
begins_restore _ = false
