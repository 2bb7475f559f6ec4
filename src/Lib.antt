-- ===== src/Lib.antt =====
-- Rosette is a messenger whose relays hold end-to-end encrypted messages in queues, with a directory
-- that verifies phone numbers and keeps user names and recovery bundles. This library models, in
-- Rust's words spelled as antt spells names, the parts below and shows what makes them correct.
--
-- The parts.
--   Prelude     helpers: lists over the native numbers, Boolean tests, byte strings, signed integers,
--               and maps as association lists with the laws of lookup, insertion and removal.
--   Proto       proto/src: attestation.rs (Proto.Attestation), auth.rs (Proto.Auth), envelope.rs
--               (Proto.Envelope), error.rs (Proto.Error), framing.rs (Proto.Framing), limits.rs
--               (Proto.Limits), link.rs (Proto.Link), pow.rs (Proto.Pow), and the messages of wire.rs
--               (Proto.Wire).
--   Relay       relay/src/state.rs. Relay.State has the data and the tables of the schema;
--               Relay.Limits the rate limit and the storage bound; Relay.Gate what guards the creation
--               of queues (issue_pow_challenge, consume_attestation, consume_pow); Relay.Queues the
--               operations (Create, Subscribe, Push, Mailbox, Group, Ack) and the SQL statements that
--               they run (Tables); Relay.Handle the dispatch `handle` and the histories of calls.
--               Relay.Open is RelayState::open, and Relay.Persist relates the tables to the queues.
--               Relay.Net has the request loop of handle_connection in relay/src/net.rs.
--               Relay.Epochs, Delivery, Storage, Admission and Rate hold theorems.
--   Directory   directory/src: config.rs (Directory.Config), ratelimit.rs (Directory.RateLimit),
--               verify.rs (Directory.Verify), username.rs and the loop of claim_username in store.rs
--               (Directory.Username), upsert_backup and verify_backup_auth in store.rs
--               (Directory.Backup), the tables and all other calls of store.rs (Directory.Store: Users,
--               Handles, Sessions, Pairing, Erasure; Calls has sequences of them), search.rs
--               (Directory.Search), attestation.rs (Directory.Attestation) and the handlers of api.rs
--               (Directory.Api: Accounts, Discovery, Recovery; Requests has the routes and sequences of
--               requests). Store.Invariant, Gone, Holders and Cooling, Attestation.Accepted
--               and the other modules of Api hold theorems.
--   Core        core/src: the recovery phrase and the bundle of backup.rs (Core.Phrase, Core.Backup), the
--               tables of storage.rs (Core.Storage) and the snapshot of session.rs (Core.Session).
--               Core.Outcome is what a call ends with, a panic included.
--   Ffi         ffi/src/lib.rs: enrolment, the change of the PIN, the local check and the proof for the
--               directory (Ffi.Recovery), and new_from_backup (Ffi.Restore).
--   Engine      engine/src/chat_engine.rs: what pump_one does with a push, persist, try_ack and the state
--               that resume rebuilds (Engine.Receive).
--   Tests       a small relay with simple functions for the cryptography, and runs.
--
-- How they interact. A client's message reaches `RelayState::handle`, which calls one operation. Each
-- operation holds the one mutex from its first read of the state to its last write, so concurrent
-- connections are a sequence of calls: `History p s events t` says that the calls `events`, newest
-- first, lead from `s` to `t`, with settings of the attestation key between them. The directory signs
-- the attestation tokens that the relay checks (Proto.Attestation is what they share). A request to
-- the directory reaches a handler of api.rs, which calls the limiter, the vendor and the store; `serve`
-- runs one request and `serve_all` a sequence of them, each with what it meets (`Moment`).
--
-- A phone enrols in recovery (`backup_enroll`), the application uploads the bundle to the directory
-- (`upsert_backup`), and a new phone proves the PIN or the phrase there (`backup_auth_proof`,
-- `verify_backup_auth`) and restores what it is given (`new_from_backup`). A relay with a database is
-- opened again from its tables (`open_state`), and an engine from its store (`resume`).
--
-- How state and values correspond.
--   * `Inner` is a record with the fields of the struct. A map is an association list, in which the
--     first entry of a key counts. `db` is the content of the three tables: a statement is a function
--     on the tables, and is taken to succeed (the code panics where it does not).
--   * A channel to a connection is a number. The field `pushed`, which the code does not have, lists
--     what was sent on the channels.
--   * An array of bytes such as `[u8; 32]` is the number whose big-endian bytes it holds; a vector of
--     bytes is a list of numbers. Unsigned arithmetic wraps (`% 2 ^ 64`), as in a release build.
--   * What a call reads from outside is a record `Env`: the monotonic clock in nanoseconds, the wall
--     clock in seconds, which channels are closed, and the draws of the random generator. Within a call
--     the clock stands still.
--   * A table of the directory is a map or a list of its rows, a SQL statement a function on them, and a
--     transaction one call. A text is the list of its code points. A handler is a computation on
--     `AppState` in `do` notation: it ends with a value, or with the first `ApiError`, and keeps what
--     it has written until then. The field `checks`, which the code does not have, lists the numbers
--     that the vendor was asked to check a code for.
--   * A call of the phone ends with a value, an error or a panic (`Outcome`); where it ends with an error
--     its engine is as before. The session of the engine is of any type with the operations of `Mls`; the
--     fields `applied` and `acked`, which the code does not have, list what the session was given and
--     what was acknowledged.
--   * SHA-256, HMAC, Ed25519 and bincode belong to other crates and are parameters (`Primitives`,
--     `Ed25519`, `Codec`), as are OpenMLS, Argon2id, XChaCha20-Poly1305, base64, the hasher of the
--     limiter, the HTTP client and the OTP vendor of the directory; where a theorem relies on them,
--     the documented law is a hypothesis.
--
-- Bounds and fuel. The loop of `fresh_queue_id` runs over the draws that `Env` lists, and `handle` is
-- `none` where they are used up; a history has only calls that return. The loop of `PowChallenge::solve`
-- takes fuel, of which more than the least nonce that solves is enough. The loop that widens a
-- discriminator takes the rounds that are left before width 9. All other loops are structural.
--
-- Not modelled: errors of the databases other than violated constraints of the
-- directory's, the failures of a restore's disk, and an epoch that the open of a relay cannot read (the
-- panic of a relay with a database that is asked for an inbox with an initial epoch of 2 ^ 63 or more is
-- not modelled: such an inbox is made, and its row cannot be read); overlapping requests to the directory (a handler runs to its end before the next starts);
-- JSON, axum and the headers of responses; the calls of OpenMLS in core/, the rest of engine/, sockets,
-- TLS and the writer of relay/src/net.rs (whether it still takes frames is an input), command line, applications and the other bindings.
pub mod Prelude
pub mod Proto
pub mod Relay
pub mod Directory
pub mod Core
pub mod Ffi
pub mod Engine
pub mod Tests
