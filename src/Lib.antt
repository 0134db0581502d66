-- ===== src/Lib.antt =====
-- A verification library for the SKF service: a JSON-RPC service in Rust that signs, encrypts and
-- manages containers on cryptographic tokens through a vendor's SKF library.
--
-- The parts of the program and the files that model them:
--
-- - Session: `src/session/auth.rs` (Session/Auth: `AuthTable`, `grant`, `check`,
--   `invalidate_device`; the clock is an argument), `src/session/handles.rs` (Session/Handles:
--   `HandleTable`, with the accessors of the four kinds of resource as one function of the kind;
--   Session/Handles/History says what a history of issues and removals leaves held),
--   `src/session/mod.rs` (Session/State: `SessionState`, `generate_session_id` from its random
--   bytes), and `src/session/registry.rs` (Session/Registry: the map of live sessions).
-- - Protocol: `src/protocol/mod.rs` and, in Protocol/Params, `src/protocol/params.rs`. `serde_json`
--   values are a data type; the codec of the crate `base64` is a parameter, of which
--   Protocol/Params/Limits states what its documentation says.
-- - Provider: `src/provider/mod.rs`, the traits of a provider and of its guards as one record of
--   operations over a state that holds all that the library and the token may change. A guard is
--   its handle, and its `Drop` the operation that closes it. Provider/Fake is `src/provider/fake.rs`.
-- - Exec: how a handler runs. A handler is a function of the session and of the provider's state; it
--   is built of steps that take the rest of the handler, so that the guards that a step makes are
--   dropped when the rest ends, by an answer or by a panic. It also lists what it did: the providers
--   it resolved, the guards it made and dropped, the calls, and the authorization checks.
-- - Domain: `src/domain`: one function per handler, of the parameters, the language and the context
--   (`ServerContext`, the clock and the functions of crates). Domain/Dispatch is the part of
--   `handle_request` in `src/main.rs` that calls them, Domain/Classification is
--   `src/domain/classification.rs`.
-- - Der: the DER encoders of `src/crypto/mod.rs`; in Der/Signature the signature that `SignData` of
--   `src/domain/crypto.rs` writes, in Der/Names the subject and in Der/Requests the keys, the request
--   and its text that `CreatePKCS10` writes.
-- - Config: `src/config/mod.rs`: `expand_env_vars`, `resolve_lib_path`, `validate` and
--   `allows_remote`, with the environment as an argument.
-- - Logging: `src/logging.rs`: `sanitize`, `level_from_env` and `RotatingFileLogger` over a map of
--   files; Logging/Places says where a rotation moves each file, Logging/Retention has the list of
--   segments that the files stand for.
-- - Native: the vendor's library. `Library` is what it exports (`src/skf/types.rs`,
--   `src/skf/api.rs`), each function a parameter that may be missing; Native/Api is `SkfApi`, and
--   Native/Buffers and Native/Guards are the buffers and the guards of `src/provider/native.rs`.
-- - Service: the dispatcher of `src/main.rs`. Service/Devices, Service/Hashes and Service/Queries
--   are the branches of `handle_request` that work on guards, which they keep in the session's table
--   of handles; Service/Raw and its children the branches that call a library without guards;
--   Service/Dispatch runs a branch by its name, Service/Requests is `handle_request` as a whole, and
--   Service/Connection is `JsonRpcSession::handle` with the slot of `src/session/registry.rs`.
--   Service/Ownership counts the native resources that are alive in what a branch did, in
--   Service/Ownership/Closed for the runs of two branches that end with an answer.
-- - Server: `bind_with_progress` and the admission of `src/server/mod.rs`, with the stages of
--   `src/service_state.rs`; the machine around it is a record of functions. Server/Status is the
--   status file of `src/service_state.rs`.
-- - Common: what the files share. Tests: the theorems at concrete inputs, and a run of a handler.
--
-- A request is dispatched to a handler, which reads its parameters (Protocol/Params), resolves a
-- provider, opens a device, an application and a container, asks the session for a grant
-- (Session/State), calls the provider and answers. `CheckPIN` is the handler that adds a grant. The
-- branches of Service find a guard by its handle (Session/Handles) or open what they use themselves,
-- and a connection runs its requests one after another.
--
-- Exec/Release, Exec/Login and Exec/Grants each say what a run must keep to, with a rule per step;
-- the folders of the same names under Domain apply the rules to the steps of src/domain and to each
-- handler, and Domain/Dispatch/Safety collects them over all methods.
--
-- Bounds. The counter of handles is a `u64` and written out modulo 2 ^ 64, `as u32` and `as u8` are
-- remainders; a text is its list of code points, and its length in bytes is that of UTF-8. Two
-- functions run on fuel: the reader of DER elements in Der/Reading, which is part of the
-- specification, and the loop of `expand_env_vars`, whose fuel is the length of the path, which is
-- enough since each round reads a character.
-- The clock and the logger's count of bytes are natural numbers that do not overflow.
--
-- Not modelled: the branch `IssueCertificate` of `src/main.rs`, which runs openssl and which the
-- routing takes as an argument; what a request that ran out of time does afterwards; the lock
-- around the vendor's library and the sharing of guards by `Arc` in `src/provider/native.rs`; the
-- sockets, the loops that accept and the page of `src/server/mod.rs`; reading and parsing the
-- configuration's file; the Windows service and diagnostics. Logging in the handlers is left out,
-- and so is how a record becomes a JSON line.
pub mod Common
pub mod Session
pub mod Protocol
pub mod Config
pub mod Logging
pub mod Provider
pub mod Native
pub mod Exec
pub mod Der
pub mod Domain
pub mod Service
pub mod Server
pub mod Tests
