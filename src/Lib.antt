-- ===== src/Lib.antt =====
-- Verification of the Rust API Stack: the parts that decide who may call a service.
--
-- The program generates REST, JSON-RPC and file services, whose servers call a few crates for
-- every request. Each is a part of this library:
--
-- Auth: crates/core/ras-auth-core. `authorize_request` (authorize.rs) takes a credential from the
--   headers (transport/credential.rs), checks CSRF for cookies (transport/csrf.rs), asks an
--   `AuthProvider` who the caller is, and checks the permission groups. Auth/Cookie, Auth/Csrf,
--   Auth/Transport, Auth/Redaction, Auth/Permissions and Auth/Authorize model one file each, Auth/Log
--   models `sanitize_log_detail` (lib.rs), and Auth/Jwt models the provider of
--   crates/identity/ras-identity-session/src/auth.rs. The crates http and cookie are the parameter
--   `Http` of Auth/Http.
-- Identity/Session: crates/identity/ras-identity-session and the traits of
--   crates/core/ras-identity-core. Config models config.rs, Jwt models jwt.rs, Service models
--   session.rs. `begin_session` asks an identity provider, issues claims, keeps the session and signs
--   a token; `verify_session` reads one. Base64, serde_json and HMAC are the parameter `JwtLibrary`.
-- Identity/StateStore: crates/identity/ras-identity-oauth2/src/state.rs, the pending OAuth2 flows.
-- Identity/OAuth2: client/mod.rs, client/id_token.rs and config.rs there. `handle_callback` takes a
--   pending flow out of the store, checks the callback against it, and exchanges the code. The
--   provider is the parameter `OAuth2HttpTransport`, and base64 with serde_json `IdTokenLibrary`.
--   Provider models provider.rs up to the user information that an identity is made of.
-- Identity/Local: crates/identity/ras-identity-local/src/lib.rs, users with passwords. `add_user`
--   is its two locked halves. Argon2 is the parameter `Argon2`.
-- Manifest: crates/specs/ras-permission-manifest/src/lib.rs, the requirements of operations.
-- Rpc/Types: crates/rpc/ras-jsonrpc-types, the requests, responses and errors of JSON-RPC.
-- Rpc/Manager: crates/rpc/bidirectional/ras-jsonrpc-bidirectional-server/src/manager.rs, the
--   connections and their subscriptions.
-- Rpc/Context: connection.rs and subscriptions.rs there. `subscribe` and `unsubscribe` change the
--   topics of a connection, the service's counter and the manager together.
-- Rpc/Server and Rpc/Wire: the server's errors (error.rs), and the messages and frames.
-- Rpc/Handler: handler/mod.rs there. Handler dispatches a frame (`handle_websocket_message`),
--   Revalidation is `revalidate_credentials`, Lifecycle the timers, Loop `supervise`, `write` and one
--   turn of the loop, Run the whole of `run_with_io`. The service's callbacks are the record
--   `MessageHandler`; they may change the connection's context and the service's own state.
-- Rpc/Upgrade: upgrade.rs there: the token of an upgrade request, and whom the socket is opened for.
-- Files: crates/rest/ras-file-core/src/lib.rs. Filename and Disposition make file names safe, Download
--   puts one into a header, Incoming reads a part of an upload within its limit.
-- Base: what Rust's standard library gives: texts as lists of code points, hash maps as lists of
--   pairs, sorting, results, and signed integers for times.
--
-- Conventions. A stateful method takes the state and returns the new one, beside its result where it
-- has one. What a call reads of clocks, randomness and tasks is an argument. A call that holds a lock
-- is one step, and sequences of steps stand for concurrent callers. A method that takes several locks
-- in turn is defined as its steps with no other call between them. For `add_user`, `unsubscribe` of a
-- context and `remove_connection` the steps are definitions of their own, and Identity/Local/Adding,
-- Rpc/Context/Mirror and Rpc/Manager/Interleaved let other calls come between them; for
-- `begin_session` and `revalidate_credentials` nothing comes between. Times are nanoseconds or
-- seconds as in the source; atomics wrap at 2^64. The source's loops are recursion on the list, the text or the offset that they run through,
-- so that no fuel is needed; `drain` counts its rounds, and one more than the chunks of the stream is
-- enough. The handler loop runs over a list of turns: for each, how every wait in it ended (what other
-- tasks did to the connection until then, the time, whether a timer ticked, what the auth provider
-- would answer) and which event was ready. Work that is abandoned when a wait is interrupted is taken
-- to have had no effect, so what a callback did before is not modelled. A serde_json
-- value is a type parameter.
--
-- Not modelled: the macros, the HTTP servers, the upgrade of a connection by axum, the queue in front
-- of a socket, HTTP calls to OAuth2 providers, how an OAuth2 flow starts and how user information is
-- mapped to an identity, logging, metrics, the generated clients, and the time that a comparison
-- takes.
pub mod Base
pub mod Identity
pub mod Auth
pub mod Manifest
pub mod Rpc
pub mod Files
