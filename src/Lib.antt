-- ===== src/Lib.antt =====
-- ReplicaT4, an S3-compatible proxy that replicates objects over several storage backends: a model
-- of its core, and the theorems that make it correct.
--
-- A client's request reaches one storage, `Arc<dyn StorageBackend>`. It is a single backend, or a
-- multi-backend storage that sends each call to its backends as the read mode and the write mode of
-- the configuration say. A backend keeps its objects in memory or in a bucket of S3.
--
-- Files, and the code that each models (paths from the root of the repository):
-- - Config/Modes, Config/File: src/config.rs. `from_file`, `detect_format`, `parse_content` and
--   `validate` bear the source's names; the loops and tests of `validate` are functions of their
--   own. Config/Valid says what a validated configuration guarantees.
-- - Types/Error, Types/Models: src/types/error.rs and src/types/models.rs. `Result` is the outcome
--   of a Rust call: `Ok`, `Err`, or a panic that unwinds.
-- - Storage/Backend: the trait of src/storage/backend.rs, as a record of operations over a world `W`
--   that holds all that backends reach. A byte stream that has been run to its end is the list of
--   what it yielded.
-- - Storage/HashMap: the standard library's map, as an association list.
-- - Storage/InMemory: src/storage/in_memory.rs, one function for each method; a method takes the
--   lock once, so it is one step on the map. Below it: Objects (PUT, GET, DELETE), Listing and Page
--   (LIST); Observed says what a client sees of a map.
-- - Storage/Schedule: concurrent calls. A schedule lists the calls in the order in which they
--   complete; a call takes effect when it completes. `join_all` awaits calls within one task,
--   `join_spawned` awaits spawned tasks, which keep their panics to themselves.
-- - Storage/MultiBackend: src/storage/multi_backend/mod.rs; below it Utils (utils.rs), Reads
--   (head_bucket.rs, head_object.rs, get_object.rs), ListObjects (list_objects.rs), Writes
--   (put_object.rs), Deletes (delete_object.rs), Jobs, the tasks that a call leaves running,
--   and Service, its `impl StorageBackend`. The children of Utils hold its theorems, as do
--   Writes/AllSucceed and Deletes/AllSucceed.
-- - Storage/MultiBackend/Latency: `determine_primary_by_latency` of mod.rs; the clock is part of the
--   world, and `elapsed` reads it.
-- - Storage/Cluster: in-memory backends side by side, as src/main.rs builds them; MultiSync and
--   ReadBack show what a client sees of a replicated write, Deleted of a replicated DELETE, LeftBehind
--   and Converges what tasks a write leaves and where they lead, Log and LastWriter what tasks make of a store, DeleteRace what an
--   asynchronous DELETE can come to. Every backend reads the clock by itself when it stores an object
--   (`clock`), and time passes between calls and before a task runs (`at`). Storage/Simulation says when
--   two storages cannot be told apart.
-- - Storage/S3: src/storage/s3.rs over the client of the AWS SDK, which is a parameter (`S3Client`);
--   Errors is about what its errors lead to in a multi-backend read, Deletes about those of a DELETE.
--   Storage/S3/StreamBody: the
--   adapter `StreamBody`, a channel of 256 items with a step for each thing its two ends do.
-- - Http: what the server takes from axum and http, and `into_response` of src/types/error.rs. A
--   response is the triple of status, headers and body that a handler hands to axum. `Env` holds
--   what a request is served with: the libraries, the clock's reading, the identifier of an error.
-- - AppState: src/app_state.rs and src/auth/credentials.rs.
-- - Auth/Authorization, Auth/Canonical, Auth/Timestamp, Auth/Signature: src/auth/signature.rs, with
--   the source's function names. Printed holds a printer of the header, Accepted what the parser
--   accepts; Lines and Query are about the canonical request; Verified has the signature as
--   Signature Version 4 prescribes it, over a message that is written independently of the code,
--   Tamper what it binds, Checked how verification ends.
-- - Auth/Middleware: src/auth/middleware.rs; Guards and Client say who passes.
-- - Handlers: src/handlers, one function for each file; Answers is about them over the in-memory
--   storage.
-- - Server: src/server.rs; the routes with their handlers and extractors, the fallback, and the guard
--   in front. RoundTrip and Replicated follow a PUT and a GET through the whole server;
--   Simulated and Unordered are about a server over two storages that a client cannot tell
--   apart, Serve about a sequence of requests. What axum selects for a path and what it reads off a
--   request are parameters (`Axum`).
-- - Startup: src/main.rs, from the configuration's backends to the storage that serves. The
--   construction of an S3 backend is a parameter (`S3Backend::new`, `none` where it fails), and so
--   is how the world holds a new in-memory storage. Startup/Serve: the command line, the credentials,
--   the application. Startup/Main: `main` as a whole, with the panic of the router on a malformed bucket.
-- - Crypto, Chrono: the digests of the crates sha2, hmac and hex, and the calls of chrono, which are
--   parameters. So are the file system and the parsers of the configuration (record `Files`).
-- - Common: Booleans, lists, sorting, texts and integers. Texts are lists of bytes; those of the HTTP
--   layer are ASCII, since header values pass `to_str`.
-- - Tests: runs at concrete inputs.
--
-- Bounds and fuel: `digits_of` prints a number by repeated division by ten; its fuel is the number
-- plus one, and each round makes the number smaller. `strip_all` and `replace_within` have the length
-- of the text as fuel, and each round makes the text shorter (Common/Texts/Ends). Every other
-- recursion is structural. Indices out of bounds and `unwrap` of `None` are panics.
--
-- The channels of a broadcast have room for 256 chunks; the model has no bound, since a sender that
-- waits for room changes no result. A backend that stops reading its channel early is told so in the
-- source by a failed send, which is only logged. A task of a broadcast takes effect as one step.
--
-- A channel of `StreamBody` whose receiver the SDK drops before the end is not modelled: the call has
-- then failed or ended, and what is left of the stream is not read.
--
-- Not modelled: the parsing of the command line and the traffic on the socket of src/main.rs; log lines;
-- how axum turns a triple into a response on the wire; the rendering of XML.
pub mod Common
pub mod Config
pub mod Crypto
pub mod Types
pub mod Storage
pub mod AppState
pub mod Auth
pub mod Chrono
pub mod Handlers
pub mod Http
pub mod Server
pub mod Startup
pub mod Tests
