-- ===== src/Lib.antt =====
-- Super Engine: the security and scheduling core of the engine's daemon, with its installer's privileged
-- phase.
--
-- The daemon serves local clients over a Unix socket and web pages over TCP. A request runs
-- through guards: the origin gate (TCP only), the rate limiter, and the scope guard, which checks
-- a session token and that its bearer is the caller it was granted to. Tokens come from the
-- consent handshake, which asks the user, and are kept in a store that a background task writes to
-- disk. Loads of models pass a gate that lets only the newest request through. A backend's
-- outbound requests pass an egress check. The registry chooses which build of a backend and which
-- model files suit the host, reads the manifest of a backend by fixed rules, and installs a backend
-- by replacing the directory that it is in. Widgets subscribe to event streams, and the daemon looks for
-- newer releases of its product, whose installer copies files as root.
--
-- LoadGate: super-engine-daemon/src/load_gate.rs. A state has the gate and the tasks that came to
-- it, a step is one atomic action of one task; LoadGate/Exclusion is about the mutex,
-- LoadGate/Newest about which load starts. The ticket is a 64-bit number that wraps, so the
-- theorems on the newest request assume fewer than 2 ^ 64 requests.
--
-- Resources: super-engine-daemon/src/resource_management. The request history of a client, the
-- verdict of the rate limits, and the table of clients, for any type of client ids with equality.
-- What chrono's durations cannot hold, where the code panics, is left out by a hypothesis.
-- Resources/History is about one client, Resources/Manager about runs of the table's operations.
--
-- Auth: super-engine-daemon/src/auth and http, super-engine-protocol/src. Auth/Peer has the caller
-- of a request and its identity, Auth/Scopes the scopes of a product, Auth/Tokens the session
-- store and its persist task, Auth/Consent the consent locks and the first-party check,
-- Auth/Consent/Locks the consent requests in flight as a step relation, Auth/State the state that
-- they share and the responses, Auth/Middleware the guards and Auth/Routes the handshake. Each has modules below it for its theorems.
--
-- Wasm/Egress: super-engine-daemon/src/wasm/host.rs, the egress check, and default_port of
-- wasm/base_url.rs.
--
-- Registry: super-engine-daemon/src/registry/compat.rs and host.rs, super-engine-spec/src/arch.rs.
-- Registry/Arch parses the targets that an asset declares, Registry/Ranking is the choice of the
-- first maximum that both selections share, Registry/Compat ranks a candidate against the host
-- (Registry/Compat/Fits), Registry/Compat/Builds chooses the build of a backend and
-- Registry/Compat/Files the files of a model. The sentences of a refusal are values that name what
-- they tell. A panic is the value `none` of `select`.
--
-- Spec: super-engine-spec/src. Spec/Paths has the paths that may be joined onto a directory,
-- Spec/BackendId the identifiers, and Spec/Manifest the tables of a `backend.toml` (manifest.rs):
-- Spec/Manifest/Files the model files, Spec/Manifest/Builds the builds, Spec/Manifest/Contract the
-- generations of a product, Spec/Manifest/Options the options, and Spec/Manifest/Parse the parser
-- that applies them all. The toml crate, the product and the arithmetic of floats are parameters.
--
-- Downloads: super-engine-daemon/src/download_progress.rs. A tracker is a record with the events that it
-- has sent, and Downloads/Loads has the loads in flight, which share their trackers with the tasks
-- that fetch the files. Downloads/Shown is about the newest event, Downloads/Throttle about how many
-- there are. Floats are a type with its operations, a parameter.
--
-- Retry: super-engine-client/src/retry.rs, the delays of a client that connects again.
--
-- EventStream: super-engine-client/src/http_client/internal/sse.rs, the blocks of an event stream that
-- arrives in frames. The inner loop has the length of the buffer as fuel, since each block takes bytes.
-- EventStream/Fields has the fields of a block and the event of v1/events.rs, with the JSON reader a
-- parameter.
--
-- Events: super-engine-daemon/src/events.rs, the frames that the daemon sends. Events/Arrive puts them
-- together with EventStream, which reads them: the bytes are cut anywhere on the way. Events/Topics is
-- the handler up to the subscriptions that it opens; the topics are a product's.
--
-- Forge: super-engine-forge/src/lib.rs, the releases of a code host, whose client is a parameter.
-- Spec/Version and Spec/Checksums are super-engine-spec/src/version.rs and the `SHA256SUMS` listing of
-- verify.rs. SelfUpdate: super-engine-daemon/src/self_update.rs. A check runs under its lock, so it is
-- one step on the checker, which is given the generation that its caller saw when it came;
-- SelfUpdate/Candidate is about the release that a check picks, SelfUpdate/Verified about its installer
-- and SelfUpdate/Offer about runs of checks.
--
-- Installer/RootPhase: super-engine-installer/src/root_phase.rs, and the manifest of stage.rs. In
-- System, the operating system is a record of functions of the trace, that is, of all the calls before
-- with their answers, so that it may answer the same call differently later, as it does when others
-- change the file system at the same time. Guarded has what must be made sure of before each change,
-- Guarded/Validates the checks, Guarded/Applies the changes and Guarded/Runs a whole run, which
-- Run has; the JSON reader is a parameter.
--
-- Install: super-engine-daemon/src/registry/install.rs, carry_over.rs and reconcile.rs.
-- Install/FileSystem is the file system that they change: directories with their files, in which
-- every change can fail and every state is logged, so that a statement on the log is one on every
-- crash. Install/Swap replaces a directory, Install/CarryOver moves model files,
-- Install/Survivors chooses which, Install/Reconcile folds duplicates together and Install/Serving
-- is the last half of an installation. Install/Download has the streamed download of
-- download_stream.rs and the budgets of super-engine-spec/src/verify.rs, and Install/Verify the
-- check of a manifest before it is written. Install/Download/Bodies is about files in parts, and
-- Install/Download/Extract has the two passes over an archive, whose entries are a list that the tar
-- library reads. Looking at the file system never fails in the model, a directory is listed in any
-- order, and what is carried over is a file, where the code would also move a directory of that name.
--
-- Conventions. A text is the list of its code points. An instant is a number of nanoseconds; the
-- clock and the random text of a new token are arguments, a shared map is an association list, and
-- a section that the code runs under a lock is one step. A handler that waits is split at its
-- waits. The operating system, the file system, the address parser, the resolver, the version library
-- and the code host are records of functions, about which nothing is assumed but what a theorem
-- states. Logging has no counterpart.
-- Recursion is on the structure of the data; only `decimal`, with one round more than the
-- number, where each round divides by ten, and the loop of EventStream run on fuel.
--
-- Not modelled: processes and sandboxes of backends, the fetching of model files, the first half of an
-- installation up to the staged directory, the tasks that forward events to a stream and keep it alive,
-- the client but for its retries and the streams that it reads, the download and the staging of an
-- installer, the tools around the daemon, the dialog of the consent helper, and the CORS headers of a
-- response.
pub mod Auth
pub mod Downloads
pub mod EventStream
pub mod Events
pub mod Forge
pub mod Install
pub mod Installer
pub mod LoadGate
pub mod Prelude
pub mod Registry
pub mod Resources
pub mod Retry
pub mod SelfUpdate
pub mod Spec
pub mod Tests
pub mod Wasm
