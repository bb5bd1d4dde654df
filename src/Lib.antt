-- ===== src/Lib.antt =====
-- Certael Agent: a model of the Agent's message format, of its admission decision, of the loop
-- that protects a game, of its session and of its updater, with the theorems that make them
-- correct.
--
-- The program. A game starts the Agent and speaks to it over a byte stream. A frame carries one
-- message (crates/certael-agent-ipc). The first message is a launch bundle: a signed policy, a
-- signed launch grant and a signed build manifest, which crates/certael-agent-protocol decodes,
-- validates, verifies under a ring of keys and binds together. An admitted launch activates a
-- session (crates/certael-agent-session), which answers each challenge by a signed report that
-- holds the digest of the report before it. The running Agent
-- (crates/certael-agent/src/runtime.rs) has a loop of its own for this: it admits one launch,
-- compares the files of the game with the manifest (crates/certael-agent-platform), answers
-- challenges, and ends the session on a revocation, at the end of the policy or when no challenge
-- came in time; it publishes its state as a status file. Beside this stands the compatibility
-- manifest, which says which versions of which product may start a protected session, and the
-- updater (crates/certael-agent-updater), which installs verified versions side by side and keeps
-- in one state file which of them is active, which was before and which is pending.
--
-- Files.
--   Prelude, Prelude/*: lists, Booleans, results with `?` as bind, and Int, the i64 arithmetic of
--     the release build: add_i64 and sub_i64 wrap around.
--   Text, Text/Split: Rust strings as lists of scalar values, byte strings as lists of bytes.
--   Ipc, Ipc/Header: crates/certael-agent-ipc/src/lib.rs (write_frame, read_frame, MessageType).
--     RoundTrip and Stream prove; Stream also holds the reader thread of
--     crates/certael-agent/src/runtime.rs. A writer has room for a number of bytes and may fail to
--     flush; a reader is the list of bytes still to come.
--   Protocol: crates/certael-agent-protocol/src/lib.rs. Messages and Registration hold the
--     messages, Errors the errors, Fields the field tests, Domains the signature domains, KeyRing
--     the key ring, Validate, Register and Compatibility the validators, Verify the verification
--     of each signed object, Launch the launch bundle, Report the reports. Their child modules
--     prove.
--   Session, Session/Chain: crates/certael-agent-session/src/lib.rs (activate, create_report).
--   Platform, Platform/WellFormed, Platform/Intact: crates/certael-agent-platform/src/lib.rs
--     (verify_build_manifest, inspect_executable, inspect_game_process_bound), over what the
--     system says of each path, of the executable and of the processes.
--   Status, Status/Whole, Status/RoundTrip: crates/certael-agent/src/status.rs (path, publish,
--     read). A publication is the list of the states that its system calls pass, in the way of
--     Registry/Install.
--   Runtime: crates/certael-agent/src/runtime.rs. An action reads what it is given, writes to the
--     game and publishes statuses; its outcome is a value or the end of serve, and the events in
--     their order. Admission holds serve up to the admitted launch, Deadlines the variables and
--     deadlines of its loop, Rounds the loop, Observe the observations of a report. Logged has the
--     rules for outcomes; Refusals, Admitted, Reports, Challenged, Linked, Unreported, Served,
--     Endings and Silence prove.
--   Files, Trust, Registry: crates/certael-agent/src/registry.rs (read_regular,
--     install_registration, recover_registration, load) and crates/certael-agent/src/trust.rs
--     (load). Registry holds the checks of an installation and of loading, Registry/Install the
--     states that the registry passes while an installation changes it, so that an interruption is
--     a state of that list. Trust/Loaded, Registry/Recovery, Registry/Atomic and Registry/Reload
--     prove.
--   Branding: crates/certael-agent/src/branding.rs (verify_install, verify_stored, decode_png).
--     Branding/Stored proves.
--   Environment: crates/certael-agent/src/windows_environment.rs. Environment/Handles proves.
--   Updater, Updater/*: crates/certael-agent-updater/src/lib.rs. Updater holds slots, their
--     validation and verification and the state file, Operations activate_pending, rollback,
--     recover, register_existing_version and active_target, Install install_verified_target. An
--     install root is what the system says of the paths below it and of the state file; an
--     operation is given the outcome of its system calls and returns its result and the root.
--     State, Genuine, Recover, Selection, Register, Steps and Install/Pending prove.
--   The Samples and Tests modules: runs of the code and the theorems at concrete inputs.
--
-- External code is a parameter: SHA-256 and Ed25519 (Crypto, with CryptoLaws), Protobuf (Codec)
-- and versions (Semver) of Protocol/External.antt; hex (Hex) of Platform.antt; JSON and hex
-- (Formats) of Updater.antt; JSON, base64 and PNG of Status, Trust, Registry and Branding;
-- `str::to_uppercase` of Environment. A panic is `none`. Sets of paths and of product codes are
-- the lists of their values, since the code never iterates over them.
--
-- Fuel. The reader thread has one round per byte of the stream and one more, which is enough since
-- every frame takes ten bytes at least. The loop of serve runs for as many rounds as it is given
-- the system's answers for; Runtime/Silence has how many a silent session takes.
--
-- Not modelled: the Agent's messages to standard error, the updater's network client, the probe's
-- C interface, the pixels of images, the command line, windows and drawing, and every call of the
-- operating system. The sizes of Protobuf messages in memory and the machine's memory are
-- unbounded.
pub mod Branding
pub mod Environment
pub mod Files
pub mod Ipc
pub mod Platform
pub mod Prelude
pub mod Protocol
pub mod Registry
pub mod Runtime
pub mod Session
pub mod Status
pub mod Text
pub mod Trust
pub mod Updater
