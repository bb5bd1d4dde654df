-- ===== src/Ipc.antt =====
-- crates/certael-agent-ipc/src/lib.rs: the framed channel between the Agent and the game.
-- A reader is the list of the bytes that are still to come; a writer is a sink that may fail.
pub mod Header
pub mod RoundTrip
pub mod Stream
mod Tests
pub use Header.{be32, of_be32, ipc_magic, ipc_version, max_frame_payload, header_length}
use certael_agent.Prelude.{
  ℕ, suc, ◌+◌, ◌-◌, ◌%◌, ◌^◌, Bool, true, false, ◌&&◌, ◌||◌, not, Option, none, some, List, [], ◌∷◌,
  ◌++◌, length, take, get_or, drop, ltb, leb, ◌==◌, same, if◌then◌else◌, Result, ok, err,
}

pub data MessageType : Type 0 where
  agent_hello launch_grant challenge integrity_report health shutdown revocation : MessageType

-- `message_type as u8`
unfoldable pub code_of : MessageType → ℕ
code_of agent_hello = 1
code_of launch_grant = 2
code_of challenge = 3
code_of integrity_report = 4
code_of health = 5
code_of shutdown = 6
code_of revocation = 7

pub data IpcError : Type 0 where
  io invalid_header unknown_message too_large : IpcError

unfoldable pub try_from : ℕ → Result IpcError MessageType
try_from b =
    if b == 1
    then ok agent_hello
    else if b == 2
    then ok launch_grant
    else if b == 3
    then ok challenge
    else if b == 4
    then ok integrity_report
    else if b == 5
    then ok health
    else if b == 6
    then ok shutdown
    else if b == 7
    then ok revocation
    else err unknown_message

pub record Frame : Type 0 where
  pub message_type : MessageType
  pub payload : List ℕ

-- The standard library's side of the channel. A sink takes `room` more bytes and then fails, and
-- its flush fails or not.
pub record Sink : Type 0 where
  pub written : List ℕ
  pub room : ℕ
  pub flushes : Bool

unfoldable pub write_all : List ℕ → Sink → Result IpcError (Unit {0}) × Sink
write_all bytes s =
    if leb (length bytes) s.room
    then (ok tt, record s { written = s.written ++ bytes; room = s.room - length bytes })
    else (err io, record s { written = s.written ++ take s.room bytes; room = 0 })

unfoldable pub flush : Sink → Result IpcError (Unit {0}) × Sink
flush s = (if s.flushes then ok tt else err io, s)

-- A reader that meets the end of the stream has consumed it.
unfoldable pub read_exact : ℕ → List ℕ → Result IpcError (List ℕ) × List ℕ
read_exact n stream =
    if leb n (length stream) then (ok (take n stream), drop n stream) else (err io, [])

-- The next step of a method that has the sink, or the stream, as its state.
infixl 5 ◌then_do◌
abbrev pub ◌then_do◌ :
    {S A B : Type 0}
    → Result IpcError A × S
    → (A → S → Result IpcError B × S)
    → Result IpcError B × S
(ok a, s) then_do f = f a s
(err e, s) then_do f = (err e, s)

unfoldable pub header_of : Frame → List ℕ
header_of f = ipc_magic ++ (ipc_version ∷ code_of f.message_type ∷ be32 (length f.payload % 2 ^ 32))

unfoldable pub write_frame : Frame → Sink → Result IpcError (Unit {0}) × Sink
unfolding write_all flush
write_frame f s =
    if ltb max_frame_payload (length f.payload)
    then (err too_large, s)
    else (write_all (header_of f) s then_do λ _ s1. write_all f.payload s1 then_do λ _ s2. flush s2)

-- `read_frame` once the header is there.
unfoldable pub read_body : List ℕ → List ℕ → Result IpcError Frame × List ℕ
read_body header rest =
    if not (same (take 4 header) ipc_magic) || not (get_or header 4 0 == ipc_version)
    then (err invalid_header, rest)
    else ((try_from (get_or header 5 0), rest) then_do λ kind r.
        (if ltb max_frame_payload (of_be32 (drop 6 header))
          then (err too_large, r)
          else (read_exact (of_be32 (drop 6 header)) r then_do λ payload r'.
              (ok (record { message_type = kind; payload = payload }), r'))))

unfoldable pub read_frame : List ℕ → Result IpcError Frame × List ℕ
read_frame stream = read_exact header_length stream then_do read_body
