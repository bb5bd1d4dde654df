-- ===== src/Ipc/Tests.antt =====
-- Runs of the frame format, and its theorems at concrete inputs.
use certael_agent.Prelude.{
  ℕ, ◌≤◌, ◌≡◌, refl, true, List, [], ◌∷◌, ◌++◌, arith, ok, err, length, same,
}
use certael_agent.Ipc.Header.{max_frame_payload, be32, of_be32}
use certael_agent.Ipc.{
  challenge, IpcError, io, unknown_message, too_large, invalid_header, code_of, try_from, Frame,
  Sink, header_of, read_exact, write_frame, read_body, read_frame,
}
use certael_agent.Ipc.RoundTrip.{encode, read_frame-write_frame, read_frame-canonical}
use certael_agent.Ipc.Stream.{read_frame_truncated, reader_loop, received, IsCut, reader_loop-IsCut}

abbrev sample : Frame
sample = record { message_type = challenge; payload = 1 ∷ 2 ∷ 3 ∷ [] }

abbrev wire : List ℕ
wire = b'C' ∷ b'T' ∷ b'A' ∷ b'L' ∷ 1 ∷ 3 ∷ 0 ∷ 0 ∷ 0 ∷ 3 ∷ 1 ∷ 2 ∷ 3 ∷ []

abbrev roomy : Sink
roomy = record { written = []; room = 100; flushes = true }

encode_sample : encode sample ≡ wire
unfolding header_of code_of be32
encode_sample = refl

-- The unknown message type, the wrong version and the early end of the unit tests.
refusals :
    ((read_frame (b'C' ∷ b'T' ∷ b'A' ∷ b'L' ∷ 1 ∷ 99 ∷ 0 ∷ 0 ∷ 0 ∷ 0 ∷ [])).0 ≡ err unknown_message)
    × ((read_frame (b'C' ∷ b'T' ∷ b'A' ∷ b'L' ∷ 2 ∷ 3 ∷ 0 ∷ 0 ∷ 0 ∷ 0 ∷ [])).0 ≡ err invalid_header)
    × ((read_frame (b'C' ∷ b'T' ∷ b'A' ∷ b'L' ∷ 1 ∷ 3 ∷ 0 ∷ 1 ∷ 0 ∷ 1 ∷ [])).0 ≡ err too_large)
    × ((read_frame (0 ∷ 0 ∷ 0 ∷ 0 ∷ [])).0 ≡ err io)
unfolding read_frame read_body read_exact try_from of_be32 same
refusals = (refl, refl, refl, refl)

read_wire : read_frame (wire ++ (7 ∷ [])) ≡ (ok sample, 7 ∷ [])
unfolding read_frame read_body read_exact try_from of_be32 same
read_wire = refl

read_frame-write_frame_example :
    (write_frame sample roomy
      ≡ (ok tt, record { written = encode sample; room = 87; flushes = true }))
    × (read_frame (encode sample ++ (7 ∷ [])) ≡ (ok sample, 7 ∷ []))
unfolding header_of be32
read_frame-write_frame_example =
    read_frame-write_frame sample roomy (7 ∷ []) (omega arith) (omega arith) refl

read_frame-canonical_example :
    (wire ++ (7 ∷ []) ≡ encode sample ++ (7 ∷ [])) × (length sample.payload ≤ max_frame_payload)
read_frame-canonical_example =
    read_frame-canonical (wire ++ (7 ∷ [])) sample (7 ∷ []) (omega arith) read_wire

read_frame_truncated_example :
    read_frame (b'C' ∷ b'T' ∷ b'A' ∷ b'L' ∷ 1 ∷ 3 ∷ 0 ∷ 0 ∷ 0 ∷ 3 ∷ 1 ∷ 2 ∷ []) ≡ (err io, [])
read_frame_truncated_example =
    read_frame_truncated sample (b'C' ∷ b'T' ∷ b'A' ∷ b'L' ∷ 1 ∷ 3 ∷ 0 ∷ 0 ∷ 0 ∷ 3 ∷ 1 ∷ 2 ∷ []) 3
      [] (omega arith) encode_sample

reader_loop-IsCut_example :
    (fs : List Frame) × (e : IpcError) × (reader_loop 14 wire ≡ received fs e) × IsCut wire fs e
reader_loop-IsCut_example = reader_loop-IsCut 14 wire (omega arith) (omega arith)
