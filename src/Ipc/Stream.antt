-- ===== src/Ipc/Stream.antt =====
-- Whole streams: truncated input, and the reader thread of crates/certael-agent/src/runtime.rs,
-- which sends every frame on and stops behind the first error.
use certael_agent.Prelude.{
  Result-cases, ℕ, zero, suc, ◌≤◌, ◌<◌, ◌≡◌, refl, ap, List, [], ◌∷◌, ◌++◌, length, arith, All,
  Bool-cases, inl, inr, length-append, Result, ok, err, ltb,
}
use certael_agent.Ipc.Header.{IsByte, max_frame_payload, header_length}
use certael_agent.Ipc.{Frame, IpcError, io, header_of, read_frame}
use certael_agent.Ipc.RoundTrip.{
  read_frame-canonical, encode, read_exact-append, read_exact_short, length-header_of,
  read_body-header_of,
}
use mathlib.Core.List.{append_assoc}

-- A stream that ends inside the header is an I/O failure, whatever the bytes are.
read_frame_short_header : (xs : List ℕ) → length xs < header_length → read_frame xs ≡ (err io, [])
unfolding read_frame
read_frame_short_header xs h = rw (read_exact_short header_length xs h)

read_frame_short_payload :
    (f : Frame) (xs : List ℕ)
    → length f.payload ≤ max_frame_payload
    → length xs < length f.payload
    → read_frame (header_of f ++ xs) ≡ (err io, [])
unfolding read_frame
read_frame_short_payload f xs fits short =
    rw (read_exact-append header_length (header_of f) xs (length-header_of f))
      (rw (read_body-header_of f xs fits) (rw (read_exact_short (length f.payload) xs short)))

-- Two ways to cut one list compare.
split_at :
    (a b front back : List ℕ)
    → a ++ b ≡ front ++ back
    → length a ≤ length front
    → (more : List ℕ) × (front ≡ a ++ more) × (b ≡ more ++ back)
split_at [] b front back e h = (front, refl, e)
split_at (x ∷ a) b [] back e h = absurd (omega arith)
split_at (x ∷ a) b (y ∷ front) back e h =
    let (more, p, q) = split_at a b front back (cc) (omega arith) in (more, cc, q)

-- Every proper prefix of the wire form of a frame whose payload fits is an I/O failure, and is read
-- to its end.
pub read_frame_truncated :
    (f : Frame) (front : List ℕ) (x : ℕ) (back : List ℕ)
    → length f.payload ≤ max_frame_payload
    → encode f ≡ front ++ (x ∷ back)
    → read_frame front ≡ (err io, [])
read_frame_truncated f front x back fits e = elim (Bool-cases (ltb (length front) header_length)) [
  | inl short ↦ read_frame_short_header front (ground arith)
  | inr long ↦
      let (more, p, q) =
        split_at (header_of f) f.payload front (x ∷ back) e (ground (arith, length-header_of f)) in
      rw p (
        read_frame_short_payload f more fits
          (omega (arith, ap length q, length-append more (x ∷ back))))
]

-- `loop { let frame = read_frame(&mut reader); ... if frames.send(frame).is_err() || finished { break } }`
-- while the receiver lives: the list of what is sent. The fuel counts rounds.
unfoldable pub reader_loop : ℕ → List ℕ → List (Result IpcError Frame)
reader_loop zero stream = []
reader_loop (suc fuel) stream =
    let (frame, rest) = read_frame stream in
    elim frame [ ok f ↦ ok f ∷ reader_loop fuel rest | err e ↦ err e ∷ [] ]

abbrev pub encode_all : List Frame → List ℕ
encode_all [] = []
encode_all (f ∷ fs) = encode f ++ encode_all fs

-- What a list of received items says: good frames, and then one error.
abbrev pub received : List Frame → IpcError → List (Result IpcError Frame)
received [] e = err e ∷ []
received (f ∷ fs) e = ok f ∷ received fs e

-- The stream is the wire form of `fs` followed by something that is no frame, for the reason `e`.
pub record IsCut (stream : List ℕ) (fs : List Frame) (e : IpcError) : Type 0 where
  pub tail : List ℕ
  pub whole : stream ≡ encode_all fs ++ tail
  pub refused : (read_frame tail).0 ≡ err e

All-append_right : (xs ys : List ℕ) → All IsByte (xs ++ ys) → All IsByte ys
All-append_right [] ys h = h
All-append_right (x ∷ xs) ys h = All-append_right xs ys h.1

read_frame_shrinks :
    (stream : List ℕ) (f : Frame) (rest : List ℕ)
    → All IsByte stream
    → read_frame stream ≡ (ok f, rest)
    → (length rest < length stream) × All IsByte rest
read_frame_shrinks stream f rest bytes h =
    let (e, fits) = read_frame-canonical stream f rest bytes h in
    (
      omega (
        arith,
        ap length e,
        length-append (encode f) rest,
        length-append (header_of f) f.payload,
        length-header_of f,
      ),
      All-append_right (encode f) rest (rw e at bytes),
    )

-- Whatever bytes arrive, with fuel for one round per byte and one more the reader thread ends: it
-- sends the frames that the stream starts with, in order, then exactly one error, and nothing behind
-- it.
pub reader_loop-IsCut :
    (fuel : ℕ) (stream : List ℕ)
    → All IsByte stream
    → length stream < fuel
    → (fs : List Frame) × (e : IpcError) × (reader_loop fuel stream ≡ received fs e)
      × IsCut stream fs e
unfolding reader_loop
reader_loop-IsCut zero stream bytes h = absurd (omega arith)
reader_loop-IsCut (suc fuel) stream bytes h = elim (Result-cases (read_frame stream).0) [
  | inl (f, p) ↦
      let rest = (read_frame stream).1 in
      let good : read_frame stream ≡ (ok f, rest) = ground arith in
      let (shorter, rest_bytes) = read_frame_shrinks stream f rest bytes good in
      let (fs, e, sent, cut) = reader_loop-IsCut fuel rest rest_bytes (omega arith) in
      let (whole, _) = read_frame-canonical stream f rest bytes good in
      (
        f ∷ fs,
        e,
        rw (p, reader_loop) (ap (λ t. ok f ∷ t) sent),
        record {
          tail = cut.tail;
          whole =
              ground (arith, whole, cut.whole, append_assoc (encode f) (encode_all fs) cut.tail);
          refused = cut.refused;
        },
      )
  | inr (e, p) ↦ ([], e, rw (p, reader_loop), record { tail = stream; whole = refl; refused = p })
]
