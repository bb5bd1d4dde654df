-- ===== src/Ipc/RoundTrip.antt =====
-- What `read_frame` makes of what `write_frame` wrote, and the other way round.
use certael_agent.Prelude.{
  zero, suc, drop, take, ℕ, ◌-◌, ◌≤◌, ◌<◌, ◌^◌, ◌%◌, ◌≡◌, refl, true, List, [], ◌∷◌, ◌++◌, length,
  arith, All, eq_of_same, same_refl, length-append, take-length_append, drop-length_append,
  take-append-drop, length-take, ok, err,
}
use certael_agent.Ipc.Header.{
  ipc_magic, max_frame_payload, header_length, be32, of_be32, of_be32-be32, be32-of_be32, IsByte,
}
use certael_agent.Ipc.{
  MessageType, agent_hello, io, code_of, try_from, Frame, Sink, read_exact, ◌then_do◌, header_of,
  write_frame, read_body, read_frame,
}
use mathlib.Core.List.{append_assoc}

-- The bytes of a frame on the wire.
abbrev pub encode : Frame → List ℕ
encode f = header_of f ++ f.payload

try_from-code_of : (m : MessageType) → try_from (code_of m) ≡ ok m
unfolding try_from code_of
try_from-code_of agent_hello = refl
try_from-code_of _ = refl

code_of-try_from : (b : ℕ) (m : MessageType) → try_from b ≡ ok m → b ≡ code_of m
unfolding try_from code_of
code_of-try_from b m h = ground arith

pub read_exact-append :
    (n : ℕ) (xs ys : List ℕ) → length xs ≡ n → read_exact n (xs ++ ys) ≡ (ok xs, ys)
unfolding read_exact
read_exact-append n xs ys h =
    ground (arith, length-append xs ys, take-length_append xs ys, drop-length_append xs ys)

pub read_exact_short : (n : ℕ) (xs : List ℕ) → length xs < n → read_exact n xs ≡ (err io, [])
unfolding read_exact
read_exact_short n xs h = ground arith

-- The body of a header that `header_of` wrote.
pub read_body-header_of :
    (f : Frame) (rest : List ℕ)
    → length f.payload ≤ max_frame_payload
    → read_body (header_of f) rest
      ≡ (read_exact (length f.payload) rest then_do λ p r. (ok (record f { payload = p }), r))
unfolding read_body header_of
read_body-header_of f rest h = ground (
  arith,
  try_from-code_of f.message_type,
  same_refl ipc_magic,
  of_be32-be32 (length f.payload % 2 ^ 32) (omega arith),
)

pub length-header_of : (f : Frame) → length (header_of f) ≡ header_length
unfolding header_of be32
length-header_of f = refl

write_frame_fits :
    (f : Frame) (s : Sink)
    → length f.payload ≤ max_frame_payload
    → length (encode f) ≤ s.room
    → s.flushes ≡ true
    → write_frame f s
      ≡ (ok tt, record s { written = s.written ++ encode f; room = s.room - length (encode f) })
unfolding write_frame
write_frame_fits f s fits room flushes =
    ground
      (arith, length-append (header_of f) f.payload, append_assoc s.written (header_of f) f.payload)

pub read_frame-encode :
    (f : Frame) (rest : List ℕ)
    → length f.payload ≤ max_frame_payload
    → read_frame (encode f ++ rest) ≡ (ok f, rest)
unfolding read_frame
read_frame-encode f rest fits = rw (append_assoc (header_of f) f.payload rest) (
    rw (read_exact-append header_length (header_of f) (f.payload ++ rest) (length-header_of f)) (
      rw (read_body-header_of f (f.payload ++ rest) fits)
        (rw (read_exact-append (length f.payload) f.payload rest refl) refl)))

-- A frame whose payload fits, written to a sink with room for it, is on the wire in full, and a
-- reader of that wire gets the same frame back and stops exactly behind it.
pub read_frame-write_frame :
    (f : Frame) (s : Sink) (rest : List ℕ)
    → length f.payload ≤ max_frame_payload
    → length (encode f) ≤ s.room
    → s.flushes ≡ true
    → (write_frame f s
        ≡ (ok tt, record s { written = s.written ++ encode f; room = s.room - length (encode f) }))
      × (read_frame (encode f ++ rest) ≡ (ok f, rest))
read_frame-write_frame f s rest fits room flushes =
    (write_frame_fits f s fits room flushes, read_frame-encode f rest fits)

-- The ten bytes of an accepted header are those that `header_of` writes for the frame.
read_body-ok :
    (a b c d v k w x y z : ℕ) (rest : List ℕ) (f : Frame) (rest' : List ℕ)
    → All IsByte (w ∷ x ∷ y ∷ z ∷ [])
    → read_body (a ∷ b ∷ c ∷ d ∷ v ∷ k ∷ w ∷ x ∷ y ∷ z ∷ []) rest ≡ (ok f, rest')
    → (a ∷ b ∷ c ∷ d ∷ v ∷ k ∷ w ∷ x ∷ y ∷ z ∷ [] ≡ header_of f)
      × (rest ≡ f.payload ++ rest')
      × (length f.payload ≤ max_frame_payload)
unfolding read_body read_exact header_of
read_body-ok a b c d v k w x y z rest f rest' bytes h =
    let n = of_be32 (w ∷ x ∷ y ∷ z ∷ []) in
    ground (
      arith,
      eq_of_same (a ∷ b ∷ c ∷ d ∷ []) ipc_magic,
      code_of-try_from k f.message_type,
      be32-of_be32 w x y z bytes,
      take-append-drop n rest,
      length-take n rest,
    )

-- `P` holds of the ten bytes of every list that has ten.
ten {ℓ} :
    (P : List ℕ → Type ℓ)
    → ((a b c d v k w x y z : ℕ) → P (a ∷ b ∷ c ∷ d ∷ v ∷ k ∷ w ∷ x ∷ y ∷ z ∷ []))
    → (h : List ℕ) → length h ≡ header_length
    → P h
ten P f (a ∷ b ∷ c ∷ d ∷ v ∷ k ∷ w ∷ x ∷ y ∷ z ∷ []) e = f a b c d v k w x y z
ten P f _ e = absurd (omega arith)

All-take-drop :
    (n : ℕ) (xs : List ℕ) → All IsByte xs → All IsByte (take n xs) × All IsByte (drop n xs)
All-take-drop zero xs h = (tt, h)
All-take-drop (suc n) [] h = (tt, tt)
All-take-drop (suc n) (x ∷ xs) h =
    let (front, back) = All-take-drop n xs h.1 in ((h.0, front), back)

read_body-ok_lem :
    (header rest : List ℕ) (f : Frame) (rest' : List ℕ)
    → length header ≡ header_length
    → All IsByte header
    → read_body header rest ≡ (ok f, rest')
    → (header ≡ header_of f) × (rest ≡ f.payload ++ rest') × (length f.payload ≤ max_frame_payload)
read_body-ok_lem header rest f rest' e bytes =
    ten
      (λ h.
        All IsByte h
        → read_body h rest ≡ (ok f, rest')
        → (h ≡ header_of f) × (rest ≡ f.payload ++ rest') × (length f.payload ≤ max_frame_payload))
      (λ a b c d v k w x y z hb. read_body-ok a b c d v k w x y z rest f rest' hb.1.1.1.1.1.1)
      header e bytes

-- Whatever the peer sends: a frame that `read_frame` accepts has at most 64 KiB of payload, and
-- the bytes it consumed are exactly those that `write_frame` writes for that frame.
pub read_frame-canonical :
    (stream : List ℕ) (f : Frame) (rest : List ℕ)
    → All IsByte stream
    → read_frame stream ≡ (ok f, rest)
    → (stream ≡ encode f ++ rest) × (length f.payload ≤ max_frame_payload)
unfolding read_frame read_exact
read_frame-canonical stream f rest bytes h =
    let (front, back) = All-take-drop header_length stream bytes in
    ground (
      arith,
      length-take header_length stream,
      take-append-drop header_length stream,
      read_body-ok_lem (take header_length stream) (drop header_length stream) f rest
          (ground (arith, length-take header_length stream)) front,
      append_assoc (header_of f) f.payload rest,
    )
