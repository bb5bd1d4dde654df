-- ===== src/Ipc/Header.antt =====
-- The constants of the frame format and the network-byte-order length.
use certael_agent.Prelude.{ℕ, ◌+◌, ◌*◌, ◌/◌, ◌%◌, ◌^◌, ◌<◌, ◌≡◌, List, [], ◌∷◌, arith, All}

-- b"CTAL"
abbrev pub ipc_magic : List ℕ
ipc_magic = b'C' ∷ b'T' ∷ b'A' ∷ b'L' ∷ []

abbrev pub ipc_version : ℕ
ipc_version = 1

abbrev pub max_frame_payload : ℕ
max_frame_payload = 65536

abbrev pub header_length : ℕ
header_length = 10

-- u32::to_be_bytes
unfoldable pub be32 : ℕ → List ℕ
be32 n = n / 2 ^ 24 % 256 ∷ n / 2 ^ 16 % 256 ∷ n / 2 ^ 8 % 256 ∷ n % 256 ∷ []

-- u32::from_be_bytes
unfoldable pub of_be32 : List ℕ → ℕ
of_be32 (a ∷ b ∷ c ∷ d ∷ []) = a * 2 ^ 24 + b * 2 ^ 16 + c * 2 ^ 8 + d
of_be32 _ = 0

pub of_be32-be32 : (n : ℕ) → n < 2 ^ 32 → of_be32 (be32 n) ≡ n
unfolding of_be32 be32
of_be32-be32 n h = omega arith

abbrev pub IsByte : ℕ → Type 0
IsByte b = b < 256

pub be32-of_be32 :
    (a b c d : ℕ)
    → All IsByte (a ∷ b ∷ c ∷ d ∷ [])
    → be32 (of_be32 (a ∷ b ∷ c ∷ d ∷ [])) ≡ a ∷ b ∷ c ∷ d ∷ []
unfolding of_be32 be32
be32-of_be32 a b c d h = ground arith
