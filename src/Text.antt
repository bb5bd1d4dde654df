-- ===== src/Text.antt =====
-- Rust's `String` and `&[u8]`: a text is the list of its Unicode scalar values, a byte string a
-- list of numbers below 256. These are the methods of the standard library that the Agent calls.
pub mod Split
use Prim.Native.Char.{code}
use certael_agent.Prelude.{
  ℕ, zero, suc, ◌+◌, ◌-◌, ◌*◌, ◌/◌, ◌%◌, String, Bool, true, false, not, ◌&&◌, ◌||◌, List, [], ◌∷◌,
  ◌++◌, map, length, take, drop, is_empty, all, any, ltb, leb, ◌==◌, same, if◌then◌else◌,
}
use mathlib.Core.List.{reverse}

abbrev pub Text : Type 0
Text = List ℕ

abbrev pub Bytes : Type 0
Bytes = List ℕ

-- A literal as a text; for ASCII literals these are its bytes too.
abbrev pub text : String → Text
text String.[] = []
text (String.◌∷◌ c s) = code c ∷ text s

-- The UTF-8 form of one scalar value.
unfoldable pub utf8 : ℕ → Bytes
utf8 c =
    if ltb c 0x80
    then c ∷ []
    else if ltb c 0x800
    then (0xc0 + c / 64) ∷ (0x80 + c % 64) ∷ []
    else if ltb c 0x10000
    then (0xe0 + c / 4096) ∷ (0x80 + c / 64 % 64) ∷ (0x80 + c % 64) ∷ []
    else (0xf0 + c / 262144) ∷ (0x80 + c / 4096 % 64) ∷ (0x80 + c / 64 % 64) ∷ (0x80 + c % 64) ∷ []

-- `as_bytes`, `bytes`
unfoldable pub bytes : Text → Bytes
unfolding utf8
bytes [] = []
bytes (c ∷ s) = utf8 c ++ bytes s

-- `str::len`, in bytes
unfoldable pub len : Text → ℕ
unfolding bytes
len s = length (bytes s)

abbrev pub in_range : ℕ → ℕ → ℕ → Bool
in_range lo hi x = leb lo x && leb x hi

unfoldable pub is_ascii_alphabetic : ℕ → Bool
is_ascii_alphabetic b = in_range b'A' b'Z' b || in_range b'a' b'z' b

unfoldable pub is_ascii_alphanumeric : ℕ → Bool
unfolding is_ascii_alphabetic
is_ascii_alphanumeric b = in_range b'0' b'9' b || is_ascii_alphabetic b

unfoldable pub is_ascii_hexdigit : ℕ → Bool
is_ascii_hexdigit b = in_range b'0' b'9' b || in_range b'A' b'F' b || in_range b'a' b'f' b

unfoldable pub lower : ℕ → ℕ
lower c = if in_range b'A' b'Z' c then c + 32 else c

unfoldable pub to_ascii_lowercase : Text → Text
unfolding lower
to_ascii_lowercase s = map lower s

unfoldable pub upper : ℕ → ℕ
upper c = if in_range b'a' b'z' c then c - 32 else c

unfoldable pub to_ascii_uppercase : Text → Text
unfolding upper
to_ascii_uppercase s = map upper s

-- `char::is_control`: general category Cc
unfoldable pub is_control : ℕ → Bool
is_control c = ltb c 0x20 || in_range 0x7f 0x9f c

-- `char::is_whitespace`: the property White_Space
unfoldable pub is_whitespace : ℕ → Bool
is_whitespace c =
    in_range 9 13 c
    || c == 0x20
    || c == 0x85
    || c == 0xa0
    || c == 0x1680
    || in_range 0x2000 0x200a c
    || c == 0x2028
    || c == 0x2029
    || c == 0x202f
    || c == 0x205f
    || c == 0x3000

unfoldable pub trim_start : Text → Text
trim_start [] = []
trim_start (c ∷ s) = let rest = trim_start s in if is_whitespace c then rest else (c ∷ s)

unfoldable pub trim : Text → Text
unfolding trim_start is_whitespace
trim s = reverse (trim_start (reverse (trim_start s)))

unfoldable pub starts_with : Text → Text → Bool
starts_with s prefix = same (take (length prefix) s) prefix

unfoldable pub ends_with : Text → Text → Bool
ends_with s suffix =
    leb (length suffix) (length s) && same (drop (length s - length suffix) s) suffix

unfoldable pub contains : Text → ℕ → Bool
contains s c = any (λ d. d == c) s

-- `replace('\\', "/")`
unfoldable pub replace : ℕ → ℕ → Text → Text
replace from to s = map (λ c. if c == from then to else c) s

unfoldable pub eq_ignore_ascii_case : Text → Text → Bool
unfolding to_ascii_lowercase
eq_ignore_ascii_case a b = same (to_ascii_lowercase a) (to_ascii_lowercase b)
