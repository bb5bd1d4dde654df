-- ===== src/Protocol/Fields.antt =====
-- The field tests of crates/certael-agent-protocol/src/lib.rs: identifiers, versions, paths, display
-- text, arguments and URLs.
pub mod Paths
use certael_agent.Prelude.{
  ℕ, zero, suc, ◌+◌, Bool, true, false, not, ◌&&◌, ◌||◌, List, [], ◌∷◌, length, take, drop, get_or,
  is_empty, all, any, ltb, leb, ◌==◌, same, if◌then◌else◌, map,
}
use certael_agent.Text.{
  Text, Bytes, text, bytes, len, is_ascii_alphanumeric, is_control, starts_with, contains, trim,
  in_range,
}
use certael_agent.Text.Split.{split}

abbrev pub slash : ℕ
slash = b'/'

abbrev pub backslash : ℕ
backslash = 92

unfoldable pub identifier_byte : ℕ → Bool
unfolding is_ascii_alphanumeric
identifier_byte b = is_ascii_alphanumeric b || (b == b'.' || b == b'_' || b == b'-')

unfoldable pub identifier : Text → Bool
unfolding len identifier_byte
identifier value = not (is_empty value) && leb (len value) 128 && all identifier_byte (bytes value)

unfoldable pub version_byte : ℕ → Bool
unfolding is_ascii_alphanumeric
version_byte b = is_ascii_alphanumeric b || (b == b'.' || b == b'+' || b == b'-')

unfoldable pub version_identifier : Text → Bool
unfolding len version_byte
version_identifier value =
    not (is_empty value) && leb (len value) 64 && all version_byte (bytes value)

-- The two separators that `split(['/', '\\'])` takes.
unfoldable pub is_separator : ℕ → Bool
is_separator c = c == slash || c == backslash

abbrev pub dot : Text
dot = b'.' ∷ []

abbrev pub dot_dot : Text
dot_dot = b'.' ∷ b'.' ∷ []

unfoldable pub plain_part : Text → Bool
plain_part part = not (is_empty part) && not (same part dot) && not (same part dot_dot)

unfoldable pub safe_relative_path : Text → Bool
unfolding len plain_part is_separator
safe_relative_path value =
    not (is_empty value)
    && leb (len value) 512
    && not (starts_with value (slash ∷ []))
    && not (starts_with value (backslash ∷ []))
    && not (leb 2 (len value) && get_or (bytes value) 1 0 == b':')
    && all plain_part (split is_separator value)

-- The characters that may reorder displayed text.
unfoldable pub is_bidi_control : ℕ → Bool
is_bidi_control c =
    c == 0x61c || c == 0x200e || c == 0x200f || in_range 0x202a 0x202e c || in_range 0x2066 0x2069 c

unfoldable pub safe_display : Text → ℕ → Bool
unfolding trim is_control is_bidi_control
safe_display value maximum =
    not (is_empty value)
    && same (trim value) value
    && leb (length value) maximum
    && not (any (λ c. is_control c || is_bidi_control c) value)

unfoldable pub sum_lengths : List Text → ℕ
unfolding len
sum_lengths [] = 0
sum_lengths (v ∷ vs) = len v + sum_lengths vs

unfoldable pub safe_argument : Text → Bool
unfolding len is_control
safe_argument value = not (is_empty value) && leb (len value) 512 && not (any is_control value)

unfoldable pub safe_arguments : List Text → Bool
unfolding sum_lengths safe_argument
safe_arguments values =
    leb (length values) 32 && leb (sum_lengths values) 4096 && all safe_argument values

-- `value[8..]` is what follows the prefix `https://`, which is ASCII.
unfoldable pub https_url : Text → Bool
unfolding len starts_with contains is_control
https_url value =
    leb (len value) 2048
    && starts_with value (text "https://")
    && contains (drop 8 value) b'.'
    && not (any is_control value)
