-- ===== src/Environment.antt =====
-- crates/certael-agent/src/windows_environment.rs: the environment of a protected game on Windows.
pub mod Handles
mod Tests
use certael_agent.Runtime.Observe.{decimal}
use certael_agent.Prelude.{
  [], if◌then◌else◌, ◌==◌, ◌&&◌, ◌||◌, ◌>>◌, ◌>>=◌, ◌++◌, ◌∷◌, Bool, false, not, String, List, ltb,
  ok, Result, is_empty, ℕ, true, refuse_if, any,
}
use certael_agent.Text.{
  contains, Text, Bytes, is_ascii_alphabetic, bytes, starts_with, eq_ignore_ascii_case, text,
}

abbrev pub read_handle : Text
read_handle = text "CERTAEL_AGENT_READ_HANDLE"

abbrev pub write_handle : Text
write_handle = text "CERTAEL_AGENT_WRITE_HANDLE"

unfoldable pub is_handle : Text × Text → Bool
unfolding eq_ignore_ascii_case
is_handle entry =
    eq_ignore_ascii_case entry.0 read_handle || eq_ignore_ascii_case entry.0 write_handle

-- `Vec::retain`
unfoldable pub without_handles : List (Text × Text) → List (Text × Text)
unfolding is_handle
without_handles [] = []
without_handles (e ∷ es) = let rest = without_handles es in if is_handle e then rest else e ∷ rest

-- Is the first text before the second in the order of their scalar values, which is that of their
-- bytes?
unfoldable pub before : Text → Text → Bool
before [] [] = false
before [] (c ∷ s) = true
before (c ∷ s) [] = false
before (c ∷ s) (d ∷ t) = ltb c d || (c == d && before s t)

abbrev is_drive : Bytes → Bool
is_drive (a ∷ b ∷ c ∷ []) = a == b'=' && is_ascii_alphabetic b && c == b':'
is_drive _ = false

unfoldable pub is_drive_current_directory_key : Text → Bool
unfolding bytes is_ascii_alphabetic
is_drive_current_directory_key key = is_drive (bytes key)

-- `str::to_uppercase` is given.
module _ (upper : Text → Text) where
  -- The stable sort by `key.to_uppercase()`.
  unfoldable pub insert : Text × Text → List (Text × Text) → List (Text × Text)
  unfolding before
  insert e [] = e ∷ []
  insert e (x ∷ xs) =
      let rest = insert e xs in if before (upper x.0) (upper e.0) then x ∷ rest else e ∷ x ∷ xs

  unfoldable pub sort_by_key : List (Text × Text) → List (Text × Text)
  unfolding insert
  sort_by_key [] = []
  sort_by_key (e ∷ es) = insert e (sort_by_key es)

  -- The loop over the sorted entries.
  unfoldable pub sanitized : List (Text × Text) → Result String (List (Text × Text))
  unfolding is_drive_current_directory_key starts_with
  sanitized [] = ok []
  sanitized (e ∷ es) =
      let rest = sanitized es in
      let drive = is_drive_current_directory_key e.0 in
      refuse_if (is_empty e.0 || any (λ c. c == 0) e.0 || any (λ c. c == 0) e.1)
        "process environment contains an invalid entry"
      >> (if starts_with e.0 (text "=") && not drive
          then rest
          else (refuse_if (not drive && any (λ c. c == b'=') e.0)
                "process environment contains an invalid entry"
              >> (rest >>= λ others. ok (e ∷ others))))

  unfoldable pub sanitize_environment_entries :
      List (Text × Text) → ℕ → ℕ → Result String (List (Text × Text))
  unfolding without_handles sort_by_key sanitized
  sanitize_environment_entries values read write = sanitized (
      sort_by_key (
        without_handles values
        ++ ((read_handle, decimal read) ∷ (write_handle, decimal write) ∷ [])))
