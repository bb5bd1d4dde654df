-- ===== src/Updater.antt =====
-- The activation state of crates/certael-agent-updater/src/lib.rs: slots, their validation and
-- verification, reading and writing of `activation.json`. Paths are those of Unix.
pub mod Operations
pub mod Install
pub mod State
pub mod Genuine
pub mod Recover
pub mod Selection
pub mod Register
pub mod Steps
mod Samples
mod Tests
use certael_agent.Text.Split.{split}
use certael_agent.Text.{
  bytes, in_range, Bytes, to_ascii_uppercase, starts_with, is_ascii_hexdigit, len,
  is_ascii_alphanumeric, text, Text,
}
use certael_agent.Prelude.{
  ◌∷◌, List, [], ◌==◌, ◌&&◌, ◌||◌, ◌>>◌, ◌>>=◌, ◌++◌, ◌≡◌, err, Result, is_empty, same, get_or,
  none, length, false, ℕ, refuse_if, Option, ok_or, all, Bool, any, ok, not, ltb, some, leb, true,
}

pub data UpdateError : Type 0 where
  invalid_configuration trusted_root verification target_missing installation : UpdateError
  invalid_activation_state no_pending_update no_rollback : UpdateError

pub record ActivationSlot : Type 0 where
  pub version : Text
  pub relative_path : Text
  pub sha256 : Text

pub record ActivationState : Type 0 where
  pub format_version : ℕ
  pub active : Option ActivationSlot
  pub previous : Option ActivationSlot
  pub pending : Option ActivationSlot

-- ActivationState::default
abbrev pub default : ActivationState
default = record { format_version = 1; active = none; previous = none; pending = none }

-- What the operating system says of a path that exists: is its last part a symbolic link, is what
-- it leads to a regular file, its canonical form, does that lie below the install root, and the
-- bytes, if they can be read.
pub record Entry : Type 0 where
  pub canonical : Text
  pub is_link : Bool
  pub is_file : Bool
  pub inside : Bool
  pub content : Option Bytes

-- An install root. `path`: its canonical path. `usable`: it was given as an absolute path of a
-- directory that is no link. `entry`: what stands at a path below it, links followed. `activation`:
-- what stands at `activation.json`.
pub record Root : Type 0 where
  pub path : Text
  pub usable : Bool
  pub entry : Text → Option Entry
  pub activation : Option Entry

-- serde_json for the state, and `hex::encode(Sha256::digest(..))`.
pub record Formats : Type 0 where
  pub parse : Bytes → Option ActivationState
  pub print : ActivationState → Option Bytes
  pub hex_sha256 : Bytes → Text

-- serde_json reads back what it wrote.
pub record FormatsLaws (x : Formats) : Type 0 where
  pub parse-print : (s : ActivationState) (b : Bytes) → x.print s ≡ some b → x.parse b ≡ some s

abbrev pub first_or : Text → List Text → Text
first_or other [] = other
first_or other (p ∷ ps) = p

-- The stem before the first dot, in capitals, names a device of Windows.
unfoldable pub windows_reserved_component : Text → Bool
unfolding split to_ascii_uppercase starts_with len
windows_reserved_component value =
    let stem = to_ascii_uppercase (first_or value (split (λ c. c == b'.') value)) in
    same stem (text "CON")
    || same stem (text "PRN")
    || same stem (text "AUX")
    || same stem (text "NUL")
    || (len stem == 4
        && (starts_with stem (text "COM") || starts_with stem (text "LPT"))
        && in_range b'1' b'9' (get_or (bytes stem) 3 0))

unfoldable pub component_byte : ℕ → Bool
component_byte b = is_ascii_alphanumeric b || (b == b'.' || b == b'_' || b == b'-')

unfoldable pub safe_component : Text → Bool
unfolding windows_reserved_component component_byte len
safe_component value =
    not (is_empty value)
    && leb (len value) 128
    && not (same value (text "."))
    && not (same value (text ".."))
    && not (windows_reserved_component value)
    && all component_byte (bytes value)

unfoldable pub valid_digest : Text → Bool
unfolding len
valid_digest value = len value == 64 && all is_ascii_hexdigit (bytes value)

-- `Path::components` skips empty parts and a `.` behind the first part; what is left beside normal
-- parts is the root, a `.` in front, and `..`.
unfoldable pub all_normal : Text → Bool
unfolding split
all_normal path =
    let parts = split (λ c. c == b'/') path in
    not (starts_with path (text "/"))
    && not (same (first_or [] parts) (text "."))
    && not (any (λ p. same p (text "..")) parts)

-- format!("versions/{}/", version)
abbrev pub version_prefix : Text → Text
version_prefix version = text "versions/" ++ version ++ text "/"

unfoldable pub validate_slot : ActivationSlot → Result UpdateError (Unit {0})
unfolding safe_component valid_digest all_normal
validate_slot slot =
    refuse_if
      (not (safe_component slot.version)
        || not (valid_digest slot.sha256)
        || starts_with slot.relative_path (text "/")
        || not (all_normal slot.relative_path)
        || not (starts_with slot.relative_path (version_prefix slot.version)))
      invalid_activation_state

abbrev pub validate_option : Option ActivationSlot → Result UpdateError (Unit {0})
validate_option none = ok tt
validate_option (some slot) = validate_slot slot

-- The loop over the three slots that are there.
unfoldable pub validate_state : ActivationState → Result UpdateError (Unit {0})
validate_state s =
    refuse_if (not (s.format_version == 1)) invalid_activation_state
    >> validate_option s.active
    >> validate_option s.previous
    >> validate_option s.pending

unfoldable pub max_activation_state_bytes : ℕ
max_activation_state_bytes = 65536

abbrev pub bytes_of : Option Bytes → UpdateError → Result UpdateError Bytes
bytes_of content e = ok_or content e

-- What the steps of `write_activation_state` that the system carries out come to: one of them fails
-- before or in `atomic_replace`; only the last, `sync_directory`, fails; or none.
pub data Outcome : Type 0 where
  not_replaced not_synced written : Outcome

-- The canonical path of a file that no link leads to.
abbrev pub below : Root → Text → Text
below root path = root.path ++ text "/" ++ path

-- A file that was written under this name.
abbrev pub plain_file : Root → Text → Bytes → Entry
plain_file root path b = record {
  canonical = below root path;
  is_link = false;
  is_file = true;
  inside = true;
  content = some b;
}

abbrev pub replace_state : Root → Bytes → Root
replace_state root b = record root {
  activation = some (plain_file root (text "activation.json") b);
}

module _ (x : Formats) where
  -- The digest of a file that is named by its path: links are refused.
  unfoldable pub hash_file : Option Entry → Result UpdateError Text
  hash_file none = err verification
  hash_file (some e) =
      refuse_if (e.is_link || not e.is_file) verification
      >> (bytes_of e.content verification >>= λ b. ok (x.hex_sha256 b))

  -- The same at the canonical path, which is never a link.
  unfoldable pub hash_canonical : Entry → Result UpdateError Text
  hash_canonical e =
      refuse_if (not e.is_file) verification
      >> (bytes_of e.content verification >>= λ b. ok (x.hex_sha256 b))

  unfoldable pub verify_slot : Root → ActivationSlot → Result UpdateError (Unit {0})
  unfolding hash_canonical
  verify_slot root slot =
      validate_slot slot
      >> (ok_or (root.entry slot.relative_path) verification >>= λ e.
          refuse_if (not e.inside) verification
          >> (hash_canonical e >>= λ digest.
              refuse_if (not (same digest slot.sha256)) verification))

  -- The file that is there: size, form and validity.
  unfoldable pub read_state_file : Entry → Result UpdateError ActivationState
  unfolding max_activation_state_bytes
  read_state_file e =
      refuse_if (e.is_link || not e.is_file) invalid_activation_state
      >> (bytes_of e.content invalid_activation_state >>= λ b.
          refuse_if (length b == 0 || ltb max_activation_state_bytes (length b))
            invalid_activation_state
          >> (ok_or (x.parse b) invalid_activation_state >>= λ s. validate_state s >> ok s))

  abbrev pub read_activation_state_canonical : Root → Result UpdateError ActivationState
  read_activation_state_canonical root = elim (root.activation) [
    | none ↦ ok default
    | some e ↦ read_state_file e
  ]

  unfoldable pub encode_state : ActivationState → Result UpdateError Bytes
  unfolding max_activation_state_bytes
  encode_state s =
      validate_state s
      >> (ok_or (x.print s) installation >>= λ b.
          refuse_if (is_empty b || ltb max_activation_state_bytes (length b)) installation >> ok b)

  unfoldable pub write_activation_state :
      Root → Outcome → ActivationState → Result UpdateError (Unit {0}) × Root
  write_activation_state root outcome s = elim (encode_state s) [
    | err e ↦ (err e, root)
    | ok b ↦ elim outcome [
      | not_replaced ↦ (err installation, root)
      | not_synced ↦ (err installation, replace_state root b)
      | written ↦ (ok tt, replace_state root b)
    ]
  ]
