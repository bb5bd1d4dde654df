-- ===== src/Platform.antt =====
-- crates/certael-agent-platform/src/lib.rs: the files of a protected build, and what the Agent
-- reports of the game's executable and process. Paths are those of Unix.
pub mod WellFormed
pub mod Intact
pub mod Samples
mod Tests
use certael_agent.Protocol.KeyRing.{resolve}
use certael_agent.Protocol.External.{Crypto}
use certael_agent.Text.Split.{split}
use certael_agent.Text.{
  eq_ignore_ascii_case, Bytes, len, bytes, Text, is_ascii_hexdigit, starts_with, contains, text,
}
use certael_agent.Prelude.{
  [], if◌then◌else◌, ◌==◌, ◌&&◌, ◌||◌, ◌>>◌, ◌>>=◌, ◌*◌, ◌++◌, ◌∷◌, ◌≡◌, ltb, Bool, ℕ, ok_or, err,
  false, List, Result, length, true, leb, Option, some, ok, is_empty, none, refuse_if, any, String,
  same, all, not,
}

-- hex::encode and hex::decode.
pub record Hex : Type 0 where
  pub encode : Bytes → Text
  pub decode : Text → Option Bytes

-- What the crate documents: an encoding has two lower-case digits for each byte, and is read back.
pub record HexLaws (x : Hex) : Type 0 where
  pub decode-encode : (b : Bytes) → x.decode (x.encode b) ≡ some b
  pub len-encode : (b : Bytes) → len (x.encode b) ≡ 2 * length b
  pub digits-encode : (b : Bytes) → all is_ascii_hexdigit (bytes (x.encode b)) ≡ true

pub record ProtectedBuildFile : Type 0 where
  pub path : Text
  pub size : ℕ
  pub sha256 : Text

pub record ProtectedBuildManifest : Type 0 where
  pub build_id : Text
  pub files : List ProtectedBuildFile

pub record ManifestMismatch : Type 0 where
  pub path : Text
  pub reason : String

-- What the system says of a path below the game root: is its last part a symbolic link, is it a
-- regular file, and of what size; does it have a canonical form, and does that lie below the root;
-- and the bytes, if they can be read.
pub record Node : Type 0 where
  pub is_link : Bool
  pub is_file : Bool
  pub size : ℕ
  pub resolves : Bool
  pub inside : Bool
  pub content : Option Bytes

-- A game root: does it exist, is it a directory, and what stands below it.
pub record GameRoot : Type 0 where
  pub present : Bool
  pub is_dir : Bool
  pub node : Text → Option Node

-- Every component is a normal one or `.`; `Path::components` skips empty parts.
unfoldable pub safe_relative_path : Text → Bool
unfolding split len starts_with
safe_relative_path value =
    not (is_empty value)
    && leb (len value) 512
    && not (starts_with value (text "/"))
    && not (any (λ p. same p (text "..")) (split (λ c. c == b'/') value))

unfoldable pub bad_manifest : GameRoot → ProtectedBuildManifest → Bool
unfolding len
bad_manifest root m =
    not root.is_dir
    || is_empty m.build_id
    || ltb 128 (len m.build_id)
    || is_empty m.files
    || ltb 16384 (length m.files)

unfoldable pub bad_entry : List Text → ProtectedBuildFile → Bool
unfolding safe_relative_path len
bad_entry seen f =
    not (safe_relative_path f.path)
    || not (len f.sha256 == 64)
    || not (all is_ascii_hexdigit (bytes f.sha256))
    || any (λ p. same p f.path) seen

abbrev mismatch : Text → String → List ManifestMismatch
mismatch path reason = record { path = path; reason = reason } ∷ []

-- The executable, as the system gives it: is its canonical form a regular file, its name if that is
-- UTF-8, its size, and its bytes if they can be read.
pub record Executable : Type 0 where
  pub is_file : Bool
  pub name : Option Text
  pub size : ℕ
  pub content : Option Bytes

-- What the system says of the Agent's own process.
pub record Machine : Type 0 where
  pub debugger_observed : Bool
  pub os : Text
  pub process_id : ℕ
  pub loaded_module_basenames : List Text

pub record IntegritySnapshot : Type 0 where
  pub executable_name : Text
  pub executable_sha256 : Text
  pub executable_size : ℕ
  pub debugger_observed : Bool
  pub platform : Text
  pub process_id : ℕ
  pub loaded_module_basenames : List Text
  pub executable_build_id : Option Text

pub record GameProcessSnapshot : Type 0 where
  pub running : Bool
  pub executable_matches : Bool
  pub parent_is_agent : Option Bool
  pub loaded_module_basenames : List Text
  pub process_identity_stable : Option Bool

abbrev no_process : GameProcessSnapshot
no_process = record {
  running = false;
  executable_matches = false;
  parent_is_agent = none;
  loaded_module_basenames = [];
  process_identity_stable = none;
}

-- `process_identity(process_id) == Some(expected)`
abbrev is_identity : Option ℕ → ℕ → Bool
is_identity none n = false
is_identity (some m) n = m == n

abbrev stable : Option ℕ → Option ℕ → Option Bool → Option Bool
stable none identity inspected = inspected
stable (some expected) identity inspected = some (is_identity identity expected)

-- `inspected` and `identity` are what the system says of the process with this number.
unfoldable pub inspect_game_process_bound :
    ℕ → Option ℕ → GameProcessSnapshot → Option ℕ → GameProcessSnapshot
inspect_game_process_bound process_id expected inspected identity =
    if process_id == 0 then no_process else record inspected {
      process_identity_stable = stable expected identity inspected.process_identity_stable;
    }

module _ (x : Crypto) (hex : Hex) where
  -- One round of the loop, behind the tests of the entry: the mismatch that it pushes, if any.
  unfoldable pub compare_file :
      GameRoot → ProtectedBuildFile → Result String (List ManifestMismatch)
  compare_file root f = elim (root.node f.path) [
    | none ↦ ok (mismatch f.path "MISSING")
    | some n ↦
        if n.is_link || not n.is_file
        then ok (mismatch f.path "UNSAFE_TYPE")
        else if not n.resolves
        then err "cannot resolve protected file"
        else if not n.inside
        then ok (mismatch f.path "PATH_ESCAPE")
        else if not (n.size == f.size)
        then ok (mismatch f.path "SIZE_MISMATCH")
        else (ok_or n.content "cannot hash protected file" >>= λ b. ok (
            if eq_ignore_ascii_case (hex.encode (x.sha256 b)) f.sha256
            then []
            else mismatch f.path "HASH_MISMATCH"))
  ]

  -- The loop, with the paths that were met before.
  unfoldable pub compare_files :
      GameRoot → List Text → List ProtectedBuildFile → Result String (List ManifestMismatch)
  unfolding bad_entry
  compare_files root seen [] = ok []
  compare_files root seen (f ∷ fs) =
      refuse_if (bad_entry seen f) "build manifest contains an invalid file entry"
      >> (compare_file root f >>= λ found.
          compare_files root (f.path ∷ seen) fs >>= λ rest. ok (found ++ rest))

  unfoldable pub verify_build_manifest :
      GameRoot → ProtectedBuildManifest → Result String (List ManifestMismatch)
  unfolding bad_manifest
  verify_build_manifest root m =
      refuse_if (not root.present) "game root does not exist"
      >> refuse_if (bad_manifest root m) "build manifest is invalid"
      >> compare_files root [] m.files

  -- The build id of an ELF file is read by the crate object.
  unfoldable pub inspect_executable :
      Machine → Option Text → Option Executable → Result String IntegritySnapshot
  inspect_executable machine build_id executable =
      ok_or executable "game executable does not exist" >>= λ e.
      refuse_if (not e.is_file) "game path is not a regular file"
      >> (ok_or e.name "game filename is not UTF-8" >>= λ name.
          ok_or e.content "cannot hash game executable" >>= λ b. ok (record {
            executable_name = name;
            executable_sha256 = hex.encode (x.sha256 b);
            executable_size = e.size;
            debugger_observed = machine.debugger_observed;
            platform = machine.os;
            process_id = machine.process_id;
            loaded_module_basenames = machine.loaded_module_basenames;
            executable_build_id = build_id;
          }))
