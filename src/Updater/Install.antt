-- ===== src/Updater/Install.antt =====
-- `install_verified_target`: copying a verified target into its version's directory.
pub mod Pending
use certael_agent.Text.{to_ascii_lowercase, Bytes, Text}
use certael_agent.Updater.Operations.{in_root, transition, installed_path}
use certael_agent.Prelude.{
  if◌then◌else◌, ◌&&◌, ◌||◌, ◌>>◌, ◌>>=◌, not, ok_or, refuse_if, some, Option, err, Result, none,
  false, same, Bool, true, ok,
}
use certael_agent.Updater.{
  Outcome, verify_slot, ActivationState, safe_component, plain_file, Root, Entry, installation,
  UpdateError, invalid_configuration, verification, Formats, valid_digest, ActivationSlot,
  hash_file,
}

-- What the system does with the copy: a step fails before the digest is compared; one fails between
-- that and the rename; only the sync behind the rename fails; or none.
pub data CopyOutcome : Type 0 where
  not_copied not_moved moved_not_synced moved : CopyOutcome

-- One installation: the two names of `InstallConfig`, whether its root is an absolute path, whether
-- the directories are there or can be made and are no links, and what copying and writing come to.
pub record Install : Type 0 where
  pub version : Text
  pub installed_name : Text
  pub absolute : Bool
  pub directories : Bool
  pub copying : CopyOutcome
  pub writing : Outcome

unfoldable pub validate_install : Install → Text → Result UpdateError (Unit {0})
validate_install i expected =
    refuse_if
      (not i.absolute
        || not (safe_component i.version)
        || not (safe_component i.installed_name)
        || not (valid_digest expected))
      invalid_configuration

-- The root with a file at this path.
unfoldable pub put : Root → Text → Bytes → Root
put root path b = record root {
  entry = λ p. if same p path then some (plain_file root path b) else root.entry p;
}

abbrev pub install_slot : Install → Text → ActivationSlot
install_slot i expected = record {
  version = i.version;
  relative_path = installed_path i.version i.installed_name;
  sha256 = to_ascii_lowercase expected;
}

-- `staged_target` is a regular file and no link.
abbrev pub plain : Option Entry → Bool
plain none = false
plain (some e) = e.is_file && not e.is_link

abbrev pub staged_bytes : Option Entry → Option Bytes
staged_bytes none = none
staged_bytes (some e) = e.content

abbrev pub pend : ActivationSlot → ActivationState → Result UpdateError ActivationState
pend slot s = ok (record s { pending = some slot })

module _ (x : Formats) where
  -- `copy_and_verify`, then the rename: the bytes that stand at the final path, and whether the sync
  -- succeeded.
  unfoldable pub copy_into : CopyOutcome → Option Bytes → Text → Result UpdateError (Bytes × Bool)
  copy_into outcome staged expected = ok_or staged installation >>= λ b. elim outcome [
    | not_copied ↦ err installation
    | not_moved ↦ refuse_if (not (same (x.hex_sha256 b) expected)) verification >> err installation
    | moved_not_synced ↦
        refuse_if (not (same (x.hex_sha256 b) expected)) verification >> ok (b, false)
    | moved ↦ refuse_if (not (same (x.hex_sha256 b) expected)) verification >> ok (b, true)
  ]

  -- The final path when `install_verified_target` has dealt with it.
  unfoldable pub place_target :
      Root → Install → ActivationSlot → Option Bytes → Result UpdateError (Unit {0}) × Root
  place_target root i slot staged = elim (root.entry slot.relative_path) [
    | some e ↦ (
      hash_file x (some e) >>= λ digest. refuse_if (not (same digest slot.sha256)) installation,
      root,
    )
    | none ↦ elim (copy_into i.copying staged slot.sha256) [
      | err e ↦ (err e, root)
      | ok r ↦ (refuse_if (not r.1) installation, put root slot.relative_path r.0)
    ]
  ]

  -- From the copy on.
  unfoldable pub install_slot_at :
      Root → Install → ActivationSlot → Option Bytes → Result UpdateError ActivationState × Root
  install_slot_at root i slot staged =
      let (placed, root') = place_target root i slot staged in
      elim (placed >>= λ _. verify_slot x root' slot) [
        | err e ↦ (err e, root')
        | ok u ↦ in_root root' (transition x root' i.writing (pend slot))
      ]

  -- The part behind the checks, which leave a directory that is no link, or their error.
  abbrev pub install_checked :
      Root
      → Install
      → Option Entry
      → Text
      → Result UpdateError (Unit {0})
      → Result UpdateError ActivationState × Root
  install_checked root i staged expected (err e) = (err e, root)
  install_checked root i staged expected (ok u) =
      install_slot_at (record root { usable = true }) i (install_slot i expected)
        (staged_bytes staged)

  abbrev pub install_checks : Install → Option Entry → Text → Result UpdateError (Unit {0})
  install_checks i staged expected =
      validate_install i expected
      >> refuse_if (not (plain staged)) installation
      >> refuse_if (not i.directories) installation

  -- The state that is written; the code returns the final path instead.
  unfoldable pub install_verified_target :
      Root → Install → Option Entry → Text → Result UpdateError ActivationState × Root
  install_verified_target root i staged expected =
      install_checked root i staged expected (install_checks i staged expected)
