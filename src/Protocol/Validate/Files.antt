-- ===== src/Protocol/Validate/Files.antt =====
-- What the validated files of a build manifest are.
use certael_agent.Protocol.Errors.{invalid_field}
use certael_agent.Protocol.Messages.{BuildManifestClaimsV1, ProtectedBuildFileV1}
use certael_agent.Text.{Text, to_ascii_lowercase}
use certael_agent.Protocol.Fields.{safe_relative_path}
use certael_agent.Prelude.Int.{ℤ}
use certael_agent.Prelude.{
  [], ◌<◌, ◌≤◌, ◌≢◌, ◌∷◌, ◌≡◌, false, same_of_eq, ok, >>=-eq-ok, Memᴰ, true, arith, refuse_if-eq-ok,
  refuse_if, refl, same, All, any-false, length, List,
}
use certael_agent.Protocol.Validate.{
  set_contains, bad_file, manifest_malformed, validate_build_manifest,
}

-- Every two of these paths differ.
abbrev pub AllDistinct : List Text → Type 0
AllDistinct [] = Unit
AllDistinct (p ∷ ps) = All (λ q. p ≢ q) ps × AllDistinct ps

-- The paths as the set holds them.
abbrev pub lowered : List ProtectedBuildFileV1 → List Text
lowered [] = []
lowered (f ∷ files) = to_ascii_lowercase f.path ∷ lowered files

pub record IsProtected (f : ProtectedBuildFileV1) : Type 0 where
  pub safe : safe_relative_path f.path ≡ true
  pub digest : length f.sha256 ≡ 32

-- A path that was inserted before is not met again.
bad_file_seen :
    (p : Text) (paths : List Text) (files : List ProtectedBuildFileV1)
    → Memᴰ p paths
    → bad_file paths files ≡ false
    → All (λ q. p ≢ q) (lowered files)
unfolding bad_file set_contains
bad_file_seen p paths [] m h = tt
bad_file_seen p paths (f ∷ files) m h =
    let path = to_ascii_lowercase f.path in
    let apart : same p path ≡ false = any-false (λ w. same w path) p paths m (ground arith) in
    (
      λ e. absurd (ground (arith, same_of_eq p path e, apart)),
      bad_file_seen p (path ∷ paths) files (Memᴰ.tail m) (ground arith),
    )

bad_file_good :
    (paths : List Text) (files : List ProtectedBuildFileV1)
    → bad_file paths files ≡ false
    → All IsProtected files × AllDistinct (lowered files)
unfolding bad_file
bad_file_good paths [] h = (tt, tt)
bad_file_good paths (f ∷ files) h =
    let path = to_ascii_lowercase f.path in
    let rest : bad_file (path ∷ paths) files ≡ false = ground arith in
    let (good, distinct) = bad_file_good (path ∷ paths) files rest in
    (
      (record { safe = ground arith; digest = ground arith }, good),
      (bad_file_seen path (path ∷ paths) files (Memᴰ.head refl) rest, distinct),
    )

-- A build manifest that is valid lists at least one and at most 16384 files, each with a path that
-- stays below its directory and a digest of 32 bytes, and no two of the paths are the same when
-- letters are compared without case.
pub validate_build_manifest-IsProtected :
    (c : BuildManifestClaimsV1) (now : ℤ)
    → validate_build_manifest c now ≡ ok tt
    → (0 < length c.files)
      × (length c.files ≤ 16384)
      × All IsProtected c.files
      × AllDistinct (lowered c.files)
unfolding validate_build_manifest manifest_malformed
validate_build_manifest-IsProtected c now h =
    let (u, formed, listed) =
      >>=-eq-ok (refuse_if (manifest_malformed c now) (invalid_field "build_manifest"))
        (λ _. refuse_if (bad_file [] c.files) (invalid_field "build_manifest_file")) h in
    let fine = refuse_if-eq-ok (manifest_malformed c now) _ formed in
    let clean = refuse_if-eq-ok (bad_file [] c.files) _ listed in
    let (good, distinct) = bad_file_good [] c.files clean in
    (ground (arith, fine), ground (arith, fine), good, distinct)
