-- ===== src/Platform/WellFormed.antt =====
-- The manifests of a protected build that `verify_build_manifest` reads, said without its tests.
use certael_agent.Text.{Text, len, bytes, starts_with, text, is_ascii_hexdigit}
use certael_agent.Text.Split.{split}
use certael_agent.Platform.{
  GameRoot, ProtectedBuildManifest, ProtectedBuildFile, bad_manifest, bad_entry, safe_relative_path,
}
use certael_agent.Prelude.{
  ◌==◌, ◌≤◌, ◌≡◌, ◌≢◌, List, All, all, arith, false, is_empty, length, true, not_any-All,
  All-not_any,
}

-- The root is a directory, the build has a name of at most 128 bytes, and between one and 16,384
-- files are listed.
pub record IsWellFormed (root : GameRoot) (m : ProtectedBuildManifest) : Type 0 where
  pub directory : root.is_dir ≡ true
  pub named : is_empty m.build_id ≡ false
  pub short : len m.build_id ≤ 128
  pub listed : is_empty m.files ≡ false
  pub bounded : length m.files ≤ 16384

pub bad_manifest-IsWellFormed :
    (root : GameRoot) (m : ProtectedBuildManifest)
    → bad_manifest root m ≡ false
    → IsWellFormed root m
unfolding bad_manifest
bad_manifest-IsWellFormed root m h = record {
  directory = ground (arith, h);
  named = ground (arith, h);
  short = ground (arith, h);
  listed = ground (arith, h);
  bounded = ground (arith, h);
}

pub IsWellFormed-bad_manifest :
    (root : GameRoot) (m : ProtectedBuildManifest)
    → IsWellFormed root m
    → bad_manifest root m ≡ false
unfolding bad_manifest
IsWellFormed-bad_manifest root m h =
    ground (arith, h.directory, h.named, h.short, h.listed, h.bounded)

-- A relative path of at most 512 bytes that has no `..`, and 64 hexadecimal digits; the path is none
-- of those before it.
pub record IsEntry (seen : List Text) (f : ProtectedBuildFile) : Type 0 where
  pub named : is_empty f.path ≡ false
  pub short : len f.path ≤ 512
  pub relative : starts_with f.path (text "/") ≡ false
  pub no_way_up : All (λ p. p ≢ text "..") (split (λ c. c == b'/') f.path)
  pub sized : len f.sha256 ≡ 64
  pub hexadecimal : all is_ascii_hexdigit (bytes f.sha256) ≡ true
  pub new_path : All (λ p. p ≢ f.path) seen

pub bad_entry-IsEntry :
    (seen : List Text) (f : ProtectedBuildFile) → bad_entry seen f ≡ false → IsEntry seen f
unfolding bad_entry safe_relative_path
bad_entry-IsEntry seen f h = record {
  named = ground (arith, h);
  short = ground (arith, h);
  relative = ground (arith, h);
  no_way_up = not_any-All (text "..") (split (λ c. c == b'/') f.path) (ground (arith, h));
  sized = ground (arith, h);
  hexadecimal = ground (arith, h);
  new_path = not_any-All f.path seen (ground (arith, h));
}

pub IsEntry-bad_entry :
    (seen : List Text) (f : ProtectedBuildFile) → IsEntry seen f → bad_entry seen f ≡ false
unfolding bad_entry safe_relative_path
IsEntry-bad_entry seen f h =
    let plain = All-not_any (text "..") (split (λ c. c == b'/') f.path) h.no_way_up in
    let apart = All-not_any f.path seen h.new_path in
    ground (arith, plain, apart, h.named, h.short, h.relative, h.sized, h.hexadecimal)
