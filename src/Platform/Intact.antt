-- ===== src/Platform/Intact.antt =====
-- When a protected build is accepted.
use certael_agent.Protocol.External.{Crypto}
use certael_agent.Text.{eq_ignore_ascii_case, Bytes, Text}
use certael_agent.Platform.{
  verify_build_manifest, ManifestMismatch, Node, Hex, bad_entry, GameRoot, ProtectedBuildManifest,
  ProtectedBuildFile, compare_file, bad_manifest, compare_files,
}
use certael_agent.Platform.WellFormed.{
  IsWellFormed, bad_manifest-IsWellFormed, IsWellFormed-bad_manifest, IsEntry, bad_entry-IsEntry,
  IsEntry-bad_entry,
}
use certael_agent.Prelude.{
  two_checks_pass, [], ◌∙◌, ◌↔◌, ◌++◌, ◌∷◌, ◌≡◌, ap, arith, false, inl, List, true, >>=-eq-ok, inr,
  some, ok, All, refuse_if, Option-cases, refl, refuse_if-eq-ok, not, two_checks-eq-ok,
}

module _ (x : Crypto) (hex : Hex) where
  -- The file is there as the manifest has it.
  pub record IsIntact (root : GameRoot) (f : ProtectedBuildFile) : Type 0 where
    pub node : Node
    pub found : root.node f.path ≡ some node
    pub no_link : node.is_link ≡ false
    pub regular : node.is_file ≡ true
    pub resolved : node.resolves ≡ true
    pub inside : node.inside ≡ true
    pub size : node.size ≡ f.size
    pub held : Bytes
    pub readable : node.content ≡ some held
    pub digest : eq_ignore_ascii_case (hex.encode (x.sha256 held)) f.sha256 ≡ true

  compare_file-IsIntact :
      (root : GameRoot) (f : ProtectedBuildFile)
      → compare_file x hex root f ≡ ok []
      → IsIntact root f
  unfolding compare_file
  compare_file-IsIntact root f h = elim (Option-cases (root.node f.path)) [
    | inl e ↦ absurd (ground (arith, e))
    | inr (n, e) ↦ elim (Option-cases n.content) [
      | inl c ↦ absurd (ground (arith, e, c))
      | inr (b, c) ↦ record {
        node = n;
        found = e;
        no_link = ground (arith, e, c);
        regular = ground (arith, e, c);
        resolved = ground (arith, e, c);
        inside = ground (arith, e, c);
        size = ground (arith, e, c);
        held = b;
        readable = c;
        digest = ground (arith, e, c);
      }
    ]
  ]

  IsIntact-compare_file :
      (root : GameRoot) (f : ProtectedBuildFile)
      → IsIntact root f
      → compare_file x hex root f ≡ ok []
  unfolding compare_file
  IsIntact-compare_file root f h =
      ground
        (arith, h.found, h.no_link, h.regular, h.resolved, h.inside, h.size, h.readable, h.digest)

  empty_append : (xs ys : List ManifestMismatch) → xs ++ ys ≡ [] → (xs ≡ []) × (ys ≡ [])
  empty_append [] ys h = (refl, h)
  empty_append (a ∷ xs) ys h = cc

  -- Every entry can be used, where these paths are taken.
  abbrev pub AllUsable : List Text → List ProtectedBuildFile → Type 0
  AllUsable seen [] = Unit
  AllUsable seen (f ∷ fs) = IsEntry seen f × AllUsable (f.path ∷ seen) fs

  compare_files-All :
      (root : GameRoot) (seen : List Text) (fs : List ProtectedBuildFile)
      → compare_files x hex root seen fs ≡ ok []
      → AllUsable seen fs × All (IsIntact root) fs
  unfolding compare_files
  compare_files-All root seen [] h = (tt, tt)
  compare_files-All root seen (f ∷ fs) h =
      let (u, usable, rest) = >>=-eq-ok (refuse_if (bad_entry seen f) _) _ h in
      let (found, one, more) = >>=-eq-ok (compare_file x hex root f) _ rest in
      let (others, many, last) = >>=-eq-ok (compare_files x hex root (f.path ∷ seen) fs) _ more in
      let joined : found ++ others ≡ [] = cc in
      let (none_here, none_there) = empty_append found others joined in
      let (uses, intact) = compare_files-All root (f.path ∷ seen) fs (many ∙ ap ok none_there) in
      (
        (bad_entry-IsEntry seen f (refuse_if-eq-ok (bad_entry seen f) _ usable), uses),
        (compare_file-IsIntact root f (one ∙ ap ok none_here), intact),
      )

  All-compare_files :
      (root : GameRoot) (seen : List Text) (fs : List ProtectedBuildFile)
      → AllUsable seen fs
      → All (IsIntact root) fs
      → compare_files x hex root seen fs ≡ ok []
  unfolding compare_files
  All-compare_files root seen [] uses h = refl
  All-compare_files root seen (f ∷ fs) uses h = rw (
    IsEntry-bad_entry seen f uses.0,
    IsIntact-compare_file root f h.0,
    All-compare_files root (f.path ∷ seen) fs uses.1 h.1,
  )

  pub verify_build_manifest_iff :
      (root : GameRoot) (m : ProtectedBuildManifest)
      → (verify_build_manifest x hex root m ≡ ok []) ↔ (
          (root.present ≡ true)
          × IsWellFormed root m
          × AllUsable [] m.files
          × All (IsIntact root) m.files)
  unfolding verify_build_manifest
  verify_build_manifest_iff root m = (
    λ h.
        let (there, formed, rest) =
          two_checks-eq-ok (not root.present) (bad_manifest root m) "game root does not exist"
            "build manifest is invalid" (compare_files x hex root [] m.files) h in
        let (uses, intact) = compare_files-All root [] m.files rest in
        (ground (arith, there), bad_manifest-IsWellFormed root m formed, uses, intact),
    λ h.
        let (there, formed, uses, intact) = h in
        two_checks_pass (not root.present) (bad_manifest root m) "game root does not exist"
          "build manifest is invalid" (compare_files x hex root [] m.files) (ap not there)
          (IsWellFormed-bad_manifest root m formed)
        ∙ All-compare_files root [] m.files uses intact,
  )
