-- ===== src/Branding/Stored.antt =====
-- A branding that was accepted is accepted again from what is stored of it.
use certael_agent.Protocol.KeyRing.{VerificationKeyRing}
use certael_agent.Prelude.Int.{ℤ}
use certael_agent.Registry.{hero_file}
use certael_agent.Protocol.Registration.{BrandingManifestClaimsV1, SignedBrandingManifestV1}
use certael_agent.Protocol.Verify.{verify_branding_manifest}
use certael_agent.Text.{Bytes, Text}
use certael_agent.Prelude.{
  ◌>>=◌, inl, Bool-cases, sym, inr, ap, ◌∙◌, ◌==◌, ◌||◌, ◌≤◌, ◌≡◌, none, same, false,
  refuse_if-eq-ok, suc, eq_of_same, ok_or-eq-ok, map_err, refuse_if, arith, ltb, length, true,
  is_empty, take, not, refl, Bool, ℕ, ok, some, Option, ok-injective, >>=-eq-ok,
}
use certael_agent.Branding.{
  verify_stored, safe_relative, InstalledBranding, max_manifest_bytes, hero, verify_install, icon,
  BrandingTools, install_hero, verify_png, accept_manifest, verify_image, validate_binding,
  stored_hero, max_file_bytes, asset_image, AssetRoot, PngRole,
}
use certael_agent.Files.{plain, read_regular-plain, FileNode, read_regular}
use mathlib.Core.Path.{subst}

abbrev pub has : Option Bytes → Bool
has none = false
has (some b) = true

read_regular-bounded :
    (file : Option FileNode) (maximum : ℕ) (b : Bytes)
    → read_regular file maximum ≡ ok b
    → length b ≤ maximum
unfolding read_regular
read_regular-bounded file maximum b h =
    let (f, there, h1) = ok_or-eq-ok file _ _ h in
    let (u, regular, h2) =
      >>=-eq-ok (refuse_if (f.is_link || not f.is_file || f.size == 0 || ltb maximum f.size) _) _
        h1 in
    let (c, readable, h3) = ok_or-eq-ok f.content _ _ h2 in
    let (u', short, h4) =
      >>=-eq-ok (refuse_if (ltb maximum (length (take (suc maximum) c))) _) _ h3 in
    subst (λ d. length d ≤ maximum) (ok-injective (take (suc maximum) c) b refl refl h4)
      (ground (arith, refuse_if-eq-ok (ltb maximum (length (take (suc maximum) c))) _ short))

accepted_size :
    (m : Bytes) (maximum : ℕ)
    → is_empty m ≡ false
    → length m ≤ maximum
    → (is_empty m || ltb maximum (length m)) ≡ false
accepted_size m maximum h k = ground arith

module _ (x : BrandingTools) where
  verify_image-plain :
      (role : PngRole) (file : Option FileNode) (digest b : Bytes)
      → verify_image x role file digest ≡ ok b
      → is_empty b ≡ false
      → verify_image x role (some (plain b)) digest ≡ ok b
  unfolding verify_image
  verify_image-plain role file digest b h nonempty =
      let (c, read, h1) = >>=-eq-ok (read_regular file (max_file_bytes role)) _ h in
      let (u, fits, h2) = >>=-eq-ok (refuse_if (not (same (x.crypto.sha256 c) digest)) _) _ h1 in
      let (size, form, h3) = >>=-eq-ok (verify_png x role c) _ h2 in
      let e : c ≡ b = ok-injective c b refl refl h3 in
      let bounded : length b ≤ max_file_bytes role =
        read_regular-bounded file (max_file_bytes role) b (read ∙ ap ok e) in
      rw (read_regular-plain b (max_file_bytes role) nonempty bounded)
        (rw (← e) (rw fits (rw form refl)))

  asset_image-verify_image :
      (root : AssetRoot) (role : PngRole) (relative : Text) (digest b : Bytes)
      → asset_image x root role relative digest ≡ ok b
      → (file : Option FileNode) × (verify_image x role file digest ≡ ok b)
  unfolding asset_image
  asset_image-verify_image root role relative digest b h =
      let (asset, found, h1) = ok_or-eq-ok (root.file relative) _ _ h in
      let (u, inside, h2) = >>=-eq-ok (refuse_if (not asset.inside) _) _ h1 in (some asset.node, h2)

  accept_manifest-encode :
      (manifest : Bytes) (keys : VerificationKeyRing) (registration_id game_id : Text) (now : ℤ)
      (signed : SignedBrandingManifestV1) (claims : BrandingManifestClaimsV1)
      → accept_manifest x manifest keys registration_id game_id now ≡ ok (signed, claims)
      → x.signed_branding.encode signed ≡ manifest
  unfolding accept_manifest
  accept_manifest-encode manifest keys registration_id game_id now signed claims h =
      let (s, decoded, h1) = ok_or-eq-ok (x.signed_branding.decode manifest) _ _ h in
      let (u, canonical, h2) =
        >>=-eq-ok (refuse_if (not (same (x.signed_branding.encode s) manifest)) _) _ h1 in
      let (c, verified, h3) =
        >>=-eq-ok (map_err (verify_branding_manifest x.crypto x.codecs s keys now) _) _ h2 in
      let (u', bound, h4) = >>=-eq-ok (validate_binding x c registration_id game_id) _ h3 in
      let e : s ≡ signed =
        ap (λ (q : SignedBrandingManifestV1 × BrandingManifestClaimsV1). q.0)
          (ok-injective (s, c) (signed, claims) refl refl h4) in
      let same_bytes = eq_of_same (x.signed_branding.encode s) manifest (
        ground (
          arith,
          refuse_if-eq-ok (not (same (x.signed_branding.encode s) manifest)) _ canonical,
        )) in
      subst (λ q. x.signed_branding.encode q ≡ manifest) e same_bytes

  stored_hero-install_hero :
      (root : AssetRoot) (claims : BrandingManifestClaimsV1) (o : Option Bytes)
      → install_hero x root claims ≡ ok o
      → ((b : Bytes) → o ≡ some b → is_empty b ≡ false)
      → stored_hero x (hero_file o) claims ≡ ok (has o)
  unfolding install_hero stored_hero
  stored_hero-install_hero root claims o h nonempty =
      elim (Bool-cases (is_empty claims.hero_relative_path)) [
        | inl e ↦
            let h' : ok none ≡ ok o = rw (e, install_hero) at h in
            subst (λ q. stored_hero x (hero_file q) claims ≡ ok (has q))
              (ok-injective none o refl refl h') (rw (e, stored_hero) refl)
        | inr e ↦
            let h' : (asset_image x root hero claims.hero_relative_path claims.hero_sha256 >>= λ b.
            ok (some b))
                ≡ ok o =
              rw (e, install_hero) at h in
            let (b, image, h1) =
              >>=-eq-ok (asset_image x root hero claims.hero_relative_path claims.hero_sha256) _
                h' in
            let is_some : some b ≡ o = ok-injective (some b) o refl refl h1 in
            let (file, verified) =
              asset_image-verify_image root hero claims.hero_relative_path claims.hero_sha256 b
                image in
            let again =
              verify_image-plain hero file claims.hero_sha256 b verified
                (nonempty b (sym is_some)) in
            subst (λ q. stored_hero x (hero_file q) claims ≡ ok (has q)) is_some
              (rw (e, stored_hero) (rw again refl))
      ]

  -- A branding that was accepted is accepted again from what is stored of it, for the same game, with
  -- the same keys and at the same time, and has a hero exactly if it had one, as long as none of the
  -- three files is empty.
  pub verify_stored-verify_install :
      (manifest : Option FileNode) (root : Option AssetRoot) (keys : VerificationKeyRing)
      (registration_id game_id : Text) (now : ℤ) (i : InstalledBranding)
      → verify_install x manifest root keys registration_id game_id now ≡ ok i
      → is_empty (x.signed_branding.encode i.signed) ≡ false
      → is_empty i.icon ≡ false
      → ((b : Bytes) → i.hero ≡ some b → is_empty b ≡ false)
      → (claims : BrandingManifestClaimsV1) × (verify_stored x
            (x.signed_branding.encode i.signed)
            (some (plain i.icon))
            (hero_file i.hero)
            keys
            registration_id
            game_id
            now
          ≡ ok (record { claims = claims; has_hero = has i.hero }))
  unfolding verify_install verify_stored
  verify_stored-verify_install manifest root keys registration_id game_id now i h some_manifest
        some_icon some_hero =
      let (m, read, h1) = >>=-eq-ok (read_regular manifest max_manifest_bytes) _ h in
      let (accepted, signed, h2) =
        >>=-eq-ok (accept_manifest x m keys registration_id game_id now) _ h1 in
      let claims = accepted.1 in
      let (r, there, h3) = ok_or-eq-ok root _ _ h2 in
      let (u, fine, h4) =
        >>=-eq-ok (refuse_if (not r.is_dir || not (safe_relative claims.icon_relative_path)) _) _
          h3 in
      let (image, found, h5) =
        >>=-eq-ok (asset_image x r icon claims.icon_relative_path claims.icon_sha256) _ h4 in
      let (banner, hung, h6) = >>=-eq-ok (install_hero x r claims) _ h5 in
      let made : InstalledBranding = record { signed = accepted.0; icon = image; hero = banner } in
      let e : made ≡ i = ok-injective made i refl refl h6 in
      let same_signed : accepted.0 ≡ i.signed = ap (λ (q : InstalledBranding). q.signed) e in
      let same_icon : image ≡ i.icon = ap (λ (q : InstalledBranding). q.icon) e in
      let same_hero : banner ≡ i.hero = ap (λ (q : InstalledBranding). q.hero) e in
      let whole : x.signed_branding.encode i.signed ≡ m =
        subst (λ q. x.signed_branding.encode q ≡ m) same_signed
          (accept_manifest-encode m keys registration_id game_id now accepted.0 claims signed) in
      let small =
        accepted_size m max_manifest_bytes (subst (λ q. is_empty q ≡ false) whole some_manifest)
          (read_regular-bounded manifest max_manifest_bytes m read) in
      let (file, verified) =
        asset_image-verify_image r icon claims.icon_relative_path claims.icon_sha256 i.icon
          (found ∙ ap ok same_icon) in
      let icon_again = verify_image-plain icon file claims.icon_sha256 i.icon verified some_icon in
      let hero_again =
        stored_hero-install_hero r claims i.hero (hung ∙ ap ok same_hero) some_hero in
      (claims, rw whole (rw small (rw signed (rw icon_again (rw hero_again refl)))))
