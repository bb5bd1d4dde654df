-- ===== src/Branding.antt =====
-- crates/certael-agent/src/branding.rs: the images that a publisher signed for a game. What an
-- installation and a later check do alike has one message here.
pub mod Stored
mod Tests
use certael_agent.Text.Split.{split}
use certael_agent.Protocol.Registration.{SignedBrandingManifestV1, BrandingManifestClaimsV1}
use certael_agent.Protocol.Errors.{decode}
use certael_agent.Protocol.KeyRing.{VerificationKeyRing}
use certael_agent.Protocol.External.{Codec, Crypto}
use certael_agent.Protocol.Domains.{branding}
use certael_agent.Registry.{hero_file}
use certael_agent.Protocol.Verify.{verify_branding_manifest, Codecs}
use certael_agent.Files.{read_regular, FileNode}
use certael_agent.Prelude.Int.{ℤ}
use certael_agent.Prelude.{
  any, if◌then◌else◌, ◌==◌, ◌&&◌, ◌||◌, ◌>>◌, ◌>>=◌, ◌*◌, Bool, map_err, same, ltb, refuse_if, some,
  is_empty, not, true, ok, none, ℕ, ok_or, Result, false, Option, leb, length, String,
}
use certael_agent.Text.{starts_with, text, Text, len, Bytes}
use certael_agent.Protocol.Report.{unsigned}

pub data PngRole : Type 0 where
  icon hero : PngRole

-- What the crate png says of an image, within a limit of memory: its size, is it animated, the size of
-- its pixels if that can be told, and of its first frame, if it can be read, is it RGB or RGBA.
pub record PngInfo : Type 0 where
  pub width : ℕ
  pub height : ℕ
  pub animated : Bool
  pub output_size : Option ℕ
  pub frame : Option Bool

pub record BrandingTools : Type 0 where
  pub crypto : Crypto
  pub codecs : Codecs
  pub signed_branding : Codec SignedBrandingManifestV1
  pub png : ℕ → Bytes → Option PngInfo

-- A path below the asset root: does its canonical form lie below the root, and the file there.
pub record Asset : Type 0 where
  pub inside : Bool
  pub node : FileNode

pub record AssetRoot : Type 0 where
  pub is_dir : Bool
  pub file : Text → Option Asset

pub record InstalledBranding : Type 0 where
  pub signed : SignedBrandingManifestV1
  pub icon : Bytes
  pub hero : Option Bytes

-- The paths of the images are those that were given; of the hero it says whether there is one.
pub record VerifiedBranding : Type 0 where
  pub claims : BrandingManifestClaimsV1
  pub has_hero : Bool

abbrev pub max_manifest_bytes : ℕ
max_manifest_bytes = 65536

abbrev pub max_file_bytes : PngRole → ℕ
max_file_bytes icon = 4194304
max_file_bytes hero = 12582912

abbrev pub max_decoded_bytes : PngRole → ℕ
max_decoded_bytes icon = 16777216
max_decoded_bytes hero = 50331648

-- The ratio of a hero's sides, which the source computes in f64, is compared without division.
unfoldable pub dimensions_valid : PngRole → ℕ → ℕ → Bool
dimensions_valid icon width height =
    leb 32 width && leb 32 height && leb width 2048 && leb height 2048 && width == height
dimensions_valid hero width height =
    leb 640 width
    && leb 320 height
    && leb width 3840
    && leb height 2160
    && (leb (3 * height) (2 * width) && leb (5 * width) (12 * height))

-- Every component is a normal one, on Unix: `Path::components` skips empty parts, and `.` unless it
-- comes first.
unfoldable pub safe_relative : Text → Bool
unfolding split len starts_with
safe_relative value =
    not (is_empty value)
    && leb (len value) 512
    && not (starts_with value (text "/"))
    && not (same value (text ".") || starts_with value (text "./"))
    && not (any (λ p. same p (text "..")) (split (λ c. c == b'/') value))

module _ (x : BrandingTools) where
  unfoldable pub verify_png : PngRole → Bytes → Result String (ℕ × ℕ)
  unfolding dimensions_valid
  verify_png role b =
      ok_or (x.png (max_decoded_bytes role) b) "branding icon is not a valid PNG" >>= λ info.
      refuse_if (not (dimensions_valid role info.width info.height) || info.animated)
        "branding PNG dimensions or animation are unsupported"
      >> (ok_or info.output_size "branding PNG decoded size is invalid" >>= λ size.
          refuse_if (size == 0 || ltb (max_decoded_bytes role) size)
            "branding PNG decoded size exceeds its limit"
          >> (ok_or info.frame "branding PNG pixel data is invalid" >>= λ rgb.
              refuse_if (not rgb) "branding PNG must decode to RGB or RGBA"
              >> ok (info.width, info.height)))

  unfoldable pub validate_binding :
      BrandingManifestClaimsV1 → Text → Text → Result String (Unit {0})
  validate_binding claims registration_id game_id =
      refuse_if
        (not (same claims.registration_id registration_id) || not (same claims.game_id game_id))
        "branding manifest is bound to another game registration"

  -- The bytes of an image, its digest and its form.
  unfoldable pub verify_image : PngRole → Option FileNode → Bytes → Result String Bytes
  unfolding read_regular verify_png
  verify_image role file digest = read_regular file (max_file_bytes role) >>= λ b.
      refuse_if (not (same (x.crypto.sha256 b) digest)) "signed branding digest does not match"
      >> (verify_png role b >>= λ size. ok b)

  unfoldable pub asset_image : AssetRoot → PngRole → Text → Bytes → Result String Bytes
  unfolding verify_image
  asset_image root role path digest =
      ok_or (root.file path) "signed branding image is unavailable" >>= λ asset.
      refuse_if (not asset.inside) "signed branding image escapes its asset root"
      >> verify_image role (some asset.node) digest

  -- The manifest, once its bytes are there.
  unfoldable pub accept_manifest :
      Bytes
      → VerificationKeyRing
      → Text
      → Text
      → ℤ
      → Result String (SignedBrandingManifestV1 × BrandingManifestClaimsV1)
  unfolding verify_branding_manifest validate_binding
  accept_manifest manifest keys registration_id game_id now =
      ok_or (x.signed_branding.decode manifest) "branding manifest is malformed" >>= λ signed.
      refuse_if (not (same (x.signed_branding.encode signed) manifest))
        "branding manifest is not canonical"
      >> (map_err (verify_branding_manifest x.crypto x.codecs signed keys now)
            (λ e. "branding manifest was rejected")
          >>= λ claims. validate_binding claims registration_id game_id >> ok (signed, claims))

  unfoldable pub install_hero : AssetRoot → BrandingManifestClaimsV1 → Result String (Option Bytes)
  unfolding asset_image
  install_hero root claims =
      if is_empty claims.hero_relative_path
      then ok none
      else (asset_image root hero claims.hero_relative_path claims.hero_sha256 >>= λ b. ok (some b))

  unfoldable pub verify_install :
      Option FileNode
      → Option AssetRoot
      → VerificationKeyRing
      → Text
      → Text
      → ℤ
      → Result String InstalledBranding
  unfolding accept_manifest safe_relative asset_image install_hero
  verify_install manifest branding_root keys registration_id game_id now =
      read_regular manifest max_manifest_bytes >>= λ b.
      accept_manifest b keys registration_id game_id now >>= λ accepted.
      ok_or branding_root "branding asset root is unavailable" >>= λ root.
      refuse_if (not root.is_dir || not (safe_relative accepted.1.icon_relative_path))
        "branding asset root or icon path is invalid"
      >> (asset_image root icon accepted.1.icon_relative_path accepted.1.icon_sha256 >>= λ image.
          install_hero root accepted.1 >>= λ banner.
          ok (record { signed = accepted.0; icon = image; hero = banner }))

  -- `hero_path.exists()`
  abbrev pub is_there : Option FileNode → Bool
  is_there none = false
  is_there (some f) = true

  unfoldable pub stored_hero : Option FileNode → BrandingManifestClaimsV1 → Result String Bool
  unfolding verify_image
  stored_hero file claims =
      if is_empty claims.hero_relative_path
      then (refuse_if (is_there file) "stored branding has an unsigned hero image" >> ok false)
      else (verify_image hero file claims.hero_sha256 >>= λ b. ok true)

  unfoldable pub verify_stored :
      Bytes
      → Option FileNode
      → Option FileNode
      → VerificationKeyRing
      → Text
      → Text
      → ℤ
      → Result String VerifiedBranding
  unfolding accept_manifest verify_image stored_hero
  verify_stored signed_bytes icon_file hero_file keys registration_id game_id now =
      refuse_if (is_empty signed_bytes || ltb max_manifest_bytes (length signed_bytes))
        "stored branding manifest size is invalid"
      >> (accept_manifest signed_bytes keys registration_id game_id now >>= λ accepted.
          verify_image icon icon_file accepted.1.icon_sha256 >>= λ image.
          stored_hero hero_file accepted.1 >>= λ has_hero.
          ok (record { claims = accepted.1; has_hero = has_hero }))
