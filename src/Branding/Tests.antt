-- ===== src/Branding/Tests.antt =====
-- A branding with an icon and a hero, that is installed and checked again.
use certael_agent.Protocol.Samples.{one_message, ring, codecs, key, toy_crypto, toy_sign, digest_of}
use certael_agent.Files.{plain, read_regular}
use certael_agent.Branding.Stored.{verify_stored-verify_install}
use certael_agent.Protocol.Register.{branding_malformed}
use certael_agent.Protocol.Verify.{verify_branding_manifest, verify_envelope, decode_canonical}
use certael_agent.Protocol.Registration.{BrandingManifestClaimsV1, SignedBrandingManifestV1}
use certael_agent.Prelude.Int.{add_i64, pos}
use certael_agent.Protocol.KeyRing.{find, resolve, inactive}
use certael_agent.Text.Split.{split}
use certael_agent.Text.{
  to_ascii_lowercase, lower, ends_with, Bytes, bytes, is_control, utf8, is_ascii_alphanumeric, len,
  starts_with, is_ascii_alphabetic, text,
}
use certael_agent.Protocol.Fields.{
  safe_display, identifier_byte, plain_part, is_separator, identifier,
}
use certael_agent.Protocol.Domains.{signed_message, domain_bytes, branding, verify_signed_bytes}
use certael_agent.Branding.{
  AssetRoot, verify_stored, asset_image, verify_png, InstalledBranding, install_hero, safe_relative,
  icon, accept_manifest, verify_install, PngRole, verify_image, dimensions_valid, hero,
  BrandingTools, validate_binding,
}
use certael_agent.Prelude.{
  ltb, [], if◌then◌else◌, ◌∷◌, ◌≡◌, same, is_empty, false, all, any, some, refl, ok, true,
}

abbrev image_of : PngRole → Bytes
image_of icon = 1 ∷ []
image_of hero = 2 ∷ []

abbrev the_branding : BrandingManifestClaimsV1
the_branding = record {
  protocol_version = 1;
  registration_id = text "r";
  game_id = text "g";
  display_name = text "G";
  publisher_name = text "P";
  icon_relative_path = text "i.png";
  icon_sha256 = digest_of (1 ∷ []);
  not_before_unix = pos 900;
  expires_at_unix = pos 3000;
  hero_relative_path = text "h.png";
  hero_sha256 = digest_of (2 ∷ []);
}

abbrev signed : SignedBrandingManifestV1
signed = record {
  claims = 7 ∷ [];
  signature = toy_sign key (signed_message branding (7 ∷ []));
  key_id = text "k";
}

abbrev tools : BrandingTools
tools = record {
  crypto = toy_crypto;
  codecs = record codecs { branding_claims = one_message the_branding (7 ∷ []) };
  signed_branding = one_message signed (4 ∷ []);
  png = λ n b. some (record {
    width = if ltb n 20000000 then 64 else 1280;
    height = if ltb n 20000000 then 64 else 640;
    animated = false;
    output_size = some 4096;
    frame = some true;
  });
}

abbrev root : AssetRoot
root = record {
  is_dir = true;
  file = λ p. some (record {
    inside = true;
    node = plain (if same p (text "i.png") then image_of icon else image_of hero);
  });
}

abbrev installed : InstalledBranding
installed = record { signed = signed; icon = 1 ∷ []; hero = some (2 ∷ []) }

branding_installed :
    verify_install tools (some (plain (4 ∷ []))) (some root) ring (text "r") (text "g") (pos 1001)
    ≡ ok installed
unfolding verify_install accept_manifest safe_relative asset_image install_hero verify_image
    verify_png dimensions_valid validate_binding read_regular verify_branding_manifest
    branding_malformed decode_canonical verify_envelope verify_signed_bytes resolve find inactive
    domain_bytes add_i64 identifier identifier_byte split starts_with
    certael_agent.Protocol.Fields.safe_relative_path safe_display ends_with to_ascii_lowercase lower
    plain_part is_separator is_control all any same len bytes utf8 is_ascii_alphanumeric
    is_ascii_alphabetic
branding_installed = refl

hero_there : (b : Bytes) → some (2 ∷ []) ≡ some b → is_empty b ≡ false
hero_there [] h = cc
hero_there (x ∷ b) h = refl

verify_stored-verify_install_example :
    (claims : BrandingManifestClaimsV1) × (verify_stored tools
        (4 ∷ [])
        (some (plain (1 ∷ [])))
        (some (plain (2 ∷ [])))
        ring
        (text "r")
        (text "g")
        (pos 1001)
      ≡ ok (record { claims = claims; has_hero = true }))
verify_stored-verify_install_example =
    verify_stored-verify_install tools (some (plain (4 ∷ []))) (some root) ring (text "r")
      (text "g") (pos 1001) installed branding_installed refl refl hero_there
