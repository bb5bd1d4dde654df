-- ===== src/Protocol/Register.antt =====
-- The validators of game registrations and branding manifests.
pub mod Files
use certael_agent.Prelude.{
  Bool, true, false, not, ◌&&◌, ◌||◌, List, [], ◌∷◌, length, is_empty, ltb, ◌==◌, same,
  if◌then◌else◌, ok, err, refuse_if, ◌>>=◌, ◌>>◌,
}
use certael_agent.Prelude.Int.{ℤ, pos, leb_ℤ, ltb_ℤ, add_i64}
use certael_agent.Text.{Text, text, to_ascii_lowercase, ends_with, replace}
use certael_agent.Protocol.Errors.{Checked, invalid_field, protocol_version}
use certael_agent.Protocol.Registration.{
  RegisteredGameFileV1, GameRegistrationClaimsV1, BrandingManifestClaimsV1,
}
use certael_agent.Protocol.Fields.{
  identifier, safe_relative_path, safe_display, safe_arguments, https_url, slash, backslash,
}
use certael_agent.Protocol.Validate.{set_contains}

-- `path.replace('\\', "/").to_ascii_lowercase()`
unfoldable pub normal_path : Text → Text
unfolding replace to_ascii_lowercase
normal_path path = to_ascii_lowercase (replace backslash slash path)

unfoldable pub registration_malformed : GameRegistrationClaimsV1 → ℤ → Bool
registration_malformed c now =
    not (c.protocol_version == protocol_version)
    || not (identifier c.registration_id)
    || not (identifier c.publisher_id)
    || not (identifier c.tenant_id)
    || not (identifier c.game_id)
    || not (identifier c.environment_id)
    || not (safe_relative_path c.executable_relative_path)
    || not (length c.trust_store_sha256 == 32)
    || not (length c.update_root_sha256 == 32)
    || not (https_url c.update_metadata_url)
    || not (https_url c.update_targets_url)
    || not (same c.update_channel (text "stable") || same c.update_channel (text "beta"))
    || ltb_ℤ (add_i64 now (pos 30)) c.not_before_unix
    || leb_ℤ c.expires_at_unix now
    || leb_ℤ c.expires_at_unix c.not_before_unix

-- The loop over `registered_files`: the set of normal paths, or the early return.
unfoldable pub register_files : List Text → List RegisteredGameFileV1 → Checked (List Text)
unfolding set_contains normal_path
register_files paths [] = ok paths
register_files paths (f ∷ files) =
    let rest = register_files (normal_path f.relative_path ∷ paths) files in
    if not (safe_relative_path f.relative_path)
      || not (length f.sha256 == 32)
      || set_contains (normal_path f.relative_path) paths
    then err (invalid_field "registered_files")
    else rest

unfoldable pub recovery_malformed : GameRegistrationClaimsV1 → List Text → Bool
unfolding normal_path set_contains
recovery_malformed c paths =
    (not (is_empty c.repair_executable_relative_path)
      && (not (safe_relative_path c.repair_executable_relative_path)
          || not (set_contains (normal_path c.repair_executable_relative_path) paths)))
    || (is_empty c.repair_executable_relative_path && not (is_empty c.repair_arguments))
    || not (safe_arguments c.repair_arguments)
    || not (safe_arguments c.offline_arguments)
    || (not c.offline_play_allowed && not (is_empty c.offline_arguments))

unfoldable pub validate_game_registration : GameRegistrationClaimsV1 → ℤ → Checked (Unit {0})
unfolding registration_malformed register_files recovery_malformed
validate_game_registration c now =
    refuse_if (registration_malformed c now) (invalid_field "game_registration")
    >> refuse_if (ltb 4096 (length c.registered_files)) (invalid_field "registered_files")
    >> (register_files [] c.registered_files >>= λ paths.
        refuse_if (recovery_malformed c paths) (invalid_field "launch_recovery"))

abbrev png_path : Text → Bool
png_path path = ends_with (to_ascii_lowercase path) (text ".png")

-- `a != b` on Booleans
abbrev differ : Bool → Bool → Bool
differ true b = not b
differ false b = b

unfoldable pub branding_malformed : BrandingManifestClaimsV1 → ℤ → Bool
branding_malformed c now =
    not (c.protocol_version == protocol_version)
    || not (identifier c.registration_id)
    || not (identifier c.game_id)
    || not (safe_display c.display_name 96)
    || not (safe_display c.publisher_name 128)
    || not (safe_relative_path c.icon_relative_path)
    || not (png_path c.icon_relative_path)
    || not (length c.icon_sha256 == 32)
    || differ (is_empty c.hero_relative_path) (is_empty c.hero_sha256)
    || (not (is_empty c.hero_relative_path)
        && (not (safe_relative_path c.hero_relative_path)
            || not (png_path c.hero_relative_path)
            || not (length c.hero_sha256 == 32)))
    || ltb_ℤ (add_i64 now (pos 30)) c.not_before_unix
    || leb_ℤ c.expires_at_unix now
    || leb_ℤ c.expires_at_unix c.not_before_unix
