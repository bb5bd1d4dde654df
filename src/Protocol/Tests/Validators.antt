-- ===== src/Protocol/Tests/Validators.antt =====
-- The validators' theorems at concrete inputs.
use certael_agent.Protocol.Validate.Lifetime.{validate_launch_grant_short}
use certael_agent.Protocol.Validate.{
  validate_launch_grant, manifest_malformed, bad_file, grant_malformed, validate_build_manifest,
  set_contains,
}
use certael_agent.Protocol.Register.Files.{
  normal_paths, IsRegistered, validate_game_registration-IsRegistered,
}
use certael_agent.Protocol.Validate.Files.{
  AllDistinct, IsProtected, lowered, validate_build_manifest-IsProtected,
}
use certael_agent.Protocol.Fields.{
  is_separator, sum_lengths, safe_argument, version_identifier, plain_part, https_url,
  identifier_byte, safe_arguments, version_byte, safe_relative_path, identifier,
}
use certael_agent.Text.{
  len, lower, is_ascii_alphabetic, contains, is_ascii_alphanumeric, to_ascii_lowercase, bytes,
  starts_with, is_control, utf8, replace,
}
use certael_agent.Prelude.{
  [], ◌^◌, ◌-◌, ◌⊎◌, ◌<◌, ◌≤◌, ◌≡◌, same, arith, Memᴰ, all, length, refl, any, ok, All, true,
}
use certael_agent.Text.Split.{split}
use certael_agent.Prelude.Int.{◌≤ℤ◌, ◌<ℤ◌, IsI64, add_i64, sub_i64, ◌-ℤ◌, pos, negsuc, ◌+ℤ◌}
use certael_agent.Protocol.Register.{
  normal_path, registration_malformed, validate_game_registration, recovery_malformed,
  register_files,
}
use certael_agent.Protocol.Samples.{game, the_manifest, the_grant}

manifest_valid : validate_build_manifest the_manifest (pos 1001) ≡ ok tt
unfolding add_i64 validate_build_manifest manifest_malformed bad_file set_contains
    to_ascii_lowercase lower safe_relative_path plain_part is_separator split starts_with identifier
    version_identifier identifier_byte version_byte all any same len bytes utf8
    is_ascii_alphanumeric is_ascii_alphabetic
manifest_valid = refl

validate_build_manifest-IsProtected_example :
    (0 < length the_manifest.files)
    × (length the_manifest.files ≤ 16384)
    × All IsProtected the_manifest.files
    × AllDistinct (lowered the_manifest.files)
validate_build_manifest-IsProtected_example =
    validate_build_manifest-IsProtected the_manifest (pos 1001) manifest_valid

grant_valid : validate_launch_grant the_grant (pos 1001) ≡ ok tt
unfolding add_i64 sub_i64 validate_launch_grant grant_malformed identifier identifier_byte all same
    len bytes utf8 is_ascii_alphanumeric is_ascii_alphabetic
grant_valid = refl

grant_lifetime : IsI64 (the_grant.expires_at_unix -ℤ the_grant.issued_at_unix)
unfolding ◌-ℤ◌
grant_lifetime = (omega arith, omega arith)

now_deadline : IsI64 (pos 1001 +ℤ pos 30)
unfolding ◌+ℤ◌
now_deadline = (omega arith, omega arith)

validate_launch_grant_short_example :
    (pos 1001 <ℤ the_grant.expires_at_unix)
    × (the_grant.issued_at_unix ≤ℤ (pos 1001 +ℤ pos 30))
    × (the_grant.issued_at_unix <ℤ the_grant.expires_at_unix)
    × ((the_grant.expires_at_unix -ℤ the_grant.issued_at_unix) ≤ℤ pos 120)
validate_launch_grant_short_example =
    validate_launch_grant_short the_grant (pos 1001) grant_lifetime now_deadline grant_valid

-- Outside that range the release build accepts a grant that is valid for 2 ^ 64 - 1 seconds.
grant_lifetime_wraps :
    validate_launch_grant
      (record the_grant {
        issued_at_unix = negsuc (2 ^ 63 - 1);
        expires_at_unix = pos (2 ^ 63 - 1);
      })
      (pos 1001)
    ≡ ok tt
unfolding add_i64 sub_i64 validate_launch_grant grant_malformed identifier identifier_byte all same
    len bytes utf8 is_ascii_alphanumeric is_ascii_alphabetic
grant_lifetime_wraps = refl

game_valid : validate_game_registration game (pos 1001) ≡ ok tt
unfolding add_i64 validate_game_registration registration_malformed register_files
    recovery_malformed normal_path replace set_contains to_ascii_lowercase lower safe_relative_path
    plain_part is_separator split starts_with contains https_url safe_arguments sum_lengths
    safe_argument identifier identifier_byte is_control all any same len bytes utf8
    is_ascii_alphanumeric is_ascii_alphabetic
game_valid = refl

validate_game_registration-IsRegistered_example :
    (length game.registered_files ≤ 4096)
    × All IsRegistered game.registered_files
    × AllDistinct (normal_paths game.registered_files)
    × ((game.repair_executable_relative_path ≡ [])
        ⊎ ((safe_relative_path game.repair_executable_relative_path ≡ true)
            × Memᴰ
                (normal_path game.repair_executable_relative_path)
                (normal_paths game.registered_files)))
validate_game_registration-IsRegistered_example =
    validate_game_registration-IsRegistered game (pos 1001) game_valid
