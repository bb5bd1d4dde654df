-- ===== src/Protocol/Tests.antt =====
-- Runs of the protocol crate's functions, and its theorems at concrete inputs.
mod Validators
use certael_agent.Ipc.{health}
use certael_agent.Protocol.Errors.{decode, protocol_version}
use certael_agent.Protocol.Register.{
  recovery_malformed, validate_game_registration, register_files, registration_malformed,
  normal_path,
}
use certael_agent.Ipc.RoundTrip.{encode}
use certael_agent.Protocol.Register.Files.{
  IsRegistered, normal_paths, validate_game_registration-IsRegistered,
}
use certael_agent.Protocol.Validate.Lifetime.{validate_launch_grant_short}
use certael_agent.Protocol.Validate.Files.{
  validate_build_manifest-IsProtected, IsProtected, AllDistinct, lowered,
}
use certael_agent.Protocol.Launch.Binding.{IsAccepted, verify_launch_bundle-IsAccepted}
use certael_agent.Protocol.Compatibility.Evaluate.{
  evaluate_compatibility, allows_new_protected_session,
}
use certael_agent.Protocol.Compatibility.Admission.{evaluate_compatibility-decides, IsAdmitted}
use certael_agent.Protocol.Compatibility.{
  product_of, header_malformed, code_seen, check_rules, check_rule, bad_revocation,
  validate_compatibility_manifest, product_code,
}
use certael_agent.Protocol.Launch.{
  bound_launch, bind_launch, component, misbound, Expected, verify_launch_bundle,
}
use certael_agent.Protocol.KeyRing.Lookup.{resolve_iff}
use certael_agent.Protocol.Fields.Paths.{safe_relative_path-stays, resolve_path}
use certael_agent.Protocol.External.{Codec}
use certael_agent.Protocol.Report.Signing.{verify_report-sign_report}
use certael_agent.Protocol.Messages.{
  BoundAgentLaunch, SignedBuildManifestV1, SignedAgentPolicyV1, AgentIntegrityReportV1,
  SignedAgentLaunchGrantV1,
}
use certael_agent.Protocol.Registration.{
  GameRegistrationClaimsV1, revoked, CompatibilityManifestClaimsV1, CompatibilityDecisionV1, agent,
}
use certael_agent.Protocol.Verify.{
  verify_build_manifest, verify_launch_grant, Codecs, decode_canonical, verify_envelope,
  verify_policy,
}
use certael_agent.Protocol.KeyRing.{
  unusable, resolve, find, inactive, duplicate_id, IsActive, VerificationKeyRing, new,
  VerificationKey,
}
use certael_agent.Prelude.{
  ◌⊎◌, ◌^◌, ◌-◌, ◌<◌, ◌≤◌, length, arith, some, [], ◌≢◌, ◌↔◌, ◌++◌, ◌∷◌, ◌≡◌, false, Memᴰ, any, all,
  refl, ok, true, same, All, none,
}
use certael_agent.Protocol.Fields.{
  safe_argument, safe_arguments, sum_lengths, https_url, is_separator, version_byte, identifier,
  version_identifier, plain_part, identifier_byte, safe_relative_path,
}
use certael_agent.Protocol.Report.{
  unsigned, sign_report, signing_bytes, validate_report, verify_report,
}
use certael_agent.Text.Split.{split}
use certael_agent.Text.{
  is_control, replace, contains, to_ascii_lowercase, lower, Text, text, starts_with, Bytes, len,
  is_ascii_alphabetic, is_ascii_alphanumeric, bytes, utf8,
}
use certael_agent.Protocol.Domains.{
  verify_signed_bytes, domain_bytes, report, signed_message-injective, build_manifest,
  signed_message, policy, launch,
}
use certael_agent.Protocol.Validate.{
  set_contains, manifest_malformed, bad_file, grant_malformed, validate_launch_grant,
  validate_build_manifest, validate_policy, requirement_mode_of, policy_malformed,
}
use certael_agent.Prelude.Int.{◌≤ℤ◌, ◌<ℤ◌, ◌+ℤ◌, ◌-ℤ◌, IsI64, negsuc, add_i64, sub_i64, pos}
use certael_agent.Protocol.Samples.{
  accepted, expected, codecs, report_codec, ring, the_key, toy_crypto, toy_crypto_laws, one_message,
  small_semver, key, the_policy, the_grant, the_manifest, the_bundle, the_report, toy_sign,
  digest_of,
}

ring-new : new (the_key ∷ []) ≡ ok ring
unfolding new unusable duplicate_id any len
ring-new = refl

resolve_iff_example : (resolve ring (text "k") (pos 1) ≡ ok key) ↔ (
    (k : VerificationKey) × Memᴰ k (the_key ∷ [])
    × (k.key_id ≡ text "k")
    × IsActive k (pos 1)
    × (k.key ≡ key))
resolve_iff_example = resolve_iff (the_key ∷ []) ring (text "k") (pos 1) key ring-new

abbrev inner : Text
inner = text "bin/a"

inner_safe : safe_relative_path inner ≡ true
unfolding safe_relative_path plain_part is_separator split all same starts_with len bytes utf8
inner_safe = refl

safe_relative_path-stays_example :
    (resolve_path is_separator (text "r" ∷ []) inner ≡ (text "r" ∷ []) ++ split is_separator inner)
    × (split is_separator inner ≢ [])
    × All (λ p. any is_separator p ≡ false) (split is_separator inner)
    × All (λ p. plain_part p ≡ true) (split is_separator inner)
safe_relative_path-stays_example = safe_relative_path-stays (text "r" ∷ []) inner inner_safe

abbrev the_claims : Bytes
the_claims = 1 ∷ []

signed_message-injective_example : (policy ≡ policy) × (the_claims ≡ the_claims)
signed_message-injective_example = signed_message-injective policy policy the_claims the_claims refl

abbrev the_signature : Bytes
the_signature = toy_sign key (signed_message report (5 ∷ []))

abbrev signed_report : AgentIntegrityReportV1
signed_report = record the_report { signature = the_signature }

report_signed : sign_report toy_crypto report_codec the_report key ≡ ok signed_report
unfolding sign_report validate_report signing_bytes len bytes utf8
report_signed = refl

verify_report-sign_report_example :
    (verify_report toy_crypto report_codec signed_report key ≡ ok tt)
    × (unsigned signed_report ≡ unsigned the_report)
verify_report-sign_report_example =
    verify_report-sign_report toy_crypto report_codec toy_crypto_laws the_report signed_report key
      report_signed

launch_accepted :
    verify_launch_bundle toy_crypto codecs small_semver (8 ∷ []) ring (pos 1001) expected
    ≡ ok accepted
unfolding add_i64 sub_i64 verify_launch_bundle bind_launch bound_launch misbound component
    verify_policy verify_launch_grant verify_build_manifest decode_canonical validate_policy
    policy_malformed validate_launch_grant grant_malformed validate_build_manifest
    manifest_malformed bad_file set_contains to_ascii_lowercase lower safe_relative_path plain_part
    is_separator split starts_with verify_envelope verify_signed_bytes resolve find inactive
    domain_bytes identifier version_identifier identifier_byte version_byte requirement_mode_of all
    any same len bytes utf8 is_ascii_alphanumeric is_ascii_alphabetic
launch_accepted = refl

verify_launch_bundle-IsAccepted_example :
    IsAccepted toy_crypto codecs small_semver (8 ∷ []) ring (pos 1001) expected accepted
verify_launch_bundle-IsAccepted_example =
    verify_launch_bundle-IsAccepted toy_crypto codecs small_semver (8 ∷ []) ring (pos 1001) expected
      accepted launch_accepted

abbrev releases : CompatibilityManifestClaimsV1
releases = record {
  schema_version = 1;
  revision = 4;
  issued_at_unix = pos 1000;
  expires_at_unix = pos 2000;
  products =
      record {
        product = pos 2;
        minimum_supported_version = text "1";
        recommended_version = text "2";
        minimum_protocol_version = 1;
        maximum_protocol_version = 1;
      }
      ∷ [];
  revocations = [];
}

releases_valid : validate_compatibility_manifest small_semver releases (pos 1001) ≡ ok tt
unfolding add_i64 sub_i64 validate_compatibility_manifest header_malformed check_rules check_rule
    code_seen product_of product_code bad_revocation any same
releases_valid = refl

evaluate_compatibility-decides_example :
    (d : CompatibilityDecisionV1) × (evaluate_compatibility small_semver
        (some releases)
        agent
        (text "1")
        1
        (pos 1001)
      ≡ some d)
    × ((allows_new_protected_session d ≡ true)
        ↔ IsAdmitted small_semver releases agent (text "1") 1 (pos 1001))
evaluate_compatibility-decides_example =
    evaluate_compatibility-decides small_semver releases (pos 1001) releases_valid agent (text "1")
      1 (pos 1001)
