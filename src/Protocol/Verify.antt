-- ===== src/Protocol/Verify.antt =====
-- `decode_canonical` and the `verify_*` functions of signed claims.
pub mod Authentic
use certael_agent.Prelude.{
  ℕ, Bool, true, false, not, List, length, is_empty, ltb, same, ok, err, refuse_if, ok_or, ◌>>=◌,
  ◌>>◌, Option, Result,
}
use certael_agent.Prelude.Int.{ℤ}
use certael_agent.Text.{Text, Bytes}
use certael_agent.Protocol.Errors.{
  ProtocolError, Checked, empty, too_large, decode, non_canonical, invalid_field, max_message_bytes,
}
use certael_agent.Protocol.External.{Crypto, Codec, Semver}
use certael_agent.Protocol.Messages.{
  AgentPolicyClaimsV1, SignedAgentPolicyV1, AgentLaunchGrantClaimsV1, SignedAgentLaunchGrantV1,
  AgentLaunchBundleV1, BuildManifestClaimsV1, SignedBuildManifestV1, AgentReportChallengeV1,
  AgentRevocationClaimsV1, SignedAgentRevocationV1, AgentIntegrityReportV1, AgentHelloV1,
  AgentHealthV1,
}
use certael_agent.Protocol.Registration.{
  GameRegistrationClaimsV1, SignedGameRegistrationV1, BrandingManifestClaimsV1,
  SignedBrandingManifestV1, CompatibilityManifestClaimsV1, SignedCompatibilityManifestV1,
}
use certael_agent.Protocol.Domains.{
  Domain, policy, launch, build_manifest, registration, branding, revocation, compatibility,
  verify_signed_bytes,
}
use certael_agent.Protocol.KeyRing.{VerificationKeyRing, resolve}
use certael_agent.Protocol.Validate.{
  validate_policy, validate_launch_grant, validate_build_manifest, challenge_malformed,
  revocation_malformed,
}
use certael_agent.Protocol.Register.{validate_game_registration, branding_malformed}
use certael_agent.Protocol.Compatibility.{validate_compatibility_manifest}

-- prost's implementation for each message that the Agent decodes or encodes.
pub record Codecs : Type 0 where
  pub bundle : Codec AgentLaunchBundleV1
  pub signed_policy : Codec SignedAgentPolicyV1
  pub signed_grant : Codec SignedAgentLaunchGrantV1
  pub signed_manifest : Codec SignedBuildManifestV1
  pub policy_claims : Codec AgentPolicyClaimsV1
  pub grant_claims : Codec AgentLaunchGrantClaimsV1
  pub manifest_claims : Codec BuildManifestClaimsV1
  pub registration_claims : Codec GameRegistrationClaimsV1
  pub branding_claims : Codec BrandingManifestClaimsV1
  pub revocation_claims : Codec AgentRevocationClaimsV1
  pub signed_revocation : Codec SignedAgentRevocationV1
  pub compatibility_claims : Codec CompatibilityManifestClaimsV1
  pub challenge : Codec AgentReportChallengeV1
  pub report : Codec AgentIntegrityReportV1
  pub hello : Codec AgentHelloV1
  pub health : Codec AgentHealthV1

unfoldable pub decode_canonical : {M : Type 0} → Codec M → Bytes → Checked M
decode_canonical c input =
    refuse_if (is_empty input) empty
    >> refuse_if (ltb max_message_bytes (length input)) too_large
    >> (ok_or (c.decode input) decode >>= λ value.
        refuse_if (not (same (c.encode value) input)) non_canonical >> ok value)

module _ (x : Crypto) (codecs : Codecs) where
  -- `verify_signed_bytes(domain, claims, signature, keys.resolve(key_id, now)?)?`
  unfoldable pub verify_envelope :
      Domain → VerificationKeyRing → ℤ → Bytes → Bytes → Text → Checked (Unit {0})
  verify_envelope domain keys now claims signature key_id =
      resolve keys key_id now >>= λ key. verify_signed_bytes x domain claims signature key

  unfoldable pub verify_policy :
      SignedAgentPolicyV1 → VerificationKeyRing → ℤ → Checked AgentPolicyClaimsV1
  unfolding verify_envelope
  verify_policy signed keys now = decode_canonical codecs.policy_claims signed.claims >>= λ claims.
      validate_policy claims now
      >> verify_envelope policy keys now signed.claims signed.signature signed.key_id
      >> ok claims

  unfoldable pub verify_launch_grant :
      SignedAgentLaunchGrantV1 → VerificationKeyRing → ℤ → Checked AgentLaunchGrantClaimsV1
  unfolding verify_envelope
  verify_launch_grant signed keys now =
      decode_canonical codecs.grant_claims signed.claims >>= λ claims.
      validate_launch_grant claims now
      >> verify_envelope launch keys now signed.claims signed.signature signed.key_id
      >> ok claims

  unfoldable pub verify_build_manifest :
      SignedBuildManifestV1 → VerificationKeyRing → ℤ → Checked BuildManifestClaimsV1
  unfolding verify_envelope
  verify_build_manifest signed keys now =
      decode_canonical codecs.manifest_claims signed.claims >>= λ claims.
      validate_build_manifest claims now
      >> verify_envelope build_manifest keys now signed.claims signed.signature signed.key_id
      >> ok claims

  unfoldable pub verify_game_registration :
      SignedGameRegistrationV1 → VerificationKeyRing → ℤ → Checked GameRegistrationClaimsV1
  unfolding verify_envelope
  verify_game_registration signed keys now =
      decode_canonical codecs.registration_claims signed.claims >>= λ claims.
      validate_game_registration claims now
      >> verify_envelope registration keys now signed.claims signed.signature signed.key_id
      >> ok claims

  unfoldable pub verify_branding_manifest :
      SignedBrandingManifestV1 → VerificationKeyRing → ℤ → Checked BrandingManifestClaimsV1
  unfolding verify_envelope
  verify_branding_manifest signed keys now =
      decode_canonical codecs.branding_claims signed.claims >>= λ claims.
      refuse_if (branding_malformed claims now) (invalid_field "branding_manifest")
      >> verify_envelope branding keys now signed.claims signed.signature signed.key_id
      >> ok claims

  unfoldable pub verify_revocation :
      SignedAgentRevocationV1 → VerificationKeyRing → ℤ → Checked AgentRevocationClaimsV1
  unfolding verify_envelope
  verify_revocation signed keys now =
      decode_canonical codecs.revocation_claims signed.claims >>= λ claims.
      refuse_if (revocation_malformed claims now) (invalid_field "revocation")
      >> verify_envelope revocation keys now signed.claims signed.signature signed.key_id
      >> ok claims

  unfoldable pub verify_compatibility_manifest :
      Semver
      → SignedCompatibilityManifestV1
      → VerificationKeyRing
      → ℤ
      → Checked CompatibilityManifestClaimsV1
  unfolding verify_envelope
  verify_compatibility_manifest v signed keys now =
      decode_canonical codecs.compatibility_claims signed.claims >>= λ claims.
      validate_compatibility_manifest v claims now
      >> verify_envelope compatibility keys now signed.claims signed.signature signed.key_id
      >> ok claims

  unfoldable pub decode_challenge : Bytes → ℤ → Checked AgentReportChallengeV1
  decode_challenge input now = decode_canonical codecs.challenge input >>= λ challenge.
      refuse_if (challenge_malformed challenge now) (invalid_field "challenge") >> ok challenge
