-- ===== src/Protocol/Launch.antt =====
-- `verify_launch_bundle`: the admission decision of the Agent.
pub mod Binding
use certael_agent.Prelude.{
  ℕ, String, Bool, true, false, not, ◌||◌, List, same, ok, err, refuse_if, ok_or, map_err, ◌>>=◌,
  ◌>>◌, Option,
}
use certael_agent.Prelude.Int.{ℤ}
use certael_agent.Text.{Text, Bytes}
use certael_agent.Protocol.Errors.{ProtocolError, Checked, invalid_field, launch_bundle_component}
use certael_agent.Protocol.External.{Crypto, Semver}
use certael_agent.Protocol.Messages.{
  AgentPolicyClaimsV1, AgentLaunchGrantClaimsV1, AgentLaunchBundleV1, BuildManifestClaimsV1,
  BoundAgentLaunch,
}
use certael_agent.Protocol.KeyRing.{VerificationKeyRing}
use certael_agent.Protocol.Verify.{
  Codecs, decode_canonical, verify_policy, verify_launch_grant, verify_build_manifest,
}

-- `.map_err(|source| launch_component_error(component, source))`
unfoldable pub component : {A : Type 0} → String → Checked A → Checked A
component name r = map_err r (λ source. launch_bundle_component name source)

-- What the channel does not choose: the Agent's own key, the build that it measured, its version.
pub record Expected : Type 0 where
  pub agent_public_key : Bytes
  pub build_id : Text
  pub agent_version : Text

-- The disjunction of the comparisons between policy, grant, manifest and what is expected.
unfoldable pub misbound :
    Crypto
    → Expected
    → AgentLaunchBundleV1
    → AgentPolicyClaimsV1
    → AgentLaunchGrantClaimsV1
    → BuildManifestClaimsV1
    → Bool
misbound x e bundle policy grant manifest =
    not (same grant.agent_public_key e.agent_public_key)
    || not (same grant.build_id e.build_id)
    || not (same policy.tenant_id grant.tenant_id)
    || not (same policy.game_id grant.game_id)
    || not (same policy.environment_id grant.environment_id)
    || not (same grant.policy_digest (x.sha256 bundle.signed_policy))
    || not (same grant.build_manifest_digest (x.sha256 bundle.signed_build_manifest))
    || not (same manifest.tenant_id grant.tenant_id)
    || not (same manifest.game_id grant.game_id)
    || not (same manifest.environment_id grant.environment_id)
    || not (same manifest.build_id grant.build_id)

unfoldable pub bound_launch :
    Crypto
    → AgentLaunchBundleV1
    → AgentPolicyClaimsV1
    → AgentLaunchGrantClaimsV1
    → BuildManifestClaimsV1
    → BoundAgentLaunch
bound_launch x bundle policy grant manifest = record {
  session_id = grant.grant_id;
  tenant_id = grant.tenant_id;
  game_id = grant.game_id;
  environment_id = grant.environment_id;
  player_subject = grant.player_subject;
  match_id = grant.match_id;
  build_id = grant.build_id;
  authoritative_server_id = grant.authoritative_server_id;
  build_manifest = manifest;
  build_manifest_digest = x.sha256 bundle.signed_build_manifest;
  heartbeat_seconds = policy.heartbeat_seconds;
  report_seconds = policy.report_seconds;
  disconnect_grace_seconds = policy.disconnect_grace_seconds;
  policy_expires_at_unix = policy.expires_at_unix;
  grant_expires_at_unix = grant.expires_at_unix;
}

module _ (x : Crypto) (codecs : Codecs) (v : Semver) where
  -- From the versions on.
  unfoldable pub bind_launch :
      Expected
      → AgentLaunchBundleV1
      → AgentPolicyClaimsV1
      → AgentLaunchGrantClaimsV1
      → BuildManifestClaimsV1
      → Checked BoundAgentLaunch
  bind_launch e bundle policy grant manifest =
      ok_or (v.parse policy.minimum_agent_version) (invalid_field "minimum_agent_version")
      >>= λ minimum.
          ok_or (v.parse e.agent_version) (invalid_field "current_agent_version") >>= λ current.
          refuse_if (misbound x e bundle policy grant manifest) (invalid_field "launch_binding")
          >> refuse_if (v.lt current minimum) (invalid_field "agent_update_required")
          >> ok (bound_launch x bundle policy grant manifest)

  unfoldable pub verify_launch_bundle :
      Bytes → VerificationKeyRing → ℤ → Expected → Checked BoundAgentLaunch
  unfolding component bind_launch
  verify_launch_bundle input keys now e = do
    bundle ← decode_canonical codecs.bundle input
    policy_envelope ←
        component "signed_policy" (decode_canonical codecs.signed_policy bundle.signed_policy)
    grant_envelope ←
        component "signed_launch_grant"
          (decode_canonical codecs.signed_grant bundle.signed_launch_grant)
    manifest_envelope ←
        component "signed_build_manifest"
          (decode_canonical codecs.signed_manifest bundle.signed_build_manifest)
    policy ← component "policy_claims" (verify_policy x codecs policy_envelope keys now)
    grant ← component "launch_grant_claims" (verify_launch_grant x codecs grant_envelope keys now)
    manifest ←
        component "build_manifest_claims"
          (verify_build_manifest x codecs manifest_envelope keys now)
    bind_launch e bundle policy grant manifest
