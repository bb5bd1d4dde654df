-- ===== src/Protocol/Launch/Binding.antt =====
-- What an accepted launch bundle guarantees.
use certael_agent.Prelude.{
  ◌∙◌, String, false, ◌≡◌, ok, some, arith, >>=-eq-ok, map_err-eq-ok, eq_of_same, Option-cases, inl,
  inr,
}
use certael_agent.Prelude.Int.{ℤ}
use certael_agent.Text.{Bytes}
use certael_agent.Protocol.Errors.{Checked, launch_bundle_component}
use certael_agent.Protocol.External.{Crypto, Semver}
use certael_agent.Protocol.Messages.{
  AgentPolicyClaimsV1, AgentLaunchGrantClaimsV1, AgentLaunchBundleV1, BuildManifestClaimsV1,
  BoundAgentLaunch, SignedAgentPolicyV1, SignedAgentLaunchGrantV1, SignedBuildManifestV1,
}
use certael_agent.Protocol.Domains.{policy, launch, build_manifest}
use certael_agent.Protocol.KeyRing.{VerificationKeyRing}
use certael_agent.Protocol.Validate.{
  validate_policy, validate_launch_grant, validate_build_manifest,
}
use certael_agent.Protocol.Verify.{
  Codecs, decode_canonical, verify_policy, verify_launch_grant, verify_build_manifest,
}
use certael_agent.Protocol.Verify.Authentic.{
  IsVerified, decode_canonical-ok, verify_policy-IsVerified, verify_launch_grant-IsVerified,
  verify_build_manifest-IsVerified,
}
use certael_agent.Protocol.Launch.{
  Expected, component, misbound, bound_launch, bind_launch, verify_launch_bundle,
}

component-ok :
    {A : Type 0} (name : String) (r : Checked A) (a : A) → component name r ≡ ok a → r ≡ ok a
unfolding component
component-ok name r a h = map_err-eq-ok r (λ source. launch_bundle_component name source) h

-- Policy, grant and manifest belong together, to this Agent key and to this build.
pub record IsBound (x : Crypto) (e : Expected) (bundle : AgentLaunchBundleV1)
    (p : AgentPolicyClaimsV1) (g : AgentLaunchGrantClaimsV1) (m : BuildManifestClaimsV1)
    : Type 0 where
  pub agent_key : g.agent_public_key ≡ e.agent_public_key
  pub build : g.build_id ≡ e.build_id
  pub manifest_build : m.build_id ≡ e.build_id
  pub policy_tenant : p.tenant_id ≡ g.tenant_id
  pub policy_game : p.game_id ≡ g.game_id
  pub policy_environment : p.environment_id ≡ g.environment_id
  pub manifest_tenant : m.tenant_id ≡ g.tenant_id
  pub manifest_game : m.game_id ≡ g.game_id
  pub manifest_environment : m.environment_id ≡ g.environment_id
  pub policy_digest : g.policy_digest ≡ x.sha256 bundle.signed_policy
  pub manifest_digest : g.build_manifest_digest ≡ x.sha256 bundle.signed_build_manifest

misbound-IsBound :
    (x : Crypto) (e : Expected) (b : AgentLaunchBundleV1) (p : AgentPolicyClaimsV1)
    (g : AgentLaunchGrantClaimsV1) (m : BuildManifestClaimsV1)
    → misbound x e b p g m ≡ false
    → IsBound x e b p g m
unfolding misbound
misbound-IsBound x e b p g m h =
    let key = eq_of_same g.agent_public_key e.agent_public_key (ground arith) in
    let build = eq_of_same g.build_id e.build_id (ground arith) in
    record {
      agent_key = key;
      build = build;
      manifest_build = eq_of_same m.build_id g.build_id (ground arith) ∙ build;
      policy_tenant = eq_of_same p.tenant_id g.tenant_id (ground arith);
      policy_game = eq_of_same p.game_id g.game_id (ground arith);
      policy_environment = eq_of_same p.environment_id g.environment_id (ground arith);
      manifest_tenant = eq_of_same m.tenant_id g.tenant_id (ground arith);
      manifest_game = eq_of_same m.game_id g.game_id (ground arith);
      manifest_environment = eq_of_same m.environment_id g.environment_id (ground arith);
      policy_digest = eq_of_same g.policy_digest (x.sha256 b.signed_policy) (ground arith);
      manifest_digest =
          eq_of_same g.build_manifest_digest (x.sha256 b.signed_build_manifest) (ground arith);
    }

module _ (x : Crypto) (codecs : Codecs) (v : Semver) where
  -- The admission of `launch` by the bundle `input`.
  pub record IsAccepted (input : Bytes) (keys : VerificationKeyRing) (now : ℤ) (e : Expected)
      (accepted : BoundAgentLaunch) : Type 0 where
    pub bundle : AgentLaunchBundleV1
    pub policy_envelope : SignedAgentPolicyV1
    pub grant_envelope : SignedAgentLaunchGrantV1
    pub manifest_envelope : SignedBuildManifestV1
    pub p : AgentPolicyClaimsV1
    pub g : AgentLaunchGrantClaimsV1
    pub m : BuildManifestClaimsV1
    pub whole : codecs.bundle.encode bundle ≡ input
    pub policy_part : codecs.signed_policy.encode policy_envelope ≡ bundle.signed_policy
    pub grant_part : codecs.signed_grant.encode grant_envelope ≡ bundle.signed_launch_grant
    pub manifest_part :
        codecs.signed_manifest.encode manifest_envelope ≡ bundle.signed_build_manifest
    pub policy_verified :
        IsVerified x codecs.policy_claims policy keys now p policy_envelope.claims
          policy_envelope.signature policy_envelope.key_id
          (validate_policy p now)
    pub grant_verified :
        IsVerified x codecs.grant_claims launch keys now g grant_envelope.claims
          grant_envelope.signature grant_envelope.key_id
          (validate_launch_grant g now)
    pub manifest_verified :
        IsVerified x codecs.manifest_claims build_manifest keys now m manifest_envelope.claims
          manifest_envelope.signature manifest_envelope.key_id
          (validate_build_manifest m now)
    pub bindings : IsBound x e bundle p g m
    pub minimum : v.Version
    pub current : v.Version
    pub minimum_read : v.parse p.minimum_agent_version ≡ some minimum
    pub current_read : v.parse e.agent_version ≡ some current
    pub new_enough : v.lt current minimum ≡ false
    pub result : accepted ≡ bound_launch x bundle p g m

  bind_launch-ok :
      (e : Expected) (b : AgentLaunchBundleV1) (p : AgentPolicyClaimsV1)
      (g : AgentLaunchGrantClaimsV1) (m : BuildManifestClaimsV1) (accepted : BoundAgentLaunch)
      → bind_launch x codecs v e b p g m ≡ ok accepted
      → (minimum : v.Version) × (current : v.Version) × (v.parse p.minimum_agent_version
          ≡ some minimum)
        × (v.parse e.agent_version ≡ some current)
        × (misbound x e b p g m ≡ false)
        × (v.lt current minimum ≡ false)
        × (accepted ≡ bound_launch x b p g m)
  unfolding bind_launch
  bind_launch-ok e b p g m accepted h = elim (Option-cases (v.parse p.minimum_agent_version)) [
    | inl n ↦ absurd (ground arith)
    | inr (minimum, em) ↦ elim (Option-cases (v.parse e.agent_version)) [
      | inl n ↦ absurd (ground arith)
      | inr (current, ec) ↦ (minimum, current, em, ec, ground arith, ground arith, ground arith)
    ]
  ]

  -- A launch is admitted only from a canonical bundle of a policy, a grant and a manifest, each
  -- canonical, valid at this time and signed in its own domain by a listed key that is active at this
  -- time; the grant names the digests of the other two, this Agent's key and the measured build, all
  -- three agree on tenant, game and environment, the Agent is no older than the policy's minimum, and
  -- the admitted launch is made of their fields.
  pub verify_launch_bundle-IsAccepted :
      (input : Bytes) (keys : VerificationKeyRing) (now : ℤ) (e : Expected)
      (accepted : BoundAgentLaunch)
      → verify_launch_bundle x codecs v input keys now e ≡ ok accepted
      → IsAccepted input keys now e accepted
  unfolding verify_launch_bundle
  verify_launch_bundle-IsAccepted input keys now e accepted h =
      let (b, eb, h1) = >>=-eq-ok (decode_canonical codecs.bundle input) _ h in
      let (pe, epe, h2) =
        >>=-eq-ok
          (component "signed_policy" (decode_canonical codecs.signed_policy b.signed_policy)) _
          h1 in
      let (ge, ege, h3) =
        >>=-eq-ok
          (component "signed_launch_grant"
            (decode_canonical codecs.signed_grant b.signed_launch_grant))
          _ h2 in
      let (me, eme, h4) =
        >>=-eq-ok
          (component "signed_build_manifest"
            (decode_canonical codecs.signed_manifest b.signed_build_manifest))
          _ h3 in
      let (p, ep, h5) =
        >>=-eq-ok (component "policy_claims" (verify_policy x codecs pe keys now)) _ h4 in
      let (g, eg, h6) =
        >>=-eq-ok (component "launch_grant_claims" (verify_launch_grant x codecs ge keys now)) _
          h5 in
      let (m, em, h7) =
        >>=-eq-ok (component "build_manifest_claims" (verify_build_manifest x codecs me keys now)) _
          h6 in
      let (minimum, current, rm, rc, bound, newer, result) = bind_launch-ok e b p g m accepted h7 in
      record {
        bundle = b;
        policy_envelope = pe;
        grant_envelope = ge;
        manifest_envelope = me;
        p = p;
        g = g;
        m = m;
        whole = (decode_canonical-ok codecs.bundle input b eb).0;
        policy_part =
            (decode_canonical-ok codecs.signed_policy b.signed_policy pe
              (component-ok _ _ pe epe)).0;
        grant_part =
            (decode_canonical-ok codecs.signed_grant b.signed_launch_grant ge
              (component-ok _ _ ge ege)).0;
        manifest_part =
            (decode_canonical-ok codecs.signed_manifest b.signed_build_manifest me
              (component-ok _ _ me eme)).0;
        policy_verified = verify_policy-IsVerified x codecs keys now pe p (component-ok _ _ p ep);
        grant_verified =
            verify_launch_grant-IsVerified x codecs keys now ge g (component-ok _ _ g eg);
        manifest_verified =
            verify_build_manifest-IsVerified x codecs keys now me m (component-ok _ _ m em);
        bindings = misbound-IsBound x e b p g m bound;
        minimum = minimum;
        current = current;
        minimum_read = rm;
        current_read = rc;
        new_enough = newer;
        result = result;
      }
