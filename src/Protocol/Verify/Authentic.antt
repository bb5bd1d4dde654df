-- ===== src/Protocol/Verify/Authentic.antt =====
-- What a verified claims object is worth.
use certael_agent.Prelude.{
  ◌>>=◌, ◌>>◌, true, [], ◌≡◌, ◌≢◌, ◌≤◌, length, ok, some, Memᴰ, arith, >>=-eq-ok, checks-eq-ok,
  eq_of_same,
}
use certael_agent.Prelude.Int.{ℤ}
use certael_agent.Protocol.Validate.{
  validate_policy, validate_launch_grant, validate_build_manifest,
}
use certael_agent.Text.{Text, Bytes}
use certael_agent.Protocol.Errors.{Checked, max_message_bytes}
use certael_agent.Protocol.External.{Crypto, Codec}
use certael_agent.Protocol.Domains.{
  build_manifest, launch, policy, Domain, signed_message, verify_signed_bytes,
  verify_signed_bytes-ok,
}
use certael_agent.Protocol.KeyRing.{VerificationKey, VerificationKeyRing, IsActive, resolve}
use certael_agent.Protocol.KeyRing.Lookup.{resolve-ok}
use certael_agent.Protocol.Verify.{
  BuildManifestClaimsV1, AgentLaunchGrantClaimsV1, AgentPolicyClaimsV1, SignedBuildManifestV1,
  SignedAgentLaunchGrantV1, SignedAgentPolicyV1, verify_build_manifest, verify_launch_grant,
  verify_policy, Codecs, decode_canonical, verify_envelope,
}

-- The claims were signed for the domain by a listed key that is active now.
pub record IsSigned (x : Crypto) (domain : Domain) (keys : VerificationKeyRing) (now : ℤ)
    (claims signature : Bytes) (key_id : Text) : Type 0 where
  pub key : VerificationKey
  pub listed : Memᴰ key keys.keys
  pub named : key.key_id ≡ key_id
  pub active : IsActive key now
  pub parsed : Bytes
  pub parsed_from : x.signature_from_slice signature ≡ some parsed
  pub verified : x.verify key.key (signed_message domain claims) parsed ≡ true

pub decode_canonical-ok :
    {M : Type 0} (c : Codec M) (input : Bytes) (m : M)
    → decode_canonical c input ≡ ok m
    → (c.encode m ≡ input)
      × (input ≢ [])
      × (length input ≤ max_message_bytes)
      × (c.decode input ≡ some m)
unfolding decode_canonical
decode_canonical-ok c input m h =
    (ground (arith, eq_of_same (c.encode m) input), λ e. ground arith, ground arith, ground arith)

module _ (x : Crypto) where
  pub verify_envelope-ok :
      (codecs : Codecs) (domain : Domain) (keys : VerificationKeyRing) (now : ℤ)
      (claims signature : Bytes) (key_id : Text)
      → verify_envelope x codecs domain keys now claims signature key_id ≡ ok tt
      → IsSigned x domain keys now claims signature key_id
  unfolding verify_envelope
  verify_envelope-ok codecs domain keys now claims signature key_id h =
      let (key, found, checked) =
        >>=-eq-ok (resolve keys key_id now) (λ k. verify_signed_bytes x domain claims signature k)
          h in
      let (k, listed, named, active, same_key) = resolve-ok keys key_id now key found in
      let (s, parsed, verified) = verify_signed_bytes-ok x domain claims signature key checked in
      record {
        key = k;
        listed = listed;
        named = named;
        active = active;
        parsed = s;
        parsed_from = parsed;
        verified = rw same_key verified;
      }

  -- Claims that were read canonically, passed their validator and are signed.
  pub record IsVerified {C : Type 0} (c : Codec C) (domain : Domain) (keys : VerificationKeyRing)
      (now : ℤ) (claims : C) (claims_bytes signature : Bytes) (key_id : Text)
      (verdict : Checked (Unit {0})) : Type 0 where
    pub canonical : c.encode claims ≡ claims_bytes
    pub bounded : length claims_bytes ≤ max_message_bytes
    pub validated : verdict ≡ ok tt
    pub signed : IsSigned x domain keys now claims_bytes signature key_id

  IsVerified-of :
      {C : Type 0} (c : Codec C) (codecs : Codecs) (domain : Domain) (keys : VerificationKeyRing)
      (now : ℤ) (validate : C → Checked (Unit {0})) (claims_bytes signature : Bytes) (key_id : Text)
      (claims : C)
      → (decode_canonical c claims_bytes >>= λ k.
          validate k
          >> verify_envelope x codecs domain keys now claims_bytes signature key_id
          >> ok k)
        ≡ ok claims
      → IsVerified c domain keys now claims claims_bytes signature key_id (validate claims)
  IsVerified-of c codecs domain keys now validate claims_bytes signature key_id claims h =
      let check = verify_envelope x codecs domain keys now claims_bytes signature key_id in
      let (k, read, rest) =
        >>=-eq-ok (decode_canonical c claims_bytes) (λ k. validate k >> check >> ok k) h in
      let (valid, envelope, same_claims) = checks-eq-ok (validate k) check k rest in
      let (encoded, _, bounded, _) = decode_canonical-ok c claims_bytes k read in
      record {
        canonical = rw (← same_claims) encoded;
        bounded = bounded;
        validated = rw (← same_claims) valid;
        signed = verify_envelope-ok codecs domain keys now claims_bytes signature key_id envelope;
      }

  module _ (codecs : Codecs) (keys : VerificationKeyRing) (now : ℤ) where
    pub verify_policy-IsVerified :
        (e : SignedAgentPolicyV1) (c : AgentPolicyClaimsV1)
        → verify_policy x codecs e keys now ≡ ok c
        → IsVerified codecs.policy_claims policy keys now c e.claims e.signature e.key_id
            (validate_policy c now)
    unfolding verify_policy
    verify_policy-IsVerified e c h =
        IsVerified-of codecs.policy_claims codecs policy keys now (λ k. validate_policy k now)
          e.claims e.signature e.key_id c h

    pub verify_launch_grant-IsVerified :
        (e : SignedAgentLaunchGrantV1) (c : AgentLaunchGrantClaimsV1)
        → verify_launch_grant x codecs e keys now ≡ ok c
        → IsVerified codecs.grant_claims launch keys now c e.claims e.signature e.key_id
            (validate_launch_grant c now)
    unfolding verify_launch_grant
    verify_launch_grant-IsVerified e c h =
        IsVerified-of codecs.grant_claims codecs launch keys now (λ k. validate_launch_grant k now)
          e.claims e.signature e.key_id c h

    pub verify_build_manifest-IsVerified :
        (e : SignedBuildManifestV1) (c : BuildManifestClaimsV1)
        → verify_build_manifest x codecs e keys now ≡ ok c
        → IsVerified codecs.manifest_claims build_manifest keys now c e.claims e.signature e.key_id
            (validate_build_manifest c now)
    unfolding verify_build_manifest
    verify_build_manifest-IsVerified e c h =
        IsVerified-of codecs.manifest_claims codecs build_manifest keys now
          (λ k. validate_build_manifest k now) e.claims e.signature e.key_id c h
