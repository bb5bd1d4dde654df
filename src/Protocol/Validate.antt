-- ===== src/Protocol/Validate.antt =====
-- The claims validators of an Agent session: policy, launch grant, build manifest, challenge and
-- revocation. `now_unix + 30` and the differences are `i64` arithmetic.
pub mod Files
pub mod Lifetime
use certael_agent.Prelude.{
  Bool, true, false, not, ◌&&◌, ◌||◌, List, [], ◌∷◌, length, is_empty, any, ltb, leb, ◌==◌, same,
  if◌then◌else◌, refuse_if, ◌>>◌, Option, none, some,
}
use certael_agent.Prelude.Int.{ℤ, pos, negsuc, leb_ℤ, ltb_ℤ, add_i64, sub_i64}
use certael_agent.Text.{Text, to_ascii_lowercase}
use certael_agent.Protocol.Errors.{Checked, invalid_field, expired, protocol_version}
use certael_agent.Protocol.Messages.{
  AgentRequirementModeV1, disabled, optional, required, AgentPolicyClaimsV1,
  AgentLaunchGrantClaimsV1, ProtectedBuildFileV1, BuildManifestClaimsV1, AgentReportChallengeV1,
  AgentRevocationClaimsV1,
}
use certael_agent.Protocol.Fields.{identifier, version_identifier, safe_relative_path}

-- AgentRequirementModeV1::try_from
unfoldable pub requirement_mode_of : ℤ → Option AgentRequirementModeV1
requirement_mode_of (pos n) =
    if n == 0
    then some disabled
    else if n == 1
    then some optional
    else if n == 2
    then some required
    else none
requirement_mode_of (negsuc n) = none

abbrev is_none : {A : Type 0} → Option A → Bool
is_none none = true
is_none (some a) = false

unfoldable pub policy_malformed : AgentPolicyClaimsV1 → Bool
policy_malformed c =
    not (c.protocol_version == protocol_version)
    || not (identifier c.policy_id)
    || not (identifier c.tenant_id)
    || not (identifier c.game_id)
    || not (identifier c.environment_id)
    || is_none (requirement_mode_of c.requirement_mode)
    || not (leb 5 c.heartbeat_seconds && leb c.heartbeat_seconds 300)
    || not (leb 15 c.report_seconds && leb c.report_seconds 3600)
    || ltb c.report_seconds c.heartbeat_seconds
    || ltb 300 c.disconnect_grace_seconds
    || not (version_identifier c.minimum_agent_version)

unfoldable pub validate_policy : AgentPolicyClaimsV1 → ℤ → Checked (Unit {0})
unfolding policy_malformed
validate_policy c now =
    refuse_if (policy_malformed c) (invalid_field "policy")
    >> refuse_if (leb_ℤ c.expires_at_unix now) expired

unfoldable pub grant_malformed : AgentLaunchGrantClaimsV1 → ℤ → Bool
grant_malformed c now =
    not (c.protocol_version == protocol_version)
    || not (identifier c.grant_id)
    || not (identifier c.tenant_id)
    || not (identifier c.game_id)
    || not (identifier c.environment_id)
    || not (identifier c.player_subject)
    || not (identifier c.match_id)
    || not (identifier c.build_id)
    || not (identifier c.authoritative_server_id)
    || not (length c.agent_public_key == 32)
    || not (length c.policy_digest == 32)
    || not (length c.build_manifest_digest == 32)
    || ltb_ℤ (add_i64 now (pos 30)) c.issued_at_unix
    || leb_ℤ c.expires_at_unix c.issued_at_unix
    || ltb_ℤ (pos 120) (sub_i64 c.expires_at_unix c.issued_at_unix)

unfoldable pub validate_launch_grant : AgentLaunchGrantClaimsV1 → ℤ → Checked (Unit {0})
unfolding grant_malformed
validate_launch_grant c now =
    refuse_if (grant_malformed c now) (invalid_field "launch_grant")
    >> refuse_if (leb_ℤ c.expires_at_unix now) expired

unfoldable pub manifest_malformed : BuildManifestClaimsV1 → ℤ → Bool
manifest_malformed c now =
    not (c.protocol_version == protocol_version)
    || not (identifier c.manifest_id)
    || not (identifier c.tenant_id)
    || not (identifier c.game_id)
    || not (identifier c.environment_id)
    || not (identifier c.build_id)
    || is_empty c.files
    || ltb 16384 (length c.files)
    || ltb_ℤ (add_i64 now (pos 30)) c.not_before_unix
    || leb_ℤ c.expires_at_unix now
    || leb_ℤ c.expires_at_unix c.not_before_unix
    || not (version_identifier c.core_sdk_version)
    || not (identifier c.engine_adapter)
    || not (version_identifier c.engine_adapter_version)
    || not (c.core_c_abi_version == 1)
    || not (c.action_protocol_version == 1)
    || not (c.agent_protocol_version == protocol_version)
    || not (c.agent_probe_abi_version == 1)

-- `BTreeSet::insert`: the new set, and whether the value was absent. The set is the list of its
-- values; the code never iterates over it.
unfoldable pub set_contains : Text → List Text → Bool
set_contains v set = any (λ w. same w v) set

-- The `any` over the files, with the lower-cased paths that were inserted so far. The chain of `||`
-- inserts a path only if the tests before it pass.
unfoldable pub bad_file : List Text → List ProtectedBuildFileV1 → Bool
unfolding set_contains
bad_file paths [] = false
bad_file paths (f ∷ files) =
    not (safe_relative_path f.path)
    || not (length f.sha256 == 32)
    || set_contains (to_ascii_lowercase f.path) paths
    || bad_file (to_ascii_lowercase f.path ∷ paths) files

unfoldable pub validate_build_manifest : BuildManifestClaimsV1 → ℤ → Checked (Unit {0})
unfolding manifest_malformed
validate_build_manifest c now =
    refuse_if (manifest_malformed c now) (invalid_field "build_manifest")
    >> refuse_if (bad_file [] c.files) (invalid_field "build_manifest_file")

unfoldable pub challenge_malformed : AgentReportChallengeV1 → ℤ → Bool
challenge_malformed c now =
    not (identifier c.agent_session_id)
    || ltb (length c.nonce) 16
    || ltb 256 (length c.nonce)
    || leb_ℤ c.expires_at_unix now
    || ltb_ℤ (add_i64 now (pos 120)) c.expires_at_unix

unfoldable pub revocation_malformed : AgentRevocationClaimsV1 → ℤ → Bool
revocation_malformed c now =
    not (c.protocol_version == protocol_version)
    || not (identifier c.tenant_id)
    || not (identifier c.game_id)
    || not (identifier c.environment_id)
    || not (identifier c.agent_session_id)
    || not (identifier c.reason)
    || ltb_ℤ (add_i64 now (pos 30)) c.revoked_at_unix
    || leb_ℤ c.expires_at_unix now
    || ltb_ℤ (pos 300) (sub_i64 c.expires_at_unix c.revoked_at_unix)
