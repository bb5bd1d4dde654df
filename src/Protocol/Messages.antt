-- ===== src/Protocol/Messages.antt =====
-- The Protobuf messages of an Agent session in crates/certael-agent-protocol/src/lib.rs. `u32` and
-- `u64` are numbers, `i32` and `i64` integers.
use certael_agent.Prelude.{ℕ, List}
use certael_agent.Prelude.Int.{ℤ}
use certael_agent.Text.{Text, Bytes}

pub data AgentRequirementModeV1 : Type 0 where
  disabled optional required : AgentRequirementModeV1

pub record AgentPolicyClaimsV1 : Type 0 where
  pub protocol_version : ℕ
  pub policy_id : Text
  pub game_id : Text
  pub environment_id : Text
  pub requirement_mode : ℤ
  pub heartbeat_seconds : ℕ
  pub report_seconds : ℕ
  pub disconnect_grace_seconds : ℕ
  pub minimum_agent_version : Text
  pub expires_at_unix : ℤ
  pub tenant_id : Text

pub record SignedAgentPolicyV1 : Type 0 where
  pub claims : Bytes
  pub signature : Bytes
  pub key_id : Text

pub record AgentLaunchGrantClaimsV1 : Type 0 where
  pub protocol_version : ℕ
  pub grant_id : Text
  pub tenant_id : Text
  pub game_id : Text
  pub environment_id : Text
  pub player_subject : Text
  pub match_id : Text
  pub build_id : Text
  pub agent_public_key : Bytes
  pub issued_at_unix : ℤ
  pub expires_at_unix : ℤ
  pub policy_digest : Bytes
  pub authoritative_server_id : Text
  pub build_manifest_digest : Bytes

pub record AgentHelloV1 : Type 0 where
  pub protocol_version : ℕ
  pub agent_version : Text
  pub agent_public_key : Bytes
  pub build_id : Text
  pub executable_sha256 : Bytes

pub record SignedAgentLaunchGrantV1 : Type 0 where
  pub claims : Bytes
  pub signature : Bytes
  pub key_id : Text

pub record AgentLaunchBundleV1 : Type 0 where
  pub signed_policy : Bytes
  pub signed_launch_grant : Bytes
  pub signed_build_manifest : Bytes

pub record ProtectedBuildFileV1 : Type 0 where
  pub path : Text
  pub size : ℕ
  pub sha256 : Bytes

pub record BuildManifestClaimsV1 : Type 0 where
  pub protocol_version : ℕ
  pub manifest_id : Text
  pub tenant_id : Text
  pub game_id : Text
  pub environment_id : Text
  pub build_id : Text
  pub files : List ProtectedBuildFileV1
  pub not_before_unix : ℤ
  pub expires_at_unix : ℤ
  pub core_sdk_version : Text
  pub engine_adapter : Text
  pub engine_adapter_version : Text
  pub core_c_abi_version : ℕ
  pub action_protocol_version : ℕ
  pub agent_protocol_version : ℕ
  pub agent_probe_abi_version : ℕ

pub record SignedBuildManifestV1 : Type 0 where
  pub claims : Bytes
  pub signature : Bytes
  pub key_id : Text

pub record BoundAgentLaunch : Type 0 where
  pub session_id : Text
  pub tenant_id : Text
  pub game_id : Text
  pub environment_id : Text
  pub player_subject : Text
  pub match_id : Text
  pub build_id : Text
  pub authoritative_server_id : Text
  pub build_manifest : BuildManifestClaimsV1
  pub build_manifest_digest : Bytes
  pub heartbeat_seconds : ℕ
  pub report_seconds : ℕ
  pub disconnect_grace_seconds : ℕ
  pub policy_expires_at_unix : ℤ
  pub grant_expires_at_unix : ℤ

pub record AgentReportChallengeV1 : Type 0 where
  pub agent_session_id : Text
  pub nonce : Bytes
  pub expires_at_unix : ℤ

pub record IntegrityObservationV1 : Type 0 where
  pub code : Text
  pub value : Text

pub record AgentIntegrityReportV1 : Type 0 where
  pub protocol_version : ℕ
  pub agent_session_id : Text
  pub sequence : ℕ
  pub challenge_nonce : Bytes
  pub observed_at_unix : ℤ
  pub build_id : Text
  pub executable_sha256 : Bytes
  pub observations : List IntegrityObservationV1
  pub previous_report_digest : Bytes
  pub signature : Bytes

pub record AgentHealthV1 : Type 0 where
  pub agent_session_id : Text
  pub state : Text
  pub last_report_at_unix : ℤ
  pub public_reasons : List Text

pub record AgentRevocationClaimsV1 : Type 0 where
  pub protocol_version : ℕ
  pub tenant_id : Text
  pub game_id : Text
  pub environment_id : Text
  pub agent_session_id : Text
  pub reason : Text
  pub revoked_at_unix : ℤ
  pub expires_at_unix : ℤ

pub record SignedAgentRevocationV1 : Type 0 where
  pub claims : Bytes
  pub signature : Bytes
  pub key_id : Text
