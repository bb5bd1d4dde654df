-- ===== src/Protocol/Registration.antt =====
-- The Protobuf messages of compatibility, registration and branding in
-- crates/certael-agent-protocol/src/lib.rs.
use certael_agent.Prelude.{ℕ, List, Bool, Option, String}
use certael_agent.Prelude.Int.{ℤ}
use certael_agent.Text.{Text, Bytes}

pub data CertaelProductV1 : Type 0 where
  unspecified core agent godot_adapter unity_adapter unreal_adapter dot_net_server_sdk :
      CertaelProductV1
  native_server_sdk : CertaelProductV1

pub record CompatibilityProductRuleV1 : Type 0 where
  pub product : ℤ
  pub minimum_supported_version : Text
  pub recommended_version : Text
  pub minimum_protocol_version : ℕ
  pub maximum_protocol_version : ℕ

pub record CompatibilityRevocationV1 : Type 0 where
  pub product : ℤ
  pub version : Text
  pub effective_at_unix : ℤ
  pub reason : Text

pub record CompatibilityManifestClaimsV1 : Type 0 where
  pub schema_version : ℕ
  pub revision : ℕ
  pub issued_at_unix : ℤ
  pub expires_at_unix : ℤ
  pub products : List CompatibilityProductRuleV1
  pub revocations : List CompatibilityRevocationV1

pub record SignedCompatibilityManifestV1 : Type 0 where
  pub claims : Bytes
  pub signature : Bytes
  pub key_id : Text

pub record RegisteredGameFileV1 : Type 0 where
  pub relative_path : Text
  pub size : ℕ
  pub sha256 : Bytes

pub record GameRegistrationClaimsV1 : Type 0 where
  pub protocol_version : ℕ
  pub registration_id : Text
  pub publisher_id : Text
  pub tenant_id : Text
  pub game_id : Text
  pub environment_id : Text
  pub executable_relative_path : Text
  pub trust_store_sha256 : Bytes
  pub update_root_sha256 : Bytes
  pub update_metadata_url : Text
  pub update_targets_url : Text
  pub update_channel : Text
  pub not_before_unix : ℤ
  pub expires_at_unix : ℤ
  pub registered_files : List RegisteredGameFileV1
  pub repair_executable_relative_path : Text
  pub repair_arguments : List Text
  pub offline_play_allowed : Bool
  pub offline_arguments : List Text

pub record SignedGameRegistrationV1 : Type 0 where
  pub claims : Bytes
  pub signature : Bytes
  pub key_id : Text

pub record BrandingManifestClaimsV1 : Type 0 where
  pub protocol_version : ℕ
  pub registration_id : Text
  pub game_id : Text
  pub display_name : Text
  pub publisher_name : Text
  pub icon_relative_path : Text
  pub icon_sha256 : Bytes
  pub not_before_unix : ℤ
  pub expires_at_unix : ℤ
  pub hero_relative_path : Text
  pub hero_sha256 : Bytes

pub record SignedBrandingManifestV1 : Type 0 where
  pub claims : Bytes
  pub signature : Bytes
  pub key_id : Text

pub data CompatibilityStateV1 : Type 0 where
  supported deprecated update_required revoked unknown indeterminate : CompatibilityStateV1

pub record CompatibilityDecisionV1 : Type 0 where
  pub state : CompatibilityStateV1
  pub public_reason : String
  pub recommended_version : Option Text
  pub manifest_revision : ℕ
