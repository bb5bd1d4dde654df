-- ===== src/Protocol/Samples.antt =====
-- Concrete stand-ins for the external code, and sample messages.
use certael_agent.Protocol.Registration.{GameRegistrationClaimsV1}
use certael_agent.Protocol.Verify.{Codecs}
use certael_agent.Protocol.Domains.{launch, policy, build_manifest, signed_message}
use certael_agent.Protocol.Launch.{Expected}
use certael_agent.Protocol.KeyRing.{VerificationKey, VerificationKeyRing}
use certael_agent.Protocol.Messages.{
  SignedBuildManifestV1, BoundAgentLaunch, SignedAgentLaunchGrantV1, SignedAgentPolicyV1,
  AgentIntegrityReportV1, AgentLaunchBundleV1, AgentReportChallengeV1, BuildManifestClaimsV1,
  AgentLaunchGrantClaimsV1, AgentPolicyClaimsV1,
}
use certael_agent.Prelude.{
  false, ◌*◌, ℕ, ◌+◌, ◌%◌, refl, Option, none, some, [], ◌∷◌, ◌++◌, length, replicate,
  length-replicate, ltb, ◌==◌, same, same_refl, arith, if◌then◌else◌,
}
use certael_agent.Prelude.Int.{pos}
use certael_agent.Text.{Text, Bytes, text}
use certael_agent.Protocol.External.{Crypto, CryptoLaws, Codec, Semver, SemverLaws}

-- A checksum stands for the digest and for the signature.
abbrev pub checksum : Bytes → ℕ
checksum [] = 7
checksum (b ∷ bs) = (b + checksum bs) % 251

abbrev pub toy_sign : Bytes → Bytes → Bytes
toy_sign k m = replicate 64 (checksum (k ++ m))

abbrev pub toy_crypto : Crypto
toy_crypto = record {
  sha256 = λ m. replicate 32 (checksum m);
  verifying_key = λ k. k;
  sign = toy_sign;
  signature_from_slice = λ s. if length s == 64 then some s else none;
  verify = λ k m s. same s (toy_sign k m);
}

pub toy_crypto_laws : CryptoLaws toy_crypto
toy_crypto_laws = record {
  length-sha256 = λ m. length-replicate 32 (checksum m);
  length-sign = λ k m. length-replicate 64 (checksum (k ++ m));
  from_slice-sign = λ k m. refl;
  verify-sign = λ k m. same_refl (toy_sign k m);
}

-- A codec that knows one message and its bytes.
abbrev pub one_message : {M : Type 0} → M → Bytes → Codec M
one_message m b = record { decode = λ _. some m; encode = λ _. b }

-- Versions that are a single number of at most three digits.
abbrev pub small_version : Text → Option ℕ
small_version [] = none
small_version (a ∷ []) = some a
small_version (a ∷ b ∷ s) = some (256 * a + b + length s)

abbrev pub small_semver : Semver
small_semver = record { Version = ℕ; parse = small_version; lt = ltb }

pub small_semver_laws : SemverLaws small_semver
small_semver_laws = record {
  irreflexive = λ a. ground arith;
  transitive = λ a b c h k. ground arith;
  total = λ a b h k. ground arith;
}

-- One signed launch: a policy, a grant and a manifest of the same game, signed by one key.
abbrev pub key : Bytes
key = replicate 32 9

abbrev pub digest_of : Bytes → Bytes
digest_of m = replicate 32 (checksum m)

abbrev pub the_policy : AgentPolicyClaimsV1
the_policy = record {
  protocol_version = 1;
  policy_id = text "p";
  game_id = text "g";
  environment_id = text "e";
  requirement_mode = pos 2;
  heartbeat_seconds = 5;
  report_seconds = 15;
  disconnect_grace_seconds = 10;
  minimum_agent_version = text "1";
  expires_at_unix = pos 2000;
  tenant_id = text "t";
}

abbrev pub the_grant : AgentLaunchGrantClaimsV1
the_grant = record {
  protocol_version = 1;
  grant_id = text "s";
  tenant_id = text "t";
  game_id = text "g";
  environment_id = text "e";
  player_subject = text "a";
  match_id = text "m";
  build_id = text "b";
  agent_public_key = key;
  issued_at_unix = pos 1000;
  expires_at_unix = pos 1100;
  policy_digest = digest_of (2 ∷ []);
  authoritative_server_id = text "v";
  build_manifest_digest = digest_of (6 ∷ []);
}

abbrev pub the_manifest : BuildManifestClaimsV1
the_manifest = record {
  protocol_version = 1;
  manifest_id = text "f";
  tenant_id = text "t";
  game_id = text "g";
  environment_id = text "e";
  build_id = text "b";
  files = record { path = text "bin/x"; size = 3; sha256 = digest_of [] } ∷ [];
  not_before_unix = pos 900;
  expires_at_unix = pos 3000;
  core_sdk_version = text "1";
  engine_adapter = text "n";
  engine_adapter_version = text "1";
  core_c_abi_version = 1;
  action_protocol_version = 1;
  agent_protocol_version = 1;
  agent_probe_abi_version = 1;
}

abbrev pub the_challenge : AgentReportChallengeV1
the_challenge = record {
  agent_session_id = text "s";
  nonce = replicate 16 4;
  expires_at_unix = pos 1060;
}

abbrev pub the_bundle : AgentLaunchBundleV1
the_bundle = record {
  signed_policy = 2 ∷ [];
  signed_launch_grant = 4 ∷ [];
  signed_build_manifest = 6 ∷ [];
}

abbrev pub the_report : AgentIntegrityReportV1
the_report = record {
  protocol_version = 1;
  agent_session_id = text "s";
  sequence = 1;
  challenge_nonce = replicate 16 4;
  observed_at_unix = pos 1001;
  build_id = text "b";
  executable_sha256 = digest_of [];
  observations = [];
  previous_report_digest = replicate 32 0;
  signature = [];
}

abbrev pub the_key : VerificationKey
the_key = record {
  key_id = text "k";
  key = key;
  not_before_unix = pos 0;
  not_after_unix = pos 5000;
  revoked = false;
}

abbrev pub ring : VerificationKeyRing
ring = record { keys = the_key ∷ [] }

abbrev pub report_codec : Codec AgentIntegrityReportV1
report_codec = one_message the_report (5 ∷ [])

abbrev pub policy_envelope : SignedAgentPolicyV1
policy_envelope = record {
  claims = 1 ∷ [];
  signature = toy_sign key (signed_message policy (1 ∷ []));
  key_id = text "k";
}

abbrev pub grant_envelope : SignedAgentLaunchGrantV1
grant_envelope = record {
  claims = 3 ∷ [];
  signature = toy_sign key (signed_message launch (3 ∷ []));
  key_id = text "k";
}

abbrev pub manifest_envelope : SignedBuildManifestV1
manifest_envelope = record {
  claims = 5 ∷ [];
  signature = toy_sign key (signed_message build_manifest (5 ∷ []));
  key_id = text "k";
}

abbrev pub silent : {M : Type 0} → Codec M
silent = record { decode = λ _. none; encode = λ _. [] }

abbrev pub codecs : Codecs
codecs = record {
  bundle = one_message the_bundle (8 ∷ []);
  signed_policy = one_message policy_envelope (2 ∷ []);
  signed_grant = one_message grant_envelope (4 ∷ []);
  signed_manifest = one_message manifest_envelope (6 ∷ []);
  policy_claims = one_message the_policy (1 ∷ []);
  grant_claims = one_message the_grant (3 ∷ []);
  manifest_claims = one_message the_manifest (5 ∷ []);
  registration_claims = silent;
  branding_claims = silent;
  revocation_claims = silent;
  signed_revocation = silent;
  compatibility_claims = silent;
  challenge = silent;
  report = report_codec;
  hello = silent;
  health = silent;
}

abbrev pub expected : Expected
expected = record { agent_public_key = key; build_id = text "b"; agent_version = text "1" }

abbrev pub accepted : BoundAgentLaunch
accepted = record {
  session_id = text "s";
  tenant_id = text "t";
  game_id = text "g";
  environment_id = text "e";
  player_subject = text "a";
  match_id = text "m";
  build_id = text "b";
  authoritative_server_id = text "v";
  build_manifest = the_manifest;
  build_manifest_digest = digest_of (6 ∷ []);
  heartbeat_seconds = 5;
  report_seconds = 15;
  disconnect_grace_seconds = 10;
  policy_expires_at_unix = pos 2000;
  grant_expires_at_unix = pos 1100;
}

-- A registration of two files, one of which repairs the game.
abbrev pub game : GameRegistrationClaimsV1
game = record {
  protocol_version = 1;
  registration_id = text "r";
  publisher_id = text "p";
  tenant_id = text "t";
  game_id = text "g";
  environment_id = text "e";
  executable_relative_path = text "x";
  trust_store_sha256 = digest_of [];
  update_root_sha256 = digest_of [];
  update_metadata_url = text "https://a.b";
  update_targets_url = text "https://a.b";
  update_channel = text "beta";
  not_before_unix = pos 900;
  expires_at_unix = pos 3000;
  registered_files =
      record { relative_path = text "x"; size = 1; sha256 = digest_of [] }
      ∷ record { relative_path = text "bin/fix"; size = 1; sha256 = digest_of [] }
      ∷ [];
  repair_executable_relative_path = text "BIN/Fix";
  repair_arguments = [];
  offline_play_allowed = false;
  offline_arguments = [];
}
