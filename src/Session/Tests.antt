-- ===== src/Session/Tests.antt =====
-- A session that answers two challenges, and its theorems at concrete inputs.
use certael_agent.Protocol.External.{Codec}
use certael_agent.Protocol.Verify.{Codecs}
use certael_agent.Session.Chain.{
  create_report_again, create_report-Extends, IsChain, Extends, run-IsChain,
}
use certael_agent.Protocol.Report.{sign_report, validate_report, report_digest, signing_bytes}
use certael_agent.Prelude.Int.{sub_i64, pos}
use certael_agent.Protocol.Domains.{report, signed_message}
use certael_agent.Protocol.Messages.{SignedAgentPolicyV1, AgentIntegrityReportV1}
use certael_agent.Session.{
  activate, unacceptable, SessionError, AgentSession, create_report, Request, answer,
  challenge_digest, is_last, run, draft, checked_suc, challenge,
}
use certael_agent.Text.{bytes, text, utf8, len}
use certael_agent.Prelude.{
  [], ◌⊎◌, ◌∷◌, ◌≡◌, err, Result, refl, ℕ, length, ok, same, none, some, replicate,
}
use certael_agent.Protocol.Samples.{
  toy_crypto, toy_crypto_laws, one_message, key, the_policy, the_grant, toy_sign, digest_of,
}

abbrev silent : {M : Type 0} → Codec M
silent = record { decode = λ _. none; encode = λ _. [] }

abbrev envelope : SignedAgentPolicyV1
envelope = record { claims = 1 ∷ []; signature = []; key_id = text "k" }

-- Challenges are encoded by their nonce, reports by their previous digest.
abbrev codecs : Codecs
codecs = record {
  bundle = silent;
  signed_policy = one_message envelope (2 ∷ []);
  signed_grant = silent;
  signed_manifest = silent;
  policy_claims = silent;
  grant_claims = silent;
  manifest_claims = silent;
  registration_claims = silent;
  branding_claims = silent;
  revocation_claims = silent;
  signed_revocation = silent;
  compatibility_claims = silent;
  challenge = record { decode = λ _. none; encode = λ c. c.nonce };
  report = record { decode = λ _. none; encode = λ r. r.previous_report_digest };
  hello = silent;
  health = silent;
}

abbrev fresh_session : AgentSession
fresh_session = record {
  signing_key = key;
  grant = the_grant;
  policy = the_policy;
  agent_session_id = text "s";
  sequence = 0;
  previous_digest = replicate 32 0;
  last_challenge_digest = none;
}

activated :
    activate toy_crypto codecs key the_grant the_policy envelope (text "s") ≡ ok fresh_session
unfolding activate same len bytes utf8
activated = refl

abbrev ask : ℕ → Request
ask n = record {
  asked = record {
    agent_session_id = text "s";
    nonce = replicate 16 n;
    expires_at_unix = pos 1060;
  };
  now_unix = pos 1001;
  executable_sha256 = digest_of [];
  observations = [];
}

run-IsChain_example :
    IsChain toy_crypto codecs
      (text "s")
      key
      0
      (replicate 32 0)
      (run toy_crypto codecs fresh_session (ask 1 ∷ ask 1 ∷ ask 2 ∷ [])).0
run-IsChain_example =
    run-IsChain toy_crypto codecs toy_crypto_laws key the_grant the_policy envelope (text "s")
      fresh_session (ask 1 ∷ ask 1 ∷ ask 2 ∷ []) activated

abbrev first : Result SessionError AgentIntegrityReportV1 × AgentSession
first = create_report toy_crypto codecs fresh_session (ask 1)

-- Two of the three calls are answered: the second repeats the challenge of the first.
two_reports : length (run toy_crypto codecs fresh_session (ask 1 ∷ ask 1 ∷ ask 2 ∷ [])).0 ≡ 2
unfolding run create_report answer unacceptable is_last challenge_digest draft checked_suc
    sign_report validate_report signing_bytes report_digest sub_i64 same len bytes utf8
two_reports = refl

abbrev first_report : AgentIntegrityReportV1
first_report = record (draft toy_crypto codecs fresh_session (ask 1) 1) {
  signature = toy_sign key (signed_message report (replicate 32 0));
}

abbrev second_session : AgentSession
second_session = record fresh_session {
  sequence = 1;
  previous_digest = digest_of (replicate 32 0);
  last_challenge_digest = some (digest_of (replicate 16 1));
}

first_answered :
    create_report toy_crypto codecs fresh_session (ask 1) ≡ (ok first_report, second_session)
unfolding create_report answer unacceptable is_last challenge_digest draft checked_suc sign_report
    validate_report signing_bytes report_digest sub_i64 same len bytes utf8
first_answered = refl

create_report_again_example :
    create_report toy_crypto codecs second_session (ask 1) ≡ (err challenge, second_session)
create_report_again_example =
    create_report_again toy_crypto codecs toy_crypto_laws fresh_session second_session (ask 1)
      (ask 1) first_report first_answered refl

create_report-Extends_example :
    ((e : SessionError) × (create_report toy_crypto codecs second_session (ask 2)
        ≡ (err e, second_session)))
    ⊎ ((report : AgentIntegrityReportV1) × (create_report toy_crypto codecs second_session (ask 2)
          ≡ (
            ok report,
            record second_session {
              sequence = report.sequence;
              previous_digest = report_digest toy_crypto codecs.report report;
              last_challenge_digest = some (challenge_digest toy_crypto codecs (ask 2));
            },
          ))
        × Extends toy_crypto codecs second_session (ask 2) report)
create_report-Extends_example =
    create_report-Extends toy_crypto codecs toy_crypto_laws second_session (ask 2)
