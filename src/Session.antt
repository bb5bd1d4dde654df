-- ===== src/Session.antt =====
-- crates/certael-agent-session/src/lib.rs: a session that answers challenges with chained reports.
pub mod Chain
mod Tests
use certael_agent.Prelude.{
  ℕ, suc, ◌+◌, ◌^◌, Bool, true, false, not, ◌&&◌, ◌||◌, List, [], ◌∷◌, length, is_empty, ltb, leb,
  ◌==◌, same, replicate, ok, err, refuse_if, ok_or, ◌>>=◌, ◌>>◌, if◌then◌else◌, Option, none, some,
  Result, map_err,
}
use certael_agent.Prelude.Int.{ℤ, pos, leb_ℤ, ltb_ℤ, sub_i64}
use certael_agent.Text.{Text, Bytes, len}
use certael_agent.Protocol.Errors.{ProtocolError, protocol_version}
use certael_agent.Protocol.External.{Crypto, Codec}
use certael_agent.Protocol.Messages.{
  AgentPolicyClaimsV1, SignedAgentPolicyV1, AgentLaunchGrantClaimsV1, AgentReportChallengeV1,
  IntegrityObservationV1, AgentIntegrityReportV1,
}
use certael_agent.Protocol.Verify.{Codecs}
use certael_agent.Protocol.Report.{sign_report, report_digest}

pub data SessionError : Type 0 where
  key_binding policy_binding challenge sequence_exhausted : SessionError
  protocol : ProtocolError → SessionError

pub record AgentSession : Type 0 where
  pub signing_key : Bytes
  pub grant : AgentLaunchGrantClaimsV1
  pub policy : AgentPolicyClaimsV1
  pub agent_session_id : Text
  pub sequence : ℕ
  pub previous_digest : Bytes
  pub last_challenge_digest : Option Bytes

-- What one call of `create_report` is given.
pub record Request : Type 0 where
  pub asked : AgentReportChallengeV1
  pub now_unix : ℤ
  pub executable_sha256 : Bytes
  pub observations : List IntegrityObservationV1

-- `u64::checked_add(1)`
unfoldable pub checked_suc : ℕ → Option ℕ
checked_suc n = if ltb (suc n) (2 ^ 64) then some (suc n) else none

-- The first test of `create_report`.
unfoldable pub unacceptable : AgentSession → Request → Bool
unacceptable s r =
    not (same r.asked.agent_session_id s.agent_session_id)
    || ltb (length r.asked.nonce) 16
    || ltb 256 (length r.asked.nonce)
    || leb_ℤ r.asked.expires_at_unix r.now_unix
    || ltb_ℤ (pos 120) (sub_i64 r.asked.expires_at_unix r.now_unix)

-- `self.last_challenge_digest == Some(challenge_digest)`
unfoldable pub is_last : Option Bytes → Bytes → Bool
is_last none digest = false
is_last (some d) digest = same d digest

abbrev collect :
    Result SessionError AgentIntegrityReportV1 × AgentSession
    → (AgentSession → List AgentIntegrityReportV1 × AgentSession)
    → List AgentIntegrityReportV1 × AgentSession
collect (ok report, s') later = let (reports, last) = later s' in (report ∷ reports, last)
collect (err e, s') later = later s'

module _ (x : Crypto) (codecs : Codecs) where
  unfoldable pub activate :
      Bytes
      → AgentLaunchGrantClaimsV1
      → AgentPolicyClaimsV1
      → SignedAgentPolicyV1
      → Text
      → Result SessionError AgentSession
  activate signing_key grant policy signed_policy id =
      refuse_if (not (same grant.agent_public_key (x.verifying_key signing_key))) key_binding
      >> refuse_if
          (not (same grant.game_id policy.game_id)
            || not (same grant.environment_id policy.environment_id))
          policy_binding
      >> refuse_if
          (not (same grant.policy_digest (x.sha256 (codecs.signed_policy.encode signed_policy))))
          policy_binding
      >> refuse_if (is_empty id || ltb 128 (len id)) challenge
      >> ok (record {
        signing_key = signing_key;
        grant = grant;
        policy = policy;
        agent_session_id = id;
        sequence = 0;
        previous_digest = replicate 32 0;
        last_challenge_digest = none;
      })

  unfoldable pub challenge_digest : Request → Bytes
  challenge_digest r = x.sha256 (codecs.challenge.encode r.asked)

  -- The report before it is signed.
  unfoldable pub draft : AgentSession → Request → ℕ → AgentIntegrityReportV1
  draft s r sequence = record {
    protocol_version = protocol_version;
    agent_session_id = s.agent_session_id;
    sequence = sequence;
    challenge_nonce = r.asked.nonce;
    observed_at_unix = r.now_unix;
    build_id = s.grant.build_id;
    executable_sha256 = r.executable_sha256;
    observations = r.observations;
    previous_report_digest = s.previous_digest;
    signature = [];
  }

  -- The report that is returned, or the first error.
  unfoldable pub answer : AgentSession → Request → Result SessionError AgentIntegrityReportV1
  unfolding unacceptable is_last challenge_digest draft checked_suc
  answer s r =
      refuse_if (unacceptable s r) challenge
      >> refuse_if (is_last s.last_challenge_digest (challenge_digest r)) challenge
      >> (ok_or (checked_suc s.sequence) sequence_exhausted >>= λ sequence.
          map_err (sign_report x codecs.report (draft s r sequence) s.signing_key) protocol)

  -- The three assignments, reached only when the report is there.
  unfoldable pub create_report :
      AgentSession → Request → Result SessionError AgentIntegrityReportV1 × AgentSession
  unfolding answer
  create_report s r = elim (answer s r) [
    | ok report ↦ (
      ok report,
      record s {
        sequence = report.sequence;
        previous_digest = report_digest x codecs.report report;
        last_challenge_digest = some (challenge_digest r);
      },
    )
    | err e ↦ (err e, s)
  ]

  -- The reports of a list of calls, and the session behind them.
  unfoldable pub run : AgentSession → List Request → List AgentIntegrityReportV1 × AgentSession
  run s [] = ([], s)
  run s (r ∷ rs) = collect (create_report s r) (λ s'. run s' rs)
