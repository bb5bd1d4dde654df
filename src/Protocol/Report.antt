-- ===== src/Protocol/Report.antt =====
-- Integrity reports: validation, signing, verification and the digest that chains them.
pub mod Signing
use certael_agent.Prelude.{
  ℕ, ◌+◌, Bool, true, false, not, ◌&&◌, ◌||◌, List, [], ◌++◌, length, is_empty, ltb, ◌==◌, ok, err,
  refuse_if, ok_or, ◌>>=◌, ◌>>◌, if◌then◌else◌, Option, Result,
}
use certael_agent.Text.{Text, Bytes, len}
use certael_agent.Protocol.Errors.{
  Checked, too_large, invalid_field, invalid_signature, protocol_version, max_message_bytes,
}
use certael_agent.Protocol.External.{Crypto, Codec}
use certael_agent.Protocol.Messages.{AgentIntegrityReportV1}
use certael_agent.Protocol.Domains.{Domain, report, domain_bytes}

unfoldable pub validate_report : AgentIntegrityReportV1 → Checked (Unit {0})
validate_report r =
    refuse_if (not (r.protocol_version == protocol_version)) (invalid_field "protocol_version")
    >> refuse_if (is_empty r.agent_session_id || ltb 128 (len r.agent_session_id))
        (invalid_field "agent_session_id")
    >> refuse_if (r.sequence == 0) (invalid_field "sequence")
    >> refuse_if (ltb (length r.challenge_nonce) 16 || ltb 256 (length r.challenge_nonce))
        (invalid_field "challenge_nonce")
    >> refuse_if (is_empty r.build_id || ltb 128 (len r.build_id)) (invalid_field "build_id")
    >> refuse_if (not (length r.executable_sha256 == 32)) (invalid_field "executable_sha256")
    >> refuse_if
        (not (is_empty r.previous_report_digest) && not (length r.previous_report_digest == 32))
        (invalid_field "previous_report_digest")
    >> refuse_if (ltb 1024 (length r.observations)) (invalid_field "observations")

-- signing_bytes(domain, message)
unfoldable pub signing_bytes : {M : Type 0} → Codec M → Domain → M → Checked Bytes
signing_bytes c domain message =
    let encoded = c.encode message in
    refuse_if (ltb max_message_bytes (length encoded)) too_large
    >> ok (domain_bytes domain ++ encoded)

-- `report.signature.clear()`
abbrev pub unsigned : AgentIntegrityReportV1 → AgentIntegrityReportV1
unsigned r = record r { signature = [] }

module _ (x : Crypto) (c : Codec AgentIntegrityReportV1) where
  unfoldable pub sign_report : AgentIntegrityReportV1 → Bytes → Checked AgentIntegrityReportV1
  sign_report r key =
      validate_report (unsigned r)
      >> (signing_bytes c report (unsigned r) >>= λ message.
          ok (record r { signature = x.sign key message }))

  unfoldable pub verify_report : AgentIntegrityReportV1 → Bytes → Checked (Unit {0})
  verify_report r key =
      validate_report r
      >> (ok_or (x.signature_from_slice r.signature) invalid_signature >>= λ s.
          signing_bytes c report (unsigned r) >>= λ message.
          refuse_if (not (x.verify key message s)) invalid_signature)

  unfoldable pub report_digest : AgentIntegrityReportV1 → Bytes
  report_digest r = x.sha256 (c.encode r)
