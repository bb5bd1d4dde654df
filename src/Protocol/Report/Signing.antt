-- ===== src/Protocol/Report/Signing.antt =====
-- What `sign_report` returns, `verify_report` accepts under the public half of the key.
use certael_agent.Prelude.{[], ◌≡◌, refl, ok, ◌>>=◌, >>=-eq-ok, sym, ◌∙◌}
use certael_agent.Text.{Bytes}
use certael_agent.Protocol.External.{Crypto, CryptoLaws, Codec}
use certael_agent.Protocol.Messages.{AgentIntegrityReportV1}
use certael_agent.Protocol.Domains.{report}
use certael_agent.Protocol.Report.{
  validate_report, signing_bytes, unsigned, sign_report, verify_report,
}

-- The validator does not look at the signature.
validate_report-unsigned :
    (r : AgentIntegrityReportV1) (s : Bytes)
    → validate_report (record r { signature = s }) ≡ validate_report r
unfolding validate_report
validate_report-unsigned r s = refl

module _ (x : Crypto) (c : Codec AgentIntegrityReportV1) where
  pub sign_report-ok :
      (r signed : AgentIntegrityReportV1) (key : Bytes)
      → sign_report x c r key ≡ ok signed
      → (validate_report r ≡ ok tt)
        × ((m : Bytes) × (signing_bytes c report (unsigned r) ≡ ok m)
            × (signed ≡ record r { signature = x.sign key m }))
  unfolding sign_report
  sign_report-ok r signed key h =
      let (u, valid, rest) =
        >>=-eq-ok (validate_report (unsigned r))
          (λ _.
            signing_bytes c report (unsigned r) >>= λ m. ok (record r { signature = x.sign key m }))
          h in
      let (m, bytes, result) =
        >>=-eq-ok (signing_bytes c report (unsigned r))
          (λ m. ok (record r { signature = x.sign key m })) rest in
      (sym (validate_report-unsigned r []) ∙ valid, (m, bytes, cc))

  -- A report that was signed verifies under the public half of the key that signed it, and differs
  -- from the report that was handed in by its signature alone.
  pub verify_report-sign_report :
      CryptoLaws x
      → (r signed : AgentIntegrityReportV1) (key : Bytes) → sign_report x c r key ≡ ok signed
      → (verify_report x c signed (x.verifying_key key) ≡ ok tt) × (unsigned signed ≡ unsigned r)
  unfolding verify_report
  verify_report-sign_report laws r signed key h =
      let (valid, (m, bytes, e)) = sign_report-ok r signed key h in
      rw e (
        rw (validate_report-unsigned r (x.sign key m) ∙ valid)
            (rw (laws.from_slice-sign key m) (rw bytes (rw (laws.verify-sign key m)))),
        refl,
      )
