-- ===== src/Session/Chain.antt =====
-- The reports of a session form one chain.
use certael_agent.Prelude.{
  Bool-cases, same, eq_of_same, two_checks-eq-ok, ok_or-eq-ok, ◌⊎◌, ℕ, suc, ◌<◌, ◌^◌, true, false,
  List, [], ◌∷◌, ◌≡◌, arith, ok, err, some, Result, Result-cases, inl, inr, ◌>>=◌, map_err-eq-ok,
  map_err, ok_or, ap, sym, ◌∙◌, replicate, same_of_eq,
}
use certael_agent.Text.{Text, Bytes}
use certael_agent.Protocol.External.{Crypto, CryptoLaws}
use certael_agent.Protocol.Messages.{
  AgentIntegrityReportV1, AgentPolicyClaimsV1, AgentLaunchGrantClaimsV1, SignedAgentPolicyV1,
}
use certael_agent.Protocol.Verify.{Codecs}
use certael_agent.Protocol.Report.{sign_report, verify_report, report_digest}
use certael_agent.Protocol.Report.Signing.{sign_report-ok, verify_report-sign_report}
use certael_agent.Session.{
  AgentSession, Request, SessionError, challenge, protocol, sequence_exhausted, checked_suc,
  is_last, unacceptable, activate, challenge_digest, draft, answer, create_report, run,
}

pub checked_suc-ok : (m n : ℕ) → checked_suc m ≡ some n → (n ≡ suc m) × (suc m < 2 ^ 64)
unfolding checked_suc
checked_suc-ok m n h = ground arith

module _ (x : Crypto) (codecs : Codecs) where
  -- What one successful call returns: the next number of the sequence, the digest of the report
  -- before, a report that verifies.
  pub record Extends (s : AgentSession) (r : Request) (report : AgentIntegrityReportV1)
      : Type 0 where
    pub next : report.sequence ≡ suc s.sequence
    pub in_u64 : suc s.sequence < 2 ^ 64
    pub linked : report.previous_report_digest ≡ s.previous_digest
    pub own_session : report.agent_session_id ≡ s.agent_session_id
    pub own_build : report.build_id ≡ s.grant.build_id
    pub answers : report.challenge_nonce ≡ r.asked.nonce
    pub verifies : verify_report x codecs.report report (x.verifying_key s.signing_key) ≡ ok tt
    pub acceptable : unacceptable s r ≡ false
    pub not_repeated : is_last s.last_challenge_digest (challenge_digest x codecs r) ≡ false

  answer-Extends :
      CryptoLaws x
      → (s : AgentSession) (r : Request) (report : AgentIntegrityReportV1)
      → answer x codecs s r ≡ ok report
      → Extends s r report
  unfolding answer
  answer-Extends laws s r report h =
      let repeated = is_last s.last_challenge_digest (challenge_digest x codecs r) in
      let (fine, fresh, rest) =
        two_checks-eq-ok (unacceptable s r) repeated challenge challenge
          (ok_or (checked_suc s.sequence) sequence_exhausted >>= λ n.
            map_err (sign_report x codecs.report (draft x codecs s r n) s.signing_key) protocol)
          h in
      let (n, counted, mapped) =
        ok_or-eq-ok (checked_suc s.sequence) sequence_exhausted
          (λ n. map_err (sign_report x codecs.report (draft x codecs s r n) s.signing_key) protocol)
          rest in
      let signed =
        map_err-eq-ok (sign_report x codecs.report (draft x codecs s r n) s.signing_key) protocol
          mapped in
      let (_, (m, _, e)) =
        sign_report-ok x codecs.report (draft x codecs s r n) report s.signing_key signed in
      let (same_n, bound) = checked_suc-ok s.sequence n counted in
      record {
        next = ap (λ (q : AgentIntegrityReportV1). q.sequence) e ∙ same_n;
        in_u64 = bound;
        linked = ap (λ (q : AgentIntegrityReportV1). q.previous_report_digest) e;
        own_session = ap (λ (q : AgentIntegrityReportV1). q.agent_session_id) e;
        own_build = ap (λ (q : AgentIntegrityReportV1). q.build_id) e;
        answers = ap (λ (q : AgentIntegrityReportV1). q.challenge_nonce) e;
        verifies =
            (verify_report-sign_report x codecs.report laws (draft x codecs s r n) report
              s.signing_key signed).0;
        acceptable = fine;
        not_repeated = fresh;
      }

  -- One call either fails and leaves the session as it was, or returns a report that extends the
  -- chain, and the session then remembers that report and that challenge.
  pub create_report-Extends :
      CryptoLaws x
      → (s : AgentSession) (r : Request)
      → ((e : SessionError) × (create_report x codecs s r ≡ (err e, s)))
        ⊎ ((report : AgentIntegrityReportV1) × (create_report x codecs s r ≡ (
          ok report,
          record s {
            sequence = report.sequence;
            previous_digest = report_digest x codecs.report report;
            last_challenge_digest = some (challenge_digest x codecs r);
          },
        ))
            × Extends s r report)
  unfolding create_report
  create_report-Extends laws s r = elim (Result-cases (answer x codecs s r)) [
    | inl (report, e) ↦ inr (report, rw (e, create_report), answer-Extends laws s r report e)
    | inr (e, p) ↦ inl (e, rw (p, create_report))
  ]

  -- The reports number on from `n`, each holds the digest of the one before it, and each belongs to
  -- this session and verifies under the session's key.
  pub data IsChain (id : Text) (public_key : Bytes)
      : ℕ → Bytes → List AgentIntegrityReportV1 → Type 0 where
    done : {n : ℕ} {digest : Bytes} → IsChain id public_key n digest []
    link :
        {n : ℕ} {digest : Bytes} {report : AgentIntegrityReportV1}
        {reports : List AgentIntegrityReportV1}
        → report.sequence ≡ suc n
        → suc n < 2 ^ 64
        → report.previous_report_digest ≡ digest
        → report.agent_session_id ≡ id
        → verify_report x codecs.report report public_key ≡ ok tt
        → IsChain id public_key report.sequence (report_digest x codecs.report report) reports
        → IsChain id public_key n digest (report ∷ reports)

  run-IsChain_from :
      CryptoLaws x
      → (s : AgentSession) (rs : List Request)
      → IsChain s.agent_session_id
          (x.verifying_key s.signing_key)
          s.sequence
          s.previous_digest
          (run x codecs s rs).0
  unfolding run
  run-IsChain_from laws s [] = done
  run-IsChain_from laws s (r ∷ rs) = elim (create_report-Extends laws s r) [
    | inl (e, p) ↦ rw (p, run) (run-IsChain_from laws s rs)
    | inr (report, p, more) ↦
        let s' = record s {
          sequence = report.sequence;
          previous_digest = report_digest x codecs.report report;
          last_challenge_digest = some (challenge_digest x codecs r);
        } in
        rw (p, run)
          (link more.next more.in_u64 more.linked more.own_session more.verifies
            (run-IsChain_from laws s' rs))
  ]

  -- From activation on, whatever is asked of a session, in whatever order and with whatever failures
  -- between: the reports that it returns number on from 1, the first holds 32 zero bytes and every
  -- other the digest of the report before it, and all carry the session's id and verify under the
  -- Agent key that the grant names.
  pub run-IsChain :
      CryptoLaws x
      → (key : Bytes) (grant : AgentLaunchGrantClaimsV1) (policy : AgentPolicyClaimsV1)
        (signed : SignedAgentPolicyV1) (id : Text) (s : AgentSession) (rs : List Request)
      → activate x codecs key grant policy signed id ≡ ok s
      → IsChain id grant.agent_public_key 0 (replicate 32 0) (run x codecs s rs).0
  unfolding activate
  run-IsChain laws key grant policy signed id s rs h =
      elim (Bool-cases (same grant.agent_public_key (x.verifying_key key))) [
        | inl e ↦
            let started : (s.agent_session_id ≡ id)
                × (s.signing_key ≡ key)
                × (s.sequence ≡ 0)
                × (s.previous_digest ≡ replicate 32 0) =
              ground arith in
            rw (eq_of_same _ _ e, ← started.3, ← started.2, ← started.0, ← started.1)
              (run-IsChain_from laws s rs)
        | inr e ↦ absurd (ground arith)
      ]

  answer_repeated :
      (s : AgentSession) (r again : Request)
      → s.last_challenge_digest ≡ some (challenge_digest x codecs r)
      → again.asked ≡ r.asked
      → answer x codecs s again ≡ err challenge
  unfolding answer
  answer_repeated s r again h e = elim (Bool-cases (unacceptable s again)) [
    | inl bad ↦ rw (bad, answer)
    | inr good ↦
        let repeated : is_last s.last_challenge_digest (challenge_digest x codecs again) ≡ true =
          rw h (same_of_eq _ _ (ap (λ a. x.sha256 (codecs.challenge.encode a)) (sym e))) in
        rw (good, repeated, answer)
  ]

  -- A challenge that was answered is refused when it comes again at once, whatever else the call
  -- holds, and the session stays as it was.
  pub create_report_again :
      CryptoLaws x
      → (s s' : AgentSession) (r again : Request) (report : AgentIntegrityReportV1)
      → create_report x codecs s r ≡ (ok report, s')
      → again.asked ≡ r.asked
      → create_report x codecs s' again ≡ (err challenge, s')
  unfolding create_report
  create_report_again laws s s' r again report h e = elim (create_report-Extends laws s r) [
    | inl (_, p) ↦ cc
    | inr (_, p, _) ↦
        let remembered : s'.last_challenge_digest ≡ some (challenge_digest x codecs r) =
          ap
            (λ (q : Result SessionError AgentIntegrityReportV1 × AgentSession).
              q.1.last_challenge_digest)
            (sym h ∙ p) in
        rw (answer_repeated s' r again remembered e, create_report)
  ]
