-- ===== src/Runtime/Challenged.antt =====
-- What one round of the loop of `serve` adds to the chain of reports.
use certael_agent.Protocol.Verify.{decode_challenge}
use certael_agent.Text.{Bytes}
use certael_agent.Platform.{inspect_executable}
use certael_agent.Protocol.Report.Signing.{verify_report-sign_report, sign_report-ok}
use certael_agent.Protocol.External.{CryptoLaws}
use certael_agent.Ipc.{Frame, Sink}
use certael_agent.Runtime.Reports.{
  report_frames-append, Extends, stopped, report_frames, no_report_in,
}
use certael_agent.Session.{checked_suc}
use certael_agent.Runtime.Deadlines.{Round, Loop}
use certael_agent.Prelude.Int.{ℤ}
use certael_agent.Runtime.Rounds.{
  draft, on_challenge, seen_now, report_frame, behind_report, return_report,
}
use certael_agent.Runtime.Logged.{checked_rule, bail_rule, present_rule, send_rule, publish_rule}
use certael_agent.Protocol.Messages.{
  AgentReportChallengeV1, IntegrityObservationV1, AgentIntegrityReportV1, BoundAgentLaunch,
}
use certael_agent.Protocol.Report.{sign_report, verify_report}
use certael_agent.Runtime.Admission.{Tools}
use certael_agent.Prelude.{
  ap, ◌∙◌, same, String, not, sym, [], ◌++◌, ◌∷◌, ◌≡◌, none, inl, some, ℕ, ok, inr, refl, List,
}
use certael_agent.Runtime.{◌>>◌, failed, done, Event, publish_runtime, sent, RuntimeState, send}
use certael_agent.Session.Chain.{checked_suc-ok}

module _ (t : Tools) (state : RuntimeState) (b : BoundAgentLaunch) where
  pub unchanged :
      (l l' : Loop) (s : Sink)
      → l'.sequence ≡ l.sequence
      → l'.previous_digest ≡ l.previous_digest
      → Extends t state b l (done l' s)
  unchanged l l' s h k = inl (record {
    no_report = refl;
    same_end = λ l'' e.
        let same_loop : l' ≡ l'' = cc in
        (
          ap (λ (x : Loop). x.sequence) (sym same_loop) ∙ h,
          ap (λ (x : Loop). x.previous_digest) (sym same_loop) ∙ k,
        );
  })

  reported :
      (l : Loop) (now : ℤ) (n : ℕ) (r : AgentIntegrityReportV1) (events : List Event) (s : Sink)
      → checked_suc l.sequence ≡ some n
      → report_frames events ≡ []
      → r.sequence ≡ l.sequence
      → r.previous_report_digest ≡ l.previous_digest
      → r.agent_session_id ≡ b.session_id
      → verify_report t.crypto t.codecs.report r (t.crypto.verifying_key state.key) ≡ ok tt
      → Extends t state b l (record {
        result = ok (behind_report t state b l now n r);
        events = sent (report_frame t state b r) ∷ events ++ [];
        sink = s;
      })
  unfolding behind_report
  reported l now n r events s counted none_in e0 e1 e2 v = inr (record {
    report = r;
    one =
        ap (λ fs. report_frame t state b r ∷ fs) (report_frames-append events [] ∙ rw none_in refl);
    next = e0;
    in_u64 = (checked_suc-ok l.sequence n counted).1;
    linked = e1;
    own_session = e2;
    verifies = v;
    new_end = λ l' h.
        let same_loop : behind_report t state b l now n r ≡ l' = cc in
        (
          ap (λ (x : Loop). x.sequence) (sym same_loop) ∙ (checked_suc-ok l.sequence n counted).0,
          ap (λ (x : Loop). x.previous_digest) (sym same_loop),
        );
  })

  return_report-Extends :
      (l : Loop) (now : ℤ) (r : AgentIntegrityReportV1) (s : Sink)
      → r.sequence ≡ l.sequence
      → r.previous_report_digest ≡ l.previous_digest
      → r.agent_session_id ≡ b.session_id
      → verify_report t.crypto t.codecs.report r (t.crypto.verifying_key state.key) ≡ ok tt
      → Extends t state b l (return_report t state b l now r s)
  unfolding return_report
  return_report-Extends l now r s e0 e1 e2 v =
      let message : String = "failed to return signed Agent report" in
      present_rule (Extends t state b l)
        (λ next.
          send message (report_frame t state b r)
          >> publish_runtime state "protected" none
          >> done (behind_report t state b l now next r))
        s "Agent report sequence exhausted" (checked_suc l.sequence)
        (stopped t state b l (failed "Agent report sequence exhausted") s)
        (λ next counted.
          send_rule (Extends t state b l)
            (publish_runtime state "protected" none >> done (behind_report t state b l now next r))
            message (report_frame t state b r) s (λ s'. stopped t state b l (failed message) s')
            (λ s'.
              publish_rule
                (λ o.
                  Extends t state b l
                    (record o { events = sent (report_frame t state b r) ∷ o.events }))
                (done (behind_report t state b l now next r)) state "protected" none s'
                (λ events e.
                  reported l now next r events s' counted
                    (no_report_in t state b "protected" none events e) e0 e1 e2 v)))

  -- A draft that was signed.
  signed-Extends :
      CryptoLaws t.crypto
      → (l : Loop) (now : ℤ) (c : AgentReportChallengeV1) (digest : Bytes)
        (seen : List IntegrityObservationV1) (r : AgentIntegrityReportV1) (s : Sink)
      → sign_report t.crypto t.codecs.report (draft t state b l now c digest seen) state.key ≡ ok r
      → Extends t state b l (return_report t state b l now r s)
  unfolding draft
  signed-Extends laws l now c digest seen r s h =
      let unsigned = draft t state b l now c digest seen in
      let (_, (m, _, e)) = sign_report-ok t.crypto t.codecs.report unsigned r state.key h in
      return_report-Extends l now r s (ap (λ (q : AgentIntegrityReportV1). q.sequence) e)
        (ap (λ (q : AgentIntegrityReportV1). q.previous_report_digest) e)
        (ap (λ (q : AgentIntegrityReportV1). q.agent_session_id) e)
        (verify_report-sign_report t.crypto t.codecs.report laws unsigned r state.key h).0

  pub on_challenge-Extends :
      CryptoLaws t.crypto
      → (l : Loop) (r : Round) (f : Frame) (s : Sink)
      → Extends t state b l (on_challenge t state b l r f s)
  unfolding on_challenge
  on_challenge-Extends laws l r f s =
      present_rule (Extends t state b l) _ s _ r.later (stopped t state b l _ s) (λ now _.
        checked_rule (Extends t state b l) _ s _ (decode_challenge t.crypto t.codecs f.payload now)
          (stopped t state b l _ s)
          (λ c _.
            bail_rule (Extends t state b l) _ (not (same c.agent_session_id b.session_id)) _ s
              (stopped t state b l _ s)
              (λ _.
                checked_rule (Extends t state b l) _ s _
                  (inspect_executable t.crypto t.hex r.machine r.build_id r.executable)
                  (stopped t state b l _ s)
                  (λ snapshot _.
                    bail_rule (Extends t state b l) _
                      (not (same snapshot.executable_sha256 state.hello.build_id)) _ s
                      (stopped t state b l _ s)
                      (λ _.
                        present_rule (Extends t state b l) _ s _
                          (t.hex.decode snapshot.executable_sha256) (stopped t state b l _ s)
                          (λ digest _.
                            checked_rule (Extends t state b l) _ s _
                              (sign_report t.crypto t.codecs.report
                                (draft t state b l now c digest (seen_now t state b r snapshot))
                                state.key)
                              (stopped t state b l _ s)
                              (λ report signed.
                                signed-Extends laws l now c digest (seen_now t state b r snapshot)
                                  report s signed)))))))
