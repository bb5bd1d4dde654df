-- ===== src/Runtime/Rounds.antt =====
-- The second half of `serve`: the loop that answers challenges and watches the deadlines.
use certael_agent.Runtime.Deadlines.{Loop, Round, heartbeat_after, deadline_after, start}
use certael_agent.Runtime.Observe.{observations}
use certael_agent.Protocol.Verify.{verify_revocation, decode_challenge}
use certael_agent.Prelude.Int.{leb_ℤ, ltb_ℤ, pos, ℤ}
use certael_agent.Protocol.Errors.{protocol_version}
use certael_agent.Protocol.Messages.{
  AgentRevocationClaimsV1, IntegrityObservationV1, AgentIntegrityReportV1, BoundAgentLaunch,
  AgentReportChallengeV1,
}
use certael_agent.Session.{checked_suc}
use certael_agent.Prelude.{
  ℕ, ℕ, ℕ, ℕ, [], if◌then◌else◌, ◌&&◌, ◌||◌, ◌∷◌, some, not, String, is_empty, ℕ, List, none,
  Option, same, Bool,
}
use certael_agent.Platform.{IntegritySnapshot, inspect_game_process_bound, inspect_executable}
use certael_agent.Runtime.{
  ◌>>◌, ◌>>=◌, publish_runtime, clock, send, failed, bail_if, finished, write_health, present,
  checked, Act, done, RuntimeState, halt,
}
use certael_agent.Text.{Bytes}
use certael_agent.Runtime.Admission.{
  broken, timed_out, disconnected, await_admission, arrived, Arrival, Tools, Incoming,
}
use certael_agent.Protocol.Report.{sign_report, report_digest}
use certael_agent.Ipc.{Frame, shutdown, integrity_report, revocation, MessageType, io, challenge}

module _ (t : Tools) (state : RuntimeState) (b : BoundAgentLaunch) where
  -- The report that a challenge asks for, before it is signed.
  unfoldable pub draft :
      Loop
      → ℤ
      → AgentReportChallengeV1
      → Bytes
      → List IntegrityObservationV1
      → AgentIntegrityReportV1
  draft l now c digest seen = record {
    protocol_version = protocol_version;
    agent_session_id = b.session_id;
    sequence = l.sequence;
    challenge_nonce = c.nonce;
    observed_at_unix = now;
    build_id = b.build_id;
    executable_sha256 = digest;
    observations = seen;
    previous_report_digest = l.previous_digest;
    signature = [];
  }

  abbrev pub report_frame : AgentIntegrityReportV1 → Frame
  report_frame r = record { message_type = integrity_report; payload = t.codecs.report.encode r }

  -- The variables behind a report.
  unfoldable pub behind_report : Loop → ℤ → ℕ → AgentIntegrityReportV1 → Loop
  unfolding deadline_after
  behind_report l now next r = record {
    sequence = next;
    previous_digest = report_digest t.crypto t.codecs.report r;
    last_report_at = now;
    next_heartbeat = l.next_heartbeat;
    report_deadline = deadline_after b now;
  }

  -- A signed report is counted and sent.
  unfoldable pub return_report : Loop → ℤ → AgentIntegrityReportV1 → Act Loop
  unfolding send publish_runtime behind_report
  return_report l now r =
      present "Agent report sequence exhausted" (checked_suc l.sequence) >>= λ next.
      send "failed to return signed Agent report" (report_frame r)
      >> publish_runtime state "protected" none
      >> done (behind_report l now next r)

  -- The observations for this round's evidence.
  unfoldable pub seen_now : Round → IntegritySnapshot → List IntegrityObservationV1
  unfolding observations
  seen_now r snapshot = observations r.machine.process_id state.game_process_id snapshot (
      inspect_game_process_bound state.game_process_id state.game_process_identity r.process
        r.identity)

  unfoldable pub on_challenge : Loop → Round → Frame → Act Loop
  unfolding return_report draft seen_now
  on_challenge l r f = clock r.later >>= λ now.
      checked "Agent report challenge was rejected"
        (decode_challenge t.crypto t.codecs f.payload now)
      >>= λ c.
          bail_if (not (same c.agent_session_id b.session_id))
            "Agent report challenge is bound to another session"
          >> (checked "failed to refresh protected executable evidence"
                (inspect_executable t.crypto t.hex r.machine r.build_id r.executable)
              >>= λ snapshot.
                  bail_if (not (same snapshot.executable_sha256 state.hello.build_id))
                    "protected executable changed after launch"
                  >> (present "executable digest is invalid"
                        (t.hex.decode snapshot.executable_sha256)
                      >>= λ digest.
                          checked "Agent report cannot be signed" (
                            sign_report t.crypto t.codecs.report
                              (draft l now c digest (seen_now r snapshot)) state.key)
                          >>= λ report. return_report l now report))

  abbrev pub other_session : AgentRevocationClaimsV1 → Bool
  other_session c =
      not (same c.agent_session_id b.session_id)
      || not (same c.tenant_id b.tenant_id)
      || not (same c.game_id b.game_id)
      || not (same c.environment_id b.environment_id)

  unfoldable pub on_revocation : Loop → Round → Frame → Act Loop
  unfolding publish_runtime write_health
  on_revocation l r f =
      present "Agent revocation is malformed" (t.codecs.signed_revocation.decode f.payload)
      >>= λ signed.
          bail_if (not (same (t.codecs.signed_revocation.encode signed) f.payload))
            "Agent revocation is not canonical"
          >> (clock r.later >>= λ now.
              checked "Agent revocation was rejected"
                (verify_revocation t.crypto t.codecs signed state.trust now)
              >>= λ c.
                  bail_if (other_session c) "Agent revocation is bound to another session"
                  >> write_health t.codecs b.session_id "revoked" l.last_report_at
                      ("SESSION_REVOKED" ∷ [])
                  >> publish_runtime state "revoked" (some "SESSION_REVOKED")
                  >> halt (failed "Agent session was revoked"))

  unfoldable pub on_frame : Loop → Round → Frame → MessageType → Act Loop
  unfolding on_challenge on_revocation publish_runtime
  on_frame l r f challenge = on_challenge l r f
  on_frame l r f revocation = on_revocation l r f
  on_frame l r f shutdown =
      bail_if (not (is_empty f.payload)) "Agent shutdown frame must be empty"
      >> publish_runtime state "stopped" none
      >> halt finished
  on_frame l r f _ = halt (failed "unexpected Agent channel message after admission")

  -- The wait is over and nothing came.
  unfoldable pub on_timeout : Loop → Round → Act Loop
  unfolding publish_runtime write_health heartbeat_after
  on_timeout l r = clock r.later >>= λ now.
      if leb_ℤ l.next_heartbeat now && ltb_ℤ now l.report_deadline
      then (write_health t.codecs b.session_id "protected" l.last_report_at []
          >> publish_runtime state "protected" none
          >> done (record l { next_heartbeat = heartbeat_after b now }))
      else done l

  unfoldable pub on_incoming : Loop → Round → Incoming → Act Loop
  unfolding on_frame on_timeout publish_runtime
  on_incoming l r (arrived f) = on_frame l r f f.message_type
  on_incoming l r (broken io) =
      publish_runtime state "stopped" (some "GAME_CHANNEL_CLOSED") >> halt finished
  on_incoming l r (broken _) = halt (failed "Agent channel frame was rejected")
  on_incoming l r timed_out = on_timeout l r
  on_incoming l r disconnected =
      publish_runtime state "stopped" (some "GAME_CHANNEL_CLOSED") >> halt finished

  -- The last health frame and status of a session that ran out of time.
  unfoldable pub end_session : Loop → String → String → String → Act Loop
  unfolding publish_runtime write_health
  end_session l runtime_state reason message =
      write_health t.codecs b.session_id runtime_state l.last_report_at (reason ∷ [])
      >> publish_runtime state runtime_state (some reason)
      >> halt (failed message)

  -- One round of the loop.
  unfoldable pub round : Loop → Round → Act Loop
  unfolding end_session on_incoming
  round l r = clock r.now >>= λ now.
      if leb_ℤ b.policy_expires_at_unix now
      then end_session l "expired" "POLICY_EXPIRED" "Agent policy expired"
      else if leb_ℤ l.report_deadline now
      then end_session l "lost" "REPORT_DEADLINE_MISSED" "Agent report deadline was missed"
      else on_incoming l r r.incoming

  -- The loop, for as many rounds as are given: it is still running behind the last of them.
  unfoldable pub rounds : Loop → List Round → Act Loop
  unfolding round
  rounds l [] = done l
  rounds l (r ∷ rs) = round l r >>= λ l'. rounds l' rs

-- The readiness of a launch and the loop behind it.
unfoldable pub protect :
    Tools → RuntimeState → BoundAgentLaunch → Option ℤ → Option ℤ → List Round → Act Loop
unfolding write_health publish_runtime start rounds
protect t state b now now' rs =
    write_health t.codecs b.session_id "ready" (pos 0) []
    >> publish_runtime state "protected" none
    >> (clock now >>= λ first. clock now' >>= λ second. rounds t state b (start b first second) rs)

unfoldable pub serve : Tools → RuntimeState → Arrival → Option ℤ → Option ℤ → List Round → Act Loop
unfolding await_admission protect
serve t state a now now' rs = await_admission t state a >>= λ b. protect t state b now now' rs
