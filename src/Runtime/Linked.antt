-- ===== src/Runtime/Linked.antt =====
-- The reports that `serve` sends form one chain, from round to round.
use certael_agent.Protocol.Report.{report_digest}
use mathlib.Core.Path.{subst}
use certael_agent.Runtime.Challenged.{unchanged, on_challenge-Extends}
use certael_agent.Text.{Bytes}
use certael_agent.Protocol.Messages.{AgentIntegrityReportV1, BoundAgentLaunch}
use certael_agent.Session.Chain.{link, IsChain}
use certael_agent.Runtime.Deadlines.{start, heartbeat_after, Loop, Round}
use certael_agent.Protocol.Verify.{verify_revocation}
use certael_agent.Protocol.External.{CryptoLaws}
use certael_agent.Runtime.Logged.{send_rule, publish_rule, bail_rule, checked_rule, present_rule}
use certael_agent.Runtime.Reports.{
  no_report_in, report_frames-append, Extends, stopped, end_session-Extends, health_Extends,
  report_frames, publish_Extends,
}
use certael_agent.Runtime.Rounds.{
  protect, end_session, report_frame, other_session, rounds, on_incoming, on_timeout, round,
  on_frame, on_revocation,
}
use certael_agent.Prelude.{
  sym, ◌++◌, String, replicate, Option, ◌^◌, ◌∙◌, ◌<◌, arith, ok, Result, err, ap, inl, inr,
  if_rule, [], ◌&&◌, ◌∷◌, ◌≡◌, map, is_empty, List, some, same, ℕ, not, suc, refl, none,
}
use certael_agent.Runtime.{
  ◌>>=◌, write_health, health_frame, clock, Outcome, sent, ◌>>◌, halt, publish_runtime, Stop,
  follow, done, Event, Act, finished, RuntimeState,
}
use certael_agent.Runtime.Admission.{broken, disconnected, Tools, arrived, Incoming, timed_out}
use certael_agent.Prelude.Int.{pos, ℤ, ltb_ℤ, leb_ℤ}
use certael_agent.Ipc.{Sink, Frame, io, MessageType, revocation, challenge, shutdown}

module _ (t : Tools) (state : RuntimeState) (b : BoundAgentLaunch) where
  on_revocation-Extends :
      (l : Loop) (r : Round) (f : Frame) (s : Sink)
      → Extends t state b l (on_revocation t state b l r f s)
  unfolding on_revocation end_session
  on_revocation-Extends l r f s =
      present_rule (Extends t state b l) _ s _ (t.codecs.signed_revocation.decode f.payload)
        (stopped t state b l _ s)
        (λ signed _.
          bail_rule (Extends t state b l) _
            (not (same (t.codecs.signed_revocation.encode signed) f.payload)) _ s
            (stopped t state b l _ s)
            (λ _.
              present_rule (Extends t state b l) _ s _ r.later (stopped t state b l _ s) (λ now _.
                checked_rule (Extends t state b l) _ s _
                  (verify_revocation t.crypto t.codecs signed state.trust now)
                  (stopped t state b l _ s)
                  (λ c _.
                    bail_rule (Extends t state b l) _ (other_session t state b c) _ s
                      (stopped t state b l _ s)
                      (λ _.
                        end_session-Extends t state b l "revoked" "SESSION_REVOKED"
                          "Agent session was revoked" s)))))

  closed :
      (l : Loop) (reason : Option String) (s : Sink)
      → Extends t state b l ((publish_runtime state "stopped" reason >> halt finished) s)
  closed l reason s =
      publish_Extends t state b l "stopped" reason (halt finished) s
        (stopped t state b l finished s)

  on_frame-Extends :
      CryptoLaws t.crypto
      → (l : Loop) (r : Round) (f : Frame) (m : MessageType) (s : Sink)
      → Extends t state b l (on_frame t state b l r f m s)
  unfolding on_frame
  on_frame-Extends laws l r f challenge s = on_challenge-Extends t state b laws l r f s
  on_frame-Extends laws l r f revocation s = on_revocation-Extends l r f s
  on_frame-Extends laws l r f shutdown s =
      bail_rule (Extends t state b l) _ (not (is_empty f.payload)) _ s (stopped t state b l _ s)
        (λ _. closed l none s)
  on_frame-Extends laws l r f _ s = stopped t state b l _ s

  on_timeout-Extends :
      (l : Loop) (r : Round) (s : Sink) → Extends t state b l (on_timeout t state b l r s)
  unfolding on_timeout
  on_timeout-Extends l r s =
      present_rule (Extends t state b l) _ s _ r.later (stopped t state b l _ s) (λ now _.
        if_rule (λ (m : Act Loop). Extends t state b l (m s))
          (leb_ℤ l.next_heartbeat now && ltb_ℤ now l.report_deadline) _ (done l)
          (λ _.
            let renewed : Loop = record l { next_heartbeat = heartbeat_after b now } in
            health_Extends t state b l "protected" l.last_report_at []
              (publish_runtime state "protected" none >> done renewed) s
              (λ s'.
                publish_Extends t state b l "protected" none (done renewed) s'
                  (unchanged t state b l renewed s' refl refl)))
          (λ _. unchanged t state b l l s refl refl))

  on_incoming-Extends :
      CryptoLaws t.crypto
      → (l : Loop) (r : Round) (i : Incoming) (s : Sink)
      → Extends t state b l (on_incoming t state b l r i s)
  unfolding on_incoming
  on_incoming-Extends laws l r (arrived f) s = on_frame-Extends laws l r f f.message_type s
  on_incoming-Extends laws l r (broken io) s = closed l (some "GAME_CHANNEL_CLOSED") s
  on_incoming-Extends laws l r (broken _) s = stopped t state b l _ s
  on_incoming-Extends laws l r timed_out s = on_timeout-Extends l r s
  on_incoming-Extends laws l r disconnected s = closed l (some "GAME_CHANNEL_CLOSED") s

  round-Extends :
      CryptoLaws t.crypto
      → (l : Loop) (r : Round) (s : Sink) → Extends t state b l (round t state b l r s)
  unfolding round
  round-Extends laws l r s =
      present_rule (Extends t state b l) _ s _ r.now (stopped t state b l _ s) (λ now _.
        if_rule (λ (m : Act Loop). Extends t state b l (m s)) (leb_ℤ b.policy_expires_at_unix now) _
          _
          (λ _. end_session-Extends t state b l "expired" "POLICY_EXPIRED" "Agent policy expired" s)
          (λ _.
            if_rule (λ (m : Act Loop). Extends t state b l (m s)) (leb_ℤ l.report_deadline now) _ _
              (λ _.
                end_session-Extends t state b l "lost" "REPORT_DEADLINE_MISSED"
                  "Agent report deadline was missed" s)
              (λ _. on_incoming-Extends laws l r r.incoming s)))

  below : {m n : ℕ} → m ≡ suc n → suc m < 2 ^ 64 → suc n < 2 ^ 64
  below h k = omega arith

  -- The report frames of these events are the reports of one chain that goes on from `l`, the
  -- next report being number `n + 1`.
  abbrev pub IsLinked : ℕ → Bytes → List Event → Type 0
  IsLinked n digest events =
      (reports : List AgentIntegrityReportV1) × (report_frames events
        ≡ map (report_frame t state b) reports)
      × IsChain t.crypto t.codecs b.session_id (t.crypto.verifying_key state.key) n digest reports

  -- What an action adds to the chain, with what follows it.
  follow-IsLinked :
      (l : Loop) (n : ℕ) (result : Result Stop Loop) (events : List Event) (s : Sink)
      (next : Loop → Act Loop)
      → l.sequence ≡ suc n
      → Extends t state b l (record { result = result; events = events; sink = s })
      → ((l' : Loop) (m : ℕ)
          → l'.sequence ≡ suc m
          → IsLinked m l'.previous_digest (next l' s).events)
      → IsLinked n l.previous_digest (follow result events s next).events
  follow-IsLinked l n (err stop) events s next h (inl k) later = ([], k.no_report, IsChain.done)
  follow-IsLinked l n (err stop) events s next h (inr k) later = (
    k.report ∷ [],
    k.one,
    link (k.next ∙ h) (below h k.in_u64) k.linked k.own_session k.verifies IsChain.done,
  )
  follow-IsLinked l n (ok l') events s next h (inl k) later =
      let (number, digest) = k.same_end l' refl in
      let (reports, e, chain) = later l' n (number ∙ h) in
      (
        reports,
        report_frames-append events (next l' s).events ∙ rw (k.no_report, e),
        rw (← digest) chain,
      )
  follow-IsLinked l n (ok l') events s next h (inr k) later =
      let (number, digest) = k.new_end l' refl in
      let (reports, e, chain) = later l' (suc n) (number ∙ ap suc h) in
      (
        k.report ∷ reports,
        report_frames-append events (next l' s).events ∙ rw (k.one, e),
        link (k.next ∙ h) (below h k.in_u64) k.linked k.own_session k.verifies (
            subst
              (λ m.
                IsChain t.crypto t.codecs b.session_id (t.crypto.verifying_key state.key) m
                  (report_digest t.crypto t.codecs.report k.report) reports)
              (sym (k.next ∙ h))
              (subst
                (λ d.
                  IsChain t.crypto t.codecs b.session_id (t.crypto.verifying_key state.key) (suc n)
                    d reports)
                digest chain)),
      )

  rounds-IsLinked :
      CryptoLaws t.crypto
      → (l : Loop) (n : ℕ) (rs : List Round) (s : Sink) → l.sequence ≡ suc n
      → IsLinked n l.previous_digest (rounds t state b l rs s).events
  unfolding rounds
  rounds-IsLinked laws l n [] s h = ([], refl, IsChain.done)
  rounds-IsLinked laws l n (r ∷ rs) s h =
      let o = round t state b l r s in
      follow-IsLinked l n o.result o.events o.sink (λ l'. rounds t state b l' rs) h
        (round-Extends laws l r s) (λ l' m h'. rounds-IsLinked laws l' m rs o.sink h')

  -- A status or a frame that is no report leaves the chain as it is.
  pub behind_IsLinked :
      (n : ℕ) (digest : Bytes) (events later : List Event)
      → report_frames events ≡ []
      → IsLinked n digest later
      → IsLinked n digest (events ++ later)
  behind_IsLinked n digest events later h (reports, e, chain) =
      (reports, report_frames-append events later ∙ rw (h, e), chain)

  -- Whatever comes in after a launch was admitted, in whatever order and for however many rounds: the
  -- report frames that are sent carry reports that number on from 1, the first holds 32 zero bytes
  -- and every other the digest of the report before it, and all carry the session's id and verify
  -- under the Agent's key.
  pub protect-IsLinked :
      CryptoLaws t.crypto
      → (now now' : Option ℤ) (rs : List Round) (s : Sink)
      → IsLinked 0 (replicate 32 0) (protect t state b now now' rs s).events
  unfolding protect start write_health
  protect-IsLinked laws now now' rs s =
      let Chained = λ (o : Outcome Loop). IsLinked 0 (replicate 32 0) o.events in
      let ready = health_frame t.codecs b.session_id "ready" (pos 0) [] in
      send_rule Chained _ _ ready s (λ s'. ([], refl, IsChain.done))
        (λ s'.
          publish_rule (λ (o : Outcome Loop). IsLinked 0 (replicate 32 0) (sent ready ∷ o.events))
            (clock now >>= λ first.
              clock now' >>= λ second. rounds t state b (start b first second) rs)
            state "protected" none s'
            (λ events e.
              behind_IsLinked 0 (replicate 32 0) (sent ready ∷ events) _
                (no_report_in t state b "protected" none events e)
                (present_rule Chained _ s' _ now ([], refl, IsChain.done)
                  (λ first _.
                    present_rule Chained _ s' _ now' ([], refl, IsChain.done)
                      (λ second _. rounds-IsLinked laws (start b first second) 0 rs s' refl)))))
