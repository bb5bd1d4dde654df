-- ===== src/Runtime/Reports.antt =====
-- The reports that `serve` sends form one chain.
use mathlib.Core.List.{append-nil}
use certael_agent.Runtime.Deadlines.{Loop}
use certael_agent.Runtime.Logged.{send_rule, publish_rule}
use certael_agent.Prelude.Int.{ℤ}
use certael_agent.Protocol.Messages.{AgentIntegrityReportV1, BoundAgentLaunch}
use certael_agent.Runtime.Admission.{Tools}
use certael_agent.Runtime.Rounds.{report_frame, end_session}
use certael_agent.Protocol.Report.{verify_report, report_digest}
use certael_agent.Ipc.{MessageType, Sink, Frame, integrity_report}
use certael_agent.Runtime.{
  ◌>>◌, RegistrationBinding, RuntimeState, Act, Outcome, statuses, Event, write_health, published,
  sent, publish_runtime, health_frame, failed, halt, Stop,
}
use certael_agent.Prelude.{
  [], ◌^◌, ◌⊎◌, ◌∙◌, ◌<◌, ◌++◌, ◌∷◌, ◌≡◌, some, ap, List, sym, ok, inl, suc, refl, none, inr,
  String, Option,
}

abbrev pub pick : MessageType → Frame → List Frame → List Frame
pick integrity_report f rest = f ∷ rest
pick _ f rest = rest

-- The frames that carry a report, among what was sent.
abbrev pub report_frames : List Event → List Frame
report_frames [] = []
report_frames (sent f ∷ es) = pick f.message_type f (report_frames es)
report_frames (published status ∷ es) = report_frames es

report_frames-statuses :
    (r : Option RegistrationBinding) (name : String) (reason : Option String) (es : List Event)
    → report_frames (statuses r name reason ++ es) ≡ report_frames es
report_frames-statuses none name reason es = refl
report_frames-statuses (some r) name reason es = refl

pub report_frames-append :
    (xs ys : List Event) → report_frames (xs ++ ys) ≡ report_frames xs ++ report_frames ys
report_frames-append [] ys = refl
report_frames-append (published status ∷ xs) ys = report_frames-append xs ys
report_frames-append (sent f ∷ xs) ys =
    pick-append f.message_type f xs ys (report_frames-append xs ys)
  where
    pick-append :
        (m : MessageType) (f : Frame) (xs ys : List Event)
        → report_frames (xs ++ ys) ≡ report_frames xs ++ report_frames ys
        → pick m f (report_frames (xs ++ ys)) ≡ pick m f (report_frames xs) ++ report_frames ys
    pick-append integrity_report f xs ys h = ap (λ z. f ∷ z) h
    pick-append _ f xs ys h = h

module _ (t : Tools) (state : RuntimeState) (b : BoundAgentLaunch) where
  -- No report was sent, and the chain's end is where it was.
  pub record IsKept (l : Loop) (o : Outcome Loop) : Type 0 where
    pub no_report : report_frames o.events ≡ []
    pub same_end :
        (l' : Loop)
        → o.result ≡ ok l'
        → (l'.sequence ≡ l.sequence) × (l'.previous_digest ≡ l.previous_digest)

  -- One report was sent, and it is the chain's end now.
  pub record IsReported (l : Loop) (o : Outcome Loop) : Type 0 where
    pub report : AgentIntegrityReportV1
    pub one : report_frames o.events ≡ report_frame t state b report ∷ []
    pub next : report.sequence ≡ l.sequence
    pub in_u64 : suc l.sequence < 2 ^ 64
    pub linked : report.previous_report_digest ≡ l.previous_digest
    pub own_session : report.agent_session_id ≡ b.session_id
    pub verifies :
        verify_report t.crypto t.codecs.report report (t.crypto.verifying_key state.key) ≡ ok tt
    pub new_end :
        (l' : Loop)
        → o.result ≡ ok l'
        → (l'.sequence ≡ suc l.sequence)
          × (l'.previous_digest ≡ report_digest t.crypto t.codecs.report report)

  abbrev pub Extends : Loop → Outcome Loop → Type 0
  Extends l o = IsKept l o ⊎ IsReported l o

  pub stopped : (l : Loop) (stop : Stop) (s : Sink) → Extends l (halt stop s)
  stopped l stop s = inl (record { no_report = refl; same_end = λ l' h. cc })

  behind :
      (l : Loop) (o : Outcome Loop) (events : List Event)
      → report_frames events ≡ []
      → Extends l o
      → Extends l (record o { events = events ++ o.events })
  behind l o events h (inl k) = inl (record {
    no_report = report_frames-append events o.events ∙ rw (h, k.no_report);
    same_end = k.same_end;
  })
  behind l o events h (inr k) = inr (record {
    report = k.report;
    one = report_frames-append events o.events ∙ rw (h, k.one);
    next = k.next;
    in_u64 = k.in_u64;
    linked = k.linked;
    own_session = k.own_session;
    verifies = k.verifies;
    new_end = k.new_end;
  })

  pub no_report_in :
      (name : String) (reason : Option String) (events : List Event)
      → events ≡ statuses state.registration name reason
      → report_frames events ≡ []
  no_report_in name reason events h = rw h (
      ap report_frames (sym (append-nil (statuses state.registration name reason)))
      ∙ report_frames-statuses state.registration name reason [])

  -- A status, and then the rest.
  pub publish_Extends :
      (l : Loop) (name : String) (reason : Option String) (next : Act Loop) (s : Sink)
      → Extends l (next s)
      → Extends l ((publish_runtime state name reason >> next) s)
  publish_Extends l name reason next s h =
      publish_rule (Extends l) next state name reason s
        (λ events e. behind l (next s) events (no_report_in name reason events e) h)

  -- A health frame, and then the rest.
  pub health_Extends :
      (l : Loop) (name : String) (last : ℤ) (reasons : List String) (next : Act Loop) (s : Sink)
      → ((s' : Sink) → Extends l (next s'))
      → Extends l ((write_health t.codecs b.session_id name last reasons >> next) s)
  unfolding write_health
  health_Extends l name last reasons next s h =
      send_rule (Extends l) next "failed to send Agent health state"
        (health_frame t.codecs b.session_id name last reasons) s
        (λ s'. stopped l (failed "failed to send Agent health state") s')
        (λ s'.
          behind l (next s') (sent (health_frame t.codecs b.session_id name last reasons) ∷ []) refl
            (h s'))

  pub end_session-Extends :
      (l : Loop) (name reason message : String) (s : Sink)
      → Extends l (end_session t state b l name reason message s)
  unfolding end_session
  end_session-Extends l name reason message s =
      health_Extends l name l.last_report_at (reason ∷ [])
        (publish_runtime state name (some reason) >> halt (failed message)) s
        (λ s'.
          publish_Extends l name (some reason) (halt (failed message)) s'
            (stopped l (failed message) s'))
