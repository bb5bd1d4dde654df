-- ===== src/Runtime/Unreported.antt =====
-- No report is sent before a launch was admitted.
use certael_agent.Protocol.Launch.{verify_launch_bundle}
use certael_agent.Platform.{verify_build_manifest, ManifestMismatch}
use certael_agent.Protocol.Messages.{BoundAgentLaunch}
use certael_agent.Text.{Text}
use certael_agent.Protocol.Errors.{Checked, ProtocolError}
use certael_agent.Ipc.{agent_hello, write_frame, IpcError, Sink, Frame}
use certael_agent.Prelude.Int.{pos, ℤ}
use certael_agent.Runtime.Reports.{pick, report_frames, report_frames-append}
use certael_agent.Runtime.Admission.{
  broken, Incoming, Arrival, is_launch_grant, admit, accept_launch, disconnected, misregistered,
  expected, accept_files, first_frame, protected_manifest, arrived, timed_out, await_admission,
  no_runtime, unbound, bad_targets_url, run_update, bad_metadata_url, installed, is_update_required,
  UpdateRun, not_installed, require_update, update_if_bound, Tools, refuse_launch, reject,
}
use certael_agent.Prelude.{
  if◌then◌else◌, not, if_rule, [], ◌∙◌, ◌∷◌, ◌≡◌, none, String, ok, Option, Result, refl, false,
  err, Bool, List, true, some,
}
use certael_agent.Runtime.{
  done, clock, ◌>>=◌, wrote, write_health, publish_runtime, follow, quietly, Act, send,
  AutomaticUpdateBinding, RuntimeState, Stop, halt, Outcome, health_frame, failed, Event,
  RegistrationBinding, present, statuses, bail_if,
}

pub record NoReport {B : Type 0} (o : Outcome B) : Type 0 where
  pub no_report : report_frames o.events ≡ []

follow-NoReport :
    {A B : Type 0} (result : Result Stop A) (events : List Event) (s : Sink) (next : A → Act B)
    → report_frames events ≡ []
    → ((a : A) (s' : Sink) → NoReport (next a s'))
    → NoReport (follow result events s next)
follow-NoReport (ok a) events s next h k = record {
  no_report = report_frames-append events (next a s).events ∙ rw (h, (k a s).no_report) refl;
}
follow-NoReport (err stop) events s next h k = record { no_report = h }

>>=-NoReport :
    {A B : Type 0} (m : Act A) (next : A → Act B) (s : Sink)
    → NoReport (m s)
    → ((a : A) (s' : Sink) → NoReport (next a s'))
    → NoReport ((m >>= next) s)
>>=-NoReport m next s h k = follow-NoReport (m s).result (m s).events (m s).sink next h.no_report k

send-NoReport :
    (message : String) (f : Frame) (s : Sink)
    → pick f.message_type f [] ≡ []
    → NoReport (send message f s)
unfolding send
send-NoReport message f s h = wrote-NoReport message f (write_frame f s) h
  where
    wrote-NoReport :
        (message : String) (f : Frame) (w : Result IpcError (Unit {0}) × Sink)
        → pick f.message_type f [] ≡ []
        → NoReport (wrote message f w)
    wrote-NoReport message f (ok u, s') h = record { no_report = h }
    wrote-NoReport message f (err e, s') h = record { no_report = refl }

quietly-NoReport : (m : Act (Unit {0})) (s : Sink) → NoReport (m s) → NoReport (quietly m s)
quietly-NoReport m s h = record { no_report = h.no_report }

publish-NoReport :
    (state : RuntimeState) (name : String) (reason : Option String) (s : Sink)
    → NoReport (publish_runtime state name reason s)
unfolding publish_runtime
publish-NoReport state name reason s = published-NoReport state.registration
  where
    published-NoReport :
        (r : Option RegistrationBinding)
        → NoReport (record { result = ok tt; events = statuses r name reason; sink = s })
    published-NoReport none = record { no_report = refl }
    published-NoReport (some r) = record { no_report = refl }

present-NoReport :
    {A : Type 0} (message : String) (o : Option A) (s : Sink) → NoReport (present message o s)
present-NoReport message (some a) s = record { no_report = refl }
present-NoReport message none s = record { no_report = refl }

bail_if-NoReport : (b : Bool) (message : String) (s : Sink) → NoReport (bail_if b message s)
bail_if-NoReport true message s = record { no_report = refl }
bail_if-NoReport false message s = record { no_report = refl }

module _ (t : Tools) (state : RuntimeState) where
  health-NoReport :
      (id : Text) (name : String) (last : ℤ) (reasons : List String) (s : Sink)
      → NoReport (write_health t.codecs id name last reasons s)
  unfolding write_health
  health-NoReport id name last reasons s =
      send-NoReport _ (health_frame t.codecs id name last reasons) s refl

  halt-NoReport : {A : Type 0} (stop : Stop) (s : Sink) → NoReport {B = A} (halt stop s)
  halt-NoReport stop s = record { no_report = refl }

  reject-NoReport :
      {A : Type 0} (id : Text) (reason message : String) (s : Sink)
      → NoReport {B = A} (reject t state id reason message s)
  unfolding reject
  reject-NoReport id reason message s =
      >>=-NoReport (publish_runtime state "launch_failed" (some reason)) _ s
        (publish-NoReport state _ _ s)
        (λ _ s1.
          let health = write_health t.codecs id "rejected" (pos 0) (reason ∷ []) in
          >>=-NoReport (quietly health) _ s1
            (quietly-NoReport health s1 (health-NoReport id "rejected" (pos 0) (reason ∷ []) s1))
            (λ _ s2. halt-NoReport (failed message) s2))

  run_update-NoReport : (run : UpdateRun) (s : Sink) → NoReport (run_update t state run s)
  unfolding run_update
  run_update-NoReport no_runtime s = halt-NoReport _ s
  run_update-NoReport bad_metadata_url s = halt-NoReport _ s
  run_update-NoReport bad_targets_url s = halt-NoReport _ s
  run_update-NoReport installed s = publish-NoReport state _ _ s
  run_update-NoReport not_installed s = publish-NoReport state _ _ s

  update_if_bound-NoReport :
      (run : UpdateRun) (o : Option AutomaticUpdateBinding) (s : Sink)
      → NoReport (update_if_bound t state run o s)
  update_if_bound-NoReport run none s = record { no_report = refl }
  update_if_bound-NoReport run (some binding) s =
      >>=-NoReport
        (publish_runtime state "installing_required_update" (some "AGENT_UPDATE_REQUIRED")) _ s
        (publish-NoReport state _ _ s) (λ _ s1. run_update-NoReport run s1)

  require_update-NoReport :
      {A : Type 0} (run : UpdateRun) (s : Sink) → NoReport {B = A} (require_update t state run s)
  unfolding require_update
  require_update-NoReport run s =
      let health =
        write_health t.codecs unbound "update_required" (pos 0) ("AGENT_UPDATE_REQUIRED" ∷ []) in
      >>=-NoReport (publish_runtime state "update_required" (some "AGENT_UPDATE_REQUIRED")) _ s
        (publish-NoReport state _ _ s)
        (λ _ s1.
          >>=-NoReport (quietly health) _ s1
            (quietly-NoReport health s1
              (health-NoReport unbound "update_required" (pos 0) ("AGENT_UPDATE_REQUIRED" ∷ []) s1))
            (λ _ s2.
              >>=-NoReport (update_if_bound t state run state.automatic_update) _ s2
                (update_if_bound-NoReport run state.automatic_update s2)
                (λ _ s3.
                  halt-NoReport (failed "Agent update is required before protected launch") s3)))

  refuse_launch-NoReport :
      {A : Type 0} (run : UpdateRun) (e : ProtocolError) (s : Sink)
      → NoReport {B = A} (refuse_launch t state run e s)
  unfolding refuse_launch
  refuse_launch-NoReport run e s =
      if_rule (λ (m : Act _). NoReport (m s)) (is_update_required e) _ _
        (λ _. require_update-NoReport run s)
        (λ _. reject-NoReport unbound "AGENT_LAUNCH_BUNDLE_REJECTED" _ s)

  first_frame-NoReport : (i : Incoming) (s : Sink) → NoReport (first_frame t state i s)
  unfolding first_frame
  first_frame-NoReport (arrived f) s = record { no_report = refl }
  first_frame-NoReport (broken e) s = reject-NoReport unbound "AGENT_ADMISSION_CHANNEL_FAILED" _ s
  first_frame-NoReport timed_out s = reject-NoReport unbound "AGENT_ADMISSION_TIMEOUT" _ s
  first_frame-NoReport disconnected s = reject-NoReport unbound "AGENT_ADMISSION_CHANNEL_CLOSED" _ s

  accept_launch-NoReport :
      (run : UpdateRun) (r : Checked BoundAgentLaunch) (s : Sink)
      → NoReport (accept_launch t state run r s)
  accept_launch-NoReport run (ok launch) s = record { no_report = refl }
  accept_launch-NoReport run (err e) s = refuse_launch-NoReport run e s

  accept_files-NoReport :
      (b : BoundAgentLaunch) (r : Result String (List ManifestMismatch)) (s : Sink)
      → NoReport (accept_files t state b r s)
  accept_files-NoReport b (err e) s =
      reject-NoReport b.session_id "AGENT_MANIFEST_VERIFICATION_FAILED" _ s
  accept_files-NoReport b (ok []) s = record { no_report = refl }
  accept_files-NoReport b (ok (m ∷ ms)) s = reject-NoReport b.session_id "AGENT_BUILD_MISMATCH" _ s

  admit-NoReport : (a : Arrival) (f : Frame) (s : Sink) → NoReport (admit t state a f s)
  unfolding admit
  admit-NoReport a f s =
      let refused =
        reject t state unbound "AGENT_ADMISSION_TYPE_INVALID"
          "protected game did not provide a signed Agent launch bundle" in
      let launch_of = λ (now : ℤ).
        verify_launch_bundle t.crypto t.codecs t.semver f.payload state.trust now
          (expected t state) in
      let kind = if is_launch_grant f.message_type then done tt else refused in
      >>=-NoReport kind _ s
        (if_rule (λ (m : Act _). NoReport (m s)) (is_launch_grant f.message_type) (done tt) refused
          (λ _. record { no_report = refl })
          (λ _. reject-NoReport unbound "AGENT_ADMISSION_TYPE_INVALID" _ s))
        (λ _ s1.
          >>=-NoReport (publish_runtime state "verifying_signed_launch_bundle" none) _ s1
            (publish-NoReport state _ _ s1)
            (λ _ s2. >>=-NoReport (clock a.now) _ s2 (present-NoReport _ a.now s2) (λ now s3.
              >>=-NoReport (accept_launch t state a.update (launch_of now)) _ s3
                (accept_launch-NoReport a.update (launch_of now) s3)
                (λ b s4.
                  let other =
                    reject t state b.session_id "AGENT_REGISTRATION_MISMATCH"
                      "signed launch bundle does not match the registered game" in
                  let files =
                    verify_build_manifest t.crypto t.hex a.root (protected_manifest t b) in
                  let matches = if misregistered state.registration b then other else done tt in
                  >>=-NoReport matches _ s4
                    (if_rule (λ (m : Act _). NoReport (m s4)) (misregistered state.registration b)
                      other (done tt)
                      (λ _. reject-NoReport b.session_id "AGENT_REGISTRATION_MISMATCH" _ s4)
                      (λ _. record { no_report = refl }))
                    (λ _ s5.
                      >>=-NoReport (accept_files t state b files) (λ _. done b) s5
                        (accept_files-NoReport b files s5)
                        (λ _ s6. record { no_report = refl }))))))

  pub await_admission-NoReport : (a : Arrival) (s : Sink) → NoReport (await_admission t state a s)
  unfolding await_admission
  await_admission-NoReport a s =
      let hello =
        send "failed to send Agent hello"
          (record { message_type = agent_hello; payload = t.codecs.hello.encode state.hello }) in
      >>=-NoReport hello _ s (send-NoReport _ _ s refl) (λ _ s1.
        >>=-NoReport (publish_runtime state "awaiting_server_admission" none) _ s1
          (publish-NoReport state _ _ s1)
          (λ _ s2.
            >>=-NoReport (bail_if (not a.spawned) "failed to start bounded Agent channel reader") _
              s2 (bail_if-NoReport (not a.spawned) _ s2)
              (λ _ s3.
                >>=-NoReport (first_frame t state a.bootstrap) _ s3
                  (first_frame-NoReport a.bootstrap s3) (λ f s4. admit-NoReport a f s4))))
