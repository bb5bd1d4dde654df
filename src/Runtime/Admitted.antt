-- ===== src/Runtime/Admitted.antt =====
-- What an admitted launch guarantees.
use certael_agent.Runtime.Refusals.{
  IsRegistered, is_launch_grant_lem, first_frame_lem, rejected_lem, accept_files_lem,
  accept_launch_lem, guard_lem, misregistered_lem,
}
use certael_agent.Protocol.Launch.{verify_launch_bundle}
use certael_agent.Runtime.Logged.{done-Yields, present-eq-ok, Yields, >>=-Yields}
use certael_agent.Prelude.Int.{ℤ}
use certael_agent.Ipc.{agent_hello, launch_grant, Frame, Sink}
use certael_agent.Platform.{verify_build_manifest}
use certael_agent.Platform.WellFormed.{IsWellFormed}
use certael_agent.Protocol.Launch.Binding.{verify_launch_bundle-IsAccepted, IsAccepted}
use certael_agent.Runtime.{send, bail_if, clock, publish_runtime, RuntimeState, done}
use certael_agent.Protocol.Messages.{BoundAgentLaunch}
use certael_agent.Platform.Intact.{verify_build_manifest_iff, IsIntact, AllUsable}
use certael_agent.Runtime.Admission.{
  await_admission, unbound, admit, arrived, Tools, Arrival, reject, accept_launch, expected,
  protected_manifest, first_frame, misregistered, is_launch_grant, accept_files,
}
use certael_agent.Prelude.{not, [], if◌then◌else◌, ◌≡◌, true, some, ok, false, All, none}

module _ (t : Tools) where
  -- How the launch `b` came to be admitted: by the first frame, which is a launch grant, at the time
  -- that was read then, and onto files that are all intact.
  pub record IsAdmitted (state : RuntimeState) (a : Arrival) (b : BoundAgentLaunch) : Type 0 where
    pub frame : Frame
    pub first : a.bootstrap ≡ arrived frame
    pub kind : frame.message_type ≡ launch_grant
    pub now : ℤ
    pub read : a.now ≡ some now
    pub accepted :
        IsAccepted t.crypto t.codecs t.semver frame.payload state.trust now (expected t state) b
    pub registered : IsRegistered state.registration b
    pub well_formed : IsWellFormed a.root (protected_manifest t b)
    pub usable : AllUsable t.crypto t.hex [] (protected_manifest t b).files
    pub intact : All (IsIntact t.crypto t.hex a.root) (protected_manifest t b).files

  admitted :
      (state : RuntimeState) (a : Arrival) (f : Frame) (now : ℤ) (b : BoundAgentLaunch)
      → a.bootstrap ≡ arrived f
      → is_launch_grant f.message_type ≡ true
      → a.now ≡ some now
      → verify_launch_bundle t.crypto t.codecs t.semver f.payload state.trust now (expected t state)
        ≡ ok b
      → misregistered state.registration b ≡ false
      → verify_build_manifest t.crypto t.hex a.root (protected_manifest t b) ≡ ok []
      → IsAdmitted state a b
  admitted state a f now b arrival kind read taken matched files =
      let (_, formed, uses, intact) =
        (verify_build_manifest_iff t.crypto t.hex a.root (protected_manifest t b)).0 files in
      record {
        frame = f;
        first = arrival;
        kind = is_launch_grant_lem f.message_type kind;
        now = now;
        read = read;
        accepted =
            verify_launch_bundle-IsAccepted t.crypto t.codecs t.semver f.payload state.trust now
              (expected t state) b taken;
        registered = misregistered_lem state.registration b matched;
        well_formed = formed;
        usable = uses;
        intact = intact;
      }

  admit_lem :
      (state : RuntimeState) (a : Arrival) (f : Frame) (s : Sink)
      → a.bootstrap ≡ arrived f
      → Yields (IsAdmitted state a) (admit t state a f s)
  unfolding admit
  admit_lem state a f s arrival =
      let launch_of = λ (now : ℤ).
        verify_launch_bundle t.crypto t.codecs t.semver f.payload state.trust now
          (expected t state) in
      >>=-Yields
        (if is_launch_grant f.message_type
          then done tt
          else reject t state unbound "AGENT_ADMISSION_TYPE_INVALID"
              "protected game did not provide a signed Agent launch bundle")
        _ s
        (λ u s1 kind.
          >>=-Yields (publish_runtime state "verifying_signed_launch_bundle" none) _ s1 (λ _ s2 _.
            >>=-Yields (clock a.now) _ s2 (λ now s3 read.
              >>=-Yields (accept_launch t state a.update (launch_of now)) _ s3 (λ b s4 taken.
                >>=-Yields
                  (if misregistered state.registration b
                    then reject t state b.session_id "AGENT_REGISTRATION_MISMATCH"
                        "signed launch bundle does not match the registered game"
                    else done tt)
                  _ s4
                  (λ u' s5 matched.
                    >>=-Yields
                      (accept_files t state b
                        (verify_build_manifest t.crypto t.hex a.root (protected_manifest t b)))
                      _ s5
                      (λ u'' s6 files. done-Yields b s6 (
                        admitted state a f now b arrival
                          (guard_lem t state (is_launch_grant f.message_type) unbound _ _ s u kind)
                          (present-eq-ok _ a.now s2 read)
                          (accept_launch_lem t state a.update (launch_of now) b s3 taken)
                          (rejected_lem t state (misregistered state.registration b) b.session_id _
                            _ s4 u' matched)
                          (accept_files_lem t state b
                            (verify_build_manifest t.crypto t.hex a.root (protected_manifest t b))
                            s5 u'' files))))))))

  admission :
      (state : RuntimeState) (a : Arrival) (s : Sink)
      → Yields (IsAdmitted state a) (await_admission t state a s)
  unfolding await_admission
  admission state a s =
      >>=-Yields
        (send "failed to send Agent hello"
          (record { message_type = agent_hello; payload = t.codecs.hello.encode state.hello }))
        _ s
        (λ _ s1 _.
          >>=-Yields (publish_runtime state "awaiting_server_admission" none) _ s1 (λ _ s2 _.
            >>=-Yields (bail_if (not a.spawned) "failed to start bounded Agent channel reader") _ s2
              (λ _ s3 _. >>=-Yields (first_frame t state a.bootstrap) _ s3 (λ f s4 came.
                admit_lem state a f s4 (first_frame_lem t state a.bootstrap f s3 came)))))

  -- Whatever comes first and whatever the system's state is: a launch is admitted only by a first
  -- frame that is a launch grant whose bundle was accepted at the time read then, for this Agent's key,
  -- build and version; it belongs to the registered game, if there is one; and every file of its
  -- manifest is below the game root as the manifest has it.
  pub await_admission-IsAdmitted :
      (state : RuntimeState) (a : Arrival) (s : Sink) (b : BoundAgentLaunch)
      → (await_admission t state a s).result ≡ ok b
      → IsAdmitted state a b
  await_admission-IsAdmitted state a s b h = (admission state a s).yields b h
