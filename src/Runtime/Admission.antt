-- ===== src/Runtime/Admission.antt =====
-- The first half of `serve`: from the hello to the admission of a launch.
use certael_agent.Protocol.External.{Crypto, Semver}
use certael_agent.Protocol.Errors.{Checked, ProtocolError, invalid_field}
use certael_agent.Protocol.Messages.{BoundAgentLaunch, ProtectedBuildFileV1}
use certael_agent.Protocol.Verify.{Codecs}
use certael_agent.Platform.{
  verify_build_manifest, Hex, GameRoot, ManifestMismatch, ProtectedBuildManifest,
  ProtectedBuildFile,
}
use certael_agent.Ipc.{agent_hello, MessageType, launch_grant, Frame, IpcError}
use certael_agent.Protocol.Launch.{Expected, verify_launch_bundle}
use certael_agent.Prelude.{
  [], if◌then◌else◌, ◌||◌, ◌∷◌, String, none, not, err, some, Option, same, true, List, Bool, false,
  Result, ok,
}
use certael_agent.Text.{Text, text}
use certael_agent.Prelude.Int.{ℤ, pos}
use certael_agent.Runtime.{
  ◌>>◌, ◌>>=◌, RuntimeState, halt, AutomaticUpdateBinding, done, failed, RegistrationBinding,
  write_health, bail_if, Act, publish_runtime, clock, send, quietly,
}

-- What the reader thread's channel gives within the wait.
pub data Incoming : Type 0 where
  arrived : Frame → Incoming
  broken : IpcError → Incoming
  timed_out disconnected : Incoming

-- What becomes of the automatic update, which is the updater's network client and third-party code.
pub data UpdateRun : Type 0 where
  no_runtime bad_metadata_url bad_targets_url installed not_installed : UpdateRun

-- What the system gives `serve` until it is admitted: can the reader thread be started, the first
-- message, the clock, an update, and the files below the game root.
pub record Arrival : Type 0 where
  pub spawned : Bool
  pub bootstrap : Incoming
  pub now : Option ℤ
  pub update : UpdateRun
  pub root : GameRoot

-- The external code.
pub record Tools : Type 1 where
  pub crypto : Crypto
  pub codecs : Codecs
  pub semver : Semver
  pub hex : Hex
  -- env!("CARGO_PKG_VERSION")
  pub version : Text

unfoldable pub is_update_required : ProtocolError → Bool
is_update_required (invalid_field name) = same (text name) (text "agent_update_required")
is_update_required _ = false

abbrev pub misregistered : Option RegistrationBinding → BoundAgentLaunch → Bool
misregistered none launch = false
misregistered (some r) launch =
    not (same r.tenant_id launch.tenant_id)
    || not (same r.game_id launch.game_id)
    || not (same r.environment_id launch.environment_id)

abbrev pub is_launch_grant : MessageType → Bool
is_launch_grant launch_grant = true
is_launch_grant _ = false

abbrev pub no_mismatch : List ManifestMismatch → Bool
no_mismatch [] = true
no_mismatch (m ∷ ms) = false

abbrev pub unbound : Text
unbound = text "unbound"

module _ (t : Tools) where
  abbrev pub protected_files : List ProtectedBuildFileV1 → List ProtectedBuildFile
  protected_files [] = []
  protected_files (f ∷ fs) =
      record { path = f.path; size = f.size; sha256 = t.hex.encode f.sha256 } ∷ protected_files fs

  abbrev pub protected_manifest : BoundAgentLaunch → ProtectedBuildManifest
  protected_manifest launch = record {
    build_id = launch.build_manifest.build_id;
    files = protected_files launch.build_manifest.files;
  }

  -- The status, the health frame that may be lost, and the error.
  unfoldable pub reject : {A : Type 0} → RuntimeState → Text → String → String → Act A
  unfolding publish_runtime write_health
  reject state session_id reason message =
      publish_runtime state "launch_failed" (some reason)
      >> quietly (write_health t.codecs session_id "rejected" (pos 0) (reason ∷ []))
      >> halt (failed message)

  -- The automatic update behind a launch that wants a newer Agent.
  unfoldable pub run_update : RuntimeState → UpdateRun → Act (Unit {0})
  unfolding publish_runtime
  run_update state no_runtime = halt (failed "cannot start automatic Agent updater")
  run_update state bad_metadata_url = halt (failed "registered update metadata URL is invalid")
  run_update state bad_targets_url = halt (failed "registered update target URL is invalid")
  run_update state installed =
      publish_runtime state "update_ready" (some "RELAUNCH_TO_ACTIVATE_UPDATE")
  run_update state not_installed =
      publish_runtime state "update_failed" (some "AGENT_UPDATE_FAILED")

  abbrev pub update_if_bound :
      RuntimeState → UpdateRun → Option AutomaticUpdateBinding → Act (Unit {0})
  update_if_bound state run none = done tt
  update_if_bound state run (some binding) =
      publish_runtime state "installing_required_update" (some "AGENT_UPDATE_REQUIRED")
      >> run_update state run

  unfoldable pub require_update : {A : Type 0} → RuntimeState → UpdateRun → Act A
  unfolding publish_runtime write_health run_update
  require_update state run =
      publish_runtime state "update_required" (some "AGENT_UPDATE_REQUIRED")
      >> quietly
          (write_health t.codecs unbound "update_required" (pos 0) ("AGENT_UPDATE_REQUIRED" ∷ []))
      >> update_if_bound state run state.automatic_update
      >> halt (failed "Agent update is required before protected launch")

  unfoldable pub refuse_launch : {A : Type 0} → RuntimeState → UpdateRun → ProtocolError → Act A
  unfolding is_update_required require_update reject
  refuse_launch state run e =
      if is_update_required e
      then require_update state run
      else reject state unbound "AGENT_LAUNCH_BUNDLE_REJECTED"
          "signed Agent launch bundle was rejected"

  -- `match incoming.recv_timeout(Duration::from_secs(15))`
  unfoldable pub first_frame : RuntimeState → Incoming → Act Frame
  unfolding reject
  first_frame state (arrived f) = done f
  first_frame state (broken e) =
      reject state unbound "AGENT_ADMISSION_CHANNEL_FAILED"
        "protected game channel failed before Agent admission"
  first_frame state timed_out =
      reject state unbound "AGENT_ADMISSION_TIMEOUT"
        "protected game did not provide Agent admission in time"
  first_frame state disconnected =
      reject state unbound "AGENT_ADMISSION_CHANNEL_CLOSED"
        "protected game channel closed before Agent admission"

  abbrev pub expected : RuntimeState → Expected
  expected state = record {
    agent_public_key = t.crypto.verifying_key state.key;
    build_id = state.hello.build_id;
    agent_version = t.version;
  }

  abbrev pub accept_launch :
      RuntimeState → UpdateRun → Checked BoundAgentLaunch → Act BoundAgentLaunch
  accept_launch state run (ok launch) = done launch
  accept_launch state run (err e) = refuse_launch state run e

  abbrev pub accept_files :
      RuntimeState → BoundAgentLaunch → Result String (List ManifestMismatch) → Act (Unit {0})
  accept_files state launch (err e) =
      reject state launch.session_id "AGENT_MANIFEST_VERIFICATION_FAILED"
        "protected build manifest could not be verified"
  accept_files state launch (ok mismatches) =
      if no_mismatch mismatches
      then done tt
      else reject state launch.session_id "AGENT_BUILD_MISMATCH"
          "protected build does not match its signed manifest"

  -- From the first frame to the accepted launch.
  unfoldable pub admit : RuntimeState → Arrival → Frame → Act BoundAgentLaunch
  unfolding publish_runtime reject refuse_launch
  admit state a bootstrap =
      (if is_launch_grant bootstrap.message_type
        then done tt
        else reject state unbound "AGENT_ADMISSION_TYPE_INVALID"
            "protected game did not provide a signed Agent launch bundle")
      >> publish_runtime state "verifying_signed_launch_bundle" none
      >> (clock a.now >>= λ now.
          accept_launch state a.update (
            verify_launch_bundle t.crypto t.codecs t.semver bootstrap.payload state.trust now
              (expected state))
          >>= λ launch.
              (if misregistered state.registration launch
                then reject state launch.session_id "AGENT_REGISTRATION_MISMATCH"
                    "signed launch bundle does not match the registered game"
                else done tt)
              >> accept_files state launch
                  (verify_build_manifest t.crypto t.hex a.root (protected_manifest launch))
              >> done launch)

  -- All that happens before `ready` is sent.
  unfoldable pub await_admission : RuntimeState → Arrival → Act BoundAgentLaunch
  unfolding send publish_runtime first_frame admit
  await_admission state a =
      send "failed to send Agent hello"
        (record { message_type = agent_hello; payload = t.codecs.hello.encode state.hello })
      >> publish_runtime state "awaiting_server_admission" none
      >> bail_if (not a.spawned) "failed to start bounded Agent channel reader"
      >> (first_frame state a.bootstrap >>= λ bootstrap. admit state a bootstrap)
