-- ===== src/Runtime.antt =====
-- crates/certael-agent/src/runtime.rs: what `serve` is given, what it does to the outside, and the
-- statuses and health frames that it sends.
pub mod Observe
pub mod Admission
pub mod Deadlines
pub mod Rounds
pub mod Logged
pub mod Refusals
pub mod Admitted
pub mod Unreported
pub mod Served
pub mod Reports
pub mod Challenged
pub mod Linked
pub mod Silence
pub mod Endings
mod Samples
mod Tests
use certael_agent.Protocol.KeyRing.{VerificationKeyRing}
use certael_agent.Status.{RuntimeStatus}
use certael_agent.Protocol.Messages.{AgentHelloV1}
use certael_agent.Prelude.Int.{ℤ}
use certael_agent.Ipc.{Sink, Frame, write_frame, IpcError, health}
use certael_agent.Protocol.Verify.{Codecs}
use certael_agent.Text.{Bytes, text, Text}
use certael_agent.Prelude.{
  [], if◌then◌else◌, ◌||◌, ◌++◌, ◌∷◌, some, ℕ, same, List, map, Result, String, false, none, ok,
  Bool, err, Option, true,
}

pub record RegistrationBinding : Type 0 where
  pub registration_id : Text
  pub tenant_id : Text
  pub game_id : Text
  pub environment_id : Text
  pub launch_attempt_id : Text

pub record AutomaticUpdateBinding : Type 0 where
  pub metadata_url : Text
  pub targets_url : Text
  pub channel : Text
  pub platform : Text
  pub target_name : Text
  pub installed_name : Text

pub record RuntimeState : Type 0 where
  pub game_process_id : ℕ
  pub game_process_identity : Option ℕ
  pub key : Bytes
  pub hello : AgentHelloV1
  pub trust : VerificationKeyRing
  pub registration : Option RegistrationBinding
  pub automatic_update : Option AutomaticUpdateBinding

-- How `serve` ends: `Ok(())`, or an error with its message.
pub data Stop : Type 0 where
  finished : Stop
  failed : String → Stop

-- What the outside sees, in its order: a frame that was written whole, and a status that was handed
-- to `status::publish`, as a function of the time it is stamped with.
pub data Event : Type 0 where
  sent : Frame → Event
  published : (ℤ → RuntimeStatus) → Event

-- The outcome of an action: its value or the stop of `serve`, its events, and the writer.
pub record Outcome (A : Type 0) : Type 0 where
  pub result : Result Stop A
  pub events : List Event
  pub sink : Sink

-- An action that may write.
abbrev pub Act : Type 0 → Type 0
Act A = Sink → Outcome A

abbrev pub done : {A : Type 0} → A → Act A
done a s = record { result = ok a; events = []; sink = s }

abbrev pub halt : {A : Type 0} → Stop → Act A
halt stop s = record { result = err stop; events = []; sink = s }

abbrev pub follow : {A B : Type 0} → Result Stop A → List Event → Sink → (A → Act B) → Outcome B
follow (ok a) events s next = record {
  result = (next a s).result;
  events = events ++ (next a s).events;
  sink = (next a s).sink;
}
follow (err stop) events s next = record { result = err stop; events = events; sink = s }

infixr 5 ◌>>=◌ ◌>>◌
abbrev pub ◌>>=◌ : {A B : Type 0} → Act A → (A → Act B) → Act B
◌>>=◌ m next s = follow (m s).result (m s).events (m s).sink next

abbrev pub ◌>>◌ : {B : Type 0} → Act (Unit {0}) → Act B → Act B
m >> rest = m >>= λ _. rest

-- `.context(message)?` on a result that was computed.
abbrev pub checked : {E A : Type 0} → String → Result E A → Act A
checked message (ok a) = done a
checked message (err e) = halt (failed message)

abbrev pub present : {A : Type 0} → String → Option A → Act A
present message none = halt (failed message)
present message (some a) = done a

-- `if bad { bail!(message) }`
abbrev pub bail_if : Bool → String → Act (Unit {0})
bail_if true message = halt (failed message)
bail_if false message = done tt

-- now_unix
abbrev pub clock : Option ℤ → Act ℤ
clock reading = present "system clock is before Unix epoch" reading

-- write_frame(..).context(message)?
abbrev pub wrote : String → Frame → Result IpcError (Unit {0}) × Sink → Outcome (Unit {0})
wrote message f (ok u, s) = record { result = ok tt; events = sent f ∷ []; sink = s }
wrote message f (err e, s) = record { result = err (failed message); events = []; sink = s }

unfoldable pub send : String → Frame → Act (Unit {0})
send message f s = wrote message f (write_frame f s)

-- `let _ = ..`
abbrev pub quietly : Act (Unit {0}) → Act (Unit {0})
quietly m s = record { result = ok tt; events = (m s).events; sink = (m s).sink }

unfoldable pub milestone_index : String → Option ℕ
milestone_index s =
    let is = λ (t : String). same (text s) (text t) in
    if is "verifying_agent_version"
    then some 1
    else if is "loading_signed_registration"
    then some 2
    else if is "checking_required_update"
        || is "installing_required_update"
        || is "update_required"
        || is "update_ready"
        || is "update_failed"
    then some 3
    else if is "hashing_registered_game_files"
    then some 4
    else if is "starting_game"
    then some 5
    else if is "awaiting_server_admission"
    then some 6
    else if is "verifying_signed_launch_bundle"
    then some 7
    else if is "protected"
    then some 8
    else none

unfoldable pub runtime_status : RegistrationBinding → String → Option String → ℤ → RuntimeStatus
runtime_status registration state reason now = record {
  format_version = 2;
  registration_id = registration.registration_id;
  game_id = registration.game_id;
  state = state;
  public_reason = reason;
  updated_at_unix = now;
  launch_attempt_id = some registration.launch_attempt_id;
  milestone_index = milestone_index state;
  milestone_total = some 8;
}

abbrev pub statuses : Option RegistrationBinding → String → Option String → List Event
statuses none state reason = []
statuses (some r) state reason = published (runtime_status r state reason) ∷ []

-- The errors of `status::publish` are ignored.
unfoldable pub publish_runtime : RuntimeState → String → Option String → Act (Unit {0})
publish_runtime state runtime_state reason s = record {
  result = ok tt;
  events = statuses state.registration runtime_state reason;
  sink = s;
}

abbrev pub health_frame : Codecs → Text → String → ℤ → List String → Frame
health_frame codecs session_id state last_report reasons = record {
  message_type = health;
  payload = codecs.health.encode (record {
    agent_session_id = session_id;
    state = text state;
    last_report_at_unix = last_report;
    public_reasons = map text reasons;
  });
}

unfoldable pub write_health : Codecs → Text → String → ℤ → List String → Act (Unit {0})
unfolding send
write_health codecs session_id state last_report reasons =
    send "failed to send Agent health state"
      (health_frame codecs session_id state last_report reasons)
