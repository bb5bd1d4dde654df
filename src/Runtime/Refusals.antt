-- ===== src/Runtime/Refusals.antt =====
-- What it takes to pass each step of the admission: every refusal of it is an error.
use certael_agent.Text.{Text}
use certael_agent.Ipc.{MessageType, launch_grant, Frame, Sink}
use certael_agent.Platform.{ManifestMismatch}
use certael_agent.Protocol.Errors.{Checked, ProtocolError}
use certael_agent.Runtime.{
  ◌>>◌, Act, publish_runtime, RegistrationBinding, failed, AutomaticUpdateBinding, RuntimeState,
  done, halt,
}
use certael_agent.Protocol.Messages.{BoundAgentLaunch}
use certael_agent.Runtime.Admission.{
  broken, installed, bad_metadata_url, run_update, require_update, arrived, Tools, Incoming,
  is_update_required, reject, UpdateRun, update_if_bound, no_mismatch, timed_out, accept_launch,
  not_installed, disconnected, bad_targets_url, no_runtime, first_frame, misregistered,
  refuse_launch, is_launch_grant, accept_files,
}
use certael_agent.Prelude.{
  [], if◌then◌else◌, ◌≢◌, ◌∷◌, ◌≡◌, true, refl, Result, some, ok, String, arith, false, Bool, List,
  Option, if_rule, err, none, eq_of_same,
}

pub is_launch_grant_lem : (m : MessageType) → is_launch_grant m ≡ true → m ≡ launch_grant
is_launch_grant_lem launch_grant h = refl
is_launch_grant_lem _ h = cc

no_mismatch_lem : (ms : List ManifestMismatch) → no_mismatch ms ≡ true → ms ≡ []
no_mismatch_lem [] h = refl
no_mismatch_lem (m ∷ ms) h = cc

-- The launch belongs to the game that is registered, if one is.
abbrev pub IsRegistered : Option RegistrationBinding → BoundAgentLaunch → Type 0
IsRegistered none b = Unit {0}
IsRegistered (some r) b =
    (r.tenant_id ≡ b.tenant_id) × (r.game_id ≡ b.game_id) × (r.environment_id ≡ b.environment_id)

pub misregistered_lem :
    (o : Option RegistrationBinding) (b : BoundAgentLaunch)
    → misregistered o b ≡ false
    → IsRegistered o b
misregistered_lem none b h = tt
misregistered_lem (some r) b h = (
  eq_of_same r.tenant_id b.tenant_id (ground arith),
  eq_of_same r.game_id b.game_id (ground arith),
  eq_of_same r.environment_id b.environment_id (ground arith),
)

module _ (t : Tools) where
  update_fails :
      {A : Type 0} (state : RuntimeState) (run : UpdateRun) (o : Option AutomaticUpdateBinding)
      (last : String) (s : Sink) (a : A)
      → ((update_if_bound t state run o >> halt (failed last)) s).result ≢ ok a
  unfolding run_update publish_runtime
  update_fails state run none last s a h = cc
  update_fails state no_runtime (some binding) last s a h = cc
  update_fails state bad_metadata_url (some binding) last s a h = cc
  update_fails state bad_targets_url (some binding) last s a h = cc
  update_fails state installed (some binding) last s a h = cc
  update_fails state not_installed (some binding) last s a h = cc

  reject_fails :
      {A : Type 0} (state : RuntimeState) (id : Text) (reason message : String) (s : Sink) (a : A)
      → (reject t state id reason message s).result ≢ ok a
  unfolding reject publish_runtime
  reject_fails state id reason message s a h = cc

  refuse_launch_fails :
      {A : Type 0} (state : RuntimeState) (run : UpdateRun) (e : ProtocolError) (s : Sink) (a : A)
      → (refuse_launch t state run e s).result ≢ ok a
  unfolding refuse_launch require_update reject publish_runtime
  refuse_launch_fails state run e s a =
      if_rule (λ (m : Act _). (m s).result ≢ ok a) (is_update_required e) _ _
        (λ _. update_fails state run state.automatic_update _ _ a) (λ _ h. cc)

  pub first_frame_lem :
      (state : RuntimeState) (i : Incoming) (f : Frame) (s : Sink)
      → (first_frame t state i s).result ≡ ok f
      → i ≡ arrived f
  unfolding first_frame reject publish_runtime
  first_frame_lem state (arrived g) f s h = cc
  first_frame_lem state (broken e) f s h = cc
  first_frame_lem state timed_out f s h = cc
  first_frame_lem state disconnected f s h = cc

  pub accept_launch_lem :
      (state : RuntimeState) (run : UpdateRun) (r : Checked BoundAgentLaunch) (b : BoundAgentLaunch)
      (s : Sink)
      → (accept_launch t state run r s).result ≡ ok b
      → r ≡ ok b
  accept_launch_lem state run (ok c) b s h = cc
  accept_launch_lem state run (err e) b s h = absurd (refuse_launch_fails state run e s b h)

  pub accept_files_lem :
      (state : RuntimeState) (b : BoundAgentLaunch) (r : Result String (List ManifestMismatch))
      (s : Sink) (u : Unit {0})
      → (accept_files t state b r s).result ≡ ok u
      → r ≡ ok []
  accept_files_lem state b (err e) s u h = absurd (reject_fails state _ _ _ s u h)
  accept_files_lem state b (ok []) s u h = refl
  accept_files_lem state b (ok (m ∷ ms)) s u h = absurd (reject_fails state _ _ _ s u h)

  pub guard_lem :
      (state : RuntimeState) (b : Bool) (id : Text) (reason message : String) (s : Sink)
      (u : Unit {0})
      → ((if b then done tt else reject t state id reason message) s).result ≡ ok u
      → b ≡ true
  guard_lem state true id reason message s u h = refl
  guard_lem state false id reason message s u h = absurd (reject_fails state _ _ _ s u h)

  pub rejected_lem :
      (state : RuntimeState) (b : Bool) (id : Text) (reason message : String) (s : Sink)
      (u : Unit {0})
      → ((if b then reject t state id reason message else done tt) s).result ≡ ok u
      → b ≡ false
  rejected_lem state true id reason message s u h = absurd (reject_fails state _ _ _ s u h)
  rejected_lem state false id reason message s u h = refl
