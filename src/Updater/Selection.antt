-- ===== src/Updater/Selection.antt =====
-- What is selected: the file that a launcher starts, and the way back from an activation.
use certael_agent.Updater.Recover.{recover-IsSound}
use certael_agent.Updater.Genuine.{IsGenuine, verify_slot-IsGenuine}
use certael_agent.Text.{Text, Bytes}
use certael_agent.Updater.Operations.{
  recover, rollback, activated, transition, activate_pending, active_target, rolled_back,
}
use certael_agent.Updater.State.{
  in_root_usable, transition-ok, transition_done, read-replace_state, in_root-ok,
}
use certael_agent.Prelude.{◌∙◌, ◌≡◌, sym, ok_or-eq-ok, ok, >>=-eq-ok, ap, some, none}
use certael_agent.Updater.{
  no_pending_update, ActivationSlot, replace_state, read_activation_state_canonical, verify_slot,
  written, encode_state, ActivationState, Outcome, Root, invalid_activation_state, Formats,
  FormatsLaws,
}

module _ (x : Formats) where
  -- The path that a launcher is given is the canonical path of the file that the active slot of the
  -- state in the file leads to: a regular file below the install root, whose digest is the one that
  -- the slot holds. The slot's own path begins with its version's directory and has no `..`.
  pub active_target-IsGenuine :
      FormatsLaws x
      → (root root' : Root) (outcome : Outcome) (path : Text)
      → active_target x root outcome ≡ (ok path, root')
      → (s : ActivationState) × (slot : ActivationSlot) × (read_activation_state_canonical x root'
          ≡ ok s)
        × (s.active ≡ some slot)
        × (genuine : IsGenuine x root' slot) × (path ≡ genuine.file.canonical)
  unfolding active_target
  active_target-IsGenuine laws root root' outcome path h =
      let place : (recover x root outcome).1 ≡ root' = ap (λ q. q.1) h in
      let (s, recovered, rest) = >>=-eq-ok (recover x root outcome).0 _ (ap (λ q. q.0) h) in
      let (slot, active, checked) = ok_or-eq-ok s.active invalid_activation_state _ rest in
      let (u, good, e) = >>=-eq-ok (verify_slot x (recover x root outcome).1 slot) _ checked in
      let (target, there, given) =
        ok_or-eq-ok ((recover x root outcome).1.entry slot.relative_path) invalid_activation_state _
          e in
      let genuine = verify_slot-IsGenuine x root' slot (rw (← place) good) in
      let at_slot : root'.entry slot.relative_path ≡ some target = (rw (← place) there) in
      let same_file : some target ≡ some genuine.file = sym at_slot ∙ genuine.found in
      let whole : recover x root outcome ≡ (ok s, root') = cc in
      let (_, stored, _, _) = recover-IsSound x laws root root' outcome s whole in
      (s, slot, stored, active, genuine, cc)

  activated-ok :
      (root : Root) (old s : ActivationState)
      → activated x root old ≡ ok s
      → (p : ActivationSlot) × (old.pending ≡ some p)
        × (verify_slot x root p ≡ ok tt)
        × (s ≡ record old { previous = old.active; active = some p; pending = none })
  unfolding activated
  activated-ok root old s h =
      let (p, found, rest) = ok_or-eq-ok old.pending no_pending_update _ h in
      let (u, good, e) = >>=-eq-ok (verify_slot x root p) _ rest in (p, found, good, cc)

  -- The state behind a rollback that follows an activation.
  abbrev pub returned : ActivationState → ActivationSlot → ActivationState
  returned old a = record old { active = some a; previous = old.pending; pending = none }

  rolled_back-activated :
      (root : Root) (old s : ActivationState) (a : ActivationSlot)
      → old.active ≡ some a
      → verify_slot x root a ≡ ok tt
      → activated x root old ≡ ok s
      → rolled_back x root s ≡ ok (returned old a)
  unfolding rolled_back
  rolled_back-activated root old s a was good h =
      let (p, found, _, e) = activated-ok root old s h in rw (e, was, found) (rw good)

  -- An activation can be undone: if the version that was active before still verifies, the state to
  -- return to can be encoded and the write succeeds, then a rollback behind an activation makes that
  -- version active again, keeps the activated one as the previous, and leaves nothing pending.
  pub rollback-activate_pending :
      FormatsLaws x
      → (root root' : Root) (outcome : Outcome) (old s : ActivationState) (a : ActivationSlot)
        (b : Bytes)
      → read_activation_state_canonical x root ≡ ok old
      → old.active ≡ some a
      → verify_slot x root a ≡ ok tt
      → activate_pending x root outcome ≡ (ok s, root')
      → encode_state x (returned old a) ≡ ok b
      → rollback x root' written ≡ (ok (returned old a), replace_state root' b)
  unfolding activate_pending rollback rolled_back verify_slot
  rollback-activate_pending laws root root' outcome old s a b before was good h encoded =
      let (on, moved) = in_root-ok root root' (transition x root outcome (activated x root)) s h in
      let (old', b', read, chosen, encoded', place) =
        transition-ok x root root' outcome (activated x root) s moved in
      let same_old : old' ≡ old = cc in
      let now = replace_state root b' in
      let stored = read-replace_state x laws root s b' encoded' in
      let back = rolled_back-activated root old s a was good (rw (← same_old) chosen) in
      let done =
        transition_done x now (rolled_back x now) s (returned old a) b stored back encoded in
      rw place (in_root_usable now (transition x now written (rolled_back x now)) on ∙ done)
