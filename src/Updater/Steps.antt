-- ===== src/Updater/Steps.antt =====
-- Sequences of operations, each of them interrupted anywhere.
use certael_agent.Updater.Install.Pending.{place_target-activation}
use certael_agent.Session.{activate}
use certael_agent.Text.{Bytes, Text}
use certael_agent.Updater.Operations.{
  registered, register_slot, existing_slot, activated, repaired, rolled_back, active_target,
  register_existing_version, rollback, in_root, transition, activate_pending, recover,
}
use certael_agent.Updater.{
  verify_slot, invalid_configuration, ActivationSlot, Outcome, ActivationState,
  read_activation_state_canonical, Root, FormatsLaws, Entry, UpdateError, Formats,
}
use certael_agent.Updater.Install.{
  staged_bytes, install_slot, install_checks, install_checked, pend, place_target, install_slot_at,
  Install, install_verified_target,
}
use certael_agent.Updater.State.{read_same_file, if_both, transition-cases, read-replace_state}
use certael_agent.Prelude.{
  true, ◌∙◌, ◌>>=◌, err, Result-cases, ◌≡◌, inl, inr, Option, Result, Bool, ok,
}

module _ (x : Formats) where
  -- One call of an operation, whatever its arguments and wherever the system fails it; or a change
  -- of the files below the root by anyone.
  pub data Step : Root → Root → Type 0 where
    activates : (root : Root) (o : Outcome) → Step root (activate_pending x root o).1
    rolls_back : (root : Root) (o : Outcome) → Step root (rollback x root o).1
    recovers : (root : Root) (o : Outcome) → Step root (recover x root o).1
    registers :
        (root : Root) (o : Outcome) (version installed_name : Text) (activate : Bool)
        → Step root (register_existing_version x root o version installed_name activate).1
    resolves : (root : Root) (o : Outcome) → Step root (active_target x root o).1
    installs :
        (root : Root) (i : Install) (staged : Option Entry) (expected : Text)
        → Step root (install_verified_target x root i staged expected).1
    files_change :
        (root : Root) (entry : Text → Option Entry) → Step root (record root { entry = entry })

  pub data Steps (root : Root) : Root → Type 0 where
    none_yet : Steps root root
    then_step : {r r' : Root} → Steps root r → Step r r' → Steps root r'

  -- The state file can be read and holds a valid state.
  abbrev pub IsReadable : Root → Type 0
  IsReadable root = (s : ActivationState) × (read_activation_state_canonical x root ≡ ok s)

  module _ (laws : FormatsLaws x) where
    transition-IsReadable :
        (root : Root) (o : Outcome) (next : ActivationState → Result UpdateError ActivationState)
        → IsReadable root
        → IsReadable (transition x root o next).1
    transition-IsReadable root o next h = elim (transition-cases x root o next) [
      | inl (e, p) ↦ rw p h
      | inr (s, b, chosen, encoded, inl p) ↦ rw p (s, read-replace_state x laws root s b encoded)
      | inr (s, b, chosen, encoded, inr p) ↦ rw p (s, read-replace_state x laws root s b encoded)
    ]

    in_root-IsReadable :
        (root : Root) (later : Result UpdateError ActivationState × Root)
        → IsReadable root
        → IsReadable later.1
        → IsReadable (in_root root later).1
    in_root-IsReadable root later h k =
        if_both (λ r. IsReadable r.1) root.usable later (err invalid_configuration, root) k h

    install_slot_at-IsReadable :
        (root : Root) (i : Install) (slot : ActivationSlot) (staged : Option Bytes)
        → IsReadable root
        → IsReadable (install_slot_at x root i slot staged).1
    unfolding install_slot_at
    install_slot_at-IsReadable root i slot staged h =
        let now = (place_target x root i slot staged).1 in
        let kept : IsReadable now =
          let (s, read) = h in
          (s, read_same_file x now root (place_target-activation x root i slot staged).0 ∙ read) in
        elim (Result-cases
          ((place_target x root i slot staged).0 >>= λ _. verify_slot x now slot)) [
            | inr (e, p) ↦ rw (p, install_slot_at) kept
            | inl (u, p) ↦
                rw (p, install_slot_at)
                  (in_root-IsReadable now (transition x now i.writing (pend slot)) kept
                    (transition-IsReadable now i.writing (pend slot) kept))
          ]

    register_slot-IsReadable :
        (root : Root) (o : Outcome) (activate : Bool) (slot : Result UpdateError ActivationSlot)
        → IsReadable root
        → IsReadable (register_slot x root o activate slot).1
    register_slot-IsReadable root o activate (err e) h = h
    register_slot-IsReadable root o activate (ok slot) h =
        transition-IsReadable root o (λ s. ok (registered x slot activate s)) h

    install_checked-IsReadable :
        (root : Root) (i : Install) (staged : Option Entry) (expected : Text)
        (checks : Result UpdateError (Unit {0}))
        → IsReadable root
        → IsReadable (install_checked x root i staged expected checks).1
    install_checked-IsReadable root i staged expected (err e) h = h
    install_checked-IsReadable root i staged expected (ok u) h =
        install_slot_at-IsReadable (record root { usable = true }) i (install_slot i expected)
          (staged_bytes staged) h

    Step-IsReadable : {root root' : Root} → Step root root' → IsReadable root → IsReadable root'
    unfolding activate_pending rollback recover register_existing_version active_target
        install_verified_target
    Step-IsReadable (activates root o) h =
        in_root-IsReadable root (transition x root o (activated x root)) h
          (transition-IsReadable root o (activated x root) h)
    Step-IsReadable (rolls_back root o) h =
        in_root-IsReadable root (transition x root o (rolled_back x root)) h
          (transition-IsReadable root o (rolled_back x root) h)
    Step-IsReadable (recovers root o) h =
        in_root-IsReadable root (transition x root o (repaired x root)) h
          (transition-IsReadable root o (repaired x root) h)
    Step-IsReadable (resolves root o) h =
        in_root-IsReadable root (transition x root o (repaired x root)) h
          (transition-IsReadable root o (repaired x root) h)
    Step-IsReadable (registers root o version installed_name activate) h =
        let slot = existing_slot x root version installed_name in
        in_root-IsReadable root (register_slot x root o activate slot) h
          (register_slot-IsReadable root o activate slot h)
    Step-IsReadable (installs root i staged expected) h =
        install_checked-IsReadable root i staged expected (install_checks x i staged expected) h
    Step-IsReadable (files_change root entry) h = h

    -- Whatever operations are called on a root, in whatever order, each failing or interrupted at any
    -- of its writes, and whatever happens to the other files in between: if the state file was
    -- readable and valid at first, it is after every step.
    pub Steps-IsReadable :
        {root root' : Root} → Steps root root' → IsReadable root → IsReadable root'
    Steps-IsReadable none_yet h = h
    Steps-IsReadable (then_step before last) h = Step-IsReadable last (Steps-IsReadable before h)
