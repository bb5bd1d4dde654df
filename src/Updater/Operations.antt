-- ===== src/Updater/Operations.antt =====
-- `activate_pending`, `rollback`, `recover`, `register_existing_version` and `active_target`.
use certael_agent.Session.{activate}
use certael_agent.Text.{Text}
use certael_agent.Prelude.{
  if◌then◌else◌, ◌&&◌, ◌||◌, ◌>>◌, ◌>>=◌, ◌++◌, err, Result, same, none, is_err, false, refuse_if,
  Option, ok_or, Bool, ok, not, some, true,
}
use certael_agent.Updater.{
  UpdateError, ActivationSlot, invalid_activation_state, read_activation_state_canonical, hash_file,
  ActivationState, version_prefix, verify_slot, no_pending_update, write_activation_state, Outcome,
  Formats, safe_component, no_rollback, Root, invalid_configuration,
}

-- `slot.is_some_and(|slot| verify_slot(&root, slot).is_err())`
abbrev pub broken : Formats → Root → Option ActivationSlot → Bool
broken x root none = false
broken x root (some slot) = is_err (verify_slot x root slot)

abbrev pub is_slot : Option ActivationSlot → ActivationSlot → Bool
is_slot none t = false
is_slot (some s) t =
    same s.version t.version && same s.relative_path t.relative_path && same s.sha256 t.sha256

abbrev pub absent : Option ActivationSlot → Bool
absent none = true
absent (some slot) = false

-- format!("versions/{version}/{installed_name}")
abbrev pub installed_path : Text → Text → Text
installed_path version installed_name = version_prefix version ++ installed_name

-- What `canonical_install_root` refuses, in front of everything else.
abbrev pub in_root :
    Root → Result UpdateError ActivationState × Root → Result UpdateError ActivationState × Root
in_root root later = if root.usable then later else (err invalid_configuration, root)

module _ (x : Formats) where
  unfoldable pub activated : Root → ActivationState → Result UpdateError ActivationState
  activated root s = ok_or s.pending no_pending_update >>= λ pending.
      verify_slot x root pending
      >> ok (record s { previous = s.active; active = some pending; pending = none })

  unfoldable pub rolled_back : Root → ActivationState → Result UpdateError ActivationState
  rolled_back root s = ok_or s.previous no_rollback >>= λ previous.
      verify_slot x root previous
      >> ok (record s { active = some previous; previous = s.active; pending = none })

  unfoldable pub without_broken_pending : Root → ActivationState → ActivationState
  without_broken_pending root s = if broken x root s.pending then record s { pending = none } else s

  unfoldable pub repaired : Root → ActivationState → Result UpdateError ActivationState
  unfolding without_broken_pending
  repaired root s =
      let t = without_broken_pending root s in
      if broken x root t.active
      then (ok_or t.previous invalid_activation_state >>= λ previous.
          verify_slot x root previous >> ok (record t { active = some previous; previous = none }))
      else ok (if broken x root t.previous then record t { previous = none } else t)

  -- The slot that is registered, with the digest of the file that is there.
  unfoldable pub existing_slot : Root → Text → Text → Result UpdateError ActivationSlot
  unfolding hash_file
  existing_slot root version installed_name =
      refuse_if (not (safe_component version) || not (safe_component installed_name))
        invalid_configuration
      >> (hash_file x (root.entry (installed_path version installed_name)) >>= λ digest.
          let slot : ActivationSlot = record {
            version = version;
            relative_path = installed_path version installed_name;
            sha256 = digest;
          } in
          verify_slot x root slot >> ok slot)

  -- `replace` of the active slot, if it is to be activated now.
  unfoldable pub registered : ActivationSlot → Bool → ActivationState → ActivationState
  registered slot activate s =
      if absent s.active
      then record s { active = some slot }
      else if is_slot s.active slot
      then s
      else if activate
      then record s { pending = none; previous = s.active; active = some slot }
      else record s { pending = some slot }

  -- Read the state, compute the next one, write it and return it.
  unfoldable pub transition :
      Root
      → Outcome
      → (ActivationState → Result UpdateError ActivationState)
      → Result UpdateError ActivationState × Root
  transition root outcome next = elim (read_activation_state_canonical x root >>= next) [
    | err e ↦ (err e, root)
    | ok s ↦
        let (result, root') = write_activation_state x root outcome s in
        (result >>= λ _. ok s, root')
  ]

  unfoldable pub activate_pending : Root → Outcome → Result UpdateError ActivationState × Root
  activate_pending root outcome = in_root root (transition root outcome (activated root))

  unfoldable pub rollback : Root → Outcome → Result UpdateError ActivationState × Root
  rollback root outcome = in_root root (transition root outcome (rolled_back root))

  unfoldable pub recover : Root → Outcome → Result UpdateError ActivationState × Root
  recover root outcome = in_root root (transition root outcome (repaired root))

  -- The part behind the slot, or its error.
  abbrev pub register_slot :
      Root
      → Outcome
      → Bool
      → Result UpdateError ActivationSlot
      → Result UpdateError ActivationState × Root
  register_slot root outcome activate (err e) = (err e, root)
  register_slot root outcome activate (ok slot) =
      transition root outcome (λ s. ok (registered slot activate s))

  unfoldable pub register_existing_version :
      Root → Outcome → Text → Text → Bool → Result UpdateError ActivationState × Root
  register_existing_version root outcome version installed_name activate =
      in_root root (register_slot root outcome activate (existing_slot root version installed_name))

  -- The path that a launcher starts.
  unfoldable pub active_target : Root → Outcome → Result UpdateError Text × Root
  active_target root outcome =
      let (result, root') = recover root outcome in
      (
        result >>= λ s. ok_or s.active invalid_activation_state >>= λ slot.
            verify_slot x root' slot
            >> (ok_or (root'.entry slot.relative_path) invalid_activation_state >>= λ target.
                ok target.canonical),
        root',
      )
