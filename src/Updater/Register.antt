-- ===== src/Updater/Register.antt =====
-- What registering a version that is already there leaves behind.
use certael_agent.Updater.Genuine.{verify_slot-IsGenuine, IsGenuine}
use certael_agent.Text.{Text}
use certael_agent.Updater.State.{in_root-ok, refused, transition-ok, read-replace_state}
use certael_agent.Updater.Operations.{
  existing_slot, register_slot, register_existing_version, registered, installed_path, is_slot,
}
use certael_agent.Updater.{
  safe_component, Formats, read_activation_state_canonical, Root, replace_state, UpdateError,
  ActivationState, hash_file, verify_slot, FormatsLaws, ActivationSlot, Outcome,
  invalid_configuration,
}
use certael_agent.Prelude.{
  ◌⊎◌, ◌∙◌, ◌||◌, ◌≡◌, inl, refl, arith, sym, false, inr, Result-cases, some, ok, >>=-eq-ok, not,
  Result, Bool-cases, refuse_if,
}

module _ (x : Formats) where
  existing_slot-ok :
      (root : Root) (version name : Text) (slot : ActivationSlot)
      → existing_slot x root version name ≡ ok slot
      → (verify_slot x root slot ≡ ok tt)
        × (slot.version ≡ version)
        × (slot.relative_path ≡ installed_path version name)
  unfolding existing_slot
  existing_slot-ok root version name slot h =
      let (u, named, rest) =
        >>=-eq-ok
          (refuse_if (not (safe_component version) || not (safe_component name))
            invalid_configuration)
          _ h in
      let (digest, hashed, last) =
        >>=-eq-ok (hash_file x (root.entry (installed_path version name))) _ rest in
      let made : ActivationSlot = record {
        version = version;
        relative_path = installed_path version name;
        sha256 = digest;
      } in
      let (v, good, result) = >>=-eq-ok (verify_slot x root made) (λ _. ok made) last in
      let e : made ≡ slot = cc in (rw (← e) good, rw (← e) refl, rw (← e) refl)

  registered_pending :
      (slot a : ActivationSlot) (old : ActivationState)
      → old.active ≡ some a
      → (registered x slot false old ≡ old)
        ⊎ (registered x slot false old ≡ record old { pending = some slot })
  unfolding registered
  registered_pending slot a old h = elim (Bool-cases (is_slot old.active slot)) [
    | inl e ↦ inl (ground (arith, h, e))
    | inr e ↦ inr (ground (arith, h, e))
  ]

  -- On a root that has an active version, registering a version without activating it keeps the
  -- active and the previous version. The state that is returned stands in the file: it is the one
  -- before, or the one before with a slot pending that has the given version and name, and at that
  -- slot's path there is a regular file below the install root with the slot's digest.
  pub register_existing_version_keeps :
      FormatsLaws x
      → (root root' : Root) (outcome : Outcome) (version name : Text) (old s : ActivationState)
        (a : ActivationSlot)
      → read_activation_state_canonical x root ≡ ok old
      → old.active ≡ some a
      → register_existing_version x root outcome version name false ≡ (ok s, root')
      → (read_activation_state_canonical x root' ≡ ok s)
        × ((s ≡ old)
            ⊎ ((slot : ActivationSlot) × (s ≡ record old { pending = some slot })
                × (slot.version ≡ version)
                × (slot.relative_path ≡ installed_path version name)
                × IsGenuine x root' slot))
  unfolding register_existing_version verify_slot
  register_existing_version_keeps laws root root' outcome version name old s a before was h =
      let made = existing_slot x root version name in
      let (on, later) = in_root-ok root root' (register_slot x root outcome false made) s h in
      elim (Result-cases made) [
        | inr (e, p) ↦ absurd (refused (rw p at later))
        | inl (slot, p) ↦
            let next : ActivationState → Result UpdateError ActivationState =
              λ t. ok (registered x slot false t) in
            let (old', b, read, chosen, encoded, place) =
              transition-ok x root root' outcome next s (rw p at later) in
            let same_old : old' ≡ old = cc in
            let result : registered x slot false old ≡ s = cc in
            let (good, own_version, own_path) = existing_slot-ok root version name slot p in
            let genuine = verify_slot-IsGenuine x (replace_state root b) slot good in
            rw place (
              read-replace_state x laws root s b encoded,
              elim (registered_pending slot a old was) [
                | inl e ↦ inl (sym result ∙ e)
                | inr e ↦ inr (slot, sym result ∙ e, own_version, own_path, genuine)
              ],
            )
      ]
