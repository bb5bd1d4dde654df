-- ===== src/Updater/Install/Pending.antt =====
-- What a finished installation leaves behind.
use certael_agent.Updater.State.{
  in_root-ok, read_same_file, refused, transition-ok, read-replace_state,
}
use certael_agent.Updater.Operations.{in_root, transition}
use certael_agent.Text.{Bytes, Text}
use certael_agent.Updater.Genuine.{verify_slot-IsGenuine, IsGenuine}
use certael_agent.Updater.Install.{
  install_checks, staged_bytes, install_slot, copy_into, place_target, put, Install,
  install_slot_at, pend, install_verified_target,
}
use certael_agent.Updater.{
  replace_state, verify_slot, ActivationState, read_activation_state_canonical, Root, FormatsLaws,
  Entry, Formats, ActivationSlot,
}
use certael_agent.Prelude.{
  true, ◌∙◌, sym, ◌>>=◌, ◌≡◌, Option-cases, inl, some, inr, Option, refl, Result-cases, >>=-eq-ok,
  ok,
}

module _ (x : Formats) where
  pub place_target-activation :
      (root : Root) (i : Install) (slot : ActivationSlot) (staged : Option Bytes)
      → ((place_target x root i slot staged).1.activation ≡ root.activation)
        × ((place_target x root i slot staged).1.usable ≡ root.usable)
  unfolding place_target put
  place_target-activation root i slot staged = elim (Option-cases (root.entry slot.relative_path)) [
    | inr (e, p) ↦ rw (p, place_target) (refl, refl)
    | inl n ↦ elim (Result-cases (copy_into x i.copying staged slot.sha256)) [
      | inr (e, c) ↦ rw (n, place_target) (rw (c, place_target) (refl, refl))
      | inl (r, c) ↦ rw (n, place_target) (rw (c, place_target) (refl, refl))
    ]
  ]

  install_slot_at-ok :
      (root root' : Root) (i : Install) (slot : ActivationSlot) (staged : Option Bytes)
      (s : ActivationState)
      → install_slot_at x root i slot staged ≡ (ok s, root')
      → (verify_slot x (place_target x root i slot staged).1 slot ≡ ok tt)
        × (in_root
              (place_target x root i slot staged).1
              (transition x (place_target x root i slot staged).1 i.writing (pend slot))
            ≡ (ok s, root'))
  unfolding install_slot_at
  install_slot_at-ok root root' i slot staged s h =
      let placed = (place_target x root i slot staged).0 in
      let now = (place_target x root i slot staged).1 in
      elim (Result-cases (placed >>= λ _. verify_slot x now slot)) [
        | inr (e, p) ↦ absurd (refused (rw (p, install_slot_at) at h))
        | inl (u, p) ↦
            let (u', done, good) = >>=-eq-ok placed (λ _. verify_slot x now slot) p in
            (good, rw (p, install_slot_at) at h)
      ]

  -- An installation that returns has not touched the active and the previous version; the state
  -- that stands in the file is the one before with the new slot pending, under the name, version and
  -- digest that were asked for; and at the slot's path there is a regular file below the install
  -- root whose digest is that digest in lower case.
  pub install_verified_target-IsGenuine :
      FormatsLaws x
      → (root root' : Root) (i : Install) (staged : Option Entry) (expected : Text)
        (s : ActivationState)
      → install_verified_target x root i staged expected ≡ (ok s, root')
      → (old : ActivationState) × (read_activation_state_canonical x root ≡ ok old)
        × (read_activation_state_canonical x root' ≡ ok s)
        × (s ≡ record old { pending = some (install_slot i expected) })
        × IsGenuine x root' (install_slot i expected)
  unfolding install_verified_target verify_slot
  install_verified_target-IsGenuine laws root root' i staged expected s h =
      let slot = install_slot i expected in
      let bytes = staged_bytes staged in
      let there = record root { usable = true } in
      let now = (place_target x there i slot bytes).1 in
      elim (Result-cases (install_checks x i staged expected)) [
        | inr (e, p) ↦ absurd (refused (rw p at h))
        | inl (u, p) ↦
            let (good, kept) = install_slot_at-ok there root' i slot bytes s (rw p at h) in
            let (on, changed) =
              in_root-ok now root' (transition x now i.writing (pend slot)) s kept in
            let (old, b, read, chosen, encoded, place) =
              transition-ok x now root' i.writing (pend slot) s changed in
            let same_file = (place_target-activation there i slot bytes).0 in
            rw place (
              old,
              sym (read_same_file x now root same_file) ∙ read,
              read-replace_state x laws now s b encoded,
              cc,
              verify_slot-IsGenuine x (replace_state now b) slot good,
            )
      ]
