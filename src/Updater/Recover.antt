-- ===== src/Updater/Recover.antt =====
-- What `recover` leaves behind.
use certael_agent.Updater.State.{
  transition_done, in_root_usable, in_root-ok, read-replace_state, transition-ok,
}
use certael_agent.Updater.Operations.{broken, recover, transition, without_broken_pending, repaired}
use certael_agent.Updater.Genuine.{IsGenuine, verify_slot-IsGenuine}
use certael_agent.Text.{Bytes}
use certael_agent.Prelude.{
  ◌∙◌, if◌then◌else◌, ◌⊎◌, ◌>>◌, ◌≡◌, >>=-eq-ok, none, arith, inl, some, refl, inr, Result-cases,
  ok, false, ok_or-eq-ok, Option, Bool-cases,
}
use certael_agent.Updater.{
  read_activation_state_canonical, written, FormatsLaws, Outcome, Formats, ActivationSlot,
  verify_slot, ActivationState, Root, invalid_activation_state, replace_state,
}

module _ (x : Formats) where
  -- The slot is absent, or what it names is there and has the digest that it names.
  abbrev pub IsVerified : Root → Option ActivationSlot → Type 0
  IsVerified root none = Unit {0}
  IsVerified root (some slot) = verify_slot x root slot ≡ ok tt

  -- No slot of the state is broken.
  pub record IsSound (root : Root) (s : ActivationState) : Type 0 where
    pub active : IsVerified root s.active
    pub previous : IsVerified root s.previous
    pub pending : IsVerified root s.pending

  -- The slot is absent, or leads to a genuine file.
  abbrev pub IsGenuineIf : Root → Option ActivationSlot → Type 0
  IsGenuineIf root none = Unit {0}
  IsGenuineIf root (some slot) = IsGenuine x root slot

  -- Each slot of the state leads to a genuine file.
  pub record AllGenuine (root : Root) (s : ActivationState) : Type 0 where
    pub active : IsGenuineIf root s.active
    pub previous : IsGenuineIf root s.previous
    pub pending : IsGenuineIf root s.pending

  IsVerified-IsGenuineIf :
      (root : Root) (o : Option ActivationSlot) → IsVerified root o → IsGenuineIf root o
  IsVerified-IsGenuineIf root none h = tt
  IsVerified-IsGenuineIf root (some slot) h = verify_slot-IsGenuine x root slot h

  IsSound-AllGenuine : (root : Root) (s : ActivationState) → IsSound root s → AllGenuine root s
  IsSound-AllGenuine root s h = record {
    active = IsVerified-IsGenuineIf root s.active h.active;
    previous = IsVerified-IsGenuineIf root s.previous h.previous;
    pending = IsVerified-IsGenuineIf root s.pending h.pending;
  }

  not_broken :
      (root : Root) (o : Option ActivationSlot) → broken x root o ≡ false → IsVerified root o
  not_broken root none h = tt
  not_broken root (some slot) h = elim (Result-cases (verify_slot x root slot)) [
    | inl (u, e) ↦ e
    | inr (e, p) ↦ absurd (ground (arith, p))
  ]

  IsVerified-broken :
      (root : Root) (o : Option ActivationSlot) → IsVerified root o → broken x root o ≡ false
  IsVerified-broken root none h = refl
  IsVerified-broken root (some slot) h = rw h

  -- Slots do not depend on the state file.
  IsVerified-replace_state :
      (root : Root) (b : Bytes) (o : Option ActivationSlot)
      → IsVerified root o
      → IsVerified (replace_state root b) o
  unfolding verify_slot
  IsVerified-replace_state root b none h = tt
  IsVerified-replace_state root b (some slot) h = h

  pub IsSound-replace_state :
      (root : Root) (b : Bytes) (s : ActivationState)
      → IsSound root s
      → IsSound (replace_state root b) s
  IsSound-replace_state root b s h = record {
    active = IsVerified-replace_state root b s.active h.active;
    previous = IsVerified-replace_state root b s.previous h.previous;
    pending = IsVerified-replace_state root b s.pending h.pending;
  }

  IsVerified-without_broken_pending :
      (root : Root) (s : ActivationState)
      → IsVerified root (without_broken_pending x root s).pending
  unfolding without_broken_pending
  IsVerified-without_broken_pending root s = elim (Bool-cases (broken x root s.pending)) [
    | inl e ↦ rw e tt
    | inr e ↦ rw e (not_broken root s.pending e)
  ]

  -- The two repairs of the active slot, as what they make of the state.
  repaired-cases :
      (root : Root) (old s : ActivationState)
      → repaired x root old ≡ ok s
      → ((p : ActivationSlot) × (verify_slot x root p ≡ ok tt)
          × (s ≡ record (without_broken_pending x root old) { active = some p; previous = none }))
        ⊎ ((broken x root (without_broken_pending x root old).active ≡ false)
            × (s ≡ (
                if broken x root (without_broken_pending x root old).previous
                then record (without_broken_pending x root old) { previous = none }
                else without_broken_pending x root old)))
  unfolding repaired
  repaired-cases root old s h =
      let t = without_broken_pending x root old in
      elim (Bool-cases (broken x root t.active)) [
        | inl bad ↦
            let (p, found, rest) =
              ok_or-eq-ok t.previous invalid_activation_state
                (λ p. verify_slot x root p >> ok (record t { active = some p; previous = none }))
                (rw bad at h) in
            let (u, good, e) =
              >>=-eq-ok (verify_slot x root p)
                (λ _. ok (record t { active = some p; previous = none })) rest in
            inl (p, good, cc)
        | inr good ↦ inr (good, ground (arith, good, h))
      ]

  pub IsSound-repaired :
      (root : Root) (old s : ActivationState) → repaired x root old ≡ ok s → IsSound root s
  IsSound-repaired root old s h =
      let t = without_broken_pending x root old in
      let pending = IsVerified-without_broken_pending root old in
      elim (repaired-cases root old s h) [
        | inl (p, good, e) ↦ rw e (record { active = good; previous = tt; pending = pending })
        | inr (good, e) ↦
            let active = not_broken root t.active good in
            elim (Bool-cases (broken x root t.previous)) [
              | inl bad ↦ rw (e, bad) (record { active = active; previous = tt; pending = pending })
              | inr fine ↦
                  rw (e, fine)
                    (record {
                      active = active;
                      previous = not_broken root t.previous fine;
                      pending = pending;
                    })
            ]
      ]

  repaired_again : (root : Root) (s : ActivationState) → IsSound root s → repaired x root s ≡ ok s
  unfolding repaired without_broken_pending
  repaired_again root s h = rw (
    IsVerified-broken root s.pending h.pending,
    IsVerified-broken root s.active h.active,
    IsVerified-broken root s.previous h.previous,
  )

  -- What `recover` returns stands in the state file, and each of its slots that is there is verified
  -- and leads to a regular file below the install root with the digest that the slot holds, by a
  -- path that begins with its version's directory and has no `..`; recovering again, when the write
  -- succeeds, returns the same state and changes nothing.
  pub recover-IsSound :
      FormatsLaws x
      → (root root' : Root) (outcome : Outcome) (s : ActivationState)
      → recover x root outcome ≡ (ok s, root')
      → IsSound root' s
        × (read_activation_state_canonical x root' ≡ ok s)
        × (recover x root' written ≡ (ok s, root'))
        × AllGenuine root' s
  unfolding recover
  recover-IsSound laws root root' outcome s h =
      let (on, moved) = in_root-ok root root' (transition x root outcome (repaired x root)) s h in
      let (old, b, read, chosen, encoded, place) =
        transition-ok x root root' outcome (repaired x root) s moved in
      let now = replace_state root b in
      let sound = IsSound-replace_state root b s (IsSound-repaired root old s chosen) in
      let stored = read-replace_state x laws root s b encoded in
      let again =
        transition_done x now (repaired x now) s s b stored (repaired_again now s sound) encoded in
      rw place (
        sound,
        stored,
        in_root_usable now (transition x now written (repaired x now)) on ∙ again,
        IsSound-AllGenuine now s sound,
      )
