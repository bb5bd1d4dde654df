-- ===== src/Registry/Recovery.antt =====
-- What a recovery of a registration does.

use certael_agent.Registry.{Dir}
use certael_agent.Registry.Install.{Passage, RecoverRun, recover_registration, Slots}
use certael_agent.Prelude.{Result, refl, if_rule, ◌≡◌, ok, Option, none, some, String, All}

-- What a registration is, once the registry was recovered.
abbrev pub current : Slots → Option Dir
current s = elim s.destination [ none ↦ s.backup | some d ↦ some d ]

-- The old registration or the new one.
pub data IsSafe (old new : Option Dir) (s : Slots) : Type 0 where
  still : current s ≡ old → IsSafe old new s
  already : {d : Dir} → new ≡ some d → current s ≡ some d → IsSafe old new s

pub record IsInstalled (new : Option Dir) (s : Slots) : Type 0 where
  pub dir : Dir
  pub made : new ≡ some dir
  pub there : s.destination ≡ some dir
  pub no_backup : s.backup ≡ none

pub record IsAtomic (old new : Option Dir) (p : Passage) : Type 0 where
  pub passed : All (IsSafe old new) p.passed
  pub last : IsSafe old new p.last
  pub installed : p.result ≡ ok tt → IsInstalled new p.last

abbrev pub slots : Option Dir → Option Dir → Option Dir → Slots
slots destination backup temporary = record {
  destination = destination;
  backup = backup;
  temporary = temporary;
}

-- What a recovery of `s` is to do.
abbrev Recovers : RecoverRun → RecoverRun → Slots → Result String (Unit {0}) × Slots → Type 0
Recovers run again s out =
    (current out.1 ≡ current s)
    × (out.0 ≡ ok tt
        → (out.1.destination ≡ current s)
          × (out.1.backup ≡ none)
          × (recover_registration again out.1 ≡ (ok tt, out.1)))

recover_slots :
    (run again : RecoverRun) (destination backup temporary : Option Dir)
    → Recovers run again
        (slots destination backup temporary)
        (recover_registration run (slots destination backup temporary))
unfolding recover_registration
recover_slots run again none none temporary = (refl, λ h. (refl, refl, refl))
recover_slots run again (some d) none temporary = (refl, λ h. (refl, refl, refl))
recover_slots run again none (some b) temporary =
    if_rule (Recovers run again (slots none (some b) temporary)) run.renamed _ _
      (λ e. (refl, λ h. (refl, refl, refl))) (λ e. (refl, λ h. cc))
recover_slots run again (some d) (some b) temporary =
    if_rule (Recovers run again (slots (some d) (some b) temporary)) run.removed _ _
      (λ e. (refl, λ h. (refl, refl, refl))) (λ e. (refl, λ h. cc))

-- A recovery keeps what the registration is, whether it succeeds or not; where it succeeds, that
-- stands at the destination, there is no backup, and a recovery behind it changes nothing.
pub recover_registration-current :
    (run again : RecoverRun) (s : Slots)
    → (current (recover_registration run s).1 ≡ current s)
      × ((recover_registration run s).0 ≡ ok tt
          → ((recover_registration run s).1.destination ≡ current s)
            × ((recover_registration run s).1.backup ≡ none)
            × (recover_registration again (recover_registration run s).1
                ≡ (ok tt, (recover_registration run s).1)))
recover_registration-current run again s =
    recover_slots run again s.destination s.backup s.temporary
