-- ===== src/Registry/Atomic.antt =====
-- An installation that is interrupted leaves the old registration or the new one.

use certael_agent.Registry.Recovery.{
  already, still, current, IsAtomic, recover_registration-current, slots, IsSafe,
}
use mathlib.Core.Path.{subst}
use certael_agent.Registry.{Dir}
use certael_agent.Registry.Install.{
  exists, recovered_then, install_slots, staging, install_recovered, install_at, retire, swap,
  Passage, InstallRun, RecoverRun, recover_registration, Slots, clean, pass,
}
use certael_agent.Prelude.{
  map-All, All-append, ◌&&◌, not, err, sym, Result, Bool, true, false, refl, if_rule, [], ◌∷◌, ◌≡◌,
  List, ok, Option, none, some, String, All, map,
}

current_none : (d t : Option Dir) → current (slots d none t) ≡ d
current_none none t = refl
current_none (some d) t = refl

module _ (run : InstallRun) (old new : Option Dir) where
  pass-IsAtomic :
      (states : List Slots) (p : Passage)
      → All (IsSafe old new) states
      → IsAtomic old new p
      → IsAtomic old new (pass states p)
  pass-IsAtomic states p h k = record {
    passed = All-append (IsSafe old new) states p.passed h k.passed;
    last = k.last;
    installed = k.installed;
  }

  retag : (d b t t' : Option Dir) → IsSafe old new (slots d b t) → IsSafe old new (slots d b t')
  retag d b t t' (still h) = still h
  retag d b t t' (already e h) = already e h

  -- Only the staged directory changes.
  clean-IsAtomic :
      (message : String) (d b t : Option Dir)
      → IsSafe old new (slots d b t)
      → IsAtomic old new (clean run message (slots d b t))
  unfolding clean
  clean-IsAtomic message d b none h = record { passed = tt; last = h; installed = λ e. cc }
  clean-IsAtomic message d b (some t) h = record {
    passed = map-All (IsSafe old new) _ run.cleaning (λ t'. retag d b (some t) (some t') h);
    last = retag d b (some t) run.cleaned h;
    installed = λ e. cc;
  }

  -- The new registration stands at the destination, whatever becomes of the backup.
  retire-IsAtomic :
      (d : Dir) (b : Option Dir)
      → new ≡ some d
      → IsAtomic old new (retire run (slots (some d) b none))
  unfolding retire
  retire-IsAtomic d b e =
      let removing =
        map-All (IsSafe old new) (λ b'. slots (some d) (some b') none) run.removing
          (λ b'. already e refl) in
      if_rule (IsAtomic old new) run.removed _ _
        (λ h. record {
          passed = removing;
          last = already e refl;
          installed = λ h'. record { dir = d; made = e; there = refl; no_backup = refl };
        })
        (λ h. pass-IsAtomic (map (λ b'. slots (some d) (some b') none) run.removing) _ removing (
          clean-IsAtomic "cannot retire previous game registration" (some d) run.left none
            (already e refl)))

  unchanged : (t : Option Dir) → IsSafe old new (slots old none t)
  unchanged t = still (current_none old t)

  swap-IsAtomic :
      (d : Dir) (replace : Bool) (t : Option Dir)
      → new ≡ some d
      → IsAtomic old new (swap run d replace (slots old none t))
  unfolding swap
  swap-IsAtomic d true t e =
      if_rule (IsAtomic old new) run.retired _ _
        (λ h.
          pass-IsAtomic (slots none old t ∷ []) _ (still refl, tt)
            (if_rule (IsAtomic old new) run.activated _ _
              (λ h'.
                pass-IsAtomic (slots (some d) old none ∷ []) _ (already e refl, tt)
                  (retire-IsAtomic d old e))
              (λ h'.
                if_rule (IsAtomic old new) run.restored _ _
                  (λ h''.
                    pass-IsAtomic (slots old none t ∷ []) _ (unchanged t, tt)
                      (clean-IsAtomic "cannot activate updated game registration" old none t
                        (unchanged t)))
                  (λ h''.
                    clean-IsAtomic "cannot activate updated game registration" none old t
                      (still refl)))))
        (λ h. clean-IsAtomic "cannot stage existing game registration" old none t (unchanged t))
  swap-IsAtomic d false t e =
      if_rule (IsAtomic old new) run.activated _ _
        (λ h. record {
          passed = tt;
          last = already e refl;
          installed = λ h'. record { dir = d; made = e; there = refl; no_backup = refl };
        })
        (λ h. clean-IsAtomic "cannot activate game registration" old none t (unchanged t))

  install_at-IsAtomic :
      (made : Option Dir) (replace : Bool) (t : Option Dir)
      → new ≡ made
      → IsAtomic old new (install_at run made replace (slots old none t))
  unfolding install_at
  install_at-IsAtomic none replace t e =
      pass-IsAtomic (staging (slots old none t) run.partial) _
        (map-All (IsSafe old new) _ run.partial (λ t'. unchanged (some t')))
        (clean-IsAtomic "cannot stage game registration" old none run.unfinished
          (unchanged run.unfinished))
  install_at-IsAtomic (some d) replace t e =
      pass-IsAtomic (staging (slots old none t) run.partial) _
        (map-All (IsSafe old new) _ run.partial (λ t'. unchanged (some t')))
        (if_rule (IsAtomic old new) run.staged _ _
          (λ h.
            pass-IsAtomic (slots old none (some d) ∷ []) _ (unchanged (some d), tt)
              (swap-IsAtomic d replace (some d) e))
          (λ h.
            clean-IsAtomic "cannot stage game registration" old none run.unfinished
              (unchanged run.unfinished)))

  refused :
      (message : String) (t : Option Dir)
      → IsAtomic old new (record { passed = []; last = slots old none t; result = err message })
  refused message t = record { passed = tt; last = unchanged t; installed = λ e. cc }

  install_recovered-IsAtomic :
      (replace : Bool) (t : Option Dir)
      → IsAtomic old new (install_recovered run new replace (slots old none t))
  unfolding install_recovered
  install_recovered-IsAtomic replace t =
      if_rule (IsAtomic old new) (exists old && not replace) _ _
        (λ h. refused "this game registration already exists" t)
        (λ h.
          if_rule (IsAtomic old new) (not (exists old) && replace) _ _
            (λ h'. refused "this game registration is not installed" t)
            (λ h'. install_at-IsAtomic new replace t refl))

  recovered_then-IsAtomic :
      (replace : Bool) (out : Result String (Unit {0}) × Slots)
      → current out.1 ≡ old
      → (out.0 ≡ ok tt → (out.1.destination ≡ old) × (out.1.backup ≡ none))
      → IsAtomic old new (recovered_then run new replace out)
  unfolding recovered_then
  recovered_then-IsAtomic replace (err e, s) h k = record {
    passed = tt;
    last = still h;
    installed = λ e'. cc;
  }
  recovered_then-IsAtomic replace (ok u, s) h k =
      let (there, no_backup) = k refl in
      pass-IsAtomic (s ∷ []) _ (still h, tt)
        (subst
          (λ d. IsAtomic old new (install_recovered run new replace (slots d s.backup s.temporary)))
          (sym there)
          (subst
            (λ b. IsAtomic old new (install_recovered run new replace (slots old b s.temporary)))
            (sym no_backup) (install_recovered-IsAtomic replace s.temporary)))

-- An installation, a replacement as well, is atomic, whichever of its system calls fail and wherever it
-- is interrupted: each state that the registry passes, and the last, is one from which a recovery
-- makes the old registration or the complete new one; and where the installation succeeds, the new
-- one stands at the destination and there is no backup.
pub install_slots-IsAtomic :
    (recovery : RecoverRun) (run : InstallRun) (new : Option Dir) (replace : Bool) (s : Slots)
    → IsAtomic (current s) new (install_slots recovery run new replace s)
unfolding install_slots
install_slots-IsAtomic recovery run new replace s =
    let (same_game, done) = recover_registration-current recovery recovery s in
    recovered_then-IsAtomic run (current s) new replace (recover_registration recovery s) same_game
      (λ h. let (there, no_backup, _) = done h in (there, no_backup))
