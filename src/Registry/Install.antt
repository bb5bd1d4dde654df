-- ===== src/Registry/Install.antt =====
-- The changes that an installation makes in the registry, each as one state that the disk passes, so
-- that an interruption at any of them is a state of the list.
use certael_agent.Updater.Operations.{recover}
use certael_agent.Registry.{Dir}
use certael_agent.Text.{replace}
use certael_agent.Protocol.KeyRing.{new}
use certael_agent.Prelude.{
  [], if◌then◌else◌, ◌&&◌, ◌++◌, ◌∷◌, String, Bool, List, Option, err, Result, ok, some, false, not,
  none, map, true,
}

-- The three entries of one registration in the registry: `<id>`, `.backup-<id>` and the directory in
-- which a new registration is staged.
pub record Slots : Type 0 where
  pub destination : Option Dir
  pub backup : Option Dir
  pub temporary : Option Dir

-- What becomes of the system calls of `recover_registration`. A removal that fails leaves some of the
-- directory.
pub record RecoverRun : Type 0 where
  pub renamed : Bool
  pub removed : Bool
  pub left : Dir

-- What becomes of those of an installation: the directories that are passed while the new one is
-- written, and what is there where that fails; the three renames; and the directories that are
-- passed while the backup, or behind a failure the staged one, is removed, and what is left of them.
pub record InstallRun : Type 0 where
  pub partial : List Dir
  pub staged : Bool
  pub unfinished : Option Dir
  pub retired : Bool
  pub activated : Bool
  pub restored : Bool
  pub removing : List Dir
  pub removed : Bool
  pub left : Option Dir
  pub cleaning : List Dir
  pub cleaned : Option Dir

abbrev pub exists : Option Dir → Bool
exists none = false
exists (some d) = true

unfoldable pub recover_registration : RecoverRun → Slots → Result String (Unit {0}) × Slots
recover_registration run s = elim s.destination [
  | none ↦ elim s.backup [
    | none ↦ (ok tt, s)
    | some b ↦
        if run.renamed
        then (ok tt, record s { destination = some b; backup = none })
        else (err "cannot recover interrupted game registration", s)
  ]
  | some d ↦ elim s.backup [
    | none ↦ (ok tt, s)
    | some b ↦ if run.removed then (ok tt, record s { backup = none }) else (
      err "cannot finish interrupted game registration",
      record s { backup = some run.left },
    )
  ]
]

-- The states that an action passes, its last state, and its result.
pub record Passage : Type 0 where
  pub passed : List Slots
  pub last : Slots
  pub result : Result String (Unit {0})

-- `remove_dir_all(&temporary)`, whose error is ignored.
unfoldable pub clean : InstallRun → String → Slots → Passage
clean run message s = elim s.temporary [
  | none ↦ record { passed = []; last = s; result = err message }
  | some d ↦ record {
    passed = map (λ d'. record s { temporary = some d' }) run.cleaning;
    last = record s { temporary = run.cleaned };
    result = err message;
  }
]

abbrev pub pass : List Slots → Passage → Passage
pass states p = record p { passed = states ++ p.passed }

-- `remove_dir_all(&backup)`.
unfoldable pub retire : InstallRun → Slots → Passage
unfolding clean
retire run s =
    let removing = map (λ b. record s { backup = some b }) run.removing in
    if run.removed
    then record { passed = removing; last = record s { backup = none }; result = ok tt }
    else pass removing
        (clean run "cannot retire previous game registration" (record s { backup = run.left }))

-- The three renames, once the new directory is complete.
unfoldable pub swap : InstallRun → Dir → Bool → Slots → Passage
unfolding clean retire
swap run new replace s =
    if replace
    then (if run.retired
        then (let moved = record s { destination = none; backup = s.destination } in
            pass (moved ∷ []) (
              if run.activated
              then (let active = record moved { destination = some new; temporary = none } in
                  pass (active ∷ []) (retire run active))
              else if run.restored
              then (let back = record moved { destination = s.destination; backup = none } in
                  pass (back ∷ []) (clean run "cannot activate updated game registration" back))
              else clean run "cannot activate updated game registration" moved))
        else clean run "cannot stage existing game registration" s)
    else if run.activated
    then record {
      passed = [];
      last = record s { destination = some new; temporary = none };
      result = ok tt;
    }
    else clean run "cannot activate game registration" s

abbrev pub staging : Slots → List Dir → List Slots
staging s partial = map (λ d. record s { temporary = some d }) partial

-- From the empty staging directory on. Where the new directory cannot be made, as its record cannot be
-- printed, the writing fails.
unfoldable pub install_at : InstallRun → Option Dir → Bool → Slots → Passage
unfolding clean swap
install_at run new replace s = elim new [
  | none ↦
      pass (staging s run.partial)
        (clean run "cannot stage game registration" (record s { temporary = run.unfinished }))
  | some d ↦ pass (staging s run.partial) (
      if run.staged
      then (let full = record s { temporary = some d } in
          pass (full ∷ []) (swap run d replace full))
      else clean run "cannot stage game registration" (record s { temporary = run.unfinished }))
]

-- From the recovery on.
unfoldable pub install_recovered : InstallRun → Option Dir → Bool → Slots → Passage
unfolding install_at
install_recovered run new replace s =
    if exists s.destination && not replace
    then record { passed = []; last = s; result = err "this game registration already exists" }
    else if not (exists s.destination) && replace
    then record { passed = []; last = s; result = err "this game registration is not installed" }
    else install_at run new replace s

unfoldable pub recovered_then :
    InstallRun → Option Dir → Bool → Result String (Unit {0}) × Slots → Passage
unfolding install_recovered
recovered_then run new replace (err e, s) = record { passed = []; last = s; result = err e }
recovered_then run new replace (ok u, s) = pass (s ∷ []) (install_recovered run new replace s)

-- `install_registration` on the registry: the new directory is what the checks before it made.
unfoldable pub install_slots : RecoverRun → InstallRun → Option Dir → Bool → Slots → Passage
unfolding recover_registration recovered_then
install_slots recover run new replace s =
    recovered_then run new replace (recover_registration recover s)
