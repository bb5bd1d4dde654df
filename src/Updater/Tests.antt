-- ===== src/Updater/Tests.antt =====
-- Runs of the updater's operations, and its theorems at concrete inputs.
use certael_agent.Updater.Register.{register_existing_version_keeps}
use certael_agent.Prelude.{[], ◌⊎◌, ◌∷◌, ◌≡◌, any, all, same, ok, true, refl, none, false, some}
use certael_agent.Text.{text, to_ascii_lowercase, is_ascii_hexdigit, is_ascii_alphanumeric}
use certael_agent.Updater.Install.Pending.{install_verified_target-IsGenuine}
use certael_agent.Updater.Recover.{AllGenuine, IsSound, recover-IsSound}
use certael_agent.Updater.Genuine.{IsGenuine}
use certael_agent.Updater.Selection.{active_target-IsGenuine, rollback-activate_pending, returned}
use certael_agent.Updater.Steps.{
  Steps, rolls_back, none_yet, activates, IsReadable, then_step, Steps-IsReadable,
}
use certael_agent.Updater.{
  ActivationSlot, encode_state, validate_slot, validate_state, write_activation_state,
  read_state_file, ActivationState, read_activation_state_canonical, hash_file, replace_state,
  written, Root, verify_slot, not_synced,
}
use certael_agent.Updater.Operations.{
  registered, recover, repaired, active_target, activate_pending, rollback, existing_slot,
  activated, register_existing_version, transition, installed_path,
}
use certael_agent.Updater.Install.{
  Install, place_target, moved, put, install_slot, copy_into, install_slot_at, validate_install,
  install_verified_target,
}
use certael_agent.Updater.Samples.{
  version_file, hex, one, two, formats, formats_laws, both, only_one, root_with, state_with,
  waiting, updated,
}

waiting_recovers :
    recover formats waiting written ≡ (ok (state_with (some one) none (some two)), waiting)
unfolding recover repaired transition read_state_file validate_state validate_slot same all
    is_ascii_alphanumeric is_ascii_hexdigit any verify_slot write_activation_state encode_state
waiting_recovers = refl

recover-IsSound_example :
    IsSound formats waiting (state_with (some one) none (some two))
    × (read_activation_state_canonical formats waiting ≡ ok (state_with (some one) none (some two)))
    × (recover formats waiting written ≡ (ok (state_with (some one) none (some two)), waiting))
    × AllGenuine formats waiting (state_with (some one) none (some two))
recover-IsSound_example =
    recover-IsSound formats formats_laws waiting waiting written
      (state_with (some one) none (some two)) waiting_recovers

target_found : active_target formats waiting written ≡ (ok (text "/r/versions/1/x"), waiting)
unfolding active_target recover repaired transition read_state_file validate_state validate_slot
    same all is_ascii_alphanumeric is_ascii_hexdigit any verify_slot write_activation_state
    encode_state
target_found = refl

active_target-IsGenuine_example :
    (s : ActivationState) × (slot : ActivationSlot) × (read_activation_state_canonical formats
        waiting
      ≡ ok s)
    × (s.active ≡ some slot)
    × (genuine : IsGenuine formats waiting slot) × (text "/r/versions/1/x" ≡ genuine.file.canonical)
active_target-IsGenuine_example =
    active_target-IsGenuine formats formats_laws waiting waiting written (text "/r/versions/1/x")
      target_found

waiting_read :
    read_activation_state_canonical formats waiting ≡ ok (state_with (some one) none (some two))
unfolding transition read_state_file validate_state validate_slot same all is_ascii_alphanumeric
    is_ascii_hexdigit any verify_slot write_activation_state encode_state
waiting_read = refl

one_verified : verify_slot formats waiting one ≡ ok tt
unfolding transition read_state_file validate_state validate_slot same all is_ascii_alphanumeric
    is_ascii_hexdigit any verify_slot write_activation_state encode_state
one_verified = refl

waiting_activated :
    activate_pending formats waiting written ≡ (ok (state_with (some two) (some one) none), updated)
unfolding activate_pending activated transition read_state_file validate_state validate_slot same
    all is_ascii_alphanumeric is_ascii_hexdigit any verify_slot write_activation_state encode_state
waiting_activated = refl

return_encoded :
    encode_state formats (returned formats (state_with (some one) none (some two)) one)
    ≡ ok (1 ∷ 2 ∷ 0 ∷ [])
unfolding transition read_state_file validate_state validate_slot same all is_ascii_alphanumeric
    is_ascii_hexdigit any verify_slot write_activation_state encode_state
return_encoded = refl

-- The version two, whose slot was pending before, is the one kept as the previous.
rollback-activate_pending_example : rollback formats updated written ≡ (
  ok (returned formats (state_with (some one) none (some two)) one),
  replace_state updated (1 ∷ 2 ∷ 0 ∷ []),
)
rollback-activate_pending_example =
    rollback-activate_pending formats formats_laws waiting updated written
      (state_with (some one) none (some two)) (state_with (some two) (some one) none) one
      (1 ∷ 2 ∷ 0 ∷ []) waiting_read refl one_verified waiting_activated return_encoded

abbrev second : Install
second = record {
  version = text "2";
  installed_name = text "x";
  absolute = true;
  directories = true;
  copying = moved;
  writing = written;
}

abbrev before : Root
before = root_with only_one (1 ∷ 0 ∷ 0 ∷ [])

abbrev behind : Root
behind = replace_state (put before two.relative_path (b'2' ∷ [])) (1 ∷ 0 ∷ 2 ∷ [])

second_installed :
    install_verified_target formats before second
      (some (version_file two (b'2' ∷ [])))
      (hex (b'2' ∷ []))
    ≡ (ok (state_with (some one) none (some two)), behind)
unfolding to_ascii_lowercase install_verified_target install_slot_at place_target copy_into put
    validate_install transition read_state_file validate_state validate_slot same all
    is_ascii_alphanumeric is_ascii_hexdigit any verify_slot write_activation_state encode_state
second_installed = refl

install_verified_target-IsGenuine_example :
    (old : ActivationState) × (read_activation_state_canonical formats before ≡ ok old)
    × (read_activation_state_canonical formats behind ≡ ok (state_with (some one) none (some two)))
    × (state_with (some one) none (some two)
        ≡ record old { pending = some (install_slot second (hex (b'2' ∷ []))) })
    × IsGenuine formats behind (install_slot second (hex (b'2' ∷ [])))
install_verified_target-IsGenuine_example =
    install_verified_target-IsGenuine formats formats_laws before behind second
      (some (version_file two (b'2' ∷ []))) (hex (b'2' ∷ []))
      (state_with (some one) none (some two)) second_installed

-- An activation, and a rollback that is written but not synced.
abbrev two_steps :
    Steps formats waiting
      (rollback formats (activate_pending formats waiting written).1 not_synced).1
two_steps =
    then_step (then_step none_yet (activates waiting written))
      (rolls_back (activate_pending formats waiting written).1 not_synced)

Steps-IsReadable_example :
    IsReadable formats (rollback formats (activate_pending formats waiting written).1 not_synced).1
Steps-IsReadable_example =
    Steps-IsReadable formats formats_laws two_steps
      (state_with (some one) none (some two), waiting_read)

abbrev both_there : Root
both_there = root_with both (1 ∷ 0 ∷ 0 ∷ [])

two_registered :
    register_existing_version formats both_there written (text "2") (text "x") false
    ≡ (ok (state_with (some one) none (some two)), replace_state both_there (1 ∷ 0 ∷ 2 ∷ []))
unfolding register_existing_version existing_slot hash_file registered transition read_state_file
    validate_state validate_slot same all is_ascii_alphanumeric is_ascii_hexdigit any verify_slot
    write_activation_state encode_state
two_registered = refl

both_there_read :
    read_activation_state_canonical formats both_there ≡ ok (state_with (some one) none none)
unfolding read_state_file validate_state validate_slot same all is_ascii_alphanumeric
    is_ascii_hexdigit any
both_there_read = refl

register_existing_version_keeps_example :
    (read_activation_state_canonical formats (replace_state both_there (1 ∷ 0 ∷ 2 ∷ []))
      ≡ ok (state_with (some one) none (some two)))
    × ((state_with (some one) none (some two) ≡ state_with (some one) none none)
        ⊎ ((slot : ActivationSlot) × (state_with (some one) none (some two)
              ≡ record (state_with (some one) none none) { pending = some slot })
            × (slot.version ≡ text "2")
            × (slot.relative_path ≡ installed_path (text "2") (text "x"))
            × IsGenuine formats (replace_state both_there (1 ∷ 0 ∷ 2 ∷ [])) slot))
register_existing_version_keeps_example =
    register_existing_version_keeps formats formats_laws both_there
      (replace_state both_there (1 ∷ 0 ∷ 2 ∷ [])) written (text "2") (text "x")
      (state_with (some one) none none) (state_with (some one) none (some two)) one both_there_read
      refl two_registered
