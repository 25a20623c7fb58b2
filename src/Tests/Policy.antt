-- ===== src/Tests/Policy.antt =====
-- The boot policy on a default record and on one with an update staged.
use stm32_vibe.Base.{◌≡◌, ◌≢◌, inl, refl}
use stm32_vibe.Layout.{stm32f446}
use stm32_vibe.BootState.{
  BootState, valid, boot_state_init_default, boot_state_update_crc, boot_state_status_for_slot,
  boot_state_validate, boot_state_crc32, record_bytes, words_bytes,
}
use stm32_vibe.BootPolicy.{
  boot_policy_mark_slot_pending, boot_policy_select_candidate, boot_policy_inactive_slot,
  set_status_for_slot, drop_exhausted, has_attempt,
}
use stm32_vibe.BootPolicy.Target.{
  Reach, start, next, stage, select, IsConsistent, Reach-IsConsistent, inactive_slot-ne-candidate,
  Step-valid,
}
use stm32_vibe.Crc.{crc32_masked, crc32_update}
use stm32_vibe.Tests.Memory.{running_a}

abbrev staged : BootState
staged = boot_policy_mark_slot_pending boot_state_init_default 1 7 9

Reach-staged : Reach staged
Reach-staged = next start (stage boot_state_init_default 1 7 9)

Reach-IsConsistent_example : IsConsistent staged
Reach-IsConsistent_example = Reach-IsConsistent Reach-staged

inactive_slot-ne-candidate_example :
    boot_policy_inactive_slot (boot_policy_select_candidate stm32f446 staged).1
    ≢ (boot_policy_select_candidate stm32f446 staged).0.slot
unfolding boot_policy_mark_slot_pending boot_policy_select_candidate drop_exhausted has_attempt
    set_status_for_slot boot_state_update_crc boot_state_init_default boot_state_status_for_slot
inactive_slot-ne-candidate_example = inactive_slot-ne-candidate stm32f446 Reach-staged (inl refl)

Step-valid_example :
    boot_state_validate (boot_policy_select_candidate stm32f446 running_a).1 ≡ valid
unfolding boot_state_validate boot_state_update_crc boot_state_init_default boot_state_crc32
    record_bytes words_bytes crc32_masked crc32_update
Step-valid_example = Step-valid (select stm32f446 running_a) refl
