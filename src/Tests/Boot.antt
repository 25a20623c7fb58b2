-- ===== src/Tests/Boot.antt =====
-- Resets of a device in memory, with an update on trial in slot B.
use stm32_vibe.Base.{◌≡◌, ◌≢◌, refl, [], false, true, arith}
use stm32_vibe.Layout.{stm32f446}
use stm32_vibe.BootState.{
  words_bytes, boot_state_init_default, boot_state_update_crc, boot_state_status_for_slot,
  boot_state_crc32, record_bytes,
}
use stm32_vibe.BootPolicy.{
  candidate_for, boot_policy_mark_slot_pending, boot_policy_select_candidate, set_status_for_slot,
  drop_exhausted, has_attempt, count_attempt,
}
use stm32_vibe.BootPolicy.Attempts.{IsTrial}
use stm32_vibe.Protocol.{read_u32_le}
use stm32_vibe.Image.{
  valid, app_image_validate, manifest_result, image_crc32, image_vectors_are_valid,
  app_vectors_are_valid_for_slot,
}
use stm32_vibe.Crc.{crc32_masked, crc32_update}
use stm32_vibe.Handoff.{prepare_boot_handoff}
use stm32_vibe.BootMain.{Jump, launch, check_vectors, boot, candidate_result}
use stm32_vibe.BootMain.Launch.{Started, boot-Started, selected, selected_device}
use stm32_vibe.BootMain.Fallback.{IsGivenUp, boot-IsGivenUp, given_up}
use stm32_vibe.Tests.Memory.{Memory, memory, running_a, image_b, image_b_crc32}

abbrev updated : Memory
updated = record {
  slot_a = [];
  slot_b = image_b;
  state = boot_policy_mark_slot_pending running_a 1 7 image_b_crc32;
  worn = false;
}

-- The same with nothing in slot B.
abbrev broken : Memory
broken = record updated { slot_b = [] }

abbrev tried : Jump
tried = record {
  vector_base = 0x08040000;
  stack_pointer = 0x20010000;
  reset_handler = 0x08040201;
  got_base = 0;
  handoff =
      prepare_boot_handoff (candidate_for stm32f446 1 true) (app_image_validate image_b 0x20000)
        (selected stm32f446 memory [] [] updated).1;
}

boot-Started_example : Started stm32f446 memory [] [] updated tried
unfolding boot check_vectors launch read_u32_le words_bytes boot_policy_select_candidate
    drop_exhausted has_attempt count_attempt boot_policy_mark_slot_pending set_status_for_slot
    boot_state_update_crc boot_state_status_for_slot boot_state_init_default app_image_validate
    manifest_result image_crc32 crc32_masked crc32_update image_vectors_are_valid
    app_vectors_are_valid_for_slot boot_state_crc32 record_bytes
boot-Started_example = boot-Started stm32f446 memory [] [] updated tried refl

broken-IsTrial : IsTrial broken.state 1 0 0
unfolding boot_policy_mark_slot_pending set_status_for_slot boot_state_update_crc
    boot_state_status_for_slot boot_state_init_default
broken-IsTrial = record {
  slot_ok = omega arith;
  pending = refl;
  counted = refl;
  on_trial = refl;
  fallback = refl;
}

broken-image :
    (candidate_result stm32f446 memory [] []
      (candidate_for stm32f446 1 true)
      (selected_device stm32f446 memory [] [] broken)).status
    ≢ valid
unfolding boot_policy_select_candidate drop_exhausted has_attempt count_attempt
    boot_policy_mark_slot_pending set_status_for_slot boot_state_update_crc
    boot_state_status_for_slot boot_state_init_default app_image_validate manifest_result
    read_u32_le
broken-image = ground arith

boot-IsGivenUp_example :
    ((boot stm32f446 memory [] [] broken).1
      ≡ record (selected_device stm32f446 memory [] [] broken) {
        state = given_up stm32f446 memory [] [] broken;
      })
    × IsGivenUp (given_up stm32f446 memory [] [] broken) 1 0
boot-IsGivenUp_example =
    boot-IsGivenUp stm32f446 memory [] [] broken 1 0 0 broken-IsTrial (omega arith) broken-image
