-- ===== src/Tests/Health.antt =====
-- The confirmation of an update that is on trial.
use stm32_vibe.Base.{◌≡◌, refl, true, false, [], arith}
use stm32_vibe.BootState.{
  boot_state_confirm_pending, boot_state_init_default, boot_state_update_crc,
}
use stm32_vibe.BootPolicy.{boot_policy_mark_slot_pending}
use stm32_vibe.BootPolicy.Confirm.{IsConfirmed, tried}
use stm32_vibe.Health.{platform_confirm_pending_boot}
use stm32_vibe.Health.Commit.{confirm_pending_boot-IsConfirmed}
use stm32_vibe.Layout.{stm32l152}
use stm32_vibe.Tests.Memory.{Memory, memory, running_a}

-- The second slot was staged, and its image started twice.
abbrev staged : Memory
staged = record {
  slot_a = [];
  slot_b = [];
  state = tried stm32l152 2 (boot_policy_mark_slot_pending running_a 1 7 9);
  worn = false;
}

confirm_pending_boot-IsConfirmed_example :
    let s' = (boot_state_confirm_pending staged.state).1 in
    (platform_confirm_pending_boot memory staged ≡ (true, record staged { state = s' }))
    × IsConfirmed s' 1 7 9
unfolding boot_state_update_crc boot_state_init_default
confirm_pending_boot-IsConfirmed_example =
    confirm_pending_boot-IsConfirmed memory stm32l152 2 staged running_a 1 7 9 refl (omega arith)
      (omega arith) (omega arith)
