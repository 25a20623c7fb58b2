-- ===== src/Handoff/Deliver.antt =====
-- The application learns what the bootloader decided.
use stm32_vibe.Base.{ℕ, ◌≤◌, ◌<◌, ◌≡◌, refl, sym, if◌then◌else◌, some, arith}
use stm32_vibe.BootState.{BootState}
use stm32_vibe.BootPolicy.{BootCandidate}
use stm32_vibe.Image.{AppImageResult}
use stm32_vibe.Handoff.{
  Handoff, boot_handoff_crc32, boot_handoff_update_crc, boot_handoff_is_valid, handoff_fields,
  prepare_boot_handoff, platform_boot_info_init_from,
}

boot_handoff_crc32-set_crc32 :
    (h : Handoff) (c : ℕ) → boot_handoff_crc32 (record h { crc32 = c }) ≡ boot_handoff_crc32 h
unfolding boot_handoff_crc32
boot_handoff_crc32-set_crc32 h c = refl

sealed :
    (h : Handoff)
    → (boot_handoff_update_crc h).crc32 ≡ boot_handoff_crc32 (boot_handoff_update_crc h)
unfolding boot_handoff_update_crc
sealed h = sym (
    boot_handoff_crc32-set_crc32 (record h { crc32 = 0 })
      (boot_handoff_crc32 (record h { crc32 = 0 })))

-- A handoff that the bootloader prepares for one of the two slots and an image that is not empty is
-- valid for the application, which then knows the image's base and size, its slot, whether it is on
-- trial, and the number of the attempt, which is 0 for an image that is not on trial.
pub boot_info-prepare_boot_handoff :
    (candidate : BootCandidate) (image : AppImageResult) (s : BootState)
    → candidate.slot ≤ 1
    → 0 < image.image_size
    → platform_boot_info_init_from (prepare_boot_handoff candidate image s)
      ≡ some record {
        image_base = candidate.image_base;
        image_size = image.image_size;
        slot = candidate.slot;
        boot_attempt = if candidate.boot_pending then s.pending_attempts else 0;
        pending = candidate.boot_pending;
      }
unfolding platform_boot_info_init_from prepare_boot_handoff boot_handoff_is_valid
    boot_handoff_update_crc
boot_info-prepare_boot_handoff candidate image s slot_ok size_ok =
    ground (arith, sealed (handoff_fields candidate image s))
