-- ===== src/BootState/Crc.antt =====
-- The checksum of a record leaves the checksum's own field out.
use stm32_vibe.Base.{ℕ, ◌≡◌, refl}
use stm32_vibe.BootState.{BootState, boot_state_crc32}

pub boot_state_crc32-set_record_crc32 :
    (s : BootState) (c : ℕ) → boot_state_crc32 (record s { record_crc32 = c }) ≡ boot_state_crc32 s
unfolding boot_state_crc32
boot_state_crc32-set_record_crc32 s c = refl
