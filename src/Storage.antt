-- ===== src/Storage.antt =====
-- What the update session asks of the flash driver and of the boot-state store
-- (bootloader/src/boot_flash.h, shared/boot/boot_state_store.h).
use stm32_vibe.Base.{ℕ, ◌≡◌, Bool, List}
use stm32_vibe.BootState.{BootState}

-- `boot_flash_result_t`.
pub data FlashResult : Type 0 where
  ok invalid_argument error : FlashResult

-- A device holds the two slots and the store; every call may change it.
pub record Storage : Type 1 where
  pub Device : Type 0
  pub erase_slot : ℕ → ℕ → Device → FlashResult × Device
  pub write_slot : ℕ → ℕ → List ℕ → ℕ → Device → FlashResult × Device
  -- the bytes from the base address of a slot on
  pub slot_bytes : ℕ → Device → List ℕ
  pub load : Device → BootState
  pub save_next : BootState → Device → Bool × Device
  -- the store lies outside the slots
  pub save_keeps_slots :
      (s : BootState) (d : Device) (slot : ℕ)
      → slot_bytes slot (save_next s d).1 ≡ slot_bytes slot d
