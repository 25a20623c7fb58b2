-- ===== src/Drivers.antt =====
-- The slot driver and the store of the STM32F446 as the storage of the session and of the bootloader
-- (bootloader/src/boot_flash_stm32f4.c, shared/hal_impl/stm32f4/boot_state_store.c).
pub mod Blocks
pub mod Transfer
use stm32_vibe.Base.{ℕ, if◌then◌else◌, Bool, true, false, List, [], ◌∷◌, ◌++◌, refl, replicate}
use stm32_vibe.BootState.{BootState}
use stm32_vibe.BootStore.{
  Event, done, error, Copies, Report, written, boot_state_store_load, boot_state_store_save_next,
}
use stm32_vibe.SlotFlash.{Slots, contents, boot_flash_erase_slot, boot_flash_write_slot}
use stm32_vibe.Storage.{FlashResult, Storage}

-- The slots, the copies of the record, and for each save to come, which of the controller's answers are
-- good.
pub record Flash : Type 0 where
  pub slots : Slots
  pub copies : Copies
  pub saves : List (List Bool)

-- The answers to a save: those that are given, and good ones after them. The power stays on.
abbrev events_of : List Bool → List Event
events_of [] = replicate 23 done
events_of (good ∷ rest) = (if good then done else error) ∷ events_of rest

abbrev head_save : List (List Bool) → List Bool
head_save [] = []
head_save (answers ∷ rest) = answers

abbrev tail_saves : List (List Bool) → List (List Bool)
tail_saves [] = []
tail_saves (answers ∷ rest) = rest

abbrev is_written : Report → Bool
is_written written = true
is_written _ = false

module _ (blank : ℕ) (program : ℕ → ℕ → ℕ) where
  -- The drivers, over a flash whose erased bytes are `blank` and whose bytes `program` writes.
  abbrev pub drivers : Storage
  drivers = record {
    Device = Flash;
    erase_slot = λ slot image_size d.
        let (result, slots) = boot_flash_erase_slot blank slot image_size d.slots in
        (result, record d { slots = slots });
    write_slot = λ slot offset bytes len d.
        let (result, slots) = boot_flash_write_slot program slot offset bytes len d.slots in
        (result, record d { slots = slots });
    slot_bytes = λ slot d. contents slot d.slots;
    load = λ d. boot_state_store_load d.copies;
    save_next = λ s d.
        let (report, copies) =
          boot_state_store_save_next d.copies s (events_of (head_save d.saves)) in
        (is_written report, record d { copies = copies; saves = tail_saves d.saves });
    save_keeps_slots = λ s d slot. refl;
  }
