-- ===== src/SlotFlashL1.antt =====
-- The driver of the application slots of the STM32L152 (bootloader/src/boot_flash_stm32l1.c), with the
-- controller and the slots of `SlotFlash`. It erases by pages, and waits before every word as well.
pub mod Write
pub mod Erase
use stm32_vibe.Base.{
  ℕ, zero, suc, ◌+◌, ◌-◌, ◌*◌, ◌/◌, ◌==◌, ltb, if◌then◌else◌, not, ◌||◌, List, [], ◌∷◌, set,
}
use stm32_vibe.Layout.{stm32l152, app_slot_size}
use stm32_vibe.BootState.{slot_is_valid}
use stm32_vibe.Storage.{FlashResult, ok, invalid_argument, error}
use stm32_vibe.SlotFlash.{
  Slots, contents, put, is_done, wait_ready, unlock_flash as unlock_once, word_at, is_bad_write,
  program_word,
}

abbrev pub boot_flash_page_size : ℕ
boot_flash_page_size = 256

-- The two locks, one after the other.
unfoldable pub unlock_flash : Slots → FlashResult × Slots
unlock_flash s =
    let (registers, s1) = unlock_once s in
    let (program, s2) = unlock_once s1 in
    if not (is_done registers)
    then (error, s1)
    else if not (is_done program)
    then (error, s2)
    else (ok, s2)

-- `& ~(BOOT_FLASH_PAGE_SIZE - 1U)` takes away the remainder.
abbrev pub whole_pages : ℕ → ℕ
whole_pages image_size =
    (image_size + boot_flash_page_size - 1) / boot_flash_page_size * boot_flash_page_size

module _ (blank : ℕ) where
  -- What the controller does to the bytes of a page.
  unfoldable pub clear : ℕ → ℕ → List ℕ → List ℕ
  clear zero at bytes = bytes
  clear (suc n) at bytes = clear n (at + 1) (set bytes at blank)

  unfoldable pub erase_page : ℕ → ℕ → Slots → FlashResult × Slots
  erase_page slot at s =
      let (ready, s1) = wait_ready slot s in
      let (result, s2) =
        wait_ready slot (put slot (clear boot_flash_page_size at (contents slot s1)) s1) in
      if not (is_done ready)
      then (error, s1)
      else if not (is_done result)
      then (error, s2)
      else (ok, s2)

  -- The loop over the pages from `offset` on, by the rounds left.
  unfoldable pub erase_pages : ℕ → ℕ → ℕ → ℕ → Slots → FlashResult × Slots
  erase_pages zero slot offset erase_size s = (ok, s)
  erase_pages (suc n) slot offset erase_size s =
      let (result, s') = erase_page slot offset s in
      let rest = erase_pages n slot (offset + boot_flash_page_size) erase_size s' in
      if not (ltb offset erase_size)
      then (ok, s)
      else if not (is_done result)
      then (error, s')
      else rest

  unfoldable pub boot_flash_erase_slot : ℕ → ℕ → Slots → FlashResult × Slots
  boot_flash_erase_slot slot image_size s =
      let (unlocked, s1) = unlock_flash s in
      let out = erase_pages image_size slot 0 (whole_pages image_size) s1 in
      if not (slot_is_valid slot)
      then (invalid_argument, s)
      else if (image_size == 0) || ltb (app_slot_size stm32l152) image_size
      then (invalid_argument, s)
      else if not (is_done unlocked)
      then (error, s1)
      else out

module _ (program : ℕ → ℕ → ℕ) where
  -- The loop over the words from `index` on, by the rounds left.
  unfoldable pub write_words : ℕ → ℕ → ℕ → ℕ → List ℕ → ℕ → Slots → FlashResult × Slots
  write_words zero slot offset index source len s = (ok, s)
  write_words (suc n) slot offset index source len s =
      let (ready, s1) = wait_ready slot s in
      let written =
        program_word program (contents slot s1) (offset + index) (word_at source len index) in
      let (result, s2) = wait_ready slot (put slot written s1) in
      let rest = write_words n slot offset (index + 4) source len s2 in
      if not (ltb index len)
      then (ok, s)
      else if not (is_done ready)
      then (error, s1)
      else if not (is_done result)
      then (error, s2)
      else rest

  unfoldable pub boot_flash_write_slot : ℕ → ℕ → List ℕ → ℕ → Slots → FlashResult × Slots
  boot_flash_write_slot slot offset source len s =
      let (unlocked, s1) = unlock_flash s in
      let out = write_words len slot offset 0 source len s1 in
      if is_bad_write stm32l152 slot offset len
      then (invalid_argument, s)
      else if not (is_done unlocked)
      then (error, s1)
      else out
