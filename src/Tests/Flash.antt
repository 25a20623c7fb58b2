-- ===== src/Tests/Flash.antt =====
-- The slot drivers at concrete inputs: five bytes in slot B.
use stm32_vibe.Base.{
  ℕ, zero, suc, ◌+◌, ◌-◌, ◌/◌, ◌%◌, ◌≤◌, ◌<◌, ◌≡◌, refl, bit_and, bit_or, true, List, [], ◌∷◌,
  get_or, length-replicate, replicate, arith,
}
use stm32_vibe.Base.Bits.{bit_and-low, bit_or_step}
use stm32_vibe.Layout.{stm32f446, stm32l152, app_slot_size}
use stm32_vibe.Storage.{FlashResult, ok, invalid_argument}
use stm32_vibe.SlotFlash.{
  Slots, contents, take_answer, wait_ready, try_unlock, unlock_flash, is_bad_write,
  boot_flash_erase_slot, boot_flash_write_slot,
}
use stm32_vibe.SlotFlash.Write.{whole_words, other, Holds, boot_flash_write_slot-Holds}
use stm32_vibe.SlotFlashL1
use stm32_vibe.SlotFlashL1.Erase.{write-erase_pages}

abbrev pub five : List ℕ
five = 1 ∷ 2 ∷ 3 ∷ 4 ∷ 250 ∷ []

abbrev pub slots : Slots
slots = record { slot_a = []; slot_b = replicate (app_slot_size stm32f446) 255; answers = [] }

-- Programming takes ones away.
abbrev pub clear_bits : ℕ → ℕ → ℕ
clear_bits old v = bit_and v old

pub clear_bits_fresh : (v : ℕ) → v < 256 → clear_bits 255 v ≡ v
clear_bits_fresh v h = let e : bit_and v 255 ≡ v % 256 = bit_and-low 8 v in omega (arith, e, h)

abbrev filled : FlashResult × Slots
filled = boot_flash_write_slot clear_bits 1 64 five 5 slots

boot_flash_write_slot-Holds_example :
    (is_bad_write stm32f446 1 64 5 ≡ true → filled ≡ (invalid_argument, slots))
    × (other 1 filled.1 ≡ other 1 slots)
    × (filled.0 ≡ ok → Holds clear_bits 64 0 five 5 (contents 1 slots) (contents 1 filled.1))
boot_flash_write_slot-Holds_example =
    boot_flash_write_slot-Holds clear_bits 1 64 five 5 slots
      (length-replicate {A = ℕ} (app_slot_size stm32f446) 255)

abbrev wiped : FlashResult × Slots
wiped = boot_flash_erase_slot 255 1 576 slots

abbrev rewritten : FlashResult × Slots
rewritten = boot_flash_write_slot clear_bits 1 64 five 5 wiped.1

-- On the STM32L152 an erased byte is 0.
abbrev zeros : Slots
zeros = record { slot_a = []; slot_b = replicate (app_slot_size stm32l152) 0; answers = [] }

abbrev fill_zero : ℕ → ℕ → ℕ
fill_zero old v = bit_or v old

fills : (bound v : ℕ) → v ≤ bound → bit_or v 0 ≡ v
fills zero v h = let none : v ≡ 0 = omega (arith, h) in rw none refl
fills (suc bound) v h = ground (arith, bit_or_step v 0, fills bound (v / 2))

fill_zero_fresh : (v : ℕ) → v < 256 → fill_zero 0 v ≡ v
fill_zero_fresh v h = fills v v (omega arith)

abbrev erased_pages : FlashResult × Slots
erased_pages = SlotFlashL1.boot_flash_erase_slot 0 1 576 zeros

abbrev written_pages : FlashResult × Slots
written_pages = SlotFlashL1.boot_flash_write_slot fill_zero 1 64 five 5 erased_pages.1

erased_pages_ok : erased_pages.0 ≡ ok
unfolding SlotFlashL1.boot_flash_erase_slot SlotFlashL1.erase_pages SlotFlashL1.erase_page
    SlotFlashL1.unlock_flash wait_ready take_answer unlock_flash try_unlock
erased_pages_ok = refl

written_pages_ok : written_pages.0 ≡ ok
unfolding SlotFlashL1.boot_flash_erase_slot SlotFlashL1.erase_pages SlotFlashL1.erase_page
    SlotFlashL1.unlock_flash SlotFlashL1.boot_flash_write_slot SlotFlashL1.write_words wait_ready
    take_answer unlock_flash try_unlock is_bad_write
written_pages_ok = refl

write-erase_pages_example :
    let byte = get_or (contents 1 written_pages.1) 68 0 in
    (68 < 64 → 68 < SlotFlashL1.whole_pages 576 → byte ≡ 0)
    × (64 ≤ 68 → 68 < 64 + 5 → 64 + 5 ≤ 576 → byte ≡ get_or five (68 - 64) 0)
    × (64 + whole_words 5 ≤ 68 → 68 < SlotFlashL1.whole_pages 576 → byte ≡ 0)
    × (64 + whole_words 5 ≤ 68
        → SlotFlashL1.whole_pages 576 ≤ 68
        → byte ≡ get_or (contents 1 zeros) 68 0)
write-erase_pages_example =
    write-erase_pages 0 fill_zero 1 576 64 five 5 zeros fill_zero_fresh (ground arith)
      (length-replicate {A = ℕ} (app_slot_size stm32l152) 0) erased_pages_ok written_pages_ok 68
