-- ===== src/Tests/Drivers.antt =====
-- A block of five bytes, through the session and the drivers of the STM32F446.
use stm32_vibe.Base.{ℕ, ◌<◌, ◌≤◌, ◌≡◌, refl, true, [], ◌∷◌, get_or, length-replicate, arith}
use stm32_vibe.Layout.{stm32f446, app_slot_size}
use stm32_vibe.Protocol.{Packet, UpdateStatus, ok}
use stm32_vibe.Session.{Session, boot_update_session_init, handle_block}
use stm32_vibe.SlotFlash.{
  contents, take_answer, wait_ready, try_unlock, unlock_flash, is_bad_write, boot_flash_write_slot,
  write_words,
}
use stm32_vibe.SlotFlash.Store.{get_or-replicate}
use stm32_vibe.Drivers.{Flash, drivers}
use stm32_vibe.Drivers.Transfer.{start, block, IsTransferred, Taken-IsTransferred}
use stm32_vibe.Tests.Flash.{five, slots, clear_bits, clear_bits_fresh}
use stm32_vibe.Tests.Session.{packet_of}
use stm32_vibe.Tests.Store.{first_save}

abbrev blank_flash : Flash
blank_flash = record { slots = slots; copies = first_save; saves = [] }

abbrev receiving : Session
receiving = record boot_update_session_init {
  session_active = true;
  session_id = 9;
  expected_image_size = 576;
}

abbrev five_block : Packet
five_block = packet_of 4 5 five

abbrev block_taken : UpdateStatus × Session × Flash
block_taken = handle_block stm32f446 (drivers 255 clear_bits) receiving five_block blank_flash

block_taken_ok : block_taken.0 ≡ ok
unfolding handle_block boot_flash_write_slot wait_ready take_answer unlock_flash try_unlock
    is_bad_write write_words
block_taken_ok = refl

still_erased : (j : ℕ) → 0 ≤ j → j < 576 → get_or (contents 1 slots) j 0 ≡ 255
still_erased j low high = get_or-replicate (app_slot_size stm32f446) 255 j (omega arith)

Taken-IsTransferred_example :
    IsTransferred (five_block ∷ []) block_taken.1 (contents 1 block_taken.2.slots)
Taken-IsTransferred_example =
    Taken-IsTransferred 255 clear_bits clear_bits_fresh refl
      (length-replicate {A = ℕ} (app_slot_size stm32f446) 255)
      (λ j lt. still_erased j (omega arith) lt)
      (block five_block start (ground arith) block_taken_ok)
