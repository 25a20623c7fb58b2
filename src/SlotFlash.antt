-- ===== src/SlotFlash.antt =====
-- The driver of the application slots (bootloader/src/boot_flash_stm32f4.c). The flash controller is not
-- source code: what it answers is a list, one entry for each time that the driver unlocks it or waits for
-- it, and what a byte of flash holds after it is programmed is a parameter, as is the byte of an erased
-- slot. A wait for a controller that stays busy is not modelled.
pub mod Store
pub mod Write
pub mod Erase
use stm32_vibe.Base.{
  ℕ, zero, suc, ◌+◌, ◌-◌, ◌%◌, ◌==◌, ◌!=◌, ltb, if◌then◌else◌, bit_and, Bool, true, false, not,
  ◌||◌, List, [], ◌∷◌, get_or, set, replicate,
}
use stm32_vibe.Layout.{Board, stm32f446, app_slot_size}
use stm32_vibe.Protocol.{copy_bytes}
use stm32_vibe.BootState.{slot_is_valid}
use stm32_vibe.Storage.{FlashResult, ok, invalid_argument, error}

-- An error leaves some bytes in the slot that is worked on.
pub data Answer : Type 0 where
  done : Answer
  failed : List ℕ → Answer

-- The bytes of the slots, and the answers to come. The end of the list is a controller without errors.
pub record Slots : Type 0 where
  pub slot_a : List ℕ
  pub slot_b : List ℕ
  pub answers : List Answer

-- `slot_base`: the bytes from there on.
abbrev pub contents : ℕ → Slots → List ℕ
contents slot s = if slot == 0 then s.slot_a else s.slot_b

abbrev pub put : ℕ → List ℕ → Slots → Slots
put slot bytes s = if slot == 0 then record s { slot_a = bytes } else record s { slot_b = bytes }

abbrev pub is_done : FlashResult → Bool
is_done ok = true
is_done _ = false

-- `wait_ready`, by the answers.
unfoldable pub take_answer : ℕ → Slots → List Answer → FlashResult × Slots
take_answer slot s [] = (ok, s)
take_answer slot s (done ∷ rest) = (ok, record s { answers = rest })
take_answer slot s (failed left ∷ rest) = (error, put slot left (record s { answers = rest }))

unfoldable pub wait_ready : ℕ → Slots → FlashResult × Slots
wait_ready slot s = take_answer slot s s.answers

-- The unlocking changes no byte.
unfoldable pub try_unlock : Slots → List Answer → FlashResult × Slots
try_unlock s [] = (ok, s)
try_unlock s (done ∷ rest) = (ok, record s { answers = rest })
try_unlock s (failed left ∷ rest) = (error, record s { answers = rest })

unfoldable pub unlock_flash : Slots → FlashResult × Slots
unlock_flash s = try_unlock s s.answers

-- A word is its four bytes, the lowest first: all ones, with the next bytes of `source` put in.
unfoldable pub word_at : List ℕ → ℕ → ℕ → List ℕ
word_at source len index =
    let remaining = len - index in
    let chunk = if ltb remaining 4 then remaining else 4 in
    copy_bytes chunk (replicate 4 255) 0 source index

-- The tests of `boot_flash_write_slot`.
unfoldable pub is_bad_write : Board → ℕ → ℕ → ℕ → Bool
is_bad_write b slot offset len =
    not (slot_is_valid slot)
    || ltb (app_slot_size b) offset
    || ltb (app_slot_size b - offset) len
    || (bit_and offset 3 != 0)

module _ (blank : ℕ) where
  unfoldable pub boot_flash_erase_slot : ℕ → ℕ → Slots → FlashResult × Slots
  boot_flash_erase_slot slot image_size s =
      let (unlocked, s1) = unlock_flash s in
      let (ready, s2) = wait_ready slot s1 in
      let (result, s3) =
        wait_ready slot (put slot (replicate (app_slot_size stm32f446) blank) s2) in
      if not (slot_is_valid slot) || (image_size == 0) || ltb (app_slot_size stm32f446) image_size
      then (invalid_argument, s)
      else if not (is_done unlocked)
      then (error, s1)
      else if not (is_done ready)
      then (error, s2)
      else (result, s3)

module _ (program : ℕ → ℕ → ℕ) where
  -- The write of a word to its address.
  unfoldable pub program_word : List ℕ → ℕ → List ℕ → List ℕ
  program_word bytes at [] = bytes
  program_word bytes at (v ∷ word) =
      program_word (set bytes at (program (get_or bytes at 0) v)) (at + 1) word

  -- The loop over the words from `index` on, by the rounds left.
  unfoldable pub write_words : ℕ → ℕ → ℕ → ℕ → List ℕ → ℕ → Slots → FlashResult × Slots
  write_words zero slot offset index source len s = (ok, s)
  write_words (suc n) slot offset index source len s =
      let written = program_word (contents slot s) (offset + index) (word_at source len index) in
      let (result, s') = wait_ready slot (put slot written s) in
      let rest = write_words n slot offset (index + 4) source len s' in
      if not (ltb index len) then (ok, s) else if not (is_done result) then (error, s') else rest

  unfoldable pub boot_flash_write_slot : ℕ → ℕ → List ℕ → ℕ → Slots → FlashResult × Slots
  boot_flash_write_slot slot offset source len s =
      let (unlocked, s1) = unlock_flash s in
      let out = write_words len slot offset 0 source len s1 in
      if is_bad_write stm32f446 slot offset len
      then (invalid_argument, s)
      else if not (is_done unlocked)
      then (error, s1)
      else out
