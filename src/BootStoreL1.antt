-- ===== src/BootStoreL1.antt =====
-- The two copies of the boot-state record in the flash of the STM32L152
-- (shared/hal_impl/stm32l1/boot_state_store.c), with the events of `BootStore`. The driver takes two
-- locks, erases a page, and waits before every word as well as after it. What a word of an erased page
-- reads is a parameter.
pub mod Atomic
use stm32_vibe.Base.{
  ℕ, ◌+◌, ◌==◌, if◌then◌else◌, bit_and, List, [], ◌∷◌, set, replicate, Option, none, some, get_or,
  u32_bytes, u32_of_bytes,
}
use stm32_vibe.BootState.{BootState, boot_state_select_latest, boot_state_init_default}
use stm32_vibe.BootStore.{Event, Copies, Report, written, state_words, state_of_words, wait_ready}

-- `word` of `write_record`, from the four bytes that hold the word `w` of the record.
unfoldable pub word_of_bytes : ℕ → ℕ
word_of_bytes w =
    let bytes = u32_bytes w in
    u32_of_bytes (get_or bytes 0 0) (get_or bytes 1 0) (get_or bytes 2 0) (get_or bytes 3 0)

-- The loop of `write_record` from word `index` on.
unfoldable pub program_words : List ℕ → ℕ → List ℕ → List Event → Report × List ℕ
unfolding wait_ready
program_words [] index copy events = (written, copy)
program_words (w ∷ ws) index copy events = wait_ready events copy λ ready.
    let programmed = set copy index (word_of_bytes w) in
    wait_ready ready programmed (λ rest. program_words ws (index + 1) programmed rest)

module _ (blank : ℕ) where
  -- `erase_page`, and what is done after it.
  unfoldable pub erase_page :
      List ℕ → List Event → (List ℕ → List Event → Report × List ℕ) → Report × List ℕ
  unfolding wait_ready
  erase_page copy events next = wait_ready events copy λ ready.
      let erased_page = replicate 20 blank in
      wait_ready ready erased_page (λ rest. next erased_page rest)

  unfoldable pub write_record : List ℕ → BootState → List Event → Report × List ℕ
  unfolding wait_ready program_words erase_page
  write_record copy s events = wait_ready events copy λ registers.
      wait_ready registers copy
        λ program. erase_page copy program λ page rest. program_words (state_words s) 0 page rest

  unfoldable pub boot_state_store_save_next : Copies → BootState → List Event → Report × Copies
  boot_state_store_save_next c s events =
      if bit_and s.generation 1 == 0
      then (let (report, copy) = write_record c.copy_a s events in
          (report, record c { copy_a = copy }))
      else (let (report, copy) = write_record c.copy_b s events in
          (report, record c { copy_b = copy }))

unfoldable pub boot_state_store_load : Copies → BootState
boot_state_store_load c =
    elim (boot_state_select_latest (state_of_words c.copy_a) (state_of_words c.copy_b)) [
      | some selected ↦ selected
      | none ↦ boot_state_init_default
    ]
