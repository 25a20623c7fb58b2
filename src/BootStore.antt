-- ===== src/BootStore.antt =====
-- The two copies of the boot-state record in flash (shared/hal_impl/stm32f4/boot_state_store.c).
-- The flash controller is not source code: what its status register answers is a list of events, one
-- for each time the driver unlocks it or waits for it, and the power may go at any of them.
pub mod Write
pub mod Atomic
pub mod Save
use stm32_vibe.Base.{
  ℕ, ◌+◌, ◌%◌, ◌==◌, if◌then◌else◌, bit_and, uint32_max, Bool, true, false, List, [], ◌∷◌, get_or,
  set, drop, replicate, Option, none, some,
}
use stm32_vibe.BootState.{BootState, boot_state_select_latest, boot_state_init_default}

-- `cut words` is a loss of power that leaves `words` in the copy that was being written.
pub data Event : Type 0 where
  done error : Event
  cut : List ℕ → Event

-- The twenty words of each copy, at `BOOT_STATE_COPY_A_ADDR` and `BOOT_STATE_COPY_B_ADDR`.
pub record Copies : Type 0 where
  pub copy_a : List ℕ
  pub copy_b : List ℕ

-- What a write reports, and the copy that it leaves; `lost` if the power went.
pub data Report : Type 0 where
  written failed lost : Report

abbrev pub state_words : BootState → List ℕ
state_words s =
    s.magic ∷ s.format_version ∷ s.record_size ∷ s.generation ∷ s.active_slot ∷ s.pending_slot
    ∷ s.pending_attempts ∷ s.slot_a_status ∷ s.slot_b_status ∷ s.confirmed_version
    ∷ s.confirmed_image_crc32 ∷ s.record_crc32 ∷ s.reserved

-- A copy read through a `const boot_state_record_t *`.
unfoldable pub state_of_words : List ℕ → BootState
state_of_words ws = record {
  magic = get_or ws 0 uint32_max;
  format_version = get_or ws 1 uint32_max;
  record_size = get_or ws 2 uint32_max;
  generation = get_or ws 3 uint32_max;
  active_slot = get_or ws 4 uint32_max;
  pending_slot = get_or ws 5 uint32_max;
  pending_attempts = get_or ws 6 uint32_max;
  slot_a_status = get_or ws 7 uint32_max;
  slot_b_status = get_or ws 8 uint32_max;
  confirmed_version = get_or ws 9 uint32_max;
  confirmed_image_crc32 = get_or ws 10 uint32_max;
  record_crc32 = get_or ws 11 uint32_max;
  reserved = drop 12 ws;
}

abbrev pub erased : List ℕ
erased = replicate 20 uint32_max

-- An answer of the controller, and what is left of a copy that holds `copy`: go on with `next`, or
-- return 0, or lose the power. A driver that runs out of events has lost the power too.
unfoldable pub wait_ready : List Event → List ℕ → (List Event → Report × List ℕ) → Report × List ℕ
wait_ready [] copy next = (lost, copy)
wait_ready (done ∷ events) copy next = next events
wait_ready (error ∷ events) copy next = (failed, copy)
wait_ready (cut left ∷ events) copy next = (lost, left)

-- The loop of `write_record` from word `index` on.
unfoldable pub program_words : List ℕ → ℕ → List ℕ → List Event → Report × List ℕ
unfolding wait_ready
program_words [] index copy events = (written, copy)
program_words (w ∷ ws) index copy events =
    let programmed = set copy index w in
    wait_ready events programmed (λ rest. program_words ws (index + 1) programmed rest)

-- `write_record`: unlock, wait, start the erase, wait, then the words.
unfoldable pub write_record : List ℕ → BootState → List Event → Report × List ℕ
unfolding wait_ready program_words
write_record copy s events = wait_ready events copy λ unlocked.
    wait_ready unlocked copy
      λ ready. wait_ready ready erased λ clear. program_words (state_words s) 0 erased clear

unfoldable pub boot_state_store_load : Copies → BootState
boot_state_store_load c =
    elim (boot_state_select_latest (state_of_words c.copy_a) (state_of_words c.copy_b)) [
      | some selected ↦ selected
      | none ↦ boot_state_init_default
    ]

-- The copy is chosen by the lowest bit of the generation.
unfoldable pub boot_state_store_save_next : Copies → BootState → List Event → Report × Copies
boot_state_store_save_next c s events =
    if bit_and s.generation 1 == 0
    then (let (report, copy) = write_record c.copy_a s events in
        (report, record c { copy_a = copy }))
    else (let (report, copy) = write_record c.copy_b s events in
        (report, record c { copy_b = copy }))
