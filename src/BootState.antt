-- ===== src/BootState.antt =====
-- The persistent boot-state record (shared/boot/boot_state.h, shared/boot/boot_state.c).
-- A record is read from flash, so its fields are any words. A function that updates `*state`
-- returns the new record.
pub mod Crc
pub mod Valid
pub mod Select
use stm32_vibe.Base.{
  ℕ, ◌+◌, ◌/◌, ◌%◌, ◌==◌, ◌!=◌, ltb, leb, if◌then◌else◌, bit_xor, uint32_max, u32, u32_bytes, Bool,
  true, false, not, ◌&&◌, ◌||◌, List, [], ◌∷◌, ◌++◌, get_or, set, replicate, Option, none, some,
}
use stm32_vibe.Crc.{crc32_masked}

abbrev pub boot_state_magic : ℕ
boot_state_magic = 0x41545342

abbrev pub boot_state_version : ℕ
boot_state_version = 1

-- `sizeof(boot_state_record_t)`: twenty words.
abbrev pub boot_state_record_size : ℕ
boot_state_record_size = 80

abbrev pub boot_slot_a : ℕ
boot_slot_a = 0

abbrev pub boot_slot_b : ℕ
boot_slot_b = 1

abbrev pub no_slot : ℕ
no_slot = 0xFFFFFFFF

abbrev pub max_pending_attempts : ℕ
max_pending_attempts = 3

abbrev pub pending_version_word : ℕ
pending_version_word = 0

abbrev pub pending_crc32_word : ℕ
pending_crc32_word = 1

abbrev pub slot_status_empty : ℕ
slot_status_empty = 0

abbrev pub slot_status_valid : ℕ
slot_status_valid = 1

abbrev pub slot_status_pending : ℕ
slot_status_pending = 2

abbrev pub slot_status_confirmed : ℕ
slot_status_confirmed = 3

abbrev pub slot_status_bad : ℕ
slot_status_bad = 4

-- `boot_state_record_t`.
pub record BootState : Type 0 where
  pub magic : ℕ
  pub format_version : ℕ
  pub record_size : ℕ
  pub generation : ℕ
  pub active_slot : ℕ
  pub pending_slot : ℕ
  pub pending_attempts : ℕ
  pub slot_a_status : ℕ
  pub slot_b_status : ℕ
  pub confirmed_version : ℕ
  pub confirmed_image_crc32 : ℕ
  pub record_crc32 : ℕ
  pub reserved : List ℕ

-- `boot_state_status_t`.
pub data BootStateStatus : Type 0 where
  valid bad_magic bad_version bad_size bad_slot bad_crc : BootStateStatus

unfoldable pub words_bytes : List ℕ → List ℕ
words_bytes [] = []
words_bytes (w ∷ ws) = u32_bytes w ++ words_bytes ws

-- The record as it lies in memory.
unfoldable pub record_bytes : BootState → List ℕ
unfolding words_bytes
record_bytes s = words_bytes (
    s.magic ∷ s.format_version ∷ s.record_size ∷ s.generation ∷ s.active_slot ∷ s.pending_slot
    ∷ s.pending_attempts ∷ s.slot_a_status ∷ s.slot_b_status ∷ s.confirmed_version
    ∷ s.confirmed_image_crc32 ∷ s.record_crc32 ∷ s.reserved)

-- `record_crc32` lies at the bytes from 44 on below 48.
unfoldable pub boot_state_crc32 : BootState → ℕ
unfolding record_bytes crc32_masked
boot_state_crc32 s =
    bit_xor (crc32_masked 44 48 0 uint32_max (record_bytes s) boot_state_record_size) uint32_max

unfoldable pub boot_state_update_crc : BootState → BootState
boot_state_update_crc s =
    let cleared = record s { record_crc32 = 0 } in
    record cleared { record_crc32 = boot_state_crc32 cleared }

abbrev pub slot_is_valid : ℕ → Bool
slot_is_valid slot = (slot == boot_slot_a) || (slot == boot_slot_b)

abbrev optional_slot_is_valid : ℕ → Bool
optional_slot_is_valid slot = (slot == no_slot) || slot_is_valid slot

abbrev slot_status_is_valid : ℕ → Bool
slot_status_is_valid status =
    (status == slot_status_empty)
    || (status == slot_status_valid)
    || (status == slot_status_pending)
    || (status == slot_status_confirmed)
    || (status == slot_status_bad)

abbrev pub default_fields : BootState
default_fields = record {
  magic = boot_state_magic;
  format_version = boot_state_version;
  record_size = boot_state_record_size;
  generation = 0;
  active_slot = boot_slot_a;
  pending_slot = no_slot;
  pending_attempts = 0;
  slot_a_status = slot_status_empty;
  slot_b_status = slot_status_empty;
  confirmed_version = 0;
  confirmed_image_crc32 = 0;
  record_crc32 = 0;
  reserved = replicate 8 0;
}

unfoldable pub boot_state_init_default : BootState
boot_state_init_default = boot_state_update_crc default_fields

unfoldable pub boot_state_validate : BootState → BootStateStatus
boot_state_validate s =
    if s.magic != boot_state_magic
    then bad_magic
    else if s.format_version != boot_state_version
    then bad_version
    else if s.record_size != boot_state_record_size
    then bad_size
    else if not (slot_is_valid s.active_slot)
        || not (optional_slot_is_valid s.pending_slot)
        || not (slot_status_is_valid s.slot_a_status)
        || not (slot_status_is_valid s.slot_b_status)
        || ltb max_pending_attempts s.pending_attempts
    then bad_slot
    else if s.record_crc32 != boot_state_crc32 s
    then bad_crc
    else valid

unfoldable pub is_valid : BootStateStatus → Bool
is_valid valid = true
is_valid _ = false

-- The result is `*selected`; `none` is the return value 0, which leaves it alone.
unfoldable pub boot_state_select_latest : BootState → BootState → Option BootState
unfolding is_valid
boot_state_select_latest first second =
    let first_valid = is_valid (boot_state_validate first) in
    let second_valid = is_valid (boot_state_validate second) in
    if not first_valid && not second_valid
    then none
    else if first_valid && (not second_valid || leb second.generation first.generation)
    then some first
    else some second

unfoldable pub boot_state_status_for_slot : BootState → ℕ → ℕ
boot_state_status_for_slot s slot =
    if slot == boot_slot_a
    then s.slot_a_status
    else if slot == boot_slot_b
    then s.slot_b_status
    else slot_status_bad

-- The part of `boot_state_confirm_pending` after the slot statuses are set.
unfoldable pub commit_pending : BootState → ℕ → BootState
commit_pending s pending_slot =
    let s1 = record s {
      active_slot = pending_slot;
      confirmed_version = get_or s.reserved pending_version_word 0;
      confirmed_image_crc32 = get_or s.reserved pending_crc32_word 0;
      reserved = set (set s.reserved pending_version_word 0) pending_crc32_word 0;
      pending_slot = no_slot;
      pending_attempts = 0;
      generation = u32 (s.generation + 1);
    } in
    boot_state_update_crc s1

unfoldable pub boot_state_confirm_pending : BootState → Bool × BootState
boot_state_confirm_pending s =
    if s.pending_slot == no_slot
    then (false, s)
    else if s.pending_slot == boot_slot_a
    then (
      true,
      commit_pending
          (record s { slot_a_status = slot_status_confirmed; slot_b_status = slot_status_valid })
          s.pending_slot,
    )
    else if s.pending_slot == boot_slot_b
    then (
      true,
      commit_pending
          (record s { slot_a_status = slot_status_valid; slot_b_status = slot_status_confirmed })
          s.pending_slot,
    )
    else (false, s)
