-- ===== src/BootPolicy.antt =====
-- Which slot is booted and which is updated (bootloader/src/boot_policy.c). A function that updates
-- `*state` returns the new record, beside its result if it has one.
pub mod Valid
pub mod Attempts
pub mod Target
pub mod Confirm
use stm32_vibe.Base.{
  ℕ, ◌+◌, ◌==◌, ◌!=◌, ltb, leb, if◌then◌else◌, u32, set, Bool, true, false, ◌&&◌, ◌||◌,
}
use stm32_vibe.Layout.{
  Board, app_slot_a_start_addr, app_slot_b_start_addr, app_slot_a_end_addr, app_slot_b_end_addr,
}
use stm32_vibe.BootState.{
  BootState, boot_slot_a, boot_slot_b, no_slot, max_pending_attempts, slot_status_valid,
  slot_status_pending, slot_status_confirmed, slot_status_bad, pending_version_word,
  pending_crc32_word, boot_state_update_crc, boot_state_status_for_slot, slot_is_valid,
}

-- `boot_candidate_t`; the flag is 0 or 1 in the source.
pub record BootCandidate : Type 0 where
  pub slot : ℕ
  pub image_base : ℕ
  pub image_end : ℕ
  pub boot_pending : Bool

abbrev pub slot_base : Board → ℕ → ℕ
slot_base b slot = if slot == boot_slot_b then app_slot_b_start_addr b else app_slot_a_start_addr b

abbrev pub slot_end : Board → ℕ → ℕ
slot_end b slot = if slot == boot_slot_b then app_slot_b_end_addr b else app_slot_a_end_addr b

unfoldable pub set_status_for_slot : BootState → ℕ → ℕ → BootState
set_status_for_slot s slot status =
    if slot == boot_slot_a
    then record s { slot_a_status = status }
    else if slot == boot_slot_b
    then record s { slot_b_status = status }
    else s

abbrev pub slot_status_is_runnable : ℕ → Bool
slot_status_is_runnable status = (status == slot_status_valid) || (status == slot_status_confirmed)

unfoldable pub boot_policy_mark_pending_bad : BootState → BootState
boot_policy_mark_pending_bad s =
    if s.pending_slot != no_slot
    then (let s1 = set_status_for_slot s s.pending_slot slot_status_bad in
        boot_state_update_crc (record s1 {
          pending_slot = no_slot;
          pending_attempts = 0;
          generation = u32 (s1.generation + 1);
        }))
    else s

-- The first `if` of `boot_policy_select_candidate`: a pending image out of attempts is given up.
unfoldable pub drop_exhausted : BootState → BootState
drop_exhausted s =
    if s.pending_slot != no_slot
      && leb max_pending_attempts s.pending_attempts
      && (boot_state_status_for_slot s s.pending_slot == slot_status_pending)
    then boot_policy_mark_pending_bad s
    else s

-- The test of the second `if`: the pending image has an attempt left.
unfoldable pub has_attempt : BootState → Bool
has_attempt s =
    s.pending_slot != no_slot
    && ltb s.pending_attempts max_pending_attempts
    && (boot_state_status_for_slot s s.pending_slot == slot_status_pending)

unfoldable pub count_attempt : BootState → BootState
count_attempt s = boot_state_update_crc (record s {
  pending_attempts = u32 (s.pending_attempts + 1);
  generation = u32 (s.generation + 1);
})

abbrev pub candidate_for : Board → ℕ → Bool → BootCandidate
candidate_for b slot boot_pending = record {
  slot = slot;
  image_base = slot_base b slot;
  image_end = slot_end b slot;
  boot_pending = boot_pending;
}

-- The record is read for the active slot before the first `if`, which does not change it.
unfoldable pub boot_policy_select_candidate : Board → BootState → BootCandidate × BootState
boot_policy_select_candidate b s =
    let active = s.active_slot in
    let s1 = drop_exhausted s in
    if has_attempt s1
    then (candidate_for b s1.pending_slot true, count_attempt s1)
    else (candidate_for b active false, s1)

abbrev pub other_slot : ℕ → ℕ
other_slot running_slot = if running_slot == boot_slot_b then boot_slot_a else boot_slot_b

unfoldable pub boot_policy_inactive_slot : BootState → ℕ
boot_policy_inactive_slot s =
    if slot_is_valid s.pending_slot
    then other_slot s.pending_slot
    else if slot_status_is_runnable (boot_state_status_for_slot s s.active_slot)
    then other_slot s.active_slot
    else s.active_slot

unfoldable pub boot_policy_mark_slot_pending : BootState → ℕ → ℕ → ℕ → BootState
boot_policy_mark_slot_pending s slot version image_crc32 =
    if slot != boot_slot_a && slot != boot_slot_b
    then s
    else (let s1 = record s { pending_slot = slot; pending_attempts = 0 } in
        let s2 = set_status_for_slot s1 slot slot_status_pending in
        boot_state_update_crc (record s2 {
          reserved =
              set (set s2.reserved pending_version_word version) pending_crc32_word image_crc32;
          generation = u32 (s2.generation + 1);
        }))
