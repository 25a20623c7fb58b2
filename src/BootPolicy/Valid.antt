-- ===== src/BootPolicy/Valid.antt =====
-- Every function of boot_policy.c that changes the record keeps it accepted by
-- `boot_state_validate`.
use stm32_vibe.Base.{ℕ, ◌+◌, ◌≤◌, ◌≡◌, true, u32, set, arith}
use stm32_vibe.Layout.{Board}
use stm32_vibe.BootState.{BootState, valid, boot_state_validate, no_slot}
use stm32_vibe.BootState.Valid.{IsWellFormed, valid-IsWellFormed, boot_state_validate-update_crc}
use stm32_vibe.BootPolicy.{
  boot_policy_select_candidate, boot_policy_mark_pending_bad, boot_policy_mark_slot_pending,
  drop_exhausted, has_attempt, count_attempt, set_status_for_slot,
}

set_status-IsWellFormed :
    (s : BootState) (slot status : ℕ)
    → status ≤ 4
    → IsWellFormed s
    → IsWellFormed (set_status_for_slot s slot status)
unfolding set_status_for_slot
set_status-IsWellFormed s slot status h w = ground arith

-- Giving up the pending image keeps the record accepted.
pub mark_pending_bad-valid :
    (s : BootState)
    → boot_state_validate s ≡ valid
    → boot_state_validate (boot_policy_mark_pending_bad s) ≡ valid
unfolding boot_policy_mark_pending_bad
mark_pending_bad-valid s h =
    let s1 = set_status_for_slot s s.pending_slot 4 in
    ground (
      arith,
      set_status-IsWellFormed s s.pending_slot 4,
      valid-IsWellFormed s h,
      boot_state_validate-update_crc (record s1 {
        pending_slot = no_slot;
        pending_attempts = 0;
        generation = u32 (s1.generation + 1);
      }),
    )

pub mark_slot_pending-valid :
    (s : BootState) (slot version crc : ℕ)
    → boot_state_validate s ≡ valid
    → boot_state_validate (boot_policy_mark_slot_pending s slot version crc) ≡ valid
unfolding boot_policy_mark_slot_pending
mark_slot_pending-valid s slot version crc h =
    let s1 = record s { pending_slot = slot; pending_attempts = 0 } in
    let s2 = set_status_for_slot s1 slot 2 in
    ground (
      arith,
      set_status-IsWellFormed s1 slot 2,
      valid-IsWellFormed s h,
      boot_state_validate-update_crc (record s2 {
        reserved = set (set s2.reserved 0 version) 1 crc;
        generation = u32 (s2.generation + 1);
      }),
    )

drop_exhausted-valid :
    (s : BootState) → boot_state_validate s ≡ valid → boot_state_validate (drop_exhausted s) ≡ valid
unfolding drop_exhausted
drop_exhausted-valid s h = ground (arith, mark_pending_bad-valid s)

count_attempt-valid :
    (s : BootState)
    → boot_state_validate s ≡ valid
    → has_attempt s ≡ true
    → boot_state_validate (count_attempt s) ≡ valid
unfolding count_attempt has_attempt
count_attempt-valid s h a = ground (
  arith,
  valid-IsWellFormed s h,
  boot_state_validate-update_crc (record s {
    pending_attempts = u32 (s.pending_attempts + 1);
    generation = u32 (s.generation + 1);
  }),
)

pub select_candidate-valid :
    (b : Board) (s : BootState)
    → boot_state_validate s ≡ valid
    → boot_state_validate (boot_policy_select_candidate b s).1 ≡ valid
unfolding boot_policy_select_candidate
select_candidate-valid b s h =
    ground (arith, drop_exhausted-valid s, count_attempt-valid (drop_exhausted s))
