-- ===== src/BootPolicy/Attempts.antt =====
-- A slot on trial: what a selection chooses, and what it counts.
use stm32_vibe.Base.{ℕ, ◌+◌, ◌≤◌, ◌<◌, ◌≡◌, true, false, arith}
use stm32_vibe.Layout.{Board}
use stm32_vibe.BootState.{BootState, boot_state_update_crc, boot_state_status_for_slot, no_slot}
use stm32_vibe.BootPolicy.{
  candidate_for, boot_policy_select_candidate, boot_policy_mark_pending_bad,
  boot_policy_mark_slot_pending, drop_exhausted, has_attempt, count_attempt, set_status_for_slot,
}

-- `slot` is on trial after `attempts` selections, with `active` to fall back to.
pub record IsTrial (s : BootState) (slot active attempts : ℕ) : Type 0 where
  pub slot_ok : slot ≤ 1
  pub pending : s.pending_slot ≡ slot
  pub counted : s.pending_attempts ≡ attempts
  pub on_trial : boot_state_status_for_slot s slot ≡ 2
  pub fallback : s.active_slot ≡ active

-- A trial with an attempt left chooses the pending slot and uses up the attempt.
pub select_candidate-IsTrial :
    (b : Board) (s : BootState) (slot active attempts : ℕ)
    → IsTrial s slot active attempts
    → attempts < 3
    → ((boot_policy_select_candidate b s).0 ≡ candidate_for b slot true)
      × IsTrial (boot_policy_select_candidate b s).1 slot active (attempts + 1)
unfolding boot_policy_select_candidate drop_exhausted has_attempt count_attempt
    boot_state_update_crc boot_state_status_for_slot
select_candidate-IsTrial b s slot active attempts t h = ground arith

-- A trial without an attempt left ends: the slot is marked bad and the active one is chosen.
pub select_candidate_exhausted :
    (b : Board) (s : BootState) (slot active : ℕ)
    → IsTrial s slot active 3
    → ((boot_policy_select_candidate b s).0 ≡ candidate_for b active false)
      × ((boot_policy_select_candidate b s).1.pending_slot ≡ no_slot)
      × ((boot_policy_select_candidate b s).1.active_slot ≡ active)
      × (boot_state_status_for_slot (boot_policy_select_candidate b s).1 slot ≡ 4)
unfolding boot_policy_select_candidate drop_exhausted has_attempt boot_policy_mark_pending_bad
    set_status_for_slot boot_state_update_crc boot_state_status_for_slot
select_candidate_exhausted b s slot active t = ground arith

-- With no slot pending the active slot is chosen and the record does not change.
pub select_candidate_settled :
    (b : Board) (s : BootState)
    → s.pending_slot ≡ no_slot
    → boot_policy_select_candidate b s ≡ (candidate_for b s.active_slot false, s)
unfolding boot_policy_select_candidate drop_exhausted has_attempt
select_candidate_settled b s e = ground arith

-- A slot that was just put on trial has all its attempts.
pub mark_slot_pending-IsTrial :
    (s : BootState) (slot version crc : ℕ)
    → slot ≤ 1
    → IsTrial (boot_policy_mark_slot_pending s slot version crc) slot s.active_slot 0
unfolding boot_policy_mark_slot_pending set_status_for_slot boot_state_update_crc
    boot_state_status_for_slot
mark_slot_pending-IsTrial s slot version crc h = ground arith
