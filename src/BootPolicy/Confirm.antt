-- ===== src/BootPolicy/Confirm.antt =====
-- Staging an image and confirming it: what the record remembers of the image in between.
use stm32_vibe.Layout.{Board}
use stm32_vibe.Base.{
  ℕ, zero, suc, ◌+◌, ◌≤◌, ◌<◌, ◌≡◌, subst, true, set, get_or, length, length-set, get_or-set_self,
  get_or-set_ne, arith,
}
use stm32_vibe.BootState.{
  BootState, boot_state_update_crc, boot_state_status_for_slot, no_slot, boot_state_confirm_pending,
  commit_pending,
}
use stm32_vibe.BootPolicy.{
  boot_policy_mark_slot_pending, set_status_for_slot, boot_policy_inactive_slot, other_slot,
  boot_policy_select_candidate, drop_exhausted, has_attempt, count_attempt,
}

-- What a confirmed record says of the image in `slot`.
pub record IsConfirmed (s : BootState) (slot version crc : ℕ) : Type 0 where
  pub active : s.active_slot ≡ slot
  pub status : boot_state_status_for_slot s slot ≡ 3
  pub version_kept : s.confirmed_version ≡ version
  pub crc_kept : s.confirmed_image_crc32 ≡ crc
  pub settled : s.pending_slot ≡ no_slot
  pub next_target : boot_policy_inactive_slot s ≡ other_slot slot

-- `slot` is on trial after `attempts` starts, and the version and the checksum are remembered.
pub record IsStaged (s : BootState) (slot version crc attempts : ℕ) : Type 0 where
  pub slot_ok : slot ≤ 1
  pub pending : s.pending_slot ≡ slot
  pub counted : s.pending_attempts ≡ attempts
  pub on_trial : boot_state_status_for_slot s slot ≡ 2
  pub version_staged : get_or s.reserved 0 0 ≡ version
  pub crc_staged : get_or s.reserved 1 0 ≡ crc

mark_slot_pending-IsStaged :
    (s : BootState) (slot version crc : ℕ)
    → slot ≤ 1
    → 2 ≤ length s.reserved
    → IsStaged (boot_policy_mark_slot_pending s slot version crc) slot version crc 0
unfolding boot_policy_mark_slot_pending set_status_for_slot boot_state_update_crc
    boot_state_status_for_slot
mark_slot_pending-IsStaged s slot version crc h long =
    let staged = set s.reserved 0 version in
    ground (
      arith,
      IsStaged,
      length-set s.reserved 0 version,
      get_or-set_ne staged 1 0 crc 0,
      get_or-set_self s.reserved 0 version 0,
      get_or-set_self staged 1 crc 0,
    )

select_candidate-IsStaged :
    (b : Board) (s : BootState) (slot version crc attempts : ℕ)
    → IsStaged s slot version crc attempts
    → attempts < 3
    → IsStaged (boot_policy_select_candidate b s).1 slot version crc (attempts + 1)
unfolding boot_policy_select_candidate drop_exhausted has_attempt count_attempt
    boot_state_update_crc boot_state_status_for_slot
select_candidate-IsStaged b s slot version crc attempts v h = ground (arith, IsStaged, v)

-- The record after `n` selections.
abbrev pub tried : Board → ℕ → BootState → BootState
tried b zero s = s
tried b (suc n) s = tried b n (boot_policy_select_candidate b s).1

tried-IsStaged :
    (b : Board) (n : ℕ) (s : BootState) (slot version crc attempts : ℕ)
    → IsStaged s slot version crc attempts
    → attempts + n ≤ 3
    → IsStaged (tried b n s) slot version crc (attempts + n)
tried-IsStaged b zero s slot version crc attempts v h =
    subst (IsStaged s slot version crc) (omega arith) v
tried-IsStaged b (suc n) s slot version crc attempts v h =
    subst (IsStaged (tried b (suc n) s) slot version crc) (omega arith) (
      tried-IsStaged b n (boot_policy_select_candidate b s).1 slot version crc (attempts + 1)
        (select_candidate-IsStaged b s slot version crc attempts v (omega arith)) (omega arith))

confirm_pending-IsConfirmed :
    (s : BootState) (slot version crc attempts : ℕ)
    → IsStaged s slot version crc attempts
    → let (ok, s') = boot_state_confirm_pending s in (ok ≡ true) × IsConfirmed s' slot version crc
unfolding boot_state_confirm_pending commit_pending boot_state_update_crc boot_state_status_for_slot
    boot_policy_inactive_slot
confirm_pending-IsConfirmed s slot version crc attempts v = ground (arith, IsConfirmed, v)

-- Confirming a slot that was put on trial in a record with at least two reserved words, and selected
-- three times at most since then.
pub confirm_pending-tried :
    (b : Board) (n : ℕ) (s : BootState) (slot version crc : ℕ)
    → slot ≤ 1
    → 2 ≤ length s.reserved
    → n ≤ 3
    → let (ok, s') =
        boot_state_confirm_pending (tried b n (boot_policy_mark_slot_pending s slot version crc)) in
      (ok ≡ true) × IsConfirmed s' slot version crc
confirm_pending-tried b n s slot version crc h long few =
    let staged = mark_slot_pending-IsStaged s slot version crc h long in
    confirm_pending-IsConfirmed (tried b n (boot_policy_mark_slot_pending s slot version crc)) slot
      version crc (0 + n)
      (tried-IsStaged b n (boot_policy_mark_slot_pending s slot version crc) slot version crc 0
        staged (omega arith))
