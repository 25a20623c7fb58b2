-- ===== src/BootPolicy/Target.antt =====
-- Where an update may be written, once a reset has selected its candidate.
use stm32_vibe.BootState.{valid, boot_state_validate}
use stm32_vibe.BootState.Valid.{confirm_pending-valid}
use stm32_vibe.BootPolicy.Valid.{
  mark_pending_bad-valid, mark_slot_pending-valid, select_candidate-valid,
}
use stm32_vibe.Base.{ℕ, ◌≤◌, ◌≡◌, ◌≢◌, ◌⊎◌, true, false, arith}
use stm32_vibe.Layout.{Board}
use stm32_vibe.BootState.{
  BootState, boot_state_update_crc, boot_state_status_for_slot, no_slot, boot_state_confirm_pending,
  commit_pending, boot_state_init_default,
}
use stm32_vibe.BootPolicy.{
  boot_policy_select_candidate, boot_policy_mark_pending_bad, boot_policy_mark_slot_pending,
  drop_exhausted, has_attempt, count_attempt, set_status_for_slot, boot_policy_inactive_slot,
}

-- A slot that is named as pending has the status `pending`, and at most three attempts are counted.
pub record IsConsistent (s : BootState) : Type 0 where
  pub active_ok : s.active_slot ≤ 1
  pub attempts_ok : s.pending_attempts ≤ 3
  pub pending_ok :
      (s.pending_slot ≡ no_slot)
      ⊎ ((s.pending_slot ≤ 1) × (boot_state_status_for_slot s s.pending_slot ≡ 2))

-- The calls that change the record, in any order.
pub data Step : BootState → BootState → Type 0 where
  select : (b : Board) (s : BootState) → Step s (boot_policy_select_candidate b s).1
  give_up : (s : BootState) → Step s (boot_policy_mark_pending_bad s)
  stage :
      (s : BootState) (slot version crc : ℕ)
      → Step s (boot_policy_mark_slot_pending s slot version crc)
  confirm : (s : BootState) → Step s (boot_state_confirm_pending s).1

pub data Reach : BootState → Type 0 where
  start : Reach boot_state_init_default
  next : {s t : BootState} → Reach s → Step s t → Reach t

init-IsConsistent : IsConsistent boot_state_init_default
unfolding boot_state_init_default boot_state_update_crc
init-IsConsistent = ground arith

give_up-IsConsistent :
    (s : BootState) → IsConsistent s → IsConsistent (boot_policy_mark_pending_bad s)
unfolding boot_policy_mark_pending_bad set_status_for_slot boot_state_update_crc
    boot_state_status_for_slot
give_up-IsConsistent s c = ground arith

stage-IsConsistent :
    (s : BootState) (slot version crc : ℕ)
    → IsConsistent s
    → IsConsistent (boot_policy_mark_slot_pending s slot version crc)
unfolding boot_policy_mark_slot_pending set_status_for_slot boot_state_update_crc
    boot_state_status_for_slot
stage-IsConsistent s slot version crc c = ground arith

confirm-IsConsistent :
    (s : BootState) → IsConsistent s → IsConsistent (boot_state_confirm_pending s).1
unfolding boot_state_confirm_pending commit_pending boot_state_update_crc boot_state_status_for_slot
confirm-IsConsistent s c = ground arith

select-IsConsistent :
    (b : Board) (s : BootState) → IsConsistent s → IsConsistent (boot_policy_select_candidate b s).1
unfolding boot_policy_select_candidate drop_exhausted has_attempt count_attempt
    boot_state_update_crc boot_state_status_for_slot
select-IsConsistent b s c = ground (arith, give_up-IsConsistent s c)

Step-IsConsistent : {s t : BootState} → Step s t → IsConsistent s → IsConsistent t
Step-IsConsistent (select b s) c = select-IsConsistent b s c
Step-IsConsistent (give_up s) c = give_up-IsConsistent s c
Step-IsConsistent (stage s slot version crc) c = stage-IsConsistent s slot version crc c
Step-IsConsistent (confirm s) c = confirm-IsConsistent s c

-- Every record that the boot policy can produce from the default one is consistent.
pub Reach-IsConsistent : {s : BootState} → Reach s → IsConsistent s
Reach-IsConsistent start = init-IsConsistent
Reach-IsConsistent (next r st) = Step-IsConsistent st (Reach-IsConsistent r)

abbrev pub IsRunnable : ℕ → Type 0
IsRunnable status = (status ≡ 1) ⊎ (status ≡ 3)

inactive_of_consistent :
    (b : Board) (s : BootState)
    → IsConsistent s
    → let (candidate, s') = boot_policy_select_candidate b s in
      (boot_policy_inactive_slot s' ≡ candidate.slot)
      → (candidate.boot_pending ≡ false)
        × ¬ IsRunnable (boot_state_status_for_slot s' candidate.slot)
unfolding boot_policy_select_candidate drop_exhausted has_attempt count_attempt
    boot_policy_mark_pending_bad set_status_for_slot boot_state_update_crc
    boot_state_status_for_slot boot_policy_inactive_slot
inactive_of_consistent b s c e = ground arith

-- When a selection on a reachable record chooses a slot that is on trial, or that has a runnable status in
-- the record that the selection leaves, the target of an update, computed on the record that the
-- selection leaves, is not that slot. This is not said of the target on the record before the selection.
pub inactive_slot-ne-candidate :
    (b : Board) {s : BootState}
    → Reach s
    → ((boot_policy_select_candidate b s).0.boot_pending ≡ true)
      ⊎ IsRunnable (
          boot_state_status_for_slot
            (boot_policy_select_candidate b s).1
            (boot_policy_select_candidate b s).0.slot)
    → boot_policy_inactive_slot (boot_policy_select_candidate b s).1
      ≢ (boot_policy_select_candidate b s).0.slot
inactive_slot-ne-candidate b {s} r h e =
    let only = inactive_of_consistent b s (Reach-IsConsistent r) e in ground arith

-- Every operation of the boot policy turns an accepted record into an accepted record: the selection
-- of a candidate, giving up the pending image, staging an update, and confirming one.
pub Step-valid :
    {s t : BootState} → Step s t → boot_state_validate s ≡ valid → boot_state_validate t ≡ valid
Step-valid (select b s) h = select_candidate-valid b s h
Step-valid (give_up s) h = mark_pending_bad-valid s h
Step-valid (stage s slot version crc) h = mark_slot_pending-valid s slot version crc h
Step-valid (confirm s) h = confirm_pending-valid s h
