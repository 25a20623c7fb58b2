-- ===== src/Session/Exhausted.antt =====
-- An update that is begun on a record whose trial has no attempt left.
use stm32_vibe.Base.{ℕ, ◌≤◌, ◌≡◌, ◌≢◌, false, arith}
use stm32_vibe.Layout.{Board}
use stm32_vibe.BootState.{BootState, boot_state_status_for_slot}
use stm32_vibe.BootPolicy.{candidate_for, boot_policy_select_candidate, boot_policy_inactive_slot}
use stm32_vibe.BootPolicy.Attempts.{IsTrial, select_candidate_exhausted}
use stm32_vibe.Protocol.{Packet, ok, pointee, read_u32_le}
use stm32_vibe.Session.{Session, boot_update_session_process, dispatch, handle_begin, cmd_begin}
use stm32_vibe.Storage.{Storage}

-- The target of an update is the slot to fall back to.
inactive_slot-IsTrial :
    (s : BootState) (slot active attempts : ℕ)
    → IsTrial s slot active attempts
    → active ≤ 1
    → slot ≢ active
    → boot_policy_inactive_slot s ≡ active
unfolding boot_policy_inactive_slot boot_state_status_for_slot
inactive_slot-IsTrial s slot active attempts t small other = ground (arith, t)

module _ (b : Board) (storage : Storage) where
  open storage use {Device, load, erase_slot}

  begin_lem :
      (session : Session) (packet : Packet) (d : Device) (target : ℕ)
      → boot_policy_inactive_slot (load d) ≡ target
      → packet.command ≡ cmd_begin
      → (boot_update_session_process b storage session packet d).0 ≡ ok
      → let out = boot_update_session_process b storage session packet d in
        (out.1.target_slot ≡ target)
        × (out.2 ≡ (erase_slot target (read_u32_le (pointee packet.payload) 0) d).1)
  unfolding boot_update_session_process dispatch handle_begin
  begin_lem session packet d target e c h = ground arith

  -- If the stored record has one of the two slots on trial after three starts, with the other slot
  -- active, a begin packet that is accepted erases the active slot and makes it the target, although
  -- the next selection gives the trial up and chooses the active slot.
  pub begin_erases_fallback :
      (session : Session) (packet : Packet) (d : Device) (slot active : ℕ)
      → IsTrial (load d) slot active 3
      → active ≤ 1
      → slot ≢ active
      → packet.command ≡ cmd_begin
      → (boot_update_session_process b storage session packet d).0 ≡ ok
      → let out = boot_update_session_process b storage session packet d in
        (out.1.target_slot ≡ active)
        × (out.2 ≡ (erase_slot active (read_u32_le (pointee packet.payload) 0) d).1)
        × ((boot_policy_select_candidate b (load d)).0 ≡ candidate_for b active false)
  begin_erases_fallback session packet d slot active t small other c h =
      let erased =
        begin_lem session packet d active
          (inactive_slot-IsTrial (load d) slot active 3 t small other) c h in
      (erased.0, erased.1, (select_candidate_exhausted b (load d) slot active t).0)
