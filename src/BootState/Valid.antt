-- ===== src/BootState/Valid.antt =====
-- Which records `boot_state_validate` accepts, and that the functions of boot_state.c keep them
-- accepted.
use stm32_vibe.Base.{ℕ, ◌≤◌, ◌≡◌, sym, ◌⊎◌, arith}
use stm32_vibe.BootState.{
  BootState, valid, boot_state_magic, boot_state_version, boot_state_record_size, boot_state_crc32,
  boot_state_update_crc, boot_state_validate, boot_state_init_default, boot_state_confirm_pending,
  commit_pending, no_slot, default_fields,
}
use stm32_vibe.BootState.Crc.{boot_state_crc32-set_record_crc32}

-- What the record must satisfy besides its checksum.
pub record IsWellFormed (s : BootState) : Type 0 where
  pub magic_ok : s.magic ≡ boot_state_magic
  pub version_ok : s.format_version ≡ boot_state_version
  pub size_ok : s.record_size ≡ boot_state_record_size
  pub active_ok : s.active_slot ≤ 1
  pub pending_ok : (s.pending_slot ≡ no_slot) ⊎ (s.pending_slot ≤ 1)
  pub slot_a_ok : s.slot_a_status ≤ 4
  pub slot_b_ok : s.slot_b_status ≤ 4
  pub attempts_ok : s.pending_attempts ≤ 3

pub valid-IsWellFormed : (s : BootState) → boot_state_validate s ≡ valid → IsWellFormed s
unfolding boot_state_validate
valid-IsWellFormed s h = ground arith

pub crc_of_valid :
    (s : BootState) → boot_state_validate s ≡ valid → s.record_crc32 ≡ boot_state_crc32 s
unfolding boot_state_validate
crc_of_valid s h = ground arith

pub valid_of_parts :
    (s : BootState)
    → IsWellFormed s
    → s.record_crc32 ≡ boot_state_crc32 s
    → boot_state_validate s ≡ valid
unfolding boot_state_validate
valid_of_parts s w h = ground arith

pub update_crc-sealed :
    (s : BootState)
    → (boot_state_update_crc s).record_crc32 ≡ boot_state_crc32 (boot_state_update_crc s)
unfolding boot_state_update_crc
update_crc-sealed s = sym (
    boot_state_crc32-set_record_crc32 (record s { record_crc32 = 0 })
      (boot_state_crc32 (record s { record_crc32 = 0 })))

-- A record with allowed fields is accepted once its checksum is refreshed.
pub boot_state_validate-update_crc :
    (s : BootState) → IsWellFormed s → boot_state_validate (boot_state_update_crc s) ≡ valid
boot_state_validate-update_crc s w =
    valid_of_parts (boot_state_update_crc s) (unfold boot_state_update_crc in keep)
      (update_crc-sealed s)
  where
    keep : IsWellFormed (boot_state_update_crc s)
    keep = unfold boot_state_update_crc in ground arith

init_default-valid : boot_state_validate boot_state_init_default ≡ valid
unfolding boot_state_init_default
init_default-valid = boot_state_validate-update_crc default_fields (ground arith)

commit_pending-valid :
    (s : BootState) (p : ℕ)
    → IsWellFormed s
    → p ≤ 1
    → boot_state_validate (commit_pending s p) ≡ valid
unfolding commit_pending
commit_pending-valid s p w h = boot_state_validate-update_crc _ (ground arith)

-- Confirming keeps an accepted record accepted.
pub confirm_pending-valid :
    (s : BootState)
    → boot_state_validate s ≡ valid
    → boot_state_validate (boot_state_confirm_pending s).1 ≡ valid
unfolding boot_state_confirm_pending
confirm_pending-valid s h = ground (
  arith,
  valid-IsWellFormed s h,
  commit_pending-valid (record s { slot_a_status = 3; slot_b_status = 1 }) s.pending_slot,
  commit_pending-valid (record s { slot_a_status = 1; slot_b_status = 3 }) s.pending_slot,
)
