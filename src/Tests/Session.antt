-- ===== src/Tests/Session.antt =====
-- An update of slot B on a device in memory: begin, one block, end, validate, activate.
use stm32_vibe.BootPolicy.{
  boot_policy_inactive_slot, boot_policy_mark_slot_pending, boot_policy_select_candidate,
  candidate_for,
}
use stm32_vibe.BootState.{boot_state_status_for_slot, boot_state_crc32, record_bytes}
use stm32_vibe.Image.{
  app_image_validate, manifest_result, image_crc32, image_vectors_are_valid,
  app_vectors_are_valid_for_slot,
}
use stm32_vibe.Crc.{crc32_masked, crc32_update}
use stm32_vibe.Base.{
  ℕ, ◌≡◌, ◌≢◌, ◌⊎◌, inl, inr, refl, true, false, List, [], ◌++◌, some, u32_bytes, arith,
}
use stm32_vibe.Layout.{stm32f446}
use stm32_vibe.Protocol.{Packet, UpdateStatus, ok, flash_error, read_u32_le}
use stm32_vibe.Session.{
  Session, boot_update_session_init, boot_update_session_process, dispatch, handle_begin,
  handle_block, handle_end, handle_validate, handle_activate, image_is_good,
}
use stm32_vibe.Session.Exhausted.{begin_erases_fallback}
use stm32_vibe.Session.Safe.{Reach, start, next}
use stm32_vibe.Session.Activate.{HoldsImage, activate-HoldsImage, activate_after_failed_begin}
use stm32_vibe.Session.Transfer.{Extends, Repeats, handle_block_lem}
use stm32_vibe.Tests.Memory.{Memory, memory, running_a, image_b, image_b_crc32}
use stm32_vibe.BootState.{words_bytes, boot_state_init_default, boot_state_update_crc}

abbrev pub fresh : Memory
fresh = record { slot_a = []; slot_b = []; state = running_a; worn = false }

abbrev pub packet_of : ℕ → ℕ → List ℕ → Packet
packet_of command payload_len payload = record {
  command = command;
  flags = 0;
  payload_len = payload_len;
  session_id = 9;
  sequence = 0;
  payload = some payload;
}

abbrev process : Session → Packet → Memory → UpdateStatus × Session × Memory
process = boot_update_session_process stm32f446 memory

abbrev pub begin_packet : Packet
begin_packet = packet_of 3 8 (u32_bytes 576 ++ u32_bytes image_b_crc32)

abbrev begun : UpdateStatus × Session × Memory
begun = process boot_update_session_init begin_packet fresh

abbrev stored : UpdateStatus × Session × Memory
stored = process begun.1 (packet_of 4 576 image_b) begun.2

abbrev ended : UpdateStatus × Session × Memory
ended = process stored.1 (packet_of 5 0 []) stored.2

abbrev validated : UpdateStatus × Session × Memory
validated = process ended.1 (packet_of 6 0 []) ended.2

abbrev pub activate_packet : Packet
activate_packet = packet_of 7 0 []

begun_ok : begun.0 ≢ flash_error
unfolding boot_update_session_process dispatch handle_begin read_u32_le
begun_ok = ground arith

Reach-validated : Reach stm32f446 memory validated.1 validated.2
Reach-validated =
    next (packet_of 6 0 [])
      (next (packet_of 5 0 [])
        (next (packet_of 4 576 image_b) (next begin_packet (start fresh) (inr begun_ok))
          (inl (omega arith)))
        (inl (omega arith)))
      (inl (omega arith))

activate-HoldsImage_example :
    HoldsImage stm32f446 memory validated.1 validated.2
    × ((process validated.1 activate_packet validated.2).2
        ≡ record validated.2 { state = boot_policy_mark_slot_pending running_a 1 7 image_b_crc32 })
    × ((process validated.1 activate_packet validated.2).1.reset_requested ≡ true)
unfolding boot_update_session_process dispatch handle_begin handle_block handle_end handle_validate
    handle_activate image_is_good words_bytes read_u32_le boot_policy_inactive_slot
    boot_state_update_crc boot_state_status_for_slot boot_state_init_default app_image_validate
    manifest_result image_crc32 crc32_masked crc32_update image_vectors_are_valid
    app_vectors_are_valid_for_slot boot_state_crc32 record_bytes
activate-HoldsImage_example =
    activate-HoldsImage stm32f446 memory activate_packet Reach-validated refl refl

-- A session with a valid candidate in slot B, on a device whose flash no longer erases.
abbrev worn : Memory
worn = record validated.2 { worn = true }

activate_after_failed_begin_example :
    (process
      (process validated.1 begin_packet worn).1
      activate_packet
      (process validated.1 begin_packet worn).2).0
    ≡ ok
unfolding boot_update_session_process dispatch handle_begin handle_block handle_end handle_validate
    handle_activate image_is_good words_bytes read_u32_le boot_policy_inactive_slot
    boot_state_update_crc boot_state_status_for_slot boot_state_init_default app_image_validate
    manifest_result image_crc32 crc32_masked crc32_update image_vectors_are_valid
    app_vectors_are_valid_for_slot boot_state_crc32 record_bytes
activate_after_failed_begin_example =
    activate_after_failed_begin stm32f446 memory validated.1 begin_packet activate_packet worn refl
      refl refl refl refl refl refl

handle_block_lem_example :
    let session = begun.1 in
    let (status, session', d') =
      handle_block stm32f446 memory session (packet_of 4 576 image_b) begun.2 in
    ((status ≡ ok)
      × (Extends stm32f446 memory session (packet_of 4 576 image_b) begun.2 session' d'
          ⊎ Repeats stm32f446 memory session (packet_of 4 576 image_b) begun.2 session' d'))
    ⊎ ((status ≢ ok) × (session' ≡ session))
handle_block_lem_example =
    handle_block_lem stm32f446 memory begun.1 (packet_of 4 576 image_b) begun.2

-- Slot B is on trial without an attempt left; slot A is the confirmed one.
abbrev exhausted : Memory
exhausted = record fresh {
  state =
      boot_state_update_crc
        (record running_a { pending_slot = 1; pending_attempts = 3; slot_b_status = 2 });
}

begin_erases_fallback_example :
    ((process boot_update_session_init begin_packet exhausted).1.target_slot ≡ 0)
    × ((process boot_update_session_init begin_packet exhausted).2
        ≡ record exhausted { slot_a = [] })
    × ((boot_policy_select_candidate stm32f446 exhausted.state).0 ≡ candidate_for stm32f446 0 false)
unfolding boot_update_session_process dispatch handle_begin read_u32_le boot_state_update_crc
    boot_state_status_for_slot boot_state_init_default
begin_erases_fallback_example =
    begin_erases_fallback stm32f446 memory boot_update_session_init begin_packet exhausted 1 0
      (ground arith) (omega arith) (omega arith) refl refl
