-- ===== src/Session.antt =====
-- The update session of the bootloader (bootloader/src/update_session.c). A handler returns its
-- status with the session and the device that it leaves. A device that a `let` binds is the one after
-- a call that the source makes on one path only; the other paths return the device as it was.
pub mod Safe
pub mod Exhausted
pub mod Transfer
pub mod Activate
use stm32_vibe.Base.{
  ℕ, zero, suc, ◌+◌, ◌-◌, ◌==◌, ◌!=◌, ltb, if◌then◌else◌, Bool, true, false, not, ◌&&◌, ◌||◌, List,
  get_or,
}
use stm32_vibe.Layout.{
  Board, app_slot_size, app_slot_a_start_addr, app_slot_b_start_addr, app_slot_a_end_addr,
  app_slot_b_end_addr,
}
use stm32_vibe.BootState.{boot_slot_a, boot_slot_b, slot_is_valid}
use stm32_vibe.BootPolicy.{boot_policy_inactive_slot, boot_policy_mark_slot_pending}
use stm32_vibe.Protocol.{
  Packet, UpdateStatus, ok, invalid_argument, bad_length, bad_state, bad_sequence, flash_error,
  bad_image, pointee, read_u32_le,
}
use stm32_vibe.Image.{AppImageStatus, AppImageResult, app_image_validate, image_vectors_are_valid}
use stm32_vibe.Storage.{FlashResult, Storage}

abbrev pub cmd_discover : ℕ
cmd_discover = 1

abbrev pub cmd_status : ℕ
cmd_status = 2

abbrev pub cmd_begin : ℕ
cmd_begin = 3

abbrev pub cmd_block : ℕ
cmd_block = 4

abbrev pub cmd_end : ℕ
cmd_end = 5

abbrev pub cmd_validate : ℕ
cmd_validate = 6

abbrev pub cmd_activate : ℕ
cmd_activate = 7

abbrev pub cmd_abort : ℕ
cmd_abort = 8

abbrev pub cmd_ack : ℕ
cmd_ack = 10

abbrev pub cmd_enter_update : ℕ
cmd_enter_update = 11

-- `boot_update_session_t`; the four flags are 0 or 1 in the source.
pub record Session : Type 0 where
  pub session_id : ℕ
  pub expected_image_size : ℕ
  pub expected_image_crc32 : ℕ
  pub target_slot : ℕ
  pub candidate_version : ℕ
  pub candidate_crc32 : ℕ
  pub received_image_size : ℕ
  pub session_active : Bool
  pub transfer_complete : Bool
  pub candidate_valid : Bool
  pub reset_requested : Bool

abbrev pub boot_update_session_init : Session
boot_update_session_init = record {
  session_id = 0;
  expected_image_size = 0;
  expected_image_crc32 = 0;
  target_slot = boot_slot_b;
  candidate_version = 0;
  candidate_crc32 = 0;
  received_image_size = 0;
  session_active = false;
  transfer_complete = false;
  candidate_valid = false;
  reset_requested = false;
}

abbrev pub command_requires_active_session : ℕ → Bool
command_requires_active_session command =
    (command == cmd_block)
    || (command == cmd_end)
    || (command == cmd_validate)
    || (command == cmd_activate)
    || (command == cmd_abort)

-- The loop of `handle_block` that compares a repeated block with the flash, by the rounds left.
unfoldable pub bytes_match : ℕ → List ℕ → ℕ → List ℕ → ℕ → Bool
bytes_match zero target at payload index = true
bytes_match (suc n) target at payload index =
    let rest = bytes_match n target (at + 1) payload (index + 1) in
    if get_or target at 0 != get_or payload index 0 then false else rest

abbrev pub is_ok : FlashResult → Bool
is_ok FlashResult.ok = true
is_ok _ = false

abbrev pub is_valid : AppImageStatus → Bool
is_valid AppImageStatus.valid = true
is_valid _ = false

abbrev pub slot_start : Board → ℕ → ℕ
slot_start b slot = if slot == boot_slot_a then app_slot_a_start_addr b else app_slot_b_start_addr b

abbrev pub slot_end : Board → ℕ → ℕ
slot_end b slot = if slot == boot_slot_a then app_slot_a_end_addr b else app_slot_b_end_addr b

module _ (b : Board) (storage : Storage) where
  open storage use {Device, erase_slot, write_slot, slot_bytes, load, save_next}

  abbrev pub Reply : Type 0
  Reply = UpdateStatus × Session × Device

  abbrev pub begun : Session → Packet → ℕ → ℕ → Session
  begun session packet image_size target_slot = record session {
    session_id = packet.session_id;
    expected_image_size = image_size;
    expected_image_crc32 = read_u32_le (pointee packet.payload) 4;
    target_slot = target_slot;
    received_image_size = 0;
    candidate_version = 0;
    candidate_crc32 = 0;
    session_active = true;
    transfer_complete = false;
    candidate_valid = false;
  }

  unfoldable pub handle_begin : Session → Packet → Device → Reply
  handle_begin session packet d =
      let image_size = read_u32_le (pointee packet.payload) 0 in
      let target_slot = boot_policy_inactive_slot (load d) in
      let (erased, d') = erase_slot target_slot image_size d in
      if packet.payload_len != 8
      then (bad_length, session, d)
      else if (image_size == 0) || ltb (app_slot_size b) image_size
      then (bad_length, session, d)
      else if not (is_ok erased)
      then (flash_error, session, d')
      else (ok, begun session packet image_size target_slot, d')

  unfoldable pub handle_block : Session → Packet → Device → Reply
  handle_block session packet d =
      let n = packet.payload_len in
      let at = packet.sequence in
      let bytes = pointee packet.payload in
      let (result, d') = write_slot session.target_slot at bytes n d in
      if (n == 0) || ltb session.expected_image_size at || ltb (session.expected_image_size - at) n
      then (bad_sequence, session, d)
      else if ltb at session.received_image_size
      then (if ltb (session.received_image_size - at) n
          then (bad_sequence, session, d)
          else if not (slot_is_valid session.target_slot)
          then (bad_state, session, d)
          else if bytes_match n (slot_bytes session.target_slot d) at bytes 0
          then (ok, session, d)
          else (bad_sequence, session, d))
      else if at != session.received_image_size
      then (bad_sequence, session, d)
      else if not (is_ok result)
      then (flash_error, session, d')
      else (ok, record session { received_image_size = session.received_image_size + n }, d')

  -- What `app_image_validate` says of the target slot.
  abbrev pub slot_image : Session → Device → AppImageResult
  slot_image session d = app_image_validate (slot_bytes session.target_slot d) (app_slot_size b)

  -- The checks of `handle_validate` on the image in flash.
  unfoldable pub image_is_good : Session → Device → Bool
  image_is_good session d =
      let image = slot_bytes session.target_slot d in
      let result = slot_image session d in
      is_valid result.status
      && (result.image_size == session.expected_image_size)
      && (result.expected_crc32 == session.expected_image_crc32)
      && image_vectors_are_valid b image result.image_size (slot_start b session.target_slot)
          (slot_end b session.target_slot)

  unfoldable pub handle_validate : Session → Device → Reply
  handle_validate session d =
      if not session.transfer_complete
      then (bad_state, session, d)
      else if not (slot_is_valid session.target_slot)
      then (bad_state, session, d)
      else if not (image_is_good session d)
      then (bad_image, session, d)
      else (
        ok,
        record session {
          candidate_version = (slot_image session d).version;
          candidate_crc32 = (slot_image session d).expected_crc32;
          candidate_valid = true;
        },
        d,
      )

  unfoldable pub handle_activate : Session → Device → Reply
  handle_activate session d =
      let state =
        boot_policy_mark_slot_pending (load d) session.target_slot session.candidate_version
          session.candidate_crc32 in
      let (saved, d') = save_next state d in
      if not session.candidate_valid
      then (bad_state, session, d)
      else if not saved
      then (flash_error, session, d')
      else (ok, record session { reset_requested = true }, d')

  unfoldable pub handle_end : Session → Device → Reply
  handle_end session d =
      if session.received_image_size != session.expected_image_size
      then (bad_length, session, d)
      else (ok, record session { transfer_complete = true }, d)

  -- The `switch` of `boot_update_session_process`.
  unfoldable pub dispatch : Session → Packet → Device → Reply
  dispatch session packet d =
      let command = packet.command in
      if (command == cmd_discover) || (command == cmd_status) || (command == cmd_enter_update)
      then (ok, session, d)
      else if command == cmd_begin
      then handle_begin session packet d
      else if command == cmd_block
      then handle_block session packet d
      else if command == cmd_end
      then handle_end session d
      else if command == cmd_validate
      then handle_validate session d
      else if command == cmd_activate
      then handle_activate session d
      else if command == cmd_abort
      then (ok, boot_update_session_init, d)
      else (invalid_argument, session, d)

  unfoldable pub boot_update_session_process : Session → Packet → Device → Reply
  boot_update_session_process session packet d =
      if command_requires_active_session packet.command
        && (not session.session_active || (packet.session_id != session.session_id))
      then (bad_state, session, d)
      else dispatch session packet d
