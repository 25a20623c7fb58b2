-- ===== src/Session/Activate.antt =====
-- What an activation commits, and the one way past the invariant.
use stm32_vibe.Base.{◌≡◌, sym, ap, ◌∙◌, ap₂, subst, true, arith}
use stm32_vibe.Layout.{Board}
use stm32_vibe.BootState.{slot_is_valid}
use stm32_vibe.BootPolicy.{boot_policy_mark_slot_pending}
use stm32_vibe.Protocol.{Packet, ok, flash_error}
use stm32_vibe.Image.{valid, image_vectors_are_valid}
use stm32_vibe.Storage.{Storage}
use stm32_vibe.Session.{
  Session, image_is_good, slot_image, slot_start, slot_end, handle_begin, handle_activate, dispatch,
  boot_update_session_process, cmd_begin, cmd_activate,
}
use stm32_vibe.Session.Safe.{IsVetted, Reach, Reach-IsSafe}

module _ (b : Board) (storage : Storage) where
  open storage use {Device, erase_slot, slot_bytes, load, save_next}

  -- The image in the target slot of `d`, as the session announced it.
  pub record HoldsImage (session : Session) (d : Device) : Type 0 where
    pub slot_ok : slot_is_valid session.target_slot ≡ true
    pub image_ok : (slot_image b storage session d).status ≡ valid
    pub size_ok : (slot_image b storage session d).image_size ≡ session.expected_image_size
    pub crc_ok : (slot_image b storage session d).expected_crc32 ≡ session.expected_image_crc32
    pub vectors_ok :
        image_vectors_are_valid b
          (slot_bytes session.target_slot d)
          (slot_image b storage session d).image_size
          (slot_start b session.target_slot)
          (slot_end b session.target_slot)
        ≡ true

  IsVetted-HoldsImage :
      (session : Session) (d : Device) → IsVetted b storage session d → HoldsImage session d
  unfolding image_is_good
  IsVetted-HoldsImage session d v = ground arith

  activated :
      (session : Session) (packet : Packet) (d : Device)
      → packet.command ≡ cmd_activate
      → (boot_update_session_process b storage session packet d).0 ≡ ok
      → (session.candidate_valid ≡ true)
        × ((boot_update_session_process b storage session packet d).2
            ≡ (save_next
                (boot_policy_mark_slot_pending
                  (load d)
                  session.target_slot
                  session.candidate_version
                  session.candidate_crc32)
                d).1)
        × ((boot_update_session_process b storage session packet d).1
            ≡ record session { reset_requested = true })
  unfolding boot_update_session_process dispatch handle_activate
  activated session packet d c h = ground arith

  -- An activation that returns `ok`, in a session that packets have led to without a failed erase,
  -- saves the loaded boot state with the target slot put on trial under the version and checksum of
  -- the image that lies in that slot. That image is accepted, has the size and checksum that the
  -- session announced, and its vectors are valid. The session then asks for a reset.
  pub activate-HoldsImage :
      {session : Session} {d : Device} (packet : Packet)
      → Reach b storage session d
      → packet.command ≡ cmd_activate
      → (boot_update_session_process b storage session packet d).0 ≡ ok
      → HoldsImage session d
        × ((boot_update_session_process b storage session packet d).2
            ≡ (save_next
                (boot_policy_mark_slot_pending
                  (load d)
                  session.target_slot
                  (slot_image b storage session d).version
                  (slot_image b storage session d).expected_crc32)
                d).1)
        × ((boot_update_session_process b storage session packet d).1.reset_requested ≡ true)
  activate-HoldsImage {session} {d} packet r c h =
      let done = activated session packet d c h in
      let vetted = (Reach-IsSafe b storage r).vetted done.0 in
      (
        IsVetted-HoldsImage session d vetted,
        done.1
            ∙ ap₂
                (λ version crc.
                  (save_next
                    (boot_policy_mark_slot_pending (load d) session.target_slot version crc) d).1)
                vetted.version_ok vetted.crc_ok,
        ap (λ (s : Session). s.reset_requested) done.2,
      )

  failed_begin :
      (session : Session) (packet : Packet) (d : Device)
      → packet.command ≡ cmd_begin
      → (boot_update_session_process b storage session packet d).0 ≡ flash_error
      → (boot_update_session_process b storage session packet d).1 ≡ session
  unfolding boot_update_session_process dispatch handle_begin
  failed_begin session packet d c h = ground arith

  activates :
      (session : Session) (packet : Packet) (d : Device)
      → session.session_active ≡ true
      → session.candidate_valid ≡ true
      → packet.command ≡ cmd_activate
      → packet.session_id ≡ session.session_id
      → (save_next
          (boot_policy_mark_slot_pending
            (load d)
            session.target_slot
            session.candidate_version
            session.candidate_crc32)
          d).0
        ≡ true
      → (boot_update_session_process b storage session packet d).0 ≡ ok
  unfolding boot_update_session_process dispatch handle_activate
  activates session packet d active candidate c same saved = ground arith

  -- A begin packet whose erase fails leaves the old candidate valid: whatever the failed erase did to
  -- the slot, an activation that follows returns `ok` as soon as the store can be saved.
  pub activate_after_failed_begin :
      (session : Session) (begin_packet packet : Packet) (d : Device)
      → session.session_active ≡ true
      → session.candidate_valid ≡ true
      → begin_packet.command ≡ cmd_begin
      → (boot_update_session_process b storage session begin_packet d).0 ≡ flash_error
      → packet.command ≡ cmd_activate
      → packet.session_id ≡ session.session_id
      → (save_next
          (boot_policy_mark_slot_pending
            (load (boot_update_session_process b storage session begin_packet d).2)
            session.target_slot
            session.candidate_version
            session.candidate_crc32)
          (boot_update_session_process b storage session begin_packet d).2).0
        ≡ true
      → (boot_update_session_process b storage
          (boot_update_session_process b storage session begin_packet d).1
          packet
          (boot_update_session_process b storage session begin_packet d).2).0
        ≡ ok
  activate_after_failed_begin session begin_packet packet d active candidate c failed c' same
        saved =
      let d' = (boot_update_session_process b storage session begin_packet d).2 in
      subst (λ s. (boot_update_session_process b storage s packet d').0 ≡ ok)
        (sym (failed_begin session begin_packet d c failed))
        (activates session packet d' active candidate c' same saved)
