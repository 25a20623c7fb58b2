-- ===== src/Session/Safe.antt =====
-- The invariant of the update session: a candidate that counts as valid is the image that lies in the
-- target slot at that moment.
use stm32_vibe.Base.{◌≤◌, ◌≡◌, ◌≢◌, ◌⊎◌, inl, inr, sym, subst, true, arith}
use mathlib.Core.Path.{subst₂}
use stm32_vibe.Layout.{Board}
use stm32_vibe.BootState.{BootState, slot_is_valid}
use stm32_vibe.Protocol.{Packet, flash_error}
use stm32_vibe.Storage.{Storage}
use stm32_vibe.BootPolicy.{boot_policy_mark_slot_pending}
use stm32_vibe.Session.{
  dispatch, Reply, Session, boot_update_session_init, image_is_good, slot_image, handle_begin,
  handle_block, handle_end, handle_validate, handle_activate, boot_update_session_process,
  cmd_begin,
}

module _ (b : Board) (storage : Storage) where
  open storage use {Device, slot_bytes, save_next, save_keeps_slots}

  -- What the session claims of its candidate, about the target slot of `d`.
  pub record IsVetted (session : Session) (d : Device) : Type 0 where
    pub whole : session.transfer_complete ≡ true
    pub slot_ok : slot_is_valid session.target_slot ≡ true
    pub good : image_is_good b storage session d ≡ true
    pub version_ok : session.candidate_version ≡ (slot_image b storage session d).version
    pub crc_ok : session.candidate_crc32 ≡ (slot_image b storage session d).expected_crc32

  pub record IsSafe (session : Session) (d : Device) : Type 0 where
    pub received_le : session.received_image_size ≤ session.expected_image_size
    pub complete :
        session.transfer_complete ≡ true → session.received_image_size ≡ session.expected_image_size
    pub vetted : session.candidate_valid ≡ true → IsVetted session d

  init-IsSafe : (d : Device) → IsSafe boot_update_session_init d
  init-IsSafe d = ground arith

  handle_begin-IsSafe :
      (session : Session) (packet : Packet) (d : Device)
      → IsSafe session d
      → (handle_begin b storage session packet d).0 ≢ flash_error
      → let (_, session', d') = handle_begin b storage session packet d in IsSafe session' d'
  unfolding handle_begin
  handle_begin-IsSafe session packet d s h = ground arith

  handle_block-IsSafe :
      (session : Session) (packet : Packet) (d : Device)
      → IsSafe session d
      → let (_, session', d') = handle_block b storage session packet d in IsSafe session' d'
  unfolding handle_block
  handle_block-IsSafe session packet d s = ground arith

  handle_end-IsSafe :
      (session : Session) (d : Device)
      → IsSafe session d
      → let (_, session', d') = handle_end b storage session d in IsSafe session' d'
  unfolding handle_end image_is_good
  handle_end-IsSafe session d s = ground arith

  handle_validate-IsSafe :
      (session : Session) (d : Device)
      → IsSafe session d
      → let (_, session', d') = handle_validate b storage session d in IsSafe session' d'
  unfolding handle_validate image_is_good
  handle_validate-IsSafe session d s = ground arith

  -- Saving the boot state leaves what is said of the target slot as it is.
  IsVetted-save :
      (session : Session) (state : BootState) (d : Device)
      → IsVetted session d
      → IsVetted session (save_next state d).1
  unfolding image_is_good
  IsVetted-save session state d v =
      let same = save_keeps_slots state d session.target_slot in
      record {
        whole = v.whole;
        slot_ok = v.slot_ok;
        good = rw same v.good;
        version_ok = rw same v.version_ok;
        crc_ok = rw same v.crc_ok;
      }

  IsSafe-save :
      (session : Session) (state : BootState) (d : Device)
      → IsSafe session d
      → IsSafe session (save_next state d).1
  IsSafe-save session state d s = record {
    received_le = s.received_le;
    complete = s.complete;
    vetted = λ h. IsVetted-save session state d (s.vetted h);
  }

  IsSafe-reset :
      (session : Session) (d : Device)
      → IsSafe session d
      → IsSafe (record session { reset_requested = true }) d
  unfolding image_is_good
  IsSafe-reset session d s = ground arith

  handle_activate-IsSafe :
      (session : Session) (d : Device)
      → IsSafe session d
      → let (_, session', d') = handle_activate b storage session d in IsSafe session' d'
  unfolding handle_activate
  handle_activate-IsSafe session d s =
      let state =
        boot_policy_mark_slot_pending (storage.load d) session.target_slot session.candidate_version
          session.candidate_crc32 in
      ground (arith, IsSafe-save session state d s, IsSafe-reset session (save_next state d).1)

  abbrev IsSafeReply : Reply b storage → Type 0
  IsSafeReply r = IsSafe r.1 r.2

  -- The calls that a packet can lead to.
  process_cases :
      (session : Session) (packet : Packet) (d : Device)
      → let r = boot_update_session_process b storage session packet d in
        ((r.1 ≡ session) × (r.2 ≡ d))
        ⊎ ((r.1 ≡ boot_update_session_init) × (r.2 ≡ d))
        ⊎ ((packet.command ≡ cmd_begin) × (r ≡ handle_begin b storage session packet d))
        ⊎ (r ≡ handle_block b storage session packet d)
        ⊎ (r ≡ handle_end b storage session d)
        ⊎ (r ≡ handle_validate b storage session d)
        ⊎ (r ≡ handle_activate b storage session d)
  unfolding boot_update_session_process dispatch
  process_cases session packet d = ground arith

  -- Every packet keeps the invariant, but for a begin packet whose erase fails.
  process-IsSafe :
      (session : Session) (packet : Packet) (d : Device)
      → IsSafe session d
      → (packet.command ≢ cmd_begin)
        ⊎ ((boot_update_session_process b storage session packet d).0 ≢ flash_error)
      → IsSafeReply (boot_update_session_process b storage session packet d)
  process-IsSafe session packet d s h = elim (process_cases session packet d) [
    | inl e ↦ subst₂ IsSafe (sym e.0) (sym e.1) s
    | inr (inl e) ↦ subst₂ IsSafe (sym e.0) (sym e.1) (init-IsSafe d)
    | inr (inr (inl e)) ↦
        subst IsSafeReply (sym e.1) (handle_begin-IsSafe session packet d s (begin_works e.0 e.1))
    | inr (inr (inr (inl e))) ↦ subst IsSafeReply (sym e) (handle_block-IsSafe session packet d s)
    | inr (inr (inr (inr (inl e)))) ↦ subst IsSafeReply (sym e) (handle_end-IsSafe session d s)
    | inr (inr (inr (inr (inr (inl e))))) ↦
        subst IsSafeReply (sym e) (handle_validate-IsSafe session d s)
    | inr (inr (inr (inr (inr (inr e))))) ↦
        subst IsSafeReply (sym e) (handle_activate-IsSafe session d s)
  ]
    where
      begin_works :
          packet.command ≡ cmd_begin
          → boot_update_session_process b storage session packet d
            ≡ handle_begin b storage session packet d
          → (handle_begin b storage session packet d).0 ≢ flash_error
      begin_works c e = ground arith

  -- The sessions and devices that packets lead to, from a fresh session on any device, where no erase
  -- of a begin packet fails.
  pub data Reach : Session → Device → Type 0 where
    start : (d : Device) → Reach boot_update_session_init d
    next :
        {session : Session} {d : Device} (packet : Packet)
        → Reach session d
        → (packet.command ≢ cmd_begin)
          ⊎ ((boot_update_session_process b storage session packet d).0 ≢ flash_error)
        → Reach
            (boot_update_session_process b storage session packet d).1
            (boot_update_session_process b storage session packet d).2

  pub Reach-IsSafe : {session : Session} {d : Device} → Reach session d → IsSafe session d
  Reach-IsSafe (start d) = init-IsSafe d
  Reach-IsSafe (next {session} {d} packet r h) = process-IsSafe session packet d (Reach-IsSafe r) h
