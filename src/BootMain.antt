-- ===== src/BootMain.antt =====
-- The boot decision (`main` of bootloader/src/main.c, from the load of the boot state on). Before it
-- `main` only looks for an update request and listens to the transports. The traces, the interrupt
-- controller and the jump itself are hardware; the model ends with what `jump_to_app` is given.
pub mod Launch
pub mod Fallback
pub mod Trial
use stm32_vibe.Base.{ℕ, ◌+◌, ◌-◌, ◌!=◌, if◌then◌else◌, Bool, true, false, not, List, get_or}
use stm32_vibe.Layout.{Board, boot_runtime_vector_addr, boot_runtime_got_addr}
use stm32_vibe.BootState.{BootState}
use stm32_vibe.BootPolicy.{
  BootCandidate, boot_policy_select_candidate, boot_policy_mark_pending_bad,
}
use stm32_vibe.Protocol.{read_u32_le}
use stm32_vibe.Image.{
  AppImageResult, app_image_validate, image_vectors_are_valid, is_relocatable, manifest_word,
  vector_words, got_offset, got_size,
}
use stm32_vibe.Handoff.{Handoff, prepare_boot_handoff}
use stm32_vibe.Runtime.{boot_runtime_relocate, runtime_vector_words, runtime_got_words}
use stm32_vibe.Session.{is_valid}
use stm32_vibe.Storage.{Storage}

-- What `jump_to_app` is given, and the handoff in shared RAM.
pub record Jump : Type 0 where
  pub vector_base : ℕ
  pub stack_pointer : ℕ
  pub reset_handler : ℕ
  pub got_base : ℕ
  pub handoff : Handoff

pub data Outcome : Type 0 where
  update_mode : Outcome
  jump : Jump → Outcome

-- `vectors` and `got` are the tables in RAM at their fixed addresses.
module _ (b : Board) (storage : Storage) (vectors got : List ℕ) where
  open storage use {Device, slot_bytes, load, save_next}

  abbrev pub save : BootState → Device → Device
  save s d = (save_next s d).1

  -- The image at the candidate's base address.
  abbrev pub candidate_image : BootCandidate → Device → List ℕ
  candidate_image c d = slot_bytes c.slot d

  abbrev pub candidate_result : BootCandidate → Device → AppImageResult
  candidate_result c d = app_image_validate (candidate_image c d) (c.image_end - c.image_base)

  abbrev pub vectors_ok : BootCandidate → Device → Bool
  vectors_ok c d =
      image_vectors_are_valid b (candidate_image c d) (candidate_result c d).image_size c.image_base
        c.image_end

  -- `prepare_relocatable_runtime`.
  abbrev pub relocated : BootCandidate → Device → Bool × List ℕ × List ℕ
  relocated c d =
      let image = candidate_image c d in
      boot_runtime_relocate image c.image_base (manifest_word image 12) (vector_words image)
        (got_offset image) (got_size image) vectors runtime_vector_words got runtime_got_words

  -- From `prepare_boot_handoff` on.
  unfoldable pub launch : BootCandidate → BootState → Device → Outcome
  launch c s d =
      let handoff = prepare_boot_handoff c (candidate_result c d) s in
      let (done, table, _) = relocated c d in
      if is_relocatable (candidate_image c d)
      then (if not done
          then update_mode
          else jump record {
            vector_base = boot_runtime_vector_addr b;
            stack_pointer = get_or table 0 0;
            reset_handler = get_or table 1 0;
            got_base = boot_runtime_got_addr b;
            handoff = handoff;
          })
      else jump record {
        vector_base = c.image_base;
        stack_pointer = read_u32_le (candidate_image c d) 0;
        reset_handler = read_u32_le (candidate_image c d) 4;
        got_base = 0;
        handoff = handoff;
      }

  -- The check of the first two words, for a candidate with an accepted image.
  unfoldable pub check_vectors : BootCandidate → BootState → Device → Outcome × Device
  check_vectors c s d =
      if not (vectors_ok c d)
      then (update_mode, (if c.boot_pending then save (boot_policy_mark_pending_bad s) d else d))
      else (launch c s d, d)

  -- A pending image that is not accepted: it is given up, and the policy is asked again.
  unfoldable pub fall_back : BootState → Device → Outcome × Device
  fall_back s d =
      let marked = boot_policy_mark_pending_bad s in
      let d' = save marked d in
      let (c, s') = boot_policy_select_candidate b marked in
      if not (is_valid (candidate_result c d').status)
      then (update_mode, d')
      else check_vectors c s' d'

  -- The device after the record of the selection is saved, if the selection changed it.
  abbrev pub after_select : BootState → BootState → Device → Device
  after_select before after d = if after.generation != before.generation then save after d else d

  unfoldable pub boot : Device → Outcome × Device
  boot d =
      let s = load d in
      let (c, s') = boot_policy_select_candidate b s in
      let d' = after_select s s' d in
      if not (is_valid (candidate_result c d').status)
      then (if c.boot_pending then fall_back s' d' else (update_mode, d'))
      else check_vectors c s' d'
