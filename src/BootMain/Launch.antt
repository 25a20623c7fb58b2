-- ===== src/BootMain/Launch.antt =====
-- What is known of every image that the bootloader starts.
use stm32_vibe.Base.{
  ℕ, ◌≡◌, ◌⊎◌, inl, inr, ◌≢◌, ◌∙◌, subst, refl, sym, ap, true, false, List, get_or, arith,
}
use stm32_vibe.Layout.{Board, boot_runtime_vector_addr, boot_runtime_got_addr}
use stm32_vibe.Protocol.{read_u32_le}
use stm32_vibe.BootState.{BootState}
use stm32_vibe.BootPolicy.{
  BootCandidate, boot_policy_select_candidate, boot_policy_mark_pending_bad,
}
use stm32_vibe.Image.{valid, is_relocatable}
use stm32_vibe.Handoff.{prepare_boot_handoff, boot_handoff_update_crc}
use stm32_vibe.Storage.{Storage}
use stm32_vibe.BootMain.{
  Jump, update_mode, jump, candidate_image, candidate_result, relocated, vectors_ok, launch,
  check_vectors, fall_back, after_select, boot,
}

module _ (b : Board) (storage : Storage) (vectors got : List ℕ) where
  open storage use {Device, load, save_next}

  -- What `jump_to_app` is given for an image that runs where it lies: its own first two words.
  pub record IsInPlace (c : BootCandidate) (d : Device) (j : Jump) : Type 0 where
    pub not_relocatable : is_relocatable (candidate_image b storage vectors got c d) ≡ false
    pub vector_base : j.vector_base ≡ c.image_base
    pub stack_pointer : j.stack_pointer ≡ read_u32_le (candidate_image b storage vectors got c d) 0
    pub reset_handler : j.reset_handler ≡ read_u32_le (candidate_image b storage vectors got c d) 4
    pub got_base : j.got_base ≡ 0

  -- And for a relocatable one: the tables in RAM, and the first two entries of the table of vectors.
  pub record IsRelocatedTo (c : BootCandidate) (d : Device) (j : Jump) : Type 0 where
    pub relocatable : is_relocatable (candidate_image b storage vectors got c d) ≡ true
    pub done : (relocated b storage vectors got c d).0 ≡ true
    pub vector_base : j.vector_base ≡ boot_runtime_vector_addr b
    pub got_base : j.got_base ≡ boot_runtime_got_addr b
    pub stack_pointer : j.stack_pointer ≡ get_or (relocated b storage vectors got c d).1 0 0
    pub reset_handler : j.reset_handler ≡ get_or (relocated b storage vectors got c d).1 1 0

  -- A candidate with an accepted image and valid vectors, whose handoff is passed on.
  pub record IsStarted (c : BootCandidate) (d : Device) (j : Jump) : Type 0 where
    pub image_ok : (candidate_result b storage vectors got c d).status ≡ valid
    pub vectors_good : vectors_ok b storage vectors got c d ≡ true
    pub handoff_slot : j.handoff.slot ≡ c.slot
    pub handoff_base : j.handoff.image_base ≡ c.image_base
    pub entered : IsInPlace c d j ⊎ IsRelocatedTo c d j

  launch_lem :
      (c : BootCandidate) (s : BootState) (d : Device) (j : Jump)
      → launch b storage vectors got c s d ≡ jump j
      → (j.handoff.slot ≡ c.slot)
        × (j.handoff.image_base ≡ c.image_base)
        × (IsInPlace c d j ⊎ IsRelocatedTo c d j)
  unfolding launch prepare_boot_handoff boot_handoff_update_crc
  launch_lem c s d j h = ground (arith, IsInPlace, IsRelocatedTo)

  check_vectors_lem :
      (c : BootCandidate) (s : BootState) (d : Device) (j : Jump)
      → (candidate_result b storage vectors got c d).status ≡ valid
      → (check_vectors b storage vectors got c s d).0 ≡ jump j
      → ((check_vectors b storage vectors got c s d).1 ≡ d) × IsStarted c d j
  unfolding check_vectors
  check_vectors_lem c s d j ok h = ground (arith, launch_lem c s d j)

  -- The candidate that is left when a pending image is given up.
  abbrev pub fallback_candidate : BootState → BootCandidate
  fallback_candidate s = (boot_policy_select_candidate b (boot_policy_mark_pending_bad s)).0

  fall_back_lem :
      (s : BootState) (d : Device) (j : Jump)
      → (fall_back b storage vectors got s d).0 ≡ jump j
      → ((fall_back b storage vectors got s d).1 ≡ (save_next (boot_policy_mark_pending_bad s) d).1)
        × IsStarted (fallback_candidate s) (save_next (boot_policy_mark_pending_bad s) d).1 j
  unfolding fall_back
  fall_back_lem s d j h = ground (
    arith,
    check_vectors_lem (fallback_candidate s)
        (boot_policy_select_candidate b (boot_policy_mark_pending_bad s)).1
        (save_next (boot_policy_mark_pending_bad s) d).1 j,
  )

  -- The record and the device after the selection.
  abbrev pub selected : Device → BootCandidate × BootState
  selected d = boot_policy_select_candidate b (load d)

  abbrev pub selected_device : Device → Device
  selected_device d = after_select b storage vectors got (load d) (selected d).1 d

  pub boot_cases :
      (d : Device)
      → let c = (selected d).0 in
        let d' = selected_device d in
        (((candidate_result b storage vectors got c d').status ≡ valid)
          × (boot b storage vectors got d
              ≡ check_vectors b storage vectors got c (selected d).1 d'))
        ⊎ (((candidate_result b storage vectors got c d').status ≢ valid)
            × (c.boot_pending ≡ true)
            × (boot b storage vectors got d ≡ fall_back b storage vectors got (selected d).1 d'))
        ⊎ (((candidate_result b storage vectors got c d').status ≢ valid)
            × (c.boot_pending ≡ false)
            × (boot b storage vectors got d ≡ (update_mode, d')))
  unfolding boot
  boot_cases d = ground arith

  -- Which candidate was started, and what is known of it.
  pub record Started (d : Device) (j : Jump) : Type 0 where
    pub candidate : BootCandidate
    pub chosen :
        (candidate ≡ (selected d).0)
        ⊎ (((selected d).0.boot_pending ≡ true)
            × ((candidate_result b storage vectors got (selected d).0 (selected_device d)).status
                ≢ valid)
            × (candidate ≡ fallback_candidate (selected d).1))
    pub started : IsStarted candidate (boot b storage vectors got d).1 j

  -- Whatever the store and the slots hold, the bootloader starts only a candidate whose image, as it
  -- lies in flash at that moment, is accepted and has valid vectors, and the handoff names that
  -- candidate. What `jump_to_app` is given is that candidate's: the base address and the first two words
  -- of an image that is not relocatable, with 0 for the offset table; and for a relocatable image, whose
  -- relocation succeeded, the addresses of the two tables in RAM and the first two entries of the table
  -- of vectors that the relocation of this image made. The candidate is the one that the policy selects, or, if that is on trial and its image
  -- is not accepted, the one that the policy selects once the trial is given up.
  pub boot-Started :
      (d : Device) (j : Jump) → (boot b storage vectors got d).0 ≡ jump j → Started d j
  boot-Started d j h = elim (boot_cases d) [
    | inl (ok, e) ↦
        let r =
          check_vectors_lem (selected d).0 (selected d).1 (selected_device d) j ok
            (sym (ap (λ o. o.0) e) ∙ h) in
        record {
          candidate = (selected d).0;
          chosen = inl refl;
          started = subst (λ k. IsStarted (selected d).0 k j) (sym (ap (λ o. o.1) e ∙ r.0)) r.1;
        }
    | inr (inl (bad, trial, e)) ↦
        let r = fall_back_lem (selected d).1 (selected_device d) j (sym (ap (λ o. o.0) e) ∙ h) in
        record {
          candidate = fallback_candidate (selected d).1;
          chosen = inr (trial, bad, refl);
          started =
              subst (λ k. IsStarted (fallback_candidate (selected d).1) k j)
                (sym (ap (λ o. o.1) e ∙ r.0)) r.1;
        }
    | inr (inr (bad, steady, e)) ↦
        let stuck : update_mode ≡ jump j = sym (ap (λ o. o.0) e) ∙ h in cc
  ]
