-- ===== src/BootMain/Fallback.antt =====
-- The way back from a pending image that is broken.
use stm32_vibe.Base.{ℕ, ◌+◌, ◌<◌, ◌≡◌, ◌≢◌, inl, inr, sym, ap, ◌∙◌, subst, true, List, arith}
use mathlib.Core.Bool.{false≢true}
use stm32_vibe.Layout.{Board}
use stm32_vibe.BootState.{BootState, no_slot, boot_state_update_crc, boot_state_status_for_slot}
use stm32_vibe.BootPolicy.{
  BootCandidate, boot_policy_mark_pending_bad, candidate_for, set_status_for_slot,
}
use stm32_vibe.BootPolicy.Attempts.{IsTrial, select_candidate-IsTrial, select_candidate_settled}
use stm32_vibe.Image.{valid}
use stm32_vibe.Storage.{Storage}
use stm32_vibe.BootMain.{candidate_result, check_vectors, fall_back, boot}
use stm32_vibe.BootMain.Launch.{selected, selected_device, boot_cases}

-- A record in which a slot has been given up and another one is left.
pub record IsGivenUp (s : BootState) (slot active : ℕ) : Type 0 where
  pub bad : boot_state_status_for_slot s slot ≡ 4
  pub settled : s.pending_slot ≡ no_slot
  pub fallback : s.active_slot ≡ active

mark_pending_bad-IsGivenUp :
    (s : BootState) (slot active attempts : ℕ)
    → IsTrial s slot active attempts
    → IsGivenUp (boot_policy_mark_pending_bad s) slot active
unfolding boot_policy_mark_pending_bad set_status_for_slot boot_state_update_crc
    boot_state_status_for_slot
mark_pending_bad-IsGivenUp s slot active attempts t = ground arith

module _ (b : Board) (storage : Storage) (vectors got : List ℕ) where
  open storage use {Device, load, save_next}

  -- What `main` saves when it gives up the selected image.
  abbrev pub given_up : Device → BootState
  given_up d = boot_policy_mark_pending_bad (selected b storage vectors got d).1

  fall_back_device :
      (s : BootState) (d : Device)
      → (boot_policy_mark_pending_bad s).pending_slot ≡ no_slot
      → (fall_back b storage vectors got s d).1 ≡ (save_next (boot_policy_mark_pending_bad s) d).1
  unfolding fall_back check_vectors
  fall_back_device s d e =
      ground (arith, select_candidate_settled b (boot_policy_mark_pending_bad s) e)

  -- If the boot state has a slot on trial with an attempt left, and the image in that slot is not
  -- accepted, then the reset leaves the device as the save of one record leaves it, in which that slot
  -- is marked bad, no slot is pending, and the active slot is as it was.
  pub boot-IsGivenUp :
      (d : Device) (slot active attempts : ℕ)
      → IsTrial (load d) slot active attempts
      → attempts < 3
      → (candidate_result b storage vectors got
          (candidate_for b slot true)
          (selected_device b storage vectors got d)).status
        ≢ valid
      → ((boot b storage vectors got d).1
          ≡ (save_next (given_up d) (selected_device b storage vectors got d)).1)
        × IsGivenUp (given_up d) slot active
  boot-IsGivenUp d slot active attempts t left broken =
      let picked = select_candidate-IsTrial b (load d) slot active attempts t left in
      let marked =
        mark_pending_bad-IsGivenUp (selected b storage vectors got d).1 slot active (attempts + 1)
          picked.1 in
      (device picked.0 marked.settled, marked)
    where
      device :
          (selected b storage vectors got d).0 ≡ candidate_for b slot true
          → (given_up d).pending_slot ≡ no_slot
          → (boot b storage vectors got d).1
            ≡ (save_next (given_up d) (selected_device b storage vectors got d)).1
      device e settled = elim (boot_cases b storage vectors got d) [
        | inl (ok, _) ↦ absurd (
            broken (
              subst
                (λ c.
                  (candidate_result b storage vectors got c
                    (selected_device b storage vectors got d)).status
                  ≡ valid)
                e ok))
        | inr (inl (_, _, back)) ↦
            ap (λ o. o.1) back
            ∙ fall_back_device (selected b storage vectors got d).1
                (selected_device b storage vectors got d) settled
        | inr (inr (_, steady, _)) ↦
            absurd (false≢true (sym steady ∙ ap (λ (c : BootCandidate). c.boot_pending) e))
      ]
