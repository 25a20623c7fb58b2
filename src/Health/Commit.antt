-- ===== src/Health/Commit.antt =====
-- What the commit function of the firmware does to a staged update.
use stm32_vibe.Base.{ℕ, ◌≤◌, ◌≡◌, refl, sym, subst, true, length, arith}
use stm32_vibe.Layout.{Board}
use stm32_vibe.BootState.{BootState, boot_state_confirm_pending}
use stm32_vibe.BootPolicy.{boot_policy_mark_slot_pending}
use stm32_vibe.BootPolicy.Confirm.{IsConfirmed, tried, confirm_pending-tried}
use stm32_vibe.Storage.{Storage}
use stm32_vibe.Health.{platform_confirm_pending_boot}

module _ (storage : Storage) where
  open storage use {Device, load, save_next}

  saves_pending :
      (d : Device) (s : BootState)
      → load d ≡ s
      → (boot_state_confirm_pending s).0 ≡ true
      → platform_confirm_pending_boot storage d ≡ save_next (boot_state_confirm_pending s).1 d
  unfolding platform_confirm_pending_boot
  saves_pending d s e h = ground arith

  -- If the stored record is one with at least two reserved words in which one of the two slots was put
  -- on trial, and which has been through up to three selections since then, as every start of the image
  -- on trial makes one, the commit saves a record that names that slot as active and confirmed with the
  -- staged version and checksum, has no slot pending and sends the next update to the other slot, and
  -- it returns what the save returns.
  pub confirm_pending_boot-IsConfirmed :
      (b : Board) (n : ℕ) (d : Device) (s : BootState) (slot version crc : ℕ)
      → load d ≡ tried b n (boot_policy_mark_slot_pending s slot version crc)
      → n ≤ 3
      → slot ≤ 1
      → 2 ≤ length s.reserved
      → let s' = (boot_state_confirm_pending (load d)).1 in
        (platform_confirm_pending_boot storage d ≡ save_next s' d) × IsConfirmed s' slot version crc
  confirm_pending_boot-IsConfirmed b n d s slot version crc e few ok long =
      let confirmed =
        subst
          (λ r.
            let (done, s') = boot_state_confirm_pending r in
            (done ≡ true) × IsConfirmed s' slot version crc)
          (sym e) (confirm_pending-tried b n s slot version crc ok long few) in
      (saves_pending d (load d) refl confirmed.0, confirmed.1)
