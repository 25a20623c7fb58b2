-- ===== src/BootMain/Trial.antt =====
-- How often an image on trial is started: the boot decision, reset after reset.
use stm32_vibe.Base.{ℕ, ◌+◌, ◌≡◌, List}
use stm32_vibe.Layout.{Board}
use stm32_vibe.BootState.{BootState}
use stm32_vibe.Storage.{Storage}
use stm32_vibe.BootMain.{Jump, jump, boot}
use stm32_vibe.BootMain.Launch.{selected}

module _ (b : Board) (storage : Storage) (vectors got : List ℕ) where
  open storage use {Device, load}

  -- Resets in a row, each of which starts the image in `slot`, and after each of which the store gives
  -- the record of the selection, so that its save was not lost.
  pub data Restarts (slot : ℕ) (d : Device) : ℕ → Device → Type 0 where
    start : Restarts slot d 0 d
    again :
        {n : ℕ} {now : Device} (j : Jump)
        → Restarts slot d n now
        → (boot b storage vectors got now).0 ≡ jump j
        → j.handoff.slot ≡ slot
        → load (boot b storage vectors got now).1 ≡ (selected b storage vectors got now).1
        → Restarts slot d (n + 1) (boot b storage vectors got now).1
