-- ===== src/UpdateMode/Request.antt =====
-- The request of the application to be updated, as the bootloader takes it.
use stm32_vibe.Base.{ℕ, ◌≡◌, ◌≢◌, ◌↔◌, false, List, arith}
use stm32_vibe.Layout.{Board}
use stm32_vibe.Storage.{Storage}
use stm32_vibe.CanBus.{CanBus}
use stm32_vibe.Uart.{Uart}
use stm32_vibe.UpdateMode.{
  Setup, Probe, quiet, heard, requested, boot_after, probe_update_mode, update_handoff_take,
  update_handoff_request, main,
}

module _ (b : Board) (storage : Storage) where
  open storage use {Device}

  boot_after-starts :
      (probe : Probe b storage) (vectors got : List ℕ)
      → boot_after b storage probe vectors got ≢ requested
  unfolding boot_after
  boot_after-starts (quiet m) vectors got = ground arith
  boot_after-starts (heard m) vectors got = ground arith

  -- The bootloader goes straight into the update mode exactly if the word in RAM is the one that
  -- `update_handoff_request` writes, and it leaves a word there that is no request, so that one request
  -- is for one start.
  pub main-requested :
      (word : ℕ) (setup : Setup) (d : Device) (uart : Uart) (can : CanBus) (vectors got : List ℕ)
      → ((main b storage word setup d uart can vectors got ≡ requested)
          ↔ (word ≡ update_handoff_request word))
        × ((update_handoff_take (update_handoff_take word).1).0 ≡ false)
  unfolding main update_handoff_take update_handoff_request
  main-requested word setup d uart can vectors got =
      let starts = boot_after-starts (probe_update_mode b storage setup d uart can) vectors got in
      ground (arith, starts)
