-- ===== src/UpdateMode/Silent.antt =====
-- A start on which nothing is sent.
use stm32_vibe.Base.{ℕ, zero, suc, ◌≡◌, ◌≢◌, refl, ap, Bool, false, List, [], arith}
use stm32_vibe.Layout.{Board}
use stm32_vibe.Storage.{Storage}
use stm32_vibe.CanBus.{CanBus, can_receive, receive_mail, can_init}
use stm32_vibe.CanLoop.{
  CanPolling, poll_frames, boot_can_update_loop_poll, boot_can_update_loop_init,
}
use stm32_vibe.BootMain.{boot}
use stm32_vibe.Uart.{Uart, uart_receive_byte, take_byte, uart_init}
use stm32_vibe.UpdateLoop.{Polling, poll_bytes, boot_update_loop_poll}
use stm32_vibe.UpdateMode.{
  UpdateMode, Setup, quiet, booted, boot_after, main, polling, poll_uart, poll_can, set_up,
  probe_poll, probe_polls, probe_update_mode, update_handoff_magic, update_handoff_take,
}

module _ (b : Board) (storage : Storage) where
  open storage use {Device}

  -- Nothing waits in the ports.
  record IsSilent (m : UpdateMode b storage) : Type 0 where
    no_byte : m.uart.incoming ≡ []
    no_frame : m.can.incoming ≡ []

  poll_bytes-silent :
      (n : ℕ) (p : Polling b storage)
      → p.uart.incoming ≡ []
      → ((poll_bytes b storage n p).result ≡ p.result)
        × ((poll_bytes b storage n p).device ≡ p.device)
        × ((poll_bytes b storage n p).uart.incoming ≡ [])
  unfolding poll_bytes uart_receive_byte take_byte
  poll_bytes-silent zero p h = (refl, refl, h)
  poll_bytes-silent (suc n) p h = ground (arith, h)

  poll_frames-silent :
      (n : ℕ) (p : CanPolling b storage)
      → p.can.incoming ≡ []
      → ((poll_frames b storage n p).frames ≡ p.frames)
        × ((poll_frames b storage n p).device ≡ p.device)
        × ((poll_frames b storage n p).can.incoming ≡ [])
  unfolding poll_frames can_receive receive_mail
  poll_frames-silent zero p h = (refl, refl, h)
  poll_frames-silent (suc n) p h = ground (arith, h)

  poll_uart-IsSilent :
      (m : UpdateMode b storage)
      → IsSilent m
      → ((poll_uart b storage m).0.bytes ≡ 0)
        × ((poll_uart b storage m).0.packets ≡ 0)
        × ((poll_uart b storage m).0.parse_failures ≡ 0)
        × IsSilent (poll_uart b storage m).1
        × ((poll_uart b storage m).1.device ≡ m.device)
  unfolding poll_uart boot_update_loop_poll
  poll_uart-IsSilent m v =
      let p : Polling b storage = record {
        loop = m.loop;
        device = m.device;
        uart = m.uart;
        result = record { bytes = 0; packets = 0; parse_failures = 0; tx_failures = 0 };
      } in
      let kept = poll_bytes-silent 296 p v.no_byte in
      let still : IsSilent (poll_uart b storage m).1 = record {
        no_byte = kept.2;
        no_frame = v.no_frame;
      } in
      (
        ap (λ r. r.bytes) kept.0,
        ap (λ r. r.packets) kept.0,
        ap (λ r. r.parse_failures) kept.0,
        still,
        kept.1,
      )

  poll_can-IsSilent :
      (m : UpdateMode b storage)
      → IsSilent m
      → ((poll_can b storage m).0 ≡ 0)
        × IsSilent (poll_can b storage m).1
        × ((poll_can b storage m).1.device ≡ m.device)
  unfolding poll_can boot_can_update_loop_poll
  poll_can-IsSilent m v =
      let kept = poll_frames-silent 32 (polling b storage m) v.no_frame in
      ground (arith, kept, v.no_byte, v.no_frame)

  probe_poll-IsSilent :
      (can_ready : Bool) (m : UpdateMode b storage)
      → IsSilent m
      → ((probe_poll b storage can_ready m).0 ≡ false)
        × IsSilent (probe_poll b storage can_ready m).1
        × ((probe_poll b storage can_ready m).1.device ≡ m.device)
  unfolding probe_poll
  probe_poll-IsSilent can_ready m v =
      let uart = poll_uart-IsSilent m v in
      let can = poll_can-IsSilent (poll_uart b storage m).1 uart.3 in ground (arith, uart, can)

  -- What a start comes to when its probe was quiet on the device `d`.
  boot_after-silent :
      (m : UpdateMode b storage) (d : Device) (vectors got : List ℕ)
      → m.device ≡ d
      → boot_after b storage (quiet m) vectors got
        ≡ booted (boot b storage vectors got d).0 (boot b storage vectors got d).1
  unfolding boot_after
  boot_after-silent m d vectors got same = ground (arith, same)

  probe_polls-silent :
      (n : ℕ) (can_ready : Bool) (m : UpdateMode b storage) (vectors got : List ℕ)
      → IsSilent m
      → boot_after b storage (probe_polls b storage n can_ready m) vectors got
        ≡ booted (boot b storage vectors got m.device).0 (boot b storage vectors got m.device).1
  unfolding probe_polls
  probe_polls-silent zero can_ready m vectors got v = boot_after-silent m m.device vectors got refl
  probe_polls-silent (suc n) can_ready m vectors got v =
      let polled = probe_poll-IsSilent can_ready m v in
      let later =
        probe_polls-silent n can_ready (probe_poll b storage can_ready m).1 vectors got polled.1 in
      ground (arith, polled, later)

  set_up-IsSilent :
      (setup : Setup) (d : Device) (uart : Uart) (can : CanBus)
      → uart.incoming ≡ []
      → can.incoming ≡ []
      → IsSilent (set_up b storage setup d uart can).1
        × ((set_up b storage setup d uart can).1.device ≡ d)
  unfolding set_up uart_init boot_can_update_loop_init can_init
  set_up-IsSilent setup d uart can no_byte no_frame = ground (arith, no_byte, no_frame)

  -- Without a request in RAM and without traffic on either port, the start of the bootloader ends its
  -- probe and comes to the boot decision for the device.
  pub main-silent :
      (word : ℕ) (setup : Setup) (d : Device) (uart : Uart) (can : CanBus) (vectors got : List ℕ)
      → word ≢ update_handoff_magic
      → uart.incoming ≡ []
      → can.incoming ≡ []
      → main b storage word setup d uart can vectors got
        ≡ booted (boot b storage vectors got d).0 (boot b storage vectors got d).1
  unfolding main update_handoff_take probe_update_mode
  main-silent word setup d uart can vectors got none_asked no_byte no_frame =
      let (ready, m) = set_up b storage setup d uart can in
      let silent = set_up-IsSilent setup d uart can no_byte no_frame in
      let polled = probe_polls-silent 10000 ready.1 m vectors got silent.0 in
      ground (arith, silent.1, polled, boot_after-silent m d vectors got silent.1)
