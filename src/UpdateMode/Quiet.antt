-- ===== src/UpdateMode/Quiet.antt =====
-- A start that nobody interrupts.
use stm32_vibe.Base.{
  ℕ, zero, suc, ◌+◌, ◌≤◌, ◌<◌, ◌≡◌, ◌⊎◌, inl, inr, refl, Bool, false, List, [], ◌∷◌, some, u32,
  arith,
}
use stm32_vibe.Layout.{Board}
use stm32_vibe.Protocol.{Packet, UpdateStatus, pointee}
use stm32_vibe.Storage.{Storage}
use stm32_vibe.Can.{CanFrame, update_can_request_id, update_can_reassembly_feed}
use stm32_vibe.CanBus.{CanBus, can_receive}
use stm32_vibe.CanLoop.{CanPolling, on_complete, on_frame, poll_frames, boot_can_update_loop_poll}
use stm32_vibe.Stream.{update_stream_feed}
use stm32_vibe.BootMain.{Outcome, boot}
use stm32_vibe.Uart.{Uart, uart_receive_byte}
use stm32_vibe.UpdateLoop.{
  Polling, on_packet, on_parse_error, on_byte, poll_bytes, boot_update_loop_poll, received,
}
use stm32_vibe.UpdateMode.{
  UpdateMode, Setup, Probe, quiet, heard, booted, boot_after, main, polling, poll_uart, poll_can,
  set_up, probe_poll, probe_polls, probe_update_mode,
}

module _ (b : Board) (storage : Storage) where
  open storage use {Device}

  bytes-on_packet :
      (p : Polling b storage) (packet : Packet)
      → (on_packet b storage p packet).result.bytes ≡ p.result.bytes
  unfolding on_packet
  bytes-on_packet p packet = refl

  bytes-on_parse_error :
      (p : Polling b storage) (status : UpdateStatus)
      → (on_parse_error b storage p status).result.bytes ≡ p.result.bytes
  unfolding on_parse_error
  bytes-on_parse_error p status = refl

  bytes-on_byte :
      (p : Polling b storage) (byte : ℕ)
      → (on_byte b storage p byte).result.bytes ≡ u32 (p.result.bytes + 1)
  unfolding on_byte
  bytes-on_byte p byte =
      let out = update_stream_feed 1 0 p.loop.stream (byte ∷ []) (some p.loop.payload) 128 in
      let fed = record p {
        loop = record p.loop { stream = out.1; payload = pointee out.2 };
        result = record p.result { bytes = u32 (p.result.bytes + 1) };
      } in
      ground (arith, bytes-on_packet fed (received out.3), bytes-on_parse_error fed out.0)

  -- The count of bytes never falls, and it stays only if nothing was read.
  bytes-poll_bytes :
      (n : ℕ) (p : Polling b storage)
      → p.result.bytes + n < 4294967296
      → (p.result.bytes ≤ (poll_bytes b storage n p).result.bytes)
        × (((poll_bytes b storage n p).result.bytes ≡ p.result.bytes)
            → (poll_bytes b storage n p).device ≡ p.device)
  unfolding poll_bytes
  bytes-poll_bytes zero p h = ground arith
  bytes-poll_bytes (suc n) p h =
      let (result, byte, uart) = uart_receive_byte p.uart in
      let read = record p { uart = uart } in
      let counted : (on_byte b storage read byte).result.bytes ≡ p.result.bytes + 1 =
        omega (arith, bytes-on_byte read byte) in
      let later = bytes-poll_bytes n (on_byte b storage read byte) (omega arith) in
      ground (arith, counted, later.0)

  frames-on_complete : (p : CanPolling b storage) → (on_complete b storage p).frames ≡ p.frames
  unfolding on_complete
  frames-on_complete p = ground arith

  -- A frame is counted, or it leaves the device alone.
  on_frame_cases :
      (p : CanPolling b storage) (frame : CanFrame)
      → ((on_frame b storage p frame).frames ≡ u32 (p.frames + 1))
        ⊎ (on_frame b storage p frame ≡ p)
  unfolding on_frame
  on_frame_cases p frame =
      let request_id = update_can_request_id p.can_loop.node_id in
      let fed = record p {
        can_loop = record p.can_loop {
          reassembly = (update_can_reassembly_feed p.can_loop.reassembly frame request_id).1;
        };
        frames = u32 (p.frames + 1);
      } in
      ground (arith, frames-on_complete fed)

  frames-poll_frames :
      (n : ℕ) (p : CanPolling b storage)
      → p.frames + n < 4294967296
      → (p.frames ≤ (poll_frames b storage n p).frames)
        × (((poll_frames b storage n p).frames ≡ p.frames)
            → (poll_frames b storage n p).device ≡ p.device)
  unfolding poll_frames
  frames-poll_frames zero p h = ground arith
  frames-poll_frames (suc n) p h =
      let (result, frame, can) = can_receive p.can in
      let read = record p { can = can } in
      elim (on_frame_cases read frame) [
        | inl one ↦
            let counted : (on_frame b storage read frame).frames ≡ p.frames + 1 = omega arith in
            let later = frames-poll_frames n (on_frame b storage read frame) (omega arith) in
            ground (arith, counted, later.0)
        | inr same ↦
            let later = frames-poll_frames n read (omega arith) in
            ground (arith, same, later.0, later.1)
      ]

  poll_uart-device :
      (m : UpdateMode b storage)
      → (poll_uart b storage m).0.bytes ≡ 0
      → (poll_uart b storage m).1.device ≡ m.device
  unfolding poll_uart boot_update_loop_poll
  poll_uart-device m h =
      let p : Polling b storage = record {
        loop = m.loop;
        device = m.device;
        uart = m.uart;
        result = record { bytes = 0; packets = 0; parse_failures = 0; tx_failures = 0 };
      } in
      (bytes-poll_bytes 296 p (omega arith)).1 h

  poll_can-device :
      (m : UpdateMode b storage)
      → (poll_can b storage m).0 ≡ 0
      → (poll_can b storage m).1.device ≡ m.device
  unfolding poll_can boot_can_update_loop_poll
  poll_can-device m h =
      ground (arith, (frames-poll_frames 32 (polling b storage m) (omega arith)).1)

  probe_poll-device :
      (can_ready : Bool) (m : UpdateMode b storage)
      → (probe_poll b storage can_ready m).0 ≡ false
      → (probe_poll b storage can_ready m).1.device ≡ m.device
  unfolding probe_poll
  probe_poll-device can_ready m h =
      ground (arith, poll_uart-device m, poll_can-device (poll_uart b storage m).1)

  probe_polls-device :
      (n : ℕ) (can_ready : Bool) (m m' : UpdateMode b storage)
      → probe_polls b storage n can_ready m ≡ quiet m'
      → m'.device ≡ m.device
  unfolding probe_polls
  probe_polls-device zero can_ready m m' h = ground arith
  probe_polls-device (suc n) can_ready m m' h =
      let next = (probe_poll b storage can_ready m).1 in
      ground (arith, probe_poll-device can_ready m, probe_polls-device n can_ready next m')

  set_up-device :
      (setup : Setup) (d : Device) (uart : Uart) (can : CanBus)
      → (set_up b storage setup d uart can).1.device ≡ d
  unfolding set_up
  set_up-device setup d uart can = ground arith

  probe-device :
      (setup : Setup) (d : Device) (uart : Uart) (can : CanBus) (m : UpdateMode b storage)
      → probe_update_mode b storage setup d uart can ≡ quiet m
      → m.device ≡ d
  unfolding probe_update_mode
  probe-device setup d uart can m h =
      let (ready, start) = set_up b storage setup d uart can in
      ground (arith, set_up-device setup d uart can, probe_polls-device 10000 ready.1 start m)

  boot_after-device :
      (probe : Probe b storage) (d : Device) (vectors got : List ℕ) (outcome : Outcome)
      (d' : Device)
      → ((m : UpdateMode b storage) → probe ≡ quiet m → m.device ≡ d)
      → boot_after b storage probe vectors got ≡ booted outcome d'
      → boot b storage vectors got d ≡ (outcome, d')
  unfolding boot_after
  boot_after-device (quiet m) d vectors got outcome d' same h = ground (arith, same m refl)
  boot_after-device (heard m) d vectors got outcome d' same h = cc

  -- If the start of the bootloader comes to a boot decision, it is the decision for the device as it was
  -- found: polling the serial port and CAN for an update, ten thousand times without traffic, changes
  -- neither the slots nor the boot state.
  pub main-boot :
      (word : ℕ) (setup : Setup) (d d' : Device) (uart : Uart) (can : CanBus) (vectors got : List ℕ)
      (outcome : Outcome)
      → main b storage word setup d uart can vectors got ≡ booted outcome d'
      → boot b storage vectors got d ≡ (outcome, d')
  unfolding main
  main-boot word setup d d' uart can vectors got outcome h = ground (
    arith,
    boot_after-device (probe_update_mode b storage setup d uart can) d vectors got outcome d'
        (λ m e. probe-device setup d uart can m e),
  )
