-- ===== src/UpdateLoop.antt =====
-- The update loop of the bootloader over the serial port (bootloader/src/update_command.c). The state
-- that it works on is the loop's own, the device with the flash, and the port.
pub mod Answer
use stm32_vibe.Base.{
  ℕ, zero, suc, ◌+◌, ◌-◌, if◌then◌else◌, u32, Bool, true, false, not, List, [], ◌∷◌, replicate,
  Option, none, some,
}
use stm32_vibe.Layout.{Board}
use stm32_vibe.Protocol.{
  Packet, UpdateStatus, ok, invalid_argument, buffer_too_small, bad_sync, bad_version, bad_length,
  bad_crc, bad_state, bad_sequence, flash_error, bad_image, update_protocol_encode,
  update_protocol_decode, max_packet_size, max_payload, pointee,
}
use stm32_vibe.Session.{Session, boot_update_session_init, boot_update_session_process, cmd_ack}
use stm32_vibe.Storage.{Storage}
use stm32_vibe.Stream.{Stream, update_stream_init, update_stream_feed, is_ok}
use stm32_vibe.Uart.{Uart, UartResult, uart_receive_byte, uart_send}

abbrev pub max_bytes_per_poll : ℕ
max_bytes_per_poll = 296

-- The values of `update_status_t`.
abbrev pub status_code : UpdateStatus → ℕ
status_code ok = 0
status_code invalid_argument = 1
status_code buffer_too_small = 2
status_code bad_sync = 3
status_code bad_version = 4
status_code bad_length = 5
status_code bad_crc = 6
status_code bad_state = 7
status_code bad_sequence = 8
status_code flash_error = 9
status_code bad_image = 10

abbrev pub is_bad_length : UpdateStatus → Bool
is_bad_length bad_length = true
is_bad_length _ = false

abbrev pub is_uart_ok : UartResult → Bool
is_uart_ok UartResult.ok = true
is_uart_ok _ = false

-- `boot_update_loop_t`; `payload` is its array of 128 bytes.
pub record UpdateLoop : Type 0 where
  pub stream : Stream
  pub session : Session
  pub payload : List ℕ
  pub packets_received : ℕ
  pub parse_errors : ℕ
  pub tx_errors : ℕ

abbrev pub boot_update_loop_init : UpdateLoop
boot_update_loop_init = record {
  stream = update_stream_init;
  session = boot_update_session_init;
  payload = replicate max_payload 0;
  packets_received = 0;
  parse_errors = 0;
  tx_errors = 0;
}

-- `boot_update_poll_result_t`.
pub record PollResult : Type 0 where
  pub bytes : ℕ
  pub packets : ℕ
  pub parse_failures : ℕ
  pub tx_failures : ℕ

-- The packet of `encode_ack`.
abbrev pub ack_packet : ℕ → UpdateStatus → ℕ → ℕ → Packet
ack_packet command status session_id sequence = record {
  command = cmd_ack;
  flags = 0;
  payload_len = 2;
  session_id = session_id;
  sequence = sequence;
  payload = some (command ∷ status_code status ∷ []);
}

unfoldable pub encode_ack : ℕ → UpdateStatus → ℕ → ℕ → List ℕ → ℕ → ℕ → UpdateStatus × List ℕ × ℕ
encode_ack command status session_id sequence encoded capacity encoded_len =
    update_protocol_encode (ack_packet command status session_id sequence) encoded capacity
      encoded_len

unfoldable pub send_uart_ack : UpdateLoop → ℕ → UpdateStatus → ℕ → ℕ → Uart → UpdateLoop × Uart
send_uart_ack loop command status session_id sequence uart =
    let (encoded_status, encoded, encoded_len) =
      encode_ack command status session_id sequence (replicate max_packet_size 0) max_packet_size
        0 in
    let (result, uart') = uart_send encoded encoded_len uart in
    let failed = record loop { tx_errors = u32 (loop.tx_errors + 1) } in
    if not (is_ok encoded_status)
    then (failed, uart)
    else if not (is_uart_ok result)
    then (failed, uart')
    else (loop, uart')

abbrev pub empty_packet : Packet
empty_packet = record {
  command = 0;
  flags = 0;
  payload_len = 0;
  session_id = 0;
  sequence = 0;
  payload = none;
}

-- `packet` after a call that may write it.
abbrev pub received : Option Packet → Packet
received none = empty_packet
received (some packet) = packet

module _ (b : Board) (storage : Storage) where
  open storage use {Device}

  -- The part of `boot_update_loop_process_encoded` after the packet is decoded.
  unfoldable pub answer_packet :
      UpdateLoop
      → Device
      → Packet
      → List ℕ
      → ℕ
      → ℕ
      → (UpdateStatus × List ℕ × ℕ) × UpdateLoop × Device
  answer_packet loop d packet ack capacity ack_len =
      let (status, session, d') = boot_update_session_process b storage loop.session packet d in
      (
        encode_ack packet.command status packet.session_id packet.sequence ack capacity ack_len,
        record loop { session = session; packets_received = u32 (loop.packets_received + 1) },
        d',
      )

  -- The result is the status with the buffer of the answer and `*ack_len`, the loop and the device.
  unfoldable pub boot_update_loop_process_encoded :
      UpdateLoop
      → Device
      → List ℕ
      → ℕ
      → List ℕ
      → ℕ
      → ℕ
      → (UpdateStatus × List ℕ × ℕ) × UpdateLoop × Device
  boot_update_loop_process_encoded loop d encoded encoded_len ack capacity ack_len =
      let (status, payload, packet) =
        update_protocol_decode encoded encoded_len (some loop.payload) max_payload in
      let loop1 = record loop { payload = pointee payload } in
      if not (is_ok status)
      then (
        encode_ack 0 status 0 0 ack capacity ack_len,
        record loop1 { parse_errors = u32 (loop.parse_errors + 1) },
        d,
      )
      else answer_packet loop1 d (received packet) ack capacity ack_len

  -- What a poll works on.
  pub record Polling : Type 0 where
    pub loop : UpdateLoop
    pub device : Device
    pub uart : Uart
    pub result : PollResult

  -- The two branches of the poll for a packet and for a bad one.
  unfoldable pub on_packet : Polling → Packet → Polling
  on_packet p packet =
      let (status, session, d') =
        boot_update_session_process b storage p.loop.session packet p.device in
      let loop1 = record p.loop {
        session = session;
        packets_received = u32 (p.loop.packets_received + 1);
      } in
      let (loop2, uart') =
        send_uart_ack loop1 packet.command status packet.session_id packet.sequence p.uart in
      record {
        loop = loop2;
        device = d';
        uart = uart';
        result = record p.result { packets = u32 (p.result.packets + 1) };
      }

  unfoldable pub on_parse_error : Polling → UpdateStatus → Polling
  on_parse_error p status =
      let loop1 = record p.loop { parse_errors = u32 (p.loop.parse_errors + 1) } in
      let (loop2, uart') = send_uart_ack loop1 0 status 0 0 p.uart in
      record p {
        loop = loop2;
        uart = uart';
        result = record p.result { parse_failures = u32 (p.result.parse_failures + 1) };
      }

  -- The body of the loop over the bytes, once a byte is received.
  unfoldable pub on_byte : Polling → ℕ → Polling
  on_byte p byte =
      let (status, stream, payload, packet, _) =
        update_stream_feed 1 0 p.loop.stream (byte ∷ []) (some p.loop.payload) max_payload in
      let p1 = record p {
        loop = record p.loop { stream = stream; payload = pointee payload };
        result = record p.result { bytes = u32 (p.result.bytes + 1) };
      } in
      if is_ok status
      then on_packet p1 (received packet)
      else if is_bad_length status
      then p1
      else on_parse_error p1 status

  -- The loop over the bytes, by the rounds left.
  unfoldable pub poll_bytes : ℕ → Polling → Polling
  poll_bytes zero p = p
  poll_bytes (suc n) p =
      let (result, byte, uart) = uart_receive_byte p.uart in
      let rest = poll_bytes n (on_byte (record p { uart = uart }) byte) in
      if not (is_uart_ok result) then record p { uart = uart } else rest

  abbrev pub no_results : PollResult
  no_results = record { bytes = 0; packets = 0; parse_failures = 0; tx_failures = 0 }

  unfoldable pub boot_update_loop_poll :
      UpdateLoop → Device → Uart → PollResult × UpdateLoop × Device × Uart
  boot_update_loop_poll loop d uart =
      let p =
        poll_bytes max_bytes_per_poll
          (record { loop = loop; device = d; uart = uart; result = no_results }) in
      (
        record p.result { tx_failures = u32 (p.loop.tx_errors + 4294967296 - loop.tx_errors) },
        p.loop,
        p.device,
        p.uart,
      )

  -- The first `n` rounds of `boot_update_loop_run_forever`.
  unfoldable pub boot_update_loop_run : ℕ → UpdateLoop → Device → Uart → UpdateLoop × Device × Uart
  boot_update_loop_run zero loop d uart = (loop, d, uart)
  boot_update_loop_run (suc n) loop d uart =
      let (_, loop', d', uart') = boot_update_loop_poll loop d uart in
      boot_update_loop_run n loop' d' uart'
