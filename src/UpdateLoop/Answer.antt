-- ===== src/UpdateLoop/Answer.antt =====
-- What the update loop answers.
use stm32_vibe.Base.{
  ℕ, ◌≤◌, ◌<◌, ◌≡◌, ◌≢◌, ◌⊎◌, refl, true, List, ◌++◌, take, drop, length, replicate, take-append,
  Option, some, AreBytes, get_or-lt, arith,
}
use stm32_vibe.Layout.{Board}
use stm32_vibe.Protocol.{Packet, pointee, UpdateStatus, ok, read_packet, update_protocol_decode}
use stm32_vibe.Protocol.Frame.{IsEncodable, frame, read_u32_le-IsWord}
use stm32_vibe.Protocol.Encode.{update_protocol_encode-frame}
use stm32_vibe.Session.{boot_update_session_process}
use stm32_vibe.Storage.{Storage}
use stm32_vibe.Uart.{Uart, uart_send}
use stm32_vibe.UpdateLoop.{
  UpdateLoop, ack_packet, status_code, encode_ack, send_uart_ack, received, answer_packet,
  boot_update_loop_process_encoded, empty_packet,
}

-- The numbers of a packet that an acknowledgement repeats.
abbrev pub IsAnswerable : Packet → Type 0
IsAnswerable p = (p.command < 256) × (p.session_id < 4294967296) × (p.sequence < 4294967296)

status_code-lt : (status : UpdateStatus) → status_code status < 256
status_code-lt status = ground arith

pub ack_packet-IsEncodable :
    (p : Packet) (status : UpdateStatus)
    → IsAnswerable p
    → IsEncodable (ack_packet p.command status p.session_id p.sequence)
ack_packet-IsEncodable p status h = record {
  command_byte = omega arith;
  flags_byte = omega arith;
  short = omega arith;
  session_word = h.1;
  sequence_word = h.2;
  payload_there = omega arith;
  payload_are_bytes = (h.0, (status_code-lt status, tt));
}

abbrev pub ack_frame : Packet → UpdateStatus → List ℕ
ack_frame p status = frame (ack_packet p.command status p.session_id p.sequence)

pub encode_ack_lem :
    (p : Packet) (status : UpdateStatus) (ack : List ℕ) (capacity ack_len : ℕ)
    → IsAnswerable p
    → 22 ≤ capacity
    → capacity ≤ length ack
    → encode_ack p.command status p.session_id p.sequence ack capacity ack_len
      ≡ (ok, ack_frame p status ++ drop 22 ack, 22)
unfolding encode_ack
encode_ack_lem p status ack capacity ack_len h room fits =
    update_protocol_encode-frame (ack_packet p.command status p.session_id p.sequence) ack capacity
      ack_len (ack_packet-IsEncodable p status h) room fits

length-ack_frame : (p : Packet) (status : UpdateStatus) → length (ack_frame p status) ≡ 22
unfolding frame
length-ack_frame p status = refl

-- What is read of a decoded packet can be repeated.
pub decoded-IsAnswerable :
    (input : List ℕ) (len : ℕ) (payload : Option (List ℕ)) (capacity : ℕ)
    → AreBytes input
    → (update_protocol_decode input len payload capacity).0 ≡ ok
    → IsAnswerable (received (update_protocol_decode input len payload capacity).2)
unfolding update_protocol_decode read_packet
decoded-IsAnswerable input len payload capacity bytes h = ground (
  arith,
  get_or-lt input 3 bytes,
  read_u32_le-IsWord input bytes 8,
  read_u32_le-IsWord input bytes 12,
)

module _ (b : Board) (storage : Storage) where
  open storage use {Device}

  -- What is decoded of `encoded`, and what the session makes of it.
  abbrev pub decoded : UpdateLoop → List ℕ → ℕ → UpdateStatus × Option (List ℕ) × Option Packet
  decoded loop encoded len = update_protocol_decode encoded len (some loop.payload) 128

  answer_packet_lem :
      (loop : UpdateLoop) (d : Device) (p : Packet) (ack : List ℕ) (capacity ack_len : ℕ)
      → IsAnswerable p
      → 22 ≤ capacity
      → capacity ≤ length ack
      → let out = answer_packet b storage loop d p ack capacity ack_len in
        let (status, session, d') = boot_update_session_process b storage loop.session p d in
        (out.0 ≡ (ok, ack_frame p status ++ drop 22 ack, 22))
        × (out.1.session ≡ session)
        × (out.2 ≡ d')
  unfolding answer_packet
  answer_packet_lem loop d p ack capacity ack_len h room fits =
      let status = (boot_update_session_process b storage loop.session p d).0 in
      (encode_ack_lem p status ack capacity ack_len h room fits, refl, refl)

  -- Whatever bytes arrive as a packet, the loop answers them with one acknowledgement, for a buffer with
  -- room for it. If they decode, it repeats the packet's command, session and sequence with the status
  -- of the session, whose new state and device the loop takes over. If not, it names the decoder's
  -- status under command 0, and session and device stay as they are.
  pub process_encoded-answer :
      (loop : UpdateLoop) (d : Device) (encoded : List ℕ) (len : ℕ) (ack : List ℕ)
      (capacity ack_len : ℕ)
      → AreBytes encoded
      → 22 ≤ capacity
      → capacity ≤ length ack
      → let out =
          boot_update_loop_process_encoded b storage loop d encoded len ack capacity ack_len in
        let status = (decoded loop encoded len).0 in
        let packet = received (decoded loop encoded len).2 in
        let (answer, session, d') = boot_update_session_process b storage loop.session packet d in
        ((status ≡ ok)
          × (out.0 ≡ (ok, ack_frame packet answer ++ drop 22 ack, 22))
          × (out.1.session ≡ session)
          × (out.2 ≡ d'))
        ⊎ ((status ≢ ok)
            × (out.0 ≡ (ok, ack_frame empty_packet status ++ drop 22 ack, 22))
            × (out.1.session ≡ loop.session)
            × (out.2 ≡ d))
  unfolding boot_update_loop_process_encoded
  process_encoded-answer loop d encoded len ack capacity ack_len bytes room fits =
      let packet = received (decoded loop encoded len).2 in
      let loop1 = record loop { payload = pointee (decoded loop encoded len).1 } in
      ground (
        arith,
        decoded-IsAnswerable encoded len (some loop.payload) 128 bytes,
        encode_ack_lem empty_packet (decoded loop encoded len).0 ack capacity ack_len (omega arith)
            room fits,
        answer_packet_lem loop1 d packet ack capacity ack_len,
      )

-- The acknowledgement goes out on the serial port, and nothing else does.
send_uart_ack_lem :
    (loop : UpdateLoop) (p : Packet) (status : UpdateStatus) (uart : Uart)
    → IsAnswerable p
    → uart.initialized ≡ true
    → send_uart_ack loop p.command status p.session_id p.sequence uart
      ≡ (loop, record uart { sent = uart.sent ++ ack_frame p status })
unfolding send_uart_ack uart_send frame
send_uart_ack_lem loop p status uart h on =
    let encoded = encode_ack_lem p status (replicate 148 0) 148 0 h (omega arith) (omega arith) in
    let sent : take 22 (ack_frame p status ++ drop 22 (replicate 148 0)) ≡ ack_frame p status =
      take-append (ack_frame p status) (drop 22 (replicate 148 0)) in
    rw (encoded, sent, on)
