-- ===== src/UpdateAgent.antt =====
-- The agent that lets a running application be updated (shared/platform/update_agent.c). The static
-- variables of the file are the agent, with the serial port and the bus that it works on. A call of the
-- reset callback is counted and ends the poll: the one that `main` passes does not return. The part for
-- CAN is compiled for a board with CAN, but not for the smoke test of the bus.
pub mod Bytes
pub mod Keep
pub mod Drain
pub mod Answer
pub mod Reset
use stm32_vibe.Base.{
  ℕ, zero, suc, ◌+◌, ◌==◌, if◌then◌else◌, Bool, true, false, not, ◌||◌, ◌&&◌, List, [], ◌∷◌, length,
  replicate, Option, none, some,
}
use stm32_vibe.Layout.{Board}
use stm32_vibe.Protocol.{
  Packet, UpdateStatus, ok, invalid_argument, update_protocol_encode, update_protocol_decode,
  max_packet_size, max_payload, pointee,
}
use stm32_vibe.Session.{cmd_discover, cmd_enter_update}
use stm32_vibe.Stream.{Stream, update_stream_init, update_stream_feed, is_ok}
use stm32_vibe.Can.{
  CanFrame, Reassembly, update_can_request_id, update_can_response_id, update_can_reassembly_init,
  update_can_reassembly_feed, Fragmenter, update_can_fragmenter_init, update_can_fragmenter_next,
}
use stm32_vibe.CanBus.{CanBus, is_can_ok, can_send, can_receive, can_init, can_drain_tx}
use stm32_vibe.CanLoop.{is_tx_full, is_complete}
use stm32_vibe.Uart.{Uart, uart_init, uart_receive_byte, uart_send, uart_drain_tx}
use stm32_vibe.UpdateLoop.{is_uart_ok, is_bad_length, ack_packet, received}
use stm32_vibe.UpdateMode.{has_can}

abbrev pub update_agent_uart_baud : ℕ
update_agent_uart_baud = 115200

-- The retries of `send_can_ack` for a fragment.
abbrev pub ack_retries : ℕ
ack_retries = 100000

pub record UpdateAgent : Type 0 where
  pub stream : Stream
  pub payload : List ℕ
  pub reset_callback : Bool
  pub can_reassembly : Reassembly
  pub uart : Uart
  pub can : CanBus
  pub resets : ℕ

-- The buffer and the length, which is 0 if the encoder refuses.
unfoldable pub encode_ack : ℕ → UpdateStatus → ℕ → ℕ → List ℕ → ℕ → List ℕ × ℕ
encode_ack command status session_id sequence encoded capacity =
    let (result, written, encoded_len) =
      update_protocol_encode (ack_packet command status session_id sequence) encoded capacity 0 in
    (written, if is_ok result then encoded_len else 0)

unfoldable pub send_uart_ack : ℕ → UpdateStatus → ℕ → ℕ → Uart → Uart
send_uart_ack command status session_id sequence uart =
    let (encoded, encoded_len) =
      encode_ack command status session_id sequence (replicate max_packet_size 0) max_packet_size in
    let sent = (uart_send encoded encoded_len uart).1 in if encoded_len == 0 then uart else sent

-- The inner loop of `send_can_ack`, by the value of `retry`: whether the last result is ok.
unfoldable pub send_retrying : ℕ → CanFrame → CanBus → Bool × CanBus
send_retrying zero frame can = let (result, can') = can_send frame can in (is_can_ok result, can')
send_retrying (suc retry) frame can =
    let (result, can') = can_send frame can in
    let again = send_retrying retry frame can' in
    if is_tx_full result then again else (is_can_ok result, can')

-- The loop over the fragments, by the rounds left; every fragment takes at least a byte of the packet.
unfoldable pub send_can_fragments : ℕ → Fragmenter → CanBus → CanBus
send_can_fragments zero fragmenter can = can
send_can_fragments (suc rounds) fragmenter can = elim (update_can_fragmenter_next fragmenter) [
  | none ↦ can
  | some (frame, fragmenter') ↦
      let (done, can') = send_retrying ack_retries frame can in
      let rest = send_can_fragments rounds fragmenter' can' in if done then rest else can'
]

-- `node_id` is `UPDATE_CAN_NODE_ID`.
unfoldable pub send_can_ack : ℕ → ℕ → UpdateStatus → ℕ → ℕ → CanBus → CanBus
send_can_ack node_id command status session_id sequence can =
    let (encoded, encoded_len) =
      encode_ack command status session_id sequence (replicate max_packet_size 0) max_packet_size in
    let fragments =
      update_can_fragmenter_init (update_can_response_id node_id) encoded encoded_len in
    if encoded_len == 0 then can else elim fragments [
      | none ↦ can
      | some fragmenter ↦ send_can_fragments max_packet_size fragmenter can
    ]

-- Whether the part for CAN is compiled; `smoke` is whether `ENABLE_CAN_SMOKE_TEST` is defined.
abbrev pub listens : Board → Bool → Bool
listens b smoke = has_can b && not smoke

-- The variables before: those of C start as zeros, and the callback is null.
unfoldable pub update_agent_init : Board → Bool → ℕ → Bool → Bool → Bool → UpdateAgent → UpdateAgent
update_agent_init b smoke pclk entered left reset_fn a =
    let (_, uart) = uart_init update_agent_uart_baud a.uart in
    let (_, can) = can_init pclk entered left 500000 a.can in
    let started = record a {
      stream = update_stream_init;
      reset_callback = reset_fn;
      uart = uart;
    } in
    if listens b smoke
    then record started { can_reassembly = update_can_reassembly_init; can = can }
    else started

-- The call of the callback, if there is one.
abbrev pub call_reset : UpdateAgent → UpdateAgent
call_reset a = if a.reset_callback then record a { resets = a.resets + 1 } else a

abbrev pub is_known : ℕ → Bool
is_known command = (command == cmd_discover) || (command == cmd_enter_update)

-- The answer to a packet that came whole over the serial port.
unfoldable pub answer_uart : UpdateAgent → Packet → UpdateAgent
answer_uart a packet =
    let accepted = record a {
      uart = send_uart_ack packet.command ok packet.session_id packet.sequence a.uart;
    } in
    let rejected = record a {
      uart = send_uart_ack packet.command invalid_argument packet.session_id packet.sequence a.uart;
    } in
    let drained = record accepted { uart = (uart_drain_tx accepted.uart).1 } in
    if packet.command == cmd_discover
    then accepted
    else if packet.command == cmd_enter_update
    then call_reset drained
    else rejected

-- The body of the loop over the bytes, once a byte is received.
unfoldable pub agent_byte : UpdateAgent → ℕ → UpdateAgent
agent_byte a byte =
    let (status, stream, payload, packet, _) =
      update_stream_feed 1 0 a.stream (byte ∷ []) (some a.payload) max_payload in
    let fed = record a { stream = stream; payload = pointee payload } in
    if is_ok status
    then answer_uart fed (received packet)
    else if not (is_bad_length status)
    then record fed { uart = send_uart_ack 0 status 0 0 fed.uart }
    else fed

-- The loop over the bytes, by the rounds left, up to a call of the callback.
unfoldable pub agent_bytes : ℕ → UpdateAgent → UpdateAgent
agent_bytes zero a = a
agent_bytes (suc n) a =
    let (result, byte, uart) = uart_receive_byte a.uart in
    let done = agent_byte (record a { uart = uart }) byte in
    let rest = agent_bytes n done in
    if not (is_uart_ok result)
    then record a { uart = uart }
    else if done.resets == a.resets
    then rest
    else done

-- The answer to a packet that is complete.
unfoldable pub answer_can : ℕ → UpdateAgent → UpdateAgent
answer_can node_id a =
    let (status, payload, packet) =
      update_protocol_decode a.can_reassembly.packet a.can_reassembly.received_len (some a.payload)
        max_payload in
    let p = received packet in
    let reply : ℕ → UpdateStatus → ℕ → ℕ → UpdateAgent = λ command code session_id sequence.
      record a {
        payload = pointee payload;
        can = send_can_ack node_id command code session_id sequence a.can;
      } in
    let accepted = reply p.command ok p.session_id p.sequence in
    let drained = record accepted { can = (can_drain_tx accepted.can).1 } in
    if not (is_ok status)
    then reply 0 status 0 0
    else if is_known p.command
    then (if p.command == cmd_enter_update then call_reset drained else accepted)
    else reply p.command invalid_argument p.session_id p.sequence

-- The body of the loop over the frames, once a frame is received.
unfoldable pub agent_frame : ℕ → UpdateAgent → CanFrame → UpdateAgent
agent_frame node_id a frame =
    let (result, reassembly) =
      update_can_reassembly_feed a.can_reassembly frame (update_can_request_id node_id) in
    let fed = record a { can_reassembly = reassembly } in
    if is_complete result then answer_can node_id fed else fed

-- The loop over the frames, likewise.
unfoldable pub agent_frames : ℕ → ℕ → UpdateAgent → UpdateAgent
agent_frames node_id zero a = a
agent_frames node_id (suc n) a =
    let (result, frame, can) = can_receive a.can in
    let done = agent_frame node_id (record a { can = can }) frame in
    let rest = agent_frames node_id n done in
    if not (is_can_ok result)
    then record a { can = can }
    else if done.resets == a.resets
    then rest
    else done

-- A round for each byte or frame that waits, and one to find that there is no more.
unfoldable pub update_agent_poll : Board → Bool → ℕ → UpdateAgent → UpdateAgent
update_agent_poll b smoke node_id a =
    let after_bytes = agent_bytes (length a.uart.incoming + 1) a in
    let after_frames = agent_frames node_id (length after_bytes.can.incoming + 1) after_bytes in
    if not (after_bytes.resets == a.resets)
    then after_bytes
    else if listens b smoke
    then after_frames
    else after_bytes
