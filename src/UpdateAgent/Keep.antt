-- ===== src/UpdateAgent/Keep.antt =====
-- What the agent's answers leave alone: the bytes and frames that wait.
use stm32_vibe.Base.{
  ℕ, zero, suc, ◌≡◌, refl, if◌then◌else◌, ◌==◌, ◌∙◌, List, [], ◌∷◌, replicate, none, some, arith,
}
use stm32_vibe.Protocol.{Packet, UpdateStatus, pointee, update_protocol_decode}
use stm32_vibe.Stream.{update_stream_feed}
use stm32_vibe.Can.{
  CanFrame, Fragmenter, update_can_fragmenter_init, update_can_response_id,
  update_can_fragmenter_next, update_can_reassembly_feed, update_can_request_id,
}
use stm32_vibe.CanBus.{CanBus, can_send, can_drain_tx, drain, BusState}
use stm32_vibe.Uart.{Uart, uart_send, uart_drain_tx}
use stm32_vibe.UpdateLoop.{received}
use stm32_vibe.UpdateAgent.{
  ack_retries, encode_ack, UpdateAgent, send_uart_ack, send_retrying, send_can_fragments,
  send_can_ack, answer_uart, agent_byte, answer_can, agent_frame,
}

-- The port as the agent reads it.
abbrev pub Same : Uart → Uart → Type 0
Same u v = (u.incoming ≡ v.incoming) × (u.initialized ≡ v.initialized)

send_uart_ack-Same :
    (command : ℕ) (status : UpdateStatus) (session_id sequence : ℕ) (uart : Uart)
    → Same (send_uart_ack command status session_id sequence uart) uart
unfolding send_uart_ack uart_send
send_uart_ack-Same command status session_id sequence uart = ground arith

answer_uart-Same : (a : UpdateAgent) (p : Packet) → Same (answer_uart a p).uart a.uart
unfolding answer_uart uart_drain_tx
answer_uart-Same a p = ground (
  arith,
  send_uart_ack-Same p.command UpdateStatus.ok p.session_id p.sequence a.uart,
  send_uart_ack-Same p.command UpdateStatus.invalid_argument p.session_id p.sequence a.uart,
)

pub agent_byte-Same : (a : UpdateAgent) (byte : ℕ) → Same (agent_byte a byte).uart a.uart
unfolding agent_byte
agent_byte-Same a byte =
    let out = update_stream_feed 1 0 a.stream (byte ∷ []) (some a.payload) 128 in
    let fed = record a { stream = out.1; payload = pointee out.2 } in
    ground (arith, answer_uart-Same fed (received out.3), send_uart_ack-Same 0 out.0 0 0 a.uart)

-- The bus as the agent reads it.
abbrev pub SameBus : CanBus → CanBus → Type 0
SameBus c d = (c.incoming ≡ d.incoming) × (c.initialized ≡ d.initialized)

can_send-SameBus : (frame : CanFrame) (can : CanBus) → SameBus (can_send frame can).1 can
unfolding can_send
can_send-SameBus frame can = ground arith

send_retrying-SameBus :
    (n : ℕ) (frame : CanFrame) (can : CanBus) → SameBus (send_retrying n frame can).1 can
unfolding send_retrying
send_retrying-SameBus zero frame can = can_send-SameBus frame can
send_retrying-SameBus (suc n) frame can =
    let sent = can_send-SameBus frame can in
    let later = send_retrying-SameBus n frame (can_send frame can).1 in
    ground (arith, sent, later.0 ∙ sent.0, later.1 ∙ sent.1)

send_can_fragments-SameBus :
    (n : ℕ) (f : Fragmenter) (can : CanBus) → SameBus (send_can_fragments n f can) can
unfolding send_can_fragments
send_can_fragments-SameBus zero f can = (refl, refl)
send_can_fragments-SameBus (suc n) f can =
    let next = update_can_fragmenter_next f in
    elim next
      as (λ o.
        SameBus
          (elim o as (λ x. CanBus) [
            | none ↦ can
            | some x ↦
                let (done, can') = send_retrying ack_retries x.0 can in
                if done then send_can_fragments n x.1 can' else can'
          ])
          can) [
            | none ↦ (refl, refl)
            | some x ↦
                let sent = send_retrying-SameBus 100000 x.0 can in
                let later = send_can_fragments-SameBus n x.1 (send_retrying 100000 x.0 can).1 in
                ground (arith, sent, later.0 ∙ sent.0, later.1 ∙ sent.1)
          ]

send_can_ack-SameBus :
    (node_id command : ℕ) (status : UpdateStatus) (session_id sequence : ℕ) (can : CanBus)
    → SameBus (send_can_ack node_id command status session_id sequence can) can
unfolding send_can_ack
send_can_ack-SameBus node_id command status session_id sequence can =
    let encoded = encode_ack command status session_id sequence (replicate 148 0) 148 in
    elim (update_can_fragmenter_init (update_can_response_id node_id) encoded.0 encoded.1)
      as (λ o.
        SameBus
          (if encoded.1 == 0
            then can
            else elim o as (λ x. CanBus) [ none ↦ can | some f ↦ send_can_fragments 148 f can ])
          can) [
            | none ↦ ground arith
            | some f ↦ ground (arith, send_can_fragments-SameBus 148 f can)
          ]

drain-SameBus :
    (timeout : ℕ) (can : CanBus) (states : List BusState) → SameBus (drain timeout can states).1 can
unfolding drain
drain-SameBus timeout can [] = (refl, refl)
drain-SameBus zero can (s ∷ rest) = ground arith
drain-SameBus (suc timeout) can (s ∷ rest) =
    ground (arith, drain-SameBus timeout (record can { is_off = s.off; states = rest }) rest)

can_drain_tx-SameBus : (can : CanBus) → SameBus (can_drain_tx can).1 can
unfolding can_drain_tx
can_drain_tx-SameBus can = ground (arith, drain-SameBus 1000000 can can.states)

answer_can-SameBus : (node_id : ℕ) (a : UpdateAgent) → SameBus (answer_can node_id a).can a.can
unfolding answer_can
answer_can-SameBus node_id a =
    let decoded =
      update_protocol_decode a.can_reassembly.packet a.can_reassembly.received_len (some a.payload)
        128 in
    let p = received decoded.2 in
    let accepted = send_can_ack node_id p.command UpdateStatus.ok p.session_id p.sequence a.can in
    let sent =
      send_can_ack-SameBus node_id p.command UpdateStatus.ok p.session_id p.sequence a.can in
    let drained = can_drain_tx-SameBus accepted in
    ground (
      arith,
      send_can_ack-SameBus node_id 0 decoded.0 0 0 a.can,
      sent,
      send_can_ack-SameBus node_id p.command UpdateStatus.invalid_argument p.session_id p.sequence
          a.can,
      drained.0 ∙ sent.0,
      drained.1 ∙ sent.1,
    )

pub agent_frame-SameBus :
    (node_id : ℕ) (a : UpdateAgent) (frame : CanFrame)
    → SameBus (agent_frame node_id a frame).can a.can
unfolding agent_frame
agent_frame-SameBus node_id a frame =
    let fed = record a {
      can_reassembly =
          (update_can_reassembly_feed a.can_reassembly frame (update_can_request_id node_id)).1;
    } in
    ground (arith, answer_can-SameBus node_id fed)
