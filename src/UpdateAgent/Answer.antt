-- ===== src/UpdateAgent/Answer.antt =====
-- What the agent answers to a byte over the serial port.
use stm32_vibe.Base.{
  ℕ, suc, ◌+◌, ◌<◌, ◌==◌, ◌≡◌, refl, subst, not, ap, sym, ◌∙◌, if◌then◌else◌, ◌&&◌, Bool, true,
  false, List, [], ◌∷◌, ◌++◌, take, drop, replicate, take-append, append_nil, Option, some,
  AreBytes, arith,
}
use stm32_vibe.Protocol.{
  Packet, UpdateStatus, ok, invalid_argument, bad_length, max_payload, pointee,
}
use stm32_vibe.Protocol.Frame.{frame}
use stm32_vibe.Stream.{Stream, update_stream_feed, is_ok}
use stm32_vibe.Uart.{Uart, uart_send, uart_drain_tx}
use stm32_vibe.UpdateLoop.{received, empty_packet, ack_packet, is_bad_length}
use stm32_vibe.UpdateLoop.Answer.{IsAnswerable, ack_frame, ack_packet-IsEncodable}
use stm32_vibe.Protocol.Encode.{update_protocol_encode-frame}
use stm32_vibe.Session.{cmd_enter_update}
use stm32_vibe.UpdateAgent.{
  UpdateAgent, is_known, encode_ack, send_uart_ack, answer_uart, agent_byte,
}
use stm32_vibe.UpdateAgent.Bytes.{feed_byte-AreBytes}

-- An answer of the agent: to a packet, or to bytes that are none.
pub data Answer : Type 0 where
  answered : Packet → Answer
  complained : UpdateStatus → Answer

-- What it sends for one.
abbrev pub answer_frame : Answer → List ℕ
answer_frame (answered packet) =
    ack_frame packet (if is_known packet.command then ok else invalid_argument)
answer_frame (complained status) = ack_frame empty_packet status

-- Whether it is to a request to enter the update mode.
abbrev pub is_entry : Answer → Bool
is_entry (answered packet) = packet.command == cmd_enter_update
is_entry (complained status) = false

abbrev pub answer_frames : List Answer → List ℕ
answer_frames [] = []
answer_frames (x ∷ xs) = answer_frame x ++ answer_frames xs

-- The resets asked for by answers.
abbrev pub entries : List Answer → ℕ
entries [] = 0
entries (x ∷ xs) = if is_entry x then suc (entries xs) else entries xs

send_uart_ack_lem :
    (p : Packet) (status : UpdateStatus) (uart : Uart)
    → IsAnswerable p
    → uart.initialized ≡ true
    → send_uart_ack p.command status p.session_id p.sequence uart
      ≡ record uart { sent = uart.sent ++ ack_frame p status }
unfolding send_uart_ack encode_ack uart_send frame
send_uart_ack_lem p status uart h on =
    let encoded =
      update_protocol_encode-frame (ack_packet p.command status p.session_id p.sequence)
        (replicate 148 0) 148 0 (ack_packet-IsEncodable p status h) (omega arith) (omega arith) in
    let sent : take 22 (ack_frame p status ++ drop 22 (replicate 148 0)) ≡ ack_frame p status =
      take-append (ack_frame p status) (drop 22 (replicate 148 0)) in
    rw (encoded, sent, on)

-- The answers that a fed byte makes for, by what the parser says of it.
abbrev pub answers_to : UpdateStatus → Packet → List Answer
answers_to status packet =
    if is_ok status
    then answered packet ∷ []
    else if not (is_bad_length status)
    then complained status ∷ []
    else []

-- The answers that bytes ask for, one at most for a byte: the packets that the parser finds in them, in
-- their order, and its complaints. With a callback there is none behind the first request to enter the
-- update mode.
unfoldable pub heard : Bool → Stream → List ℕ → List ℕ → List Answer
heard callback stream payload [] = []
heard callback stream payload (byte ∷ bytes) =
    let (status, stream', payload', packet, _) =
      update_stream_feed 1 0 stream (byte ∷ []) (some payload) max_payload in
    let answers = answers_to status (received packet) in
    let rest = heard callback stream' (pointee payload') bytes in
    if callback && not (entries answers == 0) then answers else answers ++ rest

-- What the agent is when it has given `log`.
pub record IsLogged (a a' : UpdateAgent) (log : List Answer) : Type 0 where
  pub sent : a'.uart.sent ≡ a.uart.sent ++ answer_frames log
  pub resets : a'.resets ≡ (if a.reset_callback then a.resets + entries log else a.resets)
  pub callback : a'.reset_callback ≡ a.reset_callback
  pub on : a'.uart.initialized ≡ true

answer_uart_lem :
    (a : UpdateAgent) (p : Packet)
    → IsAnswerable p
    → a.uart.initialized ≡ true
    → IsLogged a (answer_uart a p) (answered p ∷ [])
unfolding answer_uart uart_drain_tx
answer_uart_lem a p h on =
    let accepted = send_uart_ack_lem p ok a.uart h on in
    let rejected = send_uart_ack_lem p invalid_argument a.uart h on in
    let one = append_nil (answer_frame (answered p)) in
    record {
      sent = ground (arith, accepted, rejected, one);
      resets = ground (arith, accepted, rejected);
      callback = ground arith;
      on = ground (arith, accepted, rejected);
    }

complain_lem :
    (a : UpdateAgent) (status : UpdateStatus)
    → a.uart.initialized ≡ true
    → IsLogged a (record a { uart = send_uart_ack 0 status 0 0 a.uart }) (complained status ∷ [])
complain_lem a status on =
    let sent = send_uart_ack_lem empty_packet status a.uart (omega arith) on in
    let one = append_nil (answer_frame (complained status)) in
    record {
      sent = ap (λ u. u.sent) sent ∙ ap (λ k. a.uart.sent ++ k) (sym one);
      resets = ground arith;
      callback = refl;
      on = ap (λ u. u.initialized) sent ∙ on;
    }

-- The answers that lead from one to the other, with the stream of bytes.
pub record Logged (a a' : UpdateAgent) (log : List Answer) : Type 0 where
  pub is_logged : IsLogged a a' log
  pub bytes : AreBytes a'.stream.buffer

stream-answer_uart : (a : UpdateAgent) (p : Packet) → (answer_uart a p).stream ≡ a.stream
unfolding answer_uart
stream-answer_uart a p = ground arith

pub nothing : (a : UpdateAgent) → a.uart.initialized ≡ true → IsLogged a a []
nothing a on = record {
  sent = sym (append_nil a.uart.sent);
  resets = ground arith;
  callback = refl;
  on = on;
}

module _ (a : UpdateAgent) (stream : Stream) (payload : List ℕ) (h : AreBytes stream.buffer)
    (on : a.uart.initialized ≡ true) where
  abbrev fed : UpdateAgent
  fed = record a { stream = stream; payload = payload }

  fed_packet : (p : Packet) → IsAnswerable p → Logged a (answer_uart fed p) (answered p ∷ [])
  fed_packet p v = record {
    is_logged =
        let kept = answer_uart_lem fed p v on in
        record { sent = kept.sent; resets = kept.resets; callback = kept.callback; on = kept.on };
    bytes = subst (λ s. AreBytes s.buffer) (sym (stream-answer_uart fed p)) h;
  }

  fed_noise :
      (status : UpdateStatus)
      → Logged a (record fed { uart = send_uart_ack 0 status 0 0 a.uart }) (complained status ∷ [])
  fed_noise status = record {
    is_logged =
        let kept = complain_lem fed status on in
        record { sent = kept.sent; resets = kept.resets; callback = kept.callback; on = kept.on };
    bytes = h;
  }

  fed_part : Logged a fed []
  fed_part = record {
    is_logged =
        let kept = nothing fed on in
        record { sent = kept.sent; resets = kept.resets; callback = kept.callback; on = kept.on };
    bytes = h;
  }

  fed_any :
      (status : UpdateStatus) (p : Packet)
      → (status ≡ ok → IsAnswerable p)
      → Logged a
          (if is_ok status
            then answer_uart fed p
            else if not (is_bad_length status)
            then record fed { uart = send_uart_ack 0 status 0 0 fed.uart }
            else fed)
          (answers_to status p)
  fed_any ok p v = fed_packet p (v refl)
  fed_any bad_length p v = fed_part
  fed_any status p v = fed_noise status

-- What the parser makes of a byte.
abbrev pub parsed : UpdateAgent → ℕ → UpdateStatus × Stream × Option (List ℕ) × Option Packet × ℕ
parsed a byte = update_stream_feed 1 0 a.stream (byte ∷ []) (some a.payload) max_payload

-- A byte makes for one answer at most.
pub agent_byte-Logged :
    (a : UpdateAgent) (byte : ℕ)
    → AreBytes a.stream.buffer
    → byte < 256
    → a.uart.initialized ≡ true
    → let out = parsed a byte in Logged a (agent_byte a byte) (answers_to out.0 (received out.3))
unfolding agent_byte
agent_byte-Logged a byte h small on =
    let out = parsed a byte in
    let kept = feed_byte-AreBytes a.stream byte (some a.payload) 128 h small in
    fed_any a out.1 (pointee out.2) kept.0 on out.0 (received out.3) kept.1

-- The parser's state goes on to the next byte.
pub parser-agent_byte :
    (a : UpdateAgent) (byte : ℕ)
    → let out = parsed a byte in
      ((agent_byte a byte).stream ≡ out.1) × ((agent_byte a byte).payload ≡ pointee out.2)
unfolding agent_byte answer_uart
parser-agent_byte a byte = ground arith
