-- ===== src/Tests/Loops.antt =====
-- The update loop, the bus and the agent, at concrete inputs.
use stm32_vibe.Base.{
  ℕ, ◌≡◌, ◌≢◌, ◌⊎◌, refl, true, false, List, [], ◌∷◌, ◌++◌, drop, replicate, arith,
}
use stm32_vibe.Layout.{stm32f446, stm32l152}
use stm32_vibe.Protocol.{
  UpdateStatus, ok, read_u16_le, update_protocol_decode, read_u32_le, read_packet,
}
use stm32_vibe.Session.{boot_update_session_process}
use stm32_vibe.Crc.{update_protocol_crc32}
use stm32_vibe.Stream.{
  update_stream_init, update_stream_feed, look_for_packet, resync, find_sync, make_room, keep_last,
  drop_prefix, move_down, decode_packet,
}
use stm32_vibe.Can.{CanFrame, update_can_reassembly_init}
use stm32_vibe.CanBus.{CanBus, mail_of_frame}
use stm32_vibe.CanLoop.{send_ack}
use stm32_vibe.CanLoop.Deliver.{Arrives, send_ack-Arrives}
use stm32_vibe.UpdateLoop.{
  UpdateLoop, boot_update_loop_init, boot_update_loop_process_encoded, received, empty_packet,
}
use stm32_vibe.UpdateLoop.Answer.{decoded, ack_frame, process_encoded-answer}
use stm32_vibe.UpdateAgent.{UpdateAgent, update_agent_poll}
use stm32_vibe.UpdateAgent.Answer.{Logged, entries, heard}
use stm32_vibe.UpdateAgent.Drain.{update_agent_poll-drained}
use stm32_vibe.UpdateAgent.Reset.{update_agent_poll-Logged}
use stm32_vibe.Tests.Memory.{Memory, memory}
use stm32_vibe.Tests.Protocol.{rest, room}
use stm32_vibe.Tests.Session.{fresh}

abbrev pub idle_can : CanBus
idle_can = record {
  initialized = true;
  is_off = false;
  tx_count = 0;
  rx_count = 0;
  incoming = [];
  sent = [];
  states = [];
}

abbrev out : (UpdateStatus × List ℕ × ℕ) × UpdateLoop × Memory
out =
    boot_update_loop_process_encoded stm32f446 memory boot_update_loop_init fresh (68 ∷ rest) 23
      room 148 0

abbrev encoded_loop : UpdateLoop
encoded_loop = boot_update_loop_init

process_encoded-answer_example :
    let status = (decoded stm32f446 memory encoded_loop (68 ∷ rest) 23).0 in
    let packet = received (decoded stm32f446 memory encoded_loop (68 ∷ rest) 23).2 in
    let (answer, session, d') =
      boot_update_session_process stm32f446 memory encoded_loop.session packet fresh in
    ((status ≡ ok)
      × (out.0 ≡ (ok, ack_frame packet answer ++ drop 22 room, 22))
      × (out.1.session ≡ session)
      × (out.2 ≡ d'))
    ⊎ ((status ≢ ok)
        × (out.0 ≡ (ok, ack_frame empty_packet status ++ drop 22 room, 22))
        × (out.1.session ≡ encoded_loop.session)
        × (out.2 ≡ fresh))
process_encoded-answer_example =
    process_encoded-answer stm32f446 memory encoded_loop fresh (68 ∷ rest) 23 room 148 0
      (ground arith) (omega arith) (omega arith)

abbrev hello : CanFrame
hello = record { id = 0x601; dlc = 8; bytes = 1 ∷ 2 ∷ 3 ∷ 255 ∷ 0 ∷ 0 ∷ 128 ∷ 7 ∷ [] }

abbrev waiting_can : CanBus
waiting_can = record idle_can { incoming = mail_of_frame hello ∷ [] }

-- A request to enter the update mode.
abbrev enter : List ℕ
enter =
    68 ∷ 85 ∷ 1 ∷ 11 ∷ 0 ∷ 0 ∷ 0 ∷ 0 ∷ 34 ∷ 17 ∷ 0 ∷ 0 ∷ 129 ∷ 0 ∷ 0 ∷ 0 ∷ 75 ∷ 214 ∷ 51 ∷ 254 ∷ []

-- Noise, the request, and what comes behind it.
abbrev waiting_bytes : List ℕ
waiting_bytes = 68 ∷ 7 ∷ enter ++ enter

abbrev pub asked : UpdateAgent
asked = record {
  stream = update_stream_init;
  payload = replicate 128 0;
  reset_callback = true;
  can_reassembly = update_can_reassembly_init;
  uart = record { initialized = true; incoming = waiting_bytes; sent = [] };
  can = waiting_can;
  resets = 0;
}

update_agent_poll-drained_example :
    let out = update_agent_poll stm32f446 false 1 asked in
    (out.resets ≡ 1)
    ⊎ ((out.resets ≡ 0)
        × (out.uart.incoming ≡ [])
        × (true ≡ true → (out.can.incoming ≡ []) ⊎ (out.can.is_off ≡ true)))
update_agent_poll-drained_example =
    update_agent_poll-drained stm32f446 false 1 asked refl (λ _. refl)

update_agent_poll-Logged_example :
    Logged asked
      (update_agent_poll stm32l152 false 1 asked)
      (heard true update_stream_init (replicate 128 0) waiting_bytes)
update_agent_poll-Logged_example =
    update_agent_poll-Logged stm32l152 false 1 asked refl (ground arith) (ground arith) refl

-- The bytes behind the request are not heard.
heard-waiting_bytes : entries (heard true update_stream_init (replicate 128 0) waiting_bytes) ≡ 1
unfolding heard update_stream_feed look_for_packet resync find_sync make_room keep_last drop_prefix
    move_down read_u16_le decode_packet update_protocol_decode update_protocol_crc32 read_u32_le
    read_packet
heard-waiting_bytes = refl

-- A bus whose mailboxes are full at the first look.
abbrev full_can : CanBus
full_can = record idle_can { states = record { off = false; free = false; idle = false } ∷ [] }

abbrev answer : List ℕ
answer = replicate 22 7

send_ack-Arrives_example :
    Arrives 1 answer 22 full_can (send_ack 1 answer 22 full_can) update_can_reassembly_init
send_ack-Arrives_example =
    send_ack-Arrives 1 answer 22 full_can update_can_reassembly_init (omega arith) (omega arith)
      (omega arith) (ground arith) refl (refl, tt) (omega arith) refl
