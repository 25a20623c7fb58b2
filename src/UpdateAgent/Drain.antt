-- ===== src/UpdateAgent/Drain.antt =====
-- The polls of the agent end.
use stm32_vibe.Base.{
  ℕ, zero, suc, ◌+◌, ◌<◌, ◌≡◌, ◌⊎◌, inl, inr, refl, ap, ◌∙◌, Bool, true, false, [], length, arith,
}
use stm32_vibe.Layout.{Board}
use stm32_vibe.Can.{CanFrame}
use stm32_vibe.CanBus.{CanBus, can_receive, receive_mail, is_can_ok}
use stm32_vibe.Uart.{Uart, take_byte, uart_receive_byte}
use stm32_vibe.UpdateLoop.{is_uart_ok}
use stm32_vibe.UpdateAgent.Keep.{agent_frame-SameBus, agent_byte-Same}
use stm32_vibe.UpdateAgent.{
  UpdateAgent, answer_uart, agent_byte, agent_bytes, answer_can, agent_frame, agent_frames, listens,
  update_agent_poll,
}

-- A port that is set up has no byte, or gives one.
uart_receive_byte_cases :
    (u : Uart)
    → u.initialized ≡ true
    → ((u.incoming ≡ [])
        × (is_uart_ok (uart_receive_byte u).0 ≡ false)
        × ((uart_receive_byte u).2 ≡ u))
      ⊎ ((suc (length (uart_receive_byte u).2.incoming) ≡ length u.incoming)
          × (is_uart_ok (uart_receive_byte u).0 ≡ true)
          × ((uart_receive_byte u).2.initialized ≡ true))
unfolding uart_receive_byte take_byte
uart_receive_byte_cases u on = ground arith

-- The callback is called once at most.
agent_byte-resets :
    (a : UpdateAgent) (byte : ℕ)
    → ((agent_byte a byte).resets ≡ a.resets) ⊎ ((agent_byte a byte).resets ≡ a.resets + 1)
unfolding agent_byte answer_uart
agent_byte-resets a byte = ground arith

-- Enough rounds leave no byte, or end in a call of the callback.
agent_bytes-drained :
    (n : ℕ) (a : UpdateAgent)
    → length a.uart.incoming < n
    → a.uart.initialized ≡ true
    → ((agent_bytes n a).resets ≡ a.resets + 1)
      ⊎ (((agent_bytes n a).resets ≡ a.resets) × ((agent_bytes n a).uart.incoming ≡ []))
unfolding agent_bytes
agent_bytes-drained zero a h on = absurd (omega (arith, h))
agent_bytes-drained (suc n) a h on =
    let (result, byte, uart) = uart_receive_byte a.uart in
    let read = record a { uart = uart } in
    let same = agent_byte-Same read byte in
    let called = agent_byte-resets read byte in
    elim (uart_receive_byte_cases a.uart on) [
      | inl stop ↦ ground (arith, stop)
      | inr go ↦
          let left : length (agent_byte read byte).uart.incoming ≡ length uart.incoming =
            ap length same.0 in
          let later =
            agent_bytes-drained n (agent_byte read byte) (omega (arith, left, go.0, h))
              (same.1 ∙ go.2) in
          ground (arith, go.1, later, called)
    ]

can_receive_cases :
    (can : CanBus)
    → can.initialized ≡ true
    → ((((can_receive can).2.incoming ≡ []) ⊎ ((can_receive can).2.is_off ≡ true))
        × (is_can_ok (can_receive can).0 ≡ false)
        × ((can_receive can).2.initialized ≡ true))
      ⊎ ((suc (length (can_receive can).2.incoming) ≡ length can.incoming)
          × (is_can_ok (can_receive can).0 ≡ true)
          × ((can_receive can).2.initialized ≡ true))
unfolding can_receive receive_mail
can_receive_cases can on = ground arith

agent_frame-resets :
    (node_id : ℕ) (a : UpdateAgent) (frame : CanFrame)
    → ((agent_frame node_id a frame).resets ≡ a.resets)
      ⊎ ((agent_frame node_id a frame).resets ≡ a.resets + 1)
unfolding agent_frame answer_can
agent_frame-resets node_id a frame = ground arith

-- Enough rounds leave no frame or find the bus off, or end in a call of the callback.
agent_frames-drained :
    (node_id n : ℕ) (a : UpdateAgent)
    → length a.can.incoming < n
    → a.can.initialized ≡ true
    → ((agent_frames node_id n a).resets ≡ a.resets + 1)
      ⊎ (((agent_frames node_id n a).resets ≡ a.resets)
          × (((agent_frames node_id n a).can.incoming ≡ [])
              ⊎ ((agent_frames node_id n a).can.is_off ≡ true)))
unfolding agent_frames
agent_frames-drained node_id zero a h on = absurd (omega (arith, h))
agent_frames-drained node_id (suc n) a h on =
    let (result, frame, can) = can_receive a.can in
    let read = record a { can = can } in
    let same = agent_frame-SameBus node_id read frame in
    let called = agent_frame-resets node_id read frame in
    elim (can_receive_cases a.can on) [
      | inl stop ↦ ground (arith, stop)
      | inr go ↦
          let left : length (agent_frame node_id read frame).can.incoming ≡ length can.incoming =
            ap length same.0 in
          let later =
            agent_frames-drained node_id n (agent_frame node_id read frame)
              (omega (arith, left, go.0, h)) (same.1 ∙ go.2) in
          ground (arith, go.1, later, called)
    ]

uart-agent_frame :
    (node_id : ℕ) (a : UpdateAgent) (frame : CanFrame) → (agent_frame node_id a frame).uart ≡ a.uart
unfolding agent_frame answer_can
uart-agent_frame node_id a frame = ground arith

uart-agent_frames : (node_id n : ℕ) (a : UpdateAgent) → (agent_frames node_id n a).uart ≡ a.uart
unfolding agent_frames
uart-agent_frames node_id zero a = refl
uart-agent_frames node_id (suc n) a =
    let (result, frame, can) = can_receive a.can in
    let read = record a { can = can } in
    let later = uart-agent_frames node_id n (agent_frame node_id read frame) in
    ground (arith, later ∙ uart-agent_frame node_id read frame)

can-agent_byte : (a : UpdateAgent) (byte : ℕ) → (agent_byte a byte).can ≡ a.can
unfolding agent_byte answer_uart
can-agent_byte a byte = ground arith

can-agent_bytes : (n : ℕ) (a : UpdateAgent) → (agent_bytes n a).can ≡ a.can
unfolding agent_bytes
can-agent_bytes zero a = refl
can-agent_bytes (suc n) a =
    let (result, byte, uart) = uart_receive_byte a.uart in
    let read = record a { uart = uart } in
    let later = can-agent_bytes n (agent_byte read byte) in
    ground (arith, later ∙ can-agent_byte read byte)

-- A poll of the agent ends in one call of the reset callback or with everything read, for ports that
-- are set up: then it leaves no byte in the serial port and, on a board with CAN and outside of the bus's
-- smoke test, no frame, unless it finds the bus off.
pub update_agent_poll-drained :
    (b : Board) (smoke : Bool) (node_id : ℕ) (a : UpdateAgent)
    → a.uart.initialized ≡ true
    → (listens b smoke ≡ true → a.can.initialized ≡ true)
    → let out = update_agent_poll b smoke node_id a in
      (out.resets ≡ a.resets + 1)
      ⊎ ((out.resets ≡ a.resets)
          × (out.uart.incoming ≡ [])
          × (listens b smoke ≡ true → (out.can.incoming ≡ []) ⊎ (out.can.is_off ≡ true)))
unfolding update_agent_poll
update_agent_poll-drained b smoke node_id a on can_on =
    let bytes = agent_bytes (length a.uart.incoming + 1) a in
    let drained = agent_bytes-drained (length a.uart.incoming + 1) a (omega arith) on in
    let same = can-agent_bytes (length a.uart.incoming + 1) a in
    let rounds = length bytes.can.incoming + 1 in
    let frames : listens b smoke ≡ true
        → ((agent_frames node_id rounds bytes).resets ≡ bytes.resets + 1)
          ⊎ (((agent_frames node_id rounds bytes).resets ≡ bytes.resets)
              × (((agent_frames node_id rounds bytes).can.incoming ≡ [])
                  ⊎ ((agent_frames node_id rounds bytes).can.is_off ≡ true))) =
      λ e.
        agent_frames-drained node_id rounds bytes (omega arith)
          (ap (λ c. c.initialized) same ∙ can_on e) in
    ground (arith, drained, uart-agent_frames node_id rounds bytes, frames)
