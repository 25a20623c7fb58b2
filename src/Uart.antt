-- ===== src/Uart.antt =====
-- The serial port (shared/hal/uart.h, shared/hal_impl/stm32f4/uart.c). The other end is not source code:
-- the bytes that wait in the receiver are a list, and so are the bytes that were sent. The loops that
-- wait for a free transmitter are taken to end.
use stm32_vibe.Base.{ℕ, ◌==◌, if◌then◌else◌, Bool, true, not, List, [], ◌∷◌, ◌++◌, take}

-- `uart_result_t`.
pub data UartResult : Type 0 where
  ok invalid_argument not_ready rx_empty tx_full : UartResult

pub record Uart : Type 0 where
  pub initialized : Bool
  pub incoming : List ℕ
  pub sent : List ℕ

unfoldable pub uart_init : ℕ → Uart → UartResult × Uart
uart_init baudrate u =
    if baudrate == 0 then (invalid_argument, u) else (ok, record u { initialized = true })

-- What the receiver's register holds; `*byte` is 0 if there is nothing to read.
unfoldable pub take_byte : Uart → List ℕ → UartResult × ℕ × Uart
take_byte u [] = (rx_empty, 0, u)
take_byte u (byte ∷ rest) = (ok, byte, record u { incoming = rest })

unfoldable pub uart_receive_byte : Uart → UartResult × ℕ × Uart
unfolding take_byte
uart_receive_byte u = if not u.initialized then (not_ready, 0, u) else take_byte u u.incoming

unfoldable pub uart_send : List ℕ → ℕ → Uart → UartResult × Uart
uart_send bytes len u =
    if not u.initialized then (not_ready, u) else (ok, record u { sent = u.sent ++ take len bytes })

unfoldable pub uart_drain_tx : Uart → UartResult × Uart
uart_drain_tx u = if not u.initialized then (not_ready, u) else (ok, u)
