-- ===== src/UartL1.antt =====
-- The serial port of the STM32L1 (shared/hal_impl/stm32l1/uart.c), with the divider of its clock and
-- the loop that sends byte by byte. The loops that wait for a free transmitter are taken to end.
pub mod Same
use stm32_vibe.Base.{
  ℕ, zero, suc, ◌+◌, ◌/◌, ◌^◌, ◌==◌, if◌then◌else◌, u32, Bool, true, not, List, [], ◌∷◌, ◌++◌,
  get_or,
}
use stm32_vibe.Uart.{UartResult, ok, invalid_argument, not_ready, rx_empty}

-- `initialized`, the register `BRR`, and the bytes that wait and that were sent.
pub record UartL1 : Type 0 where
  pub initialized : Bool
  pub brr : ℕ
  pub incoming : List ℕ
  pub sent : List ℕ

abbrev apb_prescaler_shift : List ℕ
apb_prescaler_shift = 0 ∷ 0 ∷ 0 ∷ 0 ∷ 1 ∷ 2 ∷ 3 ∷ 4 ∷ []

-- `ppre1` is the field of `RCC->CFGR`, a number below 8.
unfoldable pub uart_apb1_clock_hz : ℕ → ℕ → ℕ
uart_apb1_clock_hz system_core_clock ppre1 =
    system_core_clock / 2 ^ get_or apb_prescaler_shift ppre1 0

unfoldable pub uart_init : ℕ → ℕ → ℕ → UartL1 → UartResult × UartL1
uart_init system_core_clock ppre1 baudrate u =
    let brr = u32 (uart_apb1_clock_hz system_core_clock ppre1 + baudrate / 2) / baudrate in
    if baudrate == 0
    then (invalid_argument, u)
    else (ok, record u { initialized = true; brr = brr })

-- The status and the data register; `*byte` is 0 if there is nothing to read.
unfoldable pub read_data : UartL1 → List ℕ → UartResult × ℕ × UartL1
read_data u [] = (rx_empty, 0, u)
read_data u (byte ∷ rest) = (ok, byte, record u { incoming = rest })

unfoldable pub uart_receive_byte : UartL1 → UartResult × ℕ × UartL1
uart_receive_byte u = if not u.initialized then (not_ready, 0, u) else read_data u u.incoming

-- The loop over the data, by the bytes left, from `index` on.
unfoldable pub send_from : ℕ → ℕ → List ℕ → UartL1 → UartL1
send_from zero index bytes u = u
send_from (suc n) index bytes u =
    send_from n (index + 1) bytes (record u { sent = u.sent ++ get_or bytes index 0 ∷ [] })

unfoldable pub uart_send : List ℕ → ℕ → UartL1 → UartResult × UartL1
uart_send bytes len u = if not u.initialized then (not_ready, u) else (ok, send_from len 0 bytes u)

unfoldable pub uart_drain_tx : UartL1 → UartResult × UartL1
uart_drain_tx u = if not u.initialized then (not_ready, u) else (ok, u)
