-- ===== src/UartL1/Same.antt =====
-- The two serial ports behave alike (shared/hal_impl/stm32l1/uart.c and stm32f4/uart.c).
use stm32_vibe.Base.{
  ℕ, zero, suc, ◌+◌, ◌*◌, ◌/◌, ◌%◌, ◌≤◌, ◌<◌, ◌≡◌, ap, sym, ◌∙◌, List, [], ◌∷◌, ◌++◌, get_or, take,
  drop, length, snoc-append, append_nil, drop-cons, arith,
}
use native.Mathlib.Nat.{div-add-mod', mod-lt}
use stm32_vibe.Uart.{Uart, UartResult}
use stm32_vibe.Uart
use stm32_vibe.UartL1.{
  UartL1, uart_apb1_clock_hz, uart_init, read_data, uart_receive_byte, send_from, uart_send,
  uart_drain_tx,
}

-- The port as its users see it.
abbrev view : UartL1 → Uart
view u = record { initialized = u.initialized; incoming = u.incoming; sent = u.sent }

send_from_lem :
    (n index : ℕ) (bytes : List ℕ) (u : UartL1)
    → index + n ≤ length bytes
    → send_from n index bytes u ≡ record u { sent = u.sent ++ take n (drop index bytes) }
unfolding send_from
send_from_lem zero index bytes u h = ground (arith, append_nil u.sent)
send_from_lem (suc n) index bytes u h =
    let byte = get_or bytes index 0 in
    send_from_lem n (index + 1) bytes (record u { sent = u.sent ++ byte ∷ [] }) (omega arith)
    ∙ ap (λ (out : List ℕ). record u { sent = out })
        (snoc-append u.sent byte (take n (drop (index + 1) bytes))
          ∙ ap (λ (rest : List ℕ). u.sent ++ take (suc n) rest)
              (sym (drop-cons bytes index 0 (omega arith))))

-- The divider that is nearest to the clock over the rate.
record IsNearest (clock baudrate brr : ℕ) : Type 0 where
  pub not_above : 2 * (brr * baudrate) ≤ 2 * clock + baudrate
  pub not_below : 2 * clock < 2 * (brr * baudrate) + baudrate

-- The ports agree in every operation.
record IsSame (clock ppre1 baudrate len : ℕ) (bytes : List ℕ) (u : UartL1) : Type 0 where
  pub started :
      ((uart_init clock ppre1 baudrate u).0 ≡ (Uart.uart_init baudrate (view u)).0)
      × (view (uart_init clock ppre1 baudrate u).1 ≡ (Uart.uart_init baudrate (view u)).1)
  pub nearest :
      IsNearest (uart_apb1_clock_hz clock ppre1) baudrate (uart_init clock ppre1 baudrate u).1.brr
  pub received :
      ((uart_receive_byte u).0 ≡ (Uart.uart_receive_byte (view u)).0)
      × ((uart_receive_byte u).1 ≡ (Uart.uart_receive_byte (view u)).1)
      × (view (uart_receive_byte u).2 ≡ (Uart.uart_receive_byte (view u)).2)
  pub sent :
      ((uart_send bytes len u).0 ≡ (Uart.uart_send bytes len (view u)).0)
      × (view (uart_send bytes len u).1 ≡ (Uart.uart_send bytes len (view u)).1)
  pub drained :
      ((uart_drain_tx u).0 ≡ (Uart.uart_drain_tx (view u)).0)
      × (view (uart_drain_tx u).1 ≡ (Uart.uart_drain_tx (view u)).1)

nearest_lem :
    (clock baudrate : ℕ)
    → 0 < baudrate
    → clock + baudrate / 2 < 4294967296
    → IsNearest clock baudrate ((clock + baudrate / 2) % 4294967296 / baudrate)
nearest_lem clock baudrate h fits =
    let n = (clock + baudrate / 2) % 4294967296 in
    let whole : n ≡ clock + baudrate / 2 = omega arith in
    let split = div-add-mod' n baudrate in
    let less = mod-lt n h in
    record {
      not_above = omega (arith, whole, split);
      not_below = omega (arith, whole, split, less);
    }

-- On a port of the STM32L1, every operation gives the result that it gives on a port of the STM32F4 and
-- leaves the port alike, for data with as many bytes as are sent; and the divider that is set for a
-- rate other than 0 is the nearest to the clock over the rate, for a clock and rate whose sum does not
-- overflow.
uart-IsSame :
    (clock ppre1 baudrate len : ℕ) (bytes : List ℕ) (u : UartL1)
    → len ≤ length bytes
    → 0 < baudrate
    → uart_apb1_clock_hz clock ppre1 + baudrate / 2 < 4294967296
    → IsSame clock ppre1 baudrate len bytes u
unfolding uart_init uart_receive_byte read_data uart_send uart_drain_tx Uart.uart_init
    Uart.uart_receive_byte Uart.take_byte Uart.uart_send Uart.uart_drain_tx
uart-IsSame clock ppre1 baudrate len bytes u long rate fits =
    let loop = send_from_lem len 0 bytes u (omega (arith, long)) in
    record {
      started = ground arith;
      nearest =
          ground (arith, rate, nearest_lem (uart_apb1_clock_hz clock ppre1) baudrate rate fits);
      received = ground arith;
      sent = ground (arith, loop);
      drained = ground arith;
    }
