-- ===== src/CanBus.antt =====
-- The CAN controller's driver (shared/hal/can.h, shared/hal_impl/stm32f4/can.c). The controller is not
-- source code: what its status registers read is a list, one entry for each time that the driver looks,
-- and its receive queue and transmit mailboxes hold the words that the driver reads and writes.
pub mod Deliver
pub mod Bitrate
use stm32_vibe.Base.{
  ℕ, zero, suc, ◌+◌, ◌-◌, ◌*◌, ◌/◌, ◌%◌, ◌==◌, ◌!=◌, ltb, leb, if◌then◌else◌, bit_and, u32,
  u32_bytes, Bool, true, false, not, ◌||◌, List, [], ◌∷◌, ◌++◌, replicate,
}
use stm32_vibe.Can.{CanFrame, can_max_data_len}
use stm32_vibe.Protocol.{read_u32_le}

-- `can_result_t`.
pub data CanResult : Type 0 where
  ok invalid_argument not_ready tx_full rx_empty bus_off : CanResult

-- A message as the registers of a mailbox hold it: the kind and the number of its identifier, its length
-- and its data in two words.
pub record Mail : Type 0 where
  pub extended : Bool
  pub identifier : ℕ
  pub dlc : ℕ
  pub low : ℕ
  pub high : ℕ

-- What the status registers read: whether the bus is off, whether a mailbox is free, whether all are.
pub record BusState : Type 0 where
  pub off : Bool
  pub free : Bool
  pub idle : Bool

-- `can_status_t` without its error count, which nothing changes, and the controller.
pub record CanBus : Type 0 where
  pub initialized : Bool
  pub is_off : Bool
  pub tx_count : ℕ
  pub rx_count : ℕ
  pub incoming : List Mail
  pub sent : List Mail
  pub states : List BusState

-- The end of the list is a bus in order with its mailboxes empty.
abbrev pub at_rest : BusState
at_rest = record { off = false; free = true; idle = true }

abbrev pub head_state : List BusState → BusState
head_state [] = at_rest
head_state (s ∷ rest) = s

abbrev pub tail_states : List BusState → List BusState
tail_states [] = []
tail_states (s ∷ rest) = rest

-- `update_bus_state`, with the reading that it takes.
abbrev pub update_bus_state : CanBus → CanBus
update_bus_state can = record can {
  is_off = (head_state can.states).off;
  states = tail_states can.states;
}

-- What `can_send` writes to the mailbox; the place of the identifier in its register has no counterpart.
unfoldable pub mail_of_frame : CanFrame → Mail
mail_of_frame frame = record {
  extended = false;
  identifier = frame.id;
  dlc = frame.dlc;
  low = read_u32_le frame.bytes 0;
  high = read_u32_le frame.bytes 4;
}

unfoldable pub can_send : CanFrame → CanBus → CanResult × CanBus
can_send frame can =
    let can' = update_bus_state can in
    if ltb can_max_data_len frame.dlc || ltb 0x7FF frame.id
    then (invalid_argument, can)
    else if not can.initialized
    then (not_ready, can)
    else if can'.is_off
    then (bus_off, can')
    else if not (head_state can.states).free
    then (tx_full, can')
    else (
      ok,
      record can' {
        sent = can.sent ++ mail_of_frame frame ∷ [];
        tx_count = u32 (can.tx_count + 1);
      },
    )

-- What `can_receive` reads from the mailbox.
unfoldable pub frame_of_mail : Mail → CanFrame
frame_of_mail mail = record {
  id = if mail.extended then bit_and mail.identifier 0x1FFFFFFF else bit_and mail.identifier 0x7FF;
  dlc = bit_and mail.dlc 0xF;
  bytes = u32_bytes mail.low ++ u32_bytes mail.high;
}

abbrev pub no_frame : CanFrame
no_frame = record { id = 0; dlc = 0; bytes = replicate 8 0 }

unfoldable pub receive_mail : CanBus → List Mail → CanResult × CanFrame × CanBus
receive_mail can [] = (rx_empty, no_frame, can)
receive_mail can (mail ∷ rest) =
    (ok, frame_of_mail mail, record can { incoming = rest; rx_count = u32 (can.rx_count + 1) })

unfoldable pub can_receive : CanBus → CanResult × CanFrame × CanBus
can_receive can =
    let can' = update_bus_state can in
    if not can.initialized
    then (not_ready, no_frame, can)
    else if can'.is_off
    then (bus_off, no_frame, can')
    else receive_mail can' can.incoming

abbrev pub drain_timeout : ℕ
drain_timeout = 1000000

-- The loop of `can_drain_tx` over the readings to come, by the rounds that are left.
unfoldable pub drain : ℕ → CanBus → List BusState → CanResult × CanBus
drain timeout can [] = (ok, can)
drain zero can (s ∷ rest) =
    let can' = record can { is_off = s.off; states = rest } in
    if s.idle then (ok, can) else if s.off then (bus_off, can') else (tx_full, can')
drain (suc timeout) can (s ∷ rest) =
    let can' = record can { is_off = s.off; states = rest } in
    let later = drain timeout can' rest in
    if s.idle then (ok, can) else if s.off then (bus_off, can') else later

unfoldable pub can_drain_tx : CanBus → CanResult × CanBus
can_drain_tx can =
    if not can.initialized then (not_ready, can) else drain drain_timeout can can.states

abbrev pub can_time_quanta : ℕ
can_time_quanta = 16

-- The checks of `can_init` on the bit rate, for the clock `pclk`, and the prescaler.
unfoldable pub can_prescaler : ℕ → ℕ → CanResult × ℕ
can_prescaler pclk bitrate =
    let divisor = u32 (bitrate * can_time_quanta) in
    let prescaler = pclk / divisor in
    if (bitrate == 0) || ltb (pclk / can_time_quanta) bitrate
    then (invalid_argument, 0)
    else if pclk % divisor != 0
    then (invalid_argument, 0)
    else if (prescaler == 0) || ltb 1024 prescaler
    then (invalid_argument, 0)
    else (ok, prescaler)

abbrev pub is_can_ok : CanResult → Bool
is_can_ok ok = true
is_can_ok _ = false

-- `entered` and `left` say whether the controller follows into and out of its initialisation in time.
unfoldable pub can_init : ℕ → Bool → Bool → ℕ → CanBus → CanResult × CanBus
can_init pclk entered left bitrate can =
    if not (is_can_ok (can_prescaler pclk bitrate).0)
    then (invalid_argument, can)
    else if not entered || not left
    then (not_ready, can)
    else (ok, record can { initialized = true; is_off = false; tx_count = 0; rx_count = 0 })

-- The status is that of the bus that is left.
unfoldable pub can_get_status : CanBus → CanBus
can_get_status can = if can.initialized then update_bus_state can else can
