-- ===== src/UpdateMode.antt =====
-- The update mode and the start of the bootloader (bootloader/src/main.c up to the load of the boot
-- state, and update_handoff_take of shared/boot/update_handoff.h). The watchdog and the traces have no
-- counterpart.
pub mod Quiet
pub mod Request
pub mod Silent
use stm32_vibe.Base.{
  ℕ, zero, suc, ◌+◌, ◌==◌, ◌!=◌, if◌then◌else◌, Bool, true, false, not, ◌&&◌, ◌||◌, List, Option,
  none, some,
}
use stm32_vibe.Layout.{Board, stm32f446, stm32l152}
use stm32_vibe.Storage.{Storage}
use stm32_vibe.Can.{update_can_reassembly_init}
use stm32_vibe.CanBus.{CanBus}
use stm32_vibe.CanLoop.{
  CanUpdateLoop, CanPolling, boot_can_update_loop_init, boot_can_update_loop_poll,
}
use stm32_vibe.Uart.{Uart, uart_init}
use stm32_vibe.UpdateLoop.{
  UpdateLoop, PollResult, boot_update_loop_init, boot_update_loop_poll, is_uart_ok,
}
use stm32_vibe.BootMain.{Outcome, boot}

-- `BOARD_HAS_CAN`.
abbrev pub has_can : Board → Bool
has_can stm32f446 = true
has_can stm32l152 = false

abbrev pub update_uart_baud : ℕ
update_uart_baud = 115200

abbrev pub update_can_bitrate : ℕ
update_can_bitrate = 500000

abbrev pub update_probe_polls : ℕ
update_probe_polls = 10000

abbrev pub update_handoff_magic : ℕ
update_handoff_magic = 0x55504454

-- The word in RAM, and the word that is left.
unfoldable pub update_handoff_take : ℕ → Bool × ℕ
update_handoff_take word = if word != update_handoff_magic then (false, word) else (true, 0)

unfoldable pub update_handoff_request : ℕ → ℕ
update_handoff_request word = update_handoff_magic

-- What the build and the board give: the clock of the CAN controller, whether it follows into and out of
-- its initialisation, and `UPDATE_CAN_NODE_ID`.
pub record Setup : Type 0 where
  pub pclk : ℕ
  pub entered : Bool
  pub left : Bool
  pub node_id : ℕ

abbrev pub no_can_loop : CanUpdateLoop
no_can_loop = record { reassembly = update_can_reassembly_init; node_id = 0; initialized = false }

module _ (b : Board) (storage : Storage) where
  open storage use {Device}

  -- The two loops and what they work on.
  pub record UpdateMode : Type 0 where
    pub loop : UpdateLoop
    pub can_loop : CanUpdateLoop
    pub device : Device
    pub uart : Uart
    pub can : CanBus

  abbrev pub polling : UpdateMode → CanPolling b storage
  polling m = record {
    can_loop = m.can_loop;
    loop = m.loop;
    device = m.device;
    can = m.can;
    frames = 0;
  }

  -- The poll of the serial port, with its result.
  unfoldable pub poll_uart : UpdateMode → PollResult × UpdateMode
  poll_uart m =
      let (result, loop, d, uart) = boot_update_loop_poll b storage m.loop m.device m.uart in
      (result, record m { loop = loop; device = d; uart = uart })

  -- The poll of CAN, with its count of frames.
  unfoldable pub poll_can : UpdateMode → ℕ × UpdateMode
  poll_can m =
      let p = boot_can_update_loop_poll b storage (polling m) in
      (p.frames, record m { loop = p.loop; can_loop = p.can_loop; device = p.device; can = p.can })

  -- A round of `run_update_loop_forever`, up to its test.
  unfoldable pub update_round : UpdateMode → UpdateMode
  update_round m =
      let after_uart = (poll_uart m).1 in if has_can b then (poll_can after_uart).1 else after_uart

  -- The first `n` rounds of `run_update_loop_forever`: `some` with the state in which it resets.
  unfoldable pub run_update_loop : ℕ → UpdateMode → Option UpdateMode
  run_update_loop zero m = none
  run_update_loop (suc n) m =
      let m' = update_round m in
      let later = run_update_loop n m' in if m'.loop.session.reset_requested then some m' else later

  -- Both loops as `enter_update_mode` and `probe_update_mode` set them up, and whether each transport is
  -- ready.
  unfoldable pub set_up : Setup → Device → Uart → CanBus → (Bool × Bool) × UpdateMode
  set_up setup d uart can =
      let (uart_result, uart') = uart_init update_uart_baud uart in
      let (can_loop, can') =
        boot_can_update_loop_init setup.pclk setup.entered setup.left setup.node_id
          update_can_bitrate can in
      let start : UpdateMode = record {
        loop = boot_update_loop_init;
        can_loop = no_can_loop;
        device = d;
        uart = uart';
        can = can;
      } in
      if not (has_can b) then ((is_uart_ok uart_result, false), start) else elim can_loop [
        | none ↦ ((is_uart_ok uart_result, false), record start { can = can' })
        | some ready ↦
            ((is_uart_ok uart_result, true), record start { can_loop = ready; can = can' })
      ]

  -- What `enter_update_mode` comes to in `n` rounds; without a transport it stops.
  unfoldable pub enter_update_mode : ℕ → Setup → Device → Uart → CanBus → Option UpdateMode
  enter_update_mode n setup d uart can =
      let ((uart_ready, can_ready), m) = set_up setup d uart can in
      let running = run_update_loop n m in if uart_ready || can_ready then running else none

  -- A probe ends quietly, or with traffic and the run of the update loop.
  pub data Probe : Type 0 where
    quiet heard : UpdateMode → Probe

  -- One poll of the probe: whether something came in.
  unfoldable pub probe_poll : Bool → UpdateMode → Bool × UpdateMode
  probe_poll can_ready m =
      let (result, after_uart) = poll_uart m in
      let (frames, after_can) = poll_can after_uart in
      let heard_uart =
        (result.bytes != 0) || (result.packets != 0) || (result.parse_failures != 0) in
      if can_ready then (heard_uart || (frames != 0), after_can) else (heard_uart, after_uart)

  -- The loop of `probe_update_mode`, by the polls left.
  unfoldable pub probe_polls : ℕ → Bool → UpdateMode → Probe
  probe_polls zero can_ready m = quiet m
  probe_polls (suc n) can_ready m =
      let (traffic, m') = probe_poll can_ready m in
      let later = probe_polls n can_ready m' in if traffic then heard m' else later

  unfoldable pub probe_update_mode : Setup → Device → Uart → CanBus → Probe
  probe_update_mode setup d uart can =
      let ((uart_ready, can_ready), m) = set_up setup d uart can in
      let polled = probe_polls update_probe_polls can_ready m in
      if not uart_ready && not can_ready then quiet m else polled

  -- What `main` comes to.
  pub data StartUp : Type 0 where
    requested : StartUp
    interrupted : UpdateMode → StartUp
    booted : Outcome → Device → StartUp

  unfoldable pub boot_after : Probe → List ℕ → List ℕ → StartUp
  boot_after (heard m) vectors got = interrupted m
  boot_after (quiet m) vectors got =
      let (outcome, d) = boot b storage vectors got m.device in booted outcome d

  -- `word` is the request in RAM, `vectors` and `got` are the runtime tables.
  unfoldable pub main : ℕ → Setup → Device → Uart → CanBus → List ℕ → List ℕ → StartUp
  main word setup d uart can vectors got =
      let started = boot_after (probe_update_mode setup d uart can) vectors got in
      if (update_handoff_take word).0 then requested else started
