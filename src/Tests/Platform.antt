-- ===== src/Tests/Platform.antt =====
-- The firmware around the application, at concrete inputs.
use stm32_vibe.Base.{ℕ, ◌≡◌, ◌==◌, ◌/◌, ◌%◌, ◌++◌, refl, true, false, [], ◌∷◌, some, arith}
use stm32_vibe.Layout.{stm32l152}
use stm32_vibe.Crc.{crc32_update}
use stm32_vibe.CanBus.{CanBus}
use stm32_vibe.Handoff.{
  Handoff, boot_handoff_crc32, boot_handoff_update_crc, boot_handoff_is_valid,
  platform_boot_info_init_from,
}
use stm32_vibe.Health.{
  health_supervisor_init, boot_confirmation_init, platform_confirm_pending_boot,
}
use stm32_vibe.Uart.{uart_init, uart_receive_byte}
use stm32_vibe.UpdateAgent.{UpdateAgent, update_agent_init, update_agent_poll, agent_bytes}
use stm32_vibe.UpdateMode.{Setup}
use stm32_vibe.UpdateMode
use stm32_vibe.App.{
  App, AppServices, AppInitResult, LedTask, led_task_init, led_task_process, app_init,
}
use stm32_vibe.App.Blink.{start, poll, Polled-pin}
use stm32_vibe.Watchdog.{Iwdg}
use stm32_vibe.WatchdogL1
use stm32_vibe.Watchdog.Timeout.{Starts, IsStarted, board_watchdog_init, board_watchdog_init-Starts}
use stm32_vibe.Platform.{Firmware, Started, looping, goes_on, main, round, after_poll, arrive, Runs}
use stm32_vibe.Platform
use stm32_vibe.Platform.Rounds.{refreshes, main-fed}
use stm32_vibe.Platform.Confirm.{expected, main-confirmed}
use stm32_vibe.Platform.Restart.{IsHandled, round-IsHandled}
use stm32_vibe.Tests.Memory.{memory}
use stm32_vibe.Tests.Session.{fresh}
use stm32_vibe.Tests.Loops.{idle_can, asked}

abbrev dark : LedTask
dark = record {
  set_output = false;
  next_toggle_ms = 0;
  led_enabled = false;
  led = record { pin = true; led_state = 0 };
}

abbrev after_600 : LedTask
after_600 = led_task_process 600 (led_task_process 300 (led_task_init true 0 dark))

Polled-pin_example : after_600.led.pin ≡ (600 / 500 % 2 == 1)
Polled-pin_example = Polled-pin (poll 300 (omega arith) (poll 300 (omega arith) (start dark)))

abbrev idle_iwdg : Iwdg
idle_iwdg = record { writes = []; updating = true ∷ false ∷ []; stops_in_debug = false }

board_watchdog_init-Starts_example :
    Starts 37000 4000 1 idle_iwdg (board_watchdog_init stm32l152 4000 idle_iwdg)
board_watchdog_init-Starts_example = board_watchdog_init-Starts stm32l152 4000 1 idle_iwdg [] refl

abbrev setup : Setup
setup = record { pclk = 45000000; entered = true; left = true; node_id = 1 }

abbrev handoff : Handoff
handoff = record {
  magic = 0x46444E48;
  version = 1;
  size = 36;
  image_base = 0x08010000;
  image_size = 576;
  slot = 0;
  state = 1;
  boot_attempt = 1;
  crc32 = 0;
}

abbrev off_agent : UpdateAgent
off_agent = record asked {
  reset_callback = false;
  uart = record { initialized = false; incoming = []; sent = [] };
  can = idle_can;
}

abbrev off_app : App
off_app = record { healthy = false; led_task = dark; next_can_tx_ms = 0; can_counter = 0 }

abbrev begun : Started stm32l152 memory false setup
begun =
    main stm32l152 memory false setup (boot_handoff_update_crc handoff) off_agent off_app fresh
      idle_iwdg 0

abbrev given : AppServices
given = record { status_led_set = true; request_update_reset = true }

abbrev agent : UpdateAgent
agent = update_agent_init stm32l152 false 45000000 true true true off_agent

abbrev inited : AppInitResult × App × CanBus
inited = app_init false 45000000 true true given off_app agent.can

abbrev fw : Firmware stm32l152 memory false setup
fw = record {
  boot_info = record {
    image_base = 0x08010000;
    image_size = 576;
    slot = 0;
    boot_attempt = 1;
    pending = true;
  };
  agent = record agent { can = inited.2 };
  app = inited.1;
  supervisor = health_supervisor_init 2000;
  confirmation = boot_confirmation_init 5000 (some (platform_confirm_pending_boot memory));
  device = fresh;
  iwdg = (board_watchdog_init stm32l152 4000 idle_iwdg).1;
  word = 0;
}

main-fw : begun ≡ looping fw
unfolding main platform_boot_info_init_from boot_handoff_is_valid boot_handoff_update_crc
    boot_handoff_crc32 app_init board_watchdog_init WatchdogL1.watchdog_init WatchdogL1.wait_update
    crc32_update
main-fw = refl

-- The firmware after a round at a time.
abbrev polled_at : ℕ → Firmware stm32l152 memory false setup → Firmware stm32l152 memory false setup
polled_at now_ms f =
    let arrived = arrive stm32l152 memory false setup [] [] f in
    after_poll stm32l152 memory false setup now_ms arrived
      (update_agent_poll stm32l152 false 1 arrived.agent)

abbrev fw_10 : Firmware stm32l152 memory false setup
fw_10 = polled_at 10 fw

abbrev fw_5010 : Firmware stm32l152 memory false setup
fw_5010 = polled_at 5010 fw_10

round-10 :
    round stm32l152 memory false setup 10 (arrive stm32l152 memory false setup [] [] fw)
    ≡ goes_on fw_10
unfolding round update_agent_poll agent_bytes update_agent_init uart_init uart_receive_byte
round-10 = refl

round-5010 :
    round stm32l152 memory false setup 5010 (arrive stm32l152 memory false setup [] [] fw_10)
    ≡ goes_on fw_5010
unfolding round update_agent_poll agent_bytes after_poll update_agent_init uart_init
    uart_receive_byte
round-5010 = refl

two_rounds : Runs stm32l152 memory false setup fw (5010 ∷ 10 ∷ []) fw_5010
two_rounds = Platform.next 5010 [] [] (Platform.next 10 [] [] Platform.start round-10) round-5010

main-fed_example :
    IsStarted 37000 4000 idle_iwdg fw.iwdg × (fw_5010.iwdg.writes ≡ fw.iwdg.writes ++ refreshes 2)
main-fed_example =
    main-fed stm32l152 memory false setup (boot_handoff_update_crc handoff) off_agent off_app fresh
      idle_iwdg 0 1 [] refl main-fw two_rounds

main-confirmed_example :
    (fw_5010.device ≡ (expected stm32l152 memory false setup (5010 ∷ 10 ∷ []) fresh).1)
    × (fw_5010.confirmation.completed
        ≡ (expected stm32l152 memory false setup (5010 ∷ 10 ∷ []) fresh).0)
main-confirmed_example =
    main-confirmed stm32l152 memory false setup (boot_handoff_update_crc handoff) off_agent off_app
      fresh idle_iwdg 0 main-fw two_rounds

-- The firmware with a packet that waits.
abbrev asked_fw : Firmware stm32l152 memory false setup
asked_fw = record fw { agent = asked }

round-IsHandled_example :
    IsHandled stm32l152 memory false setup 10 asked_fw
      (λ word. UpdateMode.main stm32l152 memory word setup fresh off_agent.uart idle_can [] [])
round-IsHandled_example =
    round-IsHandled stm32l152 memory false setup 10 asked_fw setup fresh off_agent.uart idle_can []
      [] refl (ground arith) (ground arith) refl refl
