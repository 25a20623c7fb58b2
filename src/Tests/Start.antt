-- ===== src/Tests/Start.antt =====
-- The start of the bootloader and its update mode, at concrete inputs.
use stm32_vibe.Base.{◌≡◌, refl, true, false, [], arith}
use stm32_vibe.Layout.{stm32f446}
use stm32_vibe.Uart.{Uart}
use stm32_vibe.BootMain.{boot, Outcome}
use stm32_vibe.UpdateMode.{Setup, StartUp, booted, main}
use stm32_vibe.UpdateMode.Quiet.{main-boot}
use stm32_vibe.UpdateMode.Silent.{main-silent}
use stm32_vibe.Tests.Memory.{Memory, memory}
use stm32_vibe.Tests.Session.{fresh}
use stm32_vibe.Tests.Loops.{idle_can}

abbrev setup : Setup
setup = record { pclk = 45000000; entered = true; left = true; node_id = 1 }

abbrev idle_uart : Uart
idle_uart = record { initialized = false; incoming = []; sent = [] }

abbrev plain : StartUp stm32f446 memory
plain = main stm32f446 memory 7 setup fresh idle_uart idle_can [] []

abbrev decision : Outcome × Memory
decision = boot stm32f446 memory [] [] fresh

main-silent_example : plain ≡ booted decision.0 decision.1
main-silent_example =
    main-silent stm32f446 memory 7 setup fresh idle_uart idle_can [] [] (omega arith) refl refl

quiet_start : plain ≡ booted decision.0 decision.1
quiet_start =
    main-silent stm32f446 memory 7 setup fresh idle_uart idle_can [] [] (omega arith) refl refl

main-boot_example : boot stm32f446 memory [] [] fresh ≡ (decision.0, decision.1)
main-boot_example =
    main-boot stm32f446 memory 7 setup fresh decision.1 idle_uart idle_can [] [] decision.0
      quiet_start
