-- ===== src/Lib.antt =====
-- The boot chain and the update path of the firmware.
--
-- A device has a bootloader and two application slots in flash. The bootloader reads a boot-state
-- record, lets the boot policy choose a slot, validates the image in it, leaves a handoff in RAM
-- and starts the image, relocated if it is position-independent. Updates come in packets, over a
-- serial line or CAN. The update session erases the slot that the boot policy names, stores the blocks,
-- validates the image and stages it in the boot-state record. A staged image is on trial: it is
-- started at most three times until the application confirms it.
--
-- Files and the code they model:
--   Base, Base/Lists, Base/Words, Base/Bits, Base/Tests: shared names and lemmas, no code.
--   Crc: the CRC-32 of shared/update/update_protocol.c (update_protocol_crc32) and the loop with a
--     masked field (boot_state_crc32, image_crc32, boot_handoff_crc32).
--   Layout: shared/image/flash_layout.h and the addresses of shared/boot/boot_runtime.h.
--   BootState: shared/boot/boot_state.c. BootPolicy: bootloader/src/boot_policy.c.
--   BootStore: shared/hal_impl/stm32f4/boot_state_store.c.
--   Protocol: shared/update/update_protocol.c. Can: shared/update/update_can.c.
--   Stream: shared/update/update_stream.c.
--   Image: bootloader/src/app_image.c and bootloader/src/app_validation.c.
--   Storage: the interface of bootloader/src/boot_flash.h and shared/boot/boot_state_store.h.
--   Session: bootloader/src/update_session.c, over any such storage.
--   Handoff, Runtime: shared/boot/boot_runtime.c, with prepare_boot_handoff of bootloader/src/main.c
--     and platform_boot_info_init_from of shared/platform/boot_info.c.
--   BootMain: main of bootloader/src/main.c, from the load of the boot state on.
--   Health: shared/platform/health_supervisor.c, shared/platform/boot_confirmation.c and
--     shared/platform/boot_confirmation_store.c, over any storage.
--   Uart: shared/hal/uart.h and shared/hal_impl/stm32f4/uart.c. CanBus: shared/hal/can.h and
--     shared/hal_impl/stm32f4/can.c.
--   UpdateLoop: bootloader/src/update_command.c. CanLoop: bootloader/src/update_can_loop.c. Both over
--     any storage.
--   UpdateMode: main of bootloader/src/main.c up to the load of the boot state, with its
--     enter_update_mode, probe_update_mode and run_update_loop_forever, and
--     shared/boot/update_handoff.h.
--   UpdateAgent: shared/platform/update_agent.c.
--   BootStoreL1: shared/hal_impl/stm32l1/boot_state_store.c.
--   SlotFlash: bootloader/src/boot_flash_stm32f4.c. SlotFlashL1: bootloader/src/boot_flash_stm32l1.c.
--   UartL1: shared/hal_impl/stm32l1/uart.c.
--   App: apps/vibe/src/app.c and apps/vibe/src/led_task.c, with the LED of
--     shared/hal_impl/stm32f4/gpio.c.
--   Watchdog: shared/hal_impl/stm32f4/watchdog.c. WatchdogL1: shared/hal_impl/stm32l1/watchdog.c.
--   Platform: shared/platform/runtime.c, over any storage.
--   Trace: shared/trace/trace.c. Fault: shared/fault/fault_stm32f4.c and shared/fault/fault_report.c.
--   Drivers: the STM32F446's slot driver and store as one such storage.
--   Tests: the theorems at concrete inputs, with devices in memory.
-- A name is that of the C function, type, field or constant, without its prefix where the module says
-- it. A part of a longer function has a name of its own, with a comment that says which part it is.
--
-- Conventions. An object that the code gets by pointer is a value, and a function that writes it
-- returns the new one; the tests of such a pointer against null have no counterpart. A pointer to a
-- payload is an option. A buffer is the list of its bytes; a write out of range changes nothing,
-- and the theorems on buffers have the length as a premise or prove that it suffices. Words are
-- natural numbers with `u32`, `u16` and `u8` where the C type cuts off. A flag that is 0 or 1 is a
-- Boolean. A loop is a recursion on the rounds that are left, which the loop's own bound gives, so
-- nothing runs out of fuel.
--
-- The flash controller is not part of the repository. In BootStore and BootStoreL1 its answers are
-- a list of events, one for each time that the driver unlocks it or waits for it; an event may be a
-- loss of power that leaves any words in the copy being written, and a list that ends is a loss of
-- power too. A wait for a controller that stays busy for ever is not modelled. Storage states what
-- the session and `main` use of the flash driver and the store, with one law, that saving the boot
-- state does not change a slot.
--
-- The other end of a port is not part of the repository. A serial port has the list of the bytes
-- that wait in it and of those that were sent; the CAN controller has lists of messages, and a list
-- of what its status registers read, one entry for each time that the driver looks. Lists that end
-- stand for a port with nothing more to read and for a bus in order. The slot drivers have a list
-- of the controller's answers, and what programming does to a byte of flash is a parameter, of
-- which their theorems ask at most that a byte programmed onto an erased one is held.
--
-- A loop of C without an end is modelled by its first rounds, for any number of them. The loops
-- over what waits in a port run once for each byte or frame, and a proof says that then nothing is
-- left. The loops over the fragments of a packet run 148 rounds, since a packet has at most as many
-- bytes and every fragment takes one at least.
--
-- The firmware runs in rounds, each at a time that is given and with whatever has come in over the
-- ports before it. A round that resets ends the run. The watchdogs are lists of the writes to their
-- registers. The trace is what the driver of the trace port is called with; an interrupt comes
-- between two steps of an emission, and its handler ends before the emission goes on. A callback of
-- the agent that resets does not return, and ends its poll.
--
-- Not modelled: the set-up of clocks, pins and of the trace port, the assembly of the fault handlers
-- and the jump itself, which are register accesses; whether the trace port drops a byte; the traces
-- that the other parts emit and the refresh of the watchdog in the bootloader, which change nothing
-- that they read; the host tools; test code.
pub mod App
pub mod Base
pub mod Crc
pub mod Layout
pub mod BootState
pub mod Protocol
pub mod Image
pub mod Can
pub mod Storage
pub mod Session
pub mod Fault
pub mod Handoff
pub mod Runtime
pub mod BootMain
pub mod BootPolicy
pub mod BootStore
pub mod Stream
pub mod Health
pub mod Uart
pub mod UartL1
pub mod UpdateLoop
pub mod CanBus
pub mod CanLoop
pub mod UpdateMode
pub mod UpdateAgent
pub mod BootStoreL1
pub mod SlotFlash
pub mod SlotFlashL1
pub mod Drivers
pub mod Platform
pub mod Trace
pub mod Watchdog
pub mod WatchdogL1
pub mod Tests
