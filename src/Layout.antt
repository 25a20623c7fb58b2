-- ===== src/Layout.antt =====
-- shared/image/flash_layout.h and the address constants of shared/boot/boot_runtime.h and
-- bootloader/src/app_validation.h, for the two boards that the build selects between.
use stm32_vibe.Base.{ℕ, ◌+◌}

pub data Board : Type 0 where
  stm32f446 stm32l152 : Board

abbrev pub app_slot_size : Board → ℕ
app_slot_size stm32f446 = 0x00020000
app_slot_size stm32l152 = 0x00037000

abbrev pub app_slot_a_start_addr : Board → ℕ
app_slot_a_start_addr stm32f446 = 0x08020000
app_slot_a_start_addr stm32l152 = 0x08011000

abbrev pub app_slot_b_start_addr : Board → ℕ
app_slot_b_start_addr stm32f446 = 0x08040000
app_slot_b_start_addr stm32l152 = 0x08048000

abbrev pub app_slot_a_end_addr : Board → ℕ
app_slot_a_end_addr b = app_slot_a_start_addr b + app_slot_size b

abbrev pub app_slot_b_end_addr : Board → ℕ
app_slot_b_end_addr b = app_slot_b_start_addr b + app_slot_size b

abbrev pub ram_start_addr : ℕ
ram_start_addr = 0x20000000

abbrev pub ram_end_addr : Board → ℕ
ram_end_addr stm32f446 = 0x20020000
ram_end_addr stm32l152 = 0x20014000

abbrev pub boot_runtime_got_addr : Board → ℕ
boot_runtime_got_addr stm32f446 = 0x2001F800
boot_runtime_got_addr stm32l152 = 0x20013800

abbrev pub boot_runtime_vector_addr : Board → ℕ
boot_runtime_vector_addr stm32f446 = 0x2001FC00
boot_runtime_vector_addr stm32l152 = 0x20013C00
