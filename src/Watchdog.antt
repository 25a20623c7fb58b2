-- ===== src/Watchdog.antt =====
-- The independent watchdog of the STM32F4 (shared/hal_impl/stm32f4/watchdog.c). The peripheral is not
-- source code: it is the list of what is written to its registers, and a list of what its status reads.
pub mod Timeout
use stm32_vibe.Base.{
  ℕ, zero, suc, ◌+◌, ◌-◌, ◌*◌, ◌/◌, ◌==◌, ltb, if◌then◌else◌, u32, Bool, true, false, not, ◌||◌,
  List, [], ◌∷◌, ◌++◌,
}

-- The registers `KR`, `PR` and `RLR` that are written.
pub data Write : Type 0 where
  key prescaler reload : ℕ → Write

-- `updating` is whether the reads of `SR` to come find an update that goes on; past its end there is
-- none. `stops_in_debug` is the bit in `DBGMCU`.
pub record Iwdg : Type 0 where
  pub writes : List Write
  pub updating : List Bool
  pub stops_in_debug : Bool

abbrev pub watchdog_lsi_hz : ℕ
watchdog_lsi_hz = 32000

abbrev watchdog_prescaler : ℕ
watchdog_prescaler = 64

abbrev watchdog_prescaler_bits : ℕ
watchdog_prescaler_bits = 4

abbrev watchdog_max_reload : ℕ
watchdog_max_reload = 0xFFF

abbrev pub watchdog_update_timeout : ℕ
watchdog_update_timeout = 100000

abbrev watchdog_key_start : ℕ
watchdog_key_start = 0xCCCC

abbrev watchdog_key_enable_write : ℕ
watchdog_key_enable_write = 0x5555

abbrev pub watchdog_key_refresh : ℕ
watchdog_key_refresh = 0xAAAA

abbrev pub write : Write → Iwdg → Iwdg
write w iwdg = record iwdg { writes = iwdg.writes ++ w ∷ [] }

unfoldable pub watchdog_refresh : Iwdg → Iwdg
watchdog_refresh iwdg = write (key watchdog_key_refresh) iwdg

-- The greatest timeout, and the ticks of a timeout, for a clock of `lsi_hz`.
abbrev pub max_timeout : ℕ → ℕ
max_timeout lsi_hz = (watchdog_max_reload + 1) * watchdog_prescaler * 1000 / lsi_hz

abbrev pub timeout_ticks : ℕ → ℕ → ℕ
timeout_ticks lsi_hz timeout_ms =
    u32 (u32 (u32 (timeout_ms * lsi_hz) + watchdog_prescaler * 1000) + 4294967296 - 1)
    / (watchdog_prescaler * 1000)

-- The writes before the loop.
abbrev pub configure : ℕ → Iwdg → Iwdg
configure ticks iwdg = write (reload (u32 (ticks + 4294967296 - 1))) (
    write (prescaler watchdog_prescaler_bits) (
      write (key watchdog_key_enable_write)
        (write (key watchdog_key_start) (record iwdg { stops_in_debug = true }))))

-- The loop on `SR`, by `update_timeout`: whether it ends before that is used up.
unfoldable pub wait_update : ℕ → Iwdg → List Bool → Bool × Iwdg
wait_update update_timeout iwdg [] = (true, record iwdg { updating = [] })
wait_update zero iwdg (busy ∷ rest) =
    (if busy then false else true, record iwdg { updating = rest })
wait_update (suc update_timeout) iwdg (busy ∷ rest) =
    let later = wait_update update_timeout iwdg rest in
    if busy then later else (true, record iwdg { updating = rest })

unfoldable pub watchdog_init : ℕ → Iwdg → Bool × Iwdg
watchdog_init timeout_ms iwdg =
    let configured = configure (timeout_ticks watchdog_lsi_hz timeout_ms) iwdg in
    let (updated, waited) = wait_update watchdog_update_timeout configured configured.updating in
    if (timeout_ms == 0) || ltb (max_timeout watchdog_lsi_hz) timeout_ms
    then (false, iwdg)
    else if not updated
    then (false, waited)
    else (true, watchdog_refresh waited)
