-- ===== src/WatchdogL1.antt =====
-- The independent watchdog of the STM32L1 (shared/hal_impl/stm32l1/watchdog.c), which counts a faster
-- clock.
use stm32_vibe.Base.{
  ℕ, zero, suc, ◌==◌, ltb, if◌then◌else◌, Bool, true, false, not, ◌||◌, List, [], ◌∷◌,
}
use stm32_vibe.Watchdog.{
  Iwdg, key, write, watchdog_key_refresh, watchdog_update_timeout, max_timeout, timeout_ticks,
  configure,
}

abbrev pub watchdog_lsi_hz : ℕ
watchdog_lsi_hz = 37000

unfoldable pub watchdog_refresh : Iwdg → Iwdg
watchdog_refresh iwdg = write (key watchdog_key_refresh) iwdg

-- The loop on `SR`, by `update_timeout`: whether it ends before that is used up.
unfoldable pub wait_update : ℕ → Iwdg → List Bool → Bool × Iwdg
wait_update update_timeout iwdg [] = (true, record iwdg { updating = [] })
wait_update zero iwdg (busy ∷ rest) =
    (if busy then false else true, record iwdg { updating = rest })
wait_update (suc update_timeout) iwdg (busy ∷ rest) =
    let later = wait_update update_timeout iwdg rest in
    if busy then later else (true, record iwdg { updating = rest })

unfoldable pub watchdog_init : ℕ → Iwdg → Bool × Iwdg
watchdog_init timeout_ms iwdg =
    let configured = configure (timeout_ticks watchdog_lsi_hz timeout_ms) iwdg in
    let (updated, waited) = wait_update watchdog_update_timeout configured configured.updating in
    if (timeout_ms == 0) || ltb (max_timeout watchdog_lsi_hz) timeout_ms
    then (false, iwdg)
    else if not updated
    then (false, waited)
    else (true, watchdog_refresh waited)
