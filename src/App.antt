-- ===== src/App.antt =====
-- The application (apps/vibe/src/app.c) with its blinking LED (apps/vibe/src/led_task.c) and the driver
-- of the LED (shared/hal_impl/stm32f4/gpio.c, which the STM32L1 shares but for its clock register). The
-- static variables of the files are the records.
pub mod Blink
use stm32_vibe.Base.{
  ℕ, ◌+◌, ◌/◌, ltb, if◌then◌else◌, u8, u32, sub32, Bool, true, false, not, ◌||◌, List, [], ◌∷◌,
  ◌!=◌,
}
use stm32_vibe.Can.{CanFrame}
use stm32_vibe.CanBus.{CanBus, is_can_ok, can_init, can_send, can_receive}

-- The level of the pin, and `led_state`.
pub record Led : Type 0 where
  pub pin : Bool
  pub led_state : ℕ

unfoldable pub gpio_led_set : Bool → Led → Led
gpio_led_set state led =
    if state then record { pin = true; led_state = 1 } else record { pin = false; led_state = 0 }

unfoldable gpio_led_toggle : Led → Led
gpio_led_toggle led = gpio_led_set (if led.led_state != 0 then false else true) led

-- `platform_status_led_set` of shared/platform/runtime.c.
unfoldable pub platform_status_led_set : Bool → Led → Led
platform_status_led_set enabled led = gpio_led_set (if enabled then true else false) led

abbrev blink_period_ms : ℕ
blink_period_ms = 500

-- `set_output` is whether there is an output function; it is the one that sets `led`.
pub record LedTask : Type 0 where
  pub set_output : Bool
  pub next_toggle_ms : ℕ
  pub led_enabled : Bool
  pub led : Led

-- `(int32_t)(now_ms - at) >= 0`.
abbrev pub is_due : ℕ → ℕ → Bool
is_due now_ms at = ltb (sub32 now_ms at) 2147483648

abbrev show : LedTask → LedTask
show t = if t.set_output then record t { led = platform_status_led_set t.led_enabled t.led } else t

unfoldable pub led_task_init : Bool → ℕ → LedTask → LedTask
led_task_init output now_ms t = show record {
  set_output = output;
  next_toggle_ms = u32 (now_ms + blink_period_ms);
  led_enabled = false;
  led = t.led;
}

unfoldable pub led_task_process : ℕ → LedTask → LedTask
led_task_process now_ms t =
    if is_due now_ms t.next_toggle_ms
    then show record t {
      led_enabled = not t.led_enabled;
      next_toggle_ms = u32 (t.next_toggle_ms + blink_period_ms);
    }
    else t

abbrev can_smoke_heartbeat_id : ℕ
can_smoke_heartbeat_id = 0x123

pub record App : Type 0 where
  pub healthy : Bool
  pub led_task : LedTask
  pub next_can_tx_ms : ℕ
  pub can_counter : ℕ

-- The heartbeat: `VIBE` and the counter.
abbrev heartbeat : ℕ → CanFrame
heartbeat counter = record {
  id = can_smoke_heartbeat_id;
  dlc = 8;
  bytes =
      0x56
      ∷ 0x49
      ∷ 0x42
      ∷ 0x45
      ∷ u8 counter
      ∷ u8 (counter / 256)
      ∷ u8 (counter / 65536)
      ∷ u8 (counter / 16777216)
      ∷ [];
}

-- A frame that was received goes back with another identifier.
unfoldable pub echo : CanBus → CanBus
echo can =
    let (result, received, can') = can_receive can in
    let sent = (can_send (record received { id = 0x124 }) can').1 in
    if is_can_ok result then sent else can'

unfoldable pub can_smoke_process : ℕ → App → CanBus → App × CanBus
can_smoke_process now_ms app can =
    let can' = echo can in
    let sent = (can_send (heartbeat app.can_counter) can').1 in
    if is_due now_ms app.next_can_tx_ms
    then (
      record app {
        can_counter = u32 (app.can_counter + 1);
        next_can_tx_ms = u32 (app.next_can_tx_ms + 500);
      },
      sent,
    )
    else (app, can')

-- `app_services_t`: whether its functions are there.
pub record AppServices : Type 0 where
  pub status_led_set : Bool
  pub request_update_reset : Bool

pub data AppInitResult : Type 0 where
  ok failed : AppInitResult

-- `smoke` is whether `ENABLE_CAN_SMOKE_TEST` is defined; `pclk`, `entered` and `left` are those of
-- `can_init`.
unfoldable pub app_init :
    Bool → ℕ → Bool → Bool → AppServices → App → CanBus → AppInitResult × App × CanBus
app_init smoke pclk entered left services app can =
    let unhealthy = record app {
      healthy = false;
      led_task = led_task_init services.status_led_set 0 app.led_task;
    } in
    let (result, can') = can_init pclk entered left 500000 can in
    if not services.status_led_set || not services.request_update_reset
    then (failed, app, can)
    else if not smoke
    then (ok, record unhealthy { healthy = true }, can)
    else if not (is_can_ok result)
    then (failed, unhealthy, can')
    else (ok, record unhealthy { healthy = true; can_counter = 0; next_can_tx_ms = 500 }, can')

unfoldable pub app_process : Bool → ℕ → App → CanBus → App × CanBus
app_process smoke now_ms app can =
    let processed = record app { led_task = led_task_process now_ms app.led_task } in
    if smoke then can_smoke_process now_ms processed can else (processed, can)

unfoldable pub app_is_healthy : App → Bool
app_is_healthy app = app.healthy
