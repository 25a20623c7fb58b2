-- ===== src/App/Blink.antt =====
-- The LED keeps to the clock (apps/vibe/src/led_task.c).
use stm32_vibe.Base.{
  ℕ, ◌+◌, ◌-◌, ◌*◌, ◌/◌, ◌%◌, ◌==◌, ◌≤◌, ◌<◌, ◌≡◌, refl, ap, sym, ◌∙◌, subst, u32, sub32, true,
  false, arith,
}
use native.Mathlib.Decide.{dec_lt}
use stm32_vibe.App.{
  LedTask, is_due, led_task_init, led_task_process, gpio_led_set, platform_status_led_set,
}

-- The task after polls that are at most half a second apart, by the time of the last one on a clock
-- that does not wrap; the task is given the low 32 bits.
pub data Polled : ℕ → LedTask → Type 0 where
  start : (t : LedTask) → Polled 0 (led_task_init true 0 t)
  poll :
      {now : ℕ} {t : LedTask} (gap : ℕ)
      → gap ≤ 500
      → Polled now t
      → Polled (now + gap) (led_task_process (u32 (now + gap)) t)

-- The `n`-th half second, which has begun and not ended at `now`.
record IsInStep (n now : ℕ) (t : LedTask) : Type 0 where
  pub begun : 500 * n ≤ now
  pub not_ended : now < 500 * n + 500
  pub next : t.next_toggle_ms ≡ u32 (500 * n + 500)
  pub output : t.set_output ≡ true
  pub enabled : t.led_enabled ≡ (n % 2 == 1)
  pub shown : t.led.pin ≡ t.led_enabled

-- A time less than 2^31 milliseconds ahead of a toggle, or at most half a second before it.
is_due-later :
    (now next : ℕ) → next ≤ now → now < next + 2147483648 → is_due (u32 now) (u32 next) ≡ true
is_due-later now next h near =
    let k = now - next in
    let same : sub32 (u32 now) (u32 next) ≡ k = omega arith in ground (arith, same)

is_due-before : (now next : ℕ) → now < next → next ≤ now + 500 → is_due (u32 now) (u32 next) ≡ false
is_due-before now next h near =
    let same : sub32 (u32 now) (u32 next) ≡ 4294967296 - (next - now) = omega arith in
    ground (arith, same)

waits :
    (n now : ℕ) (t : LedTask)
    → IsInStep n now t
    → is_due (u32 now) t.next_toggle_ms ≡ false
    → led_task_process (u32 now) t ≡ t
unfolding led_task_process
waits n now t v h = ground (arith, h)

toggles :
    (n now : ℕ) (t : LedTask)
    → t.set_output ≡ true
    → t.next_toggle_ms ≡ u32 (500 * n + 500)
    → t.led_enabled ≡ (n % 2 == 1)
    → is_due (u32 now) t.next_toggle_ms ≡ true
    → 500 * (n + 1) ≤ now
    → now < 500 * (n + 1) + 500
    → IsInStep (n + 1) now (led_task_process (u32 now) t)
unfolding led_task_process platform_status_led_set gpio_led_set
toggles n now t output next enabled h begun not_ended = record {
  begun = begun;
  not_ended = not_ended;
  next = ground (arith, h, output, next);
  output = ground (arith, h, output);
  enabled = ground (arith, h, output, enabled);
  shown = ground (arith, h, output);
}

start-IsInStep : (t : LedTask) → IsInStep 0 0 (led_task_init true 0 t)
unfolding led_task_init platform_status_led_set gpio_led_set
start-IsInStep t = record {
  begun = omega arith;
  not_ended = omega arith;
  next = refl;
  output = refl;
  enabled = refl;
  shown = refl;
}

-- A half second, and how far the task has come in it.
record InStep (now : ℕ) (t : LedTask) : Type 0 where
  pub halves : ℕ
  pub is_in_step : IsInStep halves now t

poll-InStep :
    (n now gap : ℕ) (t : LedTask)
    → gap ≤ 500
    → IsInStep n now t
    → InStep (now + gap) (led_task_process (u32 (now + gap)) t)
poll-InStep n now gap t short v = elim (dec_lt (now + gap) (500 * n + 500)) [
  | yes early ↦
      let not_due : is_due (u32 (now + gap)) t.next_toggle_ms ≡ false =
        rw v.next (is_due-before (now + gap) (500 * n + 500) early (omega (arith, v.begun))) in
      let waited : IsInStep n (now + gap) t = record {
        begun = omega (arith, v.begun);
        not_ended = early;
        next = v.next;
        output = v.output;
        enabled = v.enabled;
        shown = v.shown;
      } in
      record {
        halves = n;
        is_in_step =
            subst (IsInStep n (now + gap)) (sym (waits n (now + gap) t waited not_due)) waited;
      }
  | no late ↦
      let due : is_due (u32 (now + gap)) t.next_toggle_ms ≡ true =
        rw v.next
          (is_due-later (now + gap) (500 * n + 500) (omega arith) (omega (arith, v.not_ended))) in
      record {
        halves = n + 1;
        is_in_step =
            toggles n (now + gap) t v.output v.next v.enabled due (omega arith)
              (omega (arith, v.not_ended));
      }
]

Polled-InStep : {now : ℕ} {t : LedTask} → Polled now t → InStep now t
Polled-InStep (start t) = record { halves = 0; is_in_step = start-IsInStep t }
Polled-InStep (poll {now} {t} gap short p) =
    let i = Polled-InStep p in poll-InStep i.halves now gap t short i.is_in_step

-- However the LED task is polled from its start at time 0 on, with at most half a second between two
-- polls, after each poll the LED is lit exactly in every second half second, even when the 32-bit clock
-- wraps around.
pub Polled-pin : {now : ℕ} {t : LedTask} → Polled now t → t.led.pin ≡ (now / 500 % 2 == 1)
Polled-pin {now} {t} p =
    let i = Polled-InStep p in
    let v = i.is_in_step in
    let half : now / 500 ≡ i.halves = omega (arith, v.begun, v.not_ended) in
    v.shown ∙ v.enabled ∙ ap (λ (n : ℕ). n % 2 == 1) (sym half)
