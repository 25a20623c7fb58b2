-- ===== src/CanBus/Bitrate.antt =====
-- Which bit rates the CAN driver accepts.
use native.Mathlib.Nat.{mod-add-div', mul-mod_left, mul-div_cancel}
use stm32_vibe.Base.{ℕ, ap, ◌*◌, ◌/◌, ◌%◌, ◌≤◌, ◌<◌, ◌≡◌, ◌↔◌, u32, arith}
use stm32_vibe.CanBus.{ok, can_prescaler}

-- Division without rest is multiplication.
divides : (n d q : ℕ) → 0 < d → ((n % d ≡ 0) × (n / d ≡ q)) ↔ (n ≡ q * d)
divides n d q some = (
  λ h. omega (arith, mod-add-div' n d, ap (λ (k : ℕ). k * d) h.1),
  λ e. rw e (mul-mod_left q d, mul-div_cancel q some),
)

-- The driver computes with the divisor as it is, since a rate that passes the first test keeps it small.
prescaler_cases :
    (pclk bitrate prescaler : ℕ)
    → pclk < 4294967296
    → 0 < bitrate
    → (can_prescaler pclk bitrate ≡ (ok, prescaler)) ↔ (
        (bitrate ≤ pclk / 16)
        × (pclk % (bitrate * 16) ≡ 0)
        × (pclk / (bitrate * 16) ≡ prescaler)
        × (1 ≤ prescaler)
        × (prescaler ≤ 1024))
unfolding can_prescaler
prescaler_cases pclk bitrate prescaler word some_rate =
    let small : bitrate ≤ pclk / 16 → u32 (bitrate * 16) ≡ bitrate * 16 = λ h. omega arith in
    ground (arith, small)

-- For a 32-bit clock, a bit rate is accepted with a prescaler exactly when the clock is sixteen times
-- their product and the prescaler is from 1 to 1024, which is what the controller can divide by.
can_prescaler_iff :
    (pclk bitrate prescaler : ℕ)
    → pclk < 4294967296
    → 0 < bitrate
    → (can_prescaler pclk bitrate ≡ (ok, prescaler))
      ↔ ((pclk ≡ prescaler * (bitrate * 16)) × (1 ≤ prescaler) × (prescaler ≤ 1024))
unfolding can_prescaler
can_prescaler_iff pclk bitrate prescaler word some_rate =
    let parts = divides pclk (bitrate * 16) prescaler (omega arith) in
    let cases = prescaler_cases pclk bitrate prescaler word some_rate in
    (
      λ h. let c = cases.0 h in (parts.0 (c.1, c.2), c.3, c.4),
      λ h.
          let p = parts.1 h.0 in
          let fits : bitrate * 16 ≤ pclk = grind arith in cases.1 (omega arith, p.0, p.1, h.1, h.2),
    )
