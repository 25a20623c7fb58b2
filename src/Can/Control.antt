-- ===== src/Can/Control.antt =====
-- The control byte of a fragment (shared/update/update_can.c).
use stm32_vibe.Base.{
  ℕ, ◌+◌, ◌*◌, ◌/◌, ◌%◌, ◌<◌, ◌≡◌, ap, true, false, Bool, if◌then◌else◌, bit_and, bit_or, arith,
  ◌∙◌,
}
use stm32_vibe.Base.Bits.{bit_and_step, bit_and-one, bit_and-low, bit_or-parts}
use stm32_vibe.Can.{control_byte}

-- A mask of one digit, by the digits below it.
bit_and-even : (a m : ℕ) → bit_and a (m * 2) ≡ bit_and (a / 2) m * 2
bit_and-even a m = ground (arith, bit_and_step a (m * 2))

bit_and-64 : (a : ℕ) → bit_and a 64 ≡ a / 64 % 2 * 64
bit_and-64 a = omega (
  arith,
  bit_and-even a 32,
  bit_and-even (a / 2) 16,
  bit_and-even (a / 2 / 2) 8,
  bit_and-even (a / 2 / 2 / 2) 4,
  bit_and-even (a / 2 / 2 / 2 / 2) 2,
  bit_and-even (a / 2 / 2 / 2 / 2 / 2) 1,
  bit_and-one (a / 2 / 2 / 2 / 2 / 2 / 2),
)

bit_and-128 : (a : ℕ) → bit_and a 128 ≡ a / 128 % 2 * 128
bit_and-128 a = omega (arith, bit_and-even a 64, bit_and-64 (a / 2))

-- What the receiver reads in the control byte of a fragment after the first.
pub record IsControl (c k : ℕ) (last : Bool) : Type 0 where
  pub index : bit_and c 0x3F ≡ k
  pub not_first : bit_and c 0x80 ≡ 0
  pub end_mark : bit_and c 0x40 ≡ (if last then 64 else 0)

control_byte-value :
    (k : ℕ) (last : Bool) → k < 64 → control_byte k false last ≡ k + (if last then 64 else 0)
control_byte-value k true h =
    let kept : bit_and k 63 ≡ k = omega (arith, bit_and-low 6 k) in
    ap (λ i. bit_or i 64) kept ∙ bit_or-parts 6 k 1 h
control_byte-value k false h = omega (arith, bit_and-low 6 k)

pub control_byte-IsControl :
    (k : ℕ) (last : Bool) → k < 64 → IsControl (control_byte k false last) k last
control_byte-IsControl k last h =
    let c = control_byte k false last in
    let value = control_byte-value k last h in
    record {
      index = ground (arith, bit_and-low 6 c, value);
      not_first = ground (arith, bit_and-128 c, value);
      end_mark = ground (arith, bit_and-64 c, value);
    }
