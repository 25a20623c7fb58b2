-- ===== src/Base/Bits.antt =====
-- Facts about `bit_xor` and `bit_and` at variables, from their recursion on binary digits.
use Prim.Native.Nat.{
  ℕ, zero, suc, ◌+◌, ◌-◌, ◌*◌, ◌/◌, ◌%◌, ◌^◌, ◌≤◌, ◌<◌, digits, bitwise, bit_and, bit_xor, bit_or,
  bit_or-bitwise, max, bit_and-bitwise, bit_xor-bitwise, differ, min,
}
use mathlib.Core.Path.{◌≡◌, refl, ap}
use mathlib.Core.Logic.{◌⊎◌}
use native.Mathlib.Nat.{pow-suc, one-le-pow}
use native.Mathlib.Omega.{arith}

-- Fuel beyond the number itself changes nothing.
module _ (rest : ℕ → ℕ) (digit : ℕ → ℕ → ℕ) where
  abbrev with_fuel : ℕ → ℕ → ℕ → ℕ
  with_fuel fuel a b = digits rest digit fuel a b

  spare_fuel : (a b left all : ℕ) → a ≤ left → left ≤ all → with_fuel left a b ≡ with_fuel all a b
  spare_fuel (suc a) b (suc left) (suc all) enough more =
      ap (λ high. high * 2 + digit (suc a % 2) (b % 2))
        (spare_fuel (suc a / 2) (b / 2) left all (omega arith) (omega arith))
  spare_fuel (suc a) b zero all enough more = absurd (omega arith)
  spare_fuel (suc a) b (suc left) zero enough more = absurd (omega arith)
  spare_fuel zero b zero zero enough more = refl
  spare_fuel zero b (suc left) zero enough more = absurd (omega arith)
  spare_fuel zero b zero (suc all) enough more = refl
  spare_fuel zero b (suc left) (suc all) enough more = refl

  first_digit :
      (n b : ℕ)
      → bitwise rest digit (suc n) b
        ≡ digit (suc n % 2) (b % 2) + bitwise rest digit (suc n / 2) (b / 2) * 2
  first_digit n b =
      let half = suc n / 2 in
      omega (arith, spare_fuel half (b / 2) half n (omega arith) (omega arith))

pub zero-bit_xor : (b : ℕ) → bit_xor 0 b ≡ b
zero-bit_xor b = bit_xor-bitwise 0 b

-- One binary digit of an exclusive or.
pub bit_xor_step : (a b : ℕ) → bit_xor a b ≡ bit_xor (a / 2) (b / 2) * 2 + differ (a % 2) (b % 2)
bit_xor_step zero b = omega (arith, zero-bit_xor b, zero-bit_xor (b / 2))
bit_xor_step (suc a) b = simp bit_xor-bitwise (omega (arith, first_digit (λ y. y) differ a b))

pub bit_and_step : (m n : ℕ) → bit_and m n ≡ bit_and (m / 2) (n / 2) * 2 + min (m % 2) (n % 2)
bit_and_step zero n = omega (arith, bit_and-bitwise 0 n, bit_and-bitwise 0 (n / 2))
bit_and_step (suc m) n = simp bit_and-bitwise (omega (arith, first_digit (λ y. 0) min m n))

-- A digit is 0 or 1.
digit-cases : (a : ℕ) → (a % 2 ≡ 0) ⊎ (a % 2 ≡ 1)
digit-cases a = omega arith

differ-lt : (a b : ℕ) → differ (a % 2) (b % 2) < 2
differ-lt a b = ground (arith, digit-cases a, digit-cases b)

differ_cancel : (a b : ℕ) → differ (differ (a % 2) (b % 2)) (b % 2) ≡ a % 2
differ_cancel a b = ground (arith, digit-cases a, digit-cases b)

-- Halving goes under an exclusive or.
pub bit_xor-half : (a b : ℕ) → bit_xor a b / 2 ≡ bit_xor (a / 2) (b / 2)
bit_xor-half a b = omega (arith, bit_xor_step a b, differ-lt a b)

pub bit_xor-mod_two : (a b : ℕ) → bit_xor a b % 2 ≡ differ (a % 2) (b % 2)
bit_xor-mod_two a b = omega (arith, bit_xor_step a b, differ-lt a b)

differ_comm : (a b : ℕ) → differ (a % 2) (b % 2) ≡ differ (b % 2) (a % 2)
differ_comm a b = ground (arith, digit-cases a, digit-cases b)

comm_fuel : (n a b : ℕ) → a ≤ n → b ≤ n → bit_xor a b ≡ bit_xor b a
comm_fuel zero a b p q = let a0 : a ≡ 0 = omega arith in let b0 : b ≡ 0 = omega arith in rw (a0, b0)
comm_fuel (suc n) a b p q = omega (
  arith,
  bit_xor_step a b,
  bit_xor_step b a,
  differ_comm a b,
  comm_fuel n (a / 2) (b / 2) (omega arith) (omega arith),
)

pub bit_xor_comm : (a b : ℕ) → bit_xor a b ≡ bit_xor b a
bit_xor_comm a b = comm_fuel (a + b) a b (omega arith) (omega arith)

cancel_fuel : (n a b : ℕ) → a ≤ n → b ≤ n → bit_xor (bit_xor a b) b ≡ a
cancel_fuel zero a b p q =
    let a0 : a ≡ 0 = omega arith in let b0 : b ≡ 0 = omega arith in rw (a0, b0)
cancel_fuel (suc n) a b p q = omega (
  arith,
  bit_xor_step (bit_xor a b) b,
  ap (λ t. bit_xor t (b / 2)) (bit_xor-half a b),
  ap (λ t. differ t (b % 2)) (bit_xor-mod_two a b),
  differ_cancel a b,
  cancel_fuel n (a / 2) (b / 2) (omega arith) (omega arith),
)

-- An exclusive or is undone by the same operand.
pub bit_xor_cancel : (a b : ℕ) → bit_xor (bit_xor a b) b ≡ a
bit_xor_cancel a b = cancel_fuel (a + b) a b (omega arith) (omega arith)

-- The numbers below a power of two are closed under exclusive or.
pub bit_xor-lt : (k a b : ℕ) → a < 2 ^ k → b < 2 ^ k → bit_xor a b < 2 ^ k
bit_xor-lt zero a b p q =
    let a0 : a ≡ 0 = omega arith in let b0 : b ≡ 0 = omega arith in rw (a0, b0) (omega arith)
bit_xor-lt (suc k) a b p q = omega (
  arith,
  pow-suc 2 k,
  bit_xor_step a b,
  differ-lt a b,
  bit_xor-lt k (a / 2) (b / 2) (omega (arith, pow-suc 2 k)) (omega (arith, pow-suc 2 k)),
)

no_common_ones : (half_bound a : ℕ) → a ≤ half_bound → bit_and a 0 ≡ 0
no_common_ones zero a h = let a0 : a ≡ 0 = omega arith in rw a0 refl
no_common_ones (suc half_bound) a h =
    ground (arith, bit_and_step a 0, no_common_ones half_bound (a / 2))

bit_and-zero : (a : ℕ) → bit_and a 0 ≡ 0
bit_and-zero a = no_common_ones a a (omega arith)

double : (q k : ℕ) → q * 2 ^ suc k ≡ q * 2 ^ k + q * 2 ^ k
double q k = omega (arith, ap (λ (t : ℕ). q * t) (pow-suc 2 k))

-- A mask of ones keeps the low digits of a number that is given as a high and a low part.
bit_and-parts : (k q r : ℕ) → r < 2 ^ k → bit_and (q * 2 ^ k + r) (2 ^ k - 1) ≡ r
bit_and-parts zero q r h = rw bit_and-zero (omega arith)
bit_and-parts (suc k) q r h = ground (
  arith,
  bit_and_step (q * 2 ^ suc k + r) (2 ^ suc k - 1),
  double q k,
  pow-suc 2 k,
  one-le-pow k 2,
  bit_and-parts k q (r / 2) (omega (arith, pow-suc 2 k)),
)

-- A mask of ones takes the remainder.
pub bit_and-low : (k a : ℕ) → bit_and a (2 ^ k - 1) ≡ a % 2 ^ k
bit_and-low k a = ground (arith, one-le-pow k 2, bit_and-parts k (a / 2 ^ k) (a % 2 ^ k))

pub bit_and-one : (a : ℕ) → bit_and a 1 ≡ a % 2
bit_and-one a = bit_and-low 1 a

-- `& ~1U` on a 32-bit word clears the lowest digit.
pub bit_and-clear_one : (a : ℕ) → a < 2 ^ 32 → bit_and a 0xFFFFFFFE ≡ a / 2 * 2
bit_and-clear_one a h = omega (arith, bit_and_step a 0xFFFFFFFE, bit_and-low 31 (a / 2))

pub bit_or_step : (a b : ℕ) → bit_or a b ≡ bit_or (a / 2) (b / 2) * 2 + max (a % 2) (b % 2)
bit_or_step zero b = omega (arith, bit_or-bitwise 0 b, bit_or-bitwise 0 (b / 2))
bit_or_step (suc a) b = simp bit_or-bitwise (omega (arith, first_digit (λ y. y) max a b))

-- A part that is shifted past another is added by an or.
pub bit_or-parts : (k a b : ℕ) → a < 2 ^ k → bit_or a (b * 2 ^ k) ≡ a + b * 2 ^ k
bit_or-parts zero a b h =
    let a0 : a ≡ 0 = omega arith in rw a0 (omega (arith, bit_or-bitwise 0 (b * 2 ^ 0)))
bit_or-parts (suc k) a b h = ground (
  arith,
  bit_or_step a (b * 2 ^ suc k),
  double b k,
  pow-suc 2 k,
  bit_or-parts k (a / 2) b (omega (arith, pow-suc 2 k)),
)
