-- ===== src/Crc/Detect.antt =====
-- What the CRC-32 of `Crc` detects: every step of it is reversible, so a change of one byte always
-- changes the checksum.
use stm32_vibe.Base.{
  ℕ, zero, suc, ◌/◌, ◌%◌, ◌^◌, ◌≤◌, ◌<◌, ◌≡◌, sym, ap, ◌∙◌, ◌⊎◌, inl, inr, bit_xor, uint32_max,
  IsWord, AreBytes, List, [], ◌∷◌, ◌++◌, length, arith,
}
use stm32_vibe.Base.Bits.{bit_xor_comm, bit_xor_cancel, bit_xor-lt, bit_and-one}
use stm32_vibe.Crc.{poly, crc32_bit, crc32_bits, crc32_update, crc32_loop, update_protocol_crc32}

crc32_bit-even : (a : ℕ) → a % 2 ≡ 0 → crc32_bit a ≡ a / 2
unfolding crc32_bit
crc32_bit-even a e = ground (arith, bit_and-one a)

crc32_bit-odd : (a : ℕ) → a % 2 ≡ 1 → crc32_bit a ≡ bit_xor (a / 2) poly
unfolding crc32_bit
crc32_bit-odd a e = ground (arith, bit_and-one a)

digit : (a : ℕ) → (a % 2 ≡ 0) ⊎ (a % 2 ≡ 1)
digit a = omega arith

crc32_bit-IsWord : (a : ℕ) → IsWord a → IsWord (crc32_bit a)
crc32_bit-IsWord a h = elim (digit a) [
  | inl e ↦ omega (arith, crc32_bit-even a e)
  | inr e ↦ rw (crc32_bit-odd a e) (bit_xor-lt 32 (a / 2) poly (omega arith) (omega arith))
]

-- The polynomial has the top bit, so a word that was reduced by it has it too.
not_low : (x : ℕ) → x < 2 ^ 31 → ¬ (bit_xor x poly < 2 ^ 31)
not_low x h low =
    let small : bit_xor (bit_xor x poly) x < 2 ^ 31 = bit_xor-lt 31 (bit_xor x poly) x low h in
    omega (arith, small, ap (λ t. bit_xor t x) (bit_xor_comm x poly), bit_xor_cancel poly x)

top_bit : (x : ℕ) → x < 2 ^ 31 → 2 ^ 31 ≤ bit_xor x poly
top_bit x h = omega (arith, not_low x h)

halves : (a b : ℕ) → bit_xor (a / 2) poly ≡ bit_xor (b / 2) poly → a / 2 ≡ b / 2
halves a b e =
    sym (bit_xor_cancel (a / 2) poly) ∙ ap (λ t. bit_xor t poly) e ∙ bit_xor_cancel (b / 2) poly

-- A round of the checksum loses nothing of a 32-bit word.
crc32_bit_injective : (a b : ℕ) → IsWord a → IsWord b → crc32_bit a ≡ crc32_bit b → a ≡ b
crc32_bit_injective a b p q e = ground (
  arith,
  digit a,
  digit b,
  crc32_bit-even a,
  crc32_bit-odd a,
  crc32_bit-even b,
  crc32_bit-odd b,
  top_bit (a / 2),
  top_bit (b / 2),
  halves a b,
)

crc32_bits-IsWord : (n a : ℕ) → IsWord a → IsWord (crc32_bits n a)
unfolding crc32_bits
crc32_bits-IsWord zero a h = h
crc32_bits-IsWord (suc n) a h = crc32_bits-IsWord n (crc32_bit a) (crc32_bit-IsWord a h)

crc32_bits_injective : (n a b : ℕ) → IsWord a → IsWord b → crc32_bits n a ≡ crc32_bits n b → a ≡ b
unfolding crc32_bits
crc32_bits_injective zero a b p q e = e
crc32_bits_injective (suc n) a b p q e = crc32_bit_injective a b p q (
    crc32_bits_injective n (crc32_bit a) (crc32_bit b) (crc32_bit-IsWord a p) (crc32_bit-IsWord b q)
      e)

mix-IsWord : (crc v : ℕ) → IsWord crc → v < 256 → IsWord (bit_xor crc v)
mix-IsWord crc v h hv = bit_xor-lt 32 crc v h (omega arith)

pub crc32_update-IsWord : (crc v : ℕ) → IsWord crc → v < 256 → IsWord (crc32_update crc v)
unfolding crc32_update
crc32_update-IsWord crc v h hv = crc32_bits-IsWord 8 (bit_xor crc v) (mix-IsWord crc v h hv)

crc32_update_injective_crc :
    (a b v : ℕ) → IsWord a → IsWord b → v < 256 → crc32_update a v ≡ crc32_update b v → a ≡ b
unfolding crc32_update
crc32_update_injective_crc a b v p q hv e =
    let mixed : bit_xor a v ≡ bit_xor b v =
      crc32_bits_injective 8 _ _ (mix-IsWord a v p hv) (mix-IsWord b v q hv) e in
    sym (bit_xor_cancel a v) ∙ ap (λ t. bit_xor t v) mixed ∙ bit_xor_cancel b v

crc32_update_injective_value :
    (crc v w : ℕ) → IsWord crc → v < 256 → w < 256 → crc32_update crc v ≡ crc32_update crc w → v ≡ w
unfolding crc32_update
crc32_update_injective_value crc v w h hv hw e =
    let mixed : bit_xor crc v ≡ bit_xor crc w =
      crc32_bits_injective 8 _ _ (mix-IsWord crc v h hv) (mix-IsWord crc w h hw) e in
    let swapped : bit_xor v crc ≡ bit_xor w crc = bit_xor_comm v crc ∙ mixed ∙ bit_xor_comm crc w in
    sym (bit_xor_cancel v crc) ∙ ap (λ t. bit_xor t crc) swapped ∙ bit_xor_cancel w crc

pub crc32_loop-IsWord :
    (bytes : List ℕ) (n crc : ℕ) → AreBytes bytes → IsWord crc → IsWord (crc32_loop crc bytes n)
unfolding crc32_loop
crc32_loop-IsWord [] zero crc hb h = h
crc32_loop-IsWord [] (suc n) crc hb h = h
crc32_loop-IsWord (v ∷ bytes) zero crc hb h = h
crc32_loop-IsWord (v ∷ bytes) (suc n) crc hb h =
    crc32_loop-IsWord bytes n (crc32_update crc v) hb.1 (crc32_update-IsWord crc v h hb.0)

crc32_loop_injective :
    (bytes : List ℕ) (n a b : ℕ)
    → AreBytes bytes
    → IsWord a
    → IsWord b
    → crc32_loop a bytes n ≡ crc32_loop b bytes n
    → a ≡ b
unfolding crc32_loop
crc32_loop_injective [] zero a b hb p q e = e
crc32_loop_injective [] (suc n) a b hb p q e = e
crc32_loop_injective (v ∷ bytes) zero a b hb p q e = e
crc32_loop_injective (v ∷ bytes) (suc n) a b hb p q e = crc32_update_injective_crc a b v p q hb.0 (
    crc32_loop_injective bytes n _ _ hb.1 (crc32_update-IsWord a v p hb.0)
      (crc32_update-IsWord b v q hb.0) e)

-- Two buffers that differ in one byte within the checked length leave the loop with different words.
crc32_loop_detects :
    (before : List ℕ) (v w : ℕ) (after : List ℕ) (n crc : ℕ)
    → AreBytes before
    → v < 256
    → w < 256
    → AreBytes after
    → IsWord crc
    → length before < n
    → crc32_loop crc (before ++ v ∷ after) n ≡ crc32_loop crc (before ++ w ∷ after) n
    → v ≡ w
unfolding crc32_loop
crc32_loop_detects [] v w after zero crc hb hv hw ha h lt e = absurd (omega arith)
crc32_loop_detects (x ∷ before) v w after zero crc hb hv hw ha h lt e = absurd (omega arith)
crc32_loop_detects [] v w after (suc n) crc hb hv hw ha h lt e =
    crc32_update_injective_value crc v w h hv hw (
      crc32_loop_injective after n _ _ ha (crc32_update-IsWord crc v h hv)
        (crc32_update-IsWord crc w h hw) e)
crc32_loop_detects (x ∷ before) v w after (suc n) crc hb hv hw ha h lt e =
    crc32_loop_detects before v w after n (crc32_update crc x) hb.1 hv hw ha
      (crc32_update-IsWord crc x h hb.0) (omega arith) e

-- The checksum of a buffer of bytes is a 32-bit word.
pub update_protocol_crc32-IsWord :
    (bytes : List ℕ) (n : ℕ) → AreBytes bytes → IsWord (update_protocol_crc32 bytes n)
unfolding update_protocol_crc32
update_protocol_crc32-IsWord bytes n hb =
    bit_xor-lt 32 (crc32_loop uint32_max bytes n) uint32_max
      (crc32_loop-IsWord bytes n uint32_max hb (omega arith)) (omega arith)

-- Two buffers of bytes that differ in one byte within the checked length `n`, and agree elsewhere,
-- have different checksums: equal checksums make the two bytes equal.
pub update_protocol_crc32_detects :
    (before : List ℕ) (v w : ℕ) (after : List ℕ) (n : ℕ)
    → AreBytes before
    → v < 256
    → w < 256
    → AreBytes after
    → length before < n
    → update_protocol_crc32 (before ++ v ∷ after) n ≡ update_protocol_crc32 (before ++ w ∷ after) n
    → v ≡ w
unfolding update_protocol_crc32
update_protocol_crc32_detects before v w after n hb hv hw ha lt e =
    crc32_loop_detects before v w after n uint32_max hb hv hw ha (omega arith) lt (
      sym (bit_xor_cancel _ uint32_max)
      ∙ ap (λ t. bit_xor t uint32_max) e
      ∙ bit_xor_cancel _ uint32_max)
