-- ===== src/Image/Vectors.antt =====
-- What the checks of the first two words of an image establish.
use stm32_vibe.Base.{ℕ, ◌+◌, ◌%◌, ◌≤◌, ◌<◌, ◌≡◌, ◌↔◌, true, arith}
use stm32_vibe.Base.Bits.{bit_and-one, bit_and-low, bit_and-clear_one}
use stm32_vibe.Layout.{Board, ram_start_addr, boot_runtime_got_addr}
use stm32_vibe.Image.{app_relative_vectors_are_valid}

-- For a 32-bit reset word, the vectors of a relocatable image are accepted exactly when the stack lies in RAM below the
-- relocated tables and is aligned to eight bytes, and the reset handler is a Thumb address in the image.
app_relative_vectors_are_valid_iff :
    (b : Board) (sp reset size : ℕ)
    → reset < 4294967296
    → (app_relative_vectors_are_valid b sp reset size ≡ true) ↔ (
        (ram_start_addr ≤ sp)
        × (sp ≤ boot_runtime_got_addr b)
        × (sp % 8 ≡ 0)
        × (reset % 2 ≡ 1)
        × (reset < size + 1))
unfolding app_relative_vectors_are_valid
app_relative_vectors_are_valid_iff b sp reset size h =
    ground (arith, bit_and-one reset, bit_and-low 3 sp, bit_and-clear_one reset h)
