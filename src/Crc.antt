-- ===== src/Crc.antt =====
-- The CRC-32 that guards boot-state records, the boot handoff, application images and update
-- packets (shared/boot/boot_state.c, and the same loop in shared/update/update_protocol.c,
-- bootloader/src/app_image.c and shared/boot/boot_runtime.c).
pub mod Detect
pub mod Zeroed
use stm32_vibe.Base.{
  ℕ, zero, suc, ◌+◌, ◌/◌, ◌<◌, ◌!=◌, ltb, leb, if◌then◌else◌, bit_and, bit_xor, uint32_max, List,
  [], ◌∷◌, ◌&&◌,
}

abbrev pub poly : ℕ
poly = 0xEDB88320

-- One round of the inner loop.
pub crc32_bit : ℕ → ℕ
crc32_bit crc = if bit_and crc 1 != 0 then bit_xor (crc / 2) poly else crc / 2

-- `for (bit = 0; bit < 8; bit++)`, by the rounds left.
pub crc32_bits : ℕ → ℕ → ℕ
unfolding crc32_bit
crc32_bits zero crc = crc
crc32_bits (suc n) crc = crc32_bits n (crc32_bit crc)

unfoldable pub crc32_update : ℕ → ℕ → ℕ
unfolding crc32_bits
crc32_update crc value = crc32_bits 8 (bit_xor crc value)

-- The loop over a buffer: the bytes from the current index on, and the rounds left. A read past the
-- end of the buffer ends it.
unfoldable pub crc32_loop : ℕ → List ℕ → ℕ → ℕ
crc32_loop crc bytes zero = crc
crc32_loop crc [] (suc n) = crc
crc32_loop crc (value ∷ bytes) (suc n) = crc32_loop (crc32_update crc value) bytes n

-- `update_protocol_crc32`.
unfoldable pub update_protocol_crc32 : List ℕ → ℕ → ℕ
unfolding crc32_loop crc32_update
update_protocol_crc32 bytes len = bit_xor (crc32_loop uint32_max bytes len) uint32_max

-- The loop that reads the bytes of the stored checksum, those from `lo` on below `hi`, as zeros.
unfoldable pub crc32_masked : ℕ → ℕ → ℕ → ℕ → List ℕ → ℕ → ℕ
crc32_masked lo hi index crc bytes zero = crc
crc32_masked lo hi index crc [] (suc n) = crc
crc32_masked lo hi index crc (byte ∷ bytes) (suc n) =
    let value = if leb lo index && ltb index hi then 0 else byte in
    crc32_masked lo hi (index + 1) (crc32_update crc value) bytes n
