-- ===== src/Crc/Zeroed.antt =====
-- The checksum that reads some of its bytes as zeros (bootloader/src/app_image.c) and the one of the
-- packets (shared/update/update_protocol.c).
use stm32_vibe.Base.{
  ℕ, zero, suc, ◌+◌, ◌≤◌, ◌≡◌, refl, ap, ◌∙◌, ltb, leb, if◌then◌else◌, ◌&&◌, List, [], ◌∷◌, ◌++◌,
  length, take, drop, replicate, arith,
}
use stm32_vibe.Crc.{crc32_update, crc32_loop, crc32_masked}

-- The bytes from `index` on, with zeros for those from `lo` on below `hi`.
zeroed : ℕ → ℕ → ℕ → List ℕ → List ℕ
zeroed lo hi index [] = []
zeroed lo hi index (byte ∷ bytes) =
    (if leb lo index && ltb index hi then 0 else byte) ∷ zeroed lo hi (index + 1) bytes

crc32_masked-zeroed :
    (lo hi index crc : ℕ) (bytes : List ℕ) (n : ℕ)
    → crc32_masked lo hi index crc bytes n ≡ crc32_loop crc (zeroed lo hi index bytes) n
unfolding crc32_masked crc32_loop zeroed
crc32_masked-zeroed lo hi index crc bytes zero = refl
crc32_masked-zeroed lo hi index crc [] (suc n) = refl
crc32_masked-zeroed lo hi index crc (byte ∷ bytes) (suc n) =
    let value = if leb lo index && ltb index hi then 0 else byte in
    crc32_masked-zeroed lo hi (index + 1) (crc32_update crc value) bytes n

zeroed_after : (lo hi index : ℕ) (bytes : List ℕ) → hi ≤ index → zeroed lo hi index bytes ≡ bytes
unfolding zeroed
zeroed_after lo hi index [] h = refl
zeroed_after lo hi index (byte ∷ bytes) h =
    ground (arith, zeroed_after lo hi (index + 1) bytes (omega arith))

zeroed_between :
    (lo hi index k : ℕ) (bytes : List ℕ)
    → lo ≤ index
    → index + k ≡ hi
    → k ≤ length bytes
    → zeroed lo hi index bytes ≡ replicate k 0 ++ drop k bytes
unfolding zeroed
zeroed_between lo hi index zero bytes h e long = zeroed_after lo hi index bytes (omega arith)
zeroed_between lo hi index (suc k) [] h e long = absurd (omega arith)
zeroed_between lo hi index (suc k) (byte ∷ bytes) h e long =
    ground
      (arith, zeroed_between lo hi (index + 1) k bytes (omega arith) (omega arith) (omega arith))

zeroed_before :
    (lo hi index k n : ℕ) (bytes : List ℕ)
    → index + k ≡ lo
    → lo + n ≡ hi
    → k + n ≤ length bytes
    → zeroed lo hi index bytes ≡ take k bytes ++ (replicate n 0 ++ drop (k + n) bytes)
unfolding zeroed
zeroed_before lo hi index zero n bytes e e' long =
    zeroed_between lo hi index n bytes (omega arith) (omega arith) (omega (arith, long))
    ∙ ap (λ m. replicate n 0 ++ drop m bytes) (omega arith)
zeroed_before lo hi index (suc k) n [] e e' long = absurd (omega arith)
zeroed_before lo hi index (suc k) n (byte ∷ bytes) e e' long =
    let shift : suc k + n ≡ suc (k + n) = omega arith in
    let kept : (if leb lo index && ltb index hi then 0 else byte) ≡ byte = ground arith in
    let later = zeroed_before lo hi (index + 1) k n bytes (omega arith) e' (omega arith) in
    rw shift (ap (λ b. b ∷ zeroed lo hi (index + 1) bytes) kept ∙ ap (λ l. byte ∷ l) later)

-- The masked checksum is the plain one of the bytes with zeros put in.
pub crc32_masked-crc32_loop :
    (lo n crc : ℕ) (bytes : List ℕ) (count : ℕ)
    → lo + n ≤ length bytes
    → crc32_masked lo (lo + n) 0 crc bytes count
      ≡ crc32_loop crc (take lo bytes ++ (replicate n 0 ++ drop (lo + n) bytes)) count
crc32_masked-crc32_loop lo n crc bytes count long =
    crc32_masked-zeroed lo (lo + n) 0 crc bytes count
    ∙ ap (λ l. crc32_loop crc l count)
        (zeroed_before lo (lo + n) 0 lo n bytes (omega arith) refl long)
