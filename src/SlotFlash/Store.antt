-- ===== src/SlotFlash/Store.antt =====
-- The bytes of flash after words are written.
use stm32_vibe.Base.{
  ℕ, zero, suc, ◌+◌, ◌-◌, ◌≤◌, ◌<◌, ◌==◌, ltb, leb, ◌≡◌, refl, ◌∙◌, if◌then◌else◌, ◌&&◌, Bool, List,
  [], ◌∷◌, get_or, set, length, length-set, get_or-set_self, get_or-set_ne, replicate, arith,
}
use stm32_vibe.Protocol.{copy_bytes}
use stm32_vibe.Protocol.Copy.{length-copy_bytes}
use stm32_vibe.SlotFlash.{word_at, program_word}

-- Whether `i` is one of `n` places from `from` on.
abbrev pub within : ℕ → ℕ → ℕ → Bool
within from n i = leb from i && ltb i (from + n)

pub get_or-set :
    (xs : List ℕ) (i j v : ℕ)
    → i < length xs
    → get_or (set xs i v) j 0 ≡ (if i == j then v else get_or xs j 0)
get_or-set xs i j v h = ground (arith, get_or-set_self xs i v 0 h, get_or-set_ne xs i j v 0)

pub get_or-copy_bytes :
    (n : ℕ) (dst : List ℕ) (to : ℕ) (src : List ℕ) (from i : ℕ)
    → to + n ≤ length dst
    → get_or (copy_bytes n dst to src from) i 0
      ≡ (if within to n i then get_or src (from + (i - to)) 0 else get_or dst i 0)
unfolding copy_bytes
get_or-copy_bytes zero dst to src from i h = ground arith
get_or-copy_bytes (suc n) dst to src from i h =
    let dst' = set dst to (get_or src from 0) in
    let later =
      get_or-copy_bytes n dst' (to + 1) src (from + 1) i
        (omega (arith, length-set dst to (get_or src from 0))) in
    let first = get_or-set dst to i (get_or src from 0) (omega arith) in grind (arith, later, first)

-- The byte of the word that is written for place `j` of the data.
abbrev pub padded : List ℕ → ℕ → ℕ → ℕ
padded source len j = if ltb j len then get_or source j 0 else 255

pub get_or-replicate : (n v k : ℕ) → k < n → get_or (replicate n v) k 0 ≡ v
get_or-replicate zero v k h = absurd (omega arith)
get_or-replicate (suc n) v zero h = refl
get_or-replicate (suc n) v (suc k) h = get_or-replicate n v k (omega arith)

pub length-word_at : (source : List ℕ) (len index : ℕ) → length (word_at source len index) ≡ 4
unfolding word_at
length-word_at source len index =
    length-copy_bytes (if ltb (len - index) 4 then len - index else 4) (replicate 4 255) 0 source
      index

pub get_or-word_at :
    (source : List ℕ) (len index k : ℕ)
    → k < 4
    → get_or (word_at source len index) k 0 ≡ padded source len (index + k)
unfolding word_at
get_or-word_at source len index k h =
    let chunk = if ltb (len - index) 4 then len - index else 4 in
    let copied = get_or-copy_bytes chunk (replicate 4 255) 0 source index k (ground arith) in
    let four = get_or-replicate 4 255 k h in ground (arith, copied, four)

pub length-program_word :
    (program : ℕ → ℕ → ℕ) (bytes : List ℕ) (at : ℕ) (word : List ℕ)
    → length (program_word program bytes at word) ≡ length bytes
unfolding program_word
length-program_word program bytes at [] = refl
length-program_word program bytes at (v ∷ word) =
    length-program_word program (set bytes at (program (get_or bytes at 0) v)) (at + 1) word
    ∙ length-set bytes at (program (get_or bytes at 0) v)

pub get_or-program_word :
    (program : ℕ → ℕ → ℕ) (bytes : List ℕ) (at : ℕ) (word : List ℕ) (i : ℕ)
    → at + length word ≤ length bytes
    → get_or (program_word program bytes at word) i 0 ≡ (
        if within at (length word) i
        then program (get_or bytes i 0) (get_or word (i - at) 0)
        else get_or bytes i 0)
unfolding program_word
get_or-program_word program bytes at [] i h = ground arith
get_or-program_word program bytes at (v ∷ word) i h =
    let w = program (get_or bytes at 0) v in
    let later =
      get_or-program_word program (set bytes at w) (at + 1) word i
        (omega (arith, length-set bytes at w)) in
    let first = get_or-set bytes at i w (omega arith) in grind (arith, later, first)
