-- ===== src/Runtime.antt =====
-- Relocation of an image's vector table and offset table (`boot_runtime_relocate` of
-- shared/boot/boot_runtime.c). A function that writes a table returns it.
pub mod Vectors
use stm32_vibe.Base.{
  ℕ, zero, suc, ◌+◌, ◌-◌, ◌*◌, ◌/◌, ◌==◌, ◌!=◌, ltb, leb, if◌then◌else◌, bit_and, u32, Bool, true,
  false, not, ◌&&◌, ◌||◌, List, set, Option, none, some,
}
use stm32_vibe.Protocol.{read_u32_le}

-- `BOOT_RUNTIME_VECTOR_WORDS` and `BOOT_RUNTIME_GOT_WORDS`.
abbrev pub runtime_vector_words : ℕ
runtime_vector_words = 128

abbrev pub runtime_got_words : ℕ
runtime_got_words = 256

-- The handler that the linker puts in for an unused vector.
abbrev pub unused_handler : ℕ
unused_handler = 0xF108F85F

-- What the loop over the vectors stores for a handler; `none` is its `return 0`.
unfoldable pub relocated_vector : ℕ → ℕ → ℕ → Option ℕ
relocated_vector image_base image_size handler =
    if (handler == 0) || (handler == unused_handler)
    then some 0
    else if (bit_and handler 1 == 0) || leb image_size (bit_and handler 0xFFFFFFFE)
    then none
    else some (u32 (image_base + handler))

-- The loop over the vectors from `index` on, by the rounds left: whether it ran to its end, and the
-- table.
unfoldable pub relocate_vectors : ℕ → ℕ → List ℕ → ℕ → ℕ → List ℕ → Bool × List ℕ
relocate_vectors zero index image image_base image_size vectors = (true, vectors)
relocate_vectors (suc n) index image image_base image_size vectors =
    elim (relocated_vector image_base image_size (read_u32_le image (4 * index))) [
      | none ↦ (false, vectors)
      | some entry ↦
          relocate_vectors n (index + 1) image image_base image_size (set vectors index entry)
    ]

-- The loop over the offset table.
unfoldable pub relocate_got : ℕ → ℕ → List ℕ → ℕ → ℕ → ℕ → List ℕ → List ℕ
relocate_got zero index image got_offset image_base image_size got = got
relocate_got (suc n) index image got_offset image_base image_size got =
    let value = read_u32_le image (got_offset + 4 * index) in
    relocate_got n (index + 1) image got_offset image_base image_size
      (set got index (if ltb value image_size then u32 (image_base + value) else value))

-- The first test of `boot_runtime_relocate`, which refuses the call.
abbrev pub refuses : ℕ → ℕ → ℕ → ℕ → ℕ → Bool
refuses image_size vector_words got_offset got_size vector_capacity_words =
    ltb image_size 8
    || ltb vector_words 2
    || ltb vector_capacity_words vector_words
    || ltb runtime_vector_words vector_words
    || ltb (image_size / 4) vector_words
    || bit_and got_offset 3 != 0
    || bit_and got_size 3 != 0
    || ltb image_size got_offset
    || ltb (image_size - got_offset) got_size

-- The result is the return value and the two tables.
unfoldable pub boot_runtime_relocate :
    List ℕ → ℕ → ℕ → ℕ → ℕ → ℕ → List ℕ → ℕ → List ℕ → ℕ → Bool × List ℕ × List ℕ
boot_runtime_relocate image image_base image_size vector_words got_offset got_size vectors
      vector_capacity_words got got_capacity_words =
    let got_words = got_size / 4 in
    let (done, relocated) =
      relocate_vectors (vector_words - 1) 1 image image_base image_size
        (set vectors 0 (read_u32_le image 0)) in
    if refuses image_size vector_words got_offset got_size vector_capacity_words
    then (false, vectors, got)
    else if ltb got_capacity_words got_words || ltb runtime_got_words got_words
    then (false, vectors, got)
    else if not done
    then (false, relocated, got)
    else (true, relocated, relocate_got got_words 0 image got_offset image_base image_size got)
