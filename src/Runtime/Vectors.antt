-- ===== src/Runtime/Vectors.antt =====
-- The relocated vectors.
use stm32_vibe.Base.{
  ℕ, zero, suc, ◌+◌, ◌-◌, ◌*◌, ◌%◌, ◌≤◌, ◌<◌, ◌≡◌, ◌⊎◌, inl, inr, refl, sym, ap, ◌∙◌, subst, Bool,
  true, false, none, some, Option-cases, u32, List, get_or, set, length, length-set,
  get_or-set_self, get_or-set_ne, AreBytes, arith,
}
use mathlib.Core.Bool.{false≢true}
use stm32_vibe.Base.Bits.{bit_and-one, bit_and-clear_one}
use stm32_vibe.Protocol.{read_u32_le}
use stm32_vibe.Protocol.Frame.{read_u32_le-IsWord}
use stm32_vibe.Runtime.{relocate_vectors, relocated_vector, boot_runtime_relocate, unused_handler}

-- What a table entry is after relocation: 0 for a vector that is unused, else the address in the
-- image that the Thumb handler's offset stands for.
abbrev pub IsRelocated : ℕ → ℕ → ℕ → ℕ → Type 0
IsRelocated image_base image_size handler entry =
    (((handler ≡ 0) ⊎ (handler ≡ unused_handler)) × (entry ≡ 0))
    ⊎ ((entry ≡ u32 (image_base + handler)) × (handler % 2 ≡ 1) × (handler ≤ image_size))

first_or_later : (i j : ℕ) → i ≤ j → (i ≡ j) ⊎ (i + 1 ≤ j)
first_or_later i j h = grind arith

relocated_vector_lem :
    (image_base image_size handler entry : ℕ)
    → handler < 4294967296
    → relocated_vector image_base image_size handler ≡ some entry
    → IsRelocated image_base image_size handler entry
unfolding relocated_vector
relocated_vector_lem image_base image_size handler entry word h =
    ground (arith, bit_and-one handler, bit_and-clear_one handler word)

module _ (image : List ℕ) (image_base image_size : ℕ)
    (words : (i : ℕ) → read_u32_le image i < 4294967296) where
  abbrev run : ℕ → ℕ → List ℕ → Bool × List ℕ
  run n index vectors = relocate_vectors n index image image_base image_size vectors

  abbrev handler_at : ℕ → ℕ
  handler_at index = read_u32_le image (4 * index)

  -- One round of the loop.
  run_cases :
      (n index : ℕ) (vectors : List ℕ)
      → ((relocated_vector image_base image_size (handler_at index) ≡ none)
          × (run (suc n) index vectors ≡ (false, vectors)))
        ⊎ ((entry : ℕ) × (relocated_vector image_base image_size (handler_at index) ≡ some entry)
            × (run (suc n) index vectors ≡ run n (index + 1) (set vectors index entry)))
  unfolding relocate_vectors
  run_cases n index vectors =
      elim (Option-cases (relocated_vector image_base image_size (handler_at index))) [
        | inl e ↦ inl (e, rw (e, relocate_vectors))
        | inr e ↦ inr (e.0, e.1, rw (e.1, relocate_vectors))
      ]

  run_keeps :
      (n index : ℕ) (vectors : List ℕ) (j : ℕ)
      → j < index
      → get_or (run n index vectors).1 j 0 ≡ get_or vectors j 0
  run_keeps zero index vectors j lt = unfold relocate_vectors in refl
  run_keeps (suc n) index vectors j lt = elim (run_cases n index vectors) [
    | inl e ↦ ap (λ (r : Bool × List ℕ). get_or r.1 j 0) e.1
    | inr (entry, _, e) ↦
        ap (λ (r : Bool × List ℕ). get_or r.1 j 0) e
        ∙ run_keeps n (index + 1) (set vectors index entry) j (omega arith)
        ∙ get_or-set_ne vectors index j entry 0 (omega arith)
  ]

  -- The entry that a round stores is still there at the end.
  entry_stays :
      (n index : ℕ) (vectors : List ℕ) (entry : ℕ)
      → index < length vectors
      → run (suc n) index vectors ≡ run n (index + 1) (set vectors index entry)
      → get_or (run (suc n) index vectors).1 index 0 ≡ entry
  entry_stays n index vectors entry fits e =
      ap (λ (r : Bool × List ℕ). get_or r.1 index 0) e
      ∙ run_keeps n (index + 1) (set vectors index entry) index (omega arith)
      ∙ get_or-set_self vectors index entry 0 fits

  -- If the loop runs to its end, each entry of its range is relocated.
  run_lem :
      (n index : ℕ) (vectors : List ℕ) (j : ℕ)
      → index + n ≤ length vectors
      → (run n index vectors).0 ≡ true
      → index ≤ j
      → j < index + n
      → IsRelocated image_base image_size (handler_at j) (get_or (run n index vectors).1 j 0)
  run_lem zero index vectors j fits h lo hi = absurd (omega arith)
  run_lem (suc n) index vectors j fits h lo hi = elim (run_cases n index vectors) [
    | inl e ↦ absurd (false≢true (sym (ap (λ (r : Bool × List ℕ). r.0) e.1) ∙ h))
    | inr (entry, found, e) ↦ elim (first_or_later index j lo) [
      | inl first ↦
          subst
            (λ k.
              IsRelocated image_base image_size (handler_at k)
                (get_or (run (suc n) index vectors).1 k 0))
            first
            (subst (λ v. IsRelocated image_base image_size (handler_at index) v)
              (sym (entry_stays n index vectors entry (omega arith) e))
              (relocated_vector_lem image_base image_size (handler_at index) entry
                (words (4 * index)) found))
      | inr later ↦
          subst
            (λ (r : Bool × List ℕ).
              IsRelocated image_base image_size (handler_at j) (get_or r.1 j 0))
            (sym e)
            (run_lem n (index + 1) (set vectors index entry) j
              (omega (arith, length-set vectors index entry))
              (ap (λ (r : Bool × List ℕ). r.0) (sym e) ∙ h) later (omega arith))
    ]
  ]

relocate_ok :
    (image : List ℕ) (image_base image_size vector_words got_offset got_size : ℕ) (vectors : List ℕ)
    (vector_capacity : ℕ) (got : List ℕ) (got_capacity : ℕ)
    → let out =
        boot_runtime_relocate image image_base image_size vector_words got_offset got_size vectors
          vector_capacity got got_capacity in
      let loop =
        relocate_vectors
          (vector_words - 1)
          1
          image
          image_base
          image_size
          (set vectors 0 (read_u32_le image 0)) in
      (out.0 ≡ true)
      → (loop.0 ≡ true) × (out.1 ≡ loop.1) × (2 ≤ vector_words) × (vector_words ≤ vector_capacity)
unfolding boot_runtime_relocate
relocate_ok image image_base image_size vector_words got_offset got_size vectors vector_capacity got
      got_capacity h =
    ground arith

-- If the relocation returns success, with a vector table as long as its capacity says, the first
-- vector is the image's initial stack pointer, and every other vector below `vector_words` is either 0
-- for an unused handler, or the image's base plus the handler's offset, where that offset has the
-- Thumb bit and does not point past the image.
pub boot_runtime_relocate-vectors :
    (image : List ℕ) (image_base image_size vector_words got_offset got_size : ℕ) (vectors : List ℕ)
    (vector_capacity : ℕ) (got : List ℕ) (got_capacity j : ℕ)
    → AreBytes image
    → vector_capacity ≤ length vectors
    → (boot_runtime_relocate image image_base image_size vector_words got_offset got_size vectors
        vector_capacity got got_capacity).0
      ≡ true
    → j < vector_words
    → let table =
        (boot_runtime_relocate image image_base image_size vector_words got_offset got_size vectors
          vector_capacity got got_capacity).1 in
      ((j ≡ 0) × (get_or table j 0 ≡ read_u32_le image 0))
      ⊎ ((0 < j) × IsRelocated image_base image_size (read_u32_le image (4 * j)) (get_or table j 0))
boot_runtime_relocate-vectors image image_base image_size vector_words got_offset got_size vectors
      vector_capacity got got_capacity j bytes long h below =
    let done =
      relocate_ok image image_base image_size vector_words got_offset got_size vectors
        vector_capacity got got_capacity h in
    let start = set vectors 0 (read_u32_le image 0) in
    elim (first_or_later 0 j (omega arith)) [
      | inl zero_j ↦ inl (
        sym zero_j,
        ap (λ t. get_or t j 0) done.1
            ∙ ap
                (λ (k : ℕ).
                  get_or (relocate_vectors (vector_words - 1) 1 image image_base image_size start).1
                    k 0)
                (sym zero_j)
            ∙ run_keeps image image_base image_size (read_u32_le-IsWord image bytes)
                (vector_words - 1) 1 start 0 (omega arith)
            ∙ get_or-set_self vectors 0 (read_u32_le image 0) 0 (omega arith),
      )
      | inr later ↦ inr (
        later,
        subst (λ t. IsRelocated image_base image_size (read_u32_le image (4 * j)) (get_or t j 0))
            (sym done.1)
            (run_lem image image_base image_size (read_u32_le-IsWord image bytes) (vector_words - 1)
              1 start j (omega (arith, length-set vectors 0 (read_u32_le image 0))) done.0 later
              (omega arith)),
      )
    ]
