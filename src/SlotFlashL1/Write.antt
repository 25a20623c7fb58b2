-- ===== src/SlotFlashL1/Write.antt =====
-- What a write to a slot of the STM32L152 leaves in it.
use stm32_vibe.Base.{
  ℕ, zero, suc, ◌+◌, ◌*◌, ◌%◌, ◌≤◌, ◌≡◌, inl, inr, refl, subst, ap, ◌∙◌, false, List, length,
  bit_and, arith,
}
use stm32_vibe.Base.Bits.{bit_and-low}
use stm32_vibe.Layout.{stm32l152, app_slot_size}
use stm32_vibe.Storage.{ok}
use stm32_vibe.SlotFlash.{
  Slots, contents, put, wait_ready, unlock_flash as unlock_once, word_at, is_bad_write,
  program_word,
}
use stm32_vibe.SlotFlash.Store.{length-program_word}
use stm32_vibe.SlotFlash.Write.{
  whole_words, other, Holds, ltb_cases, wait_ready_ok, unlock_flash_lem as unlock_once_lem,
  contents-put, one_word, unchanged_lem,
}
use stm32_vibe.SlotFlashL1.{unlock_flash, write_words, boot_flash_write_slot}

pub unlock_flash_lem :
    (slot : ℕ) (s : Slots)
    → (contents slot (unlock_flash s).1 ≡ contents slot s)
      × (other slot (unlock_flash s).1 ≡ other slot s)
unfolding unlock_flash
unlock_flash_lem slot s =
    let first = unlock_once_lem slot s in
    let second = unlock_once_lem slot (unlock_once s).1 in
    ground (arith, first, second.0 ∙ first.0, second.1 ∙ first.1)

in_range :
    (slot offset len : ℕ)
    → is_bad_write stm32l152 slot offset len ≡ false
    → offset + whole_words len ≤ app_slot_size stm32l152
unfolding is_bad_write
in_range slot offset len h =
    let aligned : bit_and offset 3 ≡ offset % 4 = bit_and-low 2 offset in
    let parts : (offset % 4 ≡ 0) × (offset + len ≤ 225280) = ground (arith, h, aligned) in
    omega (arith, parts)

module _ (program : ℕ → ℕ → ℕ) where
  write_words-Holds :
      (n slot offset index : ℕ) (source : List ℕ) (len : ℕ) (s : Slots)
      → index % 4 ≡ 0
      → len ≤ index + 4 * n
      → offset + whole_words len ≤ length (contents slot s)
      → let out = write_words program n slot offset index source len s in
        out.0 ≡ ok → Holds program offset index source len (contents slot s) (contents slot out.1)
  unfolding write_words
  write_words-Holds zero slot offset index source len s aligned enough room h =
      unchanged_lem program offset index source len (contents slot s) aligned (omega arith)
  write_words-Holds (suc n) slot offset index source len s aligned enough room h =
      let (ready, s1) = wait_ready slot s in
      let word = word_at source len index in
      let written = program_word program (contents slot s1) (offset + index) word in
      let stored = put slot written s1 in
      let (result, s2) = wait_ready slot stored in
      let kept = length-program_word program (contents slot s1) (offset + index) word in
      elim (ltb_cases index len) [
        | inl more ↦
            let calm : ready ≡ ok = ground (arith, h, more) in
            let went : result ≡ ok = ground (arith, h, more) in
            let still : contents slot s1 ≡ contents slot s = (wait_ready_ok slot s calm).0 in
            let here : contents slot s2 ≡ written =
              (wait_ready_ok slot stored went).0 ∙ contents-put slot written s1 in
            let rest = write_words program n slot offset (index + 4) source len s2 in
            let later =
              write_words-Holds n slot offset (index + 4) source len s2 (omega (arith, aligned))
                (omega (arith, enough)) (omega (arith, room, kept, ap length here, ap length still))
                (ground (arith, h, more, went)) in
            let moved : Holds program offset (index + 4) source len written (contents slot rest.1) =
              subst (λ c. Holds program offset (index + 4) source len c (contents slot rest.1)) here
                later in
            let whole =
              one_word program offset index source len (contents slot s1) (contents slot rest.1)
                aligned more.0 (omega (arith, room, ap length still)) moved in
            let at_start : Holds program offset index source len (contents slot s)
                (contents slot rest.1) =
              subst (λ c. Holds program offset index source len c (contents slot rest.1)) still
                whole in
            ground (arith, more, calm, went, at_start)
        | inr end ↦
            ground
              (arith, end, unchanged_lem program offset index source len (contents slot s) aligned)
      ]

  -- A write that succeeds, to a slot of the right size.
  pub boot_flash_write_slot-Holds :
      (slot offset : ℕ) (source : List ℕ) (len : ℕ) (s : Slots)
      → length (contents slot s) ≡ app_slot_size stm32l152
      → let out = boot_flash_write_slot program slot offset source len s in
        out.0 ≡ ok → Holds program offset 0 source len (contents slot s) (contents slot out.1)
  unfolding boot_flash_write_slot
  boot_flash_write_slot-Holds slot offset source len s whole h =
      let unlocked = unlock_flash_lem slot s in
      let s1 = (unlock_flash s).1 in
      let good : is_bad_write stm32l152 slot offset len ≡ false = ground (arith, h) in
      let room = in_range slot offset len good in
      let out = write_words program len slot offset 0 source len s1 in
      let held =
        write_words-Holds len slot offset 0 source len s1 refl (omega arith)
          (omega (arith, room, whole, ap length unlocked.0)) in
      let moved : out.0 ≡ ok
          → Holds program offset 0 source len (contents slot s) (contents slot out.1) =
        λ k.
          subst (λ c. Holds program offset 0 source len c (contents slot out.1)) unlocked.0
            (held k) in
      ground (arith, h, good, moved)
