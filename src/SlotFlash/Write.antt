-- ===== src/SlotFlash/Write.antt =====
-- What a write to a slot leaves in it.
use stm32_vibe.Base.{
  ℕ, zero, suc, ◌+◌, ◌-◌, ◌*◌, ◌/◌, ◌%◌, ◌≤◌, ◌<◌, ◌==◌, ltb, leb, ◌≡◌, ◌⊎◌, inl, inr, refl, subst,
  ap, ◌∙◌, if◌then◌else◌, ◌&&◌, true, false, List, get_or, length, bit_and, arith,
}
use stm32_vibe.Base.Bits.{bit_and-low}
use stm32_vibe.Layout.{stm32f446, app_slot_size}
use stm32_vibe.Storage.{ok, invalid_argument}
use stm32_vibe.SlotFlash.{
  Slots, contents, put, take_answer, wait_ready, try_unlock, unlock_flash, word_at, is_bad_write,
  program_word, write_words, boot_flash_write_slot,
}
use stm32_vibe.SlotFlash.Store.{
  padded, get_or-word_at, length-word_at, get_or-program_word, length-program_word,
}

-- `len` rounded up to words.
abbrev pub whole_words : ℕ → ℕ
whole_words len = (len + 3) / 4 * 4

-- The slot that is not `slot`.
abbrev pub other : ℕ → Slots → List ℕ
other slot s = if slot == 0 then s.slot_b else s.slot_a

pub ltb_cases : (i n : ℕ) → ((i < n) × (ltb i n ≡ true)) ⊎ ((n ≤ i) × (ltb i n ≡ false))
ltb_cases i n = ground arith

pub wait_ready_ok :
    (slot : ℕ) (s : Slots)
    → (wait_ready slot s).0 ≡ ok
    → (contents slot (wait_ready slot s).1 ≡ contents slot s)
      × (other slot (wait_ready slot s).1 ≡ other slot s)
unfolding wait_ready take_answer
wait_ready_ok slot s h = ground (arith, h)

pub wait_ready-other : (slot : ℕ) (s : Slots) → other slot (wait_ready slot s).1 ≡ other slot s
unfolding wait_ready take_answer
wait_ready-other slot s = ground arith

pub unlock_flash_lem :
    (slot : ℕ) (s : Slots)
    → (contents slot (unlock_flash s).1 ≡ contents slot s)
      × (other slot (unlock_flash s).1 ≡ other slot s)
unfolding unlock_flash try_unlock
unlock_flash_lem slot s = ground arith

pub contents-put :
    (slot : ℕ) (bytes : List ℕ) (s : Slots) → contents slot (put slot bytes s) ≡ bytes
contents-put slot bytes s = ground arith

pub in_range :
    (slot offset len : ℕ)
    → is_bad_write stm32f446 slot offset len ≡ false
    → offset + whole_words len ≤ app_slot_size stm32f446
unfolding is_bad_write
in_range slot offset len h =
    let aligned : bit_and offset 3 ≡ offset % 4 = bit_and-low 2 offset in
    let parts : (offset % 4 ≡ 0) × (offset + len ≤ 131072) = ground (arith, h, aligned) in
    omega (arith, parts)

module _ (program : ℕ → ℕ → ℕ) where
  -- `to` is `from` with the words of `source` from `index` on written at `offset`.
  pub record Holds (offset index : ℕ) (source : List ℕ) (len : ℕ) (from to : List ℕ) : Type 0 where
    pub same_length : length to ≡ length from
    pub bytes :
        (i : ℕ)
        → get_or to i 0 ≡ (
            if leb (offset + index) i && ltb i (offset + whole_words len)
            then program (get_or from i 0) (padded source len (i - offset))
            else get_or from i 0)

  lane :
      (offset index : ℕ) (source : List ℕ) (len i : ℕ)
      → offset + index ≤ i
      → i < offset + index + 4
      → get_or (word_at source len index) (i - (offset + index)) 0 ≡ padded source len (i - offset)
  lane offset index source len i low high =
      let place : index + (i - (offset + index)) ≡ i - offset = omega arith in
      get_or-word_at source len index (i - (offset + index)) (omega arith)
      ∙ ap (λ j. padded source len j) place

  pub one_word :
      (offset index : ℕ) (source : List ℕ) (len : ℕ) (from to : List ℕ)
      → index % 4 ≡ 0
      → index < len
      → offset + whole_words len ≤ length from
      → Holds offset
          (index + 4)
          source
          len
          (program_word program from (offset + index) (word_at source len index))
          to
      → Holds offset index source len from to
  one_word offset index source len from to aligned more room v =
      let fits : index + 4 ≤ whole_words len = omega arith in
      let word = word_at source len index in
      let four = length-word_at source len index in
      record {
        same_length = v.same_length ∙ length-program_word program from (offset + index) word;
        bytes = λ i.
            let written =
              get_or-program_word program from (offset + index) word i (omega (arith, four)) in
            let later = v.bytes i in
            let here = lane offset index source len i in ground (arith, four, written, later, here);
      }

  pub unchanged_lem :
      (offset index : ℕ) (source : List ℕ) (len : ℕ) (from : List ℕ)
      → index % 4 ≡ 0
      → len ≤ index
      → Holds offset index source len from from
  unchanged_lem offset index source len from aligned end =
      let past : whole_words len ≤ index = omega arith in
      record { same_length = refl; bytes = λ i. ground (arith, past) }

  -- The rounds are enough for the words that are left.
  write_words-Holds :
      (n slot offset index : ℕ) (source : List ℕ) (len : ℕ) (s : Slots)
      → index % 4 ≡ 0
      → len ≤ index + 4 * n
      → offset + whole_words len ≤ length (contents slot s)
      → let out = write_words program n slot offset index source len s in
        out.0 ≡ ok → Holds offset index source len (contents slot s) (contents slot out.1)
  unfolding write_words
  write_words-Holds zero slot offset index source len s aligned enough room h =
      unchanged_lem offset index source len (contents slot s) aligned (omega arith)
  write_words-Holds (suc n) slot offset index source len s aligned enough room h =
      let word = word_at source len index in
      let written = program_word program (contents slot s) (offset + index) word in
      let stored = put slot written s in
      let (result, s') = wait_ready slot stored in
      let kept = length-program_word program (contents slot s) (offset + index) word in
      let same : contents slot stored ≡ written = contents-put slot written s in
      elim (ltb_cases index len) [
        | inl more ↦
            let went : result ≡ ok = ground (arith, h, more) in
            let here : contents slot s' ≡ written = (wait_ready_ok slot stored went).0 ∙ same in
            let rest = write_words program n slot offset (index + 4) source len s' in
            let later =
              write_words-Holds n slot offset (index + 4) source len s' (omega (arith, aligned))
                (omega (arith, enough)) (omega (arith, room, kept, ap length here))
                (ground (arith, h, more, went)) in
            let moved : Holds offset (index + 4) source len written (contents slot rest.1) =
              subst (λ c. Holds offset (index + 4) source len c (contents slot rest.1)) here
                later in
            let whole =
              one_word offset index source len (contents slot s) (contents slot rest.1) aligned
                more.0 room moved in
            ground (arith, more, went, whole)
        | inr end ↦
            ground (arith, end, unchanged_lem offset index source len (contents slot s) aligned)
      ]

  write_words-other :
      (n slot offset index : ℕ) (source : List ℕ) (len : ℕ) (s : Slots)
      → other slot (write_words program n slot offset index source len s).1 ≡ other slot s
  unfolding write_words
  write_words-other zero slot offset index source len s = refl
  write_words-other (suc n) slot offset index source len s =
      let word = word_at source len index in
      let stored = put slot (program_word program (contents slot s) (offset + index) word) s in
      let waited = wait_ready-other slot stored in
      let later =
        write_words-other n slot offset (index + 4) source len (wait_ready slot stored).1 in
      let same : other slot stored ≡ other slot s = ground arith in
      ground (arith, waited ∙ same, later ∙ waited ∙ same)

  written-Holds :
      (slot offset : ℕ) (source : List ℕ) (len : ℕ) (s s1 : Slots)
      → length (contents slot s) ≡ app_slot_size stm32f446
      → contents slot s1 ≡ contents slot s
      → is_bad_write stm32f446 slot offset len ≡ false
      → let out = write_words program len slot offset 0 source len s1 in
        out.0 ≡ ok → Holds offset 0 source len (contents slot s) (contents slot out.1)
  written-Holds slot offset source len s s1 whole same good h =
      let room = in_range slot offset len good in
      let out = write_words program len slot offset 0 source len s1 in
      subst (λ c. Holds offset 0 source len c (contents slot out.1)) same
        (write_words-Holds len slot offset 0 source len s1 refl (omega arith)
          (omega (arith, room, whole, ap length same)) h)

  -- A write that is out of range, or not at a word, changes nothing. Any other leaves the slot that it is
  -- not for as it was, whatever the controller answers, and if it succeeds, then its slot holds the data
  -- from the offset on, filled up with ones to whole words and programmed onto what was there, and what
  -- it held everywhere else, for a slot of the right size.
  pub boot_flash_write_slot-Holds :
      (slot offset : ℕ) (source : List ℕ) (len : ℕ) (s : Slots)
      → length (contents slot s) ≡ app_slot_size stm32f446
      → let out = boot_flash_write_slot program slot offset source len s in
        (is_bad_write stm32f446 slot offset len ≡ true → out ≡ (invalid_argument, s))
        × (other slot out.1 ≡ other slot s)
        × (out.0 ≡ ok → Holds offset 0 source len (contents slot s) (contents slot out.1))
  unfolding boot_flash_write_slot
  boot_flash_write_slot-Holds slot offset source len s whole =
      let unlocked = unlock_flash_lem slot s in
      let s1 = (unlock_flash s).1 in
      let untouched = write_words-other len slot offset 0 source len s1 in
      let good : (boot_flash_write_slot program slot offset source len s).0 ≡ ok
          → is_bad_write stm32f446 slot offset len ≡ false =
        λ h. ground (arith, h) in
      (
        λ bad. ground (arith, bad),
        ground (arith, untouched ∙ unlocked.1, unlocked.1),
        λ h.
            ground (
              arith,
              h,
              good h,
              written-Holds slot offset source len s s1 whole unlocked.0 (good h),
            ),
      )
