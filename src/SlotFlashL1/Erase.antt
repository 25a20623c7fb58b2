-- ===== src/SlotFlashL1/Erase.antt =====
-- A slot of the STM32L152 that is erased and then written.
use stm32_vibe.Base.{
  ℕ, zero, suc, ◌+◌, ◌-◌, ◌*◌, ◌/◌, ◌%◌, ◌≤◌, ◌<◌, ltb, leb, ◌≡◌, inl, inr, refl, subst, sym, ap,
  ◌∙◌, if◌then◌else◌, ◌&&◌, true, List, get_or, set, length, length-set, AreBytes, arith,
}
use stm32_vibe.Layout.{stm32l152, app_slot_size}
use stm32_vibe.Storage.{ok}
use stm32_vibe.SlotFlash.{Slots, contents, put, is_done, wait_ready}
use stm32_vibe.SlotFlash.Store.{within, padded, get_or-set}
use stm32_vibe.SlotFlash.Write.{whole_words, ltb_cases, contents-put, wait_ready_ok}
use stm32_vibe.SlotFlash.Erase.{padded-lt}
use stm32_vibe.SlotFlashL1.{
  whole_pages, unlock_flash, clear, erase_page, erase_pages, boot_flash_erase_slot,
  boot_flash_write_slot,
}
use stm32_vibe.SlotFlashL1.Write.{unlock_flash_lem, boot_flash_write_slot-Holds}

module _ (blank : ℕ) where
  length-clear : (n at : ℕ) (bytes : List ℕ) → length (clear blank n at bytes) ≡ length bytes
  unfolding clear
  length-clear zero at bytes = refl
  length-clear (suc n) at bytes =
      length-clear n (at + 1) (set bytes at blank) ∙ length-set bytes at blank

  get_or-clear :
      (n at : ℕ) (bytes : List ℕ) (i : ℕ)
      → at + n ≤ length bytes
      → get_or (clear blank n at bytes) i 0 ≡ (if within at n i then blank else get_or bytes i 0)
  unfolding clear
  get_or-clear zero at bytes i h = ground arith
  get_or-clear (suc n) at bytes i h =
      let later =
        get_or-clear n (at + 1) (set bytes at blank) i (omega (arith, length-set bytes at blank)) in
      let first = get_or-set bytes at i blank (omega arith) in ground (arith, later, first)

  -- `to` is `from` with the bytes from `offset` up to `end` erased.
  record IsCleared (offset end : ℕ) (from to : List ℕ) : Type 0 where
    same_length : length to ≡ length from
    bytes : (i : ℕ) → get_or to i 0 ≡ (if leb offset i && ltb i end then blank else get_or from i 0)

  erase_page_ok :
      (slot at : ℕ) (s : Slots)
      → (erase_page blank slot at s).0 ≡ ok
      → contents slot (erase_page blank slot at s).1 ≡ clear blank 256 at (contents slot s)
  unfolding erase_page
  erase_page_ok slot at s h =
      let (ready, s1) = wait_ready slot s in
      let cleared = clear blank 256 at (contents slot s1) in
      let (result, s2) = wait_ready slot (put slot cleared s1) in
      let calm : ready ≡ ok = ground (arith, h) in
      let went : result ≡ ok = ground (arith, h) in
      let still = (wait_ready_ok slot s calm).0 in
      let here : contents slot s2 ≡ clear blank 256 at (contents slot s) =
        (wait_ready_ok slot (put slot cleared s1) went).0
        ∙ contents-put slot cleared s1
        ∙ ap (λ c. clear blank 256 at c) still in
      ground (arith, calm, went, here)

  erase_pages-IsCleared :
      (n slot offset pages : ℕ) (s : Slots)
      → pages * 256 ≤ offset + n * 256
      → offset % 256 ≡ 0
      → pages * 256 ≤ length (contents slot s)
      → let out = erase_pages blank n slot offset (pages * 256) s in
        out.0 ≡ ok → IsCleared offset (pages * 256) (contents slot s) (contents slot out.1)
  unfolding erase_pages
  erase_pages-IsCleared zero slot offset pages s enough aligned room h = record {
    same_length = refl;
    bytes = λ i. ground (arith, enough);
  }
  erase_pages-IsCleared (suc n) slot offset pages s enough aligned room h =
      let (result, s') = erase_page blank slot offset s in
      let rest = erase_pages blank n slot (offset + 256) (pages * 256) s' in
      elim (ltb_cases offset (pages * 256)) [
        | inl more ↦
            let went : result ≡ ok = ground (arith, h, more) in
            let here = erase_page_ok slot offset s went in
            let kept = length-clear 256 offset (contents slot s) in
            let later =
              erase_pages-IsCleared n slot (offset + 256) pages s' (omega arith) (omega arith)
                (omega (arith, room, ap length here, kept)) (ground (arith, h, more, went)) in
            let whole : IsCleared offset (pages * 256) (contents slot s) (contents slot rest.1) =
              record {
                same_length = later.same_length ∙ ap length here ∙ kept;
                bytes = λ i.
                    let page = get_or-clear 256 offset (contents slot s) i (omega arith) in
                    let there = ap (λ c. get_or c i 0) here ∙ page in
                    ground (arith, later.bytes i, there);
              } in
            ground (arith, more, went, whole)
        | inr end ↦
            let none : IsCleared offset (pages * 256) (contents slot s) (contents slot s) = record {
              same_length = refl;
              bytes = λ i. ground (arith, end);
            } in
            ground (arith, end, none)
      ]

  erase_in_range :
      (slot image_size : ℕ) (s : Slots)
      → (boot_flash_erase_slot blank slot image_size s).0 ≡ ok
      → (image_size ≤ app_slot_size stm32l152)
        × (is_done (unlock_flash s).0 ≡ true)
        × (boot_flash_erase_slot blank slot image_size s
            ≡ erase_pages blank image_size slot 0 (whole_pages image_size) (unlock_flash s).1)
  unfolding boot_flash_erase_slot
  erase_in_range slot image_size s h = ground (arith, h)

  boot_flash_erase_slot_lem :
      (slot image_size : ℕ) (s : Slots)
      → length (contents slot s) ≡ app_slot_size stm32l152
      → let out = boot_flash_erase_slot blank slot image_size s in
        out.0 ≡ ok → IsCleared 0 (whole_pages image_size) (contents slot s) (contents slot out.1)
  boot_flash_erase_slot_lem slot image_size s whole h =
      let parts = erase_in_range slot image_size s h in
      let s1 = (unlock_flash s).1 in
      let still = (unlock_flash_lem slot s).0 in
      let run = erase_pages blank image_size slot 0 (whole_pages image_size) s1 in
      let went : run.0 ≡ ok = sym (ap (λ o. o.0) parts.2) ∙ h in
      let cleared =
        erase_pages-IsCleared image_size slot 0 ((image_size + 256 - 1) / 256) s1 (omega arith)
          (omega arith) (omega (arith, parts.0, whole, ap length still)) went in
      let moved : IsCleared 0 (whole_pages image_size) (contents slot s) (contents slot run.1) =
        subst (λ c. IsCleared 0 (whole_pages image_size) c (contents slot run.1)) still cleared in
      subst (λ o. IsCleared 0 (whole_pages image_size) (contents slot s) (contents slot o.1))
        (sym parts.2) moved

pick :
    (blank x y w z offset len image_size i : ℕ) (source : List ℕ)
    → x ≡ (if leb (offset + 0) i && ltb i (offset + whole_words len) then w else y)
    → y ≡ (if leb 0 i && ltb i (whole_pages image_size) then blank else z)
    → (y ≡ blank → w ≡ padded source len (i - offset))
    → (i < offset → i < whole_pages image_size → x ≡ blank)
      × (offset ≤ i
          → i < offset + len
          → offset + len ≤ image_size
          → x ≡ get_or source (i - offset) 0)
      × (offset + whole_words len ≤ i → i < whole_pages image_size → x ≡ blank)
      × (offset + whole_words len ≤ i → whole_pages image_size ≤ i → x ≡ z)
pick blank x y w z offset len image_size i source h hy hw = ground (arith, h, hy, hw)

-- On the STM32L152, if a slot is erased for an image and then written, and both succeed, then the bytes
-- that are read back within the image are those that were written, the other bytes of the erased pages
-- outside the words that were written are erased, and what lies behind both is as it was. What is
-- programmed onto an erased byte is taken to be held by it.
pub write-erase_pages :
    (blank : ℕ) (program : ℕ → ℕ → ℕ) (slot image_size offset : ℕ) (source : List ℕ) (len : ℕ)
    (s : Slots)
    → ((v : ℕ) → v < 256 → program blank v ≡ v)
    → AreBytes source
    → length (contents slot s) ≡ app_slot_size stm32l152
    → let erased = boot_flash_erase_slot blank slot image_size s in
      let out = boot_flash_write_slot program slot offset source len erased.1 in
      erased.0 ≡ ok
      → out.0 ≡ ok
      → (i : ℕ)
      → let byte = get_or (contents slot out.1) i 0 in
        (i < offset → i < whole_pages image_size → byte ≡ blank)
        × (offset ≤ i
            → i < offset + len
            → offset + len ≤ image_size
            → byte ≡ get_or source (i - offset) 0)
        × (offset + whole_words len ≤ i → i < whole_pages image_size → byte ≡ blank)
        × (offset + whole_words len ≤ i
            → whole_pages image_size ≤ i
            → byte ≡ get_or (contents slot s) i 0)
write-erase_pages blank program slot image_size offset source len s fresh bytes whole erased written
      i =
    let s1 = (boot_flash_erase_slot blank slot image_size s).1 in
    let cleared = boot_flash_erase_slot_lem blank slot image_size s whole erased in
    let held =
      boot_flash_write_slot-Holds program slot offset source len s1 (cleared.same_length ∙ whole)
        written in
    let before = get_or (contents slot s1) i 0 in
    let value = padded source len (i - offset) in
    pick blank
      (get_or (contents slot (boot_flash_write_slot program slot offset source len s1).1) i 0)
      before (program before value) (get_or (contents slot s) i 0) offset len image_size i source
      (held.bytes i) (cleared.bytes i)
      (λ e. ap (λ c. program c value) e ∙ fresh value (padded-lt source len (i - offset) bytes))
