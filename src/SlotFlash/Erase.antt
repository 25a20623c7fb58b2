-- ===== src/SlotFlash/Erase.antt =====
-- A slot that is erased and then written.
use stm32_vibe.Base.{
  ℕ, ◌+◌, ◌-◌, ◌≤◌, ◌<◌, ◌==◌, ltb, leb, ◌≡◌, refl, ap, ◌∙◌, if◌then◌else◌, ◌&&◌, ◌||◌, not, Bool,
  true, false, List, get_or, length, length-replicate, replicate, AreBytes, get_or-lt, arith,
}
use stm32_vibe.Layout.{stm32f446, app_slot_size}
use stm32_vibe.BootState.{slot_is_valid}
use stm32_vibe.Storage.{FlashResult, ok, invalid_argument, error}
use stm32_vibe.SlotFlash.{
  Slots, contents, put, is_done, wait_ready, unlock_flash, boot_flash_erase_slot,
  boot_flash_write_slot,
}
use stm32_vibe.SlotFlash.Store.{padded, get_or-replicate}
use stm32_vibe.SlotFlash.Write.{
  whole_words, other, contents-put, wait_ready_ok, wait_ready-other, unlock_flash_lem,
  boot_flash_write_slot-Holds,
}

-- An erase that is started, with what it makes of the slot.
started_lem :
    (slot : ℕ) (fresh : List ℕ) (s : Slots)
    → let out = wait_ready slot (put slot fresh s) in
      (other slot out.1 ≡ other slot s) × (out.0 ≡ ok → contents slot out.1 ≡ fresh)
started_lem slot fresh s =
    let same : other slot (put slot fresh s) ≡ other slot s = ground arith in
    (
      wait_ready-other slot (put slot fresh s) ∙ same,
      λ h. (wait_ready_ok slot (put slot fresh s) h).0 ∙ contents-put slot fresh s,
    )

-- The ways out of the erase.
ways_out :
    (slot : ℕ) (s s1 s2 s3 : Slots) (fresh : List ℕ) (bad : Bool)
    (unlocked ready result : FlashResult)
    → other slot s1 ≡ other slot s
    → other slot s2 ≡ other slot s
    → other slot s3 ≡ other slot s
    → (result ≡ ok → contents slot s3 ≡ fresh)
    → let out : FlashResult × Slots =
        if bad
        then (invalid_argument, s)
        else if not (is_done unlocked)
        then (error, s1)
        else if not (is_done ready)
        then (error, s2)
        else (result, s3) in
      (other slot out.1 ≡ other slot s) × (out.0 ≡ ok → contents slot out.1 ≡ fresh)
ways_out slot s s1 s2 s3 fresh true unlocked ready result h1 h2 h3 hf =
    (refl, λ h. ground (arith, h))
ways_out slot s s1 s2 s3 fresh false unlocked ready result h1 h2 h3 hf =
    ground (arith, h1, h2, h3, hf)

boot_flash_erase_slot_lem :
    (blank slot image_size : ℕ) (s : Slots)
    → let out = boot_flash_erase_slot blank slot image_size s in
      (other slot out.1 ≡ other slot s)
      × (out.0 ≡ ok → contents slot out.1 ≡ replicate (app_slot_size stm32f446) blank)
unfolding boot_flash_erase_slot
boot_flash_erase_slot_lem blank slot image_size s =
    let s1 = (unlock_flash s).1 in
    let s2 = (wait_ready slot s1).1 in
    let unlocked = unlock_flash_lem slot s in
    let waited = wait_ready-other slot s1 in
    let started = started_lem slot (replicate (app_slot_size stm32f446) blank) s2 in
    ways_out slot s s1 s2
      (wait_ready slot (put slot (replicate (app_slot_size stm32f446) blank) s2)).1
      (replicate (app_slot_size stm32f446) blank)
      (not (slot_is_valid slot) || (image_size == 0) || ltb (app_slot_size stm32f446) image_size)
      (unlock_flash s).0 (wait_ready slot s1).0
      (wait_ready slot (put slot (replicate (app_slot_size stm32f446) blank) s2)).0 unlocked.1
      (waited ∙ unlocked.1) (started.0 ∙ waited ∙ unlocked.1) started.1

pub padded-lt : (source : List ℕ) (len j : ℕ) → AreBytes source → padded source len j < 256
padded-lt source len j h = ground (arith, get_or-lt source j h)

pick :
    (blank x y w offset len i : ℕ) (source : List ℕ)
    → x ≡ (if leb (offset + 0) i && ltb i (offset + whole_words len) then w else y)
    → w ≡ padded source len (i - offset)
    → y ≡ blank
    → (i < offset → x ≡ blank)
      × (offset ≤ i → i < offset + len → x ≡ get_or source (i - offset) 0)
      × (offset + whole_words len ≤ i → x ≡ blank)
pick blank x y w offset len i source h hw hy = ground (arith, h, hw, hy)

-- If a slot is erased and then written, and both succeed, then the bytes that are read back are those
-- that were written, and every byte outside the words that were written is still erased. What is
-- programmed onto an erased byte is taken to be held by it.
write-erase :
    (blank : ℕ) (program : ℕ → ℕ → ℕ) (slot image_size offset : ℕ) (source : List ℕ) (len : ℕ)
    (s : Slots)
    → ((v : ℕ) → v < 256 → program blank v ≡ v)
    → AreBytes source
    → let erased = boot_flash_erase_slot blank slot image_size s in
      let out = boot_flash_write_slot program slot offset source len erased.1 in
      erased.0 ≡ ok
      → out.0 ≡ ok
      → (i : ℕ) → i < app_slot_size stm32f446
      → (i < offset → get_or (contents slot out.1) i 0 ≡ blank)
        × (offset ≤ i
            → i < offset + len
            → get_or (contents slot out.1) i 0 ≡ get_or source (i - offset) 0)
        × (offset + whole_words len ≤ i → get_or (contents slot out.1) i 0 ≡ blank)
write-erase blank program slot image_size offset source len s fresh bytes erased written i lt =
    let s1 = (boot_flash_erase_slot blank slot image_size s).1 in
    let same = (boot_flash_erase_slot_lem blank slot image_size s).1 erased in
    let size : length (contents slot s1) ≡ app_slot_size stm32f446 =
      ap length same ∙ length-replicate (app_slot_size stm32f446) blank in
    let held = (boot_flash_write_slot-Holds program slot offset source len s1 size).2 written in
    let before : get_or (contents slot s1) i 0 ≡ blank =
      ap (λ c. get_or c i 0) same ∙ get_or-replicate (app_slot_size stm32f446) blank i lt in
    let clean : program (get_or (contents slot s1) i 0) (padded source len (i - offset))
        ≡ padded source len (i - offset) =
      ap (λ c. program c (padded source len (i - offset))) before
      ∙ fresh (padded source len (i - offset)) (padded-lt source len (i - offset) bytes) in
    pick blank
      (get_or (contents slot (boot_flash_write_slot program slot offset source len s1).1) i 0)
      (get_or (contents slot s1) i 0)
      (program (get_or (contents slot s1) i 0) (padded source len (i - offset))) offset len i source
      (held.bytes i) clean before
