-- ===== src/Tests/Memory.antt =====
-- A device in memory, for the examples: two slots and the boot state, with a switch that makes erasing
-- fail. It holds what it is told, as the flash driver and the store promise.
use stm32_vibe.Base.{ℕ, ◌==◌, if◌then◌else◌, Bool, true, List, [], ◌∷◌, ◌++◌, take, replicate, refl}
use stm32_vibe.BootState.{BootState, boot_state_init_default, boot_state_update_crc, words_bytes}
use stm32_vibe.Storage.{ok, error, Storage}

pub record Memory : Type 0 where
  pub slot_a : List ℕ
  pub slot_b : List ℕ
  pub state : BootState
  pub worn : Bool

abbrev pub contents : ℕ → Memory → List ℕ
contents slot m = if slot == 0 then m.slot_a else m.slot_b

abbrev pub put : ℕ → List ℕ → Memory → Memory
put slot bytes m = if slot == 0 then record m { slot_a = bytes } else record m { slot_b = bytes }

-- The device whose erases fail where `fails` says so.
abbrev memory_that : (Memory → Bool) → Storage
memory_that fails = record {
  Device = Memory;
  erase_slot = λ slot size m. (if fails m then error else ok, put slot [] m);
  write_slot =
      λ slot offset bytes n m. (ok, put slot (take offset (contents slot m) ++ take n bytes) m);
  slot_bytes = contents;
  load = λ m. m.state;
  save_next = λ s m. (true, record m { state = s });
  save_keeps_slots = λ s m slot. refl;
}

abbrev pub memory : Storage
memory = memory_that (λ m. m.worn)

-- A record whose active slot holds a confirmed image.
abbrev pub running_a : BootState
running_a = boot_state_update_crc (record boot_state_init_default { slot_a_status = 3 })

-- An image of 576 bytes for slot B: two vectors, room up to the manifest, and the manifest.
abbrev pub image_b : List ℕ
image_b = words_bytes (
    0x20010000
    ∷ 0x08040201
    ∷ (replicate 126 0 ++ 0x45424956 ∷ 2 ∷ 64 ∷ 576 ∷ 0x96c53306 ∷ 7 ∷ replicate 10 0))

abbrev pub image_b_crc32 : ℕ
image_b_crc32 = 0x96c53306
