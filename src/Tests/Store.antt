-- ===== src/Tests/Store.antt =====
-- Saves of the boot-state store, with copy A holding the default record.
use stm32_vibe.Base.{◌≡◌, ◌≢◌, ◌⊎◌, inl, inr, refl, List, [], ◌∷◌, replicate, arith}
use stm32_vibe.BootState.{
  BootState, boot_state_init_default, boot_state_update_crc, boot_state_validate, boot_state_crc32,
  record_bytes, words_bytes, boot_state_select_latest, is_valid,
}
use stm32_vibe.BootStore.{
  Event, done, error, Copies, written, state_words, state_of_words, erased, wait_ready,
  program_words, write_record, boot_state_store_load, boot_state_store_save_next,
}
use stm32_vibe.BootStore.Atomic.{IsPaired, save_next_atomic}
use stm32_vibe.BootStore.Save.{save_next_wraps}
use stm32_vibe.Crc.{crc32_masked, crc32_update}

abbrev pub first_save : Copies
first_save = record { copy_a = state_words boot_state_init_default; copy_b = erased }

abbrev pub second : BootState
second = boot_state_update_crc (record boot_state_init_default { generation = 1 })

-- The controller reports an error while the first word is programmed.
abbrev breaks : List Event
breaks = done ∷ done ∷ done ∷ error ∷ []

pub IsPaired-first_save :
    IsPaired (state_of_words first_save.copy_a) (state_of_words first_save.copy_b)
unfolding boot_state_validate state_of_words boot_state_init_default boot_state_update_crc
IsPaired-first_save = record { even_a = λ h. refl; odd_b = λ h. absurd (ground arith) }

save_next_atomic_example :
    (((boot_state_store_save_next first_save second breaks).0 ≡ written)
      × (boot_state_store_load (boot_state_store_save_next first_save second breaks).1 ≡ second))
    ⊎ (((boot_state_store_save_next first_save second breaks).0 ≢ written)
        × (boot_state_store_load (boot_state_store_save_next first_save second breaks).1
            ≡ boot_state_init_default))
unfolding boot_state_store_save_next write_record program_words wait_ready boot_state_select_latest
    is_valid boot_state_validate state_of_words boot_state_init_default boot_state_update_crc
    boot_state_crc32 record_bytes words_bytes crc32_masked crc32_update
save_next_atomic_example =
    save_next_atomic first_save boot_state_init_default second breaks IsPaired-first_save refl refl
      refl refl (λ n. (inl refl, inr (ground arith)))

abbrev last : BootState
last = boot_state_update_crc (record boot_state_init_default { generation = 4294967295 })

abbrev wrapped : BootState
wrapped = boot_state_update_crc (record boot_state_init_default { generation = 0 })

abbrev last_save : Copies
last_save = record { copy_a = erased; copy_b = state_words last }

IsPaired-last_save : IsPaired (state_of_words last_save.copy_a) (state_of_words last_save.copy_b)
unfolding boot_state_validate state_of_words boot_state_init_default boot_state_update_crc
IsPaired-last_save = record { even_a = λ h. absurd (ground arith); odd_b = λ h. refl }

save_next_wraps_example :
    ((boot_state_store_save_next last_save wrapped (replicate 23 done)).0 ≡ written)
    × (boot_state_store_load (boot_state_store_save_next last_save wrapped (replicate 23 done)).1
        ≡ last)
unfolding boot_state_select_latest is_valid boot_state_validate state_of_words
    boot_state_init_default boot_state_update_crc boot_state_crc32 record_bytes words_bytes
    crc32_masked crc32_update
save_next_wraps_example =
    save_next_wraps last_save last wrapped 23 IsPaired-last_save refl refl refl refl (omega arith)
