-- ===== src/Tests/StoreL1.antt =====
-- A save of the store of the STM32L152, with copy A holding the default record.
use stm32_vibe.Base.{◌≡◌, ◌≢◌, ◌⊎◌, inl, inr, refl, List, [], ◌∷◌, arith}
use stm32_vibe.BootState.{
  boot_state_init_default, boot_state_update_crc, boot_state_validate, boot_state_crc32,
  record_bytes, words_bytes, boot_state_select_latest, is_valid,
}
use stm32_vibe.BootStore.{Event, done, error, written, state_of_words, wait_ready}
use stm32_vibe.BootStoreL1.{
  program_words, erase_page, write_record, boot_state_store_load, boot_state_store_save_next,
  word_of_bytes,
}
use stm32_vibe.BootStoreL1.Atomic.{save_next_atomic_pages}
use stm32_vibe.Crc.{crc32_masked, crc32_update}
use stm32_vibe.Tests.Store.{first_save, second, IsPaired-first_save}

-- The controller reports an error before the second word is programmed.
abbrev breaks_later : List Event
breaks_later = done ∷ done ∷ done ∷ done ∷ done ∷ done ∷ error ∷ []

save_next_atomic_pages_example :
    let out = boot_state_store_save_next 0 first_save second breaks_later in
    ((out.0 ≡ written) × (boot_state_store_load out.1 ≡ second))
    ⊎ ((out.0 ≢ written) × (boot_state_store_load out.1 ≡ boot_state_init_default))
unfolding boot_state_store_save_next write_record program_words erase_page wait_ready word_of_bytes
    boot_state_select_latest is_valid boot_state_validate state_of_words boot_state_init_default
    boot_state_update_crc boot_state_crc32 record_bytes words_bytes crc32_masked crc32_update
save_next_atomic_pages_example =
    save_next_atomic_pages 0 first_save boot_state_init_default second breaks_later
      IsPaired-first_save refl refl refl (ground arith) refl (λ n. (inl refl, inr (ground arith)))
