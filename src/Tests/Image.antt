-- ===== src/Tests/Image.antt =====
-- Images, their vectors, their relocation and the handoff.
use stm32_vibe.Base.{
  ℕ, ◌<◌, ◌≡◌, ◌⊎◌, ◌↔◌, refl, true, List, [], ◌∷◌, get_or, replicate, some, AreBytes, arith,
}
use stm32_vibe.Layout.{stm32f446}
use stm32_vibe.BootState.{words_bytes}
use stm32_vibe.BootPolicy.{candidate_for}
use stm32_vibe.Protocol.{read_u32_le}
use stm32_vibe.Crc.{crc32_update}
use stm32_vibe.Image.{valid, image_crc32, app_image_validate}
use stm32_vibe.Image.Accept.{IsAcceptable, app_image_validate-valid_iff}
use stm32_vibe.Runtime.{boot_runtime_relocate, relocate_vectors, relocated_vector}
use stm32_vibe.Runtime.Vectors.{IsRelocated, boot_runtime_relocate-vectors}
use stm32_vibe.Handoff.{prepare_boot_handoff, platform_boot_info_init_from}
use stm32_vibe.Handoff.Deliver.{boot_info-prepare_boot_handoff}
use stm32_vibe.Tests.Memory.{image_b, running_a}

app_image_validate-valid_iff_example :
    ((app_image_validate image_b 0x20000).status ≡ valid) ↔ IsAcceptable image_b 0x20000
unfolding words_bytes
app_image_validate-valid_iff_example = app_image_validate-valid_iff image_b 0x20000 (omega arith)

-- A stack pointer, a reset handler at offset 8, an unused vector, and an offset table of one word.
abbrev small : List ℕ
small = 0 ∷ 0xF0 ∷ 1 ∷ 0x20 ∷ 9 ∷ 0 ∷ 0 ∷ 0 ∷ 0 ∷ 0 ∷ 0 ∷ 0 ∷ 4 ∷ 0 ∷ 0 ∷ 0 ∷ []

AreBytes-small : AreBytes small
AreBytes-small = ground arith

boot_runtime_relocate-vectors_example :
    let table =
      (boot_runtime_relocate small 0x08020000 16 3 12 4
        (replicate 128 0)
        128
        (replicate 256 0)
        256).1 in
    (◌≡◌ {A = ℕ} 1 0 × (get_or table 1 0 ≡ read_u32_le small 0))
    ⊎ ((0 < 1) × IsRelocated 0x08020000 16 (read_u32_le small 4) (get_or table 1 0))
unfolding boot_runtime_relocate relocate_vectors relocated_vector read_u32_le
boot_runtime_relocate-vectors_example =
    boot_runtime_relocate-vectors small 0x08020000 16 3 12 4 (replicate 128 0) 128 (replicate 256 0)
      256 1 AreBytes-small (omega arith) refl (omega arith)

boot_info-prepare_boot_handoff_example :
    platform_boot_info_init_from (
      prepare_boot_handoff
        (candidate_for stm32f446 1 true)
        (app_image_validate image_b 0x20000)
        running_a)
    ≡ some record {
      image_base = 0x08040000;
      image_size = 576;
      slot = 1;
      boot_attempt = running_a.pending_attempts;
      pending = true;
    }
unfolding app_image_validate words_bytes read_u32_le image_crc32 crc32_update
boot_info-prepare_boot_handoff_example =
    boot_info-prepare_boot_handoff (candidate_for stm32f446 1 true)
      (app_image_validate image_b 0x20000) running_a (omega arith) (omega arith)
