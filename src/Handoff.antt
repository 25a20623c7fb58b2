-- ===== src/Handoff.antt =====
-- The handoff from the bootloader to the application (shared/boot/boot_runtime.c) and how the
-- application reads it (shared/platform/boot_info.c).
pub mod Deliver
use stm32_vibe.Base.{
  ℕ, ◌==◌, ◌!=◌, if◌then◌else◌, bit_xor, uint32_max, Bool, true, false, not, ◌&&◌, ◌||◌, List, [],
  ◌∷◌, Option, none, some,
}
use stm32_vibe.Crc.{crc32_masked}
use stm32_vibe.BootState.{BootState, words_bytes}
use stm32_vibe.BootPolicy.{BootCandidate}
use stm32_vibe.Image.{AppImageResult}

abbrev pub boot_handoff_magic : ℕ
boot_handoff_magic = 0x46444E48

abbrev pub boot_handoff_version : ℕ
boot_handoff_version = 1

-- `sizeof(boot_handoff_t)`: nine words.
abbrev pub boot_handoff_size : ℕ
boot_handoff_size = 36

abbrev pub boot_handoff_confirmed : ℕ
boot_handoff_confirmed = 0

abbrev pub boot_handoff_pending : ℕ
boot_handoff_pending = 1

-- `boot_handoff_t`.
pub record Handoff : Type 0 where
  pub magic : ℕ
  pub version : ℕ
  pub size : ℕ
  pub image_base : ℕ
  pub image_size : ℕ
  pub slot : ℕ
  pub state : ℕ
  pub boot_attempt : ℕ
  pub crc32 : ℕ

unfoldable pub handoff_bytes : Handoff → List ℕ
unfolding words_bytes
handoff_bytes h = words_bytes (
    h.magic ∷ h.version ∷ h.size ∷ h.image_base ∷ h.image_size ∷ h.slot ∷ h.state ∷ h.boot_attempt
    ∷ h.crc32 ∷ [])

-- `crc32` lies at the bytes from 32 on below 36.
unfoldable pub boot_handoff_crc32 : Handoff → ℕ
unfolding handoff_bytes crc32_masked
boot_handoff_crc32 h =
    bit_xor (crc32_masked 32 36 0 uint32_max (handoff_bytes h) boot_handoff_size) uint32_max

unfoldable pub boot_handoff_update_crc : Handoff → Handoff
boot_handoff_update_crc h =
    let cleared = record h { crc32 = 0 } in record cleared { crc32 = boot_handoff_crc32 cleared }

unfoldable pub boot_handoff_is_valid : Handoff → Bool
boot_handoff_is_valid h =
    if h.magic != boot_handoff_magic
      || (h.version != boot_handoff_version)
      || (h.size != boot_handoff_size)
      || (h.slot != 0 && h.slot != 1)
      || (h.state != boot_handoff_confirmed && h.state != boot_handoff_pending)
      || (h.image_size == 0)
    then false
    else h.crc32 == boot_handoff_crc32 h

-- The initialiser in `prepare_boot_handoff`.
abbrev pub handoff_fields : BootCandidate → AppImageResult → BootState → Handoff
handoff_fields candidate image s = record {
  magic = boot_handoff_magic;
  version = boot_handoff_version;
  size = boot_handoff_size;
  image_base = candidate.image_base;
  image_size = image.image_size;
  slot = candidate.slot;
  state = if candidate.boot_pending then boot_handoff_pending else boot_handoff_confirmed;
  boot_attempt = if candidate.boot_pending then s.pending_attempts else 0;
  crc32 = 0;
}

-- `prepare_boot_handoff` of bootloader/src/main.c: what is written to the shared RAM.
unfoldable pub prepare_boot_handoff : BootCandidate → AppImageResult → BootState → Handoff
prepare_boot_handoff candidate image s = boot_handoff_update_crc (handoff_fields candidate image s)

-- `platform_boot_info_t`.
pub record BootInfo : Type 0 where
  pub image_base : ℕ
  pub image_size : ℕ
  pub slot : ℕ
  pub boot_attempt : ℕ
  pub pending : Bool

-- `platform_boot_info_init_from`: the information that the module then holds, `none` while
-- `boot_info_valid` is false.
unfoldable pub platform_boot_info_init_from : Handoff → Option BootInfo
platform_boot_info_init_from h =
    if not (boot_handoff_is_valid h)
    then none
    else some record {
      image_base = h.image_base;
      image_size = h.image_size;
      slot = h.slot;
      boot_attempt = h.boot_attempt;
      pending = h.state == boot_handoff_pending;
    }
