-- ===== src/Image.antt =====
-- Application images (shared/image/app_manifest.h, bootloader/src/app_image.c,
-- bootloader/src/app_validation.c). An image is the list of the bytes from its base address on.
pub mod Accept
pub mod Vectors
use stm32_vibe.Base.{
  ℕ, ◌+◌, ◌==◌, ◌!=◌, ltb, leb, if◌then◌else◌, bit_and, bit_xor, uint32_max, Bool, true, false, not,
  ◌&&◌, ◌||◌, List, get_or,
}
use stm32_vibe.Crc.{crc32_masked}
use stm32_vibe.Layout.{Board, ram_start_addr, ram_end_addr, boot_runtime_got_addr}
use stm32_vibe.Protocol.{read_u32_le}

abbrev pub manifest_offset : ℕ
manifest_offset = 0x200

abbrev pub manifest_magic : ℕ
manifest_magic = 0x45424956

abbrev pub manifest_version : ℕ
manifest_version = 2

-- `sizeof(app_manifest_t)`: sixteen words.
abbrev pub manifest_size : ℕ
manifest_size = 64

-- The word `n` of the manifest, in the order of `app_manifest_t`; the reserved words follow word 7.
abbrev pub manifest_word : List ℕ → ℕ → ℕ
manifest_word image offset = read_u32_le image (manifest_offset + offset)

pub data AppImageStatus : Type 0 where
  valid bad_magic bad_size bad_crc bad_manifest : AppImageStatus

-- `app_image_result_t`.
pub record AppImageResult : Type 0 where
  pub status : AppImageStatus
  pub version : ℕ
  pub image_size : ℕ
  pub expected_crc32 : ℕ
  pub calculated_crc32 : ℕ
  pub hardware_id : ℕ
  pub image_flags : ℕ
  pub app_id : ℕ
  pub board_id : ℕ

-- The checksum with the bytes of the manifest's own checksum word read as zeros.
unfoldable pub image_crc32 : List ℕ → ℕ → ℕ
unfolding crc32_masked
image_crc32 image image_size =
    bit_xor
      (crc32_masked (manifest_offset + 16) (manifest_offset + 20) 0 uint32_max image image_size)
      uint32_max

abbrev pub blank_result : AppImageResult
blank_result = record {
  status = bad_size;
  version = 0;
  image_size = 0;
  expected_crc32 = 0;
  calculated_crc32 = 0;
  hardware_id = 0;
  image_flags = 0;
  app_id = 0;
  board_id = 0;
}

-- What the result holds of the manifest before the checks on it.
unfoldable pub manifest_result : List ℕ → AppImageResult
manifest_result image = record {
  status = bad_magic;
  version = manifest_word image 20;
  image_size = manifest_word image 12;
  expected_crc32 = manifest_word image 16;
  calculated_crc32 = 0;
  hardware_id = manifest_word image 24;
  image_flags = manifest_word image 28;
  app_id = manifest_word image 32;
  board_id = manifest_word image 36;
}

unfoldable pub app_image_validate : List ℕ → ℕ → AppImageResult
unfolding manifest_result
app_image_validate image capacity =
    let result = manifest_result image in
    if ltb capacity (manifest_offset + manifest_size)
    then blank_result
    else if manifest_word image 0 != manifest_magic
    then result
    else if manifest_word image 4 != manifest_version || manifest_word image 8 != manifest_size
    then record result { status = bad_manifest }
    else if ltb (manifest_word image 12) (manifest_offset + manifest_size)
        || ltb capacity (manifest_word image 12)
    then record result { status = bad_size }
    else (let calculated = record result {
      calculated_crc32 = image_crc32 image (manifest_word image 12);
    } in
        if calculated.calculated_crc32 != manifest_word image 16
        then record calculated { status = bad_crc }
        else record calculated { status = valid })

-- `app_manifest_is_relocatable`, on the reserved word 2.
abbrev pub vector_words : List ℕ → ℕ
vector_words image = manifest_word image 40

abbrev pub got_offset : List ℕ → ℕ
got_offset image = manifest_word image 44

abbrev pub got_size : List ℕ → ℕ
got_size image = manifest_word image 48

abbrev pub is_relocatable : List ℕ → Bool
is_relocatable image = leb 2 (vector_words image) && leb (vector_words image) 128

unfoldable pub app_vectors_are_valid_for_slot : Board → ℕ → ℕ → ℕ → ℕ → Bool
app_vectors_are_valid_for_slot b stack_pointer reset_handler slot_start slot_end =
    let reset_address = bit_and reset_handler 0xFFFFFFFE in
    if ltb stack_pointer ram_start_addr
      || ltb (ram_end_addr b) stack_pointer
      || bit_and stack_pointer 7 != 0
    then false
    else bit_and reset_handler 1 != 0 && leb slot_start reset_address && ltb reset_address slot_end

unfoldable pub app_relative_vectors_are_valid : Board → ℕ → ℕ → ℕ → Bool
app_relative_vectors_are_valid b stack_pointer reset_offset image_size =
    if ltb stack_pointer ram_start_addr
      || ltb (boot_runtime_got_addr b) stack_pointer
      || bit_and stack_pointer 7 != 0
    then false
    else bit_and reset_offset 1 != 0 && ltb (bit_and reset_offset 0xFFFFFFFE) image_size

-- The check that both `handle_validate` and `main` make of the first two words of an image.
unfoldable pub image_vectors_are_valid : Board → List ℕ → ℕ → ℕ → ℕ → Bool
image_vectors_are_valid b image image_size slot_start slot_end =
    if is_relocatable image
    then app_relative_vectors_are_valid b (read_u32_le image 0) (read_u32_le image 4) image_size
    else app_vectors_are_valid_for_slot b (read_u32_le image 0) (read_u32_le image 4) slot_start
        slot_end
