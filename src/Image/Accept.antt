-- ===== src/Image/Accept.antt =====
-- When `app_image_validate` accepts an image.
use stm32_vibe.Base.{
  ℕ, ◌≤◌, ◌≡◌, ◌↔◌, subst, ap, bit_xor, uint32_max, List, ◌++◌, length, take, drop, replicate,
  arith,
}
use stm32_vibe.Crc.{update_protocol_crc32}
use stm32_vibe.Crc.Zeroed.{crc32_masked-crc32_loop}
use stm32_vibe.Image.{valid, manifest_word, image_crc32, app_image_validate}

-- The image with its checksum, the four bytes from 528 on, set to zeros.
abbrev pub without_crc : List ℕ → List ℕ
without_crc image = take 528 image ++ (replicate 4 0 ++ drop 532 image)

-- The manifest is in order, with `calculated` for the checksum.
abbrev InOrder : List ℕ → ℕ → ℕ → Type 0
InOrder image capacity calculated =
    (manifest_word image 0 ≡ 0x45424956)
    × (manifest_word image 4 ≡ 2)
    × (manifest_word image 8 ≡ 64)
    × (576 ≤ manifest_word image 12)
    × (manifest_word image 12 ≤ capacity)
    × (calculated ≡ manifest_word image 16)

-- The manifest is there and says what it should, its size fits, and its checksum is the CRC-32 of that
-- many bytes of the image without the checksum itself.
pub record IsAcceptable (image : List ℕ) (capacity : ℕ) : Type 0 where
  pub magic_ok : manifest_word image 0 ≡ 0x45424956
  pub version_ok : manifest_word image 4 ≡ 2
  pub manifest_size_ok : manifest_word image 8 ≡ 64
  pub holds_manifest : 576 ≤ manifest_word image 12
  pub fits : manifest_word image 12 ≤ capacity
  pub crc_ok :
      update_protocol_crc32 (without_crc image) (manifest_word image 12) ≡ manifest_word image 16

image_crc32_lem :
    (image : List ℕ) (size : ℕ)
    → 532 ≤ length image
    → image_crc32 image size ≡ update_protocol_crc32 (without_crc image) size
unfolding image_crc32 update_protocol_crc32
image_crc32_lem image size long =
    ap (λ crc. bit_xor crc uint32_max) (crc32_masked-crc32_loop 528 4 uint32_max image size long)

app_image_validate_lem :
    (image : List ℕ) (capacity : ℕ)
    → ((app_image_validate image capacity).status ≡ valid)
      ↔ InOrder image capacity (image_crc32 image (manifest_word image 12))
unfolding app_image_validate
app_image_validate_lem image capacity = ground arith

InOrder-IsAcceptable :
    (image : List ℕ) (capacity : ℕ)
    → InOrder image capacity (update_protocol_crc32 (without_crc image) (manifest_word image 12))
      ↔ IsAcceptable image capacity
InOrder-IsAcceptable image capacity = (
  λ p. record {
    magic_ok = p.0;
    version_ok = p.1;
    manifest_size_ok = p.2;
    holds_manifest = p.3;
    fits = p.4;
    crc_ok = p.5;
  },
  λ r. (r.magic_ok, r.version_ok, r.manifest_size_ok, r.holds_manifest, r.fits, r.crc_ok),
)

-- An image that holds the bytes of its checksum is accepted exactly when its manifest is in order, its
-- size lies between the end of the manifest and the capacity, and the checksum that the manifest states
-- is the CRC-32, as packets have it, of the bytes of that size with zeros for the checksum itself.
pub app_image_validate-valid_iff :
    (image : List ℕ) (capacity : ℕ)
    → 532 ≤ length image
    → ((app_image_validate image capacity).status ≡ valid) ↔ IsAcceptable image capacity
app_image_validate-valid_iff image capacity long =
    let order =
      subst (λ c. ((app_image_validate image capacity).status ≡ valid) ↔ InOrder image capacity c)
        (image_crc32_lem image (manifest_word image 12) long)
        (app_image_validate_lem image capacity) in
    let accept = InOrder-IsAcceptable image capacity in
    (λ v. accept.0 (order.0 v), λ r. order.1 (accept.1 r))

-- The reported version, size and checksum of an accepted image are the words of its manifest.
pub app_image_validate-fields :
    (image : List ℕ) (capacity : ℕ)
    → (app_image_validate image capacity).status ≡ valid
    → ((app_image_validate image capacity).version ≡ manifest_word image 20)
      × ((app_image_validate image capacity).image_size ≡ manifest_word image 12)
      × ((app_image_validate image capacity).expected_crc32 ≡ manifest_word image 16)
unfolding app_image_validate
app_image_validate-fields image capacity h = ground arith
