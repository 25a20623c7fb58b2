-- ===== src/Protocol/Frame.antt =====
-- The wire format, as the list of the bytes of a packet: a header of sixteen bytes, the payload and
-- the checksum of both.
use stm32_vibe.Base.{
  ℕ, ◌+◌, ◌*◌, ◌/◌, ◌%◌, ◌^◌, ◌≤◌, ◌<◌, ◌≡◌, refl, List, ◌∷◌, ◌++◌, get_or, take, length, u32_bytes,
  u32_of_bytes, AreBytes, get_or-lt, arith,
}
use stm32_vibe.Base.Bits.{bit_or-parts}
use stm32_vibe.Crc.{update_protocol_crc32}
use stm32_vibe.Protocol.{Packet, pointee, read_u16_le, read_u32_le}

-- The fields of a packet that the wire format can carry.
pub record IsEncodable (p : Packet) : Type 0 where
  pub command_byte : p.command < 256
  pub flags_byte : p.flags < 256
  pub short : p.payload_len ≤ 128
  pub session_word : p.session_id < 4294967296
  pub sequence_word : p.sequence < 4294967296
  pub payload_there : p.payload_len ≤ length (pointee p.payload)
  pub payload_are_bytes : AreBytes (pointee p.payload)

abbrev pub header_bytes : Packet → List ℕ
header_bytes p =
    0x44
    ∷ 0x55
    ∷ 1
    ∷ p.command
    ∷ p.flags
    ∷ 0
    ∷ p.payload_len % 256
    ∷ p.payload_len / 256 % 256
    ∷ (u32_bytes p.session_id ++ u32_bytes p.sequence)

abbrev pub payload_bytes : Packet → List ℕ
payload_bytes p = take p.payload_len (pointee p.payload)

-- The header and the payload, which the checksum covers.
abbrev pub body : Packet → List ℕ
body p = header_bytes p ++ payload_bytes p

abbrev pub body_crc32 : Packet → ℕ
body_crc32 p = update_protocol_crc32 (body p) (16 + p.payload_len)

unfoldable pub frame : Packet → List ℕ
frame p = header_bytes p ++ (payload_bytes p ++ u32_bytes (body_crc32 p))

-- Reading a word gives the number that its bytes stand for.
pub read_u16_le_lem :
    (bytes : List ℕ) (i a b : ℕ)
    → get_or bytes i 0 ≡ a
    → get_or bytes (i + 1) 0 ≡ b
    → a < 256
    → read_u16_le bytes i ≡ a + b * 256
unfolding read_u16_le
read_u16_le_lem bytes i a b p q h = rw (p, q) (bit_or-parts 8 a b h)

pub read_u32_le_lem :
    (bytes : List ℕ) (i a b c d : ℕ)
    → get_or bytes i 0 ≡ a
    → get_or bytes (i + 1) 0 ≡ b
    → get_or bytes (i + 2) 0 ≡ c
    → get_or bytes (i + 3) 0 ≡ d
    → a < 256
    → b < 256
    → c < 256
    → read_u32_le bytes i ≡ u32_of_bytes a b c d
unfolding read_u32_le
read_u32_le_lem bytes i a b c d p q r s ha hb hc = rw (
  p,
  q,
  r,
  s,
  bit_or-parts 8 a b ha,
  bit_or-parts 16 (a + b * 2 ^ 8) c (omega arith),
  bit_or-parts 24 (a + b * 2 ^ 8 + c * 2 ^ 16) d (omega arith),
)

pub read_u32_le-IsWord :
    (bytes : List ℕ) → AreBytes bytes → (i : ℕ) → read_u32_le bytes i < 4294967296
read_u32_le-IsWord bytes h i = omega (
  arith,
  read_u32_le_lem bytes i (get_or bytes i 0) (get_or bytes (i + 1) 0) (get_or bytes (i + 2) 0)
      (get_or bytes (i + 3) 0) refl refl refl refl (get_or-lt bytes i h) (get_or-lt bytes (i + 1) h)
      (get_or-lt bytes (i + 2) h),
  get_or-lt bytes i h,
  get_or-lt bytes (i + 1) h,
  get_or-lt bytes (i + 2) h,
  get_or-lt bytes (i + 3) h,
)
