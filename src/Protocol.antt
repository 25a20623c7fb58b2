-- ===== src/Protocol.antt =====
-- The update packet (shared/update/update_protocol.h, shared/update/update_protocol.c).
-- A buffer is the list of its bytes, and a call that writes one returns it. The pointers that every
-- caller passes as addresses of objects are those objects; a payload pointer may be null.
pub mod Frame
pub mod Copy
pub mod Encode
pub mod Decode
pub mod RoundTrip
use stm32_vibe.Base.{
  ℕ, zero, suc, ◌+◌, ◌*◌, ◌/◌, ◌==◌, ◌!=◌, ltb, if◌then◌else◌, bit_or, u8, Bool, true, false, ◌&&◌,
  List, [], get_or, set, Option, none, some,
}
use mathlib.Core.Option
use stm32_vibe.Base.{◌^◌}
use stm32_vibe.Crc.{update_protocol_crc32}

abbrev pub update_protocol_sync : ℕ
update_protocol_sync = 0x5544

abbrev pub update_protocol_version : ℕ
update_protocol_version = 1

abbrev pub header_size : ℕ
header_size = 16

abbrev pub crc_size : ℕ
crc_size = 4

abbrev pub max_payload : ℕ
max_payload = 128

abbrev pub max_packet_size : ℕ
max_packet_size = 148

-- `update_status_t`.
pub data UpdateStatus : Type 0 where
  ok invalid_argument buffer_too_small bad_sync bad_version bad_length bad_crc bad_state :
      UpdateStatus
  bad_sequence flash_error bad_image : UpdateStatus

-- `update_packet_t`. The payload is the buffer that the pointer points to.
pub record Packet : Type 0 where
  pub command : ℕ
  pub flags : ℕ
  pub payload_len : ℕ
  pub session_id : ℕ
  pub sequence : ℕ
  pub payload : Option (List ℕ)

abbrev pub is_null {ℓ} : {A : Type ℓ} → Option A → Bool
is_null none = true
is_null (some a) = false

abbrev pub pointee : Option (List ℕ) → List ℕ
pointee none = []
pointee (some l) = l

-- `bytes` is the buffer and `i` the index that the pointer points to.
unfoldable pub read_u16_le : List ℕ → ℕ → ℕ
read_u16_le bytes i = bit_or (get_or bytes i 0) (get_or bytes (i + 1) 0 * 2 ^ 8)

unfoldable pub read_u32_le : List ℕ → ℕ → ℕ
read_u32_le bytes i =
    bit_or
      (bit_or (bit_or (get_or bytes i 0) (get_or bytes (i + 1) 0 * 2 ^ 8))
        (get_or bytes (i + 2) 0 * 2 ^ 16))
      (get_or bytes (i + 3) 0 * 2 ^ 24)

abbrev pub write_u16_le : List ℕ → ℕ → ℕ → List ℕ
write_u16_le bytes i value = set (set bytes i (u8 value)) (i + 1) (u8 (value / 2 ^ 8))

abbrev pub write_u32_le : List ℕ → ℕ → ℕ → List ℕ
write_u32_le bytes i value =
    set
      (set (set (set bytes i (u8 value)) (i + 1) (u8 (value / 2 ^ 8))) (i + 2)
        (u8 (value / 2 ^ 16)))
      (i + 3) (u8 (value / 2 ^ 24))

-- `for (index = 0; index < n; index++) dst[to + index] = src[from + index]`, by the rounds left.
unfoldable pub copy_bytes : ℕ → List ℕ → ℕ → List ℕ → ℕ → List ℕ
copy_bytes zero dst to src from = dst
copy_bytes (suc n) dst to src from =
    copy_bytes n (set dst to (get_or src from 0)) (to + 1) src (from + 1)

-- The header writes of `update_protocol_encode`.
unfoldable pub write_header : List ℕ → Packet → List ℕ
write_header output p =
    let o1 = write_u16_le output 0 update_protocol_sync in
    let o2 = set o1 2 update_protocol_version in
    let o3 = set o2 3 p.command in
    let o4 = set o3 4 p.flags in
    let o5 = set o4 5 0 in
    let o6 = write_u16_le o5 6 p.payload_len in
    let o7 = write_u32_le o6 8 p.session_id in write_u32_le o7 12 p.sequence

-- What `update_protocol_encode` does once its arguments are accepted.
unfoldable pub write_packet : Packet → List ℕ → UpdateStatus × List ℕ × ℕ
write_packet p output =
    let filled =
      copy_bytes p.payload_len (write_header output p) header_size (pointee p.payload) 0 in
    let crc = update_protocol_crc32 filled (header_size + p.payload_len) in
    (
      ok,
      write_u32_le filled (header_size + p.payload_len) crc,
      header_size + p.payload_len + crc_size,
    )

-- The result is the status, the buffer and `*output_len`.
unfoldable pub update_protocol_encode : Packet → List ℕ → ℕ → ℕ → UpdateStatus × List ℕ × ℕ
update_protocol_encode p output output_capacity output_len =
    let total_len = header_size + p.payload_len + crc_size in
    if p.payload_len != 0 && is_null p.payload
    then (invalid_argument, output, output_len)
    else if ltb max_payload p.payload_len
    then (bad_length, output, output_len)
    else if ltb output_capacity total_len
    then (buffer_too_small, output, output_len)
    else write_packet p output

-- What `update_protocol_decode` does once the input is accepted.
unfoldable pub read_packet :
    List ℕ → ℕ → Option (List ℕ) → UpdateStatus × Option (List ℕ) × Option Packet
read_packet input payload_len payload =
    let copied = Option.map (λ dst. copy_bytes payload_len dst 0 input header_size) payload in
    (
      ok,
      copied,
      some record {
        command = get_or input 3 0;
        flags = get_or input 4 0;
        payload_len = payload_len;
        session_id = read_u32_le input 8;
        sequence = read_u32_le input 12;
        payload = if payload_len == 0 then none else copied;
      },
    )

-- The result is the status, the payload buffer, and what is written to `*packet`, if anything is.
unfoldable pub update_protocol_decode :
    List ℕ → ℕ → Option (List ℕ) → ℕ → UpdateStatus × Option (List ℕ) × Option Packet
update_protocol_decode input input_len payload payload_capacity =
    let payload_len = read_u16_le input 6 in
    let expected_len = header_size + payload_len + crc_size in
    if ltb input_len (header_size + crc_size)
    then (bad_length, payload, none)
    else if read_u16_le input 0 != update_protocol_sync
    then (bad_sync, payload, none)
    else if get_or input 2 0 != update_protocol_version
    then (bad_version, payload, none)
    else if ltb max_payload payload_len
    then (bad_length, payload, none)
    else if input_len != expected_len
    then (bad_length, payload, none)
    else if payload_len != 0 && is_null payload
    then (invalid_argument, payload, none)
    else if ltb payload_capacity payload_len
    then (buffer_too_small, payload, none)
    else if update_protocol_crc32 input (header_size + payload_len)
        != read_u32_le input (header_size + payload_len)
    then (bad_crc, payload, none)
    else read_packet input payload_len payload
