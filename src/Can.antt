-- ===== src/Can.antt =====
-- Update packets over classic CAN (shared/update/update_can.c, shared/hal/can.h). A packet is split
-- into frames of at most eight bytes, and put together again from them.
pub mod Bounds
pub mod Control
pub mod Frames
pub mod First
pub mod Deliver
use stm32_vibe.Base.{
  ℕ, zero, suc, ◌+◌, ◌-◌, ◌*◌, ◌/◌, ◌^◌, ◌==◌, ◌!=◌, ltb, leb, if◌then◌else◌, bit_and, bit_or, u8,
  u16, Bool, true, false, not, ◌&&◌, ◌||◌, List, get_or, set, replicate, Option, none, some,
}
use stm32_vibe.Protocol.{copy_bytes, max_packet_size}

abbrev pub can_max_data_len : ℕ
can_max_data_len = 8

abbrev pub request_base_id : ℕ
request_base_id = 0x600

abbrev pub response_base_id : ℕ
response_base_id = 0x680

abbrev pub fragment_start : ℕ
fragment_start = 0x80

abbrev pub fragment_end : ℕ
fragment_end = 0x40

abbrev pub fragment_index_mask : ℕ
fragment_index_mask = 0x3F

-- `can_frame_t`; `bytes` is its array of eight.
pub record CanFrame : Type 0 where
  pub id : ℕ
  pub dlc : ℕ
  pub bytes : List ℕ

unfoldable pub update_can_request_id : ℕ → ℕ
update_can_request_id node_id = request_base_id + node_id

unfoldable pub update_can_response_id : ℕ → ℕ
update_can_response_id node_id = response_base_id + node_id

-- `update_can_reassembly_t`; `packet` is its array of 148 bytes.
pub record Reassembly : Type 0 where
  pub packet : List ℕ
  pub expected_len : ℕ
  pub received_len : ℕ
  pub next_index : ℕ
  pub active : Bool

pub data FeedResult : Type 0 where
  pending complete error : FeedResult

abbrev pub update_can_reassembly_init : Reassembly
update_can_reassembly_init = record {
  packet = replicate max_packet_size 0;
  expected_len = 0;
  received_len = 0;
  next_index = 0;
  active = false;
}

abbrev pub fail : Reassembly → FeedResult × Reassembly
fail r = (error, record r { active = false })

-- The first half of `update_can_reassembly_feed`, on the control byte: the reassembly to go on with
-- and the index of the frame's first payload byte, or the failed reassembly.
pub data Opened : Type 0 where
  refused : Reassembly → Opened
  opened : Reassembly → ℕ → Opened

abbrev pub announced_len : CanFrame → ℕ
announced_len frame = u16 (bit_or (get_or frame.bytes 1 0) (get_or frame.bytes 2 0 * 2 ^ 8))

unfoldable pub open_frame : Reassembly → CanFrame → Opened
open_frame r frame =
    let control = get_or frame.bytes 0 0 in
    let index = bit_and control fragment_index_mask in
    let sized = record r { expected_len = announced_len frame } in
    if bit_and control fragment_start != 0
    then (if index != 0 || ltb frame.dlc 3
        then refused (record r { active = false })
        else if ltb sized.expected_len 20 || ltb max_packet_size sized.expected_len
        then refused (record sized { active = false })
        else opened (record sized { received_len = 0; next_index = 1; active = true }) 3)
    else if not r.active || index != r.next_index
    then refused (record r { active = false })
    else opened (record r { next_index = u8 (r.next_index + 1) }) 1

-- The loop over the padding of a last frame, from index `i` on, by the rounds left.
unfoldable pub all_zero : ℕ → List ℕ → ℕ → Bool
all_zero zero bytes i = true
all_zero (suc n) bytes i =
    let rest = all_zero n bytes (i + 1) in if get_or bytes i 0 != 0 then false else rest

-- The copy of `n` bytes and the tests after it.
unfoldable pub take_bytes : Reassembly → CanFrame → ℕ → ℕ → FeedResult × Reassembly
take_bytes r frame data_offset n =
    let r1 = record r {
      packet = copy_bytes n r.packet r.received_len frame.bytes data_offset;
      received_len = u16 (r.received_len + n);
    } in
    if bit_and (get_or frame.bytes 0 0) fragment_end != 0
    then (if r1.received_len != r1.expected_len
        then fail r1
        else (complete, record r1 { active = false }))
    else if r1.received_len == r1.expected_len
    then fail r1
    else (pending, r1)

-- The second half, from the computation of the chunk's length on.
unfoldable pub take_chunk : Reassembly → CanFrame → ℕ → FeedResult × Reassembly
take_chunk r frame data_offset =
    let chunk_len = frame.dlc - data_offset in
    let useful_len = r.expected_len - r.received_len in
    if ltb useful_len chunk_len
    then (if bit_and (get_or frame.bytes 0 0) fragment_end == 0
        then fail r
        else if not (all_zero (chunk_len - useful_len) frame.bytes (data_offset + useful_len))
        then fail r
        else take_bytes r frame data_offset useful_len)
    else take_bytes r frame data_offset chunk_len

-- A frame that is opened has its chunk taken.
unfoldable pub feed_opened : Opened → CanFrame → FeedResult × Reassembly
feed_opened (refused r) frame = (error, r)
feed_opened (opened r data_offset) frame = take_chunk r frame data_offset

-- On `complete`, `*packet` is the array and `*packet_len` its received length.
unfoldable pub update_can_reassembly_feed : Reassembly → CanFrame → ℕ → FeedResult × Reassembly
update_can_reassembly_feed r frame expected_can_id =
    if (frame.dlc == 0) || ltb can_max_data_len frame.dlc
    then (error, r)
    else if frame.id != expected_can_id
    then (pending, r)
    else feed_opened (open_frame r frame) frame

-- `update_can_fragmenter_t`.
pub record Fragmenter : Type 0 where
  pub packet : List ℕ
  pub packet_len : ℕ
  pub offset : ℕ
  pub can_id : ℕ
  pub fragment_index : ℕ

-- `none` is the return value 0.
unfoldable pub update_can_fragmenter_init : ℕ → List ℕ → ℕ → Option Fragmenter
update_can_fragmenter_init can_id packet packet_len =
    if ltb packet_len 20 || ltb max_packet_size packet_len || ltb 0x7FF can_id
    then none
    else some record {
      packet = packet;
      packet_len = packet_len;
      offset = 0;
      can_id = can_id;
      fragment_index = 0;
    }

-- The control byte of the next frame.
abbrev pub control_byte : ℕ → Bool → Bool → ℕ
control_byte fragment_index first last =
    let index = bit_and fragment_index fragment_index_mask in
    let started = if first then bit_or index fragment_start else index in
    if last then bit_or started fragment_end else started

unfoldable pub update_can_fragmenter_next : Fragmenter → Option (CanFrame × Fragmenter)
update_can_fragmenter_next f =
    let first = f.offset == 0 in
    let header_len = if first then 3 else 1 in
    let capacity = can_max_data_len - header_len in
    let remaining = f.packet_len - f.offset in
    let chunk_len = if ltb remaining capacity then remaining else capacity in
    let b0 = set (replicate 8 0) 0 (control_byte f.fragment_index first (chunk_len == remaining)) in
    let b1 =
      if header_len == 3
      then set (set b0 1 (u8 f.packet_len)) 2 (u8 (f.packet_len / 2 ^ 8))
      else b0 in
    let bytes = copy_bytes chunk_len b1 header_len f.packet f.offset in
    if leb f.packet_len f.offset
    then none
    else some (
      record { id = f.can_id; dlc = can_max_data_len; bytes = bytes },
      record f { offset = f.offset + chunk_len; fragment_index = u8 (f.fragment_index + 1) },
    )
