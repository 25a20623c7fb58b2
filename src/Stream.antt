-- ===== src/Stream.antt =====
-- The packet stream over a serial line (shared/update/update_stream.c): bytes are collected until the
-- buffer holds a packet, and what does not start with the sync word is dropped. A function that
-- updates `*stream` returns the new one.
pub mod Bounds
pub mod Deliver
use stm32_vibe.Base.{
  ℕ, zero, suc, ◌+◌, ◌-◌, ◌==◌, ◌!=◌, ltb, leb, if◌then◌else◌, Bool, true, false, ◌&&◌, List,
  get_or, set, replicate, Option, none, some,
}
use stm32_vibe.Protocol.{
  Packet, UpdateStatus, ok, bad_length, max_packet_size, max_payload, header_size, crc_size,
  read_u16_le, update_protocol_decode,
}

-- `update_stream_t`; `buffer` is its array of 148 bytes.
pub record Stream : Type 0 where
  pub buffer : List ℕ
  pub len : ℕ

abbrev pub update_stream_init : Stream
update_stream_init = record { buffer = replicate max_packet_size 0; len = 0 }

abbrev pub sync_at : Stream → ℕ → Bool
sync_at s index =
    ltb (index + 1) s.len
    && (get_or s.buffer index 0 == 0x44)
    && (get_or s.buffer (index + 1) 0 == 0x55)

-- The loop of `drop_prefix` from `index` on, by the rounds left.
unfoldable pub move_down : ℕ → ℕ → ℕ → List ℕ → List ℕ
move_down zero index count buffer = buffer
move_down (suc n) index count buffer =
    move_down n (index + 1) count (set buffer index (get_or buffer (index + count) 0))

unfoldable pub drop_prefix : Stream → ℕ → Stream
drop_prefix s count =
    if leb s.len count
    then record s { len = 0 }
    else record s { buffer = move_down (s.len - count) 0 count s.buffer; len = s.len - count }

-- The loop of `resync` from `index` on, by the rounds left: where it finds the sync word.
unfoldable pub find_sync : ℕ → ℕ → Stream → Option ℕ
find_sync zero index s = none
find_sync (suc n) index s =
    let rest = find_sync n (index + 1) s in if sync_at s index then some index else rest

-- The rest of `resync`, when there is no sync word: a last byte that may begin one is kept.
unfoldable pub keep_last : Stream → Stream
keep_last s =
    let last = get_or s.buffer (s.len - 1) 0 in
    if s.len != 0 && (last == 0x44)
    then record s { buffer = set s.buffer 0 last; len = 1 }
    else record s { len = 0 }

unfoldable pub resync : Stream → Stream
resync s = elim (find_sync s.len 0 s) [ some index ↦ drop_prefix s index | none ↦ keep_last s ]

-- The first `if` of the loop of `update_stream_feed`.
unfoldable pub make_room : Stream → Stream
make_room s =
    let r = resync s in
    if s.len == max_packet_size
    then (if r.len == max_packet_size then record r { len = 0 } else r)
    else s

abbrev pub append_byte : Stream → ℕ → Stream
append_byte s byte = record s { buffer = set s.buffer s.len byte; len = s.len + 1 }

-- What a round of the loop comes to: the next round, or the return of a status, with the stream, the
-- payload buffer and the packet.
pub data Round : Type 0 where
  more : Stream → Round
  answer : UpdateStatus → Stream → Option (List ℕ) → Option Packet → Round

abbrev pub is_ok : UpdateStatus → Bool
is_ok ok = true
is_ok _ = false

-- The end of a round, from the call of `update_protocol_decode` on.
unfoldable pub decode_packet : Stream → ℕ → Option (List ℕ) → ℕ → Round
decode_packet s packet_len payload capacity =
    let (status, payload', packet) = update_protocol_decode s.buffer packet_len payload capacity in
    let dropped = drop_prefix s packet_len in
    if is_ok status
    then answer ok dropped payload' packet
    else answer status (resync dropped) payload' packet

-- A round of the loop after the byte is stored and the stream synchronised.
unfoldable pub look_for_packet : Stream → Option (List ℕ) → ℕ → Round
look_for_packet s payload capacity =
    let payload_len = read_u16_le s.buffer 6 in
    let packet_len = header_size + payload_len + crc_size in
    if ltb s.len header_size
    then more s
    else if ltb max_payload payload_len
    then more (resync (drop_prefix s 1))
    else if ltb s.len packet_len
    then more s
    else decode_packet s packet_len payload capacity

abbrev pub round : Stream → ℕ → Option (List ℕ) → ℕ → Round
round s byte payload capacity =
    look_for_packet (resync (append_byte (make_room s) byte)) payload capacity

-- The loop from `input_index` on, by the rounds left. The result is the status, the stream, the payload
-- buffer, what is written to `*packet`, and `*consumed`.
unfoldable pub update_stream_feed :
    ℕ
    → ℕ
    → Stream
    → List ℕ
    → Option (List ℕ)
    → ℕ
    → UpdateStatus × Stream × Option (List ℕ) × Option Packet × ℕ
update_stream_feed zero input_index s input payload capacity =
    (bad_length, s, payload, none, input_index)
update_stream_feed (suc n) input_index s input payload capacity =
    elim (round s (get_or input input_index 0) payload capacity) [
      | more s' ↦ update_stream_feed n (input_index + 1) s' input payload capacity
      | answer status s' payload' packet ↦ (status, s', payload', packet, input_index + 1)
    ]
