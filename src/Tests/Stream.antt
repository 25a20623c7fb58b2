-- ===== src/Tests/Stream.antt =====
-- A packet over the serial line.
use stm32_vibe.Base.{◌≡◌, ◌==◌, ◌++◌, if◌then◌else◌, refl, ◌∷◌, drop, none, some, arith}
use stm32_vibe.Crc.{update_protocol_crc32, crc32_loop, crc32_update}
use stm32_vibe.Protocol.{
  ok, update_protocol_decode, read_packet, copy_bytes, read_u16_le, read_u32_le,
}
use stm32_vibe.Stream.{
  update_stream_init, update_stream_feed, look_for_packet, decode_packet, make_room, resync,
  find_sync, keep_last, drop_prefix, move_down,
}
use stm32_vibe.Stream.Bounds.{IsFed, update_stream_feed-IsFed}
use stm32_vibe.Protocol.Frame.{frame, payload_bytes}
use stm32_vibe.Stream.Deliver.{update_stream_feed-frame}
use stm32_vibe.Tests.Protocol.{rest, room, block, IsEncodable-block}

-- A stray byte and the wire format of a packet: the packet is found.
packet_found :
    let out = update_stream_feed 24 0 update_stream_init (7 ∷ 68 ∷ rest) (some room) 128 in
    (out.0 ≡ ok) × (out.1.len ≡ 0) × (out.4 ≡ 24)
unfolding update_stream_feed look_for_packet decode_packet make_room resync find_sync keep_last
    drop_prefix move_down update_protocol_decode read_packet copy_bytes read_u16_le read_u32_le
    update_protocol_crc32 crc32_loop crc32_update
packet_found = (refl, refl, refl)

update_stream_feed-IsFed_example :
    IsFed 0 24 (update_stream_feed 24 0 update_stream_init (7 ∷ 68 ∷ rest) (some room) 128)
update_stream_feed-IsFed_example =
    update_stream_feed-IsFed 24 0 update_stream_init (7 ∷ 68 ∷ rest) (some room) 128
      (record { whole = refl; within = omega arith })

update_stream_feed-frame_example :
    let filled = payload_bytes block ++ drop 3 room in
    update_stream_feed 23 0 (record { buffer = room; len = 0 }) (frame block) (some room) 128 ≡ (
      ok,
      record { buffer = frame block ++ drop 23 room; len = 0 },
      some filled,
      some (record block { payload = if block.payload_len == 0 then none else some filled }),
      23,
    )
update_stream_feed-frame_example =
    update_stream_feed-frame block IsEncodable-block room 128 (omega arith) (omega arith) room
      (omega arith)
