-- ===== src/UpdateAgent/Bytes.antt =====
-- A stream that is fed bytes holds bytes (shared/update/update_stream.c).
use stm32_vibe.Base.{
  ℕ, zero, suc, ◌+◌, ◌-◌, ◌<◌, ◌≡◌, List, [], ◌∷◌, get_or, set, Option, none, some, AreBytes,
  AreBytes-set, get_or-lt, arith,
}
use stm32_vibe.Protocol.{ok, read_u16_le}
use stm32_vibe.Stream.{
  Stream, move_down, drop_prefix, find_sync, keep_last, resync, make_room, append_byte, Round, more,
  answer, decode_packet, look_for_packet, round, update_stream_feed,
}
use stm32_vibe.UpdateLoop.{received}
use stm32_vibe.UpdateLoop.Answer.{IsAnswerable, decoded-IsAnswerable}

move_down-AreBytes :
    (n index count : ℕ) (buffer : List ℕ)
    → AreBytes buffer
    → AreBytes (move_down n index count buffer)
unfolding move_down
move_down-AreBytes zero index count buffer h = h
move_down-AreBytes (suc n) index count buffer h =
    let v = get_or buffer (index + count) 0 in
    move_down-AreBytes n (index + 1) count (set buffer index v)
      (AreBytes-set buffer index v h (get_or-lt buffer (index + count) h))

drop_prefix-AreBytes :
    (s : Stream) (count : ℕ) → AreBytes s.buffer → AreBytes (drop_prefix s count).buffer
unfolding drop_prefix
drop_prefix-AreBytes s count h =
    ground (arith, move_down-AreBytes (s.len - count) 0 count s.buffer h)

keep_last-AreBytes : (s : Stream) → AreBytes s.buffer → AreBytes (keep_last s).buffer
unfolding keep_last
keep_last-AreBytes s h =
    let last = get_or s.buffer (s.len - 1) 0 in
    ground (arith, AreBytes-set s.buffer 0 last h (get_or-lt s.buffer (s.len - 1) h))

resync_at :
    (s : Stream) (o : Option ℕ)
    → AreBytes s.buffer
    → AreBytes
        (elim o as (λ found. Stream) [
          | some index ↦ drop_prefix s index
          | none ↦ keep_last s
        ]).buffer
resync_at s (some index) h = drop_prefix-AreBytes s index h
resync_at s none h = keep_last-AreBytes s h

resync-AreBytes : (s : Stream) → AreBytes s.buffer → AreBytes (resync s).buffer
unfolding resync
resync-AreBytes s h = resync_at s (find_sync s.len 0 s) h

make_room-AreBytes : (s : Stream) → AreBytes s.buffer → AreBytes (make_room s).buffer
unfolding make_room
make_room-AreBytes s h = ground (arith, resync-AreBytes s h)

IsRoundOfBytes : Round → Type 0
IsRoundOfBytes (more s) = AreBytes s.buffer
IsRoundOfBytes (answer status s payload packet) =
    AreBytes s.buffer × (status ≡ ok → IsAnswerable (received packet))

decode_packet-IsRoundOfBytes :
    (s : Stream) (packet_len : ℕ) (payload : Option (List ℕ)) (capacity : ℕ)
    → AreBytes s.buffer
    → IsRoundOfBytes (decode_packet s packet_len payload capacity)
unfolding decode_packet IsRoundOfBytes
decode_packet-IsRoundOfBytes s packet_len payload capacity h =
    let dropped = drop_prefix-AreBytes s packet_len h in
    ground (
      arith,
      dropped,
      resync-AreBytes (drop_prefix s packet_len) dropped,
      decoded-IsAnswerable s.buffer packet_len payload capacity h,
    )

look_for_packet-IsRoundOfBytes :
    (s : Stream) (payload : Option (List ℕ)) (capacity : ℕ)
    → AreBytes s.buffer
    → IsRoundOfBytes (look_for_packet s payload capacity)
unfolding look_for_packet IsRoundOfBytes
look_for_packet-IsRoundOfBytes s payload capacity h =
    let packet_len = 16 + read_u16_le s.buffer 6 + 4 in
    ground (
      arith,
      h,
      resync-AreBytes (drop_prefix s 1) (drop_prefix-AreBytes s 1 h),
      decode_packet-IsRoundOfBytes s packet_len payload capacity h,
    )

round-IsRoundOfBytes :
    (s : Stream) (byte : ℕ) (payload : Option (List ℕ)) (capacity : ℕ)
    → AreBytes s.buffer
    → byte < 256
    → IsRoundOfBytes (round s byte payload capacity)
round-IsRoundOfBytes s byte payload capacity h small =
    let roomy = make_room s in
    look_for_packet-IsRoundOfBytes (resync (append_byte roomy byte)) payload capacity (
      resync-AreBytes (append_byte roomy byte)
        (AreBytes-set roomy.buffer roomy.len byte (make_room-AreBytes s h) small))

-- A byte that is fed leaves bytes, and the numbers of a packet that it completes are in their ranges.
pub feed_byte-AreBytes :
    (s : Stream) (byte : ℕ) (payload : Option (List ℕ)) (capacity : ℕ)
    → AreBytes s.buffer
    → byte < 256
    → let out = update_stream_feed 1 0 s (byte ∷ []) payload capacity in
      AreBytes out.1.buffer × (out.0 ≡ ok → IsAnswerable (received out.3))
unfolding update_stream_feed IsRoundOfBytes
feed_byte-AreBytes s byte payload capacity h small =
    ground (arith, round-IsRoundOfBytes s byte payload capacity h small)
