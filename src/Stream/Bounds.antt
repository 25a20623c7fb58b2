-- ===== src/Stream/Bounds.antt =====
-- The stream stays within its buffer.
use stm32_vibe.Base.{
  ℕ, zero, suc, ◌+◌, ◌-◌, ◌≤◌, ◌<◌, ◌≡◌, ◌∙◌, refl, List, get_or, set, length, length-set, Option,
  none, some, arith,
}
use stm32_vibe.Protocol.{Packet, UpdateStatus, read_u16_le}
use stm32_vibe.Stream.{
  Stream, move_down, drop_prefix, find_sync, keep_last, resync, make_room, append_byte, Round, more,
  answer, decode_packet, look_for_packet, round, update_stream_feed,
}

-- The buffer has its size, and the bytes in use lie in it.
pub record IsInBounds (s : Stream) : Type 0 where
  pub whole : length s.buffer ≡ 148
  pub within : s.len ≤ 148

length-move_down :
    (n index count : ℕ) (buffer : List ℕ) → length (move_down n index count buffer) ≡ length buffer
unfolding move_down
length-move_down zero index count buffer = refl
length-move_down (suc n) index count buffer =
    length-move_down n (index + 1) count (set buffer index (get_or buffer (index + count) 0))
    ∙ length-set buffer index (get_or buffer (index + count) 0)

drop_prefix-IsInBounds : (s : Stream) (count : ℕ) → IsInBounds s → IsInBounds (drop_prefix s count)
unfolding drop_prefix
drop_prefix-IsInBounds s count v = ground (arith, length-move_down (s.len - count) 0 count s.buffer)

keep_last-IsInBounds : (s : Stream) → IsInBounds s → IsInBounds (keep_last s)
unfolding keep_last
keep_last-IsInBounds s v = ground (arith, length-set s.buffer 0 (get_or s.buffer (s.len - 1) 0))

resync_at :
    (s : Stream) (o : Option ℕ)
    → IsInBounds s
    → IsInBounds (elim o [ some index ↦ drop_prefix s index | none ↦ keep_last s ])
resync_at s (some index) v = drop_prefix-IsInBounds s index v
resync_at s none v = keep_last-IsInBounds s v

resync-IsInBounds : (s : Stream) → IsInBounds s → IsInBounds (resync s)
unfolding resync
resync-IsInBounds s v = resync_at s (find_sync s.len 0 s) v

make_room-IsInBounds :
    (s : Stream) → IsInBounds s → IsInBounds (make_room s) × ((make_room s).len < 148)
unfolding make_room
make_room-IsInBounds s v = ground (arith, resync-IsInBounds s v)

-- What a round leaves.
IsRoundInBounds : Round → Type 0
IsRoundInBounds (more s) = IsInBounds s
IsRoundInBounds (answer status s payload packet) = IsInBounds s

decode_packet-IsRoundInBounds :
    (s : Stream) (packet_len : ℕ) (payload : Option (List ℕ)) (capacity : ℕ)
    → IsInBounds s
    → IsRoundInBounds (decode_packet s packet_len payload capacity)
unfolding decode_packet IsRoundInBounds
decode_packet-IsRoundInBounds s packet_len payload capacity v =
    let dropped = drop_prefix-IsInBounds s packet_len v in
    ground (arith, dropped, resync-IsInBounds (drop_prefix s packet_len) dropped)

look_for_packet-IsRoundInBounds :
    (s : Stream) (payload : Option (List ℕ)) (capacity : ℕ)
    → IsInBounds s
    → IsRoundInBounds (look_for_packet s payload capacity)
unfolding look_for_packet IsRoundInBounds
look_for_packet-IsRoundInBounds s payload capacity v =
    let packet_len = 16 + read_u16_le s.buffer 6 + 4 in
    ground (
      arith,
      resync-IsInBounds (drop_prefix s 1) (drop_prefix-IsInBounds s 1 v),
      decode_packet-IsRoundInBounds s packet_len payload capacity v,
    )

round-IsRoundInBounds :
    (s : Stream) (byte : ℕ) (payload : Option (List ℕ)) (capacity : ℕ)
    → IsInBounds s
    → IsRoundInBounds (round s byte payload capacity)
round-IsRoundInBounds s byte payload capacity v =
    let room = make_room-IsInBounds s v in
    let stored : IsInBounds (append_byte (make_room s) byte) =
      ground (arith, room, length-set (make_room s).buffer (make_room s).len byte) in
    look_for_packet-IsRoundInBounds (resync (append_byte (make_room s) byte)) payload capacity
      (resync-IsInBounds (append_byte (make_room s) byte) stored)

-- What `n` rounds leave that start at `input_index`.
pub record IsFed (input_index n : ℕ)
    (out : UpdateStatus × Stream × Option (List ℕ) × Option Packet × ℕ) : Type 0 where
  pub in_bounds : IsInBounds out.1
  pub consumed_ge : input_index ≤ out.4
  pub consumed_le : out.4 ≤ input_index + n
  pub progress : 0 < n → input_index < out.4

after_round :
    (n input_index : ℕ) (input : List ℕ) (payload : Option (List ℕ)) (capacity : ℕ) (o : Round)
    → IsRoundInBounds o
    → ((s : Stream)
        → IsInBounds s
        → IsFed
            (input_index + 1)
            n
            (update_stream_feed n (input_index + 1) s input payload capacity))
    → IsFed input_index (suc n) (elim o [
      | more s' ↦ update_stream_feed n (input_index + 1) s' input payload capacity
      | answer status s' payload' packet ↦ (status, s', payload', packet, input_index + 1)
    ])
unfolding IsRoundInBounds
after_round n input_index input payload capacity (more s) v later =
    let fed = later s v in
    record {
      in_bounds = fed.in_bounds;
      consumed_ge = omega (arith, fed.consumed_ge);
      consumed_le = omega (arith, fed.consumed_le);
      progress = λ h. omega (arith, fed.consumed_ge);
    }
after_round n input_index input payload capacity (answer status s payload' packet) v later =
    record {
      in_bounds = v;
      consumed_ge = omega arith;
      consumed_le = omega arith;
      progress = λ h. omega arith;
    }

-- From a stream within its bounds, the loop with `n` bytes left, whatever they are, leaves a stream
-- within its bounds: the buffer keeps its size of 148, and at most so many bytes are in use. The bytes
-- that it consumes are at most `n`, and at least one if `n` is not 0.
pub update_stream_feed-IsFed :
    (n input_index : ℕ) (s : Stream) (input : List ℕ) (payload : Option (List ℕ)) (capacity : ℕ)
    → IsInBounds s
    → IsFed input_index n (update_stream_feed n input_index s input payload capacity)
unfolding update_stream_feed
update_stream_feed-IsFed zero input_index s input payload capacity v = record {
  in_bounds = v;
  consumed_ge = omega arith;
  consumed_le = omega arith;
  progress = λ h. absurd (omega arith);
}
update_stream_feed-IsFed (suc n) input_index s input payload capacity v =
    after_round n input_index input payload capacity
      (round s (get_or input input_index 0) payload capacity)
      (round-IsRoundInBounds s (get_or input input_index 0) payload capacity v)
      (λ s' v'. update_stream_feed-IsFed n (input_index + 1) s' input payload capacity v')
