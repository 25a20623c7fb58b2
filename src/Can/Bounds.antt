-- ===== src/Can/Bounds.antt =====
-- The reassembly of update packets stays within its buffer (shared/update/update_can.c).
use stm32_vibe.Base.{ℕ, ◌-◌, ◌≤◌, ◌<◌, ◌≡◌, true, false, length, arith}
use stm32_vibe.Protocol.Copy.{length-copy_bytes}
use stm32_vibe.Can.{
  CanFrame, Reassembly, FeedResult, complete, Opened, opened, refused, open_frame, take_bytes,
  take_chunk, update_can_reassembly_feed, feed_opened,
}

-- The buffer has its size, and an active reassembly expects more bytes, all of which fit.
pub record IsBounded (r : Reassembly) : Type 0 where
  pub whole : length r.packet ≡ 148
  pub room :
      r.active ≡ true
      → (r.received_len < r.expected_len) × (20 ≤ r.expected_len) × (r.expected_len ≤ 148)

module _ (r : Reassembly) (frame : CanFrame) where
  take_bytes-IsBounded :
      (data_offset n : ℕ)
      → IsBounded r
      → r.active ≡ true
      → n ≤ r.expected_len - r.received_len
      → IsBounded (take_bytes r frame data_offset n).1
  unfolding take_bytes
  take_bytes-IsBounded data_offset n v on h =
      ground (arith, v.room on, length-copy_bytes n r.packet r.received_len frame.bytes data_offset)

  take_bytes-complete :
      (data_offset n : ℕ)
      → (take_bytes r frame data_offset n).0 ≡ complete
      → ((take_bytes r frame data_offset n).1.received_len
          ≡ (take_bytes r frame data_offset n).1.expected_len)
        × ((take_bytes r frame data_offset n).1.active ≡ false)
  unfolding take_bytes
  take_bytes-complete data_offset n h = ground arith

  take_chunk-IsBounded :
      (data_offset : ℕ)
      → IsBounded r
      → r.active ≡ true
      → IsBounded (take_chunk r frame data_offset).1
  unfolding take_chunk
  take_chunk-IsBounded data_offset v on =
      let n = frame.dlc - data_offset in
      let m = r.expected_len - r.received_len in
      ground
        (arith, take_bytes-IsBounded data_offset n v on, take_bytes-IsBounded data_offset m v on)

  take_chunk-complete :
      (data_offset : ℕ)
      → (take_chunk r frame data_offset).0 ≡ complete
      → ((take_chunk r frame data_offset).1.received_len
          ≡ (take_chunk r frame data_offset).1.expected_len)
        × ((take_chunk r frame data_offset).1.active ≡ false)
  unfolding take_chunk
  take_chunk-complete data_offset h =
      let n = frame.dlc - data_offset in
      let m = r.expected_len - r.received_len in
      ground (arith, take_bytes-complete data_offset n, take_bytes-complete data_offset m)

-- What `open_frame` leaves.
IsOpened : Opened → Type 0
IsOpened (refused r) = IsBounded r
IsOpened (opened r data_offset) = IsBounded r × (r.active ≡ true)

open_frame-IsOpened :
    (r : Reassembly) (frame : CanFrame) → IsBounded r → IsOpened (open_frame r frame)
unfolding open_frame IsOpened
open_frame-IsOpened r frame v = ground arith

-- What a frame leaves: a bounded reassembly, and on `complete` a whole packet.
pub record IsFed (out : FeedResult × Reassembly) : Type 0 where
  pub bounded : IsBounded out.1
  pub whole_packet :
      out.0 ≡ complete → (out.1.received_len ≡ out.1.expected_len) × (out.1.active ≡ false)

feed_opened-IsFed : (o : Opened) (frame : CanFrame) → IsOpened o → IsFed (feed_opened o frame)
unfolding feed_opened IsOpened
feed_opened-IsFed (refused r) frame v = record { bounded = v; whole_packet = λ h. cc }
feed_opened-IsFed (opened r data_offset) frame v = record {
  bounded = take_chunk-IsBounded r frame data_offset v.0 v.1;
  whole_packet = λ h. let e = take_chunk-complete r frame data_offset h in (e.0, e.1);
}

-- Every frame leaves a bounded reassembly bounded: the buffer keeps its size, and an active
-- reassembly has received fewer bytes than it expects, which are 20 to 148. When a frame completes a
-- packet, the bytes received are as many as expected, and the reassembly is idle again.
pub update_can_reassembly_feed-IsFed :
    (r : Reassembly) (frame : CanFrame) (expected_can_id : ℕ)
    → IsBounded r
    → IsFed (update_can_reassembly_feed r frame expected_can_id)
unfolding update_can_reassembly_feed
update_can_reassembly_feed-IsFed r frame expected_can_id v =
    let taken = feed_opened-IsFed (open_frame r frame) frame (open_frame-IsOpened r frame v) in
    ground (arith, taken.bounded, taken.whole_packet, IsFed)
