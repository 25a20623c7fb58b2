-- ===== src/Can/Frames.antt =====
-- One fragment: what it carries, and what it does to the reassembly of its packet
-- (shared/update/update_can.c).
use stm32_vibe.Base.{
  ℕ, zero, suc, ◌+◌, ◌-◌, ◌≤◌, ◌<◌, ◌==◌, ltb, ◌≡◌, refl, sym, subst, ◌∙◌, true, false, not,
  bit_and, if◌then◌else◌, List, get_or, set, replicate, length, u8, some, arith,
}
use stm32_vibe.Protocol.{copy_bytes}
use stm32_vibe.Protocol.Copy.{length-copy_bytes}
use stm32_vibe.SlotFlash.Store.{get_or-set, get_or-copy_bytes, get_or-replicate}
use stm32_vibe.Can.{
  CanFrame, Reassembly, FeedResult, pending, complete, opened, open_frame, all_zero, take_bytes,
  take_chunk, feed_opened, update_can_reassembly_feed, Fragmenter, control_byte,
  update_can_fragmenter_next,
}
use stm32_vibe.Can.Control.{control_byte-IsControl}

module _ (packet : List ℕ) (len can_id : ℕ) (small : 20 ≤ len) (fits : len ≤ 148) where
  -- The fragmenter of the packet after `offset` bytes and `k` fragments.
  abbrev pub sending : ℕ → ℕ → Fragmenter
  sending offset k = record {
    packet = packet;
    packet_len = len;
    offset = offset;
    can_id = can_id;
    fragment_index = k;
  }

  -- The bytes that the fragment after `offset` carries.
  abbrev pub chunk : ℕ → ℕ
  chunk offset = if ltb (len - offset) 7 then len - offset else 7

  abbrev pub later_frame : ℕ → ℕ → CanFrame
  later_frame offset k = record {
    id = can_id;
    dlc = 8;
    bytes =
        copy_bytes (chunk offset)
          (set (replicate 8 0) 0 (control_byte k false (chunk offset == len - offset))) 1 packet
          offset;
  }

  pub next-later :
      (offset k : ℕ)
      → 0 < offset
      → offset < len
      → update_can_fragmenter_next (sending offset k)
        ≡ some (later_frame offset k, sending (offset + chunk offset) (u8 (k + 1)))
  unfolding update_can_fragmenter_next
  next-later offset k h below = ground arith

  get_or-later_frame :
      (offset k i : ℕ)
      → 1 ≤ i
      → i < 8
      → get_or (later_frame offset k).bytes i 0
        ≡ (if ltb (i - 1) (chunk offset) then get_or packet (offset + (i - 1)) 0 else 0)
  get_or-later_frame offset k i h below =
      let marked = set (replicate 8 0) 0 (control_byte k false (chunk offset == len - offset)) in
      let copied = get_or-copy_bytes (chunk offset) marked 1 packet offset i (ground arith) in
      let blank : get_or marked i 0 ≡ 0 =
        get_or-set (replicate 8 0) 0 i _ (omega arith)
        ∙ ground (arith, get_or-replicate 8 0 i below) in
      ground (arith, copied, blank)

  get_or-control :
      (offset k : ℕ)
      → get_or (later_frame offset k).bytes 0 0
        ≡ control_byte k false (chunk offset == len - offset)
  get_or-control offset k =
      let marked = set (replicate 8 0) 0 (control_byte k false (chunk offset == len - offset)) in
      let copied = get_or-copy_bytes (chunk offset) marked 1 packet offset 0 (ground arith) in
      ground (arith, copied)

  -- What the reassembly holds after `offset` bytes and `k` fragments.
  pub record Holds (offset k : ℕ) (r : Reassembly) : Type 0 where
    pub whole : length r.packet ≡ 148
    pub same : (i : ℕ) → i < offset → get_or r.packet i 0 ≡ get_or packet i 0
    pub expected : r.expected_len ≡ len
    pub received : r.received_len ≡ offset
    pub next : r.next_index ≡ k

  open-later :
      (r : Reassembly) (offset k : ℕ)
      → Holds offset k r
      → r.active ≡ true
      → k < 64
      → open_frame r (later_frame offset k)
        ≡ opened (record r { next_index = u8 (r.next_index + 1) }) 1
  unfolding open_frame
  open-later r offset k v on h =
      let c = control_byte-IsControl k (chunk offset == len - offset) h in
      ground (arith, get_or-control offset k, c.index, c.not_first, v.next, on)

  all_zero-later :
      (n offset k i : ℕ)
      → 1 + chunk offset ≤ i
      → i + n ≤ 8
      → all_zero n (later_frame offset k).bytes i ≡ true
  unfolding all_zero
  all_zero-later zero offset k i h below = refl
  all_zero-later (suc n) offset k i h below = ground (
    arith,
    get_or-later_frame offset k i (omega arith) (omega arith),
    all_zero-later n offset k (i + 1) (omega arith) (omega arith),
  )

  -- The answer to a fragment that carries the bytes from `offset` to `upto`.
  pub record Took (upto k : ℕ) (out : FeedResult × Reassembly) : Type 0 where
    pub result : out.0 ≡ (if upto == len then complete else pending)
    pub held : Holds upto k out.1
    pub on : out.1.active ≡ not (upto == len)

  -- The copy of `n` bytes out of a frame continues the packet.
  pub take_bytes-Took :
      (r : Reassembly) (frame : CanFrame) (offset k from n : ℕ)
      → Holds offset k r
      → r.active ≡ true
      → offset + n ≤ len
      → (bit_and (get_or frame.bytes 0 0) 0x40 ≡ (if offset + n == len then 64 else 0))
      → ((i : ℕ) → i < n → get_or frame.bytes (from + i) 0 ≡ get_or packet (offset + i) 0)
      → Took (offset + n) k (take_bytes r frame from n)
  unfolding take_bytes
  take_bytes-Took r frame offset k from n v on below marked carried =
      let copied = copy_bytes n r.packet r.received_len frame.bytes from in
      let long : length copied ≡ 148 =
        length-copy_bytes n r.packet r.received_len frame.bytes from ∙ v.whole in
      let same : (i : ℕ) → i < offset + n → get_or copied i 0 ≡ get_or packet i 0 = λ i h. ground (
        arith,
        get_or-copy_bytes n r.packet r.received_len frame.bytes from i
            (omega (arith, v.whole, v.received)),
        v.received,
        v.same i,
        carried (i - offset),
      ) in
      record {
        result = ground (arith, marked, v.received, v.expected);
        held = record {
          whole = ground (arith, marked, v.received, v.expected, long);
          same = λ i h. ground (arith, marked, v.received, v.expected, same i h);
          expected = ground (arith, marked, v.received, v.expected);
          received = ground (arith, marked, v.received, v.expected);
          next = ground (arith, marked, v.received, v.expected, v.next);
        };
        on = ground (arith, marked, v.received, v.expected);
      }

  chunk-cases :
      (offset : ℕ)
      → offset < len
      → (0 < chunk offset)
        × (chunk offset ≤ 7)
        × (offset + chunk offset ≤ len)
        × ((chunk offset == len - offset) ≡ (offset + chunk offset == len))
  chunk-cases offset h = ground arith

  marked-later :
      (offset k : ℕ)
      → offset < len
      → k < 64
      → bit_and (get_or (later_frame offset k).bytes 0 0) 0x40
        ≡ (if offset + chunk offset == len then 64 else 0)
  marked-later offset k below h =
      let c = control_byte-IsControl k (chunk offset == len - offset) h in
      ground (arith, get_or-control offset k, c.end_mark, chunk-cases offset below)

  take_bytes-later :
      (r : Reassembly) (offset k next : ℕ)
      → Holds offset next r
      → r.active ≡ true
      → offset < len
      → k < 64
      → Took (offset + chunk offset) next (take_bytes r (later_frame offset k) 1 (chunk offset))
  take_bytes-later r offset k next v on below h =
      let c = chunk-cases offset below in
      take_bytes-Took r (later_frame offset k) offset next 1 (chunk offset) v on c.2
        (marked-later offset k below h)
        (λ i less. ground (arith, get_or-later_frame offset k (1 + i), c))

  -- The rest of a last frame is its padding.
  take_chunk-chunk :
      (r : Reassembly) (offset k next : ℕ)
      → Holds offset next r
      → offset < len
      → k < 64
      → take_chunk r (later_frame offset k) 1 ≡ take_bytes r (later_frame offset k) 1 (chunk offset)
  unfolding take_chunk
  take_chunk-chunk r offset k next v below h =
      let blank = all_zero-later (7 - (len - offset)) offset k (1 + (len - offset)) in
      ground (arith, marked-later offset k below h, v.expected, v.received, blank)

  take_chunk-later :
      (r : Reassembly) (offset k next : ℕ)
      → Holds offset next r
      → r.active ≡ true
      → offset < len
      → k < 64
      → Took (offset + chunk offset) next (take_chunk r (later_frame offset k) 1)
  take_chunk-later r offset k next v on below h =
      subst (Took (offset + chunk offset) next) (sym (take_chunk-chunk r offset k next v below h))
        (take_bytes-later r offset k next v on below h)

  pub feed-open :
      (r r' : Reassembly) (frame : CanFrame) (from : ℕ)
      → frame.dlc ≡ 8
      → frame.id ≡ can_id
      → open_frame r frame ≡ opened r' from
      → update_can_reassembly_feed r frame can_id ≡ take_chunk r' frame from
  unfolding update_can_reassembly_feed feed_opened
  feed-open r r' frame from e same h = ground (arith, e, same, h)

  -- A fragment after the first is added to what has been received.
  pub feed-later :
      (r : Reassembly) (offset k : ℕ)
      → Holds offset k r
      → r.active ≡ true
      → offset < len
      → k < 64
      → Took
          (offset + chunk offset)
          (k + 1)
          (update_can_reassembly_feed r (later_frame offset k) can_id)
  feed-later r offset k v on below h =
      let r' : Reassembly = record r { next_index = u8 (r.next_index + 1) } in
      let v' : Holds offset (k + 1) r' = record {
        whole = v.whole;
        same = v.same;
        expected = v.expected;
        received = v.received;
        next = ground (arith, v.next);
      } in
      let same = feed-open r r' (later_frame offset k) 1 refl refl (open-later r offset k v on h) in
      subst (Took (offset + chunk offset) (k + 1)) (sym same)
        (take_chunk-later r' offset k (k + 1) v' on below h)
