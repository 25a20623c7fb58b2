-- ===== src/Can/First.antt =====
-- The first fragment of a packet, which announces its length (shared/update/update_can.c).
use stm32_vibe.Base.{
  ℕ, ◌+◌, ◌-◌, ◌/◌, ◌^◌, ◌≤◌, ◌==◌, ◌≡◌, refl, sym, subst, ◌∙◌, true, if◌then◌else◌, List, get_or,
  set, replicate, length, u8, some, arith,
}
use stm32_vibe.Base.Bits.{bit_or-parts}
use stm32_vibe.Protocol.{copy_bytes}
use stm32_vibe.SlotFlash.Store.{within, get_or-copy_bytes}
use stm32_vibe.Can.{
  CanFrame, Reassembly, opened, open_frame, take_chunk, take_bytes, update_can_reassembly_feed,
  control_byte, update_can_fragmenter_next, announced_len,
}
use stm32_vibe.Can.Frames.{sending, Holds, Took, take_bytes-Took, feed-open}

module _ (packet : List ℕ) (len can_id : ℕ) (small : 20 ≤ len) (fits : len ≤ 148) where
  abbrev first_header : List ℕ
  first_header =
      set (set (set (replicate 8 0) 0 (control_byte 0 true (5 == len))) 1 (u8 len)) 2
        (u8 (len / 2 ^ 8))

  abbrev pub first_frame : CanFrame
  first_frame = record { id = can_id; dlc = 8; bytes = copy_bytes 5 first_header 3 packet 0 }

  pub next-first :
      update_can_fragmenter_next (sending packet len can_id small fits 0 0)
      ≡ some (first_frame, sending packet len can_id small fits 5 1)
  unfolding update_can_fragmenter_next
  next-first = ground arith

  get_or-first_frame :
      (i : ℕ)
      → get_or first_frame.bytes i 0
        ≡ (if within 3 5 i then get_or packet (i - 3) 0 else get_or first_header i 0)
  get_or-first_frame i =
      let copied = get_or-copy_bytes 5 first_header 3 packet 0 i (ground arith) in
      ground (arith, copied)

  control-first : get_or first_frame.bytes 0 0 ≡ 128
  control-first = ground (arith, get_or-first_frame 0)

  announced_len-first : announced_len first_frame ≡ len
  announced_len-first =
      ground (arith, get_or-first_frame 1, get_or-first_frame 2, bit_or-parts 8 len 0)

  abbrev opened_first : Reassembly → Reassembly
  opened_first r = record r { expected_len = len; received_len = 0; next_index = 1; active = true }

  open-first : (r : Reassembly) → open_frame r first_frame ≡ opened (opened_first r) 3
  unfolding open_frame
  open-first r = ground (arith, control-first, announced_len-first)

  take_chunk-first :
      (r : Reassembly)
      → take_chunk (opened_first r) first_frame 3 ≡ take_bytes (opened_first r) first_frame 3 5
  unfolding take_chunk
  take_chunk-first r = ground arith

  take_bytes-first :
      (r : Reassembly)
      → length r.packet ≡ 148
      → Took packet len can_id small fits 5 1 (take_bytes (opened_first r) first_frame 3 5)
  take_bytes-first r whole =
      let v : Holds packet len can_id small fits 0 1 (opened_first r) = record {
        whole = whole;
        same = λ i h. absurd (omega arith);
        expected = refl;
        received = refl;
        next = refl;
      } in
      take_bytes-Took packet len can_id small fits (opened_first r) first_frame 0 1 3 5 v refl
        (omega arith) (ground (arith, control-first))
        (λ i h. ground (arith, get_or-first_frame (3 + i)))

  -- The first fragment starts the reassembly afresh, whatever it held.
  pub feed-first :
      (r : Reassembly)
      → length r.packet ≡ 148
      → Took packet len can_id small fits 5 1 (update_can_reassembly_feed r first_frame can_id)
  feed-first r whole =
      let fed =
        feed-open packet len can_id small fits r (opened_first r) first_frame 3 refl refl
          (open-first r) in
      subst (Took packet len can_id small fits 5 1) (sym (fed ∙ take_chunk-first r))
        (take_bytes-first r whole)
