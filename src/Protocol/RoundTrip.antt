-- ===== src/Protocol/RoundTrip.antt =====
-- Encoding and decoding together, and what the checksum protects.
use stm32_vibe.Base.{
  ℕ, zero, suc, ◌+◌, ◌-◌, ◌≤◌, ◌<◌, ◌≡◌, ◌≢◌, ◌⊎◌, refl, ap, sym, subst, ◌∙◌, List, [], ◌∷◌, ◌++◌,
  get_or, take, drop, length, length-take, take-append-drop, append_assoc, u32_of_bytes, get_or-lt,
  Option, none, some, AreBytes, AreBytes-append, arith, ◌==◌, if◌then◌else◌,
}
use stm32_vibe.Crc.{update_protocol_crc32}
use stm32_vibe.Crc.Detect.{update_protocol_crc32_detects}
use stm32_vibe.Protocol.{
  Packet, ok, read_u16_le, read_u32_le, read_packet, update_protocol_decode, update_protocol_encode,
}
use stm32_vibe.Protocol.Frame.{IsEncodable, payload_bytes, read_u32_le_lem}
use stm32_vibe.Protocol.Copy.{update_protocol_crc32-append}
use stm32_vibe.Protocol.Encode.{update_protocol_encode-frame}
use stm32_vibe.Protocol.Decode.{update_protocol_decode-frame}

-- What encoding writes, decoding restores: for a packet that the wire format can carry, buffers that
-- are long enough and capacities within them, decoding the encoder's buffer at the encoder's length
-- returns `ok` and the same packet, with its payload at the start of the receiver's buffer.
pub decode-encode :
    (p : Packet) (output dst : List ℕ) (capacity output_len dst_capacity : ℕ)
    → IsEncodable p
    → 20 + p.payload_len ≤ capacity
    → capacity ≤ length output
    → p.payload_len ≤ dst_capacity
    → dst_capacity ≤ length dst
    → let (status, written, len) = update_protocol_encode p output capacity output_len in
      let filled = payload_bytes p ++ drop p.payload_len dst in
      (status ≡ ok)
      × (update_protocol_decode written len (some dst) dst_capacity ≡ (
        ok,
        some filled,
        some (record p { payload = if p.payload_len == 0 then none else some filled }),
      ))
decode-encode p output dst capacity output_len dst_capacity w fits long dst_fits dst_long =
    rw (update_protocol_encode-frame p output capacity output_len w fits long) (
      refl,
      update_protocol_decode-frame p (drop (20 + p.payload_len) output) dst dst_capacity w dst_fits
          dst_long,
    )

read_packet-status :
    (input : List ℕ) (n : ℕ) (payload : Option (List ℕ)) → (read_packet input n payload).0 ≡ ok
unfolding read_packet
read_packet-status input n payload = refl

-- An accepted input has the length that its header states, and the checksum of its own bytes.
decode_accepts :
    (input : List ℕ) (input_len : ℕ) (payload : Option (List ℕ)) (capacity : ℕ)
    → (update_protocol_decode input input_len payload capacity).0 ≡ ok
    → (input_len ≡ 20 + read_u16_le input 6)
      × (update_protocol_crc32 input (16 + read_u16_le input 6)
          ≡ read_u32_le input (16 + read_u16_le input 6))
unfolding update_protocol_decode
decode_accepts input input_len payload capacity h = ground arith

checked_word :
    (input : List ℕ) (input_len : ℕ) (payload : Option (List ℕ)) (capacity : ℕ)
    → (update_protocol_decode input input_len payload capacity).0 ≡ ok
    → (20 ≤ input_len)
      × (update_protocol_crc32 input (input_len - 4) ≡ read_u32_le input (input_len - 4))
checked_word input input_len payload capacity h =
    let (len, crc) = decode_accepts input input_len payload capacity h in
    let e : 16 + read_u16_le input 6 ≡ input_len - 4 = omega arith in
    (omega arith, subst (λ n. update_protocol_crc32 input n ≡ read_u32_le input n) e crc)

-- Reading a changed buffer.
get_or-before :
    (before after : List ℕ) (v w i : ℕ)
    → i ≢ length before
    → get_or (before ++ v ∷ after) i 0 ≡ get_or (before ++ w ∷ after) i 0
get_or-before [] after v w zero h = absurd (h refl)
get_or-before [] after v w (suc i) h = refl
get_or-before (x ∷ before) after v w zero h = refl
get_or-before (x ∷ before) after v w (suc i) h =
    get_or-before before after v w i (λ e. h (ap suc e))

get_or-at : (before after : List ℕ) (v : ℕ) → get_or (before ++ v ∷ after) (length before) 0 ≡ v
get_or-at [] after v = refl
get_or-at (x ∷ before) after v = get_or-at before after v

read_u32_le-sum :
    (bytes : List ℕ) (i : ℕ)
    → AreBytes bytes
    → read_u32_le bytes i
      ≡ u32_of_bytes
          (get_or bytes i 0)
          (get_or bytes (i + 1) 0)
          (get_or bytes (i + 2) 0)
          (get_or bytes (i + 3) 0)
read_u32_le-sum bytes i h =
    read_u32_le_lem bytes i _ _ _ _ refl refl refl refl (get_or-lt bytes i h)
      (get_or-lt bytes (i + 1) h) (get_or-lt bytes (i + 2) h)

module _ (before after : List ℕ) (v w : ℕ) (hb : AreBytes before) (hv : v < 256) (hw : w < 256)
    (ha : AreBytes after) where
  abbrev sent : List ℕ
  sent = before ++ v ∷ after

  abbrev received : List ℕ
  received = before ++ w ∷ after

  sent-AreBytes : AreBytes sent
  sent-AreBytes = AreBytes-append before (v ∷ after) hb (hv, ha)

  received-AreBytes : AreBytes received
  received-AreBytes = AreBytes-append before (w ∷ after) hb (hw, ha)

  -- A change in front of the stored word leaves the word as it is.
  stored_same : (n : ℕ) → length before < n → read_u32_le sent n ≡ read_u32_le received n
  stored_same n h = omega (
    arith,
    read_u32_le-sum sent n sent-AreBytes,
    read_u32_le-sum received n received-AreBytes,
    get_or-before before after v w n,
    get_or-before before after v w (n + 1),
    get_or-before before after v w (n + 2),
    get_or-before before after v w (n + 3),
  )

  changed_at : (i : ℕ) → length before ≡ i → get_or sent i 0 ≡ get_or received i 0 → v ≡ w
  changed_at i e q =
      sym (get_or-at before after v)
      ∙ ap (λ (k : ℕ). get_or sent k 0) e
      ∙ q
      ∙ ap (λ (k : ℕ). get_or received k 0) (sym e)
      ∙ get_or-at before after w

  same_bytes :
      (n : ℕ)
      → read_u32_le sent n ≡ read_u32_le received n
      → (get_or sent n 0 ≡ get_or received n 0)
        × (get_or sent (n + 1) 0 ≡ get_or received (n + 1) 0)
        × (get_or sent (n + 2) 0 ≡ get_or received (n + 2) 0)
        × (get_or sent (n + 3) 0 ≡ get_or received (n + 3) 0)
  same_bytes n e = omega (
    arith,
    read_u32_le-sum sent n sent-AreBytes,
    read_u32_le-sum received n received-AreBytes,
    get_or-lt sent n sent-AreBytes,
    get_or-lt sent (n + 1) sent-AreBytes,
    get_or-lt sent (n + 2) sent-AreBytes,
    get_or-lt received n received-AreBytes,
    get_or-lt received (n + 1) received-AreBytes,
    get_or-lt received (n + 2) received-AreBytes,
  )

  -- A change within the stored word is seen in it.
  stored_differs :
      (n : ℕ)
      → n ≤ length before
      → length before < n + 4
      → read_u32_le sent n ≡ read_u32_le received n
      → v ≡ w
  stored_differs n lo hi e =
      let same = same_bytes n e in
      ground (arith, changed_at n, changed_at (n + 1), changed_at (n + 2), changed_at (n + 3))

  prefix_crc :
      (b n : ℕ)
      → n ≤ length before
      → update_protocol_crc32 (before ++ b ∷ after) n ≡ update_protocol_crc32 (take n before) n
  prefix_crc b n h =
      ap (λ k. update_protocol_crc32 k n)
        (ap (λ k. k ++ b ∷ after) (sym (take-append-drop n before))
          ∙ append_assoc (take n before) (drop n before) (b ∷ after))
      ∙ update_protocol_crc32-append (take n before) (drop n before ++ b ∷ after) n
          (omega (arith, length-take n before))

  -- The bytes in front of the change have the same checksum.
  crc_same :
      (n : ℕ) → n ≤ length before → update_protocol_crc32 sent n ≡ update_protocol_crc32 received n
  crc_same n h = prefix_crc v n h ∙ sym (prefix_crc w n h)

lt_or_le : (a b : ℕ) → (a < b) ⊎ (b ≤ a)
lt_or_le a b = grind arith

-- One changed byte is always noticed: of two inputs of bytes that differ in a single byte within the
-- given length, at most one is accepted, with the same payload buffer and capacity.
pub update_protocol_decode_detects :
    (before after : List ℕ) (v w input_len : ℕ) (payload : Option (List ℕ)) (capacity : ℕ)
    → AreBytes before
    → v < 256
    → w < 256
    → AreBytes after
    → length before < input_len
    → (update_protocol_decode (before ++ v ∷ after) input_len payload capacity).0 ≡ ok
    → (update_protocol_decode (before ++ w ∷ after) input_len payload capacity).0 ≡ ok
    → v ≡ w
update_protocol_decode_detects before after v w input_len payload capacity hb hv hw ha within p q =
    let sent_ok = checked_word (before ++ v ∷ after) input_len payload capacity p in
    let received_ok = checked_word (before ++ w ∷ after) input_len payload capacity q in
    let n : ℕ = input_len - 4 in
    ground (
      arith,
      sent_ok,
      received_ok,
      lt_or_le (length before) n,
      update_protocol_crc32_detects before v w after n hb hv hw ha,
      stored_same before after v w hb hv hw ha n,
      stored_differs before after v w hb hv hw ha n,
      crc_same before after v w hb hv hw ha n,
    )
