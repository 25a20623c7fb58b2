-- ===== src/Stream/Deliver.antt =====
-- A packet that is fed to an empty stream is delivered.
use stm32_vibe.Base.{
  ℕ, zero, suc, ◌+◌, ◌-◌, ◌/◌, ◌%◌, ◌==◌, ◌≤◌, ◌<◌, ◌≡◌, refl, sym, ap, ap₂, subst, ◌∙◌, true,
  if◌then◌else◌, List, [], ◌∷◌, ◌++◌, get_or, set, drop, length, length-append, length-take,
  u32_bytes, length-snoc, snoc-append, set-length_append, get_or-append, append_nil, Option, none,
  some, arith,
}
use stm32_vibe.Protocol.{Packet, pointee, UpdateStatus, ok, read_u16_le}
use stm32_vibe.Protocol.Frame.{IsEncodable, frame, payload_bytes, body_crc32, read_u16_le_lem}
use stm32_vibe.Protocol.Decode.{update_protocol_decode-frame}
use stm32_vibe.Stream.{
  Stream, sync_at, move_down, drop_prefix, find_sync, keep_last, resync, make_room, append_byte,
  more, answer, decode_packet, look_for_packet, round, update_stream_feed,
}

get_or-left : (xs ys : List ℕ) (i : ℕ) → i < length xs → get_or (xs ++ ys) i 0 ≡ get_or xs i 0
get_or-left [] ys i h = absurd (omega arith)
get_or-left (x ∷ xs) ys zero h = refl
get_or-left (x ∷ xs) ys (suc i) h = get_or-left xs ys i (omega arith)

set-get_or : (xs : List ℕ) (i : ℕ) → set xs i (get_or xs i 0) ≡ xs
set-get_or [] i = refl
set-get_or (x ∷ xs) zero = refl
set-get_or (x ∷ xs) (suc i) = ap (λ k. x ∷ k) (set-get_or xs i)

move_down_zero : (n index : ℕ) (buffer : List ℕ) → move_down n index 0 buffer ≡ buffer
unfolding move_down
move_down_zero zero index buffer = refl
move_down_zero (suc n) index buffer =
    let here : index + 0 ≡ index = omega arith in
    rw (here, set-get_or buffer index) (move_down_zero n (index + 1) buffer)

drop_prefix_zero : (s : Stream) → 0 < s.len → drop_prefix s 0 ≡ s
unfolding drop_prefix
drop_prefix_zero s h = ground (arith, move_down_zero (s.len - 0) 0 s.buffer)

-- The stream of the bytes `pre`.
abbrev half : List ℕ → List ℕ → Stream
half pre tail = record { buffer = pre ++ tail; len = length pre }

find_first : (n : ℕ) (s : Stream) → sync_at s 0 ≡ true → find_sync (suc n) 0 s ≡ some 0
unfolding find_sync
find_first n s h = ground (arith, h)

found : (s : Stream) → find_sync s.len 0 s ≡ some 0 → resync s ≡ drop_prefix s 0
unfolding resync
found s h = ground (arith, h)

lost : (s : Stream) → find_sync s.len 0 s ≡ none → resync s ≡ keep_last s
unfolding resync
lost s h = ground (arith, h)

resync_synced :
    (n : ℕ) (buffer : List ℕ)
    → get_or buffer 0 0 ≡ 0x44
    → get_or buffer 1 0 ≡ 0x55
    → resync (record { buffer = buffer; len = suc (suc n) })
      ≡ record { buffer = buffer; len = suc (suc n) }
resync_synced n buffer h0 h1 =
    let s : Stream = record { buffer = buffer; len = suc (suc n) } in
    let at_first : sync_at s 0 ≡ true = ground (arith, h0, h1) in
    found s (find_first (suc n) s at_first) ∙ drop_prefix_zero s (omega arith)

resync_first :
    (buffer : List ℕ)
    → get_or buffer 0 0 ≡ 0x44
    → resync (record { buffer = buffer; len = 1 }) ≡ record { buffer = buffer; len = 1 }
unfolding find_sync keep_last
resync_first buffer h0 =
    let s : Stream = record { buffer = buffer; len = 1 } in
    lost s (ground arith) ∙ ground (arith, h0, set-get_or buffer 0)

-- A stream that starts like a packet is in step.
resync_half :
    (n : ℕ) (buffer : List ℕ)
    → get_or buffer 0 0 ≡ 0x44
    → (2 ≤ n → get_or buffer 1 0 ≡ 0x55)
    → 1 ≤ n
    → resync (record { buffer = buffer; len = n }) ≡ record { buffer = buffer; len = n }
resync_half zero buffer h0 h1 h = absurd (omega arith)
resync_half (suc zero) buffer h0 h1 h = resync_first buffer h0
resync_half (suc (suc n)) buffer h0 h1 h = resync_synced n buffer h0 (h1 (omega arith))

make_room_half : (s : Stream) → s.len < 148 → make_room s ≡ s
unfolding make_room
make_room_half s h = ground (arith, h)

look_short :
    (s : Stream) (payload : Option (List ℕ)) (capacity n : ℕ)
    → (16 ≤ s.len → read_u16_le s.buffer 6 ≡ n)
    → n ≤ 128
    → s.len < 20 + n
    → look_for_packet s payload capacity ≡ more s
unfolding look_for_packet
look_short s payload capacity n h short less = ground (arith, h, short, less)

feed_more :
    (n i : ℕ) (s : Stream) (input : List ℕ) (payload : Option (List ℕ)) (capacity : ℕ) (s' : Stream)
    → round s (get_or input i 0) payload capacity ≡ more s'
    → update_stream_feed (suc n) i s input payload capacity
      ≡ update_stream_feed n (i + 1) s' input payload capacity
unfolding update_stream_feed
feed_more n i s input payload capacity s' h = ground (arith, h)

feed_answer :
    (n i : ℕ) (s : Stream) (input : List ℕ) (payload : Option (List ℕ)) (capacity : ℕ)
    (status : UpdateStatus) (s' : Stream) (payload' : Option (List ℕ)) (packet : Option Packet)
    → round s (get_or input i 0) payload capacity ≡ answer status s' payload' packet
    → update_stream_feed (suc n) i s input payload capacity ≡ (status, s', payload', packet, i + 1)
unfolding update_stream_feed
feed_answer n i s input payload capacity status s' payload' packet h = ground (arith, h)

module _ (p : Packet) (w : IsEncodable p) (dst : List ℕ) (capacity : ℕ)
    (fits : p.payload_len ≤ capacity) (long : capacity ≤ length dst) where
  abbrev filled : List ℕ
  filled = payload_bytes p ++ drop p.payload_len dst

  abbrev delivered : Packet
  delivered = record p { payload = if p.payload_len == 0 then none else some filled }

  abbrev emptied : List ℕ → Stream
  emptied tail = record { buffer = frame p ++ tail; len = 0 }

  length-frame : length (frame p) ≡ 20 + p.payload_len
  unfolding frame
  length-frame = omega (
    arith,
    length-append (payload_bytes p) (u32_bytes (body_crc32 p)),
    length-take p.payload_len (pointee p.payload),
    w.payload_there,
  )

  -- What a buffer holds that starts with a part of the packet.
  starts :
      (pre post tail : List ℕ) (i : ℕ)
      → frame p ≡ pre ++ post
      → i < length pre
      → get_or (pre ++ tail) i 0 ≡ get_or (frame p) i 0
  starts pre post tail i e h =
      get_or-left pre tail i h ∙ sym (get_or-left pre post i h) ∙ ap (λ f. get_or f i 0) (sym e)

  sync_bytes : (get_or (frame p) 0 0 ≡ 0x44) × (get_or (frame p) 1 0 ≡ 0x55)
  unfolding frame
  sync_bytes = (refl, refl)

  length_bytes :
      (get_or (frame p) 6 0 ≡ p.payload_len % 256)
      × (get_or (frame p) 7 0 ≡ p.payload_len / 256 % 256)
  unfolding frame
  length_bytes = (refl, refl)

  announced :
      (pre post tail : List ℕ)
      → frame p ≡ pre ++ post
      → 16 ≤ length pre
      → read_u16_le (pre ++ tail) 6 ≡ p.payload_len
  announced pre post tail e h =
      let low = starts pre post tail 6 e (omega arith) ∙ length_bytes.0 in
      let high = starts pre post tail 7 e (omega arith) ∙ length_bytes.1 in
      let read =
        read_u16_le_lem (pre ++ tail) 6 (p.payload_len % 256) (p.payload_len / 256 % 256) low high
          (omega arith) in
      omega (arith, read, w.short)

  look_whole :
      (tail : List ℕ)
      → look_for_packet (half (frame p) tail) (some dst) capacity
        ≡ answer ok (emptied tail) (some filled) (some delivered)
  unfolding look_for_packet decode_packet drop_prefix
  look_whole tail =
      let size =
        announced (frame p) [] tail (sym (append_nil (frame p))) (omega (arith, length-frame)) in
      let decoded = update_protocol_decode-frame p tail dst capacity w fits long in
      ground (arith, length-frame, size, decoded, w.short)

  -- The byte `byte` of the packet is stored behind those before it.
  stored :
      (pre post tail : List ℕ) (byte t : ℕ)
      → frame p ≡ pre ++ byte ∷ post
      → length (pre ++ t ∷ tail) ≡ 148
      → resync (append_byte (make_room (half pre (t ∷ tail))) byte) ≡ half (pre ++ byte ∷ []) tail
  stored pre post tail byte t e whole =
      let more_room =
        make_room_half (half pre (t ∷ tail)) (omega (arith, whole, length-append pre (t ∷ tail))) in
      let placed = set-length_append pre t byte tail in
      let grown = length-snoc pre byte in
      let cut : frame p ≡ (pre ++ byte ∷ []) ++ post = e ∙ sym (snoc-append pre byte post) in
      let same : append_byte (half pre (t ∷ tail)) byte ≡ half (pre ++ byte ∷ []) tail =
        ap₂ (λ buffer n. record { buffer = buffer; len = n }) placed grown in
      ap (λ s. resync (append_byte s byte)) more_room
      ∙ ap resync same
      ∙ resync_half (length (pre ++ byte ∷ [])) ((pre ++ byte ∷ []) ++ tail)
          (starts (pre ++ byte ∷ []) post tail 0 cut (omega (arith, grown)) ∙ sync_bytes.0)
          (λ h. starts (pre ++ byte ∷ []) post tail 1 cut (omega (arith, h)) ∙ sync_bytes.1)
          (omega (arith, grown))

  round_first :
      (pre post tail : List ℕ) (byte next t : ℕ)
      → frame p ≡ pre ++ byte ∷ next ∷ post
      → length (pre ++ t ∷ tail) ≡ 148
      → round (half pre (t ∷ tail)) byte (some dst) capacity ≡ more (half (pre ++ byte ∷ []) tail)
  round_first pre post tail byte next t e whole =
      let cut : frame p ≡ (pre ++ byte ∷ []) ++ next ∷ post =
        e ∙ sym (snoc-append pre byte (next ∷ post)) in
      let total : 20 + p.payload_len ≡ length (pre ++ byte ∷ []) + length (next ∷ post) =
        sym length-frame ∙ ap length cut ∙ length-append (pre ++ byte ∷ []) (next ∷ post) in
      ap (λ s. look_for_packet s (some dst) capacity) (stored pre (next ∷ post) tail byte t e whole)
      ∙ look_short (half (pre ++ byte ∷ []) tail) (some dst) capacity p.payload_len
          (λ h. announced (pre ++ byte ∷ []) (next ∷ post) tail cut h) w.short
          (omega (arith, total))

  round_last :
      (pre tail : List ℕ) (byte t : ℕ)
      → frame p ≡ pre ++ byte ∷ []
      → length (pre ++ t ∷ tail) ≡ 148
      → round (half pre (t ∷ tail)) byte (some dst) capacity
        ≡ answer ok (emptied tail) (some filled) (some delivered)
  round_last pre tail byte t e whole =
      ap (λ s. look_for_packet s (some dst) capacity) (stored pre [] tail byte t e whole)
      ∙ ap (λ f. look_for_packet (half f tail) (some dst) capacity) (sym e)
      ∙ look_whole tail

  reads :
      (pre post : List ℕ) (byte : ℕ)
      → frame p ≡ pre ++ byte ∷ post
      → get_or (frame p) (length pre) 0 ≡ byte
  reads pre post byte e =
      let place : length pre + 0 ≡ length pre = omega arith in
      ap (λ f. get_or f (length pre) 0) e
      ∙ ap (λ i. get_or (pre ++ byte ∷ post) i 0) (sym place)
      ∙ get_or-append pre (byte ∷ post) (length pre) 0 0 refl

  feed_rest :
      (post pre tail : List ℕ) (byte : ℕ)
      → frame p ≡ pre ++ byte ∷ post
      → length (pre ++ tail) ≡ 148
      → length (byte ∷ post) ≤ length tail
      → update_stream_feed
          (length (byte ∷ post))
          (length pre)
          (half pre tail)
          (frame p)
          (some dst)
          capacity
        ≡ (
          ok,
          emptied (drop (length (byte ∷ post)) tail),
          some filled,
          some delivered,
          20 + p.payload_len,
        )
  feed_rest post pre [] byte e whole enough = absurd (omega arith)
  feed_rest [] pre (t ∷ tail) byte e whole enough =
      let here = reads pre [] byte e in
      let total : length pre + 1 ≡ 20 + p.payload_len =
        omega (arith, ap length e, length-append pre (byte ∷ []), length-frame) in
      feed_answer 0 (length pre) (half pre (t ∷ tail)) (frame p) (some dst) capacity ok
        (emptied tail) (some filled) (some delivered)
        (ap (λ c. round (half pre (t ∷ tail)) c (some dst) capacity) here
          ∙ round_last pre tail byte t e whole)
      ∙ ap (λ n. (ok, emptied tail, some filled, some delivered, n)) total
  feed_rest (next ∷ post) pre (t ∷ tail) byte e whole enough =
      let here = reads pre (next ∷ post) byte e in
      let cut : frame p ≡ (pre ++ byte ∷ []) ++ next ∷ post =
        e ∙ sym (snoc-append pre byte (next ∷ post)) in
      let grown = length-snoc pre byte in
      feed_more (length (next ∷ post)) (length pre) (half pre (t ∷ tail)) (frame p) (some dst)
        capacity (half (pre ++ byte ∷ []) tail)
        (ap (λ c. round (half pre (t ∷ tail)) c (some dst) capacity) here
          ∙ round_first pre post tail byte next t e whole)
      ∙ ap
          (λ i.
            update_stream_feed (length (next ∷ post)) i (half (pre ++ byte ∷ []) tail) (frame p)
              (some dst) capacity)
          grown
      ∙ feed_rest post (pre ++ byte ∷ []) tail next cut
          (omega (
            arith,
            whole,
            length-append pre (t ∷ tail),
            length-append (pre ++ byte ∷ []) tail,
            grown,
          ))
          (omega arith)

  -- If the wire format of a packet arrives at an empty stream, the stream gives exactly that packet: the
  -- call consumes all of its bytes and returns `ok`, the payload and the packet are those that were
  -- sent, and the stream is empty again. The payload buffer has to fit the payload.
  pub update_stream_feed-frame :
      (buffer : List ℕ)
      → length buffer ≡ 148
      → update_stream_feed
          (20 + p.payload_len)
          0
          (record { buffer = buffer; len = 0 })
          (frame p)
          (some dst)
          capacity
        ≡ (
          ok,
          record { buffer = frame p ++ drop (20 + p.payload_len) buffer; len = 0 },
          some filled,
          some delivered,
          20 + p.payload_len,
        )
  unfolding frame
  update_stream_feed-frame buffer whole =
      let count = length-frame in
      subst
        (λ n.
          update_stream_feed n 0 (record { buffer = buffer; len = 0 }) (frame p) (some dst) capacity
          ≡ (ok, emptied (drop n buffer), some filled, some delivered, 20 + p.payload_len))
        count
        (feed_rest (drop 1 (frame p)) [] buffer 0x44 refl whole
          (omega (arith, count, whole, w.short)))
