-- ===== src/Protocol/Decode.antt =====
-- `update_protocol_decode` accepts the wire format of a packet and gives the packet back.
use stm32_vibe.Base.{
  ℕ, ◌+◌, ◌/◌, ◌%◌, ◌≤◌, ◌<◌, ◌≡◌, refl, ap, sym, ◌∙◌, List, [], ◌++◌, get_or, take, drop, length,
  length-append, length-take, take-append-drop, append_assoc, get_or-append, take-append, u32_bytes,
  u32_of_bytes_lem, none, some, AreBytes, AreBytes-append, AreBytes-take, ◌==◌, if◌then◌else◌,
  arith,
}
use stm32_vibe.Crc.{update_protocol_crc32}
use stm32_vibe.Crc.Detect.{update_protocol_crc32-IsWord}
use stm32_vibe.Protocol.{
  Packet, ok, pointee, copy_bytes, read_u16_le, read_u32_le, read_packet, update_protocol_decode,
}
use stm32_vibe.Protocol.Frame.{
  IsEncodable, header_bytes, payload_bytes, body, body_crc32, frame, read_u16_le_lem,
  read_u32_le_lem,
}
use stm32_vibe.Protocol.Copy.{copy_bytes_lem, update_protocol_crc32-append}

module _ (p : Packet) (tail : List ℕ) (w : IsEncodable p) where
  abbrev input : List ℕ
  input = frame p ++ tail

  length_field : read_u16_le input 6 ≡ p.payload_len
  unfolding frame
  length_field =
      read_u16_le_lem _ 6 (p.payload_len % 256) (p.payload_len / 256 % 256) refl refl (omega arith)
      ∙ omega (arith, w.short)

  sync_field : read_u16_le input 0 ≡ 0x5544
  unfolding frame
  sync_field = read_u16_le_lem input 0 0x44 0x55 refl refl (omega arith)

  version_field : get_or input 2 0 ≡ 1
  unfolding frame
  version_field = refl

  session_field : read_u32_le input 8 ≡ p.session_id
  unfolding frame
  session_field =
      read_u32_le_lem input 8 _ _ _ _ refl refl refl refl (omega arith) (omega arith) (omega arith)
      ∙ u32_of_bytes_lem p.session_id w.session_word

  sequence_field : read_u32_le input 12 ≡ p.sequence
  unfolding frame
  sequence_field =
      read_u32_le_lem input 12 _ _ _ _ refl refl refl refl (omega arith) (omega arith) (omega arith)
      ∙ u32_of_bytes_lem p.sequence w.sequence_word

  length-payload : length (payload_bytes p) ≡ p.payload_len
  length-payload = omega (arith, length-take p.payload_len (pointee p.payload), w.payload_there)

  regroup : input ≡ body p ++ (u32_bytes (body_crc32 p) ++ tail)
  unfolding frame
  regroup =
      ap (λ k. header_bytes p ++ k) (append_assoc (payload_bytes p) (u32_bytes (body_crc32 p)) tail)

  computed_crc : update_protocol_crc32 input (16 + p.payload_len) ≡ body_crc32 p
  computed_crc =
      ap (λ k. update_protocol_crc32 k (16 + p.payload_len)) regroup
      ∙ update_protocol_crc32-append (body p) (u32_bytes (body_crc32 p) ++ tail)
          (16 + p.payload_len) (omega (arith, length-payload))

  body-AreBytes : AreBytes (body p)
  body-AreBytes =
      AreBytes-append (header_bytes p) (payload_bytes p) (omega arith)
        (AreBytes-take p.payload_len (pointee p.payload) w.payload_are_bytes)

  crc_word : body_crc32 p < 4294967296
  crc_word = update_protocol_crc32-IsWord (body p) (16 + p.payload_len) body-AreBytes

  abbrev behind : List ℕ
  behind = u32_bytes (body_crc32 p) ++ tail

  length-body : length (body p) ≡ 16 + p.payload_len
  length-body = omega (arith, length-payload)

  byte_behind : (j : ℕ) → get_or (body p ++ behind) (16 + p.payload_len + j) 0 ≡ get_or behind j 0
  byte_behind j = get_or-append (body p) behind (16 + p.payload_len) j 0 length-body

  first_behind : get_or (body p ++ behind) (16 + p.payload_len) 0 ≡ get_or behind 0 0
  first_behind = ap (λ (i : ℕ). get_or (body p ++ behind) i 0) (omega arith) ∙ byte_behind 0

  crc_field : read_u32_le input (16 + p.payload_len) ≡ body_crc32 p
  crc_field =
      ap (λ k. read_u32_le k (16 + p.payload_len)) regroup
      ∙ read_u32_le_lem (body p ++ behind) (16 + p.payload_len) (body_crc32 p % 256)
          (body_crc32 p / 256 % 256) (body_crc32 p / 65536 % 256) (body_crc32 p / 16777216 % 256)
          first_behind (byte_behind 1) (byte_behind 2) (byte_behind 3) (omega arith) (omega arith)
          (omega arith)
      ∙ u32_of_bytes_lem (body_crc32 p) crc_word

  payload_field : take p.payload_len (drop 16 input) ≡ payload_bytes p
  unfolding frame
  payload_field =
      ap (λ k. take p.payload_len k)
        (append_assoc (payload_bytes p) (u32_bytes (body_crc32 p)) tail)
      ∙ ap (λ (n : ℕ). take n (payload_bytes p ++ (u32_bytes (body_crc32 p) ++ tail)))
          (sym length-payload)
      ∙ take-append (payload_bytes p) (u32_bytes (body_crc32 p) ++ tail)

  abbrev delivered : List ℕ → Packet
  delivered filled = record p { payload = if p.payload_len == 0 then none else some filled }

  copied :
      (dst : List ℕ)
      → p.payload_len ≤ length dst
      → copy_bytes p.payload_len dst 0 input 16 ≡ payload_bytes p ++ drop p.payload_len dst
  copied dst h =
      ap (λ d. copy_bytes p.payload_len d 0 input 16) (sym (take-append-drop p.payload_len dst))
      ∙ copy_bytes_lem p.payload_len [] (take p.payload_len dst) (drop p.payload_len dst) input 16
          (omega (arith, length-take p.payload_len dst))
          (omega (arith, length-body, ap length regroup, length-append {0} (body p) behind))
      ∙ ap (λ k. k ++ drop p.payload_len dst) payload_field

  read_packet_lem :
      (dst : List ℕ)
      → p.payload_len ≤ length dst
      → let filled = payload_bytes p ++ drop p.payload_len dst in
        read_packet input p.payload_len (some dst) ≡ (ok, some filled, some (delivered filled))
  unfolding read_packet frame
  read_packet_lem dst h = rw (copied dst h, session_field, sequence_field)

-- A buffer that starts with the wire format of a packet is decoded, given the length of that format, a
-- payload buffer and a capacity that the payload fits: the call returns `ok`, every field of the
-- packet is restored, and the payload buffer starts with the payload and keeps its other bytes.
pub update_protocol_decode-frame :
    (p : Packet) (tail dst : List ℕ) (capacity : ℕ)
    → IsEncodable p
    → p.payload_len ≤ capacity
    → capacity ≤ length dst
    → let filled = payload_bytes p ++ drop p.payload_len dst in
      update_protocol_decode (frame p ++ tail) (20 + p.payload_len) (some dst) capacity ≡ (
        ok,
        some filled,
        some (record p { payload = if p.payload_len == 0 then none else some filled }),
      )
unfolding update_protocol_decode
update_protocol_decode-frame p tail dst capacity w fits long = ground (
  arith,
  w.short,
  length_field p tail w,
  sync_field p tail w,
  version_field p tail w,
  computed_crc p tail w,
  crc_field p tail w,
  read_packet_lem p tail w dst (omega arith),
)
