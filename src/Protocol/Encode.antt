-- ===== src/Protocol/Encode.antt =====
-- `update_protocol_encode` writes the wire format of its packet, and refuses what does not fit.
use stm32_vibe.Base.{
  ℕ, ◌+◌, ◌/◌, ◌^◌, ◌≤◌, ◌≡◌, refl, ap, sym, ◌∙◌, ◌≢◌, ◌↔◌, ◌⊎◌, List, ◌∷◌, ◌++◌, set, take, drop,
  length, length-take, length-drop, take-append-drop, append_assoc, set-append, drop-drop,
  u32_bytes, none, u8, arith,
}
use stm32_vibe.Crc.{update_protocol_crc32}
use stm32_vibe.Protocol.{
  Packet, ok, pointee, copy_bytes, write_header, write_u32_le, write_packet, update_protocol_encode,
}
use stm32_vibe.Protocol.Frame.{IsEncodable, header_bytes, payload_bytes, body, body_crc32, frame}
use stm32_vibe.Protocol.Copy.{copy_bytes_lem, update_protocol_crc32-append}

write_header_lem :
    (output : List ℕ) (p : Packet)
    → 16 ≤ length output
    → write_header output p ≡ header_bytes p ++ drop 16 output
unfolding write_header
write_header_lem (a ∷ b ∷ c ∷ d ∷ e ∷ f ∷ g ∷ h ∷ i ∷ j ∷ k ∷ l ∷ m ∷ n ∷ o ∷ q ∷ rest) p le = refl
write_header_lem _ p le = absurd (omega arith)

write_u32_le-start :
    (ys : List ℕ) (v : ℕ) → 4 ≤ length ys → write_u32_le ys 0 v ≡ u32_bytes v ++ drop 4 ys
write_u32_le-start (a ∷ b ∷ c ∷ d ∷ rest) v h = refl
write_u32_le-start _ v h = absurd (omega arith)

-- A word written behind a prefix.
write_u32_le-append :
    (xs ys : List ℕ) (i v : ℕ)
    → i ≡ length xs
    → write_u32_le (xs ++ ys) i v ≡ xs ++ write_u32_le ys 0 v
write_u32_le-append xs ys i v e = rw (
  set-append xs ys i 0 (u8 v) (omega arith),
  set-append xs (set ys 0 (u8 v)) (i + 1) 1 (u8 (v / 2 ^ 8)) (omega arith),
  set-append xs (set (set ys 0 (u8 v)) 1 (u8 (v / 2 ^ 8))) (i + 2) 2 (u8 (v / 2 ^ 16))
      (omega arith),
  set-append xs (set (set (set ys 0 (u8 v)) 1 (u8 (v / 2 ^ 8))) 2 (u8 (v / 2 ^ 16))) (i + 3) 3
      (u8 (v / 2 ^ 24)) (omega arith),
)

module _ (p : Packet) (output : List ℕ) (w : IsEncodable p)
    (room : 20 + p.payload_len ≤ length output) where
  abbrev rest : List ℕ
  rest = drop p.payload_len (drop 16 output)

  length-payload : length (payload_bytes p) ≡ p.payload_len
  length-payload = omega (arith, length-take p.payload_len (pointee p.payload), w.payload_there)

  filled :
      copy_bytes p.payload_len (write_header output p) 16 (pointee p.payload) 0
      ≡ header_bytes p ++ (payload_bytes p ++ rest)
  filled =
      ap (λ o. copy_bytes p.payload_len o 16 (pointee p.payload) 0)
        (write_header_lem output p (omega arith)
          ∙ ap (λ o. header_bytes p ++ o) (sym (take-append-drop p.payload_len (drop 16 output))))
      ∙ copy_bytes_lem p.payload_len (header_bytes p) (take p.payload_len (drop 16 output)) rest
          (pointee p.payload) 0
          (omega (arith, length-take p.payload_len (drop 16 output), length-drop 16 output))
          (omega (arith, w.payload_there))

  length-rest : 4 ≤ length rest
  length-rest = omega (arith, length-drop p.payload_len (drop 16 output), length-drop 16 output)

  checksum :
      update_protocol_crc32 (header_bytes p ++ (payload_bytes p ++ rest)) (16 + p.payload_len)
      ≡ body_crc32 p
  checksum =
      update_protocol_crc32-append (body p) rest (16 + p.payload_len)
        (omega (arith, length-payload))

  after : drop 4 rest ≡ drop (20 + p.payload_len) output
  after =
      drop-drop 4 p.payload_len (drop 16 output)
      ∙ drop-drop (p.payload_len + 4) 16 output
      ∙ ap (λ (k : ℕ). drop k output) (omega arith)

  sealed :
      write_u32_le (header_bytes p ++ (payload_bytes p ++ rest)) (16 + p.payload_len) (body_crc32 p)
      ≡ frame p ++ drop (20 + p.payload_len) output
  unfolding frame
  sealed =
      write_u32_le-append (body p) rest (16 + p.payload_len) (body_crc32 p)
        (omega (arith, length-payload))
      ∙ ap (λ k. body p ++ k)
          (write_u32_le-start rest (body_crc32 p) length-rest
            ∙ ap (λ k. u32_bytes (body_crc32 p) ++ k) after)
      ∙ ap (λ k. header_bytes p ++ k)
          (sym (
            append_assoc (payload_bytes p) (u32_bytes (body_crc32 p))
              (drop (20 + p.payload_len) output)))

  write_packet-frame :
      write_packet p output ≡ (ok, frame p ++ drop (20 + p.payload_len) output, 20 + p.payload_len)
  unfolding write_packet
  write_packet-frame =
      rw (filled, checksum, sealed)
        (ap (λ (k : ℕ). (ok, frame p ++ drop (20 + p.payload_len) output, k)) (omega arith))

write_packet-status : (p : Packet) (output : List ℕ) → (write_packet p output).0 ≡ ok
unfolding write_packet
write_packet-status p output = refl

null_is_empty : (p : Packet) → IsEncodable p → p.payload ≡ none → p.payload_len ≡ 0
null_is_empty p w e = omega (arith, w.payload_there, ap (λ o. length (pointee o)) e)

-- A packet that the wire format can carry is encoded into any buffer that its capacity and length
-- leave room in: the buffer then starts with the packet's wire format and keeps its other bytes, and
-- the length that is returned is that of the wire format.
pub update_protocol_encode-frame :
    (p : Packet) (output : List ℕ) (capacity output_len : ℕ)
    → IsEncodable p
    → 20 + p.payload_len ≤ capacity
    → capacity ≤ length output
    → update_protocol_encode p output capacity output_len
      ≡ (ok, frame p ++ drop (20 + p.payload_len) output, 20 + p.payload_len)
unfolding update_protocol_encode
update_protocol_encode-frame p output capacity output_len w fits long =
    ground (arith, null_is_empty p w, write_packet-frame p output w (omega arith))

-- Whatever the arguments, a call that does not return `ok` leaves the buffer and the length alone, and
-- it returns `ok` exactly if the payload is not a missing one, is not too long, and the packet fits
-- the capacity.
update_protocol_encode-ok_iff :
    (p : Packet) (output : List ℕ) (capacity output_len : ℕ)
    → let out = update_protocol_encode p output capacity output_len in
      ((out.0 ≡ ok) ↔ (
        ((p.payload_len ≡ 0) ⊎ (p.payload ≢ none))
        × (p.payload_len ≤ 128)
        × (20 + p.payload_len ≤ capacity)))
      × ((out.0 ≡ ok) ⊎ ((out.1 ≡ output) × (out.2 ≡ output_len)))
unfolding update_protocol_encode
update_protocol_encode-ok_iff p output capacity output_len =
    ground (arith, write_packet-status p output)
