-- ===== src/Tests/Protocol.antt =====
-- A packet of three bytes of payload, through the encoder and the decoder.
use stm32_vibe.Base.{
  ℕ, ◌≡◌, refl, if◌then◌else◌, ◌==◌, List, [], ◌∷◌, ◌++◌, replicate, drop, none, some, arith,
}
use stm32_vibe.Crc.{update_protocol_crc32, crc32_loop, crc32_update}
use stm32_vibe.Protocol.{
  Packet, ok, update_protocol_encode, update_protocol_decode, read_packet, read_u16_le, read_u32_le,
}
use stm32_vibe.Protocol.Frame.{IsEncodable, payload_bytes}
use stm32_vibe.Protocol.RoundTrip.{decode-encode, update_protocol_decode_detects}

abbrev pub block : Packet
block = record {
  command = 4;
  flags = 0;
  payload_len = 3;
  session_id = 0x1122;
  sequence = 128;
  payload = some (10 ∷ 20 ∷ 255 ∷ []);
}

abbrev pub room : List ℕ
room = replicate 148 0

pub IsEncodable-block : IsEncodable block
IsEncodable-block = record {
  command_byte = omega arith;
  flags_byte = omega arith;
  short = omega arith;
  session_word = omega arith;
  sequence_word = omega arith;
  payload_there = omega arith;
  payload_are_bytes = ground arith;
}

decode-encode_example :
    let (status, written, len) = update_protocol_encode block room 148 0 in
    let filled = payload_bytes block ++ drop 3 room in
    (status ≡ ok)
    × (update_protocol_decode written len (some room) 128 ≡ (
      ok,
      some filled,
      some (record block { payload = if block.payload_len == 0 then none else some filled }),
    ))
decode-encode_example =
    decode-encode block room room 148 0 128 IsEncodable-block (omega arith) (omega arith)
      (omega arith) (omega arith)

-- The wire format of `block` after its first byte.
abbrev pub rest : List ℕ
rest =
    85 ∷ 1 ∷ 4 ∷ 0 ∷ 0 ∷ 3 ∷ 0 ∷ 34 ∷ 17 ∷ 0 ∷ 0 ∷ 128 ∷ 0 ∷ 0 ∷ 0 ∷ 10 ∷ 20 ∷ 255 ∷ 12 ∷ 5 ∷ 80
    ∷ 112 ∷ []

update_protocol_decode_detects_example : ◌≡◌ {A = ℕ} 0x44 0x44
unfolding update_protocol_decode update_protocol_crc32 crc32_loop crc32_update read_u16_le
    read_u32_le read_packet
update_protocol_decode_detects_example =
    update_protocol_decode_detects [] rest 0x44 0x44 23 (some room) 128 (ground arith) (omega arith)
      (omega arith) (ground arith) (omega arith) refl refl
