-- ===== src/Tests/Can.antt =====
-- Frames of a packet over CAN.
use stm32_vibe.Base.{refl, [], ◌∷◌, arith, List, ℕ, some, ◌≡◌}
use stm32_vibe.Protocol.{max_packet_size}
use stm32_vibe.Can.{
  CanFrame, Fragmenter, update_can_fragmenter_init, update_can_reassembly_init,
  update_can_reassembly_feed,
}
use stm32_vibe.Can.Bounds.{IsFed, update_can_reassembly_feed-IsFed}
use stm32_vibe.Can.Deliver.{fragments, feed_all, IsReceived, feed_all-fragments}

-- The first frame of a packet of twenty bytes.
abbrev first_frame : CanFrame
first_frame = record { id = 0x601; dlc = 8; bytes = 0x80 ∷ 20 ∷ 0 ∷ 0x44 ∷ 0x55 ∷ 1 ∷ 1 ∷ 0 ∷ [] }

update_can_reassembly_feed-IsFed_example :
    IsFed (update_can_reassembly_feed update_can_reassembly_init first_frame 0x601)
update_can_reassembly_feed-IsFed_example =
    update_can_reassembly_feed-IsFed update_can_reassembly_init first_frame 0x601
      (record { whole = refl; room = λ h. absurd (ground arith) })

abbrev twenty_two : List ℕ
twenty_two =
    1 ∷ 2 ∷ 3 ∷ 4 ∷ 5 ∷ 6 ∷ 7 ∷ 8 ∷ 9 ∷ 10 ∷ 11 ∷ 12 ∷ 13 ∷ 14 ∷ 15 ∷ 16 ∷ 17 ∷ 18 ∷ 19 ∷ 20 ∷ 21
    ∷ 22 ∷ []

abbrev splitting : Fragmenter
splitting = record {
  packet = twenty_two;
  packet_len = 22;
  offset = 0;
  can_id = 0x601;
  fragment_index = 0;
}

splits : update_can_fragmenter_init 0x601 twenty_two 22 ≡ some splitting
unfolding update_can_fragmenter_init
splits = refl

feed_all-fragments_example :
    IsReceived twenty_two 22
      (feed_all (fragments max_packet_size splitting) update_can_reassembly_init 0x601)
feed_all-fragments_example =
    feed_all-fragments 0x601 twenty_two 22 splitting update_can_reassembly_init refl splits
