-- ===== src/Drivers/Blocks.antt =====
-- The blocks of an update in the flash of the STM32F446.
use stm32_vibe.Base.{
  ℕ, ◌+◌, ◌-◌, ◌≤◌, ◌<◌, ◌≡◌, inl, inr, sym, subst, ap, ◌∙◌, AreBytes, get_or-lt, List, get_or,
  length, arith,
}
use stm32_vibe.Layout.{stm32f446, app_slot_size}
use stm32_vibe.Protocol.{Packet, ok, pointee}
use stm32_vibe.Session.{Session, handle_block}
use stm32_vibe.Session.Transfer.{Extends, handle_block_lem}
use stm32_vibe.SlotFlash.{contents, boot_flash_write_slot}
use stm32_vibe.SlotFlash.Store.{padded}
use stm32_vibe.SlotFlash.Write.{whole_words, other, Holds, boot_flash_write_slot-Holds}
use stm32_vibe.Storage.{FlashResult}
use stm32_vibe.Drivers.{Flash, drivers}

module _ (blank : ℕ) (program : ℕ → ℕ → ℕ) where
  -- What the flash holds after a block was taken: the block, behind what was there.
  pub taken_block :
      (session session' : Session) (packet : Packet) (d d' : Flash)
      → length (contents session.target_slot d.slots) ≡ app_slot_size stm32f446
      → Extends stm32f446 (drivers blank program) session packet d session' d'
      → Holds program packet.sequence 0
          (pointee packet.payload)
          packet.payload_len
          (contents session.target_slot d.slots)
          (contents session.target_slot d'.slots)
        × (other session.target_slot d'.slots ≡ other session.target_slot d.slots)
        × (d'.copies ≡ d.copies)
  taken_block session session' packet d d' whole v =
      let slot = session.target_slot in
      let bytes = pointee packet.payload in
      let out =
        boot_flash_write_slot program slot packet.sequence bytes packet.payload_len d.slots in
      let went : out.0 ≡ FlashResult.ok = ap (λ r. r.0) v.stored in
      let same : out.1 ≡ d'.slots = ap (λ r. r.1.slots) v.stored in
      let held =
        boot_flash_write_slot-Holds program slot packet.sequence bytes packet.payload_len d.slots
          whole in
      (
        subst
            (λ s.
              Holds program packet.sequence 0 bytes packet.payload_len (contents slot d.slots)
                (contents slot s))
            same (held.2 went),
        ap (λ s. other slot s) (sym same) ∙ held.1,
        ap (λ r. r.1.copies) (sym v.stored),
      )

  -- A byte that was written where the flash was erased.
  pub read_back :
      (offset : ℕ) (source : List ℕ) (len : ℕ) (from to : List ℕ) (i : ℕ)
      → ((v : ℕ) → v < 256 → program blank v ≡ v)
      → AreBytes source
      → Holds program offset 0 source len from to
      → get_or from (offset + i) 0 ≡ blank
      → i < len
      → get_or to (offset + i) 0 ≡ get_or source i 0
  read_back offset source len from to i fresh bytes v empty lt =
      let place : offset + i - offset ≡ i = omega arith in
      let fits : len ≤ whole_words len = omega arith in
      let value : padded source len (offset + i - offset) ≡ get_or source i 0 =
        ap (λ j. padded source len j) place ∙ ground (arith, lt) in
      let here : program (get_or from (offset + i) 0) (padded source len (offset + i - offset))
          ≡ get_or source i 0 =
        ap (λ c. program c (padded source len (offset + i - offset))) empty
        ∙ ap (λ c. program blank c) value
        ∙ fresh (get_or source i 0) (get_or-lt source i bytes) in
      ground (arith, v.bytes (offset + i), fits, here)

  extended_back :
      (session session' : Session) (packet : Packet) (d d' : Flash) (i : ℕ)
      → ((v : ℕ) → v < 256 → program blank v ≡ v)
      → AreBytes (pointee packet.payload)
      → length (contents session.target_slot d.slots) ≡ app_slot_size stm32f446
      → ((j : ℕ)
          → session.received_image_size ≤ j
          → j < session.expected_image_size
          → get_or (contents session.target_slot d.slots) j 0 ≡ blank)
      → Extends stm32f446 (drivers blank program) session packet d session' d'
      → i < packet.payload_len
      → get_or (contents session.target_slot d'.slots) (packet.sequence + i) 0
        ≡ get_or (pointee packet.payload) i 0
  extended_back session session' packet d d' i fresh bytes whole empty v lt =
      read_back packet.sequence (pointee packet.payload) packet.payload_len
        (contents session.target_slot d.slots) (contents session.target_slot d'.slots) i fresh bytes
        (taken_block session session' packet d d' whole v).0
        (empty (packet.sequence + i) (omega (arith, v.in_order))
          (omega (arith, v.in_order, v.counted, v.within)))
        lt

  -- On the STM32F446, if the part of the target slot that the image is still to fill is erased, then a
  -- block that is answered `ok` is in the flash: each of its bytes is read back at its place. What is
  -- programmed onto an erased byte is taken to be held by it, and the slot to be of its size.
  handle_block-flash :
      (session : Session) (packet : Packet) (d : Flash) (i : ℕ)
      → ((v : ℕ) → v < 256 → program blank v ≡ v)
      → AreBytes (pointee packet.payload)
      → length (contents session.target_slot d.slots) ≡ app_slot_size stm32f446
      → ((j : ℕ)
          → session.received_image_size ≤ j
          → j < session.expected_image_size
          → get_or (contents session.target_slot d.slots) j 0 ≡ blank)
      → i < packet.payload_len
      → let out = handle_block stm32f446 (drivers blank program) session packet d in
        out.0 ≡ ok
        → get_or (contents session.target_slot out.2.slots) (packet.sequence + i) 0
          ≡ get_or (pointee packet.payload) i 0
  handle_block-flash session packet d i fresh bytes whole empty lt h =
      let out = handle_block stm32f446 (drivers blank program) session packet d in
      elim (handle_block_lem stm32f446 (drivers blank program) session packet d) [
        | inl taken ↦ elim taken.1 [
          | inl v ↦ extended_back session out.1 packet d out.2 i fresh bytes whole empty v lt
          | inr v ↦
              ap (λ s. get_or (contents session.target_slot s.slots) (packet.sequence + i) 0)
                v.same_device
              ∙ v.equal_bytes i lt
        ]
        | inr rejected ↦ absurd (rejected.0 h)
      ]
