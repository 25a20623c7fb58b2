-- ===== src/Drivers/Transfer.antt =====
-- A whole transfer into the flash of the STM32F446.
use stm32_vibe.Base.{
  ℕ, ◌+◌, ◌%◌, ◌≤◌, ◌<◌, ◌≡◌, ◌⊎◌, inl, inr, refl, sym, subst, ap, ◌∙◌, AreBytes, List, [], ◌∷◌,
  get_or, length, All, arith,
}
use native.Mathlib.Decide.{dec_lt}
use stm32_vibe.Base.Bits.{bit_and-low}
use stm32_vibe.Layout.{stm32f446, app_slot_size}
use stm32_vibe.Protocol.{Packet, ok, pointee}
use stm32_vibe.Session.{Session, handle_block}
use stm32_vibe.Session.Transfer.{Extends, Repeats, handle_block_lem}
use stm32_vibe.SlotFlash.{contents, is_bad_write, boot_flash_write_slot}
use stm32_vibe.SlotFlash.Write.{whole_words, Holds}
use stm32_vibe.Storage.{Storage, FlashResult}
use stm32_vibe.Drivers.{Flash, drivers}
use stm32_vibe.Drivers.Blocks.{taken_block, read_back}

-- A block does not move the image.
handle_block-target :
    (storage : Storage) (session : Session) (packet : Packet) (d : storage.Device)
    → let s' = (handle_block stm32f446 storage session packet d).1 in
      (s'.target_slot ≡ session.target_slot)
      × (s'.expected_image_size ≡ session.expected_image_size)
unfolding handle_block
handle_block-target storage session packet d = ground arith

-- The bytes of a packet stand at their place.
abbrev pub IsStored : List ℕ → Packet → Type 0
IsStored bytes packet =
    (i : ℕ)
    → i < packet.payload_len
    → get_or bytes (packet.sequence + i) 0 ≡ get_or (pointee packet.payload) i 0

-- One of the packets has the byte at `j`.
abbrev pub Covers : ℕ → List Packet → Type 0
Covers j [] = j < 0
Covers j (packet ∷ packets) =
    ((packet.sequence ≤ j) × (j < packet.sequence + packet.payload_len)) ⊎ Covers j packets

Covers-snoc :
    (j n : ℕ) (packet : Packet) (packets : List Packet)
    → (j < n → Covers j packets)
    → packet.sequence ≤ n
    → j < packet.sequence + packet.payload_len
    → Covers j (packet ∷ packets)
Covers-snoc j n packet packets before from below = elim (dec_lt j packet.sequence) [
  | yes early ↦ inr (before (omega (arith, early, from)))
  | no late ↦ inl (omega (arith, late), below)
]

-- The bytes of an image that have been received.
pub record IsTransferred (packets : List Packet) (s : Session) (bytes : List ℕ) : Type 0 where
  pub stored : All (IsStored bytes) packets
  pub inside : All (λ (p : Packet). p.sequence + p.payload_len ≤ s.received_image_size) packets
  pub covered : (j : ℕ) → j < s.received_image_size → Covers j packets

module _ (blank : ℕ) (program : ℕ → ℕ → ℕ) where
  written-aligned :
      (slot offset : ℕ) (source : List ℕ) (len : ℕ) (d : Flash)
      → (boot_flash_write_slot program slot offset source len d.slots).0 ≡ FlashResult.ok
      → offset % 4 ≡ 0
  unfolding boot_flash_write_slot is_bad_write
  written-aligned slot offset source len d h = ground (arith, h, bit_and-low 2 offset)

  -- The session and the flash after blocks that were answered `ok`, the newest first.
  pub data Taken (session : Session) (d : Flash) : List Packet → Session → Flash → Type 0 where
    start : Taken session d [] session d
    block :
        {packets : List Packet} {s : Session} {d' : Flash} (packet : Packet)
        → Taken session d packets s d'
        → AreBytes (pointee packet.payload)
        → (handle_block stm32f446 (drivers blank program) s packet d').0 ≡ ok
        → Taken session d
            (packet ∷ packets)
            (handle_block stm32f446 (drivers blank program) s packet d').1
            (handle_block stm32f446 (drivers blank program) s packet d').2

  -- What has been received, for the slot and the size of the image.
  record IsReceived (slot size : ℕ) (packets : List Packet) (s : Session) (d : Flash) : Type 0 where
    pub target : s.target_slot ≡ slot
    pub expected : s.expected_image_size ≡ size
    pub whole : length (contents slot d.slots) ≡ app_slot_size stm32f446
    pub empty :
        (j : ℕ)
        → whole_words s.received_image_size ≤ j
        → j < size
        → get_or (contents slot d.slots) j 0 ≡ blank
    pub stored : All (IsStored (contents slot d.slots)) packets
    pub inside : All (λ (p : Packet). p.sequence + p.payload_len ≤ s.received_image_size) packets
    pub covered : (j : ℕ) → j < s.received_image_size → Covers j packets

  -- What stood before a write is kept.
  kept :
      (offset : ℕ) (source : List ℕ) (len : ℕ) (from to : List ℕ) (packets : List Packet)
      → Holds program offset 0 source len from to
      → All (λ (p : Packet). p.sequence + p.payload_len ≤ offset) packets
      → All (IsStored from) packets
      → All (IsStored to) packets
  kept offset source len from to [] v below h = tt
  kept offset source len from to (p ∷ packets) v below h = (
    λ i lt. ground (arith, v.bytes (p.sequence + i), below.0, lt, h.0 i lt),
    kept offset source len from to packets v below.1 h.1,
  )

  below_more :
      (n m : ℕ) (packets : List Packet)
      → n ≤ m
      → All (λ (p : Packet). p.sequence + p.payload_len ≤ n) packets
      → All (λ (p : Packet). p.sequence + p.payload_len ≤ m) packets
  below_more n m [] le h = tt
  below_more n m (p ∷ packets) le h = (omega (arith, le, h.0), below_more n m packets le h.1)

  -- A block that continues the image.
  extended :
      (slot size : ℕ) (packets : List Packet) (s s' : Session) (d d' : Flash) (packet : Packet)
      → ((v : ℕ) → v < 256 → program blank v ≡ v)
      → AreBytes (pointee packet.payload)
      → IsReceived slot size packets s d
      → s'.target_slot ≡ s.target_slot
      → s'.expected_image_size ≡ s.expected_image_size
      → Extends stm32f446 (drivers blank program) s packet d s' d'
      → IsReceived slot size (packet ∷ packets) s' d'
  extended slot size packets s s' d d' packet fresh bytes r same_slot same_size v =
      let n = packet.payload_len in
      let at = packet.sequence in
      let source = pointee packet.payload in
      let whole : length (contents s.target_slot d.slots) ≡ app_slot_size stm32f446 =
        subst (λ t. length (contents t d.slots) ≡ app_slot_size stm32f446) (sym r.target) r.whole in
      let taken = taken_block blank program s s' packet d d' whole v in
      let held : Holds program at 0 source n (contents slot d.slots) (contents slot d'.slots) =
        subst (λ t. Holds program at 0 source n (contents t d.slots) (contents t d'.slots)) r.target
          taken.0 in
      let aligned : at % 4 ≡ 0 =
        written-aligned s.target_slot at source n d (ap (λ o. o.0) v.stored) in
      let before : All (λ (p : Packet). p.sequence + p.payload_len ≤ at) packets =
        below_more s.received_image_size at packets (omega (arith, v.in_order)) r.inside in
      record {
        target = same_slot ∙ r.target;
        expected = same_size ∙ r.expected;
        whole = held.same_length ∙ r.whole;
        empty = λ j low high.
            let past : at + whole_words n ≤ j =
              omega (arith, low, v.counted, v.in_order, aligned) in
            let was = r.empty j (omega (arith, past, v.in_order, aligned)) high in
            ground (arith, held.bytes j, past, was);
        stored = (
          λ i lt.
              read_back blank program at source n (contents slot d.slots) (contents slot d'.slots) i
                fresh bytes held
                (r.empty (at + i) (omega (arith, v.in_order, aligned))
                  (omega (arith, lt, v.in_order, v.counted, v.within, r.expected)))
                lt,
          kept at source n (contents slot d.slots) (contents slot d'.slots) packets held before
              r.stored,
        );
        inside = (
          omega (arith, v.in_order, v.counted),
          below_more s.received_image_size s'.received_image_size packets (omega (arith, v.counted))
              r.inside,
        );
        covered = λ j lt.
            Covers-snoc j s.received_image_size packet packets (r.covered j)
              (omega (arith, v.in_order)) (omega (arith, lt, v.counted, v.in_order));
      }

  -- A block that repeats received bytes.
  repeated :
      (slot size : ℕ) (packets : List Packet) (s s' : Session) (d d' : Flash) (packet : Packet)
      → IsReceived slot size packets s d
      → Repeats stm32f446 (drivers blank program) s packet d s' d'
      → IsReceived slot size (packet ∷ packets) s' d'
  repeated slot size packets s s' d d' packet r v =
      let there : IsStored (contents slot d.slots) packet =
        subst (λ t. IsStored (contents t d.slots) packet) r.target v.equal_bytes in
      let same : IsReceived slot size (packet ∷ packets) s d = record {
        target = r.target;
        expected = r.expected;
        whole = r.whole;
        empty = r.empty;
        stored = (there, r.stored);
        inside = (v.received, r.inside);
        covered = λ j lt. inr (r.covered j lt);
      } in
      subst (λ t. IsReceived slot size (packet ∷ packets) t d') (sym v.same_session)
        (subst (λ e. IsReceived slot size (packet ∷ packets) s e) (sym v.same_device) same)

  Taken-IsReceived :
      (slot size : ℕ) {session : Session} {d : Flash} {packets : List Packet} {s : Session}
      {d' : Flash}
      → ((v : ℕ) → v < 256 → program blank v ≡ v)
      → IsReceived slot size [] session d
      → Taken session d packets s d'
      → IsReceived slot size packets s d'
  Taken-IsReceived slot size fresh r start = r
  Taken-IsReceived slot size {session = session} {d = d} fresh r
        (block {packets} {s} {d'} packet taken bytes h) =
      let out = handle_block stm32f446 (drivers blank program) s packet d' in
      let before = Taken-IsReceived slot size fresh r taken in
      let same = handle_block-target (drivers blank program) s packet d' in
      elim (handle_block_lem stm32f446 (drivers blank program) s packet d') [
        | inl went ↦ elim went.1 [
          | inl v ↦
              extended slot size packets s out.1 d' out.2 packet fresh bytes before same.0 same.1 v
          | inr v ↦ repeated slot size packets s out.1 d' out.2 packet before v
        ]
        | inr rejected ↦ absurd (rejected.0 h)
      ]

  -- On the STM32F446, however many blocks of bytes a session takes from its start on, into a slot whose
  -- part for the image is erased: after the last of them every byte of every block that was answered
  -- `ok` is read back at its place, so that no later block has changed an earlier one, and the blocks
  -- cover exactly the bytes that the session counts as received. What is programmed onto an erased byte
  -- is taken to be held by it, and the slot to be of its size.
  pub Taken-IsTransferred :
      {packets : List Packet} {session s : Session} {d d' : Flash}
      → ((v : ℕ) → v < 256 → program blank v ≡ v)
      → session.received_image_size ≡ 0
      → length (contents session.target_slot d.slots) ≡ app_slot_size stm32f446
      → ((j : ℕ)
          → j < session.expected_image_size
          → get_or (contents session.target_slot d.slots) j 0 ≡ blank)
      → Taken session d packets s d'
      → IsTransferred packets s (contents session.target_slot d'.slots)
  Taken-IsTransferred {session = session} {d = d} fresh none_yet whole empty taken =
      let started : IsReceived session.target_slot session.expected_image_size [] session d =
        record {
          target = refl;
          expected = refl;
          whole = whole;
          empty = λ j low high. empty j high;
          stored = tt;
          inside = tt;
          covered = λ j lt. absurd (omega (arith, lt, none_yet));
        } in
      let r =
        Taken-IsReceived session.target_slot session.expected_image_size fresh started taken in
      record { stored = r.stored; inside = r.inside; covered = r.covered }
