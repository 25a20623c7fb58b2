-- ===== src/Session/Transfer.antt =====
-- What a block packet does: it extends the image by exactly its bytes, or confirms bytes that are
-- already in flash, or is refused.
use stm32_vibe.Base.{
  ℕ, zero, suc, ◌+◌, ◌≤◌, ◌<◌, ◌≡◌, ◌≢◌, ◌⊎◌, inl, inr, ap, ◌∙◌, true, List, get_or, arith,
}
use stm32_vibe.Layout.{Board}
use stm32_vibe.Protocol.{Packet, ok, pointee}
use stm32_vibe.Storage.{FlashResult, Storage}
use stm32_vibe.Session.{Session, bytes_match, handle_block}

bytes_match_sound :
    (n : ℕ) (target : List ℕ) (at : ℕ) (payload : List ℕ) (index i : ℕ)
    → bytes_match n target at payload index ≡ true
    → i < n
    → get_or target (at + i) 0 ≡ get_or payload (index + i) 0
unfolding bytes_match
bytes_match_sound zero target at payload index i h lt = absurd (omega arith)
bytes_match_sound (suc n) target at payload index zero h lt =
    let e : at + 0 ≡ at = omega arith in
    let e' : index + 0 ≡ index = omega arith in rw (e, e') (ground arith)
bytes_match_sound (suc n) target at payload index (suc i) h lt =
    let e : at + suc i ≡ at + 1 + i = omega arith in
    let e' : index + suc i ≡ index + 1 + i = omega arith in
    let later : bytes_match n target (at + 1) payload (index + 1) ≡ true = ground arith in
    rw (e, e') (bytes_match_sound n target (at + 1) payload (index + 1) i later (omega arith))

module _ (b : Board) (storage : Storage) where
  open storage use {Device, write_slot, slot_bytes}

  -- The block continues the image: the driver stored its bytes behind those received before.
  pub record Extends (session : Session) (packet : Packet) (d : Device) (session' : Session)
      (d' : Device) : Type 0 where
    pub in_order : packet.sequence ≡ session.received_image_size
    pub stored :
        write_slot session.target_slot packet.sequence (pointee packet.payload) packet.payload_len d
        ≡ (FlashResult.ok, d')
    pub counted : session'.received_image_size ≡ session.received_image_size + packet.payload_len
    pub within : session'.received_image_size ≤ session.expected_image_size

  -- The block repeats received bytes: nothing changes, and the flash holds what the block says.
  pub record Repeats (session : Session) (packet : Packet) (d : Device) (session' : Session)
      (d' : Device) : Type 0 where
    pub same_session : session' ≡ session
    pub same_device : d' ≡ d
    pub received : packet.sequence + packet.payload_len ≤ session.received_image_size
    pub equal_bytes :
        (i : ℕ)
        → i < packet.payload_len
        → get_or (slot_bytes session.target_slot d) (packet.sequence + i) 0
          ≡ get_or (pointee packet.payload) i 0

  block_matches :
      (session : Session) (packet : Packet) (d : Device)
      → bytes_match packet.payload_len
          (slot_bytes session.target_slot d)
          packet.sequence
          (pointee packet.payload)
          0
        ≡ true
      → (i : ℕ) → i < packet.payload_len
      → get_or (slot_bytes session.target_slot d) (packet.sequence + i) 0
        ≡ get_or (pointee packet.payload) i 0
  block_matches session packet d h i lt =
      bytes_match_sound packet.payload_len (slot_bytes session.target_slot d) packet.sequence
        (pointee packet.payload) 0 i h lt
      ∙ ap (λ (k : ℕ). get_or (pointee packet.payload) k 0) (omega arith)

  handle_block_cases :
      (session : Session) (packet : Packet) (d : Device)
      → let r = handle_block b storage session packet d in
        ((r.0 ≡ ok) × Extends session packet d r.1 r.2)
        ⊎ ((r.0 ≡ ok)
            × (r.1 ≡ session)
            × (r.2 ≡ d)
            × (packet.sequence + packet.payload_len ≤ session.received_image_size)
            × (bytes_match packet.payload_len
                  (slot_bytes session.target_slot d)
                  packet.sequence
                  (pointee packet.payload)
                  0
                ≡ true))
        ⊎ ((r.0 ≢ ok) × (r.1 ≡ session))
  unfolding handle_block
  handle_block_cases session packet d = ground arith

  -- A block is answered `ok` only if it extends the image in order and within the announced size, or
  -- repeats received bytes that the flash already holds; any other answer leaves the session alone.
  pub handle_block_lem :
      (session : Session) (packet : Packet) (d : Device)
      → let (status, session', d') = handle_block b storage session packet d in
        ((status ≡ ok)
          × (Extends session packet d session' d' ⊎ Repeats session packet d session' d'))
        ⊎ ((status ≢ ok) × (session' ≡ session))
  handle_block_lem session packet d = elim (handle_block_cases session packet d) [
    | inl e ↦ inl (e.0, inl e.1)
    | inr (inl e) ↦ inl (
      e.0,
      inr record {
        same_session = e.1;
        same_device = e.2;
        received = e.3;
        equal_bytes = block_matches session packet d e.4;
      },
    )
    | inr (inr e) ↦ inr e
  ]
