-- ===== src/Can/Deliver.antt =====
-- A packet that is split into frames is put together again from them (shared/update/update_can.c).
use stm32_vibe.Base.{
  ℕ, zero, suc, ◌+◌, ◌-◌, ◌*◌, ◌≤◌, ◌<◌, ◌≡◌, refl, subst, true, false, List, [], ◌∷◌, get_or,
  length, u8, none, some, arith,
}
use native.Mathlib.Decide.{dec_lt}
use stm32_vibe.Protocol.{max_packet_size}
use stm32_vibe.Can.{
  CanFrame, Reassembly, FeedResult, pending, complete, error, update_can_reassembly_feed,
  Fragmenter, update_can_fragmenter_next, update_can_fragmenter_init,
}
use stm32_vibe.Can.Frames.{sending, chunk, later_frame, next-later, Holds, Took, feed-later}
use stm32_vibe.Can.First.{first_frame, next-first, feed-first}

-- The frames that `update_can_fragmenter_next` gives, one after another.
unfoldable pub fragments : ℕ → Fragmenter → List CanFrame
fragments zero f = []
fragments (suc n) f = elim (update_can_fragmenter_next f) [
  | none ↦ []
  | some (frame, f') ↦ frame ∷ fragments n f'
]

-- Frames are fed until one completes a packet or is refused; the rest is left.
unfoldable pub feed_all : List CanFrame → Reassembly → ℕ → FeedResult × Reassembly × List CanFrame
feed_all [] r can_id = (pending, r, [])
feed_all (frame ∷ frames) r can_id =
    let (result, r') = update_can_reassembly_feed r frame can_id in
    elim result [
      | pending ↦ feed_all frames r' can_id
      | complete ↦ (complete, r', frames)
      | error ↦ (error, r', frames)
    ]

pub fragments-some :
    (n : ℕ) (f f' : Fragmenter) (frame : CanFrame)
    → update_can_fragmenter_next f ≡ some (frame, f')
    → fragments (suc n) f ≡ frame ∷ fragments n f'
unfolding fragments
fragments-some n f f' frame h = ground (arith, h)

pub fragments-none :
    (n : ℕ) (f : Fragmenter) → update_can_fragmenter_next f ≡ none → fragments n f ≡ []
unfolding fragments
fragments-none zero f h = refl
fragments-none (suc n) f h = ground (arith, h)

feed_all-pending :
    (frame : CanFrame) (frames : List CanFrame) (r : Reassembly) (can_id : ℕ)
    → (update_can_reassembly_feed r frame can_id).0 ≡ pending
    → feed_all (frame ∷ frames) r can_id
      ≡ feed_all frames (update_can_reassembly_feed r frame can_id).1 can_id
unfolding feed_all
feed_all-pending frame frames r can_id h = ground (arith, h)

feed_all-complete :
    (frame : CanFrame) (frames : List CanFrame) (r : Reassembly) (can_id : ℕ)
    → (update_can_reassembly_feed r frame can_id).0 ≡ complete
    → feed_all (frame ∷ frames) r can_id
      ≡ (complete, (update_can_reassembly_feed r frame can_id).1, frames)
unfolding feed_all
feed_all-complete frame frames r can_id h = ground (arith, h)

-- The outcome of feeding all frames of a packet: it is complete with the last of them, it has the
-- packet's length and bytes, and the reassembly is idle.
pub record IsReceived (packet : List ℕ) (len : ℕ) (out : FeedResult × Reassembly × List CanFrame)
    : Type 0 where
  pub completed : out.0 ≡ complete
  pub used_up : out.2 ≡ []
  pub idle : out.1.active ≡ false
  pub packet_len : out.1.received_len ≡ len
  pub same : (i : ℕ) → i < len → get_or out.1.packet i 0 ≡ get_or packet i 0

module _ (packet : List ℕ) (len can_id : ℕ) (small : 20 ≤ len) (fits : len ≤ 148) where
  abbrev at : ℕ → ℕ → Fragmenter
  at = sending packet len can_id small fits

  no_more : (k : ℕ) → update_can_fragmenter_next (at len k) ≡ none
  unfolding update_can_fragmenter_next
  no_more k = ground arith

  feed_last :
      (n : ℕ) (r : Reassembly) (frame : CanFrame) (k k' : ℕ)
      → Took packet len can_id small fits len k (update_can_reassembly_feed r frame can_id)
      → IsReceived packet len (feed_all (frame ∷ fragments n (at len k')) r can_id)
  feed_last n r frame k k' t = rw (fragments-none n (at len k') (no_more k')) (
      rw (feed_all-complete frame [] r can_id (ground (arith, t.result))) record {
        completed = refl;
        used_up = refl;
        idle = ground (arith, t.on);
        packet_len = t.held.received;
        same = t.held.same;
      })

  -- The frames after `offset` bytes, of which `k` have been sent.
  feed_rest :
      (n : ℕ) (r : Reassembly) (offset k : ℕ)
      → Holds packet len can_id small fits offset k r
      → r.active ≡ true
      → offset < len
      → offset + 2 ≡ 7 * k
      → len - offset ≤ n
      → IsReceived packet len (feed_all (fragments n (at offset k)) r can_id)
  feed_rest zero r offset k v on below aligned enough = absurd (omega arith)
  feed_rest (suc n) r offset k v on below aligned enough =
      let upto = offset + chunk packet len can_id small fits offset in
      let frame = later_frame packet len can_id small fits offset k in
      let next = next-later packet len can_id small fits offset k (omega arith) below in
      let fed = feed-later packet len can_id small fits r offset k v on below (omega arith) in
      let same = fragments-some n (at offset k) (at upto (u8 (k + 1))) frame next in
      let index : u8 (k + 1) ≡ k + 1 = omega arith in
      elim (dec_lt upto len) [
        | yes less ↦
            let full : upto ≡ offset + 7 = ground arith in
            let rest =
              feed_rest n (update_can_reassembly_feed r frame can_id).1 upto (k + 1) fed.held
                (ground (arith, fed.on)) less (omega (arith, full, aligned))
                (omega (arith, full, enough)) in
            rw
              (
                same,
                index,
                feed_all-pending frame (fragments n (at upto (k + 1))) r can_id
                    (ground (arith, fed.result)),
              )
              rest
        | no done ↦
            let all : upto ≡ len = ground arith in
            rw (same, all)
              (feed_last n r frame (k + 1) (u8 (k + 1)) (
                subst
                  (λ i.
                    Took packet len can_id small fits i (k + 1)
                      (update_can_reassembly_feed r frame can_id))
                  all fed))
      ]

  feed_first :
      (n : ℕ) (r : Reassembly)
      → length r.packet ≡ 148
      → len ≤ n + 5
      → IsReceived packet len (feed_all (fragments (suc n) (at 0 0)) r can_id)
  feed_first n r whole enough =
      let frame = first_frame packet len can_id small fits in
      let fed = feed-first packet len can_id small fits r whole in
      let same =
        fragments-some n (at 0 0) (at 5 1) frame (next-first packet len can_id small fits) in
      let rest =
        feed_rest n (update_can_reassembly_feed r frame can_id).1 5 1 fed.held
          (ground (arith, fed.on)) (omega arith) refl (omega arith) in
      rw (same, feed_all-pending frame (fragments n (at 5 1)) r can_id (ground (arith, fed.result)))
        rest

-- What the fragmenter starts with.
abbrev fresh : ℕ → List ℕ → ℕ → Fragmenter
fresh can_id packet len = record {
  packet = packet;
  packet_len = len;
  offset = 0;
  can_id = can_id;
  fragment_index = 0;
}

init_starts :
    (can_id : ℕ) (packet : List ℕ) (len : ℕ) (f : Fragmenter)
    → update_can_fragmenter_init can_id packet len ≡ some f
    → (20 ≤ len) × (len ≤ 148) × (fresh can_id packet len ≡ f)
unfolding update_can_fragmenter_init
init_starts can_id packet len f h = ground (arith, h)

-- The frames of a packet that the fragmenter accepts, in the at most 148 rounds of the senders' loop, are
-- put together to this packet, whatever the reassembly held before: all frames but the last leave it
-- pending, the last one completes it and none is left over, and the reassembly is idle again and has
-- the packet's length and bytes.
pub feed_all-fragments :
    (can_id : ℕ) (packet : List ℕ) (len : ℕ) (f : Fragmenter) (r : Reassembly)
    → length r.packet ≡ 148
    → update_can_fragmenter_init can_id packet len ≡ some f
    → IsReceived packet len (feed_all (fragments max_packet_size f) r can_id)
feed_all-fragments can_id packet len f r whole started =
    let s = init_starts can_id packet len f started in
    subst (λ g. IsReceived packet len (feed_all (fragments max_packet_size g) r can_id)) s.2
      (feed_first packet len can_id s.0 s.1 147 r whole (omega (arith, s.1)))
