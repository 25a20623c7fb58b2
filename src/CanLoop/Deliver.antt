-- ===== src/CanLoop/Deliver.antt =====
-- An answer over CAN arrives at the other end (bootloader/src/update_can_loop.c,
-- shared/hal_impl/stm32f4/can.c, shared/update/update_can.c).
use stm32_vibe.Base.{
  ℕ, zero, suc, ◌≤◌, ◌<◌, ◌≡◌, ◌⊎◌, inl, inr, refl, ap, ap₂, sym, subst, ◌∙◌, if◌then◌else◌, true,
  false, List, [], ◌∷◌, ◌++◌, length, All, AreBytes, append_nil, append_assoc, none, some,
  Option-cases, arith,
}
use mathlib.Core.List.{map}
use stm32_vibe.Can.{
  CanFrame, Reassembly, Fragmenter, update_can_fragmenter_next, update_can_fragmenter_init,
  update_can_response_id,
}
use stm32_vibe.Can.Deliver.{
  fragments, feed_all, fragments-some, fragments-none, IsReceived, feed_all-fragments,
}
use stm32_vibe.CanBus.{Mail, BusState, CanBus, ok, tx_full, mail_of_frame, frame_of_mail, can_send}
use stm32_vibe.CanBus.Deliver.{IsFrame, frame_of_mail-mail_of_frame}
use stm32_vibe.CanLoop.{send_frame_wait, send_fragments, send_ack}
use stm32_vibe.CanLoop.Bytes.{next-IsFrame}

-- How often the driver is going to find no mailbox free.
abbrev pub fulls : List BusState → ℕ
fulls [] = 0
fulls (s ∷ states) = if s.free then fulls states else suc (fulls states)

-- The bus is never found off.
abbrev pub IsOn : BusState → Type 0
IsOn s = s.off ≡ false

-- The bus after more messages have been sent.
record IsSent (can can' : CanBus) (mails : List Mail) : Type 0 where
  pub sent : can'.sent ≡ can.sent ++ mails
  pub initialized : can'.initialized ≡ true
  pub on : All IsOn can'.states
  pub fewer : fulls can'.states ≤ fulls can.states

-- A frame is sent, or the mailboxes are full and nothing else has changed.
can_send_cases :
    (frame : CanFrame) (can : CanBus) (states : List BusState)
    → IsFrame frame
    → can.initialized ≡ true
    → can.states ≡ states
    → All IsOn states
    → (((can_send frame can).0 ≡ ok) × IsSent can (can_send frame can).1 (mail_of_frame frame ∷ []))
      ⊎ (((can_send frame can).0 ≡ tx_full)
          × ((can_send frame can).1.sent ≡ can.sent)
          × ((can_send frame can).1.initialized ≡ true)
          × All IsOn (can_send frame can).1.states
          × (suc (fulls (can_send frame can).1.states) ≡ fulls can.states))
unfolding can_send
can_send_cases frame can [] v ready e on = ground (arith, v.standard, v.fits, ready, e, IsSent)
can_send_cases frame can (s ∷ states) v ready e on =
    ground (arith, v.standard, v.fits, ready, e, on, IsSent)

send_free :
    (n : ℕ) (frame : CanFrame) (can : CanBus)
    → IsFrame frame
    → can.initialized ≡ true
    → All IsOn can.states
    → fulls can.states < n
    → ((send_frame_wait n frame can).0 ≡ true)
      × IsSent can (send_frame_wait n frame can).1 (mail_of_frame frame ∷ [])
unfolding send_frame_wait
send_free zero frame can v ready on enough = absurd (omega arith)
send_free (suc n) frame can v ready on enough =
    let can' = (can_send frame can).1 in
    elim (can_send_cases frame can can.states v ready refl on) [
      | inl done ↦ ground (arith, done)
      | inr full ↦
          let later = send_free n frame can' v full.2 full.3 (omega (arith, full, enough)) in
          let w = later.1 in
          let sent : IsSent can (send_frame_wait n frame can').1 (mail_of_frame frame ∷ []) =
            record {
              sent = w.sent ∙ ap (λ l. l ++ mail_of_frame frame ∷ []) full.1;
              initialized = w.initialized;
              on = w.on;
              fewer = omega (arith, w.fewer, full);
            } in
          ground (arith, full.0, later.0, sent)
    ]

-- The messages of frames.
abbrev mails_of : List CanFrame → List Mail
mails_of frames = map mail_of_frame frames

sends_none :
    (n : ℕ) (f : Fragmenter) (can : CanBus)
    → update_can_fragmenter_next f ≡ none
    → send_fragments n f can ≡ can
unfolding send_fragments
sends_none zero f can h = refl
sends_none (suc n) f can h = ground (arith, h)

sends_next :
    (n : ℕ) (f f' : Fragmenter) (frame : CanFrame) (can : CanBus)
    → update_can_fragmenter_next f ≡ some (frame, f')
    → (send_frame_wait 100000 frame can).0 ≡ true
    → send_fragments (suc n) f can ≡ send_fragments n f' (send_frame_wait 100000 frame can).1
unfolding send_fragments
sends_next n f f' frame can h done = ground (arith, h, done)

unchanged : (can : CanBus) → can.initialized ≡ true → All IsOn can.states → IsSent can can []
unchanged can ready on = record {
  sent = sym (append_nil can.sent);
  initialized = ready;
  on = on;
  fewer = omega arith;
}

IsSent-trans :
    (can can' can'' : CanBus) (mail : Mail) (mails : List Mail)
    → IsSent can can' (mail ∷ [])
    → IsSent can' can'' mails
    → IsSent can can'' (mail ∷ mails)
IsSent-trans can can' can'' mail mails v w = record {
  sent = w.sent ∙ ap (λ l. l ++ mails) v.sent ∙ append_assoc can.sent (mail ∷ []) mails;
  initialized = w.initialized;
  on = w.on;
  fewer = omega (arith, v.fewer, w.fewer);
}

-- Frames that go out in their order.
abbrev GoOut : CanBus → CanBus → List CanFrame → Type 0
GoOut can can' frames = IsSent can can' (mails_of frames) × All IsFrame frames

no_rounds : (f : Fragmenter) (can : CanBus) → (send_fragments 0 f can ≡ can) × (fragments 0 f ≡ [])
unfolding send_fragments fragments
no_rounds f can = (refl, refl)

send_fragments-GoOut :
    (n : ℕ) (f : Fragmenter) (can : CanBus)
    → AreBytes f.packet
    → f.can_id ≤ 0x7FF
    → can.initialized ≡ true
    → All IsOn can.states
    → fulls can.states < 100000
    → GoOut can (send_fragments n f can) (fragments n f)
send_fragments-GoOut zero f can bytes standard ready on enough =
    rw ((no_rounds f can).0, (no_rounds f can).1) (unchanged can ready on, tt)
send_fragments-GoOut (suc n) f can bytes standard ready on enough =
    elim (Option-cases (update_can_fragmenter_next f)) [
      | inl stop ↦
          rw (sends_none (suc n) f can stop, fragments-none (suc n) f stop)
            (unchanged can ready on, tt)
      | inr go ↦
          let frame = go.0.0 in
          let f' = go.0.1 in
          let v = next-IsFrame f f' frame bytes standard go.1 in
          let can' = (send_frame_wait 100000 frame can).1 in
          let first = send_free 100000 frame can v.0 ready on enough in
          let later =
            send_fragments-GoOut n f' can' (subst AreBytes (sym v.1) bytes)
              (omega (arith, v.2, standard)) first.1.initialized first.1.on
              (omega (arith, first.1.fewer, enough)) in
          let sent =
            IsSent-trans can can' (send_fragments n f' can') (mail_of_frame frame)
              (mails_of (fragments n f')) first.1 later.0 in
          rw (sends_next n f f' frame can go.1 first.0, fragments-some n f f' frame go.1)
            (sent, (v.0, later.1))
    ]

-- The receiver's driver hands over the frames that were sent.
frames_back :
    (frames : List CanFrame) → All IsFrame frames → map frame_of_mail (mails_of frames) ≡ frames
frames_back [] h = refl
frames_back (frame ∷ frames) h =
    ap₂ (λ x xs. x ∷ xs) (frame_of_mail-mail_of_frame frame h.0) (frames_back frames h.1)

-- What an answer comes to at the other end.
pub record Arrives (node_id : ℕ) (ack : List ℕ) (ack_len : ℕ) (can can' : CanBus) (r : Reassembly)
    : Type 0 where
  pub mails : List Mail
  pub sent : can'.sent ≡ can.sent ++ mails
  pub received :
      IsReceived ack ack_len (feed_all (map frame_of_mail mails) r (update_can_response_id node_id))

init_some :
    (can_id : ℕ) (ack : List ℕ) (ack_len : ℕ)
    → 20 ≤ ack_len
    → ack_len ≤ 148
    → can_id ≤ 0x7FF
    → update_can_fragmenter_init can_id ack ack_len
      ≡ some record {
        packet = ack;
        packet_len = ack_len;
        offset = 0;
        can_id = can_id;
        fragment_index = 0;
      }
unfolding update_can_fragmenter_init
init_some can_id ack ack_len small fits standard = ground arith

response_id-lt : (node_id : ℕ) → node_id ≤ 0x7F → update_can_response_id node_id ≤ 0x7FF
unfolding update_can_response_id
response_id-lt node_id h = omega arith

send_ack_lem :
    (node_id : ℕ) (ack : List ℕ) (ack_len : ℕ) (can : CanBus) (f : Fragmenter)
    → update_can_fragmenter_init (update_can_response_id node_id) ack ack_len ≡ some f
    → send_ack node_id ack ack_len can ≡ send_fragments 148 f can
unfolding send_ack
send_ack_lem node_id ack ack_len can f h = ground (arith, h)

-- An answer of 20 to 148 bytes of a node whose number is at most 127 arrives: on a bus that is set up,
-- that is never off and that is full less than 100000 times, it adds messages to those that were sent,
-- and the frames of these messages, as a driver at the other end hands them over, are put together to
-- the answer by a reassembly in any state, with none left over.
pub send_ack-Arrives :
    (node_id : ℕ) (ack : List ℕ) (ack_len : ℕ) (can : CanBus) (r : Reassembly)
    → node_id ≤ 0x7F
    → 20 ≤ ack_len
    → ack_len ≤ 148
    → AreBytes ack
    → can.initialized ≡ true
    → All IsOn can.states
    → fulls can.states < 100000
    → length r.packet ≡ 148
    → Arrives node_id ack ack_len can (send_ack node_id ack ack_len can) r
send_ack-Arrives node_id ack ack_len can r node small fits bytes ready on enough whole =
    let id = update_can_response_id node_id in
    let f : Fragmenter = record {
      packet = ack;
      packet_len = ack_len;
      offset = 0;
      can_id = id;
      fragment_index = 0;
    } in
    let started = init_some id ack ack_len small fits (response_id-lt node_id node) in
    let out = send_fragments-GoOut 148 f can bytes (response_id-lt node_id node) ready on enough in
    record {
      mails = mails_of (fragments 148 f);
      sent = ap (λ c. c.sent) (send_ack_lem node_id ack ack_len can f started) ∙ out.0.sent;
      received =
          rw (frames_back (fragments 148 f) out.1)
            (feed_all-fragments id ack ack_len f r whole started);
    }
