-- ===== src/CanBus/Deliver.antt =====
-- A frame that one driver sends is the frame that another receives.
use stm32_vibe.Base.{
  ℕ, ◌≤◌, ◌<◌, ◌≡◌, refl, ap₂, ◌∙◌, List, [], ◌∷◌, ◌++◌, length, u32_bytes, u32_of_bytes, AreBytes,
  true, false, arith,
}
use stm32_vibe.Base.Bits.{bit_and-low}
use stm32_vibe.Protocol.{read_u32_le}
use stm32_vibe.Protocol.Frame.{read_u32_le_lem}
use stm32_vibe.Can.{CanFrame}
use stm32_vibe.CanBus.{
  Mail, CanBus, ok, mail_of_frame, frame_of_mail, can_send, can_receive, receive_mail, head_state,
}

-- A frame that a driver can send: a standard identifier and eight data bytes, of which `dlc` are used.
pub record IsFrame (frame : CanFrame) : Type 0 where
  pub standard : frame.id ≤ 0x7FF
  pub fits : frame.dlc ≤ 8
  pub eight : length frame.bytes ≡ 8
  pub bytes_ok : AreBytes frame.bytes

bytes_of_word :
    (a b c d : ℕ)
    → a < 256
    → b < 256
    → c < 256
    → d < 256
    → u32_bytes (u32_of_bytes a b c d) ≡ a ∷ b ∷ c ∷ d ∷ []
bytes_of_word a b c d ha hb hc hd = ground arith

data_words :
    (bytes : List ℕ)
    → length bytes ≡ 8
    → AreBytes bytes
    → u32_bytes (read_u32_le bytes 0) ++ u32_bytes (read_u32_le bytes 4) ≡ bytes
data_words (a ∷ b ∷ c ∷ d ∷ e ∷ f ∷ g ∷ h ∷ []) eight v =
    let bytes = a ∷ b ∷ c ∷ d ∷ e ∷ f ∷ g ∷ h ∷ [] in
    let low =
      read_u32_le_lem bytes 0 a b c d refl refl refl refl (omega arith) (omega arith)
        (omega arith) in
    let high =
      read_u32_le_lem bytes 4 e f g h refl refl refl refl (omega arith) (omega arith)
        (omega arith) in
    ap₂ (λ (x y : ℕ). u32_bytes x ++ u32_bytes y) low high
    ∙ ap₂ ◌++◌ (bytes_of_word a b c d (omega arith) (omega arith) (omega arith) (omega arith))
        (bytes_of_word e f g h (omega arith) (omega arith) (omega arith) (omega arith))
data_words _ eight v = absurd (omega arith)

pub frame_of_mail-mail_of_frame :
    (frame : CanFrame) → IsFrame frame → frame_of_mail (mail_of_frame frame) ≡ frame
unfolding frame_of_mail mail_of_frame
frame_of_mail-mail_of_frame frame v = ground (
  arith,
  data_words frame.bytes v.eight v.bytes_ok,
  bit_and-low 11 frame.id,
  bit_and-low 4 frame.dlc,
)

-- What a successful `can_send` puts on the bus is what `can_receive` hands over at the other end: the
-- sent messages are those before and one more, and an initialised receiver whose bus is in order and
-- whose queue starts with that message returns `ok` and the same frame, and leaves the rest queued.
can_receive-can_send :
    (frame : CanFrame) (sender receiver : CanBus) (rest : List Mail)
    → IsFrame frame
    → (can_send frame sender).0 ≡ ok
    → receiver.initialized ≡ true
    → (head_state receiver.states).off ≡ false
    → receiver.incoming ≡ mail_of_frame frame ∷ rest
    → ((can_send frame sender).1.sent ≡ sender.sent ++ mail_of_frame frame ∷ [])
      × ((can_receive receiver).0 ≡ ok)
      × ((can_receive receiver).1 ≡ frame)
      × ((can_receive receiver).2.incoming ≡ rest)
unfolding can_send can_receive receive_mail
can_receive-can_send frame sender receiver rest v sends on fine queued =
    rw queued (ground (arith, frame_of_mail-mail_of_frame frame v))
