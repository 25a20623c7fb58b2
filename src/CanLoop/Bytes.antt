-- ===== src/CanLoop/Bytes.antt =====
-- The fragments of a packet of bytes are frames that a driver can send (shared/update/update_can.c).
use stm32_vibe.Base.{
  ℕ, zero, suc, ◌+◌, ◌-◌, ◌/◌, ◌^◌, ◌==◌, ltb, ◌≤◌, ◌<◌, ◌≡◌, u8, if◌then◌else◌, Bool, List, get_or,
  set, length, replicate, bit_or, bit_and, AreBytes, AreBytes-set, get_or-lt, some, arith,
}
use native.Mathlib.Nat.{pow-suc}
use stm32_vibe.Base.Bits.{bit_and-low, bit_or_step}
use stm32_vibe.Protocol.{copy_bytes}
use stm32_vibe.Protocol.Copy.{length-copy_bytes}
use stm32_vibe.Can.{CanFrame, Fragmenter, control_byte, update_can_fragmenter_next}
use stm32_vibe.CanBus.Deliver.{IsFrame}

copy_bytes-AreBytes :
    (n : ℕ) (dst : List ℕ) (to : ℕ) (src : List ℕ) (from : ℕ)
    → AreBytes dst
    → AreBytes src
    → AreBytes (copy_bytes n dst to src from)
unfolding copy_bytes
copy_bytes-AreBytes zero dst to src from h v = h
copy_bytes-AreBytes (suc n) dst to src from h v =
    copy_bytes-AreBytes n (set dst to (get_or src from 0)) (to + 1) src (from + 1)
      (AreBytes-set dst to (get_or src from 0) h (get_or-lt src from v)) v

-- An or stays below a power of two.
bit_or-lt : (k a b : ℕ) → a < 2 ^ k → b < 2 ^ k → bit_or a b < 2 ^ k
bit_or-lt zero a b p q =
    let a0 : a ≡ 0 = omega arith in let b0 : b ≡ 0 = omega arith in rw (a0, b0) (omega arith)
bit_or-lt (suc k) a b p q =
    let half =
      bit_or-lt k (a / 2) (b / 2) (omega (arith, pow-suc 2 k)) (omega (arith, pow-suc 2 k)) in
    ground (arith, pow-suc 2 k, bit_or_step a b, half)

control_byte-lt : (k : ℕ) (first last : Bool) → control_byte k first last < 256
control_byte-lt k first last =
    let index = bit_and k 0x3F in
    let low : index < 256 = omega (arith, bit_and-low 6 k) in
    ground (
      arith,
      low,
      bit_or-lt 8 index 128 low,
      bit_or-lt 8 index 64 low,
      bit_or-lt 8 (bit_or index 128) 64,
    )

-- What stands in a frame before the packet's bytes are copied into it.
header-AreBytes :
    (control len : ℕ) (first : Bool)
    → control < 256
    → let b0 = set (replicate 8 0) 0 control in
      AreBytes (if first then set (set b0 1 (u8 len)) 2 (u8 (len / 2 ^ 8)) else b0)
header-AreBytes control len first h = ground (arith, h)

-- What the fragmenter gives can be sent, and it goes on with the same packet.
pub next-IsFrame :
    (f f' : Fragmenter) (frame : CanFrame)
    → AreBytes f.packet
    → f.can_id ≤ 0x7FF
    → update_can_fragmenter_next f ≡ some (frame, f')
    → IsFrame frame × (f'.packet ≡ f.packet) × (f'.can_id ≡ f.can_id)
unfolding update_can_fragmenter_next
next-IsFrame f f' frame bytes standard h =
    let first = f.offset == 0 in
    let header_len = if first then 3 else 1 in
    let capacity = 8 - header_len in
    let remaining = f.packet_len - f.offset in
    let n = if ltb remaining capacity then remaining else capacity in
    let b0 = set (replicate 8 0) 0 (control_byte f.fragment_index first (n == remaining)) in
    let b1 =
      if header_len == 3
      then set (set b0 1 (u8 f.packet_len)) 2 (u8 (f.packet_len / 2 ^ 8))
      else b0 in
    let head =
      header-AreBytes (control_byte f.fragment_index first (n == remaining)) f.packet_len
        (header_len == 3) (control_byte-lt f.fragment_index first (n == remaining)) in
    let filled = copy_bytes-AreBytes n b1 header_len f.packet f.offset head bytes in
    let long = length-copy_bytes n b1 header_len f.packet f.offset in
    let eight : length b1 ≡ 8 = ground arith in
    ground (arith, h, filled, long, eight, standard, IsFrame)
