-- ===== src/CanLoop.antt =====
-- The update loop over CAN (bootloader/src/update_can_loop.c).
pub mod Bytes
pub mod Deliver
use stm32_vibe.Base.{
  ℕ, zero, suc, ◌+◌, ◌==◌, ◌!=◌, ltb, if◌then◌else◌, u32, Bool, true, false, not, ◌||◌, List,
  Option, none, some, replicate,
}
use stm32_vibe.Layout.{Board}
use stm32_vibe.Protocol.{UpdateStatus, max_packet_size}
use stm32_vibe.Storage.{Storage}
use stm32_vibe.Stream.{is_ok}
use stm32_vibe.Can.{
  CanFrame, Reassembly, FeedResult, complete, update_can_request_id, update_can_response_id,
  update_can_reassembly_init, update_can_reassembly_feed, Fragmenter, update_can_fragmenter_init,
  update_can_fragmenter_next,
}
use stm32_vibe.CanBus.{CanBus, CanResult, ok, tx_full, is_can_ok, can_send, can_receive, can_init}
use stm32_vibe.UpdateLoop.{UpdateLoop, boot_update_loop_process_encoded}

abbrev pub can_tx_retry_limit : ℕ
can_tx_retry_limit = 100000

abbrev pub can_rx_frames_per_poll : ℕ
can_rx_frames_per_poll = 32

abbrev pub can_max_node_id : ℕ
can_max_node_id = 0x7F

-- `boot_can_update_loop_t`.
pub record CanUpdateLoop : Type 0 where
  pub reassembly : Reassembly
  pub node_id : ℕ
  pub initialized : Bool

abbrev pub is_tx_full : CanResult → Bool
is_tx_full tx_full = true
is_tx_full _ = false

-- `send_frame_wait`, by the retries left.
unfoldable pub send_frame_wait : ℕ → CanFrame → CanBus → Bool × CanBus
send_frame_wait zero frame can = (false, can)
send_frame_wait (suc retries) frame can =
    let (result, can') = can_send frame can in
    let again = send_frame_wait retries frame can' in
    if is_can_ok result
    then (true, can')
    else if not (is_tx_full result)
    then (false, can')
    else again

-- The loop of `send_ack` over the fragments. A packet has at most 148 bytes and every fragment takes at
-- least one, so that as many rounds are enough.
unfoldable pub send_fragments : ℕ → Fragmenter → CanBus → CanBus
send_fragments zero fragmenter can = can
send_fragments (suc rounds) fragmenter can = elim (update_can_fragmenter_next fragmenter) [
  | none ↦ can
  | some (frame, fragmenter') ↦
      let (done, can') = send_frame_wait can_tx_retry_limit frame can in
      let rest = send_fragments rounds fragmenter' can' in if done then rest else can'
]

unfoldable pub send_ack : ℕ → List ℕ → ℕ → CanBus → CanBus
send_ack node_id ack ack_len can =
    elim (update_can_fragmenter_init (update_can_response_id node_id) ack ack_len) [
      | none ↦ can
      | some fragmenter ↦ send_fragments max_packet_size fragmenter can
    ]

-- `none` is the return value 0, which leaves the loop alone.
unfoldable pub boot_can_update_loop_init :
    ℕ → Bool → Bool → ℕ → ℕ → CanBus → Option CanUpdateLoop × CanBus
boot_can_update_loop_init pclk entered left node_id bitrate can =
    let (result, can') = can_init pclk entered left bitrate can in
    if ltb can_max_node_id node_id
    then (none, can)
    else if not (is_can_ok result)
    then (none, can')
    else (
      some
          record { reassembly = update_can_reassembly_init; node_id = node_id; initialized = true },
      can',
    )

abbrev pub is_complete : FeedResult → Bool
is_complete complete = true
is_complete _ = false

module _ (b : Board) (storage : Storage) where
  open storage use {Device}

  -- What a poll over CAN works on, with the count of frames.
  pub record CanPolling : Type 0 where
    pub can_loop : CanUpdateLoop
    pub loop : UpdateLoop
    pub device : Device
    pub can : CanBus
    pub frames : ℕ

  -- The branch for a packet that is complete.
  unfoldable pub on_complete : CanPolling → CanPolling
  on_complete p =
      let ((status, ack, ack_len), loop, d) =
        boot_update_loop_process_encoded b storage p.loop p.device p.can_loop.reassembly.packet
          p.can_loop.reassembly.received_len (replicate max_packet_size 0) max_packet_size 0 in
      let answered = record p { loop = loop; device = d } in
      if is_ok status
      then record answered { can = send_ack p.can_loop.node_id ack ack_len p.can }
      else answered

  -- The body of the loop, once a frame is received.
  unfoldable pub on_frame : CanPolling → CanFrame → CanPolling
  on_frame p frame =
      let request_id = update_can_request_id p.can_loop.node_id in
      let (result, reassembly) =
        update_can_reassembly_feed p.can_loop.reassembly frame request_id in
      let fed = record p {
        can_loop = record p.can_loop { reassembly = reassembly };
        frames = u32 (p.frames + 1);
      } in
      if frame.id != request_id then p else if is_complete result then on_complete fed else fed

  unfoldable pub poll_frames : ℕ → CanPolling → CanPolling
  poll_frames zero p = p
  poll_frames (suc n) p =
      let (result, frame, can) = can_receive p.can in
      let rest = poll_frames n (on_frame (record p { can = can }) frame) in
      if not (is_can_ok result) then record p { can = can } else rest

  unfoldable pub boot_can_update_loop_poll : CanPolling → CanPolling
  boot_can_update_loop_poll p =
      let start = record p { frames = 0 } in
      if not p.can_loop.initialized then start else poll_frames can_rx_frames_per_poll start
