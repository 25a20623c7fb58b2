-- ===== src/Platform/Restart.antt =====
-- A request for the update mode, from the agent of the firmware to the bootloader
-- (shared/platform/runtime.c, shared/boot/update_handoff.h).
use stm32_vibe.Base.{
  ℕ, ◌+◌, ◌<◌, ◌≡◌, ◌↔◌, refl, subst, Bool, true, false, List, ◌++◌, AreBytes, arith,
}
use stm32_vibe.Layout.{Board}
use stm32_vibe.Storage.{Storage}
use stm32_vibe.CanBus.{CanBus}
use stm32_vibe.Uart.{Uart}
use stm32_vibe.UpdateAgent.{listens, update_agent_poll}
use stm32_vibe.UpdateAgent.Answer.{Answer, IsLogged, answer_frames, entries, heard}
use stm32_vibe.UpdateAgent.Reset.{update_agent_poll-Logged}
use stm32_vibe.UpdateMode.{Setup, StartUp, requested, update_handoff_request}
use stm32_vibe.UpdateMode
use stm32_vibe.UpdateMode.Request.{main-requested}
use stm32_vibe.Platform.{
  Firmware, resets, goes_on, platform_request_update_reset, after_poll, round,
}

asks_again :
    (word : ℕ) → update_handoff_request word ≡ update_handoff_request (update_handoff_request word)
unfolding update_handoff_request
asks_again word = refl

module _ (b : Board) (storage : Storage) (smoke : Bool) (setup : Setup) where
  open storage use {Device}

  -- The answers that the bytes that wait before a round ask for.
  abbrev pub log_of : Firmware b storage smoke setup → List Answer
  log_of fw = heard true fw.agent.stream fw.agent.payload fw.agent.uart.incoming

  -- What a round makes of the bytes that wait, and the start after it.
  pub record IsHandled (now_ms : ℕ) (fw : Firmware b storage smoke setup)
      (start : ℕ → StartUp b storage) : Type 0 where
    pub sent :
        (update_agent_poll b smoke setup.node_id fw.agent).uart.sent
        ≡ fw.agent.uart.sent ++ answer_frames (log_of fw)
    pub restarts :
        (round b storage smoke setup now_ms fw ≡ resets (update_handoff_request fw.word))
        ↔ (0 < entries (log_of fw))
    pub stays :
        (round b storage smoke setup now_ms fw
          ≡ goes_on (
              after_poll b storage smoke setup now_ms fw
                (update_agent_poll b smoke setup.node_id fw.agent)))
        ↔ (entries (log_of fw) ≡ 0)
    pub taken : start (update_handoff_request fw.word) ≡ requested

  round-restarts :
      (now_ms : ℕ) (fw : Firmware b storage smoke setup) (n : ℕ)
      → (update_agent_poll b smoke setup.node_id fw.agent).resets ≡ fw.agent.resets + n
      → ((round b storage smoke setup now_ms fw ≡ resets (update_handoff_request fw.word))
          ↔ (0 < n))
        × ((round b storage smoke setup now_ms fw
              ≡ goes_on (
                  after_poll b storage smoke setup now_ms fw
                    (update_agent_poll b smoke setup.node_id fw.agent)))
            ↔ (n ≡ 0))
  unfolding round platform_request_update_reset
  round-restarts now_ms fw n h = ground (arith, h)

  -- In a build whose agent has no CAN, whatever bytes wait in the serial port, a round of the firmware
  -- sends the acknowledgements that the bytes ask for, and nothing else: to the packets that the parser
  -- finds in them, fed one by one, and to what it complains of, up to the first request for the update
  -- mode. The round resets exactly if there is such a request among the packets, and it goes on exactly
  -- if there is none. The bootloader that is started after the reset goes straight into the update mode.
  -- The port is set up, and the agent has its callback.
  pub round-IsHandled :
      (now_ms : ℕ) (fw : Firmware b storage smoke setup) (boot_setup : Setup) (d : Device)
      (uart : Uart) (can : CanBus) (vectors got : List ℕ)
      → listens b smoke ≡ false
      → AreBytes fw.agent.stream.buffer
      → AreBytes fw.agent.uart.incoming
      → fw.agent.uart.initialized ≡ true
      → fw.agent.reset_callback ≡ true
      → IsHandled now_ms fw
          (λ word. UpdateMode.main b storage word boot_setup d uart can vectors got)
  round-IsHandled now_ms fw boot_setup d uart can vectors got no_can bytes waiting on given =
      let l : IsLogged fw.agent (update_agent_poll b smoke setup.node_id fw.agent) (log_of fw) =
        subst
          (λ callback.
            IsLogged fw.agent (update_agent_poll b smoke setup.node_id fw.agent)
              (heard callback fw.agent.stream fw.agent.payload fw.agent.uart.incoming))
          given
          (update_agent_poll-Logged b smoke setup.node_id fw.agent no_can bytes waiting
            on).is_logged in
      let counted : (update_agent_poll b smoke setup.node_id fw.agent).resets
          ≡ fw.agent.resets + entries (log_of fw) =
        ground (arith, l.resets, given) in
      let r = round-restarts now_ms fw (entries (log_of fw)) counted in
      record {
        sent = l.sent;
        restarts = r.0;
        stays = r.1;
        taken =
            (main-requested b storage (update_handoff_request fw.word) boot_setup d uart can vectors
                got).0.1
              (asks_again fw.word);
      }
