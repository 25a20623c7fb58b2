-- ===== src/Platform.antt =====
-- The firmware around the application (shared/platform/runtime.c): its start and the rounds of its
-- loop. The clock, the traces and the registers of the fault handlers, of the LED's pin and of SysTick
-- have no counterpart; the time is an argument of a round.
pub mod Rounds
pub mod Confirm
pub mod Restart
use stm32_vibe.Base.{
  ℕ, ◌==◌, ◌/◌, if◌then◌else◌, Bool, true, false, not, List, [], ◌∷◌, ◌++◌, ◌≡◌, Option, none, some,
}
use stm32_vibe.Layout.{Board}
use stm32_vibe.Storage.{Storage}
use stm32_vibe.CanBus.{CanBus, Mail}
use stm32_vibe.Handoff.{Handoff, BootInfo, platform_boot_info_init_from}
use stm32_vibe.Health.{
  HealthSupervisor, health_supervisor_init, health_supervisor_report_application,
  health_supervisor_report_progress, health_supervisor_may_feed_watchdog, BootConfirmation,
  boot_confirmation_init, boot_confirmation_poll, platform_confirm_pending_boot,
}
use stm32_vibe.UpdateAgent.{UpdateAgent, update_agent_init, update_agent_poll}
use stm32_vibe.UpdateMode.{Setup, update_handoff_request}
use stm32_vibe.App.{
  App, AppServices, AppInitResult, ok, failed, app_init, app_process, app_is_healthy,
}
use stm32_vibe.Watchdog.{Iwdg}
use stm32_vibe.Watchdog.Timeout.{board_watchdog_init, board_watchdog_refresh}

-- `WATCHDOG_TIMEOUT_MS` and `BOOT_CONFIRM_STABILIZATION_MS`, which the build gives.
abbrev watchdog_timeout_ms : ℕ
watchdog_timeout_ms = 4000

abbrev boot_confirm_stabilization_ms : ℕ
boot_confirm_stabilization_ms = 5000

abbrev is_app_ok : AppInitResult → Bool
is_app_ok ok = true
is_app_ok failed = false

-- `main` passes its two functions on.
abbrev services : AppServices
services = record { status_led_set = true; request_update_reset = true }

-- `smoke` is whether `ENABLE_CAN_SMOKE_TEST` is defined.
module _ (b : Board) (storage : Storage) (smoke : Bool) (setup : Setup) where
  open storage use {Device}

  -- The objects of `main` and what they work on; `word` is the request for the update mode in RAM.
  pub record Firmware : Type 0 where
    pub boot_info : BootInfo
    pub agent : UpdateAgent
    pub app : App
    pub supervisor : HealthSupervisor
    pub confirmation : BootConfirmation Device
    pub device : Device
    pub iwdg : Iwdg
    pub word : ℕ

  -- What `main` comes to: one of its endless loops. Only the last one has rounds.
  pub data Started : Type 0 where
    handoff_invalid app_failed watchdog_failed : Started
    looping : Firmware → Started

  unfoldable pub main : Handoff → UpdateAgent → App → Device → Iwdg → ℕ → Started
  main handoff agent app d iwdg word =
      let a = update_agent_init b smoke setup.pclk setup.entered setup.left true agent in
      let (result, app', can) =
        app_init smoke setup.pclk setup.entered setup.left services app a.can in
      let (running, iwdg') = board_watchdog_init b watchdog_timeout_ms iwdg in
      elim (platform_boot_info_init_from handoff) [
        | none ↦ handoff_invalid
        | some boot_info ↦
            if not (is_app_ok result)
            then app_failed
            else if not running
            then watchdog_failed
            else looping record {
              boot_info = boot_info;
              agent = record a { can = can };
              app = app';
              supervisor = health_supervisor_init (watchdog_timeout_ms / 2);
              confirmation =
                  boot_confirmation_init boot_confirm_stabilization_ms
                    (some (platform_confirm_pending_boot storage));
              device = d;
              iwdg = iwdg';
              word = word;
            }
      ]

  -- A round ends in `platform_request_update_reset`, with the word that it leaves, or goes on.
  pub data Round : Type 0 where
    resets : ℕ → Round
    goes_on : Firmware → Round

  unfoldable pub platform_request_update_reset : Firmware → Round
  platform_request_update_reset fw = resets (update_handoff_request fw.word)

  -- The calls of a round after `update_agent_poll`.
  unfoldable pub after_poll : ℕ → Firmware → UpdateAgent → Firmware
  after_poll now_ms fw agent =
      let (app, can) = app_process smoke now_ms fw.app agent.can in
      let reported = health_supervisor_report_application fw.supervisor (app_is_healthy app) in
      let supervisor = health_supervisor_report_progress reported now_ms in
      let (confirmation, d) =
        boot_confirmation_poll fw.confirmation now_ms (app_is_healthy app) fw.device in
      let fed = board_watchdog_refresh b fw.iwdg in
      record fw {
        agent = record agent { can = can };
        app = app;
        supervisor = supervisor;
        confirmation = confirmation;
        device = d;
        iwdg = if health_supervisor_may_feed_watchdog supervisor now_ms then fed else fw.iwdg;
      }

  unfoldable pub round : ℕ → Firmware → Round
  round now_ms fw =
      let agent = update_agent_poll b smoke setup.node_id fw.agent in
      if agent.resets == fw.agent.resets
      then goes_on (after_poll now_ms fw agent)
      else platform_request_update_reset fw

  -- What comes in over the two ports before a round.
  abbrev pub arrive : List ℕ → List Mail → Firmware → Firmware
  arrive bytes mails fw = record fw {
    agent = record fw.agent {
      uart = record fw.agent.uart { incoming = fw.agent.uart.incoming ++ bytes };
      can = record fw.agent.can { incoming = fw.agent.can.incoming ++ mails };
    };
  }

  -- The firmware after rounds that went on, with their times, the newest first.
  pub data Runs (fw : Firmware) : List ℕ → Firmware → Type 0 where
    start : Runs fw [] fw
    next :
        {times : List ℕ} {now : Firmware} {later : Firmware} (now_ms : ℕ) (bytes : List ℕ)
        (mails : List Mail)
        → Runs fw times now
        → round now_ms (arrive bytes mails now) ≡ goes_on later
        → Runs fw (now_ms ∷ times) later
