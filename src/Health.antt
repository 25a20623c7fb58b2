-- ===== src/Health.antt =====
-- The supervision of the application (shared/platform/health_supervisor.c), the confirmation of an
-- update after a healthy period (shared/platform/boot_confirmation.c), and the commit that it calls
-- (shared/platform/boot_confirmation_store.c).
pub mod Watchdog
pub mod Period
pub mod Commit
use stm32_vibe.Base.{
  ℕ, ◌==◌, ltb, leb, if◌then◌else◌, sub32, Bool, true, false, not, ◌||◌, Option, none, some,
}
use stm32_vibe.BootState.{boot_state_confirm_pending}
use stm32_vibe.Storage.{Storage}

-- `health_supervisor_t`.
pub record HealthSupervisor : Type 0 where
  pub last_progress_ms : ℕ
  pub max_progress_age_ms : ℕ
  pub application_healthy : Bool
  pub progress_seen : Bool

abbrev pub health_supervisor_init : ℕ → HealthSupervisor
health_supervisor_init max_progress_age_ms = record {
  last_progress_ms = 0;
  max_progress_age_ms = max_progress_age_ms;
  application_healthy = false;
  progress_seen = false;
}

unfoldable pub health_supervisor_report_application : HealthSupervisor → Bool → HealthSupervisor
health_supervisor_report_application s healthy = record s { application_healthy = healthy }

unfoldable pub health_supervisor_report_progress : HealthSupervisor → ℕ → HealthSupervisor
health_supervisor_report_progress s now_ms = record s {
  last_progress_ms = now_ms;
  progress_seen = true;
}

unfoldable pub health_supervisor_may_feed_watchdog : HealthSupervisor → ℕ → Bool
health_supervisor_may_feed_watchdog s now_ms =
    if not s.application_healthy || not s.progress_seen || (s.max_progress_age_ms == 0)
    then false
    else leb (sub32 now_ms s.last_progress_ms) s.max_progress_age_ms

-- `boot_confirmation_t`. The function that it holds returns its result and what it does to a device.
pub record BootConfirmation (Device : Type 0) : Type 0 where
  pub commit : Option (Device → Bool × Device)
  pub healthy_since_ms : ℕ
  pub stabilization_ms : ℕ
  pub healthy_period_active : Bool
  pub completed : Bool

module _ {Device : Type 0} where
  abbrev pub boot_confirmation_init : ℕ → Option (Device → Bool × Device) → BootConfirmation Device
  boot_confirmation_init stabilization_ms commit = record {
    commit = commit;
    healthy_since_ms = 0;
    stabilization_ms = stabilization_ms;
    healthy_period_active = false;
    completed = false;
  }

  -- The part of the poll after the tests of the arguments, with the function to call.
  unfoldable pub poll_with :
      (Device → Bool × Device)
      → BootConfirmation Device
      → ℕ
      → Bool
      → Device
      → BootConfirmation Device × Device
  poll_with commit c now_ms healthy d =
      let (done, d') = commit d in
      if not healthy
      then (record c { healthy_period_active = false }, d)
      else if not c.healthy_period_active
      then (record c { healthy_since_ms = now_ms; healthy_period_active = true }, d)
      else if leb c.stabilization_ms (sub32 now_ms c.healthy_since_ms)
      then (record c { completed = done }, d')
      else (c, d)

  unfoldable pub boot_confirmation_poll :
      BootConfirmation Device → ℕ → Bool → Device → BootConfirmation Device × Device
  boot_confirmation_poll c now_ms healthy d = elim c.commit [
    | none ↦ (c, d)
    | some commit ↦ if c.completed then (c, d) else poll_with commit c now_ms healthy d
  ]

module _ (storage : Storage) where
  open storage use {Device, load, save_next}

  unfoldable pub platform_confirm_pending_boot : Device → Bool × Device
  platform_confirm_pending_boot d =
      let (pending, s) = boot_state_confirm_pending (load d) in
      if not pending then (true, d) else save_next s d
