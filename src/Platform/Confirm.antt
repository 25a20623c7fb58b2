-- ===== src/Platform/Confirm.antt =====
-- When the firmware confirms the boot (shared/platform/runtime.c and boot_confirmation.c).
use stm32_vibe.Base.{
  ℕ, ◌≡◌, refl, ap, ap₂, ◌∙◌, leb, sub32, if◌then◌else◌, Bool, true, false, List, [], ◌∷◌, some,
  arith,
}
use stm32_vibe.Layout.{Board}
use stm32_vibe.Storage.{Storage}
use stm32_vibe.Handoff.{Handoff}
use stm32_vibe.Health.{
  BootConfirmation, poll_with, boot_confirmation_init, boot_confirmation_poll,
  platform_confirm_pending_boot,
}
use stm32_vibe.UpdateAgent.{UpdateAgent}
use stm32_vibe.UpdateMode.{Setup}
use stm32_vibe.App.{App}
use stm32_vibe.Watchdog.{Iwdg}
use stm32_vibe.Platform.{Firmware, looping, main, Runs, start, next}
use stm32_vibe.Platform.Rounds.{IsFresh, main-IsFresh, next-IsRound, Runs-IsRunning}

-- The time of the first of rounds that are listed newest first, the one at `now_ms` included.
abbrev first_time : ℕ → List ℕ → ℕ
first_time now_ms [] = now_ms
first_time now_ms (earlier ∷ times) = first_time earlier times

module _ {Device : Type 0} (confirm : Device → Bool × Device) where
  -- What the confirmation comes to by rounds at these times: from five seconds after the first round
  -- on, each of them confirms until that succeeds.
  abbrev confirmed_by : List ℕ → Device → Bool × Device
  confirmed_by [] d = (false, d)
  confirmed_by (now_ms ∷ times) d =
      let (done, d') = confirmed_by times d in
      if done
      then (true, d')
      else if leb 5000 (sub32 now_ms (first_time now_ms times))
      then confirm d'
      else (false, d')

  -- The confirmation after rounds at these times.
  abbrev after : List ℕ → Bool → BootConfirmation Device
  after [] done = boot_confirmation_init 5000 (some confirm)
  after (now_ms ∷ times) done = record {
    commit = some confirm;
    healthy_since_ms = first_time now_ms times;
    stabilization_ms = 5000;
    healthy_period_active = true;
    completed = done;
  }

  poll-after :
      (now_ms : ℕ) (times : List ℕ) (d d' : Device) (done : Bool)
      → confirmed_by times d ≡ (done, d')
      → boot_confirmation_poll (after times done) now_ms true d' ≡ (
        after (now_ms ∷ times) (confirmed_by (now_ms ∷ times) d).0,
        (confirmed_by (now_ms ∷ times) d).1,
      )
  unfolding boot_confirmation_poll poll_with
  poll-after now_ms [] d d' done h =
      let fresh : sub32 now_ms now_ms ≡ 0 = omega arith in ground (arith, h, fresh)
  poll-after now_ms (earlier ∷ times) d d' done h = ground (arith, h)

  completed-after :
      (times : List ℕ) (d : Device)
      → (after times (confirmed_by times d).0).completed ≡ (confirmed_by times d).0
  completed-after [] d = refl
  completed-after (now_ms ∷ times) d = refl

module _ (b : Board) (storage : Storage) (smoke : Bool) (setup : Setup) where
  open storage use {Device}

  abbrev pub expected : List ℕ → Device → Bool × Device
  expected = confirmed_by (platform_confirm_pending_boot storage)

  Runs-after :
      {fw fw' : Firmware b storage smoke setup} {times : List ℕ} {d : Device} {iwdg : Iwdg}
      → IsFresh b storage smoke setup fw d iwdg
      → Runs b storage smoke setup fw times fw'
      → ◌≡◌ {A = BootConfirmation Device × Device}
          (fw'.confirmation, fw'.device)
          (
            after (platform_confirm_pending_boot storage) times (expected times d).0,
            (expected times d).1,
          )
  Runs-after v start = ap₂ (λ c d. (c, d)) v.waiting v.device
  Runs-after {d = d} v (next {times} {now} {later} now_ms bytes mails run h) =
      let r =
        next-IsRound b storage smoke setup now_ms bytes mails now later
          (Runs-IsRunning b storage smoke setup v.is_running run) h in
      r.polled
      ∙ ap (λ p. boot_confirmation_poll p.0 now_ms true p.1) (Runs-after v run)
      ∙ poll-after (platform_confirm_pending_boot storage) now_ms times d (expected times d).1
          (expected times d).0 refl

  -- Once `main` has reached its loop, the rounds change the device only as the confirmation of the boot
  -- does: nothing happens in the rounds less than five seconds after the first one; from then on each
  -- round confirms the pending boot until that succeeds, and no later round does it again. The
  -- confirmation is complete exactly if one has succeeded.
  pub main-confirmed :
      (handoff : Handoff) (agent : UpdateAgent) (app : App) (d : Device) (iwdg : Iwdg) (word : ℕ)
      {fw fw' : Firmware b storage smoke setup} {times : List ℕ}
      → main b storage smoke setup handoff agent app d iwdg word ≡ looping fw
      → Runs b storage smoke setup fw times fw'
      → (fw'.device ≡ (expected times d).1) × (fw'.confirmation.completed ≡ (expected times d).0)
  main-confirmed handoff agent app d iwdg word {fw} {fw'} {times} h run =
      let same =
        Runs-after (main-IsFresh b storage smoke setup handoff agent app d iwdg word fw h) run in
      (
        ap (λ p. p.1) same,
        ap (λ p. p.0.completed) same
            ∙ completed-after (platform_confirm_pending_boot storage) times d,
      )
