-- ===== src/Platform/Rounds.antt =====
-- What every round of the firmware does (shared/platform/runtime.c).
use stm32_vibe.Base.{
  ℕ, zero, suc, ◌≡◌, refl, ap, sym, subst, ◌∙◌, sub32, Bool, true, List, [], ◌∷◌, ◌++◌, length,
  append_assoc, append_nil, some, arith,
}
use stm32_vibe.Layout.{Board, stm32f446, stm32l152}
use stm32_vibe.Storage.{Storage}
use stm32_vibe.CanBus.{CanBus, Mail}
use stm32_vibe.Handoff.{Handoff}
use stm32_vibe.Health.{
  HealthSupervisor, health_supervisor_report_application, health_supervisor_report_progress,
  health_supervisor_may_feed_watchdog, boot_confirmation_init, boot_confirmation_poll,
  platform_confirm_pending_boot,
}
use stm32_vibe.UpdateAgent.{UpdateAgent, update_agent_init, update_agent_poll}
use stm32_vibe.UpdateMode.{Setup}
use stm32_vibe.App.{App, app_init, app_process, can_smoke_process, app_is_healthy, ok}
use stm32_vibe.Watchdog.{Iwdg, Write, key, watchdog_refresh}
use stm32_vibe.WatchdogL1
use stm32_vibe.Watchdog.Timeout.{
  lsi_hz, busy, IsStarted, board_watchdog_init, board_watchdog_refresh, board_watchdog_init-Starts,
}
use stm32_vibe.Platform.{
  Firmware, looping, main, goes_on, platform_request_update_reset, after_poll, round, arrive, Runs,
  start, next,
}

healthy-app_process :
    (smoke : Bool) (now_ms : ℕ) (app : App) (can : CanBus)
    → (app_process smoke now_ms app can).0.healthy ≡ app.healthy
unfolding app_process can_smoke_process
healthy-app_process smoke now_ms app can = ground arith

writes-board_watchdog_refresh :
    (b : Board) (iwdg : Iwdg)
    → (board_watchdog_refresh b iwdg).writes ≡ iwdg.writes ++ key 0xAAAA ∷ []
unfolding board_watchdog_refresh watchdog_refresh WatchdogL1.watchdog_refresh
writes-board_watchdog_refresh stm32f446 iwdg = refl
writes-board_watchdog_refresh stm32l152 iwdg = refl

healthy-app_init :
    (smoke : Bool) (pclk : ℕ) (entered left : Bool) (app : App) (can : CanBus)
    → let out =
        app_init smoke pclk entered left
          (record { status_led_set = true; request_update_reset = true })
          app
          can in
      out.0 ≡ ok → out.1.healthy ≡ true
unfolding app_init
healthy-app_init smoke pclk entered left app can h = ground arith

-- A report of progress lets the watchdog be fed at once.
may_feed-now :
    (s : HealthSupervisor) (now_ms : ℕ)
    → s.max_progress_age_ms ≡ 2000
    → health_supervisor_may_feed_watchdog
        (health_supervisor_report_progress (health_supervisor_report_application s true) now_ms)
        now_ms
      ≡ true
unfolding health_supervisor_may_feed_watchdog health_supervisor_report_progress
    health_supervisor_report_application
may_feed-now s now_ms h =
    let fresh : sub32 now_ms now_ms ≡ 0 = omega arith in ground (arith, h, fresh)

-- The writes of so many refreshes.
abbrev pub refreshes : ℕ → List Write
refreshes zero = []
refreshes (suc n) = refreshes n ++ key 0xAAAA ∷ []

module _ (b : Board) (storage : Storage) (smoke : Bool) (setup : Setup) where
  open storage use {Device}

  -- What `main` sets up and no round changes.
  pub record IsRunning (fw : Firmware b storage smoke setup) : Type 0 where
    pub healthy : fw.app.healthy ≡ true
    pub max_age : fw.supervisor.max_progress_age_ms ≡ 2000

  pub record IsFresh (fw : Firmware b storage smoke setup) (d : Device) (iwdg : Iwdg) : Type 0 where
    pub is_running : IsRunning fw
    pub waiting :
        fw.confirmation ≡ boot_confirmation_init 5000 (some (platform_confirm_pending_boot storage))
    pub device : fw.device ≡ d
    pub started : board_watchdog_init b 4000 iwdg ≡ (true, fw.iwdg)

  pub main-IsFresh :
      (handoff : Handoff) (agent : UpdateAgent) (app : App) (d : Device) (iwdg : Iwdg) (word : ℕ)
      (fw : Firmware b storage smoke setup)
      → main b storage smoke setup handoff agent app d iwdg word ≡ looping fw
      → IsFresh fw d iwdg
  unfolding main
  main-IsFresh handoff agent app d iwdg word fw h =
      let can = (update_agent_init b smoke setup.pclk setup.entered setup.left true agent).can in
      let started = healthy-app_init smoke setup.pclk setup.entered setup.left app can in
      ground (arith, h, started, IsFresh, IsRunning)

  -- What a round that goes on has done.
  pub record IsRound (now_ms : ℕ) (fw fw' : Firmware b storage smoke setup) : Type 0 where
    pub is_running : IsRunning fw'
    pub fed : fw'.iwdg.writes ≡ fw.iwdg.writes ++ key 0xAAAA ∷ []
    pub polled :
        (fw'.confirmation, fw'.device)
        ≡ boot_confirmation_poll fw.confirmation now_ms true fw.device

  after_poll-IsRound :
      (now_ms : ℕ) (fw : Firmware b storage smoke setup) (agent : UpdateAgent)
      → IsRunning fw
      → IsRound now_ms fw (after_poll b storage smoke setup now_ms fw agent)
  unfolding after_poll app_is_healthy health_supervisor_report_application
      health_supervisor_report_progress
  after_poll-IsRound now_ms fw agent v =
      let kept = healthy-app_process smoke now_ms fw.app agent.can ∙ v.healthy in
      record {
        is_running = record { healthy = kept; max_age = v.max_age };
        fed = ground (
          arith,
          kept,
          may_feed-now fw.supervisor now_ms v.max_age,
          writes-board_watchdog_refresh b fw.iwdg,
        );
        polled = ap (λ h. boot_confirmation_poll fw.confirmation now_ms h fw.device) kept;
      }

  goes_on-same :
      (now_ms : ℕ) (fw fw' : Firmware b storage smoke setup)
      → round b storage smoke setup now_ms fw ≡ goes_on fw'
      → after_poll b storage smoke setup now_ms fw
          (update_agent_poll b smoke setup.node_id fw.agent)
        ≡ fw'
  unfolding round platform_request_update_reset
  goes_on-same now_ms fw fw' h = ground (arith, h)

  round-IsRound :
      (now_ms : ℕ) (fw fw' : Firmware b storage smoke setup)
      → IsRunning fw
      → round b storage smoke setup now_ms fw ≡ goes_on fw'
      → IsRound now_ms fw fw'
  round-IsRound now_ms fw fw' v h =
      subst (IsRound now_ms fw) (goes_on-same now_ms fw fw' h)
        (after_poll-IsRound now_ms fw (update_agent_poll b smoke setup.node_id fw.agent) v)

  -- What arrives is the agent's.
  pub next-IsRound :
      (now_ms : ℕ) (bytes : List ℕ) (mails : List Mail) (fw fw' : Firmware b storage smoke setup)
      → IsRunning fw
      → round b storage smoke setup now_ms (arrive b storage smoke setup bytes mails fw)
        ≡ goes_on fw'
      → IsRound now_ms fw fw'
  next-IsRound now_ms bytes mails fw fw' v h =
      let arrived = arrive b storage smoke setup bytes mails fw in
      let r =
        round-IsRound now_ms arrived fw' (record { healthy = v.healthy; max_age = v.max_age }) h in
      record { is_running = r.is_running; fed = r.fed; polled = r.polled }

  pub Runs-IsRunning :
      {fw fw' : Firmware b storage smoke setup} {times : List ℕ}
      → IsRunning fw
      → Runs b storage smoke setup fw times fw'
      → IsRunning fw'
  Runs-IsRunning v start = v
  Runs-IsRunning v (next {now = now} {later} now_ms bytes mails run h) =
      (next-IsRound now_ms bytes mails now later (Runs-IsRunning v run) h).is_running

  Runs-fed :
      {fw fw' : Firmware b storage smoke setup} {times : List ℕ}
      → IsRunning fw
      → Runs b storage smoke setup fw times fw'
      → fw'.iwdg.writes ≡ fw.iwdg.writes ++ refreshes (length times)
  Runs-fed {fw} v start = sym (append_nil fw.iwdg.writes)
  Runs-fed {fw} v (next {times} {now} {later} now_ms bytes mails run h) =
      let r = next-IsRound now_ms bytes mails now later (Runs-IsRunning v run) h in
      r.fed
      ∙ ap (λ ws. ws ++ key 0xAAAA ∷ []) (Runs-fed v run)
      ∙ append_assoc fw.iwdg.writes (refreshes (length times)) (key 0xAAAA ∷ [])

  -- Once `main` has reached its loop, the watchdog has been started with a period of at least four
  -- seconds and less than one tick more, for a status that is busy some times and then is not; it is
  -- refreshed in every round and written to by nothing else, whatever arrives over the ports and
  -- whatever the times of the rounds.
  pub main-fed :
      (handoff : Handoff) (agent : UpdateAgent) (app : App) (d : Device) (iwdg : Iwdg) (word k : ℕ)
      (rest : List Bool) {fw fw' : Firmware b storage smoke setup} {times : List ℕ}
      → iwdg.updating ≡ busy k rest
      → main b storage smoke setup handoff agent app d iwdg word ≡ looping fw
      → Runs b storage smoke setup fw times fw'
      → IsStarted (lsi_hz b) 4000 iwdg fw.iwdg
        × (fw'.iwdg.writes ≡ fw.iwdg.writes ++ refreshes (length times))
  main-fed handoff agent app d iwdg word k rest {fw} readings h run =
      let fresh = main-IsFresh handoff agent app d iwdg word fw h in
      let starts = board_watchdog_init-Starts b 4000 k iwdg rest readings in
      let on : (board_watchdog_init b 4000 iwdg).0 ≡ true = ap (λ o. o.0) fresh.started in
      (
        subst (IsStarted (lsi_hz b) 4000 iwdg) (ap (λ o. o.1) fresh.started) (starts.started on),
        Runs-fed fresh.is_running run,
      )
