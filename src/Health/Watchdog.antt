-- ===== src/Health/Watchdog.antt =====
-- How long a report of progress lets the watchdog be fed.
use stm32_vibe.Base.{ℕ, ◌+◌, ◌≤◌, ◌<◌, ◌≡◌, ◌↔◌, sub32, true, u32, arith}
use stm32_vibe.Health.{
  HealthSupervisor, health_supervisor_report_application, health_supervisor_report_progress,
  health_supervisor_may_feed_watchdog,
}

sub32-add : (t k : ℕ) → t < 4294967296 → k < 4294967296 → sub32 (u32 (t + k)) t ≡ k
sub32-add t k ht hk = omega arith

-- For a healthy application that reports progress at time `t`, the watchdog may be fed `k`
-- milliseconds later exactly when `k` is at most the greatest age, even if the 32-bit clock wraps around
-- in between, for a greatest age other than 0.
may_feed-report_progress :
    (s : HealthSupervisor) (t k : ℕ)
    → t < 4294967296
    → k < 4294967296
    → 0 < s.max_progress_age_ms
    → (health_supervisor_may_feed_watchdog
          (health_supervisor_report_progress (health_supervisor_report_application s true) t)
          (u32 (t + k))
        ≡ true)
      ↔ (k ≤ s.max_progress_age_ms)
unfolding health_supervisor_may_feed_watchdog health_supervisor_report_progress
    health_supervisor_report_application
may_feed-report_progress s t k ht hk some_age = ground (arith, sub32-add t k ht hk)
