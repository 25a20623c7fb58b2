-- ===== src/Health/Period.antt =====
-- An update is confirmed only after a healthy period.
use stm32_vibe.Base.{
  ℕ, ◌≤◌, ◌≡◌, sub32, if◌then◌else◌, Bool, true, false, List, [], ◌∷◌, some, refl, arith,
}
use stm32_vibe.Health.{BootConfirmation, boot_confirmation_init, poll_with, boot_confirmation_poll}

-- A poll: the time and whether the application is healthy.
abbrev Poll : Type 0
Poll = ℕ × Bool

-- The newest polls, from the one at `since` on, are all healthy; `polls` starts with the newest.
data IsHealthySince (since : ℕ) : List Poll → Type 0 where
  first : (polls : List Poll) → IsHealthySince since ((since, true) ∷ polls)
  longer :
      (now : ℕ) {polls : List Poll}
      → IsHealthySince since polls
      → IsHealthySince since ((now, true) ∷ polls)

opens : (now : ℕ) (polls : List Poll) → IsHealthySince now ((now, true) ∷ polls)
opens now polls = first polls

lasts :
    (since now : ℕ) (polls : List Poll)
    → IsHealthySince since polls
    → IsHealthySince since ((now, true) ∷ polls)
lasts since now polls h = longer now h

module _ {Device : Type 0} (commit : Device → Bool × Device) where
  -- The confirmations that polls lead to, with `commit` as the function to call.
  pub data Polled : BootConfirmation Device → List Poll → Device → Type 0 where
    start :
        (stabilization_ms : ℕ) (d : Device)
        → Polled (boot_confirmation_init stabilization_ms (some commit)) [] d
    next :
        {c : BootConfirmation Device} {polls : List Poll} {d : Device} (now : ℕ) (healthy : Bool)
        → Polled c polls d
        → Polled
            (boot_confirmation_poll c now healthy d).0
            ((now, healthy) ∷ polls)
            (boot_confirmation_poll c now healthy d).1

  -- An open period started with a healthy poll, and no poll since was unhealthy.
  record IsTimed (c : BootConfirmation Device) (polls : List Poll) : Type 0 where
    pub commit_kept : c.commit ≡ some commit
    pub timed :
        c.completed ≡ false
        → c.healthy_period_active ≡ true
        → IsHealthySince c.healthy_since_ms polls

  poll_lem :
      (c : BootConfirmation Device) (now : ℕ) (healthy : Bool) (d : Device)
      → c.commit ≡ some commit
      → boot_confirmation_poll c now healthy d
        ≡ (if c.completed then (c, d) else poll_with commit c now healthy d)
  unfolding boot_confirmation_poll
  poll_lem c now healthy d e = ground arith

  poll_with-IsTimed :
      (c : BootConfirmation Device) (polls : List Poll) (now : ℕ) (healthy : Bool) (d : Device)
      → IsTimed c polls
      → c.completed ≡ false
      → IsTimed (poll_with commit c now healthy d).0 ((now, healthy) ∷ polls)
  unfolding poll_with
  poll_with-IsTimed c polls now true d t open_yet =
      ground (arith, t.commit_kept, t.timed, opens now polls, lasts c.healthy_since_ms now polls)
  poll_with-IsTimed c polls now false d t open_yet = ground (arith, t.commit_kept)

  poll-IsTimed :
      (c : BootConfirmation Device) (polls : List Poll) (now : ℕ) (healthy : Bool) (d : Device)
      → IsTimed c polls
      → IsTimed (boot_confirmation_poll c now healthy d).0 ((now, healthy) ∷ polls)
  poll-IsTimed c polls now healthy d t = ground (
    arith,
    poll_lem c now healthy d t.commit_kept,
    t.commit_kept,
    poll_with-IsTimed c polls now healthy d t,
  )

  Polled-IsTimed :
      {c : BootConfirmation Device} {polls : List Poll} {d : Device}
      → Polled c polls d
      → IsTimed c polls
  Polled-IsTimed (start stabilization_ms d) = record {
    commit_kept = refl;
    timed = λ e on. absurd (ground arith);
  }
  Polled-IsTimed (next {c} {polls} {d} now healthy p) =
      poll-IsTimed c polls now healthy d (Polled-IsTimed p)

  committed :
      (c : BootConfirmation Device) (now : ℕ) (healthy : Bool) (d : Device)
      → c.completed ≡ false
      → (poll_with commit c now healthy d).0.completed ≡ true
      → (healthy ≡ true)
        × (c.healthy_period_active ≡ true)
        × (c.stabilization_ms ≤ sub32 now c.healthy_since_ms)
        × (poll_with commit c now healthy d ≡ (record c { completed = true }, (commit d).1))
        × ((commit d).0 ≡ true)
  unfolding poll_with
  committed c now healthy d open_yet h = ground arith

  -- However an application is polled from the start on, a poll that completes the confirmation finds
  -- it healthy, follows polls that were all healthy from the start of the period on, comes at least the
  -- stabilization time after that start, and has called the commit function, which succeeded.
  poll_completes :
      {c : BootConfirmation Device} {polls : List Poll} {d : Device} (now : ℕ) (healthy : Bool)
      → Polled c polls d
      → c.completed ≡ false
      → (boot_confirmation_poll c now healthy d).0.completed ≡ true
      → (healthy ≡ true)
        × IsHealthySince c.healthy_since_ms polls
        × (c.stabilization_ms ≤ sub32 now c.healthy_since_ms)
        × ((boot_confirmation_poll c now healthy d).1 ≡ (commit d).1)
        × ((commit d).0 ≡ true)
  poll_completes {c} {polls} {d} now healthy p open_yet h =
      let t = Polled-IsTimed p in
      ground (
        arith,
        poll_lem c now healthy d t.commit_kept,
        t.timed open_yet,
        committed c now healthy d open_yet,
      )
