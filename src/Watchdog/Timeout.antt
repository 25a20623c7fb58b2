-- ===== src/Watchdog/Timeout.antt =====
-- What the watchdogs are set to (shared/hal_impl/stm32f4/watchdog.c and stm32l1/watchdog.c).
use stm32_vibe.Base.{
  ℕ, zero, suc, ◌+◌, ◌*◌, ◌-◌, ◌%◌, ◌≤◌, ◌<◌, ◌≡◌, ◌↔◌, ◌⊎◌, if◌then◌else◌, ◌==◌, ltb, not, ◌||◌,
  refl, ap, ◌∙◌, Bool, true, false, List, [], ◌∷◌, ◌++◌, replicate, arith,
}
use native.Mathlib.Decide.{dec_lt}
use stm32_vibe.Layout.{Board, stm32f446, stm32l152}
use stm32_vibe.Watchdog.{
  Write, key, prescaler, reload, Iwdg, write, timeout_ticks, max_timeout, configure,
}
use stm32_vibe.Watchdog
use stm32_vibe.WatchdogL1

-- A watchdog that runs with a timeout of at least `timeout_ms`, and of less than one tick of 64 cycles
-- more, on a clock of `lsi_hz`. It stops when a debugger halts the core, and was refreshed last.
pub record IsStarted (lsi_hz timeout_ms : ℕ) (before after : Iwdg) : Type 0 where
  pub last : ℕ
  pub in_order :
      after.writes
      ≡ before.writes ++ key 0xCCCC ∷ key 0x5555 ∷ prescaler 4 ∷ reload last ∷ key 0xAAAA ∷ []
  pub fits : last ≤ 0xFFF
  pub long_enough : timeout_ms * lsi_hz ≤ (last + 1) * 64000
  pub tight : last * 64000 < timeout_ms * lsi_hz
  pub frozen : after.stops_in_debug ≡ true

-- The ticks of a timeout, for any clock so slow that nothing overflows.
ticks_cases :
    (lsi_hz timeout_ms : ℕ)
    → 0 < timeout_ms * lsi_hz
    → timeout_ms * lsi_hz ≤ 262144000
    → let ticks = timeout_ticks lsi_hz timeout_ms in
      (1 ≤ ticks)
      × (ticks ≤ 4096)
      × (timeout_ms * lsi_hz ≤ ticks * 64000)
      × (ticks * 64000 < timeout_ms * lsi_hz + 64000)
ticks_cases lsi_hz timeout_ms h below = let cycles = timeout_ms * lsi_hz in omega arith

five_writes :
    (ws : List Write) (a b c d e : Write)
    → ((((ws ++ a ∷ []) ++ b ∷ []) ++ c ∷ []) ++ d ∷ []) ++ e ∷ [] ≡ ws ++ a ∷ b ∷ c ∷ d ∷ e ∷ []
five_writes [] a b c d e = refl
five_writes (w ∷ ws) a b c d e = ap (λ rest. w ∷ rest) (five_writes ws a b c d e)

-- A configured watchdog that is refreshed.
configured-IsStarted :
    (lsi_hz timeout_ms : ℕ) (iwdg : Iwdg) (rest : List Bool)
    → 0 < timeout_ms * lsi_hz
    → timeout_ms * lsi_hz ≤ 262144000
    → IsStarted lsi_hz timeout_ms iwdg (
        write
          (key 0xAAAA)
          (record (configure (timeout_ticks lsi_hz timeout_ms) iwdg) { updating = rest }))
configured-IsStarted lsi_hz timeout_ms iwdg rest h below =
    let ticks = timeout_ticks lsi_hz timeout_ms in
    let c = ticks_cases lsi_hz timeout_ms h below in
    record {
      last = (ticks + 4294967296 - 1) % 4294967296;
      in_order = five_writes iwdg.writes _ _ _ _ _;
      fits = omega (arith, c);
      long_enough = omega (arith, c);
      tight = omega (arith, c);
      frozen = refl;
    }

abbrev pub lsi_hz : Board → ℕ
lsi_hz stm32f446 = Watchdog.watchdog_lsi_hz
lsi_hz stm32l152 = WatchdogL1.watchdog_lsi_hz

-- The driver of a board.
unfoldable pub board_watchdog_init : Board → ℕ → Iwdg → Bool × Iwdg
board_watchdog_init stm32f446 timeout_ms iwdg = Watchdog.watchdog_init timeout_ms iwdg
board_watchdog_init stm32l152 timeout_ms iwdg = WatchdogL1.watchdog_init timeout_ms iwdg

unfoldable pub board_watchdog_refresh : Board → Iwdg → Iwdg
board_watchdog_refresh stm32f446 iwdg = Watchdog.watchdog_refresh iwdg
board_watchdog_refresh stm32l152 iwdg = WatchdogL1.watchdog_refresh iwdg

-- The readings of a status that is busy `k` times.
abbrev pub busy : ℕ → List Bool → List Bool
busy k rest = replicate k true ++ false ∷ rest

wait-settles :
    (n k : ℕ) (iwdg : Iwdg) (rest : List Bool)
    → k ≤ n
    → Watchdog.wait_update n iwdg (busy k rest) ≡ (true, record iwdg { updating = rest })
unfolding Watchdog.wait_update
wait-settles zero zero iwdg rest h = refl
wait-settles zero (suc k) iwdg rest h = absurd (omega arith)
wait-settles (suc n) zero iwdg rest h = refl
wait-settles (suc n) (suc k) iwdg rest h = wait-settles n k iwdg rest (omega arith)

wait-stuck :
    (n k : ℕ) (iwdg : Iwdg) (rest : List Bool)
    → n < k
    → (Watchdog.wait_update n iwdg (busy k rest)).0 ≡ false
unfolding Watchdog.wait_update
wait-stuck n zero iwdg rest h = absurd (omega arith)
wait-stuck zero (suc k) iwdg rest h = refl
wait-stuck (suc n) (suc k) iwdg rest h = wait-stuck n k iwdg rest (omega arith)

wait-same :
    (n : ℕ) (iwdg : Iwdg) (readings : List Bool)
    → WatchdogL1.wait_update n iwdg readings ≡ Watchdog.wait_update n iwdg readings
unfolding Watchdog.wait_update WatchdogL1.wait_update
wait-same n iwdg [] = refl
wait-same zero iwdg (b ∷ rest) = refl
wait-same (suc n) iwdg (b ∷ rest) = ground (arith, wait-same n iwdg rest)

-- What a start comes to when the status is busy `k` times.
pub record Starts (lsi_hz timeout_ms k : ℕ) (before : Iwdg) (out : Bool × Iwdg) : Type 0 where
  pub succeeds :
      (out.0 ≡ true) ↔ ((0 < timeout_ms) × (timeout_ms * lsi_hz ≤ 262144000) × (k ≤ 100000))
  pub started : out.0 ≡ true → IsStarted lsi_hz timeout_ms before out.1
  pub untouched : (timeout_ms ≡ 0) ⊎ (262144000 < timeout_ms * lsi_hz) → out.1 ≡ before

-- Both drivers come to this, by the test of the timeout and the end of the wait.
abbrev outcome : Bool → Bool × Iwdg → Iwdg → Bool × Iwdg
outcome refused (updated, waited) iwdg =
    if refused
    then (false, iwdg)
    else if not updated
    then (false, waited)
    else (true, write (key 0xAAAA) waited)

outcome-Starts :
    (lsi_hz timeout_ms k : ℕ) (refused : Bool) (iwdg : Iwdg) (rest : List Bool)
    → (refused ≡ true) ↔ ((timeout_ms ≡ 0) ⊎ (262144000 < timeout_ms * lsi_hz))
    → (0 < timeout_ms → 0 < timeout_ms * lsi_hz)
    → iwdg.updating ≡ busy k rest
    → let configured = configure (timeout_ticks lsi_hz timeout_ms) iwdg in
      Starts lsi_hz timeout_ms k iwdg
        (outcome refused (Watchdog.wait_update 100000 configured configured.updating) iwdg)
outcome-Starts lsi_hz timeout_ms k true iwdg rest test some_cycles readings = record {
  succeeds = ground (arith, test.0);
  started = λ h. absurd (ground (arith, h));
  untouched = λ h. refl;
}
outcome-Starts lsi_hz timeout_ms k false iwdg rest test some_cycles readings =
    let configured = configure (timeout_ticks lsi_hz timeout_ms) iwdg in
    let in_range : (0 < timeout_ms) × (timeout_ms * lsi_hz ≤ 262144000) = ground (arith, test.1) in
    let waited = Watchdog.wait_update 100000 configured configured.updating in
    let same : waited ≡ Watchdog.wait_update 100000 configured (busy k rest) =
      ap (λ r. Watchdog.wait_update 100000 configured r) readings in
    elim (dec_lt 100000 k) [
      | yes long ↦
          let failed : waited.0 ≡ false =
            ap (λ w. w.0) same ∙ wait-stuck 100000 k configured rest long in
          record {
            succeeds = ground (arith, failed, long);
            started = λ h. absurd (ground (arith, failed, h));
            untouched = λ h. absurd (ground (arith, in_range, h));
          }
      | no short ↦
          let done = same ∙ wait-settles 100000 k configured rest (omega arith) in
          let started =
            configured-IsStarted lsi_hz timeout_ms iwdg rest (some_cycles in_range.0) in_range.1 in
          rw done record {
            succeeds = ground (arith, in_range, short);
            started = λ h. started;
            untouched = λ h. absurd (ground (arith, in_range, h));
          }
    ]

-- A watchdog of either board whose status is busy `k` times and then is not is started exactly for a
-- timeout other than 0 that takes at most 4096 ticks of 64 cycles of its clock, and for at most 100000
-- busy readings. It then runs with a period of at least the timeout and of less than one tick more, and
-- was refreshed last. For another timeout it is left alone.
pub board_watchdog_init-Starts :
    (b : Board) (timeout_ms k : ℕ) (iwdg : Iwdg) (rest : List Bool)
    → iwdg.updating ≡ busy k rest
    → Starts (lsi_hz b) timeout_ms k iwdg (board_watchdog_init b timeout_ms iwdg)
unfolding board_watchdog_init Watchdog.watchdog_init Watchdog.watchdog_refresh
    WatchdogL1.watchdog_init WatchdogL1.watchdog_refresh
board_watchdog_init-Starts stm32f446 timeout_ms k iwdg rest readings =
    outcome-Starts 32000 timeout_ms k ((timeout_ms == 0) || ltb 8192 timeout_ms) iwdg rest
      (ground arith) (λ h. omega arith) readings
board_watchdog_init-Starts stm32l152 timeout_ms k iwdg rest readings =
    rw (wait-same 100000 _ iwdg.updating) (
      outcome-Starts 37000 timeout_ms k ((timeout_ms == 0) || ltb 7084 timeout_ms) iwdg rest
        (ground arith) (λ h. omega arith) readings)
