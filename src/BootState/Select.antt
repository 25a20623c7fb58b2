-- ===== src/BootState/Select.antt =====
-- Which of the two copies `boot_state_select_latest` takes.
use stm32_vibe.Base.{◌≤◌, ◌<◌, ◌≡◌, ◌≢◌, ◌⊎◌, some, arith}
use stm32_vibe.BootState.{BootState, valid, boot_state_validate, boot_state_select_latest, is_valid}

pub select_latest_first :
    (a b : BootState)
    → boot_state_validate a ≡ valid
    → (boot_state_validate b ≢ valid) ⊎ (b.generation ≤ a.generation)
    → boot_state_select_latest a b ≡ some a
unfolding boot_state_select_latest is_valid
select_latest_first a b v h = ground arith

pub select_latest_second :
    (a b : BootState)
    → boot_state_validate b ≡ valid
    → (boot_state_validate a ≢ valid) ⊎ (a.generation < b.generation)
    → boot_state_select_latest a b ≡ some b
unfolding boot_state_select_latest is_valid
select_latest_second a b v h = ground arith

-- What the selected record is: one of the two, accepted, and not older than the other if that is
-- accepted too.
pub select_latest_newest :
    (a b s : BootState)
    → boot_state_select_latest a b ≡ some s
    → ((a ≡ s)
        × (boot_state_validate a ≡ valid)
        × ((boot_state_validate b ≢ valid) ⊎ (b.generation ≤ a.generation)))
      ⊎ ((b ≡ s)
          × (boot_state_validate b ≡ valid)
          × ((boot_state_validate a ≢ valid) ⊎ (a.generation < b.generation)))
unfolding boot_state_select_latest is_valid
select_latest_newest a b s h = ground arith
