-- ===== src/Tests.antt =====
-- The theorems at concrete inputs.
mod Memory
mod Session
mod Boot
mod Policy
mod Store
mod Protocol
mod Image
mod Can
mod Stream
mod Health
mod Loops
mod Start
mod Flash
mod StoreL1
mod Drivers
mod Platform
mod Trace
