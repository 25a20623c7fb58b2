-- ===== src/Tests/Trace.antt =====
-- The trace and the report of a fault, at concrete inputs.
use stm32_vibe.Base.{
  ℕ, ◌≡◌, ◌↔◌, ◌⊎◌, ◌≤◌, ◌+◌, ◌%◌, refl, true, false, List, [], ◌∷◌, ◌++◌, some, arith,
}
use stm32_vibe.Layout.{stm32f446}
use stm32_vibe.Trace.{Trace, trace_try_lock, record_steps}
use stm32_vibe.Trace.Records.{Event, records}
use stm32_vibe.Trace.Parse.{IsEvent, parse_all}
use stm32_vibe.Trace.Interrupts.{Machine, Reach, start, begun, step, go_on, left_of, Reach-parse}
use stm32_vibe.Fault.{
  FaultReport, Scb, Formats, exception_frame_is_valid, fault_handle_exception, ram_end_addr,
}
use stm32_vibe.Fault.Report.{
  report_events, fault_handle_exception-records, exception_frame_is_valid_iff,
}

abbrev tick : Event
tick = record { event_id = 0x1234; args = 7 ∷ [] }

IsEvent-tick : IsEvent tick
IsEvent-tick = record { short = omega arith; few = omega arith; words = (omega arith, tt) }

abbrev ticking : Machine
ticking = go_on (record { busy = true; out = [] }) (record_steps 0x1234 1 (7 ∷ []) ∷ [])

-- The first byte of the record was put.
Reach-ticking : Reach (tick ∷ []) ticking
unfolding trace_try_lock
Reach-ticking = step (begun tick IsEvent-tick start refl)

Reach-parse_example :
    (parse_all 1 (ticking.trace.out ++ left_of ticking.emitting) ≡ some (tick ∷ []))
    × ((ticking.trace.busy ≡ true) ⊎ (left_of ticking.emitting ≡ []))
Reach-parse_example = Reach-parse Reach-ticking

abbrev formats : Formats
formats = record { fault = 1; status = 2; addresses = 3 }

abbrev scb : Scb
scb = record { cfsr = 0x8200; hfsr = 0; mmfar = 5; bfar = 0x40000000 }

abbrev interrupted : Trace
interrupted = record { busy = true; out = 0xA5 ∷ 0x5A ∷ [] }

abbrev stacked : List ℕ
stacked = 0 ∷ 1 ∷ 2 ∷ 3 ∷ 12 ∷ 0x08010101 ∷ 0x08010202 ∷ 0x01000000 ∷ []

abbrev reported : FaultReport × Trace
reported = fault_handle_exception stm32f446 formats 0x20001000 stacked 3 scb interrupted

fault_handle_exception-records_example :
    (reported.1
      ≡ record { busy = false; out = 0xA5 ∷ 0x5A ∷ records (report_events formats reported.0) })
    × (((exception_frame_is_valid stm32f446 0x20001000 ≡ true)
          × (reported.0.lr ≡ 0x08010101)
          × (reported.0.pc ≡ 0x08010202)
          × (reported.0.xpsr ≡ 0x01000000))
        ⊎ ((exception_frame_is_valid stm32f446 0x20001000 ≡ false)
            × (reported.0.lr ≡ 0)
            × (reported.0.pc ≡ 0)
            × (reported.0.xpsr ≡ 0)))
fault_handle_exception-records_example =
    fault_handle_exception-records stm32f446 formats 0x20001000 stacked 3 scb interrupted

-- A stack that was empty before the frame was pushed leaves this address.
exception_frame_is_valid_iff_example : (exception_frame_is_valid stm32f446 0xFFFFFFE0 ≡ true) ↔ (
    (0xFFFFFFE0 % 8 ≡ 0)
    × (((0x20000000 ≤ 0xFFFFFFE0) × (0xFFFFFFE0 + 32 ≤ ram_end_addr stm32f446))
        ⊎ (4294967296 ≤ 0xFFFFFFE0 + 32)))
exception_frame_is_valid_iff_example =
    exception_frame_is_valid_iff stm32f446 0xFFFFFFE0 (omega arith)
