-- ===== src/Fault.antt =====
-- The report of a processor fault (shared/fault/fault_stm32f4.c, fault_report.c), in a build with the
-- trace (ENABLE_SWO_TRACE). The assembly that finds the stacked frame and the set-up of the trace port
-- have no counterpart; the handler ends here where the code sleeps for ever. The STM32L1 differs in the
-- end of its RAM.
pub mod Report
use stm32_vibe.Base.{
  ℕ, ◌+◌, ◌*◌, ◌==◌, ◌!=◌, leb, if◌then◌else◌, bit_and, u32, Bool, true, false, ◌&&◌, List, get_or,
}
use stm32_vibe.Layout.{Board, stm32f446, stm32l152}
use stm32_vibe.Trace.{Trace, trace_abort_record, trace_emit2, trace_emit3}

abbrev pub ram_start_addr : ℕ
ram_start_addr = 0x20000000

abbrev pub ram_end_addr : Board → ℕ
ram_end_addr stm32f446 = 0x20020000
ram_end_addr stm32l152 = 0x20014000

abbrev exception_frame_words : ℕ
exception_frame_words = 8

-- `fault_report_t`.
pub record FaultReport : Type 0 where
  pub fault_type : ℕ
  pub pc : ℕ
  pub lr : ℕ
  pub xpsr : ℕ
  pub cfsr : ℕ
  pub hfsr : ℕ
  pub mmfar : ℕ
  pub bfar : ℕ

-- The registers of the system control block that are read.
pub record Scb : Type 0 where
  pub cfsr : ℕ
  pub hfsr : ℕ
  pub mmfar : ℕ
  pub bfar : ℕ

-- On the address of the frame, a 32-bit number.
unfoldable pub exception_frame_is_valid : Board → ℕ → Bool
exception_frame_is_valid b address =
    let last_word = u32 (address + exception_frame_words * 4) in
    (bit_and address 0x7 == 0) && leb ram_start_addr address && leb last_word (ram_end_addr b)

-- The numbers that the linker gives to the three formats.
pub record Formats : Type 0 where
  pub fault : ℕ
  pub status : ℕ
  pub addresses : ℕ

unfoldable pub fault_report_emit : Formats → FaultReport → Trace → Trace
fault_report_emit formats r t =
    let t1 = trace_abort_record t in
    let t2 = trace_emit3 formats.fault r.fault_type r.pc r.lr t1 in
    let t3 = trace_emit2 formats.status r.cfsr r.hfsr t2 in
    trace_emit3 formats.addresses r.mmfar r.bfar r.xpsr t3

-- The report that `fault_handle_exception` fills in; `frame` holds the words at `address`.
unfoldable pub fault_report_of : Board → ℕ → List ℕ → ℕ → Scb → FaultReport
fault_report_of b address frame fault_type scb =
    let cleared : FaultReport = record {
      fault_type = fault_type;
      pc = 0;
      lr = 0;
      xpsr = 0;
      cfsr = scb.cfsr;
      hfsr = scb.hfsr;
      mmfar = if bit_and scb.cfsr 0x80 != 0 then scb.mmfar else 0;
      bfar = if bit_and scb.cfsr 0x8000 != 0 then scb.bfar else 0;
    } in
    if exception_frame_is_valid b address
    then record cleared { lr = get_or frame 5 0; pc = get_or frame 6 0; xpsr = get_or frame 7 0 }
    else cleared

unfoldable pub fault_handle_exception :
    Board → Formats → ℕ → List ℕ → ℕ → Scb → Trace → FaultReport × Trace
fault_handle_exception b formats address frame fault_type scb t =
    let report = fault_report_of b address frame fault_type scb in
    (report, fault_report_emit formats report t)
