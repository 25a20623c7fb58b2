-- ===== src/Fault/Report.antt =====
-- The report of a fault comes out whole, and when the frame is read (shared/fault/fault_stm32f4.c).
use stm32_vibe.Base.{
  ℕ, ◌+◌, ◌%◌, ◌≤◌, ◌<◌, ◌≡◌, ◌↔◌, ◌⊎◌, refl, ap, sym, ◌∙◌, true, false, List, [], ◌∷◌, ◌++◌,
  get_or, append_assoc, append_nil, arith,
}
use stm32_vibe.Base.Bits.{bit_and-low}
use stm32_vibe.Layout.{Board, stm32f446, stm32l152}
use stm32_vibe.Trace.{Trace, trace_abort_record, trace_unlock, trace_emit2, trace_emit3}
use stm32_vibe.Trace.Records.{Event, event_record, records, emit_idle}
use stm32_vibe.Fault.{
  FaultReport, Scb, Formats, ram_end_addr, exception_frame_is_valid, fault_report_emit,
  fault_report_of, fault_handle_exception,
}

-- The three events of a report.
abbrev pub report_events : Formats → FaultReport → List Event
report_events formats r =
    record { event_id = formats.fault; args = r.fault_type ∷ r.pc ∷ r.lr ∷ [] }
    ∷ record { event_id = formats.status; args = r.cfsr ∷ r.hfsr ∷ [] }
    ∷ record { event_id = formats.addresses; args = r.mmfar ∷ r.bfar ∷ r.xpsr ∷ [] }
    ∷ []

trace_emit3-idle :
    (event_id a b c : ℕ) (t : Trace)
    → t.busy ≡ false
    → trace_emit3 event_id a b c t ≡ record t {
      out = t.out ++ event_record (record { event_id = event_id; args = a ∷ b ∷ c ∷ [] });
    }
unfolding trace_emit3
trace_emit3-idle event_id a b c t free =
    emit_idle (record { event_id = event_id; args = a ∷ b ∷ c ∷ [] }) t (omega arith) free

trace_emit2-idle :
    (event_id a b : ℕ) (t : Trace)
    → t.busy ≡ false
    → trace_emit2 event_id a b t
      ≡ record t { out = t.out ++ event_record (record { event_id = event_id; args = a ∷ b ∷ [] }) }
unfolding trace_emit2
trace_emit2-idle event_id a b t free =
    emit_idle (record { event_id = event_id; args = a ∷ b ∷ [] }) t (omega arith) free

three : (out x y z : List ℕ) → ((out ++ x) ++ y) ++ z ≡ out ++ (x ++ (y ++ (z ++ [])))
three out x y z =
    append_assoc (out ++ x) y z
    ∙ append_assoc out x (y ++ z)
    ∙ ap (λ (z' : List ℕ). out ++ (x ++ (y ++ z'))) (sym (append_nil z))

-- Whatever the trace was doing, a report comes out as three whole records and leaves the trace free.
fault_report_emit-records :
    (formats : Formats) (r : FaultReport) (t : Trace)
    → fault_report_emit formats r t
      ≡ record { busy = false; out = t.out ++ records (report_events formats r) }
unfolding fault_report_emit trace_abort_record trace_unlock
fault_report_emit-records formats r t =
    let x =
      event_record (record { event_id = formats.fault; args = r.fault_type ∷ r.pc ∷ r.lr ∷ [] }) in
    let y = event_record (record { event_id = formats.status; args = r.cfsr ∷ r.hfsr ∷ [] }) in
    let z =
      event_record
        (record { event_id = formats.addresses; args = r.mmfar ∷ r.bfar ∷ r.xpsr ∷ [] }) in
    let t1 : Trace = record { busy = false; out = t.out } in
    let t2 : Trace = record { busy = false; out = t.out ++ x } in
    let t3 : Trace = record { busy = false; out = (t.out ++ x) ++ y } in
    ap
      (λ t'.
        trace_emit3 formats.addresses r.mmfar r.bfar r.xpsr
          (trace_emit2 formats.status r.cfsr r.hfsr t'))
      (trace_emit3-idle formats.fault r.fault_type r.pc r.lr t1 refl)
    ∙ ap (λ t'. trace_emit3 formats.addresses r.mmfar r.bfar r.xpsr t')
        (trace_emit2-idle formats.status r.cfsr r.hfsr t2 refl)
    ∙ trace_emit3-idle formats.addresses r.mmfar r.bfar r.xpsr t3 refl
    ∙ ap (λ (out : List ℕ). record { busy = false; out = out }) (three t.out x y z)

-- A fault that strikes at any moment, even while the trace is putting a record, is reported by three
-- whole records with the fields of the report, behind what had come out. The report holds the words of
-- the stacked frame if its address passes the check, and zeros in their place if not.
pub fault_handle_exception-records :
    (b : Board) (formats : Formats) (address : ℕ) (frame : List ℕ) (fault_type : ℕ) (scb : Scb)
    (t : Trace)
    → let (report, t') = fault_handle_exception b formats address frame fault_type scb t in
      (t' ≡ record { busy = false; out = t.out ++ records (report_events formats report) })
      × (((exception_frame_is_valid b address ≡ true)
            × (report.lr ≡ get_or frame 5 0)
            × (report.pc ≡ get_or frame 6 0)
            × (report.xpsr ≡ get_or frame 7 0))
          ⊎ ((exception_frame_is_valid b address ≡ false)
              × (report.lr ≡ 0)
              × (report.pc ≡ 0)
              × (report.xpsr ≡ 0)))
unfolding fault_handle_exception fault_report_of
fault_handle_exception-records b formats address frame fault_type scb t =
    let report = fault_report_of b address frame fault_type scb in
    (fault_report_emit-records formats report t, ground arith)

-- The check of the frame's address passes exactly if it is a multiple of 8 and either all eight words lie
-- in RAM, or the frame reaches up to the end of the 32-bit address space: there the address of its end
-- wraps around, and passes for an address below the end of RAM.
pub exception_frame_is_valid_iff :
    (b : Board) (address : ℕ)
    → address < 4294967296
    → (exception_frame_is_valid b address ≡ true) ↔ (
        (address % 8 ≡ 0)
        × (((0x20000000 ≤ address) × (address + 32 ≤ ram_end_addr b))
            ⊎ (4294967296 ≤ address + 32)))
unfolding exception_frame_is_valid
exception_frame_is_valid_iff stm32f446 address h = ground (arith, bit_and-low 3 address)
exception_frame_is_valid_iff stm32l152 address h = ground (arith, bit_and-low 3 address)
