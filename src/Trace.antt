-- ===== src/Trace.antt =====
-- The binary trace (shared/trace/trace.c). What comes out is the list of the bytes that `itm_putchar` is
-- called with. The critical sections around the lock make its test and its setting one step.
pub mod Records
pub mod Parse
pub mod Interrupts
use stm32_vibe.Base.{
  ℕ, zero, suc, ◌+◌, ◌*◌, ◌/◌, ◌==◌, ◌!=◌, ltb, if◌then◌else◌, bit_and, bit_xor, u8, u16, u32_bytes,
  Bool, true, false, not, ◌||◌, List, [], ◌∷◌, ◌++◌, length, get_or,
}

abbrev trace_sync_0 : ℕ
trace_sync_0 = 0xA5

abbrev trace_sync_1 : ℕ
trace_sync_1 = 0x5A

abbrev trace_version : ℕ
trace_version = 1

abbrev trace_max_args : ℕ
trace_max_args = 4

-- `trace_busy`, and what came out.
pub record Trace : Type 0 where
  pub busy : Bool
  pub out : List ℕ

-- Whether the lock is taken, and the trace after the attempt.
unfoldable pub trace_try_lock : Trace → Bool × Trace
trace_try_lock t =
    let acquired = not t.busy in (acquired, if acquired then record t { busy = true } else t)

unfoldable pub trace_unlock : Trace → Trace
trace_unlock t = record t { busy = false }

unfoldable pub trace_abort_record : Trace → Trace
trace_abort_record t = trace_unlock t

abbrev pub itm_putchar : Trace → ℕ → Trace
itm_putchar t byte = record t { out = t.out ++ byte ∷ [] }

-- The loop of `crc8_update`, by the bits left.
unfoldable pub crc8_bits : ℕ → ℕ → ℕ
crc8_bits zero crc = crc
crc8_bits (suc n) crc =
    crc8_bits n (if bit_and crc 0x80 != 0 then u8 (bit_xor (crc * 2) 0x07) else u8 (crc * 2))

unfoldable pub crc8_update : ℕ → ℕ → ℕ
crc8_update crc value = crc8_bits 8 (bit_xor crc value)

-- What an emission that holds the lock does, one at a time: a handler may run between any two.
pub data TraceStep : Type 0 where
  put : ℕ → TraceStep
  unlock : TraceStep

abbrev pub run_step : Trace → TraceStep → Trace
run_step t (put byte) = itm_putchar t byte
run_step t unlock = trace_unlock t

abbrev pub run_steps : List TraceStep → Trace → Trace
run_steps [] t = t
run_steps (s ∷ steps) t = run_steps steps (run_step t s)

-- The loops that put a list of bytes and add them to the checksum: those over the header, and over the
-- four bytes of an argument.
unfoldable pub put_bytes : List ℕ → ℕ → ℕ × List TraceStep
put_bytes [] crc = (crc, [])
put_bytes (byte ∷ bytes) crc =
    let (crc', steps) = put_bytes bytes (crc8_update crc byte) in (crc', put byte ∷ steps)

-- The loop over the arguments, by the number left, from `arg_index` on.
unfoldable pub put_args : ℕ → ℕ → List ℕ → ℕ → ℕ × List TraceStep
put_args zero arg_index args crc = (crc, [])
put_args (suc n) arg_index args crc =
    let (crc', steps) = put_bytes (u32_bytes (get_or args arg_index 0)) crc in
    let (crc'', rest) = put_args n (arg_index + 1) args crc' in (crc'', steps ++ rest)

abbrev pub header : ℕ → ℕ → List ℕ
header event_id arg_count =
    trace_version ∷ u8 (bit_and event_id 0xFF) ∷ u8 (event_id / 256) ∷ arg_count ∷ []

-- The part of `trace_emit_record` behind its guard, from the first sync byte to the unlocking.
unfoldable pub record_steps : ℕ → ℕ → List ℕ → List TraceStep
record_steps event_id arg_count args =
    let (header_crc, header_steps) = put_bytes (header event_id arg_count) 0 in
    let (crc, args_steps) = put_args arg_count 0 args header_crc in
    put trace_sync_0 ∷ put trace_sync_1 ∷ header_steps ++ args_steps ++ put crc ∷ unlock ∷ []

unfoldable pub trace_emit_record : ℕ → ℕ → List ℕ → Trace → Trace
trace_emit_record event_id arg_count args t =
    let (acquired, locked) = trace_try_lock t in
    if ltb trace_max_args arg_count || not acquired
    then t
    else run_steps (record_steps event_id arg_count args) locked

unfoldable trace_emit0 : ℕ → Trace → Trace
trace_emit0 event_id t = trace_emit_record event_id 0 [] t

unfoldable trace_emit1 : ℕ → ℕ → Trace → Trace
trace_emit1 event_id arg0 t = trace_emit_record event_id 1 (arg0 ∷ []) t

unfoldable pub trace_emit2 : ℕ → ℕ → ℕ → Trace → Trace
trace_emit2 event_id arg0 arg1 t = trace_emit_record event_id 2 (arg0 ∷ arg1 ∷ []) t

unfoldable pub trace_emit3 : ℕ → ℕ → ℕ → ℕ → Trace → Trace
trace_emit3 event_id arg0 arg1 arg2 t = trace_emit_record event_id 3 (arg0 ∷ arg1 ∷ arg2 ∷ []) t

unfoldable trace_emit4 : ℕ → ℕ → ℕ → ℕ → ℕ → Trace → Trace
trace_emit4 event_id arg0 arg1 arg2 arg3 t =
    trace_emit_record event_id 4 (arg0 ∷ arg1 ∷ arg2 ∷ arg3 ∷ []) t
