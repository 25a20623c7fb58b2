-- ===== src/Trace/Interrupts.antt =====
-- Emissions that interrupt one another (shared/trace/trace.c).
use stm32_vibe.Base.{
  ℕ, ◌≡◌, ◌⊎◌, inl, inr, refl, ap, sym, subst, ◌∙◌, true, false, List, [], ◌∷◌, ◌++◌, length, All,
  append_assoc, append_nil, snoc-append, some,
}
use mathlib.Core.Bool.{false≢true, true≢false}
use stm32_vibe.Trace.{
  Trace, TraceStep, put, unlock, run_step, record_steps, trace_try_lock, trace_unlock,
}
use stm32_vibe.Trace.Records.{Event, event_record, records, puts, record_steps_lem}
use stm32_vibe.Trace.Parse.{IsEvent, parse_all, parse_all-records}

-- The emissions that have begun and not ended, the one that interrupts first, by the steps of
-- `trace_emit_record` that each has left. Only the first one goes on: a handler ends before what it
-- interrupts.
pub record Machine : Type 0 where
  pub trace : Trace
  pub emitting : List (List TraceStep)

-- An emission without steps has ended.
abbrev pub unless_ended : List TraceStep → List (List TraceStep) → List (List TraceStep)
unless_ended [] below = below
unless_ended (s ∷ steps) below = (s ∷ steps) ∷ below

-- The next step of the first emission, if there is one.
abbrev pub go_on : Trace → List (List TraceStep) → Machine
go_on t [] = record { trace = t; emitting = [] }
go_on t ([] ∷ below) = record { trace = t; emitting = below }
go_on t ((s ∷ steps) ∷ below) = record { trace = run_step t s; emitting = unless_ended steps below }

-- The machines that can be reached, with the events whose emission took the lock, the newest last.
-- An emission takes the lock in one step, and then does its steps one by one; between any two of them a
-- handler may begin an emission of its own. The abort of a record by a fault handler, which never goes
-- back to what it interrupts, is not among the steps.
pub data Reach : List Event → Machine → Type 0 where
  start : Reach [] (record { trace = record { busy = false; out = [] }; emitting = [] })
  refused :
      {log : List Event} {m : Machine}
      → Reach log m
      → (trace_try_lock m.trace).0 ≡ false
      → Reach log (record m { trace = (trace_try_lock m.trace).1 })
  begun :
      {log : List Event} {m : Machine} (e : Event)
      → IsEvent e
      → Reach log m
      → (trace_try_lock m.trace).0 ≡ true
      → Reach (log ++ e ∷ []) (record {
        trace = (trace_try_lock m.trace).1;
        emitting = record_steps e.event_id (length e.args) e.args ∷ m.emitting;
      })
  step : {log : List Event} {m : Machine} → Reach log m → Reach log (go_on m.trace m.emitting)

-- The bytes that are left to put, in the order in which they will be.
abbrev pub bytes_of : List TraceStep → List ℕ
bytes_of [] = []
bytes_of (put byte ∷ steps) = byte ∷ bytes_of steps
bytes_of (unlock ∷ steps) = bytes_of steps

abbrev pub left_of : List (List TraceStep) → List ℕ
left_of [] = []
left_of (steps ∷ below) = bytes_of steps ++ left_of below

-- The steps of an emission that has these bytes left.
abbrev steps_for : List ℕ → List TraceStep
steps_for bytes = puts bytes ++ unlock ∷ []

bytes_of-steps_for : (bytes : List ℕ) → bytes_of (steps_for bytes) ++ [] ≡ bytes
bytes_of-steps_for [] = refl
bytes_of-steps_for (byte ∷ bytes) = ap (λ l. byte ∷ l) (bytes_of-steps_for bytes)

-- No emission is under way and the lock is free, or there is one, and it holds the lock.
data IsLocked : Machine → List ℕ → Type 0 where
  free :
      (out : List ℕ)
      → IsLocked (record { trace = record { busy = false; out = out }; emitting = [] }) out
  held :
      (out left : List ℕ)
      → IsLocked
          (record { trace = record { busy = true; out = out }; emitting = steps_for left ∷ [] })
          (out ++ left)

-- What came out, with what is left, is the records of the events.
record IsConsistent (log : List Event) (m : Machine) : Type 0 where
  pub out : List ℕ
  pub locked : IsLocked m out
  pub bytes : out ≡ records log
  pub events : All IsEvent log

records-snoc :
    (log : List Event) (e : Event) → records (log ++ e ∷ []) ≡ records log ++ event_record e
records-snoc [] e = append_nil (event_record e)
records-snoc (x ∷ log) e =
    ap (λ bytes. event_record x ++ bytes) (records-snoc log e)
    ∙ sym (append_assoc (event_record x) (records log) (event_record e))

All-snoc :
    (log : List Event) (e : Event) → All IsEvent log → IsEvent e → All IsEvent (log ++ e ∷ [])
All-snoc [] e h v = (v, tt)
All-snoc (x ∷ log) e h v = (h.0, All-snoc log e h.1 v)

IsLocked-refused :
    (m : Machine) (out : List ℕ)
    → IsLocked m out
    → (trace_try_lock m.trace).0 ≡ false
    → IsLocked (record m { trace = (trace_try_lock m.trace).1 }) out
unfolding trace_try_lock
IsLocked-refused m out (free o) h = absurd (true≢false h)
IsLocked-refused m out (held o left) h = held o left

IsLocked-begun :
    (m : Machine) (out : List ℕ) (e : Event)
    → IsLocked m out
    → (trace_try_lock m.trace).0 ≡ true
    → IsLocked
        (record {
          trace = (trace_try_lock m.trace).1;
          emitting = record_steps e.event_id (length e.args) e.args ∷ m.emitting;
        })
        (out ++ event_record e)
unfolding trace_try_lock
IsLocked-begun m out e (free o) h =
    subst
      (λ steps.
        IsLocked (record { trace = record { busy = true; out = o }; emitting = steps ∷ [] })
          (o ++ event_record e))
      (sym (record_steps_lem e)) (held o (event_record e))
IsLocked-begun m out e (held o left) h = absurd (false≢true h)

IsLocked-go_on :
    (m : Machine) (out : List ℕ) → IsLocked m out → IsLocked (go_on m.trace m.emitting) out
unfolding trace_unlock
IsLocked-go_on m out (free o) = free o
IsLocked-go_on m out (held o []) =
    subst (IsLocked (record { trace = record { busy = false; out = o }; emitting = [] }))
      (sym (append_nil o)) (free o)
IsLocked-go_on m out (held o (byte ∷ [])) =
    subst
      (IsLocked (record {
        trace = record { busy = true; out = o ++ byte ∷ [] };
        emitting = steps_for [] ∷ [];
      }))
      (snoc-append o byte []) (held (o ++ byte ∷ []) [])
IsLocked-go_on m out (held o (byte ∷ next ∷ left)) =
    subst
      (IsLocked (record {
        trace = record { busy = true; out = o ++ byte ∷ [] };
        emitting = steps_for (next ∷ left) ∷ [];
      }))
      (snoc-append o byte (next ∷ left)) (held (o ++ byte ∷ []) (next ∷ left))

Reach-IsConsistent : {log : List Event} {m : Machine} → Reach log m → IsConsistent log m
Reach-IsConsistent start = record { out = []; locked = free []; bytes = refl; events = tt }
Reach-IsConsistent (refused {log} {m} r h) =
    let c = Reach-IsConsistent r in
    record {
      out = c.out;
      locked = IsLocked-refused m c.out c.locked h;
      bytes = c.bytes;
      events = c.events;
    }
Reach-IsConsistent (begun {log} {m} e v r h) =
    let c = Reach-IsConsistent r in
    record {
      out = c.out ++ event_record e;
      locked = IsLocked-begun m c.out e c.locked h;
      bytes = ap (λ l. l ++ event_record e) c.bytes ∙ sym (records-snoc log e);
      events = All-snoc log e c.events v;
    }
Reach-IsConsistent (step {log} {m} r) =
    let c = Reach-IsConsistent r in
    record {
      out = c.out;
      locked = IsLocked-go_on m c.out c.locked;
      bytes = c.bytes;
      events = c.events;
    }

IsLocked-bytes :
    (m : Machine) (out : List ℕ)
    → IsLocked m out
    → (m.trace.out ++ left_of m.emitting ≡ out)
      × ((m.trace.busy ≡ true) ⊎ (left_of m.emitting ≡ []))
IsLocked-bytes m out (free o) = (append_nil o, inr refl)
IsLocked-bytes m out (held o left) = (ap (λ l. o ++ l) (bytes_of-steps_for left), inl refl)

-- However emissions interrupt one another, each of them step by step as `trace_emit_record` does it, at
-- any moment what came out of the trace, with the bytes that the emission under way has left, reads back
-- as the events whose emissions took the lock, in that order, and no other bytes are in between; there is
-- nothing left while the lock is free. This is without the abort of a record by a fault handler.
pub Reach-parse :
    {log : List Event} {m : Machine}
    → Reach log m
    → (parse_all (length log) (m.trace.out ++ left_of m.emitting) ≡ some log)
      × ((m.trace.busy ≡ true) ⊎ (left_of m.emitting ≡ []))
Reach-parse {log} {m} r =
    let c = Reach-IsConsistent r in
    let all = IsLocked-bytes m c.out c.locked in
    (
      ap (λ bytes. parse_all (length log) bytes) (all.0 ∙ c.bytes) ∙ parse_all-records log c.events,
      all.1,
    )
