-- ===== src/Trace/Records.antt =====
-- The records of the trace, and how they are read back (shared/trace/trace.c).
use stm32_vibe.Base.{
  ℕ, zero, suc, ◌+◌, ◌≤◌, ◌≡◌, refl, ap, sym, ◌∙◌, u32_bytes, true, false, List, [], ◌∷◌, ◌++◌,
  length, get_or, append_assoc, append_nil, snoc-append, length-snoc, arith,
}
use stm32_vibe.Trace.{
  Trace, TraceStep, put, unlock, run_steps, itm_putchar, crc8_update, put_bytes, put_args, header,
  record_steps, trace_try_lock, trace_unlock, trace_emit_record,
}

-- A traced event: its number and its arguments.
pub record Event : Type 0 where
  pub event_id : ℕ
  pub args : List ℕ

abbrev pub args_bytes : List ℕ → List ℕ
args_bytes [] = []
args_bytes (arg ∷ args) = u32_bytes arg ++ args_bytes args

abbrev pub crc8 : ℕ → List ℕ → ℕ
crc8 crc [] = crc
crc8 crc (byte ∷ bytes) = crc8 (crc8_update crc byte) bytes

abbrev pub body : Event → List ℕ
body e = header e.event_id (length e.args) ++ args_bytes e.args

-- The bytes of a record.
unfoldable pub event_record : Event → List ℕ
event_record e = 0xA5 ∷ 0x5A ∷ (body e ++ crc8 0 (body e) ∷ [])

abbrev pub records : List Event → List ℕ
records [] = []
records (e ∷ log) = event_record e ++ records log

-- The steps that put bytes.
abbrev pub puts : List ℕ → List TraceStep
puts [] = []
puts (byte ∷ bytes) = put byte ∷ puts bytes

puts-append : (xs ys : List ℕ) → puts (xs ++ ys) ≡ puts xs ++ puts ys
puts-append [] ys = refl
puts-append (x ∷ xs) ys = ap (λ l. put x ∷ l) (puts-append xs ys)

put_bytes_lem : (bytes : List ℕ) (crc : ℕ) → put_bytes bytes crc ≡ (crc8 crc bytes, puts bytes)
unfolding put_bytes
put_bytes_lem [] crc = refl
put_bytes_lem (byte ∷ bytes) crc =
    ap (λ (p : ℕ × List TraceStep). (p.0, put byte ∷ p.1))
      (put_bytes_lem bytes (crc8_update crc byte))

crc8-append : (crc : ℕ) (xs ys : List ℕ) → crc8 crc (xs ++ ys) ≡ crc8 (crc8 crc xs) ys
crc8-append crc [] ys = refl
crc8-append crc (x ∷ xs) ys = crc8-append (crc8_update crc x) xs ys

get_or-length :
    (before : List ℕ) (arg : ℕ) (args : List ℕ)
    → get_or (before ++ arg ∷ args) (length before) 0 ≡ arg
get_or-length [] arg args = refl
get_or-length (b ∷ before) arg args = get_or-length before arg args

put_args_step :
    (n i : ℕ) (args : List ℕ) (crc : ℕ)
    → let word = u32_bytes (get_or args i 0) in
      put_args (suc n) i args crc ≡ (
        (put_args n (i + 1) args (crc8 crc word)).0,
        puts word ++ (put_args n (i + 1) args (crc8 crc word)).1,
      )
unfolding put_args
put_args_step n i args crc =
    ap
      (λ (p : ℕ × List TraceStep).
        ((put_args n (i + 1) args p.0).0, p.1 ++ (put_args n (i + 1) args p.0).1))
      (put_bytes_lem (u32_bytes (get_or args i 0)) crc)

put_args_none : (i : ℕ) (args : List ℕ) (crc : ℕ) → put_args zero i args crc ≡ (crc, [])
unfolding put_args
put_args_none i args crc = refl

put_args_lem :
    (before args : List ℕ) (crc : ℕ)
    → put_args (length args) (length before) (before ++ args) crc
      ≡ (crc8 crc (args_bytes args), puts (args_bytes args))
put_args_lem before [] crc = put_args_none (length before) (before ++ []) crc
put_args_lem before (arg ∷ args) crc =
    let word = u32_bytes arg in
    let rest = put_args_lem (before ++ arg ∷ []) args (crc8 crc word) in
    put_args_step (length args) (length before) (before ++ arg ∷ args) crc
    ∙ rw (get_or-length before arg args, length-snoc before arg, sym (snoc-append before arg args))
        (ap (λ (p : ℕ × List TraceStep). (p.0, puts word ++ p.1)) rest)
    ∙ ap (λ l. (crc8 crc (args_bytes (arg ∷ args)), l)) (sym (puts-append word (args_bytes args)))

-- What an emission does with the lock: it puts the bytes of its record, and unlocks.
pub record_steps_lem :
    (e : Event)
    → record_steps e.event_id (length e.args) e.args ≡ puts (event_record e) ++ unlock ∷ []
unfolding record_steps event_record
record_steps_lem e =
    let h = header e.event_id (length e.args) in
    let words = args_bytes e.args in
    let c = crc8 0 (body e) in
    let head = put_bytes_lem h 0 in
    let rest = put_args_lem [] e.args (crc8 0 h) in
    let all : puts ((h ++ words) ++ c ∷ []) ++ unlock ∷ []
        ≡ puts h ++ (puts words ++ (put c ∷ unlock ∷ [])) =
      ap (λ l. l ++ unlock ∷ []) (puts-append (h ++ words) (c ∷ []))
      ∙ append_assoc (puts (h ++ words)) (put c ∷ []) (unlock ∷ [])
      ∙ ap (λ l. l ++ (put c ∷ unlock ∷ [])) (puts-append h words)
      ∙ append_assoc (puts h) (puts words) (put c ∷ unlock ∷ []) in
    ap
      (λ (p : ℕ × List TraceStep).
        let (crc, args_steps) = put_args (length e.args) 0 e.args p.0 in
        put 0xA5 ∷ put 0x5A ∷ p.1 ++ args_steps ++ put crc ∷ unlock ∷ [])
      head
    ∙ ap (λ (p : ℕ × List TraceStep). put 0xA5 ∷ put 0x5A ∷ puts h ++ p.1 ++ put p.0 ∷ unlock ∷ [])
        rest
    ∙ ap (λ l. put 0xA5 ∷ put 0x5A ∷ l) (sym all)

run_steps-puts :
    (bytes : List ℕ) (t : Trace)
    → run_steps (puts bytes ++ unlock ∷ []) t ≡ trace_unlock (record t { out = t.out ++ bytes })
run_steps-puts [] t = ap (λ out. trace_unlock (record t { out = out })) (sym (append_nil t.out))
run_steps-puts (byte ∷ bytes) t =
    run_steps-puts bytes (itm_putchar t byte)
    ∙ ap (λ out. trace_unlock (record t { out = out })) (snoc-append t.out byte bytes)

-- An emission that nothing interrupts puts a whole record.
pub emit_idle :
    (e : Event) (t : Trace)
    → length e.args ≤ 4
    → t.busy ≡ false
    → trace_emit_record e.event_id (length e.args) e.args t
      ≡ record t { out = t.out ++ event_record e }
unfolding trace_emit_record trace_try_lock trace_unlock
emit_idle e t few free =
    let locked : Trace = record t { busy = true } in
    let steps = record_steps_lem e in
    let run = run_steps-puts (event_record e) locked in
    let all : run_steps (record_steps e.event_id (length e.args) e.args) locked
        ≡ trace_unlock (record locked { out = locked.out ++ event_record e }) =
      ap (λ s. run_steps s locked) steps ∙ run in
    ground (arith, few, free, all)

-- While a record is being put, an emission does nothing.
emit_busy :
    (event_id arg_count : ℕ) (args : List ℕ) (t : Trace)
    → t.busy ≡ true
    → trace_emit_record event_id arg_count args t ≡ t
unfolding trace_emit_record trace_try_lock
emit_busy event_id arg_count args t h = ground (arith, h)
