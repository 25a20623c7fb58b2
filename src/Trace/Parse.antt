-- ===== src/Trace/Parse.antt =====
-- A reader of the records, and that it reads what was emitted (shared/trace/trace.c).
use stm32_vibe.Base.{
  ℕ, zero, suc, ◌+◌, ◌*◌, ◌/◌, ◌==◌, leb, ◌≤◌, ◌<◌, ◌≡◌, refl, ap, ◌∙◌, ◌&&◌, if◌then◌else◌, u8,
  u32_of_bytes, u32_of_bytes_lem, IsWord, List, [], ◌∷◌, ◌++◌, length, All, snoc-append, Option,
  none, some, bit_and, arith,
}
use stm32_vibe.Base.Bits.{bit_and-low}
use stm32_vibe.Trace.{header}
use stm32_vibe.Trace.Records.{Event, args_bytes, crc8, body, event_record, records}

-- Reads `n` little-endian words.
unfoldable pub parse_args : ℕ → List ℕ → Option (List ℕ × List ℕ)
parse_args zero bytes = some ([], bytes)
parse_args (suc n) (b0 ∷ b1 ∷ b2 ∷ b3 ∷ bytes) = elim (parse_args n bytes) [
  | none ↦ none
  | some (args, rest) ↦ some (u32_of_bytes b0 b1 b2 b3 ∷ args, rest)
]
parse_args (suc n) _ = none

-- The checksum after a record, over the bytes from the version on.
abbrev checked : List ℕ → Event → List ℕ → Option (Event × List ℕ)
checked head e [] = none
checked head e (crc ∷ rest) =
    if crc == crc8 0 (head ++ args_bytes e.args) then some (e, rest) else none

-- Reads a record, and gives what follows it.
unfoldable pub parse_record : List ℕ → Option (Event × List ℕ)
parse_record (s0 ∷ s1 ∷ version ∷ low ∷ high ∷ n ∷ bytes) =
    let words = parse_args n bytes in
    if (s0 == 0xA5) && (s1 == 0x5A) && (version == 1) && leb n 4
    then (elim words [
      | none ↦ none
      | some (args, rest) ↦
          checked (version ∷ low ∷ high ∷ n ∷ [])
            (record { event_id = low + high * 256; args = args }) rest
    ])
    else none
parse_record _ = none

-- Reads at most `n` records, up to the end of the bytes.
unfoldable pub parse_all : ℕ → List ℕ → Option (List Event)
parse_all n [] = some []
parse_all zero (byte ∷ bytes) = none
parse_all (suc n) (byte ∷ bytes) = elim (parse_record (byte ∷ bytes)) [
  | none ↦ none
  | some (e, rest) ↦ elim (parse_all n rest) [ none ↦ none | some log ↦ some (e ∷ log) ]
]

-- An event that `trace_emit_record` takes: a 16-bit number and at most four 32-bit words.
pub record IsEvent (e : Event) : Type 0 where
  pub short : e.event_id < 65536
  pub few : length e.args ≤ 4
  pub words : All IsWord e.args

parse_args_lem :
    (args rest : List ℕ)
    → All IsWord args
    → parse_args (length args) (args_bytes args ++ rest) ≡ some (args, rest)
unfolding parse_args
parse_args_lem [] rest h = refl
parse_args_lem (arg ∷ args) rest h =
    ground (arith, parse_args_lem args rest h.1, u32_of_bytes_lem arg h.0)

abbrev head : Event → List ℕ
head e = header e.event_id (length e.args)

number : (id : ℕ) → id < 65536 → u8 (bit_and id 0xFF) + u8 (id / 256) * 256 ≡ id
number id h = omega (arith, bit_and-low 8 id)

parse_record-event_record :
    (e : Event) (rest : List ℕ) → IsEvent e → parse_record (event_record e ++ rest) ≡ some (e, rest)
unfolding parse_record event_record
parse_record-event_record e rest v =
    let c = crc8 0 (body e) in
    let words : parse_args (length e.args) ((args_bytes e.args ++ c ∷ []) ++ rest)
        ≡ some (e.args, c ∷ rest) =
      ap (λ bytes. parse_args (length e.args) bytes) (snoc-append (args_bytes e.args) c rest)
      ∙ parse_args_lem e.args (c ∷ rest) v.words in
    ground (arith, v.few, words, number e.event_id v.short)

parse_all_cons :
    (n byte : ℕ) (bytes rest : List ℕ) (e : Event) (log : List Event)
    → parse_record (byte ∷ bytes) ≡ some (e, rest)
    → parse_all n rest ≡ some log
    → parse_all (suc n) (byte ∷ bytes) ≡ some (e ∷ log)
unfolding parse_all
parse_all_cons n byte bytes rest e log first later = ground (arith, first, later)

parse_all_none : (n : ℕ) → parse_all n [] ≡ some []
unfolding parse_all
parse_all_none n = refl

-- Records that stand one after another are read back as their events, in order.
pub parse_all-records :
    (log : List Event) → All IsEvent log → parse_all (length log) (records log) ≡ some log
unfolding event_record
parse_all-records [] h = parse_all_none 0
parse_all-records (e ∷ log) h =
    parse_all_cons (length log) 0xA5 _ (records log) e log
      (parse_record-event_record e (records log) h.0) (parse_all-records log h.1)
