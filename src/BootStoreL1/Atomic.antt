-- ===== src/BootStoreL1/Atomic.antt =====
-- Saving a record on the STM32L152 is atomic.
use stm32_vibe.Base.{
  ℕ, ◌+◌, ◌%◌, ◌≡◌, ◌≢◌, refl, sym, ◌∙◌, subst, ◌⊎◌, inl, inr, some, IsWord, All, List, [], ◌∷◌,
  ◌++◌, length, set-length_append, length-snoc, snoc-append, replicate, u32_of_bytes_lem, arith,
}
use stm32_vibe.Base.Bits.{bit_and-one}
use stm32_vibe.BootState.{BootState, valid, boot_state_validate, boot_state_select_latest}
use stm32_vibe.BootStore.{
  Event, done, Copies, Report, written, state_words, state_of_words, wait_ready,
  boot_state_store_load as load_f4,
}
use stm32_vibe.BootStore.Atomic.{IsPaired, parity, LeavesTorn, Outcome, atomic_even, atomic_odd}
use stm32_vibe.BootStoreL1.{
  word_of_bytes, program_words, erase_page, write_record, boot_state_store_save_next,
  boot_state_store_load,
}

word_of_bytes_lem : (w : ℕ) → IsWord w → word_of_bytes w ≡ w
unfolding word_of_bytes
word_of_bytes_lem w h = u32_of_bytes_lem w h

-- Whatever the controller does, success is reported only for a copy that holds the record.
program_words-written :
    (ws before after : List ℕ) (events : List Event)
    → All IsWord ws
    → length after ≡ length ws
    → (program_words ws (length before) (before ++ after) events).0 ≡ written
    → (program_words ws (length before) (before ++ after) events).1 ≡ before ++ ws
unfolding program_words wait_ready
program_words-written [] before [] events v e h = refl
program_words-written [] before (a ∷ after) events v e h = absurd (omega arith)
program_words-written (w ∷ ws) before [] events v e h = absurd (omega arith)
program_words-written (w ∷ ws) before (a ∷ after) (done ∷ done ∷ events) v e h =
    let same = word_of_bytes_lem w v.0 in
    rw (same, set-length_append before a w after, length-snoc before w)
      (program_words-written ws (before ++ w ∷ []) after events v.1 (omega arith)
          (rw (same, set-length_append before a w after, length-snoc before w) at h)
        ∙ snoc-append before w ws)
program_words-written (w ∷ ws) before (a ∷ after) events v e h = cc

write_record-written :
    (blank : ℕ) (copy : List ℕ) (s : BootState) (events : List Event)
    → All IsWord (state_words s)
    → length s.reserved ≡ 8
    → (write_record blank copy s events).0 ≡ written
    → (write_record blank copy s events).1 ≡ state_words s
unfolding write_record erase_page wait_ready
write_record-written blank copy s (done ∷ done ∷ done ∷ done ∷ events) v e h =
    program_words-written (state_words s) [] (replicate 20 blank) events v (omega arith) h
write_record-written blank copy s events v e h = cc

module _ (blank : ℕ) (c : Copies) (t : BootState) (events : List Event) where
  save_even :
      t.generation % 2 ≡ 0
      → boot_state_store_save_next blank c t events ≡ (
        (write_record blank c.copy_a t events).0,
        record c { copy_a = (write_record blank c.copy_a t events).1 },
      )
  unfolding boot_state_store_save_next
  save_even h = ground (arith, bit_and-one t.generation)

  save_odd :
      t.generation % 2 ≡ 1
      → boot_state_store_save_next blank c t events ≡ (
        (write_record blank c.copy_b t events).0,
        record c { copy_b = (write_record blank c.copy_b t events).1 },
      )
  unfolding boot_state_store_save_next
  save_odd h = ground (arith, bit_and-one t.generation)

load-same : (c : Copies) → boot_state_store_load c ≡ load_f4 c
unfolding boot_state_store_load load_f4
load-same c = refl

outcome_here :
    (out : Report × Copies) (s t : BootState)
    → Outcome out s t
    → ((out.0 ≡ written) × (boot_state_store_load out.1 ≡ t))
      ⊎ ((out.0 ≢ written) × (boot_state_store_load out.1 ≡ s))
outcome_here out s t (inl w) = inl (w.0, load-same out.1 ∙ w.1)
outcome_here out s t (inr n) = inr (n.0, load-same out.1 ∙ n.1)

-- On the STM32L152, let the store hold paired copies, of which `s` is the newest accepted record, and
-- save an accepted record `t` of eight reserved words with the next generation, all of its words of 32
-- bits. If the write reports success, a later load gives `t`. If it fails or the power goes, at any
-- event, a later load gives `s`, as long as a copy that was left half written is not accepted. This is
-- so for any word that an erased page reads.
pub save_next_atomic_pages :
    (blank : ℕ) (c : Copies) (s t : BootState) (events : List Event)
    → IsPaired (state_of_words c.copy_a) (state_of_words c.copy_b)
    → boot_state_select_latest (state_of_words c.copy_a) (state_of_words c.copy_b) ≡ some s
    → t.generation ≡ s.generation + 1
    → boot_state_validate t ≡ valid
    → All IsWord (state_words t)
    → length t.reserved ≡ 8
    → let out = boot_state_store_save_next blank c t events in
      (out.0 ≢ written → LeavesTorn c out.1)
      → ((out.0 ≡ written) × (boot_state_store_load out.1 ≡ t))
        ⊎ ((out.0 ≢ written) × (boot_state_store_load out.1 ≡ s))
save_next_atomic_pages blank c s t events p e newer ok words whole torn =
    outcome_here (boot_state_store_save_next blank c t events) s t (elim (parity t.generation) [
      | inl even ↦
          let saved = save_even blank c t events even in
          subst (λ out. Outcome out s t) (sym saved)
            (atomic_even c s t (write_record blank c.copy_a t events)
              (write_record-written blank c.copy_a t events words whole) p e newer ok even
              (λ n. (subst (λ out. out.0 ≢ written → LeavesTorn c out.1) saved torn n).0))
      | inr odd ↦
          let saved = save_odd blank c t events odd in
          subst (λ out. Outcome out s t) (sym saved)
            (atomic_odd c s t (write_record blank c.copy_b t events)
              (write_record-written blank c.copy_b t events words whole) p e newer ok odd
              (λ n. (subst (λ out. out.0 ≢ written → LeavesTorn c out.1) saved torn n).1))
    ])
