-- ===== src/BootStore/Save.antt =====
-- What else a save does: it succeeds on an undisturbed controller, and at the top of the generation
-- counter the new record is not the newest one any more.
use stm32_vibe.Base.{
  ℕ, ◌+◌, ◌%◌, ◌≤◌, ◌≡◌, sym, ap, ◌∙◌, subst, inl, inr, some, length, u32, replicate, arith,
}
use stm32_vibe.BootState.{BootState, boot_state_select_latest}
use stm32_vibe.BootState.Select.{select_latest_second}
use stm32_vibe.BootStore.{
  done, Copies, Report, written, state_of_words, boot_state_store_load, boot_state_store_save_next,
}
use stm32_vibe.BootStore.Write.{write_record_done, write_record_written, state_of_words-state_words}
use stm32_vibe.BootStore.Atomic.{IsPaired, selected_b, load_selected, save_even, save_odd, parity}

-- A controller that answers each of the driver's 23 questions without an error stores the record.
save_next_done :
    (c : Copies) (t : BootState) (n : ℕ)
    → length t.reserved ≡ 8
    → 23 ≤ n
    → (boot_state_store_save_next c t (replicate n done)).0 ≡ written
save_next_done c t n whole h = elim (parity t.generation) [
  | inl even ↦
      ap (λ (o : Report × Copies). o.0) (save_even c t _ even)
      ∙ ap (λ o. o.0) (write_record_done c.copy_a t n whole h)
  | inr odd ↦
      ap (λ (o : Report × Copies). o.0) (save_odd c t _ odd)
      ∙ ap (λ o. o.0) (write_record_done c.copy_b t n whole h)
]

-- When the newest record has the last generation, a record saved with the next one, which is 0 again,
-- is stored without an error and still not loaded: the old record stays the newest.
pub save_next_wraps :
    (c : Copies) (s t : BootState) (n : ℕ)
    → IsPaired (state_of_words c.copy_a) (state_of_words c.copy_b)
    → boot_state_select_latest (state_of_words c.copy_a) (state_of_words c.copy_b) ≡ some s
    → s.generation ≡ 4294967295
    → t.generation ≡ u32 (s.generation + 1)
    → length t.reserved ≡ 8
    → 23 ≤ n
    → ((boot_state_store_save_next c t (replicate n done)).0 ≡ written)
      × (boot_state_store_load (boot_state_store_save_next c t (replicate n done)).1 ≡ s)
save_next_wraps c s t n p e last wrapped whole h =
    let old = selected_b _ _ s p e (omega arith) in
    let even : t.generation % 2 ≡ 0 = omega arith in
    let a =
      ap state_of_words (
        write_record_written c.copy_a t (replicate n done) whole
          (ap (λ o. o.0) (write_record_done c.copy_a t n whole h)))
      ∙ state_of_words-state_words t in
    (
      save_next_done c t n whole h,
      subst (λ out. boot_state_store_load out.1 ≡ s) (sym (save_even c t (replicate n done) even))
          (load_selected _ s (
            ap (λ r. boot_state_select_latest r (state_of_words c.copy_b)) a
            ∙ select_latest_second t (state_of_words c.copy_b) old.1 (inr (rw old.0 (omega arith)))
            ∙ ap some old.0)),
    )
