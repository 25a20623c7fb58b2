-- ===== src/BootStore/Write.antt =====
-- A write that the flash controller does not disturb stores the record.
use stm32_vibe.Base.{
  ℕ, zero, suc, ◌≤◌, ◌≡◌, refl, ap, ◌∙◌, List, [], ◌∷◌, ◌++◌, length, set-length_append,
  length-snoc, snoc-append, replicate, arith,
}
use stm32_vibe.BootState.{BootState}
use stm32_vibe.BootStore.{
  Event, done, error, cut, written, state_words, state_of_words, erased, wait_ready, program_words,
  write_record,
}

-- A record of twenty words is what its words read back as.
pub state_of_words-state_words : (s : BootState) → state_of_words (state_words s) ≡ s
unfolding state_of_words
state_of_words-state_words s = refl

-- Programming all the words of a blank copy of the same length leaves exactly those words.
pub program_words_done :
    (ws before after : List ℕ) (n : ℕ)
    → length after ≡ length ws
    → length ws ≤ n
    → program_words ws (length before) (before ++ after) (replicate n done)
      ≡ (written, before ++ ws)
unfolding program_words wait_ready
program_words_done [] before [] n e h = refl
program_words_done [] before (a ∷ after) n e h = absurd (omega arith)
program_words_done (w ∷ ws) before [] n e h = absurd (omega arith)
program_words_done (w ∷ ws) before (a ∷ after) zero e h = absurd (omega arith)
program_words_done (w ∷ ws) before (a ∷ after) (suc n) e h =
    rw (set-length_append before a w after, length-snoc before w)
      (program_words_done ws (before ++ w ∷ []) after n (omega arith) (omega arith)
        ∙ ap (λ l. (written, l)) (snoc-append before w ws))

-- Whatever the controller does, success is reported only for a copy that holds the record.
pub program_words_written :
    (ws before after : List ℕ) (events : List Event)
    → length after ≡ length ws
    → (program_words ws (length before) (before ++ after) events).0 ≡ written
    → (program_words ws (length before) (before ++ after) events).1 ≡ before ++ ws
unfolding program_words wait_ready
program_words_written [] before [] events e h = refl
program_words_written [] before (a ∷ after) events e h = absurd (omega arith)
program_words_written (w ∷ ws) before [] events e h = absurd (omega arith)
program_words_written (w ∷ ws) before (a ∷ after) [] e h = cc
program_words_written (w ∷ ws) before (a ∷ after) (done ∷ events) e h =
    rw (set-length_append before a w after, length-snoc before w)
      (program_words_written ws (before ++ w ∷ []) after events (omega arith)
          (rw (set-length_append before a w after, length-snoc before w) at h)
        ∙ snoc-append before w ws)
program_words_written (w ∷ ws) before (a ∷ after) (error ∷ events) e h = cc
program_words_written (w ∷ ws) before (a ∷ after) (cut l ∷ events) e h = cc

pub write_record_done :
    (copy : List ℕ) (s : BootState) (n : ℕ)
    → length s.reserved ≡ 8
    → 23 ≤ n
    → write_record copy s (replicate n done) ≡ (written, state_words s)
unfolding write_record wait_ready
write_record_done copy s zero e h = absurd (omega arith)
write_record_done copy s (suc zero) e h = absurd (omega arith)
write_record_done copy s (suc (suc zero)) e h = absurd (omega arith)
write_record_done copy s (suc (suc (suc n))) e h =
    program_words_done (state_words s) [] erased n (omega arith) (omega arith)

pub write_record_written :
    (copy : List ℕ) (s : BootState) (events : List Event)
    → length s.reserved ≡ 8
    → (write_record copy s events).0 ≡ written
    → (write_record copy s events).1 ≡ state_words s
unfolding write_record wait_ready
write_record_written copy s (done ∷ done ∷ done ∷ events) e h =
    program_words_written (state_words s) [] erased events (omega arith) h
write_record_written copy s events e h = cc
