-- ===== src/BootStore/Atomic.antt =====
-- Saving a record is atomic: after a reset at any moment of the write, the store holds the old record
-- or the new one.
use stm32_vibe.Base.{
  ℕ, ◌+◌, ◌%◌, ◌≡◌, ◌≢◌, sym, ap, ◌∙◌, subst, ◌⊎◌, inl, inr, some, List, length, arith,
}
use stm32_vibe.Base.Bits.{bit_and-one}
use stm32_vibe.BootState.{BootState, valid, boot_state_validate, boot_state_select_latest}
use stm32_vibe.BootState.Select.{select_latest_first, select_latest_second, select_latest_newest}
use stm32_vibe.BootStore.{
  Event, Copies, Report, written, state_words, state_of_words, write_record, boot_state_store_load,
  boot_state_store_save_next,
}
use stm32_vibe.BootStore.Write.{write_record_written, state_of_words-state_words}

-- An accepted copy A has an even generation and an accepted copy B an odd one.
pub record IsPaired (a b : BootState) : Type 0 where
  pub even_a : boot_state_validate a ≡ valid → a.generation % 2 ≡ 0
  pub odd_b : boot_state_validate b ≡ valid → b.generation % 2 ≡ 1

pub selected_b :
    (a b s : BootState)
    → IsPaired a b
    → boot_state_select_latest a b ≡ some s
    → s.generation % 2 ≡ 1
    → (b ≡ s) × (boot_state_validate b ≡ valid)
selected_b a b s p e odd =
    ground (arith, select_latest_newest a b s e, p.even_a, ap (λ (r : BootState). r.generation))

selected_a :
    (a b s : BootState)
    → IsPaired a b
    → boot_state_select_latest a b ≡ some s
    → s.generation % 2 ≡ 0
    → (a ≡ s) × (boot_state_validate a ≡ valid)
selected_a a b s p e odd =
    ground (arith, select_latest_newest a b s e, p.odd_b, ap (λ (r : BootState). r.generation))

module _ (a b s t : BootState) (p : IsPaired a b) (e : boot_state_select_latest a b ≡ some s)
    (newer : t.generation ≡ s.generation + 1) (ok : boot_state_validate t ≡ valid) where
  new_in_a : t.generation % 2 ≡ 0 → boot_state_select_latest t b ≡ some t
  new_in_a even =
      let old = selected_b a b s p e (omega arith) in
      select_latest_first t b ok (inr (rw old.0 (omega arith)))

  new_in_b : t.generation % 2 ≡ 1 → boot_state_select_latest a t ≡ some t
  new_in_b odd =
      let old = selected_a a b s p e (omega arith) in
      select_latest_second a t ok (inr (rw old.0 (omega arith)))

  old_in_b :
      (left : BootState)
      → t.generation % 2 ≡ 0
      → (left ≡ a) ⊎ (boot_state_validate left ≢ valid)
      → boot_state_select_latest left b ≡ some s
  old_in_b left even (inl same) = rw same e
  old_in_b left even (inr torn) =
      let old = selected_b a b s p e (omega arith) in
      select_latest_second left b old.1 (inl torn) ∙ ap some old.0

  old_in_a :
      (left : BootState)
      → t.generation % 2 ≡ 1
      → (left ≡ b) ⊎ (boot_state_validate left ≢ valid)
      → boot_state_select_latest a left ≡ some s
  old_in_a left odd (inl same) = rw same e
  old_in_a left odd (inr torn) =
      let old = selected_a a b s p e (omega arith) in
      select_latest_first a left old.1 (inl torn) ∙ ap some old.0

pub load_selected :
    (c : Copies) (s : BootState)
    → boot_state_select_latest (state_of_words c.copy_a) (state_of_words c.copy_b) ≡ some s
    → boot_state_store_load c ≡ s
unfolding boot_state_store_load
load_selected c s e = ground arith

pub save_even :
    (c : Copies) (t : BootState) (events : List Event)
    → t.generation % 2 ≡ 0
    → boot_state_store_save_next c t events ≡ (
      (write_record c.copy_a t events).0,
      record c { copy_a = (write_record c.copy_a t events).1 },
    )
unfolding boot_state_store_save_next
save_even c t events h = ground (arith, bit_and-one t.generation)

pub save_odd :
    (c : Copies) (t : BootState) (events : List Event)
    → t.generation % 2 ≡ 1
    → boot_state_store_save_next c t events ≡ (
      (write_record c.copy_b t events).0,
      record c { copy_b = (write_record c.copy_b t events).1 },
    )
unfolding boot_state_store_save_next
save_odd c t events h = ground (arith, bit_and-one t.generation)

-- A copy that is not as it was holds nothing that the checks accept.
abbrev pub IsTorn : List ℕ → List ℕ → Type 0
IsTorn before after = (after ≡ before) ⊎ (boot_state_validate (state_of_words after) ≢ valid)

abbrev pub LeavesTorn : Copies → Copies → Type 0
LeavesTorn before after = IsTorn before.copy_a after.copy_a × IsTorn before.copy_b after.copy_b

is_written : (r : Report) → (r ≡ written) ⊎ (r ≢ written)
is_written r = ground arith

torn_state :
    (before after : List ℕ)
    → IsTorn before after
    → (state_of_words after ≡ state_of_words before)
      ⊎ (boot_state_validate (state_of_words after) ≢ valid)
torn_state before after (inl same) = inl (ap state_of_words same)
torn_state before after (inr torn) = inr torn

abbrev pub Outcome : Report × Copies → BootState → BootState → Type 0
Outcome out s t =
    ((out.0 ≡ written) × (boot_state_store_load out.1 ≡ t))
    ⊎ ((out.0 ≢ written) × (boot_state_store_load out.1 ≡ s))

module _ (c : Copies) (s t : BootState) (out : Report × List ℕ)
    (stores : out.0 ≡ written → out.1 ≡ state_words t)
    (p : IsPaired (state_of_words c.copy_a) (state_of_words c.copy_b))
    (e : boot_state_select_latest (state_of_words c.copy_a) (state_of_words c.copy_b) ≡ some s)
    (newer : t.generation ≡ s.generation + 1) (ok : boot_state_validate t ≡ valid) where
  abbrev old_a : BootState
  old_a = state_of_words c.copy_a

  abbrev old_b : BootState
  old_b = state_of_words c.copy_b

  pub atomic_even :
      t.generation % 2 ≡ 0
      → (out.0 ≢ written → IsTorn c.copy_a out.1)
      → Outcome (out.0, record c { copy_a = out.1 }) s t
  atomic_even even torn = elim (is_written out.0) [
    | inl w ↦ inl (
      w,
      load_selected _ t (
          ap (λ r. boot_state_select_latest r old_b)
            (ap state_of_words (stores w) ∙ state_of_words-state_words t)
          ∙ new_in_a old_a old_b s t p e newer ok even),
    )
    | inr n ↦ inr (
      n,
      load_selected _ s (
          old_in_b old_a old_b s t p e newer ok (state_of_words out.1) even
            (torn_state _ _ (torn n))),
    )
  ]

  pub atomic_odd :
      t.generation % 2 ≡ 1
      → (out.0 ≢ written → IsTorn c.copy_b out.1)
      → Outcome (out.0, record c { copy_b = out.1 }) s t
  atomic_odd odd torn = elim (is_written out.0) [
    | inl w ↦ inl (
      w,
      load_selected _ t (
          ap (λ r. boot_state_select_latest old_a r)
            (ap state_of_words (stores w) ∙ state_of_words-state_words t)
          ∙ new_in_b old_a old_b s t p e newer ok odd),
    )
    | inr n ↦ inr (
      n,
      load_selected _ s (
          old_in_a old_a old_b s t p e newer ok (state_of_words out.1) odd
            (torn_state _ _ (torn n))),
    )
  ]

pub parity : (n : ℕ) → (n % 2 ≡ 0) ⊎ (n % 2 ≡ 1)
parity n = omega arith

-- Let the store hold paired copies, of which `s` is the newest accepted record, and save an accepted
-- record `t` of eight reserved words with the next generation. If the write reports success, a later
-- load gives `t`. If it fails or the power goes, at any event, a later load gives `s`, as long as a
-- copy that was left half written is not accepted.
pub save_next_atomic :
    (c : Copies) (s t : BootState) (events : List Event)
    → IsPaired (state_of_words c.copy_a) (state_of_words c.copy_b)
    → boot_state_select_latest (state_of_words c.copy_a) (state_of_words c.copy_b) ≡ some s
    → t.generation ≡ s.generation + 1
    → boot_state_validate t ≡ valid
    → length t.reserved ≡ 8
    → ((boot_state_store_save_next c t events).0 ≢ written
        → LeavesTorn c (boot_state_store_save_next c t events).1)
    → (((boot_state_store_save_next c t events).0 ≡ written)
        × (boot_state_store_load (boot_state_store_save_next c t events).1 ≡ t))
      ⊎ (((boot_state_store_save_next c t events).0 ≢ written)
          × (boot_state_store_load (boot_state_store_save_next c t events).1 ≡ s))
save_next_atomic c s t events p e newer ok whole torn = elim (parity t.generation) [
  | inl even ↦
      let saved = save_even c t events even in
      subst (λ out. Outcome out s t) (sym saved)
        (atomic_even c s t (write_record c.copy_a t events)
          (write_record_written c.copy_a t events whole) p e newer ok even
          (λ n. (subst (λ out. out.0 ≢ written → LeavesTorn c out.1) saved torn n).0))
  | inr odd ↦
      let saved = save_odd c t events odd in
      subst (λ out. Outcome out s t) (sym saved)
        (atomic_odd c s t (write_record c.copy_b t events)
          (write_record_written c.copy_b t events whole) p e newer ok odd
          (λ n. (subst (λ out. out.0 ≢ written → LeavesTorn c out.1) saved torn n).1))
]
