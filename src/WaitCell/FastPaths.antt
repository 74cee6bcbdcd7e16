-- ===== src/WaitCell/FastPaths.antt =====
-- The one-exchange paths of a resumed owner agree with the loops (crates/vthread/src/wait_finish.rs).
use vthread.Prelude.{
  ℕ, ◌%◌, ◌^◌, ◌≤◌, ◌⊎◌, ◌≡◌, refl, true, inl, inr, Option, none, some, returns, ==_iff, arith, ap,
  sym, ◌∙◌, Bool-cases,
}
use vthread.WaitWord.{
  max_generation, ready, ResourceSelection, permit, phase, generation, has_permit, is_closed,
  uses_fallback_hub, resource,
}
use vthread.WaitWord.Fields.{Fields, pack, retire_fields}
use vthread.WaitWord.Refinement.{queries-pack}
use vthread.WaitCell.{
  resumes, exchanges, same_word, plain_selected, finish, finish_permit, finish_ready,
  finish_permit_ready,
}

-- Equal words have equal fields.
pub same_word_lem : (a b : Fields) → same_word a b ≡ true → a ≡ b
same_word_lem a b h =
    let words : pack a ≡ pack b = ground (arith, (==_iff (pack a).raw (pack b).raw).0 h) in
    let qa = queries-pack a in
    let qb = queries-pack b in
    let same_phase : returns a.phase ≡ returns b.phase = sym qa.0 ∙ (ap phase words ∙ qb.0) in
    let same_generation : a.generation ≡ b.generation = sym qa.1 ∙ (ap generation words ∙ qb.1) in
    let same_permit : a.permit ≡ b.permit = sym qa.2 ∙ (ap has_permit words ∙ qb.2) in
    let same_closed : a.closed ≡ b.closed = sym qa.3 ∙ (ap is_closed words ∙ qb.3) in
    let same_resource : returns a.resource ≡ returns b.resource =
      sym qa.4 ∙ (ap resource words ∙ qb.4) in
    let same_hub : a.fallback ≡ b.fallback = sym qa.5 ∙ (ap uses_fallback_hub words ∙ qb.5) in cc

finish-plain_selected :
    (g : ℕ) (r : Option ResourceSelection)
    → finish (g % 2 ^ 55) (plain_selected g r)
      ≡ exchanges (retire_fields (plain_selected g r)) (resumes ready)
unfolding finish
finish-plain_selected g r = ground arith

finish_permit-plain_selected :
    (g : ℕ)
    → finish_permit (g % 2 ^ 55) (plain_selected g (some permit))
      ≡ exchanges (retire_fields (plain_selected g none)) (resumes ready)
unfolding finish_permit
finish_permit-plain_selected g = ground arith

-- The one-exchange resumption gives what the loop gives, for the generation or for its low bits.
pub finish_ready_cases :
    (g : ℕ) (r : Option ResourceSelection) (f : Fields)
    → (finish_ready g r f ≡ finish g f) ⊎ (finish_ready g r f ≡ finish (g % 2 ^ 55) f)
unfolding finish_ready
finish_ready_cases g r f = elim (Bool-cases (same_word f (plain_selected g r))) [
  | inr slow ↦ inl (rw slow refl)
  | inl fast ↦
      let same : f ≡ plain_selected g r = same_word_lem f (plain_selected g r) fast in
      inr (rw fast (sym (ap (finish (g % 2 ^ 55)) same ∙ finish-plain_selected g r)))
]

-- So does the one that consumes a permit.
pub finish_permit_ready_cases :
    (g : ℕ) (f : Fields)
    → (finish_permit_ready g f ≡ finish_permit g f)
      ⊎ (finish_permit_ready g f ≡ finish_permit (g % 2 ^ 55) f)
unfolding finish_permit_ready
finish_permit_ready_cases g f = elim (Bool-cases (same_word f (plain_selected g (some permit)))) [
  | inr slow ↦ inl (rw slow refl)
  | inl fast ↦
      let same : f ≡ plain_selected g (some permit) =
        same_word_lem f (plain_selected g (some permit)) fast in
      inr (rw fast (sym (ap (finish_permit (g % 2 ^ 55)) same ∙ finish_permit-plain_selected g)))
]

low_bits : (g : ℕ) → g ≤ max_generation → g % 2 ^ 55 ≡ g
low_bits g h = omega (arith, h)

-- Whatever the word is, the one-exchange resumption of an owner gives what the loop gives, for every
-- generation that a word can hold.
pub finish_ready-finish :
    (g : ℕ) (r : Option ResourceSelection) (f : Fields)
    → g ≤ max_generation
    → finish_ready g r f ≡ finish g f
finish_ready-finish g r f h = elim (finish_ready_cases g r f) [
  | inl e ↦ e
  | inr e ↦ e ∙ ap (λ k. finish k f) (low_bits g h)
]

-- So does the one that consumes a permit.
pub finish_permit_ready-finish_permit :
    (g : ℕ) (f : Fields) → g ≤ max_generation → finish_permit_ready g f ≡ finish_permit g f
finish_permit_ready-finish_permit g f h = elim (finish_permit_ready_cases g f) [
  | inl e ↦ e
  | inr e ↦ e ∙ ap (λ k. finish_permit k f) (low_bits g h)
]
