-- ===== src/ParkedTasks/Growth.antt =====
-- The slots of one ownership class: growing, filling and clearing (crates/vthread/src/parked_tasks.rs).
use vthread.Prelude.{
  ℕ, zero, suc, ◌+◌, ◌-◌, ◌<◌, ◌≡◌, refl, inl, inr, Option, none, some, List, [], ◌∷◌, ◌++◌, length,
  get_elem?, set, arith, replicate, leb, leb→le, length-replicate, length-append, ap, Bool-cases,
}
use vthread.TaskSlab.{flatten}
use vthread.ParkedTasks.{ParkedTask, ParkedTasks, Slots, grow, occupied, iter}

-- The count is the number of records.
abbrev pub IsCounted : ParkedTasks → Type 0
IsCounted t = t.count ≡ length (iter t)

flatten-replicate :
    (n i : ℕ) → flatten (get_elem? (replicate {A = Option ParkedTask} n none) i) ≡ none
flatten-replicate zero i = refl
flatten-replicate (suc n) zero = refl
flatten-replicate (suc n) (suc i) = flatten-replicate n i

flatten-append :
    (s : Slots) (n i : ℕ) → flatten (get_elem? (s ++ replicate n none) i) ≡ flatten (get_elem? s i)
flatten-append [] n i = flatten-replicate n i
flatten-append (o ∷ s) n zero = refl
flatten-append (o ∷ s) n (suc i) = flatten-append s n i

occupied-append : (s : Slots) (n : ℕ) → occupied (s ++ replicate n none) ≡ occupied s
unfolding occupied
occupied-append [] zero = refl
occupied-append [] (suc n) = occupied-append [] n
occupied-append (none ∷ s) n = occupied-append s n
occupied-append (some p ∷ s) n = ap (λ (l : List ParkedTask). p ∷ l) (occupied-append s n)

-- Growing keeps every record and makes room for the index.
pub grow_lem :
    (i : ℕ) (s : Slots)
    → (i < length (grow i s))
      × ((j : ℕ) → flatten (get_elem? (grow i s) j) ≡ flatten (get_elem? s j))
      × (occupied (grow i s) ≡ occupied s)
unfolding grow
grow_lem i s = elim (Bool-cases (leb (length s) i)) [
  | inl short ↦ rw short (
    omega (
      arith,
      leb→le (length s) i short,
      length-append s (replicate {A = Option ParkedTask} (i + 1 - length s) none),
      length-replicate {A = Option ParkedTask} (i + 1 - length s) none,
    ),
    λ j. flatten-append s (i + 1 - length s) j,
    occupied-append s (i + 1 - length s),
  )
  | inr long ↦ rw long (ground arith, λ j. refl, refl)
]

pub occupied-fill :
    (s : Slots) (i : ℕ) (p : ParkedTask)
    → i < length s
    → flatten (get_elem? s i) ≡ none
    → length (occupied (set s i (some p))) ≡ suc (length (occupied s))
unfolding occupied
occupied-fill [] i p h e = absurd (omega arith)
occupied-fill (none ∷ s) zero p h e = refl
occupied-fill (some q ∷ s) zero p h e = absurd (cc)
occupied-fill (none ∷ s) (suc i) p h e = occupied-fill s i p (omega arith) e
occupied-fill (some q ∷ s) (suc i) p h e = ap suc (occupied-fill s i p (omega arith) e)

pub occupied-clear :
    (s : Slots) (i : ℕ) (p : ParkedTask)
    → flatten (get_elem? s i) ≡ some p
    → suc (length (occupied (set s i none))) ≡ length (occupied s)
unfolding occupied
occupied-clear [] i p e = absurd (cc)
occupied-clear (none ∷ s) zero p e = absurd (cc)
occupied-clear (some q ∷ s) zero p e = refl
occupied-clear (none ∷ s) (suc i) p e = occupied-clear s i p e
occupied-clear (some q ∷ s) (suc i) p e = ap suc (occupied-clear s i p e)
