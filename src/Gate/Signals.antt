-- ===== src/Gate/Signals.antt =====
-- A signal with nobody between its turns, and its effect (crates/vthread/src/sync/gate.rs).
use vthread.Prelude.{ℕ, ◌≡◌, ◌⊎◌, none, some, List, [], ◌∷◌, ◌++◌, All}
use vthread.WaitWord.{permit}
use vthread.Gate.{Gate, World, update, store_permit}
use vthread.Gate.Waits.{WaitApi}

module _ {C : Type 0} (api : WaitApi C) where
  -- Nobody in a queue accepts a permit.
  abbrev pub Unwilling : (ℕ → C) → List ℕ → Type 0
  Unwilling waits is = All (λ i. api.offer permit (waits i) ≡ none) is

  -- The oldest willing waiter of a queue has the permit and everybody up to it has left; with none
  -- willing the permit is stored.
  abbrev pub HandsOver : World C → World C → Type 0
  HandsOver w v =
      (Unwilling w.waits w.gate.entries
        × (v ≡ record w { gate = store_permit (record w.gate { entries = [] }) }))
      ⊎ ((before : List ℕ) × (i : ℕ) × (behind : List ℕ) × (c : C) × (w.gate.entries
            ≡ before ++ i ∷ behind)
          × Unwilling w.waits before
          × (api.offer permit (w.waits i) ≡ some c)
          × (v ≡ record { gate = record w.gate { entries = behind }; waits = update w.waits i c }))
