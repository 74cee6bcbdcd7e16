-- ===== src/Gate/Waits.antt =====
-- What the gate uses of a wait (crates/vthread/src/wait_resource.rs, wait_select.rs, wait_finish.rs): the
-- resource that it holds, offers that may be refused, and a take that waits for a claim to be published.
use vthread.Prelude.{◌≡◌, Option, none, some}
use vthread.WaitWord.{ResourceSelection}

pub record WaitApi (C : Type 0) : Type 0 where
  pub offer : ResourceSelection → C → Option C
  pub take : C → Option (C × ResourceSelection)
  pub close : C → C
  pub reset : C → Option C
  pub content : C → Option ResourceSelection
  pub offer-content :
      (r : ResourceSelection) (c d : C)
      → offer r c ≡ some d
      → (content c ≡ none) × (content d ≡ some r)
  pub take-content :
      (c d : C) (r : ResourceSelection)
      → take c ≡ some (d, r)
      → (content c ≡ some r) × (content d ≡ none)
  pub take-none : (c : C) → take c ≡ none → content c ≡ none
  pub close-content : (c : C) → content (close c) ≡ content c
  pub reset-content : (c d : C) → reset c ≡ some d → content d ≡ content c
