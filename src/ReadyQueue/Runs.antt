-- ===== src/ReadyQueue/Runs.antt =====
-- Runs of arrivals and selections, and the delays of a cohort (crates/vthread/src/ready_queue.rs).
use vthread.Prelude.{
  ℕ, zero, suc, ◌≤◌, ◌≡◌, ◌⊎◌, inl, inr, Option, some, List, [], ◌∷◌, Occurs, arith,
}
use vthread.TaskKey.{TaskKey}
use vthread.ReadyQueue.{ReadyQueue, push_back, push_wake, pop_front}

-- What happens to a queue between two looks at it: arrivals and selections, in any order.
-- Cleanup's `push_front` changes ranks and is not an arrival.
pub data Event : Type 0 where
  arrive : TaskKey → Event
  wake : TaskKey → Event
  select : Event

-- The selections of a run, and the task that each one served.
unfoldable pub served : List Event → ReadyQueue → List (Option TaskKey)
served [] q = []
served (arrive t ∷ es) q = served es (push_back t q)
served (wake t ∷ es) q = served es (push_wake t q)
served (select ∷ es) q = (pop_front q).0 ∷ served es (pop_front q).1

unfoldable pub selections : List Event → ℕ
selections [] = 0
selections (arrive t ∷ es) = selections es
selections (wake t ∷ es) = selections es
selections (select ∷ es) = suc (selections es)

-- Selections until the normal lane is served, at a cohort position.
abbrev pub normal_delay : ℕ → ℕ
normal_delay zero = 3
normal_delay (suc zero) = 2
normal_delay (suc (suc zero)) = 1
normal_delay _ = 4

-- Selections until the oldest wake is served.
abbrev pub wake_delay : ℕ → ℕ
wake_delay zero = 4
wake_delay (suc zero) = 3
wake_delay (suc (suc zero)) = 2
wake_delay _ = 1

pub normal_delay_pos : (s : ℕ) → 1 ≤ normal_delay s
normal_delay_pos zero = omega arith
normal_delay_pos (suc zero) = omega arith
normal_delay_pos (suc (suc zero)) = omega arith
normal_delay_pos (suc (suc (suc s))) = omega arith

pub normal_delay_le : (s : ℕ) → normal_delay s ≤ 4
normal_delay_le zero = omega arith
normal_delay_le (suc zero) = omega arith
normal_delay_le (suc (suc zero)) = omega arith
normal_delay_le (suc (suc (suc s))) = omega arith

pub wake_delay_bounds : (s : ℕ) → (1 ≤ wake_delay s) × (wake_delay s ≤ 4)
wake_delay_bounds zero = omega arith
wake_delay_bounds (suc zero) = omega arith
wake_delay_bounds (suc (suc zero)) = omega arith
wake_delay_bounds (suc (suc (suc s))) = omega arith

-- A bound that arrivals keep and that each selection lowers, unless it serves `t`, is kept by runs.
module _ (t : TaskKey) (Bound : ℕ → ReadyQueue → Type 0)
    (positive : (k : ℕ) (q : ReadyQueue) → Bound k q → 1 ≤ k)
    (back : (x : TaskKey) (k : ℕ) (q : ReadyQueue) → Bound k q → Bound k (push_back x q))
    (woken : (x : TaskKey) (k : ℕ) (q : ReadyQueue) → Bound k q → Bound k (push_wake x q))
    (step : (k : ℕ) (q : ReadyQueue)
      → Bound k q
      → ((pop_front q).0 ≡ some t) ⊎ ((m : ℕ) × (suc m ≤ k) × Bound m (pop_front q).1)) where
  pub served_within :
      (es : List Event) (k : ℕ) (q : ReadyQueue)
      → Bound k q
      → k ≤ selections es
      → Occurs (some t) (served es q)
  unfolding served selections
  served_within [] k q b h = absurd (omega (arith, positive k q b))
  served_within (arrive x ∷ es) k q b h = served_within es k (push_back x q) (back x k q b) h
  served_within (wake x ∷ es) k q b h = served_within es k (push_wake x q) (woken x k q b) h
  served_within (select ∷ es) k q b h = elim (step k q b) [
    | inl now ↦ inl now
    | inr (m, less, b') ↦ inr (served_within es m (pop_front q).1 b' (omega arith))
  ]
