-- ===== src/WakeQueue/Examples.antt =====
-- A queue for two tasks, and one notice on its way through it.
use vthread.Prelude.{
  ℕ, zero, suc, ◌≡◌, ◌≢◌, refl, ◌⊎◌, inl, inr, true, false, none, some, [], ◌∷◌, ◌++◌, returns,
  arith, Occurs,
}
use vthread.WaitWord.{timed_out}
use vthread.WakeQueue.{WakeQueue, WakeNotice, is_sleeping, reserve, link, pop, arm_wait, new}
use vthread.WakeQueue.Refinement.{
  Lane, free, reserved, stacked, Represents, relane, order, link-Represents,
}
use vthread.WakeQueue.Producers.{IsSound, reserve-Represents}
use vthread.WakeQueue.Consumer.{Popped, pop-Represents, arm_wait-Represents}
use vthread.WakeQueue.Start.{new-Represents}

abbrev notice : WakeNotice
notice = record {
  token = record { wait = 5; generation = 1 };
  task = 9;
  route = record { word = 2 };
  cause = timed_out;
}

abbrev notice-IsSound : IsSound notice
notice-IsSound = record { route = omega arith; task = omega arith; generation = omega arith }

abbrev all_free : ℕ → Lane
all_free _ = free

abbrev started :
    (q : WakeQueue) × (new 2 ≡ returns q) × (q.slot_count ≡ 6) × Represents q all_free [] []
started = new-Represents 2 (omega arith)

abbrev empty_queue : WakeQueue
empty_queue = started.0

abbrev entered :
    (q' : WakeQueue) × (reserve notice empty_queue ≡ returns (some q'))
    × Represents q' (relane all_free 2 reserved) [] []
    × (q'.task 2 ≡ 9)
    × (q'.wait 2 ≡ 5)
    × (q'.selection 2 ≡ 10)
    × ((j : ℕ)
        → 2 ≢ j
        → (q'.task j ≡ empty_queue.task j)
          × (q'.wait j ≡ empty_queue.wait j)
          × (q'.selection j ≡ empty_queue.selection j))
entered =
    reserve-Represents notice empty_queue all_free [] [] started.3 notice-IsSound
      (omega (arith, started.2)) refl

reserve-Represents_example :
    (q' : WakeQueue) × (reserve notice empty_queue ≡ returns (some q'))
    × Represents q' (relane all_free 2 reserved) [] []
    × (q'.task 2 ≡ 9)
    × (q'.wait 2 ≡ 5)
    × (q'.selection 2 ≡ 10)
    × ((j : ℕ)
        → 2 ≢ j
        → (q'.task j ≡ empty_queue.task j)
          × (q'.wait j ≡ empty_queue.wait j)
          × (q'.selection j ≡ empty_queue.selection j))
reserve-Represents_example =
    reserve-Represents notice empty_queue all_free [] [] started.3 notice-IsSound
      (omega (arith, started.2)) refl

-- The queue while the producer has reserved its slot, and after its link.
abbrev half : WakeQueue
half = entered.0

abbrev one : WakeQueue
one = (link 2 half).1

abbrev two_reserved : ℕ → Lane
two_reserved = relane all_free 2 reserved

abbrev two_stacked : ℕ → Lane
two_stacked = relane two_reserved 2 stacked

link-Represents_example :
    Represents one two_stacked [] (2 ∷ [])
    × (order [] (2 ∷ []) ≡ order [] [] ++ 2 ∷ [])
    × ((link 2 half).0 ≡ is_sleeping half.head)
    × ((j : ℕ)
        → ((link 2 half).1.task j ≡ half.task j)
          × ((link 2 half).1.wait j ≡ half.wait j)
          × ((link 2 half).1.selection j ≡ half.selection j))
link-Represents_example = link-Represents half two_reserved [] [] 2 entered.2 refl

abbrev one-Represents : Represents one two_stacked [] (2 ∷ [])
one-Represents = (link-Represents half two_reserved [] [] 2 entered.2 refl).0

pop-Represents_example :
    ((order [] (2 ∷ []) ≡ []) × (pop one ≡ returns (none, one))) ⊎ Popped one [] (2 ∷ [])
pop-Represents_example = pop-Represents one two_stacked [] (2 ∷ []) one-Represents

arm_wait-Represents_example :
    Represents (arm_wait empty_queue).1 all_free [] []
    × ((((arm_wait empty_queue).0 ≡ true) × (order [] [] ≢ []))
        ⊎ (((arm_wait empty_queue).0 ≡ false)
            × (order [] [] ≡ [])
            × ((i : ℕ) → (link i (arm_wait empty_queue).1).0 ≡ true)))
arm_wait-Represents_example = arm_wait-Represents empty_queue all_free [] [] started.3

-- The links 4 → 2 → end.
abbrev links : ℕ → ℕ
links (suc (suc (suc (suc zero)))) = 2
links _ = 0

four_new : Occurs {A = ℕ} 4 (2 ∷ []) → ⊥
four_new (inl e) = omega arith
four_new (inr o) = o
