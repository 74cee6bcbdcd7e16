-- ===== src/ReadyQueue/Examples.antt =====
-- The ready queue at concrete tasks.
use vthread.Prelude.{ℕ, ◌≡◌, refl, false, some, List, [], ◌∷◌, Occurs, arith}
use vthread.TaskKey.{TaskKey, same_key}
use vthread.ReadyQueue.{ReadyQueue, is_empty, pop_front, pop_matching}
use vthread.ReadyQueue.Runs.{Event, arrive, wake, select, served, selections}
use vthread.ReadyQueue.Fairness.{normal_served, wake_served}
use vthread.ReadyQueue.Cleanup.{Pops, pop_matching-Pops}

abbrev key : ℕ → TaskKey
key n = record { word = n }

-- One normal task and two wakes, at the end of a burst.
abbrev mixed : ReadyQueue
mixed = record { normal = key 2 ∷ []; wakes = key 4 ∷ key 6 ∷ []; wake_streak = 2 }

-- Wakes keep coming between four selections.
abbrev storm : List Event
storm = select ∷ wake (key 8) ∷ select ∷ arrive (key 10) ∷ wake (key 12) ∷ select ∷ select ∷ []

selections-storm : selections storm ≡ 4
unfolding selections
selections-storm = refl

-- The normal task is served at once, the oldest wake next.
pop_mixed : (pop_front mixed).0 ≡ some (key 2)
unfolding pop_front
pop_mixed = refl

normal_served_example : Occurs (some (key 2)) (served storm mixed)
normal_served_example =
    normal_served (key 2) [] [] mixed storm refl (omega (arith, selections-storm))

wake_served_example : Occurs (some (key 6)) (served storm mixed)
wake_served_example =
    wake_served (key 6) (key 4 ∷ []) [] mixed storm refl (omega (arith, selections-storm))

pop_matching-Pops_example : Pops (same_key (key 6)) mixed (pop_matching (same_key (key 6)) mixed)
pop_matching-Pops_example = pop_matching-Pops (same_key (key 6)) mixed

mixed_nonempty : is_empty mixed ≡ false
unfolding is_empty
mixed_nonempty = refl
