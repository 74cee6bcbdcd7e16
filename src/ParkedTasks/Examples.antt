-- ===== src/ParkedTasks/Examples.antt =====
-- Park records of concrete tasks.
use vthread.Prelude.{◌≡◌, refl, ◌⊎◌, true, false, none, some}
use vthread.TaskKey.{TaskKey, is_borrowed, index}
use vthread.ParkedTasks.{ParkedTask, ParkedTasks, new, get, insert, remove, iter, occupied}
use vthread.ParkedTasks.Laws.{IsCounted, Parked, Unparked, park_cases, unpark_cases}

abbrev task : TaskKey
task = record { word = 7 }

abbrev record_of_task : ParkedTask
record_of_task = record {
  token = record { wait = 5; generation = 1 };
  task = task;
  has_deadline = false;
  deferred = false;
  registration = none;
}

abbrev one : ParkedTasks
one = (insert record_of_task new).1

new-IsCounted : IsCounted new
unfolding new iter occupied
new-IsCounted = refl

one-IsCounted : IsCounted one
unfolding insert new iter occupied is_borrowed index
one-IsCounted = refl

park_cases_example :
    (((insert record_of_task new).0 ≡ true)
      × Parked record_of_task new (insert record_of_task new).1)
    ⊎ ((old : ParkedTask) × (get task new ≡ some old)
        × ((insert record_of_task new).0 ≡ false)
        × ((other : TaskKey) → get other (insert record_of_task new).1 ≡ get other new)
        × IsCounted (insert record_of_task new).1)
park_cases_example = park_cases record_of_task new new-IsCounted

unpark_cases_example :
    ((remove task one).0 ≡ get task one)
    × (((get task one ≡ none) × ((remove task one).1 ≡ one))
        ⊎ Unparked task one (remove task one).1)
unpark_cases_example = unpark_cases task one one-IsCounted
