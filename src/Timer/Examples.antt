-- ===== src/Timer/Examples.antt =====
-- Two timers, one of which is due.
use vthread.Prelude.{◌≡◌, refl, subst, true, none, some, List, [], ◌∷◌, returns, if◌then◌else◌}
use vthread.TaskKey.{TaskKey}
use vthread.ParkToken.{ParkToken, same_token}
use vthread.Timer.{
  TimerQueue, ExpiredTimer, new, lookup, schedule, cancel, next_deadline, pop_expired,
}
use vthread.Timer.Laws.{IsValid, schedule-IsValid, cancel-IsValid}
use vthread.Timer.Expiry.{Expires, pop_expired-Expires}

abbrev key : TaskKey
key = record { word = 3 }

abbrev first : ParkToken
first = record { wait = 1; generation = 1 }

abbrev second : ParkToken
second = record { wait = 2; generation = 4 }

abbrev one : TimerQueue
one = record {
  deadlines = record { deadline = 9; token = first } ∷ [];
  active = (first, record { deadline = 9; task = key }) ∷ [];
}

abbrev two : TimerQueue
two = record {
  deadlines = record { deadline = 5; token = second } ∷ record { deadline = 9; token = first } ∷ [];
  active =
      (second, record { deadline = 5; task = key })
      ∷ (first, record { deadline = 9; task = key })
      ∷ [];
}

new-IsValid : IsValid new
unfolding new
new-IsValid = record { in_order = tt; indexed = λ e. refl }

schedules_one : (schedule key first 9 new).1 ≡ one
unfolding schedule new
schedules_one = refl

schedules_two : (schedule key second 5 one).1 ≡ two
unfolding schedule
schedules_two = refl

earliest_first : next_deadline two ≡ some 5
unfolding next_deadline
earliest_first = refl

fresh_new : lookup first new.active ≡ none
unfolding new
fresh_new = refl

one-IsValid : IsValid one
one-IsValid = subst IsValid schedules_one (schedule-IsValid key first 9 new new-IsValid fresh_new).0

two-IsValid : IsValid two
two-IsValid = subst IsValid schedules_two (schedule-IsValid key second 5 one one-IsValid refl).0

expires_second : pop_expired 7 two ≡ returns (record { task = key; token = second } ∷ [], one)
unfolding pop_expired
expires_second = refl

schedule-IsValid_example :
    IsValid (schedule key second 5 one).1
    × ((schedule key second 5 one).0 ≡ true)
    × ((u : ParkToken)
        → lookup u (schedule key second 5 one).1.active ≡ (
            if same_token second u
            then some (record { deadline = 5; task = key })
            else lookup u one.active))
schedule-IsValid_example = schedule-IsValid key second 5 one one-IsValid refl

cancel-IsValid_example :
    IsValid (cancel first two).1
    × ((cancel first two).0 ≡ true)
    × ((u : ParkToken)
        → lookup u (cancel first two).1.active
          ≡ (if same_token first u then none else lookup u two.active))
cancel-IsValid_example =
    cancel-IsValid first (record { deadline = 9; task = key }) two two-IsValid refl

pop_expired-Expires_example :
    (expired : List ExpiredTimer) × (next : TimerQueue) × (pop_expired 7 two
      ≡ returns (expired, next))
    × Expires 7 two.deadlines two.active expired next.deadlines next.active
pop_expired-Expires_example = pop_expired-Expires 7 two two-IsValid
