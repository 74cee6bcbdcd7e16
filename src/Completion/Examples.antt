-- ===== src/Completion/Examples.antt =====
-- A subscriber that holds the lock while the task completes, and a wait that subscribes twice.
use vthread.Prelude.{
  ℕ, Option, List, ◌+◌, ◌*◌, ◌≤◌, ◌≡◌, refl, true, none, some, [], ◌∷◌, arith, returns,
}
use vthread.Completion.{new, done, mark_done, reserve, withdraw, insert, take_all, reset}
use vthread.Completion.Protocol.{
  System, start, Step, reserves, locks, inserts, completes, drains, withdraws, Reachable, starts,
  steps,
}
use vthread.Completion.Stranding.{nobody_stranded, done-reset}

abbrev reserved_state : System
reserved_state = record {
  completion = record { capacity = 4; lifecycle = 2; waiting = [] };
  reserved = 1;
  inserting = none;
  leaving = 0;
  replaced = 0;
  draining = 0;
  taken = [];
  notified = [];
}

abbrev locked_state : System
locked_state = record reserved_state { reserved = 0; inserting = some 7 }

abbrev done_state : System
done_state = record locked_state {
  completion = record { capacity = 4; lifecycle = 3; waiting = [] };
  draining = 1;
}

abbrev waiting_state : System
waiting_state = record done_state {
  completion = record { capacity = 4; lifecycle = 3; waiting = 7 ∷ [] };
  inserting = none;
}

reserved_step : Step (start 4) reserved_state
unfolding start new reserve
reserved_step = reserves (omega arith)

locked_step : Step reserved_state locked_state
unfolding done
locked_step = locks 7 0 refl refl refl

done_step : Step locked_state done_state
unfolding mark_done
done_step = completes 1 done_state.completion refl (λ e. omega (arith, e))

waiting_step : Step done_state waiting_state
unfolding insert
waiting_step = inserts 7 waiting_state.completion refl refl

waiting-Reachable : Reachable 4 waiting_state
waiting-Reachable =
    steps done_state waiting_state
      (steps locked_state done_state
        (steps reserved_state locked_state (steps (start 4) reserved_state starts reserved_step)
          locked_step)
        done_step)
      waiting_step

is_done : done waiting_state.completion ≡ true
unfolding done
is_done = refl

nobody_stranded_example : 1 ≤ 1
nobody_stranded_example = nobody_stranded 4 waiting_state waiting-Reachable is_done (omega arith)

-- A wait that subscribes twice: the second entry replaces the first, whose reservation stays.
abbrev state : ℕ → List ℕ → ℕ → Option ℕ → System
state lifecycle waiting reserved inserting = record {
  completion = record { capacity = 4; lifecycle = lifecycle; waiting = waiting };
  reserved = reserved;
  inserting = inserting;
  leaving = 0;
  replaced = 0;
  draining = 0;
  taken = [];
  notified = [];
}

abbrev twice_state : System
twice_state = record (state 4 (7 ∷ []) 0 none) { replaced = 1 }

abbrev completed_state : System
completed_state = record (state 5 (7 ∷ []) 0 none) { replaced = 1; draining = 1 }

abbrev drained_state : System
drained_state = record (state 5 [] 0 none) { replaced = 1; taken = 1 ∷ []; notified = 7 ∷ [] }

abbrev left_state : System
left_state = record (state 3 [] 0 none) { replaced = 1; notified = 7 ∷ [] }

once_step : Step (state 2 [] 0 (some 7)) (state 2 (7 ∷ []) 0 none)
unfolding insert
once_step = inserts 7 (state 2 (7 ∷ []) 0 none).completion refl refl

first_lock : Step (state 2 [] 1 none) (state 2 [] 0 (some 7))
unfolding done
first_lock = locks 7 0 refl refl refl

again_step : Step (state 2 (7 ∷ []) 0 none) (state 4 (7 ∷ []) 1 none)
unfolding reserve
again_step = reserves (omega arith)

second_lock : Step (state 4 (7 ∷ []) 1 none) (state 4 (7 ∷ []) 0 (some 7))
unfolding done
second_lock = locks 7 0 refl refl refl

twice_step : Step (state 4 (7 ∷ []) 0 (some 7)) twice_state
unfolding insert
twice_step = inserts 7 twice_state.completion refl refl

completed_step : Step twice_state completed_state
unfolding mark_done
completed_step = completes 2 completed_state.completion refl (λ e. omega (arith, e))

drained_step : Step completed_state drained_state
unfolding take_all
drained_step = drains 0 (7 ∷ []) drained_state.completion refl refl refl

left_step : Step drained_state left_state
unfolding withdraw
left_step = withdraws 1 [] refl

twice-Reachable : Reachable 4 twice_state
twice-Reachable =
    steps (state 4 (7 ∷ []) 0 (some 7)) twice_state
      (steps (state 4 (7 ∷ []) 1 none) (state 4 (7 ∷ []) 0 (some 7))
        (steps (state 2 (7 ∷ []) 0 none) (state 4 (7 ∷ []) 1 none)
          (steps (state 2 [] 0 (some 7)) (state 2 (7 ∷ []) 0 none)
            (steps (state 2 [] 1 none) (state 2 [] 0 (some 7))
              (steps (start 4) (state 2 [] 1 none) starts reserved_step) first_lock)
            once_step)
          again_step)
        second_lock)
      twice_step

left-Reachable : Reachable 4 left_state
left-Reachable =
    steps drained_state left_state
      (steps completed_state drained_state
        (steps twice_state completed_state twice-Reachable completed_step) drained_step)
      left_step

is_done_left : done left_state.completion ≡ true
unfolding done
is_done_left = refl

done-reset_example :
    (left_state.completion.lifecycle ≡ 1 + 2 * 1)
    × (reset left_state.completion ≡ returns (record left_state.completion { lifecycle = 0 }))
done-reset_example = done-reset 4 left_state left-Reachable is_done_left refl refl refl refl refl
