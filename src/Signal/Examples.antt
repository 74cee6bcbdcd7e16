-- ===== src/Signal/Examples.antt =====
-- A carrier that falls asleep while a notifier advances the epoch.
use vthread.Prelude.{◌+◌, ◌≤◌, ◌≡◌, refl, inl, true, false, arith}
use vthread.Signal.{Signal, default_signal, register, goes_on, advance}
use vthread.Signal.Protocol.{
  testing, deciding, sleeping, waking, System, start, Step, registers, decides, sleeps, advances,
  Reachable, starts, steps, Run,
}
use vthread.Signal.Wakes.{no_lost_wake, Run-waking}

abbrev counted_signal : Signal
counted_signal = record { epoch = 0; waiters = 1; gate = true }

abbrev testing_state : System
testing_state = record {
  signal = counted_signal;
  ready = false;
  owner = testing 0;
  advanced = 0;
  published = 0;
  calling = 0;
}

abbrev deciding_state : System
deciding_state = record testing_state { owner = deciding 0 }

abbrev sleeping_state : System
sleeping_state = record testing_state {
  signal = record counted_signal { gate = false };
  owner = sleeping 0;
}

abbrev missed_state : System
missed_state = record sleeping_state {
  signal = record { epoch = 1; waiters = 1; gate = false };
  advanced = 1;
}

registers_step : Step start testing_state
unfolding start default_signal register
registers_step = registers 0 refl refl

decides_step : Step testing_state deciding_state
unfolding goes_on
decides_step = decides 0 refl refl

sleeps_step : Step deciding_state sleeping_state
sleeps_step = sleeps 0 refl

advances_step : Step sleeping_state missed_state
unfolding advance
advances_step = advances

missed-Reachable : Reachable missed_state
missed-Reachable =
    steps sleeping_state missed_state
      (steps deciding_state sleeping_state
        (steps testing_state deciding_state (steps start testing_state starts registers_step)
          decides_step)
        sleeps_step)
      advances_step

no_lost_wake_example : 1 ≤ 1 + 0 + 0
no_lost_wake_example =
    no_lost_wake missed_state 0 missed-Reachable refl (inl (λ e. omega (arith, e)))

Run-waking_example : (t : System) × Run missed_state t × (t.owner ≡ waking 0)
Run-waking_example = Run-waking missed_state 0 missed-Reachable refl (inl (λ e. omega (arith, e)))
