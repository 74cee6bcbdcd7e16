-- ===== src/TaskProgress/Examples.antt =====
-- A task that yields twice, joins another task and is woken.
use vthread.Prelude.{ℕ, ◌+◌, ◌%◌, ◌^◌, ◌≤◌, ◌<◌, ◌≡◌, refl, false, some, List, [], ◌∷◌, returns}
use vthread.TaskProgress.States.{
  join, timed_out, encode_reason, decode_reason, encode_wake, decode_wake,
  decode_reason-encode_reason,
}
use vthread.TaskProgress.{
  TaskStatus, running, new, counter_batch, mount, yields_now, park, suspend, status,
}
use vthread.TaskProgress.Lag.{Event, mounted, yielded, parked, after, run}
use vthread.TaskProgress.Counts.{tally, tally_all, nothing, run-lag}

abbrev day : List Event
day = mounted 4 ∷ yielded ∷ mounted 4 ∷ yielded ∷ mounted 4 ∷ parked ∷ Event.suspended (join 7) ∷ []

counts_mounts : (run day new).progress.mounts ≡ 3
unfolding run after mount yields_now park suspend new
counts_mounts = refl

joins : status running false (run day new).progress ≡ returns (TaskStatus.suspended (join 7))
unfolding run after mount yields_now park suspend new status encode_reason decode_reason
joins = refl

-- Two yields and a park: three mounts and one suspension.
tallies : tally_all day nothing ≡ record { yields = 2; others = 1; suspensions = 1; mounted = 0 }
unfolding tally_all tally
tallies = refl

run-lag_example :
    (lag : ℕ) × (lag < counter_batch)
    × (((run day new).progress.yields + lag) % 2 ^ 64 ≡ (tally_all day nothing).yields % 2 ^ 64)
    × (((run day new).progress.mounts + lag) % 2 ^ 64
        ≡ ((tally_all day nothing).yields + (tally_all day nothing).others) % 2 ^ 64)
    × ((run day new).progress.parks ≡ (tally_all day nothing).suspensions % 2 ^ 64)
run-lag_example = run-lag day

decode_reason-encode_reason_example :
    (decode_reason (encode_reason (join 7)).0 (encode_reason (join 7)).1 ≡ some (join 7))
    × (2 ≤ (encode_reason (join 7)).0)
    × ((encode_reason (join 7)).0 ≤ 18)
    × (decode_wake (encode_wake timed_out) ≡ some timed_out)
decode_reason-encode_reason_example = decode_reason-encode_reason (join 7) timed_out
