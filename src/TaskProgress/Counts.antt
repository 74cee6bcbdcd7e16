-- ===== src/TaskProgress/Counts.antt =====
-- The published counters against what has happened to the task (crates/vthread/src/task_progress.rs).
use vthread.Prelude.{
  ℕ, ◌+◌, ◌%◌, ◌^◌, ◌<◌, ◌≡◌, refl, List, [], ◌∷◌, arith, Bool-cases, inl, inr, ◌==◌, if◌then◌else◌,
  not, ◌&&◌,
}
use vthread.TaskProgress.{
  Task, new, counter_batch, mount, yields_now, unmount, park, reset, suspend, wake,
}
use vthread.TaskProgress.Lag.{
  Event, mounted, yielded, parked, recycled, unmounted, suspended, woken, after, run, new-IsSound,
  run-IsSound,
}

-- What has happened since the record was recycled last: yields, other ends of a mount, suspensions,
-- and the task that is mounted, 0 for none.
pub record Tally : Type 0 where
  pub yields : ℕ
  pub others : ℕ
  pub suspensions : ℕ
  pub mounted : ℕ

-- An unmount ends a mount only where its task is mounted.
unfoldable pub tally : Event → Tally → Tally
tally (mounted task) k = record k { mounted = task }
tally yielded k = record k { yields = k.yields + 1; mounted = 0 }
tally parked k = record k { others = k.others + 1; mounted = 0 }
tally recycled k = record k { yields = 0; others = 0; suspensions = 0 }
tally (unmounted task) k = record k {
  others = if not (k.mounted == 0) && k.mounted == task then k.others + 1 else k.others;
  mounted = 0;
}
tally (suspended reason) k = record k { suspensions = k.suspensions + 1 }
tally (woken reason) k = k

unfoldable pub tally_all : List Event → Tally → Tally
unfolding tally
tally_all [] k = k
tally_all (e ∷ es) k = tally_all es (tally e k)

abbrev pub nothing : Tally
nothing = record { yields = 0; others = 0; suspensions = 0; mounted = 0 }

-- The writer's counters and the published suspensions are those that have happened, modulo the word.
record Follows (t : Task) (k : Tally) : Type 0 where
  pub yields : t.writer.yields ≡ k.yields % 2 ^ 64
  pub others : t.writer.non_yield_mounts ≡ k.others % 2 ^ 64
  pub suspensions : t.progress.parks ≡ k.suspensions % 2 ^ 64
  pub mounted : t.mounted ≡ k.mounted

yields_now-Follows : (t : Task) (k : Tally) → Follows t k → Follows (yields_now t) (tally yielded k)
unfolding yields_now tally
yields_now-Follows t k h = record {
  yields = omega (arith, h.yields);
  others = h.others;
  suspensions = ground (arith, h.suspensions);
  mounted = refl;
}

park-Follows : (t : Task) (k : Tally) → Follows t k → Follows (park t) (tally parked k)
unfolding park tally
park-Follows t k h = record {
  yields = h.yields;
  others = omega (arith, h.others);
  suspensions = ground (arith, h.suspensions);
  mounted = refl;
}

unmount-Follows :
    (task : ℕ) (t : Task) (k : Tally)
    → Follows t k
    → Follows (unmount task t) (tally (unmounted task) k)
unfolding unmount tally
unmount-Follows task t k h = elim (Bool-cases (not (k.mounted == 0) && k.mounted == task)) [
  | inl mine ↦
      rw (unmount, tally, h.mounted, mine)
        (record {
          yields = h.yields;
          others = omega (arith, h.others);
          suspensions = h.suspensions;
          mounted = refl;
        })
  | inr other ↦
      rw (unmount, tally, h.mounted, other)
        (record {
          yields = h.yields;
          others = h.others;
          suspensions = h.suspensions;
          mounted = refl;
        })
]

after-Follows : (e : Event) (t : Task) (k : Tally) → Follows t k → Follows (after e t) (tally e k)
unfolding after mount tally suspend wake reset new
after-Follows (mounted task) t k h = record {
  yields = h.yields;
  others = h.others;
  suspensions = h.suspensions;
  mounted = refl;
}
after-Follows yielded t k h = yields_now-Follows t k h
after-Follows parked t k h = park-Follows t k h
after-Follows recycled t k h = record {
  yields = omega arith;
  others = omega arith;
  suspensions = omega arith;
  mounted = h.mounted;
}
after-Follows (unmounted task) t k h = unmount-Follows task t k h
after-Follows (suspended reason) t k h = record {
  yields = h.yields;
  others = h.others;
  suspensions = omega (arith, h.suspensions);
  mounted = h.mounted;
}
after-Follows (woken reason) t k h = record {
  yields = h.yields;
  others = h.others;
  suspensions = h.suspensions;
  mounted = h.mounted;
}

run-Follows :
    (es : List Event) (t : Task) (k : Tally) → Follows t k → Follows (run es t) (tally_all es k)
unfolding run tally_all
run-Follows [] t k h = h
run-Follows (e ∷ es) t k h = run-Follows es (after e t) (tally e k) (after-Follows e t k h)

new-Follows : Follows new nothing
unfolding new
new-Follows = record { yields = refl; others = refl; suspensions = refl; mounted = refl }

-- Whatever a carrier does with its task from the start on, the published counts lag behind what has
-- happened since the record was recycled last by less than a batch of yields: the count of yields by
-- the lag, and the count of mounts, which end by a yield or otherwise, by as much; the count of
-- suspensions does not lag. All are modulo the word.
pub run-lag :
    (es : List Event)
    → (lag : ℕ) × (lag < counter_batch)
      × (((run es new).progress.yields + lag) % 2 ^ 64 ≡ (tally_all es nothing).yields % 2 ^ 64)
      × (((run es new).progress.mounts + lag) % 2 ^ 64
          ≡ ((tally_all es nothing).yields + (tally_all es nothing).others) % 2 ^ 64)
      × ((run es new).progress.parks ≡ (tally_all es nothing).suspensions % 2 ^ 64)
run-lag es =
    let h = run-IsSound es new new-IsSound in
    let k = run-Follows es new nothing new-Follows in
    (
      h.lag,
      omega (arith, h.short),
      omega (arith, h.behind, k.yields),
      omega (arith, h.behind, h.counted, k.yields, k.others),
      k.suspensions,
    )
