-- ===== src/TaskProgress/Lag.antt =====
-- The invariant of what is published about a task, and the reader's view of its status
-- (crates/vthread/src/task_progress.rs).
use vthread.Prelude.{
  ℕ, ◌+◌, ◌%◌, ◌^◌, ◌≤◌, ◌<◌, ◌≡◌, refl, ap, inl, inr, Bool, true, false, List, [], ◌∷◌, returns,
  arith, Bool-cases, ◌==◌, if◌then◌else◌, not, ◌&&◌,
}
use vthread.TaskProgress.States.{
  record_code, ready_code, SuspensionReason, WakeReason, decode_reason_total,
  decode_reason-encode_reason,
}
use vthread.TaskProgress.{
  TaskProgress, TaskProgressWriter, TaskStatus, ready, running, is_final, recorded, Task, new,
  finish_non_yield_mount, publish, mount, yields_now, unmount, park, reset, suspend, wake, status,
}

-- What the carrier does with its task.
pub data Event : Type 0 where
  mounted : ℕ → Event
  yielded parked recycled : Event
  unmounted : ℕ → Event
  suspended : SuspensionReason → Event
  woken : WakeReason → Event

unfoldable pub after : Event → Task → Task
after (mounted task) t = (mount task t).1
after yielded t = yields_now t
after parked t = park t
after recycled t = reset t
after (unmounted task) t = unmount task t
after (suspended reason) t = record t { progress = suspend reason t.progress }
after (woken reason) t = record t { progress = wake reason t.progress }

unfoldable pub run : List Event → Task → Task
unfolding after
run [] t = t
run (e ∷ es) t = run es (after e t)

pub record IsSound (t : Task) : Type 0 where
  pub lag : ℕ
  pub fits : t.progress.yields < 2 ^ 64
  pub short : t.progress.yields % 64 + lag < 64
  pub behind : t.writer.yields ≡ (t.progress.yields + lag) % 2 ^ 64
  pub counted : t.progress.mounts ≡ (t.progress.yields + t.writer.non_yield_mounts) % 2 ^ 64
  pub flagged : t.progress.yielded ≡ t.writer.yielded
  pub known : t.progress.state ≤ 18

-- The flag that is set or cleared only where it changes.
raised :
    (b : Bool) (p : TaskProgress)
    → p.yielded ≡ b
    → (if b then p else record p { yielded = true }) ≡ record p { yielded = true }
raised true p e = ap (λ k. record p { yielded = k }) e
raised false p e = refl

lowered :
    (b : Bool) (p : TaskProgress)
    → p.yielded ≡ b
    → (if b then record p { yielded = false } else p) ≡ record p { yielded = false }
lowered true p e = refl
lowered false p e = ap (λ k. record p { yielded = k }) e

-- A publication leaves no lag.
published-IsSound :
    (w : TaskProgressWriter) (p : TaskProgress) (flag : Bool) (task : ℕ)
    → w.yields < 2 ^ 64
    → p.state ≤ 18
    → IsSound (record {
      progress = record (publish w p) { yielded = flag };
      writer = record w { yielded = flag };
      mounted = task;
    })
published-IsSound w p flag task f k = record {
  lag = 0;
  fits = f;
  short = omega arith;
  behind = omega (arith, f);
  counted = refl;
  flagged = refl;
  known = k;
}

yields_now-IsSound : (t : Task) → IsSound t → IsSound (yields_now t)
unfolding yields_now
yields_now-IsSound t h = elim (Bool-cases ((t.writer.yields + 1) % 2 ^ 64 % 64 == 0)) [
  | inl batch ↦
      let counted = record t.writer { yields = (t.writer.yields + 1) % 2 ^ 64 } in
      rw (yields_now, batch, raised t.writer.yielded (publish counted t.progress) h.flagged)
        (published-IsSound counted t.progress true 0 (omega arith) h.known)
  | inr within ↦
      rw (yields_now, within, raised t.writer.yielded t.progress h.flagged)
        (record {
          lag = h.lag + 1;
          fits = h.fits;
          short = ground (arith, within, h.short, h.behind, h.fits);
          behind = omega (arith, h.behind);
          counted = h.counted;
          flagged = refl;
          known = h.known;
        })
]

fits_writer : (t : Task) → IsSound t → t.writer.yields < 2 ^ 64
fits_writer t h = omega (arith, h.behind)

park-IsSound : (t : Task) → IsSound t → IsSound (park t)
unfolding park
park-IsSound t h =
    let w = finish_non_yield_mount t.writer in
    rw (park, lowered t.writer.yielded (publish w t.progress) h.flagged)
      (published-IsSound w t.progress false 0 (fits_writer t h) h.known)

left-IsSound :
    (w : TaskProgressWriter) (p : TaskProgress)
    → w.yields < 2 ^ 64
    → p.yielded ≡ w.yielded
    → p.state ≤ 18
    → IsSound (record { progress = publish w p; writer = w; mounted = 0 })
left-IsSound w p f e k = record {
  lag = 0;
  fits = f;
  short = omega arith;
  behind = omega (arith, f);
  counted = refl;
  flagged = e;
  known = k;
}

unmount-IsSound : (task : ℕ) (t : Task) → IsSound t → IsSound (unmount task t)
unfolding unmount
unmount-IsSound task t h = elim (Bool-cases (not (t.mounted == 0) && t.mounted == task)) [
  | inl mine ↦
      rw (unmount, mine)
        (left-IsSound (finish_non_yield_mount t.writer) t.progress (fits_writer t h) h.flagged
          h.known)
  | inr other ↦
      rw (unmount, other) (left-IsSound t.writer t.progress (fits_writer t h) h.flagged h.known)
]

suspend-IsSound :
    (reason : SuspensionReason) (t : Task)
    → IsSound t
    → IsSound (record t { progress = suspend reason t.progress })
unfolding suspend
suspend-IsSound reason t h = record {
  lag = h.lag;
  fits = h.fits;
  short = h.short;
  behind = h.behind;
  counted = h.counted;
  flagged = h.flagged;
  known = (decode_reason-encode_reason reason WakeReason.ready).2;
}

wake-IsSound :
    (reason : WakeReason) (t : Task)
    → IsSound t
    → IsSound (record t { progress = wake reason t.progress })
unfolding wake
wake-IsSound reason t h = record {
  lag = h.lag;
  fits = h.fits;
  short = h.short;
  behind = h.behind;
  counted = h.counted;
  flagged = h.flagged;
  known = omega arith;
}

reset-IsSound : (t : Task) → IsSound (reset t)
unfolding reset new
reset-IsSound t = record {
  lag = 0;
  fits = omega arith;
  short = omega arith;
  behind = omega arith;
  counted = omega arith;
  flagged = refl;
  known = omega arith;
}

after-IsSound : (e : Event) (t : Task) → IsSound t → IsSound (after e t)
unfolding after mount
after-IsSound (mounted task) t h = record {
  lag = h.lag;
  fits = h.fits;
  short = h.short;
  behind = h.behind;
  counted = h.counted;
  flagged = h.flagged;
  known = h.known;
}
after-IsSound yielded t h = yields_now-IsSound t h
after-IsSound parked t h = park-IsSound t h
after-IsSound recycled t h = reset-IsSound t
after-IsSound (unmounted task) t h = unmount-IsSound task t h
after-IsSound (suspended reason) t h = suspend-IsSound reason t h
after-IsSound (woken reason) t h = wake-IsSound reason t h

pub new-IsSound : IsSound new
unfolding new
new-IsSound = record {
  lag = 0;
  fits = omega arith;
  short = omega arith;
  behind = omega arith;
  counted = omega arith;
  flagged = refl;
  known = omega arith;
}

pub run-IsSound : (es : List Event) (t : Task) → IsSound t → IsSound (run es t)
unfolding run
run-IsSound [] t h = h
run-IsSound (e ∷ es) t h = run-IsSound es (after e t) (after-IsSound e t h)

status-known :
    (retained : TaskStatus) (active : Bool) (p : TaskProgress)
    → p.state ≤ 18
    → (answer : TaskStatus) × (status retained active p ≡ returns answer)
unfolding status
status-known retained active p k = elim (Bool-cases (is_final retained)) [
  | inl final ↦ (retained, rw final refl)
  | inr live ↦ elim (Bool-cases (p.state == ready_code)) [
    | inl at_ready ↦ (if active then running else ready, rw (live, at_ready) refl)
    | inr not_ready ↦ elim (Bool-cases (p.state == record_code)) [
      | inl at_record ↦ (recorded retained active, rw (live, not_ready, at_record) refl)
      | inr elsewhere ↦
          let (reason, e) =
            decode_reason_total p.state p.suspension_task (ground (arith, not_ready, elsewhere))
              k in
          (TaskStatus.suspended reason, rw (live, not_ready, elsewhere, e) refl)
    ]
  ]
]

-- The published status can always be read: a reader never meets a code that stands for nothing.
run-status :
    (es : List Event) (retained : TaskStatus) (active : Bool)
    → (answer : TaskStatus) × (status retained active (run es new).progress ≡ returns answer)
run-status es retained active =
    status-known retained active (run es new).progress (run-IsSound es new new-IsSound).known
