-- ===== src/TaskProgress.antt =====
-- crates/vthread/src/task_progress.rs: what a carrier publishes about the task that it runs. The writer is
-- the carrier's own, and publishes its counters once in a batch of yields and at every other transition.
pub mod States
pub mod Lag
pub mod Counts
mod Examples
use vthread.Prelude.{
  ℕ, ◌+◌, ◌%◌, ◌^◌, Bool, true, false, not, ◌&&◌, ◌||◌, Option, none, some, ltb, ◌==◌,
  if◌then◌else◌, Outcome, returns, ◌>>=◌, expect,
}
use vthread.TaskProgress.States.{
  SuspensionReason, yield_now, WakeReason, record_code, ready_code, encode_reason, decode_reason,
  encode_wake, decode_wake,
}

abbrev pub counter_batch : ℕ
counter_batch = 64

-- `mounted` of `CarrierProgress` is the number of a task, 0 for none.
pub record TaskProgress : Type 0 where
  pub yielded : Bool
  pub state : ℕ
  pub last_suspension : ℕ
  pub suspension_task : ℕ
  pub last_wake : ℕ
  pub mounts : ℕ
  pub yields : ℕ
  pub parks : ℕ

pub record TaskProgressWriter : Type 0 where
  pub non_yield_mounts : ℕ
  pub yields : ℕ
  pub yielded : Bool
  pub started : Bool

pub data TaskStatus : Type 0 where
  queued ready running completed panicked aborted : TaskStatus
  suspended : SuspensionReason → TaskStatus

pub record Task : Type 0 where
  pub progress : TaskProgress
  pub writer : TaskProgressWriter
  pub mounted : ℕ

unfoldable pub new : Task
new = record {
  progress = record {
    yielded = false;
    state = record_code;
    last_suspension = record_code;
    suspension_task = 0;
    last_wake = 0;
    mounts = 0;
    yields = 0;
    parks = 0;
  };
  writer = record { non_yield_mounts = 0; yields = 0; yielded = false; started = false };
  mounted = 0;
}

abbrev pub wrapping_add : ℕ → ℕ → ℕ
wrapping_add a b = (a + b) % 2 ^ 64

-- `mounts` of the writer.
abbrev pub finished_mounts : TaskProgressWriter → ℕ
finished_mounts w = wrapping_add w.yields w.non_yield_mounts

abbrev pub finish_non_yield_mount : TaskProgressWriter → TaskProgressWriter
finish_non_yield_mount w = record w { non_yield_mounts = wrapping_add w.non_yield_mounts 1 }

-- `publish` of the writer's counters.
abbrev pub publish : TaskProgressWriter → TaskProgress → TaskProgress
publish w p = record p { mounts = finished_mounts w; yields = w.yields }

-- Whether it is the first mount.
unfoldable pub mount : ℕ → Task → Bool × Task
mount task t =
    (not t.writer.started, record t { writer = record t.writer { started = true }; mounted = task })

-- `yield_now` with the update that it publishes applied (`TaskProgress::apply`).
unfoldable pub yields_now : Task → Task
yields_now t =
    let counted = record t.writer { yields = wrapping_add t.writer.yields 1 } in
    let batch = counted.yields % counter_batch == 0 in
    let published = if batch then publish counted t.progress else t.progress in
    record {
      progress = if t.writer.yielded then published else record published { yielded = true };
      writer = record counted { yielded = true };
      mounted = 0;
    }

unfoldable pub unmount : ℕ → Task → Task
unmount task t =
    let writer =
      if not (t.mounted == 0) && t.mounted == task
      then finish_non_yield_mount t.writer
      else t.writer in
    record { progress = publish writer t.progress; writer = writer; mounted = 0 }

unfoldable pub park : Task → Task
park t =
    let writer = finish_non_yield_mount t.writer in
    let published = publish writer t.progress in
    record {
      progress = if t.writer.yielded then record published { yielded = false } else published;
      writer = record writer { yielded = false };
      mounted = 0;
    }

unfoldable pub suspend : SuspensionReason → TaskProgress → TaskProgress
suspend reason p = record p {
  suspension_task = (encode_reason reason).1;
  last_suspension = (encode_reason reason).0;
  parks = wrapping_add p.parks 1;
  state = (encode_reason reason).0;
}

unfoldable pub wake : WakeReason → TaskProgress → TaskProgress
wake reason p = record p { last_wake = encode_wake reason; state = ready_code }

-- The resets of the progress and of its writer.
unfoldable pub reset : Task → Task
unfolding new
reset t = record new { mounted = t.mounted }

abbrev pub is_final : TaskStatus → Bool
is_final queued = true
is_final completed = true
is_final panicked = true
is_final aborted = true
is_final _ = false

-- The answer where the record decides.
abbrev pub recorded : TaskStatus → Bool → TaskStatus
recorded ready active = if active then running else ready
recorded running active = if active then running else ready
recorded retained active = retained

-- `status`; `is_final` is `is_terminal` or queued.
unfoldable pub status : TaskStatus → Bool → TaskProgress → Outcome TaskStatus
status retained active p =
    if is_final retained
    then returns retained
    else if p.state == ready_code
    then returns (if active then running else ready)
    else if p.state == record_code
    then returns (recorded retained active)
    else (do reason ← expect (decode_reason p.state p.suspension_task); returns (suspended reason))

unfoldable pub last_suspension : Option SuspensionReason → TaskProgress → Option SuspensionReason
last_suspension retained p =
    if p.yielded then some yield_now else elim (decode_reason p.last_suspension p.suspension_task) [
      | some reason ↦ some reason
      | none ↦ retained
    ]

unfoldable pub last_wake : Option WakeReason → TaskProgress → Option WakeReason
last_wake retained p = elim (decode_wake p.last_wake) [
  | some reason ↦ some reason
  | none ↦ retained
]

-- `parks`
unfoldable pub reported_parks : ℕ → TaskProgress → ℕ
reported_parks retained p = if ltb retained p.parks then p.parks else retained
