-- ===== src/TaskProgress/States.antt =====
-- crates/vthread/src/task_progress_state.rs: the compact codes of a task's suspension and wake reasons.
use vthread.Prelude.{
  ℕ, ◌≤◌, ◌≡◌, Option, none, some, ◌==◌, if◌then◌else◌, arith, Option-cases, inl, inr,
}

-- `SuspensionReason` of crates/vthread/src/task.rs; a task is its number.
pub data SuspensionReason : Type 0 where
  yield_now scope_drain park mutex condvar semaphore notify : SuspensionReason
  join : ℕ → SuspensionReason
  channel_send channel_recv io_read io_write io_accept io_connect : SuspensionReason
  blocking dns file_io : SuspensionReason

-- `WakeReason` of crates/vthread/src/task.rs.
pub data WakeReason : Type 0 where
  ready timed_out cancelled closed : WakeReason

abbrev pub record_code : ℕ
record_code = 0

abbrev pub ready_code : ℕ
ready_code = 1

unfoldable pub encode_reason : SuspensionReason → ℕ × ℕ
encode_reason yield_now = (2, 0)
encode_reason (join task) = (3, task)
encode_reason scope_drain = (4, 0)
encode_reason park = (5, 0)
encode_reason mutex = (6, 0)
encode_reason condvar = (7, 0)
encode_reason semaphore = (8, 0)
encode_reason notify = (9, 0)
encode_reason channel_send = (10, 0)
encode_reason channel_recv = (11, 0)
encode_reason io_read = (12, 0)
encode_reason io_write = (13, 0)
encode_reason io_accept = (14, 0)
encode_reason io_connect = (15, 0)
encode_reason blocking = (16, 0)
encode_reason dns = (17, 0)
encode_reason file_io = (18, 0)

unfoldable pub decode_reason : ℕ → ℕ → Option SuspensionReason
decode_reason code task =
    if code == 2
    then some yield_now
    else if code == 3
    then some (join task)
    else if code == 4
    then some scope_drain
    else if code == 5
    then some park
    else if code == 6
    then some mutex
    else if code == 7
    then some condvar
    else if code == 8
    then some semaphore
    else if code == 9
    then some notify
    else if code == 10
    then some channel_send
    else if code == 11
    then some channel_recv
    else if code == 12
    then some io_read
    else if code == 13
    then some io_write
    else if code == 14
    then some io_accept
    else if code == 15
    then some io_connect
    else if code == 16
    then some blocking
    else if code == 17
    then some dns
    else if code == 18
    then some file_io
    else none

unfoldable pub encode_wake : WakeReason → ℕ
encode_wake ready = 1
encode_wake timed_out = 2
encode_wake cancelled = 3
encode_wake closed = 4

unfoldable pub decode_wake : ℕ → Option WakeReason
decode_wake code =
    if code == 1
    then some ready
    else if code == 2
    then some timed_out
    else if code == 3
    then some cancelled
    else if code == 4
    then some closed
    else none

-- Every suspension reason is read back from its code and its task, which is none of the two codes
-- that stand for something else, and every wake reason from its code.
pub decode_reason-encode_reason :
    (reason : SuspensionReason) (wake : WakeReason)
    → (decode_reason (encode_reason reason).0 (encode_reason reason).1 ≡ some reason)
      × (2 ≤ (encode_reason reason).0)
      × ((encode_reason reason).0 ≤ 18)
      × (decode_wake (encode_wake wake) ≡ some wake)
unfolding decode_reason encode_reason decode_wake encode_wake
decode_reason-encode_reason reason wake = (ground arith, ground arith, ground arith, ground arith)

-- All codes between the first and the last stand for a reason, whatever the task is.
pub decode_reason_total :
    (code task : ℕ)
    → 2 ≤ code
    → code ≤ 18
    → (reason : SuspensionReason) × (decode_reason code task ≡ some reason)
unfolding decode_reason
decode_reason_total code task l h = elim (Option-cases (decode_reason code task)) [
  | inl nothing ↦ absurd (ground arith)
  | inr found ↦ found
]
