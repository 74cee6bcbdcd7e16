-- ===== src/ReadyQueue.antt =====
-- crates/vthread/src/ready_queue.rs and ready_queue_inspection.rs: the carrier's runnable queue with
-- its two lanes, and the operations that inspect them.
pub mod Fairness
pub mod Cleanup
pub mod Runs
mod Examples
use vthread.Prelude.{
  ℕ, zero, suc, ◌+◌, ◌≡◌, refl, Bool, true, false, ◌&&◌, Option, none, some, List, [], ◌∷◌, ◌++◌,
  length, ltb, ◌==◌, if◌then◌else◌, empty?, first?, rest_of, last?, front_of, position,
  last_position, remove_at, get_elem?, Outcome, returns, panics, ◌>>=◌,
}
use vthread.TaskKey.{TaskKey, same_key}

abbrev pub wake_burst : ℕ
wake_burst = 2

pub record ReadyQueue : Type 0 where
  pub normal : List TaskKey
  pub wakes : List TaskKey
  pub wake_streak : ℕ

unfoldable pub new : ReadyQueue
new = record { normal = []; wakes = []; wake_streak = 0 }

unfoldable pub push_back : TaskKey → ReadyQueue → ReadyQueue
push_back task q = record q { normal = q.normal ++ task ∷ [] }

unfoldable pub push_front : TaskKey → ReadyQueue → ReadyQueue
push_front task q = record q { normal = task ∷ q.normal }

unfoldable pub push_wake : TaskKey → ReadyQueue → ReadyQueue
push_wake task q = record q { wakes = task ∷ q.wakes }

-- The last lines of `pop_front`: the oldest wake, and a new cohort.
pop_oldest_wake : ReadyQueue → Option TaskKey × ReadyQueue
pop_oldest_wake q = (last? q.wakes, record q { wakes = front_of q.wakes; wake_streak = 0 })

-- The branch at the end of the burst: a normal head, and the obligation to the oldest wake stays.
pop_after_burst : ReadyQueue → Option TaskKey × ReadyQueue
unfolding pop_oldest_wake
pop_after_burst q = elim q.normal [
  | [] ↦ pop_oldest_wake (record q { wake_streak = q.wake_streak + 1 })
  | task ∷ rest ↦ (some task, record q { normal = rest; wake_streak = q.wake_streak + 1 })
]

unfoldable pub pop_front : ReadyQueue → Option TaskKey × ReadyQueue
unfolding pop_oldest_wake pop_after_burst
pop_front q =
    if empty? q.wakes
    then (first? q.normal, record q { normal = rest_of q.normal; wake_streak = 0 })
    else if ltb q.wake_streak wake_burst
    then (first? q.wakes, record q { wakes = rest_of q.wakes; wake_streak = q.wake_streak + 1 })
    else if q.wake_streak == wake_burst
    then pop_after_burst q
    else pop_oldest_wake q

unfoldable pub len : ReadyQueue → ℕ
len q = length q.normal + length q.wakes

unfoldable pub is_empty : ReadyQueue → Bool
is_empty q = empty? q.normal && empty? q.wakes

-- What an inspection has still to look at, in each lane.
pub record Inspection : Type 0 where
  pub normal_left : ℕ
  pub wakes_left : ℕ

unfoldable pub inspection : ReadyQueue → Inspection
inspection q = record { normal_left = length q.normal; wakes_left = length q.wakes }

-- The `while` of `remove_matching` over one lane: the match, the lane and the rest of the count.
pub scan_lane : (TaskKey → Bool) → ℕ → List TaskKey → Outcome (Option TaskKey × List TaskKey × ℕ)
scan_lane matches zero lane = returns (none, lane, 0)
scan_lane matches (suc left) [] = panics
scan_lane matches (suc left) (task ∷ lane) =
    let rest = scan_lane matches left (lane ++ task ∷ []) in
    if matches task then returns (some task, lane, left) else rest

-- The two rounds of `remove_matching` put together: it returns at the first match, and comes to the
-- wakes only where the normal lane has none.
after_scans :
    Inspection
    → ReadyQueue
    → Option TaskKey × List TaskKey × ℕ
    → Outcome (Option TaskKey × List TaskKey × ℕ)
    → Outcome (Option TaskKey × Inspection × ReadyQueue)
after_scans i q (some task, normal, left) scanned =
    returns (some task, record i { normal_left = left }, record q { normal = normal })
after_scans i q (none, normal, left) scanned = do
  (woken, wakes, wakes_left) ← scanned
  returns (
    woken,
    record { normal_left = left; wakes_left = wakes_left },
    record q { normal = normal; wakes = wakes },
  )

unfoldable pub remove_matching :
    (TaskKey → Bool) → Inspection → ReadyQueue → Outcome (Option TaskKey × Inspection × ReadyQueue)
unfolding after_scans
remove_matching matches i q = do
  normal ← scan_lane matches i.normal_left q.normal
  after_scans i q normal (scan_lane matches i.wakes_left q.wakes)

take_normal : ℕ → ReadyQueue → Option TaskKey × ReadyQueue
take_normal index q = (get_elem? q.normal index, record q { normal = remove_at index q.normal })

take_wake : ℕ → ReadyQueue → Option TaskKey × ReadyQueue
take_wake index q = (get_elem? q.wakes index, record q { wakes = remove_at index q.wakes })

-- `pop_matching` when no wake is eligible.
pop_matching_normal : Option ℕ → ReadyQueue → Option TaskKey × ReadyQueue
unfolding take_normal
pop_matching_normal none q = (none, q)
pop_matching_normal (some index) q = take_normal index (record q { wake_streak = 0 })

-- `pop_matching` when the eligible wakes are `newest` to `oldest`.
pop_matching_wake : ℕ → Option ℕ → Option ℕ → ReadyQueue → Option TaskKey × ReadyQueue
unfolding take_normal take_wake
pop_matching_wake newest oldest normal q =
    if ltb q.wake_streak wake_burst
    then take_wake newest (record q { wake_streak = q.wake_streak + 1 })
    else elim normal [
      | some index ↦
          if q.wake_streak == wake_burst
          then take_normal index (record q { wake_streak = q.wake_streak + 1 })
          else last_wake oldest
      | none ↦ last_wake oldest
    ]
  where
    last_wake : Option ℕ → Option TaskKey × ReadyQueue
    last_wake none = (none, record q { wake_streak = 0 })
    last_wake (some index) = take_wake index (record q { wake_streak = 0 })

unfoldable pub pop_matching : (TaskKey → Bool) → ReadyQueue → Option TaskKey × ReadyQueue
unfolding pop_matching_normal pop_matching_wake
pop_matching eligible q = elim (position eligible q.wakes) [
  | none ↦ pop_matching_normal (position eligible q.normal) q
  | some newest ↦
      pop_matching_wake newest (last_position eligible q.wakes) (position eligible q.normal) q
]

unfoldable pub remove : TaskKey → ReadyQueue → Bool × ReadyQueue
remove task q = elim (position (same_key task) q.normal) [
  | some index ↦ (true, record q { normal = remove_at index q.normal })
  | none ↦ elim (position (same_key task) q.wakes) [
    | some index ↦ (true, record q { wakes = remove_at index q.wakes })
    | none ↦ (false, q)
  ]
]
