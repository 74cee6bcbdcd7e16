-- ===== src/ParkedTasks.antt =====
-- crates/vthread/src/parked_tasks.rs: the carrier's park records, addressed by task keys. A key that
-- `TaskKey` built has a word of at least 2, so that its index does not underflow.
pub mod Laws
pub mod Growth
mod Examples
use vthread.Prelude.{
  ℕ, zero, suc, ◌+◌, ◌-◌, ◌≡◌, Bool, true, false, Option, none, some, List, [], ◌∷◌, ◌++◌, length,
  get_elem?, set, replicate, leb, ltb, ◌==◌, if◌then◌else◌,
}
use vthread.ParkToken.{ParkToken}
use vthread.TaskKey.{TaskKey, index, is_borrowed}
use vthread.TaskSlab.{flatten, is_none}

-- A registration is the identity of the wait state that it refers to.
pub record ParkedTask : Type 0 where
  pub token : ParkToken
  pub task : TaskKey
  pub has_deadline : Bool
  pub deferred : Bool
  pub registration : Option ℕ

-- The slots of one ownership class.
abbrev pub Slots : Type 0
Slots = List (Option ParkedTask)

pub record ParkedTasks : Type 0 where
  pub owned : Slots
  pub borrowed : Slots
  pub count : ℕ

unfoldable pub new : ParkedTasks
new = record { owned = []; borrowed = []; count = 0 }

unfoldable pub slots : TaskKey → ParkedTasks → Slots
slots task t = if is_borrowed task then t.borrowed else t.owned

-- A write through `slots_mut`.
unfoldable pub put_slots : TaskKey → Slots → ParkedTasks → ParkedTasks
put_slots task s t = if is_borrowed task then record t { borrowed = s } else record t { owned = s }

-- `resize_with(task.index() + 1, || None)` where the slots are too few.
unfoldable pub grow : ℕ → Slots → Slots
grow i s = if leb (length s) i then s ++ replicate (i + 1 - length s) none else s

unfoldable pub get : TaskKey → ParkedTasks → Option ParkedTask
unfolding slots
get task t = flatten (get_elem? (slots task t) (index task))

unfoldable pub insert : ParkedTask → ParkedTasks → Bool × ParkedTasks
unfolding slots put_slots grow
insert parked t =
    let task = parked.task in
    let grown = grow (index task) (slots task t) in
    if is_none (flatten (get_elem? grown (index task)))
    then (
      true,
      record (put_slots task (set grown (index task) (some parked)) t) { count = t.count + 1 },
    )
    else (false, put_slots task grown t)

unfoldable pub remove : TaskKey → ParkedTasks → Option ParkedTask × ParkedTasks
unfolding slots put_slots
remove task t = elim (flatten (get_elem? (slots task t) (index task))) [
  | none ↦ (none, t)
  | some parked ↦ (
    some parked,
    record (put_slots task (set (slots task t) (index task) none) t) { count = t.count - 1 },
  )
]

-- `iter().flatten`: the occupied slots in order.
unfoldable pub occupied : Slots → List ParkedTask
occupied [] = []
occupied (none ∷ s) = occupied s
occupied (some p ∷ s) = p ∷ occupied s

unfoldable pub iter : ParkedTasks → List ParkedTask
unfolding occupied
iter t = occupied t.owned ++ occupied t.borrowed

unfoldable pub len : ParkedTasks → ℕ
len t = t.count

unfoldable pub is_empty : ParkedTasks → Bool
is_empty t = t.count == 0
