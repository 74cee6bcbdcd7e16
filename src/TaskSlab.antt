-- ===== src/TaskSlab.antt =====
-- crates/vthread/src/task_slab.rs, `TaskSlab`: task storage whose freed slots are used again.
-- `vacant` is a stack, its top first. `get_mut` is `get` here: what a caller writes through it is
-- the caller's, and leaves the slot occupied.
pub mod Laws
mod Examples
use vthread.Prelude.{
  ℕ, zero, suc, ◌+◌, ◌-◌, ◌≡◌, Bool, true, false, Option, none, some, List, [], ◌∷◌, ◌++◌, length,
  get_elem?, set, ◌==◌, Outcome, returns, panics, ◌>>=◌, ◌>>◌, assert, expect,
}

pub record TaskSlab (T : Type 0) : Type 0 where
  pub slots : List (Option T)
  pub vacant : List ℕ

abbrev pub is_none : {A : Type 0} → Option A → Bool
is_none none = true
is_none (some a) = false

-- `get(index)?.as_ref()`
abbrev pub flatten : {A : Type 0} → Option (Option A) → Option A
flatten none = none
flatten (some o) = o

module _ {T : Type 0} where
  unfoldable pub new : TaskSlab T
  new = record { slots = []; vacant = [] }

  -- `insert` once the vacant stack has been popped.
  unfoldable pub reuse : T → ℕ → TaskSlab T → Outcome (ℕ × TaskSlab T)
  reuse value index s = do
    slot ← expect (get_elem? s.slots index)
    assert (is_none slot)
    returns (index, record s { slots = set s.slots index (some value) })

  unfoldable pub insert : T → TaskSlab T → Outcome (ℕ × TaskSlab T)
  unfolding reuse
  insert value s = elim s.vacant [
    | [] ↦ returns (length s.slots, record s { slots = s.slots ++ some value ∷ [] })
    | index ∷ vacant ↦ reuse value index (record s { vacant = vacant })
  ]

  unfoldable pub get : ℕ → TaskSlab T → Option T
  get index s = flatten (get_elem? s.slots index)

  unfoldable pub remove : ℕ → TaskSlab T → Option T × TaskSlab T
  remove index s = elim (flatten (get_elem? s.slots index)) [
    | none ↦ (none, s)
    | some value ↦
        (some value, record { slots = set s.slots index none; vacant = index ∷ s.vacant })
  ]

  -- `len` subtracts on `usize`.
  unfoldable pub len : TaskSlab T → ℕ
  len s = length s.slots - length s.vacant

  unfoldable pub is_empty : TaskSlab T → Bool
  unfolding len
  is_empty s = len s == 0
