-- ===== src/ExclusiveCell.antt =====
-- crates/vthread-sync-core/src/exclusive.rs: the cell of a mutex, whose one capability is a guard, a
-- loose ownership or the entry of a handoff slot. An atomic operation is one step; a loop of compare
-- and exchange takes effect at the exchange that succeeds. The value in the cell is left out.
pub mod Capabilities
pub mod Exclusion
mod Examples
use vthread.Prelude.{
  ℕ, ◌+◌, ◌*◌, ◌/◌, ◌%◌, ◌≡◌, Bool, true, false, not, ◌&&◌, Option, none, some, ◌==◌, if◌then◌else◌,
  Outcome, returns, panics, ◌>>=◌, ◌>>◌, assert,
}

abbrev pub locked : ℕ
locked = 1

abbrev pub has_waiters : ℕ
has_waiters = 2

pub record ExclusiveCell : Type 0 where
  pub state : ℕ
  pub identity : ℕ

pub record Ownership : Type 0 where
  pub identity : ℕ

pub record OwnershipSlot : Type 0 where
  pub identity : ℕ

-- `state & LOCKED != 0` and `state & HAS_WAITERS != 0`.
abbrev pub is_locked : ℕ → Bool
is_locked state = not (state % 2 == 0)

abbrev pub is_marked : ℕ → Bool
is_marked state = not (state / 2 % 2 == 0)

-- `OwnershipSlot::new`, `publish` (whether it took the ownership) and `take`.
unfoldable pub empty_slot : OwnershipSlot
empty_slot = record { identity = 0 }

unfoldable pub publish : Ownership → OwnershipSlot → Bool × OwnershipSlot
publish o slot =
    if slot.identity == 0 then (true, record { identity = o.identity }) else (false, slot)

unfoldable pub take : OwnershipSlot → Option Ownership × OwnershipSlot
take slot = (
  if slot.identity == 0 then none else some (record { identity = slot.identity }),
  record { identity = 0 },
)

-- A cell with an identity from the counter, which starts at 1.
unfoldable pub new : ℕ → ExclusiveCell
new identity = record { state = 0; identity = identity }

unfoldable pub try_lock : ExclusiveCell → Option ExclusiveCell
try_lock c = if c.state == 0 then some (record c { state = locked }) else none

-- Whether the caller acquired the cell; otherwise it is queued.
unfoldable pub queue_or_lock : ExclusiveCell → Outcome (Bool × ExclusiveCell)
queue_or_lock c = if c.state == 0 then returns (true, record c { state = locked }) else do
  assert (is_locked c.state)
  returns (
      if is_marked c.state then (false, c) else (false, record c { state = c.state + has_waiters }))

-- The test of `claim`, `set_waiters` and `unlock`.
abbrev pub owns : Ownership → ExclusiveCell → Bool
owns o c = o.identity == c.identity && is_locked c.state

-- `claim`: whether the ownership becomes a guard.
unfoldable pub claim : Ownership → ExclusiveCell → Bool
claim o c = owns o c

unfoldable pub set_waiters : Ownership → Bool → ExclusiveCell → Bool × ExclusiveCell
set_waiters o waiters c =
    if owns o c
    then (true, record c { state = locked + (if waiters then has_waiters else 0) })
    else (false, c)

unfoldable pub unlock : Ownership → ExclusiveCell → Bool × ExclusiveCell
unlock o c = if owns o c then (true, record c { state = 0 }) else (false, c)

-- `ExclusiveGuard::try_release`: an ownership where somebody waits.
unfoldable pub try_release : ExclusiveCell → Outcome (Option Ownership × ExclusiveCell)
try_release c =
    if c.state == locked
    then returns (none, record c { state = 0 })
    else do assert (is_locked c.state); returns (some (record { identity = c.identity }), c)

-- `Drop for ExclusiveGuard`.
unfoldable pub drop_guard : ExclusiveCell → Outcome ExclusiveCell
drop_guard c = do assert (is_locked c.state); returns (record c { state = 0 })
