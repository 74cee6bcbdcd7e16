-- ===== src/ExclusiveCell/Capabilities.antt =====
-- Who holds what: the steps of everybody who shares a cell and its handoff slot
-- (crates/vthread-sync-core/src/exclusive.rs). Capabilities are linear, so counting them is enough.
use vthread.Prelude.{ℕ, ◌+◌, ◌-◌, ◌<◌, ◌≡◌, Bool, true, false, none, some, returns}
use vthread.ExclusiveCell.{
  ExclusiveCell, Ownership, OwnershipSlot, empty_slot, publish, take, new, try_lock, queue_or_lock,
  claim, set_waiters, unlock, try_release, drop_guard,
}

-- The cell, its slot, the live guards and the loose ownerships.
pub record System : Type 0 where
  pub cell : ExclusiveCell
  pub slot : OwnershipSlot
  pub guards : ℕ
  pub loose : ℕ

unfoldable pub start : ℕ → System
unfolding new empty_slot
start identity = record { cell = new identity; slot = empty_slot; guards = 0; loose = 0 }

-- The ownership of the system's cell.
abbrev pub own : System → Ownership
own s = record { identity = s.cell.identity }

pub data Step (s : System) : System → Type 0 where
  locks :
      (c : ExclusiveCell)
      → try_lock s.cell ≡ some c
      → Step s (record s { cell = c; guards = s.guards + 1 })
  queue_locks :
      (c : ExclusiveCell)
      → queue_or_lock s.cell ≡ returns (true, c)
      → Step s (record s { cell = c; guards = s.guards + 1 })
  queues :
      (c : ExclusiveCell)
      → queue_or_lock s.cell ≡ returns (false, c)
      → Step s (record s { cell = c })
  claims :
      0 < s.loose
      → claim (own s) s.cell ≡ true
      → Step s (record s { guards = s.guards + 1; loose = s.loose - 1 })
  marks :
      (waiters : Bool) (c : ExclusiveCell)
      → 0 < s.loose
      → set_waiters (own s) waiters s.cell ≡ (true, c)
      → Step s (record s { cell = c })
  unlocks :
      (c : ExclusiveCell)
      → 0 < s.loose
      → unlock (own s) s.cell ≡ (true, c)
      → Step s (record s { cell = c; loose = s.loose - 1 })
  releases :
      (c : ExclusiveCell)
      → 0 < s.guards
      → try_release s.cell ≡ returns (none, c)
      → Step s (record s { cell = c; guards = s.guards - 1 })
  hands_over :
      (o : Ownership) (c : ExclusiveCell)
      → 0 < s.guards
      → try_release s.cell ≡ returns (some o, c)
      → Step s (record s { cell = c; guards = s.guards - 1; loose = s.loose + 1 })
  drops :
      (c : ExclusiveCell)
      → 0 < s.guards
      → drop_guard s.cell ≡ returns c
      → Step s (record s { cell = c; guards = s.guards - 1 })
  publishes :
      (slot : OwnershipSlot)
      → 0 < s.loose
      → publish (own s) s.slot ≡ (true, slot)
      → Step s (record s { slot = slot; loose = s.loose - 1 })
  takes :
      (o : Ownership) (slot : OwnershipSlot)
      → take s.slot ≡ (some o, slot)
      → Step s (record s { slot = slot; loose = s.loose + 1 })

pub data Reachable (identity : ℕ) : System → Type 0 where
  begins : Reachable identity (start identity)
  steps : (s t : System) → Reachable identity s → Step s t → Reachable identity t
