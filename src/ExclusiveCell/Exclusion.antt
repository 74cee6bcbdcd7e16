-- ===== src/ExclusiveCell/Exclusion.antt =====
-- At most one capability lives at any time (crates/vthread-sync-core/src/exclusive.rs).
use vthread.Prelude.{
  ℕ, ◌+◌, ◌<◌, ◌≡◌, refl, ◌⊎◌, inl, inr, Bool, true, false, none, some, ◌==◌, if◌then◌else◌,
  returns, arith,
}
use vthread.ExclusiveCell.{
  publish, take, try_lock, queue_or_lock, claim, set_waiters, unlock, try_release, drop_guard,
  is_locked,
}
use vthread.ExclusiveCell.Capabilities.{
  System, start, own, Step, locks, queue_locks, queues, claims, marks, unlocks, releases,
  hands_over, drops, publishes, takes, Reachable, begins, steps,
}

-- The entry of the slot counts as one capability.
abbrev pub occupied : ℕ → ℕ
occupied identity = if identity == 0 then 0 else 1

-- The state is free, locked, or locked with waiters, and its lowest bit counts the capabilities.
abbrev pub IsExclusive : System → Type 0
IsExclusive s =
    (0 < s.cell.identity)
    × ((s.slot.identity ≡ 0) ⊎ (s.slot.identity ≡ s.cell.identity))
    × (((s.cell.state ≡ 0) × (s.guards + s.loose + occupied s.slot.identity ≡ 0))
        ⊎ (((s.cell.state ≡ 1) ⊎ (s.cell.state ≡ 3))
            × (s.guards + s.loose + occupied s.slot.identity ≡ 1)))

Step-IsExclusive : (s t : System) → IsExclusive s → Step s t → IsExclusive t
unfolding try_lock queue_or_lock claim set_waiters unlock try_release drop_guard publish take
Step-IsExclusive s _ inv (locks c e) = ground arith
Step-IsExclusive s _ inv (queue_locks c e) = ground arith
Step-IsExclusive s _ inv (queues c e) = ground arith
Step-IsExclusive s _ inv (claims some_loose e) = ground arith
Step-IsExclusive s _ inv (marks waiters c some_loose e) = ground arith
Step-IsExclusive s _ inv (unlocks c some_loose e) = ground arith
Step-IsExclusive s _ inv (releases c some_guard e) = ground arith
Step-IsExclusive s _ inv (hands_over o c some_guard e) = ground arith
Step-IsExclusive s _ inv (drops c some_guard e) = ground arith
Step-IsExclusive s _ inv (publishes slot some_loose e) = ground arith
Step-IsExclusive s _ inv (takes o slot e) = ground arith

start-IsExclusive : (identity : ℕ) → 0 < identity → IsExclusive (start identity)
unfolding start
start-IsExclusive identity h = (h, inl refl, inl (refl, refl))

Reachable-IsExclusive :
    (identity : ℕ) (s : System) → 0 < identity → Reachable identity s → IsExclusive s
Reachable-IsExclusive identity s h begins = start-IsExclusive identity h
Reachable-IsExclusive identity _ h (steps s t r step) =
    Step-IsExclusive s t (Reachable-IsExclusive identity s h r) step

-- In a reachable state the holder of a guard can release it without a panic, and hands over the
-- cell's own ownership where somebody waits.
guard_releases :
    (identity : ℕ) (s : System)
    → 0 < identity
    → Reachable identity s
    → 0 < s.guards
    → ((try_release s.cell ≡ returns (none, record s.cell { state = 0 }))
        ⊎ (try_release s.cell ≡ returns (some (own s), s.cell)))
      × (drop_guard s.cell ≡ returns (record s.cell { state = 0 }))
unfolding try_release drop_guard
guard_releases identity s h r held =
    let inv : IsExclusive s = Reachable-IsExclusive identity s h r in
    (releasing inv.2, ground arith)
  where
    releasing :
        ((s.cell.state ≡ 0) × (s.guards + s.loose + occupied s.slot.identity ≡ 0))
          ⊎ (((s.cell.state ≡ 1) ⊎ (s.cell.state ≡ 3))
              × (s.guards + s.loose + occupied s.slot.identity ≡ 1))
        → (try_release s.cell ≡ returns (none, record s.cell { state = 0 }))
          ⊎ (try_release s.cell ≡ returns (some (own s), s.cell))
    releasing (inl (free, none_live)) = absurd (omega arith)
    releasing (inr (inl plain, one)) = inl (ground arith)
    releasing (inr (inr marked, one)) = inr (ground arith)

-- In a reachable state a loose ownership is never refused: it can be claimed, can mark the waiters,
-- can unlock the cell and finds the handoff slot empty.
ownership_accepted :
    (identity : ℕ) (s : System) (waiters : Bool)
    → 0 < identity
    → Reachable identity s
    → 0 < s.loose
    → (claim (own s) s.cell ≡ true)
      × ((set_waiters (own s) waiters s.cell).0 ≡ true)
      × ((unlock (own s) s.cell).0 ≡ true)
      × ((publish (own s) s.slot).0 ≡ true)
unfolding claim set_waiters unlock publish
ownership_accepted identity s waiters h r held =
    let inv : IsExclusive s = Reachable-IsExclusive identity s h r in
    (ground arith, ground arith, ground arith, ground arith)

-- In a reachable state queueing never panics, and it acquires the cell exactly when it is free.
queue_or_lock_cases :
    (identity : ℕ) (s : System)
    → 0 < identity
    → Reachable identity s
    → ((s.cell.state ≡ 0) × (queue_or_lock s.cell ≡ returns (true, record s.cell { state = 1 })))
      ⊎ ((is_locked s.cell.state ≡ true)
          × (queue_or_lock s.cell ≡ returns (false, record s.cell { state = 3 })))
unfolding queue_or_lock
queue_or_lock_cases identity s h r = queueing (Reachable-IsExclusive identity s h r).2
  where
    queueing :
        ((s.cell.state ≡ 0) × (s.guards + s.loose + occupied s.slot.identity ≡ 0))
          ⊎ (((s.cell.state ≡ 1) ⊎ (s.cell.state ≡ 3))
              × (s.guards + s.loose + occupied s.slot.identity ≡ 1))
        → ((s.cell.state ≡ 0)
            × (queue_or_lock s.cell ≡ returns (true, record s.cell { state = 1 })))
          ⊎ ((is_locked s.cell.state ≡ true)
              × (queue_or_lock s.cell ≡ returns (false, record s.cell { state = 3 })))
    queueing (inl (free, none_live)) = inl (free, ground arith)
    queueing (inr (inl plain, one)) = inr (ground arith, ground arith)
    queueing (inr (inr marked, one)) = inr (ground arith, ground arith)
