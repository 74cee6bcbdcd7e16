-- ===== src/ExclusiveCell/Examples.antt =====
-- A cell that is locked, has a waiter and is handed over.
use vthread.Prelude.{ℕ, refl, arith}
use vthread.ExclusiveCell.{ExclusiveCell, empty_slot, new, try_lock, queue_or_lock, try_release}
use vthread.ExclusiveCell.Capabilities.{
  System, start, Step, locks, queues, hands_over, Reachable, begins, steps,
}

abbrev cell : ℕ → ExclusiveCell
cell state = record { state = state; identity = 7 }

abbrev held : System
held = record { cell = cell 1; slot = record { identity = 0 }; guards = 1; loose = 0 }

abbrev contended : System
contended = record held { cell = cell 3 }

abbrev handed : System
handed = record contended { guards = 0; loose = 1 }

start-locks : Step (start 7) held
unfolding start new empty_slot try_lock
start-locks = locks (cell 1) refl

held-queues : Step held contended
unfolding queue_or_lock
held-queues = queues (cell 3) refl

contended-hands_over : Step contended handed
unfolding try_release
contended-hands_over = hands_over (record { identity = 7 }) (cell 3) (omega arith) refl

contended-Reachable : Reachable 7 contended
contended-Reachable = steps held contended (steps (start 7) held begins start-locks) held-queues

handed-Reachable : Reachable 7 handed
handed-Reachable = steps contended handed contended-Reachable contended-hands_over
