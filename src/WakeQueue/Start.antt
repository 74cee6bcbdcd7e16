-- ===== src/WakeQueue/Start.antt =====
-- The queue that construction gives (crates/vthread/src/wake_queue_core.rs, `new`).
use vthread.Prelude.{ℕ, ◌+◌, ◌*◌, ◌<◌, ◌≡◌, refl, [], returns, arith}
use vthread.WakeQueue.{WakeQueue, new, sleeping}
use vthread.WakeQueue.Refinement.{free, Represents}

-- A capacity whose array stays below the sleeping mark gives an empty queue of two slots for each
-- task and two more, all of them free.
pub new-Represents :
    (capacity : ℕ)
    → capacity * 2 + 2 < sleeping
    → (q : WakeQueue) × (new capacity ≡ returns q)
      × (q.slot_count ≡ capacity * 2 + 2)
      × Represents q (λ _. free) [] []
unfolding new
new-Represents capacity h = (
  record {
    slot_count = capacity * 2 + 2;
    next = λ _. 0;
    task = λ _. 0;
    wait = λ _. 0;
    selection = λ _. 0;
    head = 0;
    consumer = 0;
  },
  ground arith,
  refl,
  record {
    room = h;
    head_chain = refl;
    owner_chain = refl;
    fresh_distinct = tt;
    taken_distinct = tt;
    fresh_lane = λ i o. absurd o;
    taken_lane = λ i o. absurd o;
    slots = λ i. refl;
  },
)
