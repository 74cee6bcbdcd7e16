-- ===== src/WakeQueue/Producers.antt =====
-- Reservation of slots (crates/vthread/src/wake_queue_core.rs, `push` up to its publication).
use vthread.Prelude.{
  ℕ, ◌+◌, ◌-◌, ◌*◌, ◌/◌, ◌^◌, ◌≤◌, ◌<◌, ◌≡◌, ◌≢◌, refl, ◌⊎◌, inl, inr, none, some, List, arith,
  Occurs, sym, ◌∙◌, subst, returns,
}
use vthread.WakeQueue.{WakeQueue, WakeNotice, update, cause_code, reserve}
use vthread.WakeQueue.Refinement.{
  Lane, free, reserved, stacked, queued, IsHeld, Holds, Represents, relane, update_self, update_ne,
  relane_elim, apart,
}

-- A notice that the runtime can send: its route and its task are not zero, and its generation fits
-- the packed selection.
pub record IsSound (notice : WakeNotice) : Type 0 where
  pub route : 0 < notice.route.word
  pub task : 0 < notice.task
  pub generation : notice.token.generation ≤ (2 ^ 64 - 1) / 8

-- The queue after the stores of a reservation.
abbrev stored : WakeNotice → WakeQueue → WakeQueue
stored notice q = record q {
  task = update q.task notice.route.word notice.task;
  wait = update q.wait notice.route.word notice.token.wait;
  selection =
      update q.selection notice.route.word (notice.token.generation * 8 + cause_code notice.cause);
}

IsHeld-stored :
    (notice : WakeNotice) (q : WakeQueue) (j : ℕ)
    → notice.route.word ≢ j
    → IsHeld q j
    → IsHeld (stored notice q) j
IsHeld-stored notice q j ne h = record {
  positive = h.positive;
  within = h.within;
  occupied =
      subst (λ n. 0 < n) (sym (update_ne q.task notice.route.word notice.task j ne)) h.occupied;
  cause = h.cause;
  generation = h.generation;
  packed = update_ne q.selection notice.route.word _ j ne ∙ h.packed;
}

Holds-stored :
    (notice : WakeNotice) (q : WakeQueue) (l : Lane) (j : ℕ)
    → notice.route.word ≢ j
    → Holds q l j
    → Holds (stored notice q) l j
Holds-stored notice q free j ne h = update_ne q.task notice.route.word notice.task j ne ∙ h
Holds-stored notice q reserved j ne h = IsHeld-stored notice q j ne h
Holds-stored notice q stacked j ne h = IsHeld-stored notice q j ne h
Holds-stored notice q queued j ne h = IsHeld-stored notice q j ne h

reserve_stored :
    (notice : WakeNotice) (q : WakeQueue)
    → IsSound notice
    → notice.route.word < q.slot_count
    → q.task notice.route.word ≡ 0
    → reserve notice q ≡ returns (some (stored notice q))
unfolding reserve
reserve_stored notice q sound within empty = ground (arith, sound.generation)

-- A sound notice for a free slot of the array is reserved: its slot holds its task, its wait, its
-- generation and its cause, no other slot changes and neither does the queue's order.
pub reserve-Represents :
    (notice : WakeNotice) (q : WakeQueue) (lane : ℕ → Lane) (taken fresh : List ℕ)
    → Represents q lane taken fresh
    → IsSound notice
    → notice.route.word < q.slot_count
    → lane notice.route.word ≡ free
    → (q' : WakeQueue) × (reserve notice q ≡ returns (some q'))
      × Represents q' (relane lane notice.route.word reserved) taken fresh
      × (q'.task notice.route.word ≡ notice.task)
      × (q'.wait notice.route.word ≡ notice.token.wait)
      × (q'.selection notice.route.word ≡ notice.token.generation * 8 + cause_code notice.cause)
      × ((j : ℕ)
          → notice.route.word ≢ j
          → (q'.task j ≡ q.task j) × (q'.wait j ≡ q.wait j) × (q'.selection j ≡ q.selection j))
reserve-Represents notice q lane taken fresh r sound within own = (
  stored notice q,
  reserve_stored notice q sound within (subst (λ l. Holds q l i) own (r.slots i)),
  record {
    room = r.room;
    head_chain = r.head_chain;
    owner_chain = r.owner_chain;
    fresh_distinct = r.fresh_distinct;
    taken_distinct = r.taken_distinct;
    fresh_lane = λ j o.
        relane_elim (λ l. l ≡ stacked) lane i reserved j
          (λ e. absurd (
            apart lane stacked free fresh i r.fresh_lane own (λ d. cc)
              (subst (λ k. Occurs k fresh) (sym e) o)))
          (λ ne. r.fresh_lane j o);
    taken_lane = λ j o.
        relane_elim (λ l. l ≡ queued) lane i reserved j
          (λ e. absurd (
            apart lane queued free taken i r.taken_lane own (λ d. cc)
              (subst (λ k. Occurs k taken) (sym e) o)))
          (λ ne. r.taken_lane j o);
    slots = λ j.
        relane_elim (λ l. Holds (stored notice q) l j) lane i reserved j
          (λ e. subst (IsHeld (stored notice q)) e new_slot)
          (λ ne. Holds-stored notice q (lane j) j ne (r.slots j));
  },
  update_self q.task i notice.task,
  update_self q.wait i notice.token.wait,
  update_self q.selection i _,
  λ j ne. (
    update_ne q.task i notice.task j ne,
    update_ne q.wait i notice.token.wait j ne,
    update_ne q.selection i _ j ne,
  ),
)
  where
    i : ℕ
    i = notice.route.word

    new_slot : IsHeld (stored notice q) i
    new_slot = record {
      positive = sound.route;
      within = within;
      occupied = subst (λ n. 0 < n) (sym (update_self q.task i notice.task)) sound.task;
      cause = notice.cause;
      generation = notice.token.generation;
      packed = update_self q.selection i _;
    }

-- A notice whose route is past the array or already in use is given back.
reserve_refused :
    (notice : WakeNotice) (q : WakeQueue) (lane : ℕ → Lane) (taken fresh : List ℕ)
    → Represents q lane taken fresh
    → (q.slot_count ≤ notice.route.word) ⊎ (lane notice.route.word ≢ free)
    → reserve notice q ≡ returns none
unfolding reserve
reserve_refused notice q lane taken fresh r (inl past) = ground arith
reserve_refused notice q lane taken fresh r (inr busy) =
    go (lane notice.route.word) (r.slots notice.route.word) busy
  where
    held : IsHeld q notice.route.word → reserve notice q ≡ returns none
    held h = ground (arith, h.occupied)

    go : (l : Lane) → Holds q l notice.route.word → l ≢ free → reserve notice q ≡ returns none
    go free h ne = absurd (ne refl)
    go reserved h ne = held h
    go stacked h ne = held h
    go queued h ne = held h
