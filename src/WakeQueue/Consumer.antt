-- ===== src/WakeQueue/Consumer.antt =====
-- The owner's side (crates/vthread/src/wake_queue_core.rs, `pop`, `has_pending`, `arm_wait`).
use vthread.Prelude.{
  ℕ, ◌+◌, ◌*◌, ◌<◌, ◌≡◌, ◌≢◌, ◌↔◌, refl, ◌⊎◌, inl, inr, true, false, none, some, List, [], ◌∷◌,
  ◌==◌, arith, Occurs, ap, sym, ◌∙◌, subst, returns, ==_ne, Bool-cases,
}
use vthread.WaitWord.{WakeCause}
use vthread.WakeQueue.{
  WakeQueue, WakeNotice, update, sleeping, index_of, is_sleeping, cause_code, link, read_slot, pop,
  has_pending, arm_wait, decode_selection,
}
use vthread.WakeQueue.Refinement.{
  Lane, free, reserved, stacked, queued, IsHeld, Holds, Represents, order, relane, update_self,
  update_ne, relane_elim, Holds-links, IsHeld-links, relane_self,
}
use vthread.WakeQueue.Choice.{Chosen, reverse_onto_nonempty, choose-Chosen, choose_empty}

decode_cause_code :
    (c : WakeCause) (g s : ℕ) → s ≡ g * 8 + cause_code c → decode_selection s ≡ returns (g, c)
unfolding decode_selection
decode_cause_code c g s e = ground arith

IsHeld-cleared :
    (q : WakeQueue) (i j consumer : ℕ)
    → i ≢ j
    → IsHeld q j
    → IsHeld (record q { task = update q.task i 0; consumer = consumer }) j
IsHeld-cleared q i j consumer ne h = record {
  positive = h.positive;
  within = h.within;
  occupied = subst (λ n. 0 < n) (sym (update_ne q.task i 0 j ne)) h.occupied;
  cause = h.cause;
  generation = h.generation;
  packed = h.packed;
}

Holds-cleared :
    (q : WakeQueue) (i consumer : ℕ) (l : Lane) (j : ℕ)
    → i ≢ j
    → Holds q l j
    → Holds (record q { task = update q.task i 0; consumer = consumer }) l j
Holds-cleared q i consumer free j ne h = update_ne q.task i 0 j ne ∙ h
Holds-cleared q i consumer reserved j ne h = IsHeld-cleared q i j consumer ne h
Holds-cleared q i consumer stacked j ne h = IsHeld-cleared q i j consumer ne h
Holds-cleared q i consumer queued j ne h = IsHeld-cleared q i j consumer ne h

-- Freeing the first slot of the owner's list.
freed :
    (q : WakeQueue) (lane : ℕ → Lane) (i : ℕ) (taken fresh : List ℕ)
    → Represents q lane (i ∷ taken) fresh
    → Represents
        (record q { task = update q.task i 0; consumer = q.next i })
        (relane lane i free)
        taken
        fresh
freed q lane i taken fresh r = record {
  room = r.room;
  head_chain = r.head_chain;
  owner_chain = r.owner_chain.2;
  fresh_distinct = r.fresh_distinct;
  taken_distinct = r.taken_distinct.1;
  fresh_lane = λ j o.
      relane_elim (λ l. l ≡ stacked) lane i free j
        (λ e. absurd (cc (ap lane e, r.taken_lane i (inl refl), r.fresh_lane j o)))
        (λ ne. r.fresh_lane j o);
  taken_lane = λ j o.
      relane_elim (λ l. l ≡ queued) lane i free j
        (λ e. absurd (r.taken_distinct.0 (subst (λ k. Occurs k taken) (sym e) o)))
        (λ ne. r.taken_lane j (inr o));
  slots = λ j.
      relane_elim (λ l. Holds (record q { task = update q.task i 0; consumer = q.next i }) l j) lane
        i free j (λ e. subst (λ k. update q.task i 0 k ≡ 0) e (update_self q.task i 0))
        (λ ne. Holds-cleared q i (q.next i) (lane j) j ne (r.slots j));
}

-- The notice that slot `i` holds.
pub record Carries (q : WakeQueue) (i : ℕ) (notice : WakeNotice) : Type 0 where
  pub route : notice.route.word ≡ i
  pub task : notice.task ≡ q.task i
  pub wait : notice.token.wait ≡ q.wait i
  pub selection : q.selection i ≡ notice.token.generation * 8 + cause_code notice.cause

read_slot_lem :
    (q : WakeQueue) (i : ℕ)
    → IsHeld q i
    → (notice : WakeNotice) × (read_slot i q
        ≡ returns (notice, record q { consumer = q.next i; task = update q.task i 0 }))
      × Carries q i notice
unfolding read_slot
read_slot_lem q i h = (
  record {
    token = record { wait = q.wait i; generation = h.generation };
    task = q.task i;
    route = record { word = i };
    cause = h.cause;
  },
  rw (decode_cause_code h.cause h.generation (q.selection i) h.packed)
      (ground (arith, h.positive, h.within, h.occupied)),
  record { route = refl; task = refl; wait = refl; selection = h.packed },
)

-- What `pop` does to a queue with something to serve.
pub record Popped (q : WakeQueue) (taken fresh : List ℕ) : Type 0 where
  pub slot : ℕ
  pub notice : WakeNotice
  pub q' : WakeQueue
  pub lane' : ℕ → Lane
  pub taken' : List ℕ
  pub fresh' : List ℕ
  pub popped : pop q ≡ returns (some notice, q')
  pub carried : Carries q slot notice
  pub queue : Represents q' lane' taken' fresh'
  pub first : order taken fresh ≡ slot ∷ order taken' fresh'
  pub released : lane' slot ≡ free
  pub kept_slots : q'.slot_count ≡ q.slot_count
  pub kept_task : (j : ℕ) → slot ≢ j → q'.task j ≡ q.task j
  pub kept_wait : (j : ℕ) → q'.wait j ≡ q.wait j
  pub kept_selection : (j : ℕ) → q'.selection j ≡ q.selection j

pop-Chosen : (q : WakeQueue) (taken fresh : List ℕ) → Chosen q taken fresh → Popped q taken fresh
unfolding pop
pop-Chosen q taken fresh c = record {
  slot = c.slot;
  notice = read.0;
  q' = record q {
    next = c.next;
    head = c.head;
    task = update q.task c.slot 0;
    consumer = c.next c.slot;
  };
  lane' = relane c.lane' c.slot free;
  taken' = c.taken';
  fresh' = c.fresh';
  popped = rw (c.chosen, nonzero, read.1);
  carried = record {
    route = read.2.route;
    task = read.2.task;
    wait = read.2.wait;
    selection = read.2.selection;
  };
  queue =
      freed (record q { next = c.next; head = c.head; consumer = c.slot }) c.lane' c.slot c.taken'
        c.fresh' c.queue;
  first = c.first;
  released = relane_self c.lane' c.slot free;
  kept_slots = refl;
  kept_task = λ j ne. update_ne q.task c.slot 0 j ne;
  kept_wait = λ j. refl;
  kept_selection = λ j. refl;
}
  where
    q1 : WakeQueue
    q1 = record q { next = c.next; head = c.head }

    held : IsHeld (record q { next = c.next; head = c.head; consumer = c.slot }) c.slot
    held =
        subst (λ l. Holds (record q { next = c.next; head = c.head; consumer = c.slot }) l c.slot)
          (c.queue.taken_lane c.slot (inl refl)) (c.queue.slots c.slot)

    read :
        (notice : WakeNotice) × (read_slot c.slot q1
          ≡ returns (notice, record q1 { consumer = c.next c.slot; task = update q.task c.slot 0 }))
        × Carries q1 c.slot notice
    read = read_slot_lem q1 c.slot (
        IsHeld-links (record q { next = c.next; head = c.head; consumer = c.slot }) c.next c.head
          q.consumer c.slot held)

    nonzero : (c.slot == 0) ≡ false
    nonzero = ==_ne c.slot 0 (λ e. omega (arith, held.positive, e))

-- The owner never panics: it is served the slot that was linked first and has not been served yet,
-- with the notice that the slot holds, and the slot is free again; the notices of all other slots stay
-- as they are. Only an empty queue gives nothing, and stays as it is.
pub pop-Represents :
    (q : WakeQueue) (lane : ℕ → Lane) (taken fresh : List ℕ)
    → Represents q lane taken fresh
    → ((order taken fresh ≡ []) × (pop q ≡ returns (none, q))) ⊎ Popped q taken fresh
unfolding pop
pop-Represents q lane taken fresh r = elim (choose-Chosen q lane taken fresh r) [
  | inl e ↦ inl (e, rw (choose_empty q lane taken fresh r e))
  | inr c ↦ inr (pop-Chosen q taken fresh c)
]

-- The owner's readiness test tells exactly whether something is linked and not served.
has_pending_iff :
    (q : WakeQueue) (lane : ℕ → Lane) (taken fresh : List ℕ)
    → Represents q lane taken fresh
    → (has_pending q ≡ false) ↔ (order taken fresh ≡ [])
unfolding has_pending
has_pending_iff q lane [] [] r = (λ h. refl, λ h. ground (arith, r.owner_chain, r.head_chain))
has_pending_iff q lane [] (j ∷ js) r = (
  λ h. absurd (ground (arith, r.head_chain.0, r.head_chain.1)),
  λ h. absurd (reverse_onto_nonempty js j [] h),
)
has_pending_iff q lane (j ∷ js) fresh r =
    (λ h. absurd (ground (arith, r.owner_chain.0, r.owner_chain.1)), λ h. cc)

idle_armed :
    (q : WakeQueue)
    → q.consumer ≡ 0
    → index_of q.head ≡ 0
    → is_sleeping q.head ≡ true
    → arm_wait q ≡ (false, q)
unfolding arm_wait
idle_armed q c h s = ground arith

idle_awake :
    (q : WakeQueue)
    → q.consumer ≡ 0
    → index_of q.head ≡ 0
    → is_sleeping q.head ≡ false
    → arm_wait q ≡ (false, record q { head = sleeping })
unfolding arm_wait
idle_awake q c h s = ground arith

ready_fresh :
    (q : WakeQueue) {j : ℕ} → q.consumer ≡ 0 → index_of q.head ≡ j → 0 < j → arm_wait q ≡ (true, q)
unfolding arm_wait
ready_fresh q c h p = ground arith

ready_taken : (q : WakeQueue) {j : ℕ} → q.consumer ≡ j → 0 < j → arm_wait q ≡ (true, q)
unfolding arm_wait
ready_taken q c p = ground arith

-- No wake is lost across an arming: it reports work when something is linked; otherwise the owner may
-- sleep, and the next link by any producer asks for a notification.
pub arm_wait-Represents :
    (q : WakeQueue) (lane : ℕ → Lane) (taken fresh : List ℕ)
    → Represents q lane taken fresh
    → Represents (arm_wait q).1 lane taken fresh
      × ((((arm_wait q).0 ≡ true) × (order taken fresh ≢ []))
          ⊎ (((arm_wait q).0 ≡ false)
              × (order taken fresh ≡ [])
              × ((i : ℕ) → (link i (arm_wait q).1).0 ≡ true)))
unfolding arm_wait link
arm_wait-Represents q lane [] [] r = elim (Bool-cases (is_sleeping q.head)) [
  | inl armed ↦ rw (idle_armed q r.owner_chain r.head_chain armed) (r, inr (refl, refl, λ i. armed))
  | inr awake ↦ rw (idle_awake q r.owner_chain r.head_chain awake) (
    record {
      room = r.room;
      head_chain = refl;
      owner_chain = r.owner_chain;
      fresh_distinct = r.fresh_distinct;
      taken_distinct = r.taken_distinct;
      fresh_lane = r.fresh_lane;
      taken_lane = r.taken_lane;
      slots = λ i. Holds-links q q.next sleeping q.consumer (lane i) i (r.slots i);
    },
    inr (refl, refl, λ i. refl),
  )
]
arm_wait-Represents q lane [] (j ∷ js) r =
    rw (ready_fresh q r.owner_chain r.head_chain.0 r.head_chain.1)
      (r, inl (refl, reverse_onto_nonempty js j []))
arm_wait-Represents q lane (j ∷ js) fresh r =
    rw (ready_taken q r.owner_chain.0 r.owner_chain.1) (r, inl (refl, λ e. cc))
