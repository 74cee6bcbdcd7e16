-- ===== src/ParkedTasks/Laws.antt =====
-- Park records by key, and the count that `len` reports (crates/vthread/src/parked_tasks.rs).
use vthread.Prelude.{
  ℕ, ◌+◌, ◌-◌, ◌<◌, ◌≡◌, ◌≢◌, refl, ◌⊎◌, inl, inr, true, false, Option, none, some, length,
  get_elem?, set, arith, length-append, get_elem?-set_self, get_elem?-set_ne, get_elem?-lt, ap, sym,
  ◌∙◌, Option-cases,
}
use vthread.TaskKey.{TaskKey, index, is_borrowed}
use vthread.TaskSlab.{flatten}
use vthread.ParkedTasks.{
  ParkedTask, ParkedTasks, Slots, slots, put_slots, grow, get, insert, remove, occupied, iter,
}
use vthread.ParkedTasks.Growth.{grow_lem, occupied-fill, occupied-clear}

-- The count is the number of records.
abbrev pub IsCounted : ParkedTasks → Type 0
IsCounted t = t.count ≡ length (iter t)

-- The other records of the class, and all of the other class, are untouched.
abbrev SameElsewhere : TaskKey → ParkedTasks → ParkedTasks → Type 0
SameElsewhere task t t' =
    (other : TaskKey)
    → ((is_borrowed other ≢ is_borrowed task) ⊎ (index other ≢ index task))
    → get other t' ≡ get other t

put-Elsewhere :
    (task : TaskKey) (s : Slots) (n : ℕ) (t : ParkedTasks)
    → ((i : ℕ) → i ≢ index task → flatten (get_elem? s i) ≡ flatten (get_elem? (slots task t) i))
    → SameElsewhere task t (record (put_slots task s t) { count = n })
unfolding get put_slots slots
put-Elsewhere task s n t same other h = ground (arith, same (index other))

put_get :
    (task : TaskKey) (s : Slots) (n : ℕ) (t : ParkedTasks)
    → get task (record (put_slots task s t) { count = n }) ≡ flatten (get_elem? s (index task))
unfolding get put_slots slots
put_get task s n t = ground arith

-- The other class's records, in the count.
put_iter :
    (task : TaskKey) (s : Slots) (n : ℕ) (t : ParkedTasks)
    → length (iter (record (put_slots task s t) { count = n })) + length (occupied (slots task t))
      ≡ length (iter t) + length (occupied s)
unfolding iter put_slots slots
put_iter task s n t = ground (
  arith,
  length-append (occupied t.owned) (occupied t.borrowed),
  length-append (occupied s) (occupied t.borrowed),
  length-append (occupied t.owned) (occupied s),
)

-- What a successful insertion leaves behind.
pub record Parked (parked : ParkedTask) (t t' : ParkedTasks) : Type 0 where
  pub free : get parked.task t ≡ none
  pub stored : get parked.task t' ≡ some parked
  pub others : SameElsewhere parked.task t t'
  pub counted : t'.count ≡ length (iter t')

insert_free :
    (parked : ParkedTask) (t : ParkedTasks)
    → IsCounted t
    → get parked.task t ≡ none
    → ((insert parked t).0 ≡ true) × Parked parked t (insert parked t).1
unfolding insert get
insert_free parked t counted free = rw (all (index parked.task) ∙ free) (
  refl,
  record {
    free = free;
    stored = put_get parked.task s (t.count + 1) t ∙ ap flatten put;
    others =
        put-Elsewhere parked.task s (t.count + 1) t
          (λ i h. ap flatten (get_elem?-set_ne grown (some parked) (λ e. h (sym e))) ∙ all i);
    counted = omega (
      arith,
      put_iter parked.task s (t.count + 1) t,
      occupied-fill grown (index parked.task) parked room (all (index parked.task) ∙ free),
      ap length same_records,
    );
  },
)
  where
    grown : Slots
    grown = grow (index parked.task) (slots parked.task t)

    s : Slots
    s = set grown (index parked.task) (some parked)

    room : index parked.task < length grown
    room = (grow_lem (index parked.task) (slots parked.task t)).0

    all : (j : ℕ) → flatten (get_elem? grown j) ≡ flatten (get_elem? (slots parked.task t) j)
    all = (grow_lem (index parked.task) (slots parked.task t)).1

    same_records : occupied grown ≡ occupied (slots parked.task t)
    same_records = (grow_lem (index parked.task) (slots parked.task t)).2

    put : get_elem? s (index parked.task) ≡ some (some parked)
    put = get_elem?-set_self grown (index parked.task) (some parked) room

insert_occupied :
    (parked old : ParkedTask) (t : ParkedTasks)
    → IsCounted t
    → get parked.task t ≡ some old
    → ((insert parked t).0 ≡ false)
      × ((other : TaskKey) → get other (insert parked t).1 ≡ get other t)
      × IsCounted (insert parked t).1
unfolding insert get slots put_slots is_borrowed iter
insert_occupied parked old t counted held = rw (grown_lem.1 (index parked.task) ∙ held) (
  refl,
  λ other. ground (arith, grown_lem.1 (index other)),
  omega (
    arith,
    put_iter parked.task (grow (index parked.task) (slots parked.task t)) t.count t,
    ap length grown_lem.2,
    counted,
    same_count,
  ),
)
  where
    grown_lem :
        (index parked.task < length (grow (index parked.task) (slots parked.task t)))
        × ((j : ℕ)
            → flatten (get_elem? (grow (index parked.task) (slots parked.task t)) j)
              ≡ flatten (get_elem? (slots parked.task t) j))
        × (occupied (grow (index parked.task) (slots parked.task t))
            ≡ occupied (slots parked.task t))
    grown_lem = grow_lem (index parked.task) (slots parked.task t)

    same_count :
        (put_slots parked.task (grow (index parked.task) (slots parked.task t)) t).count ≡ t.count
    same_count = ground arith

-- Parking a task under a free key stores its record there, under an occupied key it is refused; no
-- other key's record changes in either case, and the count stays the number of records.
pub park_cases :
    (parked : ParkedTask) (t : ParkedTasks)
    → IsCounted t
    → (((insert parked t).0 ≡ true) × Parked parked t (insert parked t).1)
      ⊎ ((old : ParkedTask) × (get parked.task t ≡ some old)
          × ((insert parked t).0 ≡ false)
          × ((other : TaskKey) → get other (insert parked t).1 ≡ get other t)
          × IsCounted (insert parked t).1)
park_cases parked t counted = elim (Option-cases (get parked.task t)) [
  | inl free ↦ inl (insert_free parked t counted free)
  | inr (old, held) ↦
      let (no_change, others, kept) = insert_occupied parked old t counted held in
      inr (old, held, no_change, others, kept)
]

-- What the removal of a held record leaves behind.
pub record Unparked (task : TaskKey) (t t' : ParkedTasks) : Type 0 where
  pub gone : get task t' ≡ none
  pub others : SameElsewhere task t t'
  pub counted : IsCounted t'

remove_held :
    (task : TaskKey) (parked : ParkedTask) (t : ParkedTasks)
    → IsCounted t
    → get task t ≡ some parked
    → ((remove task t).0 ≡ some parked) × Unparked task t (remove task t).1
unfolding remove get
remove_held task parked t counted held =
    rw (held, remove)
      (
        refl,
        record {
          gone = put_get task s (t.count - 1) t ∙ ap flatten cleared;
          others =
              put-Elsewhere task s (t.count - 1) t
                (λ i h. ap flatten (get_elem?-set_ne (slots task t) none (λ e. h (sym e))));
          counted = omega (
            arith,
            put_iter task s (t.count - 1) t,
            occupied-clear (slots task t) (index task) parked held,
            counted,
          );
        },
      )
  where
    s : Slots
    s = set (slots task t) (index task) none

    flatten_some :
        (o : Option (Option ParkedTask)) → flatten o ≡ some parked → o ≡ some (some parked)
    flatten_some none e = absurd (cc)
    flatten_some (some o) e = ap (λ (x : Option ParkedTask). some x) e

    cleared : get_elem? s (index task) ≡ some none
    cleared = get_elem?-set_self (slots task t) (index task) none (
        get_elem?-lt (slots task t) (index task)
          (flatten_some (get_elem? (slots task t) (index task)) held))

-- A removal returns the key's record if there is one; then the key is free, every other key keeps
-- its record and the count falls with them. Without a record nothing changes.
pub unpark_cases :
    (task : TaskKey) (t : ParkedTasks)
    → IsCounted t
    → ((remove task t).0 ≡ get task t)
      × (((get task t ≡ none) × ((remove task t).1 ≡ t)) ⊎ Unparked task t (remove task t).1)
unfolding remove get
unpark_cases task t counted = elim (Option-cases (get task t)) [
  | inl free ↦ rw (free, remove) (refl, inl (refl, refl))
  | inr (parked, held) ↦
      let (found, unparked) = remove_held task parked t counted held in
      (found ∙ sym held, inr unparked)
]
