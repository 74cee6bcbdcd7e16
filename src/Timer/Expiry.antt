-- ===== src/Timer/Expiry.antt =====
-- Timers expire in the order of their deadlines (crates/vthread/src/timer.rs).
use vthread.Prelude.{
  ℕ, ◌≤◌, ◌<◌, ◌≡◌, refl, ap, sym, ◌∙◌, inl, inr, true, false, ◌||◌, none, some, List, [], ◌∷◌,
  ◌++◌, arith, All, Bool-cases, Option-cases, map, if◌then◌else◌, ltb, ◌==◌, ==_iff, ltb→lt,
  returns,
}
use vthread.ParkToken.{ParkToken, same_token}
use vthread.Timer.{
  TimerQueue, TimerRegistration, ExpiredTimer, Entry, earlier, same_entry, has_entry, lookup, erase,
  pop_loop, pop_expired,
}
use vthread.Timer.Order.{
  IsInOrder, same_token_lem, same_entry_lem, lookup-erase, head-absent, same_entry_refl,
}
use vthread.Timer.Laws.{due_at, Indexed, IsValid}

earlier-le : (a b : Entry) → earlier a b ≡ true → a.deadline ≤ b.deadline
earlier-le a b h = ground (arith, h)

All-later :
    (now : ℕ) (e : Entry) (es : List Entry)
    → now < e.deadline
    → All (λ x. earlier e x ≡ true) es
    → All (λ x. now < x.deadline) es
All-later now e [] h all = tt
All-later now e (x ∷ xs) h all =
    (omega (arith, h, earlier-le e x all.0), All-later now e xs h all.1)

-- The first entry of an index has a timer with its deadline.
head-registered :
    (e : Entry) (es : List Entry) (active : List (ParkToken × TimerRegistration))
    → Indexed (e ∷ es) active
    → (r : TimerRegistration) × (lookup e.token active ≡ some r) × (r.deadline ≡ e.deadline)
head-registered e es active i =
    let here : has_entry e (e ∷ es) ≡ true = ap (λ b. b || has_entry e es) (same_entry_refl e) in
    let due : due_at e.deadline (lookup e.token active) ≡ true = sym (i e) ∙ here in
    elim (Option-cases (lookup e.token active)) [
      | inl nothing ↦
          let never : false ≡ true = sym (ap (due_at e.deadline) nothing) ∙ due in absurd (cc)
      | inr (r, found) ↦
          (r, found, (==_iff r.deadline e.deadline).0 (sym (ap (due_at e.deadline) found) ∙ due))
    ]

-- The rest of an index is that of the timers without the first.
Indexed-rest :
    (e : Entry) (es : List Entry) (active : List (ParkToken × TimerRegistration))
    → All (λ x. earlier e x ≡ true) es
    → Indexed (e ∷ es) active
    → Indexed es (erase e.token active)
Indexed-rest e es active all i x =
    let (r, found, same_deadline) = head-registered e es active i in
    elim (Bool-cases (same_token e.token x.token)) [
      | inl hit ↦
          let gone : lookup x.token (erase e.token active) ≡ none =
            lookup-erase e.token x.token active
            ∙ ap (λ b. if b then none else lookup x.token active) hit in
          let there : lookup x.token active ≡ some r =
            ap (λ t. lookup t active) (sym (same_token_lem e.token x.token hit)) ∙ found in
          absent_at x r hit there same_deadline ∙ ap (due_at x.deadline) (sym gone)
      | inr miss ↦
          let kept : lookup x.token (erase e.token active) ≡ lookup x.token active =
            lookup-erase e.token x.token active
            ∙ ap (λ b. if b then none else lookup x.token active) miss in
          let apart : same_entry e x ≡ false = ground (arith, miss) in
          sym (ap (λ b. b || has_entry x es) apart) ∙ i x ∙ ap (due_at x.deadline) (sym kept)
    ]
  where
    absent_at :
        (x : Entry) (r : TimerRegistration)
        → same_token e.token x.token ≡ true
        → lookup x.token active ≡ some r
        → r.deadline ≡ e.deadline
        → has_entry x es ≡ false
    absent_at x r hit there same_deadline = elim (Bool-cases (same_entry e x)) [
      | inl s ↦ ap (λ k. has_entry k es) (sym (same_entry_lem e x s)) ∙ head-absent e es all
      | inr s ↦
          let other : (r.deadline == x.deadline) ≡ false = ground (arith, s, hit, same_deadline) in
          sym (ap (λ b. b || has_entry x es) s) ∙ i x ∙ ap (due_at x.deadline) there ∙ other
    ]

-- What a run of the loop leaves: the expired timers are those of a first part of the index, all due,
-- the rest is not, and every task is the one that was registered.
pub record Expires (now : ℕ) (deadlines : List Entry)
    (active : List (ParkToken × TimerRegistration)) (expired : List ExpiredTimer)
    (rest : List Entry) (left : List (ParkToken × TimerRegistration)) : Type 0 where
  pub due : List Entry
  pub split : deadlines ≡ due ++ rest
  pub all_due : All (λ (e : Entry). e.deadline ≤ now) due
  pub none_due : All (λ (e : Entry). now < e.deadline) rest
  pub tokens : map (λ (x : ExpiredTimer). x.token) expired ≡ map (λ (e : Entry). e.token) due
  pub tasks :
      All
        (λ (x : ExpiredTimer).
          (r : TimerRegistration) × (lookup x.token active ≡ some r) × (r.task ≡ x.task))
        expired
  pub in_order : IsInOrder rest
  pub indexed : Indexed rest left

-- A timer that is active without another is active.
lookup-erase-some :
    (t u : ParkToken) (r : TimerRegistration) (active : List (ParkToken × TimerRegistration))
    → lookup u (erase t active) ≡ some r
    → lookup u active ≡ some r
lookup-erase-some t u r active e = elim (Bool-cases (same_token t u)) [
  | inl hit ↦
      let gone : lookup u (erase t active) ≡ none =
        lookup-erase t u active ∙ ap (λ b. if b then none else lookup u active) hit in
      absurd (cc)
  | inr miss ↦
      sym (lookup-erase t u active ∙ ap (λ b. if b then none else lookup u active) miss) ∙ e
]

registered_before :
    (t : ParkToken) (active : List (ParkToken × TimerRegistration)) (expired : List ExpiredTimer)
    → All
        (λ (x : ExpiredTimer).
          (r : TimerRegistration) × (lookup x.token (erase t active) ≡ some r) × (r.task ≡ x.task))
        expired
    → All
        (λ (x : ExpiredTimer).
          (r : TimerRegistration) × (lookup x.token active ≡ some r) × (r.task ≡ x.task))
        expired
registered_before t active [] all = tt
registered_before t active (x ∷ xs) ((r, found, same), all) =
    ((r, lookup-erase-some t x.token r active found, same), registered_before t active xs all)

pop_loop-Expires :
    (now : ℕ) (es : List Entry) (active : List (ParkToken × TimerRegistration))
    → IsInOrder es
    → Indexed es active
    → (expired : List ExpiredTimer) × (rest : List Entry) × (left : List
        (ParkToken × TimerRegistration))
      × (pop_loop now es active ≡ returns (expired, rest, left))
      × Expires now es active expired rest left
unfolding pop_loop
pop_loop-Expires now [] active o i = (
  [],
  [],
  active,
  refl,
  record {
    due = [];
    split = refl;
    all_due = tt;
    none_due = tt;
    tokens = refl;
    tasks = tt;
    in_order = tt;
    indexed = i;
  },
)
pop_loop-Expires now (e ∷ es) active o i = elim (Bool-cases (ltb now e.deadline)) [
  | inl later ↦ (
    [],
    e ∷ es,
    active,
    rw later refl,
    record {
      due = [];
      split = refl;
      all_due = tt;
      none_due =
          (ltb→lt now e.deadline later, All-later now e es (ltb→lt now e.deadline later) o.0);
      tokens = refl;
      tasks = tt;
      in_order = o;
      indexed = i;
    },
  )
  | inr due ↦
      let (r, found, same) = head-registered e es active i in
      let (expired, rest, left, run, x) =
        pop_loop-Expires now es (erase e.token active) o.1 (Indexed-rest e es active o.0 i) in
      (
        record { task = r.task; token = e.token } ∷ expired,
        rest,
        left,
        rw (due, found, (==_iff r.deadline e.deadline).1 same, run) refl,
        record {
          due = e ∷ x.due;
          split = ap (λ (l : List Entry). e ∷ l) x.split;
          all_due = (ground (arith, due), x.all_due);
          none_due = x.none_due;
          tokens = ap (λ (l : List ParkToken). e.token ∷ l) x.tokens;
          tasks = ((r, found, refl), registered_before e.token active expired x.tasks);
          in_order = x.in_order;
          indexed = x.indexed;
        },
      )
]

-- The timers of a valid queue that are due at an instant, and no others, expire in the order of their
-- deadlines, each with the task that was registered, without a panic, and leave a valid queue.
pub pop_expired-Expires :
    (now : ℕ) (q : TimerQueue)
    → IsValid q
    → (expired : List ExpiredTimer) × (next : TimerQueue) × (pop_expired now q
        ≡ returns (expired, next))
      × Expires now q.deadlines q.active expired next.deadlines next.active
unfolding pop_expired
pop_expired-Expires now q v =
    let (expired, rest, left, run, x) =
      pop_loop-Expires now q.deadlines q.active v.in_order v.indexed in
    (expired, record { deadlines = rest; active = left }, rw run refl, x)
