-- ===== src/ReadyQueue/Fairness.antt =====
-- Dispatch bounds (crates/vthread/src/ready_queue.rs).
use vthread.Prelude.{
  ℕ, zero, suc, ◌+◌, ◌*◌, ◌≤◌, ◌≡◌, refl, ◌⊎◌, inl, inr, Option, some, List, [], ◌∷◌, ◌++◌, length,
  Occurs, subst, sym, ap, append_assoc, arith, front_of, last?-append,
}
use vthread.TaskKey.{TaskKey}
use vthread.ReadyQueue.{ReadyQueue, push_back, push_wake, pop_front, pop_oldest_wake}
use vthread.ReadyQueue.Runs.{
  Event, served, selections, normal_delay, wake_delay, normal_delay_pos, normal_delay_le,
  wake_delay_bounds, served_within,
}

-- The queue whose lanes and cohort position are given.
abbrev lanes : List TaskKey → List TaskKey → ℕ → ReadyQueue
lanes normal wakes s = record { normal = normal; wakes = wakes; wake_streak = s }

-- `t` stands in the normal lane, and `bound` selections are enough to serve it.
record Near (t : TaskKey) (bound : ℕ) (q : ReadyQueue) : Type 0 where
  before : List TaskKey
  behind : List TaskKey
  place : q.normal ≡ before ++ t ∷ behind
  rank : 4 * length before + normal_delay q.wake_streak ≤ bound

-- One selection serves `t`, or `t` is nearer to its turn.
abbrev Nearer : TaskKey → ℕ → Option TaskKey × ReadyQueue → Type 0
Nearer t bound r = (r.0 ≡ some t) ⊎ ((k : ℕ) × (suc k ≤ bound) × Near t k r.1)

normal_step :
    (t : TaskKey) (before behind wakes : List TaskKey) (s : ℕ)
    → Nearer t
        (4 * length before + normal_delay s)
        (pop_front (lanes (before ++ t ∷ behind) wakes s))
unfolding pop_front
normal_step t [] behind [] s = inl refl
normal_step t (x ∷ before) behind [] s = inr (
  4 * length before + 3,
  omega arith,
  record { before = before; behind = behind; place = refl; rank = ground arith },
)
normal_step t before behind (w ∷ wakes) zero = inr (
  4 * length before + 2,
  omega arith,
  record { before = before; behind = behind; place = ground arith; rank = ground arith },
)
normal_step t before behind (w ∷ wakes) (suc zero) = inr (
  4 * length before + 1,
  omega arith,
  record { before = before; behind = behind; place = ground arith; rank = ground arith },
)
normal_step t [] behind (w ∷ wakes) (suc (suc zero)) = inl refl
normal_step t (x ∷ before) behind (w ∷ wakes) (suc (suc zero)) = inr (
  4 * length before + 4,
  omega arith,
  record { before = before; behind = behind; place = refl; rank = ground arith },
)
normal_step t before behind (w ∷ wakes) (suc (suc (suc s))) = inr (
  4 * length before + 3,
  omega arith,
  record { before = before; behind = behind; place = ground arith; rank = ground arith },
)

-- The step for a queue that is not written by its lanes.
normal_step_at :
    (t : TaskKey) (bound : ℕ) (q : ReadyQueue) → Near t bound q → Nearer t bound (pop_front q)
normal_step_at t bound q near =
    elim (subst
      (λ (normal : List TaskKey).
        Nearer t (4 * length near.before + normal_delay q.wake_streak)
          (pop_front (lanes normal q.wakes q.wake_streak)))
      (sym near.place) (normal_step t near.before near.behind q.wakes q.wake_streak)) [
        | inl now ↦ inl now
        | inr (k, less, near') ↦ inr (k, omega (arith, near.rank), near')
      ]

Near-push_back :
    (t x : TaskKey) (bound : ℕ) (q : ReadyQueue) → Near t bound q → Near t bound (push_back x q)
unfolding push_back
Near-push_back t x bound q near = record {
  before = near.before;
  behind = near.behind ++ x ∷ [];
  place = rw near.place (append_assoc near.before (t ∷ near.behind) (x ∷ []));
  rank = near.rank;
}

Near-push_wake :
    (t x : TaskKey) (bound : ℕ) (q : ReadyQueue) → Near t bound q → Near t bound (push_wake x q)
unfolding push_wake
Near-push_wake t x bound q near = record {
  before = near.before;
  behind = near.behind;
  place = near.place;
  rank = near.rank;
}

-- A task of the normal lane with `n` tasks before it is served within 4 * (n + 1) selections,
-- whatever tasks arrive at the back of the normal lane or at the front of the wakes meanwhile.
pub normal_served :
    (t : TaskKey) (before behind : List TaskKey) (q : ReadyQueue) (es : List Event)
    → q.normal ≡ before ++ t ∷ behind
    → 4 * (length before + 1) ≤ selections es
    → Occurs (some t) (served es q)
normal_served t before behind q es place enough =
    served_within t (Near t)
      (λ k r near. omega (arith, near.rank, (normal_delay_pos r.wake_streak))) (Near-push_back t)
      (Near-push_wake t) (normal_step_at t) es (4 * (length before + 1)) q
      (record {
        before = before;
        behind = behind;
        place = place;
        rank = omega (arith, normal_delay_le q.wake_streak);
      })
      enough

-- `t` is a wake with `older` behind it, and `bound` selections are enough to serve it.
record WakeNear (t : TaskKey) (bound : ℕ) (q : ReadyQueue) : Type 0 where
  newer : List TaskKey
  older : List TaskKey
  place : q.wakes ≡ newer ++ t ∷ older
  rank : 4 * length older + wake_delay q.wake_streak ≤ bound

abbrev WakeNearer : TaskKey → ℕ → Option TaskKey × ReadyQueue → Type 0
WakeNearer t bound r = (r.0 ≡ some t) ⊎ ((k : ℕ) × (suc k ≤ bound) × WakeNear t k r.1)

front_of-middle :
    (xs : List TaskKey) (t y : TaskKey) (ys : List TaskKey)
    → front_of (xs ++ t ∷ y ∷ ys) ≡ xs ++ t ∷ front_of (y ∷ ys)
front_of-middle [] t y ys = refl
front_of-middle (x ∷ []) t y ys = refl
front_of-middle (x ∷ z ∷ xs) t y ys =
    ap (λ (l : List TaskKey). x ∷ l) (front_of-middle (z ∷ xs) t y ys)

length-front_of : (y : TaskKey) (ys : List TaskKey) → length (front_of (y ∷ ys)) ≡ length ys
length-front_of y [] = refl
length-front_of y (z ∷ ys) = ap suc (length-front_of z ys)

-- The oldest wake is served.
oldest_step :
    (t : TaskKey) (newer older normal : List TaskKey) (s bound : ℕ)
    → 4 * length older + 1 ≤ bound
    → WakeNearer t bound (pop_oldest_wake (lanes normal (newer ++ t ∷ older) s))
unfolding pop_oldest_wake
oldest_step t newer [] normal s bound h = inl (last?-append newer t)
oldest_step t newer (y ∷ ys) normal s bound h = inr (
  4 * length ys + 4,
  omega arith,
  record {
    newer = newer;
    older = front_of (y ∷ ys);
    place = front_of-middle newer t y ys;
    rank = omega (arith, length-front_of y ys);
  },
)

late_step :
    (w : TaskKey) (normal wakes : List TaskKey) (s : ℕ)
    → pop_front (lanes normal (w ∷ wakes) (suc (suc (suc s))))
      ≡ pop_oldest_wake (lanes normal (w ∷ wakes) (suc (suc (suc s))))
unfolding pop_front
late_step w normal wakes s = ground arith

wake_step :
    (t : TaskKey) (newer older normal : List TaskKey) (s : ℕ)
    → WakeNearer t
        (4 * length older + wake_delay s)
        (pop_front (lanes normal (newer ++ t ∷ older) s))
unfolding pop_front pop_oldest_wake
wake_step t [] older normal zero = inl refl
wake_step t (x ∷ newer) older normal zero = inr (
  4 * length older + 3,
  omega arith,
  record { newer = newer; older = older; place = refl; rank = ground arith },
)
wake_step t [] older normal (suc zero) = inl refl
wake_step t (x ∷ newer) older normal (suc zero) = inr (
  4 * length older + 2,
  omega arith,
  record { newer = newer; older = older; place = refl; rank = ground arith },
)
wake_step t [] older [] (suc (suc zero)) = oldest_step t [] older [] 3 _ (omega arith)
wake_step t (x ∷ newer) older [] (suc (suc zero)) =
    oldest_step t (x ∷ newer) older [] 3 _ (omega arith)
wake_step t [] older (y ∷ normal) (suc (suc zero)) = inr (
  4 * length older + 1,
  omega arith,
  record { newer = []; older = older; place = refl; rank = ground arith },
)
wake_step t (x ∷ newer) older (y ∷ normal) (suc (suc zero)) = inr (
  4 * length older + 1,
  omega arith,
  record { newer = x ∷ newer; older = older; place = refl; rank = ground arith },
)
wake_step t [] older normal (suc (suc (suc s))) =
    rw (late_step t normal older s)
      (oldest_step t [] older normal (suc (suc (suc s))) _ (omega arith))
wake_step t (x ∷ newer) older normal (suc (suc (suc s))) =
    rw (late_step x normal (newer ++ t ∷ older) s)
      (oldest_step t (x ∷ newer) older normal (suc (suc (suc s))) _ (omega arith))

wake_step_at :
    (t : TaskKey) (bound : ℕ) (q : ReadyQueue)
    → WakeNear t bound q
    → WakeNearer t bound (pop_front q)
wake_step_at t bound q near =
    elim (subst
      (λ (wakes : List TaskKey).
        WakeNearer t (4 * length near.older + wake_delay q.wake_streak)
          (pop_front (lanes q.normal wakes q.wake_streak)))
      (sym near.place) (wake_step t near.newer near.older q.normal q.wake_streak)) [
        | inl now ↦ inl now
        | inr (k, less, near') ↦ inr (k, omega (arith, near.rank), near')
      ]

WakeNear-push_back :
    (t x : TaskKey) (bound : ℕ) (q : ReadyQueue)
    → WakeNear t bound q
    → WakeNear t bound (push_back x q)
unfolding push_back
WakeNear-push_back t x bound q near = record {
  newer = near.newer;
  older = near.older;
  place = near.place;
  rank = near.rank;
}

WakeNear-push_wake :
    (t x : TaskKey) (bound : ℕ) (q : ReadyQueue)
    → WakeNear t bound q
    → WakeNear t bound (push_wake x q)
unfolding push_wake
WakeNear-push_wake t x bound q near = record {
  newer = x ∷ near.newer;
  older = near.older;
  place = ap (λ (l : List TaskKey). x ∷ l) near.place;
  rank = near.rank;
}

-- A wake with `n` older wakes behind it is served within 4 * (n + 1) selections, whatever arrives
-- meanwhile: newer wakes cannot starve it.
pub wake_served :
    (t : TaskKey) (newer older : List TaskKey) (q : ReadyQueue) (es : List Event)
    → q.wakes ≡ newer ++ t ∷ older
    → 4 * (length older + 1) ≤ selections es
    → Occurs (some t) (served es q)
wake_served t newer older q es place enough =
    served_within t (WakeNear t)
      (λ k r near. omega (arith, near.rank, (wake_delay_bounds r.wake_streak).0))
      (WakeNear-push_back t) (WakeNear-push_wake t) (wake_step_at t) es (4 * (length older + 1)) q
      (record {
        newer = newer;
        older = older;
        place = place;
        rank = omega (arith, (wake_delay_bounds q.wake_streak).1);
      })
      enough
