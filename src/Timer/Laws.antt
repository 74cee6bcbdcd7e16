-- ===== src/Timer/Laws.antt =====
-- The index of deadlines agrees with the active timers, and timers expire in its order
-- (crates/vthread/src/timer.rs).
use vthread.Prelude.{
  ℕ, ◌≡◌, refl, ap, sym, ◌∙◌, inl, inr, Bool, true, false, not, ◌&&◌, ◌||◌, Option, none, some,
  List, arith, Bool-cases, if◌then◌else◌, ◌==◌, ==_refl,
}
use vthread.TaskKey.{TaskKey}
use vthread.ParkToken.{ParkToken, same_token}
use vthread.Timer.{
  TimerQueue, TimerRegistration, Entry, same_entry, has_entry, lookup, schedule, cancel,
}
use vthread.Timer.Order.{
  IsInOrder, same_token_lem, has_entry-insert_entry, has_entry-remove_entry, lookup-erase,
  insert_entry-IsInOrder, remove_entry-IsInOrder,
}

by_or : (a : Bool) → ((a && true) || false) ≡ a
by_or a = ground arith

by_and : (a b : Bool) → ((a && false) || b) ≡ b
by_and a b = ground arith

by_not : (a : Bool) → (not (a && true) && a) ≡ false
by_not a = ground arith

by_and_not : (a b : Bool) → (not (a && false) && b) ≡ b
by_and_not a b = ground arith

abbrev pub due_at : ℕ → Option TimerRegistration → Bool
due_at deadline none = false
due_at deadline (some registration) = registration.deadline == deadline

-- An entry is in the index exactly when its timer is active with that deadline.
abbrev pub Indexed : List Entry → List (ParkToken × TimerRegistration) → Type 0
Indexed deadlines active =
    (e : Entry) → has_entry e deadlines ≡ due_at e.deadline (lookup e.token active)

pub record IsValid (q : TimerQueue) : Type 0 where
  pub in_order : IsInOrder q.deadlines
  pub indexed : Indexed q.deadlines q.active

due_at-put :
    (d : ℕ) (r : TimerRegistration) (t : ParkToken) (x : Entry) (o : Option TimerRegistration)
    → r.deadline ≡ d
    → (same_token t x.token ≡ true → o ≡ none)
    → (same_entry (record { deadline = d; token = t }) x || due_at x.deadline o)
      ≡ due_at x.deadline (if same_token t x.token then some r else o)
due_at-put d r t x o e fresh = elim (Bool-cases (same_token t x.token)) [
  | inl hit ↦ rw (hit, fresh hit, e) (by_or (d == x.deadline))
  | inr miss ↦ rw miss (by_and (d == x.deadline) (due_at x.deadline o))
]

due_at-removed :
    (r : TimerRegistration) (t : ParkToken) (x : Entry) (o : Option TimerRegistration)
    → (same_token t x.token ≡ true → o ≡ some r)
    → (not (same_entry (record { deadline = r.deadline; token = t }) x) && due_at x.deadline o)
      ≡ due_at x.deadline (if same_token t x.token then none else o)
due_at-removed r t x o found = elim (Bool-cases (same_token t x.token)) [
  | inl hit ↦ rw (hit, found hit) (by_not (r.deadline == x.deadline))
  | inr miss ↦ rw miss (by_and_not (r.deadline == x.deadline) (due_at x.deadline o))
]

-- Scheduling an inactive token in a valid queue activates it, touches no other, and keeps the queue
-- valid.
pub schedule-IsValid :
    (task : TaskKey) (token : ParkToken) (deadline : ℕ) (q : TimerQueue)
    → IsValid q
    → lookup token q.active ≡ none
    → IsValid (schedule task token deadline q).1
      × ((schedule task token deadline q).0 ≡ true)
      × ((u : ParkToken)
          → lookup u (schedule task token deadline q).1.active ≡ (
              if same_token token u
              then some (record { deadline = deadline; task = task })
              else lookup u q.active))
unfolding schedule
schedule-IsValid task token deadline q v fresh =
    rw (schedule, fresh)
      (
        record {
          in_order =
              insert_entry-IsInOrder (record { deadline = deadline; token = token }) q.deadlines
                v.in_order;
          indexed = λ x.
              has_entry-insert_entry (record { deadline = deadline; token = token }) x q.deadlines
              ∙ ap (λ b. same_entry (record { deadline = deadline; token = token }) x || b)
                  (v.indexed x)
              ∙ due_at-put deadline (record { deadline = deadline; task = task }) token x
                  (lookup x.token q.active) refl
                  (λ hit.
                    ap (λ u. lookup u q.active) (sym (same_token_lem token x.token hit)) ∙ fresh);
        },
        refl,
        λ u. refl,
      )

-- Cancelling an active timer of a valid queue finds its deadline in the index, removes that timer
-- only, and keeps the queue valid.
pub cancel-IsValid :
    (token : ParkToken) (r : TimerRegistration) (q : TimerQueue)
    → IsValid q
    → lookup token q.active ≡ some r
    → IsValid (cancel token q).1
      × ((cancel token q).0 ≡ true)
      × ((u : ParkToken)
          → lookup u (cancel token q).1.active
            ≡ (if same_token token u then none else lookup u q.active))
unfolding cancel
cancel-IsValid token r q v found =
    rw (cancel, found)
      (
        record {
          in_order =
              remove_entry-IsInOrder (record { deadline = r.deadline; token = token }) q.deadlines
                v.in_order;
          indexed = λ x.
              has_entry-remove_entry (record { deadline = r.deadline; token = token }) x q.deadlines
              ∙ ap (λ b. not (same_entry (record { deadline = r.deadline; token = token }) x) && b)
                  (v.indexed x)
              ∙ due_at-removed r token x (lookup x.token q.active) (λ hit.
                ap (λ u. lookup u q.active) (sym (same_token_lem token x.token hit)) ∙ found)
              ∙ ap (due_at x.deadline) (sym (lookup-erase token x.token q.active));
        },
        v.indexed (record { deadline = r.deadline; token = token })
            ∙ ap (due_at r.deadline) found
            ∙ ==_refl r.deadline,
        λ u. lookup-erase token u q.active,
      )
