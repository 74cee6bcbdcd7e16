-- ===== src/Timer.antt =====
-- crates/vthread/src/timer.rs: the timers of a carrier. The ordered set of deadlines is a list in order,
-- the map of active timers is read by token only, and an instant is a number of the monotonic clock.
pub mod Order
pub mod Laws
pub mod Expiry
mod Examples
use vthread.Prelude.{
  ℕ, Bool, true, false, not, ◌&&◌, ◌||◌, Option, none, some, List, [], ◌∷◌, ltb, ◌==◌,
  if◌then◌else◌, length, Outcome, returns, panics, ◌>>=◌, ◌>>◌, assert, expect,
}
use vthread.TaskKey.{TaskKey}
use vthread.ParkToken.{ParkToken, same_token}

pub record ExpiredTimer : Type 0 where
  pub task : TaskKey
  pub token : ParkToken

pub record TimerRegistration : Type 0 where
  pub deadline : ℕ
  pub task : TaskKey

pub record Entry : Type 0 where
  pub deadline : ℕ
  pub token : ParkToken

pub record TimerQueue : Type 0 where
  pub deadlines : List Entry
  pub active : List (ParkToken × TimerRegistration)

unfoldable pub new : TimerQueue
new = record { deadlines = []; active = [] }

-- The derived orders of the pairs and of the tokens.
abbrev pub earlier : Entry → Entry → Bool
earlier a b =
    ltb a.deadline b.deadline
    || (a.deadline == b.deadline
        && (ltb a.token.wait b.token.wait
            || (a.token.wait == b.token.wait && ltb a.token.generation b.token.generation)))

abbrev pub same_entry : Entry → Entry → Bool
same_entry a b = a.deadline == b.deadline && same_token a.token b.token

-- `BTreeSet::insert` and `remove`, and whether an entry is there.
abbrev pub insert_entry : Entry → List Entry → List Entry
insert_entry e [] = e ∷ []
insert_entry e (x ∷ xs) =
    let rest = insert_entry e xs in
    if earlier e x then e ∷ x ∷ xs else if earlier x e then x ∷ rest else x ∷ xs

abbrev pub remove_entry : Entry → List Entry → List Entry
remove_entry e [] = []
remove_entry e (x ∷ xs) = let rest = remove_entry e xs in if same_entry x e then rest else x ∷ rest

abbrev pub has_entry : Entry → List Entry → Bool
has_entry e [] = false
has_entry e (x ∷ xs) = same_entry x e || has_entry e xs

-- `BTreeMap::get` and `remove`.
abbrev pub lookup : ParkToken → List (ParkToken × TimerRegistration) → Option TimerRegistration
lookup token [] = none
lookup token ((key, registration) ∷ rest) =
    let later = lookup token rest in if same_token key token then some registration else later

abbrev pub erase :
    ParkToken → List (ParkToken × TimerRegistration) → List (ParkToken × TimerRegistration)
erase token [] = []
erase token ((key, registration) ∷ rest) =
    let later = erase token rest in
    if same_token key token then later else (key, registration) ∷ later

unfoldable pub schedule : TaskKey → ParkToken → ℕ → TimerQueue → Bool × TimerQueue
schedule task token deadline q = elim (lookup token q.active) [
  | some registration ↦ (false, q)
  | none ↦ (
    true,
    record {
      deadlines = insert_entry (record { deadline = deadline; token = token }) q.deadlines;
      active = (token, record { deadline = deadline; task = task }) ∷ q.active;
    },
  )
]

unfoldable pub cancel : ParkToken → TimerQueue → Bool × TimerQueue
cancel token q = elim (lookup token q.active) [
  | none ↦ (false, q)
  | some registration ↦ (
    has_entry (record { deadline = registration.deadline; token = token }) q.deadlines,
    record {
      deadlines =
          remove_entry (record { deadline = registration.deadline; token = token }) q.deadlines;
      active = erase token q.active;
    },
  )
]

unfoldable pub active_count : TimerQueue → ℕ
active_count q = length q.active

unfoldable pub next_deadline : TimerQueue → Option ℕ
next_deadline q = elim q.deadlines [ [] ↦ none | e ∷ rest ↦ some e.deadline ]

-- The loop of `pop_expired`, over the deadlines in order.
unfoldable pub pop_loop :
    ℕ
    → List Entry
    → List (ParkToken × TimerRegistration)
    → Outcome (List ExpiredTimer × List Entry × List (ParkToken × TimerRegistration))
pop_loop now [] active = returns ([], [], active)
pop_loop now (e ∷ rest) active =
    let later = pop_loop now rest (erase e.token active) in
    if ltb now e.deadline then returns ([], e ∷ rest, active) else (do
      registration ← expect (lookup e.token active)
      assert (registration.deadline == e.deadline)
      (expired, deadlines, left) ← later
      returns (record { task = registration.task; token = e.token } ∷ expired, deadlines, left))

unfoldable pub pop_expired : ℕ → TimerQueue → Outcome (List ExpiredTimer × TimerQueue)
unfolding pop_loop
pop_expired now q = do
  (expired, deadlines, active) ← pop_loop now q.deadlines q.active
  returns (expired, record { deadlines = deadlines; active = active })
