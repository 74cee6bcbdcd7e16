-- ===== src/CarrierLoads.antt =====
-- crates/vthread/src/control_placement.rs: least-loaded placement of tasks on carriers, from the
-- totals of assigned tasks and the observed totals of retired ones. The retirement counters and the
-- test whether a carrier can accept a task belong to the caller and are parameters.
pub mod Rotation
pub mod Selection
pub mod Placement
mod Examples
use vthread.Prelude.{
  ℕ, zero, suc, ◌+◌, ◌-◌, ◌%◌, ◌^◌, ◌≡◌, Bool, true, false, not, ◌||◌, Option, none, some, List, [],
  ◌∷◌, length, get_elem?, set, replicate, ltb, leb, ◌==◌, if◌then◌else◌, Outcome, returns, panics,
  ◌>>=◌, ◌>>◌, assert, expect,
}
use vthread.TaskKey.{fit}

pub record CarrierLoads : Type 0 where
  pub assigned : List ℕ
  pub observed_retired : List ℕ
  pub probe : ℕ

unfoldable pub new : ℕ → Outcome CarrierLoads
new carriers = do
  assert (not (carriers == 0))
  returns (record {
    assigned = replicate carriers 0;
    observed_retired = replicate carriers 0;
    probe = 0;
  })

-- `checked_sub` with its `expect`.
abbrev pub difference : ℕ → ℕ → Outcome ℕ
difference a b = if ltb a b then panics else returns (a - b)

unfoldable pub load : ℕ → ℕ → CarrierLoads → Outcome ℕ
load carrier retired l = do
  assigned ← expect (get_elem? l.assigned carrier)
  difference assigned retired

unfoldable pub cached_load : ℕ → CarrierLoads → Outcome ℕ
unfolding load
cached_load carrier l = do
  retired ← expect (get_elem? l.observed_retired carrier)
  load carrier retired l

-- `(cursor + offset) % carriers` for the last `left` offsets below `carriers`, in order. A sum past the
-- machine word panics; the first loop of `select` forms every sum.
unfoldable pub rotation : ℕ → ℕ → ℕ → Outcome (List ℕ)
rotation cursor carriers zero = returns []
rotation cursor carriers (suc left) = do
  sum ← fit (cursor + (carriers - suc left))
  rest ← rotation cursor carriers left
  returns (sum % carriers ∷ rest)

-- `min_by_key`: the first of the least entries.
unfoldable pub min_loop : (ℕ → Outcome ℕ) → ℕ → ℕ → List ℕ → Outcome ℕ
min_loop key best least [] = returns best
min_loop key best least (c ∷ cs) = do
  k ← key c
  let better = ltb k least
  min_loop key (if better then c else best) (if better then k else least) cs

unfoldable pub min_by_key : (ℕ → Outcome ℕ) → List ℕ → Outcome (Option ℕ)
unfolding min_loop
min_by_key key [] = returns none
min_by_key key (c ∷ cs) = do k ← key c; best ← min_loop key c k cs; returns (some best)

-- The `for` loop of `select`: the least entry below the minimum that is not passed over.
unfoldable pub select_loop :
    (ℕ → Outcome ℕ) → (ℕ → Bool) → ℕ → Option ℕ → List ℕ → Outcome (Option ℕ)
select_loop key skips minimum selected [] = returns selected
select_loop key skips minimum selected (c ∷ cs) = do
  (lower, k) ← (if skips c then returns (false, 0) else do k ← key c; returns (ltb k minimum, k))
  select_loop key skips (if lower then k else minimum) (if lower then some c else selected) cs

-- The state after the probe of one carrier's retirements.
unfoldable pub observe : (ℕ → ℕ) → CarrierLoads → Outcome CarrierLoads
observe retired l = do
  before ← expect (get_elem? l.observed_retired l.probe)
  assert (leb before (retired l.probe))
  returns (record l {
    observed_retired = set l.observed_retired l.probe (retired l.probe);
    probe = (l.probe + 1) % length l.assigned;
  })

unfoldable pub select : ℕ → (ℕ → ℕ) → (ℕ → Bool) → CarrierLoads → Outcome (Option ℕ × CarrierLoads)
unfolding min_by_key select_loop rotation
select cursor retired can_accept l = do
  l' ← observe retired l
  carriers ← rotation cursor (length l'.assigned) (length l'.assigned)
  least ← min_by_key (λ c. cached_load c l') carriers
  candidate ← expect least
  let accepted = can_accept candidate
  selected ←
      (if accepted
        then returns (some candidate)
        else select_loop (λ c. cached_load c l') (λ c. c == candidate || not (can_accept c))
            (2 ^ 64 - 1) none carriers)
  returns (selected, l')

unfoldable pub increment : ℕ → CarrierLoads → Outcome CarrierLoads
increment carrier l = do
  n ← expect (get_elem? l.assigned carrier)
  more ← fit (n + 1)
  returns (record l { assigned = set l.assigned carrier more })

unfoldable pub decrement : ℕ → CarrierLoads → Outcome CarrierLoads
decrement carrier l = do
  n ← expect (get_elem? l.assigned carrier)
  less ← difference n 1
  returns (record l { assigned = set l.assigned carrier less })

unfoldable pub active : ℕ → ℕ → CarrierLoads → Outcome ℕ
unfolding load
active carrier retired l = load carrier retired l
