-- ===== src/Gate.antt =====
-- crates/vthread/src/sync/gate.rs: permits that are handed to waiters in the order of their arrival, and
-- its clients semaphore.rs and notify.rs. What is done under the queue lock is one step, and so is a loop
-- of exchanges of one counter. A ticket is the identity of its wait; the waits are behind an interface.
pub mod Waits
pub mod WaitCells
pub mod Protocol
pub mod Permits
pub mod Preservation
pub mod Changes
pub mod Soundness
pub mod Handovers
pub mod Steps
pub mod Conservation
pub mod Signals
mod Examples
use vthread.Prelude.{
  ℕ, zero, suc, ◌+◌, ◌-◌, ◌≡◌, Bool, true, false, not, Option, none, some, List, [], ◌∷◌, ◌++◌, ltb,
  ◌==◌, if◌then◌else◌, Outcome, returns, panics, ◌>>=◌, ◌>>◌, assert, position, remove_at,
}
use vthread.Error.{ConfigurationField, Error, closed_error, would_block, fault, waiters}
use vthread.WaitWord.{ResourceSelection, permit, broadcast}
use vthread.Gate.Waits.{WaitApi}

pub record Gate : Type 0 where
  pub maximum : ℕ
  pub capacity : ℕ
  pub available : ℕ
  pub outstanding : ℕ
  pub closed : Bool
  pub entries : List ℕ

pub data Reply : Type 0 where
  granted : Reply
  refused : Error → Reply

pub data Built : Type 0 where
  built : Gate → Built
  rejected : Error → Built

unfoldable pub new : ℕ → ℕ → ℕ → Built
new available maximum capacity =
    if capacity == 0
    then rejected (Error.invalid_configuration ConfigurationField.wait_capacity)
    else built (record {
      maximum = maximum;
      capacity = capacity;
      available = available;
      outstanding = 0;
      closed = false;
      entries = [];
    })

-- The test of the closed flag and the exchange are one step, so that the second test is the first.
unfoldable pub try_take : Gate → Reply × Gate
try_take g =
    if g.closed
    then (refused closed_error, g)
    else if g.available == 0
    then (refused would_block, g)
    else (granted, record g { available = g.available - 1 })

unfoldable pub reserve : Gate → Reply × Gate
reserve g =
    if ltb g.outstanding g.capacity
    then (granted, record g { outstanding = g.outstanding + 1 })
    else (refused (Error.capacity waiters g.capacity), g)

unfoldable pub release : Gate → Outcome Gate
release g = do
  assert (not (g.outstanding == 0))
  returns (record g { outstanding = g.outstanding - 1 })

unfoldable pub store_permit : Gate → Gate
store_permit g = if ltb g.available g.maximum then record g { available = g.available + 1 } else g

-- The gate and the waits of its tickets and of others.
pub record World (C : Type 0) : Type 0 where
  pub gate : Gate
  pub waits : ℕ → C

abbrev pub update : {C : Type 0} → (ℕ → C) → ℕ → C → ℕ → C
update f i c j = if i == j then c else f j

module _ {C : Type 0} (api : WaitApi C) where
  -- The rest of `subscribe_parker`, under the queue lock, once a ticket is reserved.
  unfoldable pub register : ℕ → World C → Outcome (Reply × World C)
  unfolding try_take store_permit release
  register i w =
      if w.gate.closed
      then (do g ← release w.gate; returns (refused closed_error, record w { gate = g }))
      else elim (try_take w.gate).0 [
        | refused e ↦
            returns
              (granted, record w { gate = record w.gate { entries = w.gate.entries ++ i ∷ [] } })
        | granted ↦ elim (api.offer permit (w.waits i)) [
          | some c ↦
              returns (granted, record { gate = (try_take w.gate).1; waits = update w.waits i c })
          | none ↦ do
            g ← release (store_permit (try_take w.gate).1)
            returns (refused fault, record w { gate = g })
        ]
      ]

  -- One turn of the loop of `signal`, and whether it is the last.
  unfoldable pub signal_round : World C → Bool × World C
  unfolding store_permit
  signal_round w = if w.gate.closed then (true, w) else elim w.gate.entries [
    | [] ↦ (true, record w { gate = store_permit w.gate })
    | i ∷ rest ↦
        let popped = record w.gate { entries = rest } in
        elim (api.offer permit (w.waits i)) [
          | none ↦ (false, record w { gate = popped })
          | some c ↦ (true, record { gate = popped; waits = update w.waits i c })
        ]
  ]

  -- `signal` where nobody takes the lock between its turns: on fuel, none where it runs out.
  unfoldable pub signal : ℕ → World C → Option (World C)
  unfolding signal_round
  signal zero w = none
  signal (suc fuel) w =
      let rest = signal fuel (signal_round w).1 in
      if (signal_round w).0 then some (signal_round w).1 else rest

  abbrev pub offer_all : ResourceSelection → List ℕ → (ℕ → C) → ℕ → C
  offer_all selection [] waits = waits
  offer_all selection (i ∷ rest) waits =
      offer_all selection rest
        (elim (api.offer selection (waits i)) [ none ↦ waits | some c ↦ update waits i c ])

  unfoldable pub broadcast_all : World C → World C
  broadcast_all w = record {
    gate = record w.gate { entries = [] };
    waits = offer_all broadcast w.gate.entries w.waits;
  }

  abbrev pub close_all : List ℕ → (ℕ → C) → ℕ → C
  close_all [] waits = waits
  close_all (i ∷ rest) waits = close_all rest (update waits i (api.close (waits i)))

  unfoldable pub close : World C → World C
  close w = record {
    gate = record w.gate { closed = true; available = 0; entries = [] };
    waits = close_all w.gate.entries w.waits;
  }

  -- A turn of `Ticket::wait` after its park: none where the ticket parks again.
  unfoldable pub collect : ℕ → World C → Option (Reply × World C)
  collect i w =
      if w.gate.closed then some (refused closed_error, w) else elim (api.take (w.waits i)) [
        | none ↦ none
        | some (c, selection) ↦ some (granted, record w { waits = update w.waits i c })
      ]

  -- The drop of a ticket under the queue lock: the selection that it leaves.
  unfoldable pub withdraw : ℕ → World C → Option ResourceSelection × World C
  withdraw i w = elim (position (λ j. j == i) w.gate.entries) [
    | some index ↦
        (none, record w { gate = record w.gate { entries = remove_at index w.gate.entries } })
    | none ↦ elim (api.take (w.waits i)) [
      | none ↦ (none, w)
      | some (c, selection) ↦ (some selection, record w { waits = update w.waits i c })
    ]
  ]

  -- Behind the lock: the close marker is reset, and whether a signal follows the release.
  unfoldable pub retire_ticket : ℕ → Option ResourceSelection → World C → Outcome (Bool × World C)
  unfolding release
  retire_ticket i selection w = do
    reset ←
        (if w.gate.closed
          then elim (api.reset (w.waits i)) [
            | none ↦ panics
            | some c ↦ returns (update w.waits i c)
          ]
          else returns w.waits)
    g ← release w.gate
    returns (elim selection [ some permit ↦ true | _ ↦ false ], record { gate = g; waits = reset })

-- `Semaphore::with_wait_capacity`
unfoldable pub semaphore : ℕ → ℕ → Built
unfolding new
semaphore permits wait_capacity =
    if permits == 0
    then rejected (Error.invalid_configuration ConfigurationField.permits)
    else new permits permits wait_capacity

-- `Notify::with_wait_capacity`
unfoldable pub notify : ℕ → Built
unfolding new
notify wait_capacity = new 0 1 wait_capacity
