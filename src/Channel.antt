-- ===== src/Channel.antt =====
-- crates/vthread/src/channel.rs, channel/core.rs, channel/wait.rs and channel/endpoints.rs: bounded
-- channels with queue tickets. A wait cell is its identity; a function returns the identities that
-- it notifies. One round of a send or receive loop, which holds the lock throughout, is one step.
pub mod Buffer
pub mod Turns
pub mod Progress
pub mod History
pub mod Endpoints
mod Examples
use vthread.Prelude.{
  ℕ, zero, suc, ◌+◌, ◌-◌, ◌^◌, ◌≡◌, Bool, true, false, not, ◌&&◌, ◌||◌, Option, none, some, List,
  [], ◌∷◌, ◌++◌, length, ltb, ◌==◌, if◌then◌else◌, empty?, first?, rest_of, position, remove_at,
  Outcome, returns, panics, ◌>>=◌, ◌>>◌, assert, expect,
}
use vthread.TaskKey.{fit}
use vthread.Error.{
  Error, closed_error, would_block, capacity, waiters, invalid_configuration, channel_capacity,
  channel_wait_capacity,
}

pub data Direction : Type 0 where
  send recv : Direction

pub record Limits : Type 0 where
  pub buffer : ℕ
  pub waits : ℕ

pub record State (T : Type 0) : Type 0 where
  pub values : List T
  pub senders : ℕ
  pub receivers : ℕ
  pub closed : Bool
  pub send_waits : List ℕ
  pub recv_waits : List ℕ

pub record Ticket : Type 0 where
  pub direction : Direction
  pub wait : Option ℕ
  pub queued : Bool

-- How a round of a loop ends: with a value or nothing to return, with an error, on the way to attach
-- a wait, or parked.
pub data Verdict (A : Type 0) : Type 0 where
  done : A → Verdict A
  failed : Error → Verdict A
  enters parks : Verdict A

-- `Ticket::new`
unfoldable pub new_ticket : Direction → Ticket
new_ticket d = record { direction = d; wait = none; queued = false }

unfoldable pub attach : ℕ → Ticket → Outcome Ticket
attach identity t = elim t.wait [
  | none ↦ returns (record t { wait = some identity })
  | some old ↦ panics
]

abbrev pub to_list : Option ℕ → List ℕ
to_list none = []
to_list (some i) = i ∷ []

-- The queue of a ticket that is dropped, without its entry.
unfoldable pub drop_entry : ℕ → List ℕ → List ℕ
drop_entry identity q = elim (position (λ wait. wait == identity) q) [
  | none ↦ q
  | some index ↦ remove_at index q
]

module _ {T : Type 0} where
  unfoldable pub bounded_with_wait_capacity : ℕ → ℕ → Verdict (Limits × State T)
  bounded_with_wait_capacity buffer waits =
      if buffer == 0
      then failed (invalid_configuration channel_capacity)
      else if waits == 0
      then failed (invalid_configuration channel_wait_capacity)
      else done (
        record { buffer = buffer; waits = waits },
        record {
          values = [];
          senders = 1;
          receivers = 1;
          closed = false;
          send_waits = [];
          recv_waits = [];
        },
      )

  abbrev pub queue : Direction → State T → List ℕ
  queue send s = s.send_waits
  queue recv s = s.recv_waits

  abbrev pub put_queue : Direction → List ℕ → State T → State T
  put_queue send q s = record s { send_waits = q }
  put_queue recv q s = record s { recv_waits = q }

  unfoldable pub wake_fronts : State T → List ℕ
  wake_fronts s = to_list (first? s.send_waits) ++ to_list (first? s.recv_waits)

  unfoldable pub wake_all : State T → List ℕ
  wake_all s = s.send_waits ++ s.recv_waits

  -- `take_turn` once the front of the ticket's queue is known.
  unfoldable pub take_front : Ticket → State T → List ℕ → Outcome (Bool × Ticket × State T)
  take_front t s [] = do assert (not t.queued); returns (true, t, s)
  take_front t s (front ∷ rest) = if not t.queued then returns (false, t, s) else do
    identity ← expect t.wait
    returns (
        if front == identity
        then (true, record t { queued = false; wait = none }, put_queue t.direction rest s)
        else (false, t, s))

  unfoldable pub take_turn : Ticket → State T → Outcome (Bool × Ticket × State T)
  unfolding take_front
  take_turn t s = take_front t s (queue t.direction s)

  -- `enqueue`: the error, or the ticket and the state.
  unfoldable pub enqueue : Limits → ℕ → Ticket → State T → Outcome (Option Error × Ticket × State T)
  enqueue limits identity t s = if t.queued then returns (none, t, s) else do
    own ← expect t.wait
    assert (identity == own)
    returns (
        if length (queue t.direction s) == limits.waits
        then (some (capacity waiters limits.waits), t, s)
        else (
          none,
          record t { queued = true },
          put_queue t.direction (queue t.direction s ++ identity ∷ []) s,
        ))

  -- `Drop for Ticket`
  unfoldable pub drop_ticket : Ticket → State T → Outcome (State T × List ℕ)
  drop_ticket t s = if not t.queued then returns (s, []) else do
    identity ← expect t.wait
    let s' = put_queue t.direction (drop_entry identity (queue t.direction s)) s
    returns (s', wake_fronts s')

  -- The end of a round that has not got its turn. `entered` is the wait that the loop attached.
  unfoldable pub miss :
      {A : Type 0}
      → Limits
      → Bool
      → Option ℕ
      → Ticket
      → State T
      → Outcome (Verdict A × Ticket × State T)
  unfolding enqueue
  miss limits blocking entered t s =
      if not blocking then returns (failed would_block, t, s) else elim entered [
        | none ↦ returns (enters, t, s)
        | some identity ↦ do
          (refused, t', s') ← enqueue limits identity t s
          returns (elim refused [ none ↦ (parks, t', s') | some e ↦ (failed e, t', s') ])
      ]

  -- A round of `send_inner` by what the turn and the miss come to: both are computed when needed.
  unfoldable pub send_decide :
      Limits
      → T
      → Ticket
      → State T
      → Outcome (Bool × Ticket × State T)
      → Outcome (Verdict (Unit {0}) × Ticket × State T)
      → Outcome (Verdict (Unit {0}) × Ticket × State T × List ℕ)
  send_decide limits value t s turn missed =
      let waits = (do (verdict, t', s') ← missed; returns (verdict, t', s', [])) in
      if s.closed || s.receivers == 0
      then returns (failed closed_error, t, s, [])
      else if ltb (length s.values) limits.buffer
      then (do
        (taken, t', s') ← turn
        let pushed = record s' { values = s'.values ++ value ∷ [] }
        if taken then returns (done tt, t', pushed, wake_fronts pushed) else waits)
      else waits

  -- One round of `send_inner`. The verdict `failed` leaves the value with the caller.
  unfoldable pub send_round :
      Limits
      → Bool
      → Option ℕ
      → T
      → Ticket
      → State T
      → Outcome (Verdict (Unit {0}) × Ticket × State T × List ℕ)
  send_round limits blocking entered value t s =
      send_decide limits value t s (take_turn t s) (miss limits blocking entered t s)

  -- A round of `recv` once the buffer is known.
  unfoldable pub recv_front :
      List T
      → Outcome (Bool × Ticket × State T)
      → Outcome (Verdict T × Ticket × State T × List ℕ)
      → Outcome (Verdict T × Ticket × State T × List ℕ)
  recv_front [] turn refused = refused
  recv_front (value ∷ rest) turn refused = do
    (taken, t', s') ← turn
    let left = record s' { values = rest }
    if taken then returns (done value, t', left, wake_fronts left) else refused

  -- A round of `recv` by what the turn and the miss come to.
  unfoldable pub recv_decide :
      Ticket
      → State T
      → Outcome (Bool × Ticket × State T)
      → Outcome (Verdict T × Ticket × State T)
      → Outcome (Verdict T × Ticket × State T × List ℕ)
  recv_decide t s turn missed = recv_front s.values turn (
      if empty? s.values && (s.closed || s.senders == 0)
      then returns (failed closed_error, t, s, [])
      else (do (verdict, t', s') ← missed; returns (verdict, t', s', [])))

  -- One round of `recv`.
  unfoldable pub recv_round :
      Limits → Bool → Option ℕ → Ticket → State T → Outcome (Verdict T × Ticket × State T × List ℕ)
  recv_round limits blocking entered t s =
      recv_decide t s (take_turn t s) (miss limits blocking entered t s)

  -- `Core::close`
  unfoldable pub close : State T → State T × List ℕ
  unfolding wake_all
  close s = let closed = record s { closed = true } in (closed, wake_all closed)

  unfoldable pub clone_sender : State T → Outcome (State T)
  clone_sender s = do n ← fit (s.senders + 1); returns (record s { senders = n })

  unfoldable pub clone_receiver : State T → Outcome (State T)
  clone_receiver s = do n ← fit (s.receivers + 1); returns (record s { receivers = n })

  -- The state without one sender, and those that it notifies.
  abbrev pub without_sender : State T → State T × List ℕ
  without_sender s =
      let s' = record s { senders = s.senders - 1 } in
      if s'.senders == 0 then (s', wake_all s') else (s', [])

  -- `Drop for Sender`: the count does not go below zero.
  unfoldable pub drop_sender : State T → Outcome (State T × List ℕ)
  unfolding wake_all
  drop_sender s = if s.senders == 0 then panics else returns (without_sender s)

  -- The state without one receiver, those that it notifies and the values that the last one discards.
  abbrev pub without_receiver : State T → State T × List ℕ × List T
  without_receiver s =
      let s' = record s { receivers = s.receivers - 1 } in
      if s'.receivers == 0
      then (record s' { values = [] }, wake_all s', s'.values)
      else (s', [], [])

  -- `Drop for Receiver`
  unfoldable pub drop_receiver : State T → Outcome (State T × List ℕ × List T)
  unfolding wake_all
  drop_receiver s = if s.receivers == 0 then panics else returns (without_receiver s)
