-- ===== src/WakeQueue.antt =====
-- crates/vthread/src/wake_queue_core.rs: the bounded intrusive queue that brings wake notices from
-- many producers to the owner carrier. The slots are one array for each field, and an index selects.
-- A producer's `push` is two atomic parts, `reserve` and `link`: what a failed exchange of the link's
-- loop writes, the slot's own `next`, is written again before it is read. `pop` takes effect at its
-- exchange of the head; all else that it touches belongs to the owner.
pub mod Refinement
pub mod Producers
pub mod Consumer
pub mod Reversal
pub mod Start
pub mod Choice
mod Examples
use vthread.Prelude.{
  ℕ, zero, suc, ◌+◌, ◌-◌, ◌*◌, ◌/◌, ◌%◌, ◌^◌, ◌≡◌, Bool, true, false, not, ◌||◌, Option, none, some,
  List, [], ◌∷◌, ltb, leb, ◌==◌, if◌then◌else◌, Outcome, returns, panics, ◌>>=◌, ◌>>◌, assert,
}
use vthread.ParkToken.{ParkToken}
use vthread.TaskKey.{TaskKey, encoded, from_encoded, fit, usize_values}
use vthread.WaitWord.{WakeCause, ready, timed_out, cancelled, inherited_cancelled, closed}

-- `WakeNotice` of crates/vthread/src/wait.rs.
pub record WakeNotice : Type 0 where
  pub token : ParkToken
  pub task : ℕ
  pub route : TaskKey
  pub cause : WakeCause

pub record WakeQueue : Type 0 where
  pub slot_count : ℕ
  pub next : ℕ → ℕ
  pub task : ℕ → ℕ
  pub wait : ℕ → ℕ
  pub selection : ℕ → ℕ
  pub head : ℕ
  pub consumer : ℕ

-- A store to one slot.
abbrev pub update : (ℕ → ℕ) → ℕ → ℕ → ℕ → ℕ
update f i v j = if i == j then v else f j

abbrev pub sleeping : ℕ
sleeping = 2 ^ 63

-- `head & INDEX_MASK` and `head & SLEEPING != 0`, of a 64-bit word.
abbrev pub index_of : ℕ → ℕ
index_of head = head % sleeping

abbrev pub is_sleeping : ℕ → Bool
is_sleeping head = leb sleeping head

unfoldable pub new : ℕ → Outcome WakeQueue
new capacity = do
  doubled ← fit (capacity * 2)
  slot_count ← fit (doubled + 2)
  assert (ltb slot_count sleeping)
  returns (record {
    slot_count = slot_count;
    next = λ _. 0;
    task = λ _. 0;
    wait = λ _. 0;
    selection = λ _. 0;
    head = 0;
    consumer = 0;
  })

abbrev pub cause_code : WakeCause → ℕ
cause_code ready = 1
cause_code timed_out = 2
cause_code cancelled = 3
cause_code inherited_cancelled = 4
cause_code closed = 5

unfoldable pub encode_selection : ℕ → WakeCause → Outcome ℕ
encode_selection generation cause = do
  assert (leb generation ((2 ^ 64 - 1) / 8))
  returns (generation * 8 + cause_code cause)

unfoldable pub decode_cause : ℕ → Outcome WakeCause
decode_cause code =
    if code == 1
    then returns ready
    else if code == 2
    then returns timed_out
    else if code == 3
    then returns cancelled
    else if code == 4
    then returns inherited_cancelled
    else if code == 5
    then returns closed
    else panics

unfoldable pub decode_selection : ℕ → Outcome (ℕ × WakeCause)
unfolding decode_cause
decode_selection selection = do cause ← decode_cause (selection % 8); returns (selection / 8, cause)

-- The first part of `push`: `none` is the notice given back.
unfoldable pub reserve : WakeNotice → WakeQueue → Outcome (Option WakeQueue)
unfolding encode_selection encoded
reserve notice q =
    let index = encoded notice.route in
    if leb q.slot_count index || not (q.task index == 0) then returns none else do
      selection ← encode_selection notice.token.generation notice.cause
      returns (
          some (record q {
            task = update q.task index notice.task;
            wait = update q.wait index notice.token.wait;
            selection = update q.selection index selection;
          }))

-- The second part of `push`: whether the owner has to be notified.
unfoldable pub link : ℕ → WakeQueue → Bool × WakeQueue
link index q =
    (is_sleeping q.head, record q { next = update q.next index (index_of q.head); head = index })

unfoldable pub push : WakeNotice → WakeQueue → Outcome (Option Bool × WakeQueue)
unfolding reserve link encoded
push notice q = do
  reserved ← reserve notice q
  returns (elim reserved [
    | none ↦ (none, q)
    | some q' ↦ let (notify, q'') = link (encoded notice.route) q' in (some notify, q'')
  ])

-- The loop of `reverse`, on fuel, over an array of `slots`: the new list and the stores to `next`. Where
-- the fuel ends inside a list the loop has no answer.
unfoldable pub reverse_loop : ℕ → ℕ → (ℕ → ℕ) → ℕ → ℕ → Outcome (ℕ × (ℕ → ℕ))
reverse_loop zero slots next head reversed = if head == 0 then returns (reversed, next) else panics
reverse_loop (suc fuel) slots next head reversed =
    let rest = reverse_loop fuel slots (update next head reversed) (next head) head in
    if head == 0 then returns (reversed, next) else if leb slots head then panics else rest

-- A list of distinct slots is no longer than the array.
unfoldable pub reverse : ℕ → WakeQueue → Outcome (ℕ × WakeQueue)
unfolding reverse_loop
reverse head q = do
  (first, next) ← reverse_loop q.slot_count q.slot_count q.next head 0
  returns (first, record q { next = next })

-- The part of `pop` that chooses a slot: 0 where there is none.
unfoldable pub choose : WakeQueue → Outcome (ℕ × WakeQueue)
unfolding reverse
choose q =
    let index = index_of q.head in
    let taken = record q { head = 0 } in
    if not (q.consumer == 0)
    then returns (q.consumer, q)
    else if index == 0
    then returns (0, q)
    else if leb q.slot_count index
    then panics
    else if q.next index == 0
    then returns (index, taken)
    else reverse index taken

-- The part of `pop` that reads the chosen slot and frees it. `TaskId::new` refuses the number 0.
unfoldable pub read_slot : ℕ → WakeQueue → Outcome (WakeNotice × WakeQueue)
unfolding decode_selection from_encoded
read_slot index q = do
  assert (not (leb q.slot_count index))
  (generation, cause) ← decode_selection (q.selection index)
  assert (not (q.task index == 0))
  route ← from_encoded index
  returns (
    record {
      token = record { wait = q.wait index; generation = generation };
      task = q.task index;
      route = route;
      cause = cause;
    },
    record q { consumer = q.next index; task = update q.task index 0 },
  )

unfoldable pub pop : WakeQueue → Outcome (Option WakeNotice × WakeQueue)
pop q = do
  (index, q') ← choose q
  if index == 0
      then returns (none, q')
      else (do (notice, q'') ← read_slot index q'; returns (some notice, q''))

unfoldable pub has_pending : WakeQueue → Bool
has_pending q = not (q.consumer == 0) || not (index_of q.head == 0)

-- The loop of `arm_wait` ends at its first successful exchange; nobody interferes within the step.
unfoldable pub arm_wait : WakeQueue → Bool × WakeQueue
arm_wait q =
    if not (q.consumer == 0)
    then (true, q)
    else if not (index_of q.head == 0)
    then (true, q)
    else if is_sleeping q.head
    then (false, q)
    else (false, record q { head = sleeping })

unfoldable pub disarm_wait : WakeQueue → WakeQueue
disarm_wait q = record q { head = index_of q.head }

-- `pending`, over the first slots of the array.
unfoldable pub reserved_below : ℕ → WakeQueue → ℕ
reserved_below zero q = 0
reserved_below (suc n) q = reserved_below n q + (if q.task n == 0 then 0 else 1)

unfoldable pub pending : WakeQueue → ℕ
unfolding reserved_below
pending q = reserved_below q.slot_count q
