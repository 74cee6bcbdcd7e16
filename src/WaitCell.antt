-- ===== src/WaitCell.antt =====
-- crates/vthread/src/wait.rs, wait_begin.rs, wait_select.rs, wait_finish.rs, wait_resource.rs,
-- wait_target.rs and wait_owner_protocol.rs: the protocol of a reusable wait over its atomic word. The
-- word is its fields here, which `WaitWord.Refinement` shows it to implement. What an operation does
-- with a word that it has loaded is one attempt; an exchange that fails starts the loop again. The
-- target that a wait is bound to and the recorded evidence are left out.
pub mod Protocol
pub mod Soundness
pub mod Moves
pub mod FastPaths
pub mod Preservation
pub mod Steps
pub mod Selection
mod Examples
use vthread.Prelude.{
  ℕ, ◌%◌, ◌^◌, ◌+◌, ◌≡◌, Bool, true, false, not, ◌&&◌, ◌||◌, Option, none, some, ltb, ◌==◌,
  if◌then◌else◌, Outcome, returns, panics, ◌>>=◌, ◌>>◌, assert,
}
use vthread.WaitWord.{
  WakeCause, ready, timed_out, cancelled, inherited_cancelled, closed, ResourceSelection, permit,
  Phase, idle, binding, active, selected_ready, WaitWord, max_generation, cause_of, claimed_phase,
  claim_phase, is_active, is_binding, is_some,
}
use vthread.WaitWord.Fields.{
  Fields, pack, claim_fields, publish_fields, retire_fields, offer_fields, take_fields,
}

-- What the operations tell their callers.
pub data Answer : Type 0 where
  parker_busy exhausted fault : Answer
  immediate : WakeCause → Answer
  -- A park of a generation, once its target is bound or at once.
  binds parks : ℕ → Answer
  -- The caller has claimed the generation for a cause and has to publish it.
  selects : WakeCause → Answer
  -- A stored permit, a refusal, and success without more.
  stores refuses succeeds : Answer
  takes : ResourceSelection → Answer
  resumes : WakeCause → Answer
  -- `Publication`, to an owner that asks for one generation.
  published in_flight stale : Answer

-- One turn of a loop: load again, return, or return after an exchange of the word.
pub data Attempt : Type 0 where
  spins : Attempt
  answers : Answer → Attempt
  exchanges : Fields → Answer → Attempt

abbrev pub is_idle : Phase → Bool
is_idle idle = true
is_idle _ = false

-- `begin_resident`, by whether the deadline has passed and what `cached_target` gives.
unfoldable pub begin : Bool → Option Bool → Fields → Attempt
begin late cached f =
    if not (is_idle f.phase)
    then answers parker_busy
    else if f.closed
    then answers (immediate closed)
    else if f.permit
    then exchanges (record f { permit = false }) (immediate ready)
    else if late
    then answers (immediate timed_out)
    else if ltb max_generation (f.generation + 1)
    then answers exhausted
    else elim cached [
      | some fallback ↦
          exchanges
            (record f { generation = f.generation + 1; fallback = fallback; phase = active })
            (parks (f.generation + 1))
      | none ↦
          exchanges (record f { generation = f.generation + 1; phase = binding })
            (binds (f.generation + 1))
    ]

-- The store that ends the binding of a target.
unfoldable pub bound : Bool → Fields → Fields
bound fallback f = record f { fallback = fallback; phase = active }

unfoldable pub notify : Fields → Attempt
notify f =
    if is_binding f.phase
    then spins
    else if f.closed
    then answers (immediate closed)
    else if not (is_active f.phase) && claimed_phase f.phase
    then spins
    else if is_active f.phase
    then exchanges (claim_fields ready f) (selects ready)
    else exchanges (record f { permit = true }) stores

-- `select_current`
unfoldable pub select_current : WakeCause → Fields → Attempt
select_current cause f =
    if is_binding f.phase
    then spins
    else if not (is_active f.phase)
    then answers refuses
    else exchanges (claim_fields cause f) (selects cause)

-- `select_generation`, for a token of this wait.
unfoldable pub select_generation : ℕ → WakeCause → Fields → Attempt
select_generation generation cause f =
    if is_binding f.phase
    then spins
    else if is_idle f.phase
    then answers refuses
    else if not (f.generation == generation)
    then answers refuses
    else if not (is_active f.phase)
    then answers refuses
    else exchanges (claim_fields cause f) (selects cause)

unfoldable pub close : Fields → Attempt
close f =
    let next = record f { closed = true; permit = false } in
    if is_binding f.phase || claimed_phase f.phase
    then spins
    else if f.closed
    then answers refuses
    else if is_active f.phase
    then exchanges (claim_fields closed next) (selects closed)
    else exchanges next succeeds

-- `claim_resource`, by what `resource_offer` gives.
unfoldable pub claim_resource : ResourceSelection → Fields → Attempt
claim_resource selection f = if is_binding f.phase then spins else elim (offer_fields selection f) [
  | none ↦ answers refuses
  | some next ↦ exchanges next (if is_active f.phase then selects ready else stores)
]

-- `take_resource`, by what `resource_take` gives.
unfoldable pub take_resource : Fields → Attempt
take_resource f = if not (is_some f.resource) then answers refuses else elim (take_fields f) [
  | none ↦ spins
  | some (next, selection) ↦ exchanges next (takes selection)
]

unfoldable pub recycle : Fields → Attempt
recycle f =
    if not (is_idle f.phase) || f.closed
    then answers refuses
    else if not (f.permit || is_some f.resource)
    then answers succeeds
    else exchanges (record f { permit = false; resource = none }) succeeds

unfoldable pub reset_closed_gate : Fields → Attempt
reset_closed_gate f =
    if not (is_idle f.phase)
    then answers refuses
    else if not f.closed
    then answers succeeds
    else exchanges (record f { closed = false }) succeeds

-- `finish_slow`
unfoldable pub finish : ℕ → Fields → Attempt
finish generation f =
    if not (f.generation == generation)
    then answers fault
    else if claimed_phase f.phase || is_binding f.phase
    then spins
    else elim (cause_of f.phase) [
      | none ↦ answers fault
      | some cause ↦ exchanges (retire_fields f) (resumes cause)
    ]

abbrev pub is_ready : WakeCause → Bool
is_ready ready = true
is_ready _ = false

-- `finish_permit_slow`
unfoldable pub finish_permit : ℕ → Fields → Attempt
finish_permit generation f =
    if not (f.generation == generation)
    then answers fault
    else if claimed_phase f.phase || is_binding f.phase
    then spins
    else elim (cause_of f.phase) [
      | none ↦ answers fault
      | some cause ↦
          exchanges
            (retire_fields (record f { resource = if is_ready cause then none else f.resource }))
            (resumes cause)
    ]

-- The word that the fast paths expect: `with_generation` keeps the low 55 bits of the generation.
abbrev pub plain_selected : ℕ → Option ResourceSelection → Fields
plain_selected generation resource = record {
  generation = generation % 2 ^ 55;
  fallback = false;
  resource = resource;
  closed = false;
  permit = false;
  phase = selected_ready;
}

-- An exchange succeeds where the words are equal.
abbrev pub same_word : Fields → Fields → Bool
same_word a b = (pack a).raw == (pack b).raw

-- `finish_ready`: one exchange, then the slow path.
unfoldable pub finish_ready : ℕ → Option ResourceSelection → Fields → Attempt
unfolding finish
finish_ready generation resource f =
    if same_word f (plain_selected generation resource)
    then exchanges (retire_fields (plain_selected generation resource)) (resumes ready)
    else finish generation f

unfoldable pub finish_permit_ready : ℕ → Fields → Attempt
unfolding finish_permit
finish_permit_ready generation f =
    if same_word f (plain_selected generation (some permit))
    then exchanges (retire_fields (plain_selected generation none)) (resumes ready)
    else finish_permit generation f

-- `WaitInner::retire`, for a token of this wait.
unfoldable pub retire : ℕ → Fields → Attempt
retire generation f =
    if not (f.generation == generation) || is_idle f.phase
    then answers refuses
    else if claimed_phase f.phase || is_binding f.phase
    then spins
    else exchanges (retire_fields f) succeeds

-- `request_completion`, in a claimed word: the owner's interest is the permit bit.
unfoldable pub request_completion : Fields → Attempt
request_completion f =
    if f.permit then answers in_flight else exchanges (record f { permit = true }) in_flight

-- `publication`, for a token of this wait.
unfoldable pub publication : ℕ → Fields → Attempt
unfolding request_completion
publication generation f =
    if not (f.generation == generation)
    then answers stale
    else if is_some (cause_of f.phase)
    then answers published
    else if not (claimed_phase f.phase)
    then answers stale
    else request_completion f

-- `try_retire`, for a token of this wait that the owner got from `begin`.
unfoldable pub try_retire : ℕ → Fields → Outcome Attempt
unfolding request_completion
try_retire generation f =
    if not (f.generation == generation) || is_idle f.phase then returns (answers refuses) else do
      assert (not (is_binding f.phase))
      returns (
          if claimed_phase f.phase
          then request_completion f
          else exchanges (retire_fields f) succeeds)

-- `publish_claim` with `publish_observed_claim`: the word that is published, and whether the hub is
-- told of the completion. A claimed word with the owner's interest is changed by nobody else, so that
-- both exchanges are one step.
unfoldable pub publish_claim : Fields → Fields → Outcome (Bool × Fields)
publish_claim claimed f =
    if same_word f claimed then (do next ← publish_fields claimed; returns (false, next)) else do
      assert (same_word (record f { permit = false }) claimed)
      assert f.permit
      next ← publish_fields f
      returns (true, record next { permit = false })
