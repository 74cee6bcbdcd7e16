-- ===== src/WaitCell/Moves.antt =====
-- The four ways in which an exchange changes a wait's word (crates/vthread/src/wait_*.rs).
use vthread.Prelude.{ℕ, ◌+◌, ◌≤◌, ◌≡◌, ◌⊎◌, Bool, true, false, Option, none, some, arith}
use vthread.WaitWord.{
  WakeCause, ready, closed, ResourceSelection, Phase, idle, active, max_generation, claim_phase,
}
use vthread.WaitWord.Fields.{Fields}
use vthread.WaitCell.{
  Answer, selects, binds, parks, exchanges, begin, notify, select_current, select_generation, close,
  claim_resource, take_resource, recycle, reset_closed_gate, finish, finish_permit, retire,
  publication, request_completion,
}
use vthread.WaitCell.Soundness.{
  Stage, resting, binding_target, waiting, claimed_for, published_for, stage,
}

-- The caller gets neither a claim nor a binding.
abbrev pub is_quiet : Answer → Bool
is_quiet (selects cause) = false
is_quiet (binds generation) = false
is_quiet _ = true

-- What may change within a stage.
abbrev pub Allowed : Stage → Fields → Fields → Type 0
Allowed resting f next = Unit
Allowed binding_target f next = ⊥
Allowed waiting f next = (next.permit ≡ f.permit) × (next.closed ≡ f.closed)
Allowed (claimed_for cause) f next = next ≡ record f { permit = true }
Allowed (published_for cause) f next = Unit

-- A change within a stage.
abbrev pub Stays : Fields → Fields → Answer → Type 0
Stays f next answer =
    (next.phase ≡ f.phase)
    × (next.generation ≡ f.generation)
    × (is_quiet answer ≡ true)
    × Allowed (stage f.phase) f next

-- The claim of an active wait for a cause.
abbrev pub Claims : WakeCause → Fields → Fields → Answer → Type 0
Claims cause f next answer =
    (f.phase ≡ active)
    × (next.phase ≡ claim_phase cause)
    × (next.generation ≡ f.generation)
    × ((next.permit ≡ false) ⊎ (next.permit ≡ f.permit))
    × (answer ≡ selects cause)

-- The activation of a new generation, with its target bound or to be bound.
abbrev pub Begins : Fields → Fields → Answer → Type 0
Begins f next answer =
    (f.phase ≡ idle)
    × (next.generation ≡ f.generation + 1)
    × (next.generation ≤ max_generation)
    × (next.permit ≡ false)
    × (next.closed ≡ false)
    × (((next.phase ≡ active) × (answer ≡ parks next.generation))
        ⊎ ((next.phase ≡ Phase.binding) × (answer ≡ binds next.generation)))

-- A stage that retirement ends.
abbrev pub Retirable : Stage → Type 0
Retirable waiting = Unit
Retirable (published_for cause) = Unit
Retirable _ = ⊥

abbrev pub Retires : Fields → Fields → Answer → Type 0
Retires f next answer =
    Retirable (stage f.phase)
    × (next.phase ≡ idle)
    × (next.generation ≡ f.generation)
    × (is_quiet answer ≡ true)

pub data Moves (f next : Fields) (answer : Answer) : Type 0 where
  stays : Stays f next answer → Moves f next answer
  claims : (cause : WakeCause) → Claims cause f next answer → Moves f next answer
  begins : Begins f next answer → Moves f next answer
  retires : Retires f next answer → Moves f next answer

pub begin-Moves :
    (late : Bool) (cached : Option Bool) (f next : Fields) (answer : Answer)
    → begin late cached f ≡ exchanges next answer
    → Stays f next answer ⊎ Begins f next answer
unfolding begin
begin-Moves late none f next answer e = ground arith
begin-Moves late (some fallback) f next answer e = ground arith

pub notify-Moves :
    (f next : Fields) (answer : Answer)
    → notify f ≡ exchanges next answer
    → Stays f next answer ⊎ Claims ready f next answer
unfolding notify
notify-Moves f next answer e = ground arith

pub select_current-Claims :
    (cause : WakeCause) (f next : Fields) (answer : Answer)
    → select_current cause f ≡ exchanges next answer
    → Claims cause f next answer
unfolding select_current
select_current-Claims cause f next answer e = ground arith

pub select_generation-Claims :
    (generation : ℕ) (cause : WakeCause) (f next : Fields) (answer : Answer)
    → select_generation generation cause f ≡ exchanges next answer
    → Claims cause f next answer
unfolding select_generation
select_generation-Claims generation cause f next answer e = ground arith

pub close-Moves :
    (f next : Fields) (answer : Answer)
    → close f ≡ exchanges next answer
    → Stays f next answer ⊎ Claims closed f next answer
unfolding close
close-Moves f next answer e = ground arith

pub claim_resource-Moves :
    (selection : ResourceSelection) (f next : Fields) (answer : Answer)
    → claim_resource selection f ≡ exchanges next answer
    → Stays f next answer ⊎ Claims ready f next answer
unfolding claim_resource
claim_resource-Moves selection f next answer e = ground arith

pub take_resource-Stays :
    (f next : Fields) (answer : Answer)
    → take_resource f ≡ exchanges next answer
    → Stays f next answer
unfolding take_resource
take_resource-Stays f next answer e = ground arith

pub recycle-Stays :
    (f next : Fields) (answer : Answer) → recycle f ≡ exchanges next answer → Stays f next answer
unfolding recycle
recycle-Stays f next answer e = ground arith

pub reset_closed_gate-Stays :
    (f next : Fields) (answer : Answer)
    → reset_closed_gate f ≡ exchanges next answer
    → Stays f next answer
unfolding reset_closed_gate
reset_closed_gate-Stays f next answer e = ground arith

pub finish-Retires :
    (generation : ℕ) (f next : Fields) (answer : Answer)
    → finish generation f ≡ exchanges next answer
    → Retires f next answer
unfolding finish
finish-Retires generation f next answer e = ground arith

pub finish_permit-Retires :
    (generation : ℕ) (f next : Fields) (answer : Answer)
    → finish_permit generation f ≡ exchanges next answer
    → Retires f next answer
unfolding finish_permit
finish_permit-Retires generation f next answer e = ground arith

pub retire-Retires :
    (generation : ℕ) (f next : Fields) (answer : Answer)
    → retire generation f ≡ exchanges next answer
    → Retires f next answer
unfolding retire
retire-Retires generation f next answer e = ground arith

pub publication-Stays :
    (generation : ℕ) (f next : Fields) (answer : Answer)
    → publication generation f ≡ exchanges next answer
    → Stays f next answer
unfolding publication request_completion
publication-Stays generation f next answer e = ground arith
