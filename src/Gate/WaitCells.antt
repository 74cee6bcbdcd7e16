-- ===== src/Gate/WaitCells.antt =====
-- The gate's waits are wait cells (crates/vthread/src/wait_resource.rs): what `offer_resource`,
-- `take_resource`, `close` and `reset_closed_gate` do to a word once nobody makes them spin.
use vthread.Prelude.{◌≡◌, false, Option, none, some, arith}
use vthread.WaitWord.{
  ResourceSelection, binding, claim_ready, selected_ready, claim_timed_out, selected_timed_out,
  claim_cancelled, selected_cancelled, claim_inherited_cancelled, selected_inherited_cancelled,
  claim_closed, selected_closed,
}
use vthread.WaitWord.Fields.{Fields}
use vthread.WaitCell.{
  Answer, takes, succeeds, Attempt, spins, answers, exchanges, claim_resource, take_resource, bound,
  reset_closed_gate,
}
use vthread.WaitCell
use vthread.Gate.Waits.{WaitApi}

-- The word once a claim is published and a binding has ended.
unfoldable pub settled : Fields → Fields
unfolding bound
settled f = elim f.phase [
  | binding ↦ bound f.fallback f
  | claim_ready ↦ record f { phase = selected_ready; permit = false }
  | claim_timed_out ↦ record f { phase = selected_timed_out; permit = false }
  | claim_cancelled ↦ record f { phase = selected_cancelled; permit = false }
  | claim_inherited_cancelled ↦ record f { phase = selected_inherited_cancelled; permit = false }
  | claim_closed ↦ record f { phase = selected_closed; permit = false }
  | _ ↦ f
]

unfoldable pub offer : ResourceSelection → Fields → Option Fields
unfolding claim_resource settled
offer selection f = elim (claim_resource selection (settled f)) [
  | exchanges next answer ↦ some (settled next)
  | _ ↦ none
]

unfoldable pub take : Fields → Option (Fields × ResourceSelection)
unfolding take_resource settled
take f = elim (take_resource (settled f)) [
  | exchanges next (takes selection) ↦ some (next, selection)
  | _ ↦ none
]

unfoldable pub close : Fields → Fields
unfolding WaitCell.close settled
close f = elim (WaitCell.close (settled f)) [ exchanges next answer ↦ settled next | _ ↦ settled f ]

unfoldable pub reset : Fields → Option Fields
unfolding reset_closed_gate settled
reset f = elim (reset_closed_gate (settled f)) [
  | exchanges next answer ↦ some next
  | answers succeeds ↦ some (settled f)
  | _ ↦ none
]

settled-resource : (f : Fields) → (settled f).resource ≡ f.resource
unfolding settled bound
settled-resource f = ground arith

pub offer-content :
    (r : ResourceSelection) (f g : Fields)
    → offer r f ≡ some g
    → (f.resource ≡ none) × (g.resource ≡ some r)
unfolding offer claim_resource settled bound
offer-content r f g e = ground arith

pub take-content :
    (f g : Fields) (r : ResourceSelection)
    → take f ≡ some (g, r)
    → (f.resource ≡ some r) × (g.resource ≡ none)
unfolding take take_resource settled bound
take-content f g r e = ground arith

pub take-none : (f : Fields) → take f ≡ none → f.resource ≡ none
unfolding take take_resource settled bound
take-none f e = ground arith

pub close-content : (f : Fields) → (close f).resource ≡ f.resource
unfolding close WaitCell.close settled bound
close-content f = ground arith

pub reset-content : (f g : Fields) → reset f ≡ some g → g.resource ≡ f.resource
unfolding reset reset_closed_gate settled bound
reset-content f g e = ground arith

unfoldable pub wait_cells : WaitApi Fields
wait_cells = record {
  offer = offer;
  take = take;
  close = close;
  reset = reset;
  content = λ f. f.resource;
  offer-content = offer-content;
  take-content = take-content;
  take-none = take-none;
  close-content = close-content;
  reset-content = reset-content;
}
