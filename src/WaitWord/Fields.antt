-- ===== src/WaitWord/Fields.antt =====
-- The fields that a wait word stands for, and the operations of crates/vthread/src/wait_state.rs
-- on them: the abstract view that the packed word implements.
use vthread.Prelude.{
  ℕ, ◌+◌, ◌*◌, Bool, true, false, ◌||◌, Option, none, some, if◌then◌else◌, Outcome, returns, ◌>>=◌,
}
use vthread.WaitWord.{
  WakeCause, ready, ResourceSelection, Phase, idle, phase_code, WaitWord, permit_bit, closed_bit,
  resource_low, fallback_bit, generation_low, bit, resource_code, claim_phase, published_phase,
  refuses_offer, is_active, is_some, is_binding, claimed_phase,
}

pub record Fields : Type 0 where
  pub generation : ℕ
  pub fallback : Bool
  pub resource : Option ResourceSelection
  pub closed : Bool
  pub permit : Bool
  pub phase : Phase

-- The word of given fields.
unfoldable pub pack : Fields → WaitWord
pack f = record {
  raw =
      f.generation * generation_low
      + bit f.fallback * fallback_bit
      + resource_code f.resource * resource_low
      + bit f.closed * closed_bit
      + bit f.permit * permit_bit
      + phase_code f.phase;
}

abbrev pub claim_fields : WakeCause → Fields → Fields
claim_fields cause f = record f { phase = claim_phase cause }

abbrev pub publish_fields : Fields → Outcome Fields
publish_fields f = do q ← published_phase f.phase; returns (record f { phase = q })

abbrev pub retire_fields : Fields → Fields
retire_fields f = record f { phase = idle; fallback = false }

-- An offer is taken by an idle or active wait that is open and holds nothing: an active one is
-- claimed as ready, an idle one stores the permit.
abbrev pub offer_fields : ResourceSelection → Fields → Option Fields
offer_fields selection f =
    if f.closed || refuses_offer f.phase || f.permit || is_some f.resource
    then none
    else if is_active f.phase
    then some (record f { resource = some selection; phase = claim_phase ready })
    else some (record f { resource = some selection; permit = true })

abbrev pub take_fields : Fields → Option (Fields × ResourceSelection)
take_fields f = if is_binding f.phase || claimed_phase f.phase then none else elim f.resource [
  | none ↦ none
  | some selection ↦ some (record f { resource = none }, selection)
]
