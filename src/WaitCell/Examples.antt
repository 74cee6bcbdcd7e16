-- ===== src/WaitCell/Examples.antt =====
-- A wait that is begun, claimed, noticed, published and finished, and its claims at work.
use vthread.Prelude.{arith, ◌≡◌, refl, Bool, true, false, none, some, [], ◌∷◌, returns, ◌⊎◌}
use vthread.WaitWord.{ready, Phase, idle, active, claim_ready, selected_ready}
use vthread.WaitWord.Fields.{Fields, pack}
use vthread.WaitCell.{
  selects, parks, binds, resumes, spins, exchanges, begin, notify, finish, finish_permit,
  finish_ready, finish_permit_ready, publish_claim, retire,
}
use vthread.WaitCell.Protocol.{
  begins, notifies, attempt, Claim, System, start, claims_after, binders_after, Step, exchange,
  enqueue, publish, Reachable, starts, steps, retires,
}
use vthread.WaitCell.Soundness.{IsOrdered, Newest}
use vthread.WaitCell.FastPaths.{finish_ready-finish, finish_permit_ready-finish_permit}
use vthread.WaitCell.Selection.{noticed_once, finish-Newest, spins-owner, bind_overwrites_nothing}

abbrev word_at : Phase → Fields
word_at phase = record {
  generation = 1;
  fallback = false;
  resource = none;
  closed = false;
  permit = false;
  phase = phase;
}

abbrev waited : System
waited = record { word = word_at active; claims = []; binders = []; notices = [] }

abbrev held : Bool → Claim
held noticed = record { word = word_at claim_ready; cause = ready; noticed = noticed }

abbrev claimed_state : System
claimed_state = record {
  word = word_at claim_ready;
  claims = held false ∷ [];
  binders = [];
  notices = [];
}

abbrev noticed_state : System
noticed_state = record {
  word = word_at claim_ready;
  claims = held true ∷ [];
  binders = [];
  notices = (1, ready) ∷ [];
}

abbrev published_state : System
published_state = record {
  word = word_at selected_ready;
  claims = [];
  binders = [];
  notices = (1, ready) ∷ [];
}

abbrev binding_state : System
binding_state = record {
  word = word_at Phase.binding;
  claims = [];
  binders = word_at Phase.binding ∷ [];
  notices = [];
}

begins_active :
    attempt (begins false (some false)) (start).word ≡ exchanges (word_at active) (parks 1)
unfolding attempt begin start
begins_active = refl

begins_binding :
    attempt (begins false none) (start).word ≡ exchanges (word_at Phase.binding) (binds 1)
unfolding attempt begin start
begins_binding = refl

waited_step : Step start waited
unfolding start claims_after binders_after
waited_step = exchange (begins false (some false)) (word_at active) (parks 1) begins_active

binding_step : Step start binding_state
unfolding start claims_after binders_after
binding_step = exchange (begins false none) (word_at Phase.binding) (binds 1) begins_binding

notifies_active :
    attempt notifies (word_at active) ≡ exchanges (word_at claim_ready) (selects ready)
unfolding attempt notify
notifies_active = refl

claimed_step : Step waited claimed_state
unfolding claims_after binders_after
claimed_step = exchange notifies (word_at claim_ready) (selects ready) notifies_active

noticed_step : Step claimed_state noticed_state
noticed_step = enqueue (held false) [] [] refl refl

publishes :
    publish_claim (word_at claim_ready) (word_at claim_ready)
    ≡ returns (false, word_at selected_ready)
unfolding publish_claim pack
publishes = refl

published_step : Step noticed_state published_state
published_step = publish (held true) [] [] false (word_at selected_ready) refl refl publishes

waited-Reachable : Reachable waited
waited-Reachable = steps start waited starts waited_step

binding-Reachable : Reachable binding_state
binding-Reachable = steps start binding_state starts binding_step

noticed-Reachable : Reachable noticed_state
noticed-Reachable =
    steps claimed_state noticed_state (steps waited claimed_state waited-Reachable claimed_step)
      noticed_step

published-Reachable : Reachable published_state
published-Reachable = steps noticed_state published_state noticed-Reachable published_step

finishes_published : finish 1 (word_at selected_ready) ≡ exchanges (word_at idle) (resumes ready)
unfolding finish
finishes_published = refl

spins_on_claim : attempt (retires 1) (word_at claim_ready) ≡ spins
unfolding attempt retire
spins_on_claim = refl

noticed_once_example : IsOrdered ((1, ready) ∷ [])
noticed_once_example = noticed_once published_state published-Reachable

finish-Newest_example :
    Newest 1 ready ((1, ready) ∷ []) × (published_state.claims ≡ []) × (idle ≡ idle)
finish-Newest_example =
    finish-Newest published_state 1 (word_at idle) ready published-Reachable finishes_published

spins-owner_example :
    ((c : Claim) × (noticed_state.claims ≡ c ∷ []) × (noticed_state.binders ≡ []))
    ⊎ ((noticed_state.claims ≡ []) × (noticed_state.binders ≡ word_at claim_ready ∷ []))
spins-owner_example = spins-owner noticed_state (retires 1) noticed-Reachable spins_on_claim

bind_overwrites_nothing_example : word_at Phase.binding ≡ word_at Phase.binding
bind_overwrites_nothing_example =
    bind_overwrites_nothing binding_state (word_at Phase.binding) [] [] binding-Reachable refl

finish_ready-finish_example :
    finish_ready 1 none (word_at selected_ready) ≡ finish 1 (word_at selected_ready)
finish_ready-finish_example = finish_ready-finish 1 none (word_at selected_ready) (omega arith)

finish_permit_ready-finish_permit_example :
    finish_permit_ready 1 (word_at claim_ready) ≡ finish_permit 1 (word_at claim_ready)
finish_permit_ready-finish_permit_example =
    finish_permit_ready-finish_permit 1 (word_at claim_ready) (omega arith)
