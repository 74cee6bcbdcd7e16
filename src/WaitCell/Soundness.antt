-- ===== src/WaitCell/Soundness.antt =====
-- The invariant of a shared wait (crates/vthread/src/wait_*.rs).
use vthread.Prelude.{ℕ, ◌+◌, ◌≤◌, ◌<◌, ◌≡◌, ◌⊎◌, true, false, List, [], ◌∷◌}
use vthread.WaitWord.{
  WakeCause, ready, timed_out, cancelled, inherited_cancelled, closed, Phase, idle, binding, active,
  claim_ready, selected_ready, claim_timed_out, selected_timed_out, claim_cancelled,
  selected_cancelled, claim_inherited_cancelled, selected_inherited_cancelled, claim_closed,
  selected_closed, max_generation,
}
use vthread.WaitWord.Fields.{Fields}
use vthread.WaitCell.Protocol.{Claim, System}

-- Which side of its generation a word is on.
pub data Stage : Type 0 where
  resting binding_target waiting : Stage
  claimed_for published_for : WakeCause → Stage

abbrev pub stage : Phase → Stage
stage idle = resting
stage binding = binding_target
stage active = waiting
stage claim_ready = claimed_for ready
stage selected_ready = published_for ready
stage claim_timed_out = claimed_for timed_out
stage selected_timed_out = published_for timed_out
stage claim_cancelled = claimed_for cancelled
stage selected_cancelled = published_for cancelled
stage claim_inherited_cancelled = claimed_for inherited_cancelled
stage selected_inherited_cancelled = published_for inherited_cancelled
stage claim_closed = claimed_for closed
stage selected_closed = published_for closed

-- Every notice is of an earlier generation.
abbrev pub Earlier : ℕ → List (ℕ × WakeCause) → Type 0
Earlier g [] = Unit
Earlier g ((generation, cause) ∷ ns) = (generation < g) × Earlier g ns

-- No two notices are of one generation: newer notices are of later ones.
abbrev pub IsOrdered : List (ℕ × WakeCause) → Type 0
IsOrdered [] = Unit
IsOrdered ((generation, cause) ∷ ns) = Earlier generation ns × IsOrdered ns

-- The newest notice is that of a generation and a cause.
abbrev pub Newest : ℕ → WakeCause → List (ℕ × WakeCause) → Type 0
Newest g cause [] = ⊥
Newest g cause (n ∷ ns) = (n ≡ (g, cause)) × Earlier g ns

-- The word that a selector claimed, while the owner may have marked its interest.
abbrev pub IsClaimOf : Fields → WakeCause → Claim → Type 0
IsClaimOf f cause c = (c.word ≡ record f { permit = false }) × (c.cause ≡ cause)

-- What everybody holds at each stage.
abbrev pub Holds : Stage → Fields → List Claim → List Fields → List (ℕ × WakeCause) → Type 0
Holds resting f claims binders notices =
    (claims ≡ []) × (binders ≡ []) × Earlier (f.generation + 1) notices
Holds binding_target f claims binders notices =
    (claims ≡ [])
    × (binders ≡ f ∷ [])
    × (f.permit ≡ false)
    × (f.closed ≡ false)
    × Earlier f.generation notices
Holds waiting f claims binders notices =
    (claims ≡ [])
    × (binders ≡ [])
    × (f.permit ≡ false)
    × (f.closed ≡ false)
    × Earlier f.generation notices
Holds (claimed_for cause) f claims binders notices =
    (binders ≡ [])
    × ((c : Claim) × (claims ≡ c ∷ [])
        × IsClaimOf f cause c
        × (((c.noticed ≡ false) × Earlier f.generation notices)
            ⊎ ((c.noticed ≡ true) × Newest f.generation cause notices)))
Holds (published_for cause) f claims binders notices =
    (claims ≡ []) × (binders ≡ []) × Newest f.generation cause notices

pub record IsSound (s : System) : Type 0 where
  pub bounded : s.word.generation ≤ max_generation
  pub ordered : IsOrdered s.notices
  pub holds : Holds (stage s.word.phase) s.word s.claims s.binders s.notices
