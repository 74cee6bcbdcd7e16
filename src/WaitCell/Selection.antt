-- ===== src/WaitCell/Selection.antt =====
-- What the protocol promises to owners and selectors (crates/vthread/src/wait_*.rs).
use vthread.Prelude.{
  ℕ, ◌%◌, ◌^◌, ◌≡◌, ◌⊎◌, inl, inr, true, false, none, some, List, [], ◌∷◌, ◌++◌, arith, sym, subst,
  ◌∙◌,
}
use vthread.WaitWord.{
  WakeCause, ready, timed_out, cancelled, inherited_cancelled, closed, Phase, idle, active,
  claim_ready, selected_ready, claim_timed_out, selected_timed_out, claim_cancelled,
  selected_cancelled, claim_inherited_cancelled, selected_inherited_cancelled, claim_closed,
  selected_closed, cause_of, claimed_phase,
}
use vthread.WaitWord.Fields.{Fields}
use vthread.WaitCell.{
  resumes, spins, exchanges, begin, notify, select_current, select_generation, close,
  claim_resource, take_resource, recycle, reset_closed_gate, finish, finish_permit, retire,
  publication, request_completion,
}
use vthread.WaitCell.FastPaths.{finish_ready_cases, finish_permit_ready_cases}
use vthread.WaitCell.Protocol.{
  Call, begins, notifies, closes, takes_resource, recycles, resets, selects_current,
  selects_generation, offers, finishes, finishes_permit, finishes_permit_ready, retires, asks,
  finishes_ready, attempt, Claim, System, Reachable,
}
use vthread.WaitCell.Soundness.{
  Stage, resting, binding_target, waiting, claimed_for, published_for, stage, IsOrdered, Newest,
  Holds,
}
use vthread.WaitCell.Preservation.{middle_single, middle_nonempty}
use vthread.WaitCell.Steps.{Reachable-IsSound}

-- However the operations interleave, no generation of a wait is noticed twice, and notices come in
-- the order of their generations.
pub noticed_once : (s : System) → Reachable s → IsOrdered s.notices
noticed_once s r = (Reachable-IsSound s r).ordered

finish-stage :
    (generation : ℕ) (f next : Fields) (cause : WakeCause)
    → finish generation f ≡ exchanges next (resumes cause)
    → (stage f.phase ≡ published_for cause) × (f.generation ≡ generation) × (next.phase ≡ idle)
unfolding finish
finish-stage generation f next cause e = ground arith

-- An owner that resumes a generation gets the cause of its one notice, which was in the wake queue
-- and published before, and nobody holds a claim of the generation that it retires.
pub finish-Newest :
    (s : System) (generation : ℕ) (next : Fields) (cause : WakeCause)
    → Reachable s
    → finish generation s.word ≡ exchanges next (resumes cause)
    → Newest generation cause s.notices × (s.claims ≡ []) × (next.phase ≡ idle)
finish-Newest s generation next cause r e =
    let (st, g, retired) = finish-stage generation s.word next cause e in
    let h : Holds (published_for cause) s.word s.claims s.binders s.notices =
      subst (λ i. Holds i s.word s.claims s.binders s.notices) st (Reachable-IsSound s r).holds in
    (subst (λ k. Newest k cause s.notices) g h.2, h.0, retired)

-- The word of a published claim.
abbrev pub IsPublished : Claim → Fields → Fields → Type 0
IsPublished c f next =
    (cause_of next.phase ≡ some c.cause)
    × (next.generation ≡ f.generation)
    × (next.resource ≡ f.resource)
    × (next.closed ≡ f.closed)
    × (next.permit ≡ false)

abbrev selected_for : WakeCause → Phase
selected_for ready = selected_ready
selected_for timed_out = selected_timed_out
selected_for cancelled = selected_cancelled
selected_for inherited_cancelled = selected_inherited_cancelled
selected_for closed = selected_closed

finish-spins :
    (generation : ℕ) (f : Fields)
    → finish generation f ≡ spins
    → (claimed_phase f.phase ≡ true) ⊎ (f.phase ≡ Phase.binding)
unfolding finish
finish-spins generation f e = ground arith

finish_permit-spins :
    (generation : ℕ) (f : Fields)
    → finish_permit generation f ≡ spins
    → (claimed_phase f.phase ≡ true) ⊎ (f.phase ≡ Phase.binding)
unfolding finish_permit
finish_permit-spins generation f e = ground arith

spinning :
    (call : Call) (f : Fields)
    → attempt call f ≡ spins
    → (claimed_phase f.phase ≡ true) ⊎ (f.phase ≡ Phase.binding)
unfolding attempt begin notify select_current select_generation close claim_resource take_resource
    recycle reset_closed_gate retire publication request_completion
spinning (begins late none) f e = ground arith
spinning (begins late (some fallback)) f e = ground arith
spinning notifies f e = ground arith
spinning closes f e = ground arith
spinning takes_resource f e = ground arith
spinning recycles f e = ground arith
spinning resets f e = ground arith
spinning (selects_current cause) f e = ground arith
spinning (selects_generation generation cause) f e = ground arith
spinning (offers selection) f e = ground arith
spinning (finishes generation) f e = finish-spins generation f e
spinning (finishes_permit generation) f e = finish_permit-spins generation f e
spinning (finishes_permit_ready generation) f e = elim (finish_permit_ready_cases generation f) [
  | inl same ↦ finish_permit-spins generation f (sym same ∙ e)
  | inr low ↦ finish_permit-spins (generation % 2 ^ 55) f (sym low ∙ e)
]
spinning (retires generation) f e = ground arith
spinning (asks generation) f e = ground arith
spinning (finishes_ready generation resource) f e =
    elim (finish_ready_cases generation resource f) [
      | inl same ↦ finish-spins generation f (sym same ∙ e)
      | inr low ↦ finish-spins (generation % 2 ^ 55) f (sym low ∙ e)
    ]

-- Nobody spins on a wait without a reason: somebody else has still to publish a claim or to finish
-- a binding, and it is exactly one.
pub spins-owner :
    (s : System) (call : Call)
    → Reachable s
    → attempt call s.word ≡ spins
    → ((c : Claim) × (s.claims ≡ c ∷ []) × (s.binders ≡ []))
      ⊎ ((s.claims ≡ []) × (s.binders ≡ s.word ∷ []))
spins-owner s call r e = busy s.word.phase (Reachable-IsSound s r).holds (spinning call s.word e)
  where
    busy :
        (p : Phase)
        → Holds (stage p) s.word s.claims s.binders s.notices
        → (claimed_phase p ≡ true) ⊎ (p ≡ Phase.binding)
        → ((c : Claim) × (s.claims ≡ c ∷ []) × (s.binders ≡ []))
          ⊎ ((s.claims ≡ []) × (s.binders ≡ s.word ∷ []))
    busy Phase.binding h b = inr (h.0, h.1)
    busy idle h b = absurd (ground arith)
    busy active h b = absurd (ground arith)
    busy claim_ready h b = inl (h.1.0, h.1.1, h.0)
    busy selected_ready h b = absurd (ground arith)
    busy claim_timed_out h b = inl (h.1.0, h.1.1, h.0)
    busy selected_timed_out h b = absurd (ground arith)
    busy claim_cancelled h b = inl (h.1.0, h.1.1, h.0)
    busy selected_cancelled h b = absurd (ground arith)
    busy claim_inherited_cancelled h b = inl (h.1.0, h.1.1, h.0)
    busy selected_inherited_cancelled h b = absurd (ground arith)
    busy claim_closed h b = inl (h.1.0, h.1.1, h.0)
    busy selected_closed h b = absurd (ground arith)

-- The store that ends a binding overwrites no other change: the word is still what the binder left.
pub bind_overwrites_nothing :
    (s : System) (f : Fields) (before behind : List Fields)
    → Reachable s
    → s.binders ≡ before ++ f ∷ behind
    → f ≡ s.word
bind_overwrites_nothing s f before behind r e =
    bound_word (stage s.word.phase) (Reachable-IsSound s r).holds
  where
    bound_word : (st : Stage) → Holds st s.word s.claims s.binders s.notices → f ≡ s.word
    bound_word resting h = absurd (middle_nonempty before behind f (sym e ∙ h.1))
    bound_word binding_target h = (middle_single before behind f s.word (sym e ∙ h.1)).1
    bound_word waiting h = absurd (middle_nonempty before behind f (sym e ∙ h.1))
    bound_word (claimed_for cause) h = absurd (middle_nonempty before behind f (sym e ∙ h.0))
    bound_word (published_for cause) h = absurd (middle_nonempty before behind f (sym e ∙ h.1))
