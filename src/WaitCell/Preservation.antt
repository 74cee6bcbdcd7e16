-- ===== src/WaitCell/Preservation.antt =====
-- Every step of a shared wait keeps its invariant (crates/vthread/src/wait_*.rs).
use vthread.Prelude.{
  ℕ, ◌%◌, ◌^◌, ◌+◌, ◌≤◌, ◌≡◌, ◌≢◌, refl, ◌⊎◌, inl, inr, Bool, true, false, List, [], ◌∷◌, ◌++◌,
  rest_of, returns, arith, sym, ap, subst, ◌∙◌,
}
use vthread.WaitWord.{WakeCause, ready, closed, Phase, claim_phase, published_phase}
use vthread.WaitWord.Fields.{Fields}
use vthread.WaitCell.{Answer, exchanges, bound, publish_claim}
use vthread.WaitCell.Protocol.{
  Call, begins, notifies, closes, takes_resource, recycles, resets, selects_current,
  selects_generation, offers, finishes, finishes_permit, finishes_permit_ready, retires, asks,
  finishes_ready, attempt, Claim, claims_after, binders_after,
}
use vthread.WaitCell.Soundness.{
  Stage, resting, binding_target, waiting, claimed_for, published_for, stage, Earlier, Newest,
  Holds,
}
use vthread.WaitCell.Moves.{
  is_quiet, Allowed, Retirable, Moves, begin-Moves, notify-Moves, select_current-Claims,
  select_generation-Claims, close-Moves, claim_resource-Moves, take_resource-Stays, recycle-Stays,
  reset_closed_gate-Stays, finish-Retires, finish_permit-Retires, retire-Retires, publication-Stays,
}
use vthread.WaitCell.FastPaths.{finish_ready_cases, finish_permit_ready_cases}

pub attempt-Moves :
    (call : Call) (f next : Fields) (answer : Answer)
    → attempt call f ≡ exchanges next answer
    → Moves f next answer
unfolding attempt
attempt-Moves (begins late cached) f next answer e =
    elim (begin-Moves late cached f next answer e) [
      | inl m ↦ Moves.stays m
      | inr m ↦ Moves.begins m
    ]
attempt-Moves notifies f next answer e = elim (notify-Moves f next answer e) [
  | inl m ↦ Moves.stays m
  | inr m ↦ Moves.claims ready m
]
attempt-Moves closes f next answer e = elim (close-Moves f next answer e) [
  | inl m ↦ Moves.stays m
  | inr m ↦ Moves.claims closed m
]
attempt-Moves takes_resource f next answer e = Moves.stays (take_resource-Stays f next answer e)
attempt-Moves recycles f next answer e = Moves.stays (recycle-Stays f next answer e)
attempt-Moves resets f next answer e = Moves.stays (reset_closed_gate-Stays f next answer e)
attempt-Moves (selects_current cause) f next answer e =
    Moves.claims cause (select_current-Claims cause f next answer e)
attempt-Moves (selects_generation generation cause) f next answer e =
    Moves.claims cause (select_generation-Claims generation cause f next answer e)
attempt-Moves (offers selection) f next answer e =
    elim (claim_resource-Moves selection f next answer e) [
      | inl m ↦ Moves.stays m
      | inr m ↦ Moves.claims ready m
    ]
attempt-Moves (finishes generation) f next answer e =
    Moves.retires (finish-Retires generation f next answer e)
attempt-Moves (finishes_permit generation) f next answer e =
    Moves.retires (finish_permit-Retires generation f next answer e)
attempt-Moves (finishes_permit_ready generation) f next answer e =
    Moves.retires (elim (finish_permit_ready_cases generation f) [
      | inl same ↦ finish_permit-Retires generation f next answer (sym same ∙ e)
      | inr low ↦ finish_permit-Retires (generation % 2 ^ 55) f next answer (sym low ∙ e)
    ])
attempt-Moves (finishes_ready generation resource) f next answer e =
    Moves.retires (elim (finish_ready_cases generation resource f) [
      | inl same ↦ finish-Retires generation f next answer (sym same ∙ e)
      | inr low ↦ finish-Retires (generation % 2 ^ 55) f next answer (sym low ∙ e)
    ])
attempt-Moves (retires generation) f next answer e =
    Moves.retires (retire-Retires generation f next answer e)
attempt-Moves (asks generation) f next answer e =
    Moves.stays (publication-Stays generation f next answer e)

pub quiet_after :
    (answer : Answer) (next : Fields) (claims : List Claim) (binders : List Fields)
    → is_quiet answer ≡ true
    → (claims_after answer next claims ≡ claims) × (binders_after answer next binders ≡ binders)
unfolding claims_after binders_after
quiet_after answer next claims binders q = ground arith

-- A later bound on the notices.
Earlier-later : (g k : ℕ) (ns : List (ℕ × WakeCause)) → g ≤ k → Earlier g ns → Earlier k ns
Earlier-later g k [] h e = tt
Earlier-later g k ((i, cause) ∷ ns) h e = (omega (arith, e.0), Earlier-later g k ns h e.1)

Newest-Earlier :
    (g : ℕ) (cause : WakeCause) (ns : List (ℕ × WakeCause)) → Newest g cause ns → Earlier (g + 1) ns
Newest-Earlier g cause [] n = absurd n
Newest-Earlier g cause ((i, c) ∷ ns) n =
    let same : i ≡ g = ap (λ (p : ℕ × WakeCause). p.0) n.0 in
    (omega arith, Earlier-later g (g + 1) ns (omega arith) n.1)

module _ (claims : List Claim) (binders : List Fields) (ns : List (ℕ × WakeCause)) where
  pub stay-Holds :
      (st : Stage) (f next : Fields)
      → next.generation ≡ f.generation
      → Allowed st f next
      → Holds st f claims binders ns
      → Holds st next claims binders ns
  stay-Holds resting f next g a h = (h.0, h.1, subst (λ k. Earlier (k + 1) ns) (sym g) h.2)
  stay-Holds binding_target f next g a h = absurd a
  stay-Holds waiting f next g a h =
      (h.0, h.1, a.0 ∙ h.2, a.1 ∙ h.3, subst (λ k. Earlier k ns) (sym g) h.4)
  stay-Holds (claimed_for cause) f next g a (b, (c, e, (w, same), n)) = (
    b,
    (
      c,
      e,
      (w ∙ sym (ap (λ (k : Fields). record k { permit = false }) a), same),
      subst (λ k. ((c.noticed ≡ false) × Earlier k ns) ⊎ ((c.noticed ≡ true) × Newest k cause ns))
          (sym g) n,
    ),
  )
  stay-Holds (published_for cause) f next g a h =
      (h.0, h.1, subst (λ k. Newest k cause ns) (sym g) h.2)

  pub retire-Holds :
      (st : Stage) (f next : Fields)
      → next.generation ≡ f.generation
      → Retirable st
      → Holds st f claims binders ns
      → Holds resting next claims binders ns
  retire-Holds resting f next g a h = absurd a
  retire-Holds binding_target f next g a h = absurd a
  retire-Holds waiting f next g a h = (
    h.0,
    h.1,
    subst (λ k. Earlier (k + 1) ns) (sym g)
        (Earlier-later f.generation (f.generation + 1) ns (omega arith) h.4),
  )
  retire-Holds (claimed_for cause) f next g a h = absurd a
  retire-Holds (published_for cause) f next g a h =
      (h.0, h.1, subst (λ k. Earlier (k + 1) ns) (sym g) (Newest-Earlier f.generation cause ns h.2))

pub stage-claim_phase : (cause : WakeCause) → stage (claim_phase cause) ≡ claimed_for cause
stage-claim_phase cause = ground arith

without_permit : (f : Fields) → f.permit ≡ false → f ≡ record f { permit = false }
without_permit f h = ground arith

pub claim-Holds :
    (cause : WakeCause) (f next : Fields) (claims : List Claim) (binders : List Fields)
    (ns : List (ℕ × WakeCause))
    → next.generation ≡ f.generation
    → next.permit ≡ false
    → Holds waiting f claims binders ns
    → Holds
        (claimed_for cause)
        next
        (record { word = next; cause = cause; noticed = false } ∷ claims)
        binders
        ns
claim-Holds cause f next claims binders ns g p h = (
  h.1,
  (
    record { word = next; cause = cause; noticed = false },
    ap (λ (l : List Claim). record { word = next; cause = cause; noticed = false } ∷ l) h.0,
    (without_permit next p, refl),
    inl (refl, subst (λ k. Earlier k ns) (sym g) h.4),
  ),
)

module _ {A : Type 0} where
  pub middle_nonempty : (before behind : List A) (x : A) → before ++ x ∷ behind ≢ []
  middle_nonempty [] behind x e = cc
  middle_nonempty (y ∷ before) behind x e = cc

  pub middle_single :
      (before behind : List A) (x y : A)
      → before ++ x ∷ behind ≡ y ∷ []
      → (before ≡ []) × (x ≡ y) × (behind ≡ [])
  middle_single [] behind x y e = (refl, cc, cc)
  middle_single (z ∷ before) behind x y e = absurd (middle_nonempty before behind x (ap rest_of e))

module _ (w : Fields) (ns : List (ℕ × WakeCause)) where
  pub bind-Holds :
      (st : Stage) (f : Fields) (claims : List Claim) (binders before behind : List Fields)
      (fallback : Bool)
      → Holds st w claims binders ns
      → binders ≡ before ++ f ∷ behind
      → Holds waiting (bound fallback f) claims (before ++ behind) ns
        × ((bound fallback f).generation ≡ w.generation)
  unfolding bound
  bind-Holds resting f claims binders before behind fallback h e =
      absurd (middle_nonempty before behind f (sym e ∙ h.1))
  bind-Holds waiting f claims binders before behind fallback h e =
      absurd (middle_nonempty before behind f (sym e ∙ h.1))
  bind-Holds (claimed_for cause) f claims binders before behind fallback h e =
      absurd (middle_nonempty before behind f (sym e ∙ h.0))
  bind-Holds (published_for cause) f claims binders before behind fallback h e =
      absurd (middle_nonempty before behind f (sym e ∙ h.1))
  bind-Holds binding_target f claims binders before behind fallback h e =
      let (first, same, last) = middle_single before behind f w (sym e ∙ h.1) in
      (
        (
          h.0,
          rw (first, last) refl,
          ap (λ (k : Fields). k.permit) same ∙ h.2,
          ap (λ (k : Fields). k.closed) same ∙ h.3,
          subst (λ (k : Fields). Earlier k.generation ns) (sym same) h.4,
        ),
        ap (λ (k : Fields). k.generation) same,
      )

  -- A claim that exists is the only one, and the word is at its stage.
  pub only_claim :
      (st : Stage) (c : Claim) (claims before behind : List Claim) (binders : List Fields)
      → Holds st w claims binders ns
      → claims ≡ before ++ c ∷ behind
      → (st ≡ claimed_for c.cause)
        × (binders ≡ [])
        × (before ≡ [])
        × (behind ≡ [])
        × (c.word ≡ record w { permit = false })
        × (((c.noticed ≡ false) × Earlier w.generation ns)
            ⊎ ((c.noticed ≡ true) × Newest w.generation c.cause ns))
  only_claim resting c claims before behind binders h e =
      absurd (middle_nonempty before behind c (sym e ∙ h.0))
  only_claim binding_target c claims before behind binders h e =
      absurd (middle_nonempty before behind c (sym e ∙ h.0))
  only_claim waiting c claims before behind binders h e =
      absurd (middle_nonempty before behind c (sym e ∙ h.0))
  only_claim (published_for cause) c claims before behind binders h e =
      absurd (middle_nonempty before behind c (sym e ∙ h.0))
  only_claim (claimed_for cause) c claims before behind binders (b, (d, k, (word, own), n)) e =
      let (first, same, last) = middle_single before behind c d (sym e ∙ k) in
      let cause_same : c.cause ≡ cause = ap (λ (i : Claim). i.cause) same ∙ own in
      (
        ap claimed_for (sym cause_same),
        b,
        first,
        last,
        ap (λ (i : Claim). i.word) same ∙ word,
        subst
            (λ i.
              ((c.noticed ≡ false) × Earlier w.generation ns)
              ⊎ ((c.noticed ≡ true) × Newest w.generation i ns))
            (sym cause_same)
            (subst
              (λ (i : Claim).
                ((i.noticed ≡ false) × Earlier w.generation ns)
                ⊎ ((i.noticed ≡ true) × Newest w.generation cause ns))
              (sym same) n),
      )

pub published :
    (claimed w next : Fields) (signalled : Bool)
    → claimed ≡ record w { permit = false }
    → publish_claim claimed w ≡ returns (signalled, next)
    → (published_phase w.phase ≡ returns next.phase) × (next.generation ≡ w.generation)
unfolding publish_claim
published claimed w next signalled e run = ground arith

pub stage-published_phase :
    (p q : Phase) (cause : WakeCause)
    → stage p ≡ claimed_for cause
    → published_phase p ≡ returns q
    → stage q ≡ published_for cause
stage-published_phase p q cause e r = ground arith
