-- ===== src/WaitCell/Steps.antt =====
-- Every reachable state of a shared wait is sound (crates/vthread/src/wait_*.rs).
use vthread.Prelude.{
  ℕ, ◌≤◌, ◌≡◌, refl, ◌⊎◌, inl, inr, true, false, List, [], ◌∷◌, ◌++◌, returns, arith, sym, ap,
  subst, ◌∙◌,
}
use vthread.WaitWord.{WakeCause, Phase, idle, active, max_generation, claim_phase}
use vthread.WaitWord.Fields.{Fields}
use vthread.WaitCell.{Answer, exchanges, bound, request_completion, try_retire}
use vthread.WaitCell.Protocol.{
  Claim, System, start, claims_after, binders_after, Step, exchange, abandon, bind, enqueue,
  publish, Reachable, starts, steps,
}
use vthread.WaitCell.Soundness.{stage, Earlier, Newest, Holds, IsSound}
use vthread.WaitCell.Moves.{Stays, Retires, Moves}
use vthread.WaitCell.Preservation.{
  attempt-Moves, quiet_after, stay-Holds, retire-Holds, stage-claim_phase, claim-Holds, bind-Holds,
  only_claim, published, stage-published_phase,
}

-- The state after an exchange.
abbrev exchanged : System → Fields → Answer → System
exchanged s next answer = record s {
  word = next;
  claims = claims_after answer next s.claims;
  binders = binders_after answer next s.binders;
}

module _ (s : System) (next : Fields) (answer : Answer) (sound : IsSound s) where
  -- Soundness of an exchange by what it leaves to its caller.
  exchanged-IsSound :
      (p : Phase) (claims : List Claim) (binders : List Fields)
      → next.phase ≡ p
      → claims_after answer next s.claims ≡ claims
      → binders_after answer next s.binders ≡ binders
      → next.generation ≤ max_generation
      → Holds (stage p) next claims binders s.notices
      → IsSound (exchanged s next answer)
  exchanged-IsSound p claims binders e same_claims same_binders most h = record {
    bounded = most;
    ordered = sound.ordered;
    holds =
        subst (λ l. Holds (stage next.phase) next l (binders_after answer next s.binders) s.notices)
          (sym same_claims)
          (subst (λ l. Holds (stage next.phase) next claims l s.notices) (sym same_binders)
            (subst (λ q. Holds (stage q) next claims binders s.notices) (sym e) h));
  }

  held_at : (p : Phase) → s.word.phase ≡ p → Holds (stage p) s.word s.claims s.binders s.notices
  held_at p e = subst (λ q. Holds (stage q) s.word s.claims s.binders s.notices) e sound.holds

  move-IsSound : Moves s.word next answer → IsSound (exchanged s next answer)
  unfolding claims_after binders_after
  move-IsSound (Moves.stays (p, g, quiet, allowed)) =
      let (same_claims, same_binders) = quiet_after answer next s.claims s.binders quiet in
      exchanged-IsSound s.word.phase s.claims s.binders p same_claims same_binders
        (omega (arith, sound.bounded))
        (stay-Holds s.claims s.binders s.notices (stage s.word.phase) s.word next g allowed
          sound.holds)
  move-IsSound (Moves.retires (retirable, p, g, quiet)) =
      let (same_claims, same_binders) = quiet_after answer next s.claims s.binders quiet in
      exchanged-IsSound idle s.claims s.binders p same_claims same_binders
        (omega (arith, sound.bounded))
        (retire-Holds s.claims s.binders s.notices (stage s.word.phase) s.word next g retirable
          sound.holds)
  move-IsSound (Moves.begins (f, g, most, no_permit, open_wait, inl (p, a))) =
      let h = held_at idle f in
      exchanged-IsSound active s.claims s.binders p (ap (λ i. claims_after i next s.claims) a)
        (ap (λ i. binders_after i next s.binders) a) most
        (h.0, h.1, no_permit, open_wait, subst (λ k. Earlier k s.notices) (sym g) h.2)
  move-IsSound (Moves.begins (f, g, most, no_permit, open_wait, inr (p, a))) =
      let h = held_at idle f in
      exchanged-IsSound Phase.binding s.claims (next ∷ s.binders) p
        (ap (λ i. claims_after i next s.claims) a) (ap (λ i. binders_after i next s.binders) a) most
        (
          h.0,
          ap (λ (l : List Fields). next ∷ l) h.1,
          no_permit,
          open_wait,
          subst (λ k. Earlier k s.notices) (sym g) h.2,
        )
  move-IsSound (Moves.claims cause (f, p, g, permit_kept, a)) =
      let h = held_at active f in
      let no_permit : next.permit ≡ false = elim permit_kept [ inl q ↦ q | inr q ↦ q ∙ h.2 ] in
      exchanged-IsSound (claim_phase cause)
        (record { word = next; cause = cause; noticed = false } ∷ s.claims) s.binders p
        (ap (λ i. claims_after i next s.claims) a) (ap (λ i. binders_after i next s.binders) a)
        (omega (arith, sound.bounded))
        (subst
          (λ st.
            Holds st next (record { word = next; cause = cause; noticed = false } ∷ s.claims)
              s.binders s.notices)
          (sym (stage-claim_phase cause))
          (claim-Holds cause s.word next s.claims s.binders s.notices g no_permit h))

-- A change of the word alone.
worded :
    (s : System) (next : Fields) (p : Phase)
    → IsSound s
    → next.phase ≡ p
    → next.generation ≡ s.word.generation
    → Holds (stage p) next s.claims s.binders s.notices
    → IsSound (record s { word = next })
worded s next p sound e g h = record {
  bounded = omega (arith, sound.bounded);
  ordered = sound.ordered;
  holds = subst (λ q. Holds (stage q) next s.claims s.binders s.notices) (sym e) h;
}

-- The only claim once its notice is in the queue.
noticed_claim :
    (c : Claim) (before behind : List Claim)
    → before ≡ []
    → behind ≡ []
    → before ++ record c { noticed = true } ∷ behind ≡ record c { noticed = true } ∷ []
noticed_claim c before behind e f = rw (e, f) refl

no_claims : (before behind : List Claim) → before ≡ [] → behind ≡ [] → before ++ behind ≡ []
no_claims before behind e f = rw (e, f) refl

-- A claim whose notice is missing, and one whose notice is the newest.
fresh_claim :
    (c : Claim) (g : ℕ) (ns : List (ℕ × WakeCause))
    → ((c.noticed ≡ false) × Earlier g ns) ⊎ ((c.noticed ≡ true) × Newest g c.cause ns)
    → c.noticed ≡ false
    → Earlier g ns
fresh_claim c g ns (inl n) e = n.1
fresh_claim c g ns (inr n) e = absurd (cc)

sent_claim :
    (c : Claim) (g : ℕ) (ns : List (ℕ × WakeCause))
    → ((c.noticed ≡ false) × Earlier g ns) ⊎ ((c.noticed ≡ true) × Newest g c.cause ns)
    → c.noticed ≡ true
    → Newest g c.cause ns
sent_claim c g ns (inl n) e = absurd (cc)
sent_claim c g ns (inr n) e = n.1

try_retire-Moves :
    (generation : ℕ) (f next : Fields) (answer : Answer)
    → try_retire generation f ≡ returns (exchanges next answer)
    → Stays f next answer ⊎ Retires f next answer
unfolding try_retire request_completion
try_retire-Moves generation f next answer e = ground arith

Step-IsSound : (s t : System) → IsSound s → Step s t → IsSound t
unfolding bound
Step-IsSound s _ sound (exchange call next answer e) =
    move-IsSound s next answer sound (attempt-Moves call s.word next answer e)
Step-IsSound s _ sound (abandon generation next answer e) =
    elim (try_retire-Moves generation s.word next answer e) [
      | inl (p, g, quiet, allowed) ↦ worded s next s.word.phase sound p g (
          stay-Holds s.claims s.binders s.notices (stage s.word.phase) s.word next g allowed
            sound.holds)
      | inr (retirable, p, g, quiet) ↦ worded s next idle sound p g (
          retire-Holds s.claims s.binders s.notices (stage s.word.phase) s.word next g retirable
            sound.holds)
    ]
Step-IsSound s _ sound (bind fallback f before behind e) =
    let (h, g) =
      bind-Holds s.word s.notices (stage s.word.phase) f s.claims s.binders before behind fallback
        sound.holds e in
    record { bounded = omega (arith, sound.bounded); ordered = sound.ordered; holds = h }
Step-IsSound s _ sound (enqueue c before behind e fresh) =
    let (st, b, first, last, word, n) =
      only_claim s.word s.notices (stage s.word.phase) c s.claims before behind s.binders
        sound.holds e in
    let g : c.word.generation ≡ s.word.generation = ap (λ (f : Fields). f.generation) word in
    let early : Earlier s.word.generation s.notices =
      fresh_claim c s.word.generation s.notices n fresh in
    record {
      bounded = sound.bounded;
      ordered = (subst (λ k. Earlier k s.notices) (sym g) early, sound.ordered);
      holds =
          subst
            (λ i.
              Holds i s.word (before ++ record c { noticed = true } ∷ behind) s.binders
                ((c.word.generation, c.cause) ∷ s.notices))
            (sym st)
            (
              b,
              (
                record c { noticed = true },
                noticed_claim c before behind first last,
                (word, refl),
                inr (refl, (ap (λ k. (k, c.cause)) g, early)),
              ),
            );
    }
Step-IsSound s _ sound (publish c before behind signalled next e noticed run) =
    let (st, b, first, last, word, n) =
      only_claim s.word s.notices (stage s.word.phase) c s.claims before behind s.binders
        sound.holds e in
    let newest : Newest s.word.generation c.cause s.notices =
      sent_claim c s.word.generation s.notices n noticed in
    let (q, g) = published c.word s.word next signalled word run in
    record {
      bounded = omega (arith, sound.bounded);
      ordered = sound.ordered;
      holds =
          subst (λ i. Holds i next (before ++ behind) s.binders s.notices)
            (sym (stage-published_phase s.word.phase next.phase c.cause st q))
            (
              no_claims before behind first last,
              b,
              subst (λ k. Newest k c.cause s.notices) (sym g) newest,
            );
    }

start-IsSound : IsSound start
unfolding start
start-IsSound = record { bounded = omega arith; ordered = tt; holds = (refl, refl, tt) }

-- Every state that the operations can reach, in any interleaving of their exchanges.
pub Reachable-IsSound : (s : System) → Reachable s → IsSound s
Reachable-IsSound _ starts = start-IsSound
Reachable-IsSound _ (steps s t r step) = Step-IsSound s t (Reachable-IsSound s r) step
