-- ===== src/Gate/Handovers.antt =====
-- Permits that a signal hands to a waiter, and tickets that are dropped with and without a permit
-- (crates/vthread/src/sync/gate.rs).
use vthread.Prelude.{
  ℕ, ◌+◌, ◌≤◌, ◌≡◌, refl, sym, ap, subst, ◌⊎◌, inl, inr, Bool, false, Option, some, List, [], ◌∷◌,
  ◌++◌, arith, Occurs, Distinct, Distinct-middle, Occurs-inr, if◌then◌else◌, length,
}
use vthread.WaitWord.{ResourceSelection, permit, broadcast}
use vthread.Gate.{Gate, World, update, store_permit, signal_round, withdraw}
use vthread.Gate.Waits.{WaitApi}
use vthread.Gate.Protocol.{System}
use vthread.Gate.Permits.{weight, granted_to, granted_to-absent, granted_to-middle, length-middle}
use vthread.Gate.Preservation.{Holds, Holds-elsewhere, Holds-pops, Holds-grants, Holds-leaves}
use vthread.Gate.Changes.{signal_round_cases, withdraw_cases}
use vthread.Gate.Soundness.{IsSound, grant}

module _ {C : Type 0} (api : WaitApi C) where
  -- A queue that somebody stands in leaves no permit to lie.
  none_left :
      (s : System C) (i : ℕ) (rest : List ℕ)
      → IsSound api s
      → s.world.gate.entries ≡ i ∷ rest
      → s.world.gate.closed ≡ false
      → s.world.gate.available ≡ 0
  none_left s i rest h queue o = elim (h.no_idle_permit o) [
    | inl empty ↦ absurd (cc)
    | inr zero_left ↦ zero_left
  ]

  in_use :
      (s : System C) (i : ℕ)
      → IsSound api s
      → Occurs i s.world.gate.entries
      → s.world.gate.closed ≡ false
      → s.world.gate.available ≡ 0
  in_use s i h here o = elim (h.no_idle_permit o) [
    | inl empty ↦ absurd (subst (Occurs i) empty here)
    | inr zero_left ↦ zero_left
  ]

  store_permit_below :
      (g : Gate)
      → g.available + 1 ≤ g.maximum
      → store_permit g ≡ record g { available = g.available + 1 }
  unfolding store_permit
  store_permit_below g h = ground arith

  pops-IsSound :
      (s : System C) (i : ℕ) (rest : List ℕ)
      → IsSound api s
      → s.world.gate.entries ≡ i ∷ rest
      → s.world.gate.closed ≡ false
      → IsSound api
          (record s { world = record s.world { gate = record s.world.gate { entries = rest } } })
  pops-IsSound s i rest h queue open_gate = record {
    holds =
        Holds-pops api s.world.waits i s.tickets [] rest
          (subst (λ l. Holds api s.world.waits s.tickets l) queue h.holds);
    counted = h.counted;
    bounded = h.bounded;
    conserved = h.conserved;
    no_idle_permit = λ o. inr (none_left s i rest h queue open_gate);
  }

  hands-IsSound :
      (s : System C) (returning i : ℕ) (rest : List ℕ) (c : C)
      → IsSound api s
      → s.returning ≡ returning + 1
      → s.world.gate.entries ≡ i ∷ rest
      → s.world.gate.closed ≡ false
      → api.offer permit (s.world.waits i) ≡ some c
      → IsSound api (record s {
        world = record {
          gate = record s.world.gate { entries = rest };
          waits = update s.world.waits i c;
        };
        returning = returning;
      })
  hands-IsSound s returning i rest c h r queue open_gate o =
      let (before, after) = api.offer-content permit (s.world.waits i) c o in
      let line = subst (λ l. Holds api s.world.waits s.tickets l) queue h.holds in
      let popped = Holds-pops api s.world.waits i s.tickets [] rest line in
      let inside = (line.empty_handed i (inl refl)).0 in
      let one = grant api s.world.waits i c s.tickets h.holds.distinct inside before after in
      record {
        holds = Holds-grants api s.world.waits i c s.tickets rest (line.in_line).0 after popped;
        counted = h.counted;
        bounded = h.bounded;
        conserved = λ k. omega (arith, h.conserved k, one, r);
        no_idle_permit = λ k. inr (none_left s i rest h queue open_gate);
      }

  pub signals-IsSound :
      (s : System C) (returning : ℕ) (last : Bool) (w : World C)
      → IsSound api s
      → s.returning ≡ returning + 1
      → signal_round api s.world ≡ (last, w)
      → IsSound api (record s { world = w; returning = if last then returning else s.returning })
  signals-IsSound s returning last w h r e = elim (signal_round_cases api s.world w last e) [
    | inl shut ↦
        rw (shut.1, shut.2)
          (record {
            holds = h.holds;
            counted = h.counted;
            bounded = h.bounded;
            conserved = λ o. absurd (cc);
            no_idle_permit = h.no_idle_permit;
          })
    | inr (inl (open_gate, empty, ends, moved)) ↦
        let room : s.world.gate.available + 1 ≤ s.world.gate.maximum =
          omega (arith, h.conserved open_gate, r) in
        rw (ends, moved, store_permit_below s.world.gate room)
          (record {
            holds = h.holds;
            counted = h.counted;
            bounded = h.bounded;
            conserved = λ o. omega (arith, h.conserved o, r);
            no_idle_permit = λ o. inl empty;
          })
    | inr (inr (i, rest, open_gate, queue, inl (goes_on, refuses, moved))) ↦
        rw (goes_on, moved) (pops-IsSound s i rest h queue open_gate)
    | inr (inr (i, rest, open_gate, queue, inr (c, ends, o, moved))) ↦
        rw (ends, moved) (hands-IsSound s returning i rest c h r queue open_gate o)
  ]

  leaves-IsSound :
      (s : System C) (i : ℕ) (before behind entries : List ℕ)
      → IsSound api s
      → s.tickets ≡ before ++ i ∷ behind
      → Holds api s.world.waits (before ++ i ∷ behind) entries
      → (Occurs i entries → ⊥)
      → weight (api.content (s.world.waits i)) ≡ 0
      → (s.world.gate.closed ≡ false → (entries ≡ []) ⊎ (s.world.gate.available ≡ 0))
      → IsSound api (record s {
        world = record s.world { gate = record s.world.gate { entries = entries } };
        tickets = before ++ behind;
        loose = s.loose + 1;
        returning = s.returning + 0;
      })
  leaves-IsSound s i before behind entries h t whole out nothing idle =
      let rest = granted_to-middle api s.world.waits i before behind in
      let number = length-middle i before behind in
      record {
        holds = Holds-leaves api s.world.waits i before behind entries out whole;
        counted = omega (arith, h.counted, number, ap (length {A = ℕ}) t);
        bounded = h.bounded;
        conserved =
            λ o. omega (arith, h.conserved o, ap (granted_to api s.world.waits) t, rest, nothing);
        no_idle_permit = idle;
      }

  -- A ticket goes whose permit goes on.
  takes-IsSound :
      (s : System C) (i : ℕ) (before behind : List ℕ) (c : C)
      → IsSound api s
      → s.tickets ≡ before ++ i ∷ behind
      → Holds api s.world.waits (before ++ i ∷ behind) s.world.gate.entries
      → (Occurs i s.world.gate.entries → ⊥)
      → api.content (s.world.waits i) ≡ some permit
      → IsSound api (record s {
        world = record s.world { waits = update s.world.waits i c };
        tickets = before ++ behind;
        loose = s.loose + 1;
        returning = s.returning + 1;
      })
  takes-IsSound s i before behind c h t whole out had =
      let gone = (Distinct-middle i before behind whole.distinct).1 in
      let rest = granted_to-middle api s.world.waits i before behind in
      let same = granted_to-absent api s.world.waits i c (before ++ behind) gone in
      let number = length-middle i before behind in
      let one : weight (api.content (s.world.waits i)) ≡ 1 = ap weight had in
      record {
        holds =
            Holds-elsewhere api s.world.waits i c (before ++ behind) s.world.gate.entries gone
              (Holds-leaves api s.world.waits i before behind s.world.gate.entries out whole);
        counted = omega (arith, h.counted, number, ap (length {A = ℕ}) t);
        bounded = h.bounded;
        conserved =
            λ o. omega (arith, h.conserved o, ap (granted_to api s.world.waits) t, rest, same, one);
        no_idle_permit = h.no_idle_permit;
      }

  pub withdraws-IsSound :
      (s : System C) (i : ℕ) (before behind : List ℕ) (selection : Option ResourceSelection)
      (w : World C)
      → IsSound api s
      → s.tickets ≡ before ++ i ∷ behind
      → withdraw api i s.world ≡ (selection, w)
      → IsSound api (record s {
        world = w;
        tickets = before ++ behind;
        loose = s.loose + 1;
        returning = s.returning + elim selection [ some permit ↦ 1 | _ ↦ 0 ];
      })
  withdraws-IsSound s i before behind selection w h t e =
      let whole : Holds api s.world.waits (before ++ i ∷ behind) s.world.gate.entries =
        subst (λ l. Holds api s.world.waits l s.world.gate.entries) t h.holds in
      elim (withdraw_cases api i s.world w selection e) [
        | inl (first, last, nothing, queue, moved) ↦
            let here : Occurs i s.world.gate.entries =
              subst (Occurs i) (sym queue) (Occurs-inr i first (i ∷ last) (inl refl)) in
            rw (nothing, moved)
              (leaves-IsSound s i before behind (first ++ last) h t
                (Holds-pops api s.world.waits i (before ++ i ∷ behind) first last
                  (subst (λ l. Holds api s.world.waits (before ++ i ∷ behind) l) queue whole))
                (λ o. (Distinct-middle i first last (subst Distinct queue whole.in_line)).1 o)
                (ap weight (whole.empty_handed i here).1) (λ o. inr (in_use s i h here o)))
        | inr (out, inl (nothing, untaken, moved)) ↦
            rw (nothing, moved)
              (leaves-IsSound s i before behind s.world.gate.entries h t whole out
                (ap weight (api.take-none (s.world.waits i) untaken)) h.no_idle_permit)
        | inr (out, inr (c, permit, granted_one, taken, moved)) ↦
            rw (granted_one, moved)
              (takes-IsSound s i before behind c h t whole out
                (api.take-content (s.world.waits i) c permit taken).0)
        | inr (out, inr (c, broadcast, granted_one, taken, moved)) ↦ absurd (
            whole.no_broadcast i (Occurs-inr i before (i ∷ behind) (inl refl))
              (api.take-content (s.world.waits i) c broadcast taken).0)
      ]
