-- ===== src/Channel/History.antt =====
-- Whole histories of a channel whose tickets are placed (crates/vthread/src/channel/core.rs).
use vthread.Prelude.{
  ltb, true, ◌+◌, ℕ, ◌<◌, false, ◌==◌, ◌≤◌, ◌≡◌, List, [], ◌∷◌, ◌++◌, length, map, Outcome, returns,
  panics, ◌>>=◌, Bool-cases, sym, subst, arith, inl, inr,
}
use vthread.TaskKey.{usize_values}
use vthread.Channel.{
  Limits, State, Ticket, Verdict, drop_sender, drop_receiver, clone_sender, clone_receiver,
  drop_ticket, drop_entry, put_queue, queue, wake_fronts,
}
use vthread.Channel.Buffer.{
  Op, sends, receives, drops, closes, drops_sender, drops_receiver, clones_sender, clones_receiver,
  Removal, content, accepted, given, step, run, Keeps, run-Keeps,
}
use vthread.Channel.Turns.{IsPlaced}
use vthread.Channel.Progress.{IsEntered, Completes, send_round-Completes, recv_round-Completes}

-- It returns.
abbrev Returns : {A : Type 0} → Outcome A → Type 0
Returns panics = ⊥
Returns (returns a) = Unit

-- A state, the values accepted and those removed.
abbrev Logged : Type 0 → Type 0
Logged T = State T × List T × List (Removal T)

module _ {T : Type 0} where
  -- A step by a ticket that is placed, with the wait that it attached, or the drop of an endpoint that
  -- there is, or a clone that the count has room for.
  abbrev pub IsReady : Op T → State T → Type 0
  IsReady (sends blocking entered value t) s = IsPlaced t s × IsEntered entered t
  IsReady (receives blocking entered t) s = IsPlaced t s × IsEntered entered t
  IsReady (drops t) s = IsPlaced t s
  IsReady closes s = Unit
  IsReady drops_sender s = 0 < s.senders
  IsReady drops_receiver s = 0 < s.receivers
  IsReady clones_sender s = s.senders + 1 < usize_values
  IsReady clones_receiver s = s.receivers + 1 < usize_values

  -- A claim about the state after a step, if it returns.
  abbrev pub After : (State T → Type 0) → Outcome (State T × List T × List (Removal T)) → Type 0
  After P panics = Unit
  After P (returns (s, came, went)) = P s

  -- A history whose tickets are placed whenever they act, and that drops no more endpoints than there
  -- are and counts no more than a word holds.
  unfoldable pub IsPlacedRun : Limits → List (Op T) → State T → Type 0
  IsPlacedRun limits [] s = Unit
  IsPlacedRun limits (op ∷ ops) s =
      IsReady op s × After (λ s'. IsPlacedRun limits ops s') (step limits op s)

  completed :
      {A : Type 0} (o : Outcome (Verdict A × Ticket × State T × List ℕ)) (came : Verdict A → List T)
      (went : Verdict A → List (Removal T))
      → Completes o
      → Returns {A = Logged T}
          (do (verdict, t', s', woken) ← o; returns (s', came verdict, went verdict))
  unfolding Completes
  completed panics came went c = c
  completed (returns r) came went c = tt

  dropped :
      (t : Ticket) (s : State T)
      → IsPlaced t s
      → Returns {A = Logged T} (do (s', woken) ← drop_ticket t s; returns (s', [], []))
  unfolding drop_ticket
  dropped t s placed = elim (Bool-cases t.queued) [
    | inr fresh ↦
        let same : drop_ticket t s ≡ returns (s, []) = ground arith in
        subst (λ o. Returns {A = Logged T} (do (s', woken) ← o; returns (s', [], []))) (sym same) tt
    | inl held ↦
        let (i, own, o) = placed held in
        let s'' : State T = put_queue t.direction (drop_entry i (queue t.direction s)) s in
        let same : drop_ticket t s ≡ returns (s'', wake_fronts s'') = ground arith in
        subst (λ o. Returns {A = Logged T} (do (s', woken) ← o; returns (s', [], []))) (sym same) tt
  ]

  step-Returns :
      (limits : Limits) (op : Op T) (s : State T) → IsReady op s → Returns (step limits op s)
  unfolding step drop_sender drop_receiver clone_sender clone_receiver
  step-Returns limits (sends blocking entered value t) s (placed, own) =
      completed _ (λ v. accepted value v) (λ v. [])
        (send_round-Completes limits blocking entered value t s placed own)
  step-Returns limits (receives blocking entered t) s (placed, own) =
      completed _ (λ v. []) (λ v. given v)
        (recv_round-Completes limits blocking entered t s placed own)
  step-Returns limits (drops t) s placed = dropped t s placed
  step-Returns limits closes s ready = tt
  step-Returns limits drops_sender s ready =
      let there : (s.senders == 0) ≡ false = ground (arith, ready) in rw there tt
  step-Returns limits drops_receiver s ready =
      let there : (s.receivers == 0) ≡ false = ground (arith, ready) in rw there tt
  step-Returns limits clones_sender s ready =
      let room : ltb (s.senders + 1) usize_values ≡ true = ground (arith, ready) in rw room tt
  step-Returns limits clones_receiver s ready =
      let room : ltb (s.receivers + 1) usize_values ≡ true = ground (arith, ready) in rw room tt

  run-Returns :
      (limits : Limits) (ops : List (Op T)) (s : State T)
      → IsPlacedRun limits ops s
      → Returns (run limits ops s)
  unfolding run IsPlacedRun
  run-Returns limits [] s placed = tt
  run-Returns limits (op ∷ ops) s (ready, after) =
      go (step limits op s) (step-Returns limits op s ready) after
        (λ s' p. run-Returns limits ops s' p)
    where
      go :
          (o : Outcome (State T × List T × List (Removal T)))
          → Returns o
          → After (λ s'. IsPlacedRun limits ops s') o
          → ((s' : State T) → IsPlacedRun limits ops s' → Returns (run limits ops s'))
          → Returns {A = Logged T} (do
            (s', came, went) ← o
            (s'', came', went') ← run limits ops s'
            returns (s'', came ++ came', went ++ went'))
      go panics r after rest = r
      go (returns (s', came, went)) r after rest = ended (run limits ops s') (rest s' after)
        where
          ended :
              (o : Outcome (State T × List T × List (Removal T)))
              → Returns o
              → Returns {A = Logged T}
                  (do (s'', came', went') ← o; returns (s'', came ++ came', went ++ went'))
          ended panics r = r
          ended (returns _) r = tt

  -- A history that returns with its values in order and its buffer within the limit.
  abbrev pub Delivers : Limits → State T → Outcome (State T × List T × List (Removal T)) → Type 0
  Delivers limits s panics = ⊥
  Delivers limits s (returns (s', came, went)) =
      (s.values ++ came ≡ map content went ++ s'.values)
      × (length s.values ≤ limits.buffer → length s'.values ≤ limits.buffer)

  -- Any history whose tickets are placed whenever they act, that drops only endpoints that there are
  -- and clones while the count has room, runs without a panic. What the channel held and accepted is what it delivered or discarded
  -- and what it still holds, each value once and in one order; and a buffer within its limit stays
  -- within it.
  pub run-Delivers :
      (limits : Limits) (ops : List (Op T)) (s : State T)
      → IsPlacedRun limits ops s
      → Delivers limits s (run limits ops s)
  run-Delivers limits ops s placed =
      go (run limits ops s) (run-Returns limits ops s placed) (run-Keeps limits ops s)
    where
      go :
          (o : Outcome (State T × List T × List (Removal T)))
          → Returns o
          → Keeps limits s o
          → Delivers limits s o
      go panics r k = r
      go (returns (s', came, went)) r k = k
