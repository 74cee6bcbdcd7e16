-- ===== src/Channel/Progress.antt =====
-- Rounds of placed tickets do not panic (crates/vthread/src/channel/endpoints.rs, wait.rs).
use vthread.Prelude.{
  ℕ, ◌≡◌, refl, inl, inr, Bool, true, false, Option, none, some, List, [], ◌∷◌, ◌++◌, length, ◌==◌,
  if◌then◌else◌, Outcome, returns, panics, ◌>>=◌, arith, Occurs, Bool-cases, ==_refl, sym, subst,
}
use vthread.Error.{Error, capacity, waiters}
use vthread.Channel.{
  Direction, send, recv, Limits, State, Ticket, Verdict, done, failed, parks, queue, put_queue,
  take_turn, enqueue, miss, send_round, send_decide, recv_round, recv_decide, recv_front,
  wake_fronts,
}
use vthread.Channel.Turns.{IsPlaced, take_turn_cases}

-- The wait that a loop attached is its ticket's.
abbrev pub IsEntered : Option ℕ → Ticket → Type 0
IsEntered none t = Unit
IsEntered (some i) t = t.wait ≡ some i

Occurs-last : (i : ℕ) (q : List ℕ) → Occurs i (q ++ i ∷ [])
Occurs-last i [] = inl refl
Occurs-last i (j ∷ q) = inr (Occurs-last i q)

module _ {T : Type 0} where
  queue-put_queue : (d : Direction) (q : List ℕ) (s : State T) → queue d (put_queue d q s) ≡ q
  queue-put_queue send q s = refl
  queue-put_queue recv q s = refl

  -- A part of a round that returns, and leaves its ticket placed.
  abbrev Places : {A : Type 0} → Outcome (A × Ticket × State T) → Type 0
  Places panics = ⊥
  Places (returns (a, t, s)) = IsPlaced t s

  -- A round that returns, and leaves its ticket placed.
  unfoldable pub Completes : {A : Type 0} → Outcome (Verdict A × Ticket × State T × List ℕ) → Type 0
  Completes panics = ⊥
  Completes (returns (verdict, t, s, woken)) = IsPlaced t s

  enqueue-Places :
      (limits : Limits) (i : ℕ) (t : Ticket) (s : State T)
      → IsPlaced t s
      → t.wait ≡ some i
      → Places (enqueue limits i t s)
  unfolding enqueue
  enqueue-Places limits i t s placed own = elim (Bool-cases t.queued) [
    | inl held ↦
        let same : enqueue limits i t s ≡ returns (none, t, s) = ground arith in
        subst Places (sym same) placed
    | inr fresh ↦ elim (Bool-cases (length (queue t.direction s) == limits.waits)) [
      | inl full ↦
          let same : enqueue limits i t s ≡ returns (some (capacity waiters limits.waits), t, s) =
            ground (arith, ==_refl i) in
          subst Places (sym same) placed
      | inr room ↦
          let same : enqueue limits i t s
              ≡ returns (
                none,
                record t { queued = true },
                put_queue t.direction (queue t.direction s ++ i ∷ []) s,
              ) =
            ground (arith, ==_refl i) in
          subst Places (sym same) (λ h.
            (i, own, subst (Occurs i) (sym (queue-put_queue t.direction _ s)) (Occurs-last i _)))
    ]
  ]

  miss-Places :
      (A : Type 0) (limits : Limits) (blocking : Bool) (entered : Option ℕ) (t : Ticket)
      (s : State T)
      → IsPlaced t s
      → IsEntered entered t
      → Places (miss {A = A} limits blocking entered t s)
  unfolding miss
  miss-Places A limits false entered t s placed own = placed
  miss-Places A limits true none t s placed own = placed
  miss-Places A limits true (some i) t s placed own =
      go (enqueue limits i t s) (enqueue-Places limits i t s placed own)
    where
      go :
          (o : Outcome (Option Error × Ticket × State T))
          → Places o
          → Places {A = Verdict A} (do
            (refused, t', s') ← o
            returns (elim refused [ none ↦ (parks, t', s') | some e ↦ (failed e, t', s') ]))
      go panics p = p
      go (returns (none, u, r)) p = p
      go (returns (some x, u, r)) p = p

  take_turn-Places : (t : Ticket) (s : State T) → IsPlaced t s → Places (take_turn t s)
  take_turn-Places t s placed = elim (take_turn_cases t s placed) [
    | inl (same, fresh) ↦ subst Places (sym same) placed
    | inr (inl (rest, same, front)) ↦ subst Places (sym same) (λ h. absurd (cc))
    | inr (inr (same, busy, behind)) ↦ subst Places (sym same) placed
  ]

  ends_placed :
      {A : Type 0} (verdict : Verdict A) (t : Ticket) (s : State T) (woken : List ℕ)
      → IsPlaced t s
      → Completes (returns (verdict, t, s, woken))
  unfolding Completes
  ends_placed verdict t s woken placed = placed

  -- A miss with nothing to notify.
  quiet :
      {A : Type 0} (o : Outcome (Verdict A × Ticket × State T))
      → Places o
      → Completes (do (verdict, t', s') ← o; returns (verdict, t', s', []))
  unfolding Completes
  quiet panics p = p
  quiet (returns (verdict, t, s)) p = p

  queue-values :
      (d : Direction) (s : State T) (vs : List T) → queue d (record s { values = vs }) ≡ queue d s
  queue-values send s vs = refl
  queue-values recv s vs = refl

  IsPlaced-values :
      (t : Ticket) (s : State T) (vs : List T)
      → IsPlaced t s
      → IsPlaced t (record s { values = vs })
  IsPlaced-values t s vs placed h =
      let (i, w, o) = placed h in (i, w, subst (Occurs i) (sym (queue-values t.direction s vs)) o)

  -- Both ends of a test on the way.
  if-Completes :
      {A : Type 0} (b : Bool) (x y : Outcome (Verdict A × Ticket × State T × List ℕ))
      → Completes x
      → Completes y
      → Completes (if b then x else y)
  if-Completes true x y p q = p
  if-Completes false x y p q = q

  send_turn :
      (value : T) (turn : Outcome (Bool × Ticket × State T))
      (waits : Outcome (Verdict (Unit {0}) × Ticket × State T × List ℕ))
      → Places turn
      → Completes waits
      → Completes (do
        (taken, t', s') ← turn
        let pushed = record s' { values = s'.values ++ value ∷ [] }
        if taken then returns (done tt, t', pushed, wake_fronts pushed) else waits)
  send_turn value panics waits p q = absurd p
  send_turn value (returns (taken, t, s)) waits p q =
      if-Completes taken _ waits (ends_placed _ _ _ _ (IsPlaced-values t s _ p)) q

  recv_turn :
      (values : List T) (turn : Outcome (Bool × Ticket × State T))
      (refused : Outcome (Verdict T × Ticket × State T × List ℕ))
      → Places turn
      → Completes refused
      → Completes (recv_front values turn refused)
  unfolding recv_front
  recv_turn [] turn refused p q = q
  recv_turn (value ∷ rest) panics refused p q = absurd p
  recv_turn (value ∷ rest) (returns (taken, t, s)) refused p q =
      if-Completes taken _ refused (ends_placed _ _ _ _ (IsPlaced-values t s rest p)) q

  -- A send round by a placed ticket, with the wait that it attached if any, never panics, and the
  -- ticket is placed afterwards.
  pub send_round-Completes :
      (limits : Limits) (blocking : Bool) (entered : Option ℕ) (value : T) (t : Ticket)
      (s : State T)
      → IsPlaced t s
      → IsEntered entered t
      → Completes (send_round limits blocking entered value t s)
  unfolding send_round send_decide
  send_round-Completes limits blocking entered value t s placed own =
      if-Completes _ _ _ (ends_placed _ _ _ _ placed)
        (if-Completes _ _ _ (send_turn value _ _ (take_turn-Places t s placed) waits) waits)
    where
      waits :
          Completes {A = Unit {0}}
            (do (verdict, t', s') ← miss limits blocking entered t s; returns (verdict, t', s', []))
      waits = quiet _ (miss-Places (Unit {0}) limits blocking entered t s placed own)

  -- So does a receive round.
  pub recv_round-Completes :
      (limits : Limits) (blocking : Bool) (entered : Option ℕ) (t : Ticket) (s : State T)
      → IsPlaced t s
      → IsEntered entered t
      → Completes (recv_round limits blocking entered t s)
  unfolding recv_round recv_decide
  recv_round-Completes limits blocking entered t s placed own =
      recv_turn s.values _ _ (take_turn-Places t s placed) (
        if-Completes _ _ _ (ends_placed _ _ _ _ placed)
          (quiet _ (miss-Places T limits blocking entered t s placed own)))
