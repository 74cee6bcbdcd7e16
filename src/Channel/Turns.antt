-- ===== src/Channel/Turns.antt =====
-- Whose turn it is (crates/vthread/src/channel/wait.rs).
use vthread.Prelude.{
  ℕ, ◌≡◌, ◌≢◌, refl, ◌⊎◌, inl, inr, Bool, true, false, Option, none, some, List, [], ◌∷◌, ◌==◌,
  returns, arith, ap, sym, ◌∙◌, Bool-cases, subst, Occurs, ==_iff,
}
use vthread.Error.{closed_error}
use vthread.Channel.{
  Limits, State, Ticket, failed, queue, put_queue, take_turn, take_front, send_round, send_decide,
  recv_round, recv_decide, recv_front,
}

module _ {T : Type 0} where
  -- A ticket that says it is queued stands in its queue, under the wait that it attached.
  abbrev pub IsPlaced : Ticket → State T → Type 0
  IsPlaced t s = t.queued ≡ true → (i : ℕ) × (t.wait ≡ some i) × Occurs i (queue t.direction s)

  -- A fresh caller, with nobody before it.
  abbrev pub Unopposed : Ticket → State T → Type 0
  Unopposed t s = (t.queued ≡ false) × (queue t.direction s ≡ [])

  -- The ticket at the front of its queue.
  abbrev pub AtFront : Ticket → State T → List ℕ → Type 0
  AtFront t s rest =
      (t.queued ≡ true) × ((i : ℕ) × (t.wait ≡ some i) × (queue t.direction s ≡ i ∷ rest))

  not_own :
      (front i : ℕ) (rest r : List ℕ) (t : Ticket) (s : State T)
      → (front == i) ≡ false
      → t.wait ≡ some i
      → queue t.direction s ≡ front ∷ rest
      → AtFront t s r
      → ⊥
  not_own front i rest r t s other w e (held, (j, w', e')) =
      let same : front ∷ rest ≡ j ∷ r = sym e ∙ e' in
      let own : some i ≡ some j = sym w ∙ w' in ground arith

  turn_cases :
      (t : Ticket) (s : State T) (q : List ℕ)
      → queue t.direction s ≡ q
      → IsPlaced t s
      → ((take_front t s q ≡ returns (true, t, s)) × Unopposed t s)
        ⊎ ((rest : List ℕ) × (take_front t s q
              ≡ returns
                  (true, record t { queued = false; wait = none }, put_queue t.direction rest s))
            × AtFront t s rest)
        ⊎ ((take_front t s q ≡ returns (false, t, s))
            × ((t.queued ≡ true) ⊎ (queue t.direction s ≢ []))
            × ((rest : List ℕ) → AtFront t s rest → ⊥))
  unfolding take_front
  turn_cases t s [] e placed = elim (Bool-cases t.queued) [
    | inl held ↦ let (i, w, o) = placed held in absurd (subst (Occurs i) e o)
    | inr fresh ↦ inl (ground arith, (fresh, e))
  ]
  turn_cases t s (front ∷ rest) e placed = elim (Bool-cases t.queued) [
    | inr fresh ↦ inr (inr (ground arith, inr (λ d. cc), λ r a. cc (a.0)))
    | inl held ↦
        let (i, w, o) = placed held in
        elim (Bool-cases (front == i)) [
          | inl own ↦ inr (
              inl (
                rest,
                ground arith,
                (held, (i, w, e ∙ ap (λ k. k ∷ rest) ((==_iff front i).0 own))),
              ))
          | inr other ↦
              inr (inr (ground arith, inl held, λ r a. not_own front i rest r t s other w e a))
        ]
  ]

  -- A queue ticket of the channel never panics, and nobody overtakes: it gets its turn exactly when it
  -- is new and its queue is empty, or when it stands at the front, and then exactly that entry leaves;
  -- otherwise neither the ticket nor the channel changes.
  pub take_turn_cases :
      (t : Ticket) (s : State T)
      → IsPlaced t s
      → ((take_turn t s ≡ returns (true, t, s)) × Unopposed t s)
        ⊎ ((rest : List ℕ) × (take_turn t s
              ≡ returns
                  (true, record t { queued = false; wait = none }, put_queue t.direction rest s))
            × AtFront t s rest)
        ⊎ ((take_turn t s ≡ returns (false, t, s))
            × ((t.queued ≡ true) ⊎ (queue t.direction s ≢ []))
            × ((rest : List ℕ) → AtFront t s rest → ⊥))
  unfolding take_turn
  take_turn_cases t s placed = turn_cases t s (queue t.direction s) refl placed

  -- After it is closed, or without receivers, a channel accepts no value whatever the ticket; a receiver
  -- on an empty channel that is closed or without senders gets the same error.
  pub closed_rounds :
      (limits : Limits) (blocking : Bool) (entered : Option ℕ) (value : T) (t : Ticket)
      (s : State T)
      → ((s.closed ≡ true) ⊎ (s.receivers ≡ 0)
          → send_round limits blocking entered value t s ≡ returns (failed closed_error, t, s, []))
        × (s.values ≡ []
            → ((s.closed ≡ true) ⊎ (s.senders ≡ 0))
            → recv_round limits blocking entered t s ≡ returns (failed closed_error, t, s, []))
  unfolding send_round send_decide recv_round recv_decide recv_front
  closed_rounds limits blocking entered value t s = (λ h. ground arith, λ e h. ground arith)
