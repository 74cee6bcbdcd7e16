-- ===== src/Gate/Changes.antt =====
-- What every operation of a gate does to its counters (crates/vthread/src/sync/gate.rs).
use vthread.Prelude.{
  ℕ, ◌-◌, ◌≤◌, ◌≡◌, refl, ap, subst, ◌∙◌, ◌⊎◌, inl, inr, Bool, true, false, Option, none, some,
  List, [], ◌∷◌, ◌++◌, arith, Bool-cases, Option-cases, List-cases, ==_iff, ◌==◌, Occurs, returns,
  position, remove_at, position-Found, Found, Nowhere,
}
use vthread.Error.{Error}
use vthread.WaitWord.{ResourceSelection, permit}
use vthread.Gate.{
  granted, refused, World, update, try_take, release, store_permit, register, signal_round, collect,
  withdraw, close_all,
}
use vthread.Gate.Waits.{WaitApi}
use vthread.Gate.Preservation.{content-update_self}

Nowhere-absent : (i : ℕ) (is : List ℕ) → Nowhere (λ j. j == i) is → Occurs i is → ⊥
Nowhere-absent i [] n o = o
Nowhere-absent i (j ∷ is) n (inl e) = ground (arith, n.0)
Nowhere-absent i (j ∷ is) n (inr o) = Nowhere-absent i is n.1 o

module _ {C : Type 0} (api : WaitApi C) where
  -- A registration that is granted has queued the ticket or granted it a permit at once.
  pub register-granted :
      (i : ℕ) (w v : World C)
      → register api i w ≡ returns (granted, v)
      → (w.gate.closed ≡ false)
        × (((w.gate.available ≡ 0)
              × (v ≡ record w { gate = record w.gate { entries = w.gate.entries ++ i ∷ [] } }))
            ⊎ ((c : C) × (1 ≤ w.gate.available)
                × (api.offer permit (w.waits i) ≡ some c)
                × (v ≡ record {
                  gate = record w.gate { available = w.gate.available - 1 };
                  waits = update w.waits i c;
                })))
  unfolding register try_take release
  register-granted i w v e = elim (Option-cases (api.offer permit (w.waits i))) [
    | inl o ↦
        let closed : w.gate.closed ≡ false = ground arith in
        let empty : w.gate.available ≡ 0 = ground arith in (closed, inl (empty, ground arith))
    | inr (c, o) ↦ elim (Bool-cases (w.gate.available == 0)) [
      | inl z ↦
          let closed : w.gate.closed ≡ false = ground arith in
          let empty : w.gate.available ≡ 0 = ground arith in (closed, inl (empty, ground arith))
      | inr nz ↦
          let closed : w.gate.closed ≡ false = ground arith in
          (closed, inr (c, ground arith, o, ground arith))
    ]
  ]

  pub register-refused :
      (i : ℕ) (w v : World C) (x : Error)
      → register api i w ≡ returns (refused x, v)
      → (w.gate.closed ≡ false → w.gate.available ≤ w.gate.maximum)
      → v ≡ record w { gate = record w.gate { outstanding = w.gate.outstanding - 1 } }
  unfolding register try_take release store_permit
  register-refused i w v x e most = ground arith

  pub signal_round_cases :
      (w v : World C) (last : Bool)
      → signal_round api w ≡ (last, v)
      → ((w.gate.closed ≡ true) × (last ≡ true) × (v ≡ w))
        ⊎ ((w.gate.closed ≡ false)
            × (w.gate.entries ≡ [])
            × (last ≡ true)
            × (v ≡ record w { gate = store_permit w.gate }))
        ⊎ ((i : ℕ) × (rest : List ℕ) × (w.gate.closed ≡ false)
            × (w.gate.entries ≡ i ∷ rest)
            × (((last ≡ false)
                  × (api.offer permit (w.waits i) ≡ none)
                  × (v ≡ record w { gate = record w.gate { entries = rest } }))
                ⊎ ((c : C) × (last ≡ true)
                    × (api.offer permit (w.waits i) ≡ some c)
                    × (v ≡ record {
                      gate = record w.gate { entries = rest };
                      waits = update w.waits i c;
                    }))))
  unfolding signal_round
  signal_round_cases w v last e = elim (Bool-cases w.gate.closed) [
    | inl shut ↦ inl (shut, ground arith, ground arith)
    | inr open_gate ↦ elim (List-cases w.gate.entries) [
      | inl none_waits ↦ inr (inl (open_gate, none_waits, ground arith, ground arith))
      | inr (i, rest, queue) ↦ elim (Option-cases (api.offer permit (w.waits i))) [
        | inl o ↦ inr (inr (i, rest, open_gate, queue, inl (ground arith, o, ground arith)))
        | inr (c, o) ↦ inr (inr (i, rest, open_gate, queue, inr (c, ground arith, o, ground arith)))
      ]
    ]
  ]

  pub collect_cases :
      (i : ℕ) (w v : World C)
      → collect api i w ≡ some (granted, v)
      → (c : C) × (r : ResourceSelection) × (w.gate.closed ≡ false)
        × (api.take (w.waits i) ≡ some (c, r))
        × (v ≡ record w { waits = update w.waits i c })
  unfolding collect
  collect_cases i w v e = elim (Option-cases (api.take (w.waits i))) [
    | inl o ↦ absurd (ground arith)
    | inr ((c, r), o) ↦ (c, r, ground arith, o, ground arith)
  ]

  -- A ticket that is dropped leaves the queue, or leaves what it was granted.
  pub withdraw_cases :
      (i : ℕ) (w v : World C) (selection : Option ResourceSelection)
      → withdraw api i w ≡ (selection, v)
      → ((before : List ℕ) × (behind : List ℕ) × (selection ≡ none)
          × (w.gate.entries ≡ before ++ i ∷ behind)
          × (v ≡ record w { gate = record w.gate { entries = before ++ behind } }))
        ⊎ ((Occurs i w.gate.entries → ⊥)
            × (((selection ≡ none) × (api.take (w.waits i) ≡ none) × (v ≡ w))
                ⊎ ((c : C) × (r : ResourceSelection) × (selection ≡ some r)
                    × (api.take (w.waits i) ≡ some (c, r))
                    × (v ≡ record w { waits = update w.waits i c }))))
  unfolding withdraw
  withdraw_cases i w v selection e = elim (Option-cases (position (λ j. j == i) w.gate.entries)) [
    | inl away ↦
        let out : Occurs i w.gate.entries → ⊥ = Nowhere-absent i w.gate.entries (
          subst (λ o. Found (λ j. j == i) w.gate.entries o) away
            (position-Found (λ j. j == i) w.gate.entries)) in
        elim (Option-cases (api.take (w.waits i))) [
          | inl o ↦ inr (out, inl (ground arith, o, ground arith))
          | inr ((c, r), o) ↦ inr (out, inr (c, r, ground arith, o, ground arith))
        ]
    | inr (index, here) ↦
        let (a, pass, at, removed) =
          subst (λ o. Found (λ j. j == i) w.gate.entries o) here
            (position-Found (λ j. j == i) w.gate.entries) in
        let same : a ≡ i = (==_iff a i).0 pass in
        let moved : v
            ≡ record w { gate = record w.gate { entries = remove_at index w.gate.entries } } =
          ground arith in
        inl (
          removed.before,
          removed.behind,
          ground arith,
          removed.whole ∙ ap (λ k. removed.before ++ k ∷ removed.behind) same,
          moved ∙ ap (λ l. record w { gate = record w.gate { entries = l } }) removed.left,
        )
  ]

  pub close_all-content :
      (is : List ℕ) (waits : ℕ → C) (j : ℕ)
      → api.content (close_all api is waits j) ≡ api.content (waits j)
  close_all-content [] waits j = refl
  close_all-content (i ∷ is) waits j =
      close_all-content is (update waits i (api.close (waits i))) j
      ∙ content-update_self api waits i (api.close (waits i)) (api.close-content (waits i)) j
