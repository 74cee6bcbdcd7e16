-- ===== src/CarrierLoads/Selection.antt =====
-- The selected carrier accepts the task and has the least load among those that do
-- (crates/vthread/src/control_placement.rs, `select`).
use vthread.Prelude.{
  ℕ, ◌≤◌, ◌<◌, ◌≡◌, refl, ◌⊎◌, inl, inr, Bool, false, Option, some, List, [], ◌∷◌, ltb, ltb→lt,
  Outcome, returns, arith, Occurs, All, Bool-cases, subst,
}
use vthread.CarrierLoads.{load, min_loop, select_loop}

-- Reading the key of every entry returns.
abbrev pub Reads : (ℕ → Outcome ℕ) → (ℕ → ℕ) → List ℕ → Type 0
Reads key load cs = All (λ c. key c ≡ returns (load c)) cs

least_cons :
    (load : ℕ → ℕ) (P : ℕ → Type 0) (k x : ℕ) (cs : List ℕ)
    → (P x → k ≤ load x)
    → ((d : ℕ) → Occurs d cs → P d → k ≤ load d)
    → (d : ℕ) → Occurs d (x ∷ cs)
    → P d
    → k ≤ load d
least_cons load P k x cs here rest d (inl e) = subst (λ i. P i → k ≤ load i) e here
least_cons load P k x cs here rest d (inr o) = rest d o

-- An entry of the list, or the one that was best before, with the least load.
pub min_loop_lem :
    (key : ℕ → Outcome ℕ) (load : ℕ → ℕ) (best : ℕ) (cs : List ℕ)
    → Reads key load cs
    → (c : ℕ) × (min_loop key best (load best) cs ≡ returns c)
      × ((best ≡ c) ⊎ Occurs c cs)
      × (load c ≤ load best)
      × ((d : ℕ) → Occurs d cs → load c ≤ load d)
unfolding min_loop
min_loop_lem key load best [] r = (best, refl, inl refl, omega arith, λ d o. absurd o)
min_loop_lem key load best (x ∷ cs) (read, r) = elim (Bool-cases (ltb (load x) (load best))) [
  | inl e ↦
      let (c, run, from, low, least) = min_loop_lem key load x cs r in
      let less : load x < load best = ltb→lt (load x) (load best) e in
      (
        c,
        rw (read, e) run,
        inr from,
        omega arith,
        λ d o. least_cons load (λ _. Unit) (load c) x cs (λ _. low) (λ i p _. least i p) d o tt,
      )
  | inr e ↦
      let (c, run, from, low, least) = min_loop_lem key load best cs r in
      (
        c,
        rw (read, e) run,
        elim from [ inl q ↦ inl q | inr o ↦ inr (inr o) ],
        low,
        λ d o.
            least_cons load (λ _. Unit) (load c) x cs (λ _. ground arith) (λ i p _. least i p) d o
              tt,
      )
]

-- The entries that are not passed over have at least a given load.
abbrev pub AtLeast : (ℕ → ℕ) → (ℕ → Bool) → List ℕ → ℕ → Type 0
AtLeast load skips cs k = (d : ℕ) → Occurs d cs → skips d ≡ false → k ≤ load d

-- What the loop ends with: nothing lower than the minimum, or the least entry.
abbrev pub Ends : (ℕ → ℕ) → (ℕ → Bool) → ℕ → Option ℕ → List ℕ → Option ℕ → Type 0
Ends load skips minimum selected cs o =
    ((o ≡ selected) × AtLeast load skips cs minimum)
    ⊎ ((c : ℕ) × (o ≡ some c)
        × Occurs c cs
        × (skips c ≡ false)
        × (load c < minimum)
        × AtLeast load skips cs (load c))

-- One more entry before the list, which is no lower than what the loop ends with.
Ends-skip :
    (load : ℕ → ℕ) (skips : ℕ → Bool) (minimum : ℕ) (selected : Option ℕ) (x : ℕ) (cs : List ℕ)
    (o : Option ℕ)
    → (skips x ≡ false → minimum ≤ load x)
    → Ends load skips minimum selected cs o
    → Ends load skips minimum selected (x ∷ cs) o
Ends-skip load skips minimum selected x cs o high (inl (e, least)) =
    inl (e, least_cons load (λ d. skips d ≡ false) minimum x cs high least)
Ends-skip load skips minimum selected x cs o high (inr (c, e, at, kept, low, least)) = inr (
  c,
  e,
  inr at,
  kept,
  low,
  least_cons load (λ d. skips d ≡ false) (load c) x cs (λ h. omega (arith, high h)) least,
)

Ends-take :
    (load : ℕ → ℕ) (skips : ℕ → Bool) (minimum : ℕ) (selected : Option ℕ) (x : ℕ) (cs : List ℕ)
    (o : Option ℕ)
    → skips x ≡ false
    → load x < minimum
    → Ends load skips (load x) (some x) cs o
    → Ends load skips minimum selected (x ∷ cs) o
Ends-take load skips minimum selected x cs o kept low (inl (e, least)) = inr (
  x,
  e,
  inl refl,
  kept,
  low,
  least_cons load (λ d. skips d ≡ false) (load x) x cs (λ h. omega arith) least,
)
Ends-take load skips minimum selected x cs o kept low (inr (c, e, at, free, lower, least)) = inr (
  c,
  e,
  inr at,
  free,
  omega arith,
  least_cons load (λ d. skips d ≡ false) (load c) x cs (λ h. omega arith) least,
)

pub select_loop-Ends :
    (key : ℕ → Outcome ℕ) (load : ℕ → ℕ) (skips : ℕ → Bool) (minimum : ℕ) (selected : Option ℕ)
    (cs : List ℕ)
    → Reads key load cs
    → (o : Option ℕ) × (select_loop key skips minimum selected cs ≡ returns o)
      × Ends load skips minimum selected cs o
unfolding select_loop
select_loop-Ends key load skips minimum selected [] r =
    (selected, refl, inl (refl, λ d o. absurd o))
select_loop-Ends key load skips minimum selected (x ∷ cs) (read, r) = elim (Bool-cases (skips x)) [
  | inl pass ↦
      let (o, run, ends) = select_loop-Ends key load skips minimum selected cs r in
      (o, rw pass run, Ends-skip load skips minimum selected x cs o (λ h. absurd (cc)) ends)
  | inr kept ↦ elim (Bool-cases (ltb (load x) minimum)) [
    | inl low ↦
        let (o, run, ends) = select_loop-Ends key load skips (load x) (some x) cs r in
        (
          o,
          rw (kept, read, low) run,
          Ends-take load skips minimum selected x cs o kept (ltb→lt (load x) minimum low) ends,
        )
    | inr high ↦
        let (o, run, ends) = select_loop-Ends key load skips minimum selected cs r in
        (
          o,
          rw (kept, read, high) run,
          Ends-skip load skips minimum selected x cs o (λ h. ground arith) ends,
        )
  ]
]
