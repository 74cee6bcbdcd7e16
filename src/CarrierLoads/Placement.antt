-- ===== src/CarrierLoads/Placement.antt =====
-- Placement never panics and takes the least loaded carrier that can accept
-- (crates/vthread/src/control_placement.rs, `select`).
use native.Mathlib.Decide.{ℕ_discrete}
use native.Mathlib.Nat.{mod-lt}
use vthread.Prelude.{
  ℕ, zero, suc, ◌+◌, ◌-◌, ◌%◌, ◌^◌, ◌≤◌, ◌<◌, ◌≡◌, ◌≢◌, refl, inl, inr, Bool, true, false, not,
  ◌||◌, Option, none, some, List, [], ◌∷◌, length, get_elem?, get_or, set, ◌==◌, Outcome, returns,
  arith, Occurs, All, Bool-cases, subst, sym, ap, ◌∙◌, length-set, ==_iff,
}
use vthread.TaskKey.{usize_values}
use vthread.CarrierLoads.{
  CarrierLoads, difference, load, cached_load, rotation, min_by_key, observe, select,
}
use vthread.CarrierLoads.Rotation.{rotated, rotation-rotated, rotation_below, rotation_visits}
use vthread.CarrierLoads.Selection.{Reads, min_loop_lem, Ends, select_loop-Ends}

get_elem?-get_or : (xs : List ℕ) (i : ℕ) → i < length xs → get_elem? xs i ≡ some (get_or xs i 0)
get_elem?-get_or [] i h = absurd (omega arith)
get_elem?-get_or (x ∷ xs) zero h = refl
get_elem?-get_or (x ∷ xs) (suc i) h = get_elem?-get_or xs i (omega arith)

get_or-set_self : (xs : List ℕ) (i v : ℕ) → i < length xs → get_or (set xs i v) i 0 ≡ v
get_or-set_self [] i v h = absurd (omega arith)
get_or-set_self (x ∷ xs) zero v h = refl
get_or-set_self (x ∷ xs) (suc i) v h = get_or-set_self xs i v (omega arith)

get_or-set_ne : (xs : List ℕ) (i j v : ℕ) → i ≢ j → get_or (set xs i v) j 0 ≡ get_or xs j 0
get_or-set_ne [] i j v h = refl
get_or-set_ne (x ∷ xs) zero zero v h = absurd (h refl)
get_or-set_ne (x ∷ xs) zero (suc j) v h = refl
get_or-set_ne (x ∷ xs) (suc i) zero v h = refl
get_or-set_ne (x ∷ xs) (suc i) (suc j) v h = get_or-set_ne xs i j v (λ e. h (ap suc e))

-- The tasks of a carrier that are not known to be retired.
abbrev pub loads : CarrierLoads → ℕ → ℕ
loads l c = get_or l.assigned c 0 - get_or l.observed_retired c 0

-- There are carriers, with both totals each; no more retired than assigned tasks are known, and no
-- count is at the end of its range.
pub record IsValid (l : CarrierLoads) : Type 0 where
  pub some_carrier : 0 < length l.assigned
  pub same : length l.observed_retired ≡ length l.assigned
  pub probing : l.probe < length l.assigned
  pub covered :
      (c : ℕ) → c < length l.assigned → get_or l.observed_retired c 0 ≤ get_or l.assigned c 0
  pub counts : (c : ℕ) → c < length l.assigned → get_or l.assigned c 0 < 2 ^ 64 - 1

-- The counter of the probed carrier has not gone back and is covered by its assignments.
pub record IsCurrent (retired : ℕ → ℕ) (l : CarrierLoads) : Type 0 where
  pub forward : get_or l.observed_retired l.probe 0 ≤ retired l.probe
  pub covered : retired l.probe ≤ get_or l.assigned l.probe 0

cached_load_lem :
    (c : ℕ) (l : CarrierLoads)
    → IsValid l
    → c < length l.assigned
    → cached_load c l ≡ returns (loads l c)
unfolding cached_load load
cached_load_lem c l v h =
    rw
      (
        get_elem?-get_or l.observed_retired c (omega (arith, v.same)),
        get_elem?-get_or l.assigned c h,
      )
      (fits (get_or l.assigned c 0) (get_or l.observed_retired c 0) (v.covered c h))
  where
    fits : (a b : ℕ) → b ≤ a → difference a b ≡ returns (a - b)
    fits a b h = ground arith

-- The state after the probe.
abbrev observed : (ℕ → ℕ) → CarrierLoads → CarrierLoads
observed retired l = record l {
  observed_retired = set l.observed_retired l.probe (retired l.probe);
  probe = (l.probe + 1) % length l.assigned;
}

observe_lem :
    (retired : ℕ → ℕ) (l : CarrierLoads)
    → IsValid l
    → IsCurrent retired l
    → observe retired l ≡ returns (observed retired l)
unfolding observe
observe_lem retired l v current =
    let here : get_elem? l.observed_retired l.probe ≡ some (get_or l.observed_retired l.probe 0) =
      get_elem?-get_or l.observed_retired l.probe (omega (arith, v.same, v.probing)) in
    ground (arith, here, current.forward)

observed-IsValid :
    (retired : ℕ → ℕ) (l : CarrierLoads)
    → IsValid l
    → IsCurrent retired l
    → IsValid (observed retired l)
observed-IsValid retired l v current = record {
  some_carrier = v.some_carrier;
  same = length-set l.observed_retired l.probe (retired l.probe) ∙ v.same;
  probing = mod-lt (l.probe + 1) v.some_carrier;
  covered = λ c h. elim (ℕ_discrete l.probe c) [
    | yes e ↦
        subst
          (λ i.
            get_or (set l.observed_retired l.probe (retired l.probe)) i 0 ≤ get_or l.assigned i 0)
          e
          (omega (
            arith,
            get_or-set_self l.observed_retired l.probe (retired l.probe)
                (omega (arith, v.same, v.probing)),
            current.covered,
          ))
    | no e ↦
        omega (arith, get_or-set_ne l.observed_retired l.probe c (retired l.probe) e, v.covered c h)
  ];
  counts = v.counts;
}

-- The outcome of a placement: the least loaded of the accepting carriers, if there is one.
abbrev pub Selects : (ℕ → Bool) → CarrierLoads → Option ℕ → Type 0
Selects can_accept l none = (c : ℕ) → c < length l.assigned → can_accept c ≡ false
Selects can_accept l (some c) =
    (can_accept c ≡ true)
    × ((d : ℕ) → d < length l.assigned → can_accept d ≡ true → loads l c ≤ loads l d)

Reads-rotation :
    (l : CarrierLoads) (cs : List ℕ)
    → IsValid l
    → All (λ c. c < length l.assigned) cs
    → Reads (λ c. cached_load c l) (loads l) cs
Reads-rotation l [] v below = tt
Reads-rotation l (c ∷ cs) v (h, below) = (cached_load_lem c l v h, Reads-rotation l cs v below)

min_by_key_lem :
    (key : ℕ → Outcome ℕ) (load : ℕ → ℕ) (cs : List ℕ) (x : ℕ)
    → Reads key load cs
    → Occurs x cs
    → (c : ℕ) × (min_by_key key cs ≡ returns (some c)) × ((d : ℕ) → Occurs d cs → load c ≤ load d)
unfolding min_by_key
min_by_key_lem key load [] x r o = absurd o
min_by_key_lem key load (b ∷ cs) x (read, r) o =
    let (c, run, from, low, least) = min_loop_lem key load b cs r in
    (
      c,
      rw (read, run) refl,
      λ d o. elim o [ inl e ↦ subst (λ i. load c ≤ load i) e low | inr at ↦ least d at ],
    )

-- What the loop passes over after the candidate has refused.
abbrev passed : ℕ → (ℕ → Bool) → ℕ → Bool
passed candidate can_accept c = c == candidate || not (can_accept c)

passed-accepting :
    (candidate : ℕ) (can_accept : ℕ → Bool) (d : ℕ)
    → can_accept candidate ≡ false
    → can_accept d ≡ true
    → passed candidate can_accept d ≡ false
passed-accepting candidate can_accept d refused accepts = elim (Bool-cases (d == candidate)) [
  | inl e ↦
      let same : d ≡ candidate = (==_iff d candidate).0 e in
      absurd (cc (refused, accepts, ap can_accept same))
  | inr e ↦ rw (e, accepts) refl
]

accepting-passed :
    (candidate : ℕ) (can_accept : ℕ → Bool) (d : ℕ)
    → passed candidate can_accept d ≡ false
    → can_accept d ≡ true
accepting-passed candidate can_accept d h = ground arith

-- The second round: no carrier accepts, or the least loaded one that does.
second_round :
    (l : CarrierLoads) (cs : List ℕ) (candidate : ℕ) (can_accept : ℕ → Bool) (o : Option ℕ)
    → IsValid l
    → ((d : ℕ) → d < length l.assigned → Occurs d cs)
    → can_accept candidate ≡ false
    → Ends (loads l) (passed candidate can_accept) (2 ^ 64 - 1) none cs o
    → Selects can_accept l o
second_round l cs candidate can_accept o v visits refused (inl (e, least)) =
    subst (Selects can_accept l) (sym e) none_accepts
  where
    none_accepts : (c : ℕ) → c < length l.assigned → can_accept c ≡ false
    none_accepts c h = elim (Bool-cases (can_accept c)) [
      | inr refuses ↦ refuses
      | inl accepts ↦ absurd (
          omega (
            arith,
            least c (visits c h) (passed-accepting candidate can_accept c refused accepts),
            v.counts c h,
          ))
    ]
second_round l cs candidate can_accept o v visits refused (inr (c, e, at, kept, low, least)) =
    subst (Selects can_accept l) (sym e) (
      accepting-passed candidate can_accept c kept,
      λ d h accepts. least d (visits d h) (passed-accepting candidate can_accept d refused accepts),
    )

-- What a placement does to the totals: the probed carrier's retirements are known, all other totals
-- stay, and the next probe is that of the next carrier.
pub record Probed (retired : ℕ → ℕ) (l l' : CarrierLoads) : Type 0 where
  pub assigned : l'.assigned ≡ l.assigned
  pub known : get_or l'.observed_retired l.probe 0 ≡ retired l.probe
  pub kept : (c : ℕ) → l.probe ≢ c → get_or l'.observed_retired c 0 ≡ get_or l.observed_retired c 0
  pub turned : l'.probe ≡ (l.probe + 1) % length l.assigned

observed-Probed :
    (retired : ℕ → ℕ) (l : CarrierLoads) → IsValid l → Probed retired l (observed retired l)
observed-Probed retired l v = record {
  assigned = refl;
  known =
      get_or-set_self l.observed_retired l.probe (retired l.probe)
        (omega (arith, v.same, v.probing));
  kept = λ c ne. get_or-set_ne l.observed_retired l.probe c (retired l.probe) ne;
  turned = refl;
}

-- On valid totals, a current retirement counter and a cursor whose sums with the carriers fit the
-- machine word, a placement never panics. It takes in the retirements of the probed carrier, changes
-- no other total and keeps the totals valid. It selects a carrier that accepts and whose cached load
-- is the least of all that do, and none only where no carrier accepts.
pub select-Selects :
    (cursor : ℕ) (retired : ℕ → ℕ) (can_accept : ℕ → Bool) (l : CarrierLoads)
    → IsValid l
    → IsCurrent retired l
    → cursor + length l.assigned ≤ usize_values
    → (o : Option ℕ) × (l' : CarrierLoads) × (select cursor retired can_accept l ≡ returns (o, l'))
      × Probed retired l l'
      × IsValid l'
      × Selects can_accept l' o
unfolding select
select-Selects cursor retired can_accept l v current room =
    elim (Bool-cases (can_accept candidate)) [
      | inl accepts ↦ (
        some candidate,
        l',
        rw (observe_lem retired l v current, whole, found.1, accepts) refl,
        observed-Probed retired l v,
        v',
        (accepts, λ d h a. found.2 d (visits d h)),
      )
      | inr refuses ↦
          let (o, run, ends) =
            select_loop-Ends (λ c. cached_load c l') (loads l') (passed candidate can_accept)
              (2 ^ 64 - 1) none cs reads in
          (
            o,
            l',
            rw (observe_lem retired l v current, whole, found.1, refuses, run) refl,
            observed-Probed retired l v,
            v',
            second_round l' cs candidate can_accept o v' visits refuses ends,
          )
    ]
  where
    l' : CarrierLoads
    l' = observed retired l

    v' : IsValid l'
    v' = observed-IsValid retired l v current

    n : ℕ
    n = length l.assigned

    cs : List ℕ
    cs = rotated cursor n n

    whole : rotation cursor n n ≡ returns cs
    whole = rotation-rotated cursor n n v.some_carrier room

    visits : (d : ℕ) → d < n → Occurs d cs
    visits d h = rotation_visits cursor n d h

    reads : Reads (λ c. cached_load c l') (loads l') cs
    reads = Reads-rotation l' cs v' (rotation_below cursor n n v.some_carrier)

    found :
        (c : ℕ) × (min_by_key (λ c. cached_load c l') cs ≡ returns (some c))
        × ((d : ℕ) → Occurs d cs → loads l' c ≤ loads l' d)
    found = min_by_key_lem (λ c. cached_load c l') (loads l') cs 0 reads (visits 0 v.some_carrier)

    candidate : ℕ
    candidate = found.0
