-- ===== src/CarrierLoads/Examples.antt =====
-- Three carriers with two, one and four tasks, of which the second one accepts no more.
use vthread.Prelude.{
  ℕ, zero, suc, ◌<◌, ◌≤◌, ◌≡◌, refl, Bool, true, false, Option, [], ◌∷◌, returns, arith, get_or,
  ◌^◌, ◌-◌,
}
use vthread.CarrierLoads.{CarrierLoads, select}
use vthread.CarrierLoads.Placement.{IsValid, IsCurrent, Probed, Selects, select-Selects}

abbrev three : CarrierLoads
three = record { assigned = 2 ∷ 3 ∷ 4 ∷ []; observed_retired = 0 ∷ 1 ∷ 0 ∷ []; probe = 1 }

-- Another task of the second carrier has retired.
abbrev retired : ℕ → ℕ
retired _ = 2

abbrev not_second : ℕ → Bool
not_second (suc zero) = false
not_second _ = true

three_covered :
    (c : ℕ) → c < 3 → get_or {A = ℕ} (0 ∷ 1 ∷ 0 ∷ []) c 0 ≤ get_or {A = ℕ} (2 ∷ 3 ∷ 4 ∷ []) c 0
three_covered zero h = omega arith
three_covered (suc zero) h = omega arith
three_covered (suc (suc zero)) h = omega arith
three_covered (suc (suc (suc c))) h = absurd (omega arith)

three_counts : (c : ℕ) → c < 3 → get_or {A = ℕ} (2 ∷ 3 ∷ 4 ∷ []) c 0 < 2 ^ 64 - 1
three_counts zero h = omega arith
three_counts (suc zero) h = omega arith
three_counts (suc (suc zero)) h = omega arith
three_counts (suc (suc (suc c))) h = absurd (omega arith)

three-IsValid : IsValid three
three-IsValid = record {
  some_carrier = omega arith;
  same = refl;
  probing = omega arith;
  covered = three_covered;
  counts = three_counts;
}

three-IsCurrent : IsCurrent retired three
three-IsCurrent = record { forward = omega arith; covered = omega arith }

select-Selects_example :
    (o : Option ℕ) × (l' : CarrierLoads) × (select 2 retired not_second three ≡ returns (o, l'))
    × Probed retired three l'
    × IsValid l'
    × Selects not_second l' o
select-Selects_example =
    select-Selects 2 retired not_second three three-IsValid three-IsCurrent (omega arith)
