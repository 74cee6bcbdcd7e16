-- ===== src/CarrierLoads/Rotation.antt =====
-- The rotation visits every carrier (crates/vthread/src/control_placement.rs).
use native.Mathlib.Nat.{mod-lt, mod-eq_of_lt, mod-add-mod, add-mod_right}
use vthread.Prelude.{
  ℕ, refl, returns, List, [], ◌∷◌, zero, suc, ◌+◌, ◌-◌, ◌%◌, ◌≤◌, ◌<◌, ◌≡◌, inl, inr, arith, Occurs,
  All, sym, ap, subst, ◌∙◌, Bool-cases, leb, leb→le, ◌==◌,
}
use vthread.TaskKey.{usize_values}
use vthread.CarrierLoads.{rotation}

-- The carriers of a rotation whose sums fit the machine word.
abbrev pub rotated : ℕ → ℕ → ℕ → List ℕ
rotated cursor n zero = []
rotated cursor n (suc left) = (cursor + (n - suc left)) % n ∷ rotated cursor n left

pub rotation-rotated :
    (cursor n left : ℕ)
    → 0 < n
    → cursor + n ≤ usize_values
    → rotation cursor n left ≡ returns (rotated cursor n left)
unfolding rotation
rotation-rotated cursor n zero h room = refl
rotation-rotated cursor n (suc left) h room = ground (arith, rotation-rotated cursor n left h room)

-- Every entry is a carrier.
pub rotation_below : (cursor n left : ℕ) → 0 < n → All (λ c. c < n) (rotated cursor n left)
rotation_below cursor n zero h = tt
rotation_below cursor n (suc left) h = (mod-lt _ h, rotation_below cursor n left h)

-- The offset of a carrier.
offset_of : (cursor n d : ℕ) → d < n → (offset : ℕ) × (offset < n) × ((cursor + offset) % n ≡ d)
offset_of cursor n d h = elim (Bool-cases (leb (cursor % n) d)) [
  | inl e ↦
      let sum : cursor % n + (d - cursor % n) ≡ d = omega (arith, leb→le (cursor % n) d e) in
      (
        d - cursor % n,
        omega arith,
        sym (mod-add-mod cursor n (d - cursor % n)) ∙ (ap (λ (k : ℕ). k % n) sum ∙ mod-eq_of_lt h),
      )
  | inr e ↦
      let past : d < cursor % n = ground arith in
      let small : cursor % n < n = mod-lt cursor (omega arith) in
      let sum : cursor % n + (n - cursor % n + d) ≡ d + n = omega arith in
      (
        n - cursor % n + d,
        omega arith,
        sym (mod-add-mod cursor n (n - cursor % n + d))
            ∙ (ap (λ (k : ℕ). k % n) sum ∙ (add-mod_right d n ∙ mod-eq_of_lt h)),
      )
]

Occurs-rotation :
    (cursor n offset left : ℕ)
    → left ≤ n
    → offset < n
    → n ≤ offset + left
    → Occurs ((cursor + offset) % n) (rotated cursor n left)
Occurs-rotation cursor n offset zero short below late = absurd (omega arith)
Occurs-rotation cursor n offset (suc left) short below late =
    elim (Bool-cases (offset == n - suc left)) [
      | inl e ↦
          let same : n - suc left ≡ offset = ground arith in
          inl (ap (λ (k : ℕ). (cursor + k) % n) same)
      | inr e ↦
          let later : n ≤ offset + left = ground arith in
          inr (Occurs-rotation cursor n offset left (omega arith) below later)
    ]

-- Every carrier is visited.
pub rotation_visits : (cursor n d : ℕ) → d < n → Occurs d (rotated cursor n n)
rotation_visits cursor n d h =
    let (offset, below, same) = offset_of cursor n d h in
    subst (λ k. Occurs k (rotated cursor n n)) same
      (Occurs-rotation cursor n offset n (omega arith) below (omega arith))
