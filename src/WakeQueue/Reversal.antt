-- ===== src/WakeQueue/Reversal.antt =====
-- Chains of slots and the in-place reversal (crates/vthread/src/wake_queue_core.rs, `reverse`).
use vthread.Prelude.{
  ℕ, Outcome, returns, zero, suc, ◌≤◌, ◌<◌, ◌≡◌, ◌≢◌, refl, inl, inr, false, List, [], ◌∷◌, ◌++◌,
  length, ◌==◌, if◌then◌else◌, arith, Occurs, ap, sym, ◌∙◌, subst, Distinct, ==_ne, ==_refl, ==_iff,
  Bool-cases,
}
use vthread.WakeQueue.{update, reverse_loop}

-- The slots from `i` along `next`, to the end mark 0.
abbrev pub Chain : (ℕ → ℕ) → ℕ → List ℕ → Type 0
Chain next i [] = i ≡ 0
Chain next i (j ∷ js) = (i ≡ j) × (0 < j) × Chain next (next j) js

-- A store to a slot outside a chain leaves it alone.
pub Chain-update :
    (next : ℕ → ℕ) (k v i : ℕ) (js : List ℕ)
    → (Occurs k js → ⊥)
    → Chain next i js
    → Chain (update next k v) i js
Chain-update next k v i [] out c = c
Chain-update next k v i (j ∷ js) out c =
    let same : update next k v j ≡ next j = ground (arith, ==_ne k j (λ e. out (inl (sym e)))) in
    (
      c.0,
      c.1,
      subst (λ n. Chain (update next k v) n js) (sym same)
          (Chain-update next k v (next j) js (λ o. out (inr o)) c.2),
    )

-- `xs` turned round onto `ys`.
abbrev pub reverse_onto : List ℕ → List ℕ → List ℕ
reverse_onto [] ys = ys
reverse_onto (x ∷ xs) ys = reverse_onto xs (x ∷ ys)

pub reverse_onto-append :
    (xs ys zs : List ℕ) → reverse_onto xs (ys ++ zs) ≡ reverse_onto xs ys ++ zs
reverse_onto-append [] ys zs = refl
reverse_onto-append (x ∷ xs) ys zs = reverse_onto-append xs (x ∷ ys) zs

pub reverse_loop_step :
    (fuel slots : ℕ) (next : ℕ → ℕ) (j reversed : ℕ)
    → 0 < j
    → j < slots
    → reverse_loop (suc fuel) slots next j reversed
      ≡ reverse_loop fuel slots (update next j reversed) (next j) j
unfolding reverse_loop
reverse_loop_step fuel slots next j reversed h within = ground arith

-- The loop ends with the chain of a list.
abbrev pub EndsWith : Outcome (ℕ × (ℕ → ℕ)) → List ℕ → Type 0
EndsWith o js = (first : ℕ) × (next : ℕ → ℕ) × (o ≡ returns (first, next)) × Chain next first js

reverse_loop_end :
    (fuel slots : ℕ) (next : ℕ → ℕ) (head reversed : ℕ)
    → head ≡ 0
    → reverse_loop fuel slots next head reversed ≡ returns (reversed, next)
unfolding reverse_loop
reverse_loop_end zero slots next head reversed e = ground arith
reverse_loop_end (suc fuel) slots next head reversed e = ground arith

-- With fuel for its length, the loop turns a chain of the array's slots round onto another chain, and
-- reaches its end.
pub reverse_loop-Chain :
    (fuel slots : ℕ) (next : ℕ → ℕ) (head reversed : ℕ) (hs rs : List ℕ)
    → length hs ≤ fuel
    → ((k : ℕ) → Occurs k hs → k < slots)
    → Chain next head hs
    → Chain next reversed rs
    → Distinct hs
    → ((k : ℕ) → Occurs k hs → Occurs k rs → ⊥)
    → EndsWith (reverse_loop fuel slots next head reversed) (reverse_onto hs rs)
reverse_loop-Chain fuel slots next head reversed [] rs h within c d dist apart =
    (reversed, next, reverse_loop_end fuel slots next head reversed c, d)
reverse_loop-Chain zero slots next head reversed (j ∷ hs) rs h within c d dist apart =
    absurd (omega arith)
reverse_loop-Chain (suc fuel) slots next head reversed (j ∷ hs) rs h within c d dist apart =
    subst (λ o. EndsWith o (reverse_onto hs (j ∷ rs)))
      (sym (
        ap (λ k. reverse_loop (suc fuel) slots next k reversed) c.0
        ∙ reverse_loop_step fuel slots next j reversed c.1 (within j (inl refl))))
      (reverse_loop-Chain fuel slots (update next j reversed) (next j) j hs (j ∷ rs) (omega arith)
        (λ k o. within k (inr o)) (Chain-update next j reversed (next j) hs dist.0 c.2)
        (
          refl,
          c.1,
          subst (λ k. Chain (update next j reversed) k rs) (sym written)
              (Chain-update next j reversed reversed rs (λ o. apart j (inl refl) o) d),
        )
        dist.1
        (λ k o. elim [
          | inl same ↦ dist.0 (subst (λ x. Occurs x hs) (sym same) o)
          | inr o' ↦ apart k (inr o) o'
        ]))
  where
    written : update next j reversed j ≡ reversed
    written = ground (arith, ==_refl j)

-- Numbers below a bound: a list without repetition is no longer than the bound.
without : ℕ → List ℕ → List ℕ
without n [] = []
without n (x ∷ xs) = if x == n then without n xs else x ∷ without n xs

==_true_false : (x n : ℕ) → x ≡ n → (x == n) ≡ false → ⊥
==_true_false x n e f = ground arith

without-Occurs : (n k : ℕ) (xs : List ℕ) → Occurs k (without n xs) → Occurs k xs × (k ≢ n)
unfolding without
without-Occurs n k [] o = absurd o
without-Occurs n k (x ∷ xs) o = elim (Bool-cases (x == n)) [
  | inl same ↦ let r = without-Occurs n k xs (rw same at o) in (inr r.0, r.1)
  | inr other ↦
      let o' : Occurs k (x ∷ without n xs) = rw other at o in
      elim o' [
        | inl e ↦ (inl e, λ e'. ==_true_false x n (e ∙ e') other)
        | inr r ↦ let s = without-Occurs n k xs r in (inr s.0, s.1)
      ]
]

without-Distinct : (n : ℕ) (xs : List ℕ) → Distinct xs → Distinct (without n xs)
unfolding without
without-Distinct n [] d = tt
without-Distinct n (x ∷ xs) d = elim (Bool-cases (x == n)) [
  | inl same ↦ rw same (without-Distinct n xs d.1)
  | inr other ↦ rw other ((λ o. d.0 (without-Occurs n x xs o).0), without-Distinct n xs d.1)
]

without_absent : (n : ℕ) (xs : List ℕ) → (Occurs n xs → ⊥) → length (without n xs) ≡ length xs
unfolding without
without_absent n [] out = refl
without_absent n (x ∷ xs) out =
    let other : (x == n) ≡ false = ==_ne x n (λ e. out (inl e)) in
    rw other (ap suc (without_absent n xs (λ o. out (inr o))))

length-without : (n : ℕ) (xs : List ℕ) → Distinct xs → length xs ≤ suc (length (without n xs))
unfolding without
length-without n [] d = omega arith
length-without n (x ∷ xs) d = elim (Bool-cases (x == n)) [
  | inl same ↦ rw same (
      omega (
        arith,
        without_absent n xs (λ o. d.0 (subst (λ k. Occurs k xs) (sym ((==_iff x n).0 same)) o)),
      ))
  | inr other ↦ rw other (omega (arith, length-without n xs d.1))
]

pub below_bound :
    (n : ℕ) (xs : List ℕ) → ((k : ℕ) → Occurs k xs → k < n) → Distinct xs → length xs ≤ n
below_bound zero [] h d = omega arith
below_bound zero (x ∷ xs) h d = absurd (omega (arith, h x (inl refl)))
below_bound (suc n) xs h d = omega (
  arith,
  length-without n xs d,
  below_bound n (without n xs)
      (λ k o. let r = without-Occurs n k xs o in ground (arith, h k r.0, r.1))
      (without-Distinct n xs d),
)
