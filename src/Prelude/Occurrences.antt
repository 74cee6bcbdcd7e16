-- ===== src/Prelude/Occurrences.antt =====
-- Entries of lists of distinct numbers, at a place that is known and at one that is not.
use Prim.Native.Nat.{ℕ}
use mathlib.Core.Path.{◌≡◌, refl, sym, subst}
use mathlib.Core.Logic.{◌⊎◌, inl, inr}
use mathlib.Core.List.{List, [], ◌∷◌, ◌++◌}
use vthread.Prelude.Lists.{Occurs, Distinct, All}

pub Occurs-inl : {A : Type 0} (i : A) (xs ys : List A) → Occurs i xs → Occurs i (xs ++ ys)
Occurs-inl i [] ys o = elim o [ ]
Occurs-inl i (x ∷ xs) ys (inl e) = inl e
Occurs-inl i (x ∷ xs) ys (inr o) = inr (Occurs-inl i xs ys o)

pub Occurs-inr : {A : Type 0} (i : A) (xs ys : List A) → Occurs i ys → Occurs i (xs ++ ys)
Occurs-inr i [] ys o = o
Occurs-inr i (x ∷ xs) ys o = inr (Occurs-inr i xs ys o)

pub Occurs-append :
    {A : Type 0} (i : A) (xs ys : List A) → Occurs i (xs ++ ys) → Occurs i xs ⊎ Occurs i ys
Occurs-append i [] ys o = inr o
Occurs-append i (x ∷ xs) ys (inl e) = inl (inl e)
Occurs-append i (x ∷ xs) ys (inr o) = elim (Occurs-append i xs ys o) [
  | inl p ↦ inl (inr p)
  | inr p ↦ inr p
]

-- An entry is in the middle, or elsewhere.
pub Occurs-middle :
    {A : Type 0} (i j : A) (xs ys : List A)
    → Occurs j (xs ++ i ∷ ys)
    → (i ≡ j) ⊎ Occurs j (xs ++ ys)
Occurs-middle i j [] ys o = o
Occurs-middle i j (x ∷ xs) ys (inl e) = inr (inl e)
Occurs-middle i j (x ∷ xs) ys (inr o) = elim (Occurs-middle i j xs ys o) [
  | inl e ↦ inl e
  | inr p ↦ inr (inr p)
]

pub Occurs-without :
    {A : Type 0} (i j : A) (xs ys : List A) → Occurs j (xs ++ ys) → Occurs j (xs ++ i ∷ ys)
Occurs-without i j [] ys o = inr o
Occurs-without i j (x ∷ xs) ys (inl e) = inl e
Occurs-without i j (x ∷ xs) ys (inr o) = inr (Occurs-without i j xs ys o)

-- The entry in the middle of a distinct list stands nowhere else.
pub Distinct-middle :
    (i : ℕ) (xs ys : List ℕ)
    → Distinct (xs ++ i ∷ ys)
    → Distinct (xs ++ ys) × (Occurs i (xs ++ ys) → ⊥)
Distinct-middle i [] ys d = (d.1, d.0)
Distinct-middle i (x ∷ xs) ys d =
    let rest = Distinct-middle i xs ys d.1 in
    (
      (λ o. d.0 (Occurs-without i x xs ys o), rest.0),
      λ o. elim o [ inl e ↦ d.0 (Occurs-inr x xs (i ∷ ys) (inl (sym e))) | inr p ↦ rest.1 p ],
    )

pub Distinct-snoc :
    (i : ℕ) (xs : List ℕ) → Distinct xs → (Occurs i xs → ⊥) → Distinct (xs ++ i ∷ [])
Distinct-snoc i [] d out = (λ o. o, tt)
Distinct-snoc i (x ∷ xs) d out = (
  λ o. elim (Occurs-append x xs (i ∷ []) o) [
    | inl p ↦ d.0 p
    | inr p ↦ elim p [ inl e ↦ out (inl (sym e)) | inr q ↦ q ]
  ],
  Distinct-snoc i xs d.1 (λ o. out (inr o)),
)

-- What holds of every entry.
pub All-Occurs :
    {A : Type 0} {P : A → Type 0} (xs : List A) → ((a : A) → Occurs a xs → P a) → All P xs
All-Occurs [] f = tt
All-Occurs (x ∷ xs) f = (f x (inl refl), All-Occurs xs (λ a o. f a (inr o)))

pub Occurs-All : {A : Type 0} (P : A → Type 0) (a : A) (xs : List A) → All P xs → Occurs a xs → P a
Occurs-All P a [] h o = elim o [ ]
Occurs-All P a (x ∷ xs) h (inl e) = subst P e h.0
Occurs-All P a (x ∷ xs) h (inr o) = Occurs-All P a xs h.1 o
