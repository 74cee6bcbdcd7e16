-- ===== src/Prelude/Deque.antt =====
-- `VecDeque` as a list, front first: the operations that the standard library gives.
use Prim.Native.Nat.{ℕ, zero, suc}
use mathlib.Core.Logic.{inl, inr}
use vthread.Prelude.Tests.{Bool-cases, if◌then◌else◌}
use vthread.Prelude.Lists.{get_elem?}
use mathlib.Core.Path.{◌≡◌, refl, ap}
use mathlib.Core.Bool.{Bool, true, false}
use mathlib.Core.List.{List, [], ◌∷◌, ◌++◌}
use mathlib.Core.Option
use mathlib.Core.Option.{Option, none, some}

module _ {ℓ} {A : Type ℓ} where
  abbrev pub empty? : List A → Bool
  empty? [] = true
  empty? (x ∷ xs) = false

  abbrev pub first? : List A → Option A
  first? [] = none
  first? (x ∷ xs) = some x

  abbrev pub rest_of : List A → List A
  rest_of [] = []
  rest_of (x ∷ xs) = xs

  -- `pop_back`: the last entry and what stands before it.
  abbrev pub last? : List A → Option A
  last? [] = none
  last? (x ∷ []) = some x
  last? (x ∷ y ∷ xs) = last? (y ∷ xs)

  abbrev pub front_of : List A → List A
  front_of [] = []
  front_of (x ∷ []) = []
  front_of (x ∷ y ∷ xs) = x ∷ front_of (y ∷ xs)

  -- `iter().position(..)`.
  abbrev pub position : (A → Bool) → List A → Option ℕ
  position p [] = none
  position p (x ∷ xs) = elim (p x) [ true ↦ some 0 | false ↦ Option.map suc (position p xs) ]

  -- The index of the last entry that passes.
  abbrev pub last_position : (A → Bool) → List A → Option ℕ
  last_position p [] = none
  last_position p (x ∷ xs) = elim (last_position p xs) [
    | some i ↦ some (suc i)
    | none ↦ if p x then some 0 else none
  ]

  -- `remove(index)`: what stays.
  abbrev pub remove_at : ℕ → List A → List A
  remove_at n [] = []
  remove_at zero (x ∷ xs) = xs
  remove_at (suc n) (x ∷ xs) = x ∷ remove_at n xs

  pub last?-append : (xs : List A) (a : A) → last? (xs ++ a ∷ []) ≡ some a
  last?-append [] a = refl
  last?-append (x ∷ []) a = refl
  last?-append (x ∷ y ∷ xs) a = last?-append (y ∷ xs) a

  pub front_of-append : (xs : List A) (a : A) → front_of (xs ++ a ∷ []) ≡ xs
  front_of-append [] a = refl
  front_of-append (x ∷ []) a = refl
  front_of-append (x ∷ y ∷ xs) a = ap (λ (t : List A). x ∷ t) (front_of-append (y ∷ xs) a)

-- An entry of a list and the list without it.
pub record Removed {ℓ} {A : Type ℓ} (a : A) (xs ys : List A) : Type ℓ where
  pub before : List A
  pub behind : List A
  pub whole : xs ≡ before ++ a ∷ behind
  pub left : ys ≡ before ++ behind

module _ {A : Type 0} (p : A → Bool) where
  -- No entry passes the test.
  abbrev pub Nowhere : List A → Type 0
  Nowhere [] = Unit
  Nowhere (x ∷ xs) = (p x ≡ false) × Nowhere xs

  -- What an index found by a test says: the entry there passes, and `remove_at` takes it out.
  abbrev pub Found : List A → Option ℕ → Type 0
  Found xs none = Nowhere xs
  Found xs (some i) =
      (a : A) × (p a ≡ true) × (get_elem? xs i ≡ some a) × Removed a xs (remove_at i xs)

  Found-suc : (x : A) (xs : List A) (i : ℕ) → Found xs (some i) → Found (x ∷ xs) (some (suc i))
  Found-suc x xs i (a, pass, here, r) = (
    a,
    pass,
    here,
    record {
      before = x ∷ r.before;
      behind = r.behind;
      whole = ap (λ (l : List A). x ∷ l) r.whole;
      left = ap (λ (l : List A). x ∷ l) r.left;
    },
  )

  Found-zero : (x : A) (xs : List A) → p x ≡ true → Found (x ∷ xs) (some 0)
  Found-zero x xs pass =
      (x, pass, refl, record { before = []; behind = xs; whole = refl; left = refl })

  pub position-Found : (xs : List A) → Found xs (position p xs)
  position-Found [] = tt
  position-Found (x ∷ xs) = here (p x) refl (position-Found xs)
    where
      later : (o : Option ℕ) → Found xs o → p x ≡ false → Found (x ∷ xs) (Option.map suc o)
      later none f fail = (fail, f)
      later (some i) f fail = Found-suc x xs i f

      here :
          (b : Bool)
          → p x ≡ b
          → Found xs (position p xs)
          → Found (x ∷ xs) (elim b [ true ↦ some 0 | false ↦ Option.map suc (position p xs) ])
      here true pass rest = Found-zero x xs pass
      here false fail rest = later (position p xs) rest fail

  pub last_position-Found : (xs : List A) → Found xs (last_position p xs)
  last_position-Found [] = tt
  last_position-Found (x ∷ xs) = later (last_position p xs) (last_position-Found xs)
    where
      later :
          (o : Option ℕ)
          → Found xs o
          → Found (x ∷ xs) (elim o [ some i ↦ some (suc i) | none ↦ if p x then some 0 else none ])
      later none f = elim (Bool-cases (p x)) [
        | inl pass ↦ rw pass (Found-zero x xs pass)
        | inr fail ↦ rw fail (fail, f)
      ]
      later (some i) f = Found-suc x xs i f
