-- ===== src/Prelude/Panics.antt =====
-- Code that may panic: an `assert!`, an `expect` or a checked operation that fails.
use mathlib.Core.Bool.{Bool, true, false}
use mathlib.Core.Option.{Option, none, some}

pub data Outcome {ℓ} (A : Type ℓ) : Type ℓ where
  returns : A → Outcome A
  panics : Outcome A

infixl 5 ◌>>=◌ ◌>>◌
abbrev pub ◌>>=◌ {ℓ κ} : {A : Type ℓ} {B : Type κ} → Outcome A → (A → Outcome B) → Outcome B
returns a >>= f = f a
panics >>= f = panics

abbrev pub ◌>>◌ {ℓ} : {B : Type ℓ} → Outcome (Unit {0}) → Outcome B → Outcome B
m >> k = m >>= λ _. k

-- `assert!(b)`
abbrev pub assert : Bool → Outcome (Unit {0})
assert true = returns tt
assert false = panics

-- `o.expect(..)`
abbrev pub expect {ℓ} : {A : Type ℓ} → Option A → Outcome A
expect none = panics
expect (some a) = returns a
