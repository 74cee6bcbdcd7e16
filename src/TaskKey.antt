-- ===== src/TaskKey.antt =====
-- crates/vthread/src/task_slab.rs, the keys: an index and an ownership flag packed in one nonzero
-- machine word of 64 bits.
pub mod Codec
mod Examples
use vthread.Prelude.{
  ℕ, zero, suc, ◌+◌, ◌-◌, ◌*◌, ◌/◌, ◌%◌, ◌^◌, ◌≡◌, refl, Bool, true, false, ltb, ◌==◌,
  if◌then◌else◌, not, Outcome, returns, panics, ◌>>=◌,
}

pub record TaskKey : Type 0 where
  pub word : ℕ

abbrev pub usize_values : ℕ
usize_values = 2 ^ 64

-- `checked_add` and `checked_mul`, with the `expect` that follows them.
abbrev pub fit : ℕ → Outcome ℕ
fit n = if ltb n usize_values then returns n else panics

abbrev pub flag : Bool → ℕ
flag true = 1
flag false = 0

-- `NonZeroUsize::new(encoded).expect(..)`
unfoldable pub from_encoded : ℕ → Outcome TaskKey
from_encoded encoded = if encoded == 0 then panics else returns (record { word = encoded })

unfoldable pub encode : ℕ → Bool → Outcome TaskKey
unfolding from_encoded
encode index borrowed = do
  slot ← fit (index + 1)
  doubled ← fit (slot * 2)
  encoded ← fit (doubled + flag borrowed)
  from_encoded encoded

unfoldable pub owned : ℕ → Outcome TaskKey
unfolding encode
owned index = encode index false

unfoldable pub borrowed : ℕ → Outcome TaskKey
unfolding encode
borrowed index = encode index true

unfoldable pub index : TaskKey → ℕ
index key = key.word / 2 - 1

unfoldable pub is_borrowed : TaskKey → Bool
is_borrowed key = not (key.word % 2 == 0)

unfoldable pub encoded : TaskKey → ℕ
encoded key = key.word

-- The derived equality.
abbrev pub same_key : TaskKey → TaskKey → Bool
same_key a b = a.word == b.word
