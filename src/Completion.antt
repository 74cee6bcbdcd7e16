-- ===== src/Completion.antt =====
-- crates/vthread/src/completion.rs: the subscriptions of a task's completion. The lifecycle word holds a
-- done bit and, above it, the number of reservations. The map of waiters is the list of their
-- identities. Every atomic operation, and what is done under the lock, is a part of its own.
pub mod Protocol
pub mod Accounting
pub mod Stranding
mod Examples
use vthread.Prelude.{
  ℕ, ◌+◌, ◌-◌, ◌*◌, ◌/◌, ◌%◌, ◌^◌, Bool, true, false, not, Option, none, some, List, [], ◌∷◌, ◌==◌,
  leb, length, if◌then◌else◌, Outcome, returns, panics, ◌>>=◌, ◌>>◌, assert, empty?,
}
use vthread.Error.{Error, waiters}

abbrev pub done_bit : ℕ
done_bit = 1

abbrev pub waiter_unit : ℕ
waiter_unit = 2

pub record Completion : Type 0 where
  pub capacity : ℕ
  pub lifecycle : ℕ
  pub waiting : List ℕ

unfoldable pub new : ℕ → Completion
new capacity = record { capacity = capacity; lifecycle = 0; waiting = [] }

unfoldable pub done : Completion → Bool
done c = not (c.lifecycle % 2 == 0)

-- `fetch_or(DONE)`: the word with the bit set, and the number registered before.
unfoldable pub mark_done : Completion → ℕ × Completion
unfolding done
mark_done c = (
  c.lifecycle / waiter_unit,
  if done c then c else record c { lifecycle = c.lifecycle + done_bit },
)

unfoldable pub reserve : Completion → Completion
reserve c = record c { lifecycle = (c.lifecycle + waiter_unit) % 2 ^ 64 }

-- `fetch_sub(count * WAITER)`
unfoldable pub withdraw : ℕ → Completion → Completion
withdraw count c = record c { lifecycle = (c.lifecycle + (2 ^ 64 - count * waiter_unit)) % 2 ^ 64 }

abbrev pub remove_id : ℕ → List ℕ → Option (List ℕ)
remove_id id [] = none
remove_id id (i ∷ is) =
    if i == id
    then some is
    else elim (remove_id id is) [ none ↦ none | some rest ↦ some (i ∷ rest) ]

-- The identities but one.
abbrev pub others : ℕ → List ℕ → List ℕ
others id is = elim (remove_id id is) [ none ↦ is | some rest ↦ rest ]

-- The insertion under the lock, unless the map is full. An equal identity is replaced.
unfoldable pub insert : ℕ → Completion → Option Error × Completion
insert id c =
    if leb c.capacity (length c.waiting)
    then (some (Error.capacity waiters c.capacity), c)
    else (none, record c { waiting = id ∷ others id c.waiting })

-- `std::mem::take` of the map.
unfoldable pub take_all : Completion → List ℕ × Completion
take_all c = (c.waiting, record c { waiting = [] })

-- The removal of a `CompletionWait` that is dropped, and whether it was there.
unfoldable pub remove : ℕ → Completion → Bool × Completion
remove id c = elim (remove_id id c.waiting) [
  | none ↦ (false, c)
  | some rest ↦ (true, record c { waiting = rest })
]

unfoldable pub reset : Completion → Outcome Completion
reset c = do assert (empty? c.waiting); returns (record c { lifecycle = 0 })
