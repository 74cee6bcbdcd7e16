-- ===== src/IdSet.antt =====
-- crates/vthread/src/cancellation_id_set.rs and cancellation_parent_set.rs: sets of node identities
-- that hold up to one identity without an allocation. The two types differ in the box around the
-- table only. The hash table's iteration order is its list's order here; nothing below rests on it.
pub mod Laws
mod Examples
use vthread.Prelude.{
  ℕ, Bool, true, false, ◌||◌, List, [], ◌∷◌, ◌++◌, length, ◌==◌, if◌then◌else◌, position, remove_at,
  Option, none, some, Outcome, returns, panics,
}

pub data IdSet : Type 0 where
  empty : IdSet
  one : ℕ → IdSet
  many : List ℕ → IdSet

-- `IdHashSet`: membership, `insert` (whether it is new) and `remove` (whether it was held).
abbrev pub holds : ℕ → List ℕ → Bool
holds id [] = false
holds id (x ∷ ids) = x == id || holds id ids

abbrev pub hash_insert : ℕ → List ℕ → Bool × List ℕ
hash_insert id ids = if holds id ids then (false, ids) else (true, id ∷ ids)

abbrev pub hash_remove : ℕ → List ℕ → List ℕ
hash_remove id [] = []
hash_remove id (x ∷ ids) = let rest = hash_remove id ids in if x == id then ids else x ∷ rest

unfoldable pub is_empty : IdSet → Bool
is_empty empty = true
is_empty (one id) = false
is_empty (many ids) = false

unfoldable pub len : IdSet → ℕ
len empty = 0
len (one id) = 1
len (many ids) = length ids

unfoldable pub contains : ℕ → IdSet → Bool
contains id empty = false
contains id (one existing) = existing == id
contains id (many ids) = holds id ids

unfoldable pub insert : ℕ → IdSet → Bool × IdSet
insert id empty = (true, one id)
insert id (one existing) =
    if existing == id then (false, one existing) else (true, many (id ∷ existing ∷ []))
insert id (many ids) = let (fresh, ids') = hash_insert id ids in (fresh, many ids')

-- The end of `remove`: a table with one identity left is put away.
unfoldable pub compact : List ℕ → IdSet
compact (remaining ∷ []) = one remaining
compact ids = many ids

unfoldable pub remove : ℕ → IdSet → Bool × IdSet
unfolding compact
remove id empty = (false, empty)
remove id (one existing) = if existing == id then (true, empty) else (false, one existing)
remove id (many ids) =
    if holds id ids then (true, compact (hash_remove id ids)) else (false, many ids)

unfoldable pub iter : IdSet → List ℕ
iter empty = []
iter (one id) = id ∷ []
iter (many ids) = ids

-- `from_iter`, and `extend_set` with what `iter` gives.
unfoldable pub insert_all : List ℕ → IdSet → IdSet
unfolding insert
insert_all [] s = s
insert_all (id ∷ ids) s = insert_all ids (insert id s).1

unfoldable pub from_iter : List ℕ → IdSet
unfolding insert_all
from_iter ids = insert_all ids empty

unfoldable pub extend_set : IdSet → IdSet → IdSet
unfolding insert_all iter
extend_set other s = insert_all (iter other) s
