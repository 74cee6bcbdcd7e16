-- ===== src/Completion/Protocol.antt =====
-- Subscribers, completers and those who drop a subscription, one part at a time
-- (crates/vthread/src/completion.rs).
use vthread.Prelude.{
  ℕ, ◌+◌, ◌^◌, ◌<◌, ◌≡◌, ◌≢◌, true, false, Option, none, some, List, [], ◌∷◌, ◌++◌, length,
}
use vthread.Error.{Error}
use vthread.Completion.{
  Completion, new, done, mark_done, reserve, withdraw, insert, take_all, remove, remove_id,
}

-- Subscribers that have reserved, the one that has the lock and found the task not done, the
-- reservations on their way out one by one, those whose entry was replaced by a second subscription of
-- the same wait, the completers that have to drain the map, and the numbers of waiters that completers
-- have taken out.
pub record System : Type 0 where
  pub completion : Completion
  pub reserved : ℕ
  pub inserting : Option ℕ
  pub leaving : ℕ
  pub replaced : ℕ
  pub draining : ℕ
  pub taken : List ℕ
  pub notified : List ℕ

unfoldable pub start : ℕ → System
start capacity = record {
  completion = new capacity;
  reserved = 0;
  inserting = none;
  leaving = 0;
  replaced = 0;
  draining = 0;
  taken = [];
  notified = [];
}

-- How many entries of the map an insertion replaces.
abbrev pub replacing : ℕ → Completion → ℕ
replacing id c = elim (remove_id id c.waiting) [ none ↦ 0 | some rest ↦ 1 ]

pub data Step (s : System) : System → Type 0 where
  -- The word does not wrap: there are fewer subscribers than the memory has bytes.
  reserves :
      s.completion.lifecycle + 2 < 2 ^ 64
      → Step s (record s { completion = reserve s.completion; reserved = s.reserved + 1 })
  -- A subscriber finds the task done, before the lock or under it, and is notified.
  finds_done :
      (id reserved : ℕ)
      → s.reserved ≡ reserved + 1
      → done s.completion ≡ true
      → Step s
          (record s { reserved = reserved; leaving = s.leaving + 1; notified = id ∷ s.notified })
  locks :
      (id reserved : ℕ)
      → s.reserved ≡ reserved + 1
      → s.inserting ≡ none
      → done s.completion ≡ false
      → Step s (record s { reserved = reserved; inserting = some id })
  inserts :
      (id : ℕ) (c : Completion)
      → s.inserting ≡ some id
      → insert id s.completion ≡ (none, c)
      → Step s (record s {
        completion = c;
        inserting = none;
        replaced = s.replaced + replacing id s.completion;
      })
  overflows :
      (id : ℕ) (c : Completion) (e : Error)
      → s.inserting ≡ some id
      → insert id s.completion ≡ (some e, c)
      → Step s (record s { completion = c; inserting = none; leaving = s.leaving + 1 })
  leaves :
      (leaving : ℕ)
      → s.leaving ≡ leaving + 1
      → Step s (record s { completion = withdraw 1 s.completion; leaving = leaving })
  drops :
      (id : ℕ) (c : Completion)
      → s.inserting ≡ none
      → remove id s.completion ≡ (true, c)
      → Step s (record s { completion = c; leaving = s.leaving + 1 })
  completes :
      (registered : ℕ) (c : Completion)
      → mark_done s.completion ≡ (registered, c)
      → registered ≢ 0
      → Step s (record s { completion = c; draining = s.draining + 1 })
  completes_alone :
      (c : Completion) → mark_done s.completion ≡ (0, c) → Step s (record s { completion = c })
  drains :
      (draining : ℕ) (ids : List ℕ) (c : Completion)
      → s.draining ≡ draining + 1
      → s.inserting ≡ none
      → take_all s.completion ≡ (ids, c)
      → Step s (record s {
        completion = c;
        draining = draining;
        taken = length ids ∷ s.taken;
        notified = ids ++ s.notified;
      })
  withdraws :
      (count : ℕ) (rest : List ℕ)
      → s.taken ≡ count ∷ rest
      → Step s (record s { completion = withdraw count s.completion; taken = rest })

pub data Reachable (capacity : ℕ) : System → Type 0 where
  starts : Reachable capacity (start capacity)
  steps : (s t : System) → Reachable capacity s → Step s t → Reachable capacity t
