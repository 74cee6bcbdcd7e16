-- ===== src/Completion/Stranding.antt =====
-- What subscribers and the owner of a task record are promised (crates/vthread/src/completion.rs).
use vthread.Prelude.{
  ℕ, ◌*◌, ◌+◌, ◌%◌, ◌≤◌, ◌≡◌, true, none, [], length, arith, returns, ap, List-cases, inl, inr,
}
use vthread.Completion.{Completion, done, reset}
use vthread.Completion.Protocol.{System, Reachable}
use vthread.Completion.Accounting.{one_if, total, Reachable-IsSound}

done-odd : (c : Completion) → done c ≡ true → c.lifecycle % 2 ≡ 1
unfolding done
done-odd c d = ground arith

-- A waiter that is registered when the task is done, or is being registered, is not stranded: a
-- completer is on its way to drain the map.
pub nobody_stranded :
    (capacity : ℕ) (s : System)
    → Reachable capacity s
    → done s.completion ≡ true
    → 1 ≤ length s.completion.waiting + one_if s.inserting
    → 1 ≤ s.draining
nobody_stranded capacity s r d n =
    (Reachable-IsSound capacity s r).drained (done-odd s.completion d) n

-- Once the task is done and all parties have finished, the word is the done bit and one reservation
-- for each entry that a second subscription of the same wait replaced, and the record is recycled
-- without a panic, with the word cleared.
pub done-reset :
    (capacity : ℕ) (s : System)
    → Reachable capacity s
    → done s.completion ≡ true
    → s.reserved ≡ 0
    → s.inserting ≡ none
    → s.leaving ≡ 0
    → s.draining ≡ 0
    → s.taken ≡ []
    → (s.completion.lifecycle ≡ 1 + 2 * s.replaced)
      × (reset s.completion ≡ returns (record s.completion { lifecycle = 0 }))
unfolding reset
done-reset capacity s r d no_reserved no_lock no_leaving no_draining no_taken =
    let h = Reachable-IsSound capacity s r in
    let odd = done-odd s.completion d in
    elim (List-cases s.completion.waiting) [
      | inl empty ↦ (
        omega (
          arith,
          h.word,
          odd,
          no_reserved,
          ap one_if no_lock,
          no_leaving,
          ap total no_taken,
          ap (length {A = ℕ}) empty,
        ),
        ground (arith, empty),
      )
      | inr (i, is, waits) ↦
          absurd
            (omega (arith, h.drained odd (omega (arith, ap (length {A = ℕ}) waits)), no_draining))
    ]
