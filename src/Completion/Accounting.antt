-- ===== src/Completion/Accounting.antt =====
-- Every reservation of the lifecycle word has a place (crates/vthread/src/completion.rs).
use vthread.Prelude.{
  ℕ, ◌+◌, ◌-◌, ◌*◌, ◌/◌, ◌%◌, ◌^◌, ◌≤◌, ◌<◌, ◌≡◌, sym, ap, subst, ◌∙◌, inl, inr, true, Option, none,
  some, List, [], ◌∷◌, ◌++◌, length, arith, ◌==◌, Bool-cases, Option-cases, ==_iff,
}
use vthread.Completion.{
  Completion, new, done, mark_done, reserve, withdraw, insert, take_all, remove_id, others, remove,
}
use vthread.Completion.Protocol.{
  System, replacing, start, Step, reserves, finds_done, locks, inserts, overflows, leaves, drops,
  completes, completes_alone, drains, withdraws, Reachable, starts, steps,
}

abbrev pub one_if : Option ℕ → ℕ
one_if none = 0
one_if (some id) = 1

abbrev pub total : List ℕ → ℕ
total [] = 0
total (n ∷ ns) = n + total ns

-- The reservations that somebody answers for.
abbrev pub load : System → ℕ
load s =
    length s.completion.waiting
    + s.reserved
    + one_if s.inserting
    + s.leaving
    + s.replaced
    + total s.taken

pub record IsSound (s : System) : Type 0 where
  pub word : s.completion.lifecycle ≡ s.completion.lifecycle % 2 + 2 * load s
  pub fits : s.completion.lifecycle < 2 ^ 64
  pub bounded : length s.completion.waiting ≤ s.completion.capacity
  pub drained :
      s.completion.lifecycle % 2 ≡ 1
      → 1 ≤ length s.completion.waiting + one_if s.inserting
      → 1 ≤ s.draining

length-remove_id :
    (id : ℕ) (is rest : List ℕ) → remove_id id is ≡ some rest → length is ≡ 1 + length rest
length-remove_id id [] rest e = absurd (ground arith)
length-remove_id id (i ∷ is) rest e = elim (Bool-cases (i == id)) [
  | inl here ↦ let same : rest ≡ is = ground arith in rw same (omega arith)
  | inr away ↦ elim (Option-cases (remove_id id is)) [
    | inl nowhere ↦ absurd (ground arith)
    | inr (left, found) ↦
        let same : rest ≡ i ∷ left = ground arith in
        rw same (omega (arith, length-remove_id id is left found))
  ]
]

-- An insertion counts its own entry and the one that it replaces.
length-others :
    (id : ℕ) (c : Completion) → length (others id c.waiting) + replacing id c ≡ length c.waiting
length-others id c = elim (Option-cases (remove_id id c.waiting)) [
  | inl nowhere ↦ rw (others, replacing, nowhere) (omega arith)
  | inr (rest, found) ↦
      rw (others, replacing, found) (omega (arith, length-remove_id id c.waiting rest found))
]

withdraw_lem :
    (count : ℕ) (c : Completion)
    → c.lifecycle < 2 ^ 64
    → 2 * count ≤ c.lifecycle
    → (withdraw count c).lifecycle ≡ c.lifecycle - 2 * count
unfolding withdraw
withdraw_lem count c f h = omega (arith, f, h)

mark_done_lem :
    (c d : Completion) (registered : ℕ)
    → mark_done c ≡ (registered, d)
    → (registered ≡ c.lifecycle / 2) × (d ≡ record c { lifecycle = c.lifecycle / 2 * 2 + 1 })
unfolding mark_done done
mark_done_lem c d registered e = elim (Bool-cases (c.lifecycle % 2 == 0)) [
  | inl even ↦
      let zero_bit : c.lifecycle % 2 ≡ 0 = (==_iff (c.lifecycle % 2) 0).0 even in
      let put : d ≡ record c { lifecycle = c.lifecycle + 1 } = ground arith in
      let next : c.lifecycle + 1 ≡ c.lifecycle / 2 * 2 + 1 = omega (arith, zero_bit) in
      (ground arith, put ∙ ap (λ l. record c { lifecycle = l }) next)
  | inr odd ↦
      let put : d ≡ c = ground arith in
      let same : c.lifecycle ≡ c.lifecycle / 2 * 2 + 1 = ground (arith, odd) in
      (ground arith, put ∙ ap (λ l. record c { lifecycle = l }) same)
]

remove_lem :
    (id : ℕ) (c d : Completion)
    → remove id c ≡ (true, d)
    → (rest : List ℕ) × (remove_id id c.waiting ≡ some rest) × (d ≡ record c { waiting = rest })
unfolding remove
remove_lem id c d e = elim (Option-cases (remove_id id c.waiting)) [
  | inl nowhere ↦ absurd (ground arith)
  | inr (rest, found) ↦ (rest, found, ground arith)
]

Step-IsSound : (s t : System) → IsSound s → Step s t → IsSound t
unfolding reserve insert take_all done withdraw
Step-IsSound s _ h (reserves room) = record {
  word = omega (arith, h.word, room);
  fits = omega (arith, room);
  bounded = h.bounded;
  drained = λ d n. h.drained (omega (arith, d, room)) n;
}
Step-IsSound s _ h (finds_done id reserved e d) = record {
  word = omega (arith, h.word, e);
  fits = h.fits;
  bounded = h.bounded;
  drained = h.drained;
}
Step-IsSound s _ h (locks id reserved e i d) = record {
  word = omega (arith, h.word, e, ap one_if i);
  fits = h.fits;
  bounded = h.bounded;
  drained = λ b n. absurd (ground (arith, b, d));
}
Step-IsSound s _ h (inserts id c i e) =
    let put : c ≡ record s.completion { waiting = id ∷ others id s.completion.waiting } =
      ground arith in
    let number = length-others id s.completion in
    let room : length s.completion.waiting < s.completion.capacity = ground arith in
    let one : one_if s.inserting ≡ 1 = ap one_if i in
    subst
      (λ k. IsSound (record s {
        completion = k;
        inserting = none;
        replaced = s.replaced + replacing id s.completion;
      }))
      (sym put)
      (record {
        word = omega (arith, h.word, one, number);
        fits = h.fits;
        bounded = omega (arith, room, number);
        drained = λ b n. h.drained b (omega (arith, one));
      })
Step-IsSound s _ h (overflows id c x i e) =
    let kept : c ≡ s.completion = ground arith in
    let one : one_if s.inserting ≡ 1 = ap one_if i in
    subst (λ k. IsSound (record s { completion = k; inserting = none; leaving = s.leaving + 1 }))
      (sym kept)
      (record {
        word = omega (arith, h.word, one);
        fits = h.fits;
        bounded = h.bounded;
        drained = λ b n. h.drained b (omega (arith, one));
      })
Step-IsSound s _ h (leaves leaving e) =
    let less = withdraw_lem 1 s.completion h.fits (omega (arith, h.word, e)) in
    record {
      word = omega (arith, h.word, e, less);
      fits = omega (arith, h.fits, less);
      bounded = h.bounded;
      drained = λ b n. h.drained (omega (arith, h.word, e, b, less)) n;
    }
Step-IsSound s _ h (drops id c i e) =
    let (rest, found, put) = remove_lem id s.completion c e in
    let number = length-remove_id id s.completion.waiting rest found in
    subst (λ k. IsSound (record s { completion = k; leaving = s.leaving + 1 })) (sym put)
      (record {
        word = omega (arith, h.word, number);
        fits = h.fits;
        bounded = omega (arith, h.bounded, number);
        drained = λ b n. h.drained b (omega (arith, n, number));
      })
Step-IsSound s _ h (completes registered c e n) =
    let (some_registered, put) = mark_done_lem s.completion c registered e in
    subst (λ k. IsSound (record s { completion = k; draining = s.draining + 1 })) (sym put)
      (record {
        word = omega (arith, h.word);
        fits = omega (arith, h.fits);
        bounded = h.bounded;
        drained = λ b k. omega arith;
      })
Step-IsSound s _ h (completes_alone c e) =
    let (none_registered, put) = mark_done_lem s.completion c 0 e in
    subst (λ k. IsSound (record s { completion = k })) (sym put)
      (record {
        word = omega (arith, h.word);
        fits = omega (arith, h.fits);
        bounded = h.bounded;
        drained = λ b k. absurd (omega (arith, h.word, none_registered, k));
      })
Step-IsSound s _ h (drains draining ids c e i t) =
    let all : ids ≡ s.completion.waiting = ground arith in
    let put : c ≡ record s.completion { waiting = [] } = ground arith in
    let nobody : one_if s.inserting ≡ 0 = ap one_if i in
    let number : length ids ≡ length s.completion.waiting = ap (length {A = ℕ}) all in
    subst
      (λ k. IsSound (record s {
        completion = k;
        draining = draining;
        taken = length ids ∷ s.taken;
        notified = ids ++ s.notified;
      }))
      (sym put)
      (record {
        word = omega (arith, h.word, number);
        fits = h.fits;
        bounded = omega arith;
        drained = λ b n. absurd (omega (arith, n, nobody));
      })
Step-IsSound s _ h (withdraws count rest e) =
    let sum : total s.taken ≡ count + total rest = ap total e in
    let less = withdraw_lem count s.completion h.fits (omega (arith, h.word, sum)) in
    record {
      word = omega (arith, h.word, sum, less);
      fits = omega (arith, h.fits, less);
      bounded = h.bounded;
      drained = λ b n. h.drained (omega (arith, h.word, sum, b, less)) n;
    }

start-IsSound : (capacity : ℕ) → IsSound (start capacity)
unfolding start new
start-IsSound capacity = record {
  word = omega arith;
  fits = omega arith;
  bounded = omega arith;
  drained = λ b n. absurd (omega (arith, n));
}

pub Reachable-IsSound : (capacity : ℕ) (s : System) → Reachable capacity s → IsSound s
Reachable-IsSound capacity _ starts = start-IsSound capacity
Reachable-IsSound capacity _ (steps s t r step) =
    Step-IsSound s t (Reachable-IsSound capacity s r) step
