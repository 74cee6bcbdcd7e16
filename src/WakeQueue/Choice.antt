-- ===== src/WakeQueue/Choice.antt =====
-- Which slot the owner serves next (crates/vthread/src/wake_queue_core.rs, `pop` up to its slot).
use vthread.Prelude.{
  ℕ, ◌<◌, returns, ◌≤◌, ◌≡◌, ◌≢◌, refl, ◌⊎◌, inl, inr, List, [], ◌∷◌, length, ◌==◌, arith, Occurs,
  Distinct, ap, sym, ◌∙◌, subst, append-nil, ==_iff, Bool-cases,
}
use vthread.WakeQueue.{WakeQueue, index_of, reverse, choose}
use vthread.WakeQueue.Reversal.{Chain, reverse_onto, reverse_loop-Chain, below_bound}
use vthread.WakeQueue.Refinement.{
  Lane, free, reserved, stacked, queued, Holds, Represents, order, Holds-links,
}

Occurs-reverse_onto :
    (i : ℕ) (xs ys : List ℕ) → Occurs i (reverse_onto xs ys) → Occurs i xs ⊎ Occurs i ys
Occurs-reverse_onto i [] ys o = inr o
Occurs-reverse_onto i (x ∷ xs) ys o = elim (Occurs-reverse_onto i xs (x ∷ ys) o) [
  | inl p ↦ inl (inr p)
  | inr p ↦ elim p [ inl e ↦ inl (inl e) | inr q ↦ inr q ]
]

Distinct-reverse_onto :
    (xs ys : List ℕ)
    → Distinct xs
    → Distinct ys
    → ((i : ℕ) → Occurs i xs → Occurs i ys → ⊥)
    → Distinct (reverse_onto xs ys)
Distinct-reverse_onto [] ys d e out = e
Distinct-reverse_onto (x ∷ xs) ys d e out =
    Distinct-reverse_onto xs (x ∷ ys) d.1 (out x (inl refl), e)
      λ i o. elim [
        | inl same ↦ d.0 (subst (λ k. Occurs k xs) (sym same) o)
        | inr p ↦ out i (inr o) p
      ]

-- The owner takes the producers' list over.
abbrev promote : Lane → Lane
promote stacked = queued
promote l = l

Holds-promote : (q : WakeQueue) (l : Lane) (i : ℕ) → Holds q l i → Holds q (promote l) i
Holds-promote q free i h = h
Holds-promote q reserved i h = h
Holds-promote q stacked i h = h
Holds-promote q queued i h = h

fresh_within :
    (q : WakeQueue) (lane : ℕ → Lane) (taken fresh : List ℕ)
    → Represents q lane taken fresh
    → (i : ℕ) → Occurs i fresh
    → i < q.slot_count
fresh_within q lane taken fresh r i o =
    (subst (λ l. Holds q l i) (r.fresh_lane i o) (r.slots i)).within

fresh_short :
    (q : WakeQueue) (lane : ℕ → Lane) (taken fresh : List ℕ)
    → Represents q lane taken fresh
    → length fresh ≤ q.slot_count
fresh_short q lane taken fresh r =
    below_bound q.slot_count fresh (fresh_within q lane taken fresh r) r.fresh_distinct

-- The queue whose owner's list is the producers' list turned round.
promoted :
    (q : WakeQueue) (lane : ℕ → Lane) (fresh : List ℕ) (next : ℕ → ℕ) (first : ℕ)
    → Represents q lane [] fresh
    → Chain next first (reverse_onto fresh [])
    → Represents
        (record q { next = next; head = 0; consumer = first })
        (λ i. promote (lane i))
        (reverse_onto fresh [])
        []
promoted q lane fresh next first r chain = record {
  room = r.room;
  head_chain = refl;
  owner_chain = chain;
  fresh_distinct = tt;
  taken_distinct = Distinct-reverse_onto fresh [] r.fresh_distinct tt (λ i o p. p);
  fresh_lane = λ i o. absurd o;
  taken_lane = λ i o. elim (Occurs-reverse_onto i fresh [] o) [
    | inl p ↦ ap promote (r.fresh_lane i p)
    | inr p ↦ absurd p
  ];
  slots = λ i.
      Holds-links (record q { next = next }) next 0 first (promote (lane i)) i
        (Holds-links q next _ _ (promote (lane i)) i (Holds-promote q (lane i) i (r.slots i)));
}

-- What `choose` finds: the first slot of the order, and an owner's list that begins with it.
pub record Chosen (q : WakeQueue) (taken fresh : List ℕ) : Type 0 where
  pub slot : ℕ
  pub next : ℕ → ℕ
  pub head : ℕ
  pub lane' : ℕ → Lane
  pub taken' : List ℕ
  pub fresh' : List ℕ
  pub chosen : choose q ≡ returns (slot, record q { next = next; head = head })
  pub queue :
      Represents
        (record q { next = next; head = head; consumer = slot })
        lane'
        (slot ∷ taken')
        fresh'
  pub first : order taken fresh ≡ slot ∷ order taken' fresh'

choose_taken :
    (q : WakeQueue) (lane : ℕ → Lane) (j : ℕ) (js fresh : List ℕ)
    → Represents q lane (j ∷ js) fresh
    → Chosen q (j ∷ js) fresh
unfolding choose
choose_taken q lane j js fresh r = record {
  slot = j;
  next = q.next;
  head = q.head;
  lane' = lane;
  taken' = js;
  fresh' = fresh;
  chosen = ground (arith, r.owner_chain.0, r.owner_chain.1);
  queue = record {
    room = r.room;
    head_chain = r.head_chain;
    owner_chain = (refl, r.owner_chain.1, r.owner_chain.2);
    fresh_distinct = r.fresh_distinct;
    taken_distinct = r.taken_distinct;
    fresh_lane = r.fresh_lane;
    taken_lane = r.taken_lane;
    slots = λ i. Holds-links q q.next q.head j (lane i) i (r.slots i);
  };
  first = refl;
}

-- A list turned round is not empty, and its chain begins with its first slot.
first_of_chain :
    (q : WakeQueue) (lane : ℕ → Lane) (fresh xs : List ℕ) (next : ℕ → ℕ) (first : ℕ)
    → Represents (record q { next = next; head = 0; consumer = first }) lane xs []
    → xs ≢ []
    → choose q ≡ returns (first, record q { next = next; head = 0 })
    → reverse_onto fresh [] ≡ xs
    → Chosen q [] fresh
first_of_chain q lane fresh [] next first r ne e o = absurd (ne refl)
first_of_chain q lane fresh (x ∷ xs) next first r ne e o = record {
  slot = x;
  next = next;
  head = 0;
  lane' = lane;
  taken' = xs;
  fresh' = [];
  chosen =
      subst (λ k. choose q ≡ returns (k, record q { next = next; head = 0 })) r.owner_chain.0 e;
  queue =
      subst (λ k. Represents (record q { next = next; head = 0; consumer = k }) lane (x ∷ xs) [])
        r.owner_chain.0 r;
  first = o ∙ ap (λ (l : List ℕ). x ∷ l) (sym (append-nil xs));
}

pub reverse_onto_nonempty : (xs : List ℕ) (y : ℕ) (ys : List ℕ) → reverse_onto xs (y ∷ ys) ≢ []
reverse_onto_nonempty [] y ys e = cc
reverse_onto_nonempty (x ∷ xs) y ys e = reverse_onto_nonempty xs x (y ∷ ys) e

-- A chain whose first slot has no successor has one slot.
single : (next : ℕ → ℕ) (j : ℕ) (js : List ℕ) → Chain next (next j) js → next j ≡ 0 → js ≡ []
single next j [] c e = refl
single next j (k ∷ js) c e = absurd (omega (arith, c.0, c.1))

choose_fresh :
    (q : WakeQueue) (lane : ℕ → Lane) (j : ℕ) (js : List ℕ)
    → Represents q lane [] (j ∷ js)
    → Chosen q [] (j ∷ js)
unfolding choose reverse
choose_fresh q lane j js r = elim (Bool-cases (q.next j == 0)) [
  | inl e ↦
      let alone = single q.next j js r.head_chain.2 ((==_iff _ 0).0 e) in
      first_of_chain q (λ i. promote (lane i)) (j ∷ js) (reverse_onto (j ∷ js) []) q.next j
        (promoted q lane (j ∷ js) q.next j r (
          subst (λ l. Chain q.next j (reverse_onto (j ∷ l) [])) (sym alone)
            (refl, r.head_chain.1, (==_iff _ 0).0 e)))
        (reverse_onto_nonempty js j [])
        (ground (arith, r.owner_chain, r.head_chain.0, r.head_chain.1, within, e)) refl
  | inr more ↦
      let (first, next, run, chain) =
        reverse_loop-Chain q.slot_count q.slot_count q.next (index_of q.head) 0 (j ∷ js) []
          (fresh_short q lane [] (j ∷ js) r) (fresh_within q lane [] (j ∷ js) r) r.head_chain refl
          r.fresh_distinct (λ i o p. p) in
      first_of_chain q (λ i. promote (lane i)) (j ∷ js) (reverse_onto (j ∷ js) []) next first
        (promoted q lane (j ∷ js) next first r chain) (reverse_onto_nonempty js j [])
        (ground (arith, r.owner_chain, r.head_chain.0, r.head_chain.1, within, more, run)) refl
]
  where
    within : j < q.slot_count
    within = fresh_within q lane [] (j ∷ js) r j (inl refl)

pub choose-Chosen :
    (q : WakeQueue) (lane : ℕ → Lane) (taken fresh : List ℕ)
    → Represents q lane taken fresh
    → (order taken fresh ≡ []) ⊎ Chosen q taken fresh
choose-Chosen q lane [] [] r = inl refl
choose-Chosen q lane [] (j ∷ js) r = inr (choose_fresh q lane j js r)
choose-Chosen q lane (j ∷ js) fresh r = inr (choose_taken q lane j js fresh r)

pub choose_empty :
    (q : WakeQueue) (lane : ℕ → Lane) (taken fresh : List ℕ)
    → Represents q lane taken fresh
    → order taken fresh ≡ []
    → choose q ≡ returns (0, q)
unfolding choose
choose_empty q lane [] [] r e = ground (arith, r.owner_chain, r.head_chain)
choose_empty q lane [] (j ∷ js) r e = absurd (reverse_onto_nonempty js j [] e)
choose_empty q lane (j ∷ js) fresh r e = cc
