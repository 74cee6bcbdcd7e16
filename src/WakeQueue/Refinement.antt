-- ===== src/WakeQueue/Refinement.antt =====
-- The intrusive queue is a first-in first-out queue of slots, in the order in which the producers
-- linked them (crates/vthread/src/wake_queue_core.rs).
use vthread.Prelude.{
  ℕ, ◌+◌, ◌*◌, ◌<◌, ◌≡◌, ◌≢◌, refl, inl, inr, false, List, [], ◌∷◌, ◌++◌, ◌==◌, if◌then◌else◌,
  arith, Occurs, Distinct, ap, sym, ◌∙◌, subst, append_assoc, ==_ne, ==_refl, ==_iff, Bool-cases,
}
use vthread.WaitWord.{WakeCause}
use vthread.WakeQueue.{WakeQueue, update, sleeping, index_of, is_sleeping, cause_code, link}
use vthread.WakeQueue.Reversal.{Chain, Chain-update, reverse_onto, reverse_onto-append}

-- Where a slot is: with a producer before its link, in the producers' list or in the owner's.
pub data Lane : Type 0 where
  free reserved stacked queued : Lane

-- A slot that is in use holds a task and a selection that can be decoded.
pub record IsHeld (q : WakeQueue) (i : ℕ) : Type 0 where
  pub positive : 0 < i
  pub within : i < q.slot_count
  pub occupied : 0 < q.task i
  pub cause : WakeCause
  pub generation : ℕ
  pub packed : q.selection i ≡ generation * 8 + cause_code cause

abbrev pub Holds : WakeQueue → Lane → ℕ → Type 0
Holds q free i = q.task i ≡ 0
Holds q reserved i = IsHeld q i
Holds q stacked i = IsHeld q i
Holds q queued i = IsHeld q i

-- The queue's slots in service order are `taken`, then `fresh` from its end.
pub record Represents (q : WakeQueue) (lane : ℕ → Lane) (taken fresh : List ℕ) : Type 0 where
  pub room : q.slot_count < sleeping
  pub head_chain : Chain q.next (index_of q.head) fresh
  pub owner_chain : Chain q.next q.consumer taken
  pub fresh_distinct : Distinct fresh
  pub taken_distinct : Distinct taken
  pub fresh_lane : (i : ℕ) → Occurs i fresh → lane i ≡ stacked
  pub taken_lane : (i : ℕ) → Occurs i taken → lane i ≡ queued
  pub slots : (i : ℕ) → Holds q (lane i) i

-- The abstract queue: slots in the order in which they are served.
abbrev pub order : List ℕ → List ℕ → List ℕ
order taken fresh = taken ++ reverse_onto fresh []

abbrev pub relane : (ℕ → Lane) → ℕ → Lane → ℕ → Lane
relane lane i l j = if i == j then l else lane j

pub update_self : (f : ℕ → ℕ) (i v : ℕ) → update f i v i ≡ v
update_self f i v = rw (==_refl i)

pub update_ne : (f : ℕ → ℕ) (i v j : ℕ) → i ≢ j → update f i v j ≡ f j
update_ne f i v j h = rw (==_ne i j h)

==_differs : (i j : ℕ) → i ≡ j → (i == j) ≡ false → ⊥
==_differs i j e f = ground arith

pub relane_elim :
    (P : Lane → Type 0) (lane : ℕ → Lane) (i : ℕ) (l : Lane) (j : ℕ)
    → (i ≡ j → P l)
    → (i ≢ j → P (lane j))
    → P (relane lane i l j)
relane_elim P lane i l j here other = elim (Bool-cases (i == j)) [
  | inl e ↦ rw e (here ((==_iff i j).0 e))
  | inr e ↦ rw e (other (λ same. ==_differs i j same e))
]

pub relane_ne : (lane : ℕ → Lane) (i : ℕ) (l : Lane) (j : ℕ) → i ≢ j → relane lane i l j ≡ lane j
relane_ne lane i l j h = rw (==_ne i j h)

pub relane_self : (lane : ℕ → Lane) (i : ℕ) (l : Lane) → relane lane i l i ≡ l
relane_self lane i l = rw (==_refl i)

-- What the slots hold does not depend on the links.
pub IsHeld-links :
    (q : WakeQueue) (next : ℕ → ℕ) (head consumer j : ℕ)
    → IsHeld q j
    → IsHeld (record q { next = next; head = head; consumer = consumer }) j
IsHeld-links q next head consumer j h = record {
  positive = h.positive;
  within = h.within;
  occupied = h.occupied;
  cause = h.cause;
  generation = h.generation;
  packed = h.packed;
}

pub Holds-links :
    (q : WakeQueue) (next : ℕ → ℕ) (head consumer : ℕ) (l : Lane) (j : ℕ)
    → Holds q l j
    → Holds (record q { next = next; head = head; consumer = consumer }) l j
Holds-links q next head consumer free j h = h
Holds-links q next head consumer reserved j h = IsHeld-links q next head consumer j h
Holds-links q next head consumer stacked j h = IsHeld-links q next head consumer j h
Holds-links q next head consumer queued j h = IsHeld-links q next head consumer j h

-- A slot of another lane is not in a list.
pub apart :
    (lane : ℕ → Lane) (l m : Lane) (xs : List ℕ) (i : ℕ)
    → ((j : ℕ) → Occurs j xs → lane j ≡ l)
    → lane i ≡ m
    → l ≢ m
    → Occurs i xs
    → ⊥
apart lane l m xs i all own differ o = differ (sym (all i o) ∙ own)

-- A link by the producer that reserved slot `i` appends `i` to the queue, and asks for a notification
-- exactly when the owner had armed its sleep. The notices in the slots stay as they are.
pub link-Represents :
    (q : WakeQueue) (lane : ℕ → Lane) (taken fresh : List ℕ) (i : ℕ)
    → Represents q lane taken fresh
    → lane i ≡ reserved
    → Represents (link i q).1 (relane lane i stacked) taken (i ∷ fresh)
      × (order taken (i ∷ fresh) ≡ order taken fresh ++ i ∷ [])
      × ((link i q).0 ≡ is_sleeping q.head)
      × ((j : ℕ)
          → ((link i q).1.task j ≡ q.task j)
            × ((link i q).1.wait j ≡ q.wait j)
            × ((link i q).1.selection j ≡ q.selection j))
unfolding link
link-Represents q lane taken fresh i r own = (
  record {
    room = r.room;
    head_chain = (
      omega (arith, held.within, r.room),
      held.positive,
      subst (λ n. Chain (update q.next i (index_of q.head)) n fresh)
          (sym (update_self q.next i (index_of q.head)))
          (Chain-update q.next i (index_of q.head) (index_of q.head) fresh out_fresh r.head_chain),
    );
    owner_chain =
        Chain-update q.next i (index_of q.head) q.consumer taken
          (apart lane queued reserved taken i r.taken_lane own (λ e. cc)) r.owner_chain;
    fresh_distinct = (out_fresh, r.fresh_distinct);
    taken_distinct = r.taken_distinct;
    fresh_lane = λ j o.
        relane_elim (λ l. l ≡ stacked) lane i stacked j (λ e. refl)
          (λ ne. elim o [ inl e ↦ absurd (ne e) | inr o' ↦ r.fresh_lane j o' ]);
    taken_lane = λ j o.
        relane_elim (λ l. l ≡ queued) lane i stacked j (λ e. cc (ap lane e, own, r.taken_lane j o))
          (λ ne. r.taken_lane j o);
    slots = λ j.
        relane_elim (λ l. Holds (link i q).1 l j) lane i stacked j
          (λ e. subst (IsHeld (link i q).1) e (IsHeld-links q _ _ _ i held))
          (λ ne. Holds-links q _ _ _ (lane j) j (r.slots j));
  },
  ap (λ (l : List ℕ). taken ++ l) (reverse_onto-append fresh [] (i ∷ []))
      ∙ sym (append_assoc taken (reverse_onto fresh []) (i ∷ [])),
  refl,
  λ j. (refl, refl, refl),
)
  where
    held : IsHeld q i
    held = subst (λ l. Holds q l i) own (r.slots i)

    out_fresh : Occurs i fresh → ⊥
    out_fresh = apart lane stacked reserved fresh i r.fresh_lane own (λ e. cc)
