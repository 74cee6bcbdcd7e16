-- ===== src/IdSet/Laws.antt =====
-- The compact sets behave as sets of identities, in their smallest representation
-- (crates/vthread/src/cancellation_id_set.rs, cancellation_parent_set.rs).
use vthread.Prelude.{
  ℕ, ◌+◌, ◌≤◌, ◌≡◌, ◌≢◌, refl, Bool, true, false, ◌||◌, List, [], ◌∷◌, length, ◌==◌, if◌then◌else◌,
  arith, Occurs, Distinct, inl, inr, ==_refl, ==_ne, ==_iff, Bool-cases, ap, sym, subst, not, ◌∙◌,
}
use vthread.IdSet.{
  IdSet, empty, one, many, holds, hash_remove, len, contains, insert, remove, compact, insert_all,
}

-- A table holds at least two identities, each once.
abbrev pub IsCompact : IdSet → Type 0
IsCompact empty = Unit
IsCompact (one id) = Unit
IsCompact (many ids) = (2 ≤ length ids) × Distinct ids

holds-Occurs : (id : ℕ) (ids : List ℕ) → holds id ids ≡ false → Occurs id ids → ⊥
holds-Occurs id [] h o = o
holds-Occurs id (x ∷ ids) h (inl e) = ground (arith, ==_refl x)
holds-Occurs id (x ∷ ids) h (inr o) = holds-Occurs id ids (ground arith) o

Occurs-holds : (id : ℕ) (ids : List ℕ) → (Occurs id ids → ⊥) → holds id ids ≡ false
Occurs-holds id [] h = refl
Occurs-holds id (x ∷ ids) h =
    rw (==_ne x id (λ e. h (inl e)), Occurs-holds id ids (λ o. h (inr o))) refl

-- A removal from the table.
holds-hash_remove :
    (id other : ℕ) (ids : List ℕ) → id ≢ other → holds other (hash_remove id ids) ≡ holds other ids
holds-hash_remove id other [] ne = refl
holds-hash_remove id other (x ∷ ids) ne =
    ground (arith, holds-hash_remove id other ids ne, ==_ne id other ne)

holds-hash_removed : (id : ℕ) (ids : List ℕ) → Distinct ids → holds id (hash_remove id ids) ≡ false
holds-hash_removed id [] d = refl
holds-hash_removed id (x ∷ ids) d = elim (Bool-cases (x == id)) [
  | inl e ↦
      let same : x ≡ id = (==_iff x id).0 e in
      rw e (Occurs-holds id ids (λ o. d.0 (subst (λ i. Occurs i ids) (sym same) o)))
  | inr e ↦ rw (e, e) (holds-hash_removed id ids d.1)
]

length-hash_remove :
    (id : ℕ) (ids : List ℕ) → holds id ids ≡ true → length (hash_remove id ids) + 1 ≡ length ids
length-hash_remove id [] h = absurd (cc)
length-hash_remove id (x ∷ ids) h = elim (Bool-cases (x == id)) [
  | inl e ↦ rw e (omega arith)
  | inr e ↦
      let rest : length (hash_remove id ids) + 1 ≡ length ids =
        length-hash_remove id ids (ground arith) in
      rw e (omega arith)
]

Occurs-hash_remove : (id i : ℕ) (ids : List ℕ) → Occurs i (hash_remove id ids) → Occurs i ids
Occurs-hash_remove id i [] o = o
Occurs-hash_remove id i (x ∷ ids) o =
    go (x == id) (hash_remove id ids) (λ p. Occurs-hash_remove id i ids p) o
  where
    go :
        (b : Bool) (rest : List ℕ)
        → (Occurs i rest → Occurs i ids)
        → Occurs i (if b then ids else x ∷ rest)
        → Occurs i (x ∷ ids)
    go true rest within o = inr o
    go false rest within (inl e) = inl e
    go false rest within (inr o) = inr (within o)

Distinct-hash_remove : (id : ℕ) (ids : List ℕ) → Distinct ids → Distinct (hash_remove id ids)
Distinct-hash_remove id [] d = tt
Distinct-hash_remove id (x ∷ ids) d =
    go (x == id) (hash_remove id ids) (Distinct-hash_remove id ids d.1)
      (λ o. d.0 (Occurs-hash_remove id x ids o))
  where
    go :
        (b : Bool) (rest : List ℕ)
        → Distinct rest
        → (Occurs x rest → ⊥)
        → Distinct (if b then ids else x ∷ rest)
    go true rest e n = d.1
    go false rest e n = (n, e)

contains-compact : (other : ℕ) (ids : List ℕ) → contains other (compact ids) ≡ holds other ids
unfolding contains compact
contains-compact other [] = refl
contains-compact other (x ∷ []) = ground arith
contains-compact other (x ∷ y ∷ ids) = refl

IsCompact-compact : (ids : List ℕ) → 1 ≤ length ids → Distinct ids → IsCompact (compact ids)
unfolding compact
IsCompact-compact [] h d = absurd (omega arith)
IsCompact-compact (x ∷ []) h d = tt
IsCompact-compact (x ∷ y ∷ ids) h d = (omega arith, d)

len-compact : (ids : List ℕ) → len (compact ids) ≡ length ids
unfolding len compact
len-compact [] = refl
len-compact (x ∷ []) = refl
len-compact (x ∷ y ∷ ids) = refl

-- What an insertion leaves: `fresh` says whether the set grew.
pub record Inserts (id : ℕ) (s : IdSet) (fresh : Bool) (s' : IdSet) : Type 0 where
  pub compact : IsCompact s'
  pub reported : fresh ≡ not (contains id s)
  pub held : contains id s' ≡ true
  pub others : (other : ℕ) → id ≢ other → contains other s' ≡ contains other s
  pub size : len s' ≡ len s + (if fresh then 1 else 0)

-- What a removal leaves: `found` says whether the set shrank.
pub record Removes (id : ℕ) (s : IdSet) (found : Bool) (s' : IdSet) : Type 0 where
  pub compact : IsCompact s'
  pub reported : found ≡ contains id s
  pub gone : contains id s' ≡ false
  pub others : (other : ℕ) → id ≢ other → contains other s' ≡ contains other s
  pub size : len s' + (if found then 1 else 0) ≡ len s

or_false : (b : Bool) → (b || false) ≡ b
or_false true = refl
or_false false = refl

or_true : (b : Bool) → (b || true) ≡ true
or_true true = refl
or_true false = refl

differs : (x id : ℕ) → x ≡ id → (x == id) ≡ false → ⊥
differs x id e f = ground arith

once : (x id : ℕ) → (x == id) ≡ false → Occurs id (x ∷ []) → ⊥
once x id e (inl same) = ground arith
once x id e (inr o) = o

-- An insertion into a compact set adds that identity and no other, reports whether it is new, counts
-- it once and keeps the representation compact.
pub insert-Inserts :
    (id : ℕ) (s : IdSet) → IsCompact s → Inserts id s (insert id s).0 (insert id s).1
unfolding insert contains len
insert-Inserts id empty c = record {
  compact = tt;
  reported = refl;
  held = ==_refl id;
  others = λ other ne. ==_ne id other ne;
  size = refl;
}
insert-Inserts id (one x) c = elim (Bool-cases (x == id)) [
  | inl e ↦ rw e (record {
    compact = tt;
    reported = rw e refl;
    held = e;
    others = λ other ne. refl;
    size = refl;
  })
  | inr e ↦ rw e (record {
    compact = (omega arith, ((λ o. once x id e o), ((λ o. o), tt)));
    reported = rw e refl;
    held = rw (==_refl id) refl;
    others = λ other ne. rw (==_ne id other ne) (or_false (x == other));
    size = refl;
  })
]
insert-Inserts id (many ids) c = elim (Bool-cases (holds id ids)) [
  | inl e ↦ rw e (record {
    compact = c;
    reported = rw e refl;
    held = e;
    others = λ other ne. refl;
    size = omega arith;
  })
  | inr e ↦ rw e (record {
    compact = (omega (arith, c.0), (holds-Occurs id ids e, c.1));
    reported = rw e refl;
    held = rw (==_refl id) refl;
    others = λ other ne. rw (==_ne id other ne) refl;
    size = omega arith;
  })
]

-- A removal from a compact set takes that identity out and no other, reports whether it was there,
-- counts it once and keeps the representation compact.
pub remove-Removes :
    (id : ℕ) (s : IdSet) → IsCompact s → Removes id s (remove id s).0 (remove id s).1
unfolding remove contains len
remove-Removes id empty c = record {
  compact = tt;
  reported = refl;
  gone = refl;
  others = λ other ne. refl;
  size = refl;
}
remove-Removes id (one x) c = elim (Bool-cases (x == id)) [
  | inl e ↦ rw e (record {
    compact = tt;
    reported = rw e refl;
    gone = refl;
    others = λ other ne. sym (==_ne x other (λ q. ne (sym ((==_iff x id).0 e) ∙ q)));
    size = refl;
  })
  | inr e ↦ rw e (record {
    compact = tt;
    reported = rw e refl;
    gone = e;
    others = λ other ne. refl;
    size = refl;
  })
]
remove-Removes id (many ids) c = elim (Bool-cases (holds id ids)) [
  | inl e ↦
      let shorter : length (hash_remove id ids) + 1 ≡ length ids = length-hash_remove id ids e in
      rw e (record {
        compact =
            IsCompact-compact (hash_remove id ids) (omega (arith, c.0))
              (Distinct-hash_remove id ids c.1);
        reported = rw e refl;
        gone = contains-compact id (hash_remove id ids) ∙ holds-hash_removed id ids c.1;
        others = λ other ne.
            contains-compact other (hash_remove id ids) ∙ holds-hash_remove id other ids ne;
        size = ap (λ (n : ℕ). n + 1) (len-compact (hash_remove id ids)) ∙ shorter;
      })
  | inr e ↦ rw e (record {
    compact = c;
    reported = rw e refl;
    gone = e;
    others = λ other ne. refl;
    size = omega arith;
  })
]

-- Inserting identities one by one, as collecting and extending do, gives the union, whatever the
-- order and the repetitions, and keeps the representation compact.
insert_all-union :
    (ids : List ℕ) (s : IdSet)
    → IsCompact s
    → IsCompact (insert_all ids s)
      × ((other : ℕ) → contains other (insert_all ids s) ≡ (holds other ids || contains other s))
unfolding insert_all
insert_all-union [] s c = (c, λ other. refl)
insert_all-union (id ∷ ids) s c =
    let grown = insert-Inserts id s c in
    let rest = insert_all-union ids (insert id s).1 grown.compact in
    (rest.0, λ other. rest.1 other ∙ member other grown)
  where
    member :
        (other : ℕ)
        → Inserts id s (insert id s).0 (insert id s).1
        → (holds other ids || contains other (insert id s).1)
          ≡ ((id == other || holds other ids) || contains other s)
    member other grown = elim (Bool-cases (id == other)) [
      | inl e ↦
          let same : id ≡ other = (==_iff id other).0 e in
          rw (e, subst (λ k. contains k (insert id s).1 ≡ true) same grown.held)
            (or_true (holds other ids))
      | inr e ↦ rw (e, grown.others other (λ q. differs id other q e)) refl
    ]
