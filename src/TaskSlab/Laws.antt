-- ===== src/TaskSlab/Laws.antt =====
-- The slab is a map from indices to values whose freed indices are used again
-- (crates/vthread/src/task_slab.rs).
use native.Mathlib.Decide.{ℕ_discrete}
use vthread.Prelude.{
  ℕ, zero, suc, ◌+◌, ◌<◌, ◌≡◌, ◌≢◌, refl, ◌⊎◌, inl, inr, Option, none, some, List, [], ◌∷◌, ◌++◌,
  length, get_elem?, set, returns, arith, Occurs, Distinct, get_elem?-set_self, get_elem?-set_ne,
  get_elem?-lt, get_elem?-ge, length-set, length-append, ap, sym, ◌∙◌, subst,
}
use vthread.TaskSlab.{TaskSlab, flatten, new, insert, get, remove, len}

module _ {T : Type 0} where
  -- The occupied slots.
  pub live : List (Option T) → ℕ
  live [] = 0
  live (none ∷ xs) = live xs
  live (some x ∷ xs) = suc (live xs)

  -- The vacant stack lists exactly the empty slots, each once.
  pub record IsValid (s : TaskSlab T) : Type 0 where
    pub empty : (i : ℕ) → Occurs i s.vacant → get_elem? s.slots i ≡ some none
    pub listed : (i : ℕ) → get_elem? s.slots i ≡ some none → Occurs i s.vacant
    pub distinct : Distinct s.vacant
    pub counted : live s.slots + length s.vacant ≡ length s.slots

  live-append : (xs : List (Option T)) (v : T) → live (xs ++ some v ∷ []) ≡ suc (live xs)
  unfolding live
  live-append [] v = refl
  live-append (none ∷ xs) v = live-append xs v
  live-append (some x ∷ xs) v = ap suc (live-append xs v)

  live-fill :
      (xs : List (Option T)) (i : ℕ) (v : T)
      → get_elem? xs i ≡ some none
      → live (set xs i (some v)) ≡ suc (live xs)
  unfolding live
  live-fill [] i v h = absurd (cc)
  live-fill (none ∷ xs) zero v h = refl
  live-fill (some x ∷ xs) zero v h = absurd (cc)
  live-fill (none ∷ xs) (suc i) v h = live-fill xs i v h
  live-fill (some x ∷ xs) (suc i) v h = ap suc (live-fill xs i v h)

  live-clear :
      (xs : List (Option T)) (i : ℕ) (v : T)
      → get_elem? xs i ≡ some (some v)
      → suc (live (set xs i none)) ≡ live xs
  unfolding live
  live-clear [] i v h = absurd (cc)
  live-clear (none ∷ xs) zero v h = absurd (cc)
  live-clear (some x ∷ xs) zero v h = refl
  live-clear (none ∷ xs) (suc i) v h = live-clear xs i v h
  live-clear (some x ∷ xs) (suc i) v h = ap suc (live-clear xs i v h)

  get_elem?-append_new :
      (xs : List (Option T)) (o : Option T) → get_elem? (xs ++ o ∷ []) (length xs) ≡ some o
  get_elem?-append_new [] o = refl
  get_elem?-append_new (x ∷ xs) o = get_elem?-append_new xs o

  get_elem?-append_ne :
      (xs : List (Option T)) (o : Option T) (i : ℕ)
      → i ≢ length xs
      → get_elem? (xs ++ o ∷ []) i ≡ get_elem? xs i
  get_elem?-append_ne [] o zero h = absurd (h refl)
  get_elem?-append_ne [] o (suc i) h = refl
  get_elem?-append_ne (x ∷ xs) o zero h = refl
  get_elem?-append_ne (x ∷ xs) o (suc i) h = get_elem?-append_ne xs o i (λ e. h (ap suc e))

  pub new-IsValid : IsValid new
  unfolding new live
  new-IsValid = record {
    empty = λ i o. absurd o;
    listed = λ i e. absurd (cc);
    distinct = tt;
    counted = refl;
  }

  -- What an insertion at `index` leaves behind.
  pub record Inserted (value : T) (s : TaskSlab T) (index : ℕ) (s' : TaskSlab T) : Type 0 where
    pub valid : IsValid s'
    pub free : get index s ≡ none
    pub stored : get index s' ≡ some value
    pub others : (i : ℕ) → i ≢ index → get i s' ≡ get i s
    pub grown : len s' ≡ len s + 1

  -- With no vacant slot.
  insert_new :
      (value : T) (s : TaskSlab T)
      → IsValid s
      → s.vacant ≡ []
      → Inserted value s (length s.slots) (record s { slots = s.slots ++ some value ∷ [] })
  unfolding get len
  insert_new value s v e = record {
    valid = record {
      empty = λ i o. absurd (subst (Occurs i) e o);
      listed = λ i h. elim (ℕ_discrete i (length s.slots)) [
        | yes last ↦ absurd (
            cc (
              get_elem?-append_new s.slots (some value),
              ap (get_elem? (s.slots ++ some value ∷ [])) last,
            ))
        | no other ↦ v.listed i (sym (get_elem?-append_ne s.slots (some value) i other) ∙ h)
      ];
      distinct = v.distinct;
      counted =
          omega
            (arith, v.counted, live-append s.slots value, length-append s.slots (some value ∷ []));
    };
    free = ap flatten (get_elem?-ge s.slots (length s.slots) (omega arith));
    stored = rw (get_elem?-append_new s.slots (some value));
    others = λ i h. ap flatten (get_elem?-append_ne s.slots (some value) i h);
    grown = omega (arith, ap length e, length-append s.slots (some value ∷ []));
  }

  -- With a vacant slot.
  insert_old :
      (value : T) (index : ℕ) (vacant : List ℕ) (s : TaskSlab T)
      → IsValid s
      → s.vacant ≡ index ∷ vacant
      → Inserted value s index (record { slots = set s.slots index (some value); vacant = vacant })
  unfolding get len
  insert_old value index vacant s v e = record {
    valid = record {
      empty = λ i o.
          get_elem?-set_ne s.slots (some value)
            (λ same. (unlisted.0) (subst (λ k. Occurs k vacant) (sym same) o))
          ∙ v.empty i (subst (Occurs i) (sym e) (inr o));
      listed = λ i h. elim (ℕ_discrete index i) [
        | yes same ↦ absurd (cc (get_elem?-set_self s.slots index (some value) here, h, same))
        | no other ↦
            elim (subst (Occurs i) e
              (v.listed i (sym (get_elem?-set_ne s.slots (some value) other) ∙ h))) [
                | inl same ↦ absurd (other same)
                | inr o ↦ o
              ]
      ];
      distinct = unlisted.1;
      counted = omega (
        arith,
        v.counted,
        ap length e,
        live-fill s.slots index value hole,
        length-set s.slots index (some value),
      );
    };
    free = ap flatten hole;
    stored = ap flatten (get_elem?-set_self s.slots index (some value) here);
    others = λ i h. ap flatten (get_elem?-set_ne s.slots (some value) (λ same. h (sym same)));
    grown = omega (arith, v.counted, ap length e, length-set s.slots index (some value));
  }
    where
      hole : get_elem? s.slots index ≡ some none
      hole = v.empty index (subst (Occurs index) (sym e) (inl refl))

      here : index < length s.slots
      here = get_elem?-lt s.slots index hole

      unlisted : Distinct (index ∷ vacant)
      unlisted = subst Distinct e v.distinct

  -- An insertion into a valid slab never panics: it returns an index that was free, stores the value
  -- there and changes no other index, and the slab stays valid with one more task.
  pub insert-Inserted :
      (value : T) (s : TaskSlab T)
      → IsValid s
      → (index : ℕ) × (s' : TaskSlab T) × (insert value s ≡ returns (index, s'))
        × Inserted value s index s'
  unfolding insert
  insert-Inserted value s v = go s.vacant refl
    where
      go :
          (vacant : List ℕ)
          → s.vacant ≡ vacant
          → (index : ℕ) × (s' : TaskSlab T) × (insert value s ≡ returns (index, s'))
            × Inserted value s index s'
      go [] e = (
        length s.slots,
        record s { slots = s.slots ++ some value ∷ [] },
        ground arith,
        insert_new value s v e,
      )
      go (index ∷ vacant) e = (
        index,
        _,
        rw (e, insert) (rw (v.empty index (subst (Occurs index) (sym e) (inl refl)))),
        insert_old value index vacant s v e,
      )

  -- What the removal of a stored value leaves behind.
  pub record Freed (index : ℕ) (s s' : TaskSlab T) : Type 0 where
    pub valid : IsValid s'
    pub gone : get index s' ≡ none
    pub others : (i : ℕ) → i ≢ index → get i s' ≡ get i s
    pub shrunk : len s' + 1 ≡ len s

  remove_stored :
      (index : ℕ) (value : T) (s : TaskSlab T)
      → IsValid s
      → get_elem? s.slots index ≡ some (some value)
      → Freed index s (record { slots = set s.slots index none; vacant = index ∷ s.vacant })
  unfolding get len
  remove_stored index value s v h = record {
    valid = record {
      empty = λ i o. elim (ℕ_discrete index i) [
        | yes same ↦ subst (λ k. get_elem? (set s.slots index none) k ≡ some none) same cleared
        | no other ↦ elim o [
          | inl same ↦ absurd (other same)
          | inr o' ↦ get_elem?-set_ne s.slots none other ∙ v.empty i o'
        ]
      ];
      listed = λ i e. elim (ℕ_discrete index i) [
        | yes same ↦ inl same
        | no other ↦ inr (v.listed i (sym (get_elem?-set_ne s.slots none other) ∙ e))
      ];
      distinct = (λ o. absurd (cc (v.empty index o, h)), v.distinct);
      counted =
          omega (arith, v.counted, live-clear s.slots index value h, length-set s.slots index none);
    };
    gone = ap flatten cleared;
    others = λ i e. ap flatten (get_elem?-set_ne s.slots none (λ same. e (sym same)));
    shrunk =
        omega (arith, v.counted, live-clear s.slots index value h, length-set s.slots index none);
  }
    where
      cleared : get_elem? (set s.slots index none) index ≡ some none
      cleared = get_elem?-set_self s.slots index none (get_elem?-lt s.slots index h)

  -- A removal from a valid slab returns what the index holds; a stored value is gone afterwards, no
  -- other index changes and the slab stays valid; without one nothing changes.
  pub remove_cases :
      (index : ℕ) (s : TaskSlab T)
      → IsValid s
      → ((remove index s).0 ≡ get index s)
        × (((get index s ≡ none) × ((remove index s).1 ≡ s))
            ⊎ ((value : T) × (get index s ≡ some value) × Freed index s (remove index s).1))
  unfolding remove get
  remove_cases index s v = go (get_elem? s.slots index) refl
    where
      go :
          (o : Option (Option T))
          → get_elem? s.slots index ≡ o
          → ((remove index s).0 ≡ get index s)
            × (((get index s ≡ none) × ((remove index s).1 ≡ s))
                ⊎ ((value : T) × (get index s ≡ some value) × Freed index s (remove index s).1))
      go none e = (ground arith, inl (ground arith, ground arith))
      go (some none) e = (ground arith, inl (ground arith, ground arith))
      go (some (some value)) e = (
        ground arith,
        inr (value, ground arith, rw (e, remove) (remove_stored index value s v e)),
      )

  -- The length of a valid slab counts its occupied slots.
  len-live : (s : TaskSlab T) → IsValid s → len s ≡ live s.slots
  unfolding len
  len-live s v = omega (arith, v.counted)
