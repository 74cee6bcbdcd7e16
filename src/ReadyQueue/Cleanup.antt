-- ===== src/ReadyQueue/Cleanup.antt =====
-- What inspection and selective dispatch take out, and what they leave
-- (crates/vthread/src/ready_queue_inspection.rs).
use vthread.Prelude.{
  ℕ, Outcome, returns, panics, ◌>>=◌, ◌≡◌, refl, ◌⊎◌, inl, inr, Bool, true, false, Option, none,
  some, List, [], ◌∷◌, ◌++◌, length, last?, front_of, arith, ap, sym, subst, append-nil,
  append_assoc, position, last_position, remove_at, Removed, Nowhere, Found, position-Found,
  last_position-Found, get_elem?, if◌then◌else◌, Bool-cases,
}
use vthread.TaskKey.{TaskKey}
use vthread.ReadyQueue.{
  ReadyQueue, Inspection, after_scans, scan_lane, remove_matching, inspection, pop_matching,
  pop_matching_normal, pop_matching_wake, take_normal, take_wake, pop_front, is_empty,
}

module _ (p : TaskKey → Bool) where
  -- What `pop_matching` may do to a queue.
  abbrev pub Pops : ReadyQueue → Option TaskKey × ReadyQueue → Type 0
  Pops q r =
      (Nowhere p q.normal × Nowhere p q.wakes × (r ≡ (none, q)))
      ⊎ ((t : TaskKey) × (p t ≡ true)
          × (r.0 ≡ some t)
          × ((Removed t q.normal r.1.normal × (r.1.wakes ≡ q.wakes))
              ⊎ (Removed t q.wakes r.1.wakes × (r.1.normal ≡ q.normal))))

  normal-Pops :
      (o : Option ℕ) (q : ReadyQueue)
      → Found p q.normal o
      → Nowhere p q.wakes
      → Pops q (pop_matching_normal o q)
  unfolding pop_matching_normal
  normal-Pops none q f n = inl (f, n, refl)
  normal-Pops (some i) q (t, pass, here, gone) n = inr (t, pass, here, inl (gone, refl))

  if-Pops :
      (b : Bool) (q : ReadyQueue) (r s : Option TaskKey × ReadyQueue)
      → Pops q r
      → Pops q s
      → Pops q (if b then r else s)
  if-Pops true q r s f g = f
  if-Pops false q r s f g = g

  take_wake-Pops :
      (i s : ℕ) (q : ReadyQueue)
      → Found p q.wakes (some i)
      → Pops q (take_wake i (record q { wake_streak = s }))
  unfolding take_wake
  take_wake-Pops i s q (t, pass, here, gone) = inr (t, pass, here, inr (gone, refl))

  take_normal-Pops :
      (i s : ℕ) (q : ReadyQueue)
      → Found p q.normal (some i)
      → Pops q (take_normal i (record q { wake_streak = s }))
  unfolding take_normal
  take_normal-Pops i s q (t, pass, here, gone) = inr (t, pass, here, inl (gone, refl))

  wake-Pops :
      (newest oldest : ℕ) (normal : Option ℕ) (q : ReadyQueue)
      → Found p q.wakes (some newest)
      → Found p q.wakes (some oldest)
      → Found p q.normal normal
      → Pops q (pop_matching_wake newest (some oldest) normal q)
  unfolding pop_matching_wake
  wake-Pops newest oldest none q f g h =
      if-Pops _ q _ _ (take_wake-Pops newest _ q f) (take_wake-Pops oldest _ q g)
  wake-Pops newest oldest (some i) q f g h =
      if-Pops _ q _ _ (take_wake-Pops newest _ q f)
        (if-Pops _ q _ _ (take_normal-Pops i _ q h) (take_wake-Pops oldest _ q g))

  position-Nowhere : (xs : List TaskKey) → Nowhere p xs → position p xs ≡ none
  position-Nowhere [] n = refl
  position-Nowhere (x ∷ xs) n = ground (arith, position-Nowhere xs n.1)

  pop_cases :
      (o l : Option ℕ) (q : ReadyQueue)
      → position p q.wakes ≡ o
      → Found p q.wakes o
      → Found p q.wakes l
      → Found p q.normal (position p q.normal)
      → Pops q (elim o [
        | none ↦ pop_matching_normal (position p q.normal) q
        | some newest ↦ pop_matching_wake newest l (position p q.normal) q
      ])
  pop_cases none l q e f g h = normal-Pops (position p q.normal) q h f
  pop_cases (some newest) none q e f g h = absurd (cc (position-Nowhere q.wakes g))
  pop_cases (some newest) (some oldest) q e f g h =
      wake-Pops newest oldest (position p q.normal) q f g h

  -- Selective dispatch takes an eligible task out of its lane and leaves every other entry of both
  -- lanes in place and order; only where no entry is eligible it takes none and changes nothing.
  pub pop_matching-Pops : (q : ReadyQueue) → Pops q (pop_matching p q)
  unfolding pop_matching
  pop_matching-Pops q =
      pop_cases (position p q.wakes) (last_position p q.wakes) q refl (position-Found p q.wakes)
        (last_position-Found p q.wakes) (position-Found p q.normal)

  -- What a scan of a lane that starts with `xs` does, `ys` being the entries inspected before.
  abbrev Scans : List TaskKey → List TaskKey → Outcome (Option TaskKey × List TaskKey × ℕ) → Type 0
  Scans xs ys r =
      (Nowhere p xs × (r ≡ returns (none, ys ++ xs, 0)))
      ⊎ ((t : TaskKey) × (before : List TaskKey) × (behind : List TaskKey) × (xs
            ≡ before ++ t ∷ behind)
          × Nowhere p before
          × (p t ≡ true)
          × (r ≡ returns (some t, behind ++ (ys ++ before), length behind)))

  scan_hit :
      (x : TaskKey) (xs ys : List TaskKey)
      → p x ≡ true
      → scan_lane p (length (x ∷ xs)) ((x ∷ xs) ++ ys)
        ≡ returns (some x, xs ++ (ys ++ []), length xs)
  unfolding scan_lane
  scan_hit x xs ys hit = rw (hit, append-nil ys)

  scan_miss :
      (x : TaskKey) (xs ys : List TaskKey)
      → p x ≡ false
      → scan_lane p (length (x ∷ xs)) ((x ∷ xs) ++ ys)
        ≡ scan_lane p (length xs) (xs ++ (ys ++ x ∷ []))
  unfolding scan_lane
  scan_miss x xs ys miss = rw (miss, append_assoc xs ys (x ∷ []))

  Scans-shift :
      (x : TaskKey) (xs ys : List TaskKey) (r : Outcome (Option TaskKey × List TaskKey × ℕ))
      → p x ≡ false
      → Scans xs (ys ++ x ∷ []) r
      → Scans (x ∷ xs) ys r
  Scans-shift x xs ys r miss (inl (n, e)) = inl ((miss, n), rw (e, append_assoc ys (x ∷ []) xs))
  Scans-shift x xs ys r miss (inr (t, before, behind, e, n, pass, e')) = inr (
    t,
    x ∷ before,
    behind,
    ap (λ (l : List TaskKey). x ∷ l) e,
    (miss, n),
    pass,
    rw (e', append_assoc ys (x ∷ []) before),
  )

  scan-Scans : (xs ys : List TaskKey) → Scans xs ys (scan_lane p (length xs) (xs ++ ys))
  unfolding scan_lane
  scan-Scans [] ys = inl (tt, rw (append-nil ys))
  scan-Scans (x ∷ xs) ys = elim (Bool-cases (p x)) [
    | inl hit ↦ inr (x, [], xs, refl, tt, hit, scan_hit x xs ys hit)
    | inr miss ↦
        subst (Scans (x ∷ xs) ys) (sym (scan_miss x xs ys miss))
          (Scans-shift x xs ys _ miss (scan-Scans xs (ys ++ x ∷ [])))
  ]

  scan_fresh : (xs : List TaskKey) → Scans xs [] (scan_lane p (length xs) xs)
  scan_fresh xs =
      subst (λ l. Scans xs [] (scan_lane p (length xs) l)) (append-nil xs) (scan-Scans xs [])

  -- The first match of a lane: what stands before it and behind it.
  abbrev FirstMatch : TaskKey → List TaskKey → List TaskKey → List TaskKey → Type 0
  FirstMatch t lane before behind = (lane ≡ before ++ t ∷ behind) × Nowhere p before × (p t ≡ true)

  -- What a fresh inspection may end with.
  abbrev pub Inspects : ReadyQueue → Option TaskKey × Inspection × ReadyQueue → Type 0
  Inspects q r =
      (Nowhere p q.normal × Nowhere p q.wakes × (r.0 ≡ none) × (r.2 ≡ q))
      ⊎ ((t : TaskKey) × (before : List TaskKey) × (behind : List TaskKey) × (r.0 ≡ some t)
          × ((FirstMatch t q.normal before behind
                × (r.2 ≡ record q { normal = behind ++ before })
                × (r.1 ≡ record { normal_left = length behind; wakes_left = length q.wakes }))
              ⊎ (Nowhere p q.normal
                  × FirstMatch t q.wakes before behind
                  × (r.2 ≡ record q { wakes = behind ++ before })
                  × (r.1 ≡ record { normal_left = 0; wakes_left = length behind }))))

  -- It returns, with a result of these.
  abbrev Inspected : ReadyQueue → Outcome (Option TaskKey × Inspection × ReadyQueue) → Type 0
  Inspected q panics = ⊥
  Inspected q (returns r) = Inspects q r

  after_scans-Inspects :
      (q : ReadyQueue) (r s : Outcome (Option TaskKey × List TaskKey × ℕ))
      → Scans q.normal [] r
      → Scans q.wakes [] s
      → Inspected q (do normal ← r; after_scans (inspection q) q normal s)
  unfolding after_scans inspection
  after_scans-Inspects q r s (inl (n, e)) (inl (m, e')) =
      rw (e, e', after_scans) (inl (n, m, refl, refl))
  after_scans-Inspects q r s (inl (n, e)) (inr (t, before, behind, w, m, pass, e')) =
      rw (e, e', after_scans) (inr (t, before, behind, refl, inr (n, (w, m, pass), refl, refl)))
  after_scans-Inspects q r s (inr (t, before, behind, w, n, pass, e)) f =
      rw (e, after_scans) (inr (t, before, behind, refl, inl ((w, n, pass), refl, refl)))

  -- A fresh inspection never panics. It removes the first match, of the normal lane if it has one and else of the
  -- wakes; the entries before it go to the back of their lane, those behind it are left to inspect,
  -- and without a match both lanes come back as they were.
  remove_matching-Inspects : (q : ReadyQueue) → Inspected q (remove_matching p (inspection q) q)
  unfolding remove_matching inspection
  remove_matching-Inspects q = after_scans-Inspects q _ _ (scan_fresh q.normal) (scan_fresh q.wakes)

-- Every task is eligible.
abbrev pub anything : TaskKey → Bool
anything _ = true

last_position-anything :
    (x : TaskKey) (xs : List TaskKey) → last_position anything (x ∷ xs) ≡ some (length xs)
last_position-anything x [] = refl
last_position-anything x (y ∷ xs) = rw (last_position-anything y xs)

get_elem?-length :
    (x : TaskKey) (xs : List TaskKey) → get_elem? (x ∷ xs) (length xs) ≡ last? (x ∷ xs)
get_elem?-length x [] = refl
get_elem?-length x (y ∷ xs) = get_elem?-length y xs

remove_at-length :
    (x : TaskKey) (xs : List TaskKey) → remove_at (length xs) (x ∷ xs) ≡ front_of (x ∷ xs)
remove_at-length x [] = refl
remove_at-length x (y ∷ xs) = ap (λ (l : List TaskKey). x ∷ l) (remove_at-length y xs)

-- Selective dispatch with every task eligible is ordinary dispatch, cohort position included, as
-- long as the queue holds a task. (An empty queue's position is reset by ordinary dispatch only.)
pop_matching-pop_front :
    (q : ReadyQueue) → is_empty q ≡ false → pop_matching anything q ≡ pop_front q
unfolding is_empty pop_matching pop_front
pop_matching-pop_front q some_task = go q.normal q.wakes refl refl
  where
    go :
        (ns ws : List TaskKey)
        → q.normal ≡ ns
        → q.wakes ≡ ws
        → pop_matching anything q ≡ pop_front q
    go [] [] en ew = absurd (ground arith)
    go (n ∷ ns) [] en ew = ground arith
    go [] (w ∷ ws) en ew =
        ground (arith, last_position-anything w ws, get_elem?-length w ws, remove_at-length w ws)
    go (n ∷ ns) (w ∷ ws) en ew =
        ground (arith, last_position-anything w ws, get_elem?-length w ws, remove_at-length w ws)
