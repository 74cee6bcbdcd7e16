-- ===== src/Timer/Order.antt =====
-- The set of deadlines and the map of timers (crates/vthread/src/timer.rs).
use vthread.Prelude.{
  ◌≡◌, refl, inl, inr, Bool, true, false, not, ◌&&◌, ◌||◌, none, some, List, [], ◌∷◌, arith, All,
  Bool-cases, if◌then◌else◌,
}
use vthread.ParkToken.{ParkToken, same_token}
use vthread.Timer.{
  TimerRegistration, Entry, earlier, same_entry, insert_entry, remove_entry, has_entry, lookup,
  erase,
}

swap_or : (a b c : Bool) → (a || (b || c)) ≡ (b || (a || c))
swap_or a b c = ground arith

twice_or : (a b : Bool) → (a || b) ≡ (a || (a || b))
twice_or a b = ground arith

drop_or : (a b : Bool) → (not a && b) ≡ (not a && (a || b))
drop_or a b = ground arith

and_false : (a : Bool) → false ≡ (a && false)
and_false a = ground arith

same_if : {A : Type 0} (b : Bool) (x : A) → x ≡ (if b then x else x)
same_if true x = refl
same_if false x = refl

nested_if :
    {A : Type 0} (b : Bool) (x y z : A)
    → (if b then x else z) ≡ (if b then x else if b then y else z)
nested_if true x y z = refl
nested_if false x y z = refl

-- Every entry is earlier than all behind it.
abbrev pub IsInOrder : List Entry → Type 0
IsInOrder [] = Unit
IsInOrder (e ∷ es) = All (λ x. earlier e x ≡ true) es × IsInOrder es

pub same_token_lem : (a b : ParkToken) → same_token a b ≡ true → a ≡ b
same_token_lem a b h = ground (arith, h)

pub same_entry_lem : (a b : Entry) → same_entry a b ≡ true → a ≡ b
same_entry_lem a b h = ground (arith, h)

earlier_trans : (a b c : Entry) → earlier a b ≡ true → earlier b c ≡ true → earlier a c ≡ true
earlier_trans a b c h k = ground (arith, h, k)

pub earlier-same_entry : (a b : Entry) → earlier a b ≡ true → same_entry a b ≡ false
earlier-same_entry a b h = ground (arith, h)

All-earlier :
    (a b : Entry) (es : List Entry)
    → earlier a b ≡ true
    → All (λ x. earlier b x ≡ true) es
    → All (λ x. earlier a x ≡ true) es
All-earlier a b [] h all = tt
All-earlier a b (e ∷ es) h all = (earlier_trans a b e h all.0, All-earlier a b es h all.1)

pub same_entry_refl : (a : Entry) → same_entry a a ≡ true
same_entry_refl a = ground arith

same_token_refl : (a : ParkToken) → same_token a a ≡ true
same_token_refl a = ground arith

third_entry :
    (y x e : Entry) → same_entry y x ≡ true → same_entry y e ≡ false → same_entry e x ≡ false
third_entry y x e h k = ground (arith, h, k)

third_token :
    (y x e : ParkToken) → same_token y x ≡ true → same_token y e ≡ false → same_token e x ≡ false
third_token y x e h k = ground (arith, h, k)

-- Neither earlier nor later is the same.
earlier-cases : (a b : Entry) → earlier a b ≡ false → earlier b a ≡ false → a ≡ b
earlier-cases a b h k = ground (arith, h, k)

pub has_entry-insert_entry :
    (e x : Entry) (es : List Entry)
    → has_entry x (insert_entry e es) ≡ (same_entry e x || has_entry x es)
has_entry-insert_entry e x [] = refl
has_entry-insert_entry e x (y ∷ ys) = elim (Bool-cases (earlier e y)) [
  | inl before ↦ rw before refl
  | inr late ↦ elim (Bool-cases (earlier y e)) [
    | inl behind ↦
        let rest = has_entry-insert_entry e x ys in
        rw (late, behind, rest) (swap_or (same_entry y x) (same_entry e x) (has_entry x ys))
    | inr there ↦
        let same : e ≡ y = earlier-cases e y late there in
        rw (late, there, same) (twice_or (same_entry y x) (has_entry x ys))
  ]
]

pub has_entry-remove_entry :
    (e x : Entry) (es : List Entry)
    → has_entry x (remove_entry e es) ≡ (not (same_entry e x) && has_entry x es)
has_entry-remove_entry e x [] = and_false (not (same_entry e x))
has_entry-remove_entry e x (y ∷ ys) = elim (Bool-cases (same_entry y e)) [
  | inl hit ↦
      let same : y ≡ e = same_entry_lem y e hit in
      let rest = has_entry-remove_entry e x ys in
      rw (hit, rest, same) (drop_or (same_entry e x) (has_entry x ys))
  | inr miss ↦
      let rest = has_entry-remove_entry e x ys in
      elim (Bool-cases (same_entry y x)) [
        | inl k ↦
            let apart : same_entry e x ≡ false = third_entry y x e k miss in
            rw (miss, k, apart) refl
        | inr k ↦ rw (miss, k) rest
      ]
]

pub lookup-erase :
    (t u : ParkToken) (active : List (ParkToken × TimerRegistration))
    → lookup u (erase t active) ≡ (if same_token t u then none else lookup u active)
lookup-erase t u [] = same_if (same_token t u) none
lookup-erase t u ((key, registration) ∷ rest) = elim (Bool-cases (same_token key t)) [
  | inl hit ↦
      let same : key ≡ t = same_token_lem key t hit in
      let later = lookup-erase t u rest in
      rw (same, same_token_refl t, later)
        (nested_if (same_token t u) none (some registration) (lookup u rest))
  | inr miss ↦
      let later = lookup-erase t u rest in
      elim (Bool-cases (same_token key u)) [
        | inl k ↦
            let apart : same_token t u ≡ false = third_token key u t k miss in
            rw (miss, k, apart) refl
        | inr k ↦ rw (miss, k) later
      ]
]

All-insert_entry :
    (a e : Entry) (es : List Entry)
    → earlier a e ≡ true
    → All (λ x. earlier a x ≡ true) es
    → All (λ x. earlier a x ≡ true) (insert_entry e es)
All-insert_entry a e [] h all = (h, tt)
All-insert_entry a e (y ∷ ys) h all = elim (Bool-cases (earlier e y)) [
  | inl before ↦ rw before (h, all)
  | inr late ↦ elim (Bool-cases (earlier y e)) [
    | inl behind ↦ rw (late, behind) (all.0, All-insert_entry a e ys h all.1)
    | inr there ↦ rw (late, there) all
  ]
]

pub insert_entry-IsInOrder :
    (e : Entry) (es : List Entry) → IsInOrder es → IsInOrder (insert_entry e es)
insert_entry-IsInOrder e [] o = (tt, tt)
insert_entry-IsInOrder e (y ∷ ys) o = elim (Bool-cases (earlier e y)) [
  | inl before ↦ rw before ((before, All-earlier e y ys before o.0), o)
  | inr late ↦ elim (Bool-cases (earlier y e)) [
    | inl behind ↦
        rw (late, behind) (All-insert_entry y e ys behind o.0, insert_entry-IsInOrder e ys o.1)
    | inr there ↦ rw (late, there) o
  ]
]

All-remove_entry :
    (a e : Entry) (es : List Entry)
    → All (λ x. earlier a x ≡ true) es
    → All (λ x. earlier a x ≡ true) (remove_entry e es)
All-remove_entry a e [] all = tt
All-remove_entry a e (y ∷ ys) all = elim (Bool-cases (same_entry y e)) [
  | inl hit ↦ rw hit (All-remove_entry a e ys all.1)
  | inr miss ↦ rw miss (all.0, All-remove_entry a e ys all.1)
]

pub remove_entry-IsInOrder :
    (e : Entry) (es : List Entry) → IsInOrder es → IsInOrder (remove_entry e es)
remove_entry-IsInOrder e [] o = tt
remove_entry-IsInOrder e (y ∷ ys) o = elim (Bool-cases (same_entry y e)) [
  | inl hit ↦ rw hit (remove_entry-IsInOrder e ys o.1)
  | inr miss ↦ rw miss (All-remove_entry y e ys o.0, remove_entry-IsInOrder e ys o.1)
]

-- What is behind an entry is another.
pub head-absent :
    (e : Entry) (es : List Entry) → All (λ x. earlier e x ≡ true) es → has_entry e es ≡ false
head-absent e [] all = refl
head-absent e (y ∷ ys) all =
    let apart : same_entry y e ≡ false = ground (arith, earlier-same_entry e y all.0) in
    rw (apart, head-absent e ys all.1) refl
