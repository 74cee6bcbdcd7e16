-- ===== src/Gate/Permits.antt =====
-- The permits that tickets have been granted and have not collected (crates/vthread/src/sync/gate.rs).
use vthread.Prelude.{
  ℕ, ◌+◌, ◌≡◌, refl, sym, ap, ◌∙◌, inl, inr, ◌≢◌, Option, some, List, [], ◌∷◌, ◌++◌, arith, ==_refl,
  ==_ne, Occurs, Distinct, length,
}
use vthread.WaitWord.{ResourceSelection, permit}
use vthread.Gate.{update}
use vthread.Gate.Waits.{WaitApi}

abbrev pub weight : Option ResourceSelection → ℕ
weight (some permit) = 1
weight _ = 0

module _ {A : Type 0} (f : ℕ → A) (i : ℕ) (a : A) where
  pub update-same : update f i a i ≡ a
  update-same = rw (==_refl i) refl

  pub update-other : (j : ℕ) → i ≢ j → update f i a j ≡ f j
  update-other j ne = rw (==_ne i j ne) refl

module _ {C : Type 0} (api : WaitApi C) where
  -- The permits of the tickets of a list.
  unfoldable pub granted_to : (ℕ → C) → List ℕ → ℕ
  granted_to waits [] = 0
  granted_to waits (i ∷ is) = weight (api.content (waits i)) + granted_to waits is

  pub granted_to-absent :
      (waits : ℕ → C) (i : ℕ) (c : C) (is : List ℕ)
      → (Occurs i is → ⊥)
      → granted_to (update waits i c) is ≡ granted_to waits is
  unfolding granted_to
  granted_to-absent waits i c [] out = refl
  granted_to-absent waits i c (j ∷ is) out =
      let rest = granted_to-absent waits i c is (λ o. out (inr o)) in
      let other = update-other waits i c j (λ e. out (inl (sym e))) in rw (other, rest) refl

  pub granted_to-update :
      (waits : ℕ → C) (i : ℕ) (c : C) (is : List ℕ)
      → Distinct is
      → Occurs i is
      → granted_to (update waits i c) is + weight (api.content (waits i))
        ≡ granted_to waits is + weight (api.content c)
  unfolding granted_to
  granted_to-update waits i c [] d o = elim o [ ]
  granted_to-update waits i c (j ∷ is) d (inl e) =
      let out : Occurs i is → ⊥ = λ o. d.0 (rw e o) in
      let rest = granted_to-absent waits i c is out in
      let here : update waits i c j ≡ c = ap (update waits i c) e ∙ update-same waits i c in
      rw (here, rest, e) (omega arith)
  granted_to-update waits i c (j ∷ is) d (inr o) =
      let rest = granted_to-update waits i c is d.1 o in
      let other = update-other waits i c j (λ e. d.0 (rw (sym e) o)) in
      rw other (omega (arith, rest))

  pub granted_to-content :
      (waits others : ℕ → C) (is : List ℕ)
      → ((i : ℕ) → api.content (others i) ≡ api.content (waits i))
      → granted_to others is ≡ granted_to waits is
  unfolding granted_to
  granted_to-content waits others [] same = refl
  granted_to-content waits others (i ∷ is) same =
      let rest = granted_to-content waits others is same in rw (same i, rest) refl

  pub granted_to-middle :
      (waits : ℕ → C) (i : ℕ) (before behind : List ℕ)
      → granted_to waits (before ++ i ∷ behind)
        ≡ weight (api.content (waits i)) + granted_to waits (before ++ behind)
  unfolding granted_to
  granted_to-middle waits i [] behind = refl
  granted_to-middle waits i (j ∷ before) behind =
      omega (arith, granted_to-middle waits i before behind)

pub length-middle :
    (i : ℕ) (before behind : List ℕ) → length (before ++ i ∷ behind) ≡ 1 + length (before ++ behind)
length-middle i [] behind = omega arith
length-middle i (j ∷ before) behind = omega (arith, length-middle i before behind)
