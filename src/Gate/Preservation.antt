-- ===== src/Gate/Preservation.antt =====
-- The tickets of a gate and its queue (crates/vthread/src/sync/gate.rs): who waits holds nothing, and what
-- every change of a ticket keeps.
use vthread.Prelude.{
  ℕ, ◌≡◌, refl, sym, ap, subst, ◌∙◌, inl, inr, ◌≢◌, none, some, List, [], ◌∷◌, ◌++◌, Bool-cases,
  ==_iff, ◌==◌, Occurs, Distinct, Occurs-append, Occurs-middle, Occurs-without, Distinct-middle,
  Distinct-snoc,
}
use vthread.WaitWord.{permit, broadcast}
use vthread.Gate.{update}
use vthread.Gate.Waits.{WaitApi}
use vthread.Gate.Permits.{update-other}

module _ {C : Type 0} (api : WaitApi C) where
  pub record Holds (waits : ℕ → C) (tickets entries : List ℕ) : Type 0 where
    pub distinct : Distinct tickets
    pub in_line : Distinct entries
    pub empty_handed :
        (i : ℕ) → Occurs i entries → Occurs i tickets × (api.content (waits i) ≡ none)
    pub no_broadcast : (i : ℕ) → Occurs i tickets → api.content (waits i) ≢ some broadcast

  content-update :
      (waits : ℕ → C) (i j : ℕ) (c : C)
      → i ≢ j
      → api.content (update waits i c j) ≡ api.content (waits j)
  content-update waits i j c ne = ap api.content (update-other waits i c j ne)

  pub content-update_self :
      (waits : ℕ → C) (i : ℕ) (c : C)
      → api.content c ≡ api.content (waits i)
      → (j : ℕ) → api.content (update waits i c j) ≡ api.content (waits j)
  content-update_self waits i c same j = elim (Bool-cases (i == j)) [
    | inr off ↦ rw off refl
    | inl on ↦ rw on (same ∙ ap (λ k. api.content (waits k)) ((==_iff i j).0 on))
  ]

  -- Changes of waits that change no content of a ticket.
  pub Holds-content :
      (waits others : ℕ → C) (tickets entries : List ℕ)
      → ((j : ℕ) → Occurs j tickets → api.content (others j) ≡ api.content (waits j))
      → Holds waits tickets entries
      → Holds others tickets entries
  Holds-content waits others tickets entries same h = record {
    distinct = h.distinct;
    in_line = h.in_line;
    empty_handed =
        λ i o. let (inside, nothing) = h.empty_handed i o in (inside, same i inside ∙ nothing);
    no_broadcast = λ i o e. h.no_broadcast i o (sym (same i o) ∙ e);
  }

  outside :
      (waits : ℕ → C) (i : ℕ) (c : C) (tickets : List ℕ)
      → (Occurs i tickets → ⊥)
      → (j : ℕ) → Occurs j tickets
      → api.content (update waits i c j) ≡ api.content (waits j)
  outside waits i c tickets out j o =
      content-update waits i j c (λ e. out (subst (λ k. Occurs k tickets) (sym e) o))

  pub Holds-elsewhere :
      (waits : ℕ → C) (i : ℕ) (c : C) (tickets entries : List ℕ)
      → (Occurs i tickets → ⊥)
      → Holds waits tickets entries
      → Holds (update waits i c) tickets entries
  Holds-elsewhere waits i c tickets entries out h =
      Holds-content waits (update waits i c) tickets entries (outside waits i c tickets out) h

  -- A new ticket, before it is granted or queued.
  pub Holds-enters :
      (waits : ℕ → C) (i : ℕ) (tickets entries : List ℕ)
      → (Occurs i tickets → ⊥)
      → api.content (waits i) ≢ some broadcast
      → Holds waits tickets entries
      → Holds waits (i ∷ tickets) entries
  Holds-enters waits i tickets entries out none_sent h = record {
    distinct = (out, h.distinct);
    in_line = h.in_line;
    empty_handed = λ j o. (inr (h.empty_handed j o).0, (h.empty_handed j o).1);
    no_broadcast = λ j o. elim o [
      | inl e ↦ subst (λ k. api.content (waits k) ≢ some broadcast) e none_sent
      | inr p ↦ h.no_broadcast j p
    ];
  }

  pub Holds-queues :
      (waits : ℕ → C) (i : ℕ) (tickets entries : List ℕ)
      → (Occurs i tickets → ⊥)
      → api.content (waits i) ≡ none
      → Holds waits tickets entries
      → Holds waits (i ∷ tickets) (entries ++ i ∷ [])
  Holds-queues waits i tickets entries out nothing h =
      let entered : Holds waits (i ∷ tickets) entries =
        Holds-enters waits i tickets entries out (λ e. cc) h in
      record {
        distinct = entered.distinct;
        in_line = Distinct-snoc i entries h.in_line (λ o. out (h.empty_handed i o).0);
        empty_handed = λ j o. elim (Occurs-append j entries (i ∷ []) o) [
          | inl p ↦ entered.empty_handed j p
          | inr p ↦ elim p [
            | inl e ↦ (inl e, ap (λ k. api.content (waits k)) (sym e) ∙ nothing)
            | inr q ↦ absurd q
          ]
        ];
        no_broadcast = entered.no_broadcast;
      }

  pub Holds-pops :
      (waits : ℕ → C) (i : ℕ) (tickets before behind : List ℕ)
      → Holds waits tickets (before ++ i ∷ behind)
      → Holds waits tickets (before ++ behind)
  Holds-pops waits i tickets before behind h = record {
    distinct = h.distinct;
    in_line = (Distinct-middle i before behind h.in_line).0;
    empty_handed = λ j o. h.empty_handed j (Occurs-without i j before behind o);
    no_broadcast = h.no_broadcast;
  }

  -- A wait out of the queue is granted a permit.
  pub Holds-grants :
      (waits : ℕ → C) (i : ℕ) (c : C) (tickets entries : List ℕ)
      → (Occurs i entries → ⊥)
      → api.content c ≡ some permit
      → Holds waits tickets entries
      → Holds (update waits i c) tickets entries
  Holds-grants waits i c tickets entries out one h = record {
    distinct = h.distinct;
    in_line = h.in_line;
    empty_handed =
        λ j o. ((h.empty_handed j o).0, outside waits i c entries out j o ∙ (h.empty_handed j o).1);
    no_broadcast = λ j o e. elim (Bool-cases (i == j)) [
      | inl on ↦ let here : update waits i c j ≡ c = rw on refl in absurd (cc)
      | inr off ↦
          let there : update waits i c j ≡ waits j = rw off refl in
          h.no_broadcast j o (ap api.content (sym there) ∙ e)
    ];
  }

  -- A ticket out of the queue goes.
  pub Holds-leaves :
      (waits : ℕ → C) (i : ℕ) (before behind entries : List ℕ)
      → (Occurs i entries → ⊥)
      → Holds waits (before ++ i ∷ behind) entries
      → Holds waits (before ++ behind) entries
  Holds-leaves waits i before behind entries out h = record {
    distinct = (Distinct-middle i before behind h.distinct).0;
    in_line = h.in_line;
    empty_handed = λ j o. (
      elim (Occurs-middle i j before behind (h.empty_handed j o).0) [
        | inl e ↦ absurd (out (subst (λ k. Occurs k entries) (sym e) o))
        | inr p ↦ p
      ],
      (h.empty_handed j o).1,
    );
    no_broadcast = λ j o. h.no_broadcast j (Occurs-without i j before behind o);
  }
