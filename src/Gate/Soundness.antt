-- ===== src/Gate/Soundness.antt =====
-- The invariant of a shared semaphore, and the callers that come and collect their permits
-- (crates/vthread/src/sync/gate.rs, semaphore.rs).
use vthread.Prelude.{
  ℕ, ◌+◌, ◌-◌, ◌≤◌, ◌≡◌, refl, sym, ap, subst, ◌⊎◌, inl, inr, ◌≢◌, false, Option, none, some, List,
  [], ◌∷◌, ◌++◌, arith, Occurs, Distinct, Distinct-middle, Occurs-inr, returns, length,
}
use vthread.Error.{Error}
use vthread.WaitWord.{ResourceSelection, permit, broadcast}
use vthread.Gate.{Gate, granted, refused, World, update, try_take, reserve, register, collect}
use vthread.Gate.Waits.{WaitApi}
use vthread.Gate.Protocol.{System}
use vthread.Gate.Permits.{
  weight, granted_to, granted_to-absent, granted_to-update, granted_to-middle, length-middle,
}
use vthread.Gate.Preservation.{
  Holds, Holds-elsewhere, Holds-enters, Holds-queues, Holds-grants, Holds-leaves,
}
use vthread.Gate.Changes.{register-granted, register-refused, collect_cases}

pub none_or_some :
    (o : Option ResourceSelection) (r : ResourceSelection) → o ≡ none → o ≡ some r → ⊥
none_or_some o r e f = cc

pub permit_weight :
    (o : Option ResourceSelection) (r : ResourceSelection)
    → o ≡ some r
    → o ≢ some broadcast
    → weight o ≡ 1
permit_weight o permit e n = ap weight e
permit_weight o broadcast e n = absurd (n e)

module _ {C : Type 0} (api : WaitApi C) where
  -- Where the permits of an open gate are, and that none is left to lie while somebody waits.
  pub record IsSound (s : System C) : Type 0 where
    pub holds : Holds api s.world.waits s.tickets s.world.gate.entries
    pub counted : s.world.gate.outstanding ≡ length s.tickets + s.loose
    pub bounded : s.world.gate.outstanding ≤ s.world.gate.capacity
    pub conserved :
        s.world.gate.closed ≡ false
        → s.world.gate.available + s.held + s.returning + granted_to api s.world.waits s.tickets
          ≡ s.world.gate.maximum
    pub no_idle_permit :
        s.world.gate.closed ≡ false → (s.world.gate.entries ≡ []) ⊎ (s.world.gate.available ≡ 0)

  pub acquires-IsSound :
      (s : System C) (g : Gate)
      → IsSound s
      → try_take s.world.gate ≡ (granted, g)
      → IsSound (record s { world = record s.world { gate = g }; held = s.held + 1 })
  unfolding try_take
  acquires-IsSound s g h e =
      let taken : g ≡ record s.world.gate { available = s.world.gate.available - 1 } =
        ground arith in
      let open_gate : s.world.gate.closed ≡ false = ground arith in
      let some_left : 1 ≤ s.world.gate.available = ground arith in
      subst (λ k. IsSound (record s { world = record s.world { gate = k }; held = s.held + 1 }))
        (sym taken)
        (record {
          holds = h.holds;
          counted = h.counted;
          bounded = h.bounded;
          conserved = λ o. omega (arith, h.conserved o, some_left);
          no_idle_permit = λ o. ground (arith, h.no_idle_permit o);
        })

  pub reserves-IsSound :
      (s : System C) (g : Gate)
      → IsSound s
      → reserve s.world.gate ≡ (granted, g)
      → IsSound (record s { world = record s.world { gate = g }; loose = s.loose + 1 })
  unfolding reserve
  reserves-IsSound s g h e =
      let taken : g ≡ record s.world.gate { outstanding = s.world.gate.outstanding + 1 } =
        ground arith in
      let room : s.world.gate.outstanding + 1 ≤ s.world.gate.capacity = ground arith in
      subst (λ k. IsSound (record s { world = record s.world { gate = k }; loose = s.loose + 1 }))
        (sym taken)
        (record {
          holds = h.holds;
          counted = omega (arith, h.counted);
          bounded = room;
          conserved = h.conserved;
          no_idle_permit = h.no_idle_permit;
        })

  -- A permit for the wait of a ticket.
  pub grant :
      (waits : ℕ → C) (i : ℕ) (c : C) (is : List ℕ)
      → Distinct is
      → Occurs i is
      → api.content (waits i) ≡ none
      → api.content c ≡ some permit
      → granted_to api (update waits i c) is ≡ granted_to api waits is + 1
  grant waits i c is d o before after =
      let sum = granted_to-update api waits i c is d o in
      let was : weight (api.content (waits i)) ≡ 0 = ap weight before in
      let now : weight (api.content c) ≡ 1 = ap weight after in omega (arith, sum, was, now)

  pub registers-IsSound :
      (s : System C) (i loose : ℕ) (w : World C)
      → IsSound s
      → s.loose ≡ loose + 1
      → (Occurs i s.tickets → ⊥)
      → api.content (s.world.waits i) ≡ none
      → register api i s.world ≡ returns (granted, w)
      → IsSound (record s { world = w; tickets = i ∷ s.tickets; loose = loose })
  unfolding granted_to
  registers-IsSound s i loose w h l out nothing e =
      let (open_gate, change) = register-granted api i s.world w e in
      let empty_handed : weight (api.content (s.world.waits i)) ≡ 0 = ap weight nothing in
      elim change [
        | inl (empty, moved) ↦
            subst (λ k. IsSound (record s { world = k; tickets = i ∷ s.tickets; loose = loose }))
              (sym moved)
              (record {
                holds =
                    Holds-queues api s.world.waits i s.tickets s.world.gate.entries out nothing
                      h.holds;
                counted = omega (arith, h.counted);
                bounded = h.bounded;
                conserved = λ o. omega (arith, h.conserved o, empty_handed);
                no_idle_permit = λ o. inr empty;
              })
        | inr (c, some_left, o, moved) ↦
            let (before, after) = api.offer-content permit (s.world.waits i) c o in
            let entered : Holds api s.world.waits (i ∷ s.tickets) s.world.gate.entries =
              Holds-enters api s.world.waits i s.tickets s.world.gate.entries out (λ b. cc)
                h.holds in
            let one =
              grant s.world.waits i c (i ∷ s.tickets) entered.distinct (inl refl) before after in
            subst (λ k. IsSound (record s { world = k; tickets = i ∷ s.tickets; loose = loose }))
              (sym moved)
              (record {
                holds =
                    Holds-grants api s.world.waits i c (i ∷ s.tickets) s.world.gate.entries
                      (λ q. out (h.holds.empty_handed i q).0) after entered;
                counted = omega (arith, h.counted);
                bounded = h.bounded;
                conserved = λ k. omega (arith, h.conserved k, one, empty_handed, some_left);
                no_idle_permit = λ k. ground (arith, h.no_idle_permit k, some_left);
              })
      ]

  pub unregistered-IsSound :
      (s : System C) (i loose : ℕ) (w : World C) (x : Error)
      → IsSound s
      → s.loose ≡ loose + 1
      → register api i s.world ≡ returns (refused x, w)
      → IsSound (record s { world = w; loose = loose })
  unregistered-IsSound s i loose w x h l e =
      let moved = register-refused api i s.world w x e (λ o. omega (arith, h.conserved o)) in
      subst (λ k. IsSound (record s { world = k; loose = loose })) (sym moved)
        (record {
          holds = h.holds;
          counted = omega (arith, h.counted, l);
          bounded = omega (arith, h.bounded);
          conserved = h.conserved;
          no_idle_permit = h.no_idle_permit;
        })

  pub collects-IsSound :
      (s : System C) (i : ℕ) (before behind : List ℕ) (w : World C)
      → IsSound s
      → s.tickets ≡ before ++ i ∷ behind
      → collect api i s.world ≡ some (granted, w)
      → IsSound (record s {
        world = w;
        tickets = before ++ behind;
        loose = s.loose + 1;
        held = s.held + 1;
      })
  collects-IsSound s i before behind w h t e =
      let (c, r, open_gate, taken, moved) = collect_cases api i s.world w e in
      let (had, left) = api.take-content (s.world.waits i) c r taken in
      let whole : Holds api s.world.waits (before ++ i ∷ behind) s.world.gate.entries =
        subst (λ l. Holds api s.world.waits l s.world.gate.entries) t h.holds in
      let (d, out) = Distinct-middle i before behind whole.distinct in
      let away : Occurs i s.world.gate.entries → ⊥ = λ o.
        absurd (none_or_some (api.content (s.world.waits i)) r (whole.empty_handed i o).1 had) in
      let one : weight (api.content (s.world.waits i)) ≡ 1 =
        permit_weight (api.content (s.world.waits i)) r had
          (whole.no_broadcast i (Occurs-inr i before (i ∷ behind) (inl refl))) in
      let rest = granted_to-middle api s.world.waits i before behind in
      let same = granted_to-absent api s.world.waits i c (before ++ behind) out in
      let number = length-middle i before behind in
      subst
        (λ k. IsSound (record s {
          world = k;
          tickets = before ++ behind;
          loose = s.loose + 1;
          held = s.held + 1;
        }))
        (sym moved)
        (record {
          holds =
              Holds-elsewhere api s.world.waits i c (before ++ behind) s.world.gate.entries out
                (Holds-leaves api s.world.waits i before behind s.world.gate.entries away whole);
          counted = omega (arith, h.counted, number, ap (length {A = ℕ}) t);
          bounded = h.bounded;
          conserved = λ o.
              omega (arith, h.conserved o, ap (granted_to api s.world.waits) t, rest, one, same);
          no_idle_permit = h.no_idle_permit;
        })
