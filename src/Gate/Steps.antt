-- ===== src/Gate/Steps.antt =====
-- Every reachable state of a shared semaphore is sound (crates/vthread/src/sync/gate.rs, semaphore.rs).
use vthread.Prelude.{ℕ, ◌+◌, ◌-◌, ◌≡◌, refl, sym, subst, inl, false, [], arith, returns}
use vthread.Gate.{built, Gate, update, release, close, semaphore, new, close_all}
use vthread.Gate.Waits.{WaitApi}
use vthread.Gate.Protocol.{
  System, start, Step, acquires, reserves, registers, unregistered, collects, releases, withdraws,
  drops_permit, signals, closes, elsewhere, Reachable, starts, steps,
}
use vthread.Gate.Permits.{granted_to, granted_to-content}
use vthread.Gate.Preservation.{Holds-content, content-update_self}
use vthread.Gate.Changes.{close_all-content}
use vthread.Gate.Soundness.{
  IsSound, acquires-IsSound, reserves-IsSound, registers-IsSound, unregistered-IsSound,
  collects-IsSound,
}
use vthread.Gate.Handovers.{signals-IsSound, withdraws-IsSound}

module _ {C : Type 0} (api : WaitApi C) where
  releases-IsSound :
      (s : System C) (loose : ℕ) (g : Gate)
      → IsSound api s
      → s.loose ≡ loose + 1
      → release s.world.gate ≡ returns g
      → IsSound api (record s { world = record s.world { gate = g }; loose = loose })
  unfolding release
  releases-IsSound s loose g h l e =
      let moved : g ≡ record s.world.gate { outstanding = s.world.gate.outstanding - 1 } =
        ground arith in
      subst (λ k. IsSound api (record s { world = record s.world { gate = k }; loose = loose }))
        (sym moved)
        (record {
          holds = h.holds;
          counted = omega (arith, h.counted, l);
          bounded = omega (arith, h.bounded);
          conserved = h.conserved;
          no_idle_permit = h.no_idle_permit;
        })

  drops-IsSound :
      (s : System C) (held : ℕ)
      → IsSound api s
      → s.held ≡ held + 1
      → IsSound api (record s { held = held; returning = s.returning + 1 })
  drops-IsSound s held h e = record {
    holds = h.holds;
    counted = h.counted;
    bounded = h.bounded;
    conserved = λ o. omega (arith, h.conserved o, e);
    no_idle_permit = h.no_idle_permit;
  }

  -- Contents that stay where they are.
  waits-IsSound :
      (s : System C) (waits : ℕ → C)
      → IsSound api s
      → ((i : ℕ) → api.content (waits i) ≡ api.content (s.world.waits i))
      → IsSound api (record s { world = record s.world { waits = waits } })
  waits-IsSound s waits h same =
      let count = granted_to-content api s.world.waits waits s.tickets same in
      record {
        holds =
            Holds-content api s.world.waits waits s.tickets s.world.gate.entries (λ i o. same i)
              h.holds;
        counted = h.counted;
        bounded = h.bounded;
        conserved = λ o. omega (arith, h.conserved o, count);
        no_idle_permit = h.no_idle_permit;
      }

  closes-IsSound :
      (s : System C) → IsSound api s → IsSound api (record s { world = close api s.world })
  unfolding close
  closes-IsSound s h =
      let same =
        waits-IsSound s (close_all api s.world.gate.entries s.world.waits) h
          (close_all-content api s.world.gate.entries s.world.waits) in
      record {
        holds = record {
          distinct = same.holds.distinct;
          in_line = tt;
          empty_handed = λ i o. elim o [ ];
          no_broadcast = same.holds.no_broadcast;
        };
        counted = h.counted;
        bounded = h.bounded;
        conserved = λ o. absurd (cc);
        no_idle_permit = λ o. inl refl;
      }

  Step-IsSound : (s t : System C) → IsSound api s → Step api s t → IsSound api t
  Step-IsSound s _ h (acquires g e) = acquires-IsSound api s g h e
  Step-IsSound s _ h (reserves g e) = reserves-IsSound api s g h e
  Step-IsSound s _ h (registers i loose w l out nothing e) =
      registers-IsSound api s i loose w h l out nothing e
  Step-IsSound s _ h (unregistered i loose w x l out e) =
      unregistered-IsSound api s i loose w x h l e
  Step-IsSound s _ h (collects i before behind w t e) =
      collects-IsSound api s i before behind w h t e
  Step-IsSound s _ h (releases loose g l e) = releases-IsSound s loose g h l e
  Step-IsSound s _ h (withdraws i before behind selection w t e) =
      withdraws-IsSound api s i before behind selection w h t e
  Step-IsSound s _ h (drops_permit held e) = drops-IsSound s held h e
  Step-IsSound s _ h (signals returning last w r e) = signals-IsSound api s returning last w h r e
  Step-IsSound s _ h closes = closes-IsSound s h
  Step-IsSound s _ h (elsewhere i c same) =
      waits-IsSound s (update s.world.waits i c) h (content-update_self api s.world.waits i c same)

  start-IsSound :
      (permits capacity : ℕ) (g : Gate) (waits : ℕ → C)
      → semaphore permits capacity ≡ built g
      → IsSound api (start api g waits)
  unfolding start semaphore new granted_to
  start-IsSound permits capacity g waits e =
      let built : g ≡ record {
        maximum = permits;
        capacity = capacity;
        available = permits;
        outstanding = 0;
        closed = false;
        entries = [];
      } =
        ground arith in
      subst (λ k. IsSound api (start api k waits)) (sym built)
        (record {
          holds = record {
            distinct = tt;
            in_line = tt;
            empty_handed = λ i o. elim o [ ];
            no_broadcast = λ i o. elim o [ ];
          };
          counted = omega arith;
          bounded = omega arith;
          conserved = λ o. omega arith;
          no_idle_permit = λ o. inl refl;
        })

  -- Every state of a semaphore, whatever its users and the owners of their waits do.
  pub Reachable-IsSound :
      (permits capacity : ℕ) (g : Gate) (waits : ℕ → C) (s : System C)
      → semaphore permits capacity ≡ built g
      → Reachable api g waits s
      → IsSound api s
  Reachable-IsSound permits capacity g waits _ e starts = start-IsSound permits capacity g waits e
  Reachable-IsSound permits capacity g waits _ e (steps s t r step) =
      Step-IsSound s t (Reachable-IsSound permits capacity g waits s e r) step
