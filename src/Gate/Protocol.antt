-- ===== src/Gate/Protocol.antt =====
-- A semaphore shared by its callers, their tickets and the permits that they hold
-- (crates/vthread/src/sync/gate.rs, semaphore.rs): one critical section or exchange at a time.
use vthread.Prelude.{
  ℕ, ◌+◌, ◌≡◌, Bool, true, false, Option, none, some, List, [], ◌∷◌, ◌++◌, Occurs, returns,
  if◌then◌else◌,
}
use vthread.Error.{Error}
use vthread.WaitWord.{ResourceSelection, permit}
use vthread.Gate.{
  Gate, granted, refused, World, update, try_take, reserve, release, register, signal_round, close,
  collect, withdraw,
}
use vthread.Gate.Waits.{WaitApi}

-- Beside the world, what its parties own: the tickets that live, the reservations that have no ticket
-- yet or no longer, the permits that are held, and the permits on their way back by `signal`.
pub record System (C : Type 0) : Type 0 where
  pub world : World C
  pub tickets : List ℕ
  pub loose : ℕ
  pub held : ℕ
  pub returning : ℕ

abbrev pub one_if : Bool → ℕ
one_if true = 1
one_if false = 0

module _ {C : Type 0} (api : WaitApi C) where
  unfoldable pub start : Gate → (ℕ → C) → System C
  start g waits = record {
    world = record { gate = g; waits = waits };
    tickets = [];
    loose = 0;
    held = 0;
    returning = 0;
  }

  pub data Step (s : System C) : System C → Type 0 where
    -- `try_acquire`, and the first half of `acquire`.
    acquires :
        (g : Gate)
        → try_take s.world.gate ≡ (granted, g)
        → Step s (record s { world = record s.world { gate = g }; held = s.held + 1 })
    reserves :
        (g : Gate)
        → reserve s.world.gate ≡ (granted, g)
        → Step s (record s { world = record s.world { gate = g }; loose = s.loose + 1 })
    -- A reservation is turned into a ticket of a wait that holds nothing, or is given up.
    registers :
        (i loose : ℕ) (w : World C)
        → s.loose ≡ loose + 1
        → (Occurs i s.tickets → ⊥)
        → api.content (s.world.waits i) ≡ none
        → register api i s.world ≡ returns (granted, w)
        → Step s (record s { world = w; tickets = i ∷ s.tickets; loose = loose })
    unregistered :
        (i loose : ℕ) (w : World C) (e : Error)
        → s.loose ≡ loose + 1
        → (Occurs i s.tickets → ⊥)
        → register api i s.world ≡ returns (refused e, w)
        → Step s (record s { world = w; loose = loose })
    -- A ticket finds its permit and releases its reservation next.
    collects :
        (i : ℕ) (before behind : List ℕ) (w : World C)
        → s.tickets ≡ before ++ i ∷ behind
        → collect api i s.world ≡ some (granted, w)
        → Step s (record s {
          world = w;
          tickets = before ++ behind;
          loose = s.loose + 1;
          held = s.held + 1;
        })
    releases :
        (loose : ℕ) (g : Gate)
        → s.loose ≡ loose + 1
        → release s.world.gate ≡ returns g
        → Step s (record s { world = record s.world { gate = g }; loose = loose })
    -- A ticket is dropped, whatever the reason, and what it was granted goes on.
    withdraws :
        (i : ℕ) (before behind : List ℕ) (selection : Option ResourceSelection) (w : World C)
        → s.tickets ≡ before ++ i ∷ behind
        → withdraw api i s.world ≡ (selection, w)
        → Step s (record s {
          world = w;
          tickets = before ++ behind;
          loose = s.loose + 1;
          returning = s.returning + elim selection [ some permit ↦ 1 | _ ↦ 0 ];
        })
    drops_permit :
        (held : ℕ)
        → s.held ≡ held + 1
        → Step s (record s { held = held; returning = s.returning + 1 })
    signals :
        (returning : ℕ) (last : Bool) (w : World C)
        → s.returning ≡ returning + 1
        → signal_round api s.world ≡ (last, w)
        → Step s (record s { world = w; returning = if last then returning else s.returning })
    closes : Step s (record s { world = close api s.world })
    -- Anything else that happens to a wait: parks, deadlines, cancellation, resets.
    elsewhere :
        (i : ℕ) (c : C)
        → api.content c ≡ api.content (s.world.waits i)
        → Step s (record s { world = record s.world { waits = update s.world.waits i c } })

  pub data Reachable (g : Gate) (waits : ℕ → C) : System C → Type 0 where
    starts : Reachable g waits (start g waits)
    steps : (s t : System C) → Reachable g waits s → Step s t → Reachable g waits t
