-- ===== src/Gate/Conservation.antt =====
-- What a semaphore promises to its users (crates/vthread/src/sync/gate.rs, semaphore.rs).
use vthread.Prelude.{ℕ, ◌+◌, ◌≡◌, false, List, ◌∷◌, inl, inr, arith}
use vthread.Error.{would_block}
use vthread.Gate.{Gate, built, refused, try_take, semaphore}
use vthread.Gate.Waits.{WaitApi}
use vthread.Gate.Protocol.{System, Reachable}
use vthread.Gate.Permits.{granted_to}
use vthread.Gate.Steps.{Reachable-IsSound}

module _ {C : Type 0} (api : WaitApi C) where
  -- As long as a semaphore is open, none of its permits is lost or made up: each is available, held,
  -- on its way back, or granted to a ticket that has still to collect it.
  pub permits_conserved :
      (permits capacity : ℕ) (g : Gate) (waits : ℕ → C) (s : System C)
      → semaphore permits capacity ≡ built g
      → Reachable api g waits s
      → s.world.gate.closed ≡ false
      → s.world.gate.available + s.held + s.returning + granted_to api s.world.waits s.tickets
        ≡ s.world.gate.maximum
  permits_conserved permits capacity g waits s e r o =
      (Reachable-IsSound api permits capacity g waits s e r).conserved o

  -- While a ticket waits in the queue of an open semaphore no permit lies idle, so that nobody can
  -- take one past the queue.
  pub nobody_overtakes :
      (permits capacity i : ℕ) (rest : List ℕ) (g : Gate) (waits : ℕ → C) (s : System C)
      → semaphore permits capacity ≡ built g
      → Reachable api g waits s
      → s.world.gate.closed ≡ false
      → s.world.gate.entries ≡ i ∷ rest
      → try_take s.world.gate ≡ (refused would_block, s.world.gate)
  unfolding try_take
  nobody_overtakes permits capacity i rest g waits s e r o queue =
      elim ((Reachable-IsSound api permits capacity g waits s e r).no_idle_permit o) [
        | inl empty ↦ absurd (cc)
        | inr zero_left ↦ ground (arith, o, zero_left)
      ]
