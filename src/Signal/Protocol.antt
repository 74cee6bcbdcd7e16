-- ===== src/Signal/Protocol.antt =====
-- The owner of a signal and its notifiers, one part at a time (crates/vthread/src/signal.rs).
use vthread.Prelude.{ℕ, ◌+◌, ◌≡◌, Bool, true, false, if◌then◌else◌}
use vthread.Signal.{Signal, default_signal, advance, must_notify, register, goes_on, leave}

-- Where the owner is in `wait_while`, and the epoch that it has observed.
pub data Owner : Type 0 where
  awake : Owner
  testing deciding sleeping waking : ℕ → Owner

-- The signal, what `ready` answers, the owner, and the notifiers: those that have advanced the epoch,
-- those that have published work, and those that have seen a waiter and will notify it.
pub record System : Type 0 where
  pub signal : Signal
  pub ready : Bool
  pub owner : Owner
  pub advanced : ℕ
  pub published : ℕ
  pub calling : ℕ

unfoldable pub start : System
unfolding default_signal
start = record {
  signal = default_signal;
  ready = false;
  owner = awake;
  advanced = 0;
  published = 0;
  calling = 0;
}

-- A notified owner has to take the gate again.
unfoldable pub woken : Owner → Owner
woken (sleeping observed) = waking observed
woken awake = awake
woken (testing observed) = testing observed
woken (deciding observed) = deciding observed
woken (waking observed) = waking observed

pub data Step (s : System) : System → Type 0 where
  registers :
      (observed : ℕ)
      → s.owner ≡ awake
      → s.signal.gate ≡ false
      → Step s (record s { signal = register s.signal; owner = testing observed })
  decides :
      (observed : ℕ)
      → s.owner ≡ testing observed
      → goes_on observed s.ready s.signal ≡ true
      → Step s (record s { owner = deciding observed })
  -- The loop ends by its test, or by the deadline behind it.
  finishes :
      (observed : ℕ)
      → s.owner ≡ testing observed
      → goes_on observed s.ready s.signal ≡ false
      → Step s (record s { signal = leave s.signal; owner = awake })
  expires :
      (observed : ℕ)
      → s.owner ≡ deciding observed
      → Step s (record s { signal = leave s.signal; owner = awake })
  -- The condition variable releases the gate and sleeps in one.
  sleeps :
      (observed : ℕ)
      → s.owner ≡ deciding observed
      → Step s (record s { signal = record s.signal { gate = false }; owner = sleeping observed })
  -- A timeout or a spurious wake.
  stirs :
      (observed : ℕ) → s.owner ≡ sleeping observed → Step s (record s { owner = waking observed })
  resumes :
      (observed : ℕ)
      → s.owner ≡ waking observed
      → s.signal.gate ≡ false
      → Step s (record s { signal = record s.signal { gate = true }; owner = testing observed })
  advances : Step s (record s { signal = advance s.signal; advanced = s.advanced + 1 })
  publishes : Step s (record s { ready = true; published = s.published + 1 })
  consumes : Step s (record s { ready = false })
  advanced_looks :
      (advanced calling : ℕ)
      → s.advanced ≡ advanced + 1
      → (if must_notify s.signal then s.calling + 1 else s.calling) ≡ calling
      → Step s (record s { advanced = advanced; calling = calling })
  published_looks :
      (published calling : ℕ)
      → s.published ≡ published + 1
      → (if must_notify s.signal then s.calling + 1 else s.calling) ≡ calling
      → Step s (record s { published = published; calling = calling })
  -- The gate is taken, the owner notified, the gate released.
  calls :
      (calling : ℕ)
      → s.calling ≡ calling + 1
      → s.signal.gate ≡ false
      → Step s (record s { calling = calling; owner = woken s.owner })

pub data Reachable : System → Type 0 where
  starts : Reachable start
  steps : (s t : System) → Reachable s → Step s t → Reachable t

abbrev pub of_notifier : {s t : System} → Step s t → Bool
of_notifier (advanced_looks advanced calling e g) = true
of_notifier (published_looks published calling e g) = true
of_notifier (calls calling e g) = true
of_notifier _ = false

-- Steps of notifiers alone.
pub data Run (s : System) : System → Type 0 where
  ends : Run s s
  then_step : (t u : System) → Run s t → (step : Step t u) → of_notifier step ≡ true → Run s u
