-- ===== src/Signal.antt =====
-- crates/vthread/src/signal.rs: the epoch and the condition variable on which a carrier sleeps, with many
-- notifiers and one owner. Every access of an atomic, and every acquisition of the gate with what the
-- holder does at once, is a part of its own.
pub mod Protocol
pub mod Soundness
pub mod Wakes
mod Examples
use vthread.Prelude.{ℕ, ◌+◌, ◌-◌, ◌%◌, ◌^◌, Bool, true, false, not, ◌&&◌, ◌==◌, if◌then◌else◌}

-- `gate` says whether the mutex is held.
pub record Signal : Type 0 where
  pub epoch : ℕ
  pub waiters : ℕ
  pub gate : Bool

unfoldable pub default_signal : Signal
default_signal = record { epoch = 0; waiters = 0; gate = false }

unfoldable pub version : Signal → ℕ
version s = s.epoch

-- `notify`: the epoch, then whether the condition variable is notified. `notify_if_waiting` is the
-- second part alone.
unfoldable pub advance : Signal → Signal
advance s = record s { epoch = (s.epoch + 1) % 2 ^ 64 }

unfoldable pub must_notify : Signal → Bool
must_notify s = not (s.waiters == 0)

-- `wait_while`: the registration under the gate, the test of the loop, and the way out.
unfoldable pub register : Signal → Signal
register s = record s { waiters = s.waiters + 1; gate = true }

unfoldable pub goes_on : ℕ → Bool → Signal → Bool
goes_on observed ready s = s.epoch == observed && not ready

unfoldable pub leave : Signal → Signal
leave s = record s { waiters = s.waiters - 1; gate = false }
