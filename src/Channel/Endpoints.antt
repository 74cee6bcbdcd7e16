-- ===== src/Channel/Endpoints.antt =====
-- What an endpoint of a channel tells of it (crates/vthread/src/channel.rs, channel/endpoints.rs).
use vthread.Prelude.{ℕ, Bool, ◌||◌, length, ◌==◌}
use vthread.Channel.{Limits, State, Verdict, Direction, queue, bounded_with_wait_capacity}

abbrev pub default_wait_capacity : ℕ
default_wait_capacity = 64

module _ {T : Type 0} where
  unfoldable pub bounded : ℕ → Verdict (Limits × State T)
  bounded buffer = bounded_with_wait_capacity buffer default_wait_capacity

  -- Whether sending is over, and whether nothing more will be sent.
  unfoldable pub sender_is_closed : State T → Bool
  sender_is_closed s = s.closed || s.receivers == 0

  unfoldable pub receiver_is_closed : State T → Bool
  receiver_is_closed s = s.closed || s.senders == 0

  unfoldable pub len : State T → ℕ
  len s = length s.values

  unfoldable pub is_empty : State T → Bool
  unfolding len
  is_empty s = len s == 0

  unfoldable pub waiting : Direction → State T → ℕ
  waiting d s = length (queue d s)
