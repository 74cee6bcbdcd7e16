-- ===== src/Channel/Examples.antt =====
-- A channel of numbers with one value and one waiting receiver.
use vthread.Prelude.{
  ℕ, ◌≡◌, ◌≢◌, refl, ◌⊎◌, inl, true, false, none, some, List, [], ◌∷◌, returns, arith,
}
use vthread.Channel.{
  Limits, State, Ticket, send, recv, queue, put_queue, take_turn, send_round, recv_round,
  send_decide, take_front, wake_fronts, recv_decide, recv_front, close, drop_receiver, wake_all,
  clone_receiver,
}
use vthread.Channel.Buffer.{Op, sends, receives, closes, drops_receiver, clones_receiver, run, step}
use vthread.Channel.History.{IsPlacedRun, Delivers, run-Delivers}
use vthread.Channel.Turns.{IsPlaced, Unopposed, AtFront, take_turn_cases}

abbrev two : Limits
two = record { buffer = 2; waits = 4 }

-- The receiver of wait 8 is queued while a value is in the buffer.
abbrev busy : State ℕ
busy = record {
  values = 10 ∷ [];
  senders = 1;
  receivers = 2;
  closed = false;
  send_waits = [];
  recv_waits = 8 ∷ [];
}

abbrev waiting : Ticket
waiting = record { direction = recv; wait = some 8; queued = true }

abbrev sender : Ticket
sender = record { direction = send; wait = none; queued = false }

-- Another receiver, which has attached its wait and is not queued.
abbrev late : Ticket
late = record { direction = recv; wait = some 9; queued = false }

abbrev waiting-IsPlaced : IsPlaced waiting busy
waiting-IsPlaced h = (8, refl, inl refl)

sender-IsPlaced : IsPlaced sender busy
sender-IsPlaced h = absurd (cc)

late-IsPlaced : IsPlaced late busy
late-IsPlaced h = absurd (cc)

abbrev history : List (Op ℕ)
history =
    sends true none 11 sender
    ∷ receives true (some 8) waiting
    ∷ clones_receiver
    ∷ closes
    ∷ drops_receiver
    ∷ drops_receiver
    ∷ []

history-IsPlacedRun : IsPlacedRun two history busy
unfolding IsPlacedRun step send_round send_decide take_turn take_front wake_fronts recv_round
    recv_decide recv_front close drop_receiver wake_all clone_receiver
history-IsPlacedRun = (
  (sender-IsPlaced, tt),
  (((λ h. (8, refl, inl refl)), refl), (omega arith, (tt, (omega arith, (omega arith, tt))))),
)

run-Delivers_example : Delivers two busy (run two history busy)
run-Delivers_example = run-Delivers two history busy history-IsPlacedRun

take_turn_cases_example :
    ((take_turn waiting busy ≡ returns (true, waiting, busy)) × Unopposed waiting busy)
    ⊎ ((rest : List ℕ) × (take_turn waiting busy
          ≡ returns
              (true, record waiting { queued = false; wait = none }, put_queue recv rest busy))
        × AtFront waiting busy rest)
    ⊎ ((take_turn waiting busy ≡ returns (false, waiting, busy))
        × ((true ≡ true) ⊎ (queue recv busy ≢ []))
        × ((rest : List ℕ) → AtFront waiting busy rest → ⊥))
take_turn_cases_example = take_turn_cases waiting busy waiting-IsPlaced
