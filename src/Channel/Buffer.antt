-- ===== src/Channel/Buffer.antt =====
-- What a channel does with its values: none is lost, made up or overtaken, and the buffer is bounded
-- (crates/vthread/src/channel/core.rs, endpoints.rs).
use vthread.Prelude.{
  ◌+◌, ℕ, ◌-◌, ◌≤◌, ◌≡◌, refl, inl, inr, Bool, true, false, Option, none, some, List, [], ◌∷◌, ◌++◌,
  length, length-append, ltb, ltb→lt, ◌==◌, if◌then◌else◌, Outcome, returns, panics, ◌>>=◌, arith,
  ap, sym, ◌∙◌, append_assoc, append-nil, Bool-cases, map, empty?, not, ◌||◌, ◌&&◌, expect,
}
use mathlib.Core.List.{map-append}
use vthread.Error.{Error}
use vthread.TaskKey.{usize_values}
use vthread.Channel.{
  Limits, State, Ticket, Direction, send, recv, Verdict, done, failed, enters, parks, queue,
  put_queue, take_turn, take_front, enqueue, miss, send_decide, recv_decide, recv_front, drop_entry,
  send_round, recv_round, close, drop_ticket, drop_sender, drop_receiver, clone_sender,
  clone_receiver, wake_fronts,
}

-- What leaves the buffer.
pub data Removal (T : Type 0) : Type 0 where
  delivered discarded : T → Removal T

-- A step of a channel: a round by any ticket, the loss of a ticket, or a change of the endpoints.
pub data Op (T : Type 0) : Type 0 where
  sends : Bool → Option ℕ → T → Ticket → Op T
  receives : Bool → Option ℕ → Ticket → Op T
  drops : Ticket → Op T
  closes drops_sender drops_receiver clones_sender clones_receiver : Op T

-- A miss changes no value and is not done.
abbrev NotDone : {A : Type 0} → Verdict A → Type 0
NotDone (done a) = ⊥
NotDone (failed e) = Unit
NotDone enters = Unit
NotDone parks = Unit

module _ {T : Type 0} where
  abbrev pub content : Removal T → T
  content (delivered x) = x
  content (discarded x) = x

  abbrev pub accepted : T → Verdict (Unit {0}) → List T
  accepted value (done _) = value ∷ []
  accepted value _ = []

  abbrev pub given : Verdict T → List (Removal T)
  given (done value) = delivered value ∷ []
  given _ = []

  -- One step: the new state, the values that it accepted and those that it removed.
  unfoldable pub step : Limits → Op T → State T → Outcome (State T × List T × List (Removal T))
  step limits (sends blocking entered value t) s = do
    (verdict, t', s', woken) ← send_round limits blocking entered value t s
    returns (s', accepted value verdict, [])
  step limits (receives blocking entered t) s = do
    (verdict, t', s', woken) ← recv_round limits blocking entered t s
    returns (s', [], given verdict)
  step limits (drops t) s = do (s', woken) ← drop_ticket t s; returns (s', [], [])
  step limits closes s = returns ((close s).0, [], [])
  step limits drops_sender s = do (s', woken) ← drop_sender s; returns (s', [], [])
  step limits drops_receiver s = do
    (s', woken, values) ← drop_receiver s
    returns (s', [], map (λ x. discarded x) values)
  step limits clones_sender s = do s' ← clone_sender s; returns (s', [], [])
  step limits clones_receiver s = do s' ← clone_receiver s; returns (s', [], [])

  put_queue_values :
      (d : Direction) (q : List ℕ) (s : State T) → (put_queue d q s).values ≡ s.values
  put_queue_values send q s = refl
  put_queue_values recv q s = refl

  take_front_values :
      (t : Ticket) (s : State T) (q : List ℕ) {turn : Bool} {t' : Ticket} {s' : State T}
      → take_front t s q ≡ returns (turn, t', s')
      → s'.values ≡ s.values
  unfolding take_front
  take_front_values t s [] e = ground arith
  take_front_values t s (i ∷ q) e = ground (arith, put_queue_values t.direction q s)

  -- What the parts of a round leave alone.
  abbrev SameValues : {A : Type 0} → State T → Outcome (A × Ticket × State T) → Type 0
  SameValues s panics = Unit
  SameValues s (returns r) = r.2.values ≡ s.values

  take_turn-SameValues : (t : Ticket) (s : State T) → SameValues s (take_turn t s)
  unfolding take_turn
  take_turn-SameValues t s = go (take_front t s (queue t.direction s)) refl
    where
      go :
          (o : Outcome (Bool × Ticket × State T))
          → take_front t s (queue t.direction s) ≡ o
          → SameValues s o
      go panics e = tt
      go (returns (turn, t', s')) e = take_front_values t s (queue t.direction s) e

  abbrev Misses : {A : Type 0} → State T → Outcome (Verdict A × Ticket × State T) → Type 0
  Misses s panics = Unit
  Misses s (returns r) = NotDone r.0 × (r.2.values ≡ s.values)

  enqueue_values :
      (limits : Limits) (i : ℕ) (t : Ticket) (s : State T) {r : Option Error} {t' : Ticket}
      {s' : State T}
      → enqueue limits i t s ≡ returns (r, t', s')
      → s'.values ≡ s.values
  unfolding enqueue
  enqueue_values limits i t s e =
      ground (arith, put_queue_values t.direction (queue t.direction s ++ i ∷ []) s)

  miss-Misses :
      (A : Type 0) (limits : Limits) (blocking : Bool) (entered : Option ℕ) (t : Ticket)
      (s : State T)
      → Misses s (miss {A = A} limits blocking entered t s)
  unfolding miss
  miss-Misses A limits false entered t s = (tt, refl)
  miss-Misses A limits true none t s = (tt, refl)
  miss-Misses A limits true (some i) t s = go (enqueue limits i t s) refl
    where
      go :
          (o : Outcome (Option Error × Ticket × State T))
          → enqueue limits i t s ≡ o
          → Misses {A = A} s (do
            (refused, t', s') ← o
            returns (elim refused [ none ↦ (parks, t', s') | some e ↦ (failed e, t', s') ]))
      go panics e = tt
      go (returns (none, t', s')) e = (tt, enqueue_values limits i t s e)
      go (returns (some x, t', s')) e = (tt, enqueue_values limits i t s e)

  -- What a step does to the buffer: what it held and what it accepts is what it gives out and what
  -- it holds then, in this order; and it does not outgrow the limit.
  abbrev pub Keeps : Limits → State T → Outcome (State T × List T × List (Removal T)) → Type 0
  Keeps limits s panics = Unit
  Keeps limits s (returns (s', came, went)) =
      (s.values ++ came ≡ map content went ++ s'.values)
      × (length s.values ≤ limits.buffer → length s'.values ≤ limits.buffer)

  -- The state and the logs of a round.
  abbrev send_log :
      T
      → Outcome (Verdict (Unit {0}) × Ticket × State T × List ℕ)
      → Outcome (State T × List T × List (Removal T))
  send_log value o = do (verdict, t', s', woken) ← o; returns (s', accepted value verdict, [])

  abbrev recv_log :
      Outcome (Verdict T × Ticket × State T × List ℕ)
      → Outcome (State T × List T × List (Removal T))
  recv_log o = do (verdict, t', s', woken) ← o; returns (s', [], given verdict)

  length-push :
      (limits : Limits) (xs : List T) (x : T)
      → ltb (length xs) limits.buffer ≡ true
      → length (xs ++ x ∷ []) ≤ limits.buffer
  length-push limits xs x h =
      omega (arith, ltb→lt (length xs) limits.buffer h, length-append xs (x ∷ []))

  -- A part that changes no value and reports none.
  kept :
      (limits : Limits) (s s' : State T)
      → s'.values ≡ s.values
      → Keeps limits s (returns (s', [], []))
  kept limits s s' e = (append-nil s.values ∙ sym e, λ h. rw e h)

  if-Keeps :
      {R : Type 0} (limits : Limits) (s : State T)
      (log : Outcome R → Outcome (State T × List T × List (Removal T))) (b : Bool) (x y : Outcome R)
      → (b ≡ true → Keeps limits s (log x))
      → (b ≡ false → Keeps limits s (log y))
      → Keeps limits s (log (if b then x else y))
  if-Keeps limits s log true x y h k = h refl
  if-Keeps limits s log false x y h k = k refl

  missed_send :
      (limits : Limits) (value : T) (s : State T)
      (missed : Outcome (Verdict (Unit {0}) × Ticket × State T))
      → Misses s missed
      → Keeps limits s
          (send_log value (do (verdict, t', s') ← missed; returns (verdict, t', s', [])))
  missed_send limits value s panics h = tt
  missed_send limits value s (returns (done a, t', s')) h = absurd h.0
  missed_send limits value s (returns (failed e, t', s')) h = kept limits s s' h.1
  missed_send limits value s (returns (enters, t', s')) h = kept limits s s' h.1
  missed_send limits value s (returns (parks, t', s')) h = kept limits s s' h.1

  missed_recv :
      (limits : Limits) (s : State T) (missed : Outcome (Verdict T × Ticket × State T))
      → Misses s missed
      → Keeps limits s (recv_log (do (verdict, t', s') ← missed; returns (verdict, t', s', [])))
  missed_recv limits s panics h = tt
  missed_recv limits s (returns (done a, t', s')) h = absurd h.0
  missed_recv limits s (returns (failed e, t', s')) h = kept limits s s' h.1
  missed_recv limits s (returns (enters, t', s')) h = kept limits s s' h.1
  missed_recv limits s (returns (parks, t', s')) h = kept limits s s' h.1

  send_turn :
      (limits : Limits) (value : T) (s : State T) (turn : Outcome (Bool × Ticket × State T))
      (waits : Outcome (Verdict (Unit {0}) × Ticket × State T × List ℕ))
      → SameValues s turn
      → ltb (length s.values) limits.buffer ≡ true
      → Keeps limits s (send_log value waits)
      → Keeps limits s (
          send_log value (do
            (taken, t', s') ← turn
            let pushed = record s' { values = s'.values ++ value ∷ [] }
            if taken then returns (done tt, t', pushed, wake_fronts pushed) else waits))
  send_turn limits value s panics waits h room k = tt
  send_turn limits value s (returns (true, t', s')) waits h room k =
      (rw h, λ _. rw h (length-push limits s.values value room))
  send_turn limits value s (returns (false, t', s')) waits h room k = k

  send-Keeps :
      (limits : Limits) (value : T) (t : Ticket) (s : State T)
      (turn : Outcome (Bool × Ticket × State T))
      (missed : Outcome (Verdict (Unit {0}) × Ticket × State T))
      → SameValues s turn
      → Misses s missed
      → Keeps limits s (send_log value (send_decide limits value t s turn missed))
  unfolding send_decide
  send-Keeps limits value t s turn missed ht hm =
      if-Keeps limits s (send_log value) (s.closed || s.receivers == 0) _ _
        (λ _. kept limits s s refl)
        λ _.
          if-Keeps limits s (send_log value) (ltb (length s.values) limits.buffer) _ _
            (λ room. send_turn limits value s turn _ ht room (missed_send limits value s missed hm))
            (λ _. missed_send limits value s missed hm)

  recv_turn :
      (limits : Limits) (xs : List T) (s : State T) (turn : Outcome (Bool × Ticket × State T))
      (refused : Outcome (Verdict T × Ticket × State T × List ℕ))
      → s.values ≡ xs
      → Keeps limits s (recv_log refused)
      → Keeps limits s (recv_log (recv_front xs turn refused))
  unfolding recv_front
  recv_turn limits [] s turn refused e k = k
  recv_turn limits (x ∷ xs) s panics refused e k = tt
  recv_turn limits (x ∷ xs) s (returns (true, t', s')) refused e k =
      (append-nil s.values ∙ e, λ h. omega (arith, ap length e))
  recv_turn limits (x ∷ xs) s (returns (false, t', s')) refused e k = k

  recv-Keeps :
      (limits : Limits) (t : Ticket) (s : State T) (turn : Outcome (Bool × Ticket × State T))
      (missed : Outcome (Verdict T × Ticket × State T))
      → Misses s missed
      → Keeps limits s (recv_log (recv_decide t s turn missed))
  unfolding recv_decide
  recv-Keeps limits t s turn missed hm = recv_turn limits s.values s turn _ refl (
      if-Keeps limits s recv_log (empty? s.values && (s.closed || s.senders == 0)) _ _
        (λ _. kept limits s s refl) (λ _. missed_recv limits s missed hm))

  discards : (xs : List T) → xs ≡ map content (map (λ x. discarded x) xs)
  discards [] = refl
  discards (x ∷ xs) = ap (λ (l : List T). x ∷ l) (discards xs)

  drop_ticket-Keeps :
      (limits : Limits) (t : Ticket) (s : State T) → Keeps limits s (step limits (drops t) s)
  unfolding step drop_ticket
  drop_ticket-Keeps limits t s =
      if-Keeps limits s (λ o. do (s', woken) ← o; returns (s', [], [])) (not t.queued) _ _
        (λ _. kept limits s s refl) (λ _. go t.wait)
    where
      cleaned : Option ℕ → Outcome (State T × List ℕ)
      cleaned w = do
        identity ← expect w
        let s' = put_queue t.direction (drop_entry identity (queue t.direction s)) s
        returns (s', wake_fronts s')

      go : (w : Option ℕ) → Keeps limits s (do (s', woken) ← cleaned w; returns (s', [], []))
      go none = tt
      go (some i) =
          kept limits s (put_queue t.direction (drop_entry i (queue t.direction s)) s)
            (put_queue_values t.direction (drop_entry i (queue t.direction s)) s)

  drop_receiver-Keeps :
      (limits : Limits) (s : State T) → Keeps limits s (step limits drops_receiver s)
  unfolding step drop_receiver
  drop_receiver-Keeps limits s = elim (Bool-cases (s.receivers == 0)) [
    | inl gone ↦ rw gone tt
    | inr held ↦ elim (Bool-cases (s.receivers - 1 == 0)) [
      | inl last ↦
          rw (held, last)
            (append-nil s.values ∙ discards s.values ∙ sym (append-nil _), λ h. omega arith)
      | inr more ↦ rw (held, more) (kept limits s s refl)
    ]
  ]

  drop_sender-Keeps : (limits : Limits) (s : State T) → Keeps limits s (step limits drops_sender s)
  unfolding step drop_sender
  drop_sender-Keeps limits s = elim (Bool-cases (s.senders == 0)) [
    | inl gone ↦ rw gone tt
    | inr held ↦ elim (Bool-cases (s.senders - 1 == 0)) [
      | inl last ↦ rw (held, last) (kept limits s s refl)
      | inr more ↦ rw (held, more) (kept limits s s refl)
    ]
  ]

  clone_sender-Keeps :
      (limits : Limits) (s : State T) → Keeps limits s (step limits clones_sender s)
  unfolding step clone_sender
  clone_sender-Keeps limits s = elim (Bool-cases (ltb (s.senders + 1) usize_values)) [
    | inl room ↦ rw room (kept limits s (record s { senders = s.senders + 1 }) refl)
    | inr full ↦ rw full tt
  ]

  clone_receiver-Keeps :
      (limits : Limits) (s : State T) → Keeps limits s (step limits clones_receiver s)
  unfolding step clone_receiver
  clone_receiver-Keeps limits s = elim (Bool-cases (ltb (s.receivers + 1) usize_values)) [
    | inl room ↦ rw room (kept limits s (record s { receivers = s.receivers + 1 }) refl)
    | inr full ↦ rw full tt
  ]

  step-Keeps : (limits : Limits) (op : Op T) (s : State T) → Keeps limits s (step limits op s)
  unfolding step send_round recv_round close
  step-Keeps limits (sends blocking entered value t) s =
      send-Keeps limits value t s (take_turn t s) (miss limits blocking entered t s)
        (take_turn-SameValues t s) (miss-Misses (Unit {0}) limits blocking entered t s)
  step-Keeps limits (receives blocking entered t) s =
      recv-Keeps limits t s (take_turn t s) (miss limits blocking entered t s)
        (miss-Misses T limits blocking entered t s)
  step-Keeps limits (drops t) s = drop_ticket-Keeps limits t s
  step-Keeps limits closes s = kept limits s s refl
  step-Keeps limits drops_sender s = drop_sender-Keeps limits s
  step-Keeps limits drops_receiver s = drop_receiver-Keeps limits s
  step-Keeps limits clones_sender s = clone_sender-Keeps limits s
  step-Keeps limits clones_receiver s = clone_receiver-Keeps limits s

  -- A history: the steps of all senders and receivers, in any order.
  unfoldable pub run :
      Limits → List (Op T) → State T → Outcome (State T × List T × List (Removal T))
  run limits [] s = returns (s, [], [])
  run limits (op ∷ ops) s = do
    (s', came, went) ← step limits op s
    (s'', came', went') ← run limits ops s'
    returns (s'', came ++ came', went ++ went')

  Keeps-compose :
      (limits : Limits) (s s' : State T) (came : List T) (went : List (Removal T))
      (o : Outcome (State T × List T × List (Removal T)))
      → Keeps limits s (returns (s', came, went))
      → Keeps limits s' o
      → Keeps limits s (do (s'', came', went') ← o; returns (s'', came ++ came', went ++ went'))
  Keeps-compose limits s s' came went panics h k = tt
  Keeps-compose limits s s' came went (returns (s'', came', went')) h k =
      (ordered, λ b. k.1 (h.1 b))
    where
      ordered : s.values ++ (came ++ came') ≡ map content (went ++ went') ++ s''.values
      ordered =
          sym (append_assoc s.values came came')
          ∙ ap (λ (l : List T). l ++ came') h.0
          ∙ append_assoc (map content went) s'.values came'
          ∙ ap (λ (l : List T). map content went ++ l) k.0
          ∙ sym (append_assoc (map content went) (map content went') s''.values)
          ∙ ap (λ (l : List T). l ++ s''.values) (sym (map-append content went went'))

  -- Over any history, what the channel held and accepted is what it delivered or discarded and what
  -- it still holds, each value once and in one order; and the buffer stays within its limit.
  pub run-Keeps :
      (limits : Limits) (ops : List (Op T)) (s : State T) → Keeps limits s (run limits ops s)
  unfolding run
  run-Keeps limits [] s = kept limits s s refl
  run-Keeps limits (op ∷ ops) s =
      go (step limits op s) (step-Keeps limits op s) (run-Keeps limits ops)
    where
      go :
          (o : Outcome (State T × List T × List (Removal T)))
          → Keeps limits s o
          → ((s' : State T) → Keeps limits s' (run limits ops s'))
          → Keeps limits s (do
            (s', came, went) ← o
            (s'', came', went') ← run limits ops s'
            returns (s'', came ++ came', went ++ went'))
      go panics h rest = tt
      go (returns (s', came, went)) h rest =
          Keeps-compose limits s s' came went (run limits ops s') h (rest s')
