-- ===== src/Signal/Wakes.antt =====
-- No wake of a sleeping carrier is lost (crates/vthread/src/signal.rs).
use vthread.Prelude.{
  ℕ, ◌+◌, ◌-◌, ◌≤◌, ◌≡◌, refl, ap, subst, ◌∙◌, ◌⊎◌, inl, inr, ◌≢◌, true, false, arith,
}
use vthread.Signal.{must_notify}
use vthread.Signal.Protocol.{
  sleeping, waking, System, woken, Step, advanced_looks, published_looks, calls, Reachable,
  of_notifier, Run, ends, then_step,
}
use vthread.Signal.Soundness.{registered, has_gate, Informed, Attentive, IsSound, Reachable-IsSound}

-- While the owner sleeps although the epoch is not the one that it has observed, or although there is
-- published work, a notifier is on its way to wake it.
pub no_lost_wake :
    (s : System) (observed : ℕ)
    → Reachable s
    → s.owner ≡ sleeping observed
    → (s.signal.epoch ≢ observed) ⊎ (s.ready ≡ true)
    → 1 ≤ s.advanced + s.published + s.calling
no_lost_wake s observed r e news =
    let informed : Informed observed s =
      subst (λ o. Attentive o s) e (Reachable-IsSound s r).attentive in
    elim news [
      | inl changed ↦ elim informed.0 [
        | inl same ↦ absurd (changed same)
        | inr coming ↦ omega (arith, coming)
      ]
      | inr work ↦ elim informed.1 [ inl idle ↦ absurd (cc) | inr coming ↦ omega (arith, coming) ]
    ]

-- The system once a notifier has called.
abbrev called : System → System
called s = record s { calling = s.calling - 1; owner = woken s.owner }

called-waking :
    (s : System) (observed : ℕ) → s.owner ≡ sleeping observed → (called s).owner ≡ waking observed
unfolding woken
called-waking s observed e = ap woken e

calls_now : (s : System) → 1 ≤ s.calling → s.signal.gate ≡ false → Step s (called s)
calls_now s n g = calls (s.calling - 1) (omega (arith, n)) g

calls_now-of_notifier :
    (s : System) (n : 1 ≤ s.calling) (g : s.signal.gate ≡ false)
    → of_notifier (calls_now s n g) ≡ true
unfolding calls_now
calls_now-of_notifier s n g = refl

wake :
    (s t : System) (observed : ℕ)
    → Run s t
    → 1 ≤ t.calling
    → t.signal.gate ≡ false
    → t.owner ≡ sleeping observed
    → (u : System) × Run s u × (u.owner ≡ waking observed)
wake s t observed run n g e = (
  called t,
  then_step t (called t) run (calls_now t n g) (calls_now-of_notifier t n g),
  called-waking t observed e,
)

le_cases : (n : ℕ) → (n ≡ 0) ⊎ (1 ≤ n)
le_cases n = ground arith

-- A sleeper leaves the gate free and is counted.
asleep :
    (s : System) (observed : ℕ)
    → IsSound s
    → s.owner ≡ sleeping observed
    → (s.signal.gate ≡ false) × (must_notify s.signal ≡ true)
unfolding must_notify
asleep s observed h e =
    let one : s.signal.waiters ≡ 1 = h.counted ∙ ap registered e in
    (h.gated ∙ ap has_gate e, ground (arith, one))

-- Where the owner sleeps and has missed an epoch or published work, notifiers alone can wake it.
pub Run-waking :
    (s : System) (observed : ℕ)
    → Reachable s
    → s.owner ≡ sleeping observed
    → (s.signal.epoch ≢ observed) ⊎ (s.ready ≡ true)
    → (t : System) × Run s t × (t.owner ≡ waking observed)
Run-waking s observed r e news =
    let (gate_free, must) = asleep s observed (Reachable-IsSound s r) e in
    let coming = no_lost_wake s observed r e news in
    elim (le_cases s.calling) [
      | inr n ↦ wake s s observed ends n gate_free e
      | inl nobody_calls ↦ elim (le_cases s.advanced) [
        | inr n ↦
            let looks : Step s (record s { advanced = s.advanced - 1; calling = s.calling + 1 }) =
              advanced_looks (s.advanced - 1) (s.calling + 1) (omega (arith, n)) (rw must refl) in
            wake s (record s { advanced = s.advanced - 1; calling = s.calling + 1 }) observed
              (then_step s (record s { advanced = s.advanced - 1; calling = s.calling + 1 }) ends
                looks refl)
              (omega arith) gate_free e
        | inl nobody_advanced ↦
            let looks : Step s (record s { published = s.published - 1; calling = s.calling + 1 }) =
              published_looks (s.published - 1) (s.calling + 1)
                (omega (arith, coming, nobody_calls, nobody_advanced)) (rw must refl) in
            wake s (record s { published = s.published - 1; calling = s.calling + 1 }) observed
              (then_step s (record s { published = s.published - 1; calling = s.calling + 1 }) ends
                looks refl)
              (omega arith) gate_free e
      ]
    ]
