-- ===== src/Signal/Soundness.antt =====
-- The invariant of a signal and its parties (crates/vthread/src/signal.rs).
use vthread.Prelude.{
  ℕ, ◌+◌, ◌≤◌, ◌≡◌, refl, sym, ap, subst, ◌∙◌, ◌⊎◌, inl, inr, Bool, true, false, arith,
}
use vthread.Signal.{default_signal, advance, must_notify, register, goes_on, leave}
use vthread.Signal.Protocol.{
  Owner, awake, testing, deciding, sleeping, waking, System, start, woken, Step, registers, decides,
  finishes, expires, sleeps, stirs, resumes, advances, publishes, consumes, advanced_looks,
  published_looks, calls, Reachable, starts, steps,
}

abbrev pub registered : Owner → ℕ
registered awake = 0
registered _ = 1

abbrev pub has_gate : Owner → Bool
has_gate (testing observed) = true
has_gate (deciding observed) = true
has_gate _ = false

-- An owner that is about to sleep, or sleeps, has seen everything, or a notifier is on its way.
abbrev pub Informed : ℕ → System → Type 0
Informed observed s =
    ((s.signal.epoch ≡ observed) ⊎ (1 ≤ s.advanced + s.calling))
    × ((s.ready ≡ false) ⊎ (1 ≤ s.published + s.calling))

abbrev pub Attentive : Owner → System → Type 0
Attentive (deciding observed) s = Informed observed s
Attentive (sleeping observed) s = Informed observed s
Attentive _ s = Unit

pub record IsSound (s : System) : Type 0 where
  pub counted : s.signal.waiters ≡ registered s.owner
  pub gated : s.signal.gate ≡ has_gate s.owner
  pub attentive : Attentive s.owner s

-- What keeps an owner informed while it is registered.
Attentive-keeps :
    (o : Owner) (s t : System)
    → s.signal.waiters ≡ registered o
    → ((observed : ℕ) → 1 ≤ s.signal.waiters → Informed observed s → Informed observed t)
    → Attentive o s
    → Attentive o t
Attentive-keeps awake s t c f a = tt
Attentive-keeps (testing observed) s t c f a = tt
Attentive-keeps (deciding observed) s t c f a = f observed (omega (arith, c)) a
Attentive-keeps (sleeping observed) s t c f a = f observed (omega (arith, c)) a
Attentive-keeps (waking observed) s t c f a = tt

registered-woken : (o : Owner) → registered (woken o) ≡ registered o
unfolding woken
registered-woken o = ground arith

has_gate-woken : (o : Owner) → has_gate (woken o) ≡ has_gate o
unfolding woken
has_gate-woken o = ground arith

-- Nobody is informed who is woken, and a notifier finds nobody about to sleep.
Attentive-woken : (o : Owner) (t : System) → has_gate o ≡ false → Attentive (woken o) t
unfolding woken
Attentive-woken awake t g = tt
Attentive-woken (testing observed) t g = tt
Attentive-woken (deciding observed) t g = absurd (ground arith)
Attentive-woken (sleeping observed) t g = tt
Attentive-woken (waking observed) t g = tt

Step-IsSound : (s t : System) → IsSound s → Step s t → IsSound t
unfolding advance must_notify register goes_on leave woken
Step-IsSound s _ h (registers observed e g) = record {
  counted = omega (arith, h.counted, ap registered e);
  gated = refl;
  attentive = tt;
}
Step-IsSound s _ h (decides observed e g) = record {
  counted = h.counted ∙ ap registered e;
  gated = h.gated ∙ ap has_gate e;
  attentive = ground arith;
}
Step-IsSound s _ h (finishes observed e g) = record {
  counted = omega (arith, h.counted, ap registered e);
  gated = refl;
  attentive = tt;
}
Step-IsSound s _ h (expires observed e) = record {
  counted = omega (arith, h.counted, ap registered e);
  gated = refl;
  attentive = tt;
}
Step-IsSound s _ h (sleeps observed e) = record {
  counted = h.counted ∙ ap registered e;
  gated = refl;
  attentive = subst (λ o. Attentive o s) e h.attentive;
}
Step-IsSound s _ h (stirs observed e) = record {
  counted = h.counted ∙ ap registered e;
  gated = h.gated ∙ ap has_gate e;
  attentive = tt;
}
Step-IsSound s _ h (resumes observed e g) = record {
  counted = h.counted ∙ ap registered e;
  gated = refl;
  attentive = tt;
}
Step-IsSound s _ h advances = record {
  counted = h.counted;
  gated = h.gated;
  attentive =
      Attentive-keeps s.owner s (record s { signal = advance s.signal; advanced = s.advanced + 1 })
        h.counted (λ observed w i. (inr (omega arith), i.1)) h.attentive;
}
Step-IsSound s _ h publishes = record {
  counted = h.counted;
  gated = h.gated;
  attentive =
      Attentive-keeps s.owner s (record s { ready = true; published = s.published + 1 }) h.counted
        (λ observed w i. (i.0, inr (omega arith))) h.attentive;
}
Step-IsSound s _ h consumes = record {
  counted = h.counted;
  gated = h.gated;
  attentive =
      Attentive-keeps s.owner s (record s { ready = false }) h.counted
        (λ observed w i. (i.0, inl refl)) h.attentive;
}
Step-IsSound s _ h (advanced_looks advanced calling e g) = record {
  counted = h.counted;
  gated = h.gated;
  attentive =
      Attentive-keeps s.owner s (record s { advanced = advanced; calling = calling }) h.counted
        (λ observed w i. (ground (arith, i.0, w), ground (arith, i.1, w))) h.attentive;
}
Step-IsSound s _ h (published_looks published calling e g) = record {
  counted = h.counted;
  gated = h.gated;
  attentive =
      Attentive-keeps s.owner s (record s { published = published; calling = calling }) h.counted
        (λ observed w i. (ground (arith, i.0, w), ground (arith, i.1, w))) h.attentive;
}
Step-IsSound s _ h (calls calling e g) = record {
  counted = h.counted ∙ sym (registered-woken s.owner);
  gated = h.gated ∙ sym (has_gate-woken s.owner);
  attentive =
      Attentive-woken s.owner (record s { calling = calling; owner = woken s.owner })
        (sym h.gated ∙ g);
}

start-IsSound : IsSound start
unfolding start default_signal
start-IsSound = record { counted = refl; gated = refl; attentive = tt }

pub Reachable-IsSound : (s : System) → Reachable s → IsSound s
Reachable-IsSound _ starts = start-IsSound
Reachable-IsSound _ (steps s t r step) = Step-IsSound s t (Reachable-IsSound s r) step
