-- ===== src/Config/Validation.antt =====
-- What a configuration that construction accepts satisfies, and what a refusal names
-- (crates/vthread/src/config.rs, `RuntimeBuilder::build`).
use vthread.Prelude.{
  ℕ, ◌≤◌, ◌<◌, ◌≡◌, refl, Bool, true, false, ◌||◌, Option, none, some, ltb, ◌==◌, ltb→lt,
  if◌then◌else◌, ◌⊎◌, inl, inr, arith,
}
use vthread.Error.{
  Error, ConfigurationField, invalid_configuration, max_vthreads, max_owned_scopes, carriers,
  carrier_queue_capacity, stack_size, stack_cache_capacity, io_capacity, blocking_threads,
  blocking_capacity, evidence_capacity, stall_policy,
}
use vthread.Config.{
  RuntimeConfig, RuntimeBuilder, min_stack_size, timeout, past_clock, is_some_zero, refuse,
  resolved, validate, build,
}

-- The timeout, where there is one, fits the clock.
abbrev FitsClock : (ℕ → Bool) → Option ℕ → Type 0
FitsClock fits none = Unit
FitsClock fits (some duration) = fits duration ≡ true

-- The bound, where there is one, is positive.
abbrev IsPositive : Option ℕ → Type 0
IsPositive none = Unit
IsPositive (some n) = 0 < n

-- A configuration that is within all its documented bounds.
pub record IsBounded (fits : ℕ → Bool) (c : RuntimeConfig) : Type 0 where
  pub io : 0 < c.io_capacity
  pub blocking : 0 < c.blocking_capacity
  pub threads : 0 < c.blocking_threads
  pub threads_fit : c.blocking_threads ≤ c.blocking_capacity
  pub stall : FitsClock fits (timeout c.stall_policy)
  pub vthreads : 0 < c.max_vthreads
  pub scopes : 0 < c.max_owned_scopes
  pub some_carrier : 0 < c.carriers
  pub carriers_fit : c.carriers ≤ c.max_vthreads
  pub queue : 0 < c.carrier_queue_capacity
  pub stack : min_stack_size ≤ c.stack_size
  pub cache : c.stack_cache_capacity ≤ c.max_vthreads
  pub evidence : IsPositive c.evidence_capacity

-- The bound that a refused field breaks.
abbrev pub Breaks : (ℕ → Bool) → RuntimeConfig → ConfigurationField → Type 0
Breaks fits c io_capacity = c.io_capacity ≡ 0
Breaks fits c blocking_capacity = c.blocking_capacity ≡ 0
Breaks fits c blocking_threads =
    (c.blocking_threads ≡ 0) ⊎ (c.blocking_capacity < c.blocking_threads)
Breaks fits c stall_policy = (d : ℕ) × (timeout c.stall_policy ≡ some d) × (fits d ≡ false)
Breaks fits c max_vthreads = c.max_vthreads ≡ 0
Breaks fits c max_owned_scopes = c.max_owned_scopes ≡ 0
Breaks fits c carriers = (c.carriers ≡ 0) ⊎ (c.max_vthreads < c.carriers)
Breaks fits c carrier_queue_capacity = c.carrier_queue_capacity ≡ 0
Breaks fits c stack_size = c.stack_size < min_stack_size
Breaks fits c stack_cache_capacity = c.max_vthreads < c.stack_cache_capacity
Breaks fits c evidence_capacity = c.evidence_capacity ≡ some 0
Breaks fits c _ = ⊥

-- Acceptance of the very configuration, with its bounds, or a refusal for a broken bound.
pub IsChecked : (ℕ → Bool) → RuntimeConfig → Error ⊎ RuntimeConfig → Type 0
IsChecked fits c (inr accepted) = (accepted ≡ c) × IsBounded fits c
IsChecked fits c (inl (invalid_configuration field)) = Breaks fits c field
IsChecked fits c (inl e) = ⊥

module _ (fits : ℕ → Bool) (c : RuntimeConfig) where
  if-IsChecked :
      (test : Bool) (field : ConfigurationField) (rest : Error ⊎ RuntimeConfig)
      → (test ≡ true → Breaks fits c field)
      → (test ≡ false → IsChecked fits c rest)
      → IsChecked fits c (if test then refuse field else rest)
  unfolding IsChecked
  if-IsChecked true field rest broken fine = broken refl
  if-IsChecked false field rest broken fine = fine refl

is_zero : (n : ℕ) → (n == 0) ≡ true → n ≡ 0
is_zero n h = ground arith

is_positive : (n : ℕ) → (n == 0) ≡ false → 0 < n
is_positive n h = ground arith

not_below : (a b : ℕ) → ltb a b ≡ false → b ≤ a
not_below a b h = ground arith

past_clock-true :
    (fits : ℕ → Bool) (o : Option ℕ)
    → past_clock fits o ≡ true
    → (d : ℕ) × (o ≡ some d) × (fits d ≡ false)
past_clock-true fits none h = absurd (cc)
past_clock-true fits (some d) h = (d, refl, ground arith)

past_clock-false : (fits : ℕ → Bool) (o : Option ℕ) → past_clock fits o ≡ false → FitsClock fits o
past_clock-false fits none h = tt
past_clock-false fits (some d) h = ground arith

some_zero-true : (o : Option ℕ) → is_some_zero o ≡ true → o ≡ some 0
some_zero-true none h = absurd (cc)
some_zero-true (some n) h = ground arith

some_zero-false : (o : Option ℕ) → is_some_zero o ≡ false → IsPositive o
some_zero-false none h = tt
some_zero-false (some n) h = ground arith

carriers-true : (n m : ℕ) → (n == 0 || ltb m n) ≡ true → (n ≡ 0) ⊎ (m < n)
carriers-true n m h = ground arith

carriers-false : (n m : ℕ) → (n == 0 || ltb m n) ≡ false → (0 < n) × (n ≤ m)
carriers-false n m h = ground arith

accepted : (fits : ℕ → Bool) (c : RuntimeConfig) → IsBounded fits c → IsChecked fits c (inr c)
unfolding IsChecked
accepted fits c bounded = (refl, bounded)

validate-IsChecked : (fits : ℕ → Bool) (c : RuntimeConfig) → IsChecked fits c (validate fits c)
unfolding validate
validate-IsChecked fits c = if-IsChecked fits c _ _ _ (is_zero _) (λ io.
    if-IsChecked fits c _ _ _ (is_zero _) (λ blocking.
      if-IsChecked fits c _ _ _ (λ h. inl (is_zero _ h))
        (λ threads.
          if-IsChecked fits c _ _ _ (λ h. inr (ltb→lt _ _ h))
            (λ threads_fit.
              if-IsChecked fits c _ _ _ (past_clock-true fits (timeout c.stall_policy)) (λ stall.
                if-IsChecked fits c _ _ _ (is_zero _) (λ vthreads.
                  if-IsChecked fits c _ _ _ (is_zero _) (λ scopes.
                    if-IsChecked fits c (c.carriers == 0 || ltb c.max_vthreads c.carriers) carriers
                      _ (carriers-true c.carriers c.max_vthreads)
                      (λ within. if-IsChecked fits c _ _ _ (is_zero _) (λ queue.
                        if-IsChecked fits c _ _ _ (ltb→lt _ _) (λ stack.
                          if-IsChecked fits c _ _ _ (ltb→lt _ _) (λ cache.
                            if-IsChecked fits c _ evidence_capacity _
                              (some_zero-true c.evidence_capacity)
                              (λ evidence. accepted fits c (record {
                                io = is_positive _ io;
                                blocking = is_positive _ blocking;
                                threads = is_positive _ threads;
                                threads_fit = not_below _ _ threads_fit;
                                stall = past_clock-false fits _ stall;
                                vthreads = is_positive _ vthreads;
                                scopes = is_positive _ scopes;
                                some_carrier = (carriers-false c.carriers c.max_vthreads within).0;
                                carriers_fit = (carriers-false c.carriers c.max_vthreads within).1;
                                queue = is_positive _ queue;
                                stack = not_below _ _ stack;
                                cache = not_below _ _ cache;
                                evidence = some_zero-false _ evidence;
                              })))))))))))))

-- Construction takes the builder's configuration as it is, and then every documented bound holds, or
-- it refuses with the name of a field, and that field breaks one of its bounds.
pub build-IsChecked :
    (fits : ℕ → Bool) (b : RuntimeBuilder) → IsChecked fits (resolved b) (build fits b)
unfolding build
build-IsChecked fits b = validate-IsChecked fits (resolved b)
