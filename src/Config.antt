-- ===== src/Config.antt =====
-- crates/vthread/src/config.rs and stall_policy.rs: the runtime's configuration, its builder and the
-- validation that construction starts with. Whether the monotonic clock can hold a timeout from now
-- on is a parameter; a duration is its number of nanoseconds. The feature runtime-evidence is on.
pub mod Validation
pub mod Overrides
mod Examples
use vthread.Prelude.{
  ℕ, ◌*◌, Bool, true, false, not, ◌||◌, Option, none, some, ltb, ◌==◌, if◌then◌else◌, ◌⊎◌, inl, inr,
}
use vthread.Error.{
  Error, ConfigurationField, invalid_configuration, max_vthreads, max_owned_scopes, carriers,
  carrier_queue_capacity, stack_size, stack_cache_capacity, io_capacity, blocking_threads,
  blocking_capacity, evidence_capacity, stall_policy,
}

pub data StallPolicy : Type 0 where
  disabled : StallPolicy
  report_after : ℕ → StallPolicy
  abort_after : ℕ → StallPolicy

abbrev pub timeout : StallPolicy → Option ℕ
timeout disabled = none
timeout (report_after duration) = some duration
timeout (abort_after duration) = some duration

abbrev pub min_stack_size : ℕ
min_stack_size = 64 * 1024

pub record RuntimeConfig : Type 0 where
  pub io_capacity : ℕ
  pub blocking_threads : ℕ
  pub blocking_capacity : ℕ
  pub max_vthreads : ℕ
  pub max_owned_scopes : ℕ
  pub stack_size : ℕ
  pub stack_cache_capacity : ℕ
  pub carriers : ℕ
  pub task_local_capacity : ℕ
  pub carrier_queue_capacity : ℕ
  pub stall_policy : StallPolicy
  pub evidence_capacity : Option ℕ

unfoldable pub default_config : RuntimeConfig
default_config = record {
  io_capacity = 1024;
  blocking_threads = 2;
  blocking_capacity = 256;
  max_vthreads = 65536;
  max_owned_scopes = 65536;
  stack_size = 1024 * 1024;
  stack_cache_capacity = 64;
  carriers = 1;
  task_local_capacity = 64;
  carrier_queue_capacity = 256;
  stall_policy = disabled;
  evidence_capacity = none;
}

pub record RuntimeBuilder : Type 0 where
  pub config : RuntimeConfig
  pub max_owned_scopes : Option ℕ

unfoldable pub default_builder : RuntimeBuilder
unfolding default_config
default_builder = record { config = default_config; max_owned_scopes = none }

-- A call of one of the builder's setters.
pub data Setting : Type 0 where
  set_io_capacity set_blocking_threads set_blocking_capacity set_task_local_capacity : ℕ → Setting
  set_carriers set_carrier_queue_capacity set_max_vthreads set_max_owned_scopes : ℕ → Setting
  set_stack_size set_stack_cache_capacity set_evidence_capacity : ℕ → Setting
  set_stall_policy : StallPolicy → Setting

unfoldable pub apply : Setting → RuntimeBuilder → RuntimeBuilder
apply (set_io_capacity n) b = record b { config = record b.config { io_capacity = n } }
apply (set_blocking_threads n) b = record b { config = record b.config { blocking_threads = n } }
apply (set_blocking_capacity n) b = record b { config = record b.config { blocking_capacity = n } }
apply (set_task_local_capacity n) b = record b {
  config = record b.config { task_local_capacity = n };
}
apply (set_carriers n) b = record b { config = record b.config { carriers = n } }
apply (set_carrier_queue_capacity n) b = record b {
  config = record b.config { carrier_queue_capacity = n };
}
apply (set_max_vthreads n) b = record b { config = record b.config { max_vthreads = n } }
apply (set_max_owned_scopes n) b = record b { max_owned_scopes = some n }
apply (set_stack_size n) b = record b { config = record b.config { stack_size = n } }
apply (set_stack_cache_capacity n) b = record b {
  config = record b.config { stack_cache_capacity = n };
}
apply (set_evidence_capacity n) b = record b {
  config = record b.config { evidence_capacity = some n };
}
apply (set_stall_policy p) b = record b { config = record b.config { stall_policy = p } }

abbrev pub unwrap_or : Option ℕ → ℕ → ℕ
unwrap_or none d = d
unwrap_or (some n) d = n

-- The first line of `build`.
unfoldable pub resolved : RuntimeBuilder → RuntimeConfig
resolved b = record b.config {
  max_owned_scopes = unwrap_or b.max_owned_scopes b.config.max_vthreads;
}

-- `timeout().is_some_and(..)`
abbrev pub past_clock : (ℕ → Bool) → Option ℕ → Bool
past_clock fits none = false
past_clock fits (some duration) = not (fits duration)

-- `evidence_capacity == Some(0)`
abbrev pub is_some_zero : Option ℕ → Bool
is_some_zero none = false
is_some_zero (some n) = n == 0

abbrev pub refuse : ConfigurationField → Error ⊎ RuntimeConfig
refuse field = inl (invalid_configuration field)

-- The tests of `build`, in order: the error, or the configuration that the runtime gets.
unfoldable pub validate : (ℕ → Bool) → RuntimeConfig → Error ⊎ RuntimeConfig
validate fits c =
    if c.io_capacity == 0
    then refuse io_capacity
    else if c.blocking_capacity == 0
    then refuse blocking_capacity
    else if c.blocking_threads == 0
    then refuse blocking_threads
    else if ltb c.blocking_capacity c.blocking_threads
    then refuse blocking_threads
    else if past_clock fits (timeout c.stall_policy)
    then refuse stall_policy
    else if c.max_vthreads == 0
    then refuse max_vthreads
    else if c.max_owned_scopes == 0
    then refuse max_owned_scopes
    else if c.carriers == 0 || ltb c.max_vthreads c.carriers
    then refuse carriers
    else if c.carrier_queue_capacity == 0
    then refuse carrier_queue_capacity
    else if ltb c.stack_size min_stack_size
    then refuse stack_size
    else if ltb c.max_vthreads c.stack_cache_capacity
    then refuse stack_cache_capacity
    else if is_some_zero c.evidence_capacity
    then refuse evidence_capacity
    else inr c

unfoldable pub build : (ℕ → Bool) → RuntimeBuilder → Error ⊎ RuntimeConfig
unfolding resolved
build fits b = validate fits (resolved b)
