-- ===== src/Error.antt =====
-- The runtime's errors (crates/vthread/src/error.rs, error_types.rs, error_context.rs): the variants of
-- `Error` that the modelled operations return, of `CapacityResource` as of `ConfigurationField` all.
-- Texts are left out.
use vthread.Prelude.{ℕ}

pub data ConfigurationField : Type 0 where
  io_capacity blocking_threads blocking_capacity stall_policy : ConfigurationField
  max_vthreads max_owned_scopes carriers carrier_queue_capacity : ConfigurationField
  stack_size stack_cache_capacity evidence_capacity : ConfigurationField
  task_name address_limit : ConfigurationField
  channel_capacity channel_wait_capacity wait_capacity permits : ConfigurationField

pub data CapacityResource : Type 0 where
  tasks scopes carrier_queue native_jobs task_locals waiters readiness : CapacityResource
  cancellation_subscriptions lifecycles : CapacityResource

-- `closed_error` is `Error::Closed`; the component and the text of a fault are left out.
pub data Error : Type 0 where
  closed_error would_block fault : Error
  capacity : CapacityResource → ℕ → Error
  invalid_configuration : ConfigurationField → Error
