-- ===== src/Config/Overrides.antt =====
-- The limit on owned scopes, over any sequence of builder calls (crates/vthread/src/config.rs).
use vthread.Prelude.{ℕ, ◌≡◌, refl, Option, some, List, [], ◌∷◌}
use vthread.Config.{
  RuntimeBuilder, Setting, set_io_capacity, set_blocking_threads, set_blocking_capacity,
  set_task_local_capacity, set_carriers, set_carrier_queue_capacity, set_max_vthreads,
  set_max_owned_scopes, set_stack_size, set_stack_cache_capacity, set_evidence_capacity,
  set_stall_policy, apply, resolved, unwrap_or,
}

-- A sequence of builder calls, the first one first.
pub configure : List Setting → RuntimeBuilder → RuntimeBuilder
configure [] b = b
configure (call ∷ calls) b = configure calls (apply call b)

-- The limit on owned scopes and that on virtual threads that a sequence of calls set last.
pub scopes_set : List Setting → Option ℕ → Option ℕ
scopes_set [] o = o
scopes_set (set_max_owned_scopes n ∷ calls) o = scopes_set calls (some n)
scopes_set (_ ∷ calls) o = scopes_set calls o

pub vthreads_set : List Setting → ℕ → ℕ
vthreads_set [] n = n
vthreads_set (set_max_vthreads n ∷ calls) _ = vthreads_set calls n
vthreads_set (_ ∷ calls) n = vthreads_set calls n

-- Whatever the order of the builder's calls, the runtime's limits are the last ones set, and the
-- limit on owned scopes is that on virtual threads where no call sets it.
configure_limits :
    (calls : List Setting) (b : RuntimeBuilder)
    → ((resolved (configure calls b)).max_vthreads ≡ vthreads_set calls b.config.max_vthreads)
      × ((resolved (configure calls b)).max_owned_scopes
          ≡ unwrap_or
              (scopes_set calls b.max_owned_scopes)
              (vthreads_set calls b.config.max_vthreads))
unfolding configure scopes_set vthreads_set apply resolved
configure_limits [] b = (refl, refl)
configure_limits (set_io_capacity n ∷ calls) b = configure_limits calls _
configure_limits (set_blocking_threads n ∷ calls) b = configure_limits calls _
configure_limits (set_blocking_capacity n ∷ calls) b = configure_limits calls _
configure_limits (set_task_local_capacity n ∷ calls) b = configure_limits calls _
configure_limits (set_carriers n ∷ calls) b = configure_limits calls _
configure_limits (set_carrier_queue_capacity n ∷ calls) b = configure_limits calls _
configure_limits (set_max_vthreads n ∷ calls) b = configure_limits calls _
configure_limits (set_max_owned_scopes n ∷ calls) b = configure_limits calls _
configure_limits (set_stack_size n ∷ calls) b = configure_limits calls _
configure_limits (set_stack_cache_capacity n ∷ calls) b = configure_limits calls _
configure_limits (set_evidence_capacity n ∷ calls) b = configure_limits calls _
configure_limits (set_stall_policy p ∷ calls) b = configure_limits calls _
