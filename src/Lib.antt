-- ===== src/Lib.antt =====
-- vthread is a runtime of virtual threads: tasks with stacks of their own, run by a fixed number of
-- carrier threads. A task never migrates; a carrier keeps its tasks in a slab, its runnable tasks in a
-- ready queue, the parked ones in a table of park records, and takes wake notices from producers on
-- other threads out of an intrusive queue. What wakes a task is decided on a wait word, and channels
-- and other primitives are built on waits.
--
-- Files and the code that they model, all under crates/vthread/src unless a path is given:
--   TaskKey       task_slab.rs, `TaskKey`: an index and an ownership flag in one 64-bit word
--   TaskSlab      task_slab.rs, `TaskSlab`: storage with a stack of vacant slots
--   ParkToken     crates/vthread-stack/src/suspension.rs, `ParkToken`
--   ReadyQueue    ready_queue.rs, ready_queue_inspection.rs: the two runnable lanes. Runs and Fairness
--                 are about dispatch bounds, Cleanup about the selective operations
--   ParkedTasks   parked_tasks.rs: park records by task key; Growth is about one class of slots
--   WaitWord      wait_state.rs: the packed wait word. Fields is its abstract view, Packing the lemmas on
--                 single fields, Refinement the theorems
--   WaitCell      wait.rs, wait_begin.rs, wait_select.rs, wait_finish.rs, wait_resource.rs, wait_target.rs and
--                 wait_owner_protocol.rs: what every operation does with the word that it has loaded.
--                 Protocol interleaves the exchanges of all parties, Soundness is the invariant, Moves
--                 classifies the exchanges, Preservation and Steps show that they keep the invariant,
--                 FastPaths is about the owner's single exchanges, Selection about what owners and
--                 selectors are promised
--   Gate          sync/gate.rs, sync/semaphore.rs, sync/notify.rs: permits handed to waiters in the order
--                 of arrival. Waits is the interface to the waits, WaitCells fills it. Protocol
--                 interleaves the users of a semaphore, Changes says what each operation does, Permits
--                 counts, Preservation, Soundness, Handovers and Steps are the invariant,
--                 Conservation what it promises, Signals is about a signal on its own
--   Signal        signal.rs: the epoch and condition variable on which a carrier sleeps. Protocol has its
--                 owner and the notifiers, Soundness the invariant, Wakes that no wake is lost
--   Timer         timer.rs: the deadlines of a carrier. Order is about the ordered index, Laws about
--                 scheduling and cancelling, Expiry about `pop_expired`
--   TaskProgress  task_progress.rs, task_progress_state.rs: what a carrier publishes about its task. States
--                 has the codes, Lag the invariant, Counts compares with what has happened
--   Completion    completion.rs: who waits for the end of a task. Protocol has the parties, Accounting
--                 the invariant, Stranding what follows
--   WakeQueue     wake_queue_core.rs: the queue of wake notices. A push is its reservation and its
--                 link, each atomic; Refinement has the abstract queue of slots, Producers, Choice and
--                 Consumer its two sides, Reversal the in-place reversal, Start the construction
--   Channel       channel.rs, channel/core.rs, channel/wait.rs, channel/endpoints.rs. A round of a send
--                 or receive loop, under the lock throughout, is one step. Buffer is about the values,
--                 Turns and Progress about the queue tickets, History about whole histories;
--                 Endpoints has the observers
--   Config        config.rs, stall_policy.rs: the builder, the defaults and the validation
--   IdSet         cancellation_id_set.rs, cancellation_parent_set.rs: the compact sets of identities
--   CarrierLoads  control_placement.rs: the totals that placement compares. Rotation and Selection are about
--                 its loops, Placement about `select`
--   ExclusiveCell crates/vthread-sync-core/src/exclusive.rs: a mutex's lock word, its ownership and its
--                 handoff slot. Capabilities has the steps of everybody who shares them
--   Error         error.rs, error_types.rs, error_context.rs: the errors that the others return
--   Prelude       names and lemmas that the others share. Examples, in each folder, are tests and the
--                 theorems at concrete arguments
--
-- Conventions. A machine word is a natural number with its bounds written out; a checked operation and
-- its `expect`, an `assert!`, an index out of range and a count that leaves its range are the outcome
-- `panics`. A function that
-- mutates its receiver returns the new state. Wait cells and registrations are their identities, and
-- a function that notifies returns what it notifies. Parameters stand for what the code takes from
-- outside: the predicates of the ready queue, whether the clock can hold a timeout, and the retirement
-- counters and acceptance of carriers.
--
-- Bounds and fuel. Two loops run on fuel. The reversal of the wake queue has the number of slots, and a
-- list of distinct slots of the array is no longer than that. A signal of the gate needs one turn per
-- entry of the queue and one more. All other loops are structural, or one turn is a step.
--
-- Not modelled: the memory orderings of atomic operations (an atomic operation is one step); the
-- target and the hub behind a wait word, the mutex queue, admission, the
-- cancellation graph, the carrier's drive loop, joins, scopes and the blocking pool; stack
-- switching, operating system threads, sockets and files; diagnostics, profiling and evidence, which only
-- report.
pub mod Prelude
pub mod TaskKey
pub mod ParkToken
pub mod Error
pub mod CarrierLoads
pub mod Channel
pub mod Completion
pub mod Config
pub mod ExclusiveCell
pub mod Gate
pub mod IdSet
pub mod ParkedTasks
pub mod ReadyQueue
pub mod Signal
pub mod TaskProgress
pub mod TaskSlab
pub mod Timer
pub mod WaitCell
pub mod WaitWord
pub mod WakeQueue
