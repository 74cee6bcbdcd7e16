-- ===== src/Gate/Examples.antt =====
-- A semaphore of one permit over wait cells: the permit is taken, and a second caller queues.
use vthread.Prelude.{ℕ, ◌+◌, ◌≡◌, refl, true, false, none, some, [], ◌∷◌, returns}
use vthread.Error.{ConfigurationField, Error, would_block}
use vthread.WaitWord.{permit, idle}
use vthread.WaitWord.Fields.{Fields}
use vthread.Gate.{
  built, rejected, Gate, granted, refused, World, update, new, semaphore, try_take, reserve,
  register, signal_round, signal, withdraw,
}
use vthread.Gate.WaitCells.{wait_cells, offer, take, settled}
use vthread.WaitCell.{claim_resource, take_resource}
use vthread.Gate.Protocol.{
  System, start, Step, acquires, reserves, registers, Reachable, starts, steps,
}
use vthread.Gate.Permits.{granted_to}
use vthread.Gate.Conservation.{permits_conserved, nobody_overtakes}

abbrev quiet : Fields
quiet = record {
  generation = 0;
  fallback = false;
  resource = none;
  closed = false;
  permit = false;
  phase = idle;
}

abbrev all_quiet : ℕ → Fields
all_quiet i = quiet

abbrev single : Gate
single = record {
  maximum = 1;
  capacity = 2;
  available = 1;
  outstanding = 0;
  closed = false;
  entries = [];
}

abbrev taken_gate : Gate
taken_gate = record single { available = 0 }

abbrev queued_gate : Gate
queued_gate = record taken_gate { outstanding = 1; entries = 0 ∷ [] }

abbrev taken_state : System Fields
taken_state = record {
  world = record { gate = taken_gate; waits = all_quiet };
  tickets = [];
  loose = 0;
  held = 1;
  returning = 0;
}

abbrev reserved_state : System Fields
reserved_state = record {
  world = record { gate = record taken_gate { outstanding = 1 }; waits = all_quiet };
  tickets = [];
  loose = 1;
  held = 1;
  returning = 0;
}

abbrev queued_world : World Fields
queued_world = record { gate = queued_gate; waits = all_quiet }

abbrev queued_state : System Fields
queued_state = record { world = queued_world; tickets = 0 ∷ []; loose = 0; held = 1; returning = 0 }

builds_single : semaphore 1 2 ≡ built single
unfolding semaphore new
builds_single = refl

refuses_zero : semaphore 0 2 ≡ rejected (Error.invalid_configuration ConfigurationField.permits)
unfolding semaphore new
refuses_zero = refl

takes_single : try_take single ≡ (granted, taken_gate)
unfolding try_take
takes_single = refl

taken_step : Step wait_cells (start wait_cells single all_quiet) taken_state
unfolding start
taken_step = acquires taken_gate takes_single

reserves_one : reserve taken_gate ≡ (granted, record taken_gate { outstanding = 1 })
unfolding reserve
reserves_one = refl

reserved_step : Step wait_cells taken_state reserved_state
reserved_step = reserves (record taken_gate { outstanding = 1 }) reserves_one

queues_first : register wait_cells 0 reserved_state.world ≡ returns (granted, queued_world)
unfolding register try_take
queues_first = refl

holds_nothing : wait_cells.content quiet ≡ none
unfolding wait_cells
holds_nothing = refl

queued_step : Step wait_cells reserved_state queued_state
queued_step = registers 0 0 queued_world refl (λ o. elim o [ ]) holds_nothing queues_first

queued-Reachable : Reachable wait_cells single all_quiet queued_state
queued-Reachable =
    steps reserved_state queued_state
      (steps taken_state reserved_state
        (steps (start wait_cells single all_quiet) taken_state starts taken_step) reserved_step)
      queued_step

permits_conserved_example : 0 + 1 + 0 + granted_to wait_cells all_quiet (0 ∷ []) ≡ 1
permits_conserved_example =
    permits_conserved wait_cells 1 2 single all_quiet queued_state builds_single queued-Reachable
      refl

nobody_overtakes_example : try_take queued_gate ≡ (refused would_block, queued_gate)
nobody_overtakes_example =
    nobody_overtakes wait_cells 1 2 0 [] single all_quiet queued_state builds_single
      queued-Reachable refl refl

-- A ticket that is granted the permit and dropped leaves it to be signalled again.
granted_world : World Fields
granted_world = record {
  gate = record queued_gate { entries = [] };
  waits = update all_quiet 0 (record quiet { resource = some permit; permit = true });
}

grants_first : signal wait_cells 2 queued_world ≡ some granted_world
unfolding signal signal_round wait_cells offer claim_resource settled granted_world
grants_first = refl

passes_on : (withdraw wait_cells 0 granted_world).0 ≡ some permit
unfolding withdraw wait_cells take take_resource settled granted_world
passes_on = refl
