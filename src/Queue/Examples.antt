-- ===== src/Queue/Examples.antt =====
-- Tests of the program queue, and its theorems at concrete queues.
use Prim.Native.String.{String}
use irrigation.Base.{ℕ, ◌≡◌, ◌⊎◌, refl, true, false, List, [], ◌∷◌, map, none, arith, All}
use irrigation.Queue.{
  waiting, running, completed, cancelled, QueueEntry, EnqueueCall, new_entry, GroupQueue, new_queue,
  leaving, looping, enqueue, cancel_entry, cancel_program, cancel_group, stop,
}
use irrigation.Queue.Worker.{World, no_monitor, work}
use irrigation.Queue.Events.{
  Limits, Event, enqueues, cancels_entry, works, step, run, run_starts, run_accepts,
}
use irrigation.Queue.Order.{contents, contents-run_new}
use irrigation.Queue.Lifecycle.States.{IsTerminal}
use irrigation.Queue.Lifecycle.{run-IsTerminal}
use irrigation.Queue.Cancelling.{run_starts-cancel_entry}
use irrigation.Queue.Cancelling.Steps.{NotOf}
use irrigation.Queue.Progress.{cost, all_starts, run_worker-serves, all_served}
use irrigation.Queue.Progress.Going.{run_worker}
use irrigation.Queue.Manager.{Manager, cancel_program_of}
use irrigation.Queue.Tracker.{register, entry_finished, is_program_complete}
use irrigation.Queue.Tracker.Exact.{finish_all, entry_finished-exact}

abbrev call : String → ℕ → List ℕ → EnqueueCall
call id program zones = record {
  entry_id = id;
  program_id = program;
  program_name = "lawn";
  zone_ids = zones;
  scheduled_time = none;
  program_run_id = none;
  now = 0;
}

abbrev limits : Limits
limits = record { max_wait_minutes = 0; max_queue_size = 2 }

abbrev calm : World
calm = record { now = 1000; shutdown = false; float = no_monitor }

abbrev first : EnqueueCall
first = call "a" 1 (10 ∷ 11 ∷ [])

abbrev second : EnqueueCall
second = call "b" 2 (12 ∷ [])

-- The worker takes the first entry while the second comes and is cancelled.
abbrev history : List Event
history =
    enqueues first
    ∷ works calm
    ∷ works calm
    ∷ enqueues second
    ∷ works calm
    ∷ cancels_entry "b"
    ∷ works calm
    ∷ works calm
    ∷ works calm
    ∷ works calm
    ∷ works calm
    ∷ works calm
    ∷ works calm
    ∷ works calm
    ∷ []

program : Unit {0}
unfolding new_queue enqueue cancel_entry cancel_group stop work step run run_starts run_accepts
program = tt

history-starts : run_starts limits history (new_queue 7) ≡ ("a", 10) ∷ ("a", 11) ∷ []
unfolding program
history-starts = refl

history-ends :
    map (λ e. e.state) (run limits history (new_queue 7)).retired ≡ completed ∷ cancelled ∷ []
unfolding program
history-ends = refl

contents-run_new_example :
    contents (run limits history (new_queue 7)) ≡ run_accepts limits history (new_queue 7)
contents-run_new_example = contents-run_new limits 7 history

run-IsTerminal_example :
    let gq = run limits history (new_queue 7) in
    All IsTerminal gq.retired
    × All (λ entry. (entry.state ≡ waiting) ⊎ (entry.state ≡ cancelled)) gq.queue
run-IsTerminal_example = run-IsTerminal limits 7 history

abbrev two_waiting : GroupQueue
two_waiting = record {
  group_id = 7;
  queue = new_entry 7 first ∷ new_entry 7 second ∷ [];
  phase = looping;
  cancel_event = false;
  new_item_event = true;
  retired = [];
}

run_starts-cancel_entry_example : All (NotOf "b") (
    run_starts limits
      (works calm ∷ works calm ∷ cancels_entry "b" ∷ [])
      (cancel_entry "b" two_waiting).0)
unfolding program
run_starts-cancel_entry_example =
    run_starts-cancel_entry limits "b" (works calm ∷ works calm ∷ cancels_entry "b" ∷ [])
      two_waiting (omega arith) refl (tt, (tt, (tt, tt)))

abbrev twenty_steps : List World
twenty_steps =
    calm ∷ calm ∷ calm ∷ calm ∷ calm ∷ calm ∷ calm ∷ calm ∷ calm ∷ calm ∷ calm ∷ calm ∷ calm ∷ calm
    ∷ calm ∷ calm ∷ calm ∷ calm ∷ calm ∷ []

run_worker-serves_example :
    run_worker 0 twenty_steps two_waiting
    ≡ (all_served two_waiting.queue two_waiting, all_starts two_waiting.queue)
unfolding cost
run_worker-serves_example =
    run_worker-serves two_waiting.queue two_waiting twenty_steps (ground arith) (ground arith) refl

abbrev quiet : GroupQueue
quiet = record two_waiting { queue = []; phase = leaving }

abbrev interrupted : QueueEntry
interrupted = record (new_entry 7 first) { state = running }

abbrev manager : Manager
manager = record {
  shutdown_event = false;
  max_wait_minutes = 0;
  max_queue_size = 20;
  queues = (7, two_waiting) ∷ (8, record two_waiting { group_id = 8 }) ∷ [];
}

cancel_program_of-two : (cancel_program_of 2 manager).1 ≡ 2
unfolding cancel_program_of cancel_program
cancel_program_of-two = refl

-- Entries "x" and "y" of run "r", reported with one of another run in between.
entry_finished-exact_example :
    let result =
      entry_finished "r" "y"
        (finish_all (("r", "x") ∷ ("q", "y") ∷ []) (register "r" ("x" ∷ "y" ∷ []) none none [])) in
    (result.0 ≡ true) × (is_program_complete "r" result.1 ≡ true)
entry_finished-exact_example =
    entry_finished-exact "r" "y" ("x" ∷ "y" ∷ []) (("r", "x") ∷ ("q", "y") ∷ []) []
