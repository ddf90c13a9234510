-- ===== src/Queue/Manager.antt =====
-- `ProgramQueueManager` of services/program_queue.py: the queues of all groups. The worker's step
-- is in `Worker`; the telegram notice and the audit records have no effect on the state.
pub mod Programs
use Prim.Native.String.{String}
use irrigation.Base.{
  ℕ, ◌+◌, Bool, true, false, List, [], ◌∷◌, Option, none, some, length, if◌then◌else◌, nat_eq,
}
use irrigation.Base.Maps.{lookup, insert}
use irrigation.Queue.{
  QueueEntry, EnqueueCall, new_entry, GroupQueue, new_queue, enqueue, cancel_entry, cancel_program,
  cancel_group, stop, current, is_dead, count_some,
}

abbrev pub Queues : Type 0
Queues = List (ℕ × GroupQueue)

pub record Manager : Type 0 where
  pub shutdown_event : Bool
  pub max_wait_minutes : ℕ
  pub max_queue_size : ℕ
  pub queues : Queues

abbrev or_new : ℕ → Option GroupQueue → GroupQueue
or_new group_id none = new_queue group_id
or_new group_id (some gq) = gq

-- The queue of a group is made on the first call, also if the entry is then refused.
unfoldable pub enqueue_in : ℕ → EnqueueCall → Manager → Option QueueEntry × Manager
enqueue_in group_id call m =
    let gq = or_new group_id (lookup group_id m.queues) in
    let entry = new_entry group_id call in
    elim (enqueue m.max_queue_size entry gq) [
      | none ↦ (none, record m { queues = insert group_id gq m.queues })
      | some gq' ↦ (some entry, record m { queues = insert group_id gq' m.queues })
    ]

-- The groups are asked in turn until one has the entry.
unfoldable pub cancel_entry_in : String → Queues → Queues × Bool
cancel_entry_in id [] = ([], false)
cancel_entry_in id ((g, gq) ∷ queues) =
    let (gq', found) = cancel_entry id gq in
    let (queues', found') = cancel_entry_in id queues in
    if found then ((g, gq') ∷ queues, true) else ((g, gq) ∷ queues', found')

unfoldable pub cancel_entry_of : String → Manager → Manager × Bool
unfolding cancel_entry_in
cancel_entry_of id m =
    let (queues, found) = cancel_entry_in id m.queues in (record m { queues = queues }, found)

unfoldable pub cancel_program_in : ℕ → Queues → Queues × ℕ
cancel_program_in program_id [] = ([], 0)
cancel_program_in program_id ((g, gq) ∷ queues) =
    let (gq', n) = cancel_program program_id gq in
    let (queues', n') = cancel_program_in program_id queues in ((g, gq') ∷ queues', n + n')

unfoldable pub cancel_program_of : ℕ → Manager → Manager × ℕ
unfolding cancel_program_in
cancel_program_of program_id m =
    let (queues, n) = cancel_program_in program_id m.queues in (record m { queues = queues }, n)

unfoldable pub cancel_group_of : ℕ → Manager → Manager × ℕ
cancel_group_of group_id m = elim (lookup group_id m.queues) [
  | none ↦ (m, 0)
  | some gq ↦
      let (gq', n) = cancel_group gq in (record m { queues = insert group_id gq' m.queues }, n)
]

unfoldable pub stop_all : Queues → Queues
stop_all [] = []
stop_all ((g, gq) ∷ queues) = (g, stop gq) ∷ stop_all queues

-- `shutdown`, up to the wait for the workers.
unfoldable pub shutdown : Manager → Manager
unfolding stop_all
shutdown m = record m { shutdown_event = true; queues = stop_all m.queues }

pub record QueueState : Type 0 where
  pub group_id : ℕ
  pub current_entry : Option QueueEntry
  pub queue : List QueueEntry
  pub queue_length : ℕ
  -- Left out for a group that has no queue, and in the state of all groups.
  pub float_paused : Option Bool

-- `paused` is the float monitor's answer, or false if it raises or is not there.
unfoldable pub get_queue_state : (paused : Bool) → ℕ → Manager → QueueState
get_queue_state paused group_id m = elim (lookup group_id m.queues) [
  | none ↦ record {
    group_id = group_id;
    current_entry = none;
    queue = [];
    queue_length = 0;
    float_paused = none;
  }
  | some gq ↦ record {
    group_id = group_id;
    current_entry = current gq.phase;
    queue = gq.queue;
    queue_length = length gq.queue;
    float_paused = some paused;
  }
]

pub record AllQueues : Type 0 where
  pub states : List QueueState
  pub total_entries : ℕ
  pub active_workers : ℕ

unfoldable pub all_states : Queues → AllQueues
all_states [] = record { states = []; total_entries = 0; active_workers = 0 }
all_states ((g, gq) ∷ queues) =
    let rest = all_states queues in
    let shown : QueueState = record {
      group_id = g;
      current_entry = current gq.phase;
      queue = gq.queue;
      queue_length = length gq.queue;
      float_paused = none;
    } in
    record {
      states = shown ∷ rest.states;
      total_entries = length gq.queue + count_some (current gq.phase) + rest.total_entries;
      active_workers = (if is_dead gq.phase then 0 else 1) + rest.active_workers;
    }

unfoldable pub get_all_queues_state : Manager → AllQueues
unfolding all_states
get_all_queues_state m = all_states m.queues
