-- ===== src/Queue.antt =====
-- services/program_queue.py: the queue of one group, and the operations that take its lock.
-- `gq.current` is the entry in the worker's hand while the worker's phase is one of those between
-- the two places that assign it, so it is computed from the phase and not stored twice.
pub mod Worker
pub mod Events
pub mod Order
pub mod Lifecycle
pub mod Cancelling
pub mod Progress
pub mod Races
pub mod Capacity
pub mod Manager
pub mod Tracker
pub mod Examples
use Prim.Native.String.{String}
use irrigation.Base.{
  ℕ, ◌+◌, Bool, true, false, ◌&&◌, List, [], ◌∷◌, ◌++◌, map, Option, none, some, length, leb,
  if◌then◌else◌, ◌==◌, nat_eq, string_eq,
}

pub data EntryState : Type 0 where
  waiting running completed cancelled expired failed : EntryState

abbrev pub is_waiting : EntryState → Bool
is_waiting waiting = true
is_waiting _ = false

abbrev pub is_running : EntryState → Bool
is_running running = true
is_running _ = false

abbrev pub is_cancelled : EntryState → Bool
is_cancelled cancelled = true
is_cancelled _ = false

-- Times and spans are milliseconds.
pub record QueueEntry : Type 0 where
  pub entry_id : String
  pub program_id : ℕ
  pub program_name : String
  pub group_id : ℕ
  pub zone_ids : List ℕ
  pub scheduled_time : Option ℕ
  pub state : EntryState
  pub enqueued_at : ℕ
  pub excluded_wait : ℕ
  pub program_run_id : Option String
  pub cancel_event : Bool

-- The arguments of `enqueue`, with what it takes from outside: a new identifier and the time.
pub record EnqueueCall : Type 0 where
  pub entry_id : String
  pub program_id : ℕ
  pub program_name : String
  pub zone_ids : List ℕ
  pub scheduled_time : Option ℕ
  pub program_run_id : Option String
  pub now : ℕ

abbrev pub new_entry : (group_id : ℕ) → EnqueueCall → QueueEntry
new_entry group_id call = record {
  entry_id = call.entry_id;
  program_id = call.program_id;
  program_name = call.program_name;
  group_id = group_id;
  zone_ids = call.zone_ids;
  scheduled_time = call.scheduled_time;
  state = waiting;
  enqueued_at = call.now;
  excluded_wait = 0;
  program_run_id = call.program_run_id;
  cancel_event = false;
}

-- Where the group's worker thread stands.
pub data Phase : Type 0 where
  -- There is no thread, or it has ended.
  absent : Phase
  -- At the test of the `while` loop.
  looping : Phase
  -- Past the test, before the lock.
  taking : Phase
  -- The queue was empty: waiting for `new_item_event`.
  idle : Phase
  -- An entry is popped and not yet `gq.current`.
  holding : QueueEntry → Phase
  -- In `_run_entry`, with the zones that are left; from here to `settled` the entry is `gq.current`.
  running_zones : QueueEntry → List ℕ → Phase
  -- In the loop that waits for the float, before the first of the zones.
  float_wait : QueueEntry → List ℕ → Phase
  -- `_run_entry` has returned, or raised; then behind the test of the entry's state.
  returned : QueueEntry → Phase
  completing : QueueEntry → Phase
  raised : QueueEntry → Phase
  failing : QueueEntry → Phase
  -- Before `finally`.
  settled : QueueEntry → Phase
  -- Behind the loop.
  draining : Phase
  -- Past the last lock, and still alive.
  leaving : Phase

pub record GroupQueue : Type 0 where
  pub group_id : ℕ
  pub queue : List QueueEntry
  pub phase : Phase
  pub cancel_event : Bool
  pub new_item_event : Bool
  -- The entries that the queue has let go of, oldest first: only callers still hold them.
  pub retired : List QueueEntry

unfoldable pub new_queue : ℕ → GroupQueue
new_queue group_id = record {
  group_id = group_id;
  queue = [];
  phase = absent;
  cancel_event = false;
  new_item_event = false;
  retired = [];
}

-- `gq.current`
abbrev pub current : Phase → Option QueueEntry
current (running_zones entry zones) = some entry
current (float_wait entry zones) = some entry
current (returned entry) = some entry
current (completing entry) = some entry
current (raised entry) = some entry
current (failing entry) = some entry
current (settled entry) = some entry
current (holding entry) = none
current absent = none
current looping = none
current taking = none
current idle = none
current draining = none
current leaving = none

-- Changes the object that `gq.current` refers to.
abbrev pub with_current : (QueueEntry → QueueEntry) → Phase → Phase
with_current f (running_zones entry zones) = running_zones (f entry) zones
with_current f (float_wait entry zones) = float_wait (f entry) zones
with_current f (returned entry) = returned (f entry)
with_current f (completing entry) = completing (f entry)
with_current f (raised entry) = raised (f entry)
with_current f (failing entry) = failing (f entry)
with_current f (settled entry) = settled (f entry)
with_current f (holding entry) = holding entry
with_current f absent = absent
with_current f looping = looping
with_current f taking = taking
with_current f idle = idle
with_current f draining = draining
with_current f leaving = leaving

abbrev pub count_some {ℓ} : {A : Type ℓ} → Option A → ℕ
count_some none = 0
count_some (some a) = 1

-- `worker_thread is None or not is_alive()`
abbrev pub is_dead : Phase → Bool
is_dead absent = true
is_dead _ = false

-- The part of `enqueue` under the group's lock: `none` if the queue is full.
unfoldable pub enqueue : (max_queue_size : ℕ) → QueueEntry → GroupQueue → Option GroupQueue
enqueue max_queue_size entry gq =
    let total = length gq.queue + count_some (current gq.phase) in
    let queue = gq.queue ++ entry ∷ [] in
    if leb max_queue_size total
    then none
    else (if is_dead gq.phase
        then some (record gq {
          queue = queue;
          new_item_event = true;
          cancel_event = false;
          phase = looping;
        })
        else some (record gq { queue = queue; new_item_event = true }))

abbrev pub cancel : QueueEntry → QueueEntry
cancel entry = record entry { state = cancelled; cancel_event = true }

-- The first entry with the identifier, if one is there.
unfoldable pub cancel_first : String → List QueueEntry → Option (List QueueEntry)
cancel_first id [] = none
cancel_first id (entry ∷ queue) =
    let rest = cancel_first id queue in
    if entry.entry_id == id
    then some (cancel entry ∷ queue)
    else elim rest [ none ↦ none | some queue' ↦ some (entry ∷ queue') ]

abbrev pub has_id : String → Option QueueEntry → Bool
has_id id none = false
has_id id (some entry) = entry.entry_id == id

-- The part of `cancel_entry` for one group, with whether it found the entry.
unfoldable pub cancel_entry : String → GroupQueue → GroupQueue × Bool
unfolding cancel_first
cancel_entry id gq = elim (cancel_first id gq.queue) [
  | some queue ↦ (record gq { queue = queue }, true)
  | none ↦
      if has_id id (current gq.phase)
      then (record gq { phase = with_current cancel gq.phase }, true)
      else (gq, false)
]

abbrev pub of_program : ℕ → QueueEntry → Bool
of_program id entry = entry.program_id == id

-- Cancels the waiting entries that `which` picks, with their number.
unfoldable pub cancel_waiting : (which : QueueEntry → Bool) → List QueueEntry → List QueueEntry × ℕ
cancel_waiting which [] = ([], 0)
cancel_waiting which (entry ∷ queue) =
    let (queue', n) = cancel_waiting which queue in
    if which entry && is_waiting entry.state
    then (cancel entry ∷ queue', n + 1)
    else (entry ∷ queue', n)

abbrev pub picks_running : (which : QueueEntry → Bool) → Option QueueEntry → Bool
picks_running which none = false
picks_running which (some entry) = which entry && is_running entry.state

-- Cancels the picked waiting entries and the current entry, if it is picked and running.
unfoldable pub cancel_picked : (which : QueueEntry → Bool) → GroupQueue → GroupQueue × ℕ
unfolding cancel_waiting
cancel_picked which gq =
    let (queue, n) = cancel_waiting which gq.queue in
    if picks_running which (current gq.phase)
    then (record gq { queue = queue; phase = with_current cancel gq.phase }, n + 1)
    else (record gq { queue = queue }, n)

-- The part of `cancel_program` for one group.
unfoldable pub cancel_program : ℕ → GroupQueue → GroupQueue × ℕ
unfolding cancel_picked
cancel_program program_id gq = cancel_picked (of_program program_id) gq

-- `cancel_group`, up to the wait for the worker.
unfoldable pub cancel_group : GroupQueue → GroupQueue × ℕ
unfolding cancel_picked
cancel_group gq = cancel_picked (λ entry. true) (record gq { cancel_event = true })

abbrev pub signal : QueueEntry → QueueEntry
signal entry = record entry { cancel_event = true }

-- The part of `shutdown` for one group.
unfoldable pub stop : GroupQueue → GroupQueue
stop gq = record gq {
  cancel_event = true;
  new_item_event = true;
  queue = map signal gq.queue;
  phase = with_current signal gq.phase;
}
