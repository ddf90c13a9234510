-- ===== src/Queue/Events.antt =====
-- All that can happen to one group's queue, as a sequence of events: calls by other threads and
-- steps of the worker, in the order in which they take the group's lock.
use Prim.Native.String.{String}
use irrigation.Base.{ℕ, List, [], ◌∷◌, ◌++◌, map, Option, none, some}
use irrigation.Queue.{
  QueueEntry, EnqueueCall, new_entry, Phase, absent, looping, taking, idle, holding, running_zones,
  float_wait, returned, completing, raised, failing, settled, draining, leaving, GroupQueue,
  enqueue, cancel_entry, cancel_program, cancel_group, stop,
}
use irrigation.Queue.Worker.{World, ZoneStart, work}

pub record Limits : Type 0 where
  pub max_wait_minutes : ℕ
  pub max_queue_size : ℕ

pub data Event : Type 0 where
  enqueues : EnqueueCall → Event
  cancels_entry : String → Event
  cancels_program : ℕ → Event
  cancels_group stops : Event
  works : World → Event

-- A refused entry leaves the queue as it was.
abbrev pub after_enqueue : GroupQueue → Option GroupQueue → GroupQueue
after_enqueue gq none = gq
after_enqueue gq (some gq') = gq'

abbrev pub accepted_ids : String → Option GroupQueue → List String
accepted_ids id none = []
accepted_ids id (some gq) = id ∷ []

module _ (l : Limits) where
  unfoldable pub step : Event → GroupQueue → GroupQueue
  step (enqueues call) gq =
      after_enqueue gq (enqueue l.max_queue_size (new_entry gq.group_id call) gq)
  step (cancels_entry id) gq = (cancel_entry id gq).0
  step (cancels_program id) gq = (cancel_program id gq).0
  step cancels_group gq = (cancel_group gq).0
  step stops gq = stop gq
  step (works w) gq = (work l.max_wait_minutes w gq).0

  -- The zones that start in a step.
  abbrev pub starts : Event → GroupQueue → List ZoneStart
  starts (works w) gq = (work l.max_wait_minutes w gq).1
  starts (enqueues call) gq = []
  starts (cancels_entry id) gq = []
  starts (cancels_program id) gq = []
  starts cancels_group gq = []
  starts stops gq = []

  abbrev pub accepts : Event → GroupQueue → List String
  accepts (enqueues call) gq =
      accepted_ids call.entry_id (enqueue l.max_queue_size (new_entry gq.group_id call) gq)
  accepts (cancels_entry id) gq = []
  accepts (cancels_program id) gq = []
  accepts cancels_group gq = []
  accepts stops gq = []
  accepts (works w) gq = []

  unfoldable pub run : List Event → GroupQueue → GroupQueue
  run [] gq = gq
  run (ev ∷ evs) gq = run evs (step ev gq)

  unfoldable pub run_starts : List Event → GroupQueue → List ZoneStart
  run_starts [] gq = []
  run_starts (ev ∷ evs) gq = starts ev gq ++ run_starts evs (step ev gq)

  -- The identifiers of the entries that `enqueue` took, in order.
  unfoldable pub run_accepts : List Event → GroupQueue → List String
  run_accepts [] gq = []
  run_accepts (ev ∷ evs) gq = accepts ev gq ++ run_accepts evs (step ev gq)

-- The entry in the worker's hand.
abbrev pub held : Phase → List QueueEntry
held (holding entry) = entry ∷ []
held (running_zones entry zones) = entry ∷ []
held (float_wait entry zones) = entry ∷ []
held (returned entry) = entry ∷ []
held (completing entry) = entry ∷ []
held (raised entry) = entry ∷ []
held (failing entry) = entry ∷ []
held (settled entry) = entry ∷ []
held absent = []
held looping = []
held taking = []
held idle = []
held draining = []
held leaving = []

abbrev pub ids : List QueueEntry → List String
ids = map (λ entry. entry.entry_id)
