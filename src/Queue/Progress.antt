-- ===== src/Queue/Progress.antt =====
-- An undisturbed worker of services/program_queue.py serves its whole queue.

use mathlib.Core.List.{append-nil, append_assoc}
use irrigation.Base.{
  ℕ, ◌+◌, ◌≤◌, ◌≡◌, refl, subst, ◌∙◌, false, List, [], ◌∷◌, ◌++◌, map, arith, length, All,
  string_eq,
}
use irrigation.Queue.{
  waiting, running, completed, QueueEntry, looping, taking, idle, holding, running_zones, returned,
  completing, settled, GroupQueue,
}
use irrigation.Queue.Worker.{
  World, ZoneStart, with_state, skip_cancelled, pop, take, begin, run_zone, work, work_at,
}
use irrigation.Queue.Progress.Going.{
  IsCalm, starts_of, run_worker, Goes, Goes-one, Goes-trans, Goes-steps, at, Goes-zones,
  length-zero,
}
pub mod Going

-- An entry that nobody has cancelled.
abbrev pub IsPlain : QueueEntry → Type 0
IsPlain entry = (entry.state ≡ waiting) × (entry.cancel_event ≡ false)

-- Steps that an entry takes: one for each zone, and seven besides.
unfoldable pub cost : List QueueEntry → ℕ
cost [] = 2
cost (entry ∷ queue) = length entry.zone_ids + 7 + cost queue

pub all_starts : List QueueEntry → List ZoneStart
all_starts [] = []
all_starts (entry ∷ queue) = starts_of entry.entry_id entry.zone_ids ++ all_starts queue

pub complete : QueueEntry → QueueEntry
complete entry = with_state completed entry

module _ (gq : GroupQueue) (entry : QueueEntry) (queue : List QueueEntry)
    (retired : List QueueEntry) (plain : IsPlain entry) where
  abbrev before_entry : GroupQueue
  before_entry = record gq {
    queue = entry ∷ queue;
    phase = looping;
    cancel_event = false;
    retired = retired;
  }

  abbrev popped : GroupQueue
  popped = record gq { queue = queue; cancel_event = false; retired = retired }

  abbrev runs : QueueEntry
  runs = with_state running entry

  take_plain : take (at taking before_entry) ≡ at (holding entry) popped
  unfolding take skip_cancelled pop
  take_plain = rw plain.0 (rw append-nil)

  begin_plain : (now : ℕ) → begin 0 now entry popped ≡ at (running_zones runs entry.zone_ids) popped
  unfolding begin
  begin_plain now = rw plain.0

  abbrev after_entry : GroupQueue
  after_entry = record gq {
    queue = queue;
    phase = looping;
    cancel_event = false;
    retired = retired ++ complete entry ∷ [];
  }

  Goes-to_zones :
      (ws : List World)
      → All IsCalm ws
      → 3 ≤ length ws
      → Goes ws before_entry 3 (at (running_zones runs entry.zone_ids) popped) []
  unfolding work work_at
  Goes-to_zones ws calm room =
      Goes-trans (Goes-one ws _ (at taking before_entry) [] calm (omega arith) (λ w c. rw c.0))
        λ rest c e.
          Goes-trans
            (Goes-one rest _ (at (holding entry) popped) [] c (omega (arith, e))
              (λ w _. rw take_plain))
            λ rest' c' e'.
              Goes-one rest' _ (at (running_zones runs entry.zone_ids) popped) [] c'
                (omega (arith, e, e')) (λ w _. rw (begin_plain w.now))

  Goes-from_zones :
      (ws : List World)
      → All IsCalm ws
      → 4 ≤ length ws
      → Goes ws (at (running_zones runs []) popped) 4 after_entry []
  unfolding work work_at run_zone complete
  Goes-from_zones ws calm room =
      Goes-trans (Goes-one ws _ (at (returned runs) popped) [] calm (omega arith) (λ w c. refl))
        λ rest c e.
          Goes-trans
            (Goes-one rest _ (at (completing runs) popped) [] c (omega arith) (λ w c'. refl))
            λ rest' c' e'.
              Goes-trans
                (Goes-one rest' _ (at (settled (complete entry)) popped) [] c'
                  (omega (arith, e, e')) (λ w c''. refl))
                λ rest'' c'' e''.
                  Goes-one rest'' _ after_entry [] c'' (omega (arith, e, e', e'')) (λ w _. refl)

  Goes-entry :
      (ws : List World)
      → All IsCalm ws
      → length entry.zone_ids + 7 ≤ length ws
      → Goes ws before_entry
          (length entry.zone_ids + 7)
          after_entry
          (starts_of entry.entry_id entry.zone_ids)
  Goes-entry ws calm room = Goes-steps (omega arith) (
      subst (λ s. Goes ws before_entry (3 + (length entry.zone_ids + 4)) after_entry s)
        (append-nil _)
        (Goes-trans (Goes-to_zones ws calm (omega arith)) λ rest c e.
          Goes-trans (Goes-zones entry.zone_ids runs popped rest plain.1 c (omega (arith, e)))
            λ rest' c' e'. Goes-from_zones rest' c' (omega (arith, e, e'))))

-- The state in which the worker waits for new entries, all of the queue served.
abbrev pub all_served : List QueueEntry → GroupQueue → GroupQueue
all_served queue gq = record gq {
  queue = [];
  phase = idle;
  cancel_event = false;
  new_item_event = false;
  retired = gq.retired ++ map complete queue;
}

Goes-queue :
    (queue : List QueueEntry) (gq : GroupQueue) (ws : List World)
    → All IsPlain queue
    → All IsCalm ws
    → cost queue ≤ length ws
    → Goes ws
        (record gq { queue = queue; phase = looping; cancel_event = false })
        (cost queue)
        (all_served queue gq)
        (all_starts queue)
unfolding cost all_starts work work_at take skip_cancelled pop
Goes-queue [] gq ws plain calm room =
    Goes-trans
      (Goes-one ws _ (record gq { queue = []; phase = taking; cancel_event = false }) [] calm
        (omega arith) (λ w c. rw c.0))
      λ rest c e. Goes-one rest _ (all_served [] gq) [] c (omega (arith, e)) (λ w _. refl)
Goes-queue (entry ∷ queue) gq ws plain calm room =
    subst
      (λ r.
        Goes ws (record gq { queue = entry ∷ queue; phase = looping; cancel_event = false })
          (length entry.zone_ids + 7 + cost queue) (record (all_served queue gq) { retired = r })
          (starts_of entry.entry_id entry.zone_ids ++ all_starts queue))
      (append_assoc gq.retired (complete entry ∷ []) (map complete queue))
      (Goes-trans (Goes-entry gq entry queue gq.retired plain.0 ws calm (omega arith)) λ rest c e.
        Goes-queue queue (record gq { retired = gq.retired ++ complete entry ∷ [] }) rest plain.1 c
          (omega (arith, e)))

-- With no call in between, no shutdown, no float monitor and no limit on the wait, a worker at its
-- loop goes through the whole queue in `cost queue` steps: it comes to the place where it is to start
-- a zone once for every zone of every entry, in order, lets every entry go as completed, and then waits
-- for new ones. The source has only a line of the log at that place.
pub run_worker-serves :
    (queue : List QueueEntry) (gq : GroupQueue) (ws : List World)
    → All IsPlain queue
    → All IsCalm ws
    → length ws ≡ cost queue
    → run_worker 0 ws (record gq { queue = queue; phase = looping; cancel_event = false })
      ≡ (all_served queue gq, all_starts queue)
unfolding run_worker
run_worker-serves queue gq ws plain calm enough =
    let g = Goes-queue queue gq ws plain calm (omega arith) in
    g.reaches ∙ rw (length-zero g.rest (omega (arith, g.steps))) (rw append-nil)
