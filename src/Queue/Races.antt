-- ===== src/Queue/Races.antt =====
-- Interleavings that the locks allow and the comments do not expect.
use mathlib.Core.List.{append-nil}
use irrigation.Base.{
  ℕ, ◌+◌, ◌≤◌, ◌≡◌, refl, ap, ◌∙◌, true, false, List, [], ◌∷◌, ◌++◌, some, arith, length, All,
  string_eq,
}
use irrigation.Queue.{
  waiting, running, completed, QueueEntry, absent, holding, running_zones, leaving, GroupQueue,
  enqueue, cancel_waiting, cancel_picked, cancel_group, stop,
}
use irrigation.Queue.Worker.{World, ZoneStart, with_state, begin, run_zone, work, work_at}
use irrigation.Queue.Progress.Going.{
  run_worker, starts_of, IsCalm, Goes, at, Goes-zones, Goes-one, Goes-trans, length-zero,
}

module _ (gq : GroupQueue) (entry : QueueEntry) (waits : entry.state ≡ waiting) where
  cancelled_queue : GroupQueue
  unfolding cancel_waiting
  cancelled_queue = record gq {
    queue = (cancel_waiting (λ e. true) gq.queue).0;
    cancel_event = true;
  }

  cancel_group-holding :
      (cancel_group (at (holding entry) gq)).0 ≡ at (holding entry) cancelled_queue
  unfolding cancel_group cancel_picked cancelled_queue
  cancel_group-holding = refl

  Goes-popped :
      (ws : List World)
      → entry.cancel_event ≡ false
      → All IsCalm ws
      → length entry.zone_ids + 1 ≤ length ws
      → Goes ws
          (at (holding entry) cancelled_queue)
          (1 + length entry.zone_ids)
          (at (running_zones (with_state running entry) []) cancelled_queue)
          (starts_of entry.entry_id entry.zone_ids)
  unfolding work work_at begin
  Goes-popped ws plain calm room =
      Goes-trans
        (Goes-one ws _
          (at (running_zones (with_state running entry) entry.zone_ids) cancelled_queue) [] calm
          (omega arith) (λ w c. rw waits))
        λ rest c e.
          Goes-zones entry.zone_ids (with_state running entry) cancelled_queue rest plain c
            (omega (arith, e))

-- `cancel_group` does not reach an entry that the worker has popped and not yet made current:
-- with nothing else in the way, every zone of it still starts.
cancel_group-misses_popped :
    (gq : GroupQueue) (entry : QueueEntry) (ws : List World)
    → entry.state ≡ waiting
    → entry.cancel_event ≡ false
    → All IsCalm ws
    → length ws ≡ length entry.zone_ids + 1
    → (run_worker 0 ws (cancel_group (at (holding entry) gq)).0).1
      ≡ starts_of entry.entry_id entry.zone_ids
unfolding run_worker
cancel_group-misses_popped gq entry ws waits plain calm enough =
    let g = Goes-popped gq entry waits ws plain calm (omega arith) in
    rw (cancel_group-holding gq entry waits) (
      ap (λ (r : GroupQueue × List ZoneStart). r.1) g.reaches
      ∙ rw (length-zero g.rest (omega (arith, g.steps))) (append-nil _))

run_worker-absent :
    (max_wait : ℕ) (gq : GroupQueue) (ws : List World)
    → run_worker max_wait ws (at absent gq) ≡ (at absent gq, [])
unfolding run_worker work work_at
run_worker-absent max_wait gq [] = refl
run_worker-absent max_wait gq (w ∷ ws) = rw (run_worker-absent max_wait gq ws)

-- An entry that comes while the worker has decided to end and is still alive is accepted if there
-- is room, and stays in the queue whatever the worker does from then on: no zone of it starts.
enqueue-stranded :
    (max_wait max_size : ℕ) (gq gq' : GroupQueue) (entry : QueueEntry) (w : World) (ws : List World)
    → enqueue max_size entry (at leaving gq) ≡ some gq'
    → ((run_worker max_wait (w ∷ ws) gq').1 ≡ [])
      × ((run_worker max_wait (w ∷ ws) gq').0.queue ≡ gq.queue ++ entry ∷ [])
unfolding enqueue run_worker work work_at
enqueue-stranded max_wait max_size gq gq' entry w ws accepted =
    let grown : GroupQueue = record gq { queue = gq.queue ++ entry ∷ []; new_item_event = true } in
    let shape : gq' ≡ at leaving grown = ground arith in
    rw (shape, run_worker-absent max_wait grown ws) (refl, refl)

-- A shutdown that stops an entry between two zones leaves it recorded as completed, though the
-- zones that were left never start.
stop-completes :
    (max_wait : ℕ) (gq : GroupQueue) (entry : QueueEntry) (zone : ℕ) (zones : List ℕ)
    (w₁ w₂ w₃ w₄ : World)
    → entry.state ≡ running
    → let ws = w₁ ∷ w₂ ∷ w₃ ∷ w₄ ∷ [] in
      let r = run_worker max_wait ws (stop (at (running_zones entry (zone ∷ zones)) gq)) in
      (r.1 ≡ [])
      × (r.0.retired ≡ gq.retired ++ record entry { state = completed; cancel_event = true } ∷ [])
unfolding run_worker stop work work_at run_zone
stop-completes max_wait gq entry zone zones w₁ w₂ w₃ w₄ active = rw active (refl, refl)
