-- ===== src/Queue/Capacity.antt =====
-- How far the queue can grow beyond its limit.
use Prim.Native.String.{String}
use irrigation.Base.{
  ℕ, suc, ◌+◌, ◌≤◌, ◌<◌, ◌≡◌, refl, ap, inl, inr, Bool, true, List, [], ◌∷◌, ◌++◌, map, Option,
  none, some, arith, Option-cases, length, length-append, string_eq,
}
use irrigation.Queue.{
  waiting, QueueEntry, EnqueueCall, new_entry, Phase, taking, idle, holding, draining, GroupQueue,
  new_queue, enqueue, cancel_first, cancel_entry, cancel_waiting, cancel_picked, cancel_program,
  cancel_group, signal, current, stop, count_some,
}
use irrigation.Queue.Worker.{World, skip_cancelled, pop, take, wake, begin, work, work_at}
use irrigation.Queue.Events.{
  Limits, Event, enqueues, cancels_entry, cancels_program, cancels_group, stops, works, step, run,
}

length-signal : (queue : List QueueEntry) → length (map signal queue) ≡ length queue
length-signal [] = refl
length-signal (entry ∷ queue) = ap suc (length-signal queue)

length-cancel_first :
    (id : String) (queue queue' : List QueueEntry)
    → cancel_first id queue ≡ some queue'
    → length queue' ≡ length queue
unfolding cancel_first
length-cancel_first id [] queue' e = absurd (cc)
length-cancel_first id (entry ∷ queue) queue' e = elim (Option-cases (cancel_first id queue)) [
  | inl missing ↦ ground arith
  | inr (tail, there) ↦ ground (arith, length-cancel_first id queue tail there)
]

length-cancel_waiting :
    (which : QueueEntry → Bool) (queue : List QueueEntry)
    → length (cancel_waiting which queue).0 ≡ length queue
unfolding cancel_waiting
length-cancel_waiting which [] = refl
length-cancel_waiting which (entry ∷ queue) = ground (arith, length-cancel_waiting which queue)

length-skip_cancelled : (queue : List QueueEntry) → length (skip_cancelled queue).1 ≤ length queue
unfolding skip_cancelled
length-skip_cancelled [] = omega arith
length-skip_cancelled (entry ∷ queue) = ground (arith, length-skip_cancelled queue)

length-pop :
    (queue : List QueueEntry) (gq : GroupQueue) → length (pop queue gq).queue ≤ length queue
unfolding pop
length-pop [] gq = omega arith
length-pop (entry ∷ queue) gq = omega arith

length-wake :
    (queue : List QueueEntry) (gq : GroupQueue) → length (wake queue gq).queue ≤ length gq.queue
unfolding wake
length-wake [] gq = omega arith
length-wake (entry ∷ queue) gq = omega arith

length-begin :
    (max_wait now : ℕ) (entry : QueueEntry) (gq : GroupQueue)
    → length (begin max_wait now entry gq).queue ≤ length gq.queue
unfolding begin
length-begin max_wait now entry gq = ground arith

length-work_at :
    (max_wait : ℕ) (w : World) (phase : Phase) (gq : GroupQueue)
    → length (work_at max_wait w phase gq).0.queue ≤ length gq.queue
unfolding work_at
length-work_at max_wait w taking gq =
    unfold take in
    (omega (
      arith,
      length-pop (skip_cancelled gq.queue).1
          (record gq { retired = gq.retired ++ (skip_cancelled gq.queue).0 }),
      length-skip_cancelled gq.queue,
    ))
length-work_at max_wait w idle gq = length-wake gq.queue gq
length-work_at max_wait w (holding entry) gq = length-begin max_wait w.now entry gq
length-work_at max_wait w draining gq = omega arith
length-work_at max_wait w _ gq = omega arith

count_some-le {ℓ} : {A : Type ℓ} (o : Option A) → count_some o ≤ 1
count_some-le none = omega arith
count_some-le (some a) = omega arith

length-cancel_entry :
    (id : String) (gq : GroupQueue) → length (cancel_entry id gq).0.queue ≡ length gq.queue
unfolding cancel_entry
length-cancel_entry id gq = elim (Option-cases (cancel_first id gq.queue)) [
  | inl missing ↦ rw (missing, cancel_entry) (ground arith)
  | inr (queue', there) ↦ rw (there, cancel_entry) (length-cancel_first id gq.queue queue' there)
]

length-cancel_picked :
    (which : QueueEntry → Bool) (gq : GroupQueue)
    → length (cancel_picked which gq).0.queue ≡ length gq.queue
unfolding cancel_picked
length-cancel_picked which gq = ground (arith, length-cancel_waiting which gq.queue)

step-within :
    (l : Limits) (ev : Event) (gq : GroupQueue)
    → length gq.queue ≤ l.max_queue_size
    → length (step l ev gq).queue ≤ l.max_queue_size
unfolding step
step-within l (enqueues call) gq h =
    unfold enqueue in (ground (arith, length-append gq.queue (new_entry gq.group_id call ∷ [])))
step-within l (cancels_entry id) gq h = omega (arith, length-cancel_entry id gq)
step-within l (cancels_program id) gq h =
    unfold cancel_program in (omega (arith, length-cancel_picked _ gq))
step-within l cancels_group gq h =
    unfold cancel_group in
    (omega (arith, length-cancel_picked (λ entry. true) (record gq { cancel_event = true })))
step-within l stops gq h = unfold stop in (omega (arith, length-signal gq.queue))
step-within l (works w) gq h =
    unfold work in (omega (arith, length-work_at l.max_wait_minutes w gq.phase gq))

run-within :
    (l : Limits) (evs : List Event) (gq : GroupQueue)
    → length gq.queue ≤ l.max_queue_size
    → length (run l evs gq).queue ≤ l.max_queue_size
unfolding run
run-within l [] gq h = h
run-within l (ev ∷ evs) gq h = run-within l evs (step l ev gq) (step-within l ev gq h)

-- Whatever interleaves, the waiting entries never exceed the limit, and with the current entry
-- they exceed it by one at most.
run-length-le :
    (l : Limits) (group_id : ℕ) (evs : List Event)
    → let gq = run l evs (new_queue group_id) in
      (length gq.queue ≤ l.max_queue_size)
      × (length gq.queue + count_some (current gq.phase) ≤ l.max_queue_size + 1)
unfolding new_queue
run-length-le l group_id evs =
    let h = run-within l evs (new_queue group_id) (omega arith) in
    (h, omega (arith, count_some-le (current (run l evs (new_queue group_id)).phase)))

enqueue-holding :
    (max_size : ℕ) (gq : GroupQueue) (entry new : QueueEntry)
    → length gq.queue < max_size
    → enqueue max_size new (record gq { phase = holding entry })
      ≡ some
          (record gq { queue = gq.queue ++ new ∷ []; phase = holding entry; new_item_event = true })
unfolding enqueue
enqueue-holding max_size gq entry new room = ground arith

begin-holding :
    (now : ℕ) (gq : GroupQueue) (entry : QueueEntry)
    → entry.state ≡ waiting
    → (length (begin 0 now entry gq).queue ≡ length gq.queue)
      × (count_some (current (begin 0 now entry gq).phase) ≡ 1)
unfolding begin
begin-holding now gq entry waits = rw waits (refl, refl)

-- It is exceeded by one if an entry comes while the worker has popped one and not made it current.
enqueue-exceeds :
    (max_size : ℕ) (gq : GroupQueue) (entry : QueueEntry) (call : EnqueueCall) (w : World)
    → entry.state ≡ waiting
    → length gq.queue + 1 ≡ max_size
    → let l : Limits = record { max_wait_minutes = 0; max_queue_size = max_size } in
      let popped = record gq { phase = holding entry } in
      let gq' = step l (works w) (step l (enqueues call) popped) in
      length gq'.queue + count_some (current gq'.phase) ≡ max_size + 1
unfolding step work work_at
enqueue-exceeds max_size gq entry call w waits almost =
    let new = new_entry gq.group_id call in
    let grown : GroupQueue = record gq {
      queue = gq.queue ++ new ∷ [];
      phase = holding entry;
      new_item_event = true;
    } in
    let now_current = begin-holding w.now grown entry waits in
    rw (enqueue-holding max_size gq entry new (omega arith), step)
      (omega (arith, now_current, length-append gq.queue (new ∷ [])))
