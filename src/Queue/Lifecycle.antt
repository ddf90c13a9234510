-- ===== src/Queue/Lifecycle.antt =====
-- What becomes of an entry: the states that it can have in the queue, in the worker's hand and after.
pub mod States
mod Working
use Prim.Native.String.{String}
use irrigation.Base.{
  ℕ, ◌+◌, ◌≡◌, refl, ◌⊎◌, inl, inr, Bool, true, ◌||◌, List, [], ◌∷◌, ◌++◌, arith, Bool-cases,
  Option-cases, if◌then◌else◌, leb, length, All, All-append, string_eq,
}
use irrigation.Queue.{
  waiting, cancelled, QueueEntry, EnqueueCall, new_entry, GroupQueue, new_queue, enqueue,
  cancel_first, cancel_entry, cancel_picked, cancel_program, cancel_group, current, stop, is_dead,
  count_some, picks_running, has_id,
}
use irrigation.Queue.Worker.{work}
use irrigation.Queue.Events.{
  Limits, Event, enqueues, cancels_entry, cancels_program, cancels_group, stops, works,
  after_enqueue, step, run,
}
use irrigation.Queue.Lifecycle.States.{
  IsQueued, IsTerminal, Inv, HandInv-cancel, HandInv-signal, All-signal, All-cancel_first,
  All-cancel_waiting,
}
use irrigation.Queue.Lifecycle.Working.{work_at-Inv}

enqueue-Inv :
    (max_size : ℕ) (call : EnqueueCall) (gq : GroupQueue)
    → Inv gq
    → Inv (after_enqueue gq (enqueue max_size (new_entry gq.group_id call) gq))
unfolding enqueue
enqueue-Inv max_size call gq v =
    elim (Bool-cases (leb max_size (length gq.queue + count_some (current gq.phase)))) [
      | inl t ↦ rw t v
      | inr f ↦ elim (Bool-cases (is_dead gq.phase)) [
        | inl dead ↦ rw (f, dead) (record { queued = longer; hand = tt; gone = v.gone })
        | inr alive ↦ rw (f, alive) (record { queued = longer; hand = v.hand; gone = v.gone })
      ]
    ]
  where
    longer : All IsQueued (gq.queue ++ new_entry gq.group_id call ∷ [])
    longer = All-append IsQueued gq.queue _ v.queued (inl refl, tt)

cancel_entry-Inv : (id : String) (gq : GroupQueue) → Inv gq → Inv (cancel_entry id gq).0
unfolding cancel_entry
cancel_entry-Inv id gq v = elim (Option-cases (cancel_first id gq.queue)) [
  | inl absent_there ↦ elim (Bool-cases (has_id id (current gq.phase))) [
    | inl t ↦
        rw (absent_there, cancel_entry)
          (rw t
            (record { queued = v.queued; hand = HandInv-cancel gq.phase v.hand; gone = v.gone }))
    | inr f ↦ rw (absent_there, cancel_entry) (rw f v)
  ]
  | inr (queue', found) ↦
      rw (found, cancel_entry)
        (record {
          queued = All-cancel_first id gq.queue queue' v.queued found;
          hand = v.hand;
          gone = v.gone;
        })
]

cancel_picked-Inv :
    (which : QueueEntry → Bool) (gq : GroupQueue) → Inv gq → Inv (cancel_picked which gq).0
unfolding cancel_picked
cancel_picked-Inv which gq v = elim (Bool-cases (picks_running which (current gq.phase))) [
  | inl t ↦ rw t (record {
    queued = All-cancel_waiting which gq.queue v.queued;
    hand = HandInv-cancel gq.phase v.hand;
    gone = v.gone;
  })
  | inr f ↦
      rw f (record {
        queued = All-cancel_waiting which gq.queue v.queued;
        hand = v.hand;
        gone = v.gone;
      })
]

step-Inv : (l : Limits) (ev : Event) (gq : GroupQueue) → Inv gq → Inv (step l ev gq)
unfolding step
step-Inv l (enqueues call) gq v = enqueue-Inv l.max_queue_size call gq v
step-Inv l (cancels_entry id) gq v = cancel_entry-Inv id gq v
step-Inv l (cancels_program id) gq v = unfold cancel_program in (cancel_picked-Inv _ gq v)
step-Inv l cancels_group gq v =
    unfold cancel_group in
    (cancel_picked-Inv (λ entry. true) (record gq { cancel_event = true })
      (record { queued = v.queued; hand = v.hand; gone = v.gone }))
step-Inv l stops gq v =
    unfold stop in
    (record {
      queued = All-signal gq.queue v.queued;
      hand = HandInv-signal gq.phase v.hand;
      gone = v.gone;
    })
step-Inv l (works w) gq v =
    unfold work in (work_at-Inv l.max_wait_minutes w gq.phase gq v v.hand refl)

run-Inv : (l : Limits) (evs : List Event) (gq : GroupQueue) → Inv gq → Inv (run l evs gq)
unfolding run
run-Inv l [] gq v = v
run-Inv l (ev ∷ evs) gq v = run-Inv l evs (step l ev gq) (step-Inv l ev gq v)

-- Whatever calls and steps interleave, the queue lets go of an entry only in a final state:
-- completed, cancelled, expired or failed. One that still queues waits or is cancelled.
pub run-IsTerminal :
    (l : Limits) (group_id : ℕ) (evs : List Event)
    → let gq = run l evs (new_queue group_id) in
      All IsTerminal gq.retired
      × All (λ entry. (entry.state ≡ waiting) ⊎ (entry.state ≡ cancelled)) gq.queue
unfolding new_queue
run-IsTerminal l group_id evs =
    let v = run-Inv l evs (new_queue group_id) (record { queued = tt; hand = tt; gone = tt }) in
    (v.gone, v.queued)
