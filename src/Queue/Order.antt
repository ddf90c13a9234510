-- ===== src/Queue/Order.antt =====
-- First in, first out: no entry is lost, made up, or served out of order.
use Prim.Native.String.{String}
use mathlib.Core.List.{append-nil, append_assoc, map-append}
use mathlib.Core.Bool.{false≢true}
use irrigation.Base.{
  ℕ, ◌≡◌, refl, sym, ap, ◌∙◌, inl, inr, Bool, true, List, [], ◌∷◌, ◌++◌, map, some, arith,
  Bool-cases, Option-cases, leb, length, ◌+◌, string_eq,
}
use irrigation.Queue.{
  QueueEntry, new_entry, Phase, absent, looping, taking, idle, holding, running_zones, float_wait,
  returned, completing, raised, failing, settled, draining, leaving, GroupQueue, new_queue, enqueue,
  cancel, cancel_first, cancel_entry, cancel_waiting, cancel_picked, cancel_program, cancel_group,
  signal, with_current, current, stop, is_dead, count_some, expired,
}
use irrigation.Queue.Worker.{
  World, FloatAnswer, pauses, with_state, skip_cancelled, pop, take, wake, begin, run_zone,
  poll_float, ask_float, drop, work, work_at,
}
use irrigation.Queue.Events.{
  Limits, Event, enqueues, cancels_entry, cancels_program, cancels_group, stops, works,
  after_enqueue, accepted_ids, step, accepts, run, run_accepts, held, ids,
}

-- Everything that was ever taken in, oldest first.
abbrev pub contents : GroupQueue → List String
contents gq = ids gq.retired ++ (ids (held gq.phase) ++ ids gq.queue)

ids-signal : (queue : List QueueEntry) → ids (map signal queue) ≡ ids queue
ids-signal [] = refl
ids-signal (entry ∷ queue) = cc (ids-signal queue)

ids-drop : (queue : List QueueEntry) → ids (map drop queue) ≡ ids queue
ids-drop [] = refl
ids-drop (entry ∷ queue) = ground (arith, ids-drop queue)

held-cancel : (phase : Phase) → ids (held (with_current cancel phase)) ≡ ids (held phase)
held-cancel absent = refl
held-cancel _ = refl

held-signal : (phase : Phase) → ids (held (with_current signal phase)) ≡ ids (held phase)
held-signal absent = refl
held-signal _ = refl

cancel_first-ids :
    (id : String) (queue queue' : List QueueEntry)
    → cancel_first id queue ≡ some queue'
    → ids queue' ≡ ids queue
unfolding cancel_first
cancel_first-ids id [] queue' h = cc
cancel_first-ids id (entry ∷ queue) queue' h = elim (Option-cases (cancel_first id queue)) [
  | inl e ↦ ground arith
  | inr (tail, e) ↦ ground (arith, cancel_first-ids id queue tail e)
]

cancel_waiting-ids :
    (which : QueueEntry → Bool) (queue : List QueueEntry)
    → ids (cancel_waiting which queue).0 ≡ ids queue
unfolding cancel_waiting
cancel_waiting-ids which [] = refl
cancel_waiting-ids which (entry ∷ queue) = ground (arith, cancel_waiting-ids which queue)

skip_cancelled-append :
    (queue : List QueueEntry) → (skip_cancelled queue).0 ++ (skip_cancelled queue).1 ≡ queue
unfolding skip_cancelled
skip_cancelled-append [] = refl
skip_cancelled-append (entry ∷ queue) = ground (arith, skip_cancelled-append queue)

cancel_entry-contents :
    (id : String) (gq : GroupQueue) → contents (cancel_entry id gq).0 ≡ contents gq
unfolding cancel_entry
cancel_entry-contents id gq = elim (Option-cases (cancel_first id gq.queue)) [
  | inl e ↦ rw (e, cancel_entry) (ground (arith, held-cancel gq.phase))
  | inr (queue', e) ↦ rw (e, cancel_entry) (cc (cancel_first-ids id gq.queue queue' e))
]

cancel_picked-contents :
    (which : QueueEntry → Bool) (gq : GroupQueue)
    → contents (cancel_picked which gq).0 ≡ contents gq
unfolding cancel_picked
cancel_picked-contents which gq =
    ground (arith, cancel_waiting-ids which gq.queue, held-cancel gq.phase)

stop-contents : (gq : GroupQueue) → contents (stop gq) ≡ contents gq
unfolding stop
stop-contents gq = cc (ids-signal gq.queue, held-signal gq.phase)

pop-contents :
    (queue retired : List QueueEntry) (gq : GroupQueue)
    → gq.retired ≡ retired
    → contents (pop queue gq) ≡ ids retired ++ ids queue
unfolding pop
pop-contents [] retired gq h = rw h
pop-contents (entry ∷ queue) retired gq h = rw h

take-contents : (gq : GroupQueue) → contents (take gq) ≡ ids gq.retired ++ ids gq.queue
unfolding take
take-contents gq =
    let split = skip_cancelled gq.queue in
    pop-contents split.1 (gq.retired ++ split.0) _ refl
    ∙ ap (λ l. l ++ ids split.1) (map-append _ gq.retired split.0)
    ∙ append_assoc (ids gq.retired) (ids split.0) (ids split.1)
    ∙ ap (λ l. ids gq.retired ++ l)
        (sym (map-append _ split.0 split.1) ∙ ap ids (skip_cancelled-append gq.queue))

-- What an entry that is let go of was, the log of retired entries grows by.
retire_one :
    (retired : List QueueEntry) (entry entry' : QueueEntry) (queue : List String)
    → entry'.entry_id ≡ entry.entry_id
    → ids (retired ++ entry' ∷ []) ++ queue ≡ ids retired ++ (entry.entry_id ∷ queue)
retire_one retired entry entry' queue h =
    rw (map-append, append_assoc) (ap (λ i. ids retired ++ (i ∷ queue)) h)

begin-contents :
    (max_wait now : ℕ) (entry : QueueEntry) (gq : GroupQueue)
    → contents (begin max_wait now entry gq) ≡ ids gq.retired ++ (entry.entry_id ∷ ids gq.queue)
unfolding begin
begin-contents max_wait now entry gq = ground (
  arith,
  retire_one gq.retired entry entry (ids gq.queue) refl,
  retire_one gq.retired entry (with_state expired entry) (ids gq.queue) refl,
)

ask_float-held :
    (w : World) (entry : QueueEntry) (zone : ℕ) (zones : List ℕ) (answer : FloatAnswer)
    → held (ask_float w entry zone zones answer).0 ≡ entry ∷ []
unfolding ask_float
ask_float-held w entry zone zones pauses = ground arith
ask_float-held w entry zone zones _ = refl

run_zone-held :
    (w : World) (entry : QueueEntry) (zones : List ℕ) → held (run_zone w entry zones).0 ≡ entry ∷ []
unfolding run_zone
run_zone-held w entry [] = refl
run_zone-held w entry (zone ∷ zones) = ground (arith, ask_float-held w entry zone zones w.float)

poll_float-held :
    (w : World) (entry : QueueEntry) (zones : List ℕ)
    → held (poll_float w entry zones).0 ≡ entry ∷ []
unfolding poll_float
poll_float-held w entry [] = refl
poll_float-held w entry (zone ∷ zones) = ground (arith, ask_float-held w entry zone zones w.float)

wake-contents :
    (queue : List QueueEntry) (gq : GroupQueue)
    → contents (wake queue gq) ≡ ids gq.retired ++ ids gq.queue
unfolding wake
wake-contents [] gq = refl
wake-contents (entry ∷ queue) gq = refl

work_at-contents :
    (max_wait : ℕ) (w : World) (phase : Phase) (gq : GroupQueue)
    → gq.phase ≡ phase
    → contents (work_at max_wait w phase gq).0
      ≡ ids gq.retired ++ (ids (held phase) ++ ids gq.queue)
unfolding work_at
work_at-contents max_wait w absent gq h = rw h
work_at-contents max_wait w looping gq h = ground arith
work_at-contents max_wait w taking gq h = take-contents gq
work_at-contents max_wait w idle gq h = wake-contents gq.queue gq
work_at-contents max_wait w (holding entry) gq h = begin-contents max_wait w.now entry gq
work_at-contents max_wait w (running_zones entry zones) gq h = rw (run_zone-held w entry zones)
work_at-contents max_wait w (float_wait entry zones) gq h = rw (poll_float-held w entry zones)
work_at-contents max_wait w (returned entry) gq h = ground arith
work_at-contents max_wait w (completing entry) gq h = refl
work_at-contents max_wait w (raised entry) gq h = ground arith
work_at-contents max_wait w (failing entry) gq h = refl
work_at-contents max_wait w (settled entry) gq h =
    retire_one gq.retired entry entry (ids gq.queue) refl
work_at-contents max_wait w draining gq h = rw (append-nil, map-append, ids-drop)
work_at-contents max_wait w leaving gq h = refl

dead-held : (phase : Phase) → is_dead phase ≡ true → held phase ≡ []
dead-held absent h = refl
dead-held _ h = absurd (false≢true h)

add_last :
    (retired hand queue last : List String)
    → retired ++ (hand ++ (queue ++ last)) ≡ (retired ++ (hand ++ queue)) ++ last
add_last retired hand queue last = simp append_assoc

enqueue-contents :
    (max_size : ℕ) (entry : QueueEntry) (gq : GroupQueue)
    → contents (after_enqueue gq (enqueue max_size entry gq))
      ≡ contents gq ++ accepted_ids entry.entry_id (enqueue max_size entry gq)
unfolding enqueue
enqueue-contents max_size entry gq =
    elim (Bool-cases (leb max_size (length gq.queue + count_some (current gq.phase)))) [
      | inl t ↦ rw (t, append-nil)
      | inr f ↦ elim (Bool-cases (is_dead gq.phase)) [
        | inl dead ↦
            rw (f, dead, map-append, dead-held gq.phase dead)
              (add_last (ids gq.retired) [] (ids gq.queue) (entry.entry_id ∷ []))
        | inr alive ↦
            rw (f, alive, map-append)
              (add_last (ids gq.retired) (ids (held gq.phase)) (ids gq.queue) (entry.entry_id ∷ []))
      ]
    ]

step-contents :
    (l : Limits) (ev : Event) (gq : GroupQueue)
    → contents (step l ev gq) ≡ contents gq ++ accepts l ev gq
unfolding step
step-contents l (enqueues call) gq =
    enqueue-contents l.max_queue_size (new_entry gq.group_id call) gq
step-contents l (cancels_entry id) gq = cancel_entry-contents id gq ∙ sym (append-nil _)
step-contents l (cancels_program id) gq =
    unfold cancel_program in (cancel_picked-contents _ gq ∙ sym (append-nil _))
step-contents l cancels_group gq =
    unfold cancel_group in
    (cancel_picked-contents (λ entry. true) (record gq { cancel_event = true })
      ∙ sym (append-nil _))
step-contents l stops gq = stop-contents gq ∙ sym (append-nil _)
step-contents l (works w) gq =
    unfold work in (work_at-contents l.max_wait_minutes w gq.phase gq refl ∙ sym (append-nil _))

run-contents :
    (l : Limits) (evs : List Event) (gq : GroupQueue)
    → contents (run l evs gq) ≡ contents gq ++ run_accepts l evs gq
unfolding run run_accepts
run-contents l [] gq = sym (append-nil _)
run-contents l (ev ∷ evs) gq =
    run-contents l evs (step l ev gq)
    ∙ ap (λ c. c ++ run_accepts l evs (step l ev gq)) (step-contents l ev gq)
    ∙ append_assoc (contents gq) (accepts l ev gq) _

-- First in, first out, whatever calls and steps of the worker interleave: the entries that the
-- queue has let go of, the one in the worker's hand and the queue are, in this order, exactly the
-- entries that `enqueue` took, in the order in which it took them.
pub contents-run_new :
    (l : Limits) (group_id : ℕ) (evs : List Event)
    → contents (run l evs (new_queue group_id)) ≡ run_accepts l evs (new_queue group_id)
unfolding new_queue
contents-run_new l group_id evs = run-contents l evs (new_queue group_id)
