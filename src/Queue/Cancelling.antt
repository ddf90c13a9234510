-- ===== src/Queue/Cancelling.antt =====
-- A cancellation holds: no zone of the entry starts after it.
pub mod Steps
use Prim.Native.String.{String}
use mathlib.Core.Bool.{false≢true}
use irrigation.Base.{
  ℕ, ◌+◌, ◌≤◌, ◌≡◌, refl, subst, ◌∙◌, inl, inr, Bool, true, false, ◌||◌, List, [], ◌∷◌, ◌++◌, none,
  some, arith, Bool-cases, Option-cases, if◌then◌else◌, leb, length, All, All-append, ◌==◌,
  string_eq,
}
use irrigation.Queue.{
  QueueEntry, EnqueueCall, new_entry, Phase, holding, running_zones, float_wait, GroupQueue,
  enqueue, cancel, cancel_first, cancel_entry, cancel_picked, cancel_program, cancel_group,
  with_current, current, stop, is_dead, count_some, picks_running, has_id,
}
use irrigation.Queue.Worker.{work}
use irrigation.Queue.Events.{
  Limits, Event, enqueues, cancels_entry, cancels_program, cancels_group, stops, works,
  after_enqueue, step, starts, run_starts, held,
}
use irrigation.Queue.Cancelling.Steps.{
  Quiet, HandQuiet, IsQuiet, NotOf, HandQuiet-cancel, HandQuiet-signal, Quiet-signal,
  Quiet-cancel_first, Quiet-cancel_waiting, never, StaysQuiet, work_at-StaysQuiet,
}

-- The identifier is not used again.
abbrev pub NotReused : String → Event → Type 0
NotReused id (enqueues call) = (call.entry_id == id) ≡ false
NotReused id (cancels_entry other) = Unit
NotReused id (cancels_program program_id) = Unit
NotReused id cancels_group = Unit
NotReused id stops = Unit
NotReused id (works w) = Unit

enqueue-IsQuiet :
    (id : String) (max_size : ℕ) (call : EnqueueCall) (gq : GroupQueue)
    → (call.entry_id == id) ≡ false
    → IsQuiet id gq
    → IsQuiet id (after_enqueue gq (enqueue max_size (new_entry gq.group_id call) gq))
unfolding enqueue
enqueue-IsQuiet id max_size call gq other v =
    elim (Bool-cases (leb max_size (length gq.queue + count_some (current gq.phase)))) [
      | inl t ↦ rw t v
      | inr f ↦ elim (Bool-cases (is_dead gq.phase)) [
        | inl dead ↦ rw (f, dead) (record { queued = longer; hand = tt })
        | inr alive ↦ rw (f, alive) (record { queued = longer; hand = v.hand })
      ]
    ]
  where
    longer : All (Quiet id) (gq.queue ++ new_entry gq.group_id call ∷ [])
    longer = All-append (Quiet id) gq.queue _ v.queued (never other, tt)

cancel_entry-IsQuiet :
    (id other : String) (gq : GroupQueue) → IsQuiet id gq → IsQuiet id (cancel_entry other gq).0
unfolding cancel_entry
cancel_entry-IsQuiet id other gq v = elim (Option-cases (cancel_first other gq.queue)) [
  | inl absent_there ↦ elim (Bool-cases (has_id other (current gq.phase))) [
    | inl t ↦
        rw (absent_there, cancel_entry)
          (rw t (record { queued = v.queued; hand = HandQuiet-cancel id gq.phase v.hand }))
    | inr f ↦ rw (absent_there, cancel_entry) (rw f v)
  ]
  | inr (queue', found) ↦
      rw (found, cancel_entry)
        (record {
          queued = Quiet-cancel_first id other gq.queue queue' v.queued found;
          hand = v.hand;
        })
]

cancel_picked-IsQuiet :
    (id : String) (which : QueueEntry → Bool) (gq : GroupQueue)
    → IsQuiet id gq
    → IsQuiet id (cancel_picked which gq).0
unfolding cancel_picked
cancel_picked-IsQuiet id which gq v = elim (Bool-cases (picks_running which (current gq.phase))) [
  | inl t ↦ rw t (record {
    queued = Quiet-cancel_waiting id which gq.queue v.queued;
    hand = HandQuiet-cancel id gq.phase v.hand;
  })
  | inr f ↦
      rw f (record { queued = Quiet-cancel_waiting id which gq.queue v.queued; hand = v.hand })
]

step-IsQuiet :
    (l : Limits) (id : String) (ev : Event) (gq : GroupQueue)
    → NotReused id ev
    → IsQuiet id gq
    → StaysQuiet id (step l ev gq, starts l ev gq)
unfolding step
step-IsQuiet l id (enqueues call) gq n v = (enqueue-IsQuiet id l.max_queue_size call gq n v, tt)
step-IsQuiet l id (cancels_entry other) gq n v = (cancel_entry-IsQuiet id other gq v, tt)
step-IsQuiet l id (cancels_program program_id) gq n v =
    (unfold cancel_program in (cancel_picked-IsQuiet id _ gq v), tt)
step-IsQuiet l id cancels_group gq n v = (
  unfold cancel_group in
      (cancel_picked-IsQuiet id (λ entry. true) (record gq { cancel_event = true })
        (record { queued = v.queued; hand = v.hand })),
  tt,
)
step-IsQuiet l id stops gq n v = (
  unfold stop in
      (record {
        queued = Quiet-signal id gq.queue v.queued;
        hand = HandQuiet-signal id gq.phase v.hand;
      }),
  tt,
)
step-IsQuiet l id (works w) gq n v =
    unfold work in (work_at-StaysQuiet id l.max_wait_minutes w gq.phase gq v v.hand)

run_starts-quiet :
    (l : Limits) (id : String) (evs : List Event) (gq : GroupQueue)
    → All (NotReused id) evs
    → IsQuiet id gq
    → All (NotOf id) (run_starts l evs gq)
unfolding run_starts
run_starts-quiet l id [] gq n v = tt
run_starts-quiet l id (ev ∷ evs) gq n v =
    let (later, started) = step-IsQuiet l id ev gq n.0 v in
    All-append (NotOf id) (starts l ev gq) _ started
      (run_starts-quiet l id evs (step l ev gq) n.1 later)

-- No two of the entries at hand share the identifier.
abbrev pub count_id : String → List QueueEntry → ℕ
count_id id [] = 0
count_id id (entry ∷ queue) = (if entry.entry_id == id then 1 else 0) + count_id id queue

count_id-none :
    (id : String) (queue : List QueueEntry) → count_id id queue ≡ 0 → All (Quiet id) queue
count_id-none id [] h = tt
count_id-none id (entry ∷ queue) h = elim (Bool-cases (entry.entry_id == id)) [
  | inl same ↦ absurd (ground arith)
  | inr other ↦ (never other, count_id-none id queue (ground arith))
]

cancel_first-found :
    (id : String) (queue queue' : List QueueEntry)
    → count_id id queue ≤ 1
    → cancel_first id queue ≡ some queue'
    → All (Quiet id) queue' × (count_id id queue ≡ 1)
unfolding cancel_first
cancel_first-found id [] queue' h e = absurd (cc)
cancel_first-found id (entry ∷ queue) queue' h e = elim (Bool-cases (entry.entry_id == id)) [
  | inl same ↦
      let rest : count_id id queue ≡ 0 = ground arith in
      let shape : cancel entry ∷ queue ≡ queue' = ground arith in
      (
        subst (All (Quiet id)) shape ((λ _. (refl, refl)), count_id-none id queue rest),
        rw same (omega arith),
      )
  | inr other ↦ elim (Option-cases (cancel_first id queue)) [
    | inl missing ↦ absurd (ground arith)
    | inr (tail, there) ↦
        let (quiet, once) = cancel_first-found id queue tail (ground arith) there in
        let shape : entry ∷ tail ≡ queue' = ground arith in
        (subst (All (Quiet id)) shape (never other, quiet), rw other (omega (arith, once)))
  ]
]

cancel_first-missing :
    (id : String) (queue : List QueueEntry) → cancel_first id queue ≡ none → All (Quiet id) queue
unfolding cancel_first
cancel_first-missing id [] e = tt
cancel_first-missing id (entry ∷ queue) e = elim (Bool-cases (entry.entry_id == id)) [
  | inl same ↦ absurd (ground arith)
  | inr other ↦ (never other, cancel_first-missing id queue (ground arith))
]

count_id-append :
    (id : String) (xs ys : List QueueEntry)
    → count_id id (xs ++ ys) ≡ count_id id xs + count_id id ys
count_id-append id [] ys = omega arith
count_id-append id (entry ∷ xs) ys = omega (arith, count_id-append id xs ys)

-- The entry in the hand has another identifier.
HandQuiet-absent : (id : String) (phase : Phase) → count_id id (held phase) ≡ 0 → HandQuiet id phase
HandQuiet-absent id (holding entry) h = elim (Bool-cases (entry.entry_id == id)) [
  | inl same ↦ absurd (ground arith)
  | inr other ↦ other
]
HandQuiet-absent id (running_zones entry zones) h = λ same. absurd (ground arith)
HandQuiet-absent id (float_wait entry zones) h = λ same. absurd (ground arith)
HandQuiet-absent id _ h = tt

HandQuiet-cancelled :
    (id : String) (phase : Phase)
    → has_id id (current phase) ≡ true
    → HandQuiet id (with_current cancel phase)
HandQuiet-cancelled id (holding entry) h = absurd (false≢true h)
HandQuiet-cancelled id (running_zones entry zones) h = λ same. refl
HandQuiet-cancelled id (float_wait entry zones) h = λ same. refl
HandQuiet-cancelled id _ h = tt

-- A successful `cancel_entry` leaves nothing of the entry that could run.
cancel_entry-quiets :
    (id : String) (gq : GroupQueue)
    → count_id id (held gq.phase ++ gq.queue) ≤ 1
    → (cancel_entry id gq).1 ≡ true
    → IsQuiet id (cancel_entry id gq).0
unfolding cancel_entry
cancel_entry-quiets id gq unique found = elim (Option-cases (cancel_first id gq.queue)) [
  | inl missing ↦ elim (Bool-cases (has_id id (current gq.phase))) [
    | inl t ↦
        rw (missing, cancel_entry)
          (rw t (record {
            queued = cancel_first-missing id gq.queue missing;
            hand = HandQuiet-cancelled id gq.phase t;
          }))
    | inr f ↦ absurd (false≢true (rw f at (rw (missing, cancel_entry) at found)))
  ]
  | inr (queue', there) ↦
      let split = count_id-append id (held gq.phase) gq.queue in
      let (quiet, once) = cancel_first-found id gq.queue queue' (omega (arith, split)) there in
      rw (there, cancel_entry)
        (record { queued = quiet; hand = HandQuiet-absent id gq.phase (omega (arith, split)) })
]

-- Once `cancel_entry` has said that it found the entry, the worker passes the test for the cancel
-- that comes before the start of a zone for no zone of it any more, whatever calls and steps of the
-- worker follow, if its identifier is unique and is not used again. A zone for which it had passed
-- the test before can still start.
pub run_starts-cancel_entry :
    (l : Limits) (id : String) (evs : List Event) (gq : GroupQueue)
    → count_id id (held gq.phase ++ gq.queue) ≤ 1
    → (cancel_entry id gq).1 ≡ true
    → All (NotReused id) evs
    → All (NotOf id) (run_starts l evs (cancel_entry id gq).0)
run_starts-cancel_entry l id evs gq unique found fresh =
    run_starts-quiet l id evs (cancel_entry id gq).0 fresh (cancel_entry-quiets id gq unique found)
