-- ===== src/Queue/Cancelling/Steps.antt =====
-- A queue in which an entry is cancelled for good, and the steps of the worker, which keep it so.
use Prim.Native.String.{String}
use mathlib.Core.Bool.{false≢true}
use irrigation.Base.{
  ℕ, ◌≡◌, refl, sym, ap, ◌∙◌, inl, inr, Bool, true, false, ◌||◌, List, [], ◌∷◌, map, some, arith,
  Bool-cases, Option-cases, if◌then◌else◌, All, ◌==◌, string_eq,
}
use irrigation.Queue.{
  cancelled, QueueEntry, Phase, absent, looping, taking, idle, holding, running_zones, float_wait,
  returned, completing, raised, failing, settled, draining, leaving, GroupQueue, cancel,
  cancel_first, cancel_waiting, signal, with_current, is_cancelled,
}
use irrigation.Queue.Worker.{
  World, FloatAnswer, no_monitor, flows, pauses, raises, ZoneStart, skip_cancelled, pop, take, wake,
  begin, run_zone, poll_float, ask_float, work_at, stopping, waited_too_long,
}

-- An entry with the identifier is cancelled, and its worker has been told.
abbrev pub Quiet : String → QueueEntry → Type 0
Quiet id entry =
    (entry.entry_id == id) ≡ true → (entry.state ≡ cancelled) × (entry.cancel_event ≡ true)

-- As `gq.current` it has been told; between `popleft` and the assignment it cannot stand.
abbrev pub HandQuiet : String → Phase → Type 0
HandQuiet id (holding entry) = (entry.entry_id == id) ≡ false
HandQuiet id (running_zones entry zones) = (entry.entry_id == id) ≡ true → entry.cancel_event ≡ true
HandQuiet id (float_wait entry zones) = (entry.entry_id == id) ≡ true → entry.cancel_event ≡ true
HandQuiet id absent = Unit
HandQuiet id _ = Unit

pub record IsQuiet (id : String) (gq : GroupQueue) : Type 0 where
  pub queued : All (Quiet id) gq.queue
  pub hand : HandQuiet id gq.phase

abbrev pub NotOf : String → ZoneStart → Type 0
NotOf id start = (start.0 == id) ≡ false

pub HandQuiet-cancel :
    (id : String) (phase : Phase) → HandQuiet id phase → HandQuiet id (with_current cancel phase)
HandQuiet-cancel id (holding entry) h = h
HandQuiet-cancel id (running_zones entry zones) h = λ _. refl
HandQuiet-cancel id (float_wait entry zones) h = λ _. refl
HandQuiet-cancel id _ h = tt

pub HandQuiet-signal :
    (id : String) (phase : Phase) → HandQuiet id phase → HandQuiet id (with_current signal phase)
HandQuiet-signal id (holding entry) h = h
HandQuiet-signal id (running_zones entry zones) h = λ _. refl
HandQuiet-signal id (float_wait entry zones) h = λ _. refl
HandQuiet-signal id _ h = tt

pub Quiet-signal :
    (id : String) (queue : List QueueEntry)
    → All (Quiet id) queue
    → All (Quiet id) (map signal queue)
Quiet-signal id [] h = tt
Quiet-signal id (entry ∷ queue) h = ((λ same. ((h.0 same).0, refl)), Quiet-signal id queue h.1)

pub Quiet-cancel_first :
    (id other : String) (queue queue' : List QueueEntry)
    → All (Quiet id) queue
    → cancel_first other queue ≡ some queue'
    → All (Quiet id) queue'
unfolding cancel_first
Quiet-cancel_first id other [] queue' h e = absurd (cc)
Quiet-cancel_first id other (entry ∷ queue) queue' h e =
    elim (Option-cases (cancel_first other queue)) [
      | inl none_there ↦ ground arith
      | inr (tail, found) ↦ ground (arith, Quiet-cancel_first id other queue tail h.1 found)
    ]

pub Quiet-cancel_waiting :
    (id : String) (which : QueueEntry → Bool) (queue : List QueueEntry)
    → All (Quiet id) queue
    → All (Quiet id) (cancel_waiting which queue).0
unfolding cancel_waiting
Quiet-cancel_waiting id which [] h = tt
Quiet-cancel_waiting id which (entry ∷ queue) h =
    ground (arith, Quiet-cancel_waiting id which queue h.1)

-- Behind the cancelled head another entry stands, or none.
abbrev HeadOther : String → List QueueEntry → Type 0
HeadOther id [] = Unit
HeadOther id (entry ∷ queue) = ((entry.entry_id == id) ≡ false) × All (Quiet id) queue

other_head :
    (id : String) (entry : QueueEntry)
    → Quiet id entry
    → is_cancelled entry.state ≡ false
    → (entry.entry_id == id) ≡ false
other_head id entry quiet alive = elim (Bool-cases (entry.entry_id == id)) [
  | inl same ↦ absurd (false≢true (sym alive ∙ ap is_cancelled (quiet same).0))
  | inr other ↦ other
]

skip_cancelled-HeadOther :
    (id : String) (queue : List QueueEntry)
    → All (Quiet id) queue
    → HeadOther id (skip_cancelled queue).1
unfolding skip_cancelled
skip_cancelled-HeadOther id [] h = tt
skip_cancelled-HeadOther id (entry ∷ queue) h = elim (Bool-cases (is_cancelled entry.state)) [
  | inl dead ↦ rw dead (skip_cancelled-HeadOther id queue h.1)
  | inr alive ↦ rw alive (other_head id entry h.0 alive, h.1)
]

pop-IsQuiet :
    (id : String) (queue : List QueueEntry) (gq : GroupQueue)
    → HeadOther id queue
    → IsQuiet id (pop queue gq)
unfolding pop
pop-IsQuiet id [] gq h = record { queued = tt; hand = tt }
pop-IsQuiet id (entry ∷ queue) gq h = record { queued = h.1; hand = h.0 }

-- What a turn of the worker may do to the hand, and what it may start.
abbrev Harmless : String → Phase × List ZoneStart → Type 0
Harmless id (phase, starts') = HandQuiet id phase × All (NotOf id) starts'

ask_float-Harmless :
    (id : String) (w : World) (entry : QueueEntry) (zone : ℕ) (zones : List ℕ)
    (answer : FloatAnswer)
    → (entry.entry_id == id) ≡ false
    → Harmless id (ask_float w entry zone zones answer)
unfolding ask_float
ask_float-Harmless id w entry zone zones no_monitor h =
    ((λ same. absurd (false≢true (sym h ∙ same))), (h, tt))
ask_float-Harmless id w entry zone zones flows h =
    ((λ same. absurd (false≢true (sym h ∙ same))), (h, tt))
ask_float-Harmless id w entry zone zones pauses h = ground arith
ask_float-Harmless id w entry zone zones raises h = (tt, tt)

run_zone-Harmless :
    (id : String) (w : World) (entry : QueueEntry) (zones : List ℕ)
    → ((entry.entry_id == id) ≡ true → entry.cancel_event ≡ true)
    → Harmless id (run_zone w entry zones)
unfolding run_zone
run_zone-Harmless id w entry [] h = (tt, tt)
run_zone-Harmless id w entry (zone ∷ zones) h = elim (Bool-cases (entry.entry_id == id)) [
  | inl same ↦
      let told : stopping w entry ≡ true = ap (λ b. b || w.shutdown) (h same) in simp told (tt, tt)
  | inr other ↦ elim (Bool-cases (stopping w entry)) [
    | inl t ↦ simp t (tt, tt)
    | inr f ↦ simp f (ask_float-Harmless id w entry zone zones w.float other)
  ]
]

poll_float-Harmless :
    (id : String) (w : World) (entry : QueueEntry) (zones : List ℕ)
    → ((entry.entry_id == id) ≡ true → entry.cancel_event ≡ true)
    → Harmless id (poll_float w entry zones)
unfolding poll_float
poll_float-Harmless id w entry [] h = (tt, tt)
poll_float-Harmless id w entry (zone ∷ zones) h = elim (Bool-cases (entry.entry_id == id)) [
  | inl same ↦ simp (h same) (tt, tt)
  | inr other ↦ elim (Bool-cases entry.cancel_event) [
    | inl t ↦ simp t (tt, tt)
    | inr f ↦ simp f (ask_float-Harmless id w entry zone zones w.float other)
  ]
]

pub never {ℓ} : {A : Type ℓ} {b : Bool} → b ≡ false → b ≡ true → A
never h same = absurd (false≢true (sym h ∙ same))

begin-IsQuiet :
    (id : String) (max_wait now : ℕ) (entry : QueueEntry) (gq : GroupQueue)
    → All (Quiet id) gq.queue
    → (entry.entry_id == id) ≡ false
    → IsQuiet id (begin max_wait now entry gq)
unfolding begin
begin-IsQuiet id max_wait now entry gq queued other =
    elim (Bool-cases (waited_too_long max_wait now entry)) [
      | inl t ↦ rw t (record { queued = queued; hand = tt })
      | inr f ↦ elim (Bool-cases (is_cancelled entry.state)) [
        | inl dead ↦ rw (f, dead) (record { queued = queued; hand = tt })
        | inr alive ↦ rw (f, alive) (record { queued = queued; hand = never other })
      ]
    ]

HandQuiet-test :
    (id : String) (b : Bool) (phase phase' : Phase)
    → HandQuiet id phase
    → HandQuiet id phase'
    → HandQuiet id (if b then phase else phase')
HandQuiet-test id true phase phase' h h' = h
HandQuiet-test id false phase phase' h h' = h'

wake-IsQuiet :
    (id : String) (queue : List QueueEntry) (gq : GroupQueue)
    → All (Quiet id) gq.queue
    → IsQuiet id (wake queue gq)
unfolding wake
wake-IsQuiet id [] gq v = record { queued = v; hand = tt }
wake-IsQuiet id (entry ∷ queue) gq v = record { queued = v; hand = tt }

abbrev pub StaysQuiet : String → GroupQueue × List ZoneStart → Type 0
StaysQuiet id (gq, starts') = IsQuiet id gq × All (NotOf id) starts'

pub work_at-StaysQuiet :
    (id : String) (max_wait : ℕ) (w : World) (phase : Phase) (gq : GroupQueue)
    → IsQuiet id gq
    → HandQuiet id phase
    → StaysQuiet id (work_at max_wait w phase gq)
unfolding work_at
work_at-StaysQuiet id max_wait w absent gq v h = (v, tt)
work_at-StaysQuiet id max_wait w looping gq v h = (
  record {
    queued = v.queued;
    hand = HandQuiet-test id (w.shutdown || gq.cancel_event) draining taking tt tt;
  },
  tt,
)
work_at-StaysQuiet id max_wait w taking gq v h =
    (unfold take in (pop-IsQuiet id _ _ (skip_cancelled-HeadOther id gq.queue v.queued)), tt)
work_at-StaysQuiet id max_wait w idle gq v h = (wake-IsQuiet id gq.queue gq v.queued, tt)
work_at-StaysQuiet id max_wait w (holding entry) gq v h =
    (begin-IsQuiet id max_wait w.now entry gq v.queued h, tt)
work_at-StaysQuiet id max_wait w (running_zones entry zones) gq v h =
    let (hand, started) = run_zone-Harmless id w entry zones h in
    (record { queued = v.queued; hand = hand }, started)
work_at-StaysQuiet id max_wait w (float_wait entry zones) gq v h =
    let (hand, started) = poll_float-Harmless id w entry zones h in
    (record { queued = v.queued; hand = hand }, started)
work_at-StaysQuiet id max_wait w (returned entry) gq v h = (
  record { queued = v.queued; hand = HandQuiet-test id _ (completing entry) (settled entry) tt tt },
  tt,
)
work_at-StaysQuiet id max_wait w (completing entry) gq v h =
    (record { queued = v.queued; hand = tt }, tt)
work_at-StaysQuiet id max_wait w (raised entry) gq v h = (
  record { queued = v.queued; hand = HandQuiet-test id _ (settled entry) (failing entry) tt tt },
  tt,
)
work_at-StaysQuiet id max_wait w (failing entry) gq v h =
    (record { queued = v.queued; hand = tt }, tt)
work_at-StaysQuiet id max_wait w (settled entry) gq v h =
    (record { queued = v.queued; hand = tt }, tt)
work_at-StaysQuiet id max_wait w draining gq v h = (record { queued = tt; hand = tt }, tt)
work_at-StaysQuiet id max_wait w leaving gq v h = (record { queued = v.queued; hand = tt }, tt)
