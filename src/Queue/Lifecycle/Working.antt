-- ===== src/Queue/Lifecycle/Working.antt =====
-- The steps of the worker keep the entries in the states that they can have.
use mathlib.Core.Bool.{false≢true}
use irrigation.Base.{
  ℕ, ◌≡◌, refl, inl, inr, Bool, true, false, ◌||◌, List, [], ◌∷◌, arith, Bool-cases, if◌then◌else◌,
  All, All-append, string_eq,
}
use irrigation.Queue.{
  waiting, QueueEntry, Phase, absent, looping, taking, idle, holding, running_zones, float_wait,
  returned, completing, raised, failing, settled, draining, leaving, GroupQueue, is_running,
  is_cancelled,
}
use irrigation.Queue.Worker.{
  World, FloatAnswer, pauses, skip_cancelled, pop, take, wake, begin, run_zone, poll_float,
  ask_float, work_at, ended, stopping, waited_too_long,
}
use irrigation.Queue.Lifecycle.States.{IsQueued, IsActive, IsTerminal, HandInv, Inv, All-drop}

pub skip_cancelled-gone :
    (queue : List QueueEntry) → All IsQueued queue → All IsTerminal (skip_cancelled queue).0
unfolding skip_cancelled
skip_cancelled-gone [] h = tt
skip_cancelled-gone (entry ∷ queue) h = ground (arith, skip_cancelled-gone queue h.1)

-- What is behind the cancelled head waits.
abbrev pub HeadWaits : List QueueEntry → Type 0
HeadWaits [] = Unit
HeadWaits (entry ∷ queue) = (entry.state ≡ waiting) × All IsQueued queue

pub skip_cancelled-rest :
    (queue : List QueueEntry) → All IsQueued queue → HeadWaits (skip_cancelled queue).1
unfolding skip_cancelled
skip_cancelled-rest [] h = tt
skip_cancelled-rest (entry ∷ queue) h = ground (arith, skip_cancelled-rest queue h.1)

pub pop-Inv :
    (queue : List QueueEntry) (gq : GroupQueue)
    → HeadWaits queue
    → All IsTerminal gq.retired
    → Inv (pop queue gq)
unfolding pop
pop-Inv [] gq h gone = record { queued = tt; hand = tt; gone = gone }
pop-Inv (entry ∷ queue) gq h gone = record { queued = h.1; hand = h.0; gone = gone }

pub take-Inv : (gq : GroupQueue) → Inv gq → Inv (take gq)
unfolding take
take-Inv gq v =
    pop-Inv (skip_cancelled gq.queue).1 _ (skip_cancelled-rest gq.queue v.queued)
      (All-append IsTerminal gq.retired _ v.gone (skip_cancelled-gone gq.queue v.queued))

pub ask_float-HandInv :
    (w : World) (entry : QueueEntry) (zone : ℕ) (zones : List ℕ) (answer : FloatAnswer)
    → IsActive entry
    → HandInv (ask_float w entry zone zones answer).0
unfolding ask_float
ask_float-HandInv w entry zone zones pauses h = ground arith
ask_float-HandInv w entry zone zones _ h = h

pub run_zone-HandInv :
    (w : World) (entry : QueueEntry) (zones : List ℕ)
    → IsActive entry
    → HandInv (run_zone w entry zones).0
unfolding run_zone
run_zone-HandInv w entry [] h = h
run_zone-HandInv w entry (zone ∷ zones) h = elim (Bool-cases (stopping w entry)) [
  | inl t ↦ rw t h
  | inr f ↦ rw f (ask_float-HandInv w entry zone zones w.float h)
]

pub poll_float-HandInv :
    (w : World) (entry : QueueEntry) (zones : List ℕ)
    → IsActive entry
    → HandInv (poll_float w entry zones).0
unfolding poll_float
poll_float-HandInv w entry [] h = h
poll_float-HandInv w entry (zone ∷ zones) h = elim (Bool-cases entry.cancel_event) [
  | inl t ↦ simp t h
  | inr f ↦ simp f (ask_float-HandInv w entry zone zones w.float h)
]

pub wake-Inv : (queue : List QueueEntry) (gq : GroupQueue) → Inv gq → Inv (wake queue gq)
unfolding wake
wake-Inv [] gq v = record { queued = v.queued; hand = tt; gone = v.gone }
wake-Inv (entry ∷ queue) gq v = record { queued = v.queued; hand = tt; gone = v.gone }

pub begin-Inv :
    (max_wait now : ℕ) (entry : QueueEntry) (gq : GroupQueue)
    → All IsQueued gq.queue
    → All IsTerminal gq.retired
    → entry.state ≡ waiting
    → Inv (begin max_wait now entry gq)
unfolding begin
begin-Inv max_wait now entry gq queued gone waits =
    elim (Bool-cases (waited_too_long max_wait now entry)) [
      | inl t ↦ rw t (record {
        queued = queued;
        hand = tt;
        gone = All-append IsTerminal gq.retired _ gone (refl, tt);
      })
      | inr f ↦ elim (Bool-cases (is_cancelled entry.state)) [
        | inl dead ↦ absurd (false≢true (rw waits at dead))
        | inr alive ↦ rw (f, alive) (record { queued = queued; hand = inl refl; gone = gone })
      ]
    ]

pub HandInv-test :
    (b : Bool) (phase phase' : Phase)
    → HandInv phase
    → HandInv phase'
    → HandInv (if b then phase else phase')
HandInv-test true phase phase' h h' = h
HandInv-test false phase phase' h h' = h'

-- What the test of the state finds.
pub settles_returned :
    (entry : QueueEntry)
    → IsActive entry
    → HandInv (if is_running entry.state then completing entry else settled entry)
settles_returned entry (inl runs) = simp runs (inl refl)
settles_returned entry (inr dead) = simp dead

pub settles_raised :
    (entry : QueueEntry)
    → IsActive entry
    → HandInv (if ended entry.state then settled entry else failing entry)
settles_raised entry (inl runs) = simp runs (inl refl)
settles_raised entry (inr dead) = simp dead

pub work_at-Inv :
    (max_wait : ℕ) (w : World) (phase : Phase) (gq : GroupQueue)
    → Inv gq
    → HandInv phase
    → gq.phase ≡ phase
    → Inv (work_at max_wait w phase gq).0
unfolding work_at
work_at-Inv max_wait w absent gq v h e = v
work_at-Inv max_wait w looping gq v h e = record {
  queued = v.queued;
  hand = HandInv-test (w.shutdown || gq.cancel_event) draining taking tt tt;
  gone = v.gone;
}
work_at-Inv max_wait w taking gq v h e = take-Inv gq v
work_at-Inv max_wait w idle gq v h e = wake-Inv gq.queue gq v
work_at-Inv max_wait w (holding entry) gq v h e =
    begin-Inv max_wait w.now entry gq v.queued v.gone h
work_at-Inv max_wait w (running_zones entry zones) gq v h e = record {
  queued = v.queued;
  hand = run_zone-HandInv w entry zones h;
  gone = v.gone;
}
work_at-Inv max_wait w (float_wait entry zones) gq v h e = record {
  queued = v.queued;
  hand = poll_float-HandInv w entry zones h;
  gone = v.gone;
}
work_at-Inv max_wait w (returned entry) gq v h e = record {
  queued = v.queued;
  hand = settles_returned entry h;
  gone = v.gone;
}
work_at-Inv max_wait w (completing entry) gq v h e = record {
  queued = v.queued;
  hand = refl;
  gone = v.gone;
}
work_at-Inv max_wait w (raised entry) gq v h e = record {
  queued = v.queued;
  hand = settles_raised entry h;
  gone = v.gone;
}
work_at-Inv max_wait w (failing entry) gq v h e = record {
  queued = v.queued;
  hand = refl;
  gone = v.gone;
}
work_at-Inv max_wait w (settled entry) gq v h e = record {
  queued = v.queued;
  hand = tt;
  gone = All-append IsTerminal gq.retired _ v.gone (h, tt);
}
work_at-Inv max_wait w draining gq v h e = record {
  queued = tt;
  hand = tt;
  gone = All-append IsTerminal gq.retired _ v.gone (All-drop gq.queue v.queued);
}
work_at-Inv max_wait w leaving gq v h e = record { queued = v.queued; hand = tt; gone = v.gone }
