-- ===== src/Queue/Manager/Programs.antt =====
-- Cancelling all entries of a program, over all groups.
use irrigation.Base.{
  ℕ, ◌+◌, ◌≡◌, refl, inl, inr, Bool, true, false, ◌&&◌, List, [], ◌∷◌, map, arith, length, keep_if,
  All, if◌then◌else◌, Bool-cases,
}
use irrigation.Queue.{
  QueueEntry, Phase, running_zones, float_wait, returned, completing, raised, failing, settled,
  GroupQueue, is_waiting, cancel, cancel_waiting, cancel_picked, cancel_program, of_program,
  picks_running, current, with_current,
}
use irrigation.Queue.Manager.{Queues, Manager, cancel_program_in, cancel_program_of}

-- Entries that a cancellation of the picked ones is meant to hit.
abbrev pub is_hit : (which : QueueEntry → Bool) → QueueEntry → Bool
is_hit which entry = which entry && is_waiting entry.state

abbrev one_if : Bool → ℕ
one_if true = 1
one_if false = 0

-- The waiting entries of a program in a queue, and its running current entry.
abbrev pub hits : (which : QueueEntry → Bool) → GroupQueue → ℕ
hits which gq =
    length (keep_if (is_hit which) gq.queue) + one_if (picks_running which (current gq.phase))

abbrev pub NoHits : (which : QueueEntry → Bool) → GroupQueue → Type 0
NoHits which gq =
    All (λ entry. is_hit which entry ≡ false) gq.queue
    × (picks_running which (current gq.phase) ≡ false)

abbrev pub all_hits : ℕ → Queues → ℕ
all_hits program_id [] = 0
all_hits program_id ((g, gq) ∷ queues) =
    hits (of_program program_id) gq + all_hits program_id queues

-- A queue before and after: entries that are not hit are as they were, the others are cancelled.
abbrev pub hit_one : (which : QueueEntry → Bool) → QueueEntry → QueueEntry
hit_one which entry = if is_hit which entry then cancel entry else entry

and_false : (b : Bool) → (b && false) ≡ false
and_false true = refl
and_false false = refl

cancel_waiting-map :
    (which : QueueEntry → Bool) (queue : List QueueEntry)
    → ((cancel_waiting which queue).0 ≡ map (hit_one which) queue)
      × ((cancel_waiting which queue).1 ≡ length (keep_if (is_hit which) queue))
unfolding cancel_waiting
cancel_waiting-map which [] = (refl, refl)
cancel_waiting-map which (entry ∷ queue) = ground (arith, cancel_waiting-map which queue)

cancel_waiting-none_left :
    (which : QueueEntry → Bool) (queue : List QueueEntry)
    → All (λ entry. is_hit which entry ≡ false) (cancel_waiting which queue).0
unfolding cancel_waiting
cancel_waiting-none_left which [] = tt
cancel_waiting-none_left which (entry ∷ queue) = elim (Bool-cases (is_hit which entry)) [
  | inl hit ↦ simp hit (and_false (which (cancel entry)), cancel_waiting-none_left which queue)
  | inr missed ↦ simp missed (refl, cancel_waiting-none_left which queue)
]

picks-cancelled :
    (which : QueueEntry → Bool) (phase : Phase)
    → picks_running which (current (with_current cancel phase)) ≡ false
picks-cancelled which (running_zones entry zones) = and_false (which (cancel entry))
picks-cancelled which (float_wait entry zones) = and_false (which (cancel entry))
picks-cancelled which (returned entry) = and_false (which (cancel entry))
picks-cancelled which (completing entry) = and_false (which (cancel entry))
picks-cancelled which (raised entry) = and_false (which (cancel entry))
picks-cancelled which (failing entry) = and_false (which (cancel entry))
picks-cancelled which (settled entry) = and_false (which (cancel entry))
picks-cancelled which _ = refl

cancel_picked-exact :
    (which : QueueEntry → Bool) (gq : GroupQueue)
    → let (gq', n) = cancel_picked which gq in
      (n ≡ hits which gq) × NoHits which gq' × (gq'.queue ≡ map (hit_one which) gq.queue)
unfolding cancel_picked
cancel_picked-exact which gq =
    let (mapped, counted) = cancel_waiting-map which gq.queue in
    let none_left = cancel_waiting-none_left which gq.queue in
    elim (Bool-cases (picks_running which (current gq.phase))) [
      | inl t ↦ rw t (omega (arith, counted), (none_left, picks-cancelled which gq.phase), mapped)
      | inr f ↦ rw f (omega (arith, counted), (none_left, f), mapped)
    ]

-- What a cancellation of the program may have done to the queue of a group.
abbrev pub IsCancelledIn : ℕ → ℕ × GroupQueue → ℕ × GroupQueue → Type 0
IsCancelledIn program_id (g, gq) (g', gq') =
    (g' ≡ g)
    × NoHits (of_program program_id) gq'
    × (gq'.queue ≡ map (hit_one (of_program program_id)) gq.queue)

abbrev pub Pairwise {ℓ} : {A : Type ℓ} → (A → A → Type 0) → List A → List A → Type 0
Pairwise R [] [] = Unit
Pairwise R [] (y ∷ ys) = ⊥
Pairwise R (x ∷ xs) [] = ⊥
Pairwise R (x ∷ xs) (y ∷ ys) = R x y × Pairwise R xs ys

cancel_program_in-exact :
    (program_id : ℕ) (queues : Queues)
    → ((cancel_program_in program_id queues).1 ≡ all_hits program_id queues)
      × Pairwise (IsCancelledIn program_id) queues (cancel_program_in program_id queues).0
unfolding cancel_program_in cancel_program
cancel_program_in-exact program_id [] = (refl, tt)
cancel_program_in-exact program_id ((g, gq) ∷ queues) =
    let (n, clear, mapped) = cancel_picked-exact (of_program program_id) gq in
    let (n', rest) = cancel_program_in-exact program_id queues in
    (omega (arith, n, n'), ((refl, clear, mapped), rest))

-- `cancel_program` returns how many entries of the program waited in a queue or ran as the
-- current entry of a group; afterwards there are none, and in every queue each other entry is
-- as it was and where it was.
cancel_program_of-exact :
    (program_id : ℕ) (m : Manager)
    → let (m', n) = cancel_program_of program_id m in
      (n ≡ all_hits program_id m.queues) × Pairwise (IsCancelledIn program_id) m.queues m'.queues
unfolding cancel_program_of
cancel_program_of-exact program_id m = cancel_program_in-exact program_id m.queues
