-- ===== src/Queue/Lifecycle/States.antt =====
-- The states that an entry can have in the queue, in the worker's hand and after.
use Prim.Native.String.{String}
use irrigation.Base.{
  ◌≡◌, refl, ◌⊎◌, inl, inr, Bool, true, false, List, [], ◌∷◌, map, some, arith, Option-cases, All,
  string_eq,
}
use irrigation.Queue.{
  EntryState, waiting, running, completed, cancelled, expired, failed, QueueEntry, Phase, absent,
  looping, taking, idle, holding, running_zones, float_wait, returned, completing, raised, failing,
  settled, draining, leaving, GroupQueue, cancel, cancel_first, cancel_waiting, signal,
  with_current,
}
use irrigation.Queue.Worker.{drop}

abbrev pub is_terminal : EntryState → Bool
is_terminal completed = true
is_terminal cancelled = true
is_terminal expired = true
is_terminal failed = true
is_terminal waiting = false
is_terminal running = false

-- In the queue an entry waits or is cancelled.
abbrev pub IsQueued : QueueEntry → Type 0
IsQueued entry = (entry.state ≡ waiting) ⊎ (entry.state ≡ cancelled)

-- As `gq.current` it runs or is cancelled.
abbrev pub IsActive : QueueEntry → Type 0
IsActive entry = (entry.state ≡ running) ⊎ (entry.state ≡ cancelled)

abbrev pub IsTerminal : QueueEntry → Type 0
IsTerminal entry = is_terminal entry.state ≡ true

abbrev pub HandInv : Phase → Type 0
HandInv (holding entry) = entry.state ≡ waiting
HandInv (running_zones entry zones) = IsActive entry
HandInv (float_wait entry zones) = IsActive entry
HandInv (returned entry) = IsActive entry
HandInv (completing entry) = IsActive entry
HandInv (raised entry) = IsActive entry
HandInv (failing entry) = IsActive entry
HandInv (settled entry) = IsTerminal entry
HandInv absent = Unit
HandInv looping = Unit
HandInv taking = Unit
HandInv idle = Unit
HandInv draining = Unit
HandInv leaving = Unit

pub record Inv (gq : GroupQueue) : Type 0 where
  pub queued : All IsQueued gq.queue
  pub hand : HandInv gq.phase
  pub gone : All IsTerminal gq.retired

pub HandInv-cancel : (phase : Phase) → HandInv phase → HandInv (with_current cancel phase)
HandInv-cancel (settled entry) h = refl
HandInv-cancel (holding entry) h = h
HandInv-cancel (running_zones entry zones) h = inr refl
HandInv-cancel (float_wait entry zones) h = inr refl
HandInv-cancel (returned entry) h = inr refl
HandInv-cancel (completing entry) h = inr refl
HandInv-cancel (raised entry) h = inr refl
HandInv-cancel (failing entry) h = inr refl
HandInv-cancel _ h = tt

pub HandInv-signal : (phase : Phase) → HandInv phase → HandInv (with_current signal phase)
HandInv-signal absent h = h
HandInv-signal _ h = h

pub All-signal : (queue : List QueueEntry) → All IsQueued queue → All IsQueued (map signal queue)
All-signal [] h = tt
All-signal (entry ∷ queue) h = (h.0, All-signal queue h.1)

pub All-drop : (queue : List QueueEntry) → All IsQueued queue → All IsTerminal (map drop queue)
All-drop [] h = tt
All-drop (entry ∷ queue) h = (ground arith, All-drop queue h.1)

pub All-cancel_first :
    (id : String) (queue queue' : List QueueEntry)
    → All IsQueued queue
    → cancel_first id queue ≡ some queue'
    → All IsQueued queue'
unfolding cancel_first
All-cancel_first id [] queue' h e = absurd (cc)
All-cancel_first id (entry ∷ queue) queue' h e = elim (Option-cases (cancel_first id queue)) [
  | inl none_there ↦ ground arith
  | inr (tail, found) ↦ ground (arith, All-cancel_first id queue tail h.1 found)
]

pub All-cancel_waiting :
    (which : QueueEntry → Bool) (queue : List QueueEntry)
    → All IsQueued queue
    → All IsQueued (cancel_waiting which queue).0
unfolding cancel_waiting
All-cancel_waiting which [] h = tt
All-cancel_waiting which (entry ∷ queue) h = ground (arith, All-cancel_waiting which queue h.1)
