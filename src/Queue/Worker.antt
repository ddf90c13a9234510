-- ===== src/Queue/Worker.antt =====
-- `_worker` and `_run_entry` of services/program_queue.py, one step for each stretch between two
-- points where another thread can get in: taking the lock, and testing or writing an entry's state.
use Prim.Native.String.{String}
use irrigation.Base.{
  ℕ, ◌+◌, ◌*◌, Bool, true, false, ◌&&◌, ◌||◌, List, [], ◌∷◌, ◌++◌, map, ltb, if◌then◌else◌,
}
use irrigation.Queue.{
  EntryState, running, completed, cancelled, expired, failed, is_waiting, is_running, is_cancelled,
  QueueEntry, Phase, absent, looping, taking, idle, holding, running_zones, float_wait, returned,
  completing, raised, failing, settled, draining, leaving, GroupQueue,
}

-- What a worker sees of the world in a step: the clock, the manager's shutdown event, and the
-- answer of the float monitor, if there is one.
pub data FloatAnswer : Type 0 where
  no_monitor flows pauses raises : FloatAnswer

pub record World : Type 0 where
  pub now : ℕ
  pub shutdown : Bool
  pub float : FloatAnswer

-- A zone of an entry for which the worker has passed the tests for the cancel, the shutdown and the
-- float. What comes after them and before the next zone, the weather coefficient and the debug line
-- that stands for the start, touches no state and is no step; a call that gets in between is too late
-- to keep this zone from its start.
abbrev pub ZoneStart : Type 0
ZoneStart = String × ℕ

abbrev pub with_state : EntryState → QueueEntry → QueueEntry
with_state state entry = record entry { state = state }

abbrev retire : List QueueEntry → GroupQueue → GroupQueue
retire entries gq = record gq { retired = gq.retired ++ entries }

-- The cancelled entries at the head, and the rest.
unfoldable pub skip_cancelled : List QueueEntry → List QueueEntry × List QueueEntry
skip_cancelled [] = ([], [])
skip_cancelled (entry ∷ queue) =
    let (skipped, rest) = skip_cancelled queue in
    if is_cancelled entry.state then (entry ∷ skipped, rest) else ([], entry ∷ queue)

unfoldable pub pop : List QueueEntry → GroupQueue → GroupQueue
pop [] gq = record gq { queue = []; new_item_event = false; phase = idle }
pop (entry ∷ queue) gq = record gq { queue = queue; phase = holding entry }

unfoldable pub take : GroupQueue → GroupQueue
unfolding skip_cancelled pop
take gq = let (skipped, rest) = skip_cancelled gq.queue in pop rest (retire skipped gq)

-- After the wait for new items.
unfoldable pub wake : List QueueEntry → GroupQueue → GroupQueue
wake [] gq = record gq { phase = leaving }
wake (entry ∷ queue) gq = record gq { new_item_event = false; phase = looping }

-- `effective_wait > max_wait_minutes * 60`
abbrev pub waited_too_long : (max_wait_minutes now : ℕ) → QueueEntry → Bool
waited_too_long max_wait_minutes now entry =
    ltb 0 max_wait_minutes
    && is_waiting entry.state
    && ltb (max_wait_minutes * 60 * 1000 + entry.excluded_wait + entry.enqueued_at) now

-- From the expiry check to the assignment of `gq.current`.
unfoldable pub begin : (max_wait_minutes now : ℕ) → QueueEntry → GroupQueue → GroupQueue
begin max_wait_minutes now entry gq =
    if waited_too_long max_wait_minutes now entry
    then retire (with_state expired entry ∷ []) (record gq { phase = looping })
    else (if is_cancelled entry.state
        then retire (entry ∷ []) (record gq { phase = looping })
        else record gq { phase = running_zones (with_state running entry) entry.zone_ids })

abbrev pub stopping : World → QueueEntry → Bool
stopping w entry = entry.cancel_event || w.shutdown

-- `is_paused()` and what follows it, before the zone at hand.
unfoldable pub ask_float :
    World → QueueEntry → (zone : ℕ) (zones : List ℕ) → FloatAnswer → Phase × List ZoneStart
ask_float w entry zone zones no_monitor = (running_zones entry zones, (entry.entry_id, zone) ∷ [])
ask_float w entry zone zones flows = (running_zones entry zones, (entry.entry_id, zone) ∷ [])
ask_float w entry zone zones pauses =
    (if stopping w entry then returned entry else float_wait entry (zone ∷ zones), [])
ask_float w entry zone zones raises = (raised entry, [])

-- One turn of the loop over the zones.
unfoldable pub run_zone : World → QueueEntry → List ℕ → Phase × List ZoneStart
unfolding ask_float
run_zone w entry [] = (returned entry, [])
run_zone w entry (zone ∷ zones) =
    if stopping w entry then (returned entry, []) else ask_float w entry zone zones w.float

-- The poll of the float is over.
unfoldable pub poll_float : World → QueueEntry → List ℕ → Phase × List ZoneStart
unfolding ask_float
poll_float w entry [] = (returned entry, [])
poll_float w entry (zone ∷ zones) =
    if entry.cancel_event then (returned entry, []) else ask_float w entry zone zones w.float

abbrev pub ended : EntryState → Bool
ended cancelled = true
ended completed = true
ended _ = false

-- What the drain behind the loop does to an entry.
abbrev pub drop : QueueEntry → QueueEntry
drop entry = if is_waiting entry.state then with_state cancelled entry else entry

unfoldable pub work_at :
    (max_wait_minutes : ℕ) → World → Phase → GroupQueue → GroupQueue × List ZoneStart
unfolding take wake begin run_zone poll_float
work_at max_wait w absent gq = (gq, [])
work_at max_wait w looping gq =
    (record gq { phase = if w.shutdown || gq.cancel_event then draining else taking }, [])
work_at max_wait w taking gq = (take gq, [])
work_at max_wait w idle gq = (wake gq.queue gq, [])
work_at max_wait w (holding entry) gq = (begin max_wait w.now entry gq, [])
work_at max_wait w (running_zones entry zones) gq =
    let (phase, starts) = run_zone w entry zones in (record gq { phase = phase }, starts)
work_at max_wait w (float_wait entry zones) gq =
    let (phase, starts) = poll_float w entry zones in (record gq { phase = phase }, starts)
work_at max_wait w (returned entry) gq =
    (record gq { phase = if is_running entry.state then completing entry else settled entry }, [])
work_at max_wait w (completing entry) gq =
    (record gq { phase = settled (with_state completed entry) }, [])
work_at max_wait w (raised entry) gq =
    (record gq { phase = if ended entry.state then settled entry else failing entry }, [])
work_at max_wait w (failing entry) gq =
    (record gq { phase = settled (with_state failed entry) }, [])
work_at max_wait w (settled entry) gq = (retire (entry ∷ []) (record gq { phase = looping }), [])
work_at max_wait w draining gq =
    (retire (map drop gq.queue) (record gq { queue = []; phase = leaving }), [])
work_at max_wait w leaving gq = (record gq { phase = absent }, [])

-- One step of the group's worker.
unfoldable pub work : (max_wait_minutes : ℕ) → World → GroupQueue → GroupQueue × List ZoneStart
unfolding work_at
work max_wait w gq = work_at max_wait w gq.phase gq
