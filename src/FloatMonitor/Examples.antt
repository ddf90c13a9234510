-- ===== src/FloatMonitor/Examples.antt =====
-- Tests of the float monitor, and its theorems at concrete inputs.
use Prim.Native.String.{String}
use irrigation.Base.{
  keep_if, ℕ, ◌+◌, ◌*◌, ◌≡◌, refl, Bool, true, false, List, [], ◌∷◌, ◌++◌, some, arith, length, leb,
  All, if◌then◌else◌,
}
use irrigation.FloatMonitor.{
  GroupState, new_state, Moment, cancels_group, logs_timeout, on_level_low, debounce,
}
use irrigation.FloatMonitor.Monitor.{
  no, nc, Config, Monitor, new_monitor, times_out, check_timeouts, is_paused, on_float_message,
  get_resume_event,
}
use irrigation.FloatMonitor.Subscriptions.{start}
use irrigation.FloatMonitor.Events.{Event, receives, checks, asks_resume, reloads, starts, run}
use irrigation.FloatMonitor.Pausing.{IsSound}
use irrigation.FloatMonitor.Invariant.{run-IsSound}
use irrigation.FloatMonitor.Latch.{IsStopped, run-IsStopped}
use irrigation.FloatMonitor.Trips.{on_level_low-times_out}
use irrigation.FloatMonitor.Debouncing.{Report, reported, stretch, IsDebounced, debounce-stable}
use irrigation.FloatMonitor.Zones.{on, other, Zone}
use irrigation.FloatMonitor.Waiting.{Turn, timed_out, wait_for_resume_or_cancel}

abbrev client : ℕ → Bool
client server_id = true

abbrev topic_of : ℕ → String
topic_of group_id = "tripped"

-- A group whose sensor opens when the tank is empty, and one whose sensor closes then.
abbrev tank : Config
tank = record {
  id = 1;
  float_enabled = true;
  topic = "tank";
  server_id = some 3;
  float_mode = no;
  timeout_minutes = 10;
  debounce_seconds = 5;
}

abbrev pit : Config
pit = record tank { id = 2; topic = "pit"; float_mode = nc; debounce_seconds = 0 }

abbrev second : ℕ → Moment
second s = record { now = s * 1000; wall = "noon"; active_zones = 11 ∷ 12 ∷ [] }

-- The tank runs dry and fills again; the pit runs dry and stays so.
abbrev day : List Event
day =
    starts (tank ∷ pit ∷ [])
    ∷ receives 1 "off" (second 10)
    ∷ receives 2 "true" (second 11)
    ∷ receives 1 "0" (second 15)
    ∷ asks_resume 1
    ∷ receives 1 "on" (second 20)
    ∷ receives 1 "on" (second 25)
    ∷ checks (700 * 1000)
    ∷ receives 2 "false" (second 701)
    ∷ []

abbrev evening : Monitor
evening = run client topic_of day new_monitor

tank_flows : is_paused 1 evening ≡ false
unfolding is_paused run new_monitor on_float_message check_timeouts get_resume_event start debounce
    new_state
tank_flows = refl

pit-IsStopped : IsStopped 2 evening
unfolding run new_monitor on_float_message check_timeouts get_resume_event start debounce new_state
pit-IsStopped = refl

check-cancels :
    (check_timeouts
      (700 * 1000)
      (run client topic_of (starts (pit ∷ []) ∷ receives 2 "true" (second 11) ∷ []) new_monitor)).1
    ≡ cancels_group 2 ∷ logs_timeout 2 ∷ []
unfolding run new_monitor on_float_message check_timeouts start debounce new_state
check-cancels = refl

run-IsSound_example : All (λ s. IsSound s.1) evening.states
run-IsSound_example = run-IsSound client topic_of day

abbrev night : List Event
night = receives 2 "0" (second 800) ∷ reloads 2 (some pit) ∷ checks 900000 ∷ starts [] ∷ []

run-IsStopped_example : IsStopped 2 (run client topic_of night evening)
run-IsStopped_example = run-IsStopped client topic_of 2 night evening (omega arith) pit-IsStopped

abbrev dry : GroupState
dry = record (new_state 1) { debounce_seconds = 0; trip_times = 1000 ∷ 250000 ∷ [] }

abbrev is_dry_later : GroupState
is_dry_later = (on_level_low (second 400) dry).0

on_level_low-times_out_example :
    (is_dry_later.paused ≡ true)
    × (is_dry_later.emergency_stopped
        ≡ leb 2 (length (keep_if (λ t. leb 400000 (t + 300000)) (1000 ∷ 250000 ∷ []))))
    × (is_dry_later.emergency_stopped ≡ false
        → times_out 2200000 is_dry_later ≡ leb (400000 + 30 * 60000) 2200000)
unfolding new_state
on_level_low-times_out_example = on_level_low-times_out (second 400) dry 2200000 refl

-- A level that flickers and then is low for five seconds.
abbrev report : Bool → ℕ → Report
report level s = record { level = level; at = second s }

abbrev flicker : List Report
flicker = report true 1 ∷ report false 3 ∷ report false 6 ∷ []

debounce-stable_example :
    IsDebounced 5
      (stretch (false, 0) (flicker ++ report false 8 ∷ []))
      (report false 8)
      (reported (report false 0 ∷ flicker) (new_state 1))
      (debounce false (second 8) (reported (report false 0 ∷ flicker) (new_state 1))).0
unfolding new_state
debounce-stable_example =
    debounce-stable (report false 0) flicker (report false 8) (new_state 1) (omega arith) refl
      (omega arith)

abbrev zone : ℕ → ℕ → Zone
zone id group_id = record {
  id = id;
  group_id = group_id;
  state = if leb id 12 then on else other;
  duration = some 15;
  paused_by_float = false;
  pause_remaining_seconds = 0;
}

abbrev zones : List Zone
zones = zone 11 1 ∷ zone 12 2 ∷ zone 13 1 ∷ []

abbrev turn : ℕ → Turn
turn s = record { now = s * 1000; resume = false; cancel = false; shutdown = false }

-- Nobody ends the wait, and it is over after two seconds.
waited : wait_for_resume_or_cancel 5000 2 (turn 5 ∷ turn 6 ∷ turn 7 ∷ []) ≡ some timed_out
unfolding wait_for_resume_or_cancel
waited = refl
