-- ===== src/FloatMonitor.antt =====
-- services/float_monitor.py: the water level of a group's tank, which pauses and stops its queue.
-- Clock readings are milliseconds; debounce times are seconds and timeouts minutes, as configured.
-- The level that the sensor reports and the answer of the database, the list of the zones that it
-- marked as paused, are arguments; log lines and Telegram notices are left out.
pub mod Monitor
pub mod Subscriptions
pub mod Events
pub mod Pausing
pub mod Invariant
pub mod Latch
pub mod Trips
pub mod Debouncing
pub mod View
pub mod Zones
pub mod Examples
pub mod Waiting
use Prim.Native.String.{String}
use irrigation.Base.{
  ℕ, ◌+◌, ◌*◌, Bool, true, false, not, ◌&&◌, ◌||◌, List, [], ◌∷◌, ◌++◌, Option, none, some, length,
  keep_if, leb, nat_beq, if◌then◌else◌,
}

-- `_GroupState`; a reading of the wall clock is a string.
pub record GroupState : Type 0 where
  pub group_id : ℕ
  pub level_ok : Bool
  pub paused : Bool
  pub paused_since : Option String
  pub paused_since_mono : Option ℕ
  pub timeout_at : Option ℕ
  pub timeout_minutes : ℕ
  pub paused_zones : List ℕ
  pub resume_event : Bool
  pub emergency_stopped : Bool
  pub debounce_seconds : ℕ
  pub pending_level_ok : Option Bool
  pub pending_since : Option ℕ
  pub confirmed_level_ok : Bool
  pub trip_times : List ℕ
  pub last_resume_at : Option ℕ

unfoldable pub new_state : ℕ → GroupState
new_state group_id = record {
  group_id = group_id;
  level_ok = true;
  paused = false;
  paused_since = none;
  paused_since_mono = none;
  timeout_at = none;
  timeout_minutes = 30;
  paused_zones = [];
  resume_event = false;
  emergency_stopped = false;
  debounce_seconds = 5;
  pending_level_ok = none;
  pending_since = none;
  confirmed_level_ok = true;
  trip_times = [];
  last_resume_at = none;
}

abbrev pub max_trips : ℕ
max_trips = 3

-- FLOAT_TRIP_WINDOW, in milliseconds.
abbrev pub trip_window : ℕ
trip_window = 300 * 1000

-- What the monitor makes others do.
pub data Action : Type 0 where
  -- `queue_manager.cancel_group`
  cancels_group : ℕ → Action
  logs_pause logs_resume : ℕ → List ℕ → Action
  logs_timeout : ℕ → Action

-- A reading of both clocks, with the zones that the database would mark as paused now.
pub record Moment : Type 0 where
  pub now : ℕ
  pub wall : String
  pub active_zones : List ℕ

-- The trips of the last 300 s, this one included.
abbrev pub trips_at : (now : ℕ) → List ℕ → List ℕ
trips_at now trip_times = keep_if (λ t. leb now (t + trip_window)) (trip_times ++ now ∷ [])

unfoldable pub emergency_stop : Moment → GroupState → GroupState × List Action
emergency_stop at gs = (
  record gs {
    emergency_stopped = true;
    paused = true;
    paused_since = some at.wall;
    paused_since_mono = some at.now;
    resume_event = false;
  },
  cancels_group gs.group_id ∷ [],
)

unfoldable pub pause : Moment → GroupState → GroupState × List Action
pause at gs = (
  record gs {
    paused = true;
    paused_since = some at.wall;
    paused_since_mono = some at.now;
    timeout_at = some (at.now + gs.timeout_minutes * 60 * 1000);
    resume_event = false;
    paused_zones = at.active_zones;
  },
  logs_pause gs.group_id at.active_zones ∷ [],
)

-- `_on_level_low`
unfoldable pub on_level_low : Moment → GroupState → GroupState × List Action
unfolding emergency_stop pause
on_level_low at gs =
    let trips = trips_at at.now gs.trip_times in
    let tripped = record gs { trip_times = trips } in
    if gs.emergency_stopped
    then (gs, [])
    else (if leb max_trips (length trips) then emergency_stop at tripped else pause at tripped)

-- `_on_level_restored`
unfoldable pub on_level_restored : Moment → GroupState → GroupState × List Action
on_level_restored at gs = if gs.emergency_stopped || not gs.paused then (gs, []) else (
  record gs {
    last_resume_at = some at.now;
    paused = false;
    timeout_at = none;
    resume_event = true;
    paused_zones = [];
  },
  logs_resume gs.group_id gs.paused_zones ∷ [],
)

-- `_apply_level`
unfoldable pub apply_level : Bool → Moment → GroupState → GroupState × List Action
unfolding on_level_low on_level_restored
apply_level true at gs = on_level_restored at (record gs { level_ok = true })
apply_level false at gs = on_level_low at (record gs { level_ok = false })

abbrev pub clear_pending : GroupState → GroupState
clear_pending gs = record gs { pending_level_ok = none; pending_since = none }

abbrev pub bool_beq : Bool → Bool → Bool
bool_beq true b = b
bool_beq false b = not b

-- `now - pending_since >= debounce_sec`, if the same level is pending.
abbrev pub is_stable : (now : ℕ) → GroupState → Bool
is_stable now gs = elim gs.pending_since [
  | none ↦ false
  | some since ↦ leb (since + gs.debounce_seconds * 1000) now
]

-- Is this level the one that is pending?
abbrev pub is_pending : Bool → Option Bool → Bool
is_pending level none = false
is_pending level (some pending) = bool_beq pending level

-- The end of `_on_float_message`, from the level that the message means.
unfoldable pub debounce : Bool → Moment → GroupState → GroupState × List Action
unfolding apply_level
debounce level at gs =
    let (applied, actions) = apply_level level at gs in
    if nat_beq gs.debounce_seconds 0
    then (applied, actions)
    else (if not (is_pending level gs.pending_level_ok)
        then (record gs { pending_level_ok = some level; pending_since = some at.now }, [])
        else (if is_stable at.now gs then (clear_pending applied, actions) else (gs, [])))
