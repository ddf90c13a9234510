-- ===== src/FloatMonitor/View.antt =====
-- `get_state` and `get_all_states` of services/float_monitor.py: what the clients are told.
use Prim.Native.String.{String}
use irrigation.Base.{
  ℕ, Bool, true, false, List, [], map, Option, none, some, length, ltb, if◌then◌else◌, nat_eq,
}
use irrigation.Base.Maps.{lookup}
use irrigation.FloatMonitor.{GroupState}
use irrigation.FloatMonitor.Monitor.{Monitor}

pub record FloatState : Type 0 where
  pub group_id : ℕ
  pub level_ok : Bool
  pub paused : Bool
  pub paused_since : Option String
  pub timeout_at : Option String
  pub paused_zones : List ℕ
  pub trip_count : ℕ
  pub emergency_stopped : Bool

-- A timeout that is still to come is shown as the time of the call.
abbrev pub timeout_str : (now : ℕ) (wall : String) → Option ℕ → Option String
timeout_str now wall none = none
timeout_str now wall (some timeout_at) = if ltb now timeout_at then some wall else none

unfoldable pub state_of : (group_id now : ℕ) (wall : String) → Option GroupState → FloatState
state_of group_id now wall none = record {
  group_id = group_id;
  level_ok = true;
  paused = false;
  paused_since = none;
  timeout_at = none;
  paused_zones = [];
  trip_count = 0;
  emergency_stopped = false;
}
state_of group_id now wall (some gs) = record {
  group_id = group_id;
  level_ok = gs.level_ok;
  paused = gs.paused;
  paused_since = gs.paused_since;
  timeout_at = timeout_str now wall gs.timeout_at;
  paused_zones = gs.paused_zones;
  trip_count = length gs.trip_times;
  emergency_stopped = gs.emergency_stopped;
}

unfoldable pub get_state : (group_id now : ℕ) (wall : String) → Monitor → FloatState
unfolding state_of
get_state group_id now wall m = state_of group_id now wall (lookup group_id m.states)

unfoldable pub get_all_states : (now : ℕ) (wall : String) → Monitor → List (ℕ × FloatState)
unfolding get_state
get_all_states now wall m = map (λ s. (s.0, get_state s.0 now wall m)) m.states
