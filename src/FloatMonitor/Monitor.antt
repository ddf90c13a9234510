-- ===== src/FloatMonitor/Monitor.antt =====
-- `FloatMonitor` of services/float_monitor.py: the states of all groups, their subscriptions, and
-- the wait of a worker. The MQTT clients are outside: which servers have one is an argument.
use Prim.Native.String.{String}
use irrigation.Base.{
  ℕ, Bool, true, false, not, ◌&&◌, List, [], ◌∷◌, Option, none, some, leb, if◌then◌else◌, nat_eq,
  string_eq, contains,
}
use irrigation.Base.Maps.{lookup, insert}
use irrigation.FloatMonitor.{
  GroupState, new_state, Moment, Action, cancels_group, logs_timeout, debounce,
}

-- `float_mode`: normally open, or normally closed.
pub data Mode : Type 0 where
  no nc : Mode

-- A row of `groups`. `topic` is stripped, and empty if there is none.
pub record Config : Type 0 where
  pub id : ℕ
  pub float_enabled : Bool
  pub topic : String
  pub server_id : Option ℕ
  pub float_mode : Mode
  pub timeout_minutes : ℕ
  pub debounce_seconds : ℕ

pub record Subscription : Type 0 where
  pub topic : String
  pub server_id : ℕ
  pub float_mode : Mode
  pub timeout_minutes : ℕ
  pub debounce_seconds : ℕ
  pub tripped_topic : String

pub record Monitor : Type 0 where
  pub states : List (ℕ × GroupState)
  pub subscriptions : List (ℕ × Subscription)
  pub topic_to_group : List (String × ℕ)
  pub started : Bool
  -- The servers whose `on_connect` is the monitor's.
  pub hooked : List ℕ

unfoldable pub new_monitor : Monitor
new_monitor = record {
  states = [];
  subscriptions = [];
  topic_to_group = [];
  started = false;
  hooked = [];
}

-- A payload after `str(payload).strip().lower()`.
abbrev pub parse_payload : String → Option Bool
parse_payload payload =
    if contains ("1" ∷ "true" ∷ "on" ∷ []) payload
    then some true
    else (if contains ("0" ∷ "false" ∷ "off" ∷ []) payload then some false else none)

abbrev pub mode_of : Option Subscription → Mode
mode_of none = no
mode_of (some sub) = sub.float_mode

abbrev pub level_of : Mode → Bool → Bool
level_of no raw = raw
level_of nc raw = not raw

unfoldable pub handle_level :
    ℕ → Bool → Moment → Option GroupState → Monitor → Monitor × List Action
handle_level group_id raw at none m = (m, [])
handle_level group_id raw at (some gs) m =
    let level = level_of (mode_of (lookup group_id m.subscriptions)) raw in
    let (gs', actions) = debounce level at gs in
    (record m { states = insert group_id gs' m.states }, actions)

-- `_on_float_message`
unfoldable pub on_float_message : ℕ → (payload : String) → Moment → Monitor → Monitor × List Action
unfolding handle_level
on_float_message group_id payload at m = elim (parse_payload payload) [
  | none ↦ (m, [])
  | some raw ↦ handle_level group_id raw at (lookup group_id m.states) m
]

abbrev pub is_due : (now : ℕ) → Option ℕ → Bool
is_due now none = false
is_due now (some timeout_at) = leb timeout_at now

abbrev pub times_out : (now : ℕ) → GroupState → Bool
times_out now gs = gs.paused && is_due now gs.timeout_at

unfoldable pub time_out : GroupState → GroupState
time_out gs = record gs { timeout_at = none; emergency_stopped = true }

-- The part of `_check_timeouts` under the lock: the new states, and the groups that timed out.
unfoldable pub check_states : (now : ℕ) → List (ℕ × GroupState) → List (ℕ × GroupState) × List ℕ
unfolding time_out
check_states now [] = ([], [])
check_states now ((group_id, gs) ∷ states) =
    let (states', timed_out) = check_states now states in
    if times_out now gs
    then ((group_id, time_out gs) ∷ states', group_id ∷ timed_out)
    else ((group_id, gs) ∷ states', timed_out)

abbrev pub timeout_actions : List ℕ → List Action
timeout_actions [] = []
timeout_actions (group_id ∷ timed_out) =
    cancels_group group_id ∷ logs_timeout group_id ∷ timeout_actions timed_out

-- `_check_timeouts`
unfoldable pub check_timeouts : (now : ℕ) → Monitor → Monitor × List Action
unfolding check_states
check_timeouts now m =
    let (states, timed_out) = check_states now m.states in
    (record m { states = states }, timeout_actions timed_out)

abbrev pub paused_of : Option GroupState → Bool
paused_of none = false
paused_of (some gs) = gs.paused

unfoldable pub is_paused : ℕ → Monitor → Bool
is_paused group_id m = paused_of (lookup group_id m.states)

-- `get_resume_event`: whether the event is set. An unknown group gets a state.
unfoldable pub get_resume_event : ℕ → Monitor → Bool × Monitor
get_resume_event group_id m = elim (lookup group_id m.states) [
  | none ↦ (false, record m { states = insert group_id (new_state group_id) m.states })
  | some gs ↦ (gs.resume_event, m)
]
