-- ===== src/ZoneControl.antt =====
-- services/zone_control.py and services/zones_state.py: the rows of the database that they work on,
-- and the one way in which a zone's state is written.
-- Every call of the database is taken to succeed. Readings of the wall clock are seconds, and those of
-- the monotonic clock milliseconds.
pub mod Duration
pub mod Verify
pub mod Verified
pub mod Master
pub mod Start
pub mod Stop
pub mod Emergency
pub mod Quiet
pub mod Steps
pub mod Calls
pub mod Peers
pub mod Exclusive
pub mod Resting
pub mod Stopping
pub mod Again
pub mod Halting
pub mod Trace
pub mod Closing
pub mod Valves
pub mod Sent
pub mod Examples
pub mod Audit
use Prim.Native.String.{String}
use irrigation.Base.{
  ℕ, ◌+◌, Bool, true, false, not, ◌&&◌, ◌||◌, List, [], ◌∷◌, ◌++◌, Option, none, some, keep_if,
  if◌then◌else◌, ◌==◌, nat_eq, list_eq,
}
use irrigation.Base.Maps.{lookup, insert}
use irrigation.Topics.{Topic, lstrip, rstrip, normalize_topic}

pub data ZoneState : Type 0 where
  off starting on stopping fault paused other : ZoneState

pub data Command : Type 0 where
  to_on to_off : Command

-- The litres of a run over its milliseconds; the code rounds litres per minute to hundredths.
pub record Flow : Type 0 where
  pub liters : ℕ
  pub duration : ℕ

-- The end of a postponement; a text that is no date is unreadable.
pub data Postpone : Type 0 where
  until : (time : ℕ) → Postpone
  unreadable : Postpone

-- A row of `zones`; a server or a group of 0 is none. A missing duration is 0.
pub record Zone : Type 0 where
  pub group_id : ℕ
  pub state : ZoneState
  pub commanded_state : Option Command
  pub version : ℕ
  pub topic : Topic
  pub mqtt_server_id : ℕ
  pub watering_start_time : Option ℕ
  pub planned_end_time : Option ℕ
  pub last_avg_flow : Option Flow
  pub last_total_liters : Option ℕ
  pub fault_count : ℕ
  pub duration : ℕ
  pub postpone_until : Option Postpone

-- What is known of a master valve.
pub data Valve : Type 0 where
  opened closed : Valve

pub record Group : Type 0 where
  pub use_master_valve : Bool
  pub master_mqtt_topic : Topic
  pub master_mqtt_server_id : ℕ
  -- `master_mode` is "NO"; else it counts as "NC".
  pub normally_open : Bool
  pub master_close_delay_sec : Option ℕ
  pub use_water_meter : Bool
  pub pulse_liters : ℕ
  pub master_valve_observed : Option Valve

-- A run that has ended counts as ok only if the relay was seen to be on.
pub data RunStatus : Type 0 where
  open_run ok failed : RunStatus

-- A row of `zone_runs`; an open one has no end.
pub record Run : Type 0 where
  pub zone_id : ℕ
  pub group_id : ℕ
  pub start_utc : ℕ
  pub start_monotonic : ℕ
  pub start_raw_pulses : Option ℕ
  pub pulse_liters_at_start : ℕ
  pub source : String
  pub end_utc : Option ℕ
  pub confirmed : Bool
  pub status : RunStatus
  pub end_raw_pulses : Option ℕ
  pub total_liters : Option ℕ
  pub avg_flow : Option Flow

-- A call of `publish_mqtt_value` with the value "1" or "0".
pub record Publish : Type 0 where
  pub server : ℕ
  pub topic : Topic
  pub value : Bool

-- A `zone_state_change` of the audit log.
pub record Change : Type 0 where
  pub zone_id : ℕ
  pub before : Option ZoneState
  pub after : ZoneState
  pub reason : String

pub record Timer : Type 0 where
  pub group_id : ℕ
  pub group : Group
  pub due : ℕ

pub record System : Type 0 where
  pub zones : List (ℕ × Zone)
  pub groups : List (ℕ × Group)
  -- Newest first.
  pub runs : List Run
  -- Oldest first.
  pub published : List Publish
  pub audit : List Change
  -- The timers of `_PENDING_CLOSE_TIMERS` that have not run yet, by the normal form of the topic of
  -- the master valve. Those that have stay in the dictionary, where a cancel does nothing to them.
  pub timers : List (Topic × Timer)

-- What the rest of the world answers during one call: the clocks, which MQTT servers are known,
-- which publishes are acknowledged, and what the water monitor says of a group.
pub record World : Type 0 where
  pub time : ℕ
  pub now : ℕ
  pub knows_server : ℕ → Bool
  pub acknowledges : Publish → Bool
  pub pulses_at_start : ℕ → Option ℕ
  pub pulses_at_end : ℕ → Option ℕ
  pub summarize : ℕ → Option ℕ → Option ℕ × Option Flow

abbrev pub is_active : ZoneState → Bool
is_active on = true
is_active starting = true
is_active _ = false

abbrev pub is_stopped : ZoneState → Bool
is_stopped off = true
is_stopped stopping = true
is_stopped _ = false

abbrev pub is_off : ZoneState → Bool
is_off off = true
is_off _ = false

abbrev pub same_state : ZoneState → ZoneState → Bool
same_state off s = is_off s
same_state on on = true
same_state starting starting = true
same_state stopping stopping = true
same_state fault fault = true
same_state paused paused = true
same_state other other = true
same_state _ _ = false

-- The fields that an update of the state writes; `none` leaves a field alone.
pub record Update : Type 0 where
  pub state : ZoneState
  pub commanded_state : Option Command
  pub watering_start_time : Option (Option ℕ)
  pub planned_end_time : Option (Option ℕ)
  pub fault_count : Option ℕ

abbrev pub or_keep {ℓ} : {A : Type ℓ} → A → Option A → A
or_keep a none = a
or_keep a (some b) = b

abbrev pub or_keep_some {ℓ} : {A : Type ℓ} → Option A → Option A → Option A
or_keep_some a none = a
or_keep_some a (some b) = some b

abbrev pub apply_update : Update → Zone → Zone
apply_update u z = record z {
  state = u.state;
  commanded_state = or_keep_some z.commanded_state u.commanded_state;
  watering_start_time = or_keep z.watering_start_time u.watering_start_time;
  planned_end_time = or_keep z.planned_end_time u.planned_end_time;
  fault_count = or_keep z.fault_count u.fault_count;
  version = z.version + 1;
}

-- A change of the state is recorded, also one of a zone that is not there.
abbrev pub record_change : ℕ → Option ZoneState → Update → String → List Change → List Change
record_change id before u reason audit =
    audit ++ record { zone_id = id; before = before; after = u.state; reason = reason } ∷ []

-- `update_zone_state`, with `update_zone_versioned` of db/zones.py, which fails only for a zone that
-- is not there.
unfoldable pub update_zone_state : ℕ → Update → (reason : String) → System → System
update_zone_state id u reason s = elim (lookup id s.zones) [
  | none ↦ record s { audit = record_change id none u reason s.audit }
  | some z ↦ record s {
    zones = insert id (apply_update u z) s.zones;
    audit =
        if same_state z.state u.state
        then s.audit
        else record_change id (some z.state) u reason s.audit;
  }
]

abbrev pub strip : Topic → Topic
strip topic = rstrip (lstrip topic)

abbrev pub is_blank : Topic → Bool
is_blank [] = true
is_blank (c ∷ s) = false

-- The groups that have a water meter and a master valve: 999 is the group of zones without one.
abbrev pub is_group : ℕ → Bool
is_group gid = not (gid == 0) && not (gid == 999)

abbrev pub in_group : ℕ → Option Zone → Bool
in_group gid none = false
in_group gid (some z) = z.group_id == gid

-- `get_zones_by_group`: the identifiers.
abbrev pub keys {ℓ κ} : {K : Type ℓ} {V : Type κ} → List (K × V) → List K
keys [] = []
keys ((k, v) ∷ m) = k ∷ keys m

unfoldable pub zones_by_group : ℕ → System → List ℕ
zones_by_group gid s = keep_if (λ id. in_group gid (lookup id s.zones)) (keys s.zones)

-- Publishes if the relay has a topic and its server is known.
abbrev pub reaches : World → Topic → (server : ℕ) → Bool
reaches w topic server = not (is_blank (strip topic)) && not (server == 0) && w.knows_server server

abbrev pub publish : Publish → System → System
publish p s = record s { published = s.published ++ p ∷ [] }

abbrev pub relay_publish : Zone → (value : Bool) → Publish
relay_publish z value = record {
  server = z.mqtt_server_id;
  topic = normalize_topic (strip z.topic);
  value = value;
}
