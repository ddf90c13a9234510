-- ===== src/RainMonitor.antt =====
-- services/monitors/rain_monitor.py: the rain sensor, which postpones the zones of some groups.
-- The MQTT client is outside. Every call of the database is taken to succeed, and the stops of the
-- groups are a list of requests to the zone control.
pub mod Postponing
pub mod Service
pub mod Saving
pub mod Examples
use Prim.Native.String.{String}
use irrigation.Base.{
  ℕ, Bool, true, false, not, ◌&&◌, ◌||◌, List, [], ◌∷◌, ◌++◌, map, Option, none, some, keep_if,
  contains, if◌then◌else◌, ◌==◌, nat_eq, string_eq,
}

-- A row of `zones`, with a missing group as 0.
pub record Zone : Type 0 where
  pub id : ℕ
  pub group_id : ℕ
  pub postpone_until : Option String
  pub postpone_reason : Option String

pub record Group : Type 0 where
  pub id : ℕ
  pub use_rain : Bool

-- The sensor closes in rain, or opens.
pub data SensorType : Type 0 where
  no nc : SensorType

pub record Monitor : Type 0 where
  pub is_rain : Option Bool
  pub zones : List Zone
  -- The cancelled runs: a program's, on a date, for a group.
  pub cancellations : List (ℕ × String × ℕ)
  -- The groups that the zone control has been told to stop.
  pub stopped : List ℕ

-- Today's date, and the end of today as a time stamp.
pub record Day : Type 0 where
  pub today : String
  pub end_of_day : String

-- The groups that use the sensor; 999 is the group of zones without one.
abbrev pub is_target : Group → Bool
is_target g = g.use_rain && not (g.id == 999)

abbrev pub target_groups : List Group → List ℕ
target_groups groups = map (λ g. g.id) (keep_if is_target groups)

abbrev pub is_targeted : List Group → Zone → Bool
is_targeted groups z = contains (target_groups groups) z.group_id

abbrev pub postpone : String → Zone → Zone
postpone until z = record z { postpone_until = some until; postpone_reason = some "rain" }

abbrev pub resume : Zone → Zone
resume z = record z { postpone_until = none; postpone_reason = none }

abbrev pub is_rain_reason : Option String → Bool
is_rain_reason none = false
is_rain_reason (some reason) = reason == "rain"

-- `_on_rain_start`
unfoldable pub on_rain_start : List Group → Day → Monitor → Monitor
on_rain_start groups day m = record m {
  stopped = m.stopped ++ target_groups groups;
  zones = map (λ z. if is_targeted groups z then postpone day.end_of_day z else z) m.zones;
}

-- `_on_rain_stop`
unfoldable pub on_rain_stop : List Group → Day → Monitor → Monitor
on_rain_stop groups day m = record m {
  zones =
      map (λ z. if is_targeted groups z && is_rain_reason z.postpone_reason then resume z else z)
        m.zones;
  cancellations =
      keep_if (λ c. not (contains (target_groups groups) c.2 && c.1 == day.today)) m.cancellations;
}

-- A payload after `strip().lower()`.
abbrev pub parse_payload : String → Option Bool
parse_payload p =
    if contains ("1" ∷ "true" ∷ "rain" ∷ "yes" ∷ "on" ∷ []) p
    then some true
    else (if contains ("0" ∷ "false" ∷ "no_rain" ∷ "no" ∷ "off" ∷ []) p then some false else none)

abbrev pub logical_rain : SensorType → Bool → Bool
logical_rain no raw = raw
logical_rain nc raw = not raw

-- The end of `_handle_payload`.
unfoldable pub set_rain : List Group → Day → Bool → Monitor → Monitor
unfolding on_rain_start on_rain_stop
set_rain groups day true m = on_rain_start groups day (record m { is_rain = some true })
set_rain groups day false m = on_rain_stop groups day (record m { is_rain = some false })

-- `_handle_payload`
unfoldable pub handle_payload : SensorType → List Group → Day → String → Monitor → Monitor
unfolding set_rain
handle_payload sensor groups day payload m = elim (parse_payload payload) [
  | none ↦ m
  | some raw ↦ set_rain groups day (logical_rain sensor raw) m
]
