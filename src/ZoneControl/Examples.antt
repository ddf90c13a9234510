-- ===== src/ZoneControl/Examples.antt =====
-- Two groups with a common master valve: the properties of the zone control, and runs of it.
use Prim.Native.String.{String}
use irrigation.Base.{
  ℕ, ◌≡◌, ◌≢◌, refl, true, false, List, [], ◌∷◌, none, some, arith, All, nat_eq, list_eq, ◌==◌,
  if◌then◌else◌,
}
use irrigation.Base.Maps.{lookup}
use irrigation.Topics.{Topic, rstrip, lstrip, normalize_topic}
use irrigation.ZoneControl.{
  ZoneState, off, on, fault, Zone, Group, Publish, System, World, zones_by_group,
}
use irrigation.ZoneControl.Master.{is_on_or_starting, fire}
use irrigation.ZoneControl.Start.{exclusive_start_zone}
use irrigation.ZoneControl.Stop.{Stop, stop_zone}
use irrigation.ZoneControl.Emergency.{emergency_stop_all, close_masters}
use irrigation.ZoneControl.Resting.{IsRested, relay_off, stop_active-IsRested}
use irrigation.ZoneControl.Halting.{emergency_stop_all-stops}
use irrigation.ZoneControl.Sent.{IsQuiet}
use irrigation.ZoneControl.Valves.{
  AreSingle, IsCloseOf, Some, topics_of, IsTold, close_masters-AreSingle,
}
use irrigation.ZoneControl.Trace.{
  start, stop_one, stop_group, timer, perform_all, IsExclusive, perform_all-IsExclusive,
}
use irrigation.ZoneControl.Audit.{Audited, perform_all-Audited}

-- "/a", "/b" and "/m"
abbrev pub relay_a : Topic
relay_a = 47 ∷ 97 ∷ []

abbrev pub relay_b : Topic
relay_b = 47 ∷ 98 ∷ []

abbrev pub master : Topic
master = 47 ∷ 109 ∷ []

abbrev pub zone_at : (gid : ℕ) → ZoneState → Topic → Zone
zone_at gid state topic = record {
  group_id = gid;
  state = state;
  commanded_state = none;
  version = 0;
  topic = topic;
  mqtt_server_id = 1;
  watering_start_time = none;
  planned_end_time = none;
  last_avg_flow = none;
  last_total_liters = none;
  fault_count = 0;
  duration = 10;
  postpone_until = none;
}

abbrev pub group : Group
group = record {
  use_master_valve = true;
  master_mqtt_topic = master;
  master_mqtt_server_id = 1;
  normally_open = false;
  master_close_delay_sec = none;
  use_water_meter = false;
  pulse_liters = 1;
  master_valve_observed = none;
}

abbrev pub garden : System
garden = record {
  zones =
      (5, zone_at 1 on relay_a) ∷ (6, zone_at 1 off relay_b) ∷ (7, zone_at 2 fault relay_b) ∷ [];
  groups = (1, group) ∷ (2, group) ∷ [];
  runs = [];
  published = [];
  audit = [];
  timers = (master, record { group_id = 2; group = group; due = 1000 }) ∷ [];
}

abbrev pub outside : World
outside = record {
  time = 100;
  now = 2000;
  knows_server = λ n. n == 1;
  acknowledges = λ p. true;
  pulses_at_start = λ gid. none;
  pulses_at_end = λ gid. none;
  summarize = λ gid since. (none, none);
}

abbrev gently : Stop
gently = record {
  reason = "manual";
  force = false;
  master_close_immediately = false;
  skip_master_close = false;
}

stop_active-IsRested_example :
    let s' = (stop_zone 5 gently outside garden).0 in
    ((z : Zone) × (lookup 5 s'.zones ≡ some z) × IsRested (zone_at 1 on relay_a) z)
    × (s'.published ≡ relay_off (zone_at 1 on relay_a) outside)
    × ((i : ℕ) → i ≢ 5 → lookup i s'.zones ≡ lookup i garden.zones)
stop_active-IsRested_example =
    stop_active-IsRested 5 gently outside garden (zone_at 1 on relay_a) refl refl

-- Another thread starts zone 6 in the meantime.
emergency_stop_all-stops_example :
    is_on_or_starting 6
      (emergency_stop_all "leak" outside
        (λ s. (exclusive_start_zone 6 "manual" outside s).0)
        garden).0
    ≡ false
unfolding emergency_stop_all exclusive_start_zone rstrip lstrip normalize_topic
emergency_stop_all-stops_example =
    emergency_stop_all-stops "leak" outside (λ s. (exclusive_start_zone 6 "manual" outside s).0)
      garden 1 6 refl (ground arith) (ground arith) refl

close_masters-AreSingle_example :
    let s' = (close_masters [] garden.groups outside garden).0 in
    ((ps : List Publish) × (s'.published ≡ ps)
      × AreSingle [] ps
      × All (λ p. Some garden.groups (IsCloseOf p)) ps
      × (((n : ℕ) → outside.knows_server n ≡ true) → All (IsTold (topics_of ps)) garden.groups))
    × All (IsQuiet s') garden.groups
close_masters-AreSingle_example = close_masters-AreSingle garden.groups outside garden

-- Another thread switches zone 6 on between the look at the zones and the close.
abbrev starter : System → System
starter s = (exclusive_start_zone 6 "manual" outside s).0

-- What the relay says in the three waits, the last one first.
abbrev payloads : ℕ → List String
payloads n = if n == 1 then "off" ∷ "ON" ∷ [] else "off" ∷ []

pub one_runs : IsExclusive 1 garden
one_runs = record { only = λ i j member runs member' runs'. ground arith }

perform_all-IsExclusive_example : IsExclusive 1 (
    perform_all
      ((start 6 "manual", outside) ∷ (stop_one 5 gently, outside) ∷ (timer master, outside) ∷ [])
      garden)
perform_all-IsExclusive_example =
    perform_all-IsExclusive 1
      ((start 6 "manual", outside) ∷ (stop_one 5 gently, outside) ∷ (timer master, outside) ∷ [])
      garden (ground arith) one_runs

perform_all-Audited_example :
    Audited garden
      (perform_all ((start 6 "manual", outside) ∷ (stop_group 1 gently, outside) ∷ []) garden)
perform_all-Audited_example =
    perform_all-Audited ((start 6 "manual", outside) ∷ (stop_group 1 gently, outside) ∷ []) garden

-- A start publishes for the valve, for the zone and for the peer, in this order.
started :
    (exclusive_start_zone 6 "manual" outside garden).0.published
    ≡ record { server = 1; topic = master; value = true }
      ∷ record { server = 1; topic = relay_b; value = true }
      ∷ record { server = 1; topic = relay_a; value = false }
      ∷ []
unfolding exclusive_start_zone rstrip lstrip normalize_topic
started = refl

-- Zone 7 is in a fault, and can be started all the same.
faulty_start : is_on_or_starting 7 (exclusive_start_zone 7 "manual" outside garden).0 ≡ true
unfolding exclusive_start_zone rstrip lstrip normalize_topic
faulty_start = refl

-- The timer of group 2 does not close the valve while zone 5 of group 1 is on.
blocked : (fire master outside (λ s. s) garden).published ≡ []
unfolding fire rstrip lstrip normalize_topic zones_by_group
blocked = refl
