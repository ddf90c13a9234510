-- ===== src/ZoneControl/Start.antt =====
-- `exclusive_start_zone` of services/zone_control.py: one zone of a group starts, the others stop.
use Prim.Native.String.{String}
use irrigation.Base.{
  ℕ, Bool, true, false, not, ◌&&◌, List, [], ◌∷◌, Option, none, some, keep_if, if◌then◌else◌, ◌==◌,
  nat_eq, list_eq,
}
use irrigation.Base.Maps.{lookup}
use irrigation.ZoneControl.{
  starting, on, stopping, off, to_on, to_off, Flow, Zone, Group, opened, Run, RunStatus, ok, failed,
  System, World, Update, is_active, is_off, is_group, reaches, publish, relay_publish,
  update_zone_state, zones_by_group,
}
use irrigation.ZoneControl.Master.{has_master, master_key, observe}

abbrev pub to_starting : World → Update
to_starting w = record {
  state = starting;
  commanded_state = some to_on;
  watering_start_time = some (some w.time);
  planned_end_time = none;
  fault_count = none;
}

abbrev pub to_stopping : Update
to_stopping = record {
  state = stopping;
  commanded_state = some to_off;
  watering_start_time = none;
  planned_end_time = none;
  fault_count = none;
}

abbrev pub acknowledged_on : Update
acknowledged_on = record {
  state = on;
  commanded_state = none;
  watering_start_time = none;
  planned_end_time = none;
  fault_count = none;
}

abbrev pub peer_off : Update
peer_off = record {
  state = off;
  commanded_state = none;
  watering_start_time = some none;
  planned_end_time = none;
  fault_count = none;
}

abbrev raw_pulses : Group → (gid : ℕ) → World → Option ℕ
raw_pulses g gid w = if g.use_water_meter then w.pulses_at_start gid else none

abbrev pulse_liters_of : Group → ℕ
pulse_liters_of g = if g.use_water_meter then g.pulse_liters else 1

-- The row of `zone_runs` for a start; the group may be missing.
abbrev new_run : ℕ → (gid : ℕ) → Option Group → String → World → Run
new_run id gid g source w = record {
  zone_id = id;
  group_id = gid;
  start_utc = w.time;
  start_monotonic = w.now;
  start_raw_pulses = elim g [ none ↦ none | some g ↦ raw_pulses g gid w ];
  pulse_liters_at_start = elim g [ none ↦ 1 | some g ↦ pulse_liters_of g ];
  source = source;
  end_utc = none;
  confirmed = false;
  status = RunStatus.open_run;
  end_raw_pulses = none;
  total_liters = none;
  avg_flow = none;
}

unfoldable pub open_run : ℕ → (gid : ℕ) → String → World → System → System
open_run id gid source w s =
    if is_group gid
    then record s { runs = new_run id gid (lookup gid s.groups) source w ∷ s.runs }
    else s

-- The master valve is opened, and counts as open whatever becomes of the publish.
unfoldable pub open_valve : (gid : ℕ) → Group → World → System → System
unfolding has_master
open_valve gid g w s =
    if has_master g && w.knows_server g.master_mqtt_server_id
    then (let s' =
          publish
            (record {
              server = g.master_mqtt_server_id;
              topic = master_key g;
              value = not g.normally_open;
            })
            s in
        record s' { groups = observe gid opened s.groups })
    else s

unfoldable pub open_master : (gid : ℕ) → World → System → System
unfolding open_valve
open_master gid w s =
    if is_group gid
    then elim (lookup gid s.groups) [ none ↦ s | some g ↦ open_valve gid g w s ]
    else s

-- The relay is switched on, and the zone counts as on.
unfoldable pub switch_on : ℕ → Zone → World → System → System
unfolding update_zone_state
switch_on id z w s =
    if reaches w z.topic z.mqtt_server_id
    then update_zone_state id acknowledged_on "mqtt_ack_on" (publish (relay_publish z true) s)
    else s

-- `finish_zone_run` for the newest open run of a zone.
abbrev pub is_open : Run → Bool
is_open r = elim r.end_utc [ none ↦ true | some t ↦ false ]

unfoldable pub finish_run :
    ℕ → (end_utc : ℕ) (end_raw total_liters : Option ℕ) → Option Flow → List Run → List Run
finish_run id end_utc end_raw total_liters flow [] = []
finish_run id end_utc end_raw total_liters flow (r ∷ runs) =
    if is_open r && r.zone_id == id
    then record r {
      end_utc = some end_utc;
      status = if r.confirmed then ok else failed;
      end_raw_pulses = end_raw;
      total_liters = total_liters;
      avg_flow = flow;
    }
      ∷ runs
    else r ∷ finish_run id end_utc end_raw total_liters flow runs

-- `_stop_peer`, behind its first update.
unfoldable pub switch_peer_off : ℕ → Zone → World → System → System
unfolding finish_run update_zone_state
switch_peer_off id z w s =
    if reaches w z.topic z.mqtt_server_id
    then (let s' = publish (relay_publish z false) s in
        update_zone_state id peer_off "peer_off"
          (record s' { runs = finish_run id w.time none none none s.runs }))
    else s

-- The first update of `_stop_peer`.
unfoldable pub mark_peer : ℕ → Zone → System → System
unfolding update_zone_state
mark_peer id z s = if is_off z.state then s else update_zone_state id to_stopping "peer_stop" s

unfoldable pub stop_peer : World → ℕ → System → System
unfolding switch_peer_off mark_peer
stop_peer w id s = elim (lookup id s.zones) [
  | none ↦ s
  | some z ↦ switch_peer_off id z w (mark_peer id z s)
]

-- The peers are stopped in parallel, each under its own lock: here one after the other.
unfoldable pub stop_peers : World → List ℕ → System → System
unfolding stop_peer
stop_peers w [] s = s
stop_peers w (id ∷ ids) s = stop_peers w ids (stop_peer w id s)

-- The others of the group, if there is one.
abbrev pub peers_of : ℕ → (gid : ℕ) → System → List ℕ
peers_of id gid s =
    if gid == 0 then [] else keep_if (λ peer. not (peer == id)) (zones_by_group gid s)

unfoldable pub mark_starting : ℕ → Zone → World → System → System
unfolding update_zone_state
mark_starting id z w s =
    if is_active z.state then s else update_zone_state id (to_starting w) "manual_start" s

unfoldable pub start_zone : ℕ → Zone → (source : String) → World → System → System
unfolding mark_starting open_run open_master switch_on
start_zone id z source w s =
    switch_on id z w
      (open_master z.group_id w (open_run id z.group_id source w (mark_starting id z w s)))

unfoldable pub exclusive_start_zone : ℕ → (source : String) → World → System → System × Bool
unfolding start_zone stop_peers zones_by_group
exclusive_start_zone id source w s = elim (lookup id s.zones) [
  | none ↦ (s, false)
  | some z ↦ (stop_peers w (peers_of id z.group_id s) (start_zone id z source w s), true)
]
