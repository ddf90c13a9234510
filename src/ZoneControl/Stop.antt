-- ===== src/ZoneControl/Stop.antt =====
-- `stop_zone` and `stop_all_in_group` of services/zone_control.py.
use Prim.Native.String.{String, ◌++◌ as ◌++ₛ◌}
use irrigation.Base.{
  ℕ, ◌-◌, ◌*◌, max, Bool, true, false, not, ◌&&◌, List, [], ◌∷◌, Option, none, some, if◌then◌else◌,
  ◌==◌, nat_eq,
}
use irrigation.Base.Maps.{lookup, adjust}
use irrigation.ZoneControl.{
  off, Flow, Zone, Run, RunStatus, ok, System, World, Update, is_stopped, is_group, reaches,
  publish, relay_publish, update_zone_state, zones_by_group,
}
use irrigation.ZoneControl.Master.{schedule_master_close}
use irrigation.ZoneControl.Start.{to_stopping, is_open, finish_run}

-- What is measured of a run: litres, and litres over time.
abbrev pub Stats : Type 0
Stats = Option ℕ × Option Flow

abbrev no_stats : Stats
no_stats = (none, none)

-- `get_open_zone_run`
unfoldable pub get_open_run : ℕ → List Run → Option Run
get_open_run id [] = none
get_open_run id (r ∷ runs) = if is_open r && r.zone_id == id then some r else get_open_run id runs

abbrev liters_of : (end_raw start_raw : ℕ) → Run → ℕ
liters_of end_raw start_raw r = (end_raw - start_raw) * max 1 r.pulse_liters_at_start

-- From the pulses at both ends of the run; none without them. A run takes at least a second.
abbrev stats_of : World → Run → Option ℕ → Option ℕ → Stats
stats_of w r none start_raw = no_stats
stats_of w r (some end_raw) none = no_stats
stats_of w r (some end_raw) (some start_raw) = (
  some (liters_of end_raw start_raw r),
  some (record {
    liters = liters_of end_raw start_raw r;
    duration = max 1000 (w.now - r.start_monotonic);
  }),
)

abbrev pub run_stats : World → (gid : ℕ) → Option Run → Stats
run_stats w gid none = no_stats
run_stats w gid (some r) = stats_of w r (w.pulses_at_end gid) r.start_raw_pulses

-- The water monitor is asked if the run says nothing.
abbrev pub or_summary : World → (gid : ℕ) → Option ℕ → Stats → Stats
or_summary w gid since (none, none) = w.summarize gid since
or_summary w gid since (none, some flow) = (none, some flow)
or_summary w gid since (some n, flow) = (some n, flow)

abbrev or_old {ℓ} : {A : Type ℓ} → Option A → Option A → Option A
or_old old none = old
or_old old (some a) = some a

abbrev pub measured : Stats → Zone → Zone
measured (total, flow) z = record z {
  last_avg_flow = or_old z.last_avg_flow flow;
  last_total_liters = or_old z.last_total_liters total;
}

abbrev pub store_stats : ℕ → Stats → System → System
store_stats id stats s = record s { zones = adjust id (measured stats) s.zones }

-- The open run of the zone is finished, and the zone gets its statistics; without a start time only
-- the run counts, if `needs_start`.
unfoldable pub finish_water :
    ℕ → (gid : ℕ) → (needs_start : Bool) → (since : Option ℕ) → World → System → System
unfolding finish_run get_open_run
finish_water id gid needs_start since w s =
    let stats = run_stats w gid (get_open_run id s.runs) in
    let asks : Bool = elim since [ none ↦ not needs_start | some t ↦ true ] in
    if is_group gid
    then store_stats id (if asks then or_summary w gid since stats else stats)
        (record s { runs = finish_run id w.time (w.pulses_at_end gid) stats.0 stats.1 s.runs })
    else s

-- The master valve of the group is to be closed, if it has one.
unfoldable pub plan_close : (gid : ℕ) (immediate skip : Bool) → World → System → System
unfolding schedule_master_close
plan_close gid immediate skip w s =
    if is_group gid && not skip
    then elim (lookup gid s.groups) [
      | none ↦ s
      | some g ↦ schedule_master_close gid g immediate w s
    ]
    else s

abbrev pub to_off_complete : Update
to_off_complete = record {
  state = off;
  commanded_state = none;
  watering_start_time = some none;
  planned_end_time = some none;
  fault_count = none;
}

-- The arguments of a stop.
pub record Stop : Type 0 where
  pub reason : String
  pub force : Bool
  pub master_close_immediately : Bool
  pub skip_master_close : Bool

abbrev pub later : ℕ → Option ℕ → Option ℕ
later t none = some t
later t (some u) = some (max t u)

abbrev is_ok : RunStatus → Bool
is_ok ok = true
is_ok RunStatus.open_run = false
is_ok RunStatus.failed = false

-- `get_last_watering_time`: the last end of a run of the zone that is ok.
unfoldable pub last_watering_time : ℕ → List Run → Option ℕ
last_watering_time id [] = none
last_watering_time id (r ∷ runs) =
    let last = last_watering_time id runs in
    if r.zone_id == id && is_ok r.status
    then elim r.end_utc [ none ↦ last | some t ↦ later t last ]
    else last

abbrev pub start_of : ℕ → Zone → List Run → Option ℕ
start_of id z runs = elim (last_watering_time id runs) [
  | none ↦ z.watering_start_time
  | some t ↦ some t
]

-- The relay is switched off, and the close of the master valve planned.
unfoldable pub switch_off : ℕ → Zone → Stop → World → System → System
unfolding plan_close
switch_off id z stop w s =
    if reaches w z.topic z.mqtt_server_id
    then plan_close z.group_id stop.master_close_immediately stop.skip_master_close w
        (publish (relay_publish z false) s)
    else s

-- The two updates of a stop, around the command to the relay.
unfoldable pub shut_down : ℕ → Zone → Stop → World → System → System
unfolding switch_off update_zone_state
shut_down id z stop w s =
    update_zone_state id to_off_complete ("stop_" ++ₛ stop.reason ++ₛ "_complete")
      (switch_off id z stop w (update_zone_state id to_stopping ("stop_" ++ₛ stop.reason) s))

unfoldable pub stop_active : ℕ → Zone → Stop → World → System → System
unfolding shut_down finish_water
stop_active id z stop w s =
    finish_water id z.group_id false z.watering_start_time w (shut_down id z stop w s)

-- A zone that is off already: only its run is finished and the close planned.
unfoldable pub stop_again : ℕ → Zone → Stop → World → System → System
unfolding finish_water plan_close last_watering_time
stop_again id z stop w s =
    plan_close z.group_id stop.master_close_immediately stop.skip_master_close w
      (finish_water id z.group_id true (start_of id z s.runs) w s)

unfoldable pub stop_zone : ℕ → Stop → World → System → System × Bool
unfolding stop_active stop_again
stop_zone id stop w s = elim (lookup id s.zones) [
  | none ↦ (s, false)
  | some z ↦ (
    if is_stopped z.state && not stop.force
        then stop_again id z stop w s
        else stop_active id z stop w s,
    true,
  )
]

-- The loop over the zones of a group.
unfoldable pub stop_each : List ℕ → Stop → World → System → System
unfolding stop_zone
stop_each [] stop w s = s
stop_each (id ∷ ids) stop w s = stop_each ids stop w (stop_zone id stop w s).0

unfoldable pub stop_all_in_group : (gid : ℕ) → Stop → World → System → System
unfolding stop_each zones_by_group
stop_all_in_group gid stop w s = stop_each (zones_by_group gid s) stop w s
