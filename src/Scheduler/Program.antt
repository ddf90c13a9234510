-- ===== src/Scheduler/Program.antt =====
-- `_run_program_threaded` of irrigation_scheduler.py: a run of a program, one zone after the other.
use irrigation.Base.{
  ℕ, ◌+◌, ◌-◌, ◌*◌, Bool, true, false, not, ◌&&◌, ◌||◌, List, [], ◌∷◌, Option, none, some, leb,
  keep_if, length, contains, if◌then◌else◌, nat_eq, nat_beq,
}
use irrigation.Base.Maps.{lookup, insert, erase, adjust}
use irrigation.ZoneControl.{
  on, to_on, Zone, Postpone, until, unreadable, System, World, Update, is_group, reaches, publish,
  relay_publish, update_zone_state,
}
use irrigation.ZoneControl.Start.{peer_off, peers_of, exclusive_start_zone}
use irrigation.ZoneControl.Stop.{Stop, stop_zone}
use irrigation.Scheduler.{
  Scheduler, program_start, program_finish, program_weather_skip, prog_skipped_manual_running,
  zone_auto_start, zone_skip, add_log, with_system, is_group_session_active, is_cancelled,
  is_skipped, clear_skip, plant, release, drop_skip,
}
use irrigation.Scheduler.Jobs.{clamp_early, schedule_zone_hard_stop}
use irrigation.Scheduler.Waiting.{
  Outside, Thread, world_at, update, look, session_of, wait, wait_early, weather_adjusted,
}

-- The groups of the zones, each once.
unfoldable pub program_gids : List ℕ → System → List ℕ
program_gids [] s = []
program_gids (id ∷ ids) s =
    let gids = program_gids ids s in
    elim (lookup id s.zones) [
      | none ↦ gids
      | some z ↦
          if is_group z.group_id && not (contains gids z.group_id) then z.group_id ∷ gids else gids
    ]

-- The events that this run has planted.
unfoldable pub register_sessions : List ℕ → Scheduler → Scheduler × List (ℕ × ℕ)
unfolding plant
register_sessions [] s = (s, [])
register_sessions (gid ∷ gids) s =
    let (s₁, event, new) = plant gid s in
    let (s₂, registered) = register_sessions gids s₁ in
    (s₂, if new then (gid, event) ∷ registered else registered)

-- The `finally` of a run.
unfoldable pub clean_up : List (ℕ × ℕ) → Scheduler → Scheduler
unfolding release
clean_up [] s = s
clean_up ((gid, event) ∷ registered) s = clean_up registered (drop_skip gid (release gid event s))

-- A relay of the group is switched off, and its zone counts as off, whatever its state.
unfoldable pub peer_off_scheduled : World → ℕ → System → System
unfolding update_zone_state
peer_off_scheduled w id s = elim (lookup id s.zones) [
  | none ↦ s
  | some z ↦
      update_zone_state id peer_off "peer_off_scheduled"
        (if reaches w z.topic z.mqtt_server_id then publish (relay_publish z false) s else s)
]

unfoldable pub peers_off : World → List ℕ → System → System
unfolding peer_off_scheduled
peers_off w [] s = s
peers_off w (id ∷ ids) s = peers_off w ids (peer_off_scheduled w id s)

abbrev pub to_scheduled : World → Update
to_scheduled w = record {
  state = on;
  commanded_state = some to_on;
  watering_start_time = some (some w.time);
  planned_end_time = none;
  fault_count = none;
}

abbrev pub plan_end : ℕ → (end_time : Option ℕ) → System → System
plan_end id end_time s = record s {
  zones = adjust id (λ z. record z { planned_end_time = end_time }) s.zones;
}

-- The zones of the group are switched off, and the zone counts as on before it is started.
unfoldable pub switch_zones : ℕ → (gid : ℕ) → World → System → System
unfolding peers_off update_zone_state exclusive_start_zone
switch_zones id gid w s =
    (exclusive_start_zone id "program" w (
      update_zone_state id (to_scheduled w) "scheduled_start"
        (peers_off w (peers_of id gid s) s))).0

unfoldable pub start_scheduled : ℕ → (gid duration : ℕ) → World → Scheduler → Scheduler
unfolding switch_zones schedule_zone_hard_stop
start_scheduled id gid duration w s =
    let end_time = w.time + duration * 60 in
    let s₁ = record (with_system (plan_end id (some end_time) (switch_zones id gid w s.system)) s) {
      active_zones = insert id end_time s.active_zones;
    } in
    add_log (zone_auto_start id duration end_time) (schedule_zone_hard_stop id end_time w.time s₁)

abbrev pub auto_stop : Stop
auto_stop = record {
  reason = "auto";
  force = false;
  master_close_immediately = false;
  skip_master_close = false;
}

abbrev pub end_zone : ℕ → Stop → World → Scheduler → Scheduler
end_zone id stop w s = record (with_system (stop_zone id stop w s.system).0 s) {
  active_zones = erase id s.active_zones;
}

-- The zone is stopped; one that was skipped does not wait for its planned end.
unfoldable pub end_scheduled : Outside → ℕ → (gid : ℕ) → (skipped : Bool) → Thread → Thread
unfolding stop_zone wait_early
end_scheduled o id gid skipped p =
    let q = update (end_zone id auto_stop (world_at o p) p.scheduler) p in
    if skipped
    then update (add_log (zone_skip gid id) q.scheduler) q
    else wait_early o gid (clamp_early o.early_off_seconds) q

unfoldable pub water_zone : Outside → ℕ → (gid duration : ℕ) → Thread → Thread
unfolding start_scheduled wait end_scheduled
water_zone o id gid duration p =
    let q = update (start_scheduled id gid duration (world_at o p) p.scheduler) p in
    let (r, skipped) =
      wait o (session_of gid) gid (duration * 60 - clamp_early o.early_off_seconds) q in
    end_scheduled o id gid skipped r

-- A run by hand does not look at the weather.
abbrev pub duration_of : Outside → (manual : Bool) → (base : ℕ) → Thread → ℕ
duration_of o manual base p = if manual then base else weather_adjusted (o.coefficient p.looks) base

abbrev pub is_over : (time : ℕ) → Postpone → Bool
is_over time (until t) = leb t time
is_over time unreadable = true

abbrev pub clear_postpone : ℕ → System → System
clear_postpone id s = record s {
  zones = adjust id (λ z. record z { postpone_until = none }) s.zones;
}

-- Is the zone left out because it is postponed?
abbrev pub is_postponed : (time : ℕ) → Zone → Bool
is_postponed time z = elim z.postpone_until [ none ↦ false | some t ↦ not (is_over time t) ]

-- A postponement that is over is removed.
abbrev pub clear_expired : ℕ → Zone → Scheduler → Scheduler
clear_expired id z s = elim z.postpone_until [
  | none ↦ s
  | some t ↦ with_system (clear_postpone id s.system) s
]

abbrev pub clear_stale : (gid : ℕ) → Scheduler → Scheduler
clear_stale gid s = if is_skipped gid s then clear_skip gid s else s

-- The zone with its row, behind the tests of cancellations.
unfoldable pub run_due : Outside → (manual : Bool) → ℕ → Zone → Thread → Thread
unfolding water_zone weather_adjusted
run_due o manual id z p =
    let q = update (clear_stale z.group_id p.scheduler) p in
    let duration = duration_of o manual z.duration q in
    if is_postponed (world_at o q).time z
    then q
    else (let r = update (clear_expired id z q.scheduler) q in
        if nat_beq duration 0 then r else water_zone o id z.group_id duration r)

unfoldable pub run_program_zone : Outside → (manual : Bool) → ℕ → Thread → Thread
unfolding look run_due
run_program_zone o manual id p =
    let q = look o p in
    elim (lookup id q.scheduler.system.zones) [
      | none ↦ q
      | some z ↦
          if o.cancelled_today q.looks z.group_id || is_cancelled z.group_id q.scheduler
          then q
          else run_due o manual id z q
    ]

unfoldable pub run_zones : Outside → (manual : Bool) → List ℕ → Thread → Thread
unfolding run_program_zone
run_zones o manual [] p = p
run_zones o manual (id ∷ ids) p = run_zones o manual ids (run_program_zone o manual id p)

-- The program itself, once its sessions are registered.
unfoldable pub run_session :
    Outside → (program_id : ℕ) → List ℕ → (manual : Bool) → Scheduler → Scheduler
unfolding run_zones
run_session o pid zones manual s =
    let s₁ = add_log (program_start pid) s in
    if not manual && o.should_skip
    then add_log (program_weather_skip pid) s₁
    else add_log (program_finish pid)
        (run_zones o manual zones (record { scheduler = s₁; looks = 0; clock = 0 })).scheduler

abbrev pub blocking_gids : List ℕ → Scheduler → List ℕ
blocking_gids gids s = keep_if (λ gid. is_group_session_active gid s) gids

unfoldable pub run_program :
    Outside → (program_id : ℕ) → List ℕ → (manual : Bool) → Scheduler → Scheduler
unfolding program_gids register_sessions clean_up run_session
run_program o pid zones manual s =
    let gids = program_gids zones s.system in
    let blocking = blocking_gids gids s in
    if not (nat_beq (length blocking) 0)
    then add_log (prog_skipped_manual_running pid blocking) s
    else (let (s₁, registered) = register_sessions gids s in
        clean_up registered (run_session o pid zones manual s₁))
