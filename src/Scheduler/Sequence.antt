-- ===== src/Scheduler/Sequence.antt =====
-- `start_group_sequence` and `_run_group_sequence` of irrigation_scheduler.py: all zones of a group,
-- one after the other.
-- The columns of the planned starts, which are for the display, are left out.
use irrigation.Base.{
  ℕ, suc, ◌+◌, ◌-◌, ◌*◌, Bool, true, false, not, ◌&&◌, ◌||◌, List, [], ◌∷◌, Option, none, some, leb,
  length, keep_if, any, contains, if◌then◌else◌, ◌==◌, nat_eq, nat_beq,
}
use irrigation.Base.Maps.{lookup, erase}
use irrigation.ZoneControl.{
  on, Zone, System, World, Update, publish, relay_publish, reaches, update_zone_state,
  zones_by_group,
}
use irrigation.ZoneControl.Duration.{per_zone_dur}
use irrigation.ZoneControl.Start.{peer_off, open_run, open_valve}
use irrigation.ZoneControl.Stop.{Stop, stop_zone}
use irrigation.Scheduler.{
  group_seq, job_id, job_eq, job_run_group_sequence, date, Scheduler, group_weather_skip,
  group_seq_zone_start, group_seq_complete, zone_skip, add_log, with_system, event_is_set, plant,
  release, drop_skip,
}
use irrigation.Scheduler.Jobs.{
  add_job, remove_jobs, is_stop_of, is_sequence_of, clamp_early, schedule_zone_hard_stop,
}
use irrigation.Scheduler.Waiting.{
  Outside, Thread, world_at, update, pass, look, wait, weather_adjusted,
}
use irrigation.Scheduler.Recovery.{sorted}
use irrigation.Scheduler.Program.{duration_of, clear_stale, plan_end, end_zone}

-- `{z: i for i, z in enumerate(zone_ids)}.get(id, 9999)`
abbrev order_from : (i : ℕ) → List ℕ → (last id : ℕ) → ℕ
order_from i [] last id = last
order_from i (z ∷ zs) last id = order_from (suc i) zs (if z == id then i else last) id

abbrev insert_by : (ℕ → ℕ) → ℕ → List ℕ → List ℕ
insert_by key x [] = x ∷ []
insert_by key x (y ∷ ys) = if leb (key x) (key y) then x ∷ y ∷ ys else y ∷ insert_by key x ys

abbrev sort_by : (ℕ → ℕ) → List ℕ → List ℕ
sort_by key [] = []
sort_by key (x ∷ xs) = insert_by key x (sort_by key xs)

-- The zones of the group by their number, or those that are asked for, in the order asked for.
unfoldable pub sequence_zones : (gid : ℕ) → (zone_ids : Option (List ℕ)) → System → List ℕ
unfolding zones_by_group
sequence_zones gid none s = sorted (zones_by_group gid s)
sequence_zones gid (some ids) s =
    sort_by (order_from 0 ids 9999) (keep_if (contains ids) (sorted (zones_by_group gid s)))

unfoldable pub bulk_off : List ℕ → System → System
unfolding update_zone_state
bulk_off [] s = s
bulk_off (id ∷ ids) s = bulk_off ids (update_zone_state id peer_off "group_sequence_bulk_off" s)

abbrev erase_all : List ℕ → List (ℕ × ℕ) → List (ℕ × ℕ)
erase_all [] m = m
erase_all (id ∷ ids) m = erase_all ids (erase id m)

-- The jobs of the group's sequences and of the stops of its zones go.
abbrev clear_jobs : (gid : ℕ) → List ℕ → Scheduler → Scheduler
clear_jobs gid ids s =
    record (remove_jobs (λ job. is_sequence_of gid job || any (λ id. is_stop_of id job) ids) s) {
      active_zones = erase_all ids s.active_zones;
    }

unfoldable pub start_group_sequence :
    (gid : ℕ)
    → (override_duration override_percent : Option ℕ) → (zone_ids : Option (List ℕ))
    → (manual : Bool) → (now : ℕ) → Scheduler
    → Scheduler × Bool
unfolding sequence_zones bulk_off plant
start_group_sequence gid minutes percent zone_ids manual now s =
    let ids = sequence_zones gid zone_ids s.system in
    if nat_beq (length ids) 0
    then (s, false)
    else (let s₁ = (plant gid (with_system (bulk_off ids s.system) s)).0 in
        (
          add_job (job_id group_seq gid (now ∷ []))
              (record {
                call = job_run_group_sequence gid ids minutes percent manual;
                trigger = date now;
              })
              (clear_jobs gid ids s₁),
          true,
        ))

abbrev pub to_sequence : World → (planned_end : ℕ) → Update
to_sequence w planned_end = record {
  state = on;
  commanded_state = none;
  watering_start_time = some (some w.time);
  planned_end_time = some (some planned_end);
  fault_count = none;
}

-- The master valve opens also for group 999, unlike in a start by the zone control.
unfoldable pub open_for : (gid : ℕ) → World → System → System
unfolding open_valve
open_for gid w s =
    if gid == 0 then s else elim (lookup gid s.groups) [ none ↦ s | some g ↦ open_valve gid g w s ]

-- The relay is switched on; no other zone of the group is stopped.
unfoldable pub open_zone : ℕ → Zone → (planned_end : ℕ) → World → System → System
unfolding update_zone_state open_for open_run
open_zone id z planned_end w s =
    let s₁ =
      open_for z.group_id w
        (update_zone_state id (to_sequence w planned_end) "group_sequence_start" s) in
    open_run id z.group_id "program" w
      (if reaches w z.topic z.mqtt_server_id then publish (relay_publish z true) s₁ else s₁)

unfoldable pub start_in_sequence :
    (gid : ℕ) → ℕ → Zone → (duration : ℕ) → World → Scheduler → Scheduler
unfolding open_zone schedule_zone_hard_stop
start_in_sequence gid id z duration w s =
    let end_time = w.time + duration * 60 in
    let s₁ = schedule_zone_hard_stop id end_time w.time s in
    add_log (group_seq_zone_start gid id duration)
      (with_system (open_zone id z end_time w s₁.system) s₁)

abbrev pub sequence_stop : Stop
sequence_stop = record {
  reason = "group_sequence";
  force = false;
  master_close_immediately = false;
  skip_master_close = false;
}

-- The seconds by which the zone was switched off early, unless the service shuts down.
abbrev pub make_up : (event : Option ℕ) → (early : ℕ) → Thread → Thread
make_up event early p =
    if event_is_set event p.scheduler || p.scheduler.shutdown then p else pass early p

unfoldable pub end_in_sequence :
    Outside → (gid : ℕ) → (event : Option ℕ) → ℕ → (skipped : Bool) → Thread → Thread
unfolding stop_zone
end_in_sequence o gid event id skipped p =
    let s₁ = end_zone id sequence_stop (world_at o p) p.scheduler in
    let s₂ = with_system (plan_end id none s₁.system) s₁ in
    if skipped
    then update (add_log (zone_skip gid id) s₂) p
    else make_up event (clamp_early o.early_off_seconds) (update s₂ p)

unfoldable pub water_in_sequence :
    Outside → (gid : ℕ) → (event : Option ℕ) → ℕ → Zone → (duration : ℕ) → Thread → Thread
unfolding start_in_sequence wait end_in_sequence
water_in_sequence o gid event id z duration p =
    let q = update (start_in_sequence gid id z duration (world_at o p) p.scheduler) p in
    let (r, skipped) =
      wait o (λ s. event) gid (duration * 60 - clamp_early o.early_off_seconds) q in
    end_in_sequence o gid event id skipped r

unfoldable pub run_in_sequence :
    Outside
    → (gid : ℕ) → (event : Option ℕ) → (override_duration override_percent : Option ℕ)
    → (manual : Bool) → ℕ
    → Thread
    → Thread
unfolding water_in_sequence weather_adjusted per_zone_dur
run_in_sequence o gid event minutes percent manual id p =
    let q = update (clear_stale gid p.scheduler) p in
    elim (lookup id q.scheduler.system.zones) [
      | none ↦ q
      | some z ↦
          let duration = duration_of o manual (per_zone_dur z.duration minutes percent).0 q in
          if nat_beq duration 0 then q else water_in_sequence o gid event id z duration q
    ]

-- The loop ends when the session is cancelled.
unfoldable pub run_sequence :
    Outside
    → (gid : ℕ) → (event : Option ℕ) → (override_duration override_percent : Option ℕ)
    → (manual : Bool) → List ℕ
    → Thread
    → Thread
unfolding look run_in_sequence
run_sequence o gid event minutes percent manual [] p = p
run_sequence o gid event minutes percent manual (id ∷ ids) p =
    let q = look o p in
    elim (event_is_set event q.scheduler) [
      | true ↦ q
      | false ↦
          run_sequence o gid event minutes percent manual ids
            (run_in_sequence o gid event minutes percent manual id q)
    ]

-- The `finally` of a sequence.
abbrev pub end_sequence : (gid : ℕ) → (event : Option ℕ) → Scheduler → Scheduler
end_sequence gid event s = drop_skip gid (elim event [ none ↦ s | some e ↦ release gid e s ])

unfoldable pub run_group_sequence :
    Outside
    → (gid : ℕ) → (zone_ids : List ℕ) → (override_duration override_percent : Option ℕ)
    → (manual : Bool) → Scheduler
    → Scheduler
unfolding run_sequence release
run_group_sequence o gid ids minutes percent manual s =
    let event = lookup gid s.group_cancel_events in
    if not manual && o.should_skip
    then end_sequence gid event (add_log (group_weather_skip gid) s)
    else end_sequence gid event (
        add_log (group_seq_complete gid ids)
          (run_sequence o gid event minutes percent manual ids
            (record { scheduler = s; looks = 0; clock = 0 })).scheduler)
