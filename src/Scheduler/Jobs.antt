-- ===== src/Scheduler/Jobs.antt =====
-- The jobs of irrigation_scheduler.py on single zones, groups and master valves, and the cancelling
-- of a group.
-- The jobs are kept as APScheduler does: by id, where adding one that is there fails or replaces it.
use irrigation.Base.{
  ℕ, ◌+◌, ◌-◌, ◌*◌, min, Bool, true, false, not, ◌||◌, ◌&&◌, List, [], ◌∷◌, Option, none, some, leb,
  keep_if, if◌then◌else◌, ◌==◌, nat_eq, list_eq, pair_eq,
}
use irrigation.Base.Maps.{lookup, insert, erase}
use irrigation.ZoneControl.{World, zones_by_group}
use irrigation.ZoneControl.Stop.{Stop, stop_all_in_group}
use irrigation.Scheduler.{
  zone_stop, zone_hard_stop, zone_cap_stop, master_cap_close, group_seq, kind_beq, JobId, job_eq,
  job_id, Job, job_stop_zone, job_close_master_valve, date, Scheduler, set_event, is_some,
  with_system,
}

abbrev pub add_job : JobId → Job → Scheduler → Scheduler
add_job id job s = record s { jobs = insert id job s.jobs }

abbrev pub remove_job : JobId → Scheduler → Scheduler
remove_job id s = record s { jobs = erase id s.jobs }

-- The loop over the jobs that are to go.
abbrev pub remove_jobs : (JobId → Bool) → Scheduler → Scheduler
remove_jobs p s = record s { jobs = keep_if (λ entry. not (p entry.0)) s.jobs }

-- A time that is over is moved a second ahead.
abbrev pub in_future : (now run_at : ℕ) → ℕ
in_future now run_at = if leb run_at now then now + 1 else run_at

abbrev pub clamp_early : ℕ → ℕ
clamp_early early = min early 15

abbrev stop_at : (zone_id run_at : ℕ) → Job
stop_at id run_at = record { call = job_stop_zone id; trigger = date run_at }

abbrev pub stop_time : (now minutes early : ℕ) → ℕ
stop_time now minutes early = in_future now (now + minutes * 60 - clamp_early early)

-- The id has the command, or else the time; one that is there already is kept, and nothing changes.
unfoldable pub schedule_zone_stop :
    (id : ℕ)
    → (duration_minutes : Option ℕ) → (command_id : List ℕ) → (early now : ℕ) → Scheduler
    → Scheduler
schedule_zone_stop id none command_id early now s = s
schedule_zone_stop id (some minutes) command_id early now s =
    let run_at = stop_time now minutes early in
    let key = job_id zone_stop id (elim command_id [ [] ↦ run_at ∷ [] | c ∷ cs ↦ c ∷ cs ]) in
    if is_some (lookup key s.jobs) then s else record (add_job key (stop_at id run_at) s) {
      active_zones = insert id run_at s.active_zones;
    }

unfoldable pub schedule_zone_hard_stop : (id run_at now : ℕ) → Scheduler → Scheduler
schedule_zone_hard_stop id run_at now s =
    add_job (job_id zone_hard_stop id []) (stop_at id (in_future now run_at)) s

unfoldable pub schedule_zone_cap : (id cap_minutes now : ℕ) → Scheduler → Scheduler
schedule_zone_cap id cap_minutes now s =
    add_job (job_id zone_cap_stop id []) (stop_at id (now + cap_minutes * 60)) s

unfoldable pub cancel_zone_cap : (id : ℕ) → Scheduler → Scheduler
cancel_zone_cap id s = remove_job (job_id zone_cap_stop id []) s

unfoldable pub schedule_master_valve_cap : (gid hours now : ℕ) → Scheduler → Scheduler
schedule_master_valve_cap gid hours now s =
    add_job (job_id master_cap_close gid [])
      (record { call = job_close_master_valve gid; trigger = date (now + hours * 3600) }) s

unfoldable pub cancel_master_valve_cap : (gid : ℕ) → Scheduler → Scheduler
cancel_master_valve_cap gid s = remove_job (job_id master_cap_close gid []) s

-- A job that stops a zone at the end of its run.
abbrev pub is_stop : JobId → Bool
is_stop job = kind_beq job.kind zone_stop || kind_beq job.kind zone_hard_stop

abbrev pub is_stop_of : (id : ℕ) → JobId → Bool
is_stop_of id job = is_stop job && job.number == id

abbrev pub is_sequence_of : (gid : ℕ) → JobId → Bool
is_sequence_of gid job = kind_beq job.kind group_seq && job.number == gid

unfoldable pub cancel_zone_jobs : (id : ℕ) → Scheduler → Scheduler
cancel_zone_jobs id s = record (remove_jobs (is_stop_of id) s) {
  active_zones = erase id s.active_zones;
}

unfoldable pub cancel_each : List ℕ → Scheduler → Scheduler
unfolding cancel_zone_jobs
cancel_each [] s = s
cancel_each (id ∷ ids) s = cancel_each ids (cancel_zone_jobs id s)

abbrev pub cancel_stop : (master_close_immediately : Bool) → Stop
cancel_stop immediate = record {
  reason = "group_cancel";
  force = true;
  master_close_immediately = immediate;
  skip_master_close = false;
}

abbrev pub set_cancel : (gid : ℕ) → Scheduler → Scheduler
set_cancel gid s = elim (lookup gid s.group_cancel_events) [
  | none ↦ s
  | some e ↦ set_event e true s
]

-- The session is cancelled and the zones of the group are stopped.
unfoldable pub halt_group :
    (gid : ℕ) → (master_close_immediately : Bool) → World → Scheduler → Scheduler
unfolding stop_all_in_group
halt_group gid immediate w s =
    let s₁ = set_cancel gid s in
    with_system (stop_all_in_group gid (cancel_stop immediate) w s₁.system) s₁

unfoldable pub cancel_group_jobs :
    (gid : ℕ) → (master_close_immediately : Bool) → World → Scheduler → Scheduler
unfolding cancel_each halt_group zones_by_group
cancel_group_jobs gid immediate w s =
    let s₁ = halt_group gid immediate w s in
    remove_jobs (is_sequence_of gid) (cancel_each (zones_by_group gid s₁.system) s₁)

unfoldable pub cleanup_jobs_on_boot : Scheduler → Scheduler
cleanup_jobs_on_boot s =
    remove_jobs (λ job. kind_beq job.kind zone_stop || kind_beq job.kind group_seq) s
