-- ===== src/Scheduler/Boot.antt =====
-- The first steps of `init_scheduler` of irrigation_scheduler.py, and the jobs that stop a zone and
-- clear the postponements.
use irrigation.Base.{
  ℕ, ◌-◌, ◌&&◌, Bool, true, false, List, [], ◌∷◌, Option, none, some, keep_if, if◌then◌else◌,
  nat_eq,
}
use irrigation.Base.Maps.{lookup}
use irrigation.ZoneControl.{
  off, starting, on, stopping, fault, paused, other, ZoneState, Zone, System, World, keys, publish,
}
use irrigation.ZoneControl.Stop.{Stop, stop_zone, stop_each}
use irrigation.Scheduler.{
  Call, job_stop_zone, job_close_master_valve, job_run_program, job_run_group_sequence, Scheduler,
  postpone_expired, zone_auto_stop, add_log, with_system, is_some,
}
use irrigation.ZoneControl.Master.{has_master, master_key, close_publish}
use irrigation.Scheduler.Jobs.{cleanup_jobs_on_boot}
use irrigation.Scheduler.Waiting.{Outside}
use irrigation.Scheduler.Sequence.{run_group_sequence}
use irrigation.Scheduler.Recovery.{Program, recover_missed_runs}
use irrigation.Scheduler.Programs.{load_programs}
use irrigation.Scheduler.Program.{run_program, is_over, clear_postpone}

abbrev pub auto_stop_stop : Stop
auto_stop_stop = record {
  reason = "auto_stop";
  force = false;
  master_close_immediately = false;
  skip_master_close = false;
}

-- `_stop_zone`: the job of a stop.
unfoldable pub job_stop : ℕ → World → Scheduler → Scheduler
unfolding stop_zone
job_stop id w s =
    let s₁ = with_system (stop_zone id auto_stop_stop w s.system).0 s in
    if is_some (lookup id s₁.system.zones) then add_log (zone_auto_stop id) s₁ else s₁

abbrev pub has_expired : (time : ℕ) → Option Zone → Bool
has_expired time none = false
has_expired time (some z) = elim z.postpone_until [ none ↦ false | some t ↦ is_over time t ]

unfoldable pub clear_each : List ℕ → Scheduler → Scheduler
clear_each [] s = s
clear_each (id ∷ ids) s =
    clear_each ids (add_log (postpone_expired id) (with_system (clear_postpone id s.system) s))

unfoldable pub clear_expired_postpones : (time : ℕ) → Scheduler → Scheduler
unfolding clear_each
clear_expired_postpones time s =
    clear_each (keep_if (λ id. has_expired time (lookup id s.system.zones)) (keys s.system.zones)) s

abbrev pub is_lingering : ZoneState → Bool
is_lingering starting = true
is_lingering on = true
is_lingering stopping = true
is_lingering paused = true
is_lingering off = false
is_lingering fault = false
is_lingering other = false

abbrev pub lingers : Option Zone → Bool
lingers none = false
lingers (some z) = is_lingering z.state

abbrev pub boot_stop : Stop
boot_stop = record {
  reason = "recovery_boot";
  force = true;
  master_close_immediately = false;
  skip_master_close = false;
}

unfoldable pub stop_on_boot_active_zones : World → System → System
unfolding stop_each
stop_on_boot_active_zones w s =
    stop_each (keep_if (λ id. lingers (lookup id s.zones)) (keys s.zones)) boot_stop w s

-- `init_scheduler`, once the scheduler has started. The pool of its jobs is live: `others n` is what
-- they do after the step `n`. What they do while the last step goes through the zones is left out.
unfoldable pub boot :
    List (ℕ × Program)
    → (midnight weekday : ℕ) → World
    → (others : ℕ → Scheduler → Scheduler) → Scheduler
    → Scheduler
unfolding clear_expired_postpones load_programs recover_missed_runs cleanup_jobs_on_boot
    stop_on_boot_active_zones
boot programs midnight weekday w others s =
    let s₀ = others 0 (clear_expired_postpones w.time s) in
    let s₁ = others 1 (load_programs programs midnight w.time s₀) in
    let s₂ = others 2 (recover_missed_runs programs weekday (w.time - midnight) w.time s₁) in
    let s₃ = others 3 (cleanup_jobs_on_boot s₂) in
    with_system (stop_on_boot_active_zones w s₃.system) s₃

-- `job_close_master_valve`: the limit on an open valve, whatever zones are on.
unfoldable pub close_master_valve : (gid : ℕ) → World → System → System
unfolding has_master
close_master_valve gid w s = elim (lookup gid s.groups) [
  | none ↦ s
  | some g ↦
      if has_master g && w.knows_server g.master_mqtt_server_id
      then publish (close_publish (master_key g) g) s
      else s
]

-- What a job does when it is due; a program that a job runs looks at the weather.
unfoldable pub run_call : Outside → Call → World → Scheduler → Scheduler
unfolding job_stop close_master_valve run_program run_group_sequence
run_call o (job_stop_zone id) w s = job_stop id w s
run_call o (job_close_master_valve gid) w s = with_system (close_master_valve gid w s.system) s
run_call o (job_run_program pid zones) w s = run_program o pid zones false s
run_call o (job_run_group_sequence gid ids minutes percent manual) w s =
    run_group_sequence o gid ids minutes percent manual s
