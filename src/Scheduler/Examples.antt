-- ===== src/Scheduler/Examples.antt =====
-- The scheduler with a garden of two groups: its properties at concrete inputs, and runs of it.
use irrigation.Base.{
  ℕ, ◌≡◌, ◌≤◌, ◌<◌, ◌+◌, ◌*◌, refl, true, false, List, [], ◌∷◌, ◌++◌, none, some, arith, ◌==◌,
  if◌then◌else◌, nat_eq, list_eq,
}
use irrigation.Base.Maps.{lookup, adjust}
use irrigation.Topics.{lstrip, rstrip}
use irrigation.ZoneControl.{off, World, zones_by_group}
use irrigation.ZoneControl.Master.{is_on_or_starting}
use irrigation.ZoneControl.Trace.{start, IsExclusive}
use irrigation.ZoneControl.Examples.{relay_b, zone_at, garden, outside, one_runs}
use irrigation.Scheduler.{
  Job, JobId, job_id, job_eq, group_seq, zone_stop, program_run, job_stop_zone, job_run_program,
  date, weekly, Scheduler, zone_auto_start, zone_skip, program_start, program_finish, is_cancelled,
}
use irrigation.Scheduler.Jobs.{cancel_group_jobs}
use irrigation.Scheduler.Waiting.{
  Request, skip_current_zone, cancel_group, control, serve, Outside, Thread,
}
use irrigation.Scheduler.Program.{start_scheduled, run_zones, run_program}
use irrigation.Scheduler.Recovery.{
  Time, weekdays, Program, sum, durations, duration_in, missed_zones, start_idx,
}
use irrigation.Scheduler.Programs.{single_time, planned_jobs, schedule_program}
use irrigation.Scheduler.Sequence.{sequence_zones, start_group_sequence, run_group_sequence}
use irrigation.Scheduler.Boot.{boot}
use irrigation.Scheduler.Resting.{run_program-rests}
use irrigation.Scheduler.Sequencing.{run_group_sequence-rests}
use irrigation.Scheduler.Exclusive.{run_program-IsExclusive}
use irrigation.Scheduler.Sessions.{run_program-sessions}
use irrigation.Scheduler.Undisturbed.{IsCalm, IsUndisturbed, plan}
use irrigation.Scheduler.OnTime.{run_program-on_time}
use irrigation.Scheduler.Halted.{starts_in, run_zones-halted}
use irrigation.Scheduler.Resuming.{missed_zones-resumes}
use irrigation.Scheduler.Booting.{boot-stops}
use irrigation.Scheduler.Stranding.{cancel_group_jobs-stranded}
use irrigation.Scheduler.Tracking.{IsTracked, is_run_of, last_of}
use irrigation.Scheduler.Planning.{schedule_program-IsTracked}
use irrigation.Scheduler.Weekly.{schedule_program-plans_week}

abbrev idle : Scheduler
idle = record {
  system = garden;
  is_set = λ e. false;
  fresh = 0;
  group_cancel_events = [];
  group_skip_current_events = [];
  last_skip_ts = [];
  active_zones = [];
  jobs = (job_id zone_stop 5 (7 ∷ []), record { call = job_stop_zone 5; trigger = date 700 }) ∷ [];
  program_jobs = [];
  shutdown = false;
  log = [];
}

-- Group 1 has a session; in `cancelled` it is cancelled.
abbrev busy : Scheduler
busy = record idle { fresh = 1; group_cancel_events = (1, 0) ∷ [] }

abbrev cancelled : Scheduler
cancelled = record busy { is_set = λ e. e == 0 }

abbrev alone : Outside
alone = record {
  time = 100;
  now = 2000;
  world = λ n. outside;
  others = λ n. [];
  coefficient = λ n. none;
  should_skip = false;
  cancelled_today = λ n gid. false;
  early_off_seconds = 3;
}

abbrev requests : List (Request × World)
requests =
    (skip_current_zone 1 6000, outside)
    ∷ (control (start 5 "manual"), outside)
    ∷ (cancel_group 2 false, outside)
    ∷ []

-- The same requests at each look.
abbrev crowded : Outside
crowded = record alone { others = λ n. requests; coefficient = λ n. some 50 }

run_program-rests_example :
    is_on_or_starting 6 (run_program crowded 1 (6 ∷ 7 ∷ []) true idle).system ≡ false
run_program-rests_example =
    run_program-rests (λ i. i == 5) crowded 1 (6 ∷ 7 ∷ []) true idle 6 (λ n. (tt, (refl, (tt, tt))))
      refl refl

run_program-IsExclusive_example :
    IsExclusive 1 (run_program crowded 1 (6 ∷ 7 ∷ []) true idle).system
run_program-IsExclusive_example =
    run_program-IsExclusive 1 crowded 1 (6 ∷ 7 ∷ []) true idle (ground arith) one_runs

run_program-sessions_example :
    lookup 2 (run_program crowded 1 (6 ∷ 7 ∷ []) true busy).group_cancel_events ≡ none
run_program-sessions_example = run_program-sessions crowded 1 (6 ∷ 7 ∷ []) true busy 2

run_group_sequence-rests_example :
    is_on_or_starting 6 (run_group_sequence crowded 1 (5 ∷ 6 ∷ []) (some 20) none false busy).system
    ≡ false
run_group_sequence-rests_example =
    run_group_sequence-rests (λ i. i == 5) crowded 1 (5 ∷ 6 ∷ []) (some 20) none false busy 6
      (λ n. (tt, (refl, (tt, tt)))) refl refl

undisturbed : IsUndisturbed alone
undisturbed = record {
  others = λ n. refl;
  coefficient = λ n. refl;
  should_skip = refl;
  cancelled_today = λ n gid. refl;
}

calm : IsCalm idle
calm = record { cancelled = λ gid. refl; skipped = λ gid. refl; shutdown = refl }

run_program-on_time_example :
    let start = start_scheduled 6 1 10 outside idle in
    ((run_program alone 1 (6 ∷ 5 ∷ []) false idle).log
      ≡ program_start 1 ∷ (plan 100 garden (6 ∷ 5 ∷ []) ++ program_finish 1 ∷ []))
    × (start.log ≡ zone_auto_start 6 10 700 ∷ [])
    × (is_on_or_starting 6 start.system ≡ true)
run_program-on_time_example =
    run_program-on_time alone 1 (6 ∷ 5 ∷ []) false idle undisturbed calm (λ gid. refl)
      (
        record { duration = 10; row = refl; positive = ground arith },
        (record { duration = 10; row = refl; positive = ground arith }, tt),
      )
      6 1 10 outside idle (zone_at 1 off relay_b) refl (ground arith)

abbrev late : Thread
late = record { scheduler = cancelled; looks = 4; clock = 30 }

run_zones-halted_example :
    let s' = (run_zones crowded true (5 ∷ 6 ∷ 7 ∷ []) late).scheduler in
    (is_cancelled 1 s' ≡ true) × (starts_in 1 garden s'.log ≡ [])
run_zones-halted_example = run_zones-halted 1 crowded true (5 ∷ 6 ∷ 7 ∷ []) late refl

-- Begun at 0, and 700 seconds later the second zone is due.
missed_zones-resumes_example :
    (first : List ℕ) × (id : ℕ) × (rest : List ℕ) × (6 ∷ 7 ∷ [] ≡ first ++ id ∷ rest)
    × (missed_zones 0 700 (6 ∷ 7 ∷ []) garden ≡ id ∷ rest)
    × 0 + sum (durations garden first) * 60 ≤ 700
    × 700 < 0 + (sum (durations garden first) + duration_in garden id) * 60
missed_zones-resumes_example =
    missed_zones-resumes 0 700 (6 ∷ 7 ∷ []) garden (omega arith) (omega arith) refl

resumed : missed_zones 0 700 (6 ∷ 7 ∷ []) garden ≡ 7 ∷ []
unfolding missed_zones start_idx
resumed = refl

abbrev morning : Program
morning = record {
  enabled = true;
  time = some (record { hours = 6; minutes = 30 });
  extra_times = some (record { hours = 20; minutes = 0 }) ∷ none ∷ [];
  zones = 7 ∷ 6 ∷ [];
  schedule_type = weekdays;
  days = 0 ∷ 2 ∷ [];
  interval_days = 1;
  even = true;
}

-- A job that is live switches zone 6 on as soon as the missed runs are recovered.
abbrev live_job : ℕ → Scheduler → Scheduler
live_job n s = if n == 2 then serve (control (start 6 "program")) outside s else s

boot-stops_example :
    is_on_or_starting 6 (boot ((1, morning) ∷ []) 0 2 outside live_job idle).system ≡ false
unfolding serve
boot-stops_example = boot-stops ((1, morning) ∷ []) 0 2 outside live_job idle 6

cancel_group_jobs-stranded_example :
    let s' =
      cancel_group_jobs 1 false outside (start_group_sequence 1 none none none true 100 idle).0 in
    ((tag : List ℕ) → lookup (job_id group_seq 1 tag) s'.jobs ≡ none) × (is_cancelled 1 s' ≡ true)
unfolding start_group_sequence sequence_zones zones_by_group
cancel_group_jobs-stranded_example =
    cancel_group_jobs-stranded 1 none none none true 100 false outside idle refl

untouched : (k : JobId) (pid : ℕ) → is_run_of pid k ≡ true → lookup k idle.jobs ≡ none
untouched k pid h = ground (arith, job_eq.eqb_iff (job_id zone_stop 5 (7 ∷ [])) k)

tracked : IsTracked idle
tracked = record {
  listed = λ pid k run unlisted. untouched k pid run;
  own = λ pid k listed. ground arith;
}

schedule_program-IsTracked_example : IsTracked (schedule_program 1 morning 0 50 idle)
schedule_program-IsTracked_example = schedule_program-IsTracked 1 morning 0 50 idle tracked

schedule_program-plans_week_example :
    let jobs = (schedule_program 1 morning 0 50 idle).jobs in
    let start : Time → Job =
      λ t. record { call = job_run_program 1 (6 ∷ 7 ∷ []); trigger = weekly 2 t.hours t.minutes } in
    (lookup (job_id program_run 1 (0 ∷ 2 ∷ [])) jobs
      ≡ some (start (record { hours = 6; minutes = 30 })))
    × (lookup (job_id program_run 1 (1 ∷ 0 ∷ 2 ∷ [])) jobs
        ≡ some (start (record { hours = 20; minutes = 0 })))
    × (lookup (job_id zone_stop 5 (7 ∷ [])) jobs
        ≡ some (record { call = job_stop_zone 5; trigger = date 700 }))
schedule_program-plans_week_example =
    schedule_program-plans_week 1 morning 0 50 idle (record { hours = 6; minutes = 30 }) 2 0
      (job_id zone_stop 5 (7 ∷ [])) tracked refl refl refl refl refl refl

-- The first start on the day 2, and one on the day 1, which is not planned.
planned_starts :
    (last_of (job_id program_run 1 (0 ∷ 2 ∷ [])) (planned_jobs 1 morning 0 50)
      ≡ some (record { call = job_run_program 1 (6 ∷ 7 ∷ []); trigger = weekly 2 6 30 }))
    × (last_of (job_id program_run 1 (0 ∷ 1 ∷ [])) (planned_jobs 1 morning 0 50) ≡ none)
unfolding single_time
planned_starts = (refl, refl)

-- A minute for zone 6 and for zone 5.
abbrev short : Scheduler
short = record idle {
  system = record garden {
    zones =
        adjust 5 (λ z. record z { duration = 1 })
          (adjust 6 (λ z. record z { duration = 1 }) garden.zones);
  };
}

short_run :
    (run_program alone 1 (6 ∷ 5 ∷ []) true short).log
    ≡ program_start 1 ∷ zone_auto_start 6 1 160 ∷ zone_auto_start 5 1 220 ∷ program_finish 1 ∷ []
unfolding run_program lstrip rstrip
short_run = refl

-- A cancel of the group while zone 6 runs: zone 5 is not started.
abbrev interrupted : Outside
interrupted = record alone {
  others = λ n. if n == 4 then (cancel_group 1 false, outside) ∷ [] else [];
}

cancelled_run :
    (run_program interrupted 1 (6 ∷ 5 ∷ []) true short).log
    ≡ program_start 1 ∷ zone_auto_start 6 1 160 ∷ program_finish 1 ∷ []
unfolding run_program lstrip rstrip
cancelled_run = refl

-- A skip of zone 6 lets zone 5 start at once.
abbrev impatient : Outside
impatient = record alone {
  others = λ n. if n == 4 then (skip_current_zone 1 6000, outside) ∷ [] else [];
}

skipped_run :
    (run_program impatient 1 (6 ∷ 5 ∷ []) true short).log
    ≡ program_start 1
      ∷ zone_auto_start 6 1 160
      ∷ zone_skip 1 6
      ∷ zone_auto_start 5 1 163
      ∷ program_finish 1
      ∷ []
unfolding run_program lstrip rstrip
skipped_run = refl
