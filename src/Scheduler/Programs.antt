-- ===== src/Scheduler/Programs.antt =====
-- `schedule_program`, `_schedule_single_time`, `cancel_program` and `load_programs` of
-- irrigation_scheduler.py.
-- The columns of the planned starts, which are for the display, are left out.
use irrigation.Base.{
  ℕ, suc, ◌+◌, Bool, true, false, not, ◌&&◌, List, [], ◌∷◌, ◌++◌, Option, none, some, leb, any,
  length, if◌then◌else◌, nat_eq, nat_beq,
}
use irrigation.Base.Maps.{lookup, insert, get_or}
use irrigation.Scheduler.{
  program_run, JobId, job_id, job_eq, Job, job_run_program, weekly, monthly, interval, Scheduler,
  Trigger, is_some,
}
use irrigation.Scheduler.Jobs.{add_job, remove_job}
use irrigation.Scheduler.Recovery.{
  ScheduleType, weekdays, interval as every, even_odd, unknown, Time, Program, is_time, time_of_day,
  sorted,
}

unfoldable pub remove_each : List JobId → Scheduler → Scheduler
remove_each [] s = s
remove_each (id ∷ ids) s = remove_each ids (remove_job id s)

unfoldable pub cancel_program : (program_id : ℕ) → Scheduler → Scheduler
unfolding remove_each
cancel_program pid s =
    let s₁ = remove_each (get_or pid [] s.program_jobs) s in
    record s₁ { program_jobs = insert pid [] s₁.program_jobs }

-- `program:{id}:main` has the tag 0, and `program:{id}:extra:{i}` the tag 1, i; the day follows.
abbrev pub main_suffix : List ℕ
main_suffix = 0 ∷ []

abbrev pub extra_suffix : ℕ → List ℕ
extra_suffix i = 1 ∷ i ∷ []

abbrev pub Planned : Type 0
Planned = List (JobId × Job)

abbrev pub run_at : (program_id : ℕ) → Program → Trigger → Job
run_at pid p trigger = record { call = job_run_program pid (sorted p.zones); trigger = trigger }

abbrev pub weekly_jobs : (program_id : ℕ) → Program → Time → (suffix : List ℕ) → List ℕ → Planned
weekly_jobs pid p t suffix [] = []
weekly_jobs pid p t suffix (day ∷ days) =
    (job_id program_run pid (suffix ++ day ∷ []), run_at pid p (weekly day t.hours t.minutes))
    ∷ weekly_jobs pid p t suffix days

-- The first run of an interval: today, unless the time is over; `midnight` is the begin of the day.
abbrev pub start_date : (midnight now : ℕ) → Time → ℕ
start_date midnight now t =
    if leb (midnight + time_of_day t) now
    then midnight + time_of_day t + 86400
    else midnight + time_of_day t

-- The jobs of one start of a program; a day of the week is 0 to 6 for the trigger.
abbrev pub by_type :
    (program_id : ℕ)
    → Program
    → (midnight now : ℕ) → Time
    → (suffix : List ℕ) → ScheduleType
    → Planned
by_type pid p midnight now t suffix weekdays = weekly_jobs pid p t suffix p.days
by_type pid p midnight now t suffix every =
    (
      job_id program_run pid suffix,
      run_at pid p (interval p.interval_days (start_date midnight now t)),
    )
    ∷ []
by_type pid p midnight now t suffix even_odd =
    (job_id program_run pid suffix, run_at pid p (monthly p.even t.hours t.minutes)) ∷ []
by_type pid p midnight now t suffix unknown = []

-- A time that is none of the day gives no job.
unfoldable pub single_time :
    (program_id : ℕ) → Program → (midnight now : ℕ) → Option Time → (suffix : List ℕ) → Planned
single_time pid p midnight now none suffix = []
single_time pid p midnight now (some t) suffix =
    if is_time t then by_type pid p midnight now t suffix p.schedule_type else []

abbrev pub extra_jobs :
    (program_id : ℕ) → Program → (midnight now : ℕ) → (idx : ℕ) → List (Option Time) → Planned
extra_jobs pid p midnight now idx [] = []
extra_jobs pid p midnight now idx (t ∷ times) =
    single_time pid p midnight now t (extra_suffix idx)
    ++ extra_jobs pid p midnight now (suc idx) times

-- All the jobs of a program.
abbrev pub planned_jobs : (program_id : ℕ) → Program → (midnight now : ℕ) → Planned
planned_jobs pid p midnight now =
    single_time pid p midnight now p.time main_suffix
    ++ extra_jobs pid p midnight now 0 p.extra_times

unfoldable pub add_jobs : Planned → Scheduler → Scheduler
add_jobs [] s = s
add_jobs ((id, job) ∷ jobs) s = add_jobs jobs (add_job id job s)

abbrev pub job_ids : Planned → List JobId
job_ids [] = []
job_ids ((id, job) ∷ jobs) = id ∷ job_ids jobs

-- Nothing to plan: no zones, or no days for a program of the days of the week.
abbrev pub is_empty_plan : Program → Bool
is_empty_plan p = if nat_beq (length p.zones) 0 then true else elim p.schedule_type [
  | weekdays ↦ nat_beq (length p.days) 0
  | every ↦ false
  | even_odd ↦ false
  | unknown ↦ false
]

-- The planned start of a zone that is there fails if the hour or the minute is no time of the day.
abbrev pub fails : Program → Time → Scheduler → Bool
fails p t s = not (is_time t) && any (λ id. is_some (lookup id s.system.zones)) p.zones

unfoldable pub schedule_program :
    (program_id : ℕ) → Program → (midnight now : ℕ) → Scheduler → Scheduler
unfolding cancel_program single_time add_jobs
schedule_program pid p midnight now s =
    let cancelled = cancel_program pid s in
    let planned = planned_jobs pid p midnight now in
    if not p.enabled then cancelled else elim p.time [
      | none ↦ s
      | some t ↦
          if is_empty_plan p
          then s
          else (if fails p t s
              then cancelled
              else (let added = add_jobs planned cancelled in
                  record added { program_jobs = insert pid (job_ids planned) added.program_jobs }))
    ]

unfoldable pub load_programs : List (ℕ × Program) → (midnight now : ℕ) → Scheduler → Scheduler
unfolding schedule_program
load_programs [] midnight now s = s
load_programs ((pid, p) ∷ programs) midnight now s =
    load_programs programs midnight now (schedule_program pid p midnight now s)
