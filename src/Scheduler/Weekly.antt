-- ===== src/Scheduler/Weekly.antt =====
-- The starts of a program by the days of the week, as `schedule_program` of irrigation_scheduler.py
-- leaves them in the store of jobs.
use irrigation.Base.{
  ℕ, ◌≡◌, ◌∙◌, refl, sym, ap, inl, inr, Bool, true, false, ◌&&◌, List, [], ◌∷◌, Option, none, some,
  arith, contains, nat_eq, list_eq, nat_beq_iff, if◌then◌else◌, Bool-cases,
}
use irrigation.Base.Maps.{lookup}
use irrigation.Scheduler.{
  program_run, JobId, job_id, job_eq, Job, job_run_program, weekly, Scheduler,
}
use irrigation.Scheduler.Recovery.{weekdays, Time, Program, is_time, sorted}
use irrigation.Scheduler.Programs.{
  main_suffix, single_time, extra_jobs, planned_jobs, job_ids, is_empty_plan, fails,
  schedule_program,
}
use irrigation.Scheduler.Tracking.{
  IsTracked, is_run_of, last_of, or_else, contains-last, runs-contains, planned_jobs-AreRuns,
}
use irrigation.Scheduler.Planning.{schedule_program-plans}
use irrigation.Scheduler.Days.{
  start_at, start_on, extra_time, last_of-append, single-last, single-none, extras-main,
  extras-last, or_else-none,
}

run_itself : (pid : ℕ) (tag : List ℕ) → is_run_of pid (job_id program_run pid tag) ≡ true
run_itself pid tag = rw ((nat_beq_iff pid pid).1 refl) refl

start_on-cases :
    (pid : ℕ) (p : Program) (day : ℕ) (o : Option Time)
    → start_on pid p day o ≡ (elim o [
      | none ↦ none
      | some e ↦
          if is_time e && contains p.days day
          then some (start_at pid p day e.hours e.minutes)
          else none
    ])
start_on-cases pid p day none = refl
start_on-cases pid p day (some e) = refl

unplanned-foreign :
    (pid : ℕ) (p : Program) (midnight now : ℕ) (k : JobId)
    → is_run_of pid k ≡ false
    → contains (job_ids (planned_jobs pid p midnight now)) k ≡ false
unplanned-foreign pid p midnight now k foreign =
    let jobs = planned_jobs pid p midnight now in
    elim (Bool-cases (contains (job_ids jobs) k)) [
      | inr absent ↦ absent
      | inl listed ↦
          (let clash : false ≡ true =
              sym foreign
              ∙ runs-contains pid jobs k (planned_jobs-AreRuns pid p midnight now) listed in
            cc)
    ]

-- A start that is planned for the program is what the store has.
planned-start :
    (planned before : Option Job) (run : Bool)
    → run ≡ true
    → or_else planned (if run then none else before) ≡ planned
planned-start planned before run h = rw h (or_else-none planned)

-- A program by the days of the week that is enabled, with a time of the day, zones and days. Afterwards
-- the store has its main start exactly on its days, at the hour and the minute of its time; the
-- start of each extra time exactly on its days, at the hour and the minute of that extra time, unless
-- that is no time of the day; each start waters all zones of the program, in the order of their numbers;
-- and each job that is no start of the program is as before. This needs that all starts in the store
-- before are in the lists of the scheduler (so not after a restart with jobs that the store kept).
pub schedule_program-plans_week :
    (pid : ℕ) (p : Program) (midnight now : ℕ) (s : Scheduler) (t : Time) (day i : ℕ) (k : JobId)
    → IsTracked s
    → p.enabled ≡ true
    → p.time ≡ some t
    → is_time t ≡ true
    → p.schedule_type ≡ weekdays
    → is_empty_plan p ≡ false
    → is_run_of pid k ≡ false
    → let jobs = (schedule_program pid p midnight now s).jobs in
      let start : Time → Job = λ t. record {
        call = job_run_program pid (sorted p.zones);
        trigger = weekly day t.hours t.minutes;
      } in
      (lookup (job_id program_run pid (0 ∷ day ∷ [])) jobs
        ≡ (if contains p.days day then some (start t) else none))
      × (lookup (job_id program_run pid (1 ∷ i ∷ day ∷ [])) jobs
          ≡ (elim (extra_time i p.extra_times) [
            | none ↦ none
            | some e ↦ if is_time e && contains p.days day then some (start e) else none
          ]))
      × (lookup k jobs ≡ lookup k s.jobs)
schedule_program-plans_week pid p midnight now s t day i k h enabled time valid kind full foreign =
    let fine : fails p t s ≡ false = rw valid refl in
    let planned =
      λ (k : JobId). schedule_program-plans pid p midnight now s t k h enabled time full fine in
    let main = single_time pid p midnight now p.time main_suffix in
    let extras = extra_jobs pid p midnight now 0 p.extra_times in
    let first = job_id program_run pid (0 ∷ day ∷ []) in
    let second = job_id program_run pid (1 ∷ i ∷ day ∷ []) in
    let own = λ (k : JobId) (run : is_run_of pid k ≡ true).
      planned k
      ∙ planned-start (last_of k (planned_jobs pid p midnight now)) (lookup k s.jobs)
          (is_run_of pid k) run
      ∙ last_of-append k main extras in
    (
      own first (run_itself pid (0 ∷ day ∷ []))
          ∙ ap (λ o. or_else o (last_of first main))
              (extras-main pid p midnight now 0 p.extra_times day kind)
          ∙ single-last pid p midnight now p.time main_suffix day kind
          ∙ rw (time, valid) refl,
      own second (run_itself pid (1 ∷ i ∷ day ∷ []))
          ∙ ap (or_else (last_of second extras)) (
              single-none pid p midnight now p.time main_suffix (1 ∷ i ∷ day ∷ []) kind (λ d. refl))
          ∙ or_else-none (last_of second extras)
          ∙ extras-last pid p midnight now 0 i i p.extra_times day kind (omega arith)
          ∙ start_on-cases pid p day (extra_time i p.extra_times),
      planned k
          ∙ ap (λ o. or_else o (if is_run_of pid k then none else lookup k s.jobs))
              (contains-last (planned_jobs pid p midnight now) k
                (unplanned-foreign pid p midnight now k foreign))
          ∙ rw foreign refl,
    )
