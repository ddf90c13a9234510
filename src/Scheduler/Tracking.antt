-- ===== src/Scheduler/Tracking.antt =====
-- The jobs of the programs in irrigation_scheduler.py: those of the store, and the lists that the
-- scheduler keeps of them.
use irrigation.Base.{
  ℕ, suc, ◌≡◌, ◌∙◌, refl, sym, ap, inl, inr, Bool, true, false, ◌&&◌, List, [], ◌∷◌, ◌++◌, Option,
  none, some, arith, All, All-append, contains, ◌==◌, nat_eq, nat_beq_iff, if◌then◌else◌,
  Bool-cases, Option-cases,
}
use irrigation.Base.Maps.{lookup, insert, erase, get_or, lookup-insert, lookup-erase}
use irrigation.Scheduler.{program_run, kind_beq, JobId, Job, job_id, job_eq, Scheduler}
use irrigation.Scheduler.Recovery.{
  weekdays, interval as every, even_odd, unknown, Time, Program, is_time,
}
use irrigation.Scheduler.Programs.{
  remove_each, cancel_program, main_suffix, extra_suffix, Planned, weekly_jobs, by_type,
  single_time, extra_jobs, planned_jobs, add_jobs, job_ids,
}

-- A start of the program.
abbrev pub is_run_of : (program_id : ℕ) → JobId → Bool
is_run_of pid k = kind_beq k.kind program_run && k.number == pid

abbrev pub jobs_of : ℕ → Scheduler → List JobId
jobs_of pid s = get_or pid [] s.program_jobs

-- The lists have all starts of the programs that are in the store, and starts of their program only.
pub record IsTracked (s : Scheduler) : Type 0 where
  pub listed :
      (pid : ℕ) (k : JobId)
      → is_run_of pid k ≡ true
      → contains (jobs_of pid s) k ≡ false
      → lookup k s.jobs ≡ none
  pub own : (pid : ℕ) (k : JobId) → contains (jobs_of pid s) k ≡ true → is_run_of pid k ≡ true

-- The last job that is added under an id.
abbrev pub last_of : JobId → Planned → Option Job
last_of k [] = none
last_of k ((id, job) ∷ jobs) = elim (last_of k jobs) [
  | none ↦ if id == k then some job else none
  | some later ↦ some later
]

abbrev pub or_else {ℓ} : {A : Type ℓ} → Option A → Option A → Option A
or_else none b = b
or_else (some a) b = some a

pub lookup-remove_each :
    (ids : List JobId) (k : JobId) (s : Scheduler)
    → lookup k (remove_each ids s).jobs ≡ (if contains ids k then none else lookup k s.jobs)
unfolding remove_each
lookup-remove_each [] k s = refl
lookup-remove_each (id ∷ ids) k s =
    lookup-remove_each ids k (record s { jobs = erase id s.jobs })
    ∙ rw (lookup-erase id k s.jobs) (ground arith)

pub lookup-add_jobs :
    (jobs : Planned) (k : JobId) (s : Scheduler)
    → lookup k (add_jobs jobs s).jobs ≡ or_else (last_of k jobs) (lookup k s.jobs)
unfolding add_jobs
lookup-add_jobs [] k s = refl
lookup-add_jobs ((id, job) ∷ jobs) k s =
    lookup-add_jobs jobs k (record s { jobs = insert id job s.jobs })
    ∙ rw (lookup-insert id k job s.jobs) (elim (Option-cases (last_of k jobs)) [
      | inl last ↦
          rw last
            (elim (Bool-cases (id == k)) [ inl same ↦ rw same refl | inr other ↦ rw other refl ])
      | inr (later, there) ↦ rw there refl
    ])

pub remove_each-programs :
    (ids : List JobId) (s : Scheduler) → (remove_each ids s).program_jobs ≡ s.program_jobs
unfolding remove_each
remove_each-programs [] s = refl
remove_each-programs (id ∷ ids) s = remove_each-programs ids (record s { jobs = erase id s.jobs })

pub add_jobs-programs :
    (jobs : Planned) (s : Scheduler) → (add_jobs jobs s).program_jobs ≡ s.program_jobs
unfolding add_jobs
add_jobs-programs [] s = refl
add_jobs-programs ((id, job) ∷ jobs) s =
    add_jobs-programs jobs (record s { jobs = insert id job s.jobs })

-- A cancel removes the starts of the program and no other job.
pub lookup-cancel_program :
    (pid : ℕ) (k : JobId) (s : Scheduler)
    → IsTracked s
    → lookup k (cancel_program pid s).jobs ≡ (if is_run_of pid k then none else lookup k s.jobs)
unfolding cancel_program
lookup-cancel_program pid k s h =
    lookup-remove_each (jobs_of pid s) k s ∙ (elim (Bool-cases (contains (jobs_of pid s) k)) [
      | inl listed ↦ rw (listed, h.own pid k listed) refl
      | inr unlisted ↦ rw unlisted (elim (Bool-cases (is_run_of pid k)) [
        | inl run ↦ rw run (h.listed pid k run unlisted)
        | inr another ↦ rw another refl
      ])
    ])

-- What is planned for a program are starts of it.
abbrev pub AreRuns : (program_id : ℕ) → Planned → Type 0
AreRuns pid jobs = All (λ (entry : JobId × Job). is_run_of pid entry.0 ≡ true) jobs

runs_itself : (pid : ℕ) (tag : List ℕ) → is_run_of pid (job_id program_run pid tag) ≡ true
runs_itself pid tag = rw ((nat_beq_iff pid pid).1 refl) refl

weekly_jobs-AreRuns :
    (pid : ℕ) (p : Program) (t : Time) (suffix days : List ℕ)
    → AreRuns pid (weekly_jobs pid p t suffix days)
weekly_jobs-AreRuns pid p t suffix [] = tt
weekly_jobs-AreRuns pid p t suffix (day ∷ days) =
    (runs_itself pid (suffix ++ day ∷ []), weekly_jobs-AreRuns pid p t suffix days)

single_time-AreRuns :
    (pid : ℕ) (p : Program) (midnight now : ℕ) (t : Option Time) (suffix : List ℕ)
    → AreRuns pid (single_time pid p midnight now t suffix)
unfolding single_time
single_time-AreRuns pid p midnight now none suffix = tt
single_time-AreRuns pid p midnight now (some t) suffix = elim (Bool-cases (is_time t)) [
  | inr no_time ↦ rw (single_time, no_time) tt
  | inl time ↦
      rw (single_time, time)
        (elim p.schedule_type as (λ k. AreRuns pid (by_type pid p midnight now t suffix k)) [
          | weekdays ↦ weekly_jobs-AreRuns pid p t suffix p.days
          | every ↦ (runs_itself pid suffix, tt)
          | even_odd ↦ (runs_itself pid suffix, tt)
          | unknown ↦ tt
        ])
]

extra_jobs-AreRuns :
    (pid : ℕ) (p : Program) (midnight now idx : ℕ) (times : List (Option Time))
    → AreRuns pid (extra_jobs pid p midnight now idx times)
extra_jobs-AreRuns pid p midnight now idx [] = tt
extra_jobs-AreRuns pid p midnight now idx (t ∷ times) =
    All-append _ (single_time pid p midnight now t (extra_suffix idx))
      (extra_jobs pid p midnight now (suc idx) times)
      (single_time-AreRuns pid p midnight now t (extra_suffix idx))
      (extra_jobs-AreRuns pid p midnight now (suc idx) times)

pub planned_jobs-AreRuns :
    (pid : ℕ) (p : Program) (midnight now : ℕ) → AreRuns pid (planned_jobs pid p midnight now)
planned_jobs-AreRuns pid p midnight now =
    All-append _ (single_time pid p midnight now p.time main_suffix)
      (extra_jobs pid p midnight now 0 p.extra_times)
      (single_time-AreRuns pid p midnight now p.time main_suffix)
      (extra_jobs-AreRuns pid p midnight now 0 p.extra_times)

pub runs-contains :
    (pid : ℕ) (jobs : Planned) (k : JobId)
    → AreRuns pid jobs
    → contains (job_ids jobs) k ≡ true
    → is_run_of pid k ≡ true
runs-contains pid [] k h listed = ground arith
runs-contains pid ((id, job) ∷ jobs) k h listed = elim (Bool-cases (id == k)) [
  | inl same ↦ ap (is_run_of pid) (sym ((job_eq.eqb_iff id k).0 same)) ∙ h.0
  | inr other ↦ runs-contains pid jobs k h.1 (rw other at listed)
]

pub contains-last :
    (jobs : Planned) (k : JobId) → contains (job_ids jobs) k ≡ false → last_of k jobs ≡ none
contains-last [] k h = refl
contains-last ((id, job) ∷ jobs) k h = elim (Bool-cases (id == k)) [
  | inl same ↦ (let clash : true ≡ false = rw same at h in cc)
  | inr other ↦ rw (contains-last jobs k (rw other at h), other) refl
]

pub jobs_of-insert :
    (pid k : ℕ) (ids : List JobId) (m : List (ℕ × List JobId))
    → get_or k [] (insert pid ids m) ≡ (if pid == k then ids else get_or k [] m)
jobs_of-insert pid k ids m =
    rw (get_or, lookup-insert pid k ids m)
      (elim (Bool-cases (pid == k)) [ inl same ↦ rw same refl | inr other ↦ rw other refl ])
