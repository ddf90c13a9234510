-- ===== src/Scheduler/Days.antt =====
-- The starts of a program by the days of the week among the jobs that `schedule_program` of
-- irrigation_scheduler.py plans.
use irrigation.Base.{
  ℕ, zero, suc, ◌≡◌, ◌≤◌, ◌∙◌, ◌+◌, refl, ap, inl, inr, Bool, false, ◌&&◌, List, [], ◌∷◌, ◌++◌,
  Option, none, some, arith, contains, ◌==◌, nat_eq, list_eq, list_beq, nat_beq, nat_beq_iff,
  if◌then◌else◌, Bool-cases, Option-cases,
}
use irrigation.Scheduler.{program_run, JobId, job_id, job_eq, Job, job_run_program, weekly}
use irrigation.Scheduler.Recovery.{weekdays, Time, Program, is_time, sorted}
use irrigation.Scheduler.Programs.{Planned, weekly_jobs, extra_suffix, single_time, extra_jobs}
use irrigation.Scheduler.Tracking.{last_of, or_else}

-- The start of a program on a day of the week: all its zones, in the order of their numbers.
abbrev pub start_at : (program_id : ℕ) → Program → (day hours minutes : ℕ) → Job
start_at pid p day hours minutes = record {
  call = job_run_program pid (sorted p.zones);
  trigger = weekly day hours minutes;
}

-- On a day of the program there is a start at a time of the day, and on another day none.
abbrev pub start_on : (program_id : ℕ) → Program → (day : ℕ) → Option Time → Option Job
start_on pid p day none = none
start_on pid p day (some t) =
    if is_time t && contains p.days day then some (start_at pid p day t.hours t.minutes) else none

-- The extra time with the index, if there is one that can be read.
abbrev pub extra_time : (i : ℕ) → List (Option Time) → Option Time
extra_time i [] = none
extra_time zero (t ∷ times) = t
extra_time (suc i) (t ∷ times) = extra_time i times

pub last_of-append :
    (k : JobId) (xs ys : Planned) → last_of k (xs ++ ys) ≡ or_else (last_of k ys) (last_of k xs)
last_of-append k [] ys = elim (Option-cases (last_of k ys)) [
  | inl absent ↦ rw absent refl
  | inr (job, there) ↦ rw there refl
]
last_of-append k ((id, job) ∷ xs) ys =
    rw (last_of-append k xs ys) (elim (Option-cases (last_of k ys)) [
      | inl absent ↦ rw absent refl
      | inr (later, there) ↦ rw there refl
    ])

-- Starts of a program are told apart by their tags.
tags-eq :
    (pid : ℕ) (a b : List ℕ) → (job_id program_run pid a == job_id program_run pid b) ≡ list_beq a b
tags-eq pid a b = rw ((nat_beq_iff pid pid).1 refl) refl

same_suffix : (xs : List ℕ) (a b : ℕ) → list_beq (xs ++ a ∷ []) (xs ++ b ∷ []) ≡ (a == b)
same_suffix [] a b = ground arith
same_suffix (x ∷ xs) a b = rw ((nat_beq_iff x x).1 refl) (same_suffix xs a b)

-- Whether the first job is the one looked for.
last_of-first :
    (id k : JobId) (job : Job) (jobs : Planned) (same : Bool)
    → (id == k) ≡ same
    → last_of k ((id, job) ∷ jobs)
      ≡ elim (last_of k jobs) [ none ↦ if same then some job else none | some later ↦ some later ]
last_of-first id k job jobs same h =
    ap
      (λ b. elim (last_of k jobs) [ none ↦ if b then some job else none | some later ↦ some later ])
      h

weekly-last :
    (pid : ℕ) (p : Program) (t : Time) (suffix days : List ℕ) (day : ℕ)
    → last_of (job_id program_run pid (suffix ++ day ∷ [])) (weekly_jobs pid p t suffix days)
      ≡ (if contains days day then some (start_at pid p day t.hours t.minutes) else none)
weekly-last pid p t suffix [] day = refl
weekly-last pid p t suffix (d ∷ days) day =
    last_of-first (job_id program_run pid (suffix ++ d ∷ []))
      (job_id program_run pid (suffix ++ day ∷ [])) (start_at pid p d t.hours t.minutes)
      (weekly_jobs pid p t suffix days) (d == day)
      (tags-eq pid (suffix ++ d ∷ []) (suffix ++ day ∷ []) ∙ same_suffix suffix d day)
    ∙ rw (weekly-last pid p t suffix days day) (elim (Bool-cases (contains days day)) [
      | inl later ↦ rw later (ground arith)
      | inr absent ↦ rw absent (elim (Bool-cases (d == day)) [
        | inl same ↦ rw (same, (nat_beq_iff d day).0 same) refl
        | inr other ↦ rw other refl
      ])
    ])

weekly-none :
    (pid : ℕ) (p : Program) (t : Time) (suffix days tag : List ℕ)
    → ((d : ℕ) → list_beq (suffix ++ d ∷ []) tag ≡ false)
    → last_of (job_id program_run pid tag) (weekly_jobs pid p t suffix days) ≡ none
weekly-none pid p t suffix [] tag h = refl
weekly-none pid p t suffix (d ∷ days) tag h =
    rw (weekly-none pid p t suffix days tag h, tags-eq pid (suffix ++ d ∷ []) tag, h d) refl

pub single-last :
    (pid : ℕ) (p : Program) (midnight now : ℕ) (t : Option Time) (suffix : List ℕ) (day : ℕ)
    → p.schedule_type ≡ weekdays
    → last_of
        (job_id program_run pid (suffix ++ day ∷ []))
        (single_time pid p midnight now t suffix)
      ≡ start_on pid p day t
unfolding single_time
single-last pid p midnight now none suffix day kind = refl
single-last pid p midnight now (some t) suffix day kind = elim (Bool-cases (is_time t)) [
  | inl time ↦ rw (single_time, time, kind) (weekly-last pid p t suffix p.days day)
  | inr no_time ↦ rw (single_time, no_time) refl
]

pub single-none :
    (pid : ℕ) (p : Program) (midnight now : ℕ) (t : Option Time) (suffix tag : List ℕ)
    → p.schedule_type ≡ weekdays
    → ((d : ℕ) → list_beq (suffix ++ d ∷ []) tag ≡ false)
    → last_of (job_id program_run pid tag) (single_time pid p midnight now t suffix) ≡ none
unfolding single_time
single-none pid p midnight now none suffix tag kind h = refl
single-none pid p midnight now (some t) suffix tag kind h = elim (Bool-cases (is_time t)) [
  | inl time ↦ rw (single_time, time, kind) (weekly-none pid p t suffix p.days tag h)
  | inr no_time ↦ rw (single_time, no_time) refl
]

-- No extra start has the tag of a main one.
pub extras-main :
    (pid : ℕ) (p : Program) (midnight now idx : ℕ) (times : List (Option Time)) (day : ℕ)
    → p.schedule_type ≡ weekdays
    → last_of (job_id program_run pid (0 ∷ day ∷ [])) (extra_jobs pid p midnight now idx times)
      ≡ none
extras-main pid p midnight now idx [] day kind = refl
extras-main pid p midnight now idx (t ∷ times) day kind =
    last_of-append (job_id program_run pid (0 ∷ day ∷ []))
      (single_time pid p midnight now t (extra_suffix idx))
      (extra_jobs pid p midnight now (suc idx) times)
    ∙ rw
        (
          extras-main pid p midnight now (suc idx) times day kind,
          single-none pid p midnight now t (extra_suffix idx) (0 ∷ day ∷ []) kind (λ d. refl),
        )
        refl

earlier : (i idx day d : ℕ) → suc i ≤ idx → list_beq (1 ∷ idx ∷ d ∷ []) (1 ∷ i ∷ day ∷ []) ≡ false
earlier i idx day d h =
    let other : nat_beq idx i ≡ false = ground (arith, nat_beq_iff idx i) in rw other refl

-- The extra starts from an index on have none with an index before it.
extras-before :
    (pid : ℕ) (p : Program) (midnight now idx i : ℕ) (times : List (Option Time)) (day : ℕ)
    → p.schedule_type ≡ weekdays
    → suc i ≤ idx
    → last_of (job_id program_run pid (1 ∷ i ∷ day ∷ [])) (extra_jobs pid p midnight now idx times)
      ≡ none
extras-before pid p midnight now idx i [] day kind h = refl
extras-before pid p midnight now idx i (t ∷ times) day kind h =
    last_of-append (job_id program_run pid (1 ∷ i ∷ day ∷ []))
      (single_time pid p midnight now t (extra_suffix idx))
      (extra_jobs pid p midnight now (suc idx) times)
    ∙ rw
        (
          extras-before pid p midnight now (suc idx) i times day kind (omega (arith, h)),
          single-none pid p midnight now t (extra_suffix idx) (1 ∷ i ∷ day ∷ []) kind
              (λ d. earlier i idx day d h),
        )
        refl

later_tag : (idx j day d : ℕ) → suc idx ≤ j → list_beq (1 ∷ idx ∷ d ∷ []) (1 ∷ j ∷ day ∷ []) ≡ false
later_tag idx j day d h =
    let other : nat_beq idx j ≡ false = ground (arith, nat_beq_iff idx j) in rw other refl

pub or_else-none {ℓ} : {A : Type ℓ} (a : Option A) → or_else a none ≡ a
or_else-none none = refl
or_else-none (some a) = refl

-- The extra start with an index, from an index on.
pub extras-last :
    (pid : ℕ) (p : Program) (midnight now idx i j : ℕ) (times : List (Option Time)) (day : ℕ)
    → p.schedule_type ≡ weekdays
    → j ≡ idx + i
    → last_of (job_id program_run pid (1 ∷ j ∷ day ∷ [])) (extra_jobs pid p midnight now idx times)
      ≡ start_on pid p day (extra_time i times)
extras-last pid p midnight now idx i j [] day kind e = refl
extras-last pid p midnight now idx zero j (t ∷ times) day kind e =
    let here : j ≡ idx = omega (arith, e) in
    let times_here = single_time pid p midnight now t (extra_suffix idx) in
    ap
      (λ n.
        last_of (job_id program_run pid (1 ∷ n ∷ day ∷ []))
          (extra_jobs pid p midnight now idx (t ∷ times)))
      here
    ∙ last_of-append (job_id program_run pid (1 ∷ idx ∷ day ∷ [])) times_here
        (extra_jobs pid p midnight now (suc idx) times)
    ∙ ap (λ o. or_else o (last_of (job_id program_run pid (1 ∷ idx ∷ day ∷ [])) times_here))
        (extras-before pid p midnight now (suc idx) idx times day kind (omega arith))
    ∙ single-last pid p midnight now t (extra_suffix idx) day kind
extras-last pid p midnight now idx (suc i) j (t ∷ times) day kind e =
    let key = job_id program_run pid (1 ∷ j ∷ day ∷ []) in
    let times_here = single_time pid p midnight now t (extra_suffix idx) in
    let rest = extra_jobs pid p midnight now (suc idx) times in
    last_of-append key times_here rest
    ∙ ap (or_else (last_of key rest)) (
        single-none pid p midnight now t (extra_suffix idx) (1 ∷ j ∷ day ∷ []) kind
          (λ d. later_tag idx j day d (omega (arith, e))))
    ∙ or_else-none (last_of key rest)
    ∙ extras-last pid p midnight now (suc idx) i j times day kind (omega (arith, e))
