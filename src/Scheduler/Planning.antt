-- ===== src/Scheduler/Planning.antt =====
-- What `schedule_program` of irrigation_scheduler.py leaves in the store of jobs.
use irrigation.Base.{
  ℕ, ◌≡◌, ◌∙◌, refl, sym, ap, inl, inr, Bool, true, false, not, [], Option, none, some, arith,
  contains, ◌==◌, nat_eq, nat_beq_iff, if◌then◌else◌, Bool-cases, Option-cases,
}
use irrigation.Base.Maps.{lookup, insert}
use irrigation.Scheduler.{JobId, job_eq, Scheduler}
use irrigation.Scheduler.Recovery.{Time, Program}
use irrigation.Scheduler.Programs.{
  Planned, cancel_program, planned_jobs, add_jobs, job_ids, is_empty_plan, fails, schedule_program,
}
use irrigation.Scheduler.Tracking.{
  is_run_of, jobs_of, IsTracked, AreRuns, last_of, or_else, lookup-add_jobs, remove_each-programs,
  add_jobs-programs, lookup-cancel_program, planned_jobs-AreRuns, runs-contains, contains-last,
  jobs_of-insert,
}

other_program :
    (pid q : ℕ) (k : JobId) → is_run_of q k ≡ true → (pid == q) ≡ false → is_run_of pid k ≡ false
other_program pid q k run other =
    ground (arith, nat_beq_iff k.number pid, nat_beq_iff k.number q, nat_beq_iff pid q)

cancelled-jobs_of :
    (pid q : ℕ) (s : Scheduler)
    → jobs_of q (cancel_program pid s) ≡ (if pid == q then [] else jobs_of q s)
unfolding cancel_program
cancelled-jobs_of pid q s =
    ap (λ m. jobs_of q (record s { program_jobs = insert pid [] m }))
      (remove_each-programs (jobs_of pid s) s)
    ∙ jobs_of-insert pid q [] s.program_jobs

kept :
    (pid q : ℕ) (k : JobId) (s : Scheduler)
    → (pid == q) ≡ false
    → contains (jobs_of q (cancel_program pid s)) k ≡ contains (jobs_of q s) k
kept pid q k s other = ap (λ ids. contains ids k) (cancelled-jobs_of pid q s ∙ rw other refl)

cleared :
    (pid q : ℕ) (k : JobId) (s : Scheduler)
    → (pid == q) ≡ true
    → contains (jobs_of q (cancel_program pid s)) k ≡ false
cleared pid q k s same =
    let empty : jobs_of q (cancel_program pid s) ≡ [] = cancelled-jobs_of pid q s ∙ rw same refl in
    ap (λ ids. contains ids k) empty

-- The lists stay in step with the store of jobs when a program is cancelled.
pub cancel_program-IsTracked :
    (pid : ℕ) (s : Scheduler) → IsTracked s → IsTracked (cancel_program pid s)
cancel_program-IsTracked pid s h = record {
  listed = λ q k run unlisted. lookup-cancel_program pid k s h ∙ (elim (Bool-cases (pid == q)) [
    | inl same ↦ rw ((nat_beq_iff pid q).0 same, run) refl
    | inr other ↦
        rw (other_program pid q k run other)
          (h.listed q k run (sym (kept pid q k s other) ∙ unlisted))
  ]);
  own = λ q k listed. elim (Bool-cases (pid == q)) [
    | inl same ↦ (let clash : false ≡ true = sym (cleared pid q k s same) ∙ listed in cc)
    | inr other ↦ h.own q k (sym (kept pid q k s other) ∙ listed)
  ];
}

-- The state once the planned jobs are there.
abbrev added : (pid : ℕ) → Program → (midnight now : ℕ) → Scheduler → Scheduler
added pid p midnight now s =
    let s₁ = add_jobs (planned_jobs pid p midnight now) (cancel_program pid s) in
    record s₁ {
      program_jobs = insert pid (job_ids (planned_jobs pid p midnight now)) s₁.program_jobs;
    }

lookup-added :
    (pid : ℕ) (p : Program) (midnight now : ℕ) (k : JobId) (s : Scheduler)
    → IsTracked s
    → lookup k (added pid p midnight now s).jobs
      ≡ or_else
          (last_of k (planned_jobs pid p midnight now))
          (if is_run_of pid k then none else lookup k s.jobs)
lookup-added pid p midnight now k s h =
    lookup-add_jobs (planned_jobs pid p midnight now) k (cancel_program pid s)
    ∙ ap (or_else (last_of k (planned_jobs pid p midnight now))) (lookup-cancel_program pid k s h)

added-jobs_of :
    (pid : ℕ) (p : Program) (midnight now q : ℕ) (s : Scheduler)
    → jobs_of q (added pid p midnight now s)
      ≡ (if pid == q then job_ids (planned_jobs pid p midnight now) else jobs_of q s)
added-jobs_of pid p midnight now q s =
    let jobs = planned_jobs pid p midnight now in
    jobs_of-insert pid q (job_ids jobs) (add_jobs jobs (cancel_program pid s)).program_jobs
    ∙ (elim (Bool-cases (pid == q)) [
      | inl same ↦ rw same refl
      | inr other ↦ rw other (
          ap (λ m. jobs_of q (record s { program_jobs = m }))
            (add_jobs-programs jobs (cancel_program pid s))
          ∙ cancelled-jobs_of pid q s
          ∙ rw other refl)
    ])

unplanned :
    (pid q : ℕ) (jobs : Planned) (k : JobId)
    → AreRuns pid jobs
    → is_run_of q k ≡ true
    → (pid == q) ≡ false
    → contains (job_ids jobs) k ≡ false
unplanned pid q jobs k runs run other = elim (Bool-cases (contains (job_ids jobs) k)) [
  | inr absent ↦ absent
  | inl listed ↦
      (let clash : false ≡ true =
          sym (other_program pid q k run other) ∙ runs-contains pid jobs k runs listed in
        cc)
]

added-IsTracked :
    (pid : ℕ) (p : Program) (midnight now : ℕ) (s : Scheduler)
    → IsTracked s
    → IsTracked (added pid p midnight now s)
added-IsTracked pid p midnight now s h =
    let jobs = planned_jobs pid p midnight now in
    let runs = planned_jobs-AreRuns pid p midnight now in
    let of_own = λ (q : ℕ) (k : JobId) (same : (pid == q) ≡ true).
      ap (λ ids. contains ids k) (added-jobs_of pid p midnight now q s ∙ rw same refl) in
    let of_other = λ (q : ℕ) (k : JobId) (other : (pid == q) ≡ false).
      ap (λ ids. contains ids k) (added-jobs_of pid p midnight now q s ∙ rw other refl) in
    record {
      listed = λ q k run unlisted.
          lookup-added pid p midnight now k s h ∙ (elim (Bool-cases (pid == q)) [
            | inl same ↦
                rw
                  (
                    contains-last jobs k (sym (of_own q k same) ∙ unlisted),
                    (nat_beq_iff pid q).0 same,
                    run,
                  )
                  refl
            | inr other ↦
                rw
                  (
                    contains-last jobs k (unplanned pid q jobs k runs run other),
                    other_program pid q k run other,
                  )
                  (h.listed q k run (sym (of_other q k other) ∙ unlisted))
          ]);
      own = λ q k listed. elim (Bool-cases (pid == q)) [
        | inl same ↦
            ap (λ n. is_run_of n k) (sym ((nat_beq_iff pid q).0 same))
            ∙ runs-contains pid jobs k runs (sym (of_own q k same) ∙ listed)
        | inr other ↦ h.own q k (sym (of_other q k other) ∙ listed)
      ];
    }

-- Every call of `schedule_program` keeps the lists in step with the store of jobs: whatever comes of it,
-- each start of a program that is in the store is in the list of the program, and a list has starts
-- of its own program only.
pub schedule_program-IsTracked :
    (pid : ℕ) (p : Program) (midnight now : ℕ) (s : Scheduler)
    → IsTracked s
    → IsTracked (schedule_program pid p midnight now s)
unfolding schedule_program
schedule_program-IsTracked pid p midnight now s h =
    let cancelled = cancel_program-IsTracked pid s h in
    elim (Bool-cases (not p.enabled)) [
      | inl disabled ↦ rw (schedule_program, disabled) cancelled
      | inr enabled ↦
          rw (schedule_program, enabled)
            (elim (Option-cases p.time) [
              | inl no_time ↦ rw no_time h
              | inr (t, time) ↦ rw time (elim (Bool-cases (is_empty_plan p)) [
                | inl empty ↦ rw empty h
                | inr full ↦ rw full (elim (Bool-cases (fails p t s)) [
                  | inl fault ↦ rw fault cancelled
                  | inr fine ↦ rw fine (added-IsTracked pid p midnight now s h)
                ])
              ])
            ])
    ]

-- The choice that the guards leave.
chosen :
    (enabled empty : Bool) (time : Option Time) (fault : Time → Bool) (t : Time)
    (cancelled same full : Scheduler)
    → enabled ≡ true
    → time ≡ some t
    → empty ≡ false
    → fault t ≡ false
    → (if not enabled then cancelled else elim time [
      | none ↦ same
      | some t ↦ if empty then same else (if fault t then cancelled else full)
    ])
      ≡ full
chosen enabled empty time fault t cancelled same full h i j k = rw (h, i, j, k) refl

-- An enabled program with a time, zones and days, whose planned starts can be computed: afterwards the
-- store has exactly its planned jobs as starts of the program, and every other job as before.
pub schedule_program-plans :
    (pid : ℕ) (p : Program) (midnight now : ℕ) (s : Scheduler) (t : Time) (k : JobId)
    → IsTracked s
    → p.enabled ≡ true
    → p.time ≡ some t
    → is_empty_plan p ≡ false
    → fails p t s ≡ false
    → lookup k (schedule_program pid p midnight now s).jobs
      ≡ or_else
          (last_of k (planned_jobs pid p midnight now))
          (if is_run_of pid k then none else lookup k s.jobs)
unfolding schedule_program
schedule_program-plans pid p midnight now s t k h enabled time full fine =
    ap (λ (s' : Scheduler). lookup k s'.jobs)
      (chosen p.enabled (is_empty_plan p) p.time (λ t. fails p t s) t (cancel_program pid s) s
        (added pid p midnight now s) enabled time full fine)
    ∙ lookup-added pid p midnight now k s h
