-- ===== src/Scheduler/Cancelling.antt =====
-- What `cancel_group_jobs` of irrigation_scheduler.py stops.
use irrigation.Base.{
  ℕ, ◌≡◌, ◌∙◌, refl, ap, ap₂, inl, inr, Bool, true, false, not, ◌&&◌, ◌||◌, List, [], ◌∷◌, Option,
  none, arith, any, contains, keep_if, ◌==◌, nat_eq, nat_beq_iff, if◌then◌else◌, Bool-cases,
  Option-cases,
}
use irrigation.Base.Maps.{lookup}
use irrigation.ZoneControl.{System, World, in_group, zones_by_group}
use irrigation.ZoneControl.Master.{is_on_or_starting}
use irrigation.ZoneControl.Stop.{stop_all_in_group}
use irrigation.ZoneControl.Stopping.{stop_each-stops}
use irrigation.ZoneControl.Calls.{stop_all_in_group-step}
use irrigation.ZoneControl.Quiet.{Moves-in_group, Moves-IsStep, contains-zones_by_group}
use irrigation.Scheduler.{JobId, Job, job_eq, Scheduler, is_cancelled, is_group_session_active}
use irrigation.Scheduler.Jobs.{
  is_stop, is_stop_of, is_sequence_of, cancel_zone_jobs, cancel_each, cancel_stop, set_cancel,
  halt_group, cancel_group_jobs,
}
use irrigation.Scheduler.Moving.{cancel_group_jobs-system, set_cancel-system}

-- Removing jobs by their ids.
pub lookup-remove :
    (p : JobId → Bool) (k : JobId) (jobs : List (JobId × Job))
    → lookup k (keep_if (λ entry. not (p entry.0)) jobs) ≡ (if p k then none else lookup k jobs)
lookup-remove p k [] = ground arith
lookup-remove p k ((j, job) ∷ jobs) = elim (Bool-cases (j == k)) [
  | inl same ↦
      (let e = (job_eq.eqb_iff j k).0 same in
        rw (same, ap p e)
          (elim (Bool-cases (p k)) [
            | inl gone ↦ rw (gone) (lookup-remove p k jobs ∙ rw gone refl)
            | inr kept ↦ rw (kept, same) refl
          ]))
  | inr other ↦ rw other (elim (Bool-cases (p j)) [
    | inl gone ↦ rw gone (lookup-remove p k jobs)
    | inr kept ↦ rw (kept, other) (lookup-remove p k jobs)
  ])
]

-- Is the job a stop of one of the zones?
abbrev stops_any : List ℕ → JobId → Bool
stops_any ids k = any (λ id. is_stop_of id k) ids

cancel_each-jobs :
    (ids : List ℕ) (k : JobId) (s : Scheduler)
    → lookup k (cancel_each ids s).jobs ≡ (if stops_any ids k then none else lookup k s.jobs)
unfolding cancel_each cancel_zone_jobs
cancel_each-jobs [] k s = refl
cancel_each-jobs (id ∷ ids) k s =
    cancel_each-jobs ids k (cancel_zone_jobs id s) ∙ (elim (Bool-cases (stops_any ids k)) [
      | inl later ↦ rw (later) (ground arith)
      | inr now ↦ rw now (lookup-remove (is_stop_of id) k s.jobs ∙ ground arith)
    ])

beq_sym : (m n : ℕ) → (m == n) ≡ (n == m)
beq_sym m n = ground (arith, nat_beq_iff m n, nat_beq_iff n m)

stops_any-contains :
    (ids : List ℕ) (k : JobId) → stops_any ids k ≡ (is_stop k && contains ids k.number)
stops_any-contains [] k = ground arith
stops_any-contains (id ∷ ids) k = rw (beq_sym k.number id, stops_any-contains ids k) (ground arith)

-- The jobs that go with a group.
abbrev pub goes_with : (gid : ℕ) → System → JobId → Bool
goes_with gid s k = is_sequence_of gid k || is_stop k && in_group gid (lookup k.number s.zones)

removed_twice :
    {A : Type 0} (a b : Bool) (o : Option A)
    → (if a then none else (if b then none else o)) ≡ (if a || b then none else o)
removed_twice a b o = ground arith

halt_group-cancelled :
    (gid : ℕ) (immediate : Bool) (w : World) (s : Scheduler)
    → is_cancelled gid (halt_group gid immediate w s) ≡ is_group_session_active gid s
unfolding halt_group
halt_group-cancelled gid immediate w s = elim (Option-cases (lookup gid s.group_cancel_events)) [
  | inl free ↦ rw (set_cancel, free) (rw free refl)
  | inr (e, held) ↦ rw (set_cancel, held) (rw (held, (nat_beq_iff e e).1 refl) refl)
]

pub cancel_each-cancelled :
    (ids : List ℕ) (gid : ℕ) (s : Scheduler)
    → is_cancelled gid (cancel_each ids s) ≡ is_cancelled gid s
unfolding cancel_each cancel_zone_jobs
cancel_each-cancelled [] gid s = refl
cancel_each-cancelled (id ∷ ids) gid s = cancel_each-cancelled ids gid (cancel_zone_jobs id s)

halt_group-jobs :
    (gid : ℕ) (immediate : Bool) (w : World) (s : Scheduler)
    → (halt_group gid immediate w s).jobs ≡ s.jobs
unfolding halt_group
halt_group-jobs gid immediate w s = elim (Option-cases (lookup gid s.group_cancel_events)) [
  | inl free ↦ rw (set_cancel, free) refl
  | inr (e, held) ↦ rw (set_cancel, held) refl
]

halt_group-member :
    (gid i : ℕ) (immediate : Bool) (w : World) (s : Scheduler)
    → in_group gid (lookup i (halt_group gid immediate w s).system.zones)
      ≡ in_group gid (lookup i s.system.zones)
unfolding halt_group
halt_group-member gid i immediate w s = rw (set_cancel-system gid s) (
    Moves-in_group gid i
      (stop_all_in_group-step _ (Moves-IsStep (λ _. false)) gid (cancel_stop immediate) w s.system))

stop_all_in_group-stops :
    (gid i : ℕ) (immediate : Bool) (w : World) (s : System)
    → in_group gid (lookup i s.zones) ≡ true
    → is_on_or_starting i (stop_all_in_group gid (cancel_stop immediate) w s) ≡ false
unfolding stop_all_in_group
stop_all_in_group-stops gid i immediate w s member =
    stop_each-stops (zones_by_group gid s) i (cancel_stop immediate) w s
      (contains-zones_by_group gid i s ∙ member)

pub cancel_group_jobs-cancels :
    (gid : ℕ) (immediate : Bool) (w : World) (s : Scheduler)
    → let s' = cancel_group_jobs gid immediate w s in
      (is_cancelled gid s' ≡ is_group_session_active gid s)
      × ((i : ℕ)
          → in_group gid (lookup i s.system.zones) ≡ true
          → is_on_or_starting i s'.system ≡ false)
      × ((k : JobId)
          → lookup k s'.jobs ≡ (if goes_with gid s.system k then none else lookup k s.jobs))
unfolding cancel_group_jobs
cancel_group_jobs-cancels gid immediate w s =
    let s₁ = halt_group gid immediate w s in
    let ids = zones_by_group gid s₁.system in
    (
      cancel_each-cancelled ids gid s₁ ∙ halt_group-cancelled gid immediate w s,
      λ i member.
          ap (is_on_or_starting i) (cancel_group_jobs-system gid immediate w s)
          ∙ stop_all_in_group-stops gid i immediate w s.system member,
      λ k.
          let stops : stops_any ids k
              ≡ (is_stop k && in_group gid (lookup k.number s.system.zones)) =
            stops_any-contains ids k
            ∙ ap (λ b. is_stop k && b)
                (contains-zones_by_group gid k.number s₁.system
                  ∙ halt_group-member gid k.number immediate w s) in
          lookup-remove (is_sequence_of gid) k (cancel_each ids s₁).jobs
          ∙ ap (λ o. if is_sequence_of gid k then none else o)
              (cancel_each-jobs ids k s₁
                ∙ ap₂ (λ b o. if b then none else o) stops
                    (ap (lookup k) (halt_group-jobs gid immediate w s)))
          ∙ removed_twice (is_sequence_of gid k)
              (is_stop k && in_group gid (lookup k.number s.system.zones)) (lookup k s.jobs),
    )
