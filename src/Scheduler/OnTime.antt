-- ===== src/Scheduler/OnTime.antt =====
-- When a run of a program of irrigation_scheduler.py that nobody disturbs starts its zones.
use irrigation.Base.{
  ℕ, ◌≡◌, ◌≢◌, ◌*◌, ◌∙◌, refl, sym, ap, ap₂, subst, inl, inr, Bool, true, false, not, ◌&&◌, List,
  [], ◌∷◌, ◌++◌, none, some, arith, All, ◌+◌, length, ◌==◌, nat_eq, nat_beq, nat_beq_iff,
  if◌then◌else◌, Bool-cases, Option-cases,
}
use mathlib.Core.List.{append_assoc}
use irrigation.Base.Maps.{lookup, insert, lookup-insert}
use irrigation.ZoneControl.{Zone, System, World}
use irrigation.ZoneControl.Master.{is_on_or_starting}
use irrigation.Scheduler.{
  Scheduler, program_start, program_finish, zone_auto_start, add_log, is_cancelled, event_is_set,
  plant, release, drop_skip,
}
use irrigation.Scheduler.Waiting.{Outside, Thread}
use irrigation.Scheduler.Starting.{start_scheduled-runs}
use irrigation.Scheduler.Jobs.{schedule_zone_hard_stop}
use irrigation.Scheduler.Program.{
  start_scheduled, run_session, register_sessions, clean_up, program_gids, blocking_gids,
  run_program,
}
use irrigation.Scheduler.Resting.{register_sessions-system}
use irrigation.Scheduler.Undisturbed.{IsCalm, IsUndisturbed, IsReady, plan, IsCalm-IsSameCalm}
use irrigation.Scheduler.Watering.{run_zones-after}

planted-cancelled :
    (gid k : ℕ) (s : Scheduler)
    → is_cancelled k s ≡ false
    → event_is_set
        (lookup k (insert gid s.fresh s.group_cancel_events))
        (record s { is_set = λ e. if s.fresh == e then false else s.is_set e })
      ≡ false
planted-cancelled gid k s h =
    rw (lookup-insert gid k s.fresh s.group_cancel_events) (elim (Bool-cases (gid == k)) [
      | inl same ↦ rw (same, (nat_beq_iff s.fresh s.fresh).1 refl) refl
      | inr other ↦ rw other (elim (Option-cases (lookup k s.group_cancel_events)) [
        | inl free ↦ rw free refl
        | inr (e, held) ↦ rw held (let unset : s.is_set e ≡ false = rw held at h in ground arith)
      ])
    ])

unskipped : (manual b : Bool) → b ≡ false → (not manual && b) ≡ false
unskipped manual b h = ground arith

plant-IsCalm : (gid : ℕ) (s : Scheduler) → IsCalm s → IsCalm (plant gid s).0
unfolding plant
plant-IsCalm gid s h = elim (Option-cases (lookup gid s.group_cancel_events)) [
  | inl free ↦
      rw (plant, free)
        (record {
          cancelled = λ k. planted-cancelled gid k s (h.cancelled k);
          skipped = h.skipped;
          shutdown = h.shutdown;
        })
  | inr (e, held) ↦ rw (plant, held) h
]

register_sessions-IsCalm :
    (gids : List ℕ) (s : Scheduler) → IsCalm s → IsCalm (register_sessions gids s).0
unfolding register_sessions
register_sessions-IsCalm [] s h = h
register_sessions-IsCalm (gid ∷ gids) s h =
    register_sessions-IsCalm gids (plant gid s).0 (plant-IsCalm gid s h)

register_sessions-log : (gids : List ℕ) (s : Scheduler) → (register_sessions gids s).0.log ≡ s.log
unfolding register_sessions plant
register_sessions-log [] s = refl
register_sessions-log (gid ∷ gids) s =
    register_sessions-log gids (plant gid s).0
    ∙ (elim (Option-cases (lookup gid s.group_cancel_events)) [
      | inl free ↦ rw (plant, free) refl
      | inr (e, held) ↦ rw (plant, held) refl
    ])

release-log : (gid e : ℕ) (s : Scheduler) → (release gid e s).log ≡ s.log
unfolding release
release-log gid e s = elim (Option-cases (lookup gid s.group_cancel_events)) [
  | inl free ↦ rw (release, free) refl
  | inr (e', held) ↦ rw (release, held) (ground arith)
]

clean_up-log : (registered : List (ℕ × ℕ)) (s : Scheduler) → (clean_up registered s).log ≡ s.log
unfolding clean_up
clean_up-log [] s = refl
clean_up-log ((gid, e) ∷ registered) s =
    clean_up-log registered (drop_skip gid (release gid e s)) ∙ release-log gid e s

unblocked :
    (gids : List ℕ) (s : Scheduler)
    → ((gid : ℕ) → lookup gid s.group_cancel_events ≡ none)
    → blocking_gids gids s ≡ []
unblocked [] s free = refl
unblocked (gid ∷ gids) s free = rw (free gid) (unblocked gids s free)

run_session-log :
    (o : Outside) (pid : ℕ) (zones : List ℕ) (manual : Bool) (s : Scheduler)
    → IsUndisturbed o
    → IsCalm s
    → All (IsReady s.system) zones
    → (run_session o pid zones manual s).log
      ≡ s.log ++ program_start pid ∷ (plan o.time s.system zones ++ program_finish pid ∷ [])
unfolding run_session
run_session-log o pid zones manual s quiet h ready =
    let p : Thread = record { scheduler = add_log (program_start pid) s; looks = 0; clock = 0 } in
    let begun =
      IsCalm-IsSameCalm s p.scheduler
        (record { is_set = refl; events = refl; skips = refl; shutdown = refl }) h in
    let after = run_zones-after o quiet manual zones p ready begun in
    let noon : o.time + 0 ≡ o.time = omega arith in
    let xs = s.log in
    let ys = plan o.time s.system zones in
    let planned : plan (o.time + 0) s.system zones ≡ ys = ap (λ t. plan t s.system zones) noon in
    rw (run_session, unskipped manual o.should_skip quiet.should_skip)
      (ap (λ l. l ++ program_finish pid ∷ [])
          (after.log ∙ ap (λ l. (xs ++ program_start pid ∷ []) ++ l) planned)
        ∙ ap (λ l. l ++ program_finish pid ∷ []) (append_assoc xs (program_start pid ∷ []) ys)
        ∙ append_assoc xs (program_start pid ∷ ys) (program_finish pid ∷ []))

-- The log of a run.
run_program-log :
    (o : Outside) (pid : ℕ) (zones : List ℕ) (manual : Bool) (s : Scheduler)
    → IsUndisturbed o
    → IsCalm s
    → ((gid : ℕ) → lookup gid s.group_cancel_events ≡ none)
    → All (IsReady s.system) zones
    → (run_program o pid zones manual s).log
      ≡ s.log ++ program_start pid ∷ (plan o.time s.system zones ++ program_finish pid ∷ [])
unfolding run_program
run_program-log o pid zones manual s quiet h free ready =
    let gids = program_gids zones s.system in
    let s₁ = (register_sessions gids s).0 in
    let registered = (register_sessions gids s).1 in
    let same : s₁.system ≡ s.system = register_sessions-system gids s in
    let entries =
      λ (sys : System). program_start pid ∷ (plan o.time sys zones ++ program_finish pid ∷ []) in
    rw (run_program, ap (λ gs. not (nat_beq (length gs) 0)) (unblocked gids s free))
      (clean_up-log registered (run_session o pid zones manual s₁)
        ∙ run_session-log o pid zones manual s₁ quiet (register_sessions-IsCalm gids s h)
            (subst (λ sys. All (IsReady sys) zones) (sym same) ready)
        ∙ ap₂ (λ l sys. l ++ entries sys) (register_sessions-log gids s) same)

start_scheduled-log :
    (id gid d : ℕ) (w : World) (s : Scheduler)
    → (start_scheduled id gid d w s).log ≡ s.log ++ zone_auto_start id d (w.time + d * 60) ∷ []
unfolding start_scheduled schedule_zone_hard_stop
start_scheduled-log id gid d w s = refl

-- A run of a program that nobody disturbs (no request, no weather coefficient, nothing cancelled for
-- today, no skip for the weather), of zones that are there, have a duration and are not postponed, while
-- no group has a session. The log gets the begin and the end of the run and between them the starts of
-- all zones, in order, each for its duration; the first one starts with the run, and each other one when
-- the one before it was planned to end. Switching off early does not change that. And the step that
-- writes such a start to the log leaves the zone switched on (on or starting), in whatever state it
-- finds the system, if the zone is in a group.
pub run_program-on_time :
    (o : Outside) (pid : ℕ) (zones : List ℕ) (manual : Bool) (s : Scheduler)
    → IsUndisturbed o
    → IsCalm s
    → ((gid : ℕ) → lookup gid s.group_cancel_events ≡ none)
    → All (IsReady s.system) zones
    → (id gid d : ℕ) (w : World) (t : Scheduler) (z : Zone) → lookup id t.system.zones ≡ some z
    → z.group_id ≢ 0
    → let t' = start_scheduled id gid d w t in
      ((run_program o pid zones manual s).log
        ≡ s.log ++ program_start pid ∷ (plan o.time s.system zones ++ program_finish pid ∷ []))
      × (t'.log ≡ t.log ++ zone_auto_start id d (w.time + d * 60) ∷ [])
      × (is_on_or_starting id t'.system ≡ true)
run_program-on_time o pid zones manual s quiet h free ready id gid d w t z there grouped = (
  run_program-log o pid zones manual s quiet h free ready,
  start_scheduled-log id gid d w t,
  start_scheduled-runs id gid d w t z there grouped,
)
