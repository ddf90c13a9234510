-- ===== src/Scheduler/Resting.antt =====
-- What a run of a program of irrigation_scheduler.py leaves running.
use irrigation.Base.{
  ℕ, zero, suc, ◌≡◌, ◌∙◌, refl, ap, inl, inr, Bool, true, false, not, ◌&&◌, ◌||◌, List, [], ◌∷◌,
  some, arith, All, length, ◌+◌, ◌-◌, ◌*◌, nat_eq, nat_beq, nat_beq_iff, Bool-cases, Option-cases,
}
use irrigation.Base.Maps.{lookup}
use irrigation.ZoneControl.{Zone, System, World}
use irrigation.ZoneControl.Master.{is_on_or_starting}
use irrigation.ZoneControl.Stop.{stop_zone}
use irrigation.ZoneControl.Quiet.{Moves, Moves-refl, Moves-trans, Moves-off}
use irrigation.Scheduler.{
  Scheduler, is_cancelled, program_start, add_log, plant, release, drop_skip,
}
use irrigation.Scheduler.Jobs.{clamp_early, schedule_zone_hard_stop}
use irrigation.Scheduler.Waiting.{
  Request, Outside, Thread, Session, world_at, update, pass, look, wait, wait_early, session_of,
  signal_of, Signal-cases, has_ended,
}
use irrigation.Scheduler.Program.{
  switch_zones, plan_end, start_scheduled, end_zone, auto_stop, end_scheduled, water_zone,
  duration_of, clear_expired, is_postponed, clear_stale, run_due, run_program_zone, run_zones,
  run_session, register_sessions, clean_up, program_gids, blocking_gids, run_program,
}
use irrigation.Scheduler.Moving.{
  or_zone, stopped-Moves, clear_expired-Moves, Moves-wider, switch_zones-Moves, plan_end-Moves,
  Allows, serve_all-Moves,
}

pub clear_stale-system : (gid : ℕ) (s : Scheduler) → (clear_stale gid s).system ≡ s.system
clear_stale-system gid s = ground arith

pub start_scheduled-system :
    (id gid duration : ℕ) (w : World) (s : Scheduler)
    → (start_scheduled id gid duration w s).system
      ≡ plan_end id (some (w.time + duration * 60)) (switch_zones id gid w s.system)
unfolding start_scheduled schedule_zone_hard_stop
start_scheduled-system id gid duration w s = refl

pub register_sessions-system :
    (gids : List ℕ) (s : Scheduler) → (register_sessions gids s).0.system ≡ s.system
unfolding register_sessions plant
register_sessions-system [] s = refl
register_sessions-system (gid ∷ gids) s =
    register_sessions-system gids (plant gid s).0
    ∙ (elim (Option-cases (lookup gid s.group_cancel_events)) [
      | inl free ↦ rw (plant, free) refl
      | inr (e, held) ↦ rw (plant, held) refl
    ])

pub release-system : (gid e : ℕ) (s : Scheduler) → (release gid e s).system ≡ s.system
unfolding release
release-system gid e s = elim (Option-cases (lookup gid s.group_cancel_events)) [
  | inl free ↦ rw (release, free) refl
  | inr (e', held) ↦ rw (release, held) (ground arith)
]

pub clean_up-system :
    (registered : List (ℕ × ℕ)) (s : Scheduler) → (clean_up registered s).system ≡ s.system
unfolding clean_up
clean_up-system [] s = refl
clean_up-system ((gid, e) ∷ registered) s =
    clean_up-system registered (drop_skip gid (release gid e s)) ∙ release-system gid e s

-- The zones that others may start.
module _ (only : ℕ → Bool) (o : Outside)
    (allowed : (n : ℕ) → All (λ (r : Request × World). Allows only r.0) (o.others n)) where
  pub look-Moves : (p : Thread) → Moves only p.scheduler.system (look o p).scheduler.system
  unfolding look
  look-Moves p = serve_all-Moves only (o.others p.looks) p.scheduler (allowed p.looks)

  pub wait-Moves :
      (session : Session) (gid n : ℕ) (p : Thread)
      → Moves only p.scheduler.system (wait o session gid n p).0.scheduler.system
  unfolding wait
  wait-Moves session gid zero p = Moves-refl only p.scheduler.system p.scheduler.system refl
  wait-Moves session gid (suc n) p =
      elim (Signal-cases (signal_of session gid (look o p).scheduler)) [
        | inl e ↦ rw (wait, e) (look-Moves p)
        | inr (inl e) ↦ rw (wait, e) (look-Moves p)
        | inr (inr (inl e)) ↦ rw (wait, e) (look-Moves p)
        | inr (inr (inr e)) ↦
            rw (wait, e)
              (Moves-trans {s₂ = (look o p).scheduler.system} (look-Moves p)
                (wait-Moves session gid n (pass 1 (look o p))))
      ]

  wait_early-Moves :
      (gid n : ℕ) (p : Thread)
      → Moves only p.scheduler.system (wait_early o gid n p).scheduler.system
  unfolding wait_early
  wait_early-Moves gid zero p = Moves-refl only p.scheduler.system p.scheduler.system refl
  wait_early-Moves gid (suc n) p = elim (Bool-cases (has_ended gid (look o p).scheduler)) [
    | inl ended ↦ rw (wait_early, ended) (look-Moves p)
    | inr goes_on ↦
        rw (wait_early, goes_on)
          (Moves-trans {s₂ = (look o p).scheduler.system} (look-Moves p)
            (wait_early-Moves gid n (pass 1 (look o p))))
  ]

  -- Behind the stop.
  end_scheduled-Moves :
      (id gid : ℕ) (skipped : Bool) (p : Thread)
      → Moves only
          (stop_zone id auto_stop (world_at o p) p.scheduler.system).0
          (end_scheduled o id gid skipped p).scheduler.system
  unfolding end_scheduled
  end_scheduled-Moves id gid true p = Moves-refl only _ _ refl
  end_scheduled-Moves id gid false p =
      wait_early-Moves gid (clamp_early o.early_off_seconds)
        (update (end_zone id auto_stop (world_at o p) p.scheduler) p)

  start_scheduled-Moves :
      (id gid duration : ℕ) (w : World) (s : Scheduler)
      → Moves (or_zone only id) s.system (start_scheduled id gid duration w s).system
  start_scheduled-Moves id gid duration w s =
      let s₁ = switch_zones id gid w s.system in
      rw (start_scheduled-system id gid duration w s) (
        Moves-trans {s₂ = s₁}
          (switch_zones-Moves (or_zone only id) id gid w s.system
            (ground (arith, nat_beq_iff id id)))
          (plan_end-Moves (or_zone only id) id (some (w.time + duration * 60)) s₁))

  water_zone-Moves :
      (id gid duration : ℕ) (p : Thread)
      → Moves only p.scheduler.system (water_zone o id gid duration p).scheduler.system
  unfolding water_zone
  water_zone-Moves id gid duration p =
      let q = update (start_scheduled id gid duration (world_at o p) p.scheduler) p in
      let n = duration * 60 - clamp_early o.early_off_seconds in
      let r = (wait o (session_of gid) gid n q).0 in
      let skipped = (wait o (session_of gid) gid n q).1 in
      Moves-trans {s₂ = (stop_zone id auto_stop (world_at o r) r.scheduler.system).0}
        (stopped-Moves only id auto_stop (world_at o r) p.scheduler.system r.scheduler.system (
          Moves-trans {s₂ = q.scheduler.system}
            (start_scheduled-Moves id gid duration (world_at o p) p.scheduler)
            (Moves-wider only (or_zone only id) (λ i h. rw h refl)
              (wait-Moves (session_of gid) gid n q))))
        (end_scheduled-Moves id gid skipped r)

  run_due-Moves :
      (manual : Bool) (id : ℕ) (z : Zone) (p : Thread)
      → Moves only p.scheduler.system (run_due o manual id z p).scheduler.system
  unfolding run_due
  run_due-Moves manual id z p =
      let q = update (clear_stale z.group_id p.scheduler) p in
      let fresh = ap (λ (s : System). s.zones) (clear_stale-system z.group_id p.scheduler) in
      let stale = Moves-refl only p.scheduler.system q.scheduler.system fresh in
      let duration = duration_of o manual z.duration q in
      let r = update (clear_expired id z q.scheduler) q in
      let cleared =
        Moves-trans {s₂ = q.scheduler.system} stale (clear_expired-Moves only id z q.scheduler) in
      elim (Bool-cases (is_postponed (world_at o q).time z)) [
        | inl late ↦ rw (run_due, late) stale
        | inr due ↦
            rw (run_due, due)
              (elim (Bool-cases (nat_beq duration 0)) [
                | inl nothing ↦ rw nothing cleared
                | inr some_time ↦ rw some_time (
                    Moves-trans {s₂ = r.scheduler.system} cleared
                      (water_zone-Moves id z.group_id duration r))
              ])
      ]

  run_program_zone-Moves :
      (manual : Bool) (id : ℕ) (p : Thread)
      → Moves only p.scheduler.system (run_program_zone o manual id p).scheduler.system
  unfolding run_program_zone
  run_program_zone-Moves manual id p =
      let q = look o p in
      elim (Option-cases (lookup id q.scheduler.system.zones)) [
        | inl missing ↦ rw (run_program_zone, missing) (look-Moves p)
        | inr (z, there) ↦
            rw (run_program_zone, there)
              (elim (Bool-cases
                (o.cancelled_today q.looks z.group_id || is_cancelled z.group_id q.scheduler)) [
                  | inl cancelled ↦ rw cancelled (look-Moves p)
                  | inr goes_on ↦ rw goes_on (
                      Moves-trans {s₂ = q.scheduler.system} (look-Moves p)
                        (run_due-Moves manual id z q))
                ])
      ]

  pub run_zones-Moves :
      (manual : Bool) (ids : List ℕ) (p : Thread)
      → Moves only p.scheduler.system (run_zones o manual ids p).scheduler.system
  unfolding run_zones
  run_zones-Moves manual [] p = Moves-refl only p.scheduler.system p.scheduler.system refl
  run_zones-Moves manual (id ∷ ids) p =
      Moves-trans {s₂ = (run_program_zone o manual id p).scheduler.system}
        (run_program_zone-Moves manual id p)
        (run_zones-Moves manual ids (run_program_zone o manual id p))

  run_session-Moves :
      (pid : ℕ) (zones : List ℕ) (manual : Bool) (s : Scheduler)
      → Moves only s.system (run_session o pid zones manual s).system
  unfolding run_session
  run_session-Moves pid zones manual s = elim (Bool-cases (not manual && o.should_skip)) [
    | inl skips ↦ rw (run_session, skips) (Moves-refl only s.system s.system refl)
    | inr runs ↦
        rw (run_session, runs)
          (run_zones-Moves manual zones
            (record { scheduler = add_log (program_start pid) s; looks = 0; clock = 0 }))
  ]

  run_program-Moves :
      (pid : ℕ) (zones : List ℕ) (manual : Bool) (s : Scheduler)
      → Moves only s.system (run_program o pid zones manual s).system
  unfolding run_program
  run_program-Moves pid zones manual s =
      let gids = program_gids zones s.system in
      let s₁ = (register_sessions gids s).0 in
      let registered = (register_sessions gids s).1 in
      let s₂ = run_session o pid zones manual s₁ in
      elim (Bool-cases (not (nat_beq (length (blocking_gids gids s)) 0))) [
        | inl blocked ↦ rw (run_program, blocked) (Moves-refl only s.system s.system refl)
        | inr free ↦
            rw (run_program, free)
              (Moves-trans {s₂ = s₁.system}
                (Moves-refl only s.system s₁.system
                  (ap (λ (t : System). t.zones) (register_sessions-system gids s)))
                (Moves-trans {s₂ = s₂.system} (run_session-Moves pid zones manual s₁) (
                  Moves-refl only s₂.system _
                    (ap (λ (t : System). t.zones) (clean_up-system registered s₂)))))
      ]

-- Whatever reaches a run of a program while it waits: a zone that was neither on nor starting before
-- the run, and that no request in the meantime starts, is neither of them after the run.
pub run_program-rests :
    (only : ℕ → Bool) (o : Outside) (pid : ℕ) (zones : List ℕ) (manual : Bool) (s : Scheduler)
    (i : ℕ)
    → ((n : ℕ) → All (λ (r : Request × World). Allows only r.0) (o.others n))
    → only i ≡ false
    → is_on_or_starting i s.system ≡ false
    → is_on_or_starting i (run_program o pid zones manual s).system ≡ false
run_program-rests only o pid zones manual s i allowed foreign off =
    Moves-off i (run_program-Moves only o allowed pid zones manual s) foreign off
