-- ===== src/Scheduler/Kept.antt =====
-- What each step of a run of a program of irrigation_scheduler.py keeps, the whole run keeps.
use irrigation.Base.{
  ℕ, zero, suc, ◌≡◌, ◌∙◌, refl, ap, arith, nat_beq_iff, some, inl, inr, Bool, true, false, not,
  ◌&&◌, ◌||◌, List, [], ◌∷◌, ◌-◌, ◌*◌, nat_eq, nat_beq, Bool-cases, Option-cases,
}
use irrigation.Base.Maps.{lookup}
use irrigation.ZoneControl.{Zone, World, in_group}
use irrigation.ZoneControl.Quiet.{Moves, Moves-refl, Moves-trans, Moves-in_group}
use irrigation.Scheduler.{
  Scheduler, Log, zone_auto_start, is_cancelled, program_start, program_finish,
  program_weather_skip, zone_skip, is_skipped, clear_skip, add_log,
}
use irrigation.Scheduler.Jobs.{clamp_early}
use irrigation.Scheduler.Waiting.{
  serve_all, Outside, Thread, Session, world_at, update, pass, look, wait, wait_early, session_of,
  signal_of, Signal-cases, has_ended,
}
use irrigation.Scheduler.Moving.{clear_expired-Moves}
use irrigation.Scheduler.Program.{
  start_scheduled, end_zone, auto_stop, end_scheduled, water_zone, duration_of, clear_expired,
  is_postponed, clear_stale, run_due, run_program_zone, run_zones, run_session,
}

abbrev pub is_start : Log → Bool
is_start (zone_auto_start id duration end_time) = true
is_start _ = false

-- The steps by which a run changes the state.
pub record IsKept (o : Outside) (P : Scheduler → Type 0) : Type 0 where
  pub requests : (n : ℕ) (s : Scheduler) → P s → P (serve_all (o.others n) s)
  pub skip : (gid : ℕ) (s : Scheduler) → P s → P (clear_skip gid s)
  pub expired : (id : ℕ) (z : Zone) (s : Scheduler) → P s → P (clear_expired id z s)
  -- A zone is started in its group, unless the group is cancelled.
  pub start :
      (id gid duration : ℕ) (w : World) (s : Scheduler)
      → in_group gid (lookup id s.system.zones) ≡ true
      → is_cancelled gid s ≡ false
      → P s
      → P (start_scheduled id gid duration w s)
  pub stop : (id : ℕ) (w : World) (s : Scheduler) → P s → P (end_zone id auto_stop w s)
  pub logged : (entry : Log) (s : Scheduler) → is_start entry ≡ false → P s → P (add_log entry s)

or_false : (a b : Bool) → (a || b) ≡ false → b ≡ false
or_false a b h = ground arith

clear_stale-Moves :
    (gid : ℕ) (s : Scheduler) → Moves (λ _. true) s.system (clear_stale gid s).system
clear_stale-Moves gid s = Moves-refl (λ _. true) s.system (clear_stale gid s).system (ground arith)

clear_stale-cancelled :
    (k gid : ℕ) (s : Scheduler) → is_cancelled k (clear_stale gid s) ≡ is_cancelled k s
clear_stale-cancelled k gid s = elim (Bool-cases (is_skipped gid s)) [
  | inl stale ↦ rw (clear_stale, stale) refl
  | inr clear ↦ rw (clear_stale, clear) refl
]

pub clear_expired-cancelled :
    (k id : ℕ) (z : Zone) (s : Scheduler) → is_cancelled k (clear_expired id z s) ≡ is_cancelled k s
clear_expired-cancelled k id z s = elim (Option-cases z.postpone_until) [
  | inl never ↦ rw (clear_expired, never) refl
  | inr (t, there) ↦ rw (clear_expired, there) refl
]

module _ (o : Outside) (P : Scheduler → Type 0) (law : IsKept o P) where
  abbrev Good : Thread → Type 0
  Good p = P p.scheduler

  look-keeps : (p : Thread) → Good p → Good (look o p)
  unfolding look
  look-keeps p h = law.requests p.looks p.scheduler h

  wait-keeps : (session : Session) (g n : ℕ) (p : Thread) → Good p → Good (wait o session g n p).0
  unfolding wait
  wait-keeps session g zero p h = h
  wait-keeps session g (suc n) p h =
      elim (Signal-cases (signal_of session g (look o p).scheduler)) [
        | inl e ↦ rw (wait, e) (look-keeps p h)
        | inr (inl e) ↦ rw (wait, e) (law.skip g (look o p).scheduler (look-keeps p h))
        | inr (inr (inl e)) ↦ rw (wait, e) (look-keeps p h)
        | inr (inr (inr e)) ↦
            rw (wait, e) (wait-keeps session g n (pass 1 (look o p)) (look-keeps p h))
      ]

  wait_early-keeps : (g n : ℕ) (p : Thread) → Good p → Good (wait_early o g n p)
  unfolding wait_early
  wait_early-keeps g zero p h = h
  wait_early-keeps g (suc n) p h = elim (Bool-cases (has_ended g (look o p).scheduler)) [
    | inl ended ↦ rw (wait_early, ended) (look-keeps p h)
    | inr goes_on ↦
        rw (wait_early, goes_on) (wait_early-keeps g n (pass 1 (look o p)) (look-keeps p h))
  ]

  end_scheduled-keeps :
      (id g : ℕ) (skipped : Bool) (p : Thread) → Good p → Good (end_scheduled o id g skipped p)
  unfolding end_scheduled
  end_scheduled-keeps id g true p h =
      (let s = end_zone id auto_stop (world_at o p) p.scheduler in
        law.logged (zone_skip g id) s refl (law.stop id (world_at o p) p.scheduler h))
  end_scheduled-keeps id g false p h =
      wait_early-keeps g (clamp_early o.early_off_seconds)
        (update (end_zone id auto_stop (world_at o p) p.scheduler) p)
        (law.stop id (world_at o p) p.scheduler h)

  water_zone-keeps :
      (id g duration : ℕ) (p : Thread)
      → in_group g (lookup id p.scheduler.system.zones) ≡ true
      → is_cancelled g p.scheduler ≡ false
      → Good p
      → Good (water_zone o id g duration p)
  unfolding water_zone
  water_zone-keeps id g duration p member free h =
      let q = update (start_scheduled id g duration (world_at o p) p.scheduler) p in
      let n = duration * 60 - clamp_early o.early_off_seconds in
      let r = wait o (session_of g) g n q in
      end_scheduled-keeps id g r.1 r.0 (
        wait-keeps (session_of g) g n q
          (law.start id g duration (world_at o p) p.scheduler member free h))

  clear_stale-keeps : (gid : ℕ) (s : Scheduler) → P s → P (clear_stale gid s)
  clear_stale-keeps gid s h = elim (Bool-cases (is_skipped gid s)) [
    | inl stale ↦ rw (clear_stale, stale) (law.skip gid s h)
    | inr clear ↦ rw (clear_stale, clear) h
  ]

  run_due-keeps :
      (manual : Bool) (id : ℕ) (z : Zone) (p : Thread)
      → lookup id p.scheduler.system.zones ≡ some z
      → is_cancelled z.group_id p.scheduler ≡ false
      → Good p
      → Good (run_due o manual id z p)
  unfolding run_due
  run_due-keeps manual id z p there free h =
      let q = update (clear_stale z.group_id p.scheduler) p in
      let stale : Good q = clear_stale-keeps z.group_id p.scheduler h in
      let r = update (clear_expired id z q.scheduler) q in
      let cleared : Good r = law.expired id z q.scheduler stale in
      let m =
        Moves-trans {s₂ = q.scheduler.system} (clear_stale-Moves z.group_id p.scheduler)
          (clear_expired-Moves (λ _. true) id z q.scheduler) in
      let member =
        Moves-in_group z.group_id id m
        ∙ ap (in_group z.group_id) there
        ∙ (nat_beq_iff z.group_id z.group_id).1 refl in
      let uncancelled =
        clear_expired-cancelled z.group_id id z q.scheduler
        ∙ clear_stale-cancelled z.group_id z.group_id p.scheduler
        ∙ free in
      elim (Bool-cases (is_postponed (world_at o q).time z)) [
        | inl late ↦ rw (run_due, late) stale
        | inr due ↦
            rw (run_due, due)
              (elim (Bool-cases (nat_beq (duration_of o manual z.duration q) 0)) [
                | inl nothing ↦ rw nothing cleared
                | inr some_time ↦ rw some_time (
                    water_zone-keeps id z.group_id (duration_of o manual z.duration q) r member
                      uncancelled cleared)
              ])
      ]

  run_program_zone-keeps :
      (manual : Bool) (id : ℕ) (p : Thread) → Good p → Good (run_program_zone o manual id p)
  unfolding run_program_zone
  run_program_zone-keeps manual id p h =
      let q = look o p in
      let seen = look-keeps p h in
      elim (Option-cases (lookup id q.scheduler.system.zones)) [
        | inl missing ↦ rw (run_program_zone, missing) seen
        | inr (z, there) ↦
            rw (run_program_zone, there)
              (elim (Bool-cases
                (o.cancelled_today q.looks z.group_id || is_cancelled z.group_id q.scheduler)) [
                  | inl cancelled ↦ rw cancelled seen
                  | inr goes_on ↦ rw goes_on (
                      run_due-keeps manual id z q there
                        (or_false (o.cancelled_today q.looks z.group_id)
                          (is_cancelled z.group_id q.scheduler) goes_on)
                        seen)
                ])
      ]

  pub run_zones-keeps :
      (manual : Bool) (ids : List ℕ) (p : Thread) → Good p → Good (run_zones o manual ids p)
  unfolding run_zones
  run_zones-keeps manual [] p h = h
  run_zones-keeps manual (id ∷ ids) p h =
      run_zones-keeps manual ids (run_program_zone o manual id p)
        (run_program_zone-keeps manual id p h)

  pub run_session-keeps :
      (pid : ℕ) (zones : List ℕ) (manual : Bool) (s : Scheduler)
      → P s
      → P (run_session o pid zones manual s)
  unfolding run_session
  run_session-keeps pid zones manual s h = elim (Bool-cases (not manual && o.should_skip)) [
    | inl skips ↦
        rw (run_session, skips)
          (law.logged (program_weather_skip pid) (add_log (program_start pid) s) refl
            (law.logged (program_start pid) s refl h))
    | inr runs ↦
        rw (run_session, runs)
          (let p : Thread = record {
            scheduler = add_log (program_start pid) s;
            looks = 0;
            clock = 0;
          } in
            law.logged (program_finish pid) (run_zones o manual zones p).scheduler refl
              (run_zones-keeps manual zones p (law.logged (program_start pid) s refl h)))
  ]
