-- ===== src/Scheduler/Watering.antt =====
-- Which entries of the log the zones of a program in irrigation_scheduler.py leave that nobody disturbs,
-- and how long they take.
use irrigation.Base.{
  ℕ, zero, suc, ◌≡◌, ◌≢◌, ◌∙◌, refl, sym, ap, ap₂, subst, inl, inr, Bool, true, false, List, [],
  ◌∷◌, none, some, arith, All, All-imp, ◌+◌, ◌-◌, ◌*◌, nat_eq, nat_beq, Option-cases,
}
use irrigation.Base.Maps.{lookup}
use irrigation.ZoneControl.{Zone, World}
use irrigation.Scheduler.{Scheduler, zone_auto_start}
use irrigation.Scheduler.Jobs.{clamp_early, schedule_zone_hard_stop}
use irrigation.Scheduler.Recovery.{duration_in, durations, sum}
use irrigation.Scheduler.Waiting.{
  Outside, Thread, world_at, update, pass, look, wait, wait_early, serve_all, session_of, signal_of,
  has_ended, proceed, weather_adjusted,
}
use irrigation.Scheduler.Program.{
  switch_zones, start_scheduled, end_zone, auto_stop, end_scheduled, water_zone, duration_of,
  is_postponed, clear_expired, clear_stale, run_due, run_program_zone, run_zones,
}
use irrigation.Scheduler.Rows.{
  row_of, SameRows-trans, switch_zones-SameRows, plan_end-SameRows, stop_zone-SameRows,
}
use irrigation.Scheduler.Undisturbed.{
  IsCalm, IsUndisturbed, IsReady, plan, IsCalm-IsSameCalm, IsAfter, IsAfter-trans, same_rows,
  instant, IsReady-SameRows, duration_in-ready, durations-SameRows, plan-SameRows, not_zero,
}

module _ (o : Outside) (quiet : IsUndisturbed o) where
  look-after : (p : Thread) → IsCalm p.scheduler → IsAfter p 0 [] (look o p)
  unfolding look serve_all
  look-after p h =
      rw (look, quiet.others p.looks)
        (instant p (record p { looks = suc p.looks }) h (same_rows p.scheduler.system) refl refl)

  proceeds : (gid : ℕ) (s : Scheduler) → IsCalm s → signal_of (session_of gid) gid s ≡ proceed
  proceeds gid s h = rw (h.cancelled gid, h.skipped gid, h.shutdown) refl

  goes_on : (gid : ℕ) (s : Scheduler) → IsCalm s → has_ended gid s ≡ false
  goes_on gid s h = rw (h.cancelled gid, h.shutdown) refl

  second : (p : Thread) → IsCalm p.scheduler → IsAfter p 1 [] (pass 1 (look o p))
  second p h =
      let l = look-after p h in
      record { calm = l.calm; rows = l.rows; clock = omega (arith, l.clock); log = l.log }

  wait-after :
      (gid n : ℕ) (p : Thread)
      → IsCalm p.scheduler
      → IsAfter p n [] (wait o (session_of gid) gid n p).0
        × ((wait o (session_of gid) gid n p).1 ≡ false)
  unfolding wait
  wait-after gid zero p h = (instant p p h (same_rows p.scheduler.system) refl refl, refl)
  wait-after gid (suc n) p h =
      let l = second p h in
      let ih = wait-after gid n (pass 1 (look o p)) l.calm in
      rw (wait, proceeds gid (look o p).scheduler l.calm) (IsAfter-trans l ih.0 (omega arith), ih.1)

  wait_early-after :
      (gid n : ℕ) (p : Thread) → IsCalm p.scheduler → IsAfter p n [] (wait_early o gid n p)
  unfolding wait_early
  wait_early-after gid zero p h = instant p p h (same_rows p.scheduler.system) refl refl
  wait_early-after gid (suc n) p h =
      let l = second p h in
      rw (wait_early, goes_on gid (look o p).scheduler l.calm)
        (IsAfter-trans l (wait_early-after gid n (pass 1 (look o p)) l.calm) (omega arith))

  start_scheduled-after :
      (id gid d : ℕ) (w : World) (p : Thread)
      → IsCalm p.scheduler
      → IsAfter p 0
          (zone_auto_start id d (w.time + d * 60) ∷ [])
          (update (start_scheduled id gid d w p.scheduler) p)
  unfolding start_scheduled schedule_zone_hard_stop
  start_scheduled-after id gid d w p h = record {
    calm =
        IsCalm-IsSameCalm p.scheduler (start_scheduled id gid d w p.scheduler)
          (record { is_set = refl; events = refl; skips = refl; shutdown = refl }) h;
    rows =
        SameRows-trans (switch_zones-SameRows id gid w p.scheduler.system) (
          plan_end-SameRows id (some (w.time + d * 60)) (switch_zones id gid w p.scheduler.system));
    clock = omega arith;
    log = refl;
  }

  end_zone-after :
      (id : ℕ) (w : World) (p : Thread)
      → IsCalm p.scheduler
      → IsAfter p 0 [] (update (end_zone id auto_stop w p.scheduler) p)
  end_zone-after id w p h =
      instant p (update (end_zone id auto_stop w p.scheduler) p)
        (IsCalm-IsSameCalm p.scheduler (end_zone id auto_stop w p.scheduler)
          (record { is_set = refl; events = refl; skips = refl; shutdown = refl }) h)
        (stop_zone-SameRows id auto_stop w p.scheduler.system) refl refl

  end_scheduled-after :
      (id gid : ℕ) (p : Thread)
      → IsCalm p.scheduler
      → IsAfter p (clamp_early o.early_off_seconds) [] (end_scheduled o id gid false p)
  unfolding end_scheduled
  end_scheduled-after id gid p h =
      let e = end_zone-after id (world_at o p) p h in
      IsAfter-trans e
        (wait_early-after gid (clamp_early o.early_off_seconds)
          (update (end_zone id auto_stop (world_at o p) p.scheduler) p) e.calm)
        (omega arith)

  water_zone-after :
      (id gid d : ℕ) (p : Thread)
      → d ≢ 0
      → IsCalm p.scheduler
      → IsAfter p
          (d * 60)
          (zone_auto_start id d (o.time + p.clock + d * 60) ∷ [])
          (water_zone o id gid d p)
  unfolding water_zone
  water_zone-after id gid d p positive h =
      let e = clamp_early o.early_off_seconds in
      let q = update (start_scheduled id gid d (world_at o p) p.scheduler) p in
      let s = start_scheduled-after id gid d (world_at o p) p h in
      let n = d * 60 - e in
      let (waited, unskipped) = wait-after gid n q s.calm in
      let r = (wait o (session_of gid) gid n q).0 in
      rw unskipped (
        IsAfter-trans (IsAfter-trans {total = n} s waited (omega arith))
          (end_scheduled-after id gid r waited.calm) (omega arith))

  own_duration : (manual : Bool) (base : ℕ) (p : Thread) → duration_of o manual base p ≡ base
  unfolding weather_adjusted
  own_duration true base p = refl
  own_duration false base p = rw (quiet.coefficient p.looks) refl

  unstale : (gid : ℕ) (s : Scheduler) → IsCalm s → clear_stale gid s ≡ s
  unstale gid s h = rw (clear_stale, h.skipped gid) refl

  unexpired :
      (id : ℕ) (z : Zone) (s : Scheduler) → z.postpone_until ≡ none → clear_expired id z s ≡ s
  unexpired id z s due = rw (clear_expired, due) refl

  -- A zone that is ready is watered.
  run_due-waters :
      (manual : Bool) (id : ℕ) (z : Zone) (p : Thread)
      → z.postpone_until ≡ none
      → z.duration ≢ 0
      → IsCalm p.scheduler
      → run_due o manual id z p ≡ water_zone o id z.group_id z.duration p
  unfolding run_due
  run_due-waters manual id z p due positive h =
      let q = update (clear_stale z.group_id p.scheduler) p in
      let r = update (clear_expired id z q.scheduler) q in
      let d = duration_of o manual z.duration q in
      let lasts : d ≡ z.duration = own_duration manual z.duration q in
      let unpostponed : is_postponed (world_at o q).time z ≡ false = rw (is_postponed, due) refl in
      let same : r ≡ p =
        ap (λ s. update s p) (unexpired id z q.scheduler due ∙ unstale z.group_id p.scheduler h) in
      rw (run_due, unpostponed)
        (rw (ap (λ n. nat_beq n 0) lasts ∙ not_zero z.duration positive)
          (ap₂ (λ n r. water_zone o id z.group_id n r) lasts same))

  run_program_zone-after :
      (manual : Bool) (id : ℕ) (p : Thread) (ready : IsReady p.scheduler.system id)
      → IsCalm p.scheduler
      → IsAfter p
          (ready.duration * 60)
          (zone_auto_start id ready.duration (o.time + p.clock + ready.duration * 60) ∷ [])
          (run_program_zone o manual id p)
  unfolding run_program_zone
  run_program_zone-after manual id p ready h =
      let q = look o p in
      let l = look-after p h in
      let row = l.rows.at id ∙ ready.row in
      let waters =
        λ (z : Zone) (q : Thread) (due : z.postpone_until ≡ none) (positive : z.duration ≢ 0)
            (h : IsCalm q.scheduler).
          subst
            (IsAfter q (z.duration * 60)
              (zone_auto_start id z.duration (o.time + q.clock + z.duration * 60) ∷ []))
            (sym (run_due-waters manual id z q due positive h))
            (water_zone-after id z.group_id z.duration q positive h) in
      elim (Option-cases (lookup id q.scheduler.system.zones)) [
        | inl missing ↦
            (let clash : none ≡ some (ready.duration, none) = sym (ap row_of missing) ∙ row in cc)
        | inr (z, there) ↦
            (let found : some (z.duration, z.postpone_until) ≡ some (ready.duration, none) =
                sym (ap row_of there) ∙ row in
              let lasts : z.duration ≡ ready.duration = cc in
              let due : z.postpone_until ≡ none = cc in
              rw
                (
                  run_program_zone,
                  there,
                  quiet.cancelled_today q.looks z.group_id,
                  l.calm.cancelled z.group_id,
                  sym lasts,
                )
                (IsAfter-trans l (waters z q due (λ e. ready.positive (sym lasts ∙ e)) l.calm)
                  (omega arith)))
      ]

  -- The zones one after the other.
  pub run_zones-after :
      (manual : Bool) (ids : List ℕ) (p : Thread)
      → All (IsReady p.scheduler.system) ids
      → IsCalm p.scheduler
      → IsAfter p
          (sum (durations p.scheduler.system ids) * 60)
          (plan (o.time + p.clock) p.scheduler.system ids)
          (run_zones o manual ids p)
  unfolding run_zones
  run_zones-after manual [] p ready h = instant p p h (same_rows p.scheduler.system) refl refl
  run_zones-after manual (id ∷ ids) p ready h =
      let q = run_program_zone o manual id p in
      let d = ready.0.duration in
      let first = run_program_zone-after manual id p ready.0 h in
      let rest =
        run_zones-after manual ids q
          (All-imp (IsReady p.scheduler.system) (IsReady q.scheduler.system) ids
            (λ k r. IsReady-SameRows k p.scheduler.system q.scheduler.system first.rows r) ready.1)
          first.calm in
      let lasts : duration_in p.scheduler.system id ≡ d =
        duration_in-ready id p.scheduler.system ready.0 in
      let later : o.time + q.clock ≡ o.time + p.clock + d * 60 = omega (arith, first.clock) in
      let planned : plan (o.time + q.clock) q.scheduler.system ids
          ≡ plan (o.time + p.clock + d * 60) p.scheduler.system ids =
        ap (λ t. plan t q.scheduler.system ids) later
        ∙ plan-SameRows (o.time + p.clock + d * 60) ids p.scheduler.system q.scheduler.system
            first.rows in
      let same = durations-SameRows ids p.scheduler.system q.scheduler.system first.rows in
      rw (lasts, sym planned) (IsAfter-trans first rest (omega (arith, ap sum same)))
